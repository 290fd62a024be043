-- ===== src/Records/Txn.antt =====
-- lib/jrnl/txn_hdr.hpp and txn_rec.cpp: commit and abort records and how they are written page by page.
pub mod Encode
pub mod Writer
use qpid_cpp_store_debian.Prelude.{
  ℕ, ◌+◌, ◌-◌, ◌≡◌, refl, Bool, true, false, not, ◌&&◌, ◌||◌, Option, none, some, List, [], ◌∷◌,
  ◌++◌, length, if◌then◌else◌, ◌==◌, ltb, u64, sub64, mul32, sub32,
}
use qpid_cpp_store_debian.Prelude.Control.{Result, ok, throw, assertion}
use qpid_cpp_store_debian.Records.{
  RecHdr, RecTail, hdr_bytes, tail_bytes, le, put_flag, has_flag, owi_mask, not32, deq_magic,
  jdat_version, size_dblks, dblk_size,
}
use qpid_cpp_store_debian.Records.Copy.{
  Cursor, part_split, part_rest, part_first, if_rem, memcpy, bytes_at, is_null, tail_size, clean_to,
  first_split, more_split, last_tail,
}

-- `txn_hdr`, 24 bytes
pub record TxnHdr : Type 0 where
  pub hdr : RecHdr
  pub xidsize : ℕ

pub record TxnRec : Type 0 where
  pub txn_hdr : TxnHdr
  pub xidp : Option (List ℕ)
  pub txn_tail : RecTail

abbrev pub txn_hdr_size : ℕ
txn_hdr_size = 24

unfoldable pub txn_hdr_bytes : TxnHdr → List ℕ
unfolding hdr_bytes
txn_hdr_bytes h = hdr_bytes h.hdr ++ le 8 h.xidsize

-- The default constructor: the fields that every later `reset` keeps.
unfoldable pub new_txn_rec : TxnRec
new_txn_rec = record {
  txn_hdr = record {
    hdr = record { magic = 0; version = jdat_version; eflag = 0; uflag = 0; rid = 0 };
    xidsize = 0;
  };
  xidp = none;
  txn_tail = record { xmagic = not32 0; rid = 0 };
}

-- `reset` for writing
unfoldable pub reset : ℕ → ℕ → Option (List ℕ) → ℕ → Bool → TxnRec → TxnRec
reset magic rid xidp xidlen owi r =
    let h = r.txn_hdr.hdr in
    record {
      txn_hdr = record {
        hdr = record h { magic = magic; rid = rid; uflag = put_flag owi_mask owi h.uflag };
        xidsize = xidlen;
      };
      xidp = xidp;
      txn_tail = record { xmagic = not32 magic; rid = rid };
    }

unfoldable pub rec_size : ℕ → ℕ
rec_size xidsize = u64 (txn_hdr_size + xidsize + tail_size)

abbrev pub size_of : TxnRec → ℕ
size_of r = rec_size r.txn_hdr.xidsize

-- Beginning of the record: the header, which always fits into the first data block.
unfoldable pub put_header : TxnRec → Cursor → Cursor
put_header r c = record c {
  rem = c.rem - txn_hdr_size;
  wr_cnt = txn_hdr_size;
  out = memcpy (txn_hdr_bytes r.txn_hdr) 0 txn_hdr_size c.out;
}

-- "Split required"
unfoldable pub first_parts : TxnRec → Cursor → Cursor
first_parts r d =
    if_rem true (part_first (tail_bytes r.txn_tail) tail_size)
      (if_rem true (part_first (bytes_at r.xidp) r.txn_hdr.xidsize) d)

-- "No split required"
unfoldable pub first_whole : TxnRec → Cursor → Result (ℕ × List ℕ)
first_whole r d =
    let out1 = memcpy (bytes_at r.xidp) 0 r.txn_hdr.xidsize d.out in
    let wr1 = d.wr_cnt + r.txn_hdr.xidsize in
    let out2 = memcpy (tail_bytes r.txn_tail) 0 tail_size out1 in
    let wr2 = wr1 + tail_size in ok (size_dblks wr2, clean_to (size_dblks (size_of r)) wr2 out2)

unfoldable pub encode_first : TxnRec → ℕ → Cursor → Result (ℕ × List ℕ)
encode_first r max_size_dblks c =
    if ltb max_size_dblks (size_dblks (size_of r))
    then first_split (first_parts r (put_header r c))
    else first_whole r (put_header r c)

-- Continuation, "Further split required".
unfoldable pub more_parts : TxnRec → Cursor → Cursor
more_parts r c = if_rem true (part_split (tail_bytes r.txn_tail) tail_size) (
    part_split (bytes_at r.xidp) r.txn_hdr.xidsize
      (record c { rec_offs = c.rec_offs - txn_hdr_size }))

-- Continuation, "No further split required".
unfoldable pub last_parts : TxnRec → Cursor → Cursor
last_parts r c =
    part_rest true (bytes_at r.xidp) r.txn_hdr.xidsize
      (record c { rec_offs = c.rec_offs - txn_hdr_size })

unfoldable pub encode_last : TxnRec → ℕ → Cursor → Result (ℕ × List ℕ)
encode_last r rec_offs_dblks c =
    last_tail (tail_bytes r.txn_tail)
      (size_dblks (sub64 (size_of r) (mul32 rec_offs_dblks dblk_size))) (last_parts r c)

-- The number of data blocks written, and the bytes written at `wptr`.
unfoldable pub encode : TxnRec → ℕ → ℕ → Result (ℕ × List ℕ)
encode r rec_offs_dblks max_size_dblks =
    let c : Cursor = record {
      rec_offs = mul32 rec_offs_dblks dblk_size;
      rem = mul32 max_size_dblks dblk_size;
      wr_cnt = 0;
      out = [];
    } in
    if max_size_dblks == 0
    then throw assertion
    else if is_null r.xidp || r.txn_hdr.xidsize == 0
    then throw assertion
    else if rec_offs_dblks == 0
    then encode_first r max_size_dblks c
    else if ltb max_size_dblks (sub32 (size_dblks (size_of r)) rec_offs_dblks)
    then more_split (more_parts r c)
    else encode_last r rec_offs_dblks c

pub length-txn_hdr_bytes : (h : TxnHdr) → length (txn_hdr_bytes h) ≡ 24
unfolding txn_hdr_bytes
length-txn_hdr_bytes h = refl
