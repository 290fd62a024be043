-- ===== src/Records/Deq.antt =====
-- lib/jrnl/deq_hdr.hpp and deq_rec.cpp: dequeue records and how they are written page by page.
pub mod Encode
pub mod Writer
use qpid_cpp_store_debian.Prelude.{
  ℕ, ◌+◌, ◌-◌, ◌≡◌, refl, Bool, true, false, not, ◌&&◌, ◌||◌, Option, none, some, List, [], ◌∷◌,
  ◌++◌, length, if◌then◌else◌, ◌==◌, ltb, u64, sub64, mul32, sub32,
}
use qpid_cpp_store_debian.Prelude.Control.{Result, ok, throw, assertion}
use qpid_cpp_store_debian.Records.{
  RecHdr, RecTail, hdr_bytes, tail_bytes, le, put_flag, has_flag, owi_mask, not32, deq_magic,
  jdat_version, size_dblks, dblk_size,
}
use qpid_cpp_store_debian.Records.Copy.{
  Cursor, part_split, part_rest, part_first, if_rem, memcpy, bytes_at, is_null, tail_size, clean_to,
  first_split, more_split, last_tail,
}

abbrev pub txn_coml_commit_mask : ℕ
txn_coml_commit_mask = 0x10

-- `deq_hdr`, 32 bytes
pub record DeqHdr : Type 0 where
  pub hdr : RecHdr
  pub deq_rid : ℕ
  pub xidsize : ℕ

pub record DeqRec : Type 0 where
  pub deq_hdr : DeqHdr
  pub xidp : Option (List ℕ)
  pub deq_tail : RecTail

abbrev pub deq_hdr_size : ℕ
deq_hdr_size = 32

unfoldable pub deq_hdr_bytes : DeqHdr → List ℕ
unfolding hdr_bytes
deq_hdr_bytes h = hdr_bytes h.hdr ++ (le 8 h.deq_rid ++ le 8 h.xidsize)

-- The default constructor: the fields that every later `reset` keeps.
unfoldable pub new_deq_rec : DeqRec
new_deq_rec = record {
  deq_hdr = record {
    hdr = record { magic = deq_magic; version = jdat_version; eflag = 0; uflag = 0; rid = 0 };
    deq_rid = 0;
    xidsize = 0;
  };
  xidp = none;
  deq_tail = record { xmagic = not32 deq_magic; rid = 0 };
}

-- `reset` for writing
unfoldable pub reset : ℕ → ℕ → Option (List ℕ) → ℕ → Bool → Bool → DeqRec → DeqRec
reset rid drid xidp xidlen owi txn_coml_commit r =
    let h = r.deq_hdr.hdr in
    let flags = put_flag txn_coml_commit_mask txn_coml_commit (put_flag owi_mask owi h.uflag) in
    record {
      deq_hdr = record {
        hdr = record h { rid = rid; uflag = flags };
        deq_rid = drid;
        xidsize = xidlen;
      };
      xidp = xidp;
      deq_tail = record r.deq_tail { rid = rid };
    }

-- `rec_size`: a dequeue without xid has no tail.
unfoldable pub rec_size : ℕ → ℕ
rec_size xidsize =
    u64 (deq_hdr_size + (if not (xidsize == 0) then u64 (xidsize + tail_size) else 0))

abbrev pub size_of : DeqRec → ℕ
size_of r = rec_size r.deq_hdr.xidsize

-- Beginning of the record: the header, which always fits into the first data block.
unfoldable pub put_header : DeqRec → Cursor → Cursor
put_header r c = record c {
  rem = c.rem - deq_hdr_size;
  wr_cnt = deq_hdr_size;
  out = memcpy (deq_hdr_bytes r.deq_hdr) 0 deq_hdr_size c.out;
}

-- "Split required"
unfoldable pub first_parts : DeqRec → Cursor → Cursor
first_parts r d =
    if_rem true (part_first (tail_bytes r.deq_tail) tail_size)
      (if_rem true (part_first (bytes_at r.xidp) r.deq_hdr.xidsize) d)

-- "No split required": xid and tail are there or missing together.
unfoldable pub first_whole : DeqRec → Cursor → Result (ℕ × List ℕ)
first_whole r d =
    let out1 = memcpy (bytes_at r.xidp) 0 r.deq_hdr.xidsize d.out in
    let wr1 = d.wr_cnt + r.deq_hdr.xidsize in
    let out2 = memcpy (tail_bytes r.deq_tail) 0 tail_size out1 in
    let wr2 = wr1 + tail_size in
    let out' = if not (r.deq_hdr.xidsize == 0) then out2 else d.out in
    let wr' = if not (r.deq_hdr.xidsize == 0) then wr2 else d.wr_cnt in
    ok (size_dblks wr', clean_to (size_dblks (size_of r)) wr' out')

unfoldable pub encode_first : DeqRec → ℕ → Cursor → Result (ℕ × List ℕ)
encode_first r max_size_dblks c =
    if ltb max_size_dblks (size_dblks (size_of r))
    then first_split (first_parts r (put_header r c))
    else first_whole r (put_header r c)

-- Continuation, "Further split required".
unfoldable pub more_parts : DeqRec → Cursor → Cursor
more_parts r c = if_rem true (part_split (tail_bytes r.deq_tail) tail_size) (
    part_split (bytes_at r.xidp) r.deq_hdr.xidsize
      (record c { rec_offs = c.rec_offs - deq_hdr_size }))

-- Continuation, "No further split required".
unfoldable pub last_parts : DeqRec → Cursor → Cursor
last_parts r c =
    part_rest true (bytes_at r.xidp) r.deq_hdr.xidsize
      (record c { rec_offs = c.rec_offs - deq_hdr_size })

unfoldable pub encode_last : DeqRec → ℕ → Cursor → Result (ℕ × List ℕ)
encode_last r rec_offs_dblks c =
    last_tail (tail_bytes r.deq_tail)
      (size_dblks (sub64 (size_of r) (mul32 rec_offs_dblks dblk_size))) (last_parts r c)

-- The number of data blocks written, and the bytes written at `wptr`.
unfoldable pub encode : DeqRec → ℕ → ℕ → Result (ℕ × List ℕ)
encode r rec_offs_dblks max_size_dblks =
    let c : Cursor = record {
      rec_offs = mul32 rec_offs_dblks dblk_size;
      rem = mul32 max_size_dblks dblk_size;
      wr_cnt = 0;
      out = [];
    } in
    if max_size_dblks == 0
    then throw assertion
    else if is_null r.xidp && not (r.deq_hdr.xidsize == 0)
    then throw assertion
    else if rec_offs_dblks == 0
    then encode_first r max_size_dblks c
    else if ltb max_size_dblks (sub32 (size_dblks (size_of r)) rec_offs_dblks)
    then more_split (more_parts r c)
    else encode_last r rec_offs_dblks c

pub length-deq_hdr_bytes : (h : DeqHdr) → length (deq_hdr_bytes h) ≡ 32
unfolding deq_hdr_bytes
length-deq_hdr_bytes h = refl
