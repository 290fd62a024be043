-- ===== src/Records/Enq.antt =====
-- lib/jrnl/enq_hdr.hpp and enq_rec.cpp: enqueue records and how they are written page by page.
pub mod Encode
pub mod Writer
pub mod External
use qpid_cpp_store_debian.Prelude.{
  ℕ, ◌+◌, ◌-◌, ◌^◌, ◌≡◌, refl, Bool, true, false, not, ◌&&◌, Option, none, some, List, [], ◌∷◌,
  ◌++◌, length, length-append, replicate, if◌then◌else◌, ◌==◌, ltb, u64, add64, sub64, mul32, sub32,
  arith,
}
use qpid_cpp_store_debian.Prelude.Control.{Result, ok, throw, assertion}
use qpid_cpp_store_debian.Records.{
  RecHdr, RecTail, hdr_bytes, tail_bytes, le, put_flag, has_flag, owi_mask, not32, enq_magic,
  jdat_version, size_dblks, dblk_size, clean_char, length-hdr_bytes, length-le,
}
use qpid_cpp_store_debian.Records.Copy.{
  Cursor, part_split, part_rest, part_first, if_rem, memcpy, bytes_at, is_null, tail_size, clean_to,
  first_split, more_split, last_tail,
}

abbrev pub transient_mask : ℕ
transient_mask = 0x10

abbrev pub external_mask : ℕ
external_mask = 0x20

-- `enq_hdr`, 32 bytes
pub record EnqHdr : Type 0 where
  pub hdr : RecHdr
  pub xidsize : ℕ
  pub dsize : ℕ

pub record EnqRec : Type 0 where
  pub enq_hdr : EnqHdr
  pub xidp : Option (List ℕ)
  pub payload : Option (List ℕ)
  pub enq_tail : RecTail

abbrev pub is_external : EnqHdr → Bool
is_external h = has_flag external_mask h.hdr.uflag

abbrev pub enq_hdr_size : ℕ
enq_hdr_size = 32

unfoldable pub enq_hdr_bytes : EnqHdr → List ℕ
unfolding hdr_bytes
enq_hdr_bytes h = hdr_bytes h.hdr ++ (le 8 h.xidsize ++ le 8 h.dsize)

-- The default constructor: the fields that every later `reset` keeps.
unfoldable pub new_enq_rec : EnqRec
new_enq_rec = record {
  enq_hdr = record {
    hdr = record { magic = enq_magic; version = jdat_version; eflag = 0; uflag = 0; rid = 0 };
    xidsize = 0;
    dsize = 0;
  };
  xidp = none;
  payload = none;
  enq_tail = record { xmagic = not32 enq_magic; rid = 0 };
}

-- `reset` for writing. `payload` is the buffer `dbuf` of `dlen` bytes.
unfoldable pub reset :
    ℕ → Option (List ℕ) → ℕ → Option (List ℕ) → ℕ → Bool → Bool → Bool → EnqRec → EnqRec
reset rid dbuf dlen xidp xidlen owi transient external r =
    let h = r.enq_hdr.hdr in
    let flags =
      put_flag external_mask external
        (put_flag transient_mask transient (put_flag owi_mask owi h.uflag)) in
    record {
      enq_hdr = record {
        hdr = record h { rid = rid; uflag = flags };
        xidsize = xidlen;
        dsize = dlen;
      };
      xidp = xidp;
      payload = dbuf;
      enq_tail = record r.enq_tail { rid = rid };
    }

-- `rec_size(xidsize, dsize, external)`
unfoldable pub rec_size : ℕ → ℕ → Bool → ℕ
rec_size xidsize dsize external =
    if external
    then u64 (enq_hdr_size + xidsize + tail_size)
    else u64 (enq_hdr_size + xidsize + dsize + tail_size)

abbrev pub size_of : EnqRec → ℕ
size_of r = rec_size r.enq_hdr.xidsize r.enq_hdr.dsize (is_external r.enq_hdr)

-- Beginning of the record: the header, which always fits into the first data block.
unfoldable pub put_header : EnqRec → Cursor → Cursor
put_header r c = record c {
  rem = c.rem - enq_hdr_size;
  wr_cnt = enq_hdr_size;
  out = memcpy (enq_hdr_bytes r.enq_hdr) 0 enq_hdr_size c.out;
}

-- "Split required"
unfoldable pub first_parts : EnqRec → Cursor → Cursor
first_parts r d = if_rem true (part_first (tail_bytes r.enq_tail) tail_size) (
    if_rem (not (is_external r.enq_hdr)) (part_first (bytes_at r.payload) r.enq_hdr.dsize)
      (if_rem true (part_first (bytes_at r.xidp) r.enq_hdr.xidsize) d))

-- "No split required"
unfoldable pub first_whole : EnqRec → Cursor → Result (ℕ × List ℕ)
first_whole r d =
    let h = r.enq_hdr in
    let out1 = memcpy (bytes_at r.xidp) 0 h.xidsize d.out in
    let wr1 = d.wr_cnt + h.xidsize in
    let out2 = if is_external h then out1 else memcpy (bytes_at r.payload) 0 h.dsize out1 in
    let wr2 = if is_external h then wr1 else wr1 + h.dsize in
    let out3 = memcpy (tail_bytes r.enq_tail) 0 tail_size out2 in
    let wr3 = wr2 + tail_size in ok (size_dblks wr3, clean_to (size_dblks (size_of r)) wr3 out3)

unfoldable pub encode_first : EnqRec → ℕ → Cursor → Result (ℕ × List ℕ)
encode_first r max_size_dblks c =
    if ltb max_size_dblks (size_dblks (size_of r))
    then first_split (first_parts r (put_header r c))
    else first_whole r (put_header r c)

-- Continuation, "Further split required".
unfoldable pub more_parts : EnqRec → Cursor → Cursor
more_parts r c = if_rem true (part_split (tail_bytes r.enq_tail) tail_size) (
    if_rem (not (is_external r.enq_hdr)) (part_split (bytes_at r.payload) r.enq_hdr.dsize) (
      part_split (bytes_at r.xidp) r.enq_hdr.xidsize
        (record c { rec_offs = c.rec_offs - enq_hdr_size })))

-- Continuation, "No further split required": xid and data. The offset into the record loses the
-- data's size whether or not the data is external.
unfoldable pub last_parts : EnqRec → Cursor → Cursor
last_parts r c = part_rest (not (is_external r.enq_hdr)) (bytes_at r.payload) r.enq_hdr.dsize (
    part_rest true (bytes_at r.xidp) r.enq_hdr.xidsize
      (record c { rec_offs = c.rec_offs - enq_hdr_size }))

unfoldable pub encode_last : EnqRec → ℕ → Cursor → Result (ℕ × List ℕ)
encode_last r rec_offs_dblks c =
    last_tail (tail_bytes r.enq_tail)
      (size_dblks (sub64 (size_of r) (mul32 rec_offs_dblks dblk_size))) (last_parts r c)

-- The number of data blocks written, and the bytes written at `wptr`.
unfoldable pub encode : EnqRec → ℕ → ℕ → Result (ℕ × List ℕ)
encode r rec_offs_dblks max_size_dblks =
    let c : Cursor = record {
      rec_offs = mul32 rec_offs_dblks dblk_size;
      rem = mul32 max_size_dblks dblk_size;
      wr_cnt = 0;
      out = [];
    } in
    if max_size_dblks == 0
    then throw assertion
    else if is_null r.xidp && not (r.enq_hdr.xidsize == 0)
    then throw assertion
    else if rec_offs_dblks == 0
    then encode_first r max_size_dblks c
    else if ltb max_size_dblks (sub32 (size_dblks (size_of r)) rec_offs_dblks)
    then more_split (more_parts r c)
    else encode_last r rec_offs_dblks c

pub length-enq_hdr_bytes : (h : EnqHdr) → length (enq_hdr_bytes h) ≡ 32
unfolding enq_hdr_bytes
length-enq_hdr_bytes h = refl
