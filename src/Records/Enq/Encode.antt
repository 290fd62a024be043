-- ===== src/Records/Enq/Encode.antt =====
-- `enq_rec::encode` of lib/jrnl/enq_rec.cpp writes the slice of the record that its page asks for.
use qpid_cpp_store_debian.Prelude.{
  ℕ, ◌+◌, ◌-◌, ◌*◌, ◌/◌, ◌^◌, ◌≤◌, ◌<◌, min, ◌≡◌, refl, ap, sym, ◌∙◌, true, false, not, List, [],
  ◌++◌, length, take, drop, replicate, arith, length-append, dec_lt, ◌==◌, mul32, sub64, ◌&&◌,
}
use qpid_cpp_store_debian.Prelude.Control.{ok}
use qpid_cpp_store_debian.Records.{
  tail_bytes, size_dblks, size_dblks_lem, clean_char, length-tail_bytes,
}
use qpid_cpp_store_debian.Records.Slices.{take_all}
use qpid_cpp_store_debian.Records.Copy.{
  bytes_at, is_null, clean_to, Cursor, part_rest, part_rest_lem,
}
use qpid_cpp_store_debian.Records.Chain.{
  first_three, split_three, rest_three, padded, first_done, split_done, rest_done, rest_two,
  whole_done, regroup_three, first_split_ok, more_split_ok, null_size, last_tail_lem, blocks_of,
}
use qpid_cpp_store_debian.Records.Enq.{
  EnqRec, is_external, enq_hdr_bytes, length-enq_hdr_bytes, rec_size, size_of, encode, encode_first,
  encode_last, put_header, first_parts, first_whole, more_parts, last_parts,
}

-- The buffers hold the bytes that the header announces, and the record is below 4 GB.
pub record IsSized (r : EnqRec) : Type 0 where
  pub xid_size : r.enq_hdr.xidsize ≡ length (bytes_at r.xidp)
  pub data_size : r.enq_hdr.dsize ≡ length (bytes_at r.payload)
  pub small : 44 + r.enq_hdr.xidsize + r.enq_hdr.dsize < 2 ^ 32 - 128

-- What follows the header: xid, data and tail.
abbrev pub body : EnqRec → List ℕ
body r = bytes_at r.xidp ++ (bytes_at r.payload ++ tail_bytes r.enq_tail)

abbrev pub bytes_in : EnqRec → ℕ
bytes_in r = 44 + r.enq_hdr.xidsize + r.enq_hdr.dsize

-- The data blocks of the record, and the record as it lies on disk: filled up to whole blocks.
abbrev pub dblks_in : EnqRec → ℕ
dblks_in r = (bytes_in r + 127) / 128

abbrev pub image : EnqRec → List ℕ
image r = padded (enq_hdr_bytes r.enq_hdr) (body r) (dblks_in r * 128 - bytes_in r) clean_char

null_lem : (r : EnqRec) → IsSized r → (is_null r.xidp && not (r.enq_hdr.xidsize == 0)) ≡ false
null_lem r s = null_size r.xidp r.enq_hdr.xidsize s.xid_size

module _ (r : EnqRec) (s : IsSized r) (internal : is_external r.enq_hdr ≡ false) where
  pub length-body : 32 + length (body r) ≡ bytes_in r
  length-body = omega (
    arith,
    length-append (bytes_at r.xidp) (bytes_at r.payload ++ tail_bytes r.enq_tail),
    length-append (bytes_at r.payload) (tail_bytes r.enq_tail),
    length-tail_bytes r.enq_tail,
    s.xid_size,
    s.data_size,
  )

  internal_size : rec_size r.enq_hdr.xidsize r.enq_hdr.dsize false ≡ bytes_in r
  unfolding rec_size
  internal_size = omega (arith, s.small)

  internal_total : size_dblks (rec_size r.enq_hdr.xidsize r.enq_hdr.dsize false) ≡ dblks_in r
  internal_total = rw internal_size (size_dblks_lem (bytes_in r) (omega (arith, s.small)))

  pub total_lem : size_dblks (size_of r) ≡ dblks_in r
  total_lem = rw internal internal_total

  more_lem :
      (o m : ℕ)
      → 32 ≤ o
      → 0 < m
      → o + m ≤ bytes_in r
      → more_parts r (record { rec_offs = o; rem = m; wr_cnt = 0; out = [] })
        ≡ record { rec_offs = 0; rem = 0; wr_cnt = m; out = take m (drop o (image r)) }
  unfolding more_parts
  more_lem o m h p k = rw internal (
      split_three (bytes_at r.xidp) (bytes_at r.payload) (tail_bytes r.enq_tail) s.xid_size
        s.data_size (sym (length-tail_bytes r.enq_tail))
        (record { rec_offs = o - 32; rem = m; wr_cnt = 0; out = [] }) (λ e. absurd (omega arith))
      ∙ split_done (enq_hdr_bytes r.enq_hdr) (body r) (sym (length-enq_hdr_bytes r.enq_hdr)) m o
          (dblks_in r * 128 - bytes_in r) clean_char h p (omega (arith, length-body)))

  first_split_lem :
      (m : ℕ)
      → 32 ≤ m
      → m ≤ bytes_in r
      → first_parts r (put_header r (record { rec_offs = 0; rem = m; wr_cnt = 0; out = [] }))
        ≡ record { rec_offs = 0; rem = 0; wr_cnt = m; out = take m (image r) }
  unfolding first_parts put_header
  first_split_lem m h k = rw internal (
      first_three (bytes_at r.xidp) (bytes_at r.payload) (tail_bytes r.enq_tail) s.xid_size
        s.data_size (sym (length-tail_bytes r.enq_tail)) _
      ∙ first_done (enq_hdr_bytes r.enq_hdr) (body r) (sym (length-enq_hdr_bytes r.enq_hdr)) m
          (dblks_in r * 128 - bytes_in r) clean_char h (omega (arith, length-body)))

  first_whole_lem :
      (m rem : ℕ)
      → dblks_in r * 128 ≤ m
      → first_whole r (put_header r (record { rec_offs = 0; rem = rem; wr_cnt = 0; out = [] }))
        ≡ ok (dblks_in r, take m (image r))
  unfolding first_whole put_header
  first_whole_lem m rem h = rw internal (λ i. ok (blocks i, bytes i))
    where
      blocks : size_dblks (32 + r.enq_hdr.xidsize + r.enq_hdr.dsize + 12) ≡ dblks_in r
      blocks =
          size_dblks_lem _ (omega (arith, s.small))
          ∙ ap (λ k. (k + 127) / 128) {x = 32 + r.enq_hdr.xidsize + r.enq_hdr.dsize + 12}
              {y = bytes_in r} (omega arith)

      pad : ℕ
      pad =
          mul32 (size_dblks (rec_size r.enq_hdr.xidsize r.enq_hdr.dsize false)) 128
          - (32 + r.enq_hdr.xidsize + r.enq_hdr.dsize + 12)

      padding : pad ≡ dblks_in r * 128 - bytes_in r
      padding = omega (arith, internal_total, s.small)

      bytes :
          (((([] ++ take 32 (enq_hdr_bytes r.enq_hdr)) ++ take r.enq_hdr.xidsize (bytes_at r.xidp))
                ++ take r.enq_hdr.dsize (bytes_at r.payload))
              ++ take 12 (tail_bytes r.enq_tail))
            ++ replicate pad clean_char
          ≡ take m (image r)
      bytes =
          rw
            (
              take_all 32 (enq_hdr_bytes r.enq_hdr) (omega (arith, length-enq_hdr_bytes r.enq_hdr)),
              take_all r.enq_hdr.xidsize (bytes_at r.xidp) (omega (arith, s.xid_size)),
              take_all r.enq_hdr.dsize (bytes_at r.payload) (omega (arith, s.data_size)),
              take_all 12 (tail_bytes r.enq_tail) (omega (arith, length-tail_bytes r.enq_tail)),
              padding,
            )
            (regroup_three (enq_hdr_bytes r.enq_hdr) (bytes_at r.xidp) (bytes_at r.payload)
                (tail_bytes r.enq_tail) (replicate (dblks_in r * 128 - bytes_in r) clean_char)
              ∙ whole_done (enq_hdr_bytes r.enq_hdr) (body r) (sym (length-enq_hdr_bytes r.enq_hdr))
                  m (dblks_in r * 128 - bytes_in r) clean_char (omega (arith, length-body)))

  last_lem :
      (offs m : ℕ)
      → 0 < offs
      → offs < dblks_in r
      → dblks_in r * 128 ≤ offs * 128 + m
      → encode_last r offs (record { rec_offs = offs * 128; rem = m; wr_cnt = 0; out = [] })
        ≡ ok (dblks_in r - offs, take m (drop (offs * 128) (image r)))
  unfolding encode_last last_parts
  last_lem offs m p q k = rw internal (
      last_tail_lem (tail_bytes r.enq_tail) left d _ closed in_tail refl
      ∙ (λ i. ok (blocks i, bytes i)))
    where
      c : Cursor
      c = record { rec_offs = offs * 128 - 32; rem = m; wr_cnt = 0; out = [] }

      d : Cursor
      d =
          part_rest true (bytes_at r.payload) r.enq_hdr.dsize
            (part_rest true (bytes_at r.xidp) r.enq_hdr.xidsize c)

      closed : part_rest true (tail_bytes r.enq_tail) 12 d ≡ record {
        rec_offs = 0;
        rem = m;
        wr_cnt = bytes_in r - offs * 128;
        out = drop (offs * 128 - 32) (body r);
      }
      closed =
          rest_three (bytes_at r.xidp) (bytes_at r.payload) (tail_bytes r.enq_tail) s.xid_size
            s.data_size (sym (length-tail_bytes r.enq_tail)) c
          ∙ part_rest_lem (body r) c
          ∙ ground (arith, length-body)

      in_tail : d.rec_offs < 12
      in_tail =
          rw
            (
              rest_two (bytes_at r.xidp) (bytes_at r.payload) s.xid_size s.data_size c,
              part_rest_lem (bytes_at r.xidp ++ bytes_at r.payload) c,
            )
            (omega (
              arith,
              length-append (bytes_at r.xidp) (bytes_at r.payload),
              s.xid_size,
              s.data_size,
            ))

      blocks : size_dblks (bytes_in r - offs * 128) ≡ dblks_in r - offs
      blocks = size_dblks_lem (bytes_in r - offs * 128) (omega (arith, s.small)) ∙ omega arith

      left : ℕ
      left =
          size_dblks (sub64 (rec_size r.enq_hdr.xidsize r.enq_hdr.dsize false) (mul32 (offs) 128))

      left_lem : left ≡ dblks_in r - offs
      left_lem =
          ap size_dblks
            {x = sub64 (rec_size r.enq_hdr.xidsize r.enq_hdr.dsize false) (mul32 (offs) 128)}
            {y = bytes_in r - offs * 128} (omega (arith, internal_size, s.small))
          ∙ blocks

      bytes :
          clean_to left (bytes_in r - offs * 128) (drop (offs * 128 - 32) (body r))
          ≡ take m (drop (offs * 128) (image r))
      bytes =
          ap (λ n. drop (offs * 128 - 32) (body r) ++ replicate n clean_char)
            {x = mul32 left 128 - (bytes_in r - offs * 128)} {y = dblks_in r * 128 - bytes_in r}
            (omega (arith, left_lem, s.small))
          ∙ rest_done (enq_hdr_bytes r.enq_hdr) (body r) (sym (length-enq_hdr_bytes r.enq_hdr)) m
              (offs * 128) (dblks_in r * 128 - bytes_in r) clean_char (omega arith)
              (omega (arith, length-body)) (omega (arith, length-body))

  first_lem :
      (m : ℕ)
      → 0 < m
      → m < 2 ^ 25
      → encode_first r m (record { rec_offs = 0; rem = m * 128; wr_cnt = 0; out = [] })
        ≡ ok (min m (dblks_in r), take (m * 128) (image r))
  unfolding encode_first
  first_lem m p q = elim (dec_lt m (dblks_in r)) [
    | yes h ↦ ground (
      arith,
      total_lem,
      first_split_lem (m * 128) (omega arith) (omega arith),
      size_dblks_lem (m * 128),
      first_split_ok (m * 128) (take (m * 128) (image r)),
    )
    | no h ↦ ground (arith, total_lem, first_whole_lem (m * 128) (m * 128) (omega arith))
  ]

-- Of a record whose data is in the journal and whose buffers have the sizes of its header, below
-- 4 GB in all, `encode` at the offset of a page writes exactly the
-- bytes of the record that lie in the page, filled up with clean bytes, and returns their number of
-- data blocks: as many as the page has room for, or all that are left. The page's room is positive
-- and below 2 ^ 25 data blocks, and the offset lies in the record.
pub encode_slice :
    (r : EnqRec) (offs m : ℕ)
    → IsSized r
    → is_external r.enq_hdr ≡ false
    → offs < dblks_in r
    → 0 < m
    → m < 2 ^ 25
    → encode r offs m ≡ ok (min m (dblks_in r - offs), take (m * 128) (drop (offs * 128) (image r)))
unfolding encode
encode_slice r offs m s internal h p q = elim (dec_lt 0 offs) [
  | no z ↦ ground (arith, null_lem r s, blocks_of m q, blocks_of offs, first_lem r s internal m p q)
  | yes n ↦ elim (dec_lt m (dblks_in r - offs)) [
    | yes l ↦ ground (
      arith,
      null_lem r s,
      blocks_of m q,
      blocks_of offs (omega (arith, s.small)),
      total_lem r s internal,
      s.small,
      more_lem r s internal (offs * 128) (m * 128) (omega arith) (omega arith) (omega arith),
      more_split_ok (m * 128) (take (m * 128) (drop (offs * 128) (image r))),
      size_dblks_lem (m * 128),
    )
    | no g ↦ ground (
      arith,
      null_lem r s,
      blocks_of m q,
      blocks_of offs (omega (arith, s.small)),
      total_lem r s internal,
      s.small,
      last_lem r s internal offs (m * 128) (omega arith) h (omega arith),
    )
  ]
]
