-- ===== src/Records/Txn/Encode.antt =====
-- `txn_rec::encode` of lib/jrnl/txn_rec.cpp writes the slice of the record that its page asks for.
use qpid_cpp_store_debian.Prelude.{
  ℕ, ◌+◌, ◌-◌, ◌*◌, ◌/◌, ◌^◌, ◌≤◌, ◌<◌, min, ◌≡◌, refl, ap, sym, ◌∙◌, true, false, Option, none,
  some, List, [], ◌++◌, length, take, drop, replicate, arith, length-append, dec_lt, ◌==◌, mul32,
  sub64, ◌||◌,
}
use qpid_cpp_store_debian.Prelude.Control.{ok}
use qpid_cpp_store_debian.Records.{
  tail_bytes, size_dblks, size_dblks_lem, clean_char, length-tail_bytes,
}
use qpid_cpp_store_debian.Records.Slices.{take_all}
use qpid_cpp_store_debian.Records.Copy.{
  Cursor, part_rest, part_rest_lem, bytes_at, is_null, clean_to,
}
use qpid_cpp_store_debian.Records.Chain.{
  first_two, split_two, rest_two, padded, first_done, split_done, rest_done, whole_done,
  regroup_two, first_split_ok, more_split_ok, last_tail_lem, blocks_of,
}
use qpid_cpp_store_debian.Records.Txn.{
  TxnRec, txn_hdr_bytes, length-txn_hdr_bytes, rec_size, size_of, encode, encode_first, encode_last,
  put_header, first_parts, first_whole, more_parts, last_parts,
}

-- The buffer holds the xid that the header announces, which is not empty, and the record is below 4 GB.
pub record IsSized (r : TxnRec) : Type 0 where
  pub xid_size : r.txn_hdr.xidsize ≡ length (bytes_at r.xidp)
  pub some_xid : 0 < r.txn_hdr.xidsize
  pub small : 36 + r.txn_hdr.xidsize < 2 ^ 32 - 128

-- What follows the header: xid and tail.
abbrev pub body : TxnRec → List ℕ
body r = bytes_at r.xidp ++ tail_bytes r.txn_tail

abbrev pub bytes_in : TxnRec → ℕ
bytes_in r = 36 + r.txn_hdr.xidsize

-- The data blocks of the record, and the record as it lies on disk: filled up to whole blocks.
abbrev pub dblks_in : TxnRec → ℕ
dblks_in r = (bytes_in r + 127) / 128

abbrev pub image : TxnRec → List ℕ
image r = padded (txn_hdr_bytes r.txn_hdr) (body r) (dblks_in r * 128 - bytes_in r) clean_char

module _ (r : TxnRec) (s : IsSized r) where
  pub length-body : 24 + length (body r) ≡ bytes_in r
  length-body = omega (
    arith,
    length-append (bytes_at r.xidp) (tail_bytes r.txn_tail),
    length-tail_bytes r.txn_tail,
    s.xid_size,
  )

  size_lem : size_of r ≡ bytes_in r
  unfolding rec_size
  size_lem = ground (arith, s.small, s.some_xid)

  pub total_lem : size_dblks (size_of r) ≡ dblks_in r
  total_lem = rw size_lem (size_dblks_lem (bytes_in r) (omega (arith, s.small)))

  more_lem :
      (o m : ℕ)
      → 24 ≤ o
      → 0 < m
      → o + m ≤ bytes_in r
      → more_parts r (record { rec_offs = o; rem = m; wr_cnt = 0; out = [] })
        ≡ record { rec_offs = 0; rem = 0; wr_cnt = m; out = take m (drop o (image r)) }
  unfolding more_parts
  more_lem o m h p k =
      split_two (bytes_at r.xidp) (tail_bytes r.txn_tail) s.xid_size
        (sym (length-tail_bytes r.txn_tail))
        (record { rec_offs = o - 24; rem = m; wr_cnt = 0; out = [] }) (λ e. absurd (omega arith))
      ∙ split_done (txn_hdr_bytes r.txn_hdr) (body r) (sym (length-txn_hdr_bytes r.txn_hdr)) m o
          (dblks_in r * 128 - bytes_in r) clean_char h p (omega (arith, length-body))

  first_split_lem :
      (m : ℕ)
      → 24 ≤ m
      → m ≤ bytes_in r
      → first_parts r (put_header r (record { rec_offs = 0; rem = m; wr_cnt = 0; out = [] }))
        ≡ record { rec_offs = 0; rem = 0; wr_cnt = m; out = take m (image r) }
  unfolding first_parts put_header
  first_split_lem m h k =
      first_two (bytes_at r.xidp) (tail_bytes r.txn_tail) s.xid_size
        (sym (length-tail_bytes r.txn_tail)) _
      ∙ first_done (txn_hdr_bytes r.txn_hdr) (body r) (sym (length-txn_hdr_bytes r.txn_hdr)) m
          (dblks_in r * 128 - bytes_in r) clean_char h (omega (arith, length-body))

  first_whole_lem :
      (m rem : ℕ)
      → dblks_in r * 128 ≤ m
      → first_whole r (put_header r (record { rec_offs = 0; rem = rem; wr_cnt = 0; out = [] }))
        ≡ ok (dblks_in r, take m (image r))
  unfolding first_whole put_header
  first_whole_lem m rem h = (λ i. ok (blocks i, bytes i))
    where
      blocks : size_dblks (24 + r.txn_hdr.xidsize + 12) ≡ dblks_in r
      blocks =
          size_dblks_lem _ (omega (arith, s.small))
          ∙ ap (λ k. (k + 127) / 128) {x = 24 + r.txn_hdr.xidsize + 12} {y = bytes_in r}
              (omega arith)

      pad : ℕ
      pad = mul32 (size_dblks (size_of r)) 128 - (24 + r.txn_hdr.xidsize + 12)

      padding : pad ≡ dblks_in r * 128 - bytes_in r
      padding = omega (arith, total_lem, s.small)

      bytes :
          ((([] ++ take 24 (txn_hdr_bytes r.txn_hdr)) ++ take r.txn_hdr.xidsize (bytes_at r.xidp))
              ++ take 12 (tail_bytes r.txn_tail))
            ++ replicate pad clean_char
          ≡ take m (image r)
      bytes =
          rw
            (
              take_all 24 (txn_hdr_bytes r.txn_hdr) (omega (arith, length-txn_hdr_bytes r.txn_hdr)),
              take_all r.txn_hdr.xidsize (bytes_at r.xidp) (omega (arith, s.xid_size)),
              take_all 12 (tail_bytes r.txn_tail) (omega (arith, length-tail_bytes r.txn_tail)),
              padding,
            )
            (regroup_two (txn_hdr_bytes r.txn_hdr) (bytes_at r.xidp) (tail_bytes r.txn_tail)
                (replicate (dblks_in r * 128 - bytes_in r) clean_char)
              ∙ whole_done (txn_hdr_bytes r.txn_hdr) (body r) (sym (length-txn_hdr_bytes r.txn_hdr))
                  m (dblks_in r * 128 - bytes_in r) clean_char (omega (arith, length-body)))

  last_lem :
      (offs m : ℕ)
      → 0 < offs
      → offs < dblks_in r
      → dblks_in r * 128 ≤ offs * 128 + m
      → encode_last r offs (record { rec_offs = offs * 128; rem = m; wr_cnt = 0; out = [] })
        ≡ ok (dblks_in r - offs, take m (drop (offs * 128) (image r)))
  unfolding encode_last last_parts
  last_lem offs m p q k =
      last_tail_lem (tail_bytes r.txn_tail) left d _ closed in_tail refl
      ∙ (λ i. ok (blocks i, bytes i))
    where
      c : Cursor
      c = record { rec_offs = offs * 128 - 24; rem = m; wr_cnt = 0; out = [] }

      d : Cursor
      d = part_rest true (bytes_at r.xidp) r.txn_hdr.xidsize c

      closed : part_rest true (tail_bytes r.txn_tail) 12 d ≡ record {
        rec_offs = 0;
        rem = m;
        wr_cnt = bytes_in r - offs * 128;
        out = drop (offs * 128 - 24) (body r);
      }
      closed =
          rest_two (bytes_at r.xidp) (tail_bytes r.txn_tail) s.xid_size
            (sym (length-tail_bytes r.txn_tail)) c
          ∙ part_rest_lem (body r) c
          ∙ ground (arith, length-body)

      in_tail : d.rec_offs < 12
      in_tail = rw (s.xid_size, part_rest_lem (bytes_at r.xidp) c) (omega (arith, s.xid_size))

      blocks : size_dblks (bytes_in r - offs * 128) ≡ dblks_in r - offs
      blocks = size_dblks_lem (bytes_in r - offs * 128) (omega (arith, s.small)) ∙ omega arith

      left : ℕ
      left = size_dblks (sub64 (size_of r) (mul32 offs 128))

      left_lem : left ≡ dblks_in r - offs
      left_lem =
          ap size_dblks {x = sub64 (size_of r) (mul32 offs 128)} {y = bytes_in r - offs * 128}
            (omega (arith, size_lem, s.small))
          ∙ blocks

      bytes :
          clean_to left (bytes_in r - offs * 128) (drop (offs * 128 - 24) (body r))
          ≡ take m (drop (offs * 128) (image r))
      bytes =
          ap (λ n. drop (offs * 128 - 24) (body r) ++ replicate n clean_char)
            {x = mul32 left 128 - (bytes_in r - offs * 128)} {y = dblks_in r * 128 - bytes_in r}
            (omega (arith, left_lem, s.small))
          ∙ rest_done (txn_hdr_bytes r.txn_hdr) (body r) (sym (length-txn_hdr_bytes r.txn_hdr)) m
              (offs * 128) (dblks_in r * 128 - bytes_in r) clean_char (omega arith)
              (omega (arith, length-body)) (omega (arith, length-body))

  first_lem :
      (m : ℕ)
      → 0 < m
      → m < 2 ^ 25
      → encode_first r m (record { rec_offs = 0; rem = m * 128; wr_cnt = 0; out = [] })
        ≡ ok (min m (dblks_in r), take (m * 128) (image r))
  unfolding encode_first
  first_lem m p q = elim (dec_lt m (dblks_in r)) [
    | yes h ↦ ground (
      arith,
      total_lem,
      first_split_lem (m * 128) (omega arith) (omega arith),
      size_dblks_lem (m * 128),
      first_split_ok (m * 128) (take (m * 128) (image r)),
    )
    | no h ↦ ground (arith, total_lem, first_whole_lem (m * 128) (m * 128) (omega arith))
  ]

null_or :
    (bytes : Option (List ℕ)) (n : ℕ)
    → n ≡ length (bytes_at bytes)
    → 0 < n
    → (is_null bytes || n == 0) ≡ false
null_or none n e h = ground arith
null_or (some l) n e h = ground arith

null_lem : (r : TxnRec) → IsSized r → (is_null r.xidp || r.txn_hdr.xidsize == 0) ≡ false
null_lem r s = null_or r.xidp r.txn_hdr.xidsize s.xid_size s.some_xid

-- Of a commit or abort record with an xid of the size in its header, below 4 GB in all, `encode` at the offset of a page writes exactly the bytes of the record
-- that lie in the page, filled up with clean bytes, and returns their number of data blocks: as many
-- as the page has room for, or all that are left. The page's room is positive and below 2 ^ 25 data
-- blocks, and the offset lies in the record.
pub encode_slice_txn :
    (r : TxnRec) (offs m : ℕ)
    → IsSized r
    → offs < dblks_in r
    → 0 < m
    → m < 2 ^ 25
    → encode r offs m ≡ ok (min m (dblks_in r - offs), take (m * 128) (drop (offs * 128) (image r)))
unfolding encode
encode_slice_txn r offs m s h p q = elim (dec_lt 0 offs) [
  | no z ↦ ground (arith, null_lem r s, blocks_of m q, blocks_of offs, first_lem r s m p q)
  | yes n ↦ elim (dec_lt m (dblks_in r - offs)) [
    | yes l ↦ ground (
      arith,
      null_lem r s,
      blocks_of m q,
      blocks_of offs (omega (arith, s.small)),
      total_lem r s,
      s.small,
      more_lem r s (offs * 128) (m * 128) (omega arith) (omega arith) (omega arith),
      more_split_ok (m * 128) (take (m * 128) (drop (offs * 128) (image r))),
      size_dblks_lem (m * 128),
    )
    | no g ↦ ground (
      arith,
      null_lem r s,
      blocks_of m q,
      blocks_of offs (omega (arith, s.small)),
      total_lem r s,
      s.small,
      last_lem r s offs (m * 128) (omega arith) h (omega arith),
    )
  ]
]
