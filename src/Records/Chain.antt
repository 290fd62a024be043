-- ===== src/Records/Chain.antt =====
-- Chains of the copies of `Copy`: the parts of a record copied in turn are one part, their
-- concatenation, copied at once. The sizes are those that the record's header gives.
use qpid_cpp_store_debian.Prelude.{
  ℕ, ◌+◌, ◌-◌, ◌≤◌, ◌<◌, ◌≡◌, refl, ap, sym, ◌∙◌, true, List, [], ◌++◌, length, take, drop,
  replicate, arith, length-append, length-replicate, length-drop,
}
use mathlib.Core.List.{append-nil, append_assoc}
use qpid_cpp_store_debian.Prelude.Control.{ok}
use qpid_cpp_store_debian.Prelude.{Option, none, some, not, ◌&&◌, ◌==◌, false, ◌*◌, ◌^◌, mul32}
use qpid_cpp_store_debian.Records.{size_dblks}
use qpid_cpp_store_debian.Records.Slices.{take-append, drop-append, take_all, drop_all}
use qpid_cpp_store_debian.Records.Copy.{
  Cursor, part_split, part_first, part_rest, if_rem, part_split_lem, part_first_lem, split-split,
  first-first, rest-rest, NoOffset, NoOffset-part_split, if_rem-part_split, if_rem-part_first,
  bytes_at, is_null, clean_to, first_split, more_split, last_tail,
}

module _ (xs ys : List ℕ) {m n : ℕ} (hx : m ≡ length xs) (hy : n ≡ length ys) (c : Cursor) where
  pub first_two :
      if_rem true (part_first ys n) (if_rem true (part_first xs m) c)
      ≡ part_first (xs ++ ys) (length (xs ++ ys)) c
  first_two = rw (hx, hy, if_rem-part_first xs, if_rem-part_first ys) (first-first xs ys c)

  pub split_two :
      NoOffset c
      → if_rem true (part_split ys n) (part_split xs m c)
        ≡ part_split (xs ++ ys) (length (xs ++ ys)) c
  split_two h =
      rw (hx, hy, if_rem-part_split ys (part_split xs (length xs) c) (NoOffset-part_split xs c h))
        (split-split xs ys c)

  pub rest_two :
      part_rest true ys n (part_rest true xs m c) ≡ part_rest true (xs ++ ys) (length (xs ++ ys)) c
  rest_two = rw (hx, hy) (rest-rest xs ys c)

module _ (xs ys zs : List ℕ) {m n k : ℕ} (hx : m ≡ length xs) (hy : n ≡ length ys)
    (hz : k ≡ length zs) (c : Cursor) where
  pub first_three :
      if_rem true
        (part_first zs k)
        (if_rem true (part_first ys n) (if_rem true (part_first xs m) c))
      ≡ part_first (xs ++ (ys ++ zs)) (length (xs ++ (ys ++ zs))) c
  first_three =
      rw (first_two xs ys hx hy c, hz, if_rem-part_first zs)
        (first-first (xs ++ ys) zs c ∙ ap (λ l. part_first l (length l) c) (append_assoc xs ys zs))

  pub split_three :
      NoOffset c
      → if_rem true (part_split zs k) (if_rem true (part_split ys n) (part_split xs m c))
        ≡ part_split (xs ++ (ys ++ zs)) (length (xs ++ (ys ++ zs))) c
  split_three h =
      rw
        (
          split_two xs ys hx hy c h,
          hz,
          if_rem-part_split zs (part_split (xs ++ ys) (length (xs ++ ys)) c)
              (NoOffset-part_split (xs ++ ys) c h),
        )
        (split-split (xs ++ ys) zs c ∙ ap (λ l. part_split l (length l) c) (append_assoc xs ys zs))

  pub rest_three :
      part_rest true zs k (part_rest true ys n (part_rest true xs m c))
      ≡ part_rest true (xs ++ (ys ++ zs)) (length (xs ++ (ys ++ zs))) c
  rest_three =
      rw (rest_two xs ys hx hy c, hz)
        (rest-rest (xs ++ ys) zs c
          ∙ ap (λ l. part_rest true l (length l) c) (append_assoc xs ys zs))

-- The record's bytes, with `pad` clean bytes behind them.
abbrev pub padded : List ℕ → List ℕ → ℕ → ℕ → List ℕ
padded head rest pad char = head ++ (rest ++ replicate pad char)

pub regroup_two : (h x t p : List ℕ) → ((([] ++ h) ++ x) ++ t) ++ p ≡ h ++ ((x ++ t) ++ p)
regroup_two h x t p = simp append_assoc

pub regroup_three :
    (h x d t p : List ℕ) → (((([] ++ h) ++ x) ++ d) ++ t) ++ p ≡ h ++ ((x ++ (d ++ t)) ++ p)
regroup_three h x d t p = simp append_assoc

-- `n` is the header's size.
module _ (head rest : List ℕ) {n : ℕ} (hn : n ≡ length head) where
  -- A page that the record overfills holds a prefix of its bytes.
  pub first_done :
      (m pad char : ℕ)
      → n ≤ m
      → m ≤ n + length rest
      → part_first rest
          (length rest)
          (record { rec_offs = 0; rem = m - n; wr_cnt = n; out = [] ++ take n (drop 0 head) })
        ≡ record { rec_offs = 0; rem = 0; wr_cnt = m; out = take m (padded head rest pad char) }
  first_done m pad char h k =
      part_first_lem rest _
      ∙ ground (
        arith,
        hn,
        take_all n head,
        take-append m head (rest ++ replicate pad char),
        take_all m head,
        take-append (m - n) rest (replicate pad char),
        append-nil (take (m - n) rest),
      )

  -- A page in the middle of the record holds the slice from its offset.
  pub split_done :
      (m o pad char : ℕ)
      → n ≤ o
      → 0 < m
      → o + m ≤ n + length rest
      → part_split rest (length rest) (record { rec_offs = o - n; rem = m; wr_cnt = 0; out = [] })
        ≡ record {
          rec_offs = 0;
          rem = 0;
          wr_cnt = m;
          out = take m (drop o (padded head rest pad char));
        }
  split_done m o pad char h p k =
      part_split_lem rest _
      ∙ ground (
        arith,
        hn,
        drop-append o head (rest ++ replicate pad char),
        drop_all o head,
        drop-append (o - n) rest (replicate pad char),
        take-append m (drop (o - n) rest) (drop (o - n - length rest) (replicate pad char)),
        length-drop (o - n) rest,
        append-nil (take m (drop (o - n) rest)),
      )

  -- The last page holds the rest of the record and the clean bytes.
  pub rest_done :
      (m o pad char : ℕ)
      → n ≤ o
      → o ≤ n + length rest
      → n + length rest + pad ≤ o + m
      → drop (o - n) rest ++ replicate pad char ≡ take m (drop o (padded head rest pad char))
  rest_done m o pad char h p k = ground (
    arith,
    hn,
    drop-append o head (rest ++ replicate pad char),
    drop_all o head,
    drop-append (o - n) rest (replicate pad char),
    take_all m (drop (o - n) rest ++ replicate pad char),
    length-append (drop (o - n) rest) (replicate pad char),
    length-replicate pad char,
    length-drop (o - n) rest,
  )

  -- A page with room for the whole record.
  pub whole_done :
      (m pad char : ℕ)
      → n + length rest + pad ≤ m
      → padded head rest pad char ≡ take m (padded head rest pad char)
  whole_done m pad char h = sym (
      take_all m (padded head rest pad char) (
        omega (
          arith,
          hn,
          length-append head (rest ++ replicate pad char),
          length-append rest (replicate pad char),
          length-replicate pad char,
        )))

-- A page filled to its end.
pub first_split_ok :
    (m : ℕ) (out : List ℕ)
    → first_split (record { rec_offs = 0; rem = 0; wr_cnt = m; out = out }) ≡ ok (size_dblks m, out)
unfolding first_split
first_split_ok m out = refl

pub more_split_ok :
    (m : ℕ) (out : List ℕ)
    → more_split (record { rec_offs = 0; rem = 0; wr_cnt = m; out = out }) ≡ ok (size_dblks m, out)
unfolding more_split
more_split_ok m out = refl

pub null_size :
    (bytes : Option (List ℕ)) (n : ℕ)
    → n ≡ length (bytes_at bytes)
    → (is_null bytes && not (n == 0)) ≡ false
null_size none n e = ground arith
null_size (some l) n e = refl

-- `encode_last` once the copies are known: some of the tail is left.
pub last_tail_lem :
    (tail : List ℕ) (dblks : ℕ) (d e : Cursor)
    → part_rest true tail 12 d ≡ e
    → d.rec_offs < 12
    → e.rec_offs ≡ 0
    → last_tail tail dblks d ≡ ok (size_dblks e.wr_cnt, clean_to dblks e.wr_cnt e.out)
unfolding last_tail
last_tail_lem tail dblks d e h k z = rw h (ground arith)

pub blocks_of : (m : ℕ) → m < 2 ^ 25 → mul32 m 128 ≡ m * 128
blocks_of m h = omega arith
