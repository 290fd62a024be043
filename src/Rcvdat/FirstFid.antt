-- ===== src/Rcvdat/FirstFid.antt =====
-- The search of lib/jrnl/rcvdat.hpp for the first file with enqueued records.
use qpid_cpp_store_debian.Prelude.{
  ℕ, zero, suc, ◌+◌, ◌-◌, ◌^◌, ◌≤◌, ◌<◌, ◌≡◌, ◌≢◌, ◌⊎◌, inl, inr, some, length, get_or, ap, ◌∙◌,
  sym, subst, get_elem?-eq-get_or, leb, if◌then◌else◌, arith, dec_lt, ℕ_discrete,
}
use qpid_cpp_store_debian.Prelude.Control.{ok}
use qpid_cpp_store_debian.Rcvdat.{Rcvdat, ffid_loop, find_ffid, next_fid}

-- How many files the last file lies behind `index`, going round a ring of `n`.
abbrev pub ahead : ℕ → ℕ → ℕ → ℕ
ahead n index lfid = if leb index lfid then lfid - index else lfid + n - index

-- The file `k` places behind `index`, going round a ring of `n`, for `k` below `n`.
abbrev pub behind : ℕ → ℕ → ℕ → ℕ
behind n index k = if leb n (index + k) then index + k - n else index + k

-- `k` files from `index` on have no enqueued records, and the file after them has, or is the last one.
abbrev pub IsFirst : Rcvdat → ℕ → ℕ → Type 0
IsFirst r index k =
    (k ≤ ahead r.njf index r.lfid)
    × ((j : ℕ) → j < k → get_or r.enq_cnt_list (behind r.njf index j) 0 ≡ 0)
    × ((k ≡ ahead r.njf index r.lfid) ⊎ (0 < get_or r.enq_cnt_list (behind r.njf index k) 0))

behind-next :
    (n index k : ℕ)
    → n < 2 ^ 16
    → index < n
    → k + 1 < n
    → behind n (next_fid n index) k ≡ behind n index (k + 1)
behind-next n index k b h l = ground arith

ahead-next :
    (n index lfid : ℕ)
    → n < 2 ^ 16
    → index < n
    → lfid < n
    → index ≢ lfid
    → ahead n index lfid ≡ ahead n (next_fid n index) lfid + 1
ahead-next n index lfid b h l d = ground arith

ahead_small : (n index lfid : ℕ) → index < n → lfid < n → ahead n index lfid < n
ahead_small n index lfid h l = ground arith

-- A file without enqueued records that is not the last one is passed.
skipped :
    (r : Rcvdat) (index k : ℕ)
    → r.njf < 2 ^ 16
    → index < r.njf
    → r.lfid < r.njf
    → index ≢ r.lfid
    → get_or r.enq_cnt_list index 0 ≡ 0
    → IsFirst r (next_fid r.njf index) k
    → IsFirst r index (k + 1)
skipped r index k b h l d c s = (
  omega (arith, far, s.0),
  (λ j g. passed j g),
  elim s.2 [
    | inl e ↦ inl (omega (arith, far, e))
    | inr e ↦ inr (subst (λ i. 0 < get_or r.enq_cnt_list i 0) (on k (omega (arith, s.0))) e)
  ],
)
  where
    far : ahead r.njf index r.lfid ≡ ahead r.njf (next_fid r.njf index) r.lfid + 1
    far = ahead-next r.njf index r.lfid b h l d

    on :
        (j : ℕ)
        → j ≤ ahead r.njf (next_fid r.njf index) r.lfid
        → behind r.njf (next_fid r.njf index) j ≡ behind r.njf index (j + 1)
    on j g =
        behind-next r.njf index j b h (omega (arith, far, g, ahead_small r.njf index r.lfid h l))

    next : (j : ℕ) → suc j ≡ j + 1
    next j = omega arith

    passed : (j : ℕ) → j < k + 1 → get_or r.enq_cnt_list (behind r.njf index j) 0 ≡ 0
    passed zero g = ground (arith, c)
    passed (suc j) g =
        ap (λ i. get_or r.enq_cnt_list (behind r.njf index i) 0) (next j)
        ∙ ap (λ i. get_or r.enq_cnt_list i 0) (sym (on j (omega (arith, g, s.0))))
        ∙ s.1 j (omega (arith, g))

ffid_loop-IsFirst :
    (fuel index : ℕ) (r : Rcvdat)
    → r.njf < 2 ^ 16
    → index < r.njf
    → r.lfid < r.njf
    → length r.enq_cnt_list ≡ r.njf
    → ahead r.njf index r.lfid < fuel
    → (k : ℕ) × (ffid_loop fuel index r ≡ some (ok (behind r.njf index k))) × IsFirst r index k
unfolding ffid_loop
ffid_loop-IsFirst zero index r b h l e f = absurd (omega arith)
ffid_loop-IsFirst (suc fuel) index r b h l e f = elim (ℕ_discrete index r.lfid) [
  | yes d ↦
      (0, ground arith, (ground arith, (λ j g. absurd (omega (arith, g))), inl (ground arith)))
  | no d ↦ elim (dec_lt 0 (get_or r.enq_cnt_list index 0)) [
    | yes c ↦ (
      0,
      ground (arith, get_elem?-eq-get_or r.enq_cnt_list index 0),
      (ground arith, (λ j g. absurd (omega (arith, g))), inr (ground arith)),
    )
    | no c ↦
        let far = ahead-next r.njf index r.lfid b h l d in
        let rest =
          ffid_loop-IsFirst fuel (next_fid r.njf index) r b (ground arith) l e
            (omega (arith, far, f)) in
        let k = rest.0 in
        let on =
          behind-next r.njf index k b h
            (omega (arith, far, rest.2.0, ahead_small r.njf index r.lfid h l)) in
        (
          k + 1,
          ground (arith, rest.1, on, get_elem?-eq-get_or r.enq_cnt_list index 0),
          skipped r index k b h l d (omega (arith, c)) rest.2,
        )
  ]
]

-- The search goes through the files from the first one on, around the ring, to the first that has
-- enqueued records, or to the last file if there is none before it. There is a first file, a last
-- file and a count for each of the journal's files, below 65536 of them.
pub find_ffid-IsFirst :
    (r : Rcvdat)
    → r.njf < 2 ^ 16
    → r.ffid < r.njf
    → r.lfid < r.njf
    → length r.enq_cnt_list ≡ r.njf
    → (k : ℕ) × (find_ffid r ≡ some (ok (behind r.njf r.ffid k))) × IsFirst r r.ffid k
unfolding find_ffid
find_ffid-IsFirst r b f l e = ffid_loop-IsFirst r.njf r.ffid r b f l e (ground arith)
