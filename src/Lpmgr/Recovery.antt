-- ===== src/Lpmgr/Recovery.antt =====
-- The order of the files after `lpmgr::recover` (lib/jrnl/lpmgr.cpp).
use qpid_cpp_store_debian.Prelude.{
  ℕ, zero, suc, ◌+◌, ◌^◌, ◌≡◌, ◌≢◌, ◌<◌, refl, Option, none, some, List, [], ◌∷◌, length, get_or,
  get_elem?, set, length-set, replicate, length-replicate, arith, u16, ◌⊎◌, ℕ_discrete, ap, sym,
  ◌∙◌, subst, get_elem?-set_self, get_elem?-set_ne,
}
use qpid_cpp_store_debian.Prelude.Control.{ok}
use qpid_cpp_store_debian.Rcvdat.{Rcvdat}
use qpid_cpp_store_debian.Fcntl.{Fcntl}
use qpid_cpp_store_debian.Lpmgr.{Lpmgr, Factory, invert_loop, recover_loop, recover, get_fcntlp}
use qpid_cpp_store_debian.Lpmgr.Invert.{invert_loop-Inverts}

-- Each physical number below `n` stands at exactly one place of the list.
pub record IsOrder (n : ℕ) (fids : List ℕ) : Type 0 where
  pub full : length fids ≡ n
  pub below : (k : ℕ) → k < n → get_or fids k 0 < n
  pub distinct : (j k : ℕ) → j < n → k < n → get_or fids j 0 ≡ get_or fids k 0 → j ≡ k
  pub onto : (p : ℕ) → p < n → (k : ℕ) × (k < n) × (get_or fids k 0 ≡ p)

-- The factory makes files with the numbers asked for, also in a recovery.
unfoldable pub Recovers : Rcvdat → Factory → Type 0
Recovers rd fp =
    (lfid pfid : ℕ)
    → (f : Fcntl) × (fp lfid pfid (some rd) ≡ ok f) × (f.lfid ≡ lfid) × (f.pfid ≡ pfid)

-- The files with physical numbers below `p` stand at their places.
record Filled (n p : ℕ) (fids : List ℕ) (arr : List (Option Fcntl)) : Type 0 where
  size : length arr ≡ n
  at :
      (k : ℕ)
      → k < n
      → get_or fids k 0 < p
      → (f : Fcntl) × (get_elem? arr k ≡ some (some f)) × (f.lfid ≡ k) × (f.pfid ≡ get_or fids k 0)

get_or_in : (xs : List ℕ) (j d : ℕ) → j < length xs → get_or xs j d ≡ get_or xs j 0
get_or_in [] j d h = absurd (omega (arith, h))
get_or_in (x ∷ xs) zero d h = refl
get_or_in (x ∷ xs) (suc j) d h = get_or_in xs j d (omega (arith, h))

recover_loop_ok :
    (fp : Factory) (rd : Rcvdat) (lfids : List ℕ) (m pfid : ℕ) (l : Lpmgr) (f : Fcntl)
    → fp (u16 (get_or lfids pfid pfid)) (u16 pfid) (some rd) ≡ ok f
    → get_or lfids pfid pfid < length l.fcntl_arr
    → recover_loop fp rd lfids (suc m) pfid l
      ≡ recover_loop fp rd lfids m
          (suc pfid)
          (record l { fcntl_arr = set l.fcntl_arr (get_or lfids pfid pfid) (some f) })
unfolding recover_loop
recover_loop_ok fp rd lfids m pfid l f q h = ground (arith, q, h)

Filled-set :
    (n p k0 : ℕ) (fids : List ℕ) (arr : List (Option Fcntl)) (f : Fcntl)
    → IsOrder n fids
    → k0 < n
    → get_or fids k0 0 ≡ p
    → f.lfid ≡ k0
    → f.pfid ≡ p
    → Filled n p fids arr
    → Filled n (suc p) fids (set arr k0 (some f))
Filled-set n p k0 fids arr f o h e en ep v = record {
  size = length-set arr k0 (some f) ∙ v.size;
  at = λ k l b. elim (ℕ_discrete k0 k) [
    | yes q ↦ (
      f,
      ap (get_elem? (set arr k0 (some f))) (sym q)
          ∙ get_elem?-set_self arr k0 (some f) (omega (arith, h, v.size)),
      en ∙ q,
      ep ∙ sym e ∙ ap (λ j. get_or fids j 0) q,
    )
    | no q ↦
        let (g, u, gn, gp) = v.at k l (below_of k l b q) in
        (g, get_elem?-set_ne arr {i = k0} {j = k} (some f) q ∙ u, gn, gp)
  ];
}
  where
    below_of : (k : ℕ) → k < n → get_or fids k 0 < suc p → k0 ≢ k → get_or fids k 0 < p
    below_of k l b q = elim (ℕ_discrete (get_or fids k 0) p) [
      | yes s ↦ absurd (q (o.distinct k0 k h l (e ∙ sym s)))
      | no s ↦ omega (arith, b, s)
    ]

recover_loop-Filled :
    (fp : Factory) (rd : Rcvdat) (n : ℕ) (lfids fids : List ℕ) (m pfid : ℕ) (l : Lpmgr)
    → Recovers rd fp
    → IsOrder n fids
    → n < 2 ^ 16
    → ((k : ℕ) → k < n → get_or lfids (get_or fids k 0) (get_or fids k 0) ≡ k)
    → pfid + m ≡ n
    → Filled n pfid fids l.fcntl_arr
    → let (r, l') = recover_loop fp rd lfids m pfid l in (r ≡ ok tt) × Filled n n fids l'.fcntl_arr
unfolding recover_loop Recovers
recover_loop-Filled fp rd n lfids fids zero pfid l mk o b pl e v =
    (refl, subst (λ p. Filled n p fids l.fcntl_arr) (omega (arith, e)) v)
recover_loop-Filled fp rd n lfids fids (suc m) pfid l mk o b pl e v =
    let (k0, lt, at) = o.onto pfid (omega (arith, e)) in
    let lid = get_or lfids pfid pfid in
    let here : lid ≡ k0 = ap (λ p. get_or lfids p p) (sym at) ∙ pl k0 lt in
    let (f, q, en, ep) = mk (u16 lid) (u16 pfid) in
    let v' =
      subst (λ j. Filled n (suc pfid) fids (set l.fcntl_arr j (some f))) (sym here)
        (Filled-set n pfid k0 fids l.fcntl_arr f o lt at (omega (arith, en, here, lt, b))
          (omega (arith, ep, e, b)) v) in
    subst (λ z. (z.0 ≡ ok tt) × Filled n n fids z.1.fcntl_arr)
      (sym (recover_loop_ok fp rd lfids m pfid l f q (omega (arith, here, lt, v.size))))
      (recover_loop-Filled fp rd n lfids fids m (suc pfid)
        (record l { fcntl_arr = set l.fcntl_arr lid (some f) }) mk o b pl (omega (arith, e)) v')

-- The list before the files are made.
abbrev blank_list : Rcvdat → Lpmgr
blank_list rd = record { ae = rd.ae; ae_max_jfiles = rd.aemjf; fcntl_arr = replicate rd.njf none }

recover_lem :
    (rd : Rcvdat) (fp : Factory) (l : Lpmgr) (lfids : List ℕ)
    → (rd.aemjf ≡ 0) ⊎ (rd.njf < rd.aemjf)
    → invert_loop rd.fid_list 0 (replicate (length rd.fid_list) 0) ≡ some lfids
    → recover rd fp l ≡ recover_loop fp rd lfids rd.njf 0 (blank_list rd)
unfolding recover
recover_lem rd fp l lfids limit e = ground (arith, limit, e)

-- The places, read off the inverted list.
inverted :
    (rd : Rcvdat)
    → IsOrder rd.njf rd.fid_list
    → rd.njf < 2 ^ 16
    → (lfids : List ℕ) × (invert_loop rd.fid_list 0 (replicate (length rd.fid_list) 0) ≡ some lfids)
      × ((k : ℕ) → k < rd.njf → get_or lfids (get_or rd.fid_list k 0) (get_or rd.fid_list k 0) ≡ k)
inverted rd o b =
    let zeros : List ℕ = replicate (length rd.fid_list) 0 in
    let zlen : length zeros ≡ length rd.fid_list = length-replicate (length rd.fid_list) 0 in
    let (lfids, e, v) =
      invert_loop-Inverts rd.fid_list 0 zeros
        (λ i h. omega (arith, o.below i (omega (arith, h, o.full)), zlen, o.full))
        (omega (arith, o.full, b)) in
    (
      lfids,
      e,
      λ k h.
          get_or_in lfids (get_or rd.fid_list k 0) (get_or rd.fid_list k 0)
            (omega (arith, o.below k h, v.size, zlen, o.full))
          ∙ v.put k (omega (arith, h, o.full))
              (λ j q s. o.distinct j k (omega (arith, q, o.full)) h s)
          ∙ omega arith,
    )

-- With a list of all files in logical order, each physical number once, at most 65535 files, no
-- limit at or below their number, and a factory that makes files with the numbers asked for:
-- `recover` returns, and the file at each place has the place as its logical number and the
-- physical number that the list has there.
pub recover-ordered :
    (rd : Rcvdat) (fp : Factory) (l : Lpmgr)
    → Recovers rd fp
    → IsOrder rd.njf rd.fid_list
    → rd.njf < 2 ^ 16
    → (rd.aemjf ≡ 0) ⊎ (rd.njf < rd.aemjf)
    → let (r, l') = recover rd fp l in
      (r ≡ ok tt)
      × (length l'.fcntl_arr ≡ rd.njf)
      × ((k : ℕ)
          → k < rd.njf
          → (f : Fcntl) × (get_fcntlp k l' ≡ some f)
            × (f.lfid ≡ k)
            × (f.pfid ≡ get_or rd.fid_list k 0))
unfolding get_fcntlp
recover-ordered rd fp l mk o b limit =
    let (lfids, e, placed) = inverted rd o b in
    let (r, v) =
      recover_loop-Filled fp rd rd.njf lfids rd.fid_list rd.njf 0 (blank_list rd) mk o b placed
        (omega arith)
        (record { size = length-replicate rd.njf none; at = λ k h z. absurd (omega (arith, z)) }) in
    let step = recover_lem rd fp l lfids limit e in
    (
      ap (λ z. z.0) step ∙ r,
      ap (λ z. length z.1.fcntl_arr) step ∙ v.size,
      λ k h. let (f, at, en, ep) = v.at k h (o.below k h) in (f, ground (arith, step, at), en, ep),
    )
