-- ===== src/Wmgr/Fits/Threshold.antt =====
-- The search of `wrfc::enq_threshold` (lib/jrnl/wrfc.cpp) comes to an end, and `wmgr::pre_write_check`
-- with it.
use qpid_cpp_store_debian.Prelude.{
  ℕ, zero, suc, ◌-◌, ◌<◌, ◌≡◌, refl, Bool, true, false, not, ◌&&◌, ◌||◌, ltb, ◌==◌, Option, none,
  some, Option-cases, if◌then◌else◌, arith, inl, inr,
}
use qpid_cpp_store_debian.Prelude.Control.{Result, ok, throw, undefined}
use qpid_cpp_store_debian.Fcntl.{Fcntl}
use qpid_cpp_store_debian.Lpmgr.{get_fcntlp, num_jfiles}
use qpid_cpp_store_debian.Wrfc.{
  Wrfc, current, next_index, threshold_loop, forward_dblks, enq_threshold,
}
use qpid_cpp_store_debian.Wmgr.Frame.{fine}

-- The search gives an answer, and its only error is a missing file.
abbrev pub Answers : Option (Result Bool) → Type 0
Answers o = (r : Result Bool) × (o ≡ some r) × (fine r ≡ true)

Answers-if :
    (b : Bool) {x y : Option (Result Bool)}
    → (b ≡ true → Answers x)
    → (b ≡ false → Answers y)
    → Answers (if b then x else y)
Answers-if true h g = h refl
Answers-if false h g = g refl

Answers-file :
    (o : Option Fcntl) (x : Option (Result Bool))
    → Answers x
    → Answers (elim o [ none ↦ some (throw undefined) | some f ↦ x ])
Answers-file none x h = (throw undefined, refl, refl)
Answers-file (some f) x h = h

-- The forward blocks of the next round.
abbrev less : ℕ → ℕ → ℕ
less size fwd = if ltb size fwd then fwd - size else 0

less-lt :
    (size fwd fuel : ℕ) (b : Bool)
    → 0 < size
    → fwd < suc fuel
    → (fwd == 0 || b) ≡ false
    → less size fwd < fuel
less-lt size fwd fuel b pos h e = ground (arith, e, pos, h)

module _ (w : Wrfc) (pos : 0 < w.fsize_dblks) where
  pub threshold_loop-Answers :
      (fuel fwd findex enqcnt : ℕ) (in_use : Bool)
      → fwd < fuel
      → Answers (threshold_loop fuel fwd findex enqcnt in_use w)
  unfolding threshold_loop
  threshold_loop-Answers zero fwd findex enqcnt in_use h = absurd (omega (arith, h))
  threshold_loop-Answers (suc fuel) fwd findex enqcnt in_use h =
      let next = next_index (num_jfiles w.lpm) findex in
      let count = (elim (get_fcntlp next w.lpm) as (λ _. ℕ) [ none ↦ 0 | some f ↦ f.rec_enqcnt ]) in
      Answers-if (fwd == 0 || not (findex == w.fc_index) && not (enqcnt == 0))
        (λ e. (ok (not (findex == w.fc_index) && in_use), refl, refl))
        (λ e.
          Answers-if (less w.fsize_dblks fwd == 0)
            (λ z.
              threshold_loop-Answers fuel (less w.fsize_dblks fwd) findex enqcnt
                (in_use || ltb 0 enqcnt)
                (less-lt w.fsize_dblks fwd fuel (not (findex == w.fc_index) && not (enqcnt == 0))
                  pos h e))
            (λ z. Answers-file (get_fcntlp next w.lpm) _ (
              threshold_loop-Answers fuel (less w.fsize_dblks fwd) next count
                (in_use || ltb 0 count)
                (less-lt w.fsize_dblks fwd fuel (not (findex == w.fc_index) && not (enqcnt == 0))
                  pos h e))))

  -- With files of some size, `enq_threshold` comes to an end.
  pub enq_threshold-Answers : (n : ℕ) → Answers (enq_threshold n w)
  unfolding enq_threshold
  enq_threshold-Answers n = elim (Option-cases (current w)) [
    | inl c ↦ rw (c, enq_threshold) (throw undefined, refl, refl)
    | inr (f, c) ↦
        rw (c, enq_threshold)
          (threshold_loop-Answers (suc (forward_dblks n f w)) (forward_dblks n f w) w.fc_index
            f.rec_enqcnt false (omega arith))
  ]
