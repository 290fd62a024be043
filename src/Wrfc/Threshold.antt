-- ===== src/Wrfc/Threshold.antt =====
-- `wrfc::enq_threshold` of lib/jrnl/wrfc.cpp looks at the files ahead of the write position.
use qpid_cpp_store_debian.Prelude.{
  ℕ, zero, suc, ◌+◌, ◌-◌, ◌*◌, ◌≡◌, ◌≤◌, ◌<◌, ◌⊎◌, inl, inr, refl, Bool, false, not, ◌&&◌, ◌||◌,
  none, some, ◌==◌, ltb, leb, if◌then◌else◌, length, arith, ap, ◌∙◌, dec_lt,
}
use qpid_cpp_store_debian.Prelude.Control.{ok}
use qpid_cpp_store_debian.Fcntl.{Fcntl}
use qpid_cpp_store_debian.Lpmgr.{num_jfiles, get_fcntlp}
use qpid_cpp_store_debian.Wrfc.{
  Wrfc, current, next_index, threshold_loop, forward_dblks, enq_threshold,
}
use qpid_cpp_store_debian.Wrfc.Rotation.{IsActive}

abbrev pub enqcnt_at : ℕ → Wrfc → ℕ
enqcnt_at i w = elim (get_fcntlp i w.lpm) [ none ↦ 0 | some f ↦ f.rec_enqcnt ]

-- One of the `k` files behind place `i` of the ring has enqueued records.
abbrev pub ahead_in_use : ℕ → ℕ → Wrfc → Bool
ahead_in_use zero i w = false
ahead_in_use (suc k) i w =
    ltb 0 (enqcnt_at (next_index (num_jfiles w.lpm) i) w)
    || ahead_in_use k (next_index (num_jfiles w.lpm) i) w

-- The places from the index to `i`, round the ring.
abbrev pub behind : ℕ → Wrfc → ℕ
behind i w = if leb w.fc_index i then i - w.fc_index else i + length w.lpm.fcntl_arr - w.fc_index

next_lem :
    (i : ℕ) (w : Wrfc)
    → IsActive w
    → i < length w.lpm.fcntl_arr
    → suc (behind i w) < length w.lpm.fcntl_arr
    → (next_index (num_jfiles w.lpm) i < length w.lpm.fcntl_arr)
      × (behind (next_index (num_jfiles w.lpm) i) w ≡ suc (behind i w))
next_lem i w a h b = ground (arith, a.bounded, a.placed)

-- One round of the loop.
loop_stop :
    (fuel findex enqcnt : ℕ) (in_use : Bool) (fwd : ℕ) (w : Wrfc)
    → (fwd ≡ 0) ⊎ ((findex == w.fc_index) ≡ false) × (0 < enqcnt)
    → threshold_loop (suc fuel) fwd findex enqcnt in_use w
      ≡ some (ok (not (findex == w.fc_index) && in_use))
unfolding threshold_loop
loop_stop fuel findex enqcnt in_use fwd w h = ground (arith, h)

loop_stay :
    (fuel findex enqcnt fwd : ℕ) (w : Wrfc)
    → 0 < fwd
    → fwd ≤ w.fsize_dblks
    → (findex ≡ w.fc_index) ⊎ (enqcnt ≡ 0)
    → threshold_loop (suc fuel) fwd findex enqcnt false w
      ≡ threshold_loop fuel 0 findex enqcnt (ltb 0 enqcnt) w
unfolding threshold_loop
loop_stay fuel findex enqcnt fwd w h k e = ground (arith, h, k, e)

loop_next :
    (fuel findex enqcnt fwd : ℕ) (f : Fcntl) (w : Wrfc)
    → w.fsize_dblks < fwd
    → (findex ≡ w.fc_index) ⊎ (enqcnt ≡ 0)
    → get_fcntlp (next_index (num_jfiles w.lpm) findex) w.lpm ≡ some f
    → threshold_loop (suc fuel) fwd findex enqcnt false w
      ≡ threshold_loop fuel
          (fwd - w.fsize_dblks)
          (next_index (num_jfiles w.lpm) findex)
          f.rec_enqcnt
          (ltb 0 f.rec_enqcnt)
          w
unfolding threshold_loop
loop_next fuel findex enqcnt fwd f w k e q = ground (arith, k, e, q)

ahead_step :
    (k findex : ℕ) (f : Fcntl) (w : Wrfc)
    → get_fcntlp (next_index (num_jfiles w.lpm) findex) w.lpm ≡ some f
    → ahead_in_use (suc k) findex w
      ≡ (ltb 0 f.rec_enqcnt || ahead_in_use k (next_index (num_jfiles w.lpm) findex) w)
ahead_step k findex f w q = ground (arith, q)

suc_mul : (k s : ℕ) → suc k * s ≡ s + k * s
suc_mul k s = omega arith

-- The rounds after a step to file `f` at place `n`.
go_on :
    (k findex n fwd fuel : ℕ) (f : Fcntl) (w : Wrfc)
    → get_fcntlp n w.lpm ≡ some f
    → next_index (num_jfiles w.lpm) findex ≡ n
    → (n == w.fc_index) ≡ false
    → (f.rec_enqcnt ≡ 0
        → threshold_loop (suc fuel) fwd n f.rec_enqcnt false w ≡ some (ok (ahead_in_use k n w)))
    → threshold_loop (suc fuel) fwd n f.rec_enqcnt (ltb 0 f.rec_enqcnt) w
      ≡ some (ok (ahead_in_use (suc k) findex w))
go_on k findex n fwd fuel f w q m ne ih = elim (dec_lt 0 f.rec_enqcnt) [
  | yes p ↦
      loop_stop fuel n f.rec_enqcnt (ltb 0 f.rec_enqcnt) fwd w (inr (ne, p))
      ∙ ground (arith, ahead_step k findex f w, q, m, ne, p)
  | no p ↦
      ap (λ b. threshold_loop (suc fuel) fwd n f.rec_enqcnt b w) {x = ltb 0 f.rec_enqcnt}
        {y = false} (ground arith)
      ∙ ih (omega arith)
      ∙ ground (arith, ahead_step k findex f w, q, m, p)
]

threshold_loop-ahead :
    (k fuel fwd findex enqcnt : ℕ) (w : Wrfc)
    → IsActive w
    → 0 < w.fsize_dblks
    → fwd < fuel
    → findex < length w.lpm.fcntl_arr
    → behind findex w + k < length w.lpm.fcntl_arr
    → (findex ≡ w.fc_index) ⊎ (enqcnt ≡ 0)
    → k * w.fsize_dblks < fwd
    → fwd ≤ w.fsize_dblks + k * w.fsize_dblks
    → threshold_loop fuel fwd findex enqcnt false w ≡ some (ok (ahead_in_use k findex w))
threshold_loop-ahead k zero fwd findex enqcnt w a s l h b e lo hi = absurd (omega (arith, l))
threshold_loop-ahead k (suc zero) fwd findex enqcnt w a s l h b e lo hi =
    absurd (omega (arith, l, lo))
threshold_loop-ahead zero (suc (suc fuel)) fwd findex enqcnt w a s l h b e lo hi =
    loop_stay (suc fuel) findex enqcnt fwd w (omega (arith, lo)) (omega (arith, hi)) e
    ∙ loop_stop fuel findex enqcnt (ltb 0 enqcnt) 0 w (inl refl)
    ∙ ground (arith, e)
threshold_loop-ahead (suc k) (suc (suc fuel)) fwd findex enqcnt w a s l h b e lo hi =
    let (near, step) = next_lem findex w a h (omega (arith, b)) in
    let n = next_index (num_jfiles w.lpm) findex in
    let (f, q) = a.filled n near in
    let mul = suc_mul k w.fsize_dblks in
    loop_next (suc fuel) findex enqcnt fwd f w (omega (arith, lo, mul)) e q
    ∙ go_on k findex n (fwd - w.fsize_dblks) fuel f w q refl (ground (arith, step, a.placed)) (λ z.
      threshold_loop-ahead k (suc fuel) (fwd - w.fsize_dblks) n f.rec_enqcnt w a s
        (omega (arith, l, s)) near (omega (arith, step, b)) (inr z) (omega (arith, lo, mul))
        (omega (arith, hi, mul)))

-- With an active controller, a positive file size and fewer than all files ahead: the search ends,
-- and the threshold is exceeded exactly if one of the `k` files behind the current one has enqueued
-- records, where the write position, the new record and the free capacity that is kept together
-- reach into the `k`th file behind.
pub enq_threshold-ahead :
    (enq_dsize_dblks k : ℕ) (f : Fcntl) (w : Wrfc)
    → IsActive w
    → current w ≡ some f
    → 0 < w.fsize_dblks
    → k < length w.lpm.fcntl_arr
    → k * w.fsize_dblks < forward_dblks enq_dsize_dblks f w
    → forward_dblks enq_dsize_dblks f w ≤ w.fsize_dblks + k * w.fsize_dblks
    → enq_threshold enq_dsize_dblks w ≡ some (ok (ahead_in_use k w.fc_index w))
unfolding enq_threshold
enq_threshold-ahead enq_dsize_dblks k f w a c s b lo hi =
    let fwd = forward_dblks enq_dsize_dblks f w in
    let loop =
      threshold_loop-ahead k (suc fwd) fwd w.fc_index f.rec_enqcnt w a s (omega arith) a.placed
        (ground (arith, b)) (inl refl) lo hi in
    ground (arith, c, loop)
