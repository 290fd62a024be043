-- ===== src/Wrfc/Ring.antt =====
-- Whole turns of the ring of lib/jrnl/wrfc.cpp.
use qpid_cpp_store_debian.Prelude.{
  ℕ, zero, suc, ◌+◌, ◌-◌, ◌≡◌, ◌<◌, refl, true, false, not, length, arith, ap, ◌∙◌, sym, subst,
}
use qpid_cpp_store_debian.Wrfc.{Wrfc, rotate, earliest_index}
use qpid_cpp_store_debian.Wrfc.Rotation.{IsActive, rotate-IsActive}

-- `n` rotations.
unfoldable pub rotations : ℕ → Wrfc → Wrfc
rotations zero w = w
rotations (suc n) w = rotations n (rotate w).1

rotations-suc : (n : ℕ) (w : Wrfc) → rotations (suc n) w ≡ rotations n (rotate w).1
unfolding rotations
rotations-suc n w = refl

rotations-add : (m n : ℕ) (w : Wrfc) → rotations (m + n) w ≡ rotations n (rotations m w)
unfolding rotations
rotations-add zero n w = ap (λ k. rotations k w) {x = 0 + n} {y = n} (omega arith)
rotations-add (suc m) n w =
    ap (λ k. rotations k w) {x = suc m + n} {y = suc (m + n)} (omega arith)
    ∙ rotations-add m n (rotate w).1

-- Rotations that do not reach the end of the list.
record Climbed (n : ℕ) (w : Wrfc) : Type 0 where
  active : IsActive (rotations n w)
  files : length (rotations n w).lpm.fcntl_arr ≡ length w.lpm.fcntl_arr
  place : (rotations n w).fc_index ≡ w.fc_index + n
  owi : (rotations n w).owi ≡ w.owi

rotations-Climbed :
    (n : ℕ) (w : Wrfc) → IsActive w → w.fc_index + n < length w.lpm.fcntl_arr → Climbed n w
unfolding rotations
rotations-Climbed zero w a h = record { active = a; files = refl; place = omega arith; owi = refl }
rotations-Climbed (suc n) w a h =
    let (b, len, at, owi) = rotate-IsActive w a in
    let c = rotations-Climbed n (rotate w).1 b (ground (arith, h, len, at)) in
    record {
      active = c.active;
      files = omega (arith, c.files, len);
      place = ground (arith, c.place, at, h);
      owi = ground (arith, c.owi, owi, h);
    }

-- The rotation at the end of the list.
turn :
    (w : Wrfc)
    → IsActive w
    → w.fc_index + 1 ≡ length w.lpm.fcntl_arr
    → ((rotate w).1.fc_index ≡ 0) × ((rotate w).1.owi ≡ not w.owi)
turn w a h =
    let (b, len, at, owi) = rotate-IsActive w a in (ground (arith, at, h), ground (arith, owi, h))

-- After as many rotations as there are files, an active controller is back at its file, with the
-- overwrite indicator flipped.
pub rotations-ring :
    (w : Wrfc)
    → IsActive w
    → let v = rotations (length w.lpm.fcntl_arr) w in
      (v.fc_index ≡ w.fc_index) × (v.owi ≡ not w.owi) × IsActive v
rotations-ring w a =
    let n = length w.lpm.fcntl_arr in
    let up = n - 1 - w.fc_index in
    let c = rotations-Climbed up w a (omega (arith, a.placed)) in
    let u = rotations up w in
    let (b, len, at, owi) = rotate-IsActive u c.active in
    let (zero_at, flipped) = turn u c.active (omega (arith, c.place, c.files, a.placed)) in
    let d =
      rotations-Climbed w.fc_index (rotate u).1 b
        (omega (arith, zero_at, len, c.files, a.placed)) in
    subst (λ v. (v.fc_index ≡ w.fc_index) × (v.owi ≡ not w.owi) × IsActive v)
      (sym (
        ap (λ k. rotations k w) {x = n} {y = up + suc w.fc_index} (omega (arith, a.placed))
        ∙ rotations-add up (suc w.fc_index) w
        ∙ rotations-suc w.fc_index u))
      (omega (arith, d.place, zero_at), d.owi ∙ flipped ∙ ap not c.owi, d.active)

-- From the second turn on, the earliest file is the one that the next rotation enters and
-- overwrites; during the first turn it is file 0.
pub earliest_index-rotate :
    (w : Wrfc)
    → IsActive w
    → (w.frot ≡ true → earliest_index w ≡ 0)
      × (w.frot ≡ false → earliest_index w ≡ (rotate w).1.fc_index)
unfolding earliest_index
earliest_index-rotate w a =
    let (b, len, at, owi) = rotate-IsActive w a in
    (λ h. ground arith, λ h. ground (arith, at, a.placed, a.bounded))
