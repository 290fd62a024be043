-- ===== src/Wrfc/Start.antt =====
-- How `wrfc::initialize` (lib/jrnl/wrfc.cpp) starts.
use qpid_cpp_store_debian.Prelude.{
  ℕ, ◌+◌, ◌*◌, ◌/◌, ◌^◌, ◌≡◌, ◌≤◌, ◌<◌, refl, false, none, some, length, length-set, arith, ltb,
  if◌then◌else◌, mul32, ap, sym, ◌∙◌, subst, ℕ_discrete,
}
use qpid_cpp_store_debian.Prelude.Control.{ok}
use qpid_cpp_store_debian.Fcntl
use qpid_cpp_store_debian.Fcntl.{Fcntl}
use qpid_cpp_store_debian.Lpmgr.{Lpmgr, num_jfiles, get_fcntlp}
use qpid_cpp_store_debian.Wrfc.{
  Wrfc, on_current, point_to, put_file, set_findex, set_sizes, start_new, initialize,
}
use qpid_cpp_store_debian.Wrfc.Rotation.{IsActive, get_fcntlp-put_file}

-- The list has a file at each place, one at least and 65535 at most.
pub record IsStocked (l : Lpmgr) : Type 0 where
  pub filled : (i : ℕ) → i < length l.fcntl_arr → (f : Fcntl) × (get_fcntlp i l ≡ some f)
  pub some_file : 0 < length l.fcntl_arr
  pub bounded : length l.fcntl_arr < 2 ^ 16

put_file-IsActive :
    (i : ℕ) (f : Fcntl) (w : Wrfc)
    → IsStocked w.lpm
    → i < length w.lpm.fcntl_arr
    → w.fc_index ≡ i
    → IsActive (put_file i f w)
put_file-IsActive i f w s h e = record {
  filled = λ j l. elim (ℕ_discrete j i) [
    | yes q ↦ (f, ground (arith, get_fcntlp-put_file i j f w h, q))
    | no q ↦
        let (g, k) = s.filled j (omega (arith, l, length-set w.lpm.fcntl_arr i (some f))) in
        (g, ground (arith, get_fcntlp-put_file i j f w h, q, k))
  ];
  bounded = omega (arith, s.bounded, length-set w.lpm.fcntl_arr i (some f));
  placed = omega (arith, h, e, length-set w.lpm.fcntl_arr i (some f));
}

point_lem :
    (i : ℕ) (f : Fcntl) (w : Wrfc)
    → get_fcntlp i w.lpm ≡ some f
    → point_to i w ≡ record w { curr_fc = some i }
unfolding point_to
point_lem i f w e = ground (arith, e)

set_findex_lem :
    (i : ℕ) (f : Fcntl) (w : Wrfc)
    → get_fcntlp i w.lpm ≡ some f
    → set_findex i w
      ≡ (ok tt, put_file i (Fcntl.rd_reset f) (record w { fc_index = i; curr_fc = some i }))
unfolding set_findex on_current
set_findex_lem i f w e = ground (arith, e, point_lem i f (record w { fc_index = i }) e)

start_new_lem :
    (f : Fcntl) (w : Wrfc)
    → get_fcntlp 0 w.lpm ≡ some f
    → start_new w ≡ (
      ok tt,
      record (put_file 0 (Fcntl.rd_reset f) (record w { fc_index = 0; curr_fc = some 0 })) {
        rid = 0;
        reset_ok = false;
      },
    )
unfolding start_new
start_new_lem f w e = ground (arith, set_findex_lem 0 f w e)

initialize_new_lem :
    (fsize_sblks : ℕ) (w v : Wrfc)
    → start_new w ≡ (ok tt, v)
    → initialize fsize_sblks none w ≡ (ok tt, set_sizes fsize_sblks v)
unfolding initialize
initialize_new_lem fsize_sblks w v e = ground (arith, e)

-- A fifth of `t`, rounded up, and at least `d`.
abbrev cap_of : ℕ → ℕ → ℕ
cap_of d t = if ltb ((t * 20 + 99) / 100) d then d else (t * 20 + 99) / 100

cap_lem : (d t : ℕ) → (d ≤ cap_of d t) × (t ≤ 5 * cap_of d t)
cap_lem d t = ground arith

sizes_lem :
    (fsize_sblks : ℕ) (w : Wrfc)
    → length w.lpm.fcntl_arr < 2 ^ 16
    → mul32 fsize_sblks 4 * length w.lpm.fcntl_arr < 2 ^ 32
    → let v = set_sizes fsize_sblks w in
      (v.fsize_dblks ≤ v.enq_cap_offs_dblks)
      × (v.fsize_dblks * length w.lpm.fcntl_arr ≤ 5 * v.enq_cap_offs_dblks)
unfolding set_sizes
sizes_lem fsize_sblks w b h =
    let d = mul32 fsize_sblks 4 in
    let n = length w.lpm.fcntl_arr in
    let total : mul32 d (num_jfiles w.lpm) ≡ d * n =
      ap (mul32 d) {x = num_jfiles w.lpm} {y = n} (omega arith) ∙ omega arith in
    let (at_least, fifth) = cap_lem d (mul32 d (num_jfiles w.lpm)) in
    (at_least, subst (λ t. t ≤ 5 * cap_of d (mul32 d (num_jfiles w.lpm))) total fifth)

started :
    (fsize_sblks : ℕ) (w v : Wrfc)
    → initialize fsize_sblks none w ≡ (ok tt, set_sizes fsize_sblks v)
    → IsActive v
    → length v.lpm.fcntl_arr ≡ length w.lpm.fcntl_arr
    → (set_sizes fsize_sblks v).fsize_dblks ≤ (set_sizes fsize_sblks v).enq_cap_offs_dblks
    → (set_sizes fsize_sblks v).fsize_dblks * length v.lpm.fcntl_arr
      ≤ 5 * (set_sizes fsize_sblks v).enq_cap_offs_dblks
    → v.fc_index ≡ 0
    → v.curr_fc ≡ some 0
    → v.rid ≡ 0
    → let (r, z) = initialize fsize_sblks none w in
      (r ≡ ok tt)
      × IsActive z
      × (z.fc_index ≡ 0)
      × (z.curr_fc ≡ some 0)
      × (z.rid ≡ 0)
      × (z.fsize_dblks ≤ z.enq_cap_offs_dblks)
      × (z.fsize_dblks * length w.lpm.fcntl_arr ≤ 5 * z.enq_cap_offs_dblks)
unfolding set_sizes
started fsize_sblks w v e a len x y i c d =
    subst
      (λ z.
        (z.0 ≡ ok tt)
        × IsActive z.1
        × (z.1.fc_index ≡ 0)
        × (z.1.curr_fc ≡ some 0)
        × (z.1.rid ≡ 0)
        × (z.1.fsize_dblks ≤ z.1.enq_cap_offs_dblks)
        × (z.1.fsize_dblks * length w.lpm.fcntl_arr ≤ 5 * z.1.enq_cap_offs_dblks))
      (sym e)
      (
        refl,
        record { filled = a.filled; bounded = a.bounded; placed = a.placed },
        i,
        c,
        d,
        x,
        subst (λ n. mul32 fsize_sblks 4 * n ≤ 5 * (set_sizes fsize_sblks v).enq_cap_offs_dblks) len
            y,
      )

-- Starting a new journal on a list with a file at each place, between 1 and 65535 of them, whose
-- total size does not wrap around: the call returns with file 0 as the current one and record ids
-- from 0 on, and the capacity that the threshold keeps free is at least one file and a fifth of the
-- journal.
pub initialize-new :
    (fsize_sblks : ℕ) (w : Wrfc)
    → IsStocked w.lpm
    → mul32 fsize_sblks 4 * length w.lpm.fcntl_arr < 2 ^ 32
    → let (r, v) = initialize fsize_sblks none w in
      (r ≡ ok tt)
      × IsActive v
      × (v.fc_index ≡ 0)
      × (v.curr_fc ≡ some 0)
      × (v.rid ≡ 0)
      × (v.fsize_dblks ≤ v.enq_cap_offs_dblks)
      × (v.fsize_dblks * length w.lpm.fcntl_arr ≤ 5 * v.enq_cap_offs_dblks)
initialize-new fsize_sblks w s h =
    let (f, e) = s.filled 0 s.some_file in
    let u : Wrfc = record w { fc_index = 0; curr_fc = some 0 } in
    let p = put_file 0 (Fcntl.rd_reset f) u in
    let v : Wrfc = record p { rid = 0; reset_ok = false } in
    let a = put_file-IsActive 0 (Fcntl.rd_reset f) u s s.some_file refl in
    let len : length v.lpm.fcntl_arr ≡ length w.lpm.fcntl_arr =
      length-set w.lpm.fcntl_arr 0 (some (Fcntl.rd_reset f)) in
    let (x, y) =
      sizes_lem fsize_sblks v (omega (arith, len, s.bounded))
        (subst (λ n. mul32 fsize_sblks 4 * n < 2 ^ 32) (sym len) h) in
    started fsize_sblks w v (initialize_new_lem fsize_sblks w v (start_new_lem f w e))
      (record { filled = a.filled; bounded = a.bounded; placed = a.placed }) len x y refl refl refl
