-- ===== src/Wmgr/Fits/Enter.antt =====
-- `wrfc::rotate` and `wrfc::wr_reset` (lib/jrnl/wrfc.cpp) leave the sizes of the files, and a file that
-- they return successfully is empty.
use qpid_cpp_store_debian.Prelude.{
  ℕ, zero, suc, ◌≡◌, refl, sym, subst, ◌∙◌, Bool, true, false, not, ◌&&◌, Option, none, some, List,
  [], ◌∷◌, get_elem?, ◌==◌, if◌then◌else◌, arith, inl, inr, Option-cases, Bool-cases,
}
use qpid_cpp_store_debian.Prelude.Control.{Result, ok, throw, undefined, jerr_ninit}
use qpid_cpp_store_debian.Prelude.Control.Triple.{Holds}
use qpid_cpp_store_debian.Fcntl
use qpid_cpp_store_debian.Fcntl.{Fcntl}
use qpid_cpp_store_debian.Lpmgr.{num_jfiles, get_fcntlp}
use qpid_cpp_store_debian.Wrfc
use qpid_cpp_store_debian.Wrfc.{
  Wrfc, Iores, iores_success, iores_full, iores_file_aiowait, current, on_current, point_to,
  advance, enter, put_file,
}
use qpid_cpp_store_debian.Wrfc.Rotation.{wr_reset_lem}
use qpid_cpp_store_debian.Wmgr.Flush.{is_success}
use qpid_cpp_store_debian.Wmgr.Frame.{sizes, size_at, Only}
use qpid_cpp_store_debian.Wmgr.Frame.Files.{current-put_file, sizes-put_file}

-- The file that was entered is empty if the rotation succeeds. The sizes of the files are as before.
pub record Entered (l : List (Option ℕ)) (res : Iores) (v : Wrfc) : Type 0 where
  pub same_sizes : sizes v.lpm.fcntl_arr ≡ l
  pub there : is_success res ≡ true → (f : Fcntl) × (current v ≡ some f) × (f.wr_subm_cnt_dblks ≡ 0)

abbrev pub Outcome : List (Option ℕ) → Result Iores → Wrfc → Type 0
Outcome l r v = Holds (Entered l) Only r v

pub reset-full : (f : Fcntl) → (Fcntl.reset none f).1.ffull_dblks ≡ f.ffull_dblks
unfolding Fcntl.reset Fcntl.wr_reset Fcntl.wr_reset_unused Fcntl.rd_reset
reset-full f = ground arith

pub reset-void :
    (f : Fcntl)
    → (f.rec_enqcnt == 0 && f.aio_cnt == 0) ≡ true
    → (Fcntl.reset none f).1.wr_subm_cnt_dblks ≡ 0
unfolding Fcntl.reset Fcntl.wr_reset Fcntl.wr_reset_unused Fcntl.rd_reset
reset-void f h = ground arith

enter-reset :
    (i : ℕ) (f : Fcntl) (w : Wrfc)
    → w.curr_fc ≡ some i
    → get_fcntlp i w.lpm ≡ some f
    → f.aio_cnt ≡ 0
    → let b = f.rec_enqcnt == 0 && f.aio_cnt == 0 in
      enter w ≡ (
        ok (if not b then iores_full else iores_success),
        record (put_file i (Fcntl.reset none f).1 w) { reset_ok = b },
      )
unfolding enter current
enter-reset i f w c e z = ground (arith, c, e, z, wr_reset_lem i f w c e)

enter_waits :
    (i : ℕ) (f : Fcntl) (w : Wrfc)
    → w.curr_fc ≡ some i
    → get_fcntlp i w.lpm ≡ some f
    → (f.aio_cnt == 0) ≡ false
    → enter w ≡ (ok iores_file_aiowait, w)
unfolding enter current
enter_waits i f w c e z = ground (arith, c, e, z)

enter_none : (w : Wrfc) → current w ≡ none → enter w ≡ (throw undefined, w)
unfolding enter
enter_none w c = ground (arith, c)

pub current_inv :
    (w : Wrfc) (f : Fcntl)
    → current w ≡ some f
    → (i : ℕ) × (w.curr_fc ≡ some i) × (get_fcntlp i w.lpm ≡ some f)
unfolding current
current_inv w f h = elim (Option-cases w.curr_fc) [
  | inl c ↦ absurd (ground (arith, c, h))
  | inr (i, c) ↦ (i, c, ground (arith, c, h))
]

abbrev OutcomeOf : List (Option ℕ) → Result Iores × Wrfc → Type 0
OutcomeOf l o = Outcome l o.0 o.1

pub reset_ok-current : (w : Wrfc) (b : Bool) → current (record w { reset_ok = b }) ≡ current w
unfolding current
reset_ok-current w b = refl

entered_by :
    (w : Wrfc) (f : Fcntl) (i : ℕ)
    → w.curr_fc ≡ some i
    → get_fcntlp i w.lpm ≡ some f
    → OutcomeOf (sizes w.lpm.fcntl_arr) (enter w)
entered_by w f i c e = elim (Bool-cases (f.aio_cnt == 0)) [
  | inr z ↦
      subst (OutcomeOf (sizes w.lpm.fcntl_arr)) (sym (enter_waits i f w c e z))
        (record { same_sizes = refl; there = λ q. cc })
  | inl z ↦
      subst (OutcomeOf (sizes w.lpm.fcntl_arr)) (sym (enter-reset i f w c e (ground (arith, z))))
        (record {
          same_sizes = sizes-put_file i f (Fcntl.reset none f).1 w e (reset-full f);
          there = λ q. (
            (Fcntl.reset none f).1,
            reset_ok-current (put_file i (Fcntl.reset none f).1 w)
                  (f.rec_enqcnt == 0 && f.aio_cnt == 0)
                ∙ current-put_file i f (Fcntl.reset none f).1 w c e,
            reset-void f (ground (arith, q)),
          );
        })
]

entered_lem : (w : Wrfc) → OutcomeOf (sizes w.lpm.fcntl_arr) (enter w)
entered_lem w = elim (Option-cases (current w)) [
  | inl c ↦ subst (OutcomeOf (sizes w.lpm.fcntl_arr)) (sym (enter_none w c)) refl
  | inr (f, c) ↦ let (i, d, e) = current_inv w f c in entered_by w f i d e
]

advance-lpm : (w : Wrfc) → (advance w).lpm ≡ w.lpm
unfolding advance
advance-lpm w = ground arith

point_to-lpm : (i : ℕ) (w : Wrfc) → (point_to i w).lpm ≡ w.lpm
unfolding point_to
point_to-lpm i w = refl

pub rotate_lem : (w : Wrfc) → OutcomeOf (sizes w.lpm.fcntl_arr) (Wrfc.rotate w)
rotate_lem w = elim (Bool-cases (num_jfiles w.lpm == 0)) [
  | inl z ↦ subst (OutcomeOf (sizes w.lpm.fcntl_arr)) (sym (none_lem w z)) refl
  | inr z ↦
      let u = point_to (advance w).fc_index (advance w) in
      let same_lpm : u.lpm ≡ w.lpm =
        point_to-lpm (advance w).fc_index (advance w) ∙ advance-lpm w in
      subst (OutcomeOf (sizes w.lpm.fcntl_arr)) (sym (some_lem w z))
        (subst (λ l. OutcomeOf (sizes l.fcntl_arr) (enter u)) same_lpm (entered_lem u))
]
  where
    none_lem : (w : Wrfc) → (num_jfiles w.lpm == 0) ≡ true → Wrfc.rotate w ≡ (throw jerr_ninit, w)
    none_lem w z = unfold Wrfc.rotate in ground (arith, z)

    some_lem :
        (w : Wrfc)
        → (num_jfiles w.lpm == 0) ≡ false
        → Wrfc.rotate w ≡ enter (point_to (advance w).fc_index (advance w))
    some_lem w z = unfold Wrfc.rotate in ground (arith, z)

sizes-get_elem? :
    (xs : List (Option Fcntl)) (i : ℕ) (o : Option Fcntl)
    → get_elem? xs i ≡ some o
    → get_elem? (sizes xs) i ≡ some (size_at o)
sizes-get_elem? [] i o h = cc
sizes-get_elem? (x ∷ xs) zero o h = ground (arith, h)
sizes-get_elem? (x ∷ xs) (suc i) o h = sizes-get_elem? xs i o h

pub sizes-get :
    (w : Wrfc) (i : ℕ) (f : Fcntl)
    → get_fcntlp i w.lpm ≡ some f
    → get_elem? (sizes w.lpm.fcntl_arr) i ≡ some (some f.ffull_dblks)
unfolding get_fcntlp
sizes-get w i f h = sizes-get_elem? w.lpm.fcntl_arr i (some f) (ground (arith, h))

reset_none : (w : Wrfc) → current w ≡ none → Wrfc.wr_reset w ≡ (throw undefined, w)
unfolding Wrfc.wr_reset on_current current
reset_none w c = elim (Option-cases w.curr_fc) [
  | inl n ↦ ground (arith, n)
  | inr (i, n) ↦ ground (arith, n, c)
]

-- A reset of the current file.
abbrev pub Reset : List (Option ℕ) → Result Bool → Wrfc → Type 0
Reset l r v = Holds (λ b v. Entered l (if not b then iores_full else iores_success) v) Only r v

abbrev ResetOf : List (Option ℕ) → Result Bool × Wrfc → Type 0
ResetOf l o = Reset l o.0 o.1

pub wr_reset-Reset :
    (w : Wrfc) → Reset (sizes w.lpm.fcntl_arr) (Wrfc.wr_reset w).0 (Wrfc.wr_reset w).1
wr_reset-Reset w = elim (Option-cases (current w)) [
  | inl c ↦ subst (ResetOf (sizes w.lpm.fcntl_arr)) (sym (reset_none w c)) refl
  | inr (f, c) ↦
      let (i, d, e) = current_inv w f c in
      subst (ResetOf (sizes w.lpm.fcntl_arr)) (sym (wr_reset_lem i f w d e)) (record {
        same_sizes = sizes-put_file i f (Fcntl.reset none f).1 w e (reset-full f);
        there = λ q. (
          (Fcntl.reset none f).1,
          reset_ok-current (put_file i (Fcntl.reset none f).1 w)
                (f.rec_enqcnt == 0 && f.aio_cnt == 0)
              ∙ current-put_file i f (Fcntl.reset none f).1 w d e,
          reset-void f (ground (arith, q)),
        );
      })
]
