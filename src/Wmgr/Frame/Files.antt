-- ===== src/Wmgr/Frame/Files.antt =====
-- What the operations on a file controller, lib/jrnl/fcntl.cpp, leave alone when lib/jrnl/wmgr.cpp
-- calls them.
use qpid_cpp_store_debian.Prelude.{
  ℕ, zero, suc, [], ◌∷◌, ◌≡◌, refl, sym, ap, subst, ◌∙◌, true, Option, none, some, List, get_elem?,
  set, Option-cases, inl, inr, arith,
}
use qpid_cpp_store_debian.Prelude.Control.{Result, ok, throw, M, undefined}
use qpid_cpp_store_debian.Prelude.Control.Triple.{Triple, Holds}
use qpid_cpp_store_debian.Fcntl.{Fcntl}
use qpid_cpp_store_debian.Lpmgr.{get_fcntlp}
use qpid_cpp_store_debian.Wrfc.{Wrfc, current, on_current, on_file, put_file}
use qpid_cpp_store_debian.Wmgr.State.{Wmgr, on_file_at, on_wr_file}
use qpid_cpp_store_debian.Wmgr.Frame.{
  Position, position, View, view, size_at, sizes, fine, Frames, same, Only,
}

-- The position in the file of a place of the list.
abbrev slot : Option (Option Fcntl) → Position
slot none = position none
slot (some o) = position o

slot-set :
    (xs : List (Option Fcntl)) (i j : ℕ) (f g : Fcntl)
    → get_elem? xs i ≡ some (some f)
    → position (some g) ≡ position (some f)
    → slot (get_elem? (set xs i (some g)) j) ≡ slot (get_elem? xs j)
slot-set [] i j f g h e = refl
slot-set (x ∷ xs) zero zero f g h e = ground (arith, h, e)
slot-set (x ∷ xs) zero (suc j) f g h e = refl
slot-set (x ∷ xs) (suc i) zero f g h e = refl
slot-set (x ∷ xs) (suc i) (suc j) f g h e = slot-set xs i j f g h e

position-put_file :
    (i : ℕ) (f g : Fcntl) (w : Wrfc)
    → get_fcntlp i w.lpm ≡ some f
    → position (some g) ≡ position (some f)
    → position (current (put_file i g w)) ≡ position (current w)
unfolding get_fcntlp current
position-put_file i f g w h e = elim (Option-cases w.curr_fc) [
  | inl c ↦ ground (arith, c)
  | inr (j, c) ↦ ground (arith, c, h, slot-set w.lpm.fcntl_arr i j f g (ground (arith, h)) e)
]

sizes-set :
    (xs : List (Option Fcntl)) (i : ℕ) (f g : Fcntl)
    → get_elem? xs i ≡ some (some f)
    → g.ffull_dblks ≡ f.ffull_dblks
    → sizes (set xs i (some g)) ≡ sizes xs
sizes-set [] i f g h e = refl
sizes-set (x ∷ xs) zero f g h e = ground (arith, h, e)
sizes-set (x ∷ xs) (suc i) f g h e = ap (λ l. size_at x ∷ l) (sizes-set xs i f g h e)

pub sizes-put_file :
    (i : ℕ) (f g : Fcntl) (w : Wrfc)
    → get_fcntlp i w.lpm ≡ some f
    → g.ffull_dblks ≡ f.ffull_dblks
    → sizes (put_file i g w).lpm.fcntl_arr ≡ sizes w.lpm.fcntl_arr
unfolding get_fcntlp
sizes-put_file i f g w h e = sizes-set w.lpm.fcntl_arr i f g (ground (arith, h)) e

-- An operation on the file at place `i` that leaves its submitted count and its size.
on_file-view :
    {A : Type 0} (p i : ℕ) (m : M Fcntl A) (w : Wmgr)
    → ((f : Fcntl) → position (some (m f).1) ≡ position (some f))
    → view p (on_file_at i m w).1 ≡ view p w
unfolding on_file
on_file-view p i m w e = elim (Option-cases (get_fcntlp i w.wrfc.lpm)) [
  | inl c ↦ ground (arith, c)
  | inr (f, c) ↦ ground (
    arith,
    c,
    position-put_file i f (m f).1 w.wrfc c (e f),
    sizes-put_file i f (m f).1 w.wrfc c (ap (λ x. x.full) (e f)),
  )
]

on_file-fine :
    {A : Type 0} (i : ℕ) (m : M Fcntl A) (w : Wrfc)
    → ((f : Fcntl) → fine (m f).0 ≡ true)
    → fine (on_file i m w).0 ≡ true
unfolding on_file
on_file-fine i m w n = elim (Option-cases (get_fcntlp i w.lpm)) [
  | inl c ↦ rw (c, on_file) refl
  | inr (f, c) ↦ rw (c, on_file) (n f)
]

module _ (p : ℕ) (P : View → Type 0) where
  pub frame_on_file_at :
      {A : Type 0} (i : ℕ) (m : M Fcntl A)
      → ((f : Fcntl) → position (some (m f).1) ≡ position (some f))
      → ((f : Fcntl) → fine (m f).0 ≡ true)
      → Frames p P (on_file_at i m)
  frame_on_file_at i m e n =
      same p P (on_file_at i m) (λ w. on_file-view p i m w e) (λ w. on_file-fine i m w.wrfc n)

pub set_self :
    (xs : List (Option Fcntl)) (i : ℕ) (f g : Fcntl)
    → get_elem? xs i ≡ some (some f)
    → get_elem? (set xs i (some g)) i ≡ some (some g)
set_self [] i f g h = cc
set_self (x ∷ xs) zero f g h = refl
set_self (x ∷ xs) (suc i) f g h = set_self xs i f g h

-- The current file after an operation on it.
pub current-put_file :
    (i : ℕ) (f g : Fcntl) (w : Wrfc)
    → w.curr_fc ≡ some i
    → get_fcntlp i w.lpm ≡ some f
    → current (put_file i g w) ≡ some g
unfolding get_fcntlp current
current-put_file i f g w c h =
    ground (arith, c, h, set_self w.lpm.fcntl_arr i f g (ground (arith, h)))

-- What an operation through the current file controller does to the view.
data OnCurrent {A : Type 0} (m : M Fcntl A) (p : ℕ) (w : Wmgr) : Type 0 where
  missing : on_wr_file m w ≡ (throw undefined, w) → OnCurrent m p w
  present :
      (f : Fcntl)
      → current w.wrfc ≡ some f
      → (on_wr_file m w).0 ≡ (m f).0
      → view p (on_wr_file m w).1 ≡ record (view p w) { file = position (some (m f).1) }
      → OnCurrent m p w

on_current-cases :
    {A : Type 0} (m : M Fcntl A) (p : ℕ) (w : Wmgr)
    → ((f : Fcntl) → (m f).1.ffull_dblks ≡ f.ffull_dblks)
    → OnCurrent m p w
unfolding on_current current
on_current-cases m p w k = elim (Option-cases w.wrfc.curr_fc) [
  | inl c ↦ missing (ground (arith, c))
  | inr (i, c) ↦ elim (Option-cases (get_fcntlp i w.wrfc.lpm)) [
    | inl e ↦ missing (ground (arith, c, e))
    | inr (f, e) ↦ present f (ground (arith, c, e)) (ground (arith, c, e)) (
        ground (
          arith,
          c,
          e,
          current-put_file i f (m f).1 w.wrfc c e,
          sizes-put_file i f (m f).1 w.wrfc e (k f),
        ))
  ]
]

Holds-change :
    {A : Type 0} (p : ℕ) (Q : A → View → Type 0) (v : View) (r r' : Result A) (g : Fcntl) (w : Wmgr)
    → r' ≡ r
    → view p w ≡ record v { file = position (some g) }
    → Holds (λ a k. Q a (record v { file = position (some k) })) Only r g
    → Holds (λ a u. Q a (view p u)) Only r' w
Holds-change p Q v (ok a) r' g w e s h = rw e (subst (Q a) (sym s) h)
Holds-change p Q v (throw x) r' g w e s h = rw e h

-- An operation on the current file changes its position only.
pub change_file :
    {A : Type 0} (p : ℕ) (m : M Fcntl A) (P : View → Type 0) (Q : A → View → Type 0)
    → ((f : Fcntl) → (m f).1.ffull_dblks ≡ f.ffull_dblks)
    → ((v : View) (f : Fcntl)
        → v.file ≡ position (some f)
        → P v
        → Holds (λ a k. Q a (record v { file = position (some k) })) Only (m f).0 (m f).1)
    → Triple (λ w. P (view p w)) (on_wr_file m) (λ a w. Q a (view p w)) Only
change_file {A} p m P Q n k = record { apply = λ w h. go w h (on_current-cases m p w n) }
  where
    go :
        (w : Wmgr)
        → P (view p w)
        → OnCurrent m p w
        → Holds (λ a u. Q a (view p u)) Only (on_wr_file m w).0 (on_wr_file m w).1
    go w h (missing e) =
        subst (λ (o : Result A × Wmgr). Holds (λ a u. Q a (view p u)) Only o.0 o.1) (sym e) refl
    go w h (present f c r s) =
        Holds-change p Q (view p w) (m f).0 (on_wr_file m w).0 (m f).1 (on_wr_file m w).1 r s
          (k (view p w) f (ap position c) h)

pub frame_on_wr_file :
    {A : Type 0} (p : ℕ) (P : View → Type 0) (m : M Fcntl A)
    → ((f : Fcntl) → position (some (m f).1) ≡ position (some f))
    → ((f : Fcntl) → fine (m f).0 ≡ true)
    → Frames p P (on_wr_file m)
frame_on_wr_file p P m e n =
    same p P (on_wr_file m) (λ w. view_lem w (on_current-cases m p w (λ f. ap (λ x. x.full) (e f))))
      (λ w. fine_lem w (on_current-cases m p w (λ f. ap (λ x. x.full) (e f))))
  where
    view_lem : (w : Wmgr) → OnCurrent m p w → view p (on_wr_file m w).1 ≡ view p w
    view_lem w (missing h) = ap (λ o. view p o.1) h
    view_lem w (present f c r s) = ground (arith, s, c, e f)

    fine_lem : (w : Wmgr) → OnCurrent m p w → fine (on_wr_file m w).0 ≡ true
    fine_lem w (missing h) = ap (λ o. fine o.0) h
    fine_lem w (present f c r s) = ap fine r ∙ n f
