-- ===== src/Xid.antt =====
-- `std::string` transaction identifiers: bytes, compared as `std::string` compares them.
use qpid_cpp_store_debian.Prelude.{
  ℕ, ◌≡◌, refl, ◌↔◌, Bool, true, false, List, [], ◌∷◌, if◌then◌else◌, ◌==◌, ltb, arith,
}
use qpid_cpp_store_debian.Prelude.StdMap.{Key}

abbrev pub Xid : Type 0
Xid = List ℕ

abbrev pub xid_eq : Xid → Xid → Bool
xid_eq [] [] = true
xid_eq [] (b ∷ y) = false
xid_eq (a ∷ x) [] = false
xid_eq (a ∷ x) (b ∷ y) = if a == b then xid_eq x y else false

-- Lexicographic, by the values of the bytes.
abbrev pub xid_less : Xid → Xid → Bool
xid_less x [] = false
xid_less [] (b ∷ y) = true
xid_less (a ∷ x) (b ∷ y) = if a == b then xid_less x y else ltb a b

xid_eq_refl : (x : Xid) → xid_eq x x ≡ true
xid_eq_refl [] = refl
xid_eq_refl (a ∷ x) = ground (arith, xid_eq_refl x)

xid_eq_sound : (x y : Xid) → xid_eq x y ≡ true → x ≡ y
xid_eq_sound [] [] h = refl
xid_eq_sound [] (b ∷ y) h = cc
xid_eq_sound (a ∷ x) [] h = cc
xid_eq_sound (a ∷ x) (b ∷ y) h = ground (arith, xid_eq_sound x y)

pub xid_eq_iff : (x y : Xid) → (xid_eq x y ≡ true) ↔ (x ≡ y)
xid_eq_iff x y = (xid_eq_sound x y, λ e. rw e (xid_eq_refl y))

pub xid_less_trans : (x y z : Xid) → xid_less x y ≡ true → xid_less y z ≡ true → xid_less x z ≡ true
xid_less_trans [] [] z h k = cc
xid_less_trans [] (b ∷ y) [] h k = cc
xid_less_trans [] (b ∷ y) (c ∷ z) h k = refl
xid_less_trans (a ∷ x) [] z h k = cc
xid_less_trans (a ∷ x) (b ∷ y) [] h k = cc
xid_less_trans (a ∷ x) (b ∷ y) (c ∷ z) h k = ground (arith, xid_less_trans x y z)

pub xid_less_connex : (x y : Xid) → xid_eq x y ≡ false → xid_less x y ≡ false → xid_less y x ≡ true
xid_less_connex [] [] h k = cc
xid_less_connex [] (b ∷ y) h k = cc
xid_less_connex (a ∷ x) [] h k = refl
xid_less_connex (a ∷ x) (b ∷ y) h k = ground (arith, xid_less_connex x y)

pub xid_less_irr : (x : Xid) → xid_less x x ≡ false
xid_less_irr [] = refl
xid_less_irr (a ∷ x) = ground (arith, xid_less_irr x)

instance abbrev pub xid_key : Key Xid
xid_key = record {
  eq = xid_eq;
  less = xid_less;
  eq_iff = xid_eq_iff;
  less_trans = xid_less_trans;
  less_connex = xid_less_connex;
}
