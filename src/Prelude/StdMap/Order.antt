-- ===== src/Prelude/StdMap/Order.antt =====
-- The order of a `std::map`.
use mathlib.Core.Path.{◌≡◌, refl}
use mathlib.Core.Bool.{true, false}
use mathlib.Core.Option.{none}
use mathlib.Core.List.{List, [], ◌∷◌}
use native.Mathlib.Omega.{arith}
use qpid_cpp_store_debian.Prelude.StdMap.{Key, find, place, erase, modify}

module _ {K V : Type 0} ⦃key : Key K⦄ where
  -- Every key of the list is above `k`, and the keys ascend.
  abbrev pub Above : K → List (K × V) → Type 0
  Above k [] = Unit
  Above k ((j, v) ∷ m) = (key.less k j ≡ true) × Above j m

  abbrev pub IsSorted : List (K × V) → Type 0
  IsSorted [] = Unit
  IsSorted ((j, v) ∷ m) = Above j m

  Above-mono : (i j : K) (m : List (K × V)) → key.less i j ≡ true → Above j m → Above i m
  Above-mono i j [] h a = tt
  Above-mono i j ((k, v) ∷ m) h a = (key.less_trans i j k h a.0, a.1)

  place-Above :
      (i k : K) (v : V) (m : List (K × V))
      → key.less i k ≡ true
      → find k m ≡ none
      → Above i m
      → Above i (place k v m)
  unfolding place find
  place-Above i k v [] h f a = (h, tt)
  place-Above i k v ((j, w) ∷ m) h f a = ground (
    arith,
    place-Above j k v m,
    key.less_connex j k,
    key.less_connex k j,
    key.eq_iff j k,
    key.eq_iff k j,
  )

  pub place-IsSorted :
      (k : K) (v : V) (m : List (K × V)) → find k m ≡ none → IsSorted m → IsSorted (place k v m)
  unfolding place find
  place-IsSorted k v [] f s = tt
  place-IsSorted k v ((j, w) ∷ m) f s =
      ground (arith, place-Above j k v m, key.less_connex k j, key.eq_iff j k, key.eq_iff k j)

  erase-Above : (i k : K) (m : List (K × V)) → Above i m → Above i (erase k m)
  unfolding erase
  erase-Above i k [] a = tt
  erase-Above i k ((j, w) ∷ m) a = ground (arith, erase-Above j k m a.1, Above-mono i j m a.0 a.1)

  pub erase-IsSorted : (k : K) (m : List (K × V)) → IsSorted m → IsSorted (erase k m)
  unfolding erase
  erase-IsSorted k [] s = tt
  erase-IsSorted k ((j, w) ∷ []) s = ground arith
  erase-IsSorted k ((j, w) ∷ (i, v) ∷ m) s = ground (arith, erase-Above j k ((i, v) ∷ m) s)

  modify-Above : (i k : K) (f : V → V) (m : List (K × V)) → Above i m → Above i (modify k f m)
  unfolding modify
  modify-Above i k f [] a = tt
  modify-Above i k f ((j, w) ∷ m) a = ground (arith, modify-Above j k f m a.1)

  pub modify-IsSorted :
      (k : K) (f : V → V) (m : List (K × V)) → IsSorted m → IsSorted (modify k f m)
  unfolding modify
  modify-IsSorted k f [] s = tt
  modify-IsSorted k f ((j, w) ∷ m) s = ground (arith, modify-Above j k f m s)

  -- A key below all others is not found.
  pub find_below : (k : K) (m : List (K × V)) → key.less k k ≡ false → Above k m → find k m ≡ none
  unfolding find
  find_below k [] irr a = refl
  find_below k ((j, v) ∷ m) irr a =
      ground (arith, find_below k m irr, Above-mono k j m a.0 a.1, key.eq_iff j k)

  -- What is erased is not found.
  pub find-erase_self :
      (k : K) (m : List (K × V)) → key.less k k ≡ false → IsSorted m → find k (erase k m) ≡ none
  unfolding find erase
  find-erase_self k [] irr s = refl
  find-erase_self k ((j, v) ∷ []) irr s = ground arith
  find-erase_self k ((j, v) ∷ (i, u) ∷ m) irr s =
      ground (
        arith,
        find_below k ((i, u) ∷ m) irr,
        find-erase_self k ((i, u) ∷ m) irr s.1,
        key.eq_iff j k,
      )
