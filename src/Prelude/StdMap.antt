-- ===== src/Prelude/StdMap.antt =====
-- `std::map`: the pairs in ascending order of their keys.
pub mod Order
use Prim.Native.Nat.{ℕ, ◌<◌}
use mathlib.Core.Path.{◌≡◌, refl}
use mathlib.Core.Logic.{◌↔◌}
use mathlib.Core.Bool.{Bool, true, false}
use mathlib.Core.Option.{Option, none, some}
use mathlib.Core.List.{List, [], ◌∷◌}
use native.Mathlib.Omega.{arith}
use qpid_cpp_store_debian.Prelude.Tests.{if◌then◌else◌, ltb, ◌==◌, ==_iff}

-- What a key type provides: equality and `std::less`.
pub record Key (K : Type 0) : Type 0 where
  pub eq : K → K → Bool
  pub less : K → K → Bool
  pub eq_iff : (a b : K) → (eq a b ≡ true) ↔ (a ≡ b)
  pub less_trans : (a b c : K) → less a b ≡ true → less b c ≡ true → less a c ≡ true
  pub less_connex : (a b : K) → eq a b ≡ false → less a b ≡ false → less b a ≡ true

pub ltb_trans : (a b c : ℕ) → ltb a b ≡ true → ltb b c ≡ true → ltb a c ≡ true
ltb_trans a b c h k = ground arith

pub ltb_connex : (a b : ℕ) → (a == b) ≡ false → ltb a b ≡ false → ltb b a ≡ true
ltb_connex a b h k = ground arith

module _ {K V : Type 0} ⦃key : Key K⦄ where
  unfoldable pub find : K → List (K × V) → Option V
  find k [] = none
  find k ((j, v) ∷ m) = if key.eq j k then some v else find k m

  -- The new pair goes before the first greater key.
  unfoldable pub place : K → V → List (K × V) → List (K × V)
  place k v [] = (k, v) ∷ []
  place k v ((j, w) ∷ m) = if key.less k j then (k, v) ∷ (j, w) ∷ m else (j, w) ∷ place k v m

  -- `insert` leaves a key that is present alone, and says so.
  unfoldable pub insert : K → V → List (K × V) → List (K × V) × Bool
  unfolding place find
  insert k v m = elim (find k m) [ none ↦ (place k v m, true) | some _ ↦ (m, false) ]

  unfoldable pub erase : K → List (K × V) → List (K × V)
  erase k [] = []
  erase k ((j, v) ∷ m) = if key.eq j k then m else (j, v) ∷ erase k m

  -- A write through the iterator that `find` returns.
  unfoldable pub modify : K → (V → V) → List (K × V) → List (K × V)
  modify k f [] = []
  modify k f ((j, v) ∷ m) = if key.eq j k then (j, f v) ∷ m else (j, v) ∷ modify k f m

  pub find-place :
      (k j : K) (v : V) (m : List (K × V))
      → find k m ≡ none
      → find j (place k v m) ≡ (if key.eq k j then some v else find j m)
  unfolding find place
  find-place k j v [] h = refl
  find-place k j v ((i, w) ∷ m) h =
      ground (arith, find-place k j v m, key.eq_iff i k, key.eq_iff i j, key.eq_iff k j)

  pub find-modify :
      (k j : K) (f : V → V) (m : List (K × V))
      → find j (modify k f m)
        ≡ (if key.eq k j then elim (find j m) [ none ↦ none | some v ↦ some (f v) ] else find j m)
  unfolding find modify
  find-modify k j f [] = ground arith
  find-modify k j f ((i, w) ∷ m) =
      ground (arith, find-modify k j f m, key.eq_iff i k, key.eq_iff i j, key.eq_iff k j)

  pub find-erase_ne :
      (k j : K) (m : List (K × V)) → key.eq k j ≡ false → find j (erase k m) ≡ find j m
  unfolding find erase
  find-erase_ne k j [] h = refl
  find-erase_ne k j ((i, w) ∷ m) h =
      ground (arith, find-erase_ne k j m h, key.eq_iff i k, key.eq_iff i j, key.eq_iff k j)

  -- Erasing what was just inserted gives the map back.
  pub erase-place : (k : K) (v : V) (m : List (K × V)) → find k m ≡ none → erase k (place k v m) ≡ m
  unfolding find erase place
  erase-place k v [] h = ground (arith, key.eq_iff k k)
  erase-place k v ((i, w) ∷ m) h = ground (arith, erase-place k v m, key.eq_iff k k, key.eq_iff i k)

-- Keys that are unsigned integers.
instance abbrev pub nat_key : Key ℕ
nat_key = record {
  eq = ◌==◌;
  less = ltb;
  eq_iff = ==_iff;
  less_trans = ltb_trans;
  less_connex = ltb_connex;
}
