-- ===== src/Prelude/Vector.antt =====
-- `std::vector`: `at`, which throws out of range, and `resize`.
use Prim.Native.Nat.{ℕ, zero, suc, ◌≤◌, ◌<◌}
use mathlib.Core.Path.{◌≡◌, refl, ap}
use mathlib.Core.Logic.{◌⊎◌, inl, inr}
use mathlib.Core.Option.{Option, none, some}
use mathlib.Core.List.{List, [], ◌∷◌}
use native.Mathlib.Omega.{arith}
use qpid_cpp_store_debian.Prelude.Tests.{if◌then◌else◌, ◌==◌}
use qpid_cpp_store_debian.Prelude.Lists.{length, get_or, get_elem?}

module _ {A : Type 0} where
  -- A write through `v[i]`; out of range nothing changes.
  abbrev pub alter : List A → ℕ → (A → A) → List A
  alter [] i f = []
  alter (x ∷ xs) zero f = f x ∷ xs
  alter (x ∷ xs) (suc i) f = x ∷ alter xs i f

  -- A write through `v.at(i)`, `none` for `std::out_of_range`.
  abbrev pub update_at : List A → ℕ → (A → A) → Option (List A)
  update_at [] i f = none
  update_at (x ∷ xs) zero f = some (f x ∷ xs)
  update_at (x ∷ xs) (suc i) f = elim (update_at xs i f) [ none ↦ none | some ys ↦ some (x ∷ ys) ]

  abbrev pub resize : List A → ℕ → A → List A
  resize xs zero d = []
  resize [] (suc n) d = d ∷ resize [] n d
  resize (x ∷ xs) (suc n) d = x ∷ resize xs n d

  pub update_at-some :
      (xs : List A) (i : ℕ) (f : A → A) → i < length xs → update_at xs i f ≡ some (alter xs i f)
  update_at-some [] i f h = absurd (omega arith)
  update_at-some (x ∷ xs) zero f h = refl
  update_at-some (x ∷ xs) (suc i) f h = ground (arith, update_at-some xs i f)

  pub update_at-none : (xs : List A) (i : ℕ) (f : A → A) → length xs ≤ i → update_at xs i f ≡ none
  update_at-none [] i f h = refl
  update_at-none (x ∷ xs) zero f h = absurd (omega arith)
  update_at-none (x ∷ xs) (suc i) f h = ground (arith, update_at-none xs i f)

  pub update_at-cases :
      (xs : List A) (i : ℕ) (f : A → A)
      → (update_at xs i f ≡ none) ⊎ (update_at xs i f ≡ some (alter xs i f))
  update_at-cases [] i f = inl refl
  update_at-cases (x ∷ xs) zero f = inr refl
  update_at-cases (x ∷ xs) (suc i) f = ground (arith, update_at-cases xs i f)

  pub length-alter : (xs : List A) (i : ℕ) (f : A → A) → length (alter xs i f) ≡ length xs
  length-alter [] i f = refl
  length-alter (x ∷ xs) zero f = refl
  length-alter (x ∷ xs) (suc i) f = ap suc (length-alter xs i f)

  pub length-resize : (xs : List A) (n : ℕ) (d : A) → length (resize xs n d) ≡ n
  length-resize xs zero d = refl
  length-resize [] (suc n) d = ap suc (length-resize [] n d)
  length-resize (x ∷ xs) (suc n) d = ap suc (length-resize xs n d)

  pub get_or-alter :
      (xs : List A) (i j : ℕ) (f : A → A) (d : A)
      → i < length xs
      → get_or (alter xs i f) j d ≡ (if i == j then f (get_or xs i d) else get_or xs j d)
  get_or-alter [] i j f d h = absurd (omega arith)
  get_or-alter (x ∷ xs) zero zero f d h = refl
  get_or-alter (x ∷ xs) zero (suc j) f d h = ground arith
  get_or-alter (x ∷ xs) (suc i) zero f d h = ground arith
  get_or-alter (x ∷ xs) (suc i) (suc j) f d h = ground (arith, get_or-alter xs i j f d)

  pub get_or-resize :
      (xs : List A) (n j : ℕ) (d : A) → j < n → get_or (resize xs n d) j d ≡ get_or xs j d
  get_or-resize xs zero j d h = absurd (omega arith)
  get_or-resize [] (suc n) zero d h = refl
  get_or-resize [] (suc n) (suc j) d h = get_or-resize [] n j d (omega arith)
  get_or-resize (x ∷ xs) (suc n) zero d h = refl
  get_or-resize (x ∷ xs) (suc n) (suc j) d h = get_or-resize xs n j d (omega arith)

  -- Two writes at one place.
  pub alter-alter :
      (xs : List A) (i : ℕ) (f g : A → A) → alter (alter xs i f) i g ≡ alter xs i (λ x. g (f x))
  alter-alter [] i f g = refl
  alter-alter (x ∷ xs) zero f g = refl
  alter-alter (x ∷ xs) (suc i) f g = ap (◌∷◌ x) (alter-alter xs i f g)

  pub get_or_beyond : (xs : List A) (j : ℕ) (d : A) → length xs ≤ j → get_or xs j d ≡ d
  get_or_beyond [] j d h = refl
  get_or_beyond (x ∷ xs) zero d h = absurd (omega arith)
  get_or_beyond (x ∷ xs) (suc j) d h = get_or_beyond xs j d (omega arith)

  pub get_elem?-eq-get_or :
      (xs : List A) (i : ℕ) (d : A) → i < length xs → get_elem? xs i ≡ some (get_or xs i d)
  get_elem?-eq-get_or [] i d h = absurd (omega arith)
  get_elem?-eq-get_or (x ∷ xs) zero d h = refl
  get_elem?-eq-get_or (x ∷ xs) (suc i) d h = get_elem?-eq-get_or xs i d (omega arith)

  -- A write that keeps the value at its place changes nothing.
  pub alter_same :
      (xs : List A) (i : ℕ) (f : A → A) (d : A)
      → f (get_or xs i d) ≡ get_or xs i d
      → alter xs i f ≡ xs
  alter_same [] i f d h = refl
  alter_same (x ∷ xs) zero f d h = ap (λ y. y ∷ xs) h
  alter_same (x ∷ xs) (suc i) f d h = ap (◌∷◌ x) (alter_same xs i f d h)
