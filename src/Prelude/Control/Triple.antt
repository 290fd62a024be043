-- ===== src/Prelude/Control/Triple.antt =====
-- Hoare triples for code that may throw: a condition on the state before, one on the outcome of a
-- return and the state after it, and one on the state that an exception leaves.
use mathlib.Core.Bool.{Bool, true, false}
use mathlib.Core.Path.{◌≡◌, refl}
use qpid_cpp_store_debian.Prelude.Control.{
  Error, Result, ok, throw, M, ◌>>=◌, ◌>>◌, pure, raise, get, require,
}
use qpid_cpp_store_debian.Prelude.Tests.{if◌then◌else◌}

abbrev pub Holds {ℓ} :
    {S A : Type 0} → (A → S → Type ℓ) → (Error → S → Type ℓ) → Result A → S → Type ℓ
Holds Q R (ok a) s = Q a s
Holds Q R (throw e) s = R e s

pub record Triple {ℓ} {S A : Type 0} (P : S → Type ℓ) (m : M S A) (Q : A → S → Type ℓ)
    (R : Error → S → Type ℓ) : Type ℓ where
  pub apply : (s : S) → P s → Holds Q R (m s).0 (m s).1

module _ {ℓ} {S A : Type 0} where
  Holds-elim :
      {B : Type 0} (R : Error → S → Type ℓ) (Q : A → S → Type ℓ) (Q' : B → S → Type ℓ)
      (r : Result A) (s : S) (f : A → M S B)
      → Holds Q R r s
      → ((a : A) → Triple (Q a) (f a) Q' R)
      → let o : Result B × S = (elim r [ ok a ↦ f a s | throw e ↦ (throw e, s) ]) in
        Holds Q' R o.0 o.1
  Holds-elim R Q Q' (ok a) s f h k = (k a).apply s h
  Holds-elim R Q Q' (throw e) s f h k = h

  pub bind :
      {R : Error → S → Type ℓ} {B : Type 0} {P : S → Type ℓ} {Q : A → S → Type ℓ}
      {Q' : B → S → Type ℓ} {m : M S A} {f : A → M S B}
      → Triple P m Q R
      → ((a : A) → Triple (Q a) (f a) Q' R)
      → Triple P (m >>= f) Q' R
  bind {R} {Q} {Q'} {m} {f} h k = record {
    apply = λ s p. Holds-elim R Q Q' (m s).0 (m s).1 f (h.apply s p) k;
  }

  Holds-mono :
      (R R' : Error → S → Type ℓ) (Q Q' : A → S → Type ℓ) (r : Result A) (s : S)
      → ((a : A) (s : S) → Q a s → Q' a s)
      → ((e : Error) (s : S) → R e s → R' e s)
      → Holds Q R r s
      → Holds Q' R' r s
  Holds-mono R R' Q Q' (ok a) s g k h = g a s h
  Holds-mono R R' Q Q' (throw e) s g k h = k e s h

  pub weaken :
      {R R' : Error → S → Type ℓ} {P P' : S → Type ℓ} {Q Q' : A → S → Type ℓ} {m : M S A}
      → Triple P m Q R
      → ((s : S) → P' s → P s)
      → ((a : A) (s : S) → Q a s → Q' a s)
      → ((e : Error) (s : S) → R e s → R' e s)
      → Triple P' m Q' R'
  weaken {R} {R'} {Q} {Q'} {m} h f g k = record {
    apply = λ s p. Holds-mono R R' Q Q' (m s).0 (m s).1 g k (h.apply s (f s p));
  }

-- An invariant of the state: the code keeps it, on a return and on an exception.
abbrev pub Keeps {ℓ} : {S A : Type 0} → (S → Type ℓ) → M S A → Type ℓ
Keeps I m = Triple I m (λ _. I) (λ _. I)

module _ {ℓ} {S : Type 0} where
  pub seq :
      {R : Error → S → Type ℓ} {B : Type 0} {P Q : S → Type ℓ} {Q' : B → S → Type ℓ}
      {m : M S (Unit {0})} {k : M S B}
      → Triple P m (λ _. Q) R
      → Triple Q k Q' R
      → Triple P (m >> k) Q' R
  seq {R} {Q} {Q'} {m} {k} h g = record {
    apply = λ s p. Holds-elim R (λ _. Q) Q' (m s).0 (m s).1 (λ _. k) (h.apply s p) (λ _. g);
  }

  pub Keeps-pure : {A : Type 0} (I : S → Type ℓ) (a : A) → Keeps I (pure {S = S} a)
  Keeps-pure I a = record { apply = λ s p. p }

  pub Keeps-raise : {A : Type 0} (I : S → Type ℓ) (e : Error) → Keeps I (raise {S = S} {A = A} e)
  Keeps-raise I e = record { apply = λ s p. p }

  pub Keeps-require : (I : S → Type ℓ) (b : Bool) (e : Error) → Keeps I (require {S = S} b e)
  Keeps-require I true e = record { apply = λ s p. p }
  Keeps-require I false e = record { apply = λ s p. p }

module _ {ℓ} {S A : Type 0} {R : Error → S → Type ℓ} {P : S → Type ℓ} {Q : A → S → Type ℓ} where
  pub returned : (a : A) → ((s : S) → P s → Q a s) → Triple P (pure a) Q R
  returned a h = record { apply = h }

  pub raised : (e : Error) → ((s : S) → P s → R e s) → Triple P (raise e) Q R
  raised e h = record { apply = h }

  pub given : {m : M S A} {F : Type ℓ} → (F → Triple P m Q R) → Triple (λ s. F × P s) m Q R
  given h = record { apply = λ s p. (h p.0).apply s p.1 }

  -- A test that the state before does not decide.
  pub choose :
      (b : Bool) {m k : M S A}
      → (b ≡ true → Triple P m Q R)
      → (b ≡ false → Triple P k Q R)
      → Triple P (if b then m else k) Q R
  choose true h g = h refl
  choose false h g = g refl

-- Code that reads the state first.
pub reads {ℓ} :
    {S A : Type 0} {R : Error → S → Type ℓ} {P : S → Type ℓ} {Q : A → S → Type ℓ} {f : S → M S A}
    → ((s : S) → Triple (λ t. P t × (t ≡ s)) (f s) Q R)
    → Triple P (get >>= f) Q R
reads h = record { apply = λ s q. (h s).apply s (q, refl) }

-- A value that the state before decides.
pub exists {ℓ} :
    {S A X : Type 0} {R : Error → S → Type ℓ} {P : X → S → Type ℓ} {Q : A → S → Type ℓ} {m : M S A}
    → ((x : X) → Triple (P x) m Q R)
    → Triple (λ s. (x : X) × P x s) m Q R
exists h = record { apply = λ s p. (h p.0).apply s p.1 }

-- The same, with what is known of that state.
pub inspect {ℓ} :
    {S A : Type 0} {R : Error → S → Type ℓ} {P : S → Type ℓ} {Q : A → S → Type ℓ} {f : S → M S A}
    → ((s : S) → P s → Triple (λ t. P t × (t ≡ s)) (f s) Q R)
    → Triple P (get >>= f) Q R
inspect h = record { apply = λ s q. (h s q).apply s (q, refl) }

module _ {ℓ} {S A : Type 0} {R : Error → S → Type ℓ} {P : S → Type ℓ} {Q : A → S → Type ℓ} where
  -- Tests whose outcome is known.
  pub passes :
      (b : Bool) (e : Error) {m : M S A}
      → b ≡ true
      → Triple P m Q R
      → Triple P (require b e >> m) Q R
  passes true e h k = record { apply = λ s p. k.apply s p }
  passes false e h k = cc

  pub otherwise :
      (b : Bool) (m : M S A) {k : M S A}
      → b ≡ false
      → Triple P k Q R
      → Triple P (if b then m else k) Q R
  otherwise false m h k = k
  otherwise true m h k = cc

  pub taken :
      (b : Bool) {m : M S A} (k : M S A)
      → b ≡ true
      → Triple P m Q R
      → Triple P (if b then m else k) Q R
  taken true k h t = t
  taken false k h t = cc

-- A condition that the code keeps, beside another.
Holds-and {ℓ} :
    {S A : Type 0} (R : Error → S → Type ℓ) (Q : A → S → Type ℓ) (F : S → Type ℓ) (r : Result A)
    (s : S)
    → Holds Q R r s
    → F s
    → Holds (λ a t. Q a t × F t) R r s
Holds-and R Q F (ok a) s h f = (h, f)
Holds-and R Q F (throw e) s h f = h

pub beside {ℓ} :
    {S A : Type 0} {R : Error → S → Type ℓ} {P F : S → Type ℓ} {Q : A → S → Type ℓ} {m : M S A}
    → Triple P m Q R
    → ((s : S) → F s → F (m s).1)
    → Triple (λ s. P s × F s) m (λ a s. Q a s × F s) R
beside {R} {F} {Q} {m} h k = record {
  apply = λ s p. Holds-and R Q F (m s).0 (m s).1 (h.apply s p.0) (k s p.1);
}
