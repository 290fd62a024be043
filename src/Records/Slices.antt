-- ===== src/Records/Slices.antt =====
-- Parts of lists.
use qpid_cpp_store_debian.Prelude.{
  ℕ, zero, suc, ◌-◌, ◌≤◌, ◌≡◌, refl, ap, List, [], ◌∷◌, ◌++◌, length, take, drop, arith, ◌∙◌, sym,
  length-take,
}

module _ {ℓ} {A : Type ℓ} where
  pub take_zero : (xs : List A) → take 0 xs ≡ []
  take_zero xs = refl

  pub take_all : (n : ℕ) (xs : List A) → length xs ≤ n → take n xs ≡ xs
  take_all zero [] h = refl
  take_all zero (x ∷ xs) h = absurd (omega arith)
  take_all (suc n) [] h = refl
  take_all (suc n) (x ∷ xs) h = ap (◌∷◌ x) (take_all n xs (omega arith))

  pub drop_all : (n : ℕ) (xs : List A) → length xs ≤ n → drop n xs ≡ []
  drop_all zero [] h = refl
  drop_all zero (x ∷ xs) h = absurd (omega arith)
  drop_all (suc n) [] h = refl
  drop_all (suc n) (x ∷ xs) h = drop_all n xs (omega arith)

  pub drop_as : {m n : ℕ} (xs : List A) → m ≡ n → drop m xs ≡ drop n xs
  drop_as xs e = ap (λ k. drop k xs) e

  pub take_as : {m n : ℕ} (xs : List A) → m ≡ n → take m xs ≡ take n xs
  take_as xs e = ap (λ k. take k xs) e

  pub drop-append :
      (n : ℕ) (xs ys : List A) → drop n (xs ++ ys) ≡ drop n xs ++ drop (n - length xs) ys
  drop-append zero [] ys = refl
  drop-append zero (x ∷ xs) ys =
      ap (◌++◌ (x ∷ xs)) (drop_as {m = 0} {n = 0 - suc (length xs)} ys (omega arith))
  drop-append (suc n) [] ys = drop_as {m = suc n} {n = suc n - 0} ys (omega arith)
  drop-append (suc n) (x ∷ xs) ys =
      drop-append n xs ys
      ∙ ap (◌++◌ (drop n xs))
          (drop_as {m = n - length xs} {n = suc n - suc (length xs)} ys (omega arith))

  pub take-append :
      (n : ℕ) (xs ys : List A) → take n (xs ++ ys) ≡ take n xs ++ take (n - length xs) ys
  take-append zero [] ys = refl
  take-append zero (x ∷ xs) ys = take_as {m = 0} {n = 0 - suc (length xs)} ys (omega arith)
  take-append (suc n) [] ys = take_as {m = suc n} {n = suc n - 0} ys (omega arith)
  take-append (suc n) (x ∷ xs) ys = ap (◌∷◌ x) (
      take-append n xs ys
      ∙ ap (◌++◌ (take n xs))
          (take_as {m = n - length xs} {n = suc n - suc (length xs)} ys (omega arith)))

  -- Taking more than there is, is taking all.
  pub take_cut : (n k : ℕ) (xs : List A) → length xs ≤ n → k ≡ length xs → take k xs ≡ take n xs
  take_cut n k xs h e = take_all k xs (omega arith) ∙ sym (take_all n xs h)

  pub take_beyond : (n k : ℕ) (xs : List A) → n ≤ k → take k (take n xs) ≡ take n xs
  take_beyond n k xs h = take_all k (take n xs) (omega (arith, length-take n xs))
