-- ===== src/Lpmgr/Order.antt =====
-- The numbers of the files in the list of lib/jrnl/lpmgr.cpp.
use qpid_cpp_store_debian.Prelude.{
  ℕ, zero, suc, ◌+◌, ◌^◌, ◌≡◌, ◌≤◌, ◌<◌, refl, Option, none, some, List, [], ◌∷◌, length, arith,
  ◌==◌, ltb, if◌then◌else◌, add16, subst,
}
use qpid_cpp_store_debian.Prelude.Control.{ok}
use qpid_cpp_store_debian.Fcntl.{Fcntl, set_lfid}
use qpid_cpp_store_debian.Lpmgr.{Lpmgr, Factory, insert_at, renumber}

-- Each place from `i` on has a file, with the place as its logical number.
abbrev pub Numbered : ℕ → List (Option Fcntl) → Type 0
Numbered i [] = Unit
Numbered i (none ∷ xs) = ⊥
Numbered i (some f ∷ xs) = (f.lfid ≡ i) × Numbered (suc i) xs

-- How many files have the physical number `p`.
abbrev pub count : ℕ → List (Option Fcntl) → ℕ
count p [] = 0
count p (none ∷ xs) = count p xs
count p (some f ∷ xs) = (if f.pfid == p then 1 else 0) + count p xs

-- The logical numbers are the places, and every physical number below the number of files occurs
-- exactly once, and no other.
pub record IsValid (l : Lpmgr) : Type 0 where
  pub numbered : Numbered 0 l.fcntl_arr
  pub unique : (p : ℕ) → count p l.fcntl_arr ≡ (if ltb p (length l.fcntl_arr) then 1 else 0)

-- What the code relies on of a factory: a file with the numbers asked for, when the file can be
-- made and opened.
abbrev pub Makes : Factory → Type 0
Makes fp =
    (lfid pfid : ℕ) → (f : Fcntl) × (fp lfid pfid none ≡ ok f) × (f.lfid ≡ lfid) × (f.pfid ≡ pfid)

-- The places up to `k` numbered from `i`, those from `k` on numbered from `j`.
abbrev pub Split : ℕ → ℕ → ℕ → List (Option Fcntl) → Type 0
Split i zero j xs = Numbered j xs
Split i (suc k) j [] = ⊥
Split i (suc k) j (none ∷ xs) = ⊥
Split i (suc k) j (some f ∷ xs) = (f.lfid ≡ i) × Split (suc i) k j xs

pub Split-insert_at :
    (i k j : ℕ) (xs : List (Option Fcntl)) (f : Fcntl)
    → Split i k j xs
    → f.lfid ≡ i + k
    → Split i (suc k) j (insert_at xs k (some f))
Split-insert_at i zero j xs f h e = (omega (arith, e), h)
Split-insert_at i (suc k) j [] f h e = elim h [ ]
Split-insert_at i (suc k) j (none ∷ xs) f h e = elim h [ ]
Split-insert_at i (suc k) j (some g ∷ xs) f h e =
    (h.0, Split-insert_at (suc i) k j xs f h.1 (omega (arith, e)))

pub Split-of_Numbered :
    (i k : ℕ) (xs : List (Option Fcntl)) → k ≤ length xs → Numbered i xs → Split i k (i + k) xs
Split-of_Numbered i zero xs h n = subst (λ j. Numbered j xs) (omega arith) n
Split-of_Numbered i (suc k) [] h n = absurd (omega arith)
Split-of_Numbered i (suc k) (none ∷ xs) h n = elim n [ ]
Split-of_Numbered i (suc k) (some f ∷ xs) h n = (
  n.0,
  subst (λ j. Split (suc i) k j xs) (omega arith)
      (Split-of_Numbered (suc i) k xs (omega (arith, h)) n.1),
)

pub count-insert_at :
    (p k : ℕ) (xs : List (Option Fcntl)) (f : Fcntl)
    → count p (insert_at xs k (some f)) ≡ (if f.pfid == p then 1 else 0) + count p xs
count-insert_at p zero xs f = refl
count-insert_at p (suc k) [] f = refl
count-insert_at p (suc k) (none ∷ xs) f = count-insert_at p k xs f
count-insert_at p (suc k) (some g ∷ xs) f = omega (arith, count-insert_at p k xs f)

pub length-insert_at :
    (k : ℕ) (xs : List (Option Fcntl)) (x : Option Fcntl)
    → length (insert_at xs k x) ≡ suc (length xs)
length-insert_at zero xs x = refl
length-insert_at (suc k) [] x = refl
length-insert_at (suc k) (y ∷ xs) x = omega (arith, length-insert_at k xs x)

-- `renumber` repairs the numbers after the inserted files.
pub renumber-Split :
    (i k j n : ℕ) (xs : List (Option Fcntl))
    → Split i k j xs
    → j + n ≡ i + k
    → i + length xs < 2 ^ 16
    → (ys : List (Option Fcntl)) × (renumber k n xs ≡ some ys)
      × Numbered i ys
      × (length ys ≡ length xs)
      × ((p : ℕ) → count p ys ≡ count p xs)
unfolding renumber
renumber-Split i zero j n [] s e b = ([], refl, tt, refl, λ p. refl)
renumber-Split i zero j n (none ∷ xs) s e b = elim s [ ]
renumber-Split i zero j n (some f ∷ xs) s e b =
    let r = renumber-Split (suc i) zero (suc j) n xs s.1 (omega (arith, e)) (omega (arith, b)) in
    (
      some (set_lfid (add16 f.lfid n) f) ∷ r.0,
      ground (arith, r.1),
      (omega (arith, s.0, e, b), r.2),
      omega (arith, r.3),
      λ p. omega (arith, r.4 p),
    )
renumber-Split i (suc k) j n [] s e b = elim s [ ]
renumber-Split i (suc k) j n (none ∷ xs) s e b = elim s [ ]
renumber-Split i (suc k) j n (some f ∷ xs) s e b =
    let r = renumber-Split (suc i) k j n xs s.1 (omega (arith, e)) (omega (arith, b)) in
    (some f ∷ r.0, ground (arith, r.1), (s.0, r.2), omega (arith, r.3), λ p. omega (arith, r.4 p))
