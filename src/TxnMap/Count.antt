-- ===== src/TxnMap/Count.antt =====
-- How many operations of open transactions lie in a file.
use qpid_cpp_store_debian.Prelude.{
  ℕ, ◌+◌, ◌≤◌, ◌<◌, ◌≡◌, refl, Bool, true, false, some, List, [], ◌∷◌, ◌++◌, length, get_or, u32,
  sub32, alter, update_at-some, length-alter, get_or-alter, ◌==◌, arith,
}
use qpid_cpp_store_debian.Prelude.StdMap.{find, place, erase, modify}
use qpid_cpp_store_debian.Xid.{Xid, xid_key}
use qpid_cpp_store_debian.TxnMap.{TxnData, count_down}

abbrev pub one_if : Bool → ℕ
one_if true = 1
one_if false = 0

-- The operations of a transaction in file `p`, and those of all transactions.
abbrev pub count : ℕ → List TxnData → ℕ
count p [] = 0
count p (td ∷ tdl) = one_if (td.pfid == p) + count p tdl

abbrev pub total : ℕ → List (Xid × List TxnData) → ℕ
total p [] = 0
total p ((xid, tdl) ∷ m) = count p tdl + total p m

pub count-snoc :
    (p : ℕ) (tdl : List TxnData) (td : TxnData)
    → count p (tdl ++ (td ∷ [])) ≡ one_if (td.pfid == p) + count p tdl
count-snoc p [] td = refl
count-snoc p (t ∷ tdl) td = omega (arith, count-snoc p tdl td)

pub total-place :
    (p : ℕ) (xid : Xid) (tdl : List TxnData) (m : List (Xid × List TxnData))
    → total p (place xid tdl m) ≡ count p tdl + total p m
unfolding place
total-place p xid tdl [] = refl
total-place p xid tdl ((x, l) ∷ m) = ground (arith, total-place p xid tdl m)

pub total-erase :
    (p : ℕ) (xid : Xid) (tdl : List TxnData) (m : List (Xid × List TxnData))
    → find xid m ≡ some tdl
    → total p m ≡ count p tdl + total p (erase xid m)
unfolding find erase
total-erase p xid tdl [] h = ground arith
total-erase p xid tdl ((x, l) ∷ m) h = ground (arith, total-erase p xid tdl m)

pub total-snoc :
    (p : ℕ) (xid : Xid) (td : TxnData) (tdl : List TxnData) (m : List (Xid × List TxnData))
    → find xid m ≡ some tdl
    → total p (modify xid (λ l. l ++ (td ∷ [])) m) ≡ one_if (td.pfid == p) + total p m
unfolding find modify
total-snoc p xid td tdl [] h = ground arith
total-snoc p xid td tdl ((x, l) ∷ m) h =
    ground (arith, total-snoc p xid td tdl m, count-snoc p l td)

-- Replacing a list by one with the same files.
pub total-replace :
    (p : ℕ) (xid : Xid) (tdl new : List TxnData) (m : List (Xid × List TxnData))
    → find xid m ≡ some tdl
    → count p new ≡ count p tdl
    → total p (modify xid (λ _. new) m) ≡ total p m
unfolding find modify
total-replace p xid tdl new [] h e = refl
total-replace p xid tdl new ((x, l) ∷ m) h e = ground (arith, total-replace p xid tdl new m)

-- `count_down` where every file is one of the journal.
abbrev pub lowered : List TxnData → List ℕ → List ℕ
lowered [] cnt = cnt
lowered (td ∷ tdl) cnt = lowered tdl (alter cnt td.pfid (λ c. sub32 c 1))

abbrev pub AllBelow : ℕ → List TxnData → Type 0
AllBelow n [] = Unit
AllBelow n (td ∷ tdl) = (td.pfid < n) × AllBelow n tdl

pub count_down_lem :
    (tdl : List TxnData) (cnt : List ℕ)
    → AllBelow (length cnt) tdl
    → count_down tdl cnt ≡ (some (lowered tdl cnt), lowered tdl cnt)
unfolding count_down
count_down_lem [] cnt h = refl
count_down_lem (td ∷ tdl) cnt h =
    rw (update_at-some cnt td.pfid (λ c. sub32 c 1) h.0, count_down)
      (count_down_lem tdl (alter cnt td.pfid (λ c. sub32 c 1))
        (rw (length-alter cnt td.pfid (λ c. sub32 c 1)) h.1))

pub length-lowered : (tdl : List TxnData) (cnt : List ℕ) → length (lowered tdl cnt) ≡ length cnt
length-lowered [] cnt = refl
length-lowered (td ∷ tdl) cnt = omega (
  arith,
  length-lowered tdl (alter cnt td.pfid (λ c. sub32 c 1)),
  length-alter cnt td.pfid (λ c. sub32 c 1),
)

pub get_or-lowered :
    (p k : ℕ) (tdl : List TxnData) (cnt : List ℕ)
    → AllBelow (length cnt) tdl
    → get_or cnt p 0 ≡ u32 (count p tdl + k)
    → get_or (lowered tdl cnt) p 0 ≡ u32 k
get_or-lowered p k [] cnt h e = omega (arith, e)
get_or-lowered p k (td ∷ tdl) cnt h e =
    get_or-lowered p k tdl (alter cnt td.pfid (λ c. sub32 c 1))
      (rw (length-alter cnt td.pfid (λ c. sub32 c 1)) h.1)
      (ground (arith, get_or-alter cnt td.pfid p (λ c. sub32 c 1) 0 h.0))

-- A list none of whose operations lies in a file from `n` on.
pub AllBelow-of_count :
    (n : ℕ) (tdl : List TxnData) → ((p : ℕ) → n ≤ p → count p tdl ≡ 0) → AllBelow n tdl
AllBelow-of_count n [] h = tt
AllBelow-of_count n (td ∷ tdl) h =
    (ground (arith, h td.pfid), AllBelow-of_count n tdl (λ p le. omega (arith, h p le)))
