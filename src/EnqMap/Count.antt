-- ===== src/EnqMap/Count.antt =====
-- How many records of the map lie in a file.
use qpid_cpp_store_debian.Prelude.{
  ℕ, ◌+◌, ◌≡◌, refl, Bool, true, false, some, List, [], ◌∷◌, ◌==◌, arith,
}
use qpid_cpp_store_debian.Prelude.StdMap.{find, place, erase, modify, nat_key}
use qpid_cpp_store_debian.EnqMap.{EmapData, set_lock}

abbrev pub one_if : Bool → ℕ
one_if true = 1
one_if false = 0

-- The records of file `p`.
abbrev pub count : ℕ → List (ℕ × EmapData) → ℕ
count p [] = 0
count p ((rid, d) ∷ m) = one_if (d.pfid == p) + count p m

pub count-place :
    (p rid : ℕ) (d : EmapData) (m : List (ℕ × EmapData))
    → count p (place rid d m) ≡ one_if (d.pfid == p) + count p m
unfolding place
count-place p rid d [] = refl
count-place p rid d ((r, e) ∷ m) = ground (arith, count-place p rid d m)

pub count-erase :
    (p rid : ℕ) (d : EmapData) (m : List (ℕ × EmapData))
    → find rid m ≡ some d
    → count p m ≡ one_if (d.pfid == p) + count p (erase rid m)
unfolding find erase
count-erase p rid d [] h = ground arith
count-erase p rid d ((r, e) ∷ m) h = ground (arith, count-erase p rid d m)

pub count-set_lock :
    (p rid : ℕ) (b : Bool) (m : List (ℕ × EmapData))
    → count p (modify rid (set_lock b) m) ≡ count p m
unfolding modify
count-set_lock p rid b [] = refl
count-set_lock p rid b ((r, e) ∷ m) = ground (arith, count-set_lock p rid b m)

-- A file in which a record is found holds at least one.
pub count_pos :
    (rid : ℕ) (d : EmapData) (m : List (ℕ × EmapData))
    → find rid m ≡ some d
    → count d.pfid m ≡ 1 + count d.pfid (erase rid m)
count_pos rid d m h = ground (arith, count-erase d.pfid rid d m h)
