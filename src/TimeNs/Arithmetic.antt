-- ===== src/TimeNs/Arithmetic.antt =====
-- The arithmetic and the order of lib/jrnl/time_ns.hpp.
use qpid_cpp_store_debian.Prelude.{
  ℕ, ◌+◌, ◌-◌, ◌*◌, ◌<◌, ◌≤◌, ◌≡◌, ◌↔◌, ◌⊎◌, inl, inr, refl, true, ℤ, pos, negsuc, ◌+ℤ◌, ◌-ℤ◌,
  pos_part, neg_part, arith, dec_lt, subst, sym, ◌∙◌,
}
use qpid_cpp_store_debian.TimeNs.{TimeNs, add, sub, lt}

-- The nanoseconds are less than a second.
unfoldable pub IsNormal : TimeNs → Type 0
IsNormal t = (neg_part t.tv_nsec ≡ 0) × (pos_part t.tv_nsec < 1000000000)

ℤ_ext : (x y : ℤ) → pos_part x ≡ pos_part y → neg_part x ≡ neg_part y → x ≡ y
ℤ_ext (pos a) (pos b) p q = ground arith
ℤ_ext (pos a) (negsuc b) p q = ground arith
ℤ_ext (negsuc a) (pos b) p q = ground arith
ℤ_ext (negsuc a) (negsuc b) p q = ground arith

parts : (x : ℤ) → (pos_part x ≡ 0) ⊎ (neg_part x ≡ 0)
parts (pos a) = inr refl
parts (negsuc a) = inl refl

-- A time as a difference of two counts of nanoseconds.
abbrev pub ahead : TimeNs → ℕ
ahead t = pos_part t.tv_sec * 1000000000 + pos_part t.tv_nsec

abbrev pub back : TimeNs → ℕ
back t = neg_part t.tv_sec * 1000000000 + neg_part t.tv_nsec

add-sub : (a b : ℤ) → (a +ℤ b) -ℤ b ≡ a
add-sub (pos a) (pos b) = ground arith
add-sub (pos a) (negsuc b) = ground arith
add-sub (negsuc a) (pos b) = ground arith
add-sub (negsuc a) (negsuc b) = ground arith

add_one-sub : (a b : ℤ) → (((a +ℤ pos 1) +ℤ b) -ℤ pos 1) -ℤ b ≡ a
add_one-sub (pos a) (pos b) = ground arith
add_one-sub (pos a) (negsuc b) = ground arith
add_one-sub (negsuc a) (pos b) = ground arith
add_one-sub (negsuc a) (negsuc b) = ground arith

abbrev time : ℤ → ℕ → TimeNs
time s n = record { tv_sec = s; tv_nsec = pos n }

from_pos : (z : ℤ) → neg_part z ≡ 0 → z ≡ pos (pos_part z)
from_pos (pos n) h = refl
from_pos (negsuc n) h = absurd (omega (arith, h))

as_time : (t : TimeNs) → IsNormal t → t ≡ time t.tv_sec (pos_part t.tv_nsec)
unfolding IsNormal
as_time t h = λ i. record { tv_sec = t.tv_sec; tv_nsec = from_pos t.tv_nsec h.0 i }

add_within :
    (s u : ℤ) (n m : ℕ) → n + m < 1000000000 → add (time s n) (time u m) ≡ time (s +ℤ u) (n + m)
unfolding add
add_within s u n m h = ground arith

add_carry :
    (s u : ℤ) (n m : ℕ)
    → 1000000000 ≤ n + m
    → add (time s n) (time u m) ≡ time ((s +ℤ pos 1) +ℤ u) (n + m - 1000000000)
unfolding add
add_carry s u n m h = ground arith

sub_within : (s u : ℤ) (n m : ℕ) → m ≤ n → sub (time s n) (time u m) ≡ time (s -ℤ u) (n - m)
unfolding sub
sub_within s u n m h = ground arith

sub_borrow :
    (s u : ℤ) (n m : ℕ)
    → n < m
    → m < 1000000000
    → sub (time s n) (time u m) ≡ time ((s -ℤ pos 1) -ℤ u) (n + 1000000000 - m)
unfolding sub
sub_borrow s u n m h k = ground arith

below : (t : TimeNs) → IsNormal t → pos_part t.tv_nsec < 1000000000
unfolding IsNormal
below t h = h.1

sub-add-time :
    (s u : ℤ) (n m : ℕ)
    → n < 1000000000
    → m < 1000000000
    → IsNormal (add (time s n) (time u m)) × (sub (add (time s n) (time u m)) (time u m) ≡ time s n)
unfolding IsNormal
sub-add-time s u n m h k = elim (dec_lt (n + m) 1000000000) [
  | yes l ↦ rw (add_within s u n m l) (
    (refl, l),
    sub_within (s +ℤ u) u (n + m) m (omega arith) ∙ (λ i. time (add-sub s u i) (back_to l i)),
  )
  | no l ↦ rw (add_carry s u n m (omega arith)) (
    (refl, omega arith),
    sub_borrow ((s +ℤ pos 1) +ℤ u) u (n + m - 1000000000) m (omega arith) k
        ∙ (λ i. time (add_one-sub s u i) (round_to (omega arith) i)),
  )
]
  where
    back_to : n + m < 1000000000 → n + m - m ≡ n
    back_to l = omega arith

    round_to : 1000000000 ≤ n + m → n + m - 1000000000 + 1000000000 - m ≡ n
    round_to l = omega arith

-- The sum of two times whose nanoseconds are less than a second is such a time again, and
-- subtracting the second gives the first back.
pub sub-add : (t r : TimeNs) → IsNormal t → IsNormal r → IsNormal (add t r) × (sub (add t r) r ≡ t)
sub-add t r h k =
    subst (λ v. IsNormal (add v r) × (sub (add v r) r ≡ v)) (sym (as_time t h))
      (subst
        (λ v.
          IsNormal (add (time t.tv_sec (pos_part t.tv_nsec)) v)
          × (sub (add (time t.tv_sec (pos_part t.tv_nsec)) v) v
              ≡ time t.tv_sec (pos_part t.tv_nsec)))
        (sym (as_time r k))
        (sub-add-time t.tv_sec r.tv_sec (pos_part t.tv_nsec) (pos_part r.tv_nsec) (below t h)
          (below r k)))

-- The comparison of two times whose nanoseconds are less than a second is that of the nanoseconds
-- they stand for.
pub lt_iff :
    (t r : TimeNs)
    → IsNormal t
    → IsNormal r
    → (lt t r ≡ true) ↔ (ahead t + back r < ahead r + back t)
unfolding IsNormal lt
lt_iff t r h k = ground (arith, h, k, parts t.tv_sec, parts r.tv_sec)
