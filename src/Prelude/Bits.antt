-- ===== src/Prelude/Bits.antt =====
-- A flag that a conjunction clears, for the flags of a record (lib/jrnl/rec_hdr.hpp).
use Prim.Native.Nat.{bit_and, digits, min, bit_and-bitwise}
use qpid_cpp_store_debian.Prelude.{ℕ, zero, suc, ◌/◌, ◌%◌, ◌≡◌, refl, arith}

-- The conjunction on `n` digits.
abbrev low : ℕ → ℕ → ℕ → ℕ
low n a b = digits (λ x. 0) min n a b

-- A digit that `b` does not have is not in the result.
low-zero : (n a b : ℕ) → b % 2 ≡ 0 → low n a b % 2 ≡ 0
low-zero zero a b h = refl
low-zero (suc n) zero b h = refl
low-zero (suc n) (suc a) b h = omega (arith, h)

low-next : (n a b : ℕ) → (m : ℕ) × (low n a b / 2 ≡ low m (a / 2) (b / 2))
low-next zero a b = (0, refl)
low-next (suc n) zero b = (0, refl)
low-next (suc n) (suc a) b = (n, omega arith)

low-none : (n a : ℕ) → low n a 0 ≡ 0
low-none zero a = refl
low-none (suc n) zero = refl
low-none (suc n) (suc a) = omega (arith, low-none n (suc a / 2))

low-one : (n a : ℕ) → a % 2 ≡ 0 → low n a 1 ≡ 0
low-one zero a h = refl
low-one (suc n) zero h = refl
low-one (suc n) (suc a) h = omega (arith, low-none n (suc a / 2), h)

-- Numbers without the digit of weight 32.
low-65503 : (n a : ℕ) → low n a 65503 / 32 % 2 ≡ 0
low-65503 n a =
    let (n1, e1) = low-next n a 65503 in
    let (n2, e2) = low-next n1 (a / 2) 32751 in
    let (n3, e3) = low-next n2 (a / 2 / 2) 16375 in
    let (n4, e4) = low-next n3 (a / 2 / 2 / 2) 8187 in
    let (n5, e5) = low-next n4 (a / 2 / 2 / 2 / 2) 4093 in
    omega (arith, e1, e2, e3, e4, e5, low-zero n5 (a / 2 / 2 / 2 / 2 / 2) 2046 refl)

low-32 : (n a : ℕ) → a / 32 % 2 ≡ 0 → low n a 32 ≡ 0
low-32 n a h =
    let (n1, e1) = low-next n a 32 in
    let (n2, e2) = low-next n1 (a / 2) 16 in
    let (n3, e3) = low-next n2 (a / 2 / 2) 8 in
    let (n4, e4) = low-next n3 (a / 2 / 2 / 2) 4 in
    let (n5, e5) = low-next n4 (a / 2 / 2 / 2 / 2) 2 in
    omega (
      arith,
      e1,
      low-zero n a 32 refl,
      e2,
      low-zero n1 (a / 2) 16 refl,
      e3,
      low-zero n2 (a / 2 / 2) 8 refl,
      e4,
      low-zero n3 (a / 2 / 2 / 2) 4 refl,
      e5,
      low-zero n4 (a / 2 / 2 / 2 / 2) 2 refl,
      low-one n5 (a / 2 / 2 / 2 / 2 / 2) (omega (arith, h)),
    )

-- The flag of weight 32 is off once it is masked out.
pub cleared_32 : (flags : ℕ) → bit_and (bit_and flags 65503) 32 ≡ 0
cleared_32 flags =
    simp bit_and-bitwise
      (low-32 (low flags flags 65503) (low flags flags 65503) (low-65503 flags flags))
