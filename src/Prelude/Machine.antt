-- ===== src/Prelude/Machine.antt =====
-- Machine integers of the C++ sources: their wrap-around on 64-bit hosts (unsigned types), and the
-- conversion of an unsigned 16-bit value to `int16_t`.
use Prim.Native.Nat.{ℕ, ◌+◌, ◌-◌, ◌*◌, ◌%◌, ◌^◌, ◌<◌}
use mathlib.Core.Path.{◌≡◌}
use native.Mathlib.Omega.{arith}
use qpid_cpp_store_debian.Prelude.Tests.{ltb, if◌then◌else◌}
use qpid_cpp_store_debian.Prelude.Int.{ℤ, pos, negsuc}

abbrev pub u16 : ℕ → ℕ
u16 a = a % 2 ^ 16

abbrev pub u32 : ℕ → ℕ
u32 a = a % 2 ^ 32

abbrev pub u64 : ℕ → ℕ
u64 a = a % 2 ^ 64

abbrev pub add16 : ℕ → ℕ → ℕ
add16 a b = (a + b) % 2 ^ 16

abbrev pub sub16 : ℕ → ℕ → ℕ
sub16 a b = (a + 2 ^ 16 - b) % 2 ^ 16

abbrev pub add32 : ℕ → ℕ → ℕ
add32 a b = (a + b) % 2 ^ 32

abbrev pub sub32 : ℕ → ℕ → ℕ
sub32 a b = (a + 2 ^ 32 - b) % 2 ^ 32

abbrev pub mul32 : ℕ → ℕ → ℕ
mul32 a b = (a * b) % 2 ^ 32

abbrev pub add64 : ℕ → ℕ → ℕ
add64 a b = (a + b) % 2 ^ 64

abbrev pub sub64 : ℕ → ℕ → ℕ
sub64 a b = (a + 2 ^ 64 - b) % 2 ^ 64

-- A `u_int16_t` returned as `int16_t`.
unfoldable pub to_int16 : ℕ → ℤ
to_int16 a = if ltb a (2 ^ 15) then pos a else negsuc (2 ^ 16 - a - 1)

-- An `int16_t` passed as `u_int16_t`.
unfoldable pub of_int16 : ℤ → ℕ
of_int16 (pos n) = n % 2 ^ 16
of_int16 (negsuc n) = (2 ^ 16 - n - 1) % 2 ^ 16

pub to_int16_small : (a : ℕ) → a < 2 ^ 15 → to_int16 a ≡ pos a
unfolding to_int16
to_int16_small a h = ground arith

pub of_int16-to_int16 : (a : ℕ) → a < 2 ^ 16 → of_int16 (to_int16 a) ≡ a
unfolding of_int16 to_int16
of_int16-to_int16 a h = ground arith
