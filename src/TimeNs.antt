-- ===== src/TimeNs.antt =====
-- lib/jrnl/time_ns.hpp: points of time and spans in seconds and nanoseconds. `time_t` and `long` are
-- integers here: their overflow is undefined in C++, and no time comes near it.
pub mod Arithmetic
mod Tests
use qpid_cpp_store_debian.Prelude.{
  Bool, true, false, not, ◌&&◌, ◌||◌, ℤ, pos, negsuc, ◌+ℤ◌, ◌-ℤ◌, ltb_ℤ, if◌then◌else◌, ◌==◌,
  pos_part, neg_part,
}

-- `timespec`
pub record TimeNs : Type 0 where
  pub tv_sec : ℤ
  pub tv_nsec : ℤ

abbrev pub one_second : ℤ
one_second = pos 1000000000

abbrev pub eq_ℤ : ℤ → ℤ → Bool
eq_ℤ a b = pos_part a == pos_part b && neg_part a == neg_part b

abbrev pub set_zero : TimeNs
set_zero = record { tv_sec = pos 0; tv_nsec = pos 0 }

abbrev pub is_zero : TimeNs → Bool
is_zero t = eq_ℤ t.tv_sec (pos 0) && eq_ℤ t.tv_nsec (pos 0)

-- if (tv_nsec >= 1000000000L) ...
abbrev pub carry : TimeNs → TimeNs
carry t =
    if not (ltb_ℤ t.tv_nsec one_second)
    then record { tv_sec = t.tv_sec +ℤ pos 1; tv_nsec = t.tv_nsec -ℤ one_second }
    else t

-- if (tv_nsec < 0) ...
abbrev pub borrow : TimeNs → TimeNs
borrow t =
    if ltb_ℤ t.tv_nsec (pos 0)
    then record { tv_sec = t.tv_sec -ℤ pos 1; tv_nsec = t.tv_nsec +ℤ one_second }
    else t

-- `operator+=` and `operator-=` of two times
unfoldable pub add : TimeNs → TimeNs → TimeNs
add t rhs =
    let c = carry (record t { tv_nsec = t.tv_nsec +ℤ rhs.tv_nsec }) in
    record c { tv_sec = c.tv_sec +ℤ rhs.tv_sec }

unfoldable pub sub : TimeNs → TimeNs → TimeNs
sub t rhs =
    let c = borrow (record t { tv_nsec = t.tv_nsec -ℤ rhs.tv_nsec }) in
    record c { tv_sec = c.tv_sec -ℤ rhs.tv_sec }

-- `operator+=` and `operator-=` of a time and nanoseconds
unfoldable pub add_ns : TimeNs → ℤ → TimeNs
add_ns t ns = carry (record t { tv_nsec = t.tv_nsec +ℤ ns })

unfoldable pub sub_ns : TimeNs → ℤ → TimeNs
sub_ns t ns = borrow (record t { tv_nsec = t.tv_nsec -ℤ ns })

unfoldable pub eq : TimeNs → TimeNs → Bool
eq t rhs = eq_ℤ t.tv_sec rhs.tv_sec && eq_ℤ t.tv_nsec rhs.tv_nsec

unfoldable pub lt : TimeNs → TimeNs → Bool
lt t rhs =
    if eq_ℤ t.tv_sec rhs.tv_sec then ltb_ℤ t.tv_nsec rhs.tv_nsec else ltb_ℤ t.tv_sec rhs.tv_sec

unfoldable pub le : TimeNs → TimeNs → Bool
le t rhs =
    if eq_ℤ t.tv_sec rhs.tv_sec
    then not (ltb_ℤ rhs.tv_nsec t.tv_nsec)
    else not (ltb_ℤ rhs.tv_sec t.tv_sec)

abbrev pub gt : TimeNs → TimeNs → Bool
gt t rhs =
    if eq_ℤ t.tv_sec rhs.tv_sec then ltb_ℤ rhs.tv_nsec t.tv_nsec else ltb_ℤ rhs.tv_sec t.tv_sec

abbrev pub ge : TimeNs → TimeNs → Bool
ge t rhs =
    if eq_ℤ t.tv_sec rhs.tv_sec
    then not (ltb_ℤ t.tv_nsec rhs.tv_nsec)
    else not (ltb_ℤ t.tv_sec rhs.tv_sec)
