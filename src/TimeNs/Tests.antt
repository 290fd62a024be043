-- ===== src/TimeNs/Tests.antt =====
-- The theorems on lib/jrnl/time_ns.hpp at concrete times.
use qpid_cpp_store_debian.Prelude.{◌≡◌, ◌<◌, ◌+◌, ◌↔◌, refl, true, pos, negsuc, arith}
use qpid_cpp_store_debian.TimeNs.{TimeNs, add, sub, add_ns, lt}
use qpid_cpp_store_debian.TimeNs.Arithmetic.{IsNormal, sub-add, lt_iff, ahead, back}

abbrev late : TimeNs
late = record { tv_sec = pos 5; tv_nsec = pos 900000000 }

abbrev before : TimeNs
before = record { tv_sec = negsuc 1; tv_nsec = pos 300000000 }

add_run : add late before ≡ record { tv_sec = pos 4; tv_nsec = pos 200000000 }
unfolding add
add_run = refl

-- `operator+=(long)` carries one second at most.
add_ns_run : add_ns late (pos 2500000000) ≡ record { tv_sec = pos 6; tv_nsec = pos 2400000000 }
unfolding add_ns
add_ns_run = refl

late-IsNormal : IsNormal late
unfolding IsNormal
late-IsNormal = (refl, omega arith)

before-IsNormal : IsNormal before
unfolding IsNormal
before-IsNormal = (refl, omega arith)

sub-add_run : IsNormal (add late before) × (sub (add late before) before ≡ late)
sub-add_run = sub-add late before late-IsNormal before-IsNormal

lt_iff_run : (lt before late ≡ true) ↔ (ahead before + back late < ahead late + back before)
lt_iff_run = lt_iff before late before-IsNormal late-IsNormal
