-- ===== src/Rcvdat/Tests.antt =====
-- The search for the first file on a concrete recovery.
use qpid_cpp_store_debian.Prelude.{ℕ, ◌≡◌, refl, false, some, [], ◌∷◌, arith}
use qpid_cpp_store_debian.Prelude.Control.{ok}
use qpid_cpp_store_debian.Rcvdat.{Rcvdat, reset, find_ffid, ffid_loop}
use qpid_cpp_store_debian.Rcvdat.FirstFid.{behind, IsFirst, find_ffid-IsFirst}

-- Four files, written from file 2 round to file 1; the records of file 2 are all dequeued.
abbrev found : Rcvdat
found = record (reset 4 false 0) {
  jempty = false;
  ffid = 2;
  lfid = 1;
  enq_cnt_list = 1 ∷ 0 ∷ 0 ∷ 5 ∷ [];
}

find_ffid_run : find_ffid found ≡ some (ok 3)
unfolding find_ffid ffid_loop
find_ffid_run = refl

find_ffid-IsFirst_example :
    (k : ℕ) × (find_ffid found ≡ some (ok (behind 4 2 k))) × IsFirst found 2 k
find_ffid-IsFirst_example = find_ffid-IsFirst found (omega arith) (omega arith) (omega arith) refl
