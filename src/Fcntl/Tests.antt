-- ===== src/Fcntl/Tests.antt =====
-- The theorems on lib/jrnl/fcntl.cpp at concrete files.
use qpid_cpp_store_debian.Prelude.{
  ℕ, ◌≡◌, ◌<◌, ◌≤◌, ◌+◌, ◌⊎◌, ◌↔◌, refl, true, false, none, List, [], ◌∷◌, arith, pos, negsuc, ◌*◌,
  ◌==◌, if◌then◌else◌,
}
use qpid_cpp_store_debian.Prelude.Control.{ok, throw, jerr_fcntl_fileoffsovfl, jerr_fcntl_write}
use qpid_cpp_store_debian.Fcntl.{
  Fcntl, blank, new_fcntl, reset, rd_reset, add_wr_subm_cnt_dblks, wr_remaining_dblks, wr_void,
  is_wr_full, clean_file, clean_loop, CleanIo,
}
use qpid_cpp_store_debian.Fcntl.Invariant.{
  IsOrdered, Call, resets, adds_wr_subm, adds_wr_cmpl, adds_rd_subm, run, counters-run,
}
use qpid_cpp_store_debian.Fcntl.Behaviour.{reset-none, add_wr_subm-remaining, filename-injective}
use qpid_cpp_store_debian.Fcntl.Clean.{sum, AllWithin, clean_file-sum, all_succeed}

abbrev base : List ℕ
base = 97 ∷ []

abbrev calls : List Call
calls = adds_wr_subm 100 ∷ adds_wr_cmpl 64 ∷ adds_rd_subm 90 ∷ resets none ∷ []

counters-run_example : IsOrdered (run calls (new_fcntl (pos 3) base 2 2 128 none).1)
counters-run_example =
    counters-run (pos 3) base 2 2 128 none calls tt (omega arith, (tt, (omega arith, (tt, tt))))

-- A file that still has an enqueued record.
abbrev used : Fcntl
used = record (blank 2 2 128) { rec_enqcnt = 1; wr_subm_cnt_dblks = 500; wr_cmpl_cnt_dblks = 500 }

reset-none_example :
    (((reset none used).0 ≡ ok true) ↔ ((used.rec_enqcnt ≡ 0) × (used.aio_cnt ≡ 0)))
    × (((reset none used).0 ≡ ok false) ↔ ((0 < used.rec_enqcnt) ⊎ (0 < used.aio_cnt)))
    × ((reset none used).0 ≡ ok true
        → (wr_void (reset none used).1 ≡ true) × ((reset none used).1.wr_cmpl_cnt_dblks ≡ 0))
    × ((reset none used).0 ≡ ok false → (reset none used).1 ≡ rd_reset used)
    × ((reset none used).1.rd_subm_cnt_dblks ≡ 0)
    × ((reset none used).1.rd_cmpl_cnt_dblks ≡ 0)
reset-none_example = reset-none used

add_wr_subm-remaining_example :
    (16 ≤ wr_remaining_dblks used
      → ((add_wr_subm_cnt_dblks 16 used).0 ≡ ok (add_wr_subm_cnt_dblks 16 used).1.wr_subm_cnt_dblks)
        × (wr_remaining_dblks (add_wr_subm_cnt_dblks 16 used).1 + 16 ≡ wr_remaining_dblks used))
    × (wr_remaining_dblks used < 16
        → ((add_wr_subm_cnt_dblks 16 used).0 ≡ throw jerr_fcntl_fileoffsovfl)
          × ((add_wr_subm_cnt_dblks 16 used).1 ≡ used))
    × ((is_wr_full (add_wr_subm_cnt_dblks 16 used).1 ≡ true)
        ↔ (wr_remaining_dblks (add_wr_subm_cnt_dblks 16 used).1 ≡ 0))
add_wr_subm-remaining_example = add_wr_subm-remaining 16 used (omega arith) (omega arith)

-- A file of 10000 sblks takes three writes.
-- A full disk: the second write fails.
abbrev full_disk : CleanIo
full_disk = record {
  memalign = true;
  fh = pos 3;
  write = λ i n. if i == 1 then negsuc 0 else pos (n * 512);
  close = pos 0;
}

clean_file_run :
    clean_file (record full_disk { write = λ i n. pos 0 }) 10000 ≡ (ok tt, 4096 ∷ 4096 ∷ 1809 ∷ [])
unfolding clean_file clean_loop
clean_file_run = refl

clean_file_failed : clean_file full_disk 10000 ≡ (throw jerr_fcntl_write, 4096 ∷ 4096 ∷ [])
unfolding clean_file clean_loop
clean_file_failed = refl

clean_file-sum_example :
    let (r, sizes) = clean_file full_disk 10000 in
    ((r ≡ ok tt) ↔ (all_succeed full_disk sizes ≡ true))
    × (r ≡ ok tt → sum sizes ≡ 10001)
    × AllWithin 4096 sizes
clean_file-sum_example = clean_file-sum full_disk 10000 (omega arith)

filename-injective_example : ◌≡◌ {A = ℕ} 300 300
filename-injective_example = filename-injective base 300 300 (omega arith) (omega arith) refl
