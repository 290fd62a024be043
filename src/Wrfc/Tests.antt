-- ===== src/Wrfc/Tests.antt =====
-- The theorems on lib/jrnl/wrfc.cpp at a ring of three files.
use qpid_cpp_store_debian.Prelude.{ℕ, zero, suc, ◌≡◌, ◌<◌, refl, true, false, some, [], ◌∷◌, arith}
use qpid_cpp_store_debian.Prelude.Control.{ok}
use qpid_cpp_store_debian.Fcntl.{Fcntl, blank}
use qpid_cpp_store_debian.Lpmgr.{Lpmgr, get_fcntlp}
use qpid_cpp_store_debian.Wrfc.{
  Wrfc, new_wrfc, current, rotate, earliest_index, forward_dblks, enq_threshold, threshold_loop,
}
use qpid_cpp_store_debian.Wrfc.Rotation.{IsActive, Rotates, rotate-Rotates}
use qpid_cpp_store_debian.Prelude.{◌≤◌, ◌*◌, none}
use qpid_cpp_store_debian.Wrfc.{initialize}
use qpid_cpp_store_debian.Wrfc.Start.{IsStocked, initialize-new}
use qpid_cpp_store_debian.Wrfc.Ring.{rotations, rotations-ring, earliest_index-rotate}
use qpid_cpp_store_debian.Wrfc.Threshold.{ahead_in_use, enq_threshold-ahead}

-- File 0 has five enqueued records.
abbrev files : Lpmgr
files = record {
  ae = false;
  ae_max_jfiles = 0;
  fcntl_arr =
      some (record (blank 0 0 128) { rec_enqcnt = 5 })
      ∷ some (blank 1 1 128)
      ∷ some (blank 2 2 128)
      ∷ [];
}

-- The second file is written, in the second turn.
abbrev writing : Wrfc
writing = record (new_wrfc files) {
  fc_index = 1;
  curr_fc = some 1;
  fsize_sblks = 128;
  fsize_dblks = 512;
  enq_cap_offs_dblks = 512;
  owi = true;
  frot = false;
}

filled : (i : ℕ) → i < 3 → (f : Fcntl) × (get_fcntlp i files ≡ some f)
unfolding get_fcntlp
filled zero h = (record (blank 0 0 128) { rec_enqcnt = 5 }, refl)
filled (suc zero) h = (blank 1 1 128, refl)
filled (suc (suc zero)) h = (blank 2 2 128, refl)
filled (suc (suc (suc i))) h = absurd (omega (arith, h))

writing-IsActive : IsActive writing
writing-IsActive = record { filled = filled; bounded = omega arith; placed = omega arith }

rotate-Rotates_example : Rotates 2 (blank 2 2 128) writing
unfolding get_fcntlp
rotate-Rotates_example = rotate-Rotates writing (blank 2 2 128) writing-IsActive refl

rotations-ring_example :
    ((rotations 3 writing).fc_index ≡ 1)
    × ((rotations 3 writing).owi ≡ false)
    × IsActive (rotations 3 writing)
rotations-ring_example = rotations-ring writing writing-IsActive

earliest_index-rotate_example :
    (false ≡ true → earliest_index writing ≡ 0)
    × (false ≡ false → earliest_index writing ≡ (rotate writing).1.fc_index)
earliest_index-rotate_example = earliest_index-rotate writing writing-IsActive

-- 600 blocks from the start of file 1 reach into file 2, which is free; 1100 into file 0, which is
-- not.
enq_threshold_run :
    (enq_threshold 88 writing ≡ some (ok false)) × (enq_threshold 588 writing ≡ some (ok true))
unfolding enq_threshold threshold_loop forward_dblks current get_fcntlp
enq_threshold_run = (refl, refl)

enq_threshold-ahead_example : enq_threshold 588 writing ≡ some (ok (ahead_in_use 2 1 writing))
unfolding current get_fcntlp forward_dblks
enq_threshold-ahead_example =
    enq_threshold-ahead 588 2 (blank 1 1 128) writing writing-IsActive refl (omega arith)
      (omega arith) (omega arith) (omega arith)

files-IsStocked : IsStocked files
files-IsStocked = record { filled = filled; some_file = omega arith; bounded = omega arith }

initialize-new_example :
    ((initialize 128 none (new_wrfc files)).0 ≡ ok tt)
    × IsActive (initialize 128 none (new_wrfc files)).1
    × ((initialize 128 none (new_wrfc files)).1.fc_index ≡ 0)
    × ((initialize 128 none (new_wrfc files)).1.curr_fc ≡ some 0)
    × ((initialize 128 none (new_wrfc files)).1.rid ≡ 0)
    × ((initialize 128 none (new_wrfc files)).1.fsize_dblks
        ≤ (initialize 128 none (new_wrfc files)).1.enq_cap_offs_dblks)
    × ((initialize 128 none (new_wrfc files)).1.fsize_dblks * 3
        ≤ 5 * (initialize 128 none (new_wrfc files)).1.enq_cap_offs_dblks)
initialize-new_example = initialize-new 128 (new_wrfc files) files-IsStocked (omega arith)
