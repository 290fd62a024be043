-- ===== src/Lpmgr/Tests.antt =====
-- The theorems on lib/jrnl/lpmgr.cpp at concrete lists of files.
use qpid_cpp_store_debian.Prelude.{
  ℕ, ◌≡◌, ◌<◌, ◌≤◌, ◌⊎◌, refl, true, false, some, [], ◌∷◌, length, arith,
}
use qpid_cpp_store_debian.Prelude.Control.{
  ok, throw, jerr_lfmgr_badaefnumlim, jerr_lfmgr_aefnumlimit,
}
use qpid_cpp_store_debian.Fcntl.{Fcntl, blank}
use qpid_cpp_store_debian.Lpmgr.{
  Lpmgr, Factory, empty, initialize, insert, insert_files, insert_loop, renumber, pfid_list,
}
use qpid_cpp_store_debian.Lpmgr.Order.{IsValid, Makes}
use qpid_cpp_store_debian.Prelude.{zero, suc, get_or, inl, ap, sym, ◌∙◌}
use qpid_cpp_store_debian.Rcvdat.{Rcvdat, reset}
use qpid_cpp_store_debian.Lpmgr.{recover, get_fcntlp}
use qpid_cpp_store_debian.Lpmgr.Recovery.{IsOrder, Recovers, recover-ordered}
use qpid_cpp_store_debian.Lpmgr.Grow.{insert-IsValid}
use qpid_cpp_store_debian.Lpmgr.Init.{initialize-IsValid}

abbrev factory : Factory
factory lfid pfid rd = ok (blank pfid lfid 128)

factory-Makes : Makes factory
factory-Makes lfid pfid = (blank pfid lfid 128, refl, refl, refl)

-- Two files, with room for two more by auto-expansion.
abbrev two_files : Lpmgr
two_files = record {
  ae = true;
  ae_max_jfiles = 4;
  fcntl_arr = some (blank 0 0 128) ∷ some (blank 1 1 128) ∷ [];
}

two_files-IsValid : IsValid two_files
two_files-IsValid = record { numbered = (refl, (refl, tt)); unique = λ p. ground arith }

-- The new files go after file 0, and are numbers 2 and 3 of the disk.
insert_run : pfid_list (insert 0 factory 2 two_files).1.fcntl_arr ≡ some (0 ∷ 2 ∷ 3 ∷ 1 ∷ [])
unfolding insert insert_files insert_loop renumber pfid_list
insert_run = refl

insert-IsValid_example :
    ((insert 0 factory 2 two_files).0 ≡ ok tt)
    × IsValid (insert 0 factory 2 two_files).1
    × (length (insert 0 factory 2 two_files).1.fcntl_arr ≡ 4)
insert-IsValid_example =
    insert-IsValid 0 2 factory two_files factory-Makes (omega arith) refl (omega arith)
      (omega arith) two_files-IsValid

initialize-IsValid_example :
    (true ≡ true
      → 0 < 0
      → 0 ≤ 4
      → ((initialize 4 true 0 factory empty).0 ≡ throw jerr_lfmgr_badaefnumlim)
        × ((initialize 4 true 0 factory empty).1.fcntl_arr ≡ []))
    × (true ≡ false
        → 0 < 0
        → 0 < 4
        → ((initialize 4 true 0 factory empty).0 ≡ throw jerr_lfmgr_aefnumlimit)
          × ((initialize 4 true 0 factory empty).1.fcntl_arr ≡ []))
    × ((◌≡◌ {A = ℕ} 0 0) ⊎ (4 < 0) ⊎ ((◌≡◌ {A = ℕ} 4 0) × (true ≡ false))
        → ((initialize 4 true 0 factory empty).0 ≡ ok tt)
          × IsValid (initialize 4 true 0 factory empty).1
          × (length (initialize 4 true 0 factory empty).1.fcntl_arr ≡ 4))
initialize-IsValid_example = initialize-IsValid 4 true 0 factory empty factory-Makes (omega arith)

-- A recovered journal of three files whose first file on disk is now the last in order.
abbrev found : Rcvdat
found = record (reset 3 false 0) { fid_list = 1 ∷ 2 ∷ 0 ∷ [] }

found_below : (k : ℕ) → k < 3 → get_or (1 ∷ 2 ∷ 0 ∷ []) k 0 < 3
found_below zero h = omega arith
found_below (suc zero) h = omega arith
found_below (suc (suc zero)) h = omega arith
found_below (suc (suc (suc k))) h = absurd (omega (arith, h))

-- The place of each file number.
found_at : (k : ℕ) → k < 3 → get_or (2 ∷ 0 ∷ 1 ∷ []) (get_or (1 ∷ 2 ∷ 0 ∷ []) k 0) 0 ≡ k
found_at zero h = refl
found_at (suc zero) h = refl
found_at (suc (suc zero)) h = refl
found_at (suc (suc (suc k))) h = absurd (omega (arith, h))

found_onto : (p : ℕ) → p < 3 → (k : ℕ) × (k < 3) × (get_or (1 ∷ 2 ∷ 0 ∷ []) k 0 ≡ p)
found_onto zero h = (2, omega arith, refl)
found_onto (suc zero) h = (0, omega arith, refl)
found_onto (suc (suc zero)) h = (1, omega arith, refl)
found_onto (suc (suc (suc p))) h = absurd (omega (arith, h))

found-IsOrder : IsOrder 3 (1 ∷ 2 ∷ 0 ∷ [])
found-IsOrder = record {
  full = refl;
  below = found_below;
  distinct =
      λ j k h l e. sym (found_at j h) ∙ ap (λ i. get_or (2 ∷ 0 ∷ 1 ∷ []) i 0) e ∙ found_at k l;
  onto = found_onto;
}

factory-Recovers : Recovers found factory
unfolding Recovers
factory-Recovers lfid pfid = (blank pfid lfid 128, refl, refl, refl)

recover-ordered_example :
    ((recover found factory empty).0 ≡ ok tt)
    × (length (recover found factory empty).1.fcntl_arr ≡ 3)
    × ((k : ℕ)
        → k < 3
        → (f : Fcntl) × (get_fcntlp k (recover found factory empty).1 ≡ some f)
          × (f.lfid ≡ k)
          × (f.pfid ≡ get_or (1 ∷ 2 ∷ 0 ∷ []) k 0))
recover-ordered_example =
    recover-ordered found factory empty factory-Recovers found-IsOrder (omega arith) (inl refl)
