-- ===== src/PreparedTransaction/Tests.antt =====
-- Runs of lib/PreparedTransaction.cpp.
use qpid_cpp_store_debian.Prelude.{ℕ, ◌≡◌, refl, true, false, List, [], ◌∷◌, ◌||◌}
use qpid_cpp_store_debian.Prelude.StdMap
use qpid_cpp_store_debian.LockedMappings
use qpid_cpp_store_debian.Xid.{Xid, xid_key}
use qpid_cpp_store_debian.PreparedTransaction.{Mappings, add_to, new_entry, add_at, put, locked_by}
use qpid_cpp_store_debian.PreparedTransaction.Locks.{IsValid, adds, locks, added, locks-adds}

abbrev no_mappings : Mappings
no_mappings = record { heap = record { at = λ _. LockedMappings.empty; next = 0 }; map = [] }

no_mappings-IsValid : IsValid no_mappings
unfolding StdMap.find
no_mappings-IsValid = record { allocated = λ k p h. cc; apart = λ j k p h g. cc }

-- Two transactions, one with two messages.
abbrev three_added : List (Xid × ℕ × ℕ)
three_added = ((7 ∷ []), 1, 10) ∷ ((8 ∷ []), 1, 11) ∷ ((7 ∷ []), 2, 12) ∷ []

locked_run : locks (adds three_added no_mappings) (7 ∷ []) 2 12 ≡ true
unfolding add_to new_entry add_at put locked_by LockedMappings.add LockedMappings.is_locked
    StdMap.find StdMap.place
locked_run = refl

unlocked_run : locks (adds three_added no_mappings) (8 ∷ []) 2 12 ≡ false
unfolding add_to new_entry add_at put locked_by LockedMappings.add LockedMappings.is_locked
    StdMap.find StdMap.place
unlocked_run = refl

locks-adds_example :
    locks (adds three_added no_mappings) (8 ∷ []) 1 11
    ≡ (added (8 ∷ []) 1 11 three_added || locks no_mappings (8 ∷ []) 1 11)
locks-adds_example = locks-adds three_added no_mappings (8 ∷ []) 1 11 no_mappings-IsValid
