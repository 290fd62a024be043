-- ===== src/LockedMappings.antt =====
-- lib/PreparedTransaction.h and PreparedTransaction.cpp: the class LockedMappings.
use qpid_cpp_store_debian.Prelude.{ℕ, Bool, false, List, [], ◌∷◌, ◌++◌, ◌&&◌, ◌||◌, ◌==◌}

-- The pairs of a queue and a message that are locked.
pub record LockedMappings : Type 0 where
  pub locked : List (ℕ × ℕ)

-- `std::find` for a pair.
abbrev pub has_pair : ℕ → ℕ → List (ℕ × ℕ) → Bool
has_pair queue message [] = false
has_pair queue message ((q, m) ∷ l) = ((q == queue) && (m == message)) || has_pair queue message l

abbrev pub empty : LockedMappings
empty = record { locked = [] }

unfoldable pub add : ℕ → ℕ → LockedMappings → LockedMappings
add queue message o = record o { locked = o.locked ++ ((queue, message) ∷ []) }

unfoldable pub is_locked : ℕ → ℕ → LockedMappings → Bool
is_locked queue message o = has_pair queue message o.locked
