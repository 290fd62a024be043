-- ===== src/PreparedTransaction.antt =====
-- lib/PreparedTransaction.h and PreparedTransaction.cpp: the messages that prepared transactions lock.
pub mod Locks
mod Tests
use qpid_cpp_store_debian.Prelude.{
  ℕ, ◌+◌, Bool, true, false, Option, none, some, List, [], ◌∷◌, ◌++◌, ◌&&◌, ◌||◌, ◌==◌,
  if◌then◌else◌,
}
use qpid_cpp_store_debian.Prelude.StdMap
use qpid_cpp_store_debian.LockedMappings
use qpid_cpp_store_debian.LockedMappings.{LockedMappings}
use qpid_cpp_store_debian.Xid.{Xid, xid_key}

-- The objects behind the shared pointers, and the address that the next one gets.
pub record Heap : Type 0 where
  pub at : ℕ → LockedMappings
  pub next : ℕ

-- A `LockedMappings::map` and the objects it points to.
pub record Mappings : Type 0 where
  pub heap : Heap
  pub map : List (Xid × ℕ)

unfoldable pub put : ℕ → LockedMappings → Heap → Heap
put p o h = record h { at = λ i. if i == p then o else h.at i }

-- A new object, and its place in the map.
unfoldable pub new_entry : Xid → Mappings → Mappings
unfolding put
new_entry key s = record {
  heap = record (put s.heap.next LockedMappings.empty s.heap) { next = s.heap.next + 1 };
  map = StdMap.place key s.heap.next s.map;
}

-- An addition through the pointer.
unfoldable pub add_at : ℕ → ℕ → ℕ → Mappings → Mappings
unfolding put LockedMappings.add
add_at p queue message s = record s {
  heap = put p (LockedMappings.add queue message (s.heap.at p)) s.heap;
}

-- The static `add`.
unfoldable pub add_to : Xid → ℕ → ℕ → Mappings → Mappings
unfolding new_entry add_at
add_to key queue message s = elim (StdMap.find key s.map) [
  | none ↦ add_at s.heap.next queue message (new_entry key s)
  | some p ↦ add_at p queue message s
]

-- The pointers may be null.
pub record PreparedTransaction : Type 0 where
  pub xid : Xid
  pub enqueues : Option ℕ
  pub dequeues : Option ℕ

-- `p.get() && p->isLocked(queue, message)`.
unfoldable pub locked_by : Heap → Option ℕ → ℕ → ℕ → Bool
unfolding LockedMappings.is_locked
locked_by h none queue message = false
locked_by h (some p) queue message = LockedMappings.is_locked queue message (h.at p)

unfoldable pub is_locked : Heap → ℕ → ℕ → PreparedTransaction → Bool
unfolding locked_by
is_locked h queue message t =
    locked_by h t.enqueues queue message || locked_by h t.dequeues queue message

-- The static `isLocked`.
unfoldable pub any_locked : Heap → ℕ → ℕ → List PreparedTransaction → Bool
unfolding is_locked
any_locked h queue message [] = false
any_locked h queue message (t ∷ txns) =
    if is_locked h queue message t then true else any_locked h queue message txns

-- The iterator is the transaction it points to; `end` is none.
unfoldable pub get_locked_prepared_transaction :
    Heap → ℕ → ℕ → List PreparedTransaction → Option PreparedTransaction
unfolding is_locked
get_locked_prepared_transaction h queue message [] = none
get_locked_prepared_transaction h queue message (t ∷ txns) =
    if is_locked h queue message t
    then some t
    else get_locked_prepared_transaction h queue message txns
