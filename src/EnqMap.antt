-- ===== src/EnqMap.antt =====
-- lib/jrnl/enq_map.hpp and enq_map.cpp: the map of enqueued records. `_mutex` is held over each
-- access of `_map`, so an operation is one step.
pub mod Count
pub mod Invariant
pub mod Run
pub mod Behaviour
mod Tests
use qpid_cpp_store_debian.Prelude.{
  ℕ, ◌+◌, Bool, true, false, not, ◌&&◌, Option, none, some, List, map, length, get_elem?,
  if◌then◌else◌, ℤ, pos, negsuc, to_int16, u32, add32, sub32, resize, update_at, ltb,
}
use qpid_cpp_store_debian.Prelude.Control.{Result, ok, throw, out_of_range}
use qpid_cpp_store_debian.Prelude.StdMap.{find, insert, erase, modify, nat_key}

-- `emap_data_struct`
pub record EmapData : Type 0 where
  pub pfid : ℕ
  pub lock : Bool

pub record EnqMap : Type 0 where
  pub entries : List (ℕ × EmapData)
  pub pfid_enq_cnt : List ℕ

abbrev pub emap_dup_rid : ℤ
emap_dup_rid = negsuc 2

abbrev pub emap_locked : ℤ
emap_locked = negsuc 1

abbrev pub emap_rid_not_found : ℤ
emap_rid_not_found = negsuc 0

abbrev pub emap_ok : ℤ
emap_ok = pos 0

abbrev pub emap_false : ℤ
emap_false = pos 0

abbrev pub emap_true : ℤ
emap_true = pos 1

unfoldable pub empty_map : EnqMap
empty_map = record { entries = List.[]; pfid_enq_cnt = List.[] }

unfoldable pub set_num_jfiles : ℕ → EnqMap → EnqMap
set_num_jfiles n m = record m { pfid_enq_cnt = resize m.pfid_enq_cnt n 0 }

unfoldable pub get_enq_cnt : ℕ → EnqMap → Result ℕ
get_enq_cnt pfid m = elim (get_elem? m.pfid_enq_cnt pfid) [
  | none ↦ throw out_of_range
  | some c ↦ ok c
]

-- `_pfid_enq_cnt.at(pfid)++`, or `--`, then `return r`.
unfoldable pub adjust : ℕ → (ℕ → ℕ) → ℤ → EnqMap → Result ℤ × EnqMap
adjust pfid f r m = elim (update_at m.pfid_enq_cnt pfid f) [
  | none ↦ (throw out_of_range, m)
  | some cnt ↦ (ok r, record m { pfid_enq_cnt = cnt })
]

unfoldable pub insert_pfid : ℕ → ℕ → Bool → EnqMap → Result ℤ × EnqMap
unfolding adjust insert
insert_pfid rid pfid locked m =
    let (entries', second) = insert rid (record { pfid = pfid; lock = locked }) m.entries in
    let m' : EnqMap = record m { entries = entries' } in
    if second then adjust pfid (λ c. add32 c 1) emap_ok m' else (ok emap_dup_rid, m')

unfoldable pub get_pfid : ℕ → EnqMap → ℤ
unfolding find
get_pfid rid m = elim (find rid m.entries) [
  | none ↦ emap_rid_not_found
  | some d ↦ if d.lock then emap_locked else to_int16 d.pfid
]

unfoldable pub get_remove_pfid : ℕ → Bool → EnqMap → Result ℤ × EnqMap
unfolding find erase adjust
get_remove_pfid rid txn_flag m = elim (find rid m.entries) [
  | none ↦ (ok emap_rid_not_found, m)
  | some d ↦
      if d.lock && not txn_flag
      then (ok emap_locked, m)
      else adjust d.pfid (λ c. sub32 c 1) (to_int16 d.pfid)
          (record m { entries = erase rid m.entries })
]

unfoldable pub is_enqueued : ℕ → Bool → EnqMap → Bool
unfolding find
is_enqueued rid ignore_lock m = elim (find rid m.entries) [
  | none ↦ false
  | some d ↦ if not ignore_lock && d.lock then false else true
]

abbrev set_lock : Bool → EmapData → EmapData
set_lock b d = record d { lock = b }

unfoldable pub lock : ℕ → EnqMap → ℤ × EnqMap
unfolding find modify
lock rid m = elim (find rid m.entries) [
  | none ↦ (emap_rid_not_found, m)
  | some d ↦ (emap_ok, record m { entries = modify rid (set_lock true) m.entries })
]

unfoldable pub unlock : ℕ → EnqMap → ℤ × EnqMap
unfolding find modify
unlock rid m = elim (find rid m.entries) [
  | none ↦ (emap_rid_not_found, m)
  | some d ↦ (emap_ok, record m { entries = modify rid (set_lock false) m.entries })
]

unfoldable pub is_locked : ℕ → EnqMap → ℤ
unfolding find
is_locked rid m = elim (find rid m.entries) [
  | none ↦ emap_rid_not_found
  | some d ↦ if d.lock then emap_true else emap_false
]

-- `clear` leaves the counts of the files as they are.
unfoldable pub clear : EnqMap → EnqMap
clear m = record m { entries = List.[] }

unfoldable pub empty : EnqMap → Bool
empty m = elim m.entries [ List.[] ↦ true | List.◌∷◌ e es ↦ false ]

unfoldable pub size : EnqMap → ℕ
size m = u32 (length m.entries)

unfoldable pub rid_list : EnqMap → List ℕ
rid_list m = map (λ e. e.0) m.entries

unfoldable pub pfid_list : EnqMap → List ℕ
pfid_list m = map (λ e. e.1.pfid) m.entries
