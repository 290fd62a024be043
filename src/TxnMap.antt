-- ===== src/TxnMap.antt =====
-- lib/jrnl/txn_map.hpp and txn_map.cpp: the operations of each open transaction. `_mutex` is held
-- over each operation, so an operation is one step.
pub mod Count
pub mod Invariant
pub mod Run
pub mod Sync
pub mod Behaviour
mod Tests
use qpid_cpp_store_debian.Prelude.{
  ℕ, ◌+◌, ◌≡◌, Bool, true, false, not, ◌&&◌, ◌||◌, Option, none, some, List, [], ◌∷◌, ◌++◌, map,
  length, get_elem?, if◌then◌else◌, ℤ, pos, negsuc, u32, add32, sub32, resize, update_at, ◌==◌,
}
use qpid_cpp_store_debian.Prelude.Control.{Result, ok, throw, out_of_range}
use qpid_cpp_store_debian.Prelude.StdMap.{find, place, erase, modify}
use qpid_cpp_store_debian.Xid.{Xid, xid_key}

-- `txn_data_struct`
pub record TxnData : Type 0 where
  pub rid : ℕ
  pub drid : ℕ
  pub pfid : ℕ
  pub enq_flag : Bool
  pub commit_flag : Bool
  pub aio_compl : Bool

-- The constructor: `_aio_compl` is false at first.
abbrev pub txn_data : ℕ → ℕ → ℕ → Bool → Bool → TxnData
txn_data rid drid pfid enq_flag commit_flag = record {
  rid = rid;
  drid = drid;
  pfid = pfid;
  enq_flag = enq_flag;
  commit_flag = commit_flag;
  aio_compl = false;
}

pub record TxnMap : Type 0 where
  pub entries : List (Xid × List TxnData)
  pub pfid_txn_cnt : List ℕ

abbrev pub tmap_rid_not_found : ℤ
tmap_rid_not_found = negsuc 1

abbrev pub tmap_xid_not_found : ℤ
tmap_xid_not_found = negsuc 0

abbrev pub tmap_ok : ℤ
tmap_ok = pos 0

abbrev pub tmap_not_synced : ℤ
tmap_not_synced = pos 0

abbrev pub tmap_synced : ℤ
tmap_synced = pos 1

unfoldable pub empty_map : TxnMap
empty_map = record { entries = []; pfid_txn_cnt = [] }

unfoldable pub set_num_jfiles : ℕ → TxnMap → TxnMap
set_num_jfiles n m = record m { pfid_txn_cnt = resize m.pfid_txn_cnt n 0 }

unfoldable pub get_txn_pfid_cnt : ℕ → TxnMap → Result ℕ
get_txn_pfid_cnt pfid m = elim (get_elem? m.pfid_txn_cnt pfid) [
  | none ↦ throw out_of_range
  | some c ↦ ok c
]

-- A new xid gets a list of its own; `insert` cannot fail, as the xid was just not found.
unfoldable pub insert_txn_data : Xid → TxnData → TxnMap → Result Bool × TxnMap
insert_txn_data xid td m =
    let entries' : List (Xid × List TxnData) = elim (find xid m.entries) [
      | none ↦ place xid (td ∷ []) m.entries
      | some tdl ↦ modify xid (λ l. l ++ (td ∷ [])) m.entries
    ] in
    elim (update_at m.pfid_txn_cnt td.pfid (λ c. add32 c 1)) [
      | none ↦ (throw out_of_range, record m { entries = entries' })
      | some cnt ↦ (ok true, record { entries = entries'; pfid_txn_cnt = cnt })
    ]

unfoldable pub get_tdata_list : Xid → TxnMap → List TxnData
get_tdata_list xid m = elim (find xid m.entries) [ none ↦ [] | some tdl ↦ tdl ]

-- `_pfid_txn_cnt.at(i->_pfid)--` for each entry of the list
pub count_down : List TxnData → List ℕ → Option (List ℕ) × List ℕ
count_down [] cnt = (some cnt, cnt)
count_down (td ∷ tdl) cnt = elim (update_at cnt td.pfid (λ c. sub32 c 1)) [
  | none ↦ (none, cnt)
  | some cnt' ↦ count_down tdl cnt'
]

unfoldable pub get_remove_tdata_list : Xid → TxnMap → Result (List TxnData) × TxnMap
get_remove_tdata_list xid m = elim (find xid m.entries) [
  | none ↦ (ok [], m)
  | some tdl ↦
      let (done, cnt) = count_down tdl m.pfid_txn_cnt in
      let m' : TxnMap = record { entries = erase xid m.entries; pfid_txn_cnt = cnt } in
      elim done [ none ↦ (throw out_of_range, m') | some c ↦ (ok tdl, m') ]
]

unfoldable pub in_map : Xid → TxnMap → Bool
in_map xid m = elim (find xid m.entries) [ none ↦ false | some tdl ↦ true ]

unfoldable pub count_flag : Bool → List TxnData → ℕ → ℕ
count_flag flag [] c = c
count_flag flag (td ∷ tdl) c =
    count_flag flag tdl
      (if td.enq_flag && flag || not td.enq_flag && not flag then add32 c 1 else c)

unfoldable pub count_map : Bool → List (Xid × List TxnData) → ℕ → ℕ
unfolding count_flag
count_map flag [] c = c
count_map flag ((xid, tdl) ∷ m) c = count_map flag m (count_flag flag tdl c)

-- `cnt(enq_flag)`
unfoldable pub cnt : Bool → TxnMap → ℕ
cnt flag m = count_map flag m.entries 0

unfoldable pub enq_cnt : TxnMap → ℕ
enq_cnt m = cnt true m

-- As written: the count of the enqueues.
unfoldable pub deq_cnt : TxnMap → ℕ
deq_cnt m = cnt true m

unfoldable pub all_synced : List TxnData → Bool
all_synced [] = true
all_synced (td ∷ tdl) = if not td.aio_compl then false else all_synced tdl

unfoldable pub is_txn_synced : Xid → TxnMap → ℤ
unfolding all_synced
is_txn_synced xid m = elim (find xid m.entries) [
  | none ↦ tmap_xid_not_found
  | some tdl ↦ if all_synced tdl then tmap_synced else tmap_not_synced
]

-- The first entry with the rid is marked; `none` if there is none.
unfoldable pub mark_rid : ℕ → List TxnData → Option (List TxnData)
mark_rid rid [] = none
mark_rid rid (td ∷ tdl) =
    let rest = mark_rid rid tdl in
    if td.rid == rid
    then some (record td { aio_compl = true } ∷ tdl)
    else (elim rest [ none ↦ none | some l ↦ some (td ∷ l) ])

unfoldable pub set_aio_compl : Xid → ℕ → TxnMap → ℤ × TxnMap
unfolding mark_rid
set_aio_compl xid rid m = elim (find xid m.entries) [
  | none ↦ (tmap_xid_not_found, m)
  | some tdl ↦ elim (mark_rid rid tdl) [
    | none ↦ (tmap_rid_not_found, m)
    | some l ↦ (tmap_ok, record m { entries = modify xid (λ _. l) m.entries })
  ]
]

unfoldable pub has_rid : ℕ → List TxnData → Bool
has_rid rid [] = false
has_rid rid (td ∷ tdl) = if td.rid == rid then true else has_rid rid tdl

unfoldable pub data_exists : Xid → ℕ → TxnMap → Bool
unfolding has_rid get_tdata_list
data_exists xid rid m = has_rid rid (get_tdata_list xid m)

unfoldable pub has_enq : ℕ → List TxnData → Bool
has_enq rid [] = false
has_enq rid (td ∷ tdl) =
    let found = if td.enq_flag then td.rid == rid else td.drid == rid in
    if found then true else has_enq rid tdl

unfoldable pub any_enq : ℕ → List (Xid × List TxnData) → Bool
unfolding has_enq
any_enq rid [] = false
any_enq rid ((xid, tdl) ∷ m) = if has_enq rid tdl then true else any_enq rid m

unfoldable pub is_enq : ℕ → TxnMap → Bool
unfolding any_enq
is_enq rid m = any_enq rid m.entries

-- `clear` leaves the counts of the files as they are.
unfoldable pub clear : TxnMap → TxnMap
clear m = record m { entries = [] }

unfoldable pub xid_list : TxnMap → List Xid
xid_list m = map (λ e. e.0) m.entries
