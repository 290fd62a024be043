-- ===== src/TxnMap/Invariant.antt =====
-- The counts of lib/jrnl/txn_map.cpp agree with the operations in its map, over any history.
use qpid_cpp_store_debian.Prelude.{
  ℕ, ◌+◌, ◌≤◌, ◌<◌, ◌≡◌, refl, inl, inr, none, some, List, [], ◌∷◌, ◌++◌, length, get_or, u32,
  add32, alter, update_at-some, length-alter, get_or-alter, length-resize, get_or-resize,
  Option-cases, ◌==◌, arith,
}
use qpid_cpp_store_debian.Prelude.Control.{ok}
use qpid_cpp_store_debian.Prelude.StdMap.{find, place, erase, modify}
use qpid_cpp_store_debian.Prelude.StdMap.Order.{
  IsSorted, place-IsSorted, erase-IsSorted, modify-IsSorted,
}
use qpid_cpp_store_debian.Xid.{Xid, xid_key}
use qpid_cpp_store_debian.TxnMap.{
  TxnData, TxnMap, empty_map, set_num_jfiles, insert_txn_data, get_remove_tdata_list, set_aio_compl,
  mark_rid,
}
use qpid_cpp_store_debian.TxnMap.Count.{
  one_if, count, total, total-place, total-erase, total-snoc, total-replace, lowered, AllBelow,
  count_down_lem, length-lowered, get_or-lowered, AllBelow-of_count,
}

-- The xids ascend, each file's count is the number of the operations in it, and no operation names
-- a file that the journal does not have.
pub record IsValid (m : TxnMap) : Type 0 where
  pub sorted : IsSorted m.entries
  pub counted :
      (p : ℕ) → p < length m.pfid_txn_cnt → get_or m.pfid_txn_cnt p 0 ≡ u32 (total p m.entries)
  pub beyond : (p : ℕ) → length m.pfid_txn_cnt ≤ p → total p m.entries ≡ 0

pub fresh-IsValid : (n : ℕ) → IsValid (set_num_jfiles n empty_map)
unfolding set_num_jfiles empty_map
fresh-IsValid n = record {
  sorted = tt;
  counted = λ p h. ground (arith, length-resize {A = ℕ} [] n 0, get_or-resize {A = ℕ} [] n p 0);
  beyond = λ p h. refl;
}

-- One operation more.
counted-add :
    (td : TxnData) (entries' : List (Xid × List TxnData)) (m : TxnMap)
    → td.pfid < length m.pfid_txn_cnt
    → IsSorted entries'
    → ((p : ℕ) → total p entries' ≡ one_if (td.pfid == p) + total p m.entries)
    → IsValid m
    → IsValid (record {
      entries = entries';
      pfid_txn_cnt = alter m.pfid_txn_cnt td.pfid (λ c. add32 c 1);
    })
counted-add td entries' m h s t v = record {
  sorted = s;
  counted = λ p lt. ground (
    arith,
    length-alter m.pfid_txn_cnt td.pfid (λ c. add32 c 1),
    get_or-alter m.pfid_txn_cnt td.pfid p (λ c. add32 c 1) 0 h,
    t p,
    v.counted p,
    v.counted td.pfid,
  );
  beyond =
      λ p le. ground (arith, length-alter m.pfid_txn_cnt td.pfid (λ c. add32 c 1), t p, v.beyond p);
}

pub insert_txn_data-IsValid :
    (xid : Xid) (td : TxnData) (m : TxnMap)
    → td.pfid < length m.pfid_txn_cnt
    → IsValid m
    → IsValid (insert_txn_data xid td m).1
unfolding insert_txn_data
insert_txn_data-IsValid xid td m h v = elim (Option-cases (find xid m.entries)) [
  | inl e ↦ ground (
    arith,
    update_at-some m.pfid_txn_cnt td.pfid (λ c. add32 c 1) h,
    counted-add td (place xid (td ∷ []) m.entries) m h
        (place-IsSorted xid (td ∷ []) m.entries e v.sorted)
        (λ p. omega (arith, total-place p xid (td ∷ []) m.entries)) v,
  )
  | inr (tdl, e) ↦ ground (
    arith,
    update_at-some m.pfid_txn_cnt td.pfid (λ c. add32 c 1) h,
    counted-add td (modify xid (λ l. l ++ (td ∷ [])) m.entries) m h
        (modify-IsSorted xid (λ l. l ++ (td ∷ [])) m.entries v.sorted)
        (λ p. total-snoc p xid td tdl m.entries e) v,
  )
]

-- The operations of a transaction of the map lie in files of the journal.
pub found_below :
    (xid : Xid) (tdl : List TxnData) (m : TxnMap)
    → find xid m.entries ≡ some tdl
    → IsValid m
    → AllBelow (length m.pfid_txn_cnt) tdl
found_below xid tdl m e v =
    AllBelow-of_count (length m.pfid_txn_cnt) tdl
      (λ p le. omega (arith, total-erase p xid tdl m.entries e, v.beyond p le))

counted-remove :
    (xid : Xid) (tdl : List TxnData) (m : TxnMap)
    → find xid m.entries ≡ some tdl
    → IsValid m
    → IsValid (record { entries = erase xid m.entries; pfid_txn_cnt = lowered tdl m.pfid_txn_cnt })
counted-remove xid tdl m e v = record {
  sorted = erase-IsSorted xid m.entries v.sorted;
  counted = λ p lt.
      get_or-lowered p (total p (erase xid m.entries)) tdl m.pfid_txn_cnt
        (found_below xid tdl m e v)
        (ground (
          arith,
          v.counted p,
          length-lowered tdl m.pfid_txn_cnt,
          total-erase p xid tdl m.entries e,
        ));
  beyond = λ p le. omega (
    arith,
    v.beyond p (omega (arith, length-lowered tdl m.pfid_txn_cnt)),
    total-erase p xid tdl m.entries e,
  );
}

-- Removing a transaction of the map returns its operations and never throws.
pub get_remove_tdata_list-eq :
    (xid : Xid) (tdl : List TxnData) (m : TxnMap)
    → find xid m.entries ≡ some tdl
    → IsValid m
    → get_remove_tdata_list xid m ≡ (
      ok tdl,
      record { entries = erase xid m.entries; pfid_txn_cnt = lowered tdl m.pfid_txn_cnt },
    )
unfolding get_remove_tdata_list
get_remove_tdata_list-eq xid tdl m e v =
    ground (arith, count_down_lem tdl m.pfid_txn_cnt (found_below xid tdl m e v))

pub get_remove_none :
    (xid : Xid) (m : TxnMap) → find xid m.entries ≡ none → get_remove_tdata_list xid m ≡ (ok [], m)
unfolding get_remove_tdata_list
get_remove_none xid m e = ground arith

get_remove_absent :
    (xid : Xid) (m : TxnMap)
    → find xid m.entries ≡ none
    → IsValid m
    → IsValid (get_remove_tdata_list xid m).1
unfolding get_remove_tdata_list
get_remove_absent xid m e v = ground arith

pub get_remove_tdata_list-IsValid :
    (xid : Xid) (m : TxnMap) → IsValid m → IsValid (get_remove_tdata_list xid m).1
get_remove_tdata_list-IsValid xid m v = elim (Option-cases (find xid m.entries)) [
  | inl e ↦ get_remove_absent xid m e v
  | inr (tdl, e) ↦ rw (get_remove_tdata_list-eq xid tdl m e v) (counted-remove xid tdl m e v)
]

count-mark_rid :
    (p rid : ℕ) (tdl l : List TxnData) → mark_rid rid tdl ≡ some l → count p l ≡ count p tdl
unfolding mark_rid
count-mark_rid p rid [] l e = ground arith
count-mark_rid p rid (td ∷ tdl) l e = elim (Option-cases (mark_rid rid tdl)) [
  | inl n ↦ ground arith
  | inr (l', f) ↦ ground (arith, count-mark_rid p rid tdl l' f)
]

counted-mark :
    (xid : Xid) (rid : ℕ) (tdl l : List TxnData) (m : TxnMap)
    → find xid m.entries ≡ some tdl
    → mark_rid rid tdl ≡ some l
    → IsValid m
    → IsValid (record m { entries = modify xid (λ _. l) m.entries })
counted-mark xid rid tdl l m e f v = record {
  sorted = modify-IsSorted xid (λ _. l) m.entries v.sorted;
  counted = λ p lt.
      ground
        (arith, v.counted p, total-replace p xid tdl l m.entries e (count-mark_rid p rid tdl l f));
  beyond = λ p le.
      ground
        (arith, v.beyond p, total-replace p xid tdl l m.entries e (count-mark_rid p rid tdl l f));
}

pub set_aio_compl-IsValid :
    (xid : Xid) (rid : ℕ) (m : TxnMap) → IsValid m → IsValid (set_aio_compl xid rid m).1
unfolding set_aio_compl
set_aio_compl-IsValid xid rid m v = elim (Option-cases (find xid m.entries)) [
  | inl e ↦ ground arith
  | inr (tdl, e) ↦ elim (Option-cases (mark_rid rid tdl)) [
    | inl n ↦ ground arith
    | inr (l, f) ↦ ground (arith, counted-mark xid rid tdl l m e f v)
  ]
]
