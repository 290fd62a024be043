-- ===== src/TxnMap/Behaviour.antt =====
-- What the operations of lib/jrnl/txn_map.cpp do to one another's answers.
use qpid_cpp_store_debian.Prelude.{
  ℕ, ◌+◌, ◌^◌, ◌<◌, ◌≡◌, true, false, inl, inr, List, [], ◌∷◌, ◌++◌, length, u32, add32,
  update_at-some, Option-cases, if◌then◌else◌, arith,
}
use qpid_cpp_store_debian.Prelude.Control.{ok}
use qpid_cpp_store_debian.Prelude.StdMap.{find, find-place, find-modify}
use qpid_cpp_store_debian.Xid.{Xid, xid_key, xid_eq, xid_eq_iff}
use qpid_cpp_store_debian.TxnMap.{
  TxnData, TxnMap, insert_txn_data, get_tdata_list, is_txn_synced, tmap_not_synced, all_synced,
  count_flag, count_map, cnt, enq_cnt, deq_cnt,
}
use qpid_cpp_store_debian.TxnMap.Count.{one_if}

all_synced-snoc :
    (tdl : List TxnData) (td : TxnData)
    → td.aio_compl ≡ false
    → all_synced (tdl ++ (td ∷ [])) ≡ false
unfolding all_synced
all_synced-snoc [] td h = ground arith
all_synced-snoc (t ∷ tdl) td h = ground (arith, all_synced-snoc tdl td h)

-- An operation inserted into a transaction stands at the end of the transaction's list, every other
-- transaction's list stays as it is, and the transaction then waits for the operation's write. The
-- operation's file is one of the journal, and its write is outstanding.
pub get_tdata_list-insert :
    (xid j : Xid) (td : TxnData) (m : TxnMap)
    → td.pfid < length m.pfid_txn_cnt
    → td.aio_compl ≡ false
    → let (r, m') = insert_txn_data xid td m in
      (r ≡ ok true)
      × (get_tdata_list j m'
          ≡ (if xid_eq xid j then get_tdata_list xid m ++ (td ∷ []) else get_tdata_list j m))
      × (is_txn_synced xid m' ≡ tmap_not_synced)
unfolding insert_txn_data get_tdata_list is_txn_synced
get_tdata_list-insert xid j td m h a = elim (Option-cases (find xid m.entries)) [
  | inl e ↦ ground (
    arith,
    update_at-some m.pfid_txn_cnt td.pfid (λ c. add32 c 1) h,
    find-place xid j (td ∷ []) m.entries e,
    find-place xid xid (td ∷ []) m.entries e,
    xid_eq_iff xid xid,
    all_synced-snoc [] td a,
  )
  | inr (tdl, e) ↦ ground (
    arith,
    update_at-some m.pfid_txn_cnt td.pfid (λ c. add32 c 1) h,
    find-modify xid j (λ l. l ++ (td ∷ [])) m.entries,
    find-modify xid xid (λ l. l ++ (td ∷ [])) m.entries,
    xid_eq_iff xid xid,
    xid_eq_iff xid j,
    all_synced-snoc tdl td a,
  )
]

-- `enq_cnt` counts the enqueues of all open transactions.
enqs : List TxnData → ℕ
enqs [] = 0
enqs (td ∷ tdl) = one_if td.enq_flag + enqs tdl

pub all_enqs : List (Xid × List TxnData) → ℕ
unfolding enqs
all_enqs [] = 0
all_enqs ((xid, tdl) ∷ m) = enqs tdl + all_enqs m

count_flag-true :
    (tdl : List TxnData) (c : ℕ) → c < 2 ^ 32 → count_flag true tdl c ≡ u32 (c + enqs tdl)
unfolding count_flag enqs
count_flag-true [] c h = omega arith
count_flag-true (td ∷ tdl) c h =
    ground (arith, count_flag-true tdl (add32 c 1) (omega arith), count_flag-true tdl c h)

count_map-true :
    (m : List (Xid × List TxnData)) (c : ℕ) → c < 2 ^ 32 → count_map true m c ≡ u32 (c + all_enqs m)
unfolding count_map all_enqs
count_map-true [] c h = omega arith
count_map-true ((xid, tdl) ∷ m) c h = omega (
  arith,
  count_map-true m (count_flag true tdl c) (omega (arith, count_flag-true tdl c h)),
  count_flag-true tdl c h,
)

-- `deq_cnt` and `enq_cnt` both return the number of enqueues of the open transactions (modulo
-- 2 ^ 32); so `deq_cnt` does not count the dequeues.
pub deq_cnt-eq-enqs :
    (m : TxnMap) → (enq_cnt m ≡ u32 (all_enqs m.entries)) × (deq_cnt m ≡ u32 (all_enqs m.entries))
unfolding enq_cnt deq_cnt cnt
deq_cnt-eq-enqs m = (
  omega (arith, count_map-true m.entries 0 (omega arith)),
  omega (arith, count_map-true m.entries 0 (omega arith)),
)
