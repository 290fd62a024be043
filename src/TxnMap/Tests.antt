-- ===== src/TxnMap/Tests.antt =====
-- Runs of the map of lib/jrnl/txn_map.cpp, and its theorems at concrete maps.
use qpid_cpp_store_debian.Prelude.{◌≡◌, refl, true, false, List, [], ◌∷◌, ◌++◌, u32, arith}
use qpid_cpp_store_debian.Prelude.Control.{ok}
use qpid_cpp_store_debian.Prelude.StdMap.{find, place, erase, modify}
use qpid_cpp_store_debian.Xid.{xid_key}
use qpid_cpp_store_debian.TxnMap.{
  TxnMap, TxnData, txn_data, empty_map, set_num_jfiles, get_txn_pfid_cnt, insert_txn_data,
  get_tdata_list, get_remove_tdata_list, is_txn_synced, set_aio_compl, mark_rid, enq_cnt, deq_cnt,
  cnt, count_map, count_flag, count_down, tmap_not_synced,
}
use qpid_cpp_store_debian.TxnMap.Count.{total}
use qpid_cpp_store_debian.TxnMap.Invariant.{IsValid}
use qpid_cpp_store_debian.TxnMap.Run.{
  Call, inserts, removes, completes, step, run, get_txn_pfid_cnt-run,
}
use qpid_cpp_store_debian.TxnMap.Sync.{complete_all, covered, is_txn_synced-complete_all}
use qpid_cpp_store_debian.TxnMap.{
  tmap_synced, tmap_not_synced, is_txn_synced, set_aio_compl, mark_rid, all_synced,
}
use qpid_cpp_store_debian.Prelude.{if◌then◌else◌}
use qpid_cpp_store_debian.TxnMap.Behaviour.{get_tdata_list-insert, deq_cnt-eq-enqs, all_enqs}

abbrev enqueue : TxnData
enqueue = txn_data 7 0 1 true false

abbrev dequeue : TxnData
dequeue = txn_data 8 3 1 false false

abbrev calls : List Call
calls =
    inserts (97 ∷ []) enqueue
    ∷ inserts (97 ∷ []) dequeue
    ∷ inserts (98 ∷ []) dequeue
    ∷ completes (97 ∷ []) 7
    ∷ removes (98 ∷ [])
    ∷ []

calls-run : get_txn_pfid_cnt 1 (run calls (set_num_jfiles 2 empty_map)) ≡ ok 2
unfolding get_txn_pfid_cnt run step insert_txn_data get_remove_tdata_list set_aio_compl mark_rid
    count_down set_num_jfiles empty_map place find erase modify
calls-run = refl

get_txn_pfid_cnt-run_example :
    IsValid (run calls (set_num_jfiles 2 empty_map))
    × (get_txn_pfid_cnt 1 (run calls (set_num_jfiles 2 empty_map))
        ≡ ok (u32 (total 1 (run calls (set_num_jfiles 2 empty_map)).entries)))
get_txn_pfid_cnt-run_example =
    get_txn_pfid_cnt-run 2 1 calls (omega arith, (omega arith, (omega arith, (tt, (tt, tt)))))
      (omega arith)

abbrev open_txn : TxnMap
open_txn = record { entries = (97 ∷ [], dequeue ∷ []) ∷ []; pfid_txn_cnt = 0 ∷ 1 ∷ [] }

get_tdata_list-insert_example :
    ((insert_txn_data (97 ∷ []) enqueue open_txn).0 ≡ ok true)
    × (get_tdata_list (97 ∷ []) (insert_txn_data (97 ∷ []) enqueue open_txn).1
        ≡ get_tdata_list (97 ∷ []) open_txn ++ (enqueue ∷ []))
    × (is_txn_synced (97 ∷ []) (insert_txn_data (97 ∷ []) enqueue open_txn).1 ≡ tmap_not_synced)
get_tdata_list-insert_example =
    get_tdata_list-insert (97 ∷ []) (97 ∷ []) enqueue open_txn (omega arith) refl

-- The one operation is a dequeue.
deq_cnt_run : (enq_cnt open_txn ≡ 0) × (deq_cnt open_txn ≡ 0)
unfolding enq_cnt deq_cnt cnt count_map count_flag
deq_cnt_run = (refl, refl)

deq_cnt-eq-enqs_example :
    (enq_cnt open_txn ≡ u32 (all_enqs open_txn.entries))
    × (deq_cnt open_txn ≡ u32 (all_enqs open_txn.entries))
deq_cnt-eq-enqs_example = deq_cnt-eq-enqs open_txn

abbrev pair : List TxnData
pair = enqueue ∷ dequeue ∷ []

abbrev waiting : TxnMap
waiting = record { entries = (97 ∷ [], pair) ∷ []; pfid_txn_cnt = 0 ∷ 2 ∷ [] }

is_txn_synced-complete_all_example :
    is_txn_synced (97 ∷ []) (complete_all (8 ∷ 7 ∷ []) (97 ∷ []) waiting)
    ≡ (if covered (8 ∷ 7 ∷ []) pair then tmap_synced else tmap_not_synced)
unfolding find
is_txn_synced-complete_all_example =
    is_txn_synced-complete_all (8 ∷ 7 ∷ []) (97 ∷ []) pair waiting refl (refl, (refl, tt))

-- Both writes are needed.
complete_all_run :
    is_txn_synced (97 ∷ []) (complete_all (8 ∷ []) (97 ∷ []) waiting) ≡ tmap_not_synced
unfolding is_txn_synced complete_all set_aio_compl mark_rid all_synced find modify
complete_all_run = refl
