-- ===== src/EnqMap/Tests.antt =====
-- Runs of the map of lib/jrnl/enq_map.cpp, and its theorems at concrete maps.
use qpid_cpp_store_debian.Prelude.{◌≡◌, refl, true, false, List, [], ◌∷◌, u32, pos, arith, ◌==◌}
use qpid_cpp_store_debian.Prelude.Control.{ok}
use qpid_cpp_store_debian.Prelude.StdMap.{find, insert, place, erase, modify, nat_key}
use qpid_cpp_store_debian.EnqMap.{
  EnqMap, empty_map, set_num_jfiles, get_enq_cnt, insert_pfid, get_pfid, get_remove_pfid,
  is_enqueued, lock, is_locked, adjust, emap_ok, emap_dup_rid, emap_locked, emap_true,
}
use qpid_cpp_store_debian.EnqMap.Count.{count}
use qpid_cpp_store_debian.EnqMap.Invariant.{IsValid, fresh-IsValid}
use qpid_cpp_store_debian.EnqMap.Run.{Call, inserts, removes, locks, step, run, get_enq_cnt-run}
use qpid_cpp_store_debian.EnqMap.Behaviour.{get_remove_pfid-insert_pfid, lock_blocks}

abbrev fresh : EnqMap
fresh = set_num_jfiles 2 empty_map

abbrev calls : List Call
calls = inserts 7 1 false ∷ inserts 8 1 false ∷ locks 8 ∷ removes 7 false ∷ []

calls-run : get_enq_cnt 1 (run calls fresh) ≡ ok 1
unfolding get_enq_cnt run step insert_pfid get_remove_pfid lock adjust set_num_jfiles empty_map
    insert place find erase modify
calls-run = refl

duplicate_run : (insert_pfid 8 0 false (run calls fresh)).0 ≡ ok emap_dup_rid
unfolding run step insert_pfid get_remove_pfid lock adjust set_num_jfiles empty_map insert place
    find erase modify
duplicate_run = refl

get_enq_cnt-run_example :
    IsValid (run calls (set_num_jfiles 2 empty_map))
    × (get_enq_cnt 1 (run calls (set_num_jfiles 2 empty_map))
        ≡ ok (u32 (count 1 (run calls (set_num_jfiles 2 empty_map)).entries)))
get_enq_cnt-run_example =
    get_enq_cnt-run 2 1 calls (omega arith, (omega arith, (tt, (tt, tt)))) (omega arith)

get_remove_pfid-insert_pfid_example :
    ((insert_pfid 7 1 false fresh).0 ≡ ok emap_ok)
    × (get_remove_pfid 7 false (insert_pfid 7 1 false fresh).1 ≡ (ok (pos 1), fresh))
unfolding set_num_jfiles empty_map find
get_remove_pfid-insert_pfid_example =
    get_remove_pfid-insert_pfid 7 1 fresh refl (omega arith) (omega arith) (fresh-IsValid 2)

abbrev stored : EnqMap
stored = record { entries = (7, record { pfid = 1; lock = false }) ∷ []; pfid_enq_cnt = 0 ∷ 1 ∷ [] }

lock_blocks_example :
    ((lock 7 stored).0 ≡ emap_ok)
    × (is_locked 7 (lock 7 stored).1 ≡ emap_true)
    × (get_pfid 7 (lock 7 stored).1 ≡ emap_locked)
    × (is_enqueued 7 false (lock 7 stored).1 ≡ false)
    × (is_enqueued 7 true (lock 7 stored).1 ≡ true)
    × (get_remove_pfid 7 false (lock 7 stored).1 ≡ (ok emap_locked, (lock 7 stored).1))
    × ((7 == 9) ≡ false → get_pfid 9 (lock 7 stored).1 ≡ get_pfid 9 stored)
unfolding find
lock_blocks_example = lock_blocks 7 9 (record { pfid = 1; lock = false }) stored refl
