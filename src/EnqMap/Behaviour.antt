-- ===== src/EnqMap/Behaviour.antt =====
-- What the operations of lib/jrnl/enq_map.cpp do to one another's answers.
use qpid_cpp_store_debian.Prelude.{
  ℕ, ◌^◌, ◌<◌, ◌≡◌, true, false, none, some, length, pos, add32, sub32, arith, alter, update_at,
  update_at-some, length-alter, alter-alter, alter_same, ◌==◌, to_int16_small, ==_iff,
}
use qpid_cpp_store_debian.Prelude.Control.{ok}
use qpid_cpp_store_debian.Prelude.StdMap.{
  find, modify, nat_key, find-place, find-modify, erase-place,
}
use qpid_cpp_store_debian.EnqMap.{
  EnqMap, EmapData, set_lock, insert_pfid, get_pfid, get_remove_pfid, is_enqueued, lock, is_locked,
  emap_ok, emap_locked, emap_true,
}
use qpid_cpp_store_debian.EnqMap.Invariant.{IsValid}

-- Inserting a new record and then dequeuing it returns its file and leaves the map and the counts
-- exactly as they were. The file is one of the journal, fits `int16_t`, the record is new, and the map is
-- valid.
pub get_remove_pfid-insert_pfid :
    (rid pfid : ℕ) (m : EnqMap)
    → find rid m.entries ≡ none
    → pfid < length m.pfid_enq_cnt
    → pfid < 2 ^ 15
    → IsValid m
    → let (r, m') = insert_pfid rid pfid false m in
      (r ≡ ok emap_ok) × (get_remove_pfid rid false m' ≡ (ok (pos pfid), m))
unfolding insert_pfid get_remove_pfid
get_remove_pfid-insert_pfid rid pfid m f h small v = (
  ground (arith, added),
  ground (
    arith,
    added,
    find-place rid rid d m.entries f,
    ==_iff rid rid,
    erase-place rid d m.entries f,
    update_at-some (alter m.pfid_enq_cnt pfid (λ c. add32 c 1)) pfid (λ c. sub32 c 1),
    length-alter m.pfid_enq_cnt pfid (λ c. add32 c 1),
    alter-alter m.pfid_enq_cnt pfid (λ c. add32 c 1) (λ c. sub32 c 1),
    back,
    to_int16_small pfid small,
  ),
)
  where
    d : EmapData
    d = record { pfid = pfid; lock = false }

    added :
        update_at m.pfid_enq_cnt pfid (λ c. add32 c 1)
        ≡ some (alter m.pfid_enq_cnt pfid (λ c. add32 c 1))
    added = update_at-some m.pfid_enq_cnt pfid (λ c. add32 c 1) h

    back : alter m.pfid_enq_cnt pfid (λ c. sub32 (add32 c 1) 1) ≡ m.pfid_enq_cnt
    back =
        alter_same m.pfid_enq_cnt pfid (λ c. sub32 (add32 c 1) 1) 0
          (omega (arith, v.counted pfid h))

-- A lock is what a pending transactional dequeue puts on a record. Of a record that is enqueued,
-- `lock` succeeds; then the record is locked and, without the flag for a commit or an abort, it can
-- be neither looked up nor dequeued, and the map stays as it is; every other record answers as before.
pub lock_blocks :
    (rid j : ℕ) (d : EmapData) (m : EnqMap)
    → find rid m.entries ≡ some d
    → let (r, m') = lock rid m in
      (r ≡ emap_ok)
      × (is_locked rid m' ≡ emap_true)
      × (get_pfid rid m' ≡ emap_locked)
      × (is_enqueued rid false m' ≡ false)
      × (is_enqueued rid true m' ≡ true)
      × (get_remove_pfid rid false m' ≡ (ok emap_locked, m'))
      × ((rid == j) ≡ false → get_pfid j m' ≡ get_pfid j m)
unfolding lock is_locked get_pfid is_enqueued get_remove_pfid
lock_blocks rid j d m f = (
  ground arith,
  ground (arith, locked),
  ground (arith, locked),
  ground (arith, locked),
  ground (arith, locked),
  ground (arith, locked),
  λ e. ground (arith, find-modify rid j (set_lock true) m.entries),
)
  where
    locked : find rid (modify rid (set_lock true) m.entries) ≡ some (record d { lock = true })
    locked = ground (arith, find-modify rid rid (set_lock true) m.entries, ==_iff rid rid)
