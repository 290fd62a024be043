-- ===== src/TxnMap/Run.antt =====
-- Any history of calls of lib/jrnl/txn_map.cpp.
use qpid_cpp_store_debian.Prelude.{
  ℕ, ◌<◌, ◌≡◌, sym, subst, inl, inr, List, [], ◌∷◌, length, u32, add32, update_at-cases,
  length-alter, length-resize, get_elem?-eq-get_or, Option-cases, arith,
}
use qpid_cpp_store_debian.Prelude.Control.{ok}
use qpid_cpp_store_debian.Prelude.StdMap.{find}
use qpid_cpp_store_debian.Xid.{Xid, xid_key}
use qpid_cpp_store_debian.TxnMap.{
  TxnData, TxnMap, empty_map, set_num_jfiles, get_txn_pfid_cnt, insert_txn_data,
  get_remove_tdata_list, set_aio_compl,
}
use qpid_cpp_store_debian.TxnMap.Count.{total, length-lowered}
use qpid_cpp_store_debian.TxnMap.Invariant.{
  IsValid, fresh-IsValid, insert_txn_data-IsValid, get_remove_tdata_list-IsValid,
  get_remove_tdata_list-eq, get_remove_none, set_aio_compl-IsValid,
}

pub data Call : Type 0 where
  inserts : Xid → TxnData → Call
  removes : Xid → Call
  completes : Xid → ℕ → Call

-- The map after a call, also after one that throws.
unfoldable pub step : Call → TxnMap → TxnMap
step (inserts xid td) m = (insert_txn_data xid td m).1
step (removes xid) m = (get_remove_tdata_list xid m).1
step (completes xid rid) m = (set_aio_compl xid rid m).1

unfoldable pub run : List Call → TxnMap → TxnMap
run [] m = m
run (c ∷ cs) m = run cs (step c m)

-- A call names a file of a journal of `n` files.
abbrev pub Fits : ℕ → Call → Type 0
Fits n (inserts xid td) = td.pfid < n
Fits n (removes xid) = Unit
Fits n (completes xid rid) = Unit

abbrev pub AllFit : ℕ → List Call → Type 0
AllFit n [] = Unit
AllFit n (c ∷ cs) = Fits n c × AllFit n cs

record Keeps (n : ℕ) (m : TxnMap) : Type 0 where
  valid : IsValid m
  files : length m.pfid_txn_cnt ≡ n

length-step :
    (c : Call) (m : TxnMap) → IsValid m → length (step c m).pfid_txn_cnt ≡ length m.pfid_txn_cnt
unfolding step insert_txn_data set_aio_compl
length-step (inserts xid td) m v = ground (
  arith,
  update_at-cases m.pfid_txn_cnt td.pfid (λ c. add32 c 1),
  length-alter m.pfid_txn_cnt td.pfid (λ c. add32 c 1),
)
length-step (removes xid) m v = elim (Option-cases (find xid m.entries)) [
  | inl e ↦ ground (arith, get_remove_none xid m e)
  | inr (tdl, e) ↦
      ground (arith, get_remove_tdata_list-eq xid tdl m e v, length-lowered tdl m.pfid_txn_cnt)
]
length-step (completes xid rid) m v = ground arith

step-IsValid :
    (c : Call) (m : TxnMap) → Fits (length m.pfid_txn_cnt) c → IsValid m → IsValid (step c m)
unfolding step
step-IsValid (inserts xid td) m h v = insert_txn_data-IsValid xid td m h v
step-IsValid (removes xid) m h v = get_remove_tdata_list-IsValid xid m v
step-IsValid (completes xid rid) m h v = set_aio_compl-IsValid xid rid m v

run-Keeps : (n : ℕ) (cs : List Call) (m : TxnMap) → AllFit n cs → Keeps n m → Keeps n (run cs m)
unfolding run
run-Keeps n [] m h k = k
run-Keeps n (c ∷ cs) m h k = run-Keeps n cs (step c m) h.1 (record {
  valid = step-IsValid c m (subst (λ j. Fits j c) (sym k.files) h.0) k.valid;
  files = omega (arith, length-step c m k.valid, k.files);
})

-- After any calls of `insert_txn_data`, `get_remove_tdata_list` and `set_aio_compl` on a new map,
-- which name only files of the journal, the map is valid and `get_txn_pfid_cnt` of each file
-- returns the number of operations of open transactions in it (modulo 2 ^ 32). `clear` is not among
-- the calls: it leaves the counts as they are.
pub get_txn_pfid_cnt-run :
    (n pfid : ℕ) (cs : List Call)
    → AllFit n cs
    → pfid < n
    → let m = run cs (set_num_jfiles n empty_map) in
      IsValid m × (get_txn_pfid_cnt pfid m ≡ ok (u32 (total pfid m.entries)))
unfolding get_txn_pfid_cnt set_num_jfiles empty_map
get_txn_pfid_cnt-run n pfid cs h lt = (
  kept.valid,
  ground (
    arith,
    kept.files,
    get_elem?-eq-get_or (run cs (set_num_jfiles n empty_map)).pfid_txn_cnt pfid 0,
    kept.valid.counted pfid,
  ),
)
  where
    fresh_files : length (set_num_jfiles n empty_map).pfid_txn_cnt ≡ n
    fresh_files = length-resize [] n 0

    kept : Keeps n (run cs (set_num_jfiles n empty_map))
    kept =
        run-Keeps n cs (set_num_jfiles n empty_map) h
          (record { valid = fresh-IsValid n; files = fresh_files })
