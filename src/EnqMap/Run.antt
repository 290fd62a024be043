-- ===== src/EnqMap/Run.antt =====
-- Any history of calls of lib/jrnl/enq_map.cpp.
use qpid_cpp_store_debian.Prelude.{
  ℕ, ◌<◌, ◌≡◌, Bool, Option-cases, inl, inr, List, [], ◌∷◌, length, arith, add32, sub32,
  length-alter, update_at-cases, subst, sym, u32, get_elem?-eq-get_or, length-resize,
}
use qpid_cpp_store_debian.Prelude.Control.{ok}
use qpid_cpp_store_debian.Prelude.StdMap.{find, nat_key}
use qpid_cpp_store_debian.EnqMap.{
  EnqMap, empty_map, set_num_jfiles, get_enq_cnt, insert_pfid, get_remove_pfid, lock, unlock,
}
use qpid_cpp_store_debian.EnqMap.Count.{count}
use qpid_cpp_store_debian.EnqMap.Invariant.{
  IsValid, fresh-IsValid, insert_pfid-IsValid, get_remove_pfid-IsValid, lock-IsValid,
  unlock-IsValid,
}

pub data Call : Type 0 where
  inserts : ℕ → ℕ → Bool → Call
  removes : ℕ → Bool → Call
  locks unlocks : ℕ → Call

-- The map after a call, also after one that throws.
unfoldable pub step : Call → EnqMap → EnqMap
step (inserts rid pfid locked) m = (insert_pfid rid pfid locked m).1
step (removes rid txn_flag) m = (get_remove_pfid rid txn_flag m).1
step (locks rid) m = (lock rid m).1
step (unlocks rid) m = (unlock rid m).1

unfoldable pub run : List Call → EnqMap → EnqMap
run [] m = m
run (c ∷ cs) m = run cs (step c m)

-- A call names a file of a journal of `n` files.
abbrev pub Fits : ℕ → Call → Type 0
Fits n (inserts rid pfid locked) = pfid < n
Fits n (removes rid txn_flag) = Unit
Fits n (locks rid) = Unit
Fits n (unlocks rid) = Unit

abbrev pub AllFit : ℕ → List Call → Type 0
AllFit n [] = Unit
AllFit n (c ∷ cs) = Fits n c × AllFit n cs

length-step : (c : Call) (m : EnqMap) → length (step c m).pfid_enq_cnt ≡ length m.pfid_enq_cnt
unfolding step insert_pfid get_remove_pfid lock unlock
length-step (inserts rid pfid locked) m = ground (
  arith,
  update_at-cases m.pfid_enq_cnt pfid (λ c. add32 c 1),
  length-alter m.pfid_enq_cnt pfid (λ c. add32 c 1),
)
length-step (removes rid txn_flag) m = elim (Option-cases (find rid m.entries)) [
  | inl e ↦ ground arith
  | inr (d, e) ↦ ground (
    arith,
    update_at-cases m.pfid_enq_cnt d.pfid (λ c. sub32 c 1),
    length-alter m.pfid_enq_cnt d.pfid (λ c. sub32 c 1),
  )
]
length-step (locks rid) m = ground arith
length-step (unlocks rid) m = ground arith

step-IsValid :
    (c : Call) (m : EnqMap) → Fits (length m.pfid_enq_cnt) c → IsValid m → IsValid (step c m)
unfolding step
step-IsValid (inserts rid pfid locked) m h v = insert_pfid-IsValid rid pfid locked m h v
step-IsValid (removes rid txn_flag) m h v = get_remove_pfid-IsValid rid txn_flag m v
step-IsValid (locks rid) m h v = lock-IsValid rid m v
step-IsValid (unlocks rid) m h v = unlock-IsValid rid m v

record Keeps (n : ℕ) (m : EnqMap) : Type 0 where
  valid : IsValid m
  files : length m.pfid_enq_cnt ≡ n

run-Keeps : (n : ℕ) (cs : List Call) (m : EnqMap) → AllFit n cs → Keeps n m → Keeps n (run cs m)
unfolding run
run-Keeps n [] m h k = k
run-Keeps n (c ∷ cs) m h k = run-Keeps n cs (step c m) h.1 (record {
  valid = step-IsValid c m (subst (λ k. Fits k c) (sym k.files) h.0) k.valid;
  files = omega (arith, length-step c m, k.files);
})

-- After any calls of `insert_pfid`, `get_remove_pfid`, `lock` and `unlock` on a new map, which name
-- only files of the journal, the map is valid and `get_enq_cnt` of each file returns the number of
-- the records of the map that lie in it (modulo 2 ^ 32). `clear` is not among the calls: it leaves
-- the counts as they are.
pub get_enq_cnt-run :
    (n pfid : ℕ) (cs : List Call)
    → AllFit n cs
    → pfid < n
    → let m = run cs (set_num_jfiles n empty_map) in
      IsValid m × (get_enq_cnt pfid m ≡ ok (u32 (count pfid m.entries)))
unfolding get_enq_cnt set_num_jfiles empty_map
get_enq_cnt-run n pfid cs h lt = (
  kept.valid,
  ground (
    arith,
    kept.files,
    get_elem?-eq-get_or (run cs (set_num_jfiles n empty_map)).pfid_enq_cnt pfid 0,
    kept.valid.counted pfid,
  ),
)
  where
    fresh_files : length (set_num_jfiles n empty_map).pfid_enq_cnt ≡ n
    fresh_files = length-resize [] n 0

    kept : Keeps n (run cs (set_num_jfiles n empty_map))
    kept =
        run-Keeps n cs (set_num_jfiles n empty_map) h
          (record { valid = fresh-IsValid n; files = fresh_files })
