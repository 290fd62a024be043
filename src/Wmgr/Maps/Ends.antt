-- ===== src/Wmgr/Maps/Ends.antt =====
-- The loops of `wmgr::commit` and `wmgr::abort` (lib/jrnl/wmgr.cpp) over the operations of a
-- transaction, and what the map of enqueued records is after them.
use qpid_cpp_store_debian.Prelude.{
  ℕ, zero, suc, ◌≡◌, refl, sym, ap, subst, ◌∙◌, Bool, true, false, none, some, List, [], ◌∷◌, ◌==◌,
  if◌then◌else◌, Option-cases, Bool-cases, ==_iff, ℤ, pos, negsuc, of_int16, arith, inl, inr,
}
use qpid_cpp_store_debian.Prelude.StdMap.{nat_key, find, modify, find-modify}
use qpid_cpp_store_debian.Prelude.StdMap.Order.{modify-IsSorted}
use qpid_cpp_store_debian.Prelude.Control.{
  Result, ok, throw, M, ◌>>=◌, pure, raise, jerr_map_notfound, jerr_map_locked,
}
use qpid_cpp_store_debian.Prelude.Control.Triple
use qpid_cpp_store_debian.Prelude.Control.Triple.{Triple, Holds}
use qpid_cpp_store_debian.Xid.{xid_key}
use qpid_cpp_store_debian.Fcntl
use qpid_cpp_store_debian.Fcntl.{Fcntl}
use qpid_cpp_store_debian.EnqMap
use qpid_cpp_store_debian.EnqMap.{EnqMap, EmapData}
use qpid_cpp_store_debian.TxnMap.{TxnData}
use qpid_cpp_store_debian.Wmgr.State.{Wmgr, with_emap, on_file_at}
use qpid_cpp_store_debian.Wmgr.Complete.{insert_emap, remove_emap, abort_list, commit_list}
use qpid_cpp_store_debian.Wmgr.Maps.{
  Records, with_record, without, unlocked, committed, aborted, Shows, Agrees, Any, entry, inserted,
  on_emap, Removed, removed_pfid,
}

-- A call that leaves the map alone.
untouched :
    {A : Type 0} (f : Records) (m : M Wmgr A)
    → ((w : Wmgr) → (m w).1.emap ≡ w.emap)
    → Triple (Agrees f) m (λ _. Agrees f) Any
untouched {A} f m h = record { apply = λ w a. go w (m w).0 (m w).1 (h w) a }
  where
    go :
        (w : Wmgr) (r : Result A) (v : Wmgr)
        → v.emap ≡ w.emap
        → Agrees f w
        → Holds (λ _. Agrees f) Any r v
    go w (ok x) v e a = subst (Shows f) (sym e) a
    go w (throw x) v e a = tt

file-emap : {A : Type 0} (i : ℕ) (m : M Fcntl A) (w : Wmgr) → (on_file_at i m w).1.emap ≡ w.emap
file-emap i m w = refl

counted :
    (f : Records) (i : ℕ) (m : M Fcntl ℕ)
    → Triple (Agrees f) (on_file_at i m >>= (λ _. pure tt)) (λ _. Agrees f) Any
counted f i m =
    Triple.bind (untouched f (on_file_at i m) (file-emap i m)) (λ n. Triple.returned tt (λ w h. h))

removed :
    (f : Records) (rid : ℕ)
    → Triple (Agrees f) (remove_emap rid true) (λ _. Agrees (without rid f)) Any
unfolding remove_emap
removed f rid =
    Triple.bind
      (on_emap (Removed (without rid f)) (EnqMap.get_remove_pfid rid true) (removed_pfid f rid))
      (λ r. by_code r)
  where
    by_code :
        (r : ℤ)
        → Triple
            (λ w. Removed (without rid f) r w.emap)
            (elim r [
              | negsuc zero ↦ raise jerr_map_notfound
              | negsuc (suc zero) ↦ raise jerr_map_locked
              | other ↦ on_file_at (of_int16 other) Fcntl.decr_enqcnt >>= (λ _. pure tt)
            ])
            (λ _. Agrees (without rid f))
            Any
    by_code (pos n) = counted (without rid f) (of_int16 (pos n)) Fcntl.decr_enqcnt
    by_code (negsuc zero) = Triple.raised jerr_map_notfound (λ w h. tt)
    by_code (negsuc (suc zero)) = Triple.raised jerr_map_locked (λ w h. tt)
    by_code (negsuc (suc (suc n))) =
        counted (without rid f) (of_int16 (negsuc (suc (suc n)))) Fcntl.decr_enqcnt

commit_step :
    (td : TxnData) (f : Records) (b : Bool)
    → Triple
        (Agrees f)
        (if b then insert_emap td.rid td.pfid else remove_emap td.drid true)
        (λ _. Agrees (if b then with_record td.rid (entry td.pfid) f else without td.drid f))
        Any
commit_step td f true = inserted f td.rid td.pfid
commit_step td f false = removed f td.drid

-- The loop of `commit` over the operations of a transaction: where it returns, the map of enqueued
-- records is that of before with the operations applied in their order, an enqueue by its record in
-- its file, not locked, and a dequeue by the removal of its record.
pub commit_list-committed :
    (tdl : List TxnData) (f : Records)
    → Triple (Agrees f) (commit_list tdl) (λ _. Agrees (committed tdl f)) Any
unfolding commit_list
commit_list-committed [] f = Triple.returned tt (λ w h. h)
commit_list-committed (td ∷ tdl) f = Triple.seq (commit_step td f td.enq_flag) (
    commit_list-committed tdl
      (if td.enq_flag then with_record td.rid (entry td.pfid) f else without td.drid f))

unlock_none : (rid : ℕ) (m : EnqMap) → find rid m.entries ≡ none → (EnqMap.unlock rid m).1 ≡ m
unfolding EnqMap.unlock
unlock_none rid m e = ground (arith, e)

unlock-some :
    (rid : ℕ) (d : EmapData) (m : EnqMap)
    → find rid m.entries ≡ some d
    → (EnqMap.unlock rid m).1
      ≡ record m { entries = modify rid (λ x. record x { lock = false }) m.entries }
unfolding EnqMap.unlock
unlock-some rid d m e = rw (e, EnqMap.unlock) refl

-- A record that is not there has no lock.
free :
    (f : Records) (rid j : ℕ) (m : EnqMap)
    → find rid m.entries ≡ none
    → find j m.entries ≡ f j
    → find j m.entries ≡ unlocked rid f j
free f rid j m e a = elim (Bool-cases (rid == j)) [
  | inl b ↦
      let gone : find j m.entries ≡ none =
        subst (λ k. find k m.entries ≡ none) ((==_iff rid j).0 b) e in
      gone ∙ ground (arith, b, sym a ∙ gone)
  | inr b ↦ a ∙ ground (arith, b)
]

unlocked-Shows :
    (f : Records) (rid : ℕ) (m : EnqMap)
    → Shows f m
    → Shows (unlocked rid f) (EnqMap.unlock rid m).1
unlocked-Shows f rid m (s, a) = elim (Option-cases (find rid m.entries)) [
  | inl e ↦
      subst (Shows (unlocked rid f)) (sym (unlock_none rid m e)) (s, λ j. free f rid j m e (a j))
  | inr (d, e) ↦ subst (Shows (unlocked rid f)) (sym (unlock-some rid d m e)) (
    modify-IsSorted rid (λ x. record x { lock = false }) m.entries s,
    λ j.
        find-modify rid j (λ x. record x { lock = false }) m.entries
        ∙ ap
            (λ o.
              if rid == j
              then elim o [ none ↦ none | some v ↦ some (record v { lock = false }) ]
              else o)
            (a j),
  )
]

abort_step :
    (td : TxnData) (f : Records) (b : Bool)
    → Triple
        (Agrees f)
        (if b
          then on_file_at td.pfid Fcntl.decr_enqcnt >>= (λ _. pure tt)
          else with_emap (λ m. (let (r, m') = EnqMap.unlock td.drid m in (ok r, m')))
            >>= (λ _. pure tt))
        (λ _. Agrees (if b then f else unlocked td.drid f))
        Any
abort_step td f true = counted f td.pfid Fcntl.decr_enqcnt
abort_step td f false =
    Triple.bind
      (on_emap (λ _. Shows (unlocked td.drid f))
        (λ m. (let (r, m') = EnqMap.unlock td.drid m in (ok r, m')))
        (λ m h. unlocked-Shows f td.drid m h))
      (λ n. Triple.returned tt (λ w h. h))

-- The loop of `abort` over the operations of a transaction: where it returns, the map of enqueued
-- records is that of before, except that the records that the transaction was to dequeue are not
-- locked.
pub abort_list-aborted :
    (tdl : List TxnData) (f : Records)
    → Triple (Agrees f) (abort_list tdl) (λ _. Agrees (aborted tdl f)) Any
unfolding abort_list
abort_list-aborted [] f = Triple.returned tt (λ w h. h)
abort_list-aborted (td ∷ tdl) f =
    Triple.seq (abort_step td f td.enq_flag)
      (abort_list-aborted tdl (if td.enq_flag then f else unlocked td.drid f))
