-- ===== src/Wmgr/Maps/Complete.antt =====
-- The end of a transaction in `wmgr::commit` and `wmgr::abort` (lib/jrnl/wmgr.cpp), and its return from
-- the AIO library in `wmgr::get_events`.
use qpid_cpp_store_debian.Prelude.{
  ℕ, ◌≡◌, sym, ap, subst, ◌∙◌, false, none, some, List, Option-cases, arith, inl, inr,
}
use qpid_cpp_store_debian.Prelude.StdMap.{find, insert, place, find-place}
use qpid_cpp_store_debian.Prelude.Control.{Result, ok, throw, jerr_map_duplicate}
use qpid_cpp_store_debian.Prelude.Control.Triple
use qpid_cpp_store_debian.Prelude.Control.Triple.{Triple, Holds}
use qpid_cpp_store_debian.Xid.{Xid, xid_key}
use qpid_cpp_store_debian.DataTok
use qpid_cpp_store_debian.TxnMap
use qpid_cpp_store_debian.TxnMap.{TxnMap, TxnData}
use qpid_cpp_store_debian.TxnMap.Invariant.{IsValid, get_remove_tdata_list-eq, get_remove_none}
use qpid_cpp_store_debian.Wmgr.State.{Wmgr, with_tmap, set_tok}
use qpid_cpp_store_debian.Wmgr.Events.{is_txn_synced}
use qpid_cpp_store_debian.Wmgr.Complete.{
  TxnEnd, abort_txn, commit_txn, end_subm, end_list, insert_pending, complete_txn,
}
use qpid_cpp_store_debian.Wmgr.Maps.{Records, committed, aborted, Agrees, Any}
use qpid_cpp_store_debian.Wmgr.Maps.Ends.{commit_list-committed, abort_list-aborted}

-- The end of a transaction whose operations are `tdl`.
abbrev pub ended : TxnEnd → List TxnData → Records → Records
ended abort_txn tdl f = aborted tdl f
ended commit_txn tdl f = committed tdl f

end_list-ended :
    (e : TxnEnd) (tdl : List TxnData) (f : Records)
    → Triple (Agrees f) (end_list e tdl) (λ _. Agrees (ended e tdl f)) Any
end_list-ended abort_txn tdl f = abort_list-aborted tdl f
end_list-ended commit_txn tdl f = commit_list-committed tdl f

removed_list :
    (xid : Xid) (m : TxnMap)
    → IsValid m
    → (TxnMap.get_remove_tdata_list xid m).0 ≡ ok (TxnMap.get_tdata_list xid m)
unfolding TxnMap.get_tdata_list
removed_list xid m v = elim (Option-cases (find xid m.entries)) [
  | inl e ↦ ap (λ o. o.0) (get_remove_none xid m e) ∙ ground (arith, e)
  | inr (tdl, e) ↦ ap (λ o. o.0) (get_remove_tdata_list-eq xid tdl m e v) ∙ ground (arith, e)
]

pending_dup :
    (xid : Xid) (u : Unit {0}) (w : Wmgr)
    → find xid w.txn_pending_set ≡ some u
    → insert_pending xid w ≡ (throw jerr_map_duplicate, w)
unfolding insert_pending insert
pending_dup xid u w n = ground (arith, n)

pending_new :
    (xid : Xid) (w : Wmgr)
    → find xid w.txn_pending_set ≡ none
    → insert_pending xid w ≡ (ok tt, record w { txn_pending_set = place xid tt w.txn_pending_set })
unfolding insert_pending insert
pending_new xid w n = ground (arith, n)

find_placed :
    (xid : Xid) (m : List (Xid × Unit {0}))
    → find xid m ≡ none
    → find xid (place xid tt m) ≡ some tt
find_placed xid m n = find-place xid xid tt m n ∙ ground (arith, xid_key.eq_iff xid xid)

-- A transaction whose end is pending is not synchronized.
pending-not_synced :
    (xid : Xid) (w : Wmgr) → find xid w.txn_pending_set ≡ some tt → is_txn_synced xid w ≡ false
unfolding is_txn_synced
pending-not_synced xid w n = rw (n, is_txn_synced) ground arith

module _ (e : TxnEnd) (xid : Xid) (tdl : List TxnData) (f : Records) where
  -- The records and the operations of the transaction before its end.
  abbrev pub Before : Wmgr → Type 0
  Before w = Agrees f w × IsValid w.tmap × (TxnMap.get_tdata_list xid w.tmap ≡ tdl)

  Holds-listed :
      (r : Result (List TxnData)) (w : Wmgr)
      → r ≡ ok tdl
      → Agrees f w
      → Holds (λ l v. Agrees f v × (l ≡ tdl)) Any r w
  Holds-listed (ok l) w h a = (a, ground (arith, h))
  Holds-listed (throw x) w h a = tt

  listed :
      Triple Before
        (with_tmap (TxnMap.get_remove_tdata_list xid))
        (λ l v. Agrees f v × (l ≡ tdl))
        Any
  listed = record {
    apply = λ w h.
        Holds-listed (TxnMap.get_remove_tdata_list xid w.tmap).0
          (record w { tmap = (TxnMap.get_remove_tdata_list xid w.tmap).1 })
          (removed_list xid w.tmap h.1 ∙ ap (λ l. ok l) h.2) h.0;
  }

  finished :
      (l : List TxnData)
      → Triple (λ w. Agrees f w × (l ≡ tdl)) (end_list e l) (λ _. Agrees (ended e tdl f)) Any
  finished l = record {
    apply = λ w h.
        (Triple.weaken {P' = Agrees f} (end_list-ended e l f) (λ s q. q)
            (λ a s q. subst (λ t. Agrees (ended e t f) s) h.1 q) (λ x s q. q)).apply
          w h.0;
  }

  PendingAt : Result (Unit {0}) × Wmgr → Type 0
  PendingAt o = Holds (λ _ v. Agrees (ended e tdl f) v × (is_txn_synced xid v ≡ false)) Any o.0 o.1

  Holds-pending : (w : Wmgr) → Agrees (ended e tdl f) w → PendingAt (insert_pending xid w)
  unfolding PendingAt
  Holds-pending w a = elim (Option-cases (find xid w.txn_pending_set)) [
    | inr (u, n) ↦ subst PendingAt (sym (pending_dup xid u w n)) tt
    | inl n ↦ subst PendingAt (sym (pending_new xid w n)) (
      a,
      pending-not_synced xid (record w { txn_pending_set = place xid tt w.txn_pending_set })
          (find_placed xid w.txn_pending_set n),
    )
  ]

  -- Once the record that ends a transaction is written, and the call returns, the map of enqueued
  -- records is that of before with the operations of the transaction committed, or aborted; and the
  -- transaction does not count as synchronized. The map of transactions is valid.
  pub complete_txn-ended :
      (p : ℕ)
      → Triple Before
          (complete_txn e p xid)
          (λ _ v. Agrees (ended e tdl f) v × (is_txn_synced xid v ≡ false))
          Any
  unfolding complete_txn PendingAt
  complete_txn-ended p =
      Triple.seq {Q = Before} {m = set_tok p (DataTok.set_wstate (end_subm e))}
        (record { apply = λ w h. h })
        (Triple.bind listed (λ l.
          Triple.seq {k = insert_pending xid} (finished l)
            (record { apply = λ w h. Holds-pending w h })))
