-- ===== src/Wmgr/Complete.antt =====
-- What the record writers of lib/jrnl/wmgr.cpp do once a record is encoded to its end: the maps of
-- enqueued records and of transactions, and the counts of the files.
use qpid_cpp_store_debian.Prelude.{
  ℕ, zero, suc, Bool, true, false, List, [], ◌∷◌, pos, negsuc, of_int16, ◌==◌, if◌then◌else◌,
}
use qpid_cpp_store_debian.Prelude.Control.{
  ok, throw, M, ◌>>=◌, ◌>>◌, pure, raise, jerr_map_duplicate, jerr_map_notfound, jerr_map_locked,
}
use qpid_cpp_store_debian.Prelude.StdMap.{insert}
use qpid_cpp_store_debian.Xid.{Xid, xid_key}
use qpid_cpp_store_debian.EnqMap
use qpid_cpp_store_debian.TxnMap
use qpid_cpp_store_debian.TxnMap.{TxnData, txn_data}
use qpid_cpp_store_debian.Fcntl
use qpid_cpp_store_debian.DataTok
use qpid_cpp_store_debian.DataTok.{WriteState}
use qpid_cpp_store_debian.Wmgr.State.{Wmgr, with_emap, with_tmap, on_file_at, set_tok, tok}

-- `_emap.insert_pfid` below EMAP_OK is a duplicate.
unfoldable pub insert_emap : ℕ → ℕ → M Wmgr (Unit {0})
insert_emap rid pfid = do
  r ← with_emap (EnqMap.insert_pfid rid pfid false)
  elim r [ pos _ ↦ pure tt | negsuc _ ↦ raise jerr_map_duplicate ]

-- `_emap.get_remove_pfid`, and the count of the file it returns: the codes of a record that is not
-- there or locked throw, any other value is taken as a file number.
unfoldable pub remove_emap : ℕ → Bool → M Wmgr (Unit {0})
remove_emap rid txn_flag = do
  fid ← with_emap (EnqMap.get_remove_pfid rid txn_flag)
  elim fid [
    | negsuc zero ↦ raise jerr_map_notfound
    | negsuc (suc zero) ↦ raise jerr_map_locked
    | other ↦ (do _ ← on_file_at (of_int16 other) Fcntl.decr_enqcnt; pure tt)
  ]

-- "Is the encoding of this record complete?" in `enqueue`.
unfoldable pub complete_enqueue : ℕ → ℕ → ℕ → Xid → ℕ → M Wmgr (Unit {0})
complete_enqueue p rid xid_len xid tot_data_len = do
  set_tok p (λ t. DataTok.set_dsize tot_data_len (DataTok.set_wstate WriteState.enq_subm t))
  t ← tok p
  _ ← on_file_at t.fid Fcntl.incr_enqcnt
  if xid_len == 0 then insert_emap rid t.fid else (do
    _ ← with_tmap (TxnMap.insert_txn_data xid (txn_data rid 0 t.fid true false))
    pure tt)

-- In `dequeue`: within a transaction the record is locked, else it is removed.
unfoldable pub complete_dequeue : ℕ → ℕ → ℕ → ℕ → Xid → M Wmgr (Unit {0})
complete_dequeue p rid dequeue_rid xid_len xid = do
  set_tok p (DataTok.set_wstate WriteState.deq_subm)
  t ← tok p
  if xid_len == 0 then remove_emap t.dequeue_rid false else (do
    _ ← with_emap (λ m. (let (r, m') = EnqMap.lock dequeue_rid m in (ok r, m')))
    _ ← with_tmap (TxnMap.insert_txn_data xid (txn_data rid dequeue_rid t.fid false false))
    pure tt)

-- The loop of `abort`: its dequeues unlock, its enqueues no longer count.
unfoldable pub abort_list : List TxnData → M Wmgr (Unit {0})
abort_list [] = pure tt
abort_list (td ∷ tdl) = do
  if td.enq_flag
      then (do _ ← on_file_at td.pfid Fcntl.decr_enqcnt; pure tt)
      else (do _ ← with_emap (λ m. (let (r, m') = EnqMap.unlock td.drid m in (ok r, m'))); pure tt)
  abort_list tdl

-- The loop of `commit`: its enqueues become visible, its dequeues are removed.
unfoldable pub commit_list : List TxnData → M Wmgr (Unit {0})
commit_list [] = pure tt
commit_list (td ∷ tdl) = do
  if td.enq_flag then insert_emap td.rid td.pfid else remove_emap td.drid true
  commit_list tdl

-- The end of the transaction waits for its AIO.
unfoldable pub insert_pending : Xid → M Wmgr (Unit {0})
unfolding insert
insert_pending xid w =
    let (s, second) = insert xid tt w.txn_pending_set in
    let w' : Wmgr = record w { txn_pending_set = s } in
    if second then (ok tt, w') else (throw jerr_map_duplicate, w')

-- The two ends of a transaction.
pub data TxnEnd : Type 0 where
  abort_txn commit_txn : TxnEnd

abbrev pub end_subm : TxnEnd → WriteState
end_subm abort_txn = WriteState.abort_subm
end_subm commit_txn = WriteState.commit_subm

abbrev pub end_list : TxnEnd → List TxnData → M Wmgr (Unit {0})
end_list abort_txn tdl = abort_list tdl
end_list commit_txn tdl = commit_list tdl

-- In `abort` and `commit`.
unfoldable pub complete_txn : TxnEnd → ℕ → Xid → M Wmgr (Unit {0})
complete_txn e p xid = do
  set_tok p (DataTok.set_wstate (end_subm e))
  tdl ← with_tmap (TxnMap.get_remove_tdata_list xid)
  end_list e tdl
  insert_pending xid
