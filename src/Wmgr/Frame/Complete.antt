-- ===== src/Wmgr/Frame/Complete.antt =====
-- The completion of a record in lib/jrnl/wmgr.cpp leaves the flags and the positions alone.
use qpid_cpp_store_debian.Prelude.{
  ℕ, zero, suc, ◌≡◌, refl, Bool, true, false, some, List, [], ◌∷◌, ◌==◌, arith, ℤ, pos, negsuc,
  of_int16,
}
use qpid_cpp_store_debian.Prelude.Control.{
  ok, M, ◌>>=◌, pure, raise, jerr_map_duplicate, jerr_map_notfound, jerr_map_locked,
}
use qpid_cpp_store_debian.Xid.{Xid, xid_key}
use qpid_cpp_store_debian.EnqMap
use qpid_cpp_store_debian.EnqMap.{EnqMap}
use qpid_cpp_store_debian.TxnMap
use qpid_cpp_store_debian.TxnMap.{TxnMap, TxnData, txn_data, count_down}
use qpid_cpp_store_debian.Fcntl
use qpid_cpp_store_debian.Fcntl.{Fcntl}
use qpid_cpp_store_debian.DataTok
use qpid_cpp_store_debian.DataTok.{WriteState}
use qpid_cpp_store_debian.Wmgr.State.{Wmgr, with_emap, with_tmap, on_file_at}
use qpid_cpp_store_debian.Wmgr.Complete.{
  insert_emap, remove_emap, complete_enqueue, complete_dequeue, abort_list, commit_list,
  insert_pending, TxnEnd, abort_txn, commit_txn, end_list, end_subm, complete_txn,
}
use qpid_cpp_store_debian.Wmgr.Frame.{
  View, Frames, same, frame_bind, frame_seq, frame_pure, frame_raise, frame_if, frame_tok,
  frame_set_tok, frame_emap, frame_tmap, position, fine,
}
use qpid_cpp_store_debian.Wmgr.Frame.Files.{frame_on_file_at}

insert_pfid-fine : (rid pfid : ℕ) (m : EnqMap) → fine (EnqMap.insert_pfid rid pfid false m).0 ≡ true
unfolding EnqMap.insert_pfid
insert_pfid-fine rid pfid m = ground arith

get_remove_pfid-fine :
    (rid : ℕ) (b : Bool) (m : EnqMap) → fine (EnqMap.get_remove_pfid rid b m).0 ≡ true
unfolding EnqMap.get_remove_pfid
get_remove_pfid-fine rid b m = ground arith

insert_txn_data-fine :
    (x : Xid) (td : TxnData) (m : TxnMap) → fine (TxnMap.insert_txn_data x td m).0 ≡ true
unfolding TxnMap.insert_txn_data
insert_txn_data-fine x td m = ground arith

get_remove_tdata_list-fine :
    (x : Xid) (m : TxnMap) → fine (TxnMap.get_remove_tdata_list x m).0 ≡ true
unfolding TxnMap.get_remove_tdata_list
get_remove_tdata_list-fine x m = ground arith

decr_enqcnt-position : (f : Fcntl) → position (some (Fcntl.decr_enqcnt f).1) ≡ position (some f)
unfolding Fcntl.decr_enqcnt
decr_enqcnt-position f = ground arith

decr_enqcnt-fine : (f : Fcntl) → fine (Fcntl.decr_enqcnt f).0 ≡ true
unfolding Fcntl.decr_enqcnt
decr_enqcnt-fine f = ground arith

incr_enqcnt-position : (f : Fcntl) → position (some (Fcntl.incr_enqcnt f).1) ≡ position (some f)
unfolding Fcntl.incr_enqcnt
incr_enqcnt-position f = refl

incr_enqcnt-fine : (f : Fcntl) → fine (Fcntl.incr_enqcnt f).0 ≡ true
unfolding Fcntl.incr_enqcnt
incr_enqcnt-fine f = refl

module _ (p : ℕ) (P : View → Type 0) where
  frame_decr : (i : ℕ) → Frames p P (on_file_at i Fcntl.decr_enqcnt >>= (λ _. pure tt))
  frame_decr i =
      frame_bind p P
        (frame_on_file_at p P i Fcntl.decr_enqcnt decr_enqcnt-position decr_enqcnt-fine)
        (λ _. frame_pure p P tt)

  frame_inserted :
      (r : ℤ)
      → Frames p P (elim r as (λ _. M Wmgr (Unit {0})) [
        | pos _ ↦ pure tt
        | negsuc _ ↦ raise jerr_map_duplicate
      ])
  frame_inserted (pos n) = frame_pure p P tt
  frame_inserted (negsuc n) = frame_raise p P jerr_map_duplicate refl

  frame_insert_emap : (rid pfid : ℕ) → Frames p P (insert_emap rid pfid)
  unfolding insert_emap
  frame_insert_emap rid pfid =
      frame_bind p P (frame_emap p P _ (insert_pfid-fine rid pfid)) frame_inserted

  frame_removed :
      (fid : ℤ)
      → Frames p P (elim fid as (λ _. M Wmgr (Unit {0})) [
        | negsuc zero ↦ raise jerr_map_notfound
        | negsuc (suc zero) ↦ raise jerr_map_locked
        | other ↦ (do _ ← on_file_at (of_int16 other) Fcntl.decr_enqcnt; pure tt)
      ])
  frame_removed (negsuc zero) = frame_raise p P jerr_map_notfound refl
  frame_removed (negsuc (suc zero)) = frame_raise p P jerr_map_locked refl
  frame_removed (negsuc (suc (suc n))) = frame_decr (of_int16 (negsuc (suc (suc n))))
  frame_removed (pos n) = frame_decr (of_int16 (pos n))

  frame_remove_emap : (rid : ℕ) (b : Bool) → Frames p P (remove_emap rid b)
  unfolding remove_emap
  frame_remove_emap rid b =
      frame_bind p P (frame_emap p P _ (get_remove_pfid-fine rid b)) frame_removed

  frame_locks :
      (f : EnqMap → ℤ × EnqMap) → Frames p P (with_emap (λ m. (let (r, m') = f m in (ok r, m'))))
  frame_locks f = frame_emap p P _ (λ m. refl)

  frame_insert_txn :
      (x : Xid) (td : TxnData)
      → Frames p P (with_tmap (TxnMap.insert_txn_data x td) >>= (λ _. pure tt))
  frame_insert_txn x td =
      frame_bind p P (frame_tmap p P _ (insert_txn_data-fine x td)) (λ _. frame_pure p P tt)

  pub frame_complete_enqueue :
      (q rid xid_len : ℕ) (x : Xid) (n : ℕ) → Frames p P (complete_enqueue q rid xid_len x n)
  unfolding complete_enqueue
  frame_complete_enqueue q rid xid_len x n =
      frame_seq p P
        (frame_set_tok p P q (λ t. DataTok.set_dsize n (DataTok.set_wstate WriteState.enq_subm t))
          (λ t. refl))
        (frame_bind p P (frame_tok p P q) (λ t.
          frame_bind p P
            (frame_on_file_at p P t.fid Fcntl.incr_enqcnt incr_enqcnt-position incr_enqcnt-fine)
            (λ _.
              frame_if p P (xid_len == 0) (frame_insert_emap rid t.fid)
                (frame_insert_txn x (txn_data rid 0 t.fid true false)))))

  pub frame_complete_dequeue :
      (q rid drid xid_len : ℕ) (x : Xid) → Frames p P (complete_dequeue q rid drid xid_len x)
  unfolding complete_dequeue
  frame_complete_dequeue q rid drid xid_len x =
      frame_seq p P (frame_set_tok p P q (DataTok.set_wstate WriteState.deq_subm) (λ t. refl)) (
        frame_bind p P (frame_tok p P q) (λ t.
          frame_if p P (xid_len == 0) (frame_remove_emap t.dequeue_rid false) (
            frame_bind p P (frame_locks (EnqMap.lock drid))
              (λ _. frame_insert_txn x (txn_data rid drid t.fid false false)))))

  frame_abort_list : (tdl : List TxnData) → Frames p P (abort_list tdl)
  unfolding abort_list
  frame_abort_list [] = frame_pure p P tt
  frame_abort_list (td ∷ tdl) =
      frame_seq p P
        (frame_if p P td.enq_flag (frame_decr td.pfid)
          (frame_bind p P (frame_locks (EnqMap.unlock td.drid)) (λ _. frame_pure p P tt)))
        (frame_abort_list tdl)

  frame_commit_list : (tdl : List TxnData) → Frames p P (commit_list tdl)
  unfolding commit_list
  frame_commit_list [] = frame_pure p P tt
  frame_commit_list (td ∷ tdl) =
      frame_seq p P
        (frame_if p P td.enq_flag (frame_insert_emap td.rid td.pfid)
          (frame_remove_emap td.drid true))
        (frame_commit_list tdl)

  frame_end_list : (e : TxnEnd) (tdl : List TxnData) → Frames p P (end_list e tdl)
  frame_end_list abort_txn tdl = frame_abort_list tdl
  frame_end_list commit_txn tdl = frame_commit_list tdl

  frame_insert_pending : (x : Xid) → Frames p P (insert_pending x)
  unfolding insert_pending
  frame_insert_pending x = same p P (insert_pending x) (λ w. ground arith) (λ w. ground arith)

  pub frame_complete_txn : (e : TxnEnd) (q : ℕ) (x : Xid) → Frames p P (complete_txn e q x)
  unfolding complete_txn
  frame_complete_txn e q x =
      frame_seq p P (frame_set_tok p P q (DataTok.set_wstate (end_subm e)) (λ t. refl)) (
        frame_bind p P
          (frame_tmap p P (TxnMap.get_remove_tdata_list x) (get_remove_tdata_list-fine x))
          (λ tdl. frame_seq p P (frame_end_list e tdl) (frame_insert_pending x)))
