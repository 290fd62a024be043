-- ===== src/Wmgr/Checks.antt =====
-- What `wmgr` of lib/jrnl/wmgr.cpp checks before it writes: `pre_write_check` and `dequeue_check`.
use qpid_cpp_store_debian.Prelude.{
  ℕ, Bool, true, false, not, ◌&&◌, Option, none, some, [], ◌∷◌, pos, negsuc, ◌==◌, if◌then◌else◌,
  add32,
}
use qpid_cpp_store_debian.Prelude.Control.{
  Result, ok, throw, M, ◌>>=◌, ◌>>◌, pure, raise, get, require, out_of_fuel, jerr_wmgr_badpgstate,
  jerr_wmgr_baddtokstate, jerr_map_locked, jerr_wmgr_deqridnotenq,
}
use qpid_cpp_store_debian.Xid.{Xid}
use qpid_cpp_store_debian.EnqMap
use qpid_cpp_store_debian.EnqMap.{EnqMap}
use qpid_cpp_store_debian.TxnMap
use qpid_cpp_store_debian.TxnMap.{TxnMap}
use qpid_cpp_store_debian.Wrfc
use qpid_cpp_store_debian.Wrfc.{
  Wrfc, Iores, iores_success, iores_page_aiowait, iores_full, iores_enqcapthresh,
}
use qpid_cpp_store_debian.DataTok.{DataTok, is_writable, is_dequeueable}
use qpid_cpp_store_debian.Records.{size_dblks}
use qpid_cpp_store_debian.Records.Enq
use qpid_cpp_store_debian.Wmgr.State.{
  Wmgr, unused, in_use, aio_pending, aio_complete, with_wrfc, tok, current_page,
}
use qpid_cpp_store_debian.Wmgr.Flush.{use_page}

-- `_op_type`
pub data OpType : Type 0 where
  op_enqueue op_dequeue op_abort op_commit : OpType

-- "Check status of current file": whether it can be written.
unfoldable pub file_check : M Wmgr Bool
file_check = do w ← get; if w.wrfc.reset_ok then pure true else with_wrfc Wrfc.wr_reset

-- "Check status of current page is ok for writing": `none` if it is.
unfoldable pub page_check : M Wmgr (Option Iores)
page_check = do
  p ← current_page
  elim p.state [
    | in_use ↦ pure none
    | unused ↦ use_page >> pure none
    | aio_pending ↦ pure (some iores_page_aiowait)
    | aio_complete ↦ raise jerr_wmgr_badpgstate
  ]

-- `_wrfc.enq_threshold`, whose search always ends.
unfoldable pub threshold : ℕ → M Wmgr Bool
threshold n w = elim (Wrfc.enq_threshold n w.wrfc) [
  | none ↦ (throw out_of_fuel, w)
  | some r ↦ (r, w)
]

-- The check of an enqueue of a record of so many data blocks.
unfoldable pub enqueue_check : DataTok → ℕ → M Wmgr Iores
enqueue_check t size = do
  w ← get
  over ← if w.busy.enq_busy then pure false else threshold (add32 w.cache.cached_offset_dblks size)
  if over
      then pure iores_enqcapthresh
      else require (is_writable t) jerr_wmgr_baddtokstate >> pure iores_success

-- The operation-specific checks.
unfoldable pub op_check : OpType → DataTok → ℕ → ℕ → Bool → M Wmgr Iores
op_check op_enqueue t xidsize dsize external =
    enqueue_check t (size_dblks (Enq.rec_size xidsize dsize external))
op_check op_dequeue t xidsize dsize external =
    require (is_dequeueable t) jerr_wmgr_baddtokstate >> pure iores_success
op_check op_abort t xidsize dsize external = pure iores_success
op_check op_commit t xidsize dsize external = pure iores_success

unfoldable pub pre_write_check : OpType → ℕ → ℕ → ℕ → Bool → M Wmgr Iores
pre_write_check op p xidsize dsize external = do
  writable ← file_check
  if not writable then pure iores_full else (do
    wait ← page_check
    t ← tok p
    elim wait [ some r ↦ pure r | none ↦ op_check op t xidsize dsize external ])

abbrev pub not_nil : Xid → Bool
not_nil x = elim x [ [] ↦ false | a ∷ y ↦ true ]

-- The outcome of `dequeue_check`, which only reads the maps. The codes of `get_pfid` below EMAP_OK
-- are negative.
unfoldable pub dequeue_test : Xid → ℕ → EnqMap → TxnMap → Result (Unit {0})
dequeue_test xid drid emap tmap = elim (EnqMap.get_pfid drid emap) [
  | pos _ ↦ ok tt
  | negsuc n ↦
      if n == 0
      then if not_nil xid && TxnMap.data_exists xid drid tmap
        then ok tt
        else throw jerr_wmgr_deqridnotenq
      else if n == 1
      then throw jerr_map_locked
      else throw jerr_wmgr_deqridnotenq
]

unfoldable pub dequeue_check : Xid → ℕ → M Wmgr (Unit {0})
unfolding dequeue_test
dequeue_check xid drid w = (dequeue_test xid drid w.emap w.tmap, w)
