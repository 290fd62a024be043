-- ===== src/Wmgr/Events.antt =====
-- `wmgr::get_events` and `is_txn_synced` of lib/jrnl/wmgr.cpp: what the return of a write does.
use qpid_cpp_store_debian.Prelude.{
  ℕ, ◌+◌, ◌-◌, Bool, true, false, not, ◌&&◌, Option, none, some, List, [], ◌∷◌, ◌++◌, get_elem?, ℤ,
  pos, negsuc, ◌==◌, if◌then◌else◌, add32,
}
use qpid_cpp_store_debian.Prelude.Control.{
  ok, throw, M, ◌>>=◌, ◌>>◌, pure, raise, get, require, undefined, jerr_aio, jerr_underflow,
  jerr_map_notfound, jerr_wmgr_baddtokstate,
}
use qpid_cpp_store_debian.Prelude.StdMap.{find, erase}
use qpid_cpp_store_debian.Xid.{Xid, xid_key}
use qpid_cpp_store_debian.TxnMap
use qpid_cpp_store_debian.TxnMap.{tmap_not_synced}
use qpid_cpp_store_debian.Fcntl
use qpid_cpp_store_debian.DataTok
use qpid_cpp_store_debian.DataTok.{WriteState, DataTok}
use qpid_cpp_store_debian.Wmgr.State.{
  Wmgr, PageState, Aio, AioEvent, page_io, header_io, Reply, events, interrupted, failed, with_tok,
  set_tok, tok, on_outside, on_file_at, page_at, put_page,
}

-- `_tmap.set_aio_compl(dtokp->xid(), dtokp->rid())` of a token with an xid; the result is ignored.
unfoldable pub set_compl : DataTok → M Wmgr (Unit {0})
set_compl t w =
    if DataTok.has_xid t
    then (ok tt, record w { tmap = (TxnMap.set_aio_compl t.xid t.rid w.tmap).1 })
    else (ok tt, w)

-- The xid of a commit or abort is no longer pending.
unfoldable pub erase_pending : Xid → M Wmgr (Unit {0})
unfolding find erase
erase_pending xid w = elim (find xid w.txn_pending_set) [
  | none ↦ (throw jerr_map_notfound, w)
  | some _ ↦ (ok tt, record w { txn_pending_set = erase xid w.txn_pending_set })
]

-- The switch on the state of a token with no page left to be written: whether the token is passed to
-- the callback.
unfoldable pub complete_tok : ℕ → WriteState → M Wmgr Bool
complete_tok p WriteState.enq_subm = do
  set_tok p (DataTok.set_wstate WriteState.enq)
  t ← tok p
  set_compl t
  pure true
complete_tok p WriteState.deq_subm = do
  set_tok p (DataTok.set_wstate WriteState.deq)
  t ← tok p
  set_compl t
  pure true
complete_tok p WriteState.abort_subm = do
  set_tok p (DataTok.set_wstate WriteState.aborted)
  t ← tok p
  erase_pending t.xid
  pure true
complete_tok p WriteState.commit_subm = do
  set_tok p (DataTok.set_wstate WriteState.committed)
  t ← tok p
  erase_pending t.xid
  pure true
complete_tok p WriteState.enq_part = pure false
complete_tok p WriteState.deq_part = pure false
complete_tok p WriteState.abort_part = pure false
complete_tok p WriteState.commit_part = pure false
complete_tok p _ = raise jerr_wmgr_baddtokstate

-- One token of the page that was written.
unfoldable pub return_tok : ℕ → M Wmgr Bool
return_tok p = do
  n ← with_tok p DataTok.decr_pg_cnt
  t ← tok p
  if n == 0 then complete_tok p t.wstate else pure false

-- The loop over the tokens of the page: those for the callback, and the total of the call so far.
unfoldable pub return_toks : List ℕ → List ℕ → ℕ → M Wmgr (List ℕ × ℕ)
return_toks [] dtokl tot = pure (dtokl, tot)
return_toks (p ∷ ps) dtokl tot = do
  b ← return_tok p
  return_toks ps (if b then dtokl ++ (p ∷ []) else dtokl) (if b then add32 tot 1 else tot)

abbrev pub call_back : List ℕ → ℕ → M Wmgr (Unit {0})
call_back dtokl tot w =
    if w.cbp && not (tot == 0)
    then on_outside (λ o. record o { called_back = o.called_back ++ (dtokl ∷ []) }) w
    else (ok tt, w)

-- The counters of the file that was written to. A page that is not submitted has no file.
unfoldable pub written : Option ℕ → ℕ → M Wmgr (Unit {0})
written none n = raise undefined
written (some i) n = do
  _ ← on_file_at i (Fcntl.add_wr_cmpl_cnt_dblks n)
  _ ← on_file_at i Fcntl.decr_aio_cnt
  pure tt

-- A page write has returned.
unfoldable pub return_page : PageState → ℕ → ℕ → M Wmgr ℕ
return_page state i tot = do
  pcb ← page_at i
  (dtokl, tot') ← return_toks pcb.pdtokl [] tot
  written pcb.wfh pcb.wdblks
  put_page i (record pcb { pdtokl = []; state = state })
  call_back dtokl tot'
  pure tot'

-- A file header write has returned.
unfoldable pub return_header : ℕ → M Wmgr (Unit {0})
return_header i w = elim (get_elem? w.fhdr_arr i) [
  | some (some h) ↦
      (do
        _ ← on_file_at h.lfid (Fcntl.add_wr_cmpl_cnt_dblks 4)
        _ ← on_file_at h.lfid Fcntl.decr_aio_cnt
        on_file_at h.lfid (λ f. (ok tt, Fcntl.set_wr_fhdr_aio_outstanding false f)))
        w
  | _ ↦ (throw undefined, w)
]

-- An event after the test that there was one to be expected.
unfoldable pub return_event : PageState → AioEvent → ℕ → M Wmgr ℕ
return_event state e tot = elim e.res [
  | negsuc _ ↦ raise jerr_aio
  | pos _ ↦ elim e.obj [
    | page_io i ↦ return_page state i tot
    | header_io i ↦ return_header i >> pure tot
  ]
]

unfoldable pub return_events : PageState → List AioEvent → ℕ → M Wmgr ℕ
return_events state [] tot = pure tot
return_events state (e ∷ es) tot = do
  w ← get
  require (not (w.outside.aio_evt_rem == 0)) jerr_underflow
  on_outside (λ o. record o { aio_evt_rem = o.aio_evt_rem - 1 })
  tot' ← return_event state e tot
  return_events state es tot'

-- `AIO_TIMEOUT`
abbrev pub aio_timeout : ℤ
aio_timeout = negsuc 0

abbrev pub is_nil : List AioEvent → Bool
is_nil [] = true
is_nil (e ∷ es) = false

-- The reply of the library. `timeout` tells whether one was given.
unfoldable pub handle_reply : PageState → Bool → Reply → M Wmgr ℤ
handle_reply state timeout interrupted = pure (pos 0)
handle_reply state timeout failed = raise jerr_aio
handle_reply state timeout (events es) =
    if is_nil es && timeout
    then pure aio_timeout
    else (do tot ← return_events state es 0; pure (pos tot))

unfoldable pub get_events : Aio → PageState → Bool → Bool → M Wmgr ℤ
get_events io state timeout flush w =
    let n = w.outside.aio_evt_rem in
    let reply = io.getevents w.outside.calls (if flush then n else 1) n in
    if n == 0
    then (ok (pos 0), w)
    else handle_reply state timeout reply
        (record w { outside = record w.outside { calls = w.outside.calls + 1 } })

abbrev pub not_synced : ℤ → Bool
not_synced (pos n) = n == 0
not_synced (negsuc n) = false

-- An xid that the map does not have counts as synchronized.
unfoldable pub is_txn_synced : Xid → Wmgr → Bool
unfolding find
is_txn_synced xid w =
    if not_synced (TxnMap.is_txn_synced xid w.tmap)
    then false
    else (elim (find xid w.txn_pending_set) [ none ↦ true | some _ ↦ false ])
