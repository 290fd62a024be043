-- ===== src/Wmgr/Ops.antt =====
-- `wmgr::enqueue`, `dequeue`, `abort` and `commit` of lib/jrnl/wmgr.cpp. Their loops over the pages of
-- the cache are one and the same, and differ in the record, its completion and a state.
use qpid_cpp_store_debian.Prelude.{
  ℕ, zero, suc, ◌*◌, Bool, true, false, not, ◌&&◌, ◌||◌, Option, List, [], ◌∷◌, ◌++◌, take, ltb,
  leb, ◌==◌, if◌then◌else◌, add32, sub32,
}
use qpid_cpp_store_debian.Prelude.Control.{
  Error, Result, ok, M, ◌>>=◌, ◌>>◌, pure, raise, get, require, assertion, out_of_fuel,
  jerr_wmgr_enqdiscont, jerr_wmgr_deqdiscont,
}
use qpid_cpp_store_debian.Xid.{Xid}
use qpid_cpp_store_debian.Wrfc
use qpid_cpp_store_debian.Wrfc.{Iores, iores_success, iores_busy, iores_notimpl}
use qpid_cpp_store_debian.DataTok
use qpid_cpp_store_debian.DataTok.{DataTok, WriteState, wstate_value, wstate_eq}
use qpid_cpp_store_debian.Records.{size_dblks, txa_magic, txc_magic}
use qpid_cpp_store_debian.Records.Copy.{bytes_at, is_null}
use qpid_cpp_store_debian.Records.Enq
use qpid_cpp_store_debian.Records.Deq
use qpid_cpp_store_debian.Records.Txn
use qpid_cpp_store_debian.Wmgr.State.{
  Wmgr, Busy, Aio, page_dblks, on_cache, set_tok, tok, set_busy, alter_page, overwrite,
}
use qpid_cpp_store_debian.Wmgr.Flush.{Loop, is_success, file_header_check, flush_check}
use qpid_cpp_store_debian.Wmgr.Checks.{
  op_enqueue, op_dequeue, op_abort, op_commit, pre_write_check, dequeue_check,
}
use qpid_cpp_store_debian.Wmgr.Complete.{
  TxnEnd, abort_txn, commit_txn, end_subm, complete_enqueue, complete_dequeue, complete_txn,
}

-- A record that is being written: its token, record id and encoder, its size in data blocks, what its
-- completion does, and the state of its token until then.
pub record Job : Type 0 where
  pub p : ℕ
  pub rid : ℕ
  pub encode : ℕ → ℕ → Result (ℕ × List ℕ)
  pub size : ℕ
  pub complete : M Wmgr (Unit {0})
  pub part : WriteState

abbrev pub lift : {A : Type 0} → Result A → M Wmgr A
lift r w = (r, w)

-- The token once `ret` data blocks more of its record are in a page. The file of the header is kept.
abbrev pub wrote : ℕ → ℕ → DataTok → DataTok
wrote ret index t =
    DataTok.incr_pg_cnt (
      DataTok.incr_dblocks_written ret
        (if t.dblks_written == 0 then DataTok.set_fid index t else t))

-- The part of a round that encodes into the current page.
unfoldable pub fill_page : Job → M Wmgr (Unit {0})
fill_page j = do
  w ← get
  require (ltb w.cache.pg_offset_dblks (page_dblks w.cache)) assertion
  t ← tok j.p
  (ret, bytes) ←
      lift (j.encode t.dblks_written (sub32 (page_dblks w.cache) w.cache.pg_offset_dblks))
  alter_page w.cache.pg_index (λ g. record g {
    pbuff = overwrite g.pbuff (w.cache.pg_offset_dblks * 128) bytes;
    pdtokl = g.pdtokl ++ (j.p ∷ []);
  })
  set_tok j.p (wrote ret w.wrfc.fc_index)
  on_cache (λ c. record c {
    pg_offset_dblks = add32 c.pg_offset_dblks ret;
    cached_offset_dblks = add32 c.cached_offset_dblks ret;
  })

-- Whether the record is complete.
unfoldable pub complete_check : Job → M Wmgr Bool
complete_check j = do
  t ← tok j.p
  if leb j.size t.dblks_written
      then j.complete >> pure true
      else set_tok j.p (DataTok.set_wstate j.part) >> pure false

-- A round of the loop.
unfoldable pub write_round : Aio → Job → Loop → M Wmgr Loop
write_round io j l = do
  t ← tok j.p
  fill_page j
  done ← complete_check j
  file_header_check io j.rid l.cont (sub32 j.size t.dblks_written)
  flush_check io (record l { done = done })

-- As many rounds as data blocks are enough: each writes one.
unfoldable pub write_loop : Aio → ℕ → Job → Loop → M Wmgr Iores
write_loop io zero j l = raise out_of_fuel
write_loop io (suc fuel) j l = do
  l' ← write_round io j l
  elim l'.done [ true ↦ pure l'.res | false ↦ write_loop io fuel j l' ]

-- Whether an operation that is busy goes on with this token.
unfoldable pub continued : Bool → WriteState → WriteState → Error → M Wmgr Bool
unfolding wstate_value
continued busy state part e =
    if busy then (if wstate_eq state part then pure true else raise e) else pure false

-- `_wrfc.get_incr_rid()`, unless the rid is the token's.
unfoldable pub next_rid : Bool → ℕ → M Wmgr ℕ
next_rid own rid w =
    let (r, v) = Wrfc.get_incr_rid w.wrfc in
    if own then (ok rid, w) else (ok r, record w { wrfc = v })

-- The end of each operation: it is no longer busy once its token has reached the state.
unfoldable pub release : ℕ → WriteState → (Busy → Busy) → M Wmgr (Unit {0})
unfolding wstate_value
release p state f = do
  t ← tok p
  if leb (wstate_value state) (wstate_value t.wstate) then set_busy f else pure tt

-- `std::string((char*)xid_ptr, xid_len)`
abbrev pub xid_of : Option (List ℕ) → ℕ → Xid
xid_of xidp xid_len = take xid_len (bytes_at xidp)

-- The part of `enqueue` behind its checks.
unfoldable pub write_enqueue :
    Aio → Option (List ℕ) → ℕ → ℕ → Option (List ℕ) → ℕ → Bool → Bool → M Wmgr Iores
write_enqueue io data_buff tot_data_len p xidp xid_len transient external = do
  t ← tok p
  w ← get
  cont ← continued w.busy.enq_busy t.wstate WriteState.enq_part jerr_wmgr_enqdiscont
  rid ← next_rid (t.external_rid || cont) t.rid
  let r = Enq.reset rid data_buff tot_data_len xidp xid_len w.wrfc.owi transient external w.enq_rec
  (λ v. (ok tt, record v { enq_rec = r }))
  if cont
      then pure tt
      else set_tok p (λ t.
        DataTok.set_xid (xid_of xidp xid_len) (DataTok.set_dequeue_rid 0 (DataTok.set_rid rid t)))
        >> set_busy (λ b. record b { enq_busy = true })
  res ←
      write_loop io (suc (size_dblks (Enq.size_of r)))
        (record {
          p = p;
          rid = rid;
          encode = Enq.encode r;
          size = size_dblks (Enq.size_of r);
          complete = complete_enqueue p rid xid_len (xid_of xidp xid_len) tot_data_len;
          part = WriteState.enq_part;
        })
        (record { res = iores_success; cont = cont; done = false })
  release p WriteState.enq_subm (λ b. record b { enq_busy = false })
  pure res

unfoldable pub enqueue :
    Aio → Option (List ℕ) → ℕ → ℕ → ℕ → Option (List ℕ) → ℕ → Bool → Bool → M Wmgr Iores
enqueue io data_buff tot_data_len this_data_len p xidp xid_len transient external = do
  require (xid_len == 0 || not (is_null xidp)) assertion
  w ← get
  if w.busy.deq_busy || (w.busy.abort_busy || w.busy.commit_busy)
      then pure iores_busy
      else if not (this_data_len == tot_data_len) && not external
      then pure iores_notimpl
      else (do
        res ← pre_write_check op_enqueue p xid_len tot_data_len external
        if not (is_success res)
            then pure res
            else write_enqueue io data_buff tot_data_len p xidp xid_len transient external)

-- The first part of a dequeue that is not continued.
unfoldable pub start_dequeue : ℕ → Bool → ℕ → ℕ → Xid → M Wmgr (Unit {0})
start_dequeue p ext_rid rid dequeue_rid xid = do
  if ext_rid
      then pure tt
      else set_tok p (λ t. DataTok.set_dequeue_rid dequeue_rid (DataTok.set_rid rid t))
  set_tok p (DataTok.set_xid xid)
  dequeue_check xid dequeue_rid
  set_tok p (DataTok.set_dblocks_written 0)
  set_busy (λ b. record b { deq_busy = true })

-- The part of `dequeue` behind its checks.
unfoldable pub write_dequeue : Aio → ℕ → Option (List ℕ) → ℕ → Bool → M Wmgr Iores
write_dequeue io p xidp xid_len txn_coml_commit = do
  t ← tok p
  w ← get
  cont ← continued w.busy.deq_busy t.wstate WriteState.deq_part jerr_wmgr_deqdiscont
  rid ← next_rid (t.external_rid || cont) t.rid
  let dequeue_rid = (if t.external_rid || cont then t.dequeue_rid else t.rid)
  let r = Deq.reset rid dequeue_rid xidp xid_len w.wrfc.owi txn_coml_commit w.deq_rec
  (λ v. (ok tt, record v { deq_rec = r }))
  if cont then pure tt else start_dequeue p t.external_rid rid dequeue_rid (xid_of xidp xid_len)
  res ←
      write_loop io (suc (size_dblks (Deq.size_of r)))
        (record {
          p = p;
          rid = rid;
          encode = Deq.encode r;
          size = size_dblks (Deq.size_of r);
          complete = complete_dequeue p rid dequeue_rid xid_len (xid_of xidp xid_len);
          part = WriteState.deq_part;
        })
        (record { res = iores_success; cont = cont; done = false })
  release p WriteState.deq_subm (λ b. record b { deq_busy = false })
  pure res

unfoldable pub dequeue : Aio → ℕ → Option (List ℕ) → ℕ → Bool → M Wmgr Iores
dequeue io p xidp xid_len txn_coml_commit = do
  require (xid_len == 0 || not (is_null xidp)) assertion
  w ← get
  if w.busy.enq_busy || (w.busy.abort_busy || w.busy.commit_busy) then pure iores_busy else (do
    res ← pre_write_check op_dequeue p 0 0 false
    if not (is_success res) then pure res else write_dequeue io p xidp xid_len txn_coml_commit)

-- What `abort` and `commit` differ in.
abbrev pub end_magic : TxnEnd → ℕ
end_magic abort_txn = txa_magic
end_magic commit_txn = txc_magic

abbrev pub end_part : TxnEnd → WriteState
end_part abort_txn = WriteState.abort_part
end_part commit_txn = WriteState.commit_part

abbrev pub end_busy : TxnEnd → Busy → Bool
end_busy abort_txn b = b.abort_busy
end_busy commit_txn b = b.commit_busy

abbrev pub set_end_busy : TxnEnd → Bool → Busy → Busy
set_end_busy abort_txn f b = record b { abort_busy = f }
set_end_busy commit_txn f b = record b { commit_busy = f }

-- The part of `abort` and `commit` behind their checks.
unfoldable pub write_txn : Aio → TxnEnd → ℕ → Option (List ℕ) → ℕ → M Wmgr Iores
write_txn io e p xidp xid_len = do
  t ← tok p
  w ← get
  cont ← continued (end_busy e w.busy) t.wstate (end_part e) jerr_wmgr_deqdiscont
  rid ← next_rid (t.external_rid || cont) t.rid
  let r = Txn.reset (end_magic e) rid xidp xid_len w.wrfc.owi w.txn_rec
  (λ v. (ok tt, record v { txn_rec = r }))
  if cont
      then pure tt
      else set_tok p (λ t.
        DataTok.set_dblocks_written 0 (
          DataTok.set_xid (xid_of xidp xid_len)
            (DataTok.set_dequeue_rid 0 (DataTok.set_rid rid t))))
        >> set_busy (set_end_busy e true)
  res ←
      write_loop io (suc (size_dblks (Txn.size_of r)))
        (record {
          p = p;
          rid = rid;
          encode = Txn.encode r;
          size = size_dblks (Txn.size_of r);
          complete = complete_txn e p (xid_of xidp xid_len);
          part = end_part e;
        })
        (record { res = iores_success; cont = cont; done = false })
  release p (end_subm e) (set_end_busy e false)
  pure res

unfoldable pub abort : Aio → ℕ → Option (List ℕ) → ℕ → M Wmgr Iores
abort io p xidp xid_len = do
  require (not (is_null xidp) && ltb 0 xid_len) assertion
  w ← get
  if w.busy.enq_busy || (w.busy.deq_busy || w.busy.commit_busy) then pure iores_busy else (do
    res ← pre_write_check op_abort p 0 0 false
    if not (is_success res) then pure res else write_txn io abort_txn p xidp xid_len)

unfoldable pub commit : Aio → ℕ → Option (List ℕ) → ℕ → M Wmgr Iores
commit io p xidp xid_len = do
  require (not (is_null xidp) && ltb 0 xid_len) assertion
  w ← get
  if w.busy.enq_busy || (w.busy.deq_busy || w.busy.abort_busy) then pure iores_busy else (do
    res ← pre_write_check op_commit p 0 0 false
    if not (is_success res) then pure res else write_txn io commit_txn p xidp xid_len)
