-- ===== src/Wmgr/Frame/Events.antt =====
-- The events of lib/jrnl/wmgr.cpp leave the flags and the positions alone.
use qpid_cpp_store_debian.Prelude.{
  ℕ, ◌+◌, ◌-◌, ◌≡◌, refl, Bool, true, false, ◌&&◌, Option, none, some, List, [], ◌∷◌, get_elem?,
  inl, inr, Bool-cases, ◌==◌, arith, ℤ, pos, negsuc, ◌⊎◌,
}
use qpid_cpp_store_debian.Prelude.Control.{
  ok, M, ◌>>=◌, ◌>>◌, pure, undefined, jerr_aio, jerr_underflow, jerr_wmgr_baddtokstate,
}
use qpid_cpp_store_debian.Prelude.Control.Triple.{Holds}
use qpid_cpp_store_debian.Xid.{Xid, xid_key}
use qpid_cpp_store_debian.Fcntl
use qpid_cpp_store_debian.Fcntl.{Fcntl}
use qpid_cpp_store_debian.DataTok
use qpid_cpp_store_debian.DataTok.{DataTok, WriteState}
use qpid_cpp_store_debian.FileHdr.{FileHdr}
use qpid_cpp_store_debian.Wmgr.State.{
  Wmgr, PageState, Aio, AioEvent, AioObj, page_io, header_io, Reply, tok, set_tok, on_file_at,
}
use qpid_cpp_store_debian.Wmgr.Events.{
  set_compl, erase_pending, complete_tok, return_tok, return_toks, call_back, written, return_page,
  return_header, return_event, return_events, handle_reply, get_events, is_nil,
}
use qpid_cpp_store_debian.Wmgr.Frame.{
  View, Frames, same, frame_bind, frame_seq, frame_pure, frame_get, frame_raise, frame_require,
  frame_if, frame_tok, frame_outside, frame_set_tok, frame_page_at, frame_put_page, frame_with_tok,
  position, view, allowed, fine,
}
use qpid_cpp_store_debian.Wmgr.Frame.Files.{frame_on_file_at}

cmpl-position :
    (n : ℕ) (f : Fcntl) → position (some (Fcntl.add_wr_cmpl_cnt_dblks n f).1) ≡ position (some f)
unfolding Fcntl.add_wr_cmpl_cnt_dblks
cmpl-position n f = ground arith

cmpl-fine : (n : ℕ) (f : Fcntl) → fine (Fcntl.add_wr_cmpl_cnt_dblks n f).0 ≡ true
unfolding Fcntl.add_wr_cmpl_cnt_dblks
cmpl-fine n f = ground arith

aio-position : (f : Fcntl) → position (some (Fcntl.decr_aio_cnt f).1) ≡ position (some f)
unfolding Fcntl.decr_aio_cnt
aio-position f = ground arith

aio-fine : (f : Fcntl) → fine (Fcntl.decr_aio_cnt f).0 ≡ true
unfolding Fcntl.decr_aio_cnt
aio-fine f = ground arith

decr_pg_cnt-written : (t : DataTok) → (DataTok.decr_pg_cnt t).1.dblks_written ≡ t.dblks_written
unfolding DataTok.decr_pg_cnt
decr_pg_cnt-written t = ground arith

decr_pg_cnt-fine : (t : DataTok) → fine (DataTok.decr_pg_cnt t).0 ≡ true
unfolding DataTok.decr_pg_cnt
decr_pg_cnt-fine t = ground arith

module _ (p : ℕ) (P : View → Type 0) where
  frame_set_compl : (t : DataTok) → Frames p P (set_compl t)
  unfolding set_compl
  frame_set_compl t = same p P (set_compl t) (λ w. ground arith) (λ w. ground arith)

  frame_erase_pending : (xid : Xid) → Frames p P (erase_pending xid)
  unfolding erase_pending
  frame_erase_pending xid = same p P (erase_pending xid) (λ w. ground arith) (λ w. ground arith)

  frame_reach :
      (q : ℕ) (s : WriteState) (m : DataTok → M Wmgr (Unit {0}))
      → ((t : DataTok) → Frames p P (m t))
      → Frames p P (set_tok q (DataTok.set_wstate s) >> (tok q >>= (λ t. m t >> pure true)))
  frame_reach q s m h =
      frame_seq p P (frame_set_tok p P q (DataTok.set_wstate s) (λ t. refl))
        (frame_bind p P (frame_tok p P q) (λ t. frame_seq p P (h t) (frame_pure p P true)))

  frame_complete_tok : (q : ℕ) (s : WriteState) → Frames p P (complete_tok q s)
  unfolding complete_tok
  frame_complete_tok q WriteState.enq_subm = frame_reach q WriteState.enq set_compl frame_set_compl
  frame_complete_tok q WriteState.deq_subm = frame_reach q WriteState.deq set_compl frame_set_compl
  frame_complete_tok q WriteState.abort_subm =
      frame_reach q WriteState.aborted (λ t. erase_pending t.xid) (λ t. frame_erase_pending t.xid)
  frame_complete_tok q WriteState.commit_subm =
      frame_reach q WriteState.committed (λ t. erase_pending t.xid) (λ t. frame_erase_pending t.xid)
  frame_complete_tok q WriteState.enq_part = frame_pure p P false
  frame_complete_tok q WriteState.deq_part = frame_pure p P false
  frame_complete_tok q WriteState.abort_part = frame_pure p P false
  frame_complete_tok q WriteState.commit_part = frame_pure p P false
  frame_complete_tok q _ = frame_raise p P jerr_wmgr_baddtokstate refl

  frame_return_tok : (q : ℕ) → Frames p P (return_tok q)
  unfolding return_tok
  frame_return_tok q =
      frame_bind p P (frame_with_tok p P q DataTok.decr_pg_cnt decr_pg_cnt-written decr_pg_cnt-fine)
        (λ n.
          frame_bind p P (frame_tok p P q)
            (λ t. frame_if p P (n == 0) (frame_complete_tok q t.wstate) (frame_pure p P false)))

  frame_return_toks : (qs dtokl : List ℕ) (tot : ℕ) → Frames p P (return_toks qs dtokl tot)
  unfolding return_toks
  frame_return_toks [] dtokl tot = frame_pure p P (dtokl, tot)
  frame_return_toks (q ∷ qs) dtokl tot =
      frame_bind p P (frame_return_tok q) (λ b. frame_return_toks qs _ _)

  frame_call_back : (dtokl : List ℕ) (tot : ℕ) → Frames p P (call_back dtokl tot)
  frame_call_back dtokl tot = same p P (call_back dtokl tot) (λ w. ground arith) (λ w. ground arith)

  frame_written : (i : Option ℕ) (n : ℕ) → Frames p P (written i n)
  unfolding written
  frame_written none n = frame_raise p P undefined refl
  frame_written (some i) n =
      frame_bind p P
        (frame_on_file_at p P i (Fcntl.add_wr_cmpl_cnt_dblks n) (cmpl-position n) (cmpl-fine n))
        (λ _.
          frame_bind p P (frame_on_file_at p P i Fcntl.decr_aio_cnt aio-position aio-fine)
            (λ _. frame_pure p P tt))

  frame_return_page : (s : PageState) (i tot : ℕ) → Frames p P (return_page s i tot)
  unfolding return_page
  frame_return_page s i tot = frame_bind p P (frame_page_at p P i) (λ g.
      frame_bind p P (frame_return_toks g.pdtokl [] tot) (λ r.
        frame_seq p P (frame_written g.wfh g.wdblks) (
          frame_seq p P (frame_put_page p P i _)
            (frame_seq p P (frame_call_back r.0 r.1) (frame_pure p P r.1)))))

  -- The header write of a file that is known.
  frame_header :
      (i : ℕ)
      → Frames p P (
          on_file_at i (Fcntl.add_wr_cmpl_cnt_dblks 4) >>= (λ _.
            on_file_at i Fcntl.decr_aio_cnt
            >>= (λ _. on_file_at i (λ f. (ok tt, Fcntl.set_wr_fhdr_aio_outstanding false f)))))
  frame_header i =
      frame_bind p P
        (frame_on_file_at p P i (Fcntl.add_wr_cmpl_cnt_dblks 4) (cmpl-position 4) (cmpl-fine 4))
        (λ _.
          frame_bind p P (frame_on_file_at p P i Fcntl.decr_aio_cnt aio-position aio-fine)
            (λ _. frame_on_file_at p P i _ (λ f. refl) (λ f. refl)))

  frame_return_header : (i : ℕ) → Frames p P (return_header i)
  unfolding return_header
  frame_return_header i = record { apply = λ w h. pick w h (get_elem? w.fhdr_arr i) refl }
    where
      pick :
          (w : Wmgr)
          → P (view p w)
          → (o : Option (Option FileHdr)) → get_elem? w.fhdr_arr i ≡ o
          → Holds
              (λ _ v. P (view p v))
              (λ e v. P (view p v) × (allowed e ≡ true))
              (return_header i w).0
              (return_header i w).1
      pick w h none e = rw (e, return_header) (h, refl)
      pick w h (some none) e = rw (e, return_header) (h, refl)
      pick w h (some (some d)) e = rw (e, return_header) ((frame_header d.lfid).apply w h)

  frame_return_event : (s : PageState) (e : AioEvent) (tot : ℕ) → Frames p P (return_event s e tot)
  frame_return_event s e tot = pick e.res e.obj
    where
      pick : (r : ℤ) (o : AioObj) → Frames p P (return_event s (record { obj = o; res = r }) tot)
      pick (negsuc n) o = unfold return_event in frame_raise p P jerr_aio refl
      pick (pos n) (page_io i) = unfold return_event in frame_return_page s i tot
      pick (pos n) (header_io i) =
          unfold return_event in frame_seq p P (frame_return_header i) (frame_pure p P tot)

  frame_return_events :
      (s : PageState) (es : List AioEvent) (tot : ℕ) → Frames p P (return_events s es tot)
  unfolding return_events
  frame_return_events s [] tot = frame_pure p P tot
  frame_return_events s (e ∷ es) tot = frame_bind p P (frame_get p P) (λ w.
      frame_seq p P (frame_require p P _ jerr_underflow refl) (
        frame_seq p P (frame_outside p P (λ o. record o { aio_evt_rem = o.aio_evt_rem - 1 }))
          (frame_bind p P (frame_return_event s e tot) (λ t. frame_return_events s es t))))

  frame_handle_reply :
      (s : PageState) (timeout : Bool) (r : Reply) → Frames p P (handle_reply s timeout r)
  unfolding handle_reply
  frame_handle_reply s timeout Reply.interrupted = frame_pure p P (pos 0)
  frame_handle_reply s timeout Reply.failed = frame_raise p P jerr_aio refl
  frame_handle_reply s timeout (Reply.events es) =
      frame_if p P (is_nil es && timeout) (frame_pure p P _)
        (frame_bind p P (frame_return_events s es 0) (λ t. frame_pure p P (pos t)))

  pub frame_get_events :
      (io : Aio) (s : PageState) (timeout flush : Bool) → Frames p P (get_events io s timeout flush)
  unfolding get_events
  frame_get_events io s timeout flush = record {
    apply = λ w h. pick w h (Bool-cases (w.outside.aio_evt_rem == 0));
  }
    where
      pick :
          (w : Wmgr)
          → P (view p w)
          → ((w.outside.aio_evt_rem == 0) ≡ true) ⊎ ((w.outside.aio_evt_rem == 0) ≡ false)
          → Holds
              (λ _ v. P (view p v))
              (λ e v. P (view p v) × (allowed e ≡ true))
              (get_events io s timeout flush w).0
              (get_events io s timeout flush w).1
      pick w h (inl e) = rw (e, get_events) h
      pick w h (inr e) =
          rw (e, get_events)
            ((frame_handle_reply s timeout _).apply
              (record w { outside = record w.outside { calls = w.outside.calls + 1 } }) h)
