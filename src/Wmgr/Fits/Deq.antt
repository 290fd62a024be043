-- ===== src/Wmgr/Fits/Deq.antt =====
-- `wmgr::dequeue` of lib/jrnl/wmgr.cpp keeps the cache and the file in step.
use qpid_cpp_store_debian.Prelude.{
  ℕ, suc, ◌+◌, ◌-◌, ◌/◌, ◌^◌, ◌≤◌, ◌<◌, ◌≡◌, refl, sym, subst, Bool, true, false, ◌||◌, ◌==◌,
  if◌then◌else◌, Option, List, length, ◌++◌, replicate, arith, inl, inr, dec_lt,
}
use qpid_cpp_store_debian.Prelude.Control.{ok, M, ◌>>=◌, ◌>>◌, pure, jerr_wmgr_deqdiscont}
use qpid_cpp_store_debian.Prelude.Control.Triple
use qpid_cpp_store_debian.Prelude.Control.Triple.{Triple, Holds}
use qpid_cpp_store_debian.EnqMap.{EnqMap}
use qpid_cpp_store_debian.TxnMap.{TxnMap}
use qpid_cpp_store_debian.Xid.{Xid}
use qpid_cpp_store_debian.DataTok
use qpid_cpp_store_debian.DataTok.{DataTok, WriteState}
use qpid_cpp_store_debian.Wrfc.{Iores, iores_success}
use qpid_cpp_store_debian.Records.{size_dblks, size_dblks_lem, clean_char}
use qpid_cpp_store_debian.Records.Copy.{bytes_at}
use qpid_cpp_store_debian.Records.Deq
use qpid_cpp_store_debian.Records.Deq.{DeqRec, deq_hdr_bytes}
use qpid_cpp_store_debian.Records.Deq.Encode.{IsSized, total_lem, encode_plain}
use qpid_cpp_store_debian.Records.Deq.Writer.{writer}
use qpid_cpp_store_debian.Wmgr.State.{Wmgr, Busy, Aio, set_tok, set_busy, update}
use qpid_cpp_store_debian.Wmgr.Checks.{op_dequeue, dequeue_check, dequeue_test}
use qpid_cpp_store_debian.Wmgr.Complete.{complete_dequeue}
use qpid_cpp_store_debian.Wmgr.Ops.{
  Job, write_loop, next_rid, release, xid_of, start_dequeue, write_dequeue,
}
use qpid_cpp_store_debian.Wmgr.Frame.{
  View, view, Only, Frames, fine, same, frame_tok, frame_if, frame_pure, frame_set_tok,
}
use qpid_cpp_store_debian.Wmgr.Frame.Complete.{frame_complete_dequeue}
use qpid_cpp_store_debian.Wmgr.Fits.Flush.{framed}
use qpid_cpp_store_debian.Wmgr.Fits.Check.{Writable}
use qpid_cpp_store_debian.Wmgr.Fits.Round.{IsSound, Encodes}
use qpid_cpp_store_debian.Wmgr.Fits.Begin.{
  Idle, renewed, writer-Encodes, idle_continued, frame_next_rid, loop-Ends, Count, Completes,
}

-- The arguments of `dequeue`: a buffer of an xid of that size, or none.
pub record IsOptXid (xidp : Option (List ℕ)) (xid_len : ℕ) : Type 0 where
  pub sized : xid_len ≡ length (bytes_at xidp)
  pub small : 44 + xid_len < 2 ^ 32 - 128

-- The data blocks of a dequeue record: without an xid it is a header.
abbrev pub deq_dblks : ℕ → ℕ
deq_dblks xid_len = if xid_len == 0 then 1 else (44 + xid_len + 127) / 128

-- What is known of a record that was reset.
record Fits (r : DeqRec) (xid_len : ℕ) : Type 0 where
  encodes : Encodes (Deq.encode r) (size_dblks (Deq.size_of r))
  total : size_dblks (Deq.size_of r) ≡ deq_dblks xid_len
  pos : 0 < size_dblks (Deq.size_of r)
  small : size_dblks (Deq.size_of r) < 2 ^ 31

plain-size : (r : DeqRec) → r.deq_hdr.xidsize ≡ 0 → size_dblks (Deq.size_of r) ≡ 1
unfolding Deq.rec_size
plain-size r e = ground (arith, e, size_dblks_lem 32)

plain-Encodes : (r : DeqRec) → r.deq_hdr.xidsize ≡ 0 → Encodes (Deq.encode r) 1
plain-Encodes r e offs m l pos small =
    let start : 0 ≡ offs = omega (arith, l) in
    (
      1,
      deq_hdr_bytes r.deq_hdr ++ replicate 96 clean_char,
      subst (λ o. Deq.encode r o m ≡ ok (1, deq_hdr_bytes r.deq_hdr ++ replicate 96 clean_char))
          start (encode_plain r m e pos),
      omega arith,
      omega (arith, pos),
      omega (arith, l),
    )

plain-Fits : (r : DeqRec) → r.deq_hdr.xidsize ≡ 0 → Fits r 0
plain-Fits r e = record {
  encodes = subst (Encodes (Deq.encode r)) (sym (plain-size r e)) (plain-Encodes r e);
  total = plain-size r e;
  pos = omega (arith, plain-size r e);
  small = omega (arith, plain-size r e);
}

xid-Fits : (r : DeqRec) (s : IsSized r) → Fits r r.deq_hdr.xidsize
xid-Fits r s = record {
  encodes = writer-Encodes (writer r s) (size_dblks (Deq.size_of r)) (sym (total_lem r s));
  total = ground (arith, total_lem r s, s.some_xid);
  pos = omega (arith, total_lem r s);
  small = omega (arith, total_lem r s, s.small);
}

module _ (io : Aio) (p : ℕ) (xidp : Option (List ℕ)) (xid_len : ℕ) (tcc : Bool)
    (x : IsOptXid xidp xid_len) where
  abbrev pub Starts : View → Type 0
  Starts = Writable p (Idle op_dequeue)

  abbrev reset_deq : ℕ → ℕ → Wmgr → DeqRec
  reset_deq rid drid w = Deq.reset rid drid xidp xid_len w.wrfc.owi tcc w.deq_rec

  reset_deq-Fits : (rid drid : ℕ) (w : Wmgr) → Fits (reset_deq rid drid w) xid_len
  unfolding Deq.reset
  reset_deq-Fits rid drid w = elim (dec_lt 0 xid_len) [
    | yes h ↦
        xid-Fits (reset_deq rid drid w)
          (record { xid_size = x.sized; some_xid = h; small = x.small })
    | no h ↦
        let none_given : xid_len ≡ 0 = omega (arith, h) in
        subst (Fits (reset_deq rid drid w)) (sym none_given)
          (plain-Fits (reset_deq rid drid w) none_given)
  ]

  abbrev deq_job : ℕ → ℕ → DeqRec → Job
  deq_job rid drid r = record {
    p = p;
    rid = rid;
    encode = Deq.encode r;
    size = size_dblks (Deq.size_of r);
    complete = complete_dequeue p rid drid xid_len (xid_of xidp xid_len);
    part = WriteState.deq_part;
  }

  deq_job-IsSound : (rid drid : ℕ) (r : DeqRec) → Fits r xid_len → IsSound (deq_job rid drid r)
  deq_job-IsSound rid drid r s = record {
    encodes = s.encodes;
    small = s.small;
    completes = λ P. frame_complete_dequeue p P p rid drid xid_len (xid_of xidp xid_len);
  }

  test-fine : (q : Xid) (drid : ℕ) (e : EnqMap) (t : TxnMap) → fine (dequeue_test q drid e t) ≡ true
  unfolding dequeue_test
  test-fine q drid e t = ground arith

  frame_check : (P : View → Type 0) (q : Xid) (drid : ℕ) → Frames p P (dequeue_check q drid)
  unfolding dequeue_check
  frame_check P q drid =
      same p P (dequeue_check q drid) (λ w. refl) (λ w. test-fine q drid w.emap w.tmap)

  abbrev begin_busy : Busy → Busy
  begin_busy b = record b { deq_busy = true }

  abbrev end_busy : Busy → Busy
  end_busy b = record b { deq_busy = false }

  zero_written :
      (toks : ℕ → DataTok)
      → (update toks p (DataTok.set_dblocks_written 0 (toks p)) p).dblks_written ≡ 0
  zero_written toks = ground arith

  begun :
      Triple
        (λ w. Starts (view p w))
        (set_tok p (DataTok.set_dblocks_written 0) >> set_busy begin_busy)
        (λ _ w. Writable p (Count op_dequeue 0) (view p w))
        Only
  begun = record {
    apply = λ w q.
        renewed p (Idle op_dequeue) (Count op_dequeue 0) (begin_busy w.busy)
          (update w.toks p (DataTok.set_dblocks_written 0 (w.toks p)) p).dblks_written (view p w) q
          (λ g. (g.0, zero_written w.toks, g.2));
  }

  started :
      (ext : Bool) (rid drid : ℕ) (q : Xid)
      → Triple
          (λ w. Starts (view p w))
          (start_dequeue p ext rid drid q)
          (λ _ w. Writable p (Count op_dequeue 0) (view p w))
          Only
  unfolding start_dequeue
  started ext rid drid q =
      Triple.seq
        (framed p Starts (
          frame_if p Starts ext (frame_pure p Starts tt) (
            frame_set_tok p Starts p (λ t. DataTok.set_dequeue_rid drid (DataTok.set_rid rid t))
              (λ t. refl))))
        (Triple.seq (framed p Starts (frame_set_tok p Starts p (DataTok.set_xid q) (λ t. refl)))
          (Triple.seq (framed p Starts (frame_check Starts q drid)) begun))

  deq_loop :
      (rid drid : ℕ) (r : DeqRec)
      → Fits r xid_len
      → Triple
          (λ w. Writable p (Count op_dequeue 0) (view p w))
          (write_loop io
              (suc (size_dblks (Deq.size_of r)))
              (deq_job rid drid r)
              (record { res = iores_success; cont = false; done = false })
            >>= (λ res. release p WriteState.deq_subm end_busy >> pure res))
          (λ res w. Completes p op_dequeue (deq_dblks xid_len) res (view p w))
          Only
  deq_loop rid drid r s =
      Triple.weaken
        (loop-Ends (deq_job rid drid r) op_dequeue (deq_job-IsSound rid drid r s) end_busy
          (λ b a. a) io WriteState.deq_subm
          (record { res = iores_success; cont = false; done = false }) 0 s.pos)
        (λ t q. q)
        (λ res t (k, le, f, o).
          (k, subst (λ n. k ≤ n) s.total le, λ g. subst (λ n. k ≡ n) s.total (f g), o))
        (λ a t q. q)

  abbrev put_deq : DeqRec → M Wmgr (Unit {0})
  put_deq r v = (ok tt, record v { deq_rec = r })

  -- What follows the choice of the record ids.
  abbrev rest_deq : Bool → Bool → ℕ → ℕ → DeqRec → M Wmgr Iores
  rest_deq ext cont rid drid r =
      put_deq r
      >> ((if cont then pure tt else start_dequeue p ext rid drid (xid_of xidp xid_len))
          >> (write_loop io (suc (size_dblks (Deq.size_of r))) (deq_job rid drid r)
                (record { res = iores_success; cont = cont; done = false })
              >>= (λ res. release p WriteState.deq_subm end_busy >> pure res)))

  frame_put_deq : (r : DeqRec) → Frames p Starts (put_deq r)
  frame_put_deq r = same p Starts (put_deq r) (λ w. refl) (λ w. refl)

  rest-Fits :
      (ext : Bool) (rid drid : ℕ) (r : DeqRec)
      → Fits r xid_len
      → Triple
          (λ w. Starts (view p w))
          (rest_deq ext false rid drid r)
          (λ res w. Completes p op_dequeue (deq_dblks xid_len) res (view p w))
          Only
  rest-Fits ext rid drid r s =
      Triple.seq (framed p Starts (frame_put_deq r))
        (Triple.seq (started ext rid drid (xid_of xidp xid_len)) (deq_loop rid drid r s))

  pub idle : (v : View) → Starts v → Idle op_dequeue v.busy v.written v.jfsize_pgs
  idle v (inl h, o, c) = h.other
  idle v (inr (f, c', g), o, c) = g

  pub written_deq :
      Triple
        (λ w. Starts (view p w))
        (write_dequeue io p xidp xid_len tcc)
        (λ res w. Completes p op_dequeue (deq_dblks xid_len) res (view p w))
        Only
  unfolding write_dequeue
  written_deq = Triple.bind (framed p Starts (frame_tok p Starts p)) (λ t. Triple.inspect (λ w h.
      idle_continued w.busy.deq_busy t.wstate WriteState.deq_part jerr_wmgr_deqdiscont
        (λ cont. next_rid (t.external_rid || cont) t.rid >>= (λ rid.
          (let drid = (if t.external_rid || cont then t.dequeue_rid else t.rid) in
            rest_deq t.external_rid cont rid drid (reset_deq rid drid w))))
        (idle (view p w) h).1
        (Triple.weaken
          (Triple.bind (framed p Starts (frame_next_rid p Starts (t.external_rid || false) t.rid))
            (λ rid.
              (let drid = (if t.external_rid || false then t.dequeue_rid else t.rid) in
                rest-Fits t.external_rid rid drid (reset_deq rid drid w)
                  (reset_deq-Fits rid drid w))))
          (λ s q. q.0) (λ a s q. q) (λ a s q. q))))
