-- ===== src/Wmgr/Fits/Enq.antt =====
-- `wmgr::enqueue` of lib/jrnl/wmgr.cpp keeps the cache and the file in step.
use qpid_cpp_store_debian.Prelude.{
  ℕ, suc, ◌+◌, ◌-◌, ◌/◌, ◌^◌, ◌<◌, ◌≡◌, refl, sym, Bool, true, false, ◌||◌, if◌then◌else◌, Option,
  List, length, arith, inl, inr,
}
use qpid_cpp_store_debian.Prelude.Bits.{cleared_32}
use qpid_cpp_store_debian.Prelude.Control.{ok, M, ◌>>=◌, ◌>>◌, pure, jerr_wmgr_enqdiscont}
use qpid_cpp_store_debian.Prelude.Control.Triple
use qpid_cpp_store_debian.Prelude.Control.Triple.{Triple, Holds}
use qpid_cpp_store_debian.DataTok
use qpid_cpp_store_debian.DataTok.{DataTok, WriteState, is_writable}
use qpid_cpp_store_debian.Wrfc.{Iores, iores_success}
use qpid_cpp_store_debian.Records.{size_dblks, put_flag, owi_mask}
use qpid_cpp_store_debian.Records.Copy.{bytes_at}
use qpid_cpp_store_debian.Records.Enq
use qpid_cpp_store_debian.Records.Enq.{EnqRec, is_external}
use qpid_cpp_store_debian.Records.Enq.Encode.{IsSized, dblks_in, total_lem}
use qpid_cpp_store_debian.Records.Enq.Writer.{writer}
use qpid_cpp_store_debian.Wmgr.State.{Wmgr, Busy, Aio, set_tok, set_busy, update}
use qpid_cpp_store_debian.Wmgr.Checks.{op_enqueue}
use qpid_cpp_store_debian.Wmgr.Complete.{complete_enqueue}
use qpid_cpp_store_debian.Wmgr.Ops.{Job, write_loop, next_rid, release, xid_of, write_enqueue}
use qpid_cpp_store_debian.Wmgr.Frame.{View, view, Only, Frames, same, frame_tok}
use qpid_cpp_store_debian.Wmgr.Frame.Complete.{frame_complete_enqueue}
use qpid_cpp_store_debian.Wmgr.Fits.Flush.{framed}
use qpid_cpp_store_debian.Wmgr.Fits.Check.{Writable}
use qpid_cpp_store_debian.Wmgr.Fits.Round.{IsSound}
use qpid_cpp_store_debian.Wmgr.Fits.Begin.{
  own, others, Idle, renewed, writer-Encodes, idle_continued, frame_next_rid, loop-Ends, Count,
  Completes,
}

-- The arguments of `enqueue`: all of the data at once, and buffers of the sizes given.
pub record IsMessage (buff : Option (List ℕ)) (len : ℕ) (xidp : Option (List ℕ)) (xid_len : ℕ)
    : Type 0 where
  pub data_sized : len ≡ length (bytes_at buff)
  pub xid_sized : xid_len ≡ length (bytes_at xidp)
  pub small : 44 + xid_len + len < 2 ^ 32 - 128

-- The data blocks of an enqueue record.
abbrev pub enq_dblks : ℕ → ℕ → ℕ
enq_dblks xid_len len = (44 + xid_len + len + 127) / 128

-- No operation is in progress, and nothing is written of the token's record.
abbrev pub Unwritten : Busy → ℕ → ℕ → Type 0
Unwritten b n pgs = Idle op_enqueue b n pgs × (n ≡ 0)

module _ (io : Aio) (buff : Option (List ℕ)) (len p : ℕ) (xidp : Option (List ℕ)) (xid_len : ℕ)
    (transient : Bool) (x : IsMessage buff len xidp xid_len) where
  abbrev pub Starts : View → Type 0
  Starts = Writable p Unwritten

  abbrev reset_enq : ℕ → Wmgr → EnqRec
  reset_enq rid w = Enq.reset rid buff len xidp xid_len w.wrfc.owi transient false w.enq_rec

  internal : (rid : ℕ) (w : Wmgr) → is_external (reset_enq rid w).enq_hdr ≡ false
  unfolding Enq.reset
  internal rid w =
      rw
        (cleared_32 (
          put_flag Enq.transient_mask transient
            (put_flag owi_mask w.wrfc.owi w.enq_rec.enq_hdr.hdr.uflag)))
        refl

  sized : (rid : ℕ) (w : Wmgr) → IsSized (reset_enq rid w)
  unfolding Enq.reset
  sized rid w = record { xid_size = x.xid_sized; data_size = x.data_sized; small = x.small }

  dblks : (rid : ℕ) (w : Wmgr) → dblks_in (reset_enq rid w) ≡ enq_dblks xid_len len
  unfolding Enq.reset
  dblks rid w = refl

  abbrev enq_job : ℕ → EnqRec → Job
  enq_job rid r = record {
    p = p;
    rid = rid;
    encode = Enq.encode r;
    size = size_dblks (Enq.size_of r);
    complete = complete_enqueue p rid xid_len (xid_of xidp xid_len) len;
    part = WriteState.enq_part;
  }

  enq_job-IsSound :
      (rid : ℕ) (r : EnqRec) → IsSized r → is_external r.enq_hdr ≡ false → IsSound (enq_job rid r)
  enq_job-IsSound rid r s i = record {
    encodes = writer-Encodes (writer r s i) (size_dblks (Enq.size_of r)) (sym (total_lem r s i));
    small = omega (arith, total_lem r s i, s.small);
    completes = λ P. frame_complete_enqueue p P p rid xid_len (xid_of xidp xid_len) len;
  }

  -- The token and the flag of an operation that begins.
  abbrev begin_tok : ℕ → DataTok → DataTok
  begin_tok rid t =
      DataTok.set_xid (xid_of xidp xid_len) (DataTok.set_dequeue_rid 0 (DataTok.set_rid rid t))

  abbrev begin_busy : Busy → Busy
  begin_busy b = record b { enq_busy = true }

  abbrev end_busy : Busy → Busy
  end_busy b = record b { enq_busy = false }

  same_written :
      (rid n : ℕ) (toks : ℕ → DataTok)
      → (toks p).dblks_written ≡ n
      → (update toks p (begin_tok rid (toks p)) p).dblks_written ≡ n
  same_written rid n toks h = ground (arith, h)

  begun :
      (rid : ℕ)
      → Triple
          (λ w. Starts (view p w))
          (set_tok p (begin_tok rid) >> set_busy begin_busy)
          (λ _ w. Writable p (Count op_enqueue 0) (view p w))
          Only
  begun rid = record {
    apply = λ w q.
        renewed p Unwritten (Count op_enqueue 0) (begin_busy w.busy)
          (update w.toks p (begin_tok rid (w.toks p)) p).dblks_written (view p w) q
          (λ g. (g.0.0, same_written rid 0 w.toks g.1, g.0.2));
  }

  -- The loop on a record, and its outcome as the caller sees it.
  enq_loop :
      (rid : ℕ) (r : EnqRec)
      → IsSized r
      → is_external r.enq_hdr ≡ false
      → dblks_in r ≡ enq_dblks xid_len len
      → Triple
          (λ w. Writable p (Count op_enqueue 0) (view p w))
          (write_loop io
              (suc (size_dblks (Enq.size_of r)))
              (enq_job rid r)
              (record { res = iores_success; cont = false; done = false })
            >>= (λ res. release p WriteState.enq_subm end_busy >> pure res))
          (λ res w. Completes p op_enqueue (enq_dblks xid_len len) res (view p w))
          Only
  enq_loop rid r s i h =
      Triple.weaken
        (loop-Ends (enq_job rid r) op_enqueue (enq_job-IsSound rid r s i) end_busy (λ b a. a) io
          WriteState.enq_subm (record { res = iores_success; cont = false; done = false }) 0
          (omega (arith, total_lem r s i)))
        (λ t q. q)
        (λ res t (k, le, f, o). (
          k,
          omega (arith, le, total_lem r s i, h),
          λ g. omega (arith, f g, total_lem r s i, h),
          o,
        ))
        (λ a t q. q)

  abbrev put_enq : EnqRec → M Wmgr (Unit {0})
  put_enq r v = (ok tt, record v { enq_rec = r })

  -- What follows the choice of the record id.
  abbrev rest_enq : Bool → ℕ → EnqRec → M Wmgr Iores
  rest_enq cont rid r =
      put_enq r
      >> ((if cont then pure tt else set_tok p (begin_tok rid) >> set_busy begin_busy)
          >> (write_loop io (suc (size_dblks (Enq.size_of r))) (enq_job rid r)
                (record { res = iores_success; cont = cont; done = false })
              >>= (λ res. release p WriteState.enq_subm end_busy >> pure res)))

  frame_put_enq : (r : EnqRec) → Frames p Starts (put_enq r)
  frame_put_enq r = same p Starts (put_enq r) (λ w. refl) (λ w. refl)

  rest-Fits :
      (rid : ℕ) (r : EnqRec)
      → IsSized r
      → is_external r.enq_hdr ≡ false
      → dblks_in r ≡ enq_dblks xid_len len
      → Triple
          (λ w. Starts (view p w))
          (rest_enq false rid r)
          (λ res w. Completes p op_enqueue (enq_dblks xid_len len) res (view p w))
          Only
  rest-Fits rid r s i h =
      Triple.seq (framed p Starts (frame_put_enq r)) (Triple.seq (begun rid) (enq_loop rid r s i h))

  idle : (v : View) → Starts v → Unwritten v.busy v.written v.jfsize_pgs
  idle v (inl h, o, c) = h.other
  idle v (inr (f, c', g), o, c) = g

  pub idle_others : (v : View) → Starts v → others op_enqueue v.busy ≡ false
  idle_others v h = (idle v h).0.0

  pub idle_own : (v : View) → Starts v → own op_enqueue v.busy ≡ false
  idle_own v h = (idle v h).0.1

  pub written_enq :
      Triple
        (λ w. Starts (view p w))
        (write_enqueue io buff len p xidp xid_len transient false)
        (λ res w. Completes p op_enqueue (enq_dblks xid_len len) res (view p w))
        Only
  unfolding write_enqueue
  written_enq = Triple.bind (framed p Starts (frame_tok p Starts p)) (λ t. Triple.inspect (λ w h.
      idle_continued w.busy.enq_busy t.wstate WriteState.enq_part jerr_wmgr_enqdiscont
        (λ cont.
          next_rid (t.external_rid || cont) t.rid >>= (λ rid. rest_enq cont rid (reset_enq rid w)))
        (idle_own (view p w) h)
        (Triple.weaken
          (Triple.bind (framed p Starts (frame_next_rid p Starts (t.external_rid || false) t.rid))
            (λ rid. rest-Fits rid (reset_enq rid w) (sized rid w) (internal rid w) (dblks rid w)))
          (λ s q. q.0) (λ a s q. q) (λ a s q. q))))
