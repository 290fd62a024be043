-- ===== src/Wmgr/Fits/Txn.antt =====
-- `wmgr::abort` and `wmgr::commit` of lib/jrnl/wmgr.cpp keep the cache and the file in step.
use qpid_cpp_store_debian.Prelude.{
  ℕ, suc, ◌+◌, ◌-◌, ◌/◌, ◌^◌, ◌<◌, ◌≡◌, refl, sym, Bool, true, false, ◌||◌, if◌then◌else◌, Option,
  List, length, arith, inl, inr,
}
use qpid_cpp_store_debian.Prelude.Control.{ok, M, ◌>>=◌, ◌>>◌, pure, jerr_wmgr_deqdiscont}
use qpid_cpp_store_debian.Prelude.Control.Triple
use qpid_cpp_store_debian.Prelude.Control.Triple.{Triple, Holds}
use qpid_cpp_store_debian.DataTok
use qpid_cpp_store_debian.DataTok.{DataTok, WriteState}
use qpid_cpp_store_debian.Wrfc.{Iores, iores_success}
use qpid_cpp_store_debian.Records.{size_dblks}
use qpid_cpp_store_debian.Records.Copy.{bytes_at}
use qpid_cpp_store_debian.Records.Txn
use qpid_cpp_store_debian.Records.Txn.{TxnRec}
use qpid_cpp_store_debian.Records.Txn.Encode.{IsSized, total_lem}
use qpid_cpp_store_debian.Records.Txn.Writer.{writer}
use qpid_cpp_store_debian.Wmgr.State.{Wmgr, Busy, Aio, set_tok, set_busy, update}
use qpid_cpp_store_debian.Wmgr.Checks.{OpType, op_abort, op_commit}
use qpid_cpp_store_debian.Wmgr.Complete.{TxnEnd, abort_txn, commit_txn, end_subm, complete_txn}
use qpid_cpp_store_debian.Wmgr.Ops.{
  Job, write_loop, next_rid, release, xid_of, end_magic, end_part, end_busy, set_end_busy,
  write_txn,
}
use qpid_cpp_store_debian.Wmgr.Frame.{View, view, Only, Frames, same, frame_tok}
use qpid_cpp_store_debian.Wmgr.Frame.Complete.{frame_complete_txn}
use qpid_cpp_store_debian.Wmgr.Fits.Flush.{framed}
use qpid_cpp_store_debian.Wmgr.Fits.Check.{Writable}
use qpid_cpp_store_debian.Wmgr.Fits.Round.{IsSound}
use qpid_cpp_store_debian.Wmgr.Fits.Begin.{
  own, others, Alone, Idle, renewed, writer-Encodes, idle_continued, frame_next_rid, loop-Ends,
  Count, Completes,
}

abbrev pub end_op : TxnEnd → OpType
end_op abort_txn = op_abort
end_op commit_txn = op_commit

end_busy-own : (e : TxnEnd) (b : Busy) → own (end_op e) b ≡ false → end_busy e b ≡ false
end_busy-own abort_txn b h = h
end_busy-own commit_txn b h = h

set_end_busy-Alone :
    (e : TxnEnd) (f : Bool) (b : Busy) → Alone (end_op e) b → Alone (end_op e) (set_end_busy e f b)
set_end_busy-Alone abort_txn f b h = h
set_end_busy-Alone commit_txn f b h = h

abbrev pub txn_job : TxnEnd → ℕ → ℕ → Option (List ℕ) → ℕ → TxnRec → Job
txn_job e p rid xidp xid_len r = record {
  p = p;
  rid = rid;
  encode = Txn.encode r;
  size = size_dblks (Txn.size_of r);
  complete = complete_txn e p (xid_of xidp xid_len);
  part = end_part e;
}

pub txn_job-IsSound :
    (e : TxnEnd) (p rid : ℕ) (xidp : Option (List ℕ)) (xid_len : ℕ) (r : TxnRec)
    → IsSized r
    → IsSound (txn_job e p rid xidp xid_len r)
txn_job-IsSound e p rid xidp xid_len r s = record {
  encodes = writer-Encodes (writer r s) (size_dblks (Txn.size_of r)) (sym (total_lem r s));
  small = omega (arith, total_lem r s, s.small);
  completes = λ P. frame_complete_txn p P e p (xid_of xidp xid_len);
}

size_pos : (r : TxnRec) → IsSized r → 0 < size_dblks (Txn.size_of r)
size_pos r s = omega (arith, total_lem r s)

-- The xid of the caller makes a record of the right size.
reset_sized :
    (magic rid : ℕ) (xidp : Option (List ℕ)) (xid_len : ℕ) (owi : Bool) (r : TxnRec)
    → xid_len ≡ length (bytes_at xidp)
    → 0 < xid_len
    → 36 + xid_len < 2 ^ 32 - 128
    → IsSized (Txn.reset magic rid xidp xid_len owi r)
unfolding Txn.reset
reset_sized magic rid xidp xid_len owi r h pos small = record {
  xid_size = h;
  some_xid = pos;
  small = small;
}

-- The data blocks of a commit or abort record.
abbrev pub txn_dblks : ℕ → ℕ
txn_dblks xid_len = (36 + xid_len + 127) / 128

-- The arguments of `abort` and `commit`: a buffer of an xid of that size.
pub record IsXid (xidp : Option (List ℕ)) (xid_len : ℕ) : Type 0 where
  pub sized : xid_len ≡ length (bytes_at xidp)
  pub pos : 0 < xid_len
  pub small : 36 + xid_len < 2 ^ 32 - 128

module _ (io : Aio) (e : TxnEnd) (p : ℕ) (xidp : Option (List ℕ)) (xid_len : ℕ)
    (x : IsXid xidp xid_len) where
  abbrev pub Starts : View → Type 0
  Starts = Writable p (Idle (end_op e))

  -- The token and the flag of an operation that begins.
  abbrev begin_tok : ℕ → DataTok → DataTok
  begin_tok rid t =
      DataTok.set_dblocks_written 0
        (DataTok.set_xid (xid_of xidp xid_len) (DataTok.set_dequeue_rid 0 (DataTok.set_rid rid t)))

  begins :
      (rid : ℕ) (w : Wmgr)
      → Starts (view p w)
      → Writable p (Count (end_op e) 0) (
          view p (record w {
            toks = update w.toks p (begin_tok rid (w.toks p));
            busy = set_end_busy e true w.busy;
          }))
  begins rid w h =
      renewed p (Idle (end_op e)) (Count (end_op e) 0) (set_end_busy e true w.busy)
        (update w.toks p (begin_tok rid (w.toks p)) p).dblks_written (view p w) h
        (λ g. (set_end_busy-Alone e true w.busy g.0, ground arith, g.2))

  -- The loop on a record, and its outcome as the caller sees it.
  txn_loop :
      (rid : ℕ) (r : TxnRec)
      → IsSized r
      → r.txn_hdr.xidsize ≡ xid_len
      → Triple
          (λ w. Writable p (Count (end_op e) 0) (view p w))
          (write_loop io
              (suc (size_dblks (Txn.size_of r)))
              (txn_job e p rid xidp xid_len r)
              (record { res = iores_success; cont = false; done = false })
            >>= (λ res. release p (end_subm e) (set_end_busy e false) >> pure res))
          (λ res w. Completes p (end_op e) (txn_dblks xid_len) res (view p w))
          Only
  txn_loop rid r s h =
      Triple.weaken
        (loop-Ends (txn_job e p rid xidp xid_len r) (end_op e)
          (txn_job-IsSound e p rid xidp xid_len r s) (set_end_busy e false)
          (set_end_busy-Alone e false) io (end_subm e)
          (record { res = iores_success; cont = false; done = false }) 0 (size_pos r s))
        (λ t q. q)
        (λ res t (k, le, f, o).
          (k, omega (arith, le, total_lem r s, h), λ g. omega (arith, f g, total_lem r s, h), o))
        (λ a t q. q)

  abbrev reset_txn : ℕ → Wmgr → TxnRec
  reset_txn rid w = Txn.reset (end_magic e) rid xidp xid_len w.wrfc.owi w.txn_rec

  reset_txn-IsSized : (rid : ℕ) (w : Wmgr) → IsSized (reset_txn rid w)
  reset_txn-IsSized rid w =
      reset_sized (end_magic e) rid xidp xid_len w.wrfc.owi w.txn_rec x.sized x.pos x.small

  reset_txn-size : (rid : ℕ) (w : Wmgr) → (reset_txn rid w).txn_hdr.xidsize ≡ xid_len
  unfolding Txn.reset
  reset_txn-size rid w = refl

  abbrev put_txn : TxnRec → M Wmgr (Unit {0})
  put_txn r v = (ok tt, record v { txn_rec = r })

  -- What follows the choice of the record id.
  abbrev rest_txn : Bool → ℕ → TxnRec → M Wmgr Iores
  rest_txn cont rid r =
      put_txn r
      >> ((if cont then pure tt else set_tok p (begin_tok rid) >> set_busy (set_end_busy e true))
          >> (write_loop io (suc (size_dblks (Txn.size_of r))) (txn_job e p rid xidp xid_len r)
                (record { res = iores_success; cont = cont; done = false })
              >>= (λ res. release p (end_subm e) (set_end_busy e false) >> pure res)))

  frame_put_txn : (r : TxnRec) → Frames p Starts (put_txn r)
  frame_put_txn r = same p Starts (put_txn r) (λ w. refl) (λ w. refl)

  begun :
      (rid : ℕ)
      → Triple
          (λ w. Starts (view p w))
          (set_tok p (begin_tok rid) >> set_busy (set_end_busy e true))
          (λ _ w. Writable p (Count (end_op e) 0) (view p w))
          Only
  begun rid = record { apply = λ w q. begins rid w q }

  rest-Fits :
      (rid : ℕ) (r : TxnRec)
      → IsSized r
      → r.txn_hdr.xidsize ≡ xid_len
      → Triple
          (λ w. Starts (view p w))
          (rest_txn false rid r)
          (λ res w. Completes p (end_op e) (txn_dblks xid_len) res (view p w))
          Only
  rest-Fits rid r s h =
      Triple.seq (framed p Starts (frame_put_txn r)) (Triple.seq (begun rid) (txn_loop rid r s h))

  idle_own : (v : View) → Starts v → own (end_op e) v.busy ≡ false
  idle_own v (inl h, o, c) = h.other.1
  idle_own v (inr (f, c', g), o, c) = g.1

  pub idle_others : (v : View) → Starts v → others (end_op e) v.busy ≡ false
  idle_others v (inl h, o, c) = h.other.0
  idle_others v (inr (f, c', g), o, c) = g.0

  pub written_txn :
      Triple
        (λ w. Starts (view p w))
        (write_txn io e p xidp xid_len)
        (λ res w. Completes p (end_op e) (txn_dblks xid_len) res (view p w))
        Only
  unfolding write_txn
  written_txn = Triple.bind (framed p Starts (frame_tok p Starts p)) (λ t. Triple.inspect (λ w h.
      idle_continued (end_busy e w.busy) t.wstate (end_part e) jerr_wmgr_deqdiscont
        (λ cont.
          next_rid (t.external_rid || cont) t.rid >>= (λ rid. rest_txn cont rid (reset_txn rid w)))
        (end_busy-own e w.busy (idle_own (view p w) h))
        (Triple.weaken
          (Triple.bind (framed p Starts (frame_next_rid p Starts (t.external_rid || false) t.rid))
            (λ rid.
              rest-Fits rid (reset_txn rid w) (reset_txn-IsSized rid w) (reset_txn-size rid w)))
          (λ s q. q.0) (λ a s q. q) (λ a s q. q))))
