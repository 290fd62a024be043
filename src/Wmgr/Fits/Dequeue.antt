-- ===== src/Wmgr/Fits/Dequeue.antt =====
-- `wmgr::dequeue` of lib/jrnl/wmgr.cpp, from its checks to its result.
use qpid_cpp_store_debian.Prelude.{
  ℕ, ◌<◌, ◌≡◌, refl, Bool, true, false, not, ◌||◌, ◌==◌, Option, none, some, List, if◌then◌else◌,
  arith, inl, inr,
}
use qpid_cpp_store_debian.Prelude.Control.{pure, assertion, jerr_wmgr_baddtokstate}
use qpid_cpp_store_debian.Prelude.Control.Triple
use qpid_cpp_store_debian.Prelude.Control.Triple.{Triple, Holds}
use qpid_cpp_store_debian.DataTok.{DataTok, is_dequeueable}
use qpid_cpp_store_debian.Wrfc.{Iores, iores_busy, iores_success}
use qpid_cpp_store_debian.Records.Copy.{is_null}
use qpid_cpp_store_debian.Wmgr.State.{Wmgr, Busy, Aio}
use qpid_cpp_store_debian.Wmgr.Flush.{is_success}
use qpid_cpp_store_debian.Wmgr.Checks.{op_dequeue, op_check}
use qpid_cpp_store_debian.Wmgr.Ops.{write_dequeue, dequeue}
use qpid_cpp_store_debian.Wmgr.Frame.{
  View, view, Only, Frames, frame_pure, frame_seq, frame_require,
}
use qpid_cpp_store_debian.Wmgr.Fits.Check.{Writable}
use qpid_cpp_store_debian.Wmgr.Fits.Begin.{others, Idle, Begins, Passed, Attempts, checked_first}
use qpid_cpp_store_debian.Wmgr.Fits.Deq.{IsOptXid, deq_dblks, idle, written_deq}

idle_pgs : (b : Busy) (n pgs : ℕ) → Idle op_dequeue b n pgs → 0 < pgs
idle_pgs b n pgs g = g.2

frame_op : (p : ℕ) (P : View → Type 0) (t : DataTok) → Frames p P (op_check op_dequeue t 0 0 false)
unfolding op_check
frame_op p P t =
    frame_seq p P (frame_require p P (is_dequeueable t) jerr_wmgr_baddtokstate refl)
      (frame_pure p P iores_success)

-- The check of the arguments.
xid_given :
    (xidp : Option (List ℕ)) (n : ℕ) → IsOptXid xidp n → (n == 0 || not (is_null xidp)) ≡ true
xid_given none n x = ground (arith, x.sized)
xid_given (some bytes) n x = ground arith

module _ (io : Aio) (p : ℕ) (xidp : Option (List ℕ)) (xid_len : ℕ) (tcc : Bool)
    (x : IsOptXid xidp xid_len) where
  attempt :
      (res : Iores)
      → Triple
          (λ w. Passed p (Idle op_dequeue) idle_pgs (is_success res) (view p w))
          (if not (is_success res) then pure res else write_dequeue io p xidp xid_len tcc)
          (λ r w. Attempts p (Idle op_dequeue) op_dequeue (deq_dblks xid_len) r (view p w))
          Only
  attempt res =
      Triple.choose (not (is_success res)) {m = pure res}
        (λ n. Triple.returned res (λ s h. inr (ground (arith, n), h.0)))
        (λ n.
          Triple.weaken (written_deq io p xidp xid_len tcc x) (λ s h. h.1 (ground (arith, n)))
            (λ r s h. inl h) (λ r s h. h))

  alone : (w : Wmgr) → Begins p (Idle op_dequeue) w → others op_dequeue w.busy ≡ false
  alone w (inl (h, r)) = (idle io p xidp xid_len tcc x (view p w) h).0
  alone w (inr ((full, h), r)) = h.other.0

  -- `dequeue` of a record, with the xid of a transaction or none, begun while no operation is in
  -- progress, with the page cache either in step with the current file, and the flag that this file
  -- was reset set, or in step with the next file, which is not reset yet, and the flag cleared (not
  -- as it is after a rotation that found AIOs outstanding, when the flag is set for a file that was
  -- not reset), comes to an end without a write past the end of a file. Whatever the AIO library
  -- answers, the cache is then in step with the file again, no other operation is in progress, and
  -- on a success the whole record is written. Other errors of the code may be thrown. The buffer of
  -- the xid has the size given, and the record is below 4 GB. The files are all of the same size,
  -- one header and whole pages, and the sizes of pages and files do not wrap around.
  pub dequeue-Attempts :
      Triple
        (Begins p (Idle op_dequeue))
        (dequeue io p xidp xid_len tcc)
        (λ res w. Attempts p (Idle op_dequeue) op_dequeue (deq_dblks xid_len) res (view p w))
        Only
  unfolding dequeue
  dequeue-Attempts =
      Triple.passes (xid_len == 0 || not (is_null xidp)) assertion (xid_given xidp xid_len x) (
        Triple.inspect (λ w h.
          Triple.otherwise (others op_dequeue w.busy) (pure iores_busy) (alone w h) (
            Triple.weaken
              (Triple.bind
                (checked_first p (Idle op_dequeue) idle_pgs op_dequeue 0 0 false
                  (frame_op p (Writable p (Idle op_dequeue))))
                attempt)
              (λ s q. q.0) (λ r s q. q) (λ r s q. q))))
