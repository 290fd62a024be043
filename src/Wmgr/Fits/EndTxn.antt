-- ===== src/Wmgr/Fits/EndTxn.antt =====
-- `wmgr::abort` and `wmgr::commit` of lib/jrnl/wmgr.cpp, from their checks to their results.
use qpid_cpp_store_debian.Prelude.{
  ℕ, ◌<◌, ◌≡◌, true, false, not, ◌&&◌, ltb, Option, none, some, List, if◌then◌else◌, arith, inl,
  inr,
}
use qpid_cpp_store_debian.Prelude.Control.{◌>>=◌, ◌>>◌, pure, get, require, assertion}
use qpid_cpp_store_debian.Prelude.Control.Triple
use qpid_cpp_store_debian.Prelude.Control.Triple.{Triple, Holds}
use qpid_cpp_store_debian.Wrfc.{Iores, iores_busy, iores_success}
use qpid_cpp_store_debian.DataTok.{DataTok}
use qpid_cpp_store_debian.Records.Copy.{is_null}
use qpid_cpp_store_debian.Wmgr.State.{Wmgr, Busy, Aio}
use qpid_cpp_store_debian.Wmgr.Flush.{is_success}
use qpid_cpp_store_debian.Wmgr.Checks.{op_abort, op_commit, op_check, pre_write_check}
use qpid_cpp_store_debian.Wmgr.Complete.{TxnEnd, abort_txn, commit_txn}
use qpid_cpp_store_debian.Wmgr.Ops.{write_txn, abort, commit}
use qpid_cpp_store_debian.Wmgr.Frame.{View, view, Only, Frames, frame_pure}
use qpid_cpp_store_debian.Wmgr.Fits.Check.{Writable}
use qpid_cpp_store_debian.Wmgr.Fits.Begin.{others, Idle, Begins, Passed, Attempts, checked_first}
use qpid_cpp_store_debian.Wmgr.Fits.Txn.{end_op, IsXid, txn_dblks, idle_others, written_txn}

xid_given : (xidp : Option (List ℕ)) (n : ℕ) → IsXid xidp n → (not (is_null xidp) && ltb 0 n) ≡ true
xid_given none n x = absurd (omega (arith, x.sized, x.pos))
xid_given (some bytes) n x = ground (arith, x.pos)

no_check :
    (p : ℕ) (e : TxnEnd) (t : DataTok)
    → Frames p (Writable p (Idle (end_op e))) (op_check (end_op e) t 0 0 false)
unfolding op_check
no_check p abort_txn t = frame_pure p (Writable p (Idle op_abort)) iores_success
no_check p commit_txn t = frame_pure p (Writable p (Idle op_commit)) iores_success

module _ (io : Aio) (e : TxnEnd) (p : ℕ) (xidp : Option (List ℕ)) (xid_len : ℕ)
    (x : IsXid xidp xid_len) where
  abbrev Result : Iores → View → Type 0
  Result = Attempts p (Idle (end_op e)) (end_op e) (txn_dblks xid_len)

  idle_pgs : (b : Busy) (n pgs : ℕ) → Idle (end_op e) b n pgs → 0 < pgs
  idle_pgs b n pgs g = g.2

  attempt :
      (res : Iores)
      → Triple
          (λ w. Passed p (Idle (end_op e)) idle_pgs (is_success res) (view p w))
          (if not (is_success res) then pure res else write_txn io e p xidp xid_len)
          (λ r w. Result r (view p w))
          Only
  attempt res =
      Triple.choose (not (is_success res)) {m = pure res}
        (λ n. Triple.returned res (λ s h. inr (ground (arith, n), h.0)))
        (λ n.
          Triple.weaken (written_txn io e p xidp xid_len x) (λ s h. h.1 (ground (arith, n)))
            (λ r s h. inl h) (λ r s h. h))

  -- Behind the test whether another operation is busy.
  attempted :
      Triple
        (Begins p (Idle (end_op e)))
        (pre_write_check (end_op e) p 0 0 false
          >>= (λ res. if not (is_success res) then pure res else write_txn io e p xidp xid_len))
        (λ r w. Result r (view p w))
        Only
  attempted =
      Triple.bind (checked_first p (Idle (end_op e)) idle_pgs (end_op e) 0 0 false (no_check p e))
        attempt

  alone : (w : Wmgr) → Begins p (Idle (end_op e)) w → others (end_op e) w.busy ≡ false
  alone w (inl (h, r)) = idle_others io e p xidp xid_len x (view p w) h
  alone w (inr ((full, h), r)) = h.other.0

  guarded :
      Triple
        (Begins p (Idle (end_op e)))
        (require (not (is_null xidp) && ltb 0 xid_len) assertion
          >> (get >>= (λ w.
              if others (end_op e) w.busy
              then pure iores_busy
              else pre_write_check (end_op e) p 0 0 false >>= (λ res.
                if not (is_success res) then pure res else write_txn io e p xidp xid_len))))
        (λ r w. Result r (view p w))
        Only
  guarded =
      Triple.passes (not (is_null xidp) && ltb 0 xid_len) assertion (xid_given xidp xid_len x) (
        Triple.inspect (λ w h.
          Triple.otherwise (others (end_op e) w.busy) (pure iores_busy) (alone w h)
            (Triple.weaken attempted (λ s q. q.0) (λ r s q. q) (λ r s q. q))))

-- `abort` of a transaction's xid, begun while no operation is in progress, with the page cache
-- either in step with the current file, and the flag that this file was reset set, or in step with
-- the next file, which is not reset yet, and the flag cleared (not as it is after a rotation that
-- found AIOs outstanding, when the flag is set for a file that was not reset), comes to an end
-- without a write past the end of a file. Whatever the AIO library answers, the cache is then in
-- step with the file again, no other operation is in progress, and on a success the whole record is
-- written. Other errors of the code may be thrown. The buffer of the xid has the size given, which
-- is not zero, and the record is below 4 GB. The files are all of the same size, one header and
-- whole pages, and the sizes of pages and files do not wrap around.
pub abort-Attempts :
    (io : Aio) (p : ℕ) (xidp : Option (List ℕ)) (xid_len : ℕ)
    → IsXid xidp xid_len
    → Triple
        (Begins p (Idle op_abort))
        (abort io p xidp xid_len)
        (λ res w. Attempts p (Idle op_abort) op_abort (txn_dblks xid_len) res (view p w))
        Only
unfolding abort
abort-Attempts io p xidp xid_len x = guarded io abort_txn p xidp xid_len x

-- `commit` of a transaction's xid, begun while no operation is in progress, with the page cache
-- either in step with the current file, and the flag that this file was reset set, or in step with
-- the next file, which is not reset yet, and the flag cleared (not as it is after a rotation that
-- found AIOs outstanding, when the flag is set for a file that was not reset), comes to an end
-- without a write past the end of a file. Whatever the AIO library answers, the cache is then in
-- step with the file again, no other operation is in progress, and on a success the whole record is
-- written. Other errors of the code may be thrown. The buffer of the xid has the size given, which
-- is not zero, and the record is below 4 GB. The files are all of the same size, one header and
-- whole pages, and the sizes of pages and files do not wrap around.
pub commit-Attempts :
    (io : Aio) (p : ℕ) (xidp : Option (List ℕ)) (xid_len : ℕ)
    → IsXid xidp xid_len
    → Triple
        (Begins p (Idle op_commit))
        (commit io p xidp xid_len)
        (λ res w. Attempts p (Idle op_commit) op_commit (txn_dblks xid_len) res (view p w))
        Only
unfolding commit
commit-Attempts io p xidp xid_len x = guarded io commit_txn p xidp xid_len x
