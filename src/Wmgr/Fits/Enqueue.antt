-- ===== src/Wmgr/Fits/Enqueue.antt =====
-- `wmgr::enqueue` of lib/jrnl/wmgr.cpp, from its checks to its result.
use qpid_cpp_store_debian.Prelude.{
  ℕ, ◌<◌, ◌≡◌, refl, sym, subst, ◌∙◌, Bool, true, false, not, ◌&&◌, ◌||◌, ◌==◌, add32, Option, none,
  some, List, length, if◌then◌else◌, arith, inl, inr,
}
use qpid_cpp_store_debian.Prelude.Control.{
  Result, ok, throw, M, ◌>>◌, pure, raise, assertion, jerr_wmgr_badpgstate, jerr_wmgr_baddtokstate,
}
use qpid_cpp_store_debian.Prelude.Control.Triple
use qpid_cpp_store_debian.Prelude.Control.Triple.{Triple, Holds}
use qpid_cpp_store_debian.DataTok.{DataTok, is_writable}
use qpid_cpp_store_debian.Fcntl.{Fcntl}
use qpid_cpp_store_debian.Lpmgr.{get_fcntlp}
use qpid_cpp_store_debian.Wrfc
use qpid_cpp_store_debian.Wrfc.{
  Wrfc, on_current, put_file, Iores, iores_busy, iores_success, iores_full, iores_enqcapthresh,
  iores_page_aiowait, iores_notimpl, enq_threshold,
}
use qpid_cpp_store_debian.Records.{size_dblks}
use qpid_cpp_store_debian.Records.Copy.{bytes_at, is_null}
use qpid_cpp_store_debian.Records.Enq
use qpid_cpp_store_debian.Wmgr.State.{
  Wmgr, Busy, PageCb, PageState, unused, in_use, aio_pending, aio_complete, Aio, tok, page_at,
  alter_page, current_page,
}
use qpid_cpp_store_debian.Wmgr.Flush.{is_success, use_page}
use qpid_cpp_store_debian.Wmgr.Checks.{
  op_enqueue, op_check, file_check, page_check, threshold, enqueue_check, pre_write_check,
}
use qpid_cpp_store_debian.Wmgr.Ops.{write_enqueue, enqueue}
use qpid_cpp_store_debian.Wmgr.Frame.{View, view, Only, fine, frame_require}
use qpid_cpp_store_debian.Wmgr.Fits.Flush.{framed}
use qpid_cpp_store_debian.Wmgr.Fits.Check.{Writable}
use qpid_cpp_store_debian.Wmgr.Fits.Threshold.{enq_threshold-Answers}
use qpid_cpp_store_debian.Wmgr.Fits.Begin.{
  others, Begins, Passed, Attempts, file_ok, frame_page_check,
}
use qpid_cpp_store_debian.Wmgr.Fits.Enq.{Unwritten, IsMessage, enq_dblks, idle_others, written_enq}

-- `page_check` leaves the file controllers alone.
alter_page-wrfc : (i : ℕ) (f : PageCb → PageCb) (w : Wmgr) → (alter_page i f w).1.wrfc ≡ w.wrfc
unfolding alter_page page_at
alter_page-wrfc i f w = ground arith

page_by-wrfc :
    (s : PageState) (w : Wmgr)
    → ((elim s as (λ _. M Wmgr (Option Iores)) [
      | in_use ↦ pure none
      | unused ↦ use_page >> pure none
      | aio_pending ↦ pure (some iores_page_aiowait)
      | aio_complete ↦ raise jerr_wmgr_badpgstate
    ])
        w).1.wrfc
      ≡ w.wrfc
unfolding use_page alter_page page_at
page_by-wrfc in_use w = refl
page_by-wrfc unused w = ground arith
page_by-wrfc aio_pending w = refl
page_by-wrfc aio_complete w = refl

current_page-wrfc : (w : Wmgr) → (current_page w).1.wrfc ≡ w.wrfc
unfolding current_page page_at
current_page-wrfc w = ground arith

page_check-wrfc : (w : Wmgr) → (page_check w).1.wrfc ≡ w.wrfc
unfolding page_check
page_check-wrfc w = go (current_page w).0 (current_page w).1 (current_page-wrfc w)
  where
    go :
        (r : Result PageCb) (v : Wmgr)
        → v.wrfc ≡ w.wrfc
        → (elim r as (λ _. Result (Option Iores) × Wmgr) [
          | ok g ↦
              (elim g.state as (λ _. M Wmgr (Option Iores)) [
                | in_use ↦ pure none
                | unused ↦ use_page >> pure none
                | aio_pending ↦ pure (some iores_page_aiowait)
                | aio_complete ↦ raise jerr_wmgr_badpgstate
              ])
                v
          | throw e ↦ (throw e, v)
        ]).1.wrfc
          ≡ w.wrfc
    go (ok g) v h = page_by-wrfc g.state v ∙ h
    go (throw e) v h = h

on_file-fsize : (i : ℕ) (f : Fcntl) (w : Wrfc) → (put_file i f w).fsize_dblks ≡ w.fsize_dblks
on_file-fsize i f w = refl

file_check-fsize : (w : Wmgr) → (file_check w).1.wrfc.fsize_dblks ≡ w.wrfc.fsize_dblks
unfolding file_check Wrfc.wr_reset on_current get_fcntlp
file_check-fsize w = ground arith

some_pgs : (b : Busy) (n pgs : ℕ) → Unwritten b n pgs → 0 < pgs
some_pgs b n pgs g = g.0.2

module _ (p : ℕ) where
  abbrev Starts : Wmgr → Type 0
  Starts w = Writable p Unwritten (view p w)

  -- The files have some size.
  abbrev pub Sized : Wmgr → Type 0
  Sized w = 0 < w.wrfc.fsize_dblks

  Holds-fine :
      {A : Type 0} (r : Result A) (s : Wmgr)
      → fine r ≡ true
      → Starts s
      → Holds (λ _. Starts) Only r s
  Holds-fine (ok a) s h q = q
  Holds-fine (throw x) s h q = h

  searched : (n : ℕ) → Triple (λ w. Starts w × Sized w) (threshold n) (λ _. Starts) Only
  unfolding threshold
  searched n = record {
    apply = λ w h.
        let (r, e, f) = enq_threshold-Answers w.wrfc h.1 n in
        rw (e, threshold) (Holds-fine r w f h.0);
  }

  found :
      (t : DataTok) (size : ℕ)
      → Triple (λ w. Starts w × Sized w) (enqueue_check t size) (λ _. Starts) Only
  unfolding enqueue_check
  found t size = Triple.inspect (λ w h.
      Triple.bind
        (Triple.choose w.busy.enq_busy {k = threshold (add32 w.cache.cached_offset_dblks size)}
          (λ e. Triple.returned {Q = λ _. Starts} false (λ s q. q.0.0))
          (λ e.
            Triple.weaken (searched (add32 w.cache.cached_offset_dblks size)) (λ s q. q.0)
              (λ a s q. q) (λ a s q. q)))
        (λ over.
          Triple.choose over {m = pure iores_enqcapthresh}
            (λ e. Triple.returned iores_enqcapthresh (λ s q. q))
            (λ e.
              Triple.seq
                (framed p (Writable p Unwritten) (
                  frame_require p (Writable p Unwritten) (is_writable t) jerr_wmgr_baddtokstate
                    refl))
                (Triple.returned iores_success (λ s q. q)))))

  waits :
      (wait : Option Iores) (t : DataTok) (xid_len len : ℕ) (external : Bool)
      → Triple
          (λ w. Starts w × Sized w)
          (elim wait [ some r ↦ pure r | none ↦ op_check op_enqueue t xid_len len external ])
          (λ _. Starts)
          Only
  unfolding op_check
  waits none t xid_len len external = found t (size_dblks (Enq.rec_size xid_len len external))
  waits (some r) t xid_len len external = Triple.returned r (λ s q. q.0)

  file_fits :
      Triple
        (λ w. Begins p Unwritten w × Sized w)
        file_check
        (λ b w. Passed p Unwritten some_pgs b (view p w) × Sized w)
        Only
  file_fits =
      Triple.beside (file_ok p Unwritten some_pgs)
        (λ s f. subst (λ n. 0 < n) (sym (file_check-fsize s)) f)

  page_fits : Triple (λ w. Starts w × Sized w) page_check (λ _ w. Starts w × Sized w) Only
  page_fits =
      Triple.beside (framed p (Writable p Unwritten) (frame_page_check p Unwritten some_pgs))
        (λ s f. subst (λ v. 0 < v.fsize_dblks) (sym (page_check-wrfc s)) f)

  tok_fits : Triple (λ w. Starts w × Sized w) (tok p) (λ _ w. Starts w × Sized w) Only
  tok_fits = record { apply = λ w h. h }

  checked :
      (xid_len len : ℕ) (external : Bool)
      → Triple
          (λ w. Begins p Unwritten w × Sized w)
          (pre_write_check op_enqueue p xid_len len external)
          (λ res w. Passed p Unwritten some_pgs (is_success res) (view p w))
          Only
  unfolding pre_write_check
  checked xid_len len external = Triple.bind file_fits (λ writable.
      Triple.choose (not writable) {m = pure iores_full}
        (λ e. Triple.returned iores_full (λ s q. (q.0.0, λ z. cc)))
        (λ e.
          Triple.weaken
            (Triple.bind page_fits
              (λ wait. Triple.bind tok_fits (λ t. waits wait t xid_len len external)))
            (λ s q. (q.0.1 (ground (arith, e)), q.1)) (λ r s q. (inl q, λ z. q)) (λ r s q. q)))

-- The check of the arguments of `enqueue`.
xid_given :
    (xidp : Option (List ℕ)) (n : ℕ)
    → n ≡ length (bytes_at xidp)
    → (n == 0 || not (is_null xidp)) ≡ true
xid_given none n h = ground (arith, h)
xid_given (some bytes) n h = ground arith

module _ (io : Aio) (buff : Option (List ℕ)) (len p : ℕ) (xidp : Option (List ℕ)) (xid_len : ℕ)
    (transient : Bool) (x : IsMessage buff len xidp xid_len) where
  abbrev Results : Iores → View → Type 0
  Results = Attempts p Unwritten op_enqueue (enq_dblks xid_len len)

  attempt :
      (res : Iores)
      → Triple
          (λ w. Passed p Unwritten some_pgs (is_success res) (view p w))
          (if not (is_success res)
            then pure res
            else write_enqueue io buff len p xidp xid_len transient false)
          (λ r w. Results r (view p w))
          Only
  attempt res =
      Triple.choose (not (is_success res)) {m = pure res}
        (λ n. Triple.returned res (λ s h. inr (ground (arith, n), h.0)))
        (λ n.
          Triple.weaken (written_enq io buff len p xidp xid_len transient x)
            (λ s h. h.1 (ground (arith, n))) (λ r s h. inl h) (λ r s h. h))

  alone : (w : Wmgr) → Begins p Unwritten w → others op_enqueue w.busy ≡ false
  alone w (inl (h, r)) = idle_others io buff len p xidp xid_len transient x (view p w) h
  alone w (inr ((full, h), r)) = h.other.0.0

  whole : (not (len == len) && not false) ≡ false
  whole = ground arith

  -- `enqueue` of a message, all of it at once, begun while no operation is in progress and nothing
  -- of the token's record is written, with the page cache either in step with the current file, and
  -- the flag that this file was reset set, or in step with the next file, which is not reset yet,
  -- and the flag cleared (not as it is after a rotation that found AIOs outstanding, when the flag
  -- is set for a file that was not reset), and files of some size, comes to an end, its search for
  -- the threshold too, without a write past the end of a file. Whatever the AIO library answers,
  -- the cache is then in step with the file again, no other operation is in progress, and on a
  -- success the whole record is written. Other errors of the code may be thrown. The buffers have
  -- the sizes given, and the record is below 4 GB. The files are all of the same size, one header
  -- and whole pages, and the sizes of pages and files do not wrap around.
  pub enqueue-Attempts :
      Triple
        (λ w. Begins p Unwritten w × Sized p w)
        (enqueue io buff len len p xidp xid_len transient false)
        (λ res w. Attempts p Unwritten op_enqueue (enq_dblks xid_len len) res (view p w))
        Only
  unfolding enqueue
  enqueue-Attempts =
      Triple.passes (xid_len == 0 || not (is_null xidp)) assertion
        (xid_given xidp xid_len x.xid_sized)
        (Triple.inspect (λ w h.
          Triple.otherwise (others op_enqueue w.busy) (pure iores_busy) (alone w h.0) (
            Triple.otherwise (not (len == len) && not false) (pure iores_notimpl) whole (
              Triple.weaken (Triple.bind (checked p xid_len len false) attempt) (λ s q. q.0)
                (λ r s q. q) (λ r s q. q)))))
