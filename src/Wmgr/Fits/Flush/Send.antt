-- ===== src/Wmgr/Fits/Flush/Send.antt =====
-- flush of lib/jrnl/wmgr.cpp: the current page is filled up and submitted.
use qpid_cpp_store_debian.Prelude.{ℕ, ◌≡◌, refl, true, false, some, add32, if◌then◌else◌, arith}
use qpid_cpp_store_debian.Prelude.Control.{ok, ◌>>=◌, ◌>>◌}
use qpid_cpp_store_debian.Prelude.Control.Triple
use qpid_cpp_store_debian.Prelude.Control.Triple.{Triple, Holds}
use qpid_cpp_store_debian.Fcntl
use qpid_cpp_store_debian.Fcntl.{Fcntl}
use qpid_cpp_store_debian.Wmgr.State.{Busy, PageState, Aio, AioCb, on_cache, on_wr_file, is_unused}
use qpid_cpp_store_debian.Wmgr.Flush.{
  rotate_page, use_page, submit, expect_event, page_write, send_page, wr_file,
}
use qpid_cpp_store_debian.Wmgr.Frame.{
  position, View, view, Only, Frames, same, frame_bind, frame_get, frame_alter_page, frame_outside,
  frame_current_page, frame_put_page, fine,
}
use qpid_cpp_store_debian.Wmgr.Frame.Files.{frame_on_wr_file}
use qpid_cpp_store_debian.Wmgr.Fits.{Runs}
use qpid_cpp_store_debian.Wmgr.Fits.Flush.{framed, moves, roundup}
use qpid_cpp_store_debian.Wmgr.Fits.Flush.Turn.{
  Sends, Sent, Rests, start-Sends, count_sent, went_out, rotates,
}

module _ (p : ℕ) where
  pub frame_submit : (P : View → Type 0) (io : Aio) (cb : AioCb) → Frames p P (submit io cb)
  unfolding submit
  frame_submit P io cb = same p P (submit io cb) (λ w. ground arith) (λ w. ground arith)

  pub frame_use_page : (P : View → Type 0) → Frames p P use_page
  unfolding use_page
  frame_use_page P = frame_bind p P (frame_get p P) (λ w.
      frame_alter_page p P w.cache.pg_index
        (λ g. record g { state = if is_unused g.state then PageState.in_use else g.state }))

  pub frame_wr_file : (P : View → Type 0) → Frames p P wr_file
  frame_wr_file P = frame_on_wr_file p P (λ f. (ok f, f)) (λ f. refl) (λ f. refl)

  aio_position : (f : Fcntl) → position (some (Fcntl.incr_aio_cnt f).1) ≡ position (some f)
  unfolding Fcntl.incr_aio_cnt
  aio_position f = refl

  aio_fine : (f : Fcntl) → fine (Fcntl.incr_aio_cnt f).0 ≡ true
  unfolding Fcntl.incr_aio_cnt
  aio_fine f = refl

  pub frame_incr_aio : (P : View → Type 0) → Frames p P (on_wr_file Fcntl.incr_aio_cnt)
  frame_incr_aio P = frame_on_wr_file p P Fcntl.incr_aio_cnt aio_position aio_fine

module _ (p : ℕ) (G : Busy → ℕ → ℕ → Type 0) where
  -- After the submission: the counts, and the next page.
  send_rest :
      (c : ℕ)
      → Triple
          (λ w. Sends p G c false (view p w))
          (on_wr_file (Fcntl.add_wr_subm_cnt_dblks c) >>= (λ _.
            on_wr_file Fcntl.incr_aio_cnt >>= (λ _.
              expect_event
              >> (on_cache (λ d. record d { cached_offset_dblks = 0 })
                  >> (rotate_page >> use_page)))))
          (λ _ w. Rests p G (view p w))
          Only
  send_rest c = Triple.bind (count_sent p G c) (λ _.
      Triple.bind (framed p (Sends p G c true) (frame_incr_aio p (Sends p G c true))) (λ _.
        Triple.seq
          (framed p (Sends p G c true) (
            frame_outside p (Sends p G c true)
              (λ o. record o { aio_evt_rem = add32 o.aio_evt_rem 1 })))
          (Triple.seq
            (moves p (λ d. record d { cached_offset_dblks = 0 }) (Sends p G c true) (Sent p G)
              (went_out p G c))
            (Triple.seq (rotates p G) (framed p (Rests p G) (frame_use_page p (Rests p G)))))))

  pub sending :
      (io : Aio)
      → Triple (λ w. Runs G 0 (view p w)) (send_page io) (λ _ w. Rests p G (view p w)) Only
  unfolding send_page
  sending io = Triple.seq (roundup p G) (record {
    apply = λ w h.
        (Triple.bind
            (framed p (Sends p G w.cache.cached_offset_dblks false)
              (frame_current_page p (Sends p G w.cache.cached_offset_dblks false)))
            (λ g.
              Triple.bind
                (framed p (Sends p G w.cache.cached_offset_dblks false)
                  (frame_wr_file p (Sends p G w.cache.cached_offset_dblks false)))
                (λ f.
                  Triple.seq
                    (framed p (Sends p G w.cache.cached_offset_dblks false) (
                      frame_put_page p (Sends p G w.cache.cached_offset_dblks false)
                        w.cache.pg_index
                        (record g { wdblks = w.cache.cached_offset_dblks; wfh = w.wrfc.curr_fc })))
                    (Triple.seq
                      (framed p (Sends p G w.cache.cached_offset_dblks false) (
                        frame_submit p (Sends p G w.cache.cached_offset_dblks false) io
                          (page_write w.cache g f)))
                      (send_rest w.cache.cached_offset_dblks))))).apply
          w (start-Sends p G (view p w) h);
  })
