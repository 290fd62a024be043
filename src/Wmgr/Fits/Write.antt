-- ===== src/Wmgr/Fits/Write.antt =====
-- Flushing in lib/jrnl/wmgr.cpp keeps the cache and the file in step.
use qpid_cpp_store_debian.Prelude.{
  ℕ, ◌*◌, ◌<◌, ◌≡◌, refl, ap, ◌∙◌, Bool, true, false, not, ◌||◌, ◌==◌, if◌then◌else◌, arith, inl,
  inr, Bool-cases, ==_iff,
}
use qpid_cpp_store_debian.Prelude.Control.{◌>>=◌, ◌>>◌, pure, raise, jerr_wmgr_badpgstate}
use qpid_cpp_store_debian.Prelude.Control.Triple
use qpid_cpp_store_debian.Prelude.Control.Triple.{Triple, Holds}
use qpid_cpp_store_debian.Wrfc.{Iores, iores_success, iores_page_aiowait}
use qpid_cpp_store_debian.Wmgr.State.{Busy, PageCb, unused, Aio, is_aio_pending, is_in_use}
use qpid_cpp_store_debian.Wmgr.Events.{get_events}
use qpid_cpp_store_debian.Wmgr.Flush.{send_page, flush_page, write_flush, is_success, use_page}
use qpid_cpp_store_debian.Wmgr.Frame.{View, view, Only, frame_current_page}
use qpid_cpp_store_debian.Wmgr.Frame.Events.{frame_get_events}
use qpid_cpp_store_debian.Wmgr.Fits.{Runs}
use qpid_cpp_store_debian.Wmgr.Fits.Flush.{framed}
use qpid_cpp_store_debian.Wmgr.Fits.Flush.Send.{sending, frame_use_page}
use qpid_cpp_store_debian.Wmgr.Fits.Flush.Turn.{Rests}

module _ (p : ℕ) (G : Busy → ℕ → ℕ → Type 0) where
  -- Either the page has room, or there is something to flush.
  abbrev pub Ready : Bool → View → Type 0
  Ready true v = Rests p G v
  Ready false v = Runs G 0 v × (0 < v.at.cached)

  -- After a flush the page has room, unless it had none and still waits for its AIO.
  abbrev pub Flushed : Bool → Iores → View → Type 0
  Flushed b res v =
      Runs G 0 v × ((b || is_success res) ≡ true → v.at.offset < 4 * v.at.pgsize_sblks)

  waits : (b : Bool) (v : View) → Ready b v → Flushed b iores_page_aiowait v
  waits true v h = (h.0, λ _. h.1)
  waits false v h = (h.0, λ e. cc)

  runs : (b : Bool) (v : View) → Ready b v → Runs G 0 v
  runs true v h = h.0
  runs false v h = h.0

  flush_choice :
      (b : Bool) (io : Aio) (g : PageCb)
      → Triple
          (λ w. Ready b (view p w))
          (if is_aio_pending g.state
            then pure iores_page_aiowait
            else if not (is_in_use g.state)
            then raise jerr_wmgr_badpgstate
            else send_page io >> pure iores_success)
          (λ res w. Flushed b res (view p w))
          Only
  flush_choice b io g = elim (Bool-cases (is_aio_pending g.state)) [
    | inl e ↦ rw e (Triple.returned iores_page_aiowait (λ w h. waits b (view p w) h))
    | inr e ↦ elim (Bool-cases (is_in_use g.state)) [
      | inl u ↦
          rw (e, u)
            (Triple.seq
              (Triple.weaken (sending p G io) (λ s q. runs b (view p s) q) (λ a s q. q)
                (λ x s q. q))
              (Triple.returned iores_success (λ w h. (h.0, λ _. h.1))))
      | inr u ↦ rw (e, u) (Triple.raised jerr_wmgr_badpgstate (λ w h. refl))
    ]
  ]

  page-Flushed :
      (b : Bool) (io : Aio)
      → Triple (λ w. Ready b (view p w)) (flush_page io) (λ res w. Flushed b res (view p w)) Only
  unfolding flush_page
  page-Flushed b io =
      Triple.bind (framed p (Ready b) (frame_current_page p (Ready b))) (λ g. flush_choice b io g)

  finish :
      (b : Bool) (io : Aio) (res : Iores)
      → Triple
          (λ w. Flushed b res (view p w))
          (get_events io unused false false >>= (λ _. use_page >> pure res))
          (λ r w. Flushed b r (view p w))
          Only
  finish b io res =
      Triple.bind
        (framed p (Flushed b res) (frame_get_events p (Flushed b res) io unused false false))
        (λ _.
          Triple.seq (framed p (Flushed b res) (frame_use_page p (Flushed b res)))
            (Triple.returned res (λ w h. h)))

  nothing : (b : Bool) (v : View) → Ready b v → v.at.cached ≡ 0 → Flushed b iores_success v
  nothing true v h e = (h.0, λ _. h.1)
  nothing false v h e = absurd (omega (arith, e, h.1))

  pub flushed :
      (b : Bool) (io : Aio)
      → Triple (λ w. Ready b (view p w)) (write_flush io) (λ res w. Flushed b res (view p w)) Only
  unfolding write_flush
  flushed b io = Triple.reads (λ w.
      Triple.bind
        (Triple.choose (w.cache.cached_offset_dblks == 0)
          (λ e. Triple.returned iores_success (λ s h. nothing b (view p s) h.0 (
            (==_iff s.cache.cached_offset_dblks 0).0
              (ap (λ t. t.cache.cached_offset_dblks == 0) h.1 ∙ e))))
          (λ e. Triple.weaken (page-Flushed b io) (λ s h. h.0) (λ a s q. q) (λ x s q. q)))
        (finish b io))
