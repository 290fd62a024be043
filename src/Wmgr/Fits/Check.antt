-- ===== src/Wmgr/Fits/Check.antt =====
-- `wmgr::flush_check` of lib/jrnl/wmgr.cpp keeps the cache and the file in step.
use qpid_cpp_store_debian.Prelude.{
  ℕ, ◌*◌, ◌≤◌, ◌<◌, ◌≡◌, refl, sym, ap, subst, ◌∙◌, Bool, true, false, not, ◌&&◌, leb,
  if◌then◌else◌, arith, inl, inr, ◌⊎◌, Bool-cases, leb→le,
}
use qpid_cpp_store_debian.Prelude.Control.{◌>>=◌, ◌>>◌, require, assertion}
use qpid_cpp_store_debian.Prelude.Control.Triple
use qpid_cpp_store_debian.Prelude.Control.Triple.{Triple, Holds}
use qpid_cpp_store_debian.Wrfc.{Iores, iores_page_aiowait}
use qpid_cpp_store_debian.Wmgr.State.{
  Wmgr, Busy, PageCb, Aio, is_aio_pending, page_dblks, current_page,
}
use qpid_cpp_store_debian.Wmgr.Flush.{Loop, write_flush, is_success, rotate_check, flush_check}
use qpid_cpp_store_debian.Wmgr.Frame.{View, view, Only, frame_current_page}
use qpid_cpp_store_debian.Wmgr.Fits.{InCache, IsFresh, Runs}
use qpid_cpp_store_debian.Wmgr.Fits.Flush.{framed}
use qpid_cpp_store_debian.Wmgr.Fits.Flush.Turn.{Rests}
use qpid_cpp_store_debian.Wmgr.Fits.Write.{Ready, Flushed, flushed}
use qpid_cpp_store_debian.Wmgr.Fits.Rotate.{Between, Rotated, rotated}

module _ (p : ℕ) (G : Busy → ℕ → ℕ → Type 0) where
  abbrev pub Fresh : View → Type 0
  Fresh v = IsFresh v × InCache 0 v.at × G v.busy v.written v.jfsize_pgs

  -- The cache is in step with the file, begun or not.
  abbrev pub Steps : View → Type 0
  Steps v = Runs G 0 v ⊎ Fresh v

  -- A record can go on in the current page.
  abbrev pub Writable : View → Type 0
  Writable v = Steps v × (v.at.offset < 4 * v.at.pgsize_sblks) × (v.at.pg_cntr < v.jfsize_pgs)

  -- The next file still has records or writes, and the result says so.
  abbrev pub Blocked : Iores → View → Type 0
  Blocked res v = (full : ℕ) × Between p G full v × (is_success res ≡ false)

  -- After the checks of a round that began with `done`.
  abbrev pub Checked : Bool → Loop → View → Type 0
  Checked done l v =
      (Writable v ⊎ (Blocked l.res v × (l.done ≡ true)))
      × (l.done ≡ false → done ≡ false)
      × (l.done ≡ true → (done ≡ true) ⊎ (is_success l.res ≡ false))

  abbrev pub after_rotation : Loop → Iores → Loop
  after_rotation l rfres = record {
    res = if is_success rfres then l.res else rfres;
    cont = if not l.done && is_success rfres then true else l.cont;
    done = if not l.done && not (is_success rfres) then true else l.done;
  }

  -- What is known of the result of a round before its rotation.
  abbrev Flags : Bool → Loop → Type 0
  Flags done l =
      (l.done ≡ false → done ≡ false) × (l.done ≡ true → (done ≡ true) ⊎ (is_success l.res ≡ false))

  kept-Flags :
      (done : Bool) (l : Loop) (r : Iores)
      → Flags done l
      → is_success r ≡ true
      → Flags done (after_rotation l r)
  kept-Flags done l r (f, g) h = rw h ((λ e. f (ground (arith, e))), (λ e. g (ground (arith, e))))

  stopped-Flags :
      (done : Bool) (l : Loop) (r : Iores)
      → Flags done l
      → is_success r ≡ false
      → Flags done (after_rotation l r)
  stopped-Flags done l r (f, g) h = rw h ((λ e. absurd (ground (arith, e))), (λ e. inr h))

  module _ (some_pgs : (b : Busy) (n j : ℕ) → G b n j → 0 < j) where
    pub begins : (full : ℕ) (v : View) → Between p G full v → IsFresh v → Writable v
    begins full v b f = (
      inr (f, b.cache, b.other),
      omega (arith, b.start, b.cache.pgsize_pos),
      omega (arith, b.first, some_pgs v.busy v.written v.jfsize_pgs b.other),
    )

    blocked_res : (l : Loop) (r : Iores) → is_success r ≡ false → (after_rotation l r).res ≡ r
    blocked_res l r e = ground (arith, e)

    after-Rotated :
        (done : Bool) (l : Loop) (r : Iores) (v : View)
        → Flags done l
        → (full : ℕ) × Rotated p G full r v
        → Checked done (after_rotation l r) v
    after-Rotated done l r v g (full, (b, f)) = elim (Bool-cases (is_success r)) [
      | inl e ↦
          let (keep, stop) = kept-Flags done l r g e in (inl (begins full v b (f e)), keep, stop)
      | inr e ↦
          let (keep, stop) = stopped-Flags done l r g e in
          (
            inr (
              subst (λ x. Blocked x v) (sym (blocked_res l r e)) (full, b, e),
              ground (arith, e),
            ),
            keep,
            stop,
          )
    ]

    rotate-Checked :
        (done : Bool) (l : Loop)
        → Flags done l
        → Triple
            (λ w. Rests p G (view p w))
            (rotate_check l)
            (λ l' w. Checked done l' (view p w))
            Only
    unfolding rotate_check
    rotate-Checked done l g = Triple.reads (λ w.
        Triple.choose (leb w.jfsize_pgs w.cache.pg_cntr)
          (λ e.
            Triple.bind
              (Triple.weaken (rotated p G)
                (λ s h. (
                  h.0,
                  subst (λ (u : Wmgr). u.jfsize_pgs ≤ u.cache.pg_cntr) (sym h.1)
                      (leb→le w.jfsize_pgs w.cache.pg_cntr e),
                ))
                (λ a s q. q) (λ x s q. q))
              (λ r.
                Triple.returned (after_rotation l r)
                  (λ s q. after-Rotated done l r (view p s) g q)))
          (λ e. Triple.returned l (λ s h. (
            inl (
              inl h.0.0,
              h.0.1,
              subst (λ (u : Wmgr). u.cache.pg_cntr < u.jfsize_pgs) (sym h.1) (ground (arith, e)),
            ),
            g.0,
            g.1,
          ))))

    abbrev waiting : Loop → Iores → PageCb → Loop
    waiting l res g =
        if is_aio_pending g.state && not l.done
        then record { res = iores_page_aiowait; cont = l.cont; done = true }
        else record l { res = res }

    waiting-Flags : (l : Loop) (res : Iores) (g : PageCb) → Flags l.done (waiting l res g)
    waiting-Flags l res g = elim (Bool-cases (is_aio_pending g.state && not l.done)) [
      | inl e ↦ rw e (λ q. cc, λ q. inr refl)
      | inr e ↦ rw e (λ q. q, λ q. inl q)
    ]

    page-Checked :
        (io : Aio) (l : Loop)
        → Triple
            (λ w. Ready p G false (view p w))
            (write_flush io >>= (λ res.
              require (is_success res) assertion
              >> (current_page >>= (λ g. rotate_check (waiting l res g)))))
            (λ l' w. Checked l.done l' (view p w))
            Only
    page-Checked io l = Triple.bind (flushed p G false io) (λ res. Triple.seq (success_only res) (
        Triple.bind (framed p (Rests p G) (frame_current_page p (Rests p G)))
          (λ g. rotate-Checked l.done (waiting l res g) (waiting-Flags l res g))))
      where
        success_only :
            (res : Iores)
            → Triple
                (λ w. Flushed p G false res (view p w))
                (require (is_success res) assertion)
                (λ _ w. Rests p G (view p w))
                Only
        success_only res = elim (Bool-cases (is_success res)) [
          | inl e ↦ rw e (record { apply = λ w h. (h.0, h.1 refl) })
          | inr e ↦ rw e (record { apply = λ w h. refl })
        ]

    -- After the header: there are blocks to flush, or none are needed.
    abbrev pub Filled : View → Type 0
    Filled v = Runs G 0 v × (0 < v.at.cached) × (v.at.pg_cntr < v.jfsize_pgs)

    room :
        (w s : Wmgr)
        → leb (page_dblks w.cache) w.cache.pg_offset_dblks ≡ false
        → s ≡ w
        → Runs G 0 (view p s)
        → s.cache.pg_offset_dblks < 4 * s.cache.cache_pgsize_sblks
    room w s e q h =
        let here : leb (page_dblks s.cache) s.cache.pg_offset_dblks ≡ false =
          ap (λ (u : Wmgr). leb (page_dblks u.cache) u.cache.pg_offset_dblks) q ∙ e in
        ground (arith, here, h.cache)

    pub flush-Checked :
        (io : Aio) (l : Loop)
        → Triple
            (λ w. Filled (view p w))
            (flush_check io l)
            (λ l' w. Checked l.done l' (view p w))
            Only
    unfolding flush_check
    flush-Checked io l = Triple.reads (λ w.
        Triple.choose (leb (page_dblks w.cache) w.cache.pg_offset_dblks)
          (λ e. Triple.weaken (page-Checked io l) (λ s h. (h.0.0, h.0.1)) (λ a s q. q) (λ x s q. q))
          (λ e.
            Triple.returned l
              (λ s h. (inl (inl h.0.0, room w s e h.1 h.0.0, h.0.2), λ q. q, λ q. inl q))))
