-- ===== src/Wmgr/Fits/Rotate.antt =====
-- `wmgr::rotate_file` of lib/jrnl/wmgr.cpp: the cache goes on at the start of the next file.
use qpid_cpp_store_debian.Prelude.{
  ℕ, ◌+◌, ◌*◌, ◌^◌, ◌≤◌, ◌<◌, ◌≡◌, refl, sym, ap, subst, ◌∙◌, Bool, true, some, get_elem?, arith,
}
use qpid_cpp_store_debian.Prelude.Control.{Result, ok, throw}
use qpid_cpp_store_debian.Prelude.Control.Triple
use qpid_cpp_store_debian.Prelude.Control.Triple.{Triple, Holds}
use qpid_cpp_store_debian.Fcntl.{Fcntl}
use qpid_cpp_store_debian.Wrfc
use qpid_cpp_store_debian.Wrfc.{
  Wrfc, Iores, iores_success, iores_full, iores_file_aiowait, current, point_to, advance, enter,
  put_file,
}
use qpid_cpp_store_debian.Wmgr.State.{Wmgr, Busy, with_wrfc}
use qpid_cpp_store_debian.Wmgr.Flush.{is_success, rotate_file, chk_wr_frot}
use qpid_cpp_store_debian.Wmgr.Frame.{View, view, position, sizes, Only, Frames, same}
use qpid_cpp_store_debian.Wmgr.Fits.{InCache, IsFresh}
use qpid_cpp_store_debian.Wmgr.Fits.Flush.{framed}
use qpid_cpp_store_debian.Wmgr.Fits.Flush.Turn.{Rests}
use qpid_cpp_store_debian.Wmgr.Fits.Enter.{
  Outcome, Reset, current_inv, sizes-get, rotate_lem, wr_reset-Reset,
}

pub times_mono : (m n q : ℕ) → m ≤ n → m * q ≤ n * q
times_mono m n q h = grind arith

module _ (p : ℕ) (G : Busy → ℕ → ℕ → Type 0) where
  -- Between two files, each of `full` data blocks.
  pub record Between (full : ℕ) (v : View) : Type 0 where
    pub cache : InCache 0 v.at
    pub first : v.at.pg_cntr ≡ 0
    pub start : v.at.offset ≡ 0
    pub flushed : v.at.cached ≡ 0
    pub whole : full ≡ 4 + v.jfsize_pgs * (4 * v.at.pgsize_sblks)
    pub small : full < 2 ^ 32
    pub sized : (i n : ℕ) → get_elem? v.sizes i ≡ some (some n) → n ≡ full
    pub other : G v.busy v.written v.jfsize_pgs

  -- The next file can be written to if the rotation succeeds.
  abbrev pub Rotated : ℕ → Iores → View → Type 0
  Rotated full res v = Between full v × (is_success res ≡ true → IsFresh v)

  ends :
      (w : Wmgr)
      → Rests p G (view p w)
      → w.jfsize_pgs ≤ w.cache.pg_cntr
      → Between (view p w).file.full (view p (record w { cache = record w.cache { pg_cntr = 0 } }))
  ends w (h, l) k =
      let more = times_mono w.jfsize_pgs w.cache.pg_cntr (4 * w.cache.cache_pgsize_sblks) k in
      record {
        cache = record {
          pages = h.cache.pages;
          few = h.cache.few;
          placed = h.cache.placed;
          pgsize_pos = h.cache.pgsize_pos;
          pgsize_small = h.cache.pgsize_small;
          cached_in = h.cache.cached_in;
          aligned = h.cache.aligned;
          inside = h.cache.inside;
        };
        first = refl;
        start = omega (arith, more, h.file.within);
        flushed = omega (arith, more, h.file.within, h.cache.cached_in);
        whole = h.file.full;
        small = h.file.small;
        sized = h.file.sized;
        other = h.other;
      }

  fresh :
      (full : ℕ) (w : Wmgr) (v : Wrfc) (f : Fcntl)
      → Between full (view p w)
      → sizes v.lpm.fcntl_arr ≡ sizes w.wrfc.lpm.fcntl_arr
      → current v ≡ some f
      → f.wr_subm_cnt_dblks ≡ 0
      → IsFresh (view p (record w { wrfc = v }))
  fresh full w v f b s c z =
      let (i, d, e) = current_inv v f c in
      let here : f.ffull_dblks ≡ full =
        b.sized i f.ffull_dblks (ap (λ l. get_elem? l i) (sym s) ∙ sizes-get v i f e) in
      record {
        active = ap (λ o. (position o).active) c;
        full = ap (λ o. (position o).full) c ∙ here ∙ b.whole;
        small = subst (λ n. n < 2 ^ 32) (sym (ap (λ o. (position o).full) c ∙ here)) b.small;
        sized = λ j n q.
            b.sized j n (ap (λ l. get_elem? l j) (sym s) ∙ q)
            ∙ sym (ap (λ o. (position o).full) c ∙ here);
        within =
            omega (arith, b.first, b.start, ap (λ n. n * (4 * w.cache.cache_pgsize_sblks)) b.first);
        void = ap (λ o. (position o).subm) c ∙ z;
        first = b.first;
        unsubmitted = b.flushed ∙ sym b.start;
      }

  between_moved :
      (full : ℕ) (w : Wmgr) (v : Wrfc)
      → Between full (view p w)
      → sizes v.lpm.fcntl_arr ≡ sizes w.wrfc.lpm.fcntl_arr
      → Between full (view p (record w { wrfc = v }))
  between_moved full w v b s = record {
    cache = b.cache;
    first = b.first;
    start = b.start;
    flushed = b.flushed;
    whole = b.whole;
    small = b.small;
    sized = λ j n q. b.sized j n (ap (λ l. get_elem? l j) (sym s) ∙ q);
    other = b.other;
  }

  rotating :
      (full : ℕ)
      → Triple
          (λ w. Between full (view p w))
          (with_wrfc Wrfc.rotate)
          (λ res w. Rotated full res (view p w))
          Only
  rotating full = record {
    apply = λ w b. go w b (Wrfc.rotate w.wrfc).0 (Wrfc.rotate w.wrfc).1 (rotate_lem w.wrfc);
  }
    where
      go :
          (w : Wmgr)
          → Between full (view p w)
          → (r : Result Iores) (v : Wrfc) → Outcome (sizes w.wrfc.lpm.fcntl_arr) r v
          → Holds (λ res u. Rotated full res (view p u)) Only r (record w { wrfc = v })
      go w b (throw e) v o = o
      go w b (ok res) v o = (
        between_moved full w v b o.same_sizes,
        λ q. (let (f, c, z) = o.there q in fresh full w v f b o.same_sizes c z),
      )

  -- A file that could not be entered is tried again.
  pub resets :
      (full : ℕ)
      → Triple
          (λ w. Between full (view p w))
          (with_wrfc Wrfc.wr_reset)
          (λ b w. Between full (view p w) × (b ≡ true → IsFresh (view p w)))
          Only
  resets full = record {
    apply = λ w b. go w b (Wrfc.wr_reset w.wrfc).0 (Wrfc.wr_reset w.wrfc).1 (wr_reset-Reset w.wrfc);
  }
    where
      go :
          (w : Wmgr)
          → Between full (view p w)
          → (r : Result Bool) (v : Wrfc) → Reset (sizes w.wrfc.lpm.fcntl_arr) r v
          → Holds
              (λ b u. Between full (view p u) × (b ≡ true → IsFresh (view p u)))
              Only
              r
              (record w { wrfc = v })
      go w b (throw e) v o = o
      go w b (ok x) v o = (
        between_moved full w v b o.same_sizes,
        λ q. (let (f, c, z) = o.there (ground (arith, q)) in fresh full w v f b o.same_sizes c z),
      )

  pub rotated :
      Triple
        (λ w. Rests p G (view p w) × (w.jfsize_pgs ≤ w.cache.pg_cntr))
        rotate_file
        (λ res w. (full : ℕ) × Rotated full res (view p w))
        Only
  unfolding rotate_file
  rotated = record {
    apply = λ w h.
        (Triple.bind (rotating (view p w).file.full) (λ res.
            Triple.seq
              (framed p (Rotated (view p w).file.full res)
                (frame_chk (Rotated (view p w).file.full res)))
              (Triple.returned res (λ s q. ((view p w).file.full, q))))).apply
          (record w { cache = record w.cache { pg_cntr = 0 } }) (ends w h.0 h.1);
  }
    where
      frame_chk : (P : View → Type 0) → Frames p P chk_wr_frot
      frame_chk P =
          unfold chk_wr_frot in same p P chk_wr_frot (λ w. ground arith) (λ w. ground arith)
