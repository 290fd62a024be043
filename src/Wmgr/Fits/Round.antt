-- ===== src/Wmgr/Fits/Round.antt =====
-- A round of the loops of `wmgr::enqueue`, `dequeue`, `abort` and `commit` (lib/jrnl/wmgr.cpp): it
-- writes at least one data block, and keeps the cache and the file in step.
use qpid_cpp_store_debian.Prelude.{
  ℕ, ◌+◌, ◌-◌, ◌*◌, ◌^◌, ◌≤◌, ◌<◌, ◌≡◌, refl, sym, ap, subst, true, List, [], ◌∷◌, ◌++◌, ltb, add32,
  sub32, arith, inl, inr,
}
use qpid_cpp_store_debian.Prelude.Control.{Result, ok, ◌>>◌}
use qpid_cpp_store_debian.Prelude.Control.Triple
use qpid_cpp_store_debian.Prelude.Control.Triple.{Triple, Holds}
use qpid_cpp_store_debian.DataTok.{DataTok}
use qpid_cpp_store_debian.Wmgr.State.{
  Wmgr, Busy, Cache, PageCb, page_dblks, alter_page, set_tok, on_cache, overwrite, update,
}
use qpid_cpp_store_debian.Wmgr.Ops.{Job, wrote, fill_page}
use qpid_cpp_store_debian.Wmgr.Frame.{View, view, Only, Frames, frame_alter_page}
use qpid_cpp_store_debian.Wmgr.Fits.{InCache}
use qpid_cpp_store_debian.Wmgr.Fits.Flush.{framed, one_more}
use qpid_cpp_store_debian.Wmgr.Fits.Rotate.{times_mono}
use qpid_cpp_store_debian.Wmgr.Fits.Check.{Writable}
use qpid_cpp_store_debian.Wmgr.Fits.Header.{Unheaded}

-- What an encoder of a record of `size` data blocks is to do: it returns, and writes at least one
-- block, as many as there is room for or are left.
abbrev pub Encodes : (ℕ → ℕ → Result (ℕ × List ℕ)) → ℕ → Type 0
Encodes encode size =
    (offs m : ℕ)
    → offs < size
    → 0 < m
    → m < 2 ^ 25
    → (n : ℕ) × (bytes : List ℕ) × (encode offs m ≡ ok (n, bytes))
      × (0 < n)
      × (n ≤ m)
      × (n ≤ size - offs)

-- A job whose encoder is such, whose record is below 2 ^ 31 data blocks, and whose completion leaves
-- the positions alone.
pub record IsSound (j : Job) : Type 1 where
  pub encodes : Encodes j.encode j.size
  pub small : j.size < 2 ^ 31
  pub completes : (P : View → Type 0) → Frames j.p P j.complete

-- What a round does to the page.
abbrev put_page : Job → Wmgr → List ℕ → PageCb → PageCb
put_page j w bytes g = record g {
  pbuff = overwrite g.pbuff (w.cache.pg_offset_dblks * 128) bytes;
  pdtokl = g.pdtokl ++ (j.p ∷ []);
}

abbrev further : ℕ → Cache → Cache
further ret c = record c {
  pg_offset_dblks = add32 c.pg_offset_dblks ret;
  cached_offset_dblks = add32 c.cached_offset_dblks ret;
}

fill_page-eq :
    (j : Job) (w : Wmgr) (ret : ℕ) (bytes : List ℕ)
    → ltb w.cache.pg_offset_dblks (page_dblks w.cache) ≡ true
    → j.encode (w.toks j.p).dblks_written (sub32 (page_dblks w.cache) w.cache.pg_offset_dblks)
      ≡ ok (ret, bytes)
    → fill_page j w
      ≡ (alter_page w.cache.pg_index (put_page j w bytes)
            >> (set_tok j.p (wrote ret w.wrfc.fc_index) >> on_cache (further ret)))
          w
unfolding fill_page
fill_page-eq j w ret bytes h e = rw (h, e) refl

add32-fits : (a b : ℕ) → a + b < 2 ^ 32 → add32 a b ≡ a + b
add32-fits a b h = omega (arith, h)

wrote-written :
    (p k ret i : ℕ) (toks : ℕ → DataTok)
    → (toks p).dblks_written ≡ k
    → k + ret < 2 ^ 32
    → (update toks p (wrote ret i (toks p)) p).dblks_written ≡ k + ret
wrote-written p k ret i toks e h = ground (arith, e, add32-fits k ret h)

-- Room in the page is room in the file.
room_in_file : (c jf q o : ℕ) → c < jf → o + 0 ≤ q → c * q + (o + 0) ≤ jf * q
room_in_file c jf q o h k =
    omega (arith, times_mono (c + 1) jf q (omega (arith, h)), one_more c q, k)

module _ (j : Job) (B : Busy → Type 0) where
  -- `k` blocks of the record are written.
  abbrev pub At : ℕ → Busy → ℕ → ℕ → Type 0
  At k b n pgs = B b × (n ≡ k) × (0 < pgs)

  abbrev pub Grown : ℕ → View → Type 0
  Grown k v = (k' : ℕ) × (k < k') × (k' ≤ j.size) × Unheaded j.p (At k') v

  -- The position after a round of `ret` blocks.
  abbrev after : ℕ → ℕ → Wmgr → View
  after ret i s = view j.p (record s {
    toks = update s.toks j.p (wrote ret i (s.toks j.p));
    cache = further ret s.cache;
  })

  grow_cache :
      (ret i : ℕ) (s : Wmgr)
      → ret ≤ 4 * s.cache.cache_pgsize_sblks - s.cache.pg_offset_dblks
      → InCache 0 (view j.p s).at
      → InCache 0 (after ret i s).at
  grow_cache ret i s r c = record {
    pages = c.pages;
    few = c.few;
    placed = c.placed;
    pgsize_pos = c.pgsize_pos;
    pgsize_small = c.pgsize_small;
    cached_in = omega (arith, r, c.cached_in, c.inside, c.pgsize_small);
    aligned = omega (arith, r, c.aligned, c.cached_in, c.inside, c.pgsize_small);
    inside = omega (arith, r, c.inside, c.pgsize_small);
  }

  grow_other :
      (k ret i : ℕ) (s : Wmgr)
      → k + ret < 2 ^ 32
      → At k s.busy (s.toks j.p).dblks_written s.jfsize_pgs
      → At (k + ret) s.busy (after ret i s).written s.jfsize_pgs
  grow_other k ret i s m (b, e, n) = (b, wrote-written j.p k ret i s.toks e m, n)

  grow :
      (k ret i : ℕ) (s : Wmgr)
      → k + ret < 2 ^ 32
      → 0 < ret
      → ret ≤ 4 * s.cache.cache_pgsize_sblks - s.cache.pg_offset_dblks
      → Writable j.p (At k) (view j.p s)
      → Unheaded j.p (At (k + ret)) (after ret i s)
  grow k ret i s m pos r (inl h, o, c) = (
    inl record {
      cache = grow_cache ret i s r h.cache;
      file = record {
        active = h.file.active;
        full = h.file.full;
        small = h.file.small;
        sized = h.file.sized;
        within =
            room_in_file s.cache.pg_cntr s.jfsize_pgs (4 * s.cache.cache_pgsize_sblks)
              (further ret s.cache).pg_offset_dblks c (grow_cache ret i s r h.cache).inside;
        counted =
            omega
              (arith, h.file.counted, r, h.cache.cached_in, h.cache.inside, h.cache.pgsize_small);
      };
      other = grow_other k ret i s m h.other;
    },
    (omega (arith, pos, r, h.cache.cached_in, h.cache.inside, h.cache.pgsize_small), c),
  )
  grow k ret i s m pos r (inr (h, h', h''), o, c) = (
    inr (
      record {
        active = h.active;
        full = h.full;
        small = h.small;
        sized = h.sized;
        within = omega (
          arith,
          room_in_file s.cache.pg_cntr s.jfsize_pgs (4 * s.cache.cache_pgsize_sblks)
              (further ret s.cache).pg_offset_dblks c (grow_cache ret i s r h').inside,
        );
        void = h.void;
        first = h.first;
        unsubmitted = ap (λ x. add32 x ret) h.unsubmitted;
      },
      grow_cache ret i s r h',
      grow_other k ret i s m h'',
    ),
    (omega (arith, pos, r, h'.cached_in, h'.inside, h'.pgsize_small), c),
  )

  -- The position is that of `w`, and a record can go on there.
  abbrev Starts : ℕ → Wmgr → View → Type 0
  Starts k w v = Writable j.p (At k) v × (v ≡ view j.p w)

  -- A round that encodes `ret` blocks.
  filled_by :
      (k : ℕ) (w : Wmgr) (ret : ℕ) (bytes : List ℕ)
      → k + ret < 2 ^ 32
      → 0 < ret
      → ret ≤ 4 * w.cache.cache_pgsize_sblks - w.cache.pg_offset_dblks
      → Triple
          (λ s. Starts k w (view j.p s))
          (alter_page w.cache.pg_index (put_page j w bytes)
            >> (set_tok j.p (wrote ret w.wrfc.fc_index) >> on_cache (further ret)))
          (λ _ s. Unheaded j.p (At (k + ret)) (view j.p s))
          Only
  filled_by k w ret bytes m pos r =
      Triple.seq {k = set_tok j.p (wrote ret w.wrfc.fc_index) >> on_cache (further ret)}
        (framed j.p (Starts k w)
          (frame_alter_page j.p (Starts k w) w.cache.pg_index (put_page j w bytes)))
        (record {
          apply = λ s h.
              grow k ret w.wrfc.fc_index s m pos
                (subst (λ (v : View). ret ≤ 4 * v.at.pgsize_sblks - v.at.offset) (sym h.1) r) h.0;
        })

  cache_in : (k : ℕ) (v : View) → Writable j.p (At k) v → InCache 0 v.at
  cache_in k v (inl h, o, n) = h.cache
  cache_in k v (inr (h, c, g), o, n) = c

  other_holds : (k : ℕ) (v : View) → Writable j.p (At k) v → At k v.busy v.written v.jfsize_pgs
  other_holds k v (inl h, o, n) = h.other
  other_holds k v (inr (h, c, g), o, n) = g

  pub filled :
      (k : ℕ)
      → IsSound j
      → k < j.size
      → Triple
          (λ w. Writable j.p (At k) (view j.p w))
          (fill_page j)
          (λ _ w. Grown k (view j.p w))
          Only
  filled k sound small = record { apply = go }
    where
      go :
          (w : Wmgr)
          → Writable j.p (At k) (view j.p w)
          → Holds (λ _ w. Grown k (view j.p w)) Only (fill_page j w).0 (fill_page j w).1
      go w h =
          let c = cache_in k (view j.p w) h in
          let at : (w.toks j.p).dblks_written ≡ k = (other_holds k (view j.p w) h).1 in
          let room : 4 * w.cache.cache_pgsize_sblks - w.cache.pg_offset_dblks
              ≡ sub32 (page_dblks w.cache) w.cache.pg_offset_dblks =
            omega (arith, h.1, c.pgsize_small) in
          let (ret, bytes, e, pos, le, rest) =
            sound.encodes (w.toks j.p).dblks_written
              (sub32 (page_dblks w.cache) w.cache.pg_offset_dblks) (omega (arith, at, small))
              (omega (arith, room, h.1)) (omega (arith, room, c.pgsize_small)) in
          rw (fill_page-eq j w ret bytes (ground (arith, h.1, c.pgsize_small)) e) (
            (Triple.weaken
                (filled_by k w ret bytes (omega (arith, rest, at, small, sound.small)) pos
                  (omega (arith, le, room)))
                (λ s q. q)
                (λ a s q. (k + ret, omega (arith, pos), omega (arith, rest, at, small), q))
                (λ x s q. q)).apply
              w (h, refl))
