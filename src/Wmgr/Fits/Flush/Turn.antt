-- ===== src/Wmgr/Fits/Flush/Turn.antt =====
-- The counts that lib/jrnl/wmgr.cpp takes when it submits a page, and its turn to the next page.
use qpid_cpp_store_debian.Prelude.{
  ℕ, ◌+◌, ◌*◌, ◌%◌, ◌^◌, ◌≤◌, ◌<◌, ◌≡◌, refl, ap, ◌∙◌, dec_lt, Bool, true, false, some, get_elem?,
  leb, add16, add32, if◌then◌else◌, arith,
}
use qpid_cpp_store_debian.Prelude.Control.Triple
use qpid_cpp_store_debian.Prelude.Control.Triple.{Triple, Holds}
use qpid_cpp_store_debian.Fcntl
use qpid_cpp_store_debian.Fcntl.{Fcntl}
use qpid_cpp_store_debian.Wmgr.State.{Wmgr, Busy, Cache, PageState, on_wr_file, page_dblks}
use qpid_cpp_store_debian.Wmgr.Flush.{rotate_page}
use qpid_cpp_store_debian.Wmgr.Frame.{position, View, view, Only, frame_get, frame_alter_page}
use qpid_cpp_store_debian.Wmgr.Frame.Files.{change_file}
use qpid_cpp_store_debian.Wmgr.Fits.{InCache, Runs}
use qpid_cpp_store_debian.Wmgr.Fits.Flush.{
  framed, moves, add_subm_lem, subm-full, one_more, le_times, Fills,
}

module _ (p : ℕ) (G : Busy → ℕ → ℕ → Type 0) where
  -- The current page is being submitted, `c` blocks of it; `sent` tells whether they are counted yet.
  pub record Sends (c : ℕ) (sent : Bool) (v : View) : Type 0 where
    pub cache : InCache 0 v.at
    pub whole : v.at.cached % 4 ≡ 0
    pub same : v.at.cached ≡ c
    pub active : v.file.active ≡ true
    pub full : v.file.full ≡ 4 + v.jfsize_pgs * (4 * v.at.pgsize_sblks)
    pub small : v.file.full < 2 ^ 32
    pub sized : (i n : ℕ) → get_elem? v.sizes i ≡ some (some n) → n ≡ v.file.full
    pub within :
        v.at.pg_cntr * (4 * v.at.pgsize_sblks) + v.at.offset
        ≤ v.jfsize_pgs * (4 * v.at.pgsize_sblks)
    pub counted :
        v.file.subm + (if sent then 0 else c)
        ≡ 4 + (v.at.pg_cntr * (4 * v.at.pgsize_sblks) + v.at.offset)
    pub other : G v.busy v.written v.jfsize_pgs

  pub start-Sends : (v : View) → Fills p G 0 v → Sends v.at.cached false v
  start-Sends v (h, e) = record {
    cache = h.cache;
    whole = omega (arith, e);
    same = refl;
    active = h.file.active;
    full = h.file.full;
    small = h.file.small;
    sized = h.file.sized;
    within = omega (arith, h.file.within);
    counted = h.file.counted;
    other = h.other;
  }

  pub count_sent :
      (c : ℕ)
      → Triple
          (λ w. Sends c false (view p w))
          (on_wr_file (Fcntl.add_wr_subm_cnt_dblks c))
          (λ _ w. Sends c true (view p w))
          Only
  count_sent c =
      change_file p (Fcntl.add_wr_subm_cnt_dblks c) (Sends c false) (λ _. Sends c true)
        (subm-full c) go
    where
      go :
          (v : View) (f : Fcntl)
          → v.file ≡ position (some f)
          → Sends c false v
          → Holds
              (λ _ k. Sends c true (record v { file = position (some k) }))
              Only
              (Fcntl.add_wr_subm_cnt_dblks c f).0
              (Fcntl.add_wr_subm_cnt_dblks c f).1
      go v f e s =
          let subm : v.file.subm ≡ f.wr_subm_cnt_dblks = ap (λ x. x.subm) e in
          let full : v.file.full ≡ f.ffull_dblks = ap (λ x. x.full) e in
          rw
            (add_subm_lem c f (omega (arith, subm, full, s.full, s.within, s.counted))
              (omega (arith, full, s.small)))
            (record {
              cache = s.cache;
              whole = s.whole;
              same = s.same;
              active = refl;
              full = omega (arith, full, s.full);
              small = omega (arith, full, s.small);
              sized = λ i n q. s.sized i n q ∙ full;
              within = s.within;
              counted = omega (arith, subm, s.counted);
              other = s.other;
            })

  -- All of the current page is submitted.
  abbrev pub Sent : View → Type 0
  Sent v = Runs G 0 v × (v.at.cached ≡ 0) × (v.at.offset % 4 ≡ 0)

  -- The current page has room.
  abbrev pub Rests : View → Type 0
  Rests v = Runs G 0 v × (v.at.offset < 4 * v.at.pgsize_sblks)

  pub went_out :
      (c : ℕ) (w : Wmgr)
      → Sends c true (view p w)
      → Sent (view p (record w { cache = record w.cache { cached_offset_dblks = 0 } }))
  went_out c w s =
      let even : w.cache.pg_offset_dblks % 4 ≡ 0 =
        omega (arith, s.whole, s.cache.aligned, s.cache.cached_in) in
      (
        record {
          cache = record {
            pages = s.cache.pages;
            few = s.cache.few;
            placed = s.cache.placed;
            pgsize_pos = s.cache.pgsize_pos;
            pgsize_small = s.cache.pgsize_small;
            cached_in = omega arith;
            aligned = omega (arith, even);
            inside = s.cache.inside;
          };
          file = record {
            active = s.active;
            full = s.full;
            small = s.small;
            sized = s.sized;
            within = omega (arith, s.within);
            counted = s.counted;
          };
          other = s.other;
        },
        refl,
        even,
      )

  abbrev turned : Cache → Cache
  turned c =
      let next = add16 c.pg_index 1 in
      let full = leb (page_dblks c) c.pg_offset_dblks in
      record c {
        pg_offset_dblks = if full then 0 else c.pg_offset_dblks;
        pg_cntr = if full then add32 c.pg_cntr 1 else c.pg_cntr;
        pg_index = if leb c.cache_num_pages next then 0 else next;
      }

  turn_part :
      (w : Wmgr)
      → Sent (view p w)
      → w.cache.pg_offset_dblks < 4 * w.cache.cache_pgsize_sblks
      → Rests (view p (record w { cache = turned w.cache }))
  turn_part w (h, z, e) l =
      let part : leb (page_dblks w.cache) w.cache.pg_offset_dblks ≡ false =
        ground (arith, h.cache.pgsize_small) in
      rw part (
        record {
          cache = record {
            pages = h.cache.pages;
            few = h.cache.few;
            placed = ground (arith, h.cache.placed, h.cache.few);
            pgsize_pos = h.cache.pgsize_pos;
            pgsize_small = h.cache.pgsize_small;
            cached_in = h.cache.cached_in;
            aligned = h.cache.aligned;
            inside = h.cache.inside;
          };
          file = record {
            active = h.file.active;
            full = h.file.full;
            small = h.file.small;
            sized = h.file.sized;
            within = h.file.within;
            counted = h.file.counted;
          };
          other = h.other;
        },
        l,
      )

  turn_full :
      (w : Wmgr)
      → Sent (view p w)
      → 4 * w.cache.cache_pgsize_sblks ≤ w.cache.pg_offset_dblks
      → Rests (view p (record w { cache = turned w.cache }))
  turn_full w (h, z, e) l =
      let full : leb (page_dblks w.cache) w.cache.pg_offset_dblks ≡ true =
        ground (arith, h.cache.pgsize_small) in
      let page = 4 * w.cache.cache_pgsize_sblks in
      let low : w.cache.pg_cntr ≤ w.cache.pg_cntr * page =
        le_times w.cache.pg_cntr page (omega (arith, h.cache.pgsize_pos)) in
      let next : add32 w.cache.pg_cntr 1 ≡ w.cache.pg_cntr + 1 =
        omega (arith, low, h.file.within, h.file.full, h.file.small) in
      let more : add32 w.cache.pg_cntr 1 * page ≡ w.cache.pg_cntr * page + page =
        ap (λ n. n * page) next ∙ one_more w.cache.pg_cntr page in
      rw full (
        record {
          cache = record {
            pages = h.cache.pages;
            few = h.cache.few;
            placed = ground (arith, h.cache.placed, h.cache.few);
            pgsize_pos = h.cache.pgsize_pos;
            pgsize_small = h.cache.pgsize_small;
            cached_in = omega (arith, z);
            aligned = omega arith;
            inside = omega arith;
          };
          file = record {
            active = h.file.active;
            full = h.file.full;
            small = h.file.small;
            sized = h.file.sized;
            within = omega (arith, more, h.file.within, h.cache.inside, l);
            counted = omega (arith, more, h.file.counted, h.cache.inside, l);
          };
          other = h.other;
        },
        omega (arith, h.cache.pgsize_pos),
      )

  turn : (w : Wmgr) → Sent (view p w) → Rests (view p (record w { cache = turned w.cache }))
  turn w s = elim (dec_lt w.cache.pg_offset_dblks (4 * w.cache.cache_pgsize_sblks)) [
    | yes l ↦ turn_part w s l
    | no l ↦ turn_full w s (omega (arith, l))
  ]

  pub rotates : Triple (λ w. Sent (view p w)) rotate_page (λ _ w. Rests (view p w)) Only
  unfolding rotate_page
  rotates = Triple.bind (framed p Sent (frame_get p Sent)) (λ w.
      Triple.seq
        (framed p Sent (
          frame_alter_page p Sent w.cache.pg_index
            (λ g. record g { state = PageState.aio_pending })))
        (moves p turned Sent Rests turn))
