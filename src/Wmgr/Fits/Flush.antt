-- ===== src/Wmgr/Fits/Flush.antt =====
-- Submitting a page in lib/jrnl/wmgr.cpp keeps the cache and the file in step.
pub mod Turn
pub mod Send
use qpid_cpp_store_debian.Prelude.{
  ℕ, zero, suc, ◌+◌, ◌-◌, ◌*◌, ◌%◌, ◌^◌, ◌≤◌, ◌<◌, ◌≡◌, refl, ap, ◌∙◌, dec_lt, Bool, true, false,
  some, get_elem?, leb, add16, add32, mul32, if◌then◌else◌, arith,
}
use qpid_cpp_store_debian.Prelude.Control.{ok, M, ◌>>=◌, ◌>>◌}
use qpid_cpp_store_debian.Prelude.Control.Triple
use qpid_cpp_store_debian.Prelude.Control.Triple.{Triple, Holds}
use qpid_cpp_store_debian.Records.{size_blks}
use qpid_cpp_store_debian.Fcntl
use qpid_cpp_store_debian.Fcntl.{Fcntl}
use qpid_cpp_store_debian.Wmgr.State.{
  Wmgr, Busy, Cache, PageState, Aio, AioCb, on_cache, on_wr_file, page_dblks, overwrite, is_unused,
}
use qpid_cpp_store_debian.Wmgr.Flush.{
  fill_dblk, roundup_loop, dblk_roundup, filler, rotate_page, use_page, submit, expect_event,
  page_write, send_page, wr_file,
}
use qpid_cpp_store_debian.Wmgr.Frame.{
  position, View, view, Only, Frames, same, frame_bind, frame_pure, frame_get, frame_alter_page,
  frame_outside, frame_current_page, frame_put_page, fine,
}
use qpid_cpp_store_debian.Wmgr.Frame.Files.{change_file, frame_on_wr_file}
use qpid_cpp_store_debian.Wmgr.Fits.{InCache, Runs}

pub add_subm_lem :
    (c : ℕ) (f : Fcntl)
    → f.wr_subm_cnt_dblks + c ≤ f.ffull_dblks
    → f.ffull_dblks < 2 ^ 32
    → Fcntl.add_wr_subm_cnt_dblks c f
      ≡ (ok (f.wr_subm_cnt_dblks + c), record f { wr_subm_cnt_dblks = f.wr_subm_cnt_dblks + c })
unfolding Fcntl.add_wr_subm_cnt_dblks
add_subm_lem c f h k = ground arith

pub subm-full :
    (c : ℕ) (f : Fcntl) → (Fcntl.add_wr_subm_cnt_dblks c f).1.ffull_dblks ≡ f.ffull_dblks
unfolding Fcntl.add_wr_subm_cnt_dblks
subm-full c f = ground arith

pub one_more : (n q : ℕ) → (n + 1) * q ≡ n * q + q
one_more n q = grind arith

pub le_times : (n q : ℕ) → 0 < q → n ≤ n * q
le_times n q h = grind arith

module _ (p : ℕ) where
  -- A property of the view that is framed, forgetting the state after an error.
  pub framed :
      {A : Type 0} {m : M Wmgr A} (P : View → Type 0)
      → Frames p P m
      → Triple (λ w. P (view p w)) m (λ _ w. P (view p w)) Only
  framed P h = Triple.weaken h (λ s q. q) (λ a s q. q) (λ e s q. q.1)

  pub moves :
      (g : Cache → Cache) (P Q : View → Type 0)
      → ((w : Wmgr) → P (view p w) → Q (view p (record w { cache = g w.cache })))
      → Triple (λ w. P (view p w)) (on_cache g) (λ _ w. Q (view p w)) Only
  moves g P Q h = record { apply = h }

  module _ (G : Busy → ℕ → ℕ → Type 0) where
    -- `n` blocks more make the unwritten data whole soft blocks.
    abbrev pub Fills : ℕ → View → Type 0
    Fills n v = Runs G n v × ((v.at.cached + n) % 4 ≡ 0)

    -- Filling up with `suc n` blocks, one done.
    step_dblk :
        (n : ℕ) (w : Wmgr)
        → Fills (suc n) (view p w)
        → Fills n (
            view p (record w {
              cache = record w.cache {
                pg_offset_dblks = add32 w.cache.pg_offset_dblks 1;
                cached_offset_dblks = add32 w.cache.cached_offset_dblks 1;
              };
            }))
    step_dblk n w (h, r) = (
      record {
        cache = ground arith;
        file = record {
          active = h.file.active;
          full = h.file.full;
          small = h.file.small;
          sized = h.file.sized;
          within = ground (arith, h.file.within, h.cache);
          counted = ground (arith, h.file.counted, h.cache);
        };
        other = h.other;
      },
      ground (arith, h.cache, r),
    )

    fill :
        (n : ℕ) → Triple (λ w. Fills (suc n) (view p w)) fill_dblk (λ _ w. Fills n (view p w)) Only
    unfolding fill_dblk
    fill n = Triple.bind (framed (Fills (suc n)) (frame_get p (Fills (suc n)))) (λ w.
        Triple.seq
          (framed (Fills (suc n)) (
            frame_alter_page p (Fills (suc n)) w.cache.pg_index
              (λ g. record g { pbuff = overwrite g.pbuff (w.cache.pg_offset_dblks * 128) filler })))
          (moves
            (λ c. record c {
              pg_offset_dblks = add32 c.pg_offset_dblks 1;
              cached_offset_dblks = add32 c.cached_offset_dblks 1;
            })
            (Fills (suc n)) (Fills n) (step_dblk n)))

    fill_all :
        (n : ℕ) → Triple (λ w. Fills n (view p w)) (roundup_loop n) (λ _ w. Fills 0 (view p w)) Only
    unfolding roundup_loop
    fill_all zero = framed (Fills 0) (frame_pure p (Fills 0) tt)
    fill_all (suc n) = Triple.seq (fill n) (fill_all n)

    abbrev missing : Cache → ℕ
    missing c = mul32 (size_blks c.cached_offset_dblks 4) 4 - c.cached_offset_dblks

    missing_lem :
        (c : Cache)
        → c.cached_offset_dblks < 2 ^ 31
        → (missing c < 4) × ((c.cached_offset_dblks + missing c) % 4 ≡ 0)
    unfolding size_blks
    missing_lem c h = (omega arith, omega arith)

    missing_fits : (w : Wmgr) → Runs G 0 (view p w) → Fills (missing w.cache) (view p w)
    missing_fits w h =
        let (few, whole) =
          missing_lem w.cache
            (omega (arith, h.cache.cached_in, h.cache.inside, h.cache.pgsize_small)) in
        (
          record {
            cache = record {
              pages = h.cache.pages;
              few = h.cache.few;
              placed = h.cache.placed;
              pgsize_pos = h.cache.pgsize_pos;
              pgsize_small = h.cache.pgsize_small;
              cached_in = h.cache.cached_in;
              aligned = h.cache.aligned;
              inside =
                  omega (arith, few, whole, h.cache.aligned, h.cache.cached_in, h.cache.inside);
            };
            file = record {
              active = h.file.active;
              full = h.file.full;
              small = h.file.small;
              sized = h.file.sized;
              within = omega (arith, few, whole, h.cache.aligned, h.cache.cached_in, h.file.within);
              counted = h.file.counted;
            };
            other = h.other;
          },
          whole,
        )

    pub roundup : Triple (λ w. Runs G 0 (view p w)) dblk_roundup (λ _ w. Fills 0 (view p w)) Only
    unfolding dblk_roundup
    roundup = record { apply = λ w h. (fill_all (missing w.cache)).apply w (missing_fits w h) }
