-- ===== src/Wmgr/Init.antt =====
-- `pmgr::initialize` and `wmgr::initialize` of lib/jrnl/pmgr.cpp and wmgr.cpp. Memory is allocated
-- anew and does not run out; what it holds at first is not set by the source, here it is zero.
use qpid_cpp_store_debian.Prelude.{
  ℕ, zero, suc, ◌+◌, ◌-◌, ◌*◌, ◌/◌, ◌%◌, ◌^◌, Bool, false, none, List, [], ◌∷◌, replicate, ◌==◌,
  if◌then◌else◌, u32, sub32, mul32,
}
use qpid_cpp_store_debian.Prelude.Control.{ok, M, ◌>>◌, require, assertion}
use qpid_cpp_store_debian.Lpmgr.{num_jfiles}
use qpid_cpp_store_debian.Wmgr.State.{Wmgr, Cache, Busy, PageCb, PageState, alter_page}

abbrev pub not_busy : Busy
not_busy = record { enq_busy = false; deq_busy = false; abort_busy = false; commit_busy = false }

-- The control blocks of `n` pages from number `i` on.
unfoldable pub new_pages : ℕ → ℕ → ℕ → List PageCb
new_pages pgsize_sblks i zero = []
new_pages pgsize_sblks i (suc n) =
    record {
      index = i;
      state = PageState.unused;
      wdblks = 0;
      rdblks = 0;
      pdtokl = [];
      wfh = none;
      pbuff = replicate (pgsize_sblks * 512) 0;
    }
    ∷ new_pages pgsize_sblks (i + 1) n

-- `pmgr::initialize`
unfoldable pub new_cache : ℕ → ℕ → Cache
unfolding new_pages
new_cache pgsize_sblks num_pages = record {
  cache_pgsize_sblks = pgsize_sblks;
  cache_num_pages = num_pages;
  page_cb_arr = new_pages pgsize_sblks 0 num_pages;
  pg_index = 0;
  pg_cntr = 0;
  pg_offset_dblks = 0;
  cached_offset_dblks = 0;
}

-- The three-argument `wmgr::initialize`.
unfoldable pub initialize_pages : Bool → ℕ → ℕ → M Wmgr (Unit {0})
initialize_pages cbp pgsize_sblks num_pages = do
  (λ w. (
    ok tt,
    record w {
      cbp = cbp;
      cache = new_cache pgsize_sblks num_pages;
      outside = record w.outside { aio_evt_rem = 0 };
      num_jfiles = num_jfiles w.wrfc.lpm;
      fhdr_arr = replicate (num_jfiles w.wrfc.lpm) none;
    },
  ))
  alter_page 0 (λ p. record p { state = PageState.in_use })
  (λ w. (ok tt, record w { busy = record w.busy { enq_busy = false } }))

-- Where writing goes on after a recovery whose data ends at the offset `eo` of a file.
unfoldable pub set_offset : ℕ → Cache → Cache
set_offset eo c =
    let wr_pg_size_dblks = mul32 c.cache_pgsize_sblks 4 in
    let data_dblks = u32 (eo / 128 + 2 ^ 64 - 4) in
    let pg_cntr = data_dblks / wr_pg_size_dblks in
    record c {
      pg_cntr = pg_cntr;
      pg_offset_dblks = sub32 data_dblks (mul32 pg_cntr wr_pg_size_dblks);
    }

unfoldable pub initialize : ℕ → Bool → ℕ → ℕ → ℕ → M Wmgr (Unit {0})
initialize jfsize_sblks cbp pgsize_sblks num_pages eo = do
  (λ w. (ok tt, record w { busy = not_busy }))
  initialize_pages cbp pgsize_sblks num_pages
  (λ w. (
    ok tt,
    record w { jfsize_dblks = mul32 jfsize_sblks 4; jfsize_pgs = jfsize_sblks / pgsize_sblks },
  ))
  require (jfsize_sblks % 128 == 0) assertion
  (λ w. (ok tt, record w { cache = if eo == 0 then w.cache else set_offset eo w.cache }))
