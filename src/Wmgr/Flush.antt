-- ===== src/Wmgr/Flush.antt =====
-- Submitting the current page and the headers of files to the AIO library, and going on to the next
-- page and file, in lib/jrnl/wmgr.cpp.
use qpid_cpp_store_debian.Prelude.{
  ℕ, zero, suc, ◌+◌, ◌-◌, ◌*◌, Bool, true, false, not, ◌&&◌, some, List, ◌∷◌, [], ◌++◌, set, take,
  drop, length, replicate, ltb, leb, ◌==◌, if◌then◌else◌, add16, add32, sub32, mul32,
}
use qpid_cpp_store_debian.Prelude.Control.{
  ok, throw, M, ◌>>=◌, ◌>>◌, pure, raise, get, require, undefined, assertion, jerr_aio,
  jerr_wmgr_badpgstate,
}
use qpid_cpp_store_debian.Fcntl
use qpid_cpp_store_debian.Fcntl.{Fcntl}
use qpid_cpp_store_debian.Wrfc
use qpid_cpp_store_debian.Wrfc.{Iores, iores_success, iores_page_aiowait}
use qpid_cpp_store_debian.Rrfc
use qpid_cpp_store_debian.FileHdr.{FileHdr, file_hdr, file_magic, file_hdr_bytes}
use qpid_cpp_store_debian.Records.{le, size_blks, clean_char, jdat_version}
use qpid_cpp_store_debian.Wmgr.State.{
  Wmgr, Cache, unused, in_use, aio_pending, PageCb, Aio, AioCb, page_io, header_io, page_dblks,
  with_wrfc, on_wr_file, on_cache, on_outside, put_page, alter_page, current_page, overwrite,
  is_unused, is_in_use, is_aio_pending,
}
use qpid_cpp_store_debian.Wmgr.Events.{get_events}

abbrev pub is_success : Iores → Bool
is_success r = elim r [ iores_success ↦ true | _ ↦ false ]

-- What the current file controller holds.
abbrev pub wr_file : M Wmgr Fcntl
wr_file = on_wr_file (λ f. (ok f, f))

-- `RHM_JDAT_EMPTY_MAGIC`
abbrev pub empty_magic : ℕ
empty_magic = 0x784d4852

-- A filler block, of JRNL_DBLK_SIZE bytes.
abbrev pub filler : List ℕ
filler = le 4 empty_magic ++ replicate 124 clean_char

-- One round of the loop of `dblk_roundup`.
unfoldable pub fill_dblk : M Wmgr (Unit {0})
fill_dblk = do
  w ← get
  alter_page w.cache.pg_index
      (λ p. record p { pbuff = overwrite p.pbuff (w.cache.pg_offset_dblks * 128) filler })
  on_cache (λ c. record c {
    pg_offset_dblks = add32 c.pg_offset_dblks 1;
    cached_offset_dblks = add32 c.cached_offset_dblks 1;
  })

-- As many rounds as blocks are missing: each adds one.
unfoldable pub roundup_loop : ℕ → M Wmgr (Unit {0})
roundup_loop zero = pure tt
roundup_loop (suc n) = fill_dblk >> roundup_loop n

unfoldable pub dblk_roundup : M Wmgr (Unit {0})
dblk_roundup = do
  w ← get
  let wdblks = mul32 (size_blks w.cache.cached_offset_dblks 4) 4
  roundup_loop (wdblks - w.cache.cached_offset_dblks)

-- `aio::submit` of one control block.
unfoldable pub submit : Aio → AioCb → M Wmgr (Unit {0})
submit io cb w =
    let o = w.outside in
    let w' : Wmgr = record w {
      outside = record o { calls = o.calls + 1; submitted = o.submitted ++ (cb ∷ []) };
    } in
    if io.submit o.calls cb
    then (ok tt, w')
    else (throw jerr_aio, record w { outside = record o { calls = o.calls + 1 } })

abbrev pub expect_event : M Wmgr (Unit {0})
expect_event = on_outside (λ o. record o { aio_evt_rem = add32 o.aio_evt_rem 1 })

unfoldable pub rotate_page : M Wmgr (Unit {0})
rotate_page = do
  w ← get
  alter_page w.cache.pg_index (λ p. record p { state = aio_pending })
  on_cache (λ c.
      let next = add16 c.pg_index 1 in
      let full = leb (page_dblks c) c.pg_offset_dblks in
      record c {
        pg_offset_dblks = if full then 0 else c.pg_offset_dblks;
        pg_cntr = if full then add32 c.pg_cntr 1 else c.pg_cntr;
        pg_index = if leb c.cache_num_pages next then 0 else next;
      })

-- `if (_page_cb_arr[_pg_index]._state == UNUSED) _page_cb_arr[_pg_index]._state = IN_USE;`
unfoldable pub use_page : M Wmgr (Unit {0})
use_page = do
  w ← get
  alter_page w.cache.pg_index
      (λ p. record p { state = if is_unused p.state then in_use else p.state })

-- The write of the current page: its blocks that are not submitted yet.
abbrev pub page_write : Cache → PageCb → Fcntl → AioCb
page_write c p f = record {
  obj = page_io c.pg_index;
  aio_fildes = f.wr_fh;
  buf =
      take (c.cached_offset_dblks * 128)
        (drop (sub32 c.pg_offset_dblks c.cached_offset_dblks * 128) p.pbuff);
  nbytes = mul32 c.cached_offset_dblks 128;
  offset = mul32 f.wr_subm_cnt_dblks 128;
}

-- "Send current page using AIO"
unfoldable pub send_page : Aio → M Wmgr (Unit {0})
send_page io = do
  dblk_roundup
  w ← get
  p ← current_page
  f ← wr_file
  put_page w.cache.pg_index
      (record p { wdblks = w.cache.cached_offset_dblks; wfh = w.wrfc.curr_fc })
  submit io (page_write w.cache p f)
  _ ← on_wr_file (Fcntl.add_wr_subm_cnt_dblks w.cache.cached_offset_dblks)
  _ ← on_wr_file Fcntl.incr_aio_cnt
  expect_event
  on_cache (λ c. record c { cached_offset_dblks = 0 })
  rotate_page
  use_page

-- The part of `write_flush` for a page with unwritten data.
unfoldable pub flush_page : Aio → M Wmgr Iores
flush_page io = do
  p ← current_page
  if is_aio_pending p.state
      then pure iores_page_aiowait
      else if not (is_in_use p.state)
      then raise jerr_wmgr_badpgstate
      else send_page io >> pure iores_success

unfoldable pub write_flush : Aio → M Wmgr Iores
write_flush io = do
  w ← get
  res ← if w.cache.cached_offset_dblks == 0 then pure iores_success else flush_page io
  _ ← get_events io unused false false
  use_page
  pure res

-- `jcntl::chk_wr_frot` and `rmgr::invalidate`: the reader's file is overwritten.
unfoldable pub chk_wr_frot : M Wmgr (Unit {0})
chk_wr_frot w =
    if w.wrfc.fc_index == w.rrfc.fc_index
    then (ok tt, record w { rrfc = if w.rrfc.valid then Rrfc.set_invalid w.rrfc else w.rrfc })
    else (ok tt, w)

unfoldable pub rotate_file : M Wmgr Iores
rotate_file = do
  on_cache (λ c. record c { pg_cntr = 0 })
  res ← with_wrfc Wrfc.rotate
  chk_wr_frot
  pure res

unfoldable pub flush : Aio → M Wmgr Iores
flush io = do
  res ← write_flush io
  w ← get
  if leb w.jfsize_pgs w.cache.pg_cntr
      then (do rfres ← rotate_file; pure (if is_success rfres then res else rfres))
      else pure res

-- `file_hdr fhdr(...)`, with the time of the clock.
unfoldable pub make_fhdr : Aio → ℕ → ℕ → ℕ → ℕ → M Wmgr FileHdr
make_fhdr io rid fid lid fro w =
    let o = w.outside in
    let (r, h) =
      file_hdr file_magic jdat_version rid fid lid fro w.wrfc.owi true (io.clock_gettime o.calls) in
    let w' : Wmgr = record w { outside = record o { calls = o.calls + 1 } } in
    elim r [ throw e ↦ (throw e, w') | ok _ ↦ (ok h, w') ]

-- A file header is written from a soft block of its own, the rest of it clean.
unfoldable pub write_fhdr : Aio → ℕ → ℕ → ℕ → ℕ → M Wmgr (Unit {0})
write_fhdr io rid fid lid fro = do
  h ← make_fhdr io rid fid lid fro
  w ← get
  require (ltb fid (length w.fhdr_arr)) undefined
  (λ w. (ok tt, record w { fhdr_arr = set w.fhdr_arr fid (some h) }))
  f ← wr_file
  submit io (record {
    obj = header_io fid;
    aio_fildes = f.wr_fh;
    buf = file_hdr_bytes h ++ replicate 464 clean_char;
    nbytes = 512;
    offset = 0;
  })
  expect_event
  _ ← on_wr_file (Fcntl.add_wr_subm_cnt_dblks 4)
  _ ← on_wr_file Fcntl.incr_aio_cnt
  on_wr_file (λ g. (ok tt, Fcntl.set_wr_fhdr_aio_outstanding true g))

-- The offset of the first record that begins in the file, zero when none does.
unfoldable pub first_record_offs : Bool → ℕ → ℕ → ℕ
first_record_offs cont rec_dblks_rem jfsize_dblks =
    if cont
    then if leb rec_dblks_rem jfsize_dblks && not (rec_dblks_rem == jfsize_dblks)
      then mul32 (add32 rec_dblks_rem 4) 128
      else 0
    else 512

unfoldable pub file_header_check : Aio → ℕ → Bool → ℕ → M Wmgr (Unit {0})
file_header_check io rid cont rec_dblks_rem = do
  f ← wr_file
  w ← get
  if Fcntl.wr_void f
      then write_fhdr io rid w.wrfc.fc_index w.wrfc.fc_index
          (first_record_offs cont rec_dblks_rem w.jfsize_dblks)
      else pure tt

-- The three reference parameters of `flush_check`.
pub record Loop : Type 0 where
  pub res : Iores
  pub cont : Bool
  pub done : Bool

-- "If file is full, rotate to next file"
unfoldable pub rotate_check : Loop → M Wmgr Loop
rotate_check l = do
  w ← get
  if leb w.jfsize_pgs w.cache.pg_cntr
      then (do
        rfres ← rotate_file
        pure (record {
          res = if is_success rfres then l.res else rfres;
          cont = if not l.done && is_success rfres then true else l.cont;
          done = if not l.done && not (is_success rfres) then true else l.done;
        }))
      else pure l

unfoldable pub flush_check : Aio → Loop → M Wmgr Loop
flush_check io l = do
  w ← get
  if leb (page_dblks w.cache) w.cache.pg_offset_dblks
      then (do
        res ← write_flush io
        require (is_success res) assertion
        p ← current_page
        rotate_check (
            if is_aio_pending p.state && not l.done
            then record { res = iores_page_aiowait; cont = l.cont; done = true }
            else record l { res = res }))
      else pure l
