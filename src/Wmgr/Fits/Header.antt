-- ===== src/Wmgr/Fits/Header.antt =====
-- `wmgr::file_header_check` of lib/jrnl/wmgr.cpp: the first record of a file brings its header.
use qpid_cpp_store_debian.Prelude.{
  ℕ, ◌*◌, ◌<◌, ◌≡◌, refl, ap, subst, ◌∙◌, Bool, true, false, some, length, replicate, ◌++◌, ◌==◌,
  ltb, set, add32, arith, inl, inr, ==_iff,
}
use qpid_cpp_store_debian.Prelude.Control.{ok, undefined}
use qpid_cpp_store_debian.Prelude.Control.Triple
use qpid_cpp_store_debian.Prelude.Control.Triple.{Triple, Holds}
use qpid_cpp_store_debian.Fcntl
use qpid_cpp_store_debian.Fcntl.{Fcntl}
use qpid_cpp_store_debian.FileHdr.{FileHdr, file_hdr, file_hdr_bytes}
use qpid_cpp_store_debian.Records.{clean_char}
use qpid_cpp_store_debian.Wmgr.State.{Busy, Aio, AioCb, header_io, on_wr_file}
use qpid_cpp_store_debian.Wmgr.Flush.{
  make_fhdr, write_fhdr, file_header_check, first_record_offs, wr_file,
}
use qpid_cpp_store_debian.Wmgr.Frame.{
  View, view, position, Only, Frames, same, frame_get, frame_require, frame_outside,
}
use qpid_cpp_store_debian.Wmgr.Frame.Files.{frame_on_wr_file, change_file}
use qpid_cpp_store_debian.Wmgr.Fits.{Runs}
use qpid_cpp_store_debian.Wmgr.Fits.Flush.{framed, add_subm_lem, subm-full}
use qpid_cpp_store_debian.Wmgr.Fits.Flush.Send.{frame_wr_file, frame_incr_aio, frame_submit}
use qpid_cpp_store_debian.Wmgr.Fits.Check.{Fresh, Steps}

module _ (p : ℕ) (G : Busy → ℕ → ℕ → Type 0) where
  -- A round has put blocks into the page.
  abbrev pub HasBlocks : View → Type 0
  HasBlocks v = (0 < v.at.cached) × (v.at.pg_cntr < v.jfsize_pgs)

  abbrev pub Filled : View → Type 0
  Filled v = Runs G 0 v × HasBlocks v

  abbrev FreshBlocks : View → Type 0
  FreshBlocks v = Fresh p G v × HasBlocks v

  frame_make :
      (P : View → Type 0) (io : Aio) (rid fid lid fro : ℕ)
      → Frames p P (make_fhdr io rid fid lid fro)
  unfolding make_fhdr file_hdr
  frame_make P io rid fid lid fro =
      same p P (make_fhdr io rid fid lid fro) (λ w. ground arith) (λ w. ground arith)

  frame_put_hdr :
      (P : View → Type 0) (fid : ℕ) (h : FileHdr)
      → Frames p P (λ w. (ok tt, record w { fhdr_arr = set w.fhdr_arr fid (some h) }))
  frame_put_hdr P fid h = same p P _ (λ w. refl) (λ w. refl)

  header_counted :
      Triple
        (λ w. FreshBlocks (view p w))
        (on_wr_file (Fcntl.add_wr_subm_cnt_dblks 4))
        (λ _ w. Filled (view p w))
        Only
  header_counted =
      change_file p (Fcntl.add_wr_subm_cnt_dblks 4) FreshBlocks (λ _. Filled) (subm-full 4) go
    where
      go :
          (v : View) (f : Fcntl)
          → v.file ≡ position (some f)
          → FreshBlocks v
          → Holds
              (λ _ k. Filled (record v { file = position (some k) }))
              Only
              (Fcntl.add_wr_subm_cnt_dblks 4 f).0
              (Fcntl.add_wr_subm_cnt_dblks 4 f).1
      go v f e ((s, c, o), b) =
          let subm : v.file.subm ≡ f.wr_subm_cnt_dblks = ap (λ x. x.subm) e in
          let full : v.file.full ≡ f.ffull_dblks = ap (λ x. x.full) e in
          rw
            (add_subm_lem 4 f (omega (arith, subm, full, s.full, s.void))
              (omega (arith, full, s.small)))
            (
              record {
                cache = c;
                file = record {
                  active = refl;
                  full = omega (arith, full, s.full);
                  small = omega (arith, full, s.small);
                  sized = λ i n q. s.sized i n q ∙ full;
                  within = omega (arith, s.within);
                  counted = omega (
                    arith,
                    subm,
                    s.void,
                    s.unsubmitted,
                    ap (λ n. n * (4 * v.at.pgsize_sblks)) s.first,
                  );
                };
                other = o;
              },
              b,
            )

  header_written :
      (io : Aio) (rid fid lid fro : ℕ)
      → Triple
          (λ w. FreshBlocks (view p w))
          (write_fhdr io rid fid lid fro)
          (λ _ w. Filled (view p w))
          Only
  unfolding write_fhdr
  header_written io rid fid lid fro =
      Triple.bind (framed p FreshBlocks (frame_make FreshBlocks io rid fid lid fro)) (λ h.
        Triple.bind (framed p FreshBlocks (frame_get p FreshBlocks)) (λ w.
          Triple.seq
            (framed p FreshBlocks
              (frame_require p FreshBlocks (ltb fid (length w.fhdr_arr)) undefined refl))
            (Triple.seq (framed p FreshBlocks (frame_put_hdr FreshBlocks fid h)) (
              Triple.bind (framed p FreshBlocks (frame_wr_file p FreshBlocks)) (λ f.
                Triple.seq
                  (framed p FreshBlocks (frame_submit p FreshBlocks io (header_cb fid h f)))
                  (Triple.seq
                    (framed p FreshBlocks (
                      frame_outside p FreshBlocks
                        (λ o. record o { aio_evt_rem = add32 o.aio_evt_rem 1 })))
                    (Triple.bind header_counted (λ _.
                      Triple.bind (framed p Filled (frame_incr_aio p Filled)) (λ _.
                        framed p Filled (
                          frame_on_wr_file p Filled
                            (λ g. (ok tt, Fcntl.set_wr_fhdr_aio_outstanding true g)) (λ g. refl)
                            (λ g. refl)))))))))))
    where
      header_cb : ℕ → FileHdr → Fcntl → AioCb
      header_cb fid h f = record {
        obj = header_io fid;
        aio_fildes = f.wr_fh;
        buf = file_hdr_bytes h ++ replicate 464 clean_char;
        nbytes = 512;
        offset = 0;
      }

  -- Blocks in a page of a file that is begun or not.
  abbrev pub Unheaded : View → Type 0
  Unheaded v = Steps p G v × HasBlocks v

  abbrev Read : Fcntl → View → Type 0
  Read f v = Unheaded v × (v.file ≡ position (some f))

  reads_position : Triple (λ w. Unheaded (view p w)) wr_file (λ f w. Read f (view p w)) Only
  reads_position =
      change_file p (λ f. (ok f, f)) Unheaded Read (λ f. refl)
        (λ v f e h. (subst Unheaded (λ i. record v { file = e i }) h, refl))

  void_fresh : (f : Fcntl) (v : View) → Read f v → (f.wr_subm_cnt_dblks == 0) ≡ true → FreshBlocks v
  void_fresh f v ((inr h, b), e) z = (h, b)
  void_fresh f v ((inl h, b), e) z =
      let subm : v.file.subm ≡ f.wr_subm_cnt_dblks = ap (λ x. x.subm) e in
      absurd
        (omega (arith, subm, (==_iff f.wr_subm_cnt_dblks 0).0 z, h.file.counted, h.cache.cached_in))

  begun : (f : Fcntl) (v : View) → Read f v → (f.wr_subm_cnt_dblks == 0) ≡ false → Filled v
  begun f v ((inl h, b), e) z = (h, b)
  begun f v ((inr (h, c, o), b), e) z =
      let subm : v.file.subm ≡ f.wr_subm_cnt_dblks = ap (λ x. x.subm) e in
      absurd (ground (arith, subm, z, h.void))

  pub header_checked :
      (io : Aio) (rid : ℕ) (cont : Bool) (rem : ℕ)
      → Triple
          (λ w. Unheaded (view p w))
          (file_header_check io rid cont rem)
          (λ _ w. Filled (view p w))
          Only
  unfolding file_header_check
  header_checked io rid cont rem = Triple.bind reads_position (λ f.
      Triple.bind (framed p (Read f) (frame_get p (Read f))) (λ w.
        Triple.choose (Fcntl.wr_void f)
          (λ z.
            Triple.weaken
              (header_written io rid w.wrfc.fc_index w.wrfc.fc_index
                (first_record_offs cont rem w.jfsize_dblks))
              (λ s h. void_fresh f (view p s) h z) (λ a s q. q) (λ x s q. q))
          (λ z. Triple.returned tt (λ s h. begun f (view p s) h z))))
