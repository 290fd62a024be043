-- ===== src/FileHdr.antt =====
-- lib/jrnl/file_hdr.hpp: the header of a journal file, in the layout of a 64-bit little-endian host.
-- What `clock_gettime` returns is an argument: the time, or `none` on failure.
use qpid_cpp_store_debian.Prelude.{
  ℕ, ◌≡◌, refl, Bool, Option, none, some, List, ◌++◌, length, if◌then◌else◌,
}
use qpid_cpp_store_debian.Prelude.Control.{Result, ok, throw, M, jerr_rtclock}
use qpid_cpp_store_debian.Records.{RecHdr, hdr_bytes, le, owi_mask}

pub record FileHdr : Type 0 where
  pub hdr : RecHdr
  pub pfid : ℕ
  pub lfid : ℕ
  pub res : ℕ
  pub fro : ℕ
  pub ts_sec : ℕ
  pub ts_nsec : ℕ
  pub filler2 : ℕ

abbrev pub file_magic : ℕ
file_magic = 0x664d4852

-- The convenience constructor of `rec_hdr`.
abbrev pub rec_hdr : ℕ → ℕ → ℕ → Bool → RecHdr
rec_hdr magic version rid owi = record {
  magic = magic;
  version = version;
  eflag = 0;
  uflag = if owi then owi_mask else 0;
  rid = rid;
}

abbrev pub set_time : Option (ℕ × ℕ) → M FileHdr (Unit {0})
set_time now h = elim now [
  | none ↦ (throw jerr_rtclock, h)
  | some (sec, nsec) ↦ (ok tt, record h { ts_sec = sec; ts_nsec = nsec })
]

-- The convenience constructor.
unfoldable pub file_hdr :
    ℕ → ℕ → ℕ → ℕ → ℕ → ℕ → Bool → Bool → Option (ℕ × ℕ) → Result (Unit {0}) × FileHdr
file_hdr magic version rid pfid lfid fro owi settime now =
    let h : FileHdr = record {
      hdr = rec_hdr magic version rid owi;
      pfid = pfid;
      lfid = lfid;
      res = 0;
      fro = fro;
      ts_sec = 0;
      ts_nsec = 0;
      filler2 = 0;
    } in
    if settime then set_time now h else (ok tt, h)

unfoldable pub file_hdr_bytes : FileHdr → List ℕ
unfolding hdr_bytes
file_hdr_bytes h =
    hdr_bytes h.hdr
    ++ (le 2 h.pfid
        ++ (le 2 h.lfid
            ++ (le 4 h.res
                ++ (le 8 h.fro ++ (le 8 h.ts_sec ++ (le 4 h.ts_nsec ++ le 4 h.filler2))))))

pub length-file_hdr_bytes : (h : FileHdr) → length (file_hdr_bytes h) ≡ 48
unfolding file_hdr_bytes
length-file_hdr_bytes h = refl
