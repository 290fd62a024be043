-- ===== src/Records.antt =====
-- lib/jrnl/jrec.hpp, jrec.cpp, rec_hdr.hpp and rec_tail.hpp: what the three kinds of journal
-- records share. Layouts and sizes are those of a 64-bit little-endian host.
pub mod Copy
pub mod Slices
pub mod Pages
pub mod Chain
pub mod Enq
pub mod Deq
pub mod Txn
mod Tests
use Prim.Native.Nat.{bit_and, bit_or}
use qpid_cpp_store_debian.Prelude.{
  ℕ, zero, suc, ◌+◌, ◌-◌, ◌*◌, ◌/◌, ◌%◌, ◌^◌, ◌<◌, ◌≡◌, refl, ap, Bool, true, false, not, ◌||◌,
  Option, none, some, List, [], ◌∷◌, ◌++◌, length, length-append, if◌then◌else◌, ◌==◌, u32, u64,
  add64, sub64, arith,
}
use qpid_cpp_store_debian.Prelude.Control.{
  Result, ok, throw, jerr_jrec_badrechdr, jerr_jrec_badrectail,
}

abbrev pub dblk_size : ℕ
dblk_size = 128

abbrev pub sblk_size : ℕ
sblk_size = 4

-- `RHM_CLEAN_CHAR`; the build defines RHM_CLEAN.
abbrev pub clean_char : ℕ
clean_char = 0xff

abbrev pub txa_magic : ℕ
txa_magic = 0x614d4852

abbrev pub txc_magic : ℕ
txc_magic = 0x634d4852

abbrev pub deq_magic : ℕ
deq_magic = 0x644d4852

abbrev pub enq_magic : ℕ
enq_magic = 0x654d4852

abbrev pub jdat_version : ℕ
jdat_version = 1

abbrev pub owi_mask : ℕ
owi_mask = 0x1

-- `rec_hdr`, 16 bytes
pub record RecHdr : Type 0 where
  pub magic : ℕ
  pub version : ℕ
  pub eflag : ℕ
  pub uflag : ℕ
  pub rid : ℕ

-- `rec_tail`, 12 bytes
pub record RecTail : Type 0 where
  pub xmagic : ℕ
  pub rid : ℕ

-- `~m` of a `u_int32_t`
abbrev pub not32 : ℕ → ℕ
not32 m = 2 ^ 32 - 1 - m

-- A `u_int16_t` flag word with the bits of `mask` set or cleared.
abbrev pub put_flag : ℕ → Bool → ℕ → ℕ
put_flag mask true flags = bit_or flags mask
put_flag mask false flags = bit_and flags (2 ^ 16 - 1 - mask)

abbrev pub has_flag : ℕ → ℕ → Bool
has_flag mask flags = not (bit_and flags mask == 0)

-- The `n` low bytes of `v`, least first.
abbrev pub le : ℕ → ℕ → List ℕ
le zero v = []
le (suc n) v = v % 256 ∷ le n (v / 256)

pub length-le : (n v : ℕ) → length (le n v) ≡ n
length-le zero v = refl
length-le (suc n) v = ap suc (length-le n (v / 256))

unfoldable pub hdr_bytes : RecHdr → List ℕ
hdr_bytes h = le 4 h.magic ++ (le 1 h.version ++ (le 1 h.eflag ++ (le 2 h.uflag ++ le 8 h.rid)))

unfoldable pub tail_bytes : RecTail → List ℕ
tail_bytes t = le 4 t.xmagic ++ le 8 t.rid

pub length-hdr_bytes : (h : RecHdr) → length (hdr_bytes h) ≡ 16
unfolding hdr_bytes
length-hdr_bytes h = refl

pub length-tail_bytes : (t : RecTail) → length (tail_bytes t) ≡ 12
unfolding tail_bytes
length-tail_bytes t = refl

-- `size_blks`, in `size_t`, returned as `u_int32_t`
unfoldable pub size_blks : ℕ → ℕ → ℕ
size_blks size blksize = u32 (sub64 (add64 size blksize) 1 / blksize)

unfoldable pub size_dblks : ℕ → ℕ
unfolding size_blks
size_dblks size = size_blks size dblk_size

pub size_dblks_lem : (size : ℕ) → size < 2 ^ 38 → size_dblks size ≡ (size + 127) / 128
unfolding size_dblks
size_dblks_lem size h = omega arith

-- `jrec::chk_hdr`, `chk_rid` and `chk_tail`
unfoldable pub chk_hdr : RecHdr → Result (Unit {0})
chk_hdr h =
    if h.magic == 0
    then throw jerr_jrec_badrechdr
    else if not (h.version == jdat_version)
    then throw jerr_jrec_badrechdr
    else if not (h.eflag == 0)
    then throw jerr_jrec_badrechdr
    else ok tt

unfoldable pub chk_rid : RecHdr → ℕ → Result (Unit {0})
chk_rid h rid = if h.rid == rid then ok tt else throw jerr_jrec_badrechdr

unfoldable pub chk_tail : RecTail → RecHdr → Result (Unit {0})
chk_tail t h =
    if not (t.xmagic == not32 h.magic)
    then throw jerr_jrec_badrectail
    else if not (t.rid == h.rid)
    then throw jerr_jrec_badrectail
    else ok tt
