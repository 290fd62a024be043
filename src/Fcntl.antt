-- ===== src/Fcntl.antt =====
-- lib/jrnl/fcntl.hpp and fcntl.cpp: the controller of one journal file. `open` (the file handle that
-- `::open` returns, negative on failure) is an argument of what calls it.
pub mod Invariant
pub mod Behaviour
pub mod Clean
mod Tests
use qpid_cpp_store_debian.Prelude.{
  ℕ, zero, suc, ◌+◌, ◌-◌, ◌*◌, ◌/◌, ◌%◌, ◌^◌, Bool, true, false, not, ◌&&◌, ◌||◌, Option, none,
  some, List, [], ◌∷◌, ◌++◌, ◌≡◌, u16, u32, u64, add16, sub16, add32, sub32, mul32, ltb, leb, ◌==◌,
  if◌then◌else◌, get_elem?, ℤ, pos, negsuc,
}
use qpid_cpp_store_debian.Prelude.Control.{
  Result, ok, throw, M, ◌>>=◌, ◌>>◌, undefined, out_of_fuel, jerr_fcntl_openwr, jerr_underflow,
  jerr_malloc, jerr_fcntl_write, jerr_fcntl_close, jerr_fcntl_rdoffsovfl, jerr_fcntl_cmploffsovfl,
  jerr_fcntl_fileoffsovfl,
}
use qpid_cpp_store_debian.Rcvdat.{Rcvdat}

abbrev pub dblk_size : ℕ
dblk_size = 128

abbrev pub sblk_size : ℕ
sblk_size = 4

-- `wr_fh` is the file handle, `negsuc 0` for -1.
pub record Fcntl : Type 0 where
  pub fname : List ℕ
  pub pfid : ℕ
  pub lfid : ℕ
  pub ffull_dblks : ℕ
  pub wr_fh : ℤ
  pub rec_enqcnt : ℕ
  pub rd_subm_cnt_dblks : ℕ
  pub rd_cmpl_cnt_dblks : ℕ
  pub wr_subm_cnt_dblks : ℕ
  pub wr_cmpl_cnt_dblks : ℕ
  pub aio_cnt : ℕ
  pub fhdr_wr_aio_outstanding : Bool

-- A digit of `std::hex`, as a character code.
abbrev pub hex_digit : ℕ → ℕ
hex_digit d = if ltb d 10 then 48 + d else 87 + d

-- `setw(4) << setfill('0') << hex << pfid`: a 16-bit number has at most four digits.
abbrev pub hex4 : ℕ → List ℕ
hex4 n =
    hex_digit (n / 4096 % 16)
    ∷ hex_digit (n / 256 % 16)
    ∷ hex_digit (n / 16 % 16)
    ∷ hex_digit (n % 16)
    ∷ []

-- The base name, ".", the digits, and ".jdat".
unfoldable pub filename : List ℕ → ℕ → List ℕ
filename fbasename pfid = fbasename ++ ((46 ∷ hex4 pfid) ++ (46 ∷ 106 ∷ 100 ∷ 97 ∷ 116 ∷ []))

-- The write counters that a recovery sets, of a journal that is not empty.
unfoldable pub recovered : Rcvdat → Fcntl → Result (Unit {0}) × Fcntl
recovered ro f =
    let dblks = if ro.lfid == f.pfid then u32 (ro.eo / dblk_size) else f.ffull_dblks in
    let f' = record f { wr_subm_cnt_dblks = dblks; wr_cmpl_cnt_dblks = dblks } in
    elim (get_elem? ro.enq_cnt_list f.pfid) [
      | none ↦ (throw undefined, f')
      | some c ↦ (ok tt, record f' { rec_enqcnt = c })
    ]

-- The answers of the system to `clean_file`: whether `posix_memalign` gives a buffer, the handle that
-- `open` returns, what the `i`th `write`, of so many sblks, returns, and what `close` returns.
pub record CleanIo : Type 0 where
  pub memalign : Bool
  pub fh : ℤ
  pub write : ℕ → ℕ → ℤ
  pub close : ℤ

-- `== -1`
abbrev pub is_minus_one : ℤ → Bool
is_minus_one (pos n) = false
is_minus_one (negsuc n) = n == 0

-- `< 0`
abbrev pub is_negative : ℤ → Bool
is_negative (pos n) = false
is_negative (negsuc n) = true

-- `!= 0`
abbrev pub is_nonzero : ℤ → Bool
is_nonzero (pos n) = not (n == 0)
is_nonzero (negsuc n) = true

-- The loop that writes zeros from the `i`th write on: its outcome, and the sizes, in sblks, of the
-- writes it asked for. How much was written is not looked at. Each round takes at least one sblk.
unfoldable pub clean_loop : (ℕ → ℕ → ℤ) → ℕ → ℕ → ℕ → ℕ → Result (Unit {0}) × List ℕ
clean_loop write zero nullbuffsize nsblks i = (throw out_of_fuel, [])
clean_loop write (suc fuel) nullbuffsize nsblks i =
    let this_write = if leb nullbuffsize nsblks then nullbuffsize else nsblks in
    let rest = clean_loop write fuel nullbuffsize (nsblks - this_write) (i + 1) in
    if nsblks == 0
    then (ok tt, [])
    else if is_minus_one (write i this_write)
    then (throw jerr_fcntl_write, this_write ∷ [])
    else (rest.0, this_write ∷ rest.1)

-- After the loop.
abbrev pub clean_close : ℤ → Result (Unit {0}) → Result (Unit {0})
clean_close c (throw e) = throw e
clean_close c (ok a) = if is_nonzero c then throw jerr_fcntl_close else ok tt

unfoldable pub clean_file : CleanIo → ℕ → Result (Unit {0}) × List ℕ
unfolding clean_loop
clean_file io jfsize_sblks =
    let nsblks = add32 jfsize_sblks 1 in
    let written =
      clean_loop io.write (nsblks + 1) (if ltb 4096 nsblks then 4096 else nsblks) nsblks 0 in
    if not io.memalign
    then (throw jerr_malloc, [])
    else if is_negative io.fh
    then (throw jerr_fcntl_openwr, [])
    else (clean_close io.close written.0, written.1)

-- `initialize`; what `create_jfile` writes is `clean_file`.
unfoldable pub initialize : List ℕ → ℕ → ℕ → Option Rcvdat → M Fcntl (Unit {0})
initialize fbasename pfid lfid ro f =
    let f' = record f { pfid = pfid; lfid = lfid; fname = filename fbasename pfid } in
    elim ro [ none ↦ (ok tt, f') | some r ↦ if r.jempty then (ok tt, f') else recovered r f' ]

unfoldable pub open_wr_fh : ℤ → M Fcntl ℤ
open_wr_fh fh f = elim f.wr_fh [
  | pos h ↦ (ok (pos h), f)
  | negsuc h ↦ elim fh [
    | pos n ↦ (ok (pos n), record f { wr_fh = pos n })
    | negsuc n ↦ (throw jerr_fcntl_openwr, record f { wr_fh = negsuc n })
  ]
]

unfoldable pub close_wr_fh : Fcntl → Fcntl
close_wr_fh f = elim f.wr_fh [ pos h ↦ record f { wr_fh = negsuc 0 } | negsuc h ↦ f ]

-- The members before the constructor's body.
abbrev pub blank : ℕ → ℕ → ℕ → Fcntl
blank pfid lfid jfsize_sblks = record {
  fname = [];
  pfid = pfid;
  lfid = lfid;
  ffull_dblks = mul32 sblk_size (add32 jfsize_sblks 1);
  wr_fh = negsuc 0;
  rec_enqcnt = 0;
  rd_subm_cnt_dblks = 0;
  rd_cmpl_cnt_dblks = 0;
  wr_subm_cnt_dblks = 0;
  wr_cmpl_cnt_dblks = 0;
  aio_cnt = 0;
  fhdr_wr_aio_outstanding = false;
}

unfoldable pub new_fcntl : ℤ → List ℕ → ℕ → ℕ → ℕ → Option Rcvdat → Result ℤ × Fcntl
new_fcntl fh fbasename pfid lfid jfsize_sblks ro =
    (initialize fbasename pfid lfid ro >> open_wr_fh fh) (blank pfid lfid jfsize_sblks)

unfoldable pub rd_reset : Fcntl → Fcntl
rd_reset f = record f { rd_subm_cnt_dblks = 0; rd_cmpl_cnt_dblks = 0 }

-- The journal overflow test.
unfoldable pub wr_reset_unused : M Fcntl Bool
wr_reset_unused f =
    if not (f.rec_enqcnt == 0) || not (f.aio_cnt == 0)
    then (ok false, f)
    else (ok true, record f { wr_subm_cnt_dblks = 0; wr_cmpl_cnt_dblks = 0 })

unfoldable pub wr_reset : Option Rcvdat → M Fcntl Bool
wr_reset ro f = elim ro [
  | none ↦ wr_reset_unused f
  | some r ↦
      if r.jempty
      then wr_reset_unused f
      else (let (o, f') = recovered r f in
          elim o [ ok _ ↦ (ok true, f') | throw e ↦ (throw e, f') ])
]

unfoldable pub reset : Option Rcvdat → M Fcntl Bool
reset ro f = wr_reset ro (rd_reset f)

unfoldable pub incr_enqcnt : M Fcntl ℕ
incr_enqcnt f = (ok (add32 f.rec_enqcnt 1), record f { rec_enqcnt = add32 f.rec_enqcnt 1 })

unfoldable pub add_enqcnt : ℕ → M Fcntl ℕ
add_enqcnt a f = (ok (add32 f.rec_enqcnt a), record f { rec_enqcnt = add32 f.rec_enqcnt a })

unfoldable pub decr_enqcnt : M Fcntl ℕ
decr_enqcnt f =
    if f.rec_enqcnt == 0
    then (throw jerr_underflow, f)
    else (ok (f.rec_enqcnt - 1), record f { rec_enqcnt = f.rec_enqcnt - 1 })

unfoldable pub subtr_enqcnt : ℕ → M Fcntl ℕ
subtr_enqcnt s f =
    if ltb f.rec_enqcnt s
    then (throw jerr_underflow, f)
    else (ok (f.rec_enqcnt - s), record f { rec_enqcnt = f.rec_enqcnt - s })

unfoldable pub add_rd_subm_cnt_dblks : ℕ → M Fcntl ℕ
add_rd_subm_cnt_dblks a f =
    let n = add32 f.rd_subm_cnt_dblks a in
    if ltb f.wr_subm_cnt_dblks n
    then (throw jerr_fcntl_rdoffsovfl, f)
    else (ok n, record f { rd_subm_cnt_dblks = n })

unfoldable pub add_rd_cmpl_cnt_dblks : ℕ → M Fcntl ℕ
add_rd_cmpl_cnt_dblks a f =
    let n = add32 f.rd_cmpl_cnt_dblks a in
    if ltb f.rd_subm_cnt_dblks n
    then (throw jerr_fcntl_cmploffsovfl, f)
    else (ok n, record f { rd_cmpl_cnt_dblks = n })

unfoldable pub add_wr_subm_cnt_dblks : ℕ → M Fcntl ℕ
add_wr_subm_cnt_dblks a f =
    let n = add32 f.wr_subm_cnt_dblks a in
    if ltb f.ffull_dblks n
    then (throw jerr_fcntl_fileoffsovfl, f)
    else (ok n, record f { wr_subm_cnt_dblks = n })

unfoldable pub add_wr_cmpl_cnt_dblks : ℕ → M Fcntl ℕ
add_wr_cmpl_cnt_dblks a f =
    let n = add32 f.wr_cmpl_cnt_dblks a in
    if ltb f.wr_subm_cnt_dblks n
    then (throw jerr_fcntl_cmploffsovfl, f)
    else (ok n, record f { wr_cmpl_cnt_dblks = n })

unfoldable pub incr_aio_cnt : M Fcntl ℕ
incr_aio_cnt f = (ok (add16 f.aio_cnt 1), record f { aio_cnt = add16 f.aio_cnt 1 })

unfoldable pub decr_aio_cnt : M Fcntl ℕ
decr_aio_cnt f =
    if f.aio_cnt == 0
    then (throw jerr_underflow, f)
    else (ok (f.aio_cnt - 1), record f { aio_cnt = f.aio_cnt - 1 })

abbrev pub set_lfid : ℕ → Fcntl → Fcntl
set_lfid lfid f = record f { lfid = lfid }

abbrev pub set_wr_fhdr_aio_outstanding : Bool → Fcntl → Fcntl
set_wr_fhdr_aio_outstanding wfao f = record f { fhdr_wr_aio_outstanding = wfao }

-- The derived helper functions.
abbrev pub rd_remaining_dblks : Fcntl → ℕ
rd_remaining_dblks f = sub32 f.wr_cmpl_cnt_dblks f.rd_subm_cnt_dblks

abbrev pub is_rd_full : Fcntl → Bool
is_rd_full f = f.wr_cmpl_cnt_dblks == f.rd_subm_cnt_dblks

abbrev pub rd_aio_outstanding_dblks : Fcntl → ℕ
rd_aio_outstanding_dblks f = sub32 f.rd_subm_cnt_dblks f.rd_cmpl_cnt_dblks

abbrev pub wr_void : Fcntl → Bool
wr_void f = f.wr_subm_cnt_dblks == 0

abbrev pub wr_remaining_dblks : Fcntl → ℕ
wr_remaining_dblks f = sub32 f.ffull_dblks f.wr_subm_cnt_dblks

abbrev pub is_wr_full : Fcntl → Bool
is_wr_full f = f.ffull_dblks == f.wr_subm_cnt_dblks

abbrev pub is_wr_compl : Fcntl → Bool
is_wr_compl f = f.ffull_dblks == f.wr_cmpl_cnt_dblks

abbrev pub wr_aio_outstanding_dblks : Fcntl → ℕ
wr_aio_outstanding_dblks f = sub32 f.wr_subm_cnt_dblks f.wr_cmpl_cnt_dblks
