-- ===== src/Wrfc.antt =====
-- lib/jrnl/rfc.hpp, rfc.cpp, wrfc.hpp and wrfc.cpp: the file that is written, and the rotation to the
-- next. The files are those of the list of `Lpmgr`, which the controller shares; `curr_fc`, a
-- pointer to one of them, is its place in the list, and `none` when null. Files that
-- auto-expansion inserts go behind the current file and leave its place as it is.
pub mod Rotation
pub mod Ring
pub mod Start
pub mod Threshold
mod Tests
use qpid_cpp_store_debian.Prelude.{
  ℕ, zero, suc, ◌+◌, ◌-◌, ◌*◌, ◌/◌, Bool, true, false, not, ◌&&◌, ◌||◌, Option, none, some, List,
  ◌≡◌, set, u16, u32, add16, add32, sub32, mul32, add64, ltb, leb, ◌==◌, if◌then◌else◌,
}
use qpid_cpp_store_debian.Prelude.Control.{Result, ok, throw, M, undefined, jerr_ninit}
use qpid_cpp_store_debian.Rcvdat.{Rcvdat}
use qpid_cpp_store_debian.Fcntl
use qpid_cpp_store_debian.Fcntl.{Fcntl}
use qpid_cpp_store_debian.Lpmgr.{Lpmgr, num_jfiles, get_fcntlp}

-- `iores` of lib/jrnl/enums.hpp
pub data Iores : Type 0 where
  iores_success iores_page_aiowait iores_file_aiowait iores_empty iores_rcinvalid : Iores
  iores_enqcapthresh iores_full iores_busy iores_txpending iores_notimpl : Iores

-- The members of `rfc` and `wrfc`.
pub record Wrfc : Type 0 where
  pub lpm : Lpmgr
  pub fc_index : ℕ
  pub curr_fc : Option ℕ
  pub fsize_sblks : ℕ
  pub fsize_dblks : ℕ
  pub enq_cap_offs_dblks : ℕ
  pub rid : ℕ
  pub reset_ok : Bool
  pub owi : Bool
  pub frot : Bool

abbrev pub new_wrfc : Lpmgr → Wrfc
new_wrfc lpm = record {
  lpm = lpm;
  fc_index = 0;
  curr_fc = none;
  fsize_sblks = 0;
  fsize_dblks = 0;
  enq_cap_offs_dblks = 0;
  rid = 0;
  reset_ok = false;
  owi = false;
  frot = true;
}

abbrev pub unset_findex : Wrfc → Wrfc
unset_findex w = record w { fc_index = 0; curr_fc = none }

-- What `_curr_fc` points to.
unfoldable pub current : Wrfc → Option Fcntl
current w = elim w.curr_fc [ none ↦ none | some i ↦ get_fcntlp i w.lpm ]

abbrev pub put_file : ℕ → Fcntl → Wrfc → Wrfc
put_file i f w = record w { lpm = record w.lpm { fcntl_arr = set w.lpm.fcntl_arr i (some f) } }

-- A call through `_lpmp->get_fcntlp(fid)`.
unfoldable pub on_file : {A : Type 0} → ℕ → M Fcntl A → M Wrfc A
on_file fid op w = elim (get_fcntlp fid w.lpm) [
  | none ↦ (throw undefined, w)
  | some f ↦ let (r, f') = op f in (r, put_file fid f' w)
]

-- A call through `_curr_fc`.
unfoldable pub on_current : {A : Type 0} → M Fcntl A → M Wrfc A
on_current op w = elim w.curr_fc [
  | none ↦ (throw undefined, w)
  | some i ↦ elim (get_fcntlp i w.lpm) [
    | none ↦ (throw undefined, w)
    | some f ↦ let (r, f') = op f in (r, put_file i f' w)
  ]
]

-- `_curr_fc = _lpmp->get_fcntlp(i)`
unfoldable pub point_to : ℕ → Wrfc → Wrfc
point_to i w = record w { curr_fc = elim (get_fcntlp i w.lpm) [ none ↦ none | some f ↦ some i ] }

unfoldable pub set_findex : ℕ → M Wrfc (Unit {0})
set_findex fc_index w =
    on_current (λ f. (ok tt, Fcntl.rd_reset f))
      (point_to fc_index (record w { fc_index = fc_index }))

unfoldable pub wr_reset : M Wrfc Bool
wr_reset w =
    let (r, w') = on_current (Fcntl.reset none) w in
    elim r [ throw e ↦ (throw e, w') | ok b ↦ (ok b, record w' { reset_ok = b }) ]

-- The index, the overwrite indicator and the rotation flag, one file on.
unfoldable pub advance : Wrfc → Wrfc
advance w =
    let next = add16 w.fc_index 1 in
    if next == num_jfiles w.lpm
    then record w { fc_index = 0; owi = not w.owi; frot = false }
    else record w { fc_index = next }

-- The file that was advanced to, once it is known.
unfoldable pub enter : M Wrfc Iores
enter w = elim (current w) [
  | none ↦ (throw undefined, w)
  | some f ↦
      let (r, w') = wr_reset w in
      if not (f.aio_cnt == 0) then (ok iores_file_aiowait, w) else (elim r [
        | throw e ↦ (throw e, w')
        | ok b ↦ (ok (if not b then iores_full else iores_success), w')
      ])
]

unfoldable pub rotate : M Wrfc Iores
rotate w =
    if num_jfiles w.lpm == 0
    then (throw jerr_ninit, w)
    else enter (point_to (advance w).fc_index (advance w))

-- The file sizes. The double-precision `ceil(x * (100.0 - 80) / 100)` is exact here: `x` is below
-- 2 ^ 32, so the quotient is never rounded onto or past an integer.
unfoldable pub set_sizes : ℕ → Wrfc → Wrfc
set_sizes fsize_sblks w =
    let fsize_dblks = mul32 fsize_sblks 4 in
    let cap = (mul32 fsize_dblks (num_jfiles w.lpm) * 20 + 99) / 100 in
    record w {
      fsize_sblks = fsize_sblks;
      fsize_dblks = fsize_dblks;
      enq_cap_offs_dblks = if ltb cap fsize_dblks then fsize_dblks else cap;
    }

-- The part of `initialize` that takes over a recovery.
unfoldable pub take_over : Rcvdat → M Wrfc (Unit {0})
take_over rd w =
    let (r, w') =
      on_current (Fcntl.wr_reset (some rd)) (point_to rd.lfid (record w { fc_index = rd.lfid })) in
    elim r [
      | throw e ↦ (throw e, w')
      | ok _ ↦
          let w'' : Wrfc = record w' {
            rid = add64 rd.h_rid 1;
            reset_ok = true;
            owi = rd.owi;
            frot = rd.frot;
          } in
          let (q, v) = rotate w'' in
          if rd.lffull
          then (elim q [ throw e ↦ (throw e, v) | ok _ ↦ (ok tt, v) ])
          else (ok tt, w'')
    ]

-- The other part: a new journal.
unfoldable pub start_new : M Wrfc (Unit {0})
start_new w =
    let (r, w') = set_findex 0 w in
    elim r [ throw e ↦ (throw e, w') | ok _ ↦ (ok tt, record w' { rid = 0; reset_ok = false }) ]

unfoldable pub initialize : ℕ → Option Rcvdat → M Wrfc (Unit {0})
initialize fsize_sblks rdp w =
    let (r, w') = (elim rdp as (λ _. Result (Unit {0}) × Wrfc) [
      | none ↦ start_new w
      | some rd ↦ take_over rd w
    ]) in
    elim r [ throw e ↦ (throw e, w') | ok _ ↦ (ok tt, set_sizes fsize_sblks w') ]

unfoldable pub earliest_index : Wrfc → ℕ
earliest_index w =
    let next = add16 w.fc_index 1 in
    if w.frot then 0 else if leb (num_jfiles w.lpm) next then 0 else next

abbrev pub get_incr_rid : Wrfc → ℕ × Wrfc
get_incr_rid w = (w.rid, record w { rid = add64 w.rid 1 })

-- `if (++findex == _lpmp->num_jfiles()) findex = 0;`
abbrev pub next_index : ℕ → ℕ → ℕ
next_index n i = if add16 i 1 == n then 0 else add16 i 1

-- The loop of `enq_threshold` on the forward blocks, the index, the file's count of enqueued records
-- and `in_use`; `none` when the fuel runs out. A missing file is undefined.
unfoldable pub threshold_loop : ℕ → ℕ → ℕ → ℕ → Bool → Wrfc → Option (Result Bool)
threshold_loop zero fwd findex enqcnt in_use w = none
threshold_loop (suc fuel) fwd findex enqcnt in_use w =
    let fwd' = (if ltb w.fsize_dblks fwd then fwd - w.fsize_dblks else 0) in
    let next = next_index (num_jfiles w.lpm) findex in
    let stay = threshold_loop fuel fwd' findex enqcnt (in_use || ltb 0 enqcnt) w in
    let count = (elim (get_fcntlp next w.lpm) as (λ _. ℕ) [ none ↦ 0 | some f ↦ f.rec_enqcnt ]) in
    let go_on = threshold_loop fuel fwd' next count (in_use || ltb 0 count) w in
    if fwd == 0 || not (findex == w.fc_index) && not (enqcnt == 0)
    then some (ok (not (findex == w.fc_index) && in_use))
    else if fwd' == 0
    then stay
    else (elim (get_fcntlp next w.lpm) [ none ↦ some (throw undefined) | some f ↦ go_on ])

-- The blocks from the start of the current file on that must be free after a write of
-- `enq_dsize_dblks`.
unfoldable pub forward_dblks : ℕ → Fcntl → Wrfc → ℕ
forward_dblks enq_dsize_dblks f w =
    let subm = if not (f.wr_subm_cnt_dblks == 0) then sub32 f.wr_subm_cnt_dblks 4 else 0 in
    add32 (add32 subm enq_dsize_dblks) w.enq_cap_offs_dblks

-- As many rounds as blocks, and one, are enough.
unfoldable pub enq_threshold : ℕ → Wrfc → Option (Result Bool)
enq_threshold enq_dsize_dblks w = elim (current w) [
  | none ↦ some (throw undefined)
  | some f ↦
      let fwd = forward_dblks enq_dsize_dblks f w in
      threshold_loop (suc fwd) fwd w.fc_index f.rec_enqcnt false w
]
