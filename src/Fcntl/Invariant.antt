-- ===== src/Fcntl/Invariant.antt =====
-- The order of the counters of lib/jrnl/fcntl.cpp, over any history of calls.
use qpid_cpp_store_debian.Prelude.{
  ℕ, ◌+◌, ◌/◌, ◌^◌, ◌≤◌, ◌<◌, ◌≡◌, refl, inl, inr, Option, none, some, List, [], ◌∷◌, add32, arith,
  Bool-cases, Option-cases, get_elem?, ℤ, pos, negsuc, mul32, ◌∙◌, sym, subst,
}
use qpid_cpp_store_debian.Rcvdat.{Rcvdat}
use qpid_cpp_store_debian.Fcntl.{
  Fcntl, dblk_size, blank, new_fcntl, initialize, open_wr_fh, recovered, filename, reset, rd_reset,
  wr_reset, wr_reset_unused, incr_enqcnt, add_enqcnt, decr_enqcnt, subtr_enqcnt,
  add_rd_subm_cnt_dblks, add_rd_cmpl_cnt_dblks, add_wr_subm_cnt_dblks, add_wr_cmpl_cnt_dblks,
  incr_aio_cnt, decr_aio_cnt,
}

-- What has completed was submitted, what is read was written, and nothing goes past the file's end.
pub record IsOrdered (f : Fcntl) : Type 0 where
  pub read_completed : f.rd_cmpl_cnt_dblks ≤ f.rd_subm_cnt_dblks
  pub read_written : f.rd_subm_cnt_dblks ≤ f.wr_subm_cnt_dblks
  pub written_completed : f.wr_cmpl_cnt_dblks ≤ f.wr_subm_cnt_dblks
  pub within_file : f.wr_subm_cnt_dblks ≤ f.ffull_dblks

-- The calls of other classes; `wr_reset` is called on a file that was not read.
pub data Call : Type 0 where
  resets : Option Rcvdat → Call
  rd_resets : Call
  adds_enq subtrs_enq : ℕ → Call
  incrs_enq decrs_enq incrs_aio decrs_aio : Call
  adds_rd_subm adds_rd_cmpl adds_wr_subm adds_wr_cmpl : ℕ → Call

unfoldable pub step : Call → Fcntl → Fcntl
step (resets ro) f = (reset ro f).1
step rd_resets f = rd_reset f
step (adds_enq a) f = (add_enqcnt a f).1
step (subtrs_enq s) f = (subtr_enqcnt s f).1
step incrs_enq f = (incr_enqcnt f).1
step decrs_enq f = (decr_enqcnt f).1
step incrs_aio f = (incr_aio_cnt f).1
step decrs_aio f = (decr_aio_cnt f).1
step (adds_rd_subm a) f = (add_rd_subm_cnt_dblks a f).1
step (adds_rd_cmpl a) f = (add_rd_cmpl_cnt_dblks a f).1
step (adds_wr_subm a) f = (add_wr_subm_cnt_dblks a f).1
step (adds_wr_cmpl a) f = (add_wr_cmpl_cnt_dblks a f).1

unfoldable pub run : List Call → Fcntl → Fcntl
run [] f = f
run (c ∷ cs) f = run cs (step c f)

-- A recovery found an end offset inside the file, and what is submitted does not wrap a counter.
abbrev pub Fits : ℕ → Call → Type 0
Fits full (resets none) = Unit
Fits full (resets (some ro)) = ro.eo / dblk_size ≤ full
Fits full rd_resets = Unit
Fits full (adds_enq a) = Unit
Fits full (subtrs_enq s) = Unit
Fits full incrs_enq = Unit
Fits full decrs_enq = Unit
Fits full incrs_aio = Unit
Fits full decrs_aio = Unit
Fits full (adds_rd_subm a) = full + a < 2 ^ 32
Fits full (adds_rd_cmpl a) = Unit
Fits full (adds_wr_subm a) = full + a < 2 ^ 32
Fits full (adds_wr_cmpl a) = Unit

abbrev pub AllFit : ℕ → List Call → Type 0
AllFit full [] = Unit
AllFit full (c ∷ cs) = Fits full c × AllFit full cs

recovered-IsOrdered :
    (ro : Rcvdat) (f : Fcntl)
    → ro.eo / dblk_size ≤ f.ffull_dblks
    → f.rd_subm_cnt_dblks ≡ 0
    → f.rd_cmpl_cnt_dblks ≡ 0
    → IsOrdered (recovered ro f).1 × ((recovered ro f).1.ffull_dblks ≡ f.ffull_dblks)
unfolding recovered
recovered-IsOrdered ro f h r c = elim (Option-cases (get_elem? ro.enq_cnt_list f.pfid)) [
  | inl e ↦ ground arith
  | inr (n, e) ↦ ground arith
]

reset-IsOrdered :
    (ro : Option Rcvdat) (f : Fcntl)
    → Fits f.ffull_dblks (resets ro)
    → IsOrdered f
    → IsOrdered (reset ro f).1 × ((reset ro f).1.ffull_dblks ≡ f.ffull_dblks)
unfolding reset rd_reset wr_reset wr_reset_unused
reset-IsOrdered none f h v = ground arith
reset-IsOrdered (some ro) f h v = elim (Bool-cases ro.jempty) [
  | inl e ↦ ground arith
  | inr e ↦ ground (arith, recovered-IsOrdered ro (rd_reset f) h refl refl)
]

step-IsOrdered :
    (c : Call) (f : Fcntl)
    → Fits f.ffull_dblks c
    → IsOrdered f
    → IsOrdered (step c f) × ((step c f).ffull_dblks ≡ f.ffull_dblks)
unfolding step rd_reset incr_enqcnt add_enqcnt decr_enqcnt subtr_enqcnt add_rd_subm_cnt_dblks
    add_rd_cmpl_cnt_dblks add_wr_subm_cnt_dblks add_wr_cmpl_cnt_dblks incr_aio_cnt decr_aio_cnt
step-IsOrdered (resets ro) f h v = reset-IsOrdered ro f h v
step-IsOrdered rd_resets f h v = ground arith
step-IsOrdered (adds_enq a) f h v = ground arith
step-IsOrdered (subtrs_enq s) f h v = ground arith
step-IsOrdered incrs_enq f h v = ground arith
step-IsOrdered decrs_enq f h v = ground arith
step-IsOrdered incrs_aio f h v = ground arith
step-IsOrdered decrs_aio f h v = ground arith
step-IsOrdered (adds_rd_subm a) f h v = ground arith
step-IsOrdered (adds_rd_cmpl a) f h v = ground arith
step-IsOrdered (adds_wr_subm a) f h v = ground arith
step-IsOrdered (adds_wr_cmpl a) f h v = ground arith

run-IsOrdered :
    (cs : List Call) (f : Fcntl)
    → AllFit f.ffull_dblks cs
    → IsOrdered f
    → IsOrdered (run cs f) × ((run cs f).ffull_dblks ≡ f.ffull_dblks)
unfolding run
run-IsOrdered [] f h v = (v, refl)
run-IsOrdered (c ∷ cs) f h v =
    let stepped = step-IsOrdered c f h.0 v in
    let rest =
      run-IsOrdered cs (step c f) (subst (λ n. AllFit n cs) (sym stepped.1) h.1) stepped.0 in
    (rest.0, rest.1 ∙ stepped.1)

open_wr_fh-IsOrdered :
    (fh : ℤ) (f : Fcntl)
    → IsOrdered f
    → IsOrdered (open_wr_fh fh f).1 × ((open_wr_fh fh f).1.ffull_dblks ≡ f.ffull_dblks)
unfolding open_wr_fh
open_wr_fh-IsOrdered (pos n) f v = ground arith
open_wr_fh-IsOrdered (negsuc n) f v = ground arith

initialize-IsOrdered :
    (fbasename : List ℕ) (pfid lfid : ℕ) (ro : Option Rcvdat) (f : Fcntl)
    → Fits f.ffull_dblks (resets ro)
    → f.rd_subm_cnt_dblks ≡ 0
    → f.rd_cmpl_cnt_dblks ≡ 0
    → IsOrdered f
    → let f' = (initialize fbasename pfid lfid ro f).1 in
      IsOrdered f' × (f'.ffull_dblks ≡ f.ffull_dblks)
unfolding initialize
initialize-IsOrdered fbasename pfid lfid none f h r c v = ground arith
initialize-IsOrdered fbasename pfid lfid (some ro) f h r c v = elim (Bool-cases ro.jempty) [
  | inl e ↦ ground arith
  | inr e ↦ ground (
    arith,
    recovered-IsOrdered ro (record f { pfid = pfid; lfid = lfid; fname = filename fbasename pfid })
        h r c,
  )
]

new_fcntl-IsOrdered :
    (fh : ℤ) (fbasename : List ℕ) (pfid lfid jfsize_sblks : ℕ) (ro : Option Rcvdat)
    → Fits (mul32 4 (add32 jfsize_sblks 1)) (resets ro)
    → let f = (new_fcntl fh fbasename pfid lfid jfsize_sblks ro).1 in
      IsOrdered f × (f.ffull_dblks ≡ mul32 4 (add32 jfsize_sblks 1))
unfolding new_fcntl
new_fcntl-IsOrdered fh fbasename pfid lfid jfsize_sblks ro h =
    let made =
      initialize-IsOrdered fbasename pfid lfid ro (blank pfid lfid jfsize_sblks) h refl refl
        (ground arith) in
    ground (
      arith,
      made,
      open_wr_fh-IsOrdered fh (initialize fbasename pfid lfid ro (blank pfid lfid jfsize_sblks)).1
          made.0,
    )

-- A new file controller, of a fresh journal or of a recovered one whose end offset is inside the
-- file, whatever calls of `reset`, `rd_reset` and the functions that count records, AIOs and blocks
-- follow: what was read was written, what completed was submitted, and nothing goes past the end of
-- the file. The calls submit amounts that do not wrap a counter around, and their recoveries end
-- inside the file. `wr_reset` alone is not among the calls: on a file that was read it leaves the
-- read counters above the write counters.
pub counters-run :
    (fh : ℤ) (fbasename : List ℕ) (pfid lfid jfsize_sblks : ℕ) (ro : Option Rcvdat) (cs : List Call)
    → Fits (mul32 4 (add32 jfsize_sblks 1)) (resets ro)
    → AllFit (mul32 4 (add32 jfsize_sblks 1)) cs
    → IsOrdered (run cs (new_fcntl fh fbasename pfid lfid jfsize_sblks ro).1)
counters-run fh fbasename pfid lfid jfsize_sblks ro cs h k =
    (run-IsOrdered cs (new_fcntl fh fbasename pfid lfid jfsize_sblks ro).1
      (subst (λ n. AllFit n cs) (sym made.1) k) made.0).0
  where
    made :
        let f = (new_fcntl fh fbasename pfid lfid jfsize_sblks ro).1 in
        IsOrdered f × (f.ffull_dblks ≡ mul32 4 (add32 jfsize_sblks 1))
    made = new_fcntl-IsOrdered fh fbasename pfid lfid jfsize_sblks ro h
