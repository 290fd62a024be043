-- ===== src/Rrfc.antt =====
-- lib/jrnl/rrfc.hpp and rrfc.cpp: the file that is read. Its files are those of the list of
-- `Lpmgr`, which the controller shares; `curr_fc` is a place in that list, `none` when null, and
-- `fh` the file handle, `negsuc 0` for -1. The handle that `::open` returns is an argument.
use qpid_cpp_store_debian.Prelude.{
  ℕ, Bool, true, false, Option, none, some, set, add16, ◌==◌, if◌then◌else◌, ℤ, pos, negsuc,
}
use qpid_cpp_store_debian.Prelude.Control.{ok, throw, M, undefined, jerr_ninit, jerr_rrfc_openrd}
use qpid_cpp_store_debian.Fcntl
use qpid_cpp_store_debian.Fcntl.{Fcntl}
use qpid_cpp_store_debian.Lpmgr.{Lpmgr, num_jfiles, get_fcntlp}
use qpid_cpp_store_debian.Wrfc.{Iores, iores_success}

pub record Rrfc : Type 0 where
  pub fc_index : ℕ
  pub curr_fc : Option ℕ
  pub fh : ℤ
  pub valid : Bool

abbrev pub new_rrfc : Rrfc
new_rrfc = record { fc_index = 0; curr_fc = none; fh = negsuc 0; valid = false }

abbrev pub is_active : Rrfc → Bool
is_active r = elim r.curr_fc [
  | none ↦ false
  | some i ↦ elim r.fh [ pos h ↦ true | negsuc h ↦ false ]
]

abbrev pub set_invalid : Rrfc → Rrfc
set_invalid r = record r { valid = false }

abbrev pub set_valid : Rrfc → Rrfc
set_valid r = record r { valid = true }

unfoldable pub close_fh : Rrfc → Rrfc
close_fh r = elim r.fh [ pos h ↦ record r { fh = negsuc 0 } | negsuc h ↦ r ]

-- On failure the negative handle stays.
unfoldable pub open_fh : ℤ → M Rrfc (Unit {0})
unfolding close_fh
open_fh fh r = elim fh [
  | pos h ↦ (ok tt, record (close_fh r) { fh = pos h })
  | negsuc h ↦ (throw jerr_rrfc_openrd, record (close_fh r) { fh = negsuc h })
]

-- With the list of files, whose read counters the call resets.
unfoldable pub set_findex : ℤ → ℕ → M (Lpmgr × Rrfc) (Unit {0})
unfolding open_fh
set_findex fh fc_index (l, r) = elim (get_fcntlp fc_index l) [
  | none ↦ (throw undefined, (l, record r { fc_index = fc_index; curr_fc = none }))
  | some f ↦
      let l' : Lpmgr = record l {
        fcntl_arr = set l.fcntl_arr fc_index (some (Fcntl.rd_reset f));
      } in
      let (o, r') = open_fh fh (record r { fc_index = fc_index; curr_fc = some fc_index }) in
      (o, (l', r'))
]

unfoldable pub unset_findex : Rrfc → Rrfc
unfolding close_fh
unset_findex r = record (close_fh (set_invalid r)) { fc_index = 0; curr_fc = none }

unfoldable pub finalize : Rrfc → Rrfc
unfolding unset_findex
finalize r = record (unset_findex r) { fc_index = 0; curr_fc = none }

unfoldable pub rotate : ℤ → M (Lpmgr × Rrfc) Iores
unfolding set_findex
rotate fh (l, r) =
    let next = add16 r.fc_index 1 in
    let (o, s) = set_findex fh (if next == num_jfiles l then 0 else next) (l, r) in
    if num_jfiles l == 0
    then (throw jerr_ninit, (l, r))
    else (elim o [ throw e ↦ (throw e, s) | ok _ ↦ (ok iores_success, s) ])
