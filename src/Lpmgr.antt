-- ===== src/Lpmgr.antt =====
-- lib/jrnl/lpmgr.hpp and lpmgr.cpp: the list of the journal's files in their logical order. A null
-- pointer is `none`. `fp` is the factory that a caller passes, with its `jcntl` argument applied;
-- reserving memory does not change the model's state.
pub mod Order
pub mod Grow
pub mod Init
pub mod Invert
pub mod Recovery
mod Tests
use qpid_cpp_store_debian.Prelude.{
  ℕ, zero, suc, ◌+◌, ◌-◌, ◌≡◌, Bool, true, false, not, ◌&&◌, ◌||◌, Option, none, some, List, [],
  ◌∷◌, ◌++◌, length, get_elem?, get_or, replicate, set, u16, add16, sub16, ltb, leb, ◌==◌,
  if◌then◌else◌,
}
use qpid_cpp_store_debian.Prelude.Control.{
  Result, ok, throw, M, ◌>>=◌, ◌>>◌, pure, raise, put, require, assertion, undefined,
  jerr_lfmgr_badaefnumlim, jerr_lfmgr_aefnumlimit, jerr_lfmgr_aedisabled,
}
use qpid_cpp_store_debian.Rcvdat.{Rcvdat}
use qpid_cpp_store_debian.Fcntl.{Fcntl, set_lfid}

abbrev pub max_num_files : ℕ
max_num_files = 64

pub record Lpmgr : Type 0 where
  pub ae : Bool
  pub ae_max_jfiles : ℕ
  pub fcntl_arr : List (Option Fcntl)

-- The constructor, and `finalize`.
abbrev pub empty : Lpmgr
empty = record { ae = false; ae_max_jfiles = 0; fcntl_arr = [] }

-- `new_obj_fn_ptr`: the file with the logical and the physical number, or what its constructor throws.
abbrev pub Factory : Type 0
Factory = ℕ → ℕ → Option Rcvdat → Result Fcntl

abbrev pub num_jfiles : Lpmgr → ℕ
num_jfiles l = u16 (length l.fcntl_arr)

abbrev pub is_init : Lpmgr → Bool
is_init l = ltb 0 (length l.fcntl_arr)

-- `vector::insert` before place `i`.
abbrev pub insert_at : List (Option Fcntl) → ℕ → Option Fcntl → List (Option Fcntl)
insert_at xs zero x = x ∷ xs
insert_at [] (suc i) x = x ∷ []
insert_at (y ∷ ys) (suc i) x = y ∷ insert_at ys i x

-- The loop of `append`: `n` files from number `i` on.
unfoldable pub append_loop : Factory → ℕ → ℕ → M Lpmgr (Unit {0})
append_loop fp zero i l = (ok tt, l)
append_loop fp (suc n) i l = elim (fp (u16 i) (u16 i) none) [
  | throw e ↦ (throw e, l)
  | ok f ↦ append_loop fp n (suc i) (record l { fcntl_arr = l.fcntl_arr ++ (some f ∷ []) })
]

unfoldable pub append : Factory → ℕ → M Lpmgr (Unit {0})
unfolding append_loop
append fp n l =
    if not (l.ae_max_jfiles == 0) && ltb l.ae_max_jfiles (length l.fcntl_arr + n)
    then (throw jerr_lfmgr_aefnumlimit, l)
    else append_loop fp n (length l.fcntl_arr) l

-- `finalize` comes first: the old state is gone on every path.
unfoldable pub initialize : ℕ → Bool → ℕ → Factory → M Lpmgr (Unit {0})
initialize n ae ae_max_jfiles fp l =
    if ae && ltb 0 ae_max_jfiles && leb ae_max_jfiles n
    then (throw jerr_lfmgr_badaefnumlim, empty)
    else append fp n (record { ae = ae; ae_max_jfiles = ae_max_jfiles; fcntl_arr = [] })

-- `lfid_list[rd._fid_list[lid]] = lid` from `lid` on; a write out of range is undefined.
unfoldable pub invert_loop : List ℕ → ℕ → List ℕ → Option (List ℕ)
invert_loop [] lid acc = some acc
invert_loop (fid ∷ fids) lid acc =
    if ltb fid (length acc) then invert_loop fids (suc lid) (set acc fid (u16 lid)) else none

-- The loop over the physical numbers, `n` of them from `pfid` on; past the list of logical numbers
-- the two are the same.
unfoldable pub recover_loop : Factory → Rcvdat → List ℕ → ℕ → ℕ → M Lpmgr (Unit {0})
recover_loop fp rd lfids zero pfid l = (ok tt, l)
recover_loop fp rd lfids (suc n) pfid l =
    let lid = get_or lfids pfid pfid in
    elim (fp (u16 lid) (u16 pfid) (some rd)) [
      | throw e ↦ (throw e, l)
      | ok f ↦
          if ltb lid (length l.fcntl_arr)
          then recover_loop fp rd lfids n (suc pfid)
              (record l { fcntl_arr = set l.fcntl_arr lid (some f) })
          else (throw undefined, l)
    ]

unfoldable pub recover : Rcvdat → Factory → M Lpmgr (Unit {0})
recover rd fp l =
    if ltb 0 rd.aemjf && leb rd.aemjf rd.njf
    then (throw jerr_lfmgr_badaefnumlim, empty)
    else (let l' : Lpmgr = record {
      ae = rd.ae;
      ae_max_jfiles = rd.aemjf;
      fcntl_arr = replicate rd.njf none;
    } in
        elim (invert_loop rd.fid_list 0 (replicate (length rd.fid_list) 0)) [
          | none ↦ (throw undefined, l')
          | some lfids ↦ recover_loop fp rd lfids rd.njf 0 l'
        ])

-- The loop that inserts `n` files from place `lid` and physical number `pfid` on.
unfoldable pub insert_loop : Factory → ℕ → ℕ → ℕ → M Lpmgr (Unit {0})
insert_loop fp zero lid pfid l = (ok tt, l)
insert_loop fp (suc n) lid pfid l = elim (fp (u16 lid) (u16 pfid) none) [
  | throw e ↦ (throw e, l)
  | ok f ↦
      insert_loop fp n (suc lid) (suc pfid)
        (record l { fcntl_arr = insert_at l.fcntl_arr lid (some f) })
]

-- The loop that renumbers the files from place `k` on; the assertion is that none is null.
unfoldable pub renumber : ℕ → ℕ → List (Option Fcntl) → Option (List (Option Fcntl))
renumber k n [] = some []
renumber zero n (none ∷ xs) = none
renumber zero n (some f ∷ xs) = elim (renumber zero n xs) [
  | none ↦ none
  | some ys ↦ some (some (set_lfid (add16 f.lfid n) f) ∷ ys)
]
renumber (suc k) n (x ∷ xs) = elim (renumber k n xs) [ none ↦ none | some ys ↦ some (x ∷ ys) ]

abbrev pub eff_ae_max_jfiles : Lpmgr → ℕ
eff_ae_max_jfiles l = if l.ae_max_jfiles == 0 then max_num_files else l.ae_max_jfiles

unfoldable pub insert_files : ℕ → Factory → ℕ → M Lpmgr (Unit {0})
insert_files after_lfid fp n l =
    let (r, l') = insert_loop fp n (after_lfid + 1) (length l.fcntl_arr) l in
    elim r [
      | throw e ↦ (throw e, l')
      | ok _ ↦ elim (renumber (after_lfid + n + 1) n l'.fcntl_arr) [
        | none ↦ (throw assertion, l')
        | some arr ↦ (ok tt, record l' { fcntl_arr = arr })
      ]
    ]

unfoldable pub insert : ℕ → Factory → ℕ → M Lpmgr (Unit {0})
insert after_lfid fp n l =
    if not (ltb after_lfid (length l.fcntl_arr))
    then (throw assertion, l)
    else if not l.ae
    then (throw jerr_lfmgr_aedisabled, l)
    else if n == 0
    then (ok tt, l)
    else if ltb (eff_ae_max_jfiles l) (length l.fcntl_arr + n)
    then (throw jerr_lfmgr_aefnumlimit, l)
    else insert_files after_lfid fp n l

unfoldable pub set_ae : Bool → M Lpmgr (Unit {0})
set_ae ae l =
    if ae && ltb 0 l.ae_max_jfiles && leb l.ae_max_jfiles (length l.fcntl_arr)
    then (throw jerr_lfmgr_badaefnumlim, l)
    else (ok tt, record l { ae = ae })

unfoldable pub set_ae_max_jfiles : ℕ → M Lpmgr (Unit {0})
set_ae_max_jfiles ae_max_jfiles l =
    if l.ae && ltb 0 ae_max_jfiles && leb ae_max_jfiles (length l.fcntl_arr)
    then (throw jerr_lfmgr_badaefnumlim, l)
    else (ok tt, record l { ae_max_jfiles = ae_max_jfiles })

-- The 16-bit result of a subtraction of 64-bit values.
unfoldable pub ae_jfiles_rem : Lpmgr → ℕ
ae_jfiles_rem l =
    let n = length l.fcntl_arr in
    if ltb n l.ae_max_jfiles
    then u16 (l.ae_max_jfiles - n)
    else if l.ae_max_jfiles == 0
    then sub16 max_num_files (u16 n)
    else 0

unfoldable pub get_fcntlp : ℕ → Lpmgr → Option Fcntl
get_fcntlp lfid l = elim (get_elem? l.fcntl_arr lfid) [ none ↦ none | some p ↦ p ]

-- `get_pfid_list`; a null pointer has no `pfid`.
unfoldable pub pfid_list : List (Option Fcntl) → Option (List ℕ)
pfid_list [] = some []
pfid_list (none ∷ xs) = none
pfid_list (some f ∷ xs) = elim (pfid_list xs) [ none ↦ none | some ns ↦ some (f.pfid ∷ ns) ]
