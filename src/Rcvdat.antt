-- ===== src/Rcvdat.antt =====
-- lib/jrnl/rcvdat.hpp: what the recovery of a journal found in its files.
pub mod FirstFid
mod Tests
use qpid_cpp_store_debian.Prelude.{
  ℕ, zero, suc, Bool, true, false, Option, none, some, List, [], ◌≡◌, add16, leb, ◌==◌,
  if◌then◌else◌, get_elem?, replicate,
}
use qpid_cpp_store_debian.Prelude.Control.{Result, ok, throw, undefined}

pub record Rcvdat : Type 0 where
  pub njf : ℕ
  pub ae : Bool
  pub aemjf : ℕ
  pub owi : Bool
  pub frot : Bool
  pub jempty : Bool
  pub ffid : ℕ
  pub fro : ℕ
  pub lfid : ℕ
  pub eo : ℕ
  pub h_rid : ℕ
  pub lffull : Bool
  pub jfull : Bool
  pub fid_list : List ℕ
  pub enq_cnt_list : List ℕ

-- The constructor and `reset` differ in the arguments of `reset` only.
abbrev pub reset : ℕ → Bool → ℕ → Rcvdat
reset num_jfiles auto_expand ae_max_jfiles = record {
  njf = num_jfiles;
  ae = auto_expand;
  aemjf = ae_max_jfiles;
  owi = false;
  frot = false;
  jempty = true;
  ffid = 0;
  fro = 0;
  lfid = 0;
  eo = 0;
  h_rid = 0;
  lffull = false;
  jfull = false;
  fid_list = [];
  enq_cnt_list = replicate num_jfiles 0;
}

-- `if (++index >= _njf) index = 0;`
abbrev pub next_fid : ℕ → ℕ → ℕ
next_fid njf index = if leb njf (add16 index 1) then 0 else add16 index 1

-- The loop of `ffid`, `none` when the fuel runs out; an index past the list is undefined.
unfoldable pub ffid_loop : ℕ → ℕ → Rcvdat → Option (Result ℕ)
ffid_loop zero index r = none
ffid_loop (suc fuel) index r =
    let rest = ffid_loop fuel (next_fid r.njf index) r in
    if index == r.lfid then some (ok index) else (elim (get_elem? r.enq_cnt_list index) [
      | none ↦ some (throw undefined)
      | some c ↦ if c == 0 then rest else some (ok index)
    ])

-- `njf` rounds of the loop pass every file.
unfoldable pub find_ffid : Rcvdat → Option (Result ℕ)
find_ffid r = ffid_loop r.njf r.ffid r
