-- ===== src/DataTok.antt =====
-- lib/jrnl/data_tok.hpp and data_tok.cpp: the token by which a caller follows one record through the
-- asynchronous writes. The static counter of the tokens made so far, under `_mutex`, is an argument
-- of the constructor, which returns the next.
use qpid_cpp_store_debian.Prelude.{
  ℕ, ◌-◌, Bool, true, false, not, ◌&&◌, ◌||◌, [], ◌∷◌, ◌==◌, if◌then◌else◌, add32, add64,
}
use qpid_cpp_store_debian.Prelude.Control.{ok, throw, M, jerr_dtok_illegalstate, assertion}
use qpid_cpp_store_debian.Xid.{Xid}

-- `write_state`
pub data WriteState : Type 0 where
  none enq_cached enq_part enq_subm enq : WriteState
  deq_cached deq_part deq_subm deq : WriteState
  abort_cached abort_part abort_subm aborted : WriteState
  commit_cached commit_part commit_subm committed : WriteState

-- The values of the enumeration, by which `wmgr` compares states.
unfoldable pub wstate_value : WriteState → ℕ
wstate_value none = 0
wstate_value enq_cached = 1
wstate_value enq_part = 2
wstate_value enq_subm = 3
wstate_value enq = 4
wstate_value deq_cached = 5
wstate_value deq_part = 6
wstate_value deq_subm = 7
wstate_value deq = 8
wstate_value abort_cached = 9
wstate_value abort_part = 10
wstate_value abort_subm = 11
wstate_value aborted = 12
wstate_value commit_cached = 13
wstate_value commit_part = 14
wstate_value commit_subm = 15
wstate_value committed = 16

abbrev pub wstate_eq : WriteState → WriteState → Bool
wstate_eq a b = wstate_value a == wstate_value b

-- `read_state`
pub data ReadState : Type 0 where
  unread read_part skip_part read : ReadState

pub record DataTok : Type 0 where
  pub icnt : ℕ
  pub wstate : WriteState
  pub rstate : ReadState
  pub dsize : ℕ
  pub dblks_written : ℕ
  pub dblks_read : ℕ
  pub pg_cnt : ℕ
  pub fid : ℕ
  pub rid : ℕ
  pub xid : Xid
  pub dequeue_rid : ℕ
  pub external_rid : Bool

-- The constructor, with `_cnt` before and after.
unfoldable pub new_data_tok : ℕ → DataTok × ℕ
new_data_tok cnt = (
  record {
    icnt = cnt;
    wstate = none;
    rstate = unread;
    dsize = 0;
    dblks_written = 0;
    dblks_read = 0;
    pg_cnt = 0;
    fid = 0;
    rid = 0;
    xid = [];
    dequeue_rid = 0;
    external_rid = false;
  },
  add64 cnt 1,
)

unfoldable pub is_writable : DataTok → Bool
unfolding wstate_value
is_writable t = wstate_eq t.wstate none || wstate_eq t.wstate enq_part

unfoldable pub is_enqueued : DataTok → Bool
unfolding wstate_value
is_enqueued t = wstate_eq t.wstate enq

unfoldable pub is_readable : DataTok → Bool
unfolding wstate_value
is_readable t = wstate_eq t.wstate enq

abbrev pub is_read : DataTok → Bool
is_read t = elim t.rstate [ read ↦ true | _ ↦ false ]

unfoldable pub is_dequeueable : DataTok → Bool
unfolding wstate_value
is_dequeueable t = wstate_eq t.wstate enq || wstate_eq t.wstate deq_part

abbrev pub is_unread : ReadState → Bool
is_unread unread = true
is_unread read_part = false
is_unread skip_part = false
is_unread read = false

unfoldable pub set_rstate : ReadState → M DataTok (Unit {0})
unfolding wstate_value
set_rstate r t =
    if not (wstate_eq t.wstate enq) && not (is_unread r)
    then (throw jerr_dtok_illegalstate, t)
    else (ok tt, record t { rstate = r })

abbrev pub set_wstate : WriteState → DataTok → DataTok
set_wstate s t = record t { wstate = s }

abbrev pub set_dsize : ℕ → DataTok → DataTok
set_dsize n t = record t { dsize = n }

abbrev pub incr_dblocks_written : ℕ → DataTok → DataTok
incr_dblocks_written n t = record t { dblks_written = add32 t.dblks_written n }

abbrev pub set_dblocks_written : ℕ → DataTok → DataTok
set_dblocks_written n t = record t { dblks_written = n }

abbrev pub incr_dblocks_read : ℕ → DataTok → DataTok
incr_dblocks_read n t = record t { dblks_read = add32 t.dblks_read n }

abbrev pub set_dblocks_read : ℕ → DataTok → DataTok
set_dblocks_read n t = record t { dblks_read = n }

abbrev pub incr_pg_cnt : DataTok → DataTok
incr_pg_cnt t = record t { pg_cnt = add32 t.pg_cnt 1 }

unfoldable pub decr_pg_cnt : M DataTok ℕ
decr_pg_cnt t =
    if t.pg_cnt == 0
    then (throw assertion, t)
    else (ok (t.pg_cnt - 1), record t { pg_cnt = t.pg_cnt - 1 })

abbrev pub set_fid : ℕ → DataTok → DataTok
set_fid f t = record t { fid = f }

abbrev pub set_rid : ℕ → DataTok → DataTok
set_rid r t = record t { rid = r }

abbrev pub set_dequeue_rid : ℕ → DataTok → DataTok
set_dequeue_rid r t = record t { dequeue_rid = r }

abbrev pub set_external_rid : Bool → DataTok → DataTok
set_external_rid b t = record t { external_rid = b }

abbrev pub has_xid : DataTok → Bool
has_xid t = elim t.xid [ [] ↦ false | a ∷ x ↦ true ]

abbrev pub clear_xid : DataTok → DataTok
clear_xid t = record t { xid = [] }

abbrev pub set_xid : Xid → DataTok → DataTok
set_xid x t = record t { xid = x }

-- `reset` leaves the id, the dequeue rid and the flag of an external rid as they are.
unfoldable pub reset : DataTok → DataTok
reset t = record t {
  wstate = none;
  rstate = unread;
  dsize = 0;
  dblks_written = 0;
  dblks_read = 0;
  pg_cnt = 0;
  fid = 0;
  rid = 0;
  xid = [];
}
