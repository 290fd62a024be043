-- ===== src/Wmgr/State.antt =====
-- The members of `pmgr` and `wmgr` (lib/jrnl/pmgr.hpp, wmgr.hpp), and the calls of the AIO library.
-- A pointer to a token is the token's number, and a pointer to a file controller its place in the
-- list of files.
use qpid_cpp_store_debian.Prelude.{
  ℕ, ◌+◌, Bool, true, false, Option, none, some, List, ◌++◌, length, get_elem?, set, ℤ, take, drop,
  ◌==◌, if◌then◌else◌, mul32,
}
use qpid_cpp_store_debian.Prelude.Control.{ok, throw, M, undefined, ◌>>=◌}
use qpid_cpp_store_debian.Xid.{Xid}
use qpid_cpp_store_debian.EnqMap.{EnqMap}
use qpid_cpp_store_debian.TxnMap.{TxnMap}
use qpid_cpp_store_debian.Fcntl.{Fcntl}
use qpid_cpp_store_debian.Wrfc.{Wrfc, on_current, on_file}
use qpid_cpp_store_debian.Rrfc.{Rrfc}
use qpid_cpp_store_debian.DataTok.{DataTok}
use qpid_cpp_store_debian.FileHdr.{FileHdr}
use qpid_cpp_store_debian.Records.Enq.{EnqRec}
use qpid_cpp_store_debian.Records.Deq.{DeqRec}
use qpid_cpp_store_debian.Records.Txn.{TxnRec}

-- `pmgr::page_state`
pub data PageState : Type 0 where
  unused in_use aio_pending aio_complete : PageState

-- `pmgr::page_cb`. `wfh` is null until the page is submitted; `pbuff` is the page itself.
pub record PageCb : Type 0 where
  pub index : ℕ
  pub state : PageState
  pub wdblks : ℕ
  pub rdblks : ℕ
  pub pdtokl : List ℕ
  pub wfh : Option ℕ
  pub pbuff : List ℕ

-- The page cache.
pub record Cache : Type 0 where
  pub cache_pgsize_sblks : ℕ
  pub cache_num_pages : ℕ
  pub page_cb_arr : List PageCb
  pub pg_index : ℕ
  pub pg_cntr : ℕ
  pub pg_offset_dblks : ℕ
  pub cached_offset_dblks : ℕ

-- `_enq_busy`, `_deq_busy`, `_abort_busy` and `_commit_busy`
pub record Busy : Type 0 where
  pub enq_busy : Bool
  pub deq_busy : Bool
  pub abort_busy : Bool
  pub commit_busy : Bool

-- What an I/O control block is of: a page of the cache, or the header of a file.
pub data AioObj : Type 0 where
  page_io header_io : ℕ → AioObj

-- A prepared write.
pub record AioCb : Type 0 where
  pub obj : AioObj
  pub aio_fildes : ℤ
  pub buf : List ℕ
  pub nbytes : ℕ
  pub offset : ℕ

-- `io_event`: a negative `res` is an error.
pub record AioEvent : Type 0 where
  pub obj : AioObj
  pub res : ℤ

-- What `io_getevents` returns.
pub data Reply : Type 0 where
  events : List AioEvent → Reply
  interrupted failed : Reply

-- The AIO library and the clock: what each call returns, by the number of the call.
pub record Aio : Type 0 where
  pub submit : ℕ → AioCb → Bool
  pub getevents : ℕ → ℕ → ℕ → Reply
  pub clock_gettime : ℕ → Option (ℕ × ℕ)

-- `calls` counts the calls of the library, `submitted` lists the writes that it accepted, and
-- `called_back` the tokens passed to each call of `wr_aio_cb`.
pub record Outside : Type 0 where
  pub aio_evt_rem : ℕ
  pub calls : ℕ
  pub submitted : List AioCb
  pub called_back : List (List ℕ)

pub record Wmgr : Type 0 where
  pub wrfc : Wrfc
  pub rrfc : Rrfc
  pub emap : EnqMap
  pub tmap : TxnMap
  pub toks : ℕ → DataTok
  pub cache : Cache
  pub outside : Outside
  pub busy : Busy
  pub cbp : Bool
  pub fhdr_arr : List (Option FileHdr)
  pub jfsize_dblks : ℕ
  pub jfsize_pgs : ℕ
  pub num_jfiles : ℕ
  pub enq_rec : EnqRec
  pub deq_rec : DeqRec
  pub txn_rec : TxnRec
  pub txn_pending_set : List (Xid × Unit {0})

-- `_cache_pgsize_sblks * JRNL_SBLK_SIZE`
abbrev pub page_dblks : Cache → ℕ
page_dblks c = mul32 c.cache_pgsize_sblks 4

abbrev pub with_wrfc : {A : Type 0} → M Wrfc A → M Wmgr A
with_wrfc m w = let (r, v) = m w.wrfc in (r, record w { wrfc = v })

abbrev pub with_emap : {A : Type 0} → M EnqMap A → M Wmgr A
with_emap m w = let (r, v) = m w.emap in (r, record w { emap = v })

abbrev pub with_tmap : {A : Type 0} → M TxnMap A → M Wmgr A
with_tmap m w = let (r, v) = m w.tmap in (r, record w { tmap = v })

-- A call through the file controller of `_wrfc`, or through one by its place.
abbrev pub on_wr_file : {A : Type 0} → M Fcntl A → M Wmgr A
on_wr_file m = with_wrfc (on_current m)

abbrev pub on_file_at : {A : Type 0} → ℕ → M Fcntl A → M Wmgr A
on_file_at i m = with_wrfc (on_file i m)

abbrev pub update : (ℕ → DataTok) → ℕ → DataTok → ℕ → DataTok
update f p t q = if p == q then t else f q

abbrev pub with_tok : {A : Type 0} → ℕ → M DataTok A → M Wmgr A
with_tok p m w = let (r, t) = m (w.toks p) in (r, record w { toks = update w.toks p t })

abbrev pub set_tok : ℕ → (DataTok → DataTok) → M Wmgr (Unit {0})
set_tok p f w = (ok tt, record w { toks = update w.toks p (f (w.toks p)) })

abbrev pub tok : ℕ → M Wmgr DataTok
tok p w = (ok (w.toks p), w)

abbrev pub on_cache : (Cache → Cache) → M Wmgr (Unit {0})
on_cache f w = (ok tt, record w { cache = f w.cache })

abbrev pub on_outside : (Outside → Outside) → M Wmgr (Unit {0})
on_outside f w = (ok tt, record w { outside = f w.outside })

abbrev pub set_busy : (Busy → Busy) → M Wmgr (Unit {0})
set_busy f w = (ok tt, record w { busy = f w.busy })

-- `_page_cb_arr[i]`
unfoldable pub page_at : ℕ → M Wmgr PageCb
page_at i w = elim (get_elem? w.cache.page_cb_arr i) [
  | none ↦ (throw undefined, w)
  | some p ↦ (ok p, w)
]

abbrev pub put_page : ℕ → PageCb → M Wmgr (Unit {0})
put_page i p = on_cache (λ c. record c { page_cb_arr = set c.page_cb_arr i p })

-- A write through `_page_cb_arr[i]`.
unfoldable pub alter_page : ℕ → (PageCb → PageCb) → M Wmgr (Unit {0})
unfolding page_at
alter_page i f = do p ← page_at i; put_page i (f p)

unfoldable pub current_page : M Wmgr PageCb
unfolding page_at
current_page w = page_at w.cache.pg_index w

-- Bytes copied into a buffer.
abbrev pub overwrite : List ℕ → ℕ → List ℕ → List ℕ
overwrite buf offs bytes = take offs buf ++ (bytes ++ drop (offs + length bytes) buf)

-- The tests on `_state`.
abbrev pub is_unused : PageState → Bool
is_unused unused = true
is_unused in_use = false
is_unused aio_pending = false
is_unused aio_complete = false

abbrev pub is_in_use : PageState → Bool
is_in_use unused = false
is_in_use in_use = true
is_in_use aio_pending = false
is_in_use aio_complete = false

abbrev pub is_aio_pending : PageState → Bool
is_aio_pending unused = false
is_aio_pending in_use = false
is_aio_pending aio_pending = true
is_aio_pending aio_complete = false
