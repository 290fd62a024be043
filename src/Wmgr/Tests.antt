-- ===== src/Wmgr/Tests.antt =====
-- Runs of the write manager of lib/jrnl/wmgr.cpp, and its theorems at concrete states.
use qpid_cpp_store_debian.Prelude.{
  ℕ, ◌≡◌, refl, true, false, Option, none, some, List, [], ◌∷◌, replicate, arith, get_elem?, zero,
  suc, ◌<◌, ◌↔◌, ◌⊎◌, inr,
}
use qpid_cpp_store_debian.EnqMap
use qpid_cpp_store_debian.TxnMap
use qpid_cpp_store_debian.Fcntl
use qpid_cpp_store_debian.Fcntl.{Fcntl, blank}
use qpid_cpp_store_debian.Lpmgr.{Lpmgr}
use qpid_cpp_store_debian.Wrfc
use qpid_cpp_store_debian.Wrfc.{Wrfc, Iores, iores_success}
use qpid_cpp_store_debian.Rrfc.{new_rrfc}
use qpid_cpp_store_debian.DataTok.{new_data_tok}
use qpid_cpp_store_debian.Records.Enq.{new_enq_rec}
use qpid_cpp_store_debian.Records.Deq.{new_deq_rec}
use qpid_cpp_store_debian.Records.Txn.{new_txn_rec}
use qpid_cpp_store_debian.Lpmgr.{get_fcntlp}
use qpid_cpp_store_debian.Wrfc.{current}
use qpid_cpp_store_debian.Wmgr.State.{
  Wmgr, Busy, Aio, Reply, PageState, PageCb, alter_page, page_at,
}
use qpid_cpp_store_debian.Wmgr.Frame.{view, Only}
use qpid_cpp_store_debian.Wmgr.Fits.Rotate.{Between}
use qpid_cpp_store_debian.Wmgr.Checks.{op_enqueue, op_dequeue, op_abort, op_commit}
use qpid_cpp_store_debian.Prelude.Control.Triple.{Holds}
use qpid_cpp_store_debian.Wmgr.Fits.Begin.{Begins, Idle, Attempts}
use qpid_cpp_store_debian.Wmgr.Fits.Enq.{Unwritten}
use qpid_cpp_store_debian.Wmgr.Fits.Enqueue.{enqueue-Attempts}
use qpid_cpp_store_debian.Wmgr.Fits.EndTxn.{abort-Attempts, commit-Attempts}
use qpid_cpp_store_debian.Wmgr.Init.{initialize, initialize_pages, new_pages, not_busy, new_cache}
use qpid_cpp_store_debian.Wmgr.Ops.{enqueue, dequeue, commit, abort}
use qpid_cpp_store_debian.Prelude.{◌^◌}
use qpid_cpp_store_debian.Prelude.Control.{ok, throw, jerr_map_locked, jerr_wmgr_deqridnotenq}
use qpid_cpp_store_debian.Prelude.StdMap.{nat_key, find, place}
use qpid_cpp_store_debian.Xid.{Xid, xid_key}
use qpid_cpp_store_debian.DataTok.{WriteState}
use qpid_cpp_store_debian.EnqMap.{EmapData}
use qpid_cpp_store_debian.TxnMap.{TxnMap, TxnData, txn_data}
use qpid_cpp_store_debian.TxnMap.Invariant.{IsValid, fresh-IsValid, insert_txn_data-IsValid}
use qpid_cpp_store_debian.Wmgr.Events.{is_txn_synced, return_page}
use qpid_cpp_store_debian.Wmgr.Checks.{dequeue_check, dequeue_test}
use qpid_cpp_store_debian.Wmgr.Complete.{commit_txn, complete_txn}
use qpid_cpp_store_debian.Wmgr.Maps.{Agrees, Any}
use qpid_cpp_store_debian.Wmgr.Maps.Complete.{ended, complete_txn-ended}
use qpid_cpp_store_debian.Wmgr.Maps.Page.{LastPage, return_page-synced}
use qpid_cpp_store_debian.Wmgr.Maps.Check.{CanDequeue, dequeue_check_lem}
use qpid_cpp_store_debian.Wmgr.Fits.Dequeue.{dequeue-Attempts}

abbrev two_files : Lpmgr
two_files = record {
  ae = false;
  ae_max_jfiles = 0;
  fcntl_arr = some (blank 0 0 128) ∷ some (blank 1 1 128) ∷ [];
}

-- Each call is accepted, and no event has come yet.
abbrev quiet : Aio
quiet = record {
  submit = λ n cb. true;
  getevents = λ n low high. Reply.events [];
  clock_gettime = λ n. some (1, 2);
}

abbrev start : Wmgr
start = record {
  wrfc = (Wrfc.initialize 128 none (Wrfc.new_wrfc two_files)).1;
  rrfc = new_rrfc;
  emap = EnqMap.set_num_jfiles 2 EnqMap.empty_map;
  tmap = TxnMap.set_num_jfiles 2 TxnMap.empty_map;
  toks = λ p. (new_data_tok p).0;
  cache = new_cache 0 0;
  outside = record { aio_evt_rem = 0; calls = 0; submitted = []; called_back = [] };
  busy = not_busy;
  cbp = true;
  fhdr_arr = [];
  jfsize_dblks = 0;
  jfsize_pgs = 0;
  num_jfiles = 0;
  enq_rec = new_enq_rec;
  deq_rec = new_deq_rec;
  txn_rec = new_txn_rec;
  txn_pending_set = [];
}

abbrev ready : Wmgr
ready = (initialize 128 true 1 2 0 start).1

abbrev message : Option (List ℕ)
message = some (1 ∷ 2 ∷ 3 ∷ [])

-- The sizes of the two files.
two_sized : (i n : ℕ) → get_elem? (some 516 ∷ some 516 ∷ []) i ≡ some (some n) → n ≡ 516
two_sized zero n h = ground (arith, h)
two_sized (suc zero) n h = ground (arith, h)
two_sized (suc (suc i)) n h = cc

ready-Between : (G : Busy → ℕ → ℕ → Type 0) → G not_busy 0 128 → Between 7 G 516 (view 7 ready)
unfolding initialize initialize_pages new_cache new_pages alter_page page_at Wrfc.initialize current
    get_fcntlp Wrfc.start_new Wrfc.set_findex Wrfc.on_current Wrfc.point_to Wrfc.set_sizes
    Fcntl.rd_reset new_data_tok
ready-Between G g = record {
  cache = record {
    pages = refl;
    few = omega arith;
    placed = omega arith;
    pgsize_pos = omega arith;
    pgsize_small = omega arith;
    cached_in = omega arith;
    aligned = refl;
    inside = omega arith;
  };
  first = refl;
  start = refl;
  flushed = refl;
  whole = refl;
  small = omega arith;
  sized = two_sized;
  other = g;
}

ready-Begins : (G : Busy → ℕ → ℕ → Type 0) → G not_busy 0 128 → Begins 7 G ready
unfolding initialize initialize_pages new_cache new_pages alter_page page_at Wrfc.initialize current
    get_fcntlp Wrfc.start_new Wrfc.set_findex Wrfc.on_current Wrfc.point_to Wrfc.set_sizes
    Fcntl.rd_reset new_data_tok
ready-Begins G g = inr ((516, ready-Between G g), refl)

ready-Sized : 0 < ready.wrfc.fsize_dblks
unfolding initialize initialize_pages new_cache new_pages alter_page page_at Wrfc.initialize current
    get_fcntlp Wrfc.start_new Wrfc.set_findex Wrfc.on_current Wrfc.point_to Wrfc.set_sizes
    Fcntl.rd_reset new_data_tok
ready-Sized = omega arith

enqueue-Attempts_example :
    Holds
      (λ res w. Attempts 7 Unwritten op_enqueue 1 res (view 7 w))
      Only
      (enqueue quiet message 3 3 7 none 0 false false ready).0
      (enqueue quiet message 3 3 7 none 0 false false ready).1
enqueue-Attempts_example =
    (enqueue-Attempts quiet message 3 7 none 0 false
        (record { data_sized = refl; xid_sized = refl; small = omega arith })).apply
      ready (ready-Begins Unwritten ((refl, refl, omega arith), refl), ready-Sized)

abort-Attempts_example :
    Holds
      (λ res w. Attempts 7 (Idle op_abort) op_abort 2 res (view 7 w))
      Only
      (abort quiet 7 (some (replicate 100 9)) 100 ready).0
      (abort quiet 7 (some (replicate 100 9)) 100 ready).1
abort-Attempts_example =
    (abort-Attempts quiet 7 (some (replicate 100 9)) 100
        (record { sized = refl; pos = omega arith; small = omega arith })).apply
      ready (ready-Begins (Idle op_abort) (refl, refl, omega arith))

commit-Attempts_example :
    Holds
      (λ res w. Attempts 7 (Idle op_commit) op_commit 2 res (view 7 w))
      Only
      (commit quiet 7 (some (replicate 100 9)) 100 ready).0
      (commit quiet 7 (some (replicate 100 9)) 100 ready).1
commit-Attempts_example =
    (commit-Attempts quiet 7 (some (replicate 100 9)) 100
        (record { sized = refl; pos = omega arith; small = omega arith })).apply
      ready (ready-Begins (Idle op_commit) (refl, refl, omega arith))

-- Record 5 is enqueued in file 1, and its token is free to be dequeued.
abbrev enqueued : Wmgr
enqueued = record ready {
  wrfc = record ready.wrfc {
    lpm = record two_files {
      fcntl_arr = some (blank 0 0 128) ∷ some (record (blank 1 1 128) { rec_enqcnt = 1 }) ∷ [];
    };
  };
  emap = record {
    entries = (5, record { pfid = 1; lock = false }) ∷ [];
    pfid_enq_cnt = 0 ∷ 1 ∷ [];
  };
  toks = λ p. record (new_data_tok p).0 { wstate = WriteState.enq; rid = 5 };
}

enqueued-Between : Between 7 (Idle op_dequeue) 516 (view 7 enqueued)
unfolding initialize initialize_pages new_cache new_pages alter_page page_at Wrfc.initialize current
    get_fcntlp Wrfc.start_new Wrfc.set_findex Wrfc.on_current Wrfc.point_to Wrfc.set_sizes
    Fcntl.rd_reset new_data_tok
enqueued-Between = record {
  cache = record {
    pages = refl;
    few = omega arith;
    placed = omega arith;
    pgsize_pos = omega arith;
    pgsize_small = omega arith;
    cached_in = omega arith;
    aligned = refl;
    inside = omega arith;
  };
  first = refl;
  start = refl;
  flushed = refl;
  whole = refl;
  small = omega arith;
  sized = two_sized;
  other = (refl, refl, omega arith);
}

enqueued-Begins : Begins 7 (Idle op_dequeue) enqueued
unfolding initialize initialize_pages new_cache new_pages alter_page page_at Wrfc.initialize current
    get_fcntlp Wrfc.start_new Wrfc.set_findex Wrfc.on_current Wrfc.point_to Wrfc.set_sizes
    Fcntl.rd_reset new_data_tok
enqueued-Begins = inr ((516, enqueued-Between), refl)

dequeue-Attempts_example :
    Holds
      (λ res w. Attempts 7 (Idle op_dequeue) op_dequeue 1 res (view 7 w))
      Only
      (dequeue quiet 7 none 0 false enqueued).0
      (dequeue quiet 7 none 0 false enqueued).1
dequeue-Attempts_example =
    (dequeue-Attempts quiet 7 none 0 false (record { sized = refl; small = omega arith })).apply
      enqueued enqueued-Begins

-- A transaction with one enqueue.
abbrev nine : Xid
nine = 9 ∷ []

abbrev one_enqueue : List TxnData
one_enqueue = txn_data 4 0 0 true false ∷ []

abbrev open_txn : TxnMap
open_txn =
    (TxnMap.insert_txn_data nine (txn_data 4 0 0 true false)
      (TxnMap.set_num_jfiles 2 TxnMap.empty_map)).1

open_txn-IsValid : IsValid open_txn
unfolding TxnMap.set_num_jfiles TxnMap.empty_map
open_txn-IsValid =
    insert_txn_data-IsValid nine (txn_data 4 0 0 true false)
      (TxnMap.set_num_jfiles 2 TxnMap.empty_map) (omega arith) (fresh-IsValid 2)

abbrev in_txn : Wmgr
in_txn = record start { tmap = open_txn }

complete_txn-ended_example :
    Holds
      (λ _ v. Agrees (ended commit_txn one_enqueue (λ j. none)) v × (is_txn_synced nine v ≡ false))
      Any
      (complete_txn commit_txn 7 nine in_txn).0
      (complete_txn commit_txn 7 nine in_txn).1
unfolding EnqMap.set_num_jfiles EnqMap.empty_map TxnMap.get_tdata_list TxnMap.insert_txn_data
    TxnMap.set_num_jfiles TxnMap.empty_map find place
complete_txn-ended_example =
    (complete_txn-ended commit_txn nine one_enqueue (λ j. none) 7).apply in_txn
      ((tt, λ j. refl), open_txn-IsValid, refl)

-- A locked record.
abbrev with_lock : Wmgr
with_lock = record start {
  emap = record { entries = (5, record { pfid = 1; lock = true }) ∷ []; pfid_enq_cnt = 0 ∷ 1 ∷ [] };
}

locked_run : (dequeue_check nine 5 with_lock).0 ≡ throw jerr_map_locked
unfolding dequeue_check dequeue_test EnqMap.get_pfid find
locked_run = refl

no_pfid : (d : EmapData) → find 4 in_txn.emap.entries ≡ some d → d.pfid < 2 ^ 15
unfolding find EnqMap.set_num_jfiles EnqMap.empty_map
no_pfid d h = cc

-- A record that only the transaction has enqueued.
dequeue_check_lem_example :
    let (r, v) = dequeue_check nine 4 in_txn in
    (v ≡ in_txn)
    × ((r ≡ ok tt) ↔ CanDequeue nine 4 in_txn)
    × ((r ≡ throw jerr_map_locked)
        ↔ ((d : EmapData) × (find 4 in_txn.emap.entries ≡ some d) × (d.lock ≡ true)))
    × ((r ≡ ok tt) ⊎ (r ≡ throw jerr_map_locked) ⊎ (r ≡ throw jerr_wmgr_deqridnotenq))
dequeue_check_lem_example = dequeue_check_lem nine 4 in_txn no_pfid

dequeue_check_run : (dequeue_check nine 4 in_txn).0 ≡ ok tt
unfolding dequeue_check dequeue_test EnqMap.get_pfid find place EnqMap.set_num_jfiles
    EnqMap.empty_map TxnMap.data_exists TxnMap.has_rid TxnMap.get_tdata_list TxnMap.insert_txn_data
    TxnMap.set_num_jfiles TxnMap.empty_map
dequeue_check_run = refl

-- The commit of a transaction with its last page on its way.
abbrev last_page : Wmgr
last_page = record start {
  toks = λ p. record (new_data_tok p).0 { pg_cnt = 1; wstate = WriteState.commit_subm; xid = nine };
  tmap = record { entries = []; pfid_txn_cnt = 0 ∷ 0 ∷ [] };
  txn_pending_set = (nine, tt) ∷ [];
}

-- The page that it stands on, in file 0, with 4 blocks submitted.
abbrev last_file : Fcntl
last_file = record (blank 0 0 128) { wr_subm_cnt_dblks = 8; wr_cmpl_cnt_dblks = 4; aio_cnt = 1 }

abbrev the_page : PageCb
the_page = record {
  index = 0;
  state = PageState.aio_pending;
  wdblks = 4;
  rdblks = 0;
  pdtokl = 7 ∷ [];
  wfh = some 0;
  pbuff = [];
}

abbrev page_back : Wmgr
page_back = record last_page {
  wrfc = Wrfc.new_wrfc (record two_files { fcntl_arr = some last_file ∷ [] });
  cache = record (new_cache 0 0) { page_cb_arr = the_page ∷ [] };
}

page_back-LastPage : LastPage commit_txn 7 0 page_back
unfolding find get_fcntlp
page_back-LastPage = record {
  last = record { one_page = refl; submitted = refl; pending = refl; sorted = tt; removed = refl };
  page = the_page;
  here = refl;
  alone = refl;
  place = 0;
  to_file = refl;
  taken = record {
    file = last_file;
    there = refl;
    submitted = omega arith;
    small = omega arith;
    outstanding = omega arith;
  };
  calls_back = refl;
}

return_page-synced_example :
    let (r, v) = return_page PageState.unused 0 0 page_back in
    (is_txn_synced nine page_back ≡ false)
    × (r ≡ ok 1)
    × (v.outside.called_back ≡ (7 ∷ []) ∷ [])
    × ((v.toks 7).wstate ≡ WriteState.committed)
    × (is_txn_synced nine v ≡ true)
return_page-synced_example =
    return_page-synced commit_txn PageState.unused 7 0 0 page_back page_back-LastPage (omega arith)
