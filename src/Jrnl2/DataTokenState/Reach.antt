-- ===== src/Jrnl2/DataTokenState/Reach.antt =====
-- How the states of a data token of lib/jrnl2/DataTokenState.cpp advance.
use qpid_cpp_store_debian.Prelude.{
  ℕ, ◌≤◌, ◌≡◌, ◌⊎◌, inr, refl, Bool, true, false, List, [], ◌∷◌, arith,
}
use qpid_cpp_store_debian.Prelude.Control.{Result, ok, throw, jerr_baddtokopstate}
use qpid_cpp_store_debian.Jrnl2.DataTokenState.{
  OpState, op_none, op_enqueue, op_dequeue, tx_none, AioState, io_none, io_part, io_complete,
  DataTokenState, reset, is_dequeueable, set_op_state_to_enqueue, set_op_state_to_dequeue,
  set_txn_state_to_commit, set_txn_state_to_abort, set_buffer_write_state_to_part,
  set_buffer_write_state_to_complete, set_aio_submission_state_to_part,
  set_aio_submission_state_to_complete, set_aio_completion_state_to_part,
  set_aio_completion_state_to_complete,
}

-- The state change functions.
pub data Call : Type 0 where
  resets : Call
  to_enqueue to_dequeue to_commit to_abort : Call
  buffer_part buffer_complete submission_part submission_complete completion_part
        completion_complete :
      Call

abbrev pub outcome : Call → DataTokenState → Result (Unit {0}) × DataTokenState
outcome resets s = (ok tt, reset s)
outcome to_enqueue s = set_op_state_to_enqueue s
outcome to_dequeue s = set_op_state_to_dequeue s
outcome to_commit s = set_txn_state_to_commit s
outcome to_abort s = set_txn_state_to_abort s
outcome buffer_part s = set_buffer_write_state_to_part s
outcome buffer_complete s = (ok tt, set_buffer_write_state_to_complete s)
outcome submission_part s = set_aio_submission_state_to_part s
outcome submission_complete s = (ok tt, set_aio_submission_state_to_complete s)
outcome completion_part s = set_aio_completion_state_to_part s
outcome completion_complete s = (ok tt, set_aio_completion_state_to_complete s)

unfoldable pub run : List Call → DataTokenState → DataTokenState
run [] s = s
run (c ∷ cs) s = run cs (outcome c s).1

abbrev pub op_rank : OpState → ℕ
op_rank op_none = 0
op_rank op_enqueue = 1
op_rank op_dequeue = 2

abbrev pub io_rank : AioState → ℕ
io_rank io_none = 0
io_rank io_part = 1
io_rank io_complete = 2

-- Every state is at least as far on, and a transaction that is over keeps its end.
pub record Advances (s t : DataTokenState) : Type 0 where
  pub op : op_rank s.op_state ≤ op_rank t.op_state
  pub buffer : io_rank s.buffer_write_state ≤ io_rank t.buffer_write_state
  pub submission : io_rank s.aio_submission_state ≤ io_rank t.aio_submission_state
  pub completion : io_rank s.aio_completion_state ≤ io_rank t.aio_completion_state
  pub txn : (s.txn_state ≡ tx_none) ⊎ (s.txn_state ≡ t.txn_state)

abbrev pub resets_token : Call → Bool
resets_token resets = true
resets_token c = false

abbrev pub NoReset : List Call → Type 0
NoReset [] = Unit
NoReset (c ∷ cs) = (resets_token c ≡ false) × NoReset cs

step-Advances :
    (c : Call) (s : DataTokenState) → resets_token c ≡ false → Advances s (outcome c s).1
unfolding set_op_state_to_enqueue set_op_state_to_dequeue set_txn_state_to_commit
    set_txn_state_to_abort set_buffer_write_state_to_part set_aio_submission_state_to_part
    set_aio_completion_state_to_part
step-Advances resets s n = cc
step-Advances to_enqueue s n = ground arith
step-Advances to_dequeue s n = ground arith
step-Advances to_commit s n = ground arith
step-Advances to_abort s n = ground arith
step-Advances buffer_part s n = ground arith
step-Advances buffer_complete s n = ground arith
step-Advances submission_part s n = ground arith
step-Advances submission_complete s n = ground arith
step-Advances completion_part s n = ground arith
step-Advances completion_complete s n = ground arith

Advances-trans : (s t u : DataTokenState) → Advances s t → Advances t u → Advances s u
Advances-trans s t u h k = record {
  op = omega (arith, h.op, k.op);
  buffer = omega (arith, h.buffer, k.buffer);
  submission = omega (arith, h.submission, k.submission);
  completion = omega (arith, h.completion, k.completion);
  txn = ground (arith, h.txn, k.txn);
}

Advances-refl : (s : DataTokenState) → Advances s s
Advances-refl s = record {
  op = omega arith;
  buffer = omega arith;
  submission = omega arith;
  completion = omega arith;
  txn = inr refl;
}

-- Whatever state change functions but `reset` are called, thrown or not, no state of a token goes
-- back: not the operation, not the three progress states of its write, and a transaction that was
-- committed or aborted stays so.
pub run-Advances : (cs : List Call) (s : DataTokenState) → NoReset cs → Advances s (run cs s)
unfolding run
run-Advances [] s n = Advances-refl s
run-Advances (c ∷ cs) s n =
    Advances-trans s (outcome c s).1 (run cs (outcome c s).1) (step-Advances c s n.0)
      (run-Advances cs (outcome c s).1 n.1)

-- Without a `reset` a token is dequeued at most once: a dequeue that returns needs a token that is
-- enqueued, and whatever state change functions but `reset` follow, a second one throws and changes
-- nothing.
pub dequeue_once :
    (cs : List Call) (s : DataTokenState)
    → NoReset cs
    → (set_op_state_to_dequeue s).0 ≡ ok tt
    → let t = run cs (set_op_state_to_dequeue s).1 in
      (is_dequeueable s ≡ true) × (set_op_state_to_dequeue t ≡ (throw jerr_baddtokopstate, t))
unfolding set_op_state_to_dequeue
dequeue_once cs s n h = ground (arith, run-Advances cs (record s { op_state = op_dequeue }) n)
