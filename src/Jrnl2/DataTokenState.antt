-- ===== src/Jrnl2/DataTokenState.antt =====
-- lib/jrnl2/DataTokenState.hpp and DataTokenState.cpp: the states of a data token.
pub mod Reach
use qpid_cpp_store_debian.Prelude.{Bool, true, false}
use qpid_cpp_store_debian.Prelude.Control.{
  Result, ok, throw, M, jerr_baddtokopstate, jerr_baddtoktxnstate, jerr_baddtokiostate,
}

pub data OpState : Type 0 where
  op_none op_enqueue op_dequeue : OpState

pub data TxnState : Type 0 where
  tx_none tx_commit tx_abort : TxnState

pub data AioState : Type 0 where
  io_none io_part io_complete : AioState

pub record DataTokenState : Type 0 where
  pub op_state : OpState
  pub txn_state : TxnState
  pub buffer_write_state : AioState
  pub aio_submission_state : AioState
  pub aio_completion_state : AioState

-- The default constructor, and `reset`.
abbrev pub initial : DataTokenState
initial = record {
  op_state = op_none;
  txn_state = tx_none;
  buffer_write_state = io_none;
  aio_submission_state = io_none;
  aio_completion_state = io_none;
}

abbrev pub reset : DataTokenState → DataTokenState
reset s = initial

-- Raw state set functions.
abbrev pub set_op_state : OpState → DataTokenState → DataTokenState
set_op_state o s = record s { op_state = o }

abbrev pub set_txn_state : TxnState → DataTokenState → DataTokenState
set_txn_state t s = record s { txn_state = t }

abbrev pub set_buffer_write_state : AioState → DataTokenState → DataTokenState
set_buffer_write_state b s = record s { buffer_write_state = b }

abbrev pub set_aio_submission_state : AioState → DataTokenState → DataTokenState
set_aio_submission_state a s = record s { aio_submission_state = a }

abbrev pub set_aio_completion_state : AioState → DataTokenState → DataTokenState
set_aio_completion_state a s = record s { aio_completion_state = a }

-- State query functions.
abbrev pub is_enqueueable : DataTokenState → Bool
is_enqueueable s = elim s.op_state [ op_none ↦ true | _ ↦ false ]

abbrev pub is_dequeueable : DataTokenState → Bool
is_dequeueable s = elim s.op_state [ op_enqueue ↦ true | _ ↦ false ]

abbrev pub is_txn_open : DataTokenState → Bool
is_txn_open s = elim s.txn_state [ tx_none ↦ true | _ ↦ false ]

abbrev pub is_io_none : AioState → Bool
is_io_none io_none = true
is_io_none io_part = false
is_io_none io_complete = false

abbrev pub is_complete : AioState → Bool
is_complete io_none = false
is_complete io_part = false
is_complete io_complete = true

unfoldable pub set_op_state_to_enqueue : M DataTokenState (Unit {0})
set_op_state_to_enqueue s = elim (is_enqueueable s) [
  | true ↦ (ok tt, record s { op_state = op_enqueue })
  | false ↦ (throw jerr_baddtokopstate, s)
]

unfoldable pub set_op_state_to_dequeue : M DataTokenState (Unit {0})
set_op_state_to_dequeue s = elim (is_dequeueable s) [
  | true ↦ (ok tt, record s { op_state = op_dequeue })
  | false ↦ (throw jerr_baddtokopstate, s)
]

unfoldable pub set_txn_state_to_commit : M DataTokenState (Unit {0})
set_txn_state_to_commit s = elim (is_txn_open s) [
  | true ↦ (ok tt, record s { txn_state = tx_commit })
  | false ↦ (throw jerr_baddtoktxnstate, s)
]

unfoldable pub set_txn_state_to_abort : M DataTokenState (Unit {0})
set_txn_state_to_abort s = elim (is_txn_open s) [
  | true ↦ (ok tt, record s { txn_state = tx_abort })
  | false ↦ (throw jerr_baddtoktxnstate, s)
]

unfoldable pub set_buffer_write_state_to_part : M DataTokenState (Unit {0})
set_buffer_write_state_to_part s = elim (is_io_none s.buffer_write_state) [
  | true ↦ (ok tt, record s { buffer_write_state = io_part })
  | false ↦ (throw jerr_baddtokiostate, s)
]

abbrev pub set_buffer_write_state_to_complete : DataTokenState → DataTokenState
set_buffer_write_state_to_complete s = record s { buffer_write_state = io_complete }

unfoldable pub set_aio_submission_state_to_part : M DataTokenState (Unit {0})
set_aio_submission_state_to_part s = elim (is_io_none s.aio_submission_state) [
  | true ↦ (ok tt, record s { aio_submission_state = io_part })
  | false ↦ (throw jerr_baddtokiostate, s)
]

abbrev pub set_aio_submission_state_to_complete : DataTokenState → DataTokenState
set_aio_submission_state_to_complete s = record s { aio_submission_state = io_complete }

unfoldable pub set_aio_completion_state_to_part : M DataTokenState (Unit {0})
set_aio_completion_state_to_part s = elim (is_io_none s.aio_completion_state) [
  | true ↦ (ok tt, record s { aio_completion_state = io_part })
  | false ↦ (throw jerr_baddtokiostate, s)
]

abbrev pub set_aio_completion_state_to_complete : DataTokenState → DataTokenState
set_aio_completion_state_to_complete s = record s { aio_completion_state = io_complete }
