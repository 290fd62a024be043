-- ===== src/Wmgr/Maps/Return.antt =====
-- The last page of the record that ends a transaction returns from the AIO library, in
-- `wmgr::get_events` of lib/jrnl/wmgr.cpp.
use qpid_cpp_store_debian.Prelude.{ℕ, ◌≡◌, refl, ap, ◌∙◌, true, false, none, some, ◌==◌, arith}
use qpid_cpp_store_debian.Prelude.StdMap.{find, erase}
use qpid_cpp_store_debian.Prelude.StdMap.Order.{IsSorted}
use qpid_cpp_store_debian.Prelude.Control.{ok, ◌>>=◌, ◌>>◌, pure}
use qpid_cpp_store_debian.Xid.{Xid, xid_key}
use qpid_cpp_store_debian.DataTok
use qpid_cpp_store_debian.DataTok.{DataTok, WriteState}
use qpid_cpp_store_debian.TxnMap
use qpid_cpp_store_debian.Wmgr.State.{Wmgr, set_tok, tok, update}
use qpid_cpp_store_debian.Wmgr.Events.{return_tok, complete_tok, erase_pending, is_txn_synced}
use qpid_cpp_store_debian.Wmgr.Complete.{TxnEnd, abort_txn, commit_txn, end_subm}

-- The state of a token whose transaction has ended on disk.
abbrev pub end_done : TxnEnd → WriteState
end_done abort_txn = WriteState.aborted
end_done commit_txn = WriteState.committed

-- The token `p` of the end of a transaction with one page on its way.
pub record IsLast (e : TxnEnd) (p : ℕ) (w : Wmgr) : Type 0 where
  pub one_page : (w.toks p).pg_cnt ≡ 1
  pub submitted : (w.toks p).wstate ≡ end_subm e
  pub pending : find (w.toks p).xid w.txn_pending_set ≡ some tt
  pub sorted : IsSorted w.txn_pending_set
  pub removed : find (w.toks p).xid w.tmap.entries ≡ none

erases :
    (xid : Xid) (v : Wmgr)
    → find xid v.txn_pending_set ≡ some tt
    → erase_pending xid v ≡ (ok tt, record v { txn_pending_set = erase xid v.txn_pending_set })
unfolding erase_pending
erases xid v h = ground (arith, h)

pub synced_now :
    (xid : Xid) (v : Wmgr)
    → find xid v.txn_pending_set ≡ none
    → find xid v.tmap.entries ≡ none
    → is_txn_synced xid v ≡ true
unfolding is_txn_synced TxnMap.is_txn_synced
synced_now xid v h k = ground (arith, h, k)

pub not_yet :
    (xid : Xid) (v : Wmgr) → find xid v.txn_pending_set ≡ some tt → is_txn_synced xid v ≡ false
unfolding is_txn_synced
not_yet xid v n = rw (n, is_txn_synced) ground arith

self : (p : ℕ) → (p == p) ≡ true
self p = ground arith

-- The state once the token's end has been taken note of.
abbrev pub settled : TxnEnd → ℕ → Wmgr → Wmgr
settled e p v = record v {
  toks = update v.toks p (DataTok.set_wstate (end_done e) (v.toks p));
  txn_pending_set = erase (v.toks p).xid v.txn_pending_set;
}

pub updated : (p : ℕ) (f : ℕ → DataTok) (t : DataTok) → update f p t p ≡ t
updated p f t = rw (self p) refl

after_erase :
    (xid : Xid) (u : Wmgr)
    → find xid u.txn_pending_set ≡ some tt
    → (erase_pending xid >> pure true) u
      ≡ (ok true, record u { txn_pending_set = erase xid u.txn_pending_set })
unfolding erase_pending
after_erase xid u h = ground (arith, h)

ending :
    (p : ℕ) (s : WriteState) (v : Wmgr)
    → find (v.toks p).xid v.txn_pending_set ≡ some tt
    → (set_tok p (DataTok.set_wstate s) >> (tok p >>= (λ t. erase_pending t.xid >> pure true))) v
      ≡ (
        ok true,
        record v {
          toks = update v.toks p (DataTok.set_wstate s (v.toks p));
          txn_pending_set = erase (v.toks p).xid v.txn_pending_set;
        },
      )
ending p s v h =
    let u : Wmgr = record v { toks = update v.toks p (DataTok.set_wstate s (v.toks p)) } in
    let same : (u.toks p).xid ≡ (v.toks p).xid =
      ap (λ t. t.xid) (updated p v.toks (DataTok.set_wstate s (v.toks p))) in
    after_erase (u.toks p).xid u (ap (λ x. find x v.txn_pending_set) same ∙ h)
    ∙ ap (λ x. (ok true, record u { txn_pending_set = erase x v.txn_pending_set })) same

completes :
    (e : TxnEnd) (p : ℕ) (v : Wmgr)
    → find (v.toks p).xid v.txn_pending_set ≡ some tt
    → complete_tok p (end_subm e) v ≡ (ok true, settled e p v)
unfolding complete_tok
completes abort_txn p v h = ending p WriteState.aborted v h
completes commit_txn p v h = ending p WriteState.committed v h

-- One page less.
abbrev pub one_less : ℕ → Wmgr → Wmgr
one_less p w = record w { toks = update w.toks p (record (w.toks p) { pg_cnt = 0 }) }

return_tok-eq :
    (p : ℕ) (w : Wmgr)
    → (w.toks p).pg_cnt ≡ 1
    → return_tok p w ≡ complete_tok p ((one_less p w).toks p).wstate (one_less p w)
unfolding return_tok DataTok.decr_pg_cnt
return_tok-eq p w h = ground (arith, h)

-- What `return_tok` does with the token.
pub returned :
    (e : TxnEnd) (p : ℕ) (w : Wmgr)
    → IsLast e p w
    → return_tok p w ≡ (ok true, settled e p (one_less p w))
returned e p w l =
    let here = updated p w.toks (record (w.toks p) { pg_cnt = 0 }) in
    return_tok-eq p w l.one_page
    ∙ (ap (λ s. complete_tok p s (one_less p w)) (ap (λ t. t.wstate) here ∙ l.submitted)
        ∙ completes e p (one_less p w) (ap (λ t. find t.xid w.txn_pending_set) here ∙ l.pending))
