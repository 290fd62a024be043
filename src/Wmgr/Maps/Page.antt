-- ===== src/Wmgr/Maps/Page.antt =====
-- A page returns from the AIO library, in `wmgr::get_events` of lib/jrnl/wmgr.cpp.
use qpid_cpp_store_debian.Prelude.{
  ◌+◌, ◌-◌, ◌≤◌, ◌<◌, ◌^◌, List, [], ◌∷◌, ◌++◌, get_elem?, set, add32, if◌then◌else◌, ℕ, ◌≡◌, refl,
  ap, ◌∙◌, true, false, some, arith,
}
use qpid_cpp_store_debian.Prelude.StdMap.{find, erase}
use qpid_cpp_store_debian.Prelude.StdMap.Order.{find-erase_self}
use qpid_cpp_store_debian.Prelude.Control.{M, ok, ◌>>=◌, ◌>>◌, pure}
use qpid_cpp_store_debian.Xid.{xid_key, xid_less_irr}
use qpid_cpp_store_debian.DataTok
use qpid_cpp_store_debian.DataTok.{DataTok, WriteState}
use qpid_cpp_store_debian.Fcntl
use qpid_cpp_store_debian.Fcntl.{Fcntl}
use qpid_cpp_store_debian.Lpmgr.{get_fcntlp}
use qpid_cpp_store_debian.Wrfc.{Wrfc, put_file, on_file}
use qpid_cpp_store_debian.Wmgr.State.{put_page, on_file_at, PageState, PageCb, page_at, Wmgr}
use qpid_cpp_store_debian.Wmgr.Events.{
  call_back, return_page, return_toks, written, return_tok, is_txn_synced,
}
use qpid_cpp_store_debian.Wmgr.Complete.{TxnEnd}
use qpid_cpp_store_debian.Prelude.Control.{bind-ok}
use qpid_cpp_store_debian.Wmgr.Frame.Files.{set_self}
use qpid_cpp_store_debian.Wmgr.Maps.Return.{
  end_done, IsLast, not_yet, synced_now, settled, updated, one_less, returned,
}

-- The file that a page was written to counts the page as complete.
get_fcntlp-put_file :
    (j : ℕ) (f g : Fcntl) (w : Wrfc)
    → get_fcntlp j w.lpm ≡ some f
    → get_fcntlp j (put_file j g w).lpm ≡ some g
unfolding get_fcntlp
get_fcntlp-put_file j f g w h =
    ground (arith, h, set_self w.lpm.fcntl_arr j f g (ground (arith, h)))

on_file-ok :
    {A : Type 0} (j : ℕ) (m : M Fcntl A) (a : A) (f g : Fcntl) (w : Wrfc)
    → get_fcntlp j w.lpm ≡ some f
    → m f ≡ (ok a, g)
    → on_file j m w ≡ (ok a, put_file j g w)
unfolding on_file
on_file-ok j m a f g w h e = rw (h, on_file) (rw e refl)

-- The file takes the completion of so many blocks.
pub record Takes (j n : ℕ) (w : Wrfc) : Type 0 where
  pub file : Fcntl
  pub there : get_fcntlp j w.lpm ≡ some file
  pub submitted : file.wr_cmpl_cnt_dblks + n ≤ file.wr_subm_cnt_dblks
  pub small : file.wr_subm_cnt_dblks < 2 ^ 32
  pub outstanding : 0 < file.aio_cnt

counted :
    (a : ℕ) (f : Fcntl)
    → f.wr_cmpl_cnt_dblks + a ≤ f.wr_subm_cnt_dblks
    → f.wr_subm_cnt_dblks < 2 ^ 32
    → Fcntl.add_wr_cmpl_cnt_dblks a f
      ≡ (ok (f.wr_cmpl_cnt_dblks + a), record f { wr_cmpl_cnt_dblks = f.wr_cmpl_cnt_dblks + a })
unfolding Fcntl.add_wr_cmpl_cnt_dblks
counted a f h l = ground arith

one_aio :
    (f : Fcntl)
    → 0 < f.aio_cnt
    → Fcntl.decr_aio_cnt f ≡ (ok (f.aio_cnt - 1), record f { aio_cnt = f.aio_cnt - 1 })
unfolding Fcntl.decr_aio_cnt
one_aio f h = ground arith

written-ok :
    (j n : ℕ) (v : Wmgr)
    → Takes j n v.wrfc
    → (x : Wrfc) × (written (some j) n v ≡ (ok tt, record v { wrfc = x }))
unfolding written
written-ok j n v t =
    let f = t.file in
    let g : Fcntl = record f { wr_cmpl_cnt_dblks = f.wr_cmpl_cnt_dblks + n } in
    let k : Fcntl = record g { aio_cnt = f.aio_cnt - 1 } in
    let x = put_file j g v.wrfc in
    let one : on_file j (Fcntl.add_wr_cmpl_cnt_dblks n) v.wrfc ≡ (ok (f.wr_cmpl_cnt_dblks + n), x) =
      on_file-ok j (Fcntl.add_wr_cmpl_cnt_dblks n) (f.wr_cmpl_cnt_dblks + n) f g v.wrfc t.there
        (counted n f t.submitted t.small) in
    let two : on_file j Fcntl.decr_aio_cnt x ≡ (ok (f.aio_cnt - 1), put_file j k x) =
      on_file-ok j Fcntl.decr_aio_cnt (f.aio_cnt - 1) g k x
        (get_fcntlp-put_file j f g v.wrfc t.there) (one_aio g t.outstanding) in
    let next : M Wmgr (Unit {0}) = on_file_at j Fcntl.decr_aio_cnt >>= (λ _. pure tt) in
    (
      put_file j k x,
      bind-ok (on_file_at j (Fcntl.add_wr_cmpl_cnt_dblks n)) (λ _. next) (f.wr_cmpl_cnt_dblks + n) v
            (record v { wrfc = x }) (ap (λ o. (o.0, record v { wrfc = o.1 })) one)
          ∙ bind-ok (on_file_at j Fcntl.decr_aio_cnt) (λ _. pure tt) (f.aio_cnt - 1)
              (record v { wrfc = x }) (record v { wrfc = put_file j k x })
              (ap (λ o. (o.0, record v { wrfc = o.1 })) two),
    )

page_at-some :
    (i : ℕ) (g : PageCb) (w : Wmgr)
    → get_elem? w.cache.page_cb_arr i ≡ some g
    → page_at i w ≡ (ok g, w)
unfolding page_at
page_at-some i g w h = rw (h, page_at) refl

call_back-eq :
    (q : List ℕ) (n : ℕ) (u : Wmgr)
    → u.cbp ≡ true
    → 0 < n
    → call_back q n u ≡ (
      ok tt,
      record u { outside = record u.outside { called_back = u.outside.called_back ++ (q ∷ []) } },
    )
call_back-eq q n u h k = ground (arith, h, k)

return_one :
    (p tot : ℕ) (w s : Wmgr)
    → return_tok p w ≡ (ok true, s)
    → return_toks (p ∷ []) [] tot w ≡ (ok (p ∷ [], add32 tot 1), s)
unfolding return_toks
return_one p tot w s h =
    bind-ok (return_tok p)
      (λ b. return_toks [] (if b then p ∷ [] else []) (if b then add32 tot 1 else tot)) true w s h

return_page-eq :
    (state : PageState) (i p tot : ℕ) (g : PageCb) (w s t : Wmgr)
    → get_elem? w.cache.page_cb_arr i ≡ some g
    → g.pdtokl ≡ p ∷ []
    → return_tok p w ≡ (ok true, s)
    → written g.wfh g.wdblks s ≡ (ok tt, t)
    → t.cbp ≡ true
    → tot + 1 < 2 ^ 32
    → return_page state i tot w ≡ (
      ok (tot + 1),
      record t {
        cache = record t.cache {
          page_cb_arr = set t.cache.page_cb_arr i (record g { pdtokl = []; state = state });
        };
        outside = record t.outside { called_back = t.outside.called_back ++ ((p ∷ []) ∷ []) };
      },
    )
unfolding return_page page_at return_toks
return_page-eq state i p tot g w s t a b c d cb k =
    bind-ok (page_at i) after_page g w w (page_at-some i g w a)
    ∙ bind-ok (return_toks g.pdtokl [] tot) after_toks ((p ∷ []), add32 tot 1) w s
        (ap (λ q. return_toks q [] tot w) b ∙ return_one p tot w s c)
    ∙ bind-ok (written g.wfh g.wdblks) (λ _. after_written (p ∷ []) (add32 tot 1)) tt s t d
    ∙ bind-ok (call_back (p ∷ []) (add32 tot 1)) (λ _. pure (add32 tot 1)) tt put _
        (call_back-eq (p ∷ []) (add32 tot 1) put cb (omega (arith, k)))
    ∙ ap
        (λ n. (
          ok n,
          record put {
            outside = record put.outside {
              called_back = put.outside.called_back ++ ((p ∷ []) ∷ []);
            };
          },
        ))
        (wraps k)
  where
    put : Wmgr
    put = record t {
      cache = record t.cache {
        page_cb_arr = set t.cache.page_cb_arr i (record g { pdtokl = []; state = state });
      };
    }

    after_written : List ℕ → ℕ → M Wmgr ℕ
    after_written q n =
        put_page i (record g { pdtokl = []; state = state }) >> (call_back q n >> pure n)

    after_toks : List ℕ × ℕ → M Wmgr ℕ
    after_toks (q, n) = written g.wfh g.wdblks >> after_written q n

    after_page : PageCb → M Wmgr ℕ
    after_page o = return_toks o.pdtokl [] tot >>= (λ (q, n).
        written o.wfh o.wdblks
        >> (put_page i (record o { pdtokl = []; state = state }) >> (call_back q n >> pure n)))

    wraps : tot + 1 < 2 ^ 32 → add32 tot 1 ≡ tot + 1
    wraps h = omega (arith, h)

-- A page with the token of a transaction's end alone, whose write has returned, and which is counted
-- as submitted by its file.
pub record LastPage (e : TxnEnd) (p i : ℕ) (w : Wmgr) : Type 0 where
  pub last : IsLast e p w
  pub page : PageCb
  pub here : get_elem? w.cache.page_cb_arr i ≡ some page
  pub alone : page.pdtokl ≡ p ∷ []
  pub place : ℕ
  pub to_file : page.wfh ≡ some place
  pub taken : Takes place page.wdblks w.wrfc
  pub calls_back : w.cbp ≡ true

-- When the only page still outstanding of a submitted record that commits, or aborts, a transaction
-- returns from the AIO library, and no other token is on the page, the token is passed to the
-- callback, alone and once, it reaches its last state, and the transaction, which did not count as
-- synchronized until then, does from then on. There is a callback, the end of the transaction is
-- pending, in a set in order, its operations are no longer in the map of transactions, the file of
-- the page has the write outstanding, and the tokens of the call so far are fewer than 2 ^ 32 - 1.
pub return_page-synced :
    (e : TxnEnd) (state : PageState) (p i tot : ℕ) (w : Wmgr)
    → LastPage e p i w
    → tot + 1 < 2 ^ 32
    → let (r, v) = return_page state i tot w in
      (is_txn_synced (w.toks p).xid w ≡ false)
      × (r ≡ ok (tot + 1))
      × (v.outside.called_back ≡ w.outside.called_back ++ ((p ∷ []) ∷ []))
      × ((v.toks p).wstate ≡ end_done e)
      × (is_txn_synced (w.toks p).xid v ≡ true)
unfolding is_txn_synced
return_page-synced e state p i tot w l k =
    let u = one_less p w in
    let here : u.toks p ≡ record (w.toks p) { pg_cnt = 0 } =
      updated p w.toks (record (w.toks p) { pg_cnt = 0 }) in
    let s = settled e p u in
    let x = written-ok l.place l.page.wdblks s l.taken in
    let all =
      return_page-eq state i p tot l.page w s (record s { wrfc = x.0 }) l.here l.alone
        (returned e p w l.last) (ap (λ o. written o l.page.wdblks s) l.to_file ∙ x.1) l.calls_back
        k in
    (
      not_yet (w.toks p).xid w l.last.pending,
      ap (λ o. o.0) all,
      ap (λ o. o.1.outside.called_back) all,
      ap (λ o. (o.1.toks p).wstate) all
          ∙ ap (λ t. t.wstate) (updated p u.toks (DataTok.set_wstate (end_done e) (u.toks p))),
      ap (λ o. is_txn_synced (w.toks p).xid o.1) all
          ∙ synced_now (w.toks p).xid (record s { wrfc = x.0 })
              (ap (λ t. find (w.toks p).xid (erase t.xid w.txn_pending_set)) here
                ∙ find-erase_self (w.toks p).xid w.txn_pending_set (xid_less_irr (w.toks p).xid)
                    l.last.sorted)
              l.last.removed,
    )
