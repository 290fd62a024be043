-- ===== src/Wmgr/Maps/Check.antt =====
-- `wmgr::dequeue_check` of lib/jrnl/wmgr.cpp: which records can be dequeued.
use qpid_cpp_store_debian.Prelude.{
  ℕ, zero, suc, ◌<◌, ◌^◌, ◌≡◌, ◌≢◌, ◌↔◌, ◌⊎◌, ◌==◌, ==_iff, refl, ◌∙◌, List, [], ◌∷◌, true, false,
  get_elem?, Bool, Bool-cases, ◌&&◌, Option, none, some, if◌then◌else◌, Option-cases,
  to_int16_small, arith, inl, inr,
}
use qpid_cpp_store_debian.Prelude.StdMap.{nat_key, find}
use qpid_cpp_store_debian.Prelude.Control.{
  Result, ok, throw, jerr_map_locked, jerr_wmgr_deqridnotenq,
}
use qpid_cpp_store_debian.Xid.{Xid, xid_key}
use qpid_cpp_store_debian.EnqMap
use qpid_cpp_store_debian.EnqMap.{EnqMap, EmapData}
use qpid_cpp_store_debian.TxnMap
use qpid_cpp_store_debian.TxnMap.{TxnMap, TxnData}
use qpid_cpp_store_debian.Wmgr.State.{Wmgr}
use qpid_cpp_store_debian.Wmgr.Checks.{not_nil, dequeue_test, dequeue_check}

-- An operation of the list has this record id.
abbrev pub Has : ℕ → List TxnData → Type 0
Has rid tdl = (i : ℕ) × (td : TxnData) × (get_elem? tdl i ≡ some td) × (td.rid ≡ rid)

-- The operations of a transaction, none if it is not open.
abbrev pub operations : Xid → TxnMap → List TxnData
operations xid m = elim (find xid m.entries) [ none ↦ [] | some tdl ↦ tdl ]

has_rid-Has : (rid : ℕ) (tdl : List TxnData) → (TxnMap.has_rid rid tdl ≡ true) ↔ Has rid tdl
unfolding TxnMap.has_rid
has_rid-Has rid [] = ((λ h. cc), (λ h. cc h.2))
has_rid-Has rid (td ∷ tdl) =
    let rest = has_rid-Has rid tdl in
    (
      (λ h. elim (Bool-cases (td.rid == rid)) [
        | inl e ↦ (0, td, refl, (==_iff td.rid rid).0 e)
        | inr e ↦ let g = rest.0 (ground (arith, h, e)) in (suc g.0, g.1, g.2, g.3)
      ]),
      back rest.1,
    )
  where
    back :
        (Has rid tdl → TxnMap.has_rid rid tdl ≡ true)
        → Has rid (td ∷ tdl)
        → TxnMap.has_rid rid (td ∷ tdl) ≡ true
    back f (zero, x, g, k) = ground (arith, g, k)
    back f (suc i, x, g, k) = ground (arith, f (i, x, g, k))

data_exists-Has :
    (xid : Xid) (rid : ℕ) (m : TxnMap)
    → (TxnMap.data_exists xid rid m ≡ true) ↔ Has rid (operations xid m)
unfolding TxnMap.data_exists TxnMap.get_tdata_list
data_exists-Has xid rid m = has_rid-Has rid (operations xid m)

not_nil_iff : (xid : Xid) → (not_nil xid ≡ true) ↔ (xid ≢ [])
not_nil_iff [] = ((λ h. cc), (λ h. absurd (h refl)))
not_nil_iff (a ∷ x) = ((λ h. λ e. cc), (λ h. refl))

-- The record may be dequeued: it is enqueued and not locked, or it is not enqueued, and an operation
-- of the transaction of the given xid has its id.
abbrev pub CanDequeue : Xid → ℕ → Wmgr → Type 0
CanDequeue xid drid w =
    ((d : EmapData) × (find drid w.emap.entries ≡ some d) × (d.lock ≡ false))
    ⊎ ((find drid w.emap.entries ≡ none) × (xid ≢ []) × Has drid (operations xid w.tmap))

dequeue_outcome : Option EmapData → Bool → Result (Unit {0})
dequeue_outcome (some d) own = if d.lock then throw jerr_map_locked else ok tt
dequeue_outcome none own = if own then ok tt else throw jerr_wmgr_deqridnotenq

dequeue_test-eq :
    (xid : Xid) (drid : ℕ) (w : Wmgr)
    → ((d : EmapData) → find drid w.emap.entries ≡ some d → d.pfid < 2 ^ 15)
    → dequeue_test xid drid w.emap w.tmap
      ≡ dequeue_outcome
          (find drid w.emap.entries)
          (not_nil xid && TxnMap.data_exists xid drid w.tmap)
unfolding dequeue_test EnqMap.get_pfid dequeue_outcome
dequeue_test-eq xid drid w h = elim (Option-cases (find drid w.emap.entries)) [
  | inl e ↦ ground (arith, e)
  | inr (d, e) ↦ ground (arith, e, to_int16_small d.pfid (h d e))
]

own_iff :
    (xid : Xid) (drid : ℕ) (m : TxnMap)
    → ((not_nil xid && TxnMap.data_exists xid drid m) ≡ true)
      ↔ ((xid ≢ []) × Has drid (operations xid m))
own_iff xid drid m = (
  (λ h. (
    (not_nil_iff xid).0 (ground (arith, h)),
    (data_exists-Has xid drid m).0 (ground (arith, h)),
  )),
  (λ h. rw ((not_nil_iff xid).1 h.0, (data_exists-Has xid drid m).1 h.1) refl),
)

-- `dequeue_check` changes nothing. It returns exactly if the record is enqueued and not locked, or is
-- not enqueued and an operation of the transaction of the given xid has the record's id; it throws the
-- error for a locked record exactly if the record is enqueued and locked, and otherwise the one for a
-- record that is not enqueued. Every enqueued record is in a file whose number is below 2 ^ 15.
pub dequeue_check_lem :
    (xid : Xid) (drid : ℕ) (w : Wmgr)
    → ((d : EmapData) → find drid w.emap.entries ≡ some d → d.pfid < 2 ^ 15)
    → let (r, v) = dequeue_check xid drid w in
      (v ≡ w)
      × ((r ≡ ok tt) ↔ CanDequeue xid drid w)
      × ((r ≡ throw jerr_map_locked)
          ↔ ((d : EmapData) × (find drid w.emap.entries ≡ some d) × (d.lock ≡ true)))
      × ((r ≡ ok tt) ⊎ (r ≡ throw jerr_map_locked) ⊎ (r ≡ throw jerr_wmgr_deqridnotenq))
unfolding dequeue_check dequeue_outcome
dequeue_check_lem xid drid w h =
    let q = dequeue_test-eq xid drid w h in
    elim (Option-cases (find drid w.emap.entries)) [
      | inl e ↦ elim (Bool-cases (not_nil xid && TxnMap.data_exists xid drid w.tmap)) [
        | inl f ↦
            let r : dequeue_test xid drid w.emap w.tmap ≡ ok tt = q ∙ rw (e, f) refl in
            (
              refl,
              ((λ z. let o = (own_iff xid drid w.tmap).0 f in inr (e, o.0, o.1)), (λ z. r)),
              ((λ z. cc), (λ (d, g, k). cc)),
              inl r,
            )
        | inr f ↦
            let r : dequeue_test xid drid w.emap w.tmap ≡ throw jerr_wmgr_deqridnotenq =
              q ∙ rw (e, f) refl in
            (
              refl,
              (
                (λ z. cc),
                (λ z. elim z [
                  | inl (d, g, k) ↦ cc
                  | inr (g, n, o) ↦ cc ((own_iff xid drid w.tmap).1 (n, o))
                ]),
              ),
              ((λ z. cc), (λ (d, g, k). cc)),
              inr (inr r),
            )
      ]
      | inr (d, e) ↦ elim (Bool-cases d.lock) [
        | inl f ↦
            let r : dequeue_test xid drid w.emap w.tmap ≡ throw jerr_map_locked =
              q ∙ rw (e, f) refl in
            (
              refl,
              ((λ z. cc), (λ z. elim z [ inl (x, g, k) ↦ cc | inr (g, n, o) ↦ cc ])),
              ((λ z. (d, e, f)), (λ z. r)),
              inr (inl r),
            )
        | inr f ↦
            let r : dequeue_test xid drid w.emap w.tmap ≡ ok tt = q ∙ rw (e, f) refl in
            (refl, ((λ z. inl (d, e, f)), (λ z. r)), ((λ z. cc), (λ (x, g, k). cc)), inl r)
      ]
    ]
