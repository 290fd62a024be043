-- ===== src/TxnMap/Sync.antt =====
-- When the AIO completions of lib/jrnl/txn_map.cpp make a transaction synchronized.
use qpid_cpp_store_debian.Prelude.{
  ℕ, ◌≡◌, refl, sym, ap, ◌∙◌, Bool, true, false, ◌&&◌, ◌||◌, inl, inr, none, some, List, [], ◌∷◌,
  if◌then◌else◌, ◌==◌, Option-cases, Bool-cases, arith, subst,
}
use qpid_cpp_store_debian.Prelude.StdMap.{find, find-modify}
use qpid_cpp_store_debian.Xid.{Xid, xid_key, xid_eq_iff}
use qpid_cpp_store_debian.TxnMap.{
  TxnData, TxnMap, set_aio_compl, is_txn_synced, all_synced, mark_rid, tmap_synced, tmap_not_synced,
}

abbrev pub rid_in : ℕ → List TxnData → Bool
rid_in rid [] = false
rid_in rid (td ∷ tdl) = td.rid == rid || rid_in rid tdl

-- No two operations have the same record id.
abbrev pub Distinct : List TxnData → Type 0
Distinct [] = Unit
Distinct (td ∷ tdl) = (rid_in td.rid tdl ≡ false) × Distinct tdl

abbrev pub one_of : ℕ → List ℕ → Bool
one_of r [] = false
one_of r (rid ∷ rids) = r == rid || one_of r rids

-- Each operation is complete, or its record id is in the list.
abbrev pub covered : List ℕ → List TxnData → Bool
covered rids [] = true
covered rids (td ∷ tdl) = (td.aio_compl || one_of td.rid rids) && covered rids tdl

-- `mark_rid`, which leaves the list as it is if there is no such record.
abbrev marked : ℕ → List TxnData → List TxnData
marked rid tdl = elim (mark_rid rid tdl) [ none ↦ tdl | some l ↦ l ]

covered_absent :
    (rid : ℕ) (rids : List ℕ) (tdl : List TxnData)
    → rid_in rid tdl ≡ false
    → covered (rid ∷ rids) tdl ≡ covered rids tdl
covered_absent rid rids [] h = refl
covered_absent rid rids (td ∷ tdl) h = ground (arith, covered_absent rid rids tdl)

covered_nil : (tdl : List TxnData) → covered [] tdl ≡ all_synced tdl
unfolding all_synced
covered_nil [] = refl
covered_nil (td ∷ tdl) = ground (arith, covered_nil tdl)

marked_nil : (rid : ℕ) → marked rid [] ≡ []
unfolding mark_rid
marked_nil rid = refl

marked-cons_eq :
    (rid : ℕ) (td : TxnData) (tdl : List TxnData)
    → (td.rid == rid) ≡ true
    → marked rid (td ∷ tdl) ≡ record td { aio_compl = true } ∷ tdl
unfolding mark_rid
marked-cons_eq rid td tdl h = ground (arith, h)

marked-cons_ne :
    (rid : ℕ) (td : TxnData) (tdl : List TxnData)
    → (td.rid == rid) ≡ false
    → marked rid (td ∷ tdl) ≡ td ∷ marked rid tdl
unfolding mark_rid
marked-cons_ne rid td tdl h = elim (Option-cases (mark_rid rid tdl)) [
  | inl e ↦ ground (arith, h, e)
  | inr (l, e) ↦ ground (arith, h, e)
]

rid_in-marked : (r rid : ℕ) (tdl : List TxnData) → rid_in r (marked rid tdl) ≡ rid_in r tdl
rid_in-marked r rid [] = ap (rid_in r) (marked_nil rid)
rid_in-marked r rid (td ∷ tdl) = elim (Bool-cases (td.rid == rid)) [
  | inl e ↦ ap (rid_in r) (marked-cons_eq rid td tdl e)
  | inr e ↦
      ap (rid_in r) (marked-cons_ne rid td tdl e)
      ∙ ap (λ b. td.rid == r || b) (rid_in-marked r rid tdl)
]

covered-marked :
    (rid : ℕ) (rids : List ℕ) (tdl : List TxnData)
    → Distinct tdl
    → covered rids (marked rid tdl) ≡ covered (rid ∷ rids) tdl
covered-marked rid rids [] d = ap (covered rids) (marked_nil rid)
covered-marked rid rids (td ∷ tdl) d = elim (Bool-cases (td.rid == rid)) [
  | inl e ↦
      ap (covered rids) (marked-cons_eq rid td tdl e)
      ∙ ground (arith, e, d.0, covered_absent rid rids tdl)
  | inr e ↦
      ap (covered rids) (marked-cons_ne rid td tdl e)
      ∙ ground (arith, e, covered-marked rid rids tdl d.1)
]

Distinct-marked : (rid : ℕ) (tdl : List TxnData) → Distinct tdl → Distinct (marked rid tdl)
Distinct-marked rid [] d = subst Distinct (sym (marked_nil rid)) tt
Distinct-marked rid (td ∷ tdl) d = elim (Bool-cases (td.rid == rid)) [
  | inl e ↦ subst Distinct (sym (marked-cons_eq rid td tdl e)) d
  | inr e ↦
      subst Distinct (sym (marked-cons_ne rid td tdl e))
        (rid_in-marked td.rid rid tdl ∙ d.0, Distinct-marked rid tdl d.1)
]

find-set_aio_compl :
    (xid : Xid) (rid : ℕ) (tdl : List TxnData) (m : TxnMap)
    → find xid m.entries ≡ some tdl
    → find xid (set_aio_compl xid rid m).1.entries ≡ some (marked rid tdl)
unfolding set_aio_compl
find-set_aio_compl xid rid tdl m f = elim (Option-cases (mark_rid rid tdl)) [
  | inl e ↦ ground (arith, f, e)
  | inr (l, e) ↦ ground (arith, f, e, find-modify xid xid (λ _. l) m.entries, xid_eq_iff xid xid)
]

-- The map after the AIOs of the records have returned, in the order of the list.
unfoldable pub complete_all : List ℕ → Xid → TxnMap → TxnMap
complete_all [] xid m = m
complete_all (rid ∷ rids) xid m = complete_all rids xid (set_aio_compl xid rid m).1

synced_lem :
    (xid : Xid) (tdl : List TxnData) (m : TxnMap)
    → find xid m.entries ≡ some tdl
    → is_txn_synced xid m ≡ (if covered [] tdl then tmap_synced else tmap_not_synced)
unfolding is_txn_synced
synced_lem xid tdl m f = ground (arith, f, covered_nil tdl)

-- After the AIOs of any records have returned for a transaction whose operations have different
-- record ids, in any order, the transaction is synchronized exactly if each of its operations was
-- complete before or is among those records.
pub is_txn_synced-complete_all :
    (rids : List ℕ) (xid : Xid) (tdl : List TxnData) (m : TxnMap)
    → find xid m.entries ≡ some tdl
    → Distinct tdl
    → is_txn_synced xid (complete_all rids xid m)
      ≡ (if covered rids tdl then tmap_synced else tmap_not_synced)
unfolding complete_all
is_txn_synced-complete_all [] xid tdl m f d = synced_lem xid tdl m f
is_txn_synced-complete_all (rid ∷ rids) xid tdl m f d =
    is_txn_synced-complete_all rids xid (marked rid tdl) (set_aio_compl xid rid m).1
      (find-set_aio_compl xid rid tdl m f) (Distinct-marked rid tdl d)
    ∙ ap (λ b. if b then tmap_synced else tmap_not_synced) (covered-marked rid rids tdl d)
