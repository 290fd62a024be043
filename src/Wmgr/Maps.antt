-- ===== src/Wmgr/Maps.antt =====
-- What the end of a transaction in lib/jrnl/wmgr.cpp does to the map of enqueued records.
pub mod Ends
pub mod Complete
pub mod Return
pub mod Page
pub mod Check
use qpid_cpp_store_debian.Prelude.{
  ℕ, zero, suc, ◌≡◌, refl, sym, ap, subst, ◌∙◌, Bool, true, false, not, ◌&&◌, Option, none, some,
  List, [], ◌∷◌, ◌==◌, ==_iff, if◌then◌else◌, Option-cases, Bool-cases, update_at, add32, sub32,
  to_int16, of_int16, ℤ, pos, negsuc, arith, inl, inr,
}
use qpid_cpp_store_debian.Prelude.StdMap.{
  nat_key, find, insert, place, erase, modify, find-place, find-modify, find-erase_ne,
}
use qpid_cpp_store_debian.Prelude.StdMap.Order.{
  IsSorted, Above, place-IsSorted, erase-IsSorted, modify-IsSorted, find_below, find-erase_self,
}
use qpid_cpp_store_debian.Prelude.Control.{
  Error, Result, ok, throw, M, ◌>>=◌, ◌>>◌, pure, raise, out_of_range, jerr_map_duplicate,
  jerr_map_notfound, jerr_map_locked,
}
use qpid_cpp_store_debian.Prelude.Control.Triple
use qpid_cpp_store_debian.Prelude.Control.Triple.{Triple, Holds}
use qpid_cpp_store_debian.Fcntl
use qpid_cpp_store_debian.EnqMap
use qpid_cpp_store_debian.EnqMap.{EnqMap, EmapData}
use qpid_cpp_store_debian.TxnMap.{TxnMap, TxnData}
use qpid_cpp_store_debian.Wmgr.State.{Wmgr, with_emap, on_file_at}
use qpid_cpp_store_debian.Wmgr.Complete.{insert_emap, remove_emap, abort_list, commit_list}

-- A map of records, as a function: the file and the lock of each record.
abbrev pub Records : Type 0
Records = ℕ → Option EmapData

abbrev pub with_record : ℕ → EmapData → Records → Records
with_record rid d f j = if rid == j then some d else f j

abbrev pub without : ℕ → Records → Records
without rid f j = if rid == j then none else f j

abbrev pub unlocked : ℕ → Records → Records
unlocked rid f j =
    if rid == j then elim (f j) [ none ↦ none | some d ↦ some (record d { lock = false }) ] else f j

-- The enqueues of a transaction that commits become visible, and its dequeues take their records out.
abbrev pub committed : List TxnData → Records → Records
committed [] f = f
committed (td ∷ tdl) f = committed tdl (
    if td.enq_flag
    then with_record td.rid (record { pfid = td.pfid; lock = false }) f
    else without td.drid f)

-- The records that a transaction that aborts wanted to dequeue are free again.
abbrev pub aborted : List TxnData → Records → Records
aborted [] f = f
aborted (td ∷ tdl) f = aborted tdl (if td.enq_flag then f else unlocked td.drid f)

-- The map of enqueued records is `f`.
abbrev pub Shows : Records → EnqMap → Type 0
Shows f m = IsSorted m.entries × ((j : ℕ) → find j m.entries ≡ f j)

abbrev pub Agrees : Records → Wmgr → Type 0
Agrees f w = Shows f w.emap

-- After any error.
abbrev pub Any : {S : Type 0} → Error → S → Type 0
Any e w = Unit

placed :
    (rid : ℕ) (d : EmapData) (f : Records) (m : EnqMap)
    → find rid m.entries ≡ none
    → Shows f m
    → (cnt : List ℕ)
    → Shows (with_record rid d f) (record { entries = place rid d m.entries; pfid_enq_cnt = cnt })
placed rid d f m n (s, a) cnt = (
  place-IsSorted rid d m.entries n s,
  λ j. find-place rid j d m.entries n ∙ ap (λ o. if rid == j then some d else o) (a j),
)

taken_out :
    (rid : ℕ) (f : Records) (m : EnqMap)
    → Shows f m
    → (cnt : List ℕ)
    → Shows (without rid f) (record { entries = erase rid m.entries; pfid_enq_cnt = cnt })
taken_out rid f m (s, a) cnt = (
  erase-IsSorted rid m.entries s,
  λ j. elim (Bool-cases (rid == j)) [
    | inl e ↦
        subst (λ k. find k (erase rid m.entries) ≡ without rid f k) ((==_iff rid j).0 e)
          (find-erase_self rid m.entries (ground arith) s ∙ ground arith)
    | inr e ↦ find-erase_ne rid j m.entries e ∙ (a j ∙ ground (arith, e))
  ],
)

Holds-lift :
    {A : Type 0} (Q : A → EnqMap → Type 0) (r : Result A) (m : EnqMap) (w : Wmgr)
    → Holds Q Any r m
    → Holds (λ a u. Q a u.emap) Any r (record w { emap = m })
Holds-lift Q (ok a) m w h = h
Holds-lift Q (throw e) m w h = tt

pub on_emap :
    {A : Type 0} {f : Records} (Q : A → EnqMap → Type 0) (m : M EnqMap A)
    → ((e : EnqMap) → Shows f e → Holds Q Any (m e).0 (m e).1)
    → Triple (Agrees f) (with_emap m) (λ a w. Q a w.emap) Any
on_emap Q m h = record { apply = λ w a. Holds-lift Q (m w.emap).0 (m w.emap).1 w (h w.emap a) }

-- What a code of `insert_pfid` or `get_remove_pfid` that is not an error says.
abbrev Coded : Records → ℤ → EnqMap → Type 0
Coded f (pos n) m = Shows f m
Coded f (negsuc n) m = Unit

abbrev CodedAt : Records → Result ℤ × EnqMap → Type 0
CodedAt f o = Holds (Coded f) Any o.0 o.1

-- The new entry of a record.
abbrev pub entry : ℕ → EmapData
entry pfid = record { pfid = pfid; lock = false }

insert_dup :
    (rid pfid : ℕ) (d : EmapData) (m : EnqMap)
    → find rid m.entries ≡ some d
    → EnqMap.insert_pfid rid pfid false m ≡ (ok EnqMap.emap_dup_rid, m)
unfolding EnqMap.insert_pfid insert
insert_dup rid pfid d m e = ground (arith, e)

insert_range :
    (rid pfid : ℕ) (m : EnqMap)
    → find rid m.entries ≡ none
    → update_at m.pfid_enq_cnt pfid (λ c. add32 c 1) ≡ none
    → EnqMap.insert_pfid rid pfid false m
      ≡ (throw out_of_range, record m { entries = place rid (entry pfid) m.entries })
unfolding EnqMap.insert_pfid insert EnqMap.adjust
insert_range rid pfid m e u = ground (arith, e, u)

insert_new :
    (rid pfid : ℕ) (m : EnqMap) (cnt : List ℕ)
    → find rid m.entries ≡ none
    → update_at m.pfid_enq_cnt pfid (λ c. add32 c 1) ≡ some cnt
    → EnqMap.insert_pfid rid pfid false m ≡ (
      ok EnqMap.emap_ok,
      record { entries = place rid (entry pfid) m.entries; pfid_enq_cnt = cnt },
    )
unfolding EnqMap.insert_pfid insert EnqMap.adjust
insert_new rid pfid m cnt e u = ground (arith, e, u)

inserted_pfid :
    (f : Records) (rid pfid : ℕ) (m : EnqMap)
    → Shows f m
    → CodedAt (with_record rid (entry pfid) f) (EnqMap.insert_pfid rid pfid false m)
inserted_pfid f rid pfid m h = elim (Option-cases (find rid m.entries)) [
  | inr (d, e) ↦
      subst (CodedAt (with_record rid (entry pfid) f)) (sym (insert_dup rid pfid d m e)) tt
  | inl e ↦ elim (Option-cases (update_at m.pfid_enq_cnt pfid (λ c. add32 c 1))) [
    | inl u ↦
        subst (CodedAt (with_record rid (entry pfid) f)) (sym (insert_range rid pfid m e u)) tt
    | inr (cnt, u) ↦
        subst (CodedAt (with_record rid (entry pfid) f)) (sym (insert_new rid pfid m cnt e u))
          (placed rid (entry pfid) f m e h cnt)
  ]
]

pub inserted :
    (f : Records) (rid pfid : ℕ)
    → Triple (Agrees f) (insert_emap rid pfid) (λ _. Agrees (with_record rid (entry pfid) f)) Any
unfolding insert_emap
inserted f rid pfid =
    Triple.bind
      (on_emap (Coded (with_record rid (entry pfid) f)) (EnqMap.insert_pfid rid pfid false)
        (inserted_pfid f rid pfid))
      (λ r. by_code r)
  where
    by_code :
        (r : ℤ)
        → Triple
            (λ w. Coded (with_record rid (entry pfid) f) r w.emap)
            (elim r [ pos _ ↦ pure tt | negsuc _ ↦ raise jerr_map_duplicate ])
            (λ _. Agrees (with_record rid (entry pfid) f))
            Any
    by_code (pos n) = Triple.returned tt (λ w h. h)
    by_code (negsuc n) = Triple.raised jerr_map_duplicate (λ w h. tt)

-- A removal within a transaction ignores the lock.
remove_none :
    (rid : ℕ) (m : EnqMap)
    → find rid m.entries ≡ none
    → EnqMap.get_remove_pfid rid true m ≡ (ok EnqMap.emap_rid_not_found, m)
unfolding EnqMap.get_remove_pfid
remove_none rid m e = ground (arith, e)

remove_range :
    (rid : ℕ) (d : EmapData) (m : EnqMap)
    → find rid m.entries ≡ some d
    → update_at m.pfid_enq_cnt d.pfid (λ c. sub32 c 1) ≡ none
    → EnqMap.get_remove_pfid rid true m
      ≡ (throw out_of_range, record m { entries = erase rid m.entries })
unfolding EnqMap.get_remove_pfid EnqMap.adjust
remove_range rid d m e u = ground (arith, e, u)

remove_some :
    (rid : ℕ) (d : EmapData) (m : EnqMap) (cnt : List ℕ)
    → find rid m.entries ≡ some d
    → update_at m.pfid_enq_cnt d.pfid (λ c. sub32 c 1) ≡ some cnt
    → EnqMap.get_remove_pfid rid true m
      ≡ (ok (to_int16 d.pfid), record { entries = erase rid m.entries; pfid_enq_cnt = cnt })
unfolding EnqMap.get_remove_pfid EnqMap.adjust
remove_some rid d m cnt e u = ground (arith, e, u)

-- The record is out of the map, unless the code says that it was not there.
abbrev pub Removed : Records → ℤ → EnqMap → Type 0
Removed f (pos n) m = Shows f m
Removed f (negsuc zero) m = Unit
Removed f (negsuc (suc zero)) m = Unit
Removed f (negsuc (suc (suc n))) m = Shows f m

abbrev RemovedAt : Records → Result ℤ × EnqMap → Type 0
RemovedAt f o = Holds (Removed f) Any o.0 o.1

any_code : (f : Records) (r : ℤ) (m : EnqMap) → Shows f m → Removed f r m
any_code f (pos n) m h = h
any_code f (negsuc zero) m h = tt
any_code f (negsuc (suc zero)) m h = tt
any_code f (negsuc (suc (suc n))) m h = h

pub removed_pfid :
    (f : Records) (rid : ℕ) (m : EnqMap)
    → Shows f m
    → RemovedAt (without rid f) (EnqMap.get_remove_pfid rid true m)
removed_pfid f rid m h = elim (Option-cases (find rid m.entries)) [
  | inl e ↦ subst (RemovedAt (without rid f)) (sym (remove_none rid m e)) tt
  | inr (d, e) ↦ elim (Option-cases (update_at m.pfid_enq_cnt d.pfid (λ c. sub32 c 1))) [
    | inl u ↦ subst (RemovedAt (without rid f)) (sym (remove_range rid d m e u)) tt
    | inr (cnt, u) ↦ subst (RemovedAt (without rid f)) (sym (remove_some rid d m cnt e u)) (
        any_code (without rid f) (to_int16 d.pfid)
          (record { entries = erase rid m.entries; pfid_enq_cnt = cnt }) (taken_out rid f m h cnt))
  ]
]
