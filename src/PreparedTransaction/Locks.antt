-- ===== src/PreparedTransaction/Locks.antt =====
-- lib/PreparedTransaction.cpp: which messages the mappings of each transaction lock.
use qpid_cpp_store_debian.Prelude.{
  ℕ, ◌<◌, ◌≡◌, refl, sym, ◌∙◌, ap, Bool-cases, Bool-eq_iff, ==_iff, Bool, true, false, none, some,
  List, [], ◌∷◌, ◌++◌, ◌&&◌, ◌||◌, ◌==◌, if◌then◌else◌, Option-cases, inl, inr, arith,
}
use mathlib.Core.Option.{some-injective}
use qpid_cpp_store_debian.Prelude.StdMap
use qpid_cpp_store_debian.Xid.{Xid, xid_key, xid_eq, xid_eq_iff}
use qpid_cpp_store_debian.LockedMappings
use qpid_cpp_store_debian.LockedMappings.{LockedMappings, has_pair}
use qpid_cpp_store_debian.PreparedTransaction
use qpid_cpp_store_debian.PreparedTransaction.{
  Heap, Mappings, PreparedTransaction, put, new_entry, add_at, add_to, locked_by,
}

-- No two keys share an object, and every object the map points to is allocated.
pub record IsValid (s : Mappings) : Type 0 where
  pub allocated : (k : Xid) (p : ℕ) → StdMap.find k s.map ≡ some p → p < s.heap.next
  pub apart :
      (j k : Xid) (p : ℕ) → StdMap.find j s.map ≡ some p → StdMap.find k s.map ≡ some p → j ≡ k

-- The transaction with this id locks the message.
abbrev pub locks : Mappings → Xid → ℕ → ℕ → Bool
locks s key queue message = locked_by s.heap (StdMap.find key s.map) queue message

has_pair-append :
    (q m a b : ℕ) (l : List (ℕ × ℕ))
    → has_pair q m (l ++ ((a, b) ∷ [])) ≡ (((a == q) && (b == m)) || has_pair q m l)
has_pair-append q m a b [] = ground arith
has_pair-append q m a b ((c, d) ∷ l) = ground (arith, has_pair-append q m a b l)

is_locked-add :
    (q m a b : ℕ) (o : LockedMappings)
    → LockedMappings.is_locked q m (LockedMappings.add a b o)
      ≡ (((a == q) && (b == m)) || LockedMappings.is_locked q m o)
unfolding LockedMappings.is_locked LockedMappings.add
is_locked-add q m a b o = has_pair-append q m a b o.locked

-- An object of the heap after an addition.
locked_by-add :
    (h : Heap) (p r a b q m : ℕ)
    → locked_by (put p (LockedMappings.add a b (h.at p)) h) (some r) q m
      ≡ (((r == p) && ((a == q) && (b == m))) || locked_by h (some r) q m)
unfolding put locked_by
locked_by-add h p r a b q m = ground (arith, is_locked-add q m a b (h.at p))

found-apart :
    (k j : Xid) (p : ℕ) (m : List (Xid × ℕ))
    → StdMap.find k m ≡ some p
    → StdMap.find j m ≡ none
    → xid_eq k j ≡ false
found-apart k j p m e d = ground (arith, xid_eq_iff k j, e, d)

same_object :
    (s : Mappings) (k j : Xid) (p r : ℕ)
    → IsValid s
    → StdMap.find k s.map ≡ some p
    → StdMap.find j s.map ≡ some r
    → (r == p) ≡ xid_eq k j
same_object s k j p r v e d =
    Bool-eq_iff (r == p) (xid_eq k j)
      (λ h. (xid_eq_iff k j).1 (v.apart k j p e (d ∙ ap some ((==_iff r p).0 h))))
      (λ h. (==_iff r p).1 (
        some-injective r p
          (sym d ∙ ap (λ x. StdMap.find x s.map) (sym ((xid_eq_iff k j).0 h)) ∙ e)))

-- What the map holds for a key after a new entry.
find-new_entry :
    (s : Mappings) (k j : Xid)
    → StdMap.find k s.map ≡ none
    → StdMap.find j (new_entry k s).map
      ≡ (if xid_eq k j then some s.heap.next else StdMap.find j s.map)
unfolding new_entry
find-new_entry s k j e = StdMap.find-place k j s.heap.next s.map e

-- An addition through a pointer of the map.
locks-add_at :
    (s : Mappings) (k j : Xid) (p a b q m : ℕ)
    → IsValid s
    → StdMap.find k s.map ≡ some p
    → locks (add_at p a b s) j q m ≡ ((xid_eq k j && ((a == q) && (b == m))) || locks s j q m)
unfolding add_at locked_by
locks-add_at s k j p a b q m v e = elim (Option-cases (StdMap.find j s.map)) [
  | inl d ↦ rw (d, found-apart k j p s.map e d, locked_by) refl
  | inr (r, d) ↦ rw (d, locked_by-add s.heap p r a b q m, same_object s k j p r v e d) refl
]

new_entry-IsValid :
    (s : Mappings) (k : Xid) → IsValid s → StdMap.find k s.map ≡ none → IsValid (new_entry k s)
unfolding new_entry put
new_entry-IsValid s k v e = record {
  allocated = λ j p h. ground (arith, find-new_entry s k j e, h, v.allocated j p);
  apart = λ i j p h g. ground (
    arith,
    find-new_entry s k i e,
    find-new_entry s k j e,
    h,
    g,
    v.apart i j p,
    v.allocated i p,
    v.allocated j p,
    xid_eq_iff k i,
    xid_eq_iff k j,
  );
}

add_at-IsValid : (s : Mappings) (p a b : ℕ) → IsValid s → IsValid (add_at p a b s)
unfolding add_at put
add_at-IsValid s p a b v = record { allocated = v.allocated; apart = v.apart }

-- A new object locks nothing.
locks-new_entry :
    (s : Mappings) (k j : Xid) (q m : ℕ)
    → IsValid s
    → StdMap.find k s.map ≡ none
    → locks (new_entry k s) j q m ≡ locks s j q m
unfolding new_entry put locked_by LockedMappings.is_locked
locks-new_entry s k j q m v e = rw (find-new_entry s k j e) (elim (Bool-cases (xid_eq k j)) [
  | inl h ↦
      rw (h, sym ((xid_eq_iff k j).0 h), e) (rw ((==_iff s.heap.next s.heap.next).1 refl) refl)
  | inr h ↦ rw h (elim (Option-cases (StdMap.find j s.map)) [
    | inl d ↦ rw d refl
    | inr (r, d) ↦ rw d ground (arith, v.allocated j r d)
  ])
])

-- One addition: the message is locked by the transaction added to, and nothing else changes.
locks-add_to :
    (s : Mappings) (k j : Xid) (a b q m : ℕ)
    → IsValid s
    → locks (add_to k a b s) j q m ≡ ((xid_eq k j && ((a == q) && (b == m))) || locks s j q m)
unfolding add_to locked_by
locks-add_to s k j a b q m v = elim (Option-cases (StdMap.find k s.map)) [
  | inl e ↦
      rw (e, add_to)
        (locks-add_at (new_entry k s) k j s.heap.next a b q m (new_entry-IsValid s k v e)
            (find-new_entry s k k e ∙ rw ((xid_eq_iff k k).1 refl) refl)
          ∙ ap (λ x. (xid_eq k j && ((a == q) && (b == m))) || x) (locks-new_entry s k j q m v e))
  | inr (p, e) ↦ rw (e, add_to) (locks-add_at s k j p a b q m v e)
]

add_to-IsValid : (s : Mappings) (k : Xid) (a b : ℕ) → IsValid s → IsValid (add_to k a b s)
unfolding add_to
add_to-IsValid s k a b v = elim (Option-cases (StdMap.find k s.map)) [
  | inl e ↦
      rw (e, add_to) (add_at-IsValid (new_entry k s) s.heap.next a b (new_entry-IsValid s k v e))
  | inr (p, e) ↦ rw (e, add_to) (add_at-IsValid s p a b v)
]

-- Additions in the order of the list, each with its key, queue and message.
abbrev pub adds : List (Xid × ℕ × ℕ) → Mappings → Mappings
adds [] s = s
adds ((k, a, b) ∷ l) s = adds l (add_to k a b s)

-- Some addition of the list is of this key, queue and message.
abbrev pub added : Xid → ℕ → ℕ → List (Xid × ℕ × ℕ) → Bool
added j q m [] = false
added j q m ((k, a, b) ∷ l) = (xid_eq k j && ((a == q) && (b == m))) || added j q m l

or_swap : (x y z : Bool) → (x || (y || z)) ≡ ((y || x) || z)
or_swap true true z = refl
or_swap true false z = refl
or_swap false true z = refl
or_swap false false z = refl

-- After the additions, a transaction locks a message if it did before, or if one of them is of it.
pub locks-adds :
    (l : List (Xid × ℕ × ℕ)) (s : Mappings) (j : Xid) (q m : ℕ)
    → IsValid s
    → locks (adds l s) j q m ≡ (added j q m l || locks s j q m)
locks-adds [] s j q m v = refl
locks-adds ((k, a, b) ∷ l) s j q m v =
    locks-adds l (add_to k a b s) j q m (add_to-IsValid s k a b v)
    ∙ rw (locks-add_to s k j a b q m v) (or_swap (added j q m l) _ _)

-- The two searches through the transactions agree, and the one that is found locks the message.
any_locked-found :
    (h : Heap) (q m : ℕ) (txns : List PreparedTransaction)
    → PreparedTransaction.any_locked h q m txns
      ≡ elim (PreparedTransaction.get_locked_prepared_transaction h q m txns) as (λ _. Bool) [
        | none ↦ false
        | some t ↦ PreparedTransaction.is_locked h q m t
      ]
unfolding PreparedTransaction.any_locked PreparedTransaction.get_locked_prepared_transaction
any_locked-found h q m [] = refl
any_locked-found h q m (t ∷ txns) = ground (arith, any_locked-found h q m txns)
