-- ===== src/EnqMap/Invariant.antt =====
-- The counts of lib/jrnl/enq_map.cpp agree with the records of its map.
use qpid_cpp_store_debian.Prelude.{
  ℕ, ◌≤◌, ◌<◌, ◌≡◌, refl, Bool, true, false, inl, inr, none, some, length, get_or, u32, add32,
  sub32, arith, alter, update_at-some, length-alter, get_or-alter, length-resize, get_or-resize,
  get_or_beyond, dec_lt, Option-cases,
}
use qpid_cpp_store_debian.Prelude.StdMap.{find, place, erase, modify, nat_key}
use qpid_cpp_store_debian.Prelude.StdMap.Order.{
  IsSorted, place-IsSorted, erase-IsSorted, modify-IsSorted,
}
use qpid_cpp_store_debian.EnqMap.{
  EnqMap, EmapData, empty_map, set_lock, set_num_jfiles, insert_pfid, get_remove_pfid, lock, unlock,
}
use qpid_cpp_store_debian.EnqMap.Count.{count, count-place, count-erase, count-set_lock, count_pos}

-- The keys ascend, each file's count is the number of its records, and no record names a file that
-- the journal does not have.
pub record IsValid (m : EnqMap) : Type 0 where
  pub sorted : IsSorted m.entries
  pub counted :
      (p : ℕ) → p < length m.pfid_enq_cnt → get_or m.pfid_enq_cnt p 0 ≡ u32 (count p m.entries)
  pub beyond : (p : ℕ) → length m.pfid_enq_cnt ≤ p → count p m.entries ≡ 0

pub set_num_jfiles-IsValid :
    (n : ℕ) (m : EnqMap) → length m.pfid_enq_cnt ≤ n → IsValid m → IsValid (set_num_jfiles n m)
unfolding set_num_jfiles
set_num_jfiles-IsValid n m h v = record {
  sorted = v.sorted;
  counted = λ p lt. elim (dec_lt p (length m.pfid_enq_cnt)) [
    | yes q ↦
        ground
          (arith, length-resize m.pfid_enq_cnt n 0, get_or-resize m.pfid_enq_cnt n p 0, v.counted p)
    | no q ↦ ground (
      arith,
      length-resize m.pfid_enq_cnt n 0,
      get_or-resize m.pfid_enq_cnt n p 0,
      get_or_beyond m.pfid_enq_cnt p 0,
      v.beyond p,
    )
  ];
  beyond = λ p le. v.beyond p (omega (arith, length-resize m.pfid_enq_cnt n 0));
}

-- The counts after a record of file `q` came in or went.
counted-insert :
    (rid q : ℕ) (l : Bool) (m : EnqMap)
    → find rid m.entries ≡ none
    → q < length m.pfid_enq_cnt
    → IsValid m
    → IsValid (record {
      entries = place rid (record { pfid = q; lock = l }) m.entries;
      pfid_enq_cnt = alter m.pfid_enq_cnt q (λ c. add32 c 1);
    })
counted-insert rid q l m f h v = record {
  sorted = place-IsSorted rid _ m.entries f v.sorted;
  counted = λ p lt. ground (
    arith,
    length-alter m.pfid_enq_cnt q (λ c. add32 c 1),
    get_or-alter m.pfid_enq_cnt q p (λ c. add32 c 1) 0 h,
    count-place p rid (record { pfid = q; lock = l }) m.entries,
    v.counted p,
    v.counted q,
  );
  beyond = λ p le. ground (
    arith,
    length-alter m.pfid_enq_cnt q (λ c. add32 c 1),
    count-place p rid (record { pfid = q; lock = l }) m.entries,
    v.beyond p,
  );
}

counted-erase :
    (rid : ℕ) (d : EmapData) (m : EnqMap)
    → find rid m.entries ≡ some d
    → d.pfid < length m.pfid_enq_cnt
    → IsValid m
    → IsValid (record {
      entries = erase rid m.entries;
      pfid_enq_cnt = alter m.pfid_enq_cnt d.pfid (λ c. sub32 c 1);
    })
counted-erase rid d m f h v = record {
  sorted = erase-IsSorted rid m.entries v.sorted;
  counted = λ p lt. ground (
    arith,
    length-alter m.pfid_enq_cnt d.pfid (λ c. sub32 c 1),
    get_or-alter m.pfid_enq_cnt d.pfid p (λ c. sub32 c 1) 0 h,
    count-erase p rid d m.entries f,
    v.counted p,
    v.counted d.pfid,
  );
  beyond = λ p le. ground (
    arith,
    length-alter m.pfid_enq_cnt d.pfid (λ c. sub32 c 1),
    count-erase p rid d m.entries f,
    v.beyond p,
  );
}

counted-set_lock :
    (rid : ℕ) (b : Bool) (m : EnqMap)
    → IsValid m
    → IsValid (record m { entries = modify rid (set_lock b) m.entries })
counted-set_lock rid b m v = record {
  sorted = modify-IsSorted rid (set_lock b) m.entries v.sorted;
  counted = λ p lt. ground (arith, count-set_lock p rid b m.entries, v.counted p);
  beyond = λ p le. ground (arith, count-set_lock p rid b m.entries, v.beyond p);
}

-- A record of the map lies in a file of the journal.
pub found_in_range :
    (rid : ℕ) (d : EmapData) (m : EnqMap)
    → find rid m.entries ≡ some d
    → IsValid m
    → d.pfid < length m.pfid_enq_cnt
found_in_range rid d m f v = ground (arith, count_pos rid d m.entries f, v.beyond d.pfid)

pub insert_pfid-IsValid :
    (rid pfid : ℕ) (locked : Bool) (m : EnqMap)
    → pfid < length m.pfid_enq_cnt
    → IsValid m
    → IsValid (insert_pfid rid pfid locked m).1
unfolding insert_pfid
insert_pfid-IsValid rid pfid locked m h v = elim (Option-cases (find rid m.entries)) [
  | inl e ↦ ground (
    arith,
    update_at-some m.pfid_enq_cnt pfid (λ c. add32 c 1) h,
    counted-insert rid pfid locked m e h v,
  )
  | inr (d, e) ↦ ground arith
]

pub get_remove_pfid-IsValid :
    (rid : ℕ) (txn_flag : Bool) (m : EnqMap)
    → IsValid m
    → IsValid (get_remove_pfid rid txn_flag m).1
unfolding get_remove_pfid
get_remove_pfid-IsValid rid txn_flag m v = elim (Option-cases (find rid m.entries)) [
  | inl e ↦ ground arith
  | inr (d, e) ↦
      let h = found_in_range rid d m e v in
      ground (
        arith,
        update_at-some m.pfid_enq_cnt d.pfid (λ c. sub32 c 1) h,
        counted-erase rid d m e h v,
      )
]

pub lock-IsValid : (rid : ℕ) (m : EnqMap) → IsValid m → IsValid (lock rid m).1
unfolding lock
lock-IsValid rid m v = ground (arith, counted-set_lock rid true m v)

pub unlock-IsValid : (rid : ℕ) (m : EnqMap) → IsValid m → IsValid (unlock rid m).1
unfolding unlock
unlock-IsValid rid m v = ground (arith, counted-set_lock rid false m v)

-- The map as the constructor of the journal leaves it, with `n` files.
pub fresh-IsValid : (n : ℕ) → IsValid (set_num_jfiles n empty_map)
unfolding empty_map
fresh-IsValid n =
    set_num_jfiles-IsValid n empty_map (omega arith)
      (record { sorted = tt; counted = λ p h. absurd (omega arith); beyond = λ p h. refl })
