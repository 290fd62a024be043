-- ===== src/Records/Pages.antt =====
-- A record written page by page: the loop around `encode` of the record writers of
-- lib/jrnl/wmgr.cpp, over an interface that the three kinds of records implement.
use qpid_cpp_store_debian.Prelude.{
  ℕ, zero, suc, ◌+◌, ◌-◌, ◌*◌, ◌^◌, ◌≤◌, ◌<◌, min, ◌≡◌, refl, ap, sym, ◌∙◌, List, [], ◌∷◌, ◌++◌,
  length, take, drop, arith, length-drop, take-append-drop, leb, if◌then◌else◌, dec_lt,
}
use qpid_cpp_store_debian.Prelude.Control.{Result, ok, throw}
use qpid_cpp_store_debian.Records.Slices.{take_all}

-- A record of `total` data blocks whose encoder writes the slice of the record that is asked for.
pub record PageWriter : Type 0 where
  pub encode : ℕ → ℕ → Result (ℕ × List ℕ)
  pub total : ℕ
  pub image : List ℕ
  pub length_image : length image ≡ total * 128
  pub slice :
      (offs m : ℕ)
      → offs < total
      → 0 < m
      → m < 2 ^ 25
      → encode offs m ≡ ok (min m (total - offs), take (m * 128) (drop (offs * 128) image))

drop_nil {ℓ} : {A : Type ℓ} (n : ℕ) → drop {A = A} n [] ≡ []
drop_nil zero = refl
drop_nil (suc n) = refl

pub drop-drop {ℓ} : {A : Type ℓ} (m n : ℕ) (xs : List A) → drop m (drop n xs) ≡ drop (n + m) xs
drop-drop m zero xs = ap (λ k. drop k xs) {x = m} {y = 0 + m} (omega arith)
drop-drop zero (suc n) [] = sym (drop_nil (suc n + 0))
drop-drop (suc m) (suc n) [] = sym (drop_nil (suc n + suc m))
drop-drop m (suc n) (x ∷ xs) =
    drop-drop m n xs ∙ ap (λ k. drop k (x ∷ xs)) {x = suc (n + m)} {y = suc n + m} (omega arith)

-- The bytes of one page before those of the pages that follow, if any are needed.
abbrev pub join : ℕ → List ℕ → ℕ → Result (ℕ × List ℕ) → Result (ℕ × List ℕ)
join total bytes offs (throw e) = if leb total offs then ok (offs, bytes) else throw e
join total bytes offs (ok (done, rest)) =
    if leb total offs then ok (offs, bytes) else ok (done, bytes ++ rest)

join_done :
    (total : ℕ) (bytes : List ℕ) (offs : ℕ) (r : Result (ℕ × List ℕ))
    → total ≤ offs
    → join total bytes offs r ≡ ok (offs, bytes)
join_done total bytes offs (throw e) h = ground arith
join_done total bytes offs (ok r) h = ground arith

abbrev pub sum : List ℕ → ℕ
sum [] = 0
sum (m ∷ ms) = m + sum ms

-- Each page has room, and less than 4 GB.
abbrev pub AllRooms : List ℕ → Type 0
AllRooms [] = Unit
AllRooms (m ∷ ms) = (0 < m) × (m < 2 ^ 25) × AllRooms ms

module _ (w : PageWriter) where
  -- `offs` blocks are written, and each page of the list has room for so many more. The result is
  -- the number of blocks written and the bytes of the pages, one after the other.
  pub write_pages : ℕ → List ℕ → Result (ℕ × List ℕ)
  write_pages offs [] = ok (offs, [])
  write_pages offs (m ∷ ms) = elim (w.encode offs m) [
    | throw e ↦ throw e
    | ok (n, bytes) ↦ join w.total bytes (offs + n) (write_pages (offs + n) ms)
  ]

  write_pages-cons :
      (offs m n : ℕ) (bytes ms : List ℕ)
      → w.encode offs m ≡ ok (n, bytes)
      → write_pages offs (m ∷ ms) ≡ join w.total bytes (offs + n) (write_pages (offs + n) ms)
  unfolding write_pages
  write_pages-cons offs m n bytes ms e = rw (e, write_pages)

  -- However the pages fall, they hold the record and nothing else.
  pub write_pages_lem :
      (offs : ℕ) (ms : List ℕ)
      → offs < w.total
      → AllRooms ms
      → w.total - offs ≤ sum ms
      → write_pages offs ms ≡ ok (w.total, drop (offs * 128) w.image)
  write_pages_lem offs [] h a s = absurd (omega arith)
  write_pages_lem offs (m ∷ ms) h a s = elim (dec_lt m (w.total - offs)) [
    | yes l ↦
        write_pages-cons offs m _ _ ms (w.slice offs m h a.0 a.1)
        ∙ ground (
          arith,
          write_pages_lem (offs + m) ms (omega arith) a.2 (omega arith),
          take-append-drop (m * 128) (drop (offs * 128) w.image),
          drop-drop (m * 128) (offs * 128) w.image,
        )
    | no g ↦
        write_pages-cons offs m _ _ ms (w.slice offs m h a.0 a.1)
        ∙ join_done w.total _ (offs + min m (w.total - offs)) _ (omega arith)
        ∙ ground (
          arith,
          take_all (m * 128) (drop (offs * 128) w.image),
          length-drop (offs * 128) w.image,
          w.length_image,
        )
  ]
