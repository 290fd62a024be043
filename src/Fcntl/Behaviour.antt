-- ===== src/Fcntl/Behaviour.antt =====
-- What the operations of lib/jrnl/fcntl.cpp do to one another's answers.
use qpid_cpp_store_debian.Prelude.{
  ℕ, ◌+◌, ◌/◌, ◌%◌, ◌^◌, ◌≤◌, ◌<◌, ◌≡◌, ◌↔◌, refl, true, false, ◌⊎◌, none, List, [], ◌∷◌, ◌++◌,
  arith, dec_lt, ℕ_discrete, ap, ◌∙◌, sym, get_or,
}
use qpid_cpp_store_debian.Prelude.Control.{ok, throw, jerr_fcntl_fileoffsovfl}
use qpid_cpp_store_debian.Fcntl.{
  Fcntl, reset, rd_reset, wr_reset, wr_reset_unused, add_wr_subm_cnt_dblks, wr_remaining_dblks,
  wr_void, is_wr_full, filename, hex4, hex_digit,
}

-- Without recovery data, `reset` refuses exactly a file that still has enqueued records or
-- outstanding AIOs, and then its write counters stay as they are; otherwise the file is void
-- afterwards. The read counters are zero either way.
pub reset-none :
    (f : Fcntl)
    → let (r, f') = reset none f in
      ((r ≡ ok true) ↔ ((f.rec_enqcnt ≡ 0) × (f.aio_cnt ≡ 0)))
      × ((r ≡ ok false) ↔ ((0 < f.rec_enqcnt) ⊎ (0 < f.aio_cnt)))
      × (r ≡ ok true → (wr_void f' ≡ true) × (f'.wr_cmpl_cnt_dblks ≡ 0))
      × (r ≡ ok false → f' ≡ rd_reset f)
      × (f'.rd_subm_cnt_dblks ≡ 0)
      × (f'.rd_cmpl_cnt_dblks ≡ 0)
unfolding reset rd_reset wr_reset wr_reset_unused
reset-none f = elim (ℕ_discrete f.rec_enqcnt 0) [
  | yes h ↦ elim (ℕ_discrete f.aio_cnt 0) [ yes k ↦ ground arith | no k ↦ ground arith ]
  | no h ↦ ground arith
]

-- With the counter within the file and sizes that do not wrap around, a submitted write is accepted
-- exactly if it fits in what remains of the file, which is then less by the write; a write that does
-- not fit throws and changes nothing. The file is full exactly if nothing remains.
pub add_wr_subm-remaining :
    (a : ℕ) (f : Fcntl)
    → f.wr_subm_cnt_dblks ≤ f.ffull_dblks
    → f.ffull_dblks + a < 2 ^ 32
    → let (r, f') = add_wr_subm_cnt_dblks a f in
      (a ≤ wr_remaining_dblks f
        → (r ≡ ok f'.wr_subm_cnt_dblks) × (wr_remaining_dblks f' + a ≡ wr_remaining_dblks f))
      × (wr_remaining_dblks f < a → (r ≡ throw jerr_fcntl_fileoffsovfl) × (f' ≡ f))
      × ((is_wr_full f' ≡ true) ↔ (wr_remaining_dblks f' ≡ 0))
unfolding add_wr_subm_cnt_dblks
add_wr_subm-remaining a f h k = elim (dec_lt (wr_remaining_dblks f) a) [
  | yes l ↦ ground arith
  | no l ↦ ground arith
]

hex_digit-injective : (c d : ℕ) → c < 16 → d < 16 → hex_digit c ≡ hex_digit d → c ≡ d
hex_digit-injective c d h k e = ground arith

append-cancel : (xs ys zs : List ℕ) → xs ++ ys ≡ xs ++ zs → ys ≡ zs
append-cancel [] ys zs e = e
append-cancel (x ∷ xs) ys zs e = append-cancel xs ys zs (cc e)

-- Files of one journal whose 16-bit numbers differ have names that differ.
pub filename-injective :
    (fbasename : List ℕ) (p q : ℕ)
    → p < 2 ^ 16
    → q < 2 ^ 16
    → filename fbasename p ≡ filename fbasename q
    → p ≡ q
unfolding filename
filename-injective fbasename p q h k e = omega (
  arith,
  digit 1 (p / 4096 % 16) (q / 4096 % 16) (omega arith) (omega arith) refl refl,
  digit 2 (p / 256 % 16) (q / 256 % 16) (omega arith) (omega arith) refl refl,
  digit 3 (p / 16 % 16) (q / 16 % 16) (omega arith) (omega arith) refl refl,
  digit 4 (p % 16) (q % 16) (omega arith) (omega arith) refl refl,
)
  where
    suffix : (n : ℕ) → List ℕ
    suffix n = (46 ∷ hex4 n) ++ (46 ∷ 106 ∷ 100 ∷ 97 ∷ 116 ∷ [])

    digit :
        (i c d : ℕ)
        → c < 16
        → d < 16
        → get_or (suffix p) i 0 ≡ hex_digit c
        → get_or (suffix q) i 0 ≡ hex_digit d
        → c ≡ d
    digit i c d l m f g =
        hex_digit-injective c d l m
          (sym f ∙ ap (λ ns. get_or ns i 0) (append-cancel fbasename (suffix p) (suffix q) e) ∙ g)
