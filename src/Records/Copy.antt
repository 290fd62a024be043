-- ===== src/Records/Copy.antt =====
-- The blocks of which the `encode` functions of lib/jrnl/enq_rec.cpp, deq_rec.cpp and txn_rec.cpp
-- are made: each copies what is due of one part of a record (xid, data, tail) into the page.
use qpid_cpp_store_debian.Prelude.{
  ℕ, ◌+◌, ◌-◌, ◌≡◌, Bool, true, false, List, [], ◌++◌, length, take, drop, arith, if◌then◌else◌,
  ltb, leb, ◌==◌, min, dec_lt, length-drop, length-append,
}
use mathlib.Core.List.{append_assoc, append-nil}
use qpid_cpp_store_debian.Prelude.Control.{Result, ok, throw, assertion}
use qpid_cpp_store_debian.Prelude.{Option, none, some, ◌&&◌, replicate, mul32}
use qpid_cpp_store_debian.Records.{size_dblks, dblk_size, clean_char}
use qpid_cpp_store_debian.Records.Slices.{drop-append, take-append, take_cut, drop_all, take_all}

-- The local variables, and the bytes written at `wptr` so far; `wr_cnt` is their number.
pub record Cursor : Type 0 where
  pub rec_offs : ℕ
  pub rem : ℕ
  pub wr_cnt : ℕ
  pub out : List ℕ

-- memcpy(wptr + wr_cnt, src + from, n)
abbrev pub memcpy : List ℕ → ℕ → ℕ → List ℕ → List ℕ
memcpy src from n out = out ++ take n (drop from src)

-- "Further split required": no more than the room `rem` in the page. No difference wraps:
-- `size - wsize2` is at most `rec_offs`, and `wsize` at most `rem`.
unfoldable pub part_split : List ℕ → ℕ → Cursor → Cursor
part_split src size c =
    let wsize2 = if ltb c.rec_offs size then size - c.rec_offs else 0 in
    let wsize = if ltb c.rem wsize2 then c.rem else wsize2 in
    record {
      rec_offs = c.rec_offs - (size - wsize2);
      rem = c.rem - wsize;
      wr_cnt = c.wr_cnt + wsize;
      out = memcpy src c.rec_offs wsize c.out;
    }

-- "No further split required": all that is left of the part; `copy` is false where the part is not
-- written (external data).
unfoldable pub part_rest : Bool → List ℕ → ℕ → Cursor → Cursor
part_rest copy src size c =
    let wsize = if ltb c.rec_offs size then size - c.rec_offs else 0 in
    record c {
      rec_offs = c.rec_offs - (size - wsize);
      wr_cnt = if copy then c.wr_cnt + wsize else c.wr_cnt;
      out = if copy then memcpy src c.rec_offs wsize c.out else c.out;
    }

-- "Split required" at the beginning of the record.
unfoldable pub part_first : List ℕ → ℕ → Cursor → Cursor
part_first src size c =
    let wsize = if leb size c.rem then size else c.rem in
    record c { rem = c.rem - wsize; wr_cnt = c.wr_cnt + wsize; out = memcpy src 0 wsize c.out }

-- if (rem && copy) ...
unfoldable pub if_rem : Bool → (Cursor → Cursor) → Cursor → Cursor
if_rem copy part c = if c.rem == 0 then c else if copy then part c else c

-- A null pointer is `none`; any other points at the bytes given.
abbrev pub bytes_at : Option (List ℕ) → List ℕ
bytes_at none = []
bytes_at (some bytes) = bytes

abbrev pub is_null : Option (List ℕ) → Bool
is_null none = true
is_null (some bytes) = false

abbrev pub tail_size : ℕ
tail_size = 12

-- The `memset` of RHM_CLEAN: clean bytes from `wr_cnt` to the end of the last data block.
abbrev pub clean_to : ℕ → ℕ → List ℕ → List ℕ
clean_to dblks wr_cnt out = out ++ replicate (mul32 dblks dblk_size - wr_cnt) clean_char

-- The end of a page that the record overfills.
unfoldable pub first_split : Cursor → Result (ℕ × List ℕ)
first_split e = if e.rem == 0 then ok (size_dblks e.wr_cnt, e.out) else throw assertion

unfoldable pub more_split : Cursor → Result (ℕ × List ℕ)
more_split e =
    if e.rem == 0 && e.rec_offs == 0 then ok (size_dblks e.wr_cnt, e.out) else throw assertion

-- The tail, the clean bytes if any of it is written, and the end.
unfoldable pub last_tail : List ℕ → ℕ → Cursor → Result (ℕ × List ℕ)
last_tail tail dblks d =
    let e = part_rest true tail tail_size d in
    let out' = if ltb d.rec_offs tail_size then clean_to dblks e.wr_cnt e.out else e.out in
    if e.rec_offs == 0 then ok (size_dblks e.wr_cnt, out') else throw assertion

-- The three copies in closed form.
split_amount : (rem o n : ℕ) → ℕ
split_amount rem o n =
    let wsize2 = if ltb o n then n - o else 0 in if ltb rem wsize2 then rem else wsize2

split_out :
    (rem o : ℕ) (src : List ℕ)
    → take (split_amount rem o (length src)) (drop o src) ≡ take rem (drop o src)
unfolding split_amount
split_out rem o src = elim (dec_lt rem (length src - o)) [
  | yes h ↦ ground arith
  | no h ↦
      take_cut rem (split_amount rem o (length src)) (drop o src) (omega (arith, length-drop o src))
        (ground (arith, length-drop o src))
]

pub part_split_lem :
    (src : List ℕ) (c : Cursor)
    → part_split src (length src) c ≡ record {
      rec_offs = c.rec_offs - length src;
      rem = c.rem - (length src - c.rec_offs);
      wr_cnt = c.wr_cnt + min c.rem (length src - c.rec_offs);
      out = c.out ++ take c.rem (drop c.rec_offs src);
    }
unfolding part_split split_amount
part_split_lem src c = ground (arith, split_out c.rem c.rec_offs src)

pub part_first_lem :
    (src : List ℕ) (c : Cursor)
    → part_first src (length src) c ≡ record c {
      rem = c.rem - length src;
      wr_cnt = c.wr_cnt + min c.rem (length src);
      out = c.out ++ take c.rem src;
    }
unfolding part_first
part_first_lem src c = elim (dec_lt c.rem (length src)) [
  | yes h ↦ ground arith
  | no h ↦ ground (arith, take_cut c.rem (length src) src)
]

pub part_rest_lem :
    (src : List ℕ) (c : Cursor)
    → part_rest true src (length src) c ≡ record c {
      rec_offs = c.rec_offs - length src;
      wr_cnt = c.wr_cnt + (length src - c.rec_offs);
      out = c.out ++ drop c.rec_offs src;
    }
unfolding part_rest
part_rest_lem src c = ground (
  arith,
  take_all (length src - c.rec_offs) (drop c.rec_offs src),
  length-drop c.rec_offs src,
  drop_all c.rec_offs src,
)

-- Two parts copied one after the other are their concatenation copied at once.
pub split-split :
    (xs ys : List ℕ) (c : Cursor)
    → part_split ys (length ys) (part_split xs (length xs) c)
      ≡ part_split (xs ++ ys) (length (xs ++ ys)) c
split-split xs ys c =
    rw (part_split_lem xs c, part_split_lem (xs ++ ys) c, part_split_lem ys)
      (ground (
        arith,
        length-append xs ys,
        drop-append c.rec_offs xs ys,
        take-append c.rem (drop c.rec_offs xs) (drop (c.rec_offs - length xs) ys),
        length-drop c.rec_offs xs,
        append_assoc c.out (take c.rem (drop c.rec_offs xs))
            (take (c.rem - (length xs - c.rec_offs)) (drop (c.rec_offs - length xs) ys)),
      ))

pub first-first :
    (xs ys : List ℕ) (c : Cursor)
    → part_first ys (length ys) (part_first xs (length xs) c)
      ≡ part_first (xs ++ ys) (length (xs ++ ys)) c
first-first xs ys c =
    rw (part_first_lem xs c, part_first_lem (xs ++ ys) c, part_first_lem ys)
      (ground (
        arith,
        length-append xs ys,
        take-append c.rem xs ys,
        append_assoc c.out (take c.rem xs) (take (c.rem - length xs) ys),
      ))

pub rest-rest :
    (xs ys : List ℕ) (c : Cursor)
    → part_rest true ys (length ys) (part_rest true xs (length xs) c)
      ≡ part_rest true (xs ++ ys) (length (xs ++ ys)) c
rest-rest xs ys c =
    rw (part_rest_lem xs c, part_rest_lem (xs ++ ys) c, part_rest_lem ys)
      (ground (
        arith,
        length-append xs ys,
        drop-append c.rec_offs xs ys,
        append_assoc c.out (drop c.rec_offs xs) (drop (c.rec_offs - length xs) ys),
      ))

-- A page that is full has no offset left, so the test `if (rem)` may be left out.
abbrev pub NoOffset : Cursor → Type 0
NoOffset c = c.rem ≡ 0 → c.rec_offs ≡ 0

pub NoOffset-part_split :
    (src : List ℕ) (c : Cursor) → NoOffset c → NoOffset (part_split src (length src) c)
NoOffset-part_split src c h = rw (part_split_lem src c) (λ e. ground arith)

pub if_rem-part_split :
    (src : List ℕ) (c : Cursor)
    → NoOffset c
    → if_rem true (part_split src (length src)) c ≡ part_split src (length src) c
unfolding if_rem
if_rem-part_split src c h = rw (part_split_lem src c) (ground (arith, append-nil c.out))

pub if_rem-part_first :
    (src : List ℕ) (c : Cursor)
    → if_rem true (part_first src (length src)) c ≡ part_first src (length src) c
unfolding if_rem
if_rem-part_first src c = rw (part_first_lem src c) (ground (arith, append-nil c.out))

pub if_rem_skip : (part : Cursor → Cursor) (c : Cursor) → if_rem false part c ≡ c
unfolding if_rem
if_rem_skip part c = ground arith
