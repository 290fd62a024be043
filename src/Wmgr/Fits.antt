-- ===== src/Wmgr/Fits.antt =====
-- The page cache of lib/jrnl/wmgr.cpp fits the file that it is written to: what was submitted is the
-- header, the full pages, and the part of the current page that was flushed.
pub mod Flush
pub mod Write
pub mod Enter
pub mod Rotate
pub mod Check
pub mod Header
pub mod Round
pub mod Loop
pub mod Begin
pub mod Txn
pub mod EndTxn
pub mod Threshold
pub mod Enq
pub mod Enqueue
pub mod Deq
pub mod Dequeue
use qpid_cpp_store_debian.Prelude.{
  ℕ, suc, ◌+◌, ◌-◌, ◌*◌, ◌%◌, ◌^◌, ◌≤◌, ◌<◌, ◌≡◌, true, some, get_elem?, arith,
}
use qpid_cpp_store_debian.Wmgr.State.{Busy}
use qpid_cpp_store_debian.Wmgr.Frame.{Place, Position, View}

-- A page cache of at least one page, whose pages are all there, and a position in it. `n` is how many
-- blocks more will be filled.
pub record InCache (n : ℕ) (a : Place) : Type 0 where
  pub pages : a.count ≡ a.num_pages
  pub few : a.num_pages < 2 ^ 16
  pub placed : a.pg_index < a.num_pages
  pub pgsize_pos : 0 < a.pgsize_sblks
  pub pgsize_small : a.pgsize_sblks < 2 ^ 23
  pub cached_in : a.cached ≤ a.offset
  pub aligned : (a.offset - a.cached) % 4 ≡ 0
  pub inside : a.offset + n ≤ 4 * a.pgsize_sblks

-- The position in the file. `jfsize_pgs` pages and the header are the whole file.
pub record InFile (n : ℕ) (v : View) : Type 0 where
  pub active : v.file.active ≡ true
  pub full : v.file.full ≡ 4 + v.jfsize_pgs * (4 * v.at.pgsize_sblks)
  pub small : v.file.full < 2 ^ 32
  pub sized : (i n : ℕ) → get_elem? v.sizes i ≡ some (some n) → n ≡ v.file.full
  pub within :
      v.at.pg_cntr * (4 * v.at.pgsize_sblks) + (v.at.offset + n)
      ≤ v.jfsize_pgs * (4 * v.at.pgsize_sblks)
  pub counted :
      v.file.subm + v.at.cached ≡ 4 + (v.at.pg_cntr * (4 * v.at.pgsize_sblks) + v.at.offset)

-- A file that is not begun: the header comes with the first record.
pub record IsFresh (v : View) : Type 0 where
  pub active : v.file.active ≡ true
  pub full : v.file.full ≡ 4 + v.jfsize_pgs * (4 * v.at.pgsize_sblks)
  pub small : v.file.full < 2 ^ 32
  pub sized : (i n : ℕ) → get_elem? v.sizes i ≡ some (some n) → n ≡ v.file.full
  pub within :
      v.at.pg_cntr * (4 * v.at.pgsize_sblks) + v.at.offset ≤ v.jfsize_pgs * (4 * v.at.pgsize_sblks)
  pub void : v.file.subm ≡ 0
  pub first : v.at.pg_cntr ≡ 0
  pub unsubmitted : v.at.cached ≡ v.at.offset

-- Both, beside a property of the flags and of what is written of a token.
pub record Runs (G : Busy → ℕ → ℕ → Type 0) (n : ℕ) (v : View) : Type 0 where
  pub cache : InCache n v.at
  pub file : InFile n v
  pub other : G v.busy v.written v.jfsize_pgs
