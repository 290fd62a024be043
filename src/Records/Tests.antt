-- ===== src/Records/Tests.antt =====
-- Concrete records of lib/jrnl/enq_rec.cpp, deq_rec.cpp and txn_rec.cpp, written over several pages.
use qpid_cpp_store_debian.Prelude.{
  ℕ, ◌≡◌, ◌-◌, ◌*◌, min, refl, true, false, List, [], ◌∷◌, ◌++◌, take, drop, replicate, arith, none,
  some,
}
use qpid_cpp_store_debian.Prelude.Control.{ok}
use qpid_cpp_store_debian.Records.{tail_bytes, clean_char}
use qpid_cpp_store_debian.Records.Pages.{write_pages}
use qpid_cpp_store_debian.Records.Enq
use qpid_cpp_store_debian.Records.Enq.Encode as EnqEncode
use qpid_cpp_store_debian.Records.Enq.Writer as EnqWriter
use qpid_cpp_store_debian.Records.Enq.External.{encode_external_tail}
use qpid_cpp_store_debian.Records.Deq
use qpid_cpp_store_debian.Records.Deq.Encode as DeqEncode
use qpid_cpp_store_debian.Records.Deq.Writer as DeqWriter
use qpid_cpp_store_debian.Records.Txn
use qpid_cpp_store_debian.Records.Txn.Encode as TxnEncode
use qpid_cpp_store_debian.Records.Txn.Writer as TxnWriter

abbrev xid : List ℕ
xid = 120 ∷ 49 ∷ []

-- 300 bytes of data: three data blocks.
abbrev enqueue : Enq.EnqRec
enqueue = Enq.reset 5 (some (replicate 300 7)) 300 (some xid) 2 false true false Enq.new_enq_rec

enqueue-IsSized : EnqEncode.IsSized enqueue
unfolding Enq.reset Enq.new_enq_rec
enqueue-IsSized = record { xid_size = refl; data_size = refl; small = omega arith }

enqueue_internal : Enq.is_external enqueue.enq_hdr ≡ false
unfolding Enq.reset Enq.new_enq_rec
enqueue_internal = refl

enqueue_blocks : EnqEncode.dblks_in enqueue ≡ 3
unfolding Enq.reset Enq.new_enq_rec
enqueue_blocks = refl

encode_slice_example :
    Enq.encode enqueue 1 1
    ≡ ok (
      min 1 (EnqEncode.dblks_in enqueue - 1),
      take (1 * 128) (drop (1 * 128) (EnqEncode.image enqueue)),
    )
encode_slice_example =
    EnqEncode.encode_slice enqueue 1 1 enqueue-IsSized enqueue_internal
      (omega (arith, enqueue_blocks)) (omega arith) (omega arith)

write_pages-enq_example :
    write_pages (EnqWriter.writer enqueue enqueue-IsSized enqueue_internal) 0 (1 ∷ 1 ∷ 64 ∷ [])
    ≡ ok (EnqEncode.dblks_in enqueue, EnqEncode.image enqueue)
write_pages-enq_example =
    EnqWriter.write_pages-enq enqueue (1 ∷ 1 ∷ 64 ∷ []) enqueue-IsSized enqueue_internal
      (omega arith, omega arith, (omega arith, omega arith, (omega arith, omega arith, tt)))
      (omega (arith, enqueue_blocks))

-- External data: header, xid of 92 bytes, and the first four bytes of the tail fill a data block.
abbrev external : Enq.EnqRec
external = Enq.reset 5 none 300 (some (replicate 92 120)) 92 false true true Enq.new_enq_rec

encode_external_tail_example :
    Enq.encode external 1 4 ≡ ok (1, tail_bytes external.enq_tail ++ replicate 116 clean_char)
unfolding Enq.reset Enq.new_enq_rec
encode_external_tail_example =
    encode_external_tail external 1 4 4 refl refl (omega arith) refl (omega arith) (omega arith)
      (omega arith) (omega arith) (omega arith)

abbrev dequeue : Deq.DeqRec
dequeue = Deq.reset 6 5 (some (replicate 100 120)) 100 false true Deq.new_deq_rec

dequeue-IsSized : DeqEncode.IsSized dequeue
unfolding Deq.reset Deq.new_deq_rec
dequeue-IsSized = record { xid_size = refl; some_xid = omega arith; small = omega arith }

dequeue_blocks : DeqEncode.dblks_in dequeue ≡ 2
unfolding Deq.reset Deq.new_deq_rec
dequeue_blocks = refl

encode_slice_deq_example :
    Deq.encode dequeue 1 8
    ≡ ok (
      min 8 (DeqEncode.dblks_in dequeue - 1),
      take (8 * 128) (drop (1 * 128) (DeqEncode.image dequeue)),
    )
encode_slice_deq_example =
    DeqEncode.encode_slice_deq dequeue 1 8 dequeue-IsSized (omega (arith, dequeue_blocks))
      (omega arith) (omega arith)

write_pages-deq_example :
    write_pages (DeqWriter.writer dequeue dequeue-IsSized) 0 (1 ∷ 1 ∷ [])
    ≡ ok (DeqEncode.dblks_in dequeue, DeqEncode.image dequeue)
write_pages-deq_example =
    DeqWriter.write_pages-deq dequeue (1 ∷ 1 ∷ []) dequeue-IsSized
      (omega arith, omega arith, (omega arith, omega arith, tt)) (omega (arith, dequeue_blocks))

abbrev plain : Deq.DeqRec
plain = Deq.reset 6 5 none 0 false false Deq.new_deq_rec

encode_plain_run :
    Deq.encode plain 0 4 ≡ ok (1, Deq.deq_hdr_bytes plain.deq_hdr ++ replicate 96 clean_char)
unfolding Deq.reset Deq.new_deq_rec
encode_plain_run = DeqEncode.encode_plain plain 4 refl (omega arith)

abbrev commit : Txn.TxnRec
commit = Txn.reset 0x634d4852 9 (some (replicate 100 120)) 100 false Txn.new_txn_rec

commit-IsSized : TxnEncode.IsSized commit
unfolding Txn.reset Txn.new_txn_rec
commit-IsSized = record { xid_size = refl; some_xid = omega arith; small = omega arith }

commit_blocks : TxnEncode.dblks_in commit ≡ 2
unfolding Txn.reset Txn.new_txn_rec
commit_blocks = refl

encode_slice_txn_example :
    Txn.encode commit 0 1
    ≡ ok (
      min 1 (TxnEncode.dblks_in commit - 0),
      take (1 * 128) (drop (0 * 128) (TxnEncode.image commit)),
    )
encode_slice_txn_example =
    TxnEncode.encode_slice_txn commit 0 1 commit-IsSized (omega (arith, commit_blocks))
      (omega arith) (omega arith)

write_pages-txn_example :
    write_pages (TxnWriter.writer commit commit-IsSized) 0 (1 ∷ 1 ∷ [])
    ≡ ok (TxnEncode.dblks_in commit, TxnEncode.image commit)
write_pages-txn_example =
    TxnWriter.write_pages-txn commit (1 ∷ 1 ∷ []) commit-IsSized
      (omega arith, omega arith, (omega arith, omega arith, tt)) (omega (arith, commit_blocks))
