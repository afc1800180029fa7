-- ===== src/Hash/Examples.antt =====
-- Two large files with different ends.
use boost_asio_threadpool.Base.{
  List, [], arith, length, length-replicate, replicate, some, true, ℕ, ◌*◌, ◌++◌, ◌∷◌, ◌≡◌,
}
use boost_asio_threadpool.Base.Outcome.{returns}
use boost_asio_threadpool.Samples.{md5}
use boost_asio_threadpool.Hash.{buffer_size, calculate_file_hash, verify_file_hash}
use boost_asio_threadpool.Hash.Tail.{verify_file_hash_tail}

-- A file of zeros.
zeros : ℕ → List ℕ
zeros n = replicate n 0

length-zeros : (n : ℕ) → length (zeros n) ≡ n
unfolding zeros
length-zeros n = length-replicate n 0

verify_file_hash_tail_example :
    (hash : List ℕ) × (calculate_file_hash md5 (some (zeros (10 * buffer_size) ++ (1 ∷ [])))
      ≡ returns hash)
    × (verify_file_hash md5 (some (zeros (10 * buffer_size) ++ (2 ∷ 3 ∷ []))) hash ≡ returns true)
verify_file_hash_tail_example =
    verify_file_hash_tail md5 10 (zeros (10 * buffer_size)) (1 ∷ []) (2 ∷ 3 ∷ [])
      (length-zeros (10 * buffer_size)) (omega arith) (omega arith) (omega arith)
