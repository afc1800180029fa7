-- ===== src/Hash/Tail.antt =====
-- CalculateLargeFileHash of hashmd5.cpp leaves the last, partial buffer of a file out.
use boost_asio_threadpool.Base.{
  List, arith, bytes_eq_iff, drop, drop-append_le, length, length-append, length-drop, le→leb,
  le→ltb, lt→leb, refl, some, suc, take, take-append_le, true, zero, ℕ, ◌*◌, ◌++◌, ◌+◌, ◌<◌, ◌≡◌,
  ◌≤◌,
}
use boost_asio_threadpool.Base.Outcome.{returns}
use boost_asio_threadpool.Hash.{
  Md5, buffer_size, calculate_file_hash, calculate_large_file_hash, hex, large_size, update_from,
  verify_file_hash,
}

module _ (m : Md5) where
  open m use {Context, md5_init, md5_update, md5_final, md5}

  -- `k` full buffers, hashed in order.
  abbrev absorb : ℕ → ℕ → Context → List ℕ → Context
  absorb size zero context body = context
  absorb size (suc k) context body =
      absorb size k (md5_update context (take size body)) (drop size body)

  update_from-absorb :
      (fuel size k : ℕ) (context : Context) (body tail : List ℕ)
      → k < fuel
      → length body ≡ k * size
      → length tail < size
      → update_from m fuel size context (body ++ tail) ≡ absorb size k context body
  unfolding update_from
  update_from-absorb zero size k context body tail f h t = absurd (omega arith)
  update_from-absorb (suc fuel) size zero context body tail f h t =
      rw (lt→leb (length (body ++ tail)) size (omega (arith, length-append body tail))) refl
  update_from-absorb (suc fuel) size (suc k) context body tail f h t =
      rw
        (
          le→leb size (length (body ++ tail)) (omega (arith, length-append body tail)),
          take-append_le size body tail (omega arith),
          drop-append_le size body tail (omega arith),
        )
        (update_from-absorb fuel size k (md5_update context (take size body)) (drop size body) tail
          (omega arith) (omega (arith, length-drop size body)) t)

  update_from-tail :
      (k : ℕ) (body tail : List ℕ)
      → length body ≡ k * buffer_size
      → length tail < buffer_size
      → update_from m (length (body ++ tail) + 1) buffer_size md5_init (body ++ tail)
        ≡ absorb buffer_size k md5_init body
  update_from-tail k body tail h t =
      update_from-absorb (length (body ++ tail) + 1) buffer_size k md5_init body tail
        (omega (arith, length-append body tail)) h t

  -- Two files of ten full megabytes or more that agree on their full megabytes have the same hash,
  -- whatever bytes follow in the last, partial megabyte and however many: `VerifyFileHash` takes the
  -- one for the other.
  pub verify_file_hash_tail :
      (k : ℕ) (body tail tail' : List ℕ)
      → length body ≡ k * buffer_size
      → 10 ≤ k
      → length tail < buffer_size
      → length tail' < buffer_size
      → (hash : List ℕ) × (calculate_file_hash m (some (body ++ tail)) ≡ returns hash)
        × (verify_file_hash m (some (body ++ tail')) hash ≡ returns true)
  unfolding calculate_file_hash verify_file_hash calculate_large_file_hash
  verify_file_hash_tail k body tail tail' h big t t' = (
    hex (md5_final (absorb buffer_size k md5_init body)),
    rw
        (
          le→ltb (length (body ++ tail)) large_size (omega (arith, length-append body tail)),
          update_from-tail k body tail h t,
        )
        refl,
    rw
        (
          le→ltb (length (body ++ tail')) large_size (omega (arith, length-append body tail')),
          update_from-tail k body tail' h t',
          (bytes_eq_iff _ _).1 refl,
        )
        refl,
  )
