-- ===== src/Delivery/Chunks.antt =====
-- The packets of a file, one after the other, are the file.
use boost_asio_threadpool.Base.{
  List, [], ap, arith, drop, length, refl, suc, take, take_all, zero, ℕ, ◌*◌, ◌++◌, ◌+◌, ◌∙◌, ◌∷◌,
  ◌≡◌,
}
use boost_asio_threadpool.Receive.Transfer.{prefix}
use boost_asio_threadpool.Upload.{file_data_len, total_packets}
use boost_asio_threadpool.Upload.ReTransmit.{chunk}
use boost_asio_threadpool.Upload.SendFile.{total_packets_lem}

-- Two pieces of a list that follow each other.
take-append-take-drop :
    (n m k : ℕ) (xs : List ℕ) → n + m ≡ k → take n xs ++ take m (drop n xs) ≡ take k xs
take-append-take-drop zero m k xs h = ap (λ j. take j xs) (omega arith)
take-append-take-drop (suc n) m zero xs h = absurd (omega arith)
take-append-take-drop (suc n) zero (suc k) [] h = refl
take-append-take-drop (suc n) (suc m) (suc k) [] h = refl
take-append-take-drop (suc n) m (suc k) (x ∷ xs) h =
    ap (◌∷◌ x) (take-append-take-drop n m k xs (omega arith))

prefix-chunk :
    (content : List ℕ) (n : ℕ) → prefix (chunk content) n ≡ take (n * file_data_len) content
prefix-chunk content zero = refl
prefix-chunk content (suc n) =
    ap (λ xs. xs ++ chunk content n) (prefix-chunk content n)
    ∙ take-append-take-drop (n * file_data_len) file_data_len (suc n * file_data_len) content
        (omega arith)

-- As many packets as RequestUpload announces carry the whole file.
pub prefix-chunk_whole :
    (content : List ℕ) → prefix (chunk content) (total_packets (length content)) ≡ content
prefix-chunk_whole content =
    prefix-chunk content (total_packets (length content))
    ∙ take_all (total_packets (length content) * file_data_len) content
        ((total_packets_lem (length content)).0)
