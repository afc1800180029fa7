-- ===== src/Blocks/Examples.antt =====
-- Two files of a block and a byte, which differ in that byte.
use boost_asio_threadpool.Base.{
  refl, List, [], arith, length, length-append, length-replicate, replicate, sym, take-append_left,
  ℕ, ◌++◌, ◌-◌, ◌∙◌, ◌∷◌, ◌≡◌,
}
use boost_asio_threadpool.Blocks.{first_buffer, hash_verify_block, send_verify_code}
use boost_asio_threadpool.Blocks.Blind.{send_verify_code_blind}

-- A hash that is the bytes themselves.
abbrev block_hash : List ℕ → List ℕ
block_hash bytes_ = bytes_

abbrev block : List ℕ
block = replicate 10240 7

block-length : length block ≡ 10240
block-length = length-replicate {A = ℕ} 10240 7

file-length : (x : ℕ) → length (block ++ (x ∷ [])) ≡ 10241
file-length x = length-append block (x ∷ []) ∙ omega (arith, block-length)

first_buffer-append :
    (bytes_ : List ℕ) (x : ℕ)
    → length bytes_ ≡ hash_verify_block
    → first_buffer (bytes_ ++ (x ∷ [])) ≡ bytes_ ++ replicate 0 0
unfolding first_buffer
first_buffer-append bytes_ x sized =
    let none_left : hash_verify_block - length (bytes_ ++ (x ∷ [])) ≡ 0 =
      omega (arith, sized, length-append bytes_ (x ∷ [])) in
    rw (take-append_left hash_verify_block bytes_ (x ∷ []) sized, none_left) refl

send_verify_code_blind_example :
    send_verify_code block_hash (block ++ (1 ∷ []))
    ≡ send_verify_code block_hash (block ++ (2 ∷ []))
send_verify_code_blind_example =
    send_verify_code_blind block_hash (block ++ (1 ∷ [])) (block ++ (2 ∷ []))
      (file-length 1 ∙ sym (file-length 2))
      (first_buffer-append block 1 block-length ∙ sym (first_buffer-append block 2 block-length))
