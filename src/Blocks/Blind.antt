-- ===== src/Blocks/Blind.antt =====
-- What the codes of SendVerifyCode, logicsystem.cpp, tell of a file.
use boost_asio_threadpool.Base.{
  List, [], arith, drop, length, length-drop, refl, suc, zero, ℕ, ◌+◌, ◌∙◌, ◌∷◌, ◌≡◌,
}
use boost_asio_threadpool.Blocks.{codes_from, first_buffer, hash_verify_block, send_verify_code}
use boost_asio_threadpool.Receive.{is_nil}

is_nil-length : (xs ys : List ℕ) → length xs ≡ length ys → is_nil xs ≡ is_nil ys
is_nil-length [] [] h = refl
is_nil-length [] (y ∷ ys) h = absurd (omega (arith, h))
is_nil-length (x ∷ xs) [] h = absurd (omega (arith, h))
is_nil-length (x ∷ xs) (y ∷ ys) h = refl

drop-length :
    (n : ℕ) (xs ys : List ℕ) → length xs ≡ length ys → length (drop n xs) ≡ length (drop n ys)
drop-length n xs ys h = length-drop n xs ∙ omega (arith, h, length-drop n ys)

module _ (block_hash : List ℕ → List ℕ) where
  -- The codes behind the first depend on the length alone.
  codes_from-length :
      (fuel seq : ℕ) (xs ys : List ℕ)
      → length xs ≡ length ys
      → codes_from block_hash fuel seq xs ≡ codes_from block_hash fuel seq ys
  unfolding codes_from
  codes_from-length zero seq xs ys h = refl
  codes_from-length (suc fuel) seq xs ys h =
      rw
        (
          h,
          is_nil-length xs ys h,
          codes_from-length fuel (seq + 1) (drop hash_verify_block xs) (drop hash_verify_block ys)
              (drop-length hash_verify_block xs ys h),
        )
        refl

  -- SendVerifyCode sends the same codes for any two files of one length whose first blocks are the same:
  -- no code tells of what stands behind the first block.
  pub send_verify_code_blind :
      (content other : List ℕ)
      → length content ≡ length other
      → first_buffer content ≡ first_buffer other
      → send_verify_code block_hash content ≡ send_verify_code block_hash other
  unfolding send_verify_code
  send_verify_code_blind content other h same =
      rw
        (
          same,
          is_nil-length content other h,
          h,
          codes_from-length (length other) 1 (drop hash_verify_block content)
              (drop hash_verify_block other) (drop-length hash_verify_block content other h),
        )
        refl
