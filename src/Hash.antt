-- ===== src/Hash.antt =====
-- hashmd5.cpp: the hash of a file, and its check.
pub mod Tail
mod Examples
use boost_asio_threadpool.Base.{
  Bool, Bool-cases, inl, inr, List, Option, [], ap, arith, bytes_eq, bytes_eq_iff, drop,
  if◌then◌else◌, leb, length, ltb, none, refl, some, suc, take, true, zero, ℕ, ◌%◌, ◌+◌, ◌/◌, ◌↔◌,
  ◌∙◌, ◌∷◌, ◌≡◌,
}
use boost_asio_threadpool.Base.Outcome.{>>=-eq-returns, Outcome, returns, throws, ◌>>=◌}

-- OpenSSL's MD5: at once, and piece by piece over a context.
pub record Md5 : Type 1 where
  pub Context : Type 0
  pub md5_init : Context
  pub md5_update : Context → List ℕ → Context
  pub md5_final : Context → List ℕ
  pub md5 : List ℕ → List ℕ

-- One hexadecimal digit, and two for each byte: `std::hex << std::setw(2) << std::setfill('0')`.
abbrev hex_digit : ℕ → ℕ
hex_digit d = if ltb d 10 then d + b'0' else d + 87

unfoldable pub hex : List ℕ → List ℕ
hex [] = []
hex (x ∷ xs) = hex_digit (x / 16) ∷ hex_digit (x % 16) ∷ hex xs

-- The 1 MB buffer, and the size from which a file counts as large.
abbrev pub buffer_size : ℕ
buffer_size = 1048576

abbrev pub large_size : ℕ
large_size = 10485760

module _ (m : Md5) where
  open m use {Context, md5_init, md5_update, md5_final, md5}

  unfoldable pub calculate_block_hash : List ℕ → List ℕ
  calculate_block_hash input = hex (md5 input)

  unfoldable pub calculate_small_file_hash : List ℕ → List ℕ
  calculate_small_file_hash content = hex (md5 content)

  -- `while (file.read(buffer, sizeof(buffer))) MD5_Update(...)`, on fuel: the read fails on a piece
  -- that is shorter than the buffer, and that piece is not hashed.
  pub update_from : ℕ → ℕ → Context → List ℕ → Context
  update_from zero size context content = context
  update_from (suc fuel) size context content =
      let rest =
        update_from fuel size (md5_update context (take size content)) (drop size content) in
      if leb size (length content) then rest else context

  pub calculate_large_file_hash : List ℕ → List ℕ
  calculate_large_file_hash content =
      hex (md5_final (update_from (length content + 1) buffer_size md5_init content))

  -- The content is `none` where the file cannot be opened.
  unfoldable pub calculate_file_hash : Option (List ℕ) → Outcome (List ℕ)
  calculate_file_hash none = throws
  calculate_file_hash (some content) =
      if ltb (length content) large_size
      then returns (calculate_small_file_hash content)
      else returns (calculate_large_file_hash content)

  pub verify_file_hash : Option (List ℕ) → List ℕ → Outcome Bool
  verify_file_hash content clienthash = do
    serverhash ← calculate_file_hash content
    returns (bytes_eq serverhash clienthash)

  -- The check passes exactly if the content's hash is the given one.
  pub verify_file_hash_iff :
      (content : Option (List ℕ)) (hash : List ℕ)
      → (verify_file_hash content hash ≡ returns true)
        ↔ (calculate_file_hash content ≡ returns hash)
  unfolding verify_file_hash
  verify_file_hash_iff content hash = (
    λ h.
        let (server, e, same) =
          >>=-eq-returns (calculate_file_hash content) (λ server. returns (bytes_eq server hash))
            h in
        e ∙ ap returns ((bytes_eq_iff server hash).0 (ground arith)),
    λ h. rw (h, (bytes_eq_iff hash hash).1 refl) refl,
  )

  -- The check of a file that can be opened gives an answer.
  pub verify_file_hash-answers :
      (content hash : List ℕ)
      → (verified : Bool) × (verify_file_hash (some content) hash ≡ returns verified)
  unfolding verify_file_hash calculate_file_hash
  verify_file_hash-answers content hash = elim (Bool-cases (ltb (length content) large_size)) [
    | inl small ↦ (bytes_eq (calculate_small_file_hash content) hash, rw small refl)
    | inr large ↦ (bytes_eq (calculate_large_file_hash content) hash, rw large refl)
  ]
