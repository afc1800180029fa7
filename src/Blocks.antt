-- ===== src/Blocks.antt =====
-- The check of the stored file block by block: SendVerifyCode of logicsystem.cpp on the client, and
-- AddHashCode of file.cpp on the server.
pub mod Blind
mod Examples
use boost_asio_threadpool.Base.{
  Bytes_eq, List, Option, String_eq, [], bytes_eq, drop, if◌then◌else◌, insert, leb, length, lookup,
  none, replicate, some, suc, take, zero, ℕ, ℕ_eq, ◌++◌, ◌+◌, ◌-◌, ◌/◌, ◌∷◌,
}
use boost_asio_threadpool.Receive.{is_nil}

-- `Hash_Verify_Block`, ten packets.
abbrev pub hash_verify_block : ℕ
hash_verify_block = 10240

-- The zero-filled buffer after a first read of the file.
unfoldable pub first_buffer : List ℕ → List ℕ
first_buffer content =
    take hash_verify_block content ++ replicate (hash_verify_block - length content) 0

-- `CalculateBlockHash` is the argument `block_hash`.
module _ (block_hash : List ℕ → List ℕ) where
  -- The codes of the blocks after the first, on fuel. `dataBuffer.clear()` has left the vector empty,
  -- and a read into its memory does not give it its size back: what is hashed is the empty vector.
  unfoldable pub codes_from : ℕ → ℕ → List ℕ → List (ℕ × List ℕ)
  codes_from zero seq rest = []
  codes_from (suc fuel) seq rest =
      let more = codes_from fuel (seq + 1) (drop hash_verify_block rest) in
      if leb hash_verify_block (length rest)
      then (seq, block_hash []) ∷ more
      else if is_nil rest
      then []
      else (seq, block_hash []) ∷ []

  -- The numbers and codes that go out.
  unfoldable pub send_verify_code : List ℕ → List (ℕ × List ℕ)
  send_verify_code content =
      let rest = codes_from (length content) 1 (drop hash_verify_block content) in
      if leb hash_verify_block (length content)
      then (0, block_hash (first_buffer content)) ∷ rest
      else if is_nil content
      then []
      else (0, block_hash (first_buffer content)) ∷ []

  -- `m_Verify` and `m_HashCodes`: the code of each number that has one.
  unfoldable pub add_hash_code : List ℕ → ℕ → List (ℕ × List ℕ) → List (ℕ × List ℕ)
  add_hash_code clientcode seq codes = insert seq clientcode codes
