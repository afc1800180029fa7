-- ===== src/Base64.antt =====
-- base64_code.cpp: the coding of a packet's bytes, over the BIO chain of OpenSSL.
pub mod RoundTrip
mod Examples
use boost_asio_threadpool.Base.{
  Bool, List, [], false, if◌then◌else◌, length, suc, true, zero, ℕ, ◌++◌, ◌+◌, ◌<◌, ◌∷◌, ◌≡◌, ◌≢◌,
  ◌≤◌,
}
use boost_asio_threadpool.Base.Outcome.{Outcome, blocks, returns, throws}

-- What `BIO_read` answers: some bytes, 0 at the end, or a negative number.
pub data Read : Type 0 where
  bytes : List ℕ → Read
  done failed : Read

-- The chain of a base64 filter and a memory BIO. `writes` says whether `BIO_write` of these bytes
-- answers a positive number, and `text` is what the memory BIO then holds after the flush. `open_text`
-- is a chain over a text, and `rest` the bytes that it has still to give.
pub record Bio : Type 1 where
  pub Chain : Type 0
  pub writes : List ℕ → Bool
  pub text : List ℕ → List ℕ
  pub open_text : List ℕ → Chain
  pub read : Chain → ℕ → Read × Chain
  pub rest : Chain → List ℕ
  -- `BIO_write` answers the number of bytes that it has taken.
  pub writes_none : writes [] ≡ false
  pub writes_some : (x : ℕ) (xs : List ℕ) → writes (x ∷ xs) ≡ true
  -- A text is no shorter than the bytes that it stands for, and a chain over it has those to give.
  pub text_longer : (xs : List ℕ) → length xs ≤ length (text xs)
  pub opened : (x : ℕ) (xs : List ℕ) → rest (open_text (text (x ∷ xs))) ≡ x ∷ xs
  -- A read with room takes some of the bytes that are left, from the front, and answers 0 if none are.
  pub read_some :
      (c : Chain) (n : ℕ)
      → 0 < n
      → rest c ≢ []
      → (xs : List ℕ) × (c' : Chain) × (read c n ≡ (bytes xs, c'))
        × (0 < length xs)
        × (rest c ≡ xs ++ rest c')
  pub read_none : (c : Chain) (n : ℕ) → rest c ≡ [] → (c' : Chain) × (read c n ≡ (done, c'))

-- `char buffer[512]`.
abbrev pub read_size : ℕ
read_size = 512

module _ (b : Bio) where
  open b use {Chain, writes, text, open_text, read}

  unfoldable pub base64_encode : List ℕ → Outcome (List ℕ)
  base64_encode bs = if writes bs then returns (text bs) else throws

  -- What the loop makes of one answer.
  pub go_on : (Chain → List ℕ → Outcome (List ℕ)) → List ℕ → Read × Chain → Outcome (List ℕ)
  go_on again decoded (bytes xs, c) = again c (decoded ++ xs)
  go_on again decoded (done, c) = returns decoded
  go_on again decoded (failed, c) = throws

  -- The loop of `BIO_read`s, on fuel; `blocks`: the fuel ran out.
  pub read_all : ℕ → Chain → List ℕ → Outcome (List ℕ)
  unfolding go_on
  read_all zero c decoded = blocks
  read_all (suc fuel) c decoded = go_on (read_all fuel) decoded (read c read_size)

  unfoldable pub base64_decode : List ℕ → Outcome (List ℕ)
  base64_decode encoded = read_all (length encoded + 1) (open_text encoded) []
