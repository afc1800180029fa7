-- ===== src/Base64/RoundTrip.antt =====
-- base64_code.cpp: what was encoded is decoded again.
use boost_asio_threadpool.Base.{
  List, [], append-nil, append_assoc, arith, ap, inl, inr, length, length-append, refl, suc, sym,
  zero, ℕ, ◌++◌, ◌+◌, ◌<◌, ◌∙◌, ◌∷◌, ◌≡◌, ◌≢◌, ◌⊎◌,
}
use boost_asio_threadpool.Base.Outcome.{returns}
use boost_asio_threadpool.Base64.{Bio, base64_decode, base64_encode, go_on, read_all, read_size}

module _ (b : Bio) where
  open b use {Chain, text, open_text, rest, writes_some, text_longer, opened, read_some, read_none}

  nil-cases : (xs : List ℕ) → (xs ≡ []) ⊎ (xs ≢ [])
  nil-cases [] = inl refl
  nil-cases (x ∷ xs) = inr (λ e. cc)

  -- The loop gives what is left in the chain, behind what it has.
  read_all-rest :
      (fuel : ℕ) (c : Chain) (decoded : List ℕ)
      → length (rest c) < fuel
      → read_all b fuel c decoded ≡ returns (decoded ++ rest c)
  unfolding read_all
  read_all-rest zero c decoded h = elim h [ ]
  read_all-rest (suc fuel) c decoded h = elim (nil-cases (rest c)) [
    | inl e ↦
        let (c', r) = read_none c read_size e in
        rw (r, read_all, go_on) (ap returns (sym (append-nil decoded) ∙ ap (◌++◌ decoded) (sym e)))
    | inr more ↦
        let (xs, c', r, some_bytes, split) = read_some c read_size (omega arith) more in
        let shorter = ap length split in
        let sum = length-append xs (rest c') in
        let later = read_all-rest fuel c' (decoded ++ xs) (omega arith) in
        rw (r, read_all, go_on) later
        ∙ ap returns (append_assoc decoded xs (rest c') ∙ ap (◌++◌ decoded) (sym split))
  ]

  -- Bytes that `base64_encode` accepts, all but none at all, come back from `base64_decode` as they
  -- were: neither function throws, and the loop of reads ends.
  pub base64_decode-base64_encode :
      (x : ℕ) (xs : List ℕ)
      → (encoded : List ℕ) × (base64_encode b (x ∷ xs) ≡ returns encoded)
        × (base64_decode b encoded ≡ returns (x ∷ xs))
  unfolding base64_encode base64_decode
  base64_decode-base64_encode x xs =
      let longer = text_longer (x ∷ xs) in
      let same = ap length (opened x xs) in
      (
        text (x ∷ xs),
        rw (writes_some x xs) refl,
        read_all-rest (length (text (x ∷ xs)) + 1) (open_text (text (x ∷ xs))) [] (omega arith)
            ∙ ap returns (opened x xs),
      )
