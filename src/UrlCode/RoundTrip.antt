-- ===== src/UrlCode/RoundTrip.antt =====
-- UrlDecode of csession.cpp undoes UrlEncode.
use boost_asio_threadpool.Base.{
  ==_iff, ==_ne, Bool-cases, List, [], arith, inl, inr, refl, true, ℕ, ◌%◌, ◌*◌, ◌++◌, ◌+◌, ◌/◌,
  ◌<◌, ◌==◌, ◌∙◌, ◌∷◌, ◌≡◌, ◌≢◌,
}
use boost_asio_threadpool.Base.Outcome.{returns}
use boost_asio_threadpool.UrlCode.{
  decode_pair, encode_byte, from_hex, is_plain, push, to_hex, url_decode, url_encode,
}

decode_plain :
    (c : ℕ) (s : List ℕ)
    → c ≢ b'+'
    → c ≢ b'%'
    → url_decode (c ∷ s) ≡ push (returns c) (url_decode s)
unfolding url_decode
decode_plain c [] p q = rw (==_ne c b'+' p, ==_ne c b'%' q) refl
decode_plain c (d ∷ []) p q = rw (==_ne c b'+' p, ==_ne c b'%' q) refl
decode_plain c (d ∷ e ∷ s) p q = rw (==_ne c b'+' p, ==_ne c b'%' q) refl

decode_plus : (s : List ℕ) → url_decode (b'+' ∷ s) ≡ push (returns b' ') (url_decode s)
unfolding url_decode
decode_plus [] = refl
decode_plus (d ∷ []) = refl
decode_plus (d ∷ e ∷ s) = refl

-- Two digits that `ToHex` has written.
decode_pair-to_hex :
    (h l : ℕ) → h < 16 → l < 16 → decode_pair (to_hex h) (to_hex l) ≡ returns (h * 16 + l)
unfolding decode_pair to_hex from_hex
decode_pair-to_hex h l p q = ground arith

not_special : (c : ℕ) → is_plain c ≡ true → (c ≢ b'+') × (c ≢ b'%')
not_special c h = (λ e. ground arith, λ e. ground arith)

decode_percent :
    (d e : ℕ) (s : List ℕ) → url_decode (b'%' ∷ d ∷ e ∷ s) ≡ push (decode_pair d e) (url_decode s)
unfolding url_decode
decode_percent d e s = refl

decode_nil : url_decode [] ≡ returns []
unfolding url_decode
decode_nil = refl

decode-encode_byte :
    (c : ℕ) (s : List ℕ)
    → c < 256
    → url_decode (encode_byte c ++ s) ≡ push (returns c) (url_decode s)
unfolding encode_byte
decode-encode_byte c s h = elim (Bool-cases (is_plain c)) [
  | inl plain ↦ rw plain (decode_plain c s (not_special c plain).0 (not_special c plain).1)
  | inr other ↦ elim (Bool-cases (c == b' ')) [
    | inl blank ↦ rw (other, blank) (decode_plus s ∙ rw ((==_iff c b' ').0 blank) refl)
    | inr coded ↦
        rw (other, coded)
          (decode_percent (to_hex (c / 16)) (to_hex (c % 16)) s
            ∙ rw (decode_pair-to_hex (c / 16) (c % 16) (omega arith) (omega arith), whole) refl)
  ]
]
  where
    whole : c / 16 * 16 + c % 16 ≡ c
    whole = omega arith

abbrev pub IsBytes : List ℕ → Type 0
IsBytes [] = Unit {0}
IsBytes (c ∷ s) = (c < 256) × IsBytes s

-- Decoding gives back every string of bytes that was encoded, and never fails its `assert`s on it.
pub url_decode-url_encode : (s : List ℕ) → IsBytes s → url_decode (url_encode s) ≡ returns s
unfolding url_encode
url_decode-url_encode [] h = decode_nil
url_decode-url_encode (c ∷ s) h =
    decode-encode_byte c (url_encode s) h.0 ∙ rw (url_decode-url_encode s h.1) refl
