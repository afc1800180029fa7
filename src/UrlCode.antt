-- ===== src/UrlCode.antt =====
-- ToHex, FromHex, UrlEncode, UrlDecode and PreParseGetParam of csession.cpp. A `std::string` is the
-- list of its bytes; `undefined` is a failed `assert`.
pub mod RoundTrip
pub mod Query
use boost_asio_threadpool.Base.{
  Bool, List, [], if◌then◌else◌, leb, ltb, ℕ, ◌%◌, ◌&&◌, ◌*◌, ◌++◌, ◌+◌, ◌-◌, ◌/◌, ◌==◌, ◌||◌, ◌∷◌,
}
use boost_asio_threadpool.Base.Outcome.{Outcome, returns, undefined, ◌>>=◌}

unfoldable pub to_hex : ℕ → ℕ
to_hex x = if ltb 9 x then x + 55 else x + 48

abbrev pub between : ℕ → ℕ → ℕ → Bool
between lo hi x = leb lo x && leb x hi

unfoldable pub from_hex : ℕ → Outcome ℕ
from_hex x =
    if between b'A' b'Z' x
    then returns (x - b'A' + 10)
    else if between b'a' b'z' x
    then returns (x - b'a' + 10)
    else if between b'0' b'9' x
    then returns (x - b'0')
    else undefined

-- `isalnum` in the "C" locale.
abbrev pub is_alnum : ℕ → Bool
is_alnum c = between b'0' b'9' c || between b'A' b'Z' c || between b'a' b'z' c

abbrev pub is_plain : ℕ → Bool
is_plain c = is_alnum c || c == b'-' || c == b'_' || c == b'.' || c == b'~'

unfoldable pub encode_byte : ℕ → List ℕ
encode_byte c =
    if is_plain c
    then c ∷ []
    else if c == b' '
    then b'+' ∷ []
    else b'%' ∷ to_hex (c / 16) ∷ to_hex (c % 16) ∷ []

unfoldable pub url_encode : List ℕ → List ℕ
url_encode [] = []
url_encode (c ∷ s) = encode_byte c ++ url_encode s

-- The byte that two hexadecimal digits stand for; the sum is an `int`, and is cut to a `char`.
unfoldable pub decode_pair : ℕ → ℕ → Outcome ℕ
decode_pair a b = do high ← from_hex a; low ← from_hex b; returns ((high * 16 + low) % 256)

-- `strTemp += ...` in front of what the rest of the loop adds.
abbrev pub push : Outcome ℕ → Outcome (List ℕ) → Outcome (List ℕ)
push byte rest = do c ← byte; s ← rest; returns (c ∷ s)

-- `if str[i] == '%'` with both digits present; a '%' with fewer behind it fails the `assert`.
unfoldable pub url_decode : List ℕ → Outcome (List ℕ)
url_decode [] = returns []
url_decode (c ∷ []) =
    if c == b'+' then returns (b' ' ∷ []) else if c == b'%' then undefined else returns (c ∷ [])
url_decode (c ∷ d ∷ []) =
    let rest = url_decode (d ∷ []) in
    if c == b'+'
    then push (returns b' ') rest
    else if c == b'%'
    then undefined
    else push (returns c) rest
url_decode (c ∷ d ∷ e ∷ s) =
    let rest = url_decode (d ∷ e ∷ s) in
    let behind = push (decode_pair d e) (url_decode s) in
    if c == b'+'
    then push (returns b' ') rest
    else if c == b'%'
    then behind
    else push (returns c) rest
