-- ===== src/UrlCode/Query.antt =====
-- PreParseGetParam of csession.cpp: the path and the parameters of a request's target.
use boost_asio_threadpool.Base.{
  ==_iff, ==_ne, Bytes_eq, List, Option, String_eq, [], arith, false, if◌then◌else◌, insert, length,
  length-append, none, refl, some, suc, zero, ℕ, ℕ_eq, ◌++◌, ◌+◌, ◌<◌, ◌==◌, ◌∷◌, ◌≡◌, ◌≢◌, ◌≤◌,
}
use boost_asio_threadpool.Base.Outcome.{Outcome, blocks, returns, ◌>>=◌}
use boost_asio_threadpool.Receive.{is_nil}
use boost_asio_threadpool.UrlCode.{encode_byte, to_hex, url_decode, url_encode}
use boost_asio_threadpool.UrlCode.RoundTrip.{IsBytes, url_decode-url_encode}
use native.Mathlib.Numerals.{add-one}
use mathlib.Core.Option

-- `find(c)` with the `substr`s on its two sides.
unfoldable pub split_first : ℕ → List ℕ → Option (List ℕ × List ℕ)
split_first c [] = none
split_first c (x ∷ s) =
    if x == c then some ([], s) else Option.map (λ p. (x ∷ p.0, p.1)) (split_first c s)

-- `_get_params`.
abbrev pub Params : Type 0
Params = List (List ℕ × List ℕ)

-- One `key=value`; without a '=' it is passed over.
store_split : Option (List ℕ × List ℕ) → Params → Outcome Params
store_split none params = returns params
store_split (some (k, v)) params = do
  key ← url_decode k
  value ← url_decode v
  returns (insert key value params)

store_pair : List ℕ → Params → Outcome Params
store_pair pair params = store_split (split_first b'=' pair) params

parse_split :
    Option (List ℕ × List ℕ) → List ℕ → Params → (List ℕ → Params → Outcome Params) → Outcome Params
parse_split none s params parse_rest = if is_nil s then returns params else store_pair s params
parse_split (some (pair, rest)) s params parse_rest = do
  params' ← store_pair pair params
  parse_rest rest params'

-- The loop over the '&'s and the last pair, on fuel; `blocks`: the fuel ran out.
parse_query : ℕ → List ℕ → Params → Outcome Params
parse_query zero s params = blocks
parse_query (suc fuel) s params = parse_split (split_first b'&' s) s params (parse_query fuel)

-- The new `_get_url`, and the parameters added to those of the session's earlier requests.
target_split : Option (List ℕ × List ℕ) → List ℕ → Params → Outcome (List ℕ × Params)
target_split none uri params = returns (uri, params)
target_split (some (url, query)) uri params = do
  params' ← parse_query (length query + 1) query params
  returns (url, params')

pub pre_parse_get_param : List ℕ → Params → Outcome (List ℕ × Params)
pre_parse_get_param uri params = target_split (split_first b'?' uri) uri params

-- The query string of a list of parameters.
abbrev pub encode_query : Params → List ℕ
encode_query [] = []
encode_query ((k, v) ∷ []) = url_encode k ++ (b'=' ∷ url_encode v)
encode_query ((k, v) ∷ (p ∷ ps)) =
    (url_encode k ++ (b'=' ∷ url_encode v)) ++ (b'&' ∷ encode_query (p ∷ ps))

abbrev pub insert_all : Params → Params → Params
insert_all [] params = params
insert_all ((k, v) ∷ ps) params = insert_all ps (insert k v params)

abbrev pub Lacks : ℕ → List ℕ → Type 0
Lacks c [] = Unit {0}
Lacks c (x ∷ s) = (x ≢ c) × Lacks c s

Lacks-append : (c : ℕ) (a b : List ℕ) → Lacks c a → Lacks c b → Lacks c (a ++ b)
Lacks-append c [] b h k = k
Lacks-append c (x ∷ a) b h k = (h.0, Lacks-append c a b h.1 k)

split_first-some : (c : ℕ) (a b : List ℕ) → Lacks c a → split_first c (a ++ (c ∷ b)) ≡ some (a, b)
unfolding split_first
split_first-some c [] b h = rw ((==_iff c c).1 refl) refl
split_first-some c (x ∷ a) b h = rw (==_ne x c h.0, split_first-some c a b h.1) refl

split_first-none : (c : ℕ) (a : List ℕ) → Lacks c a → split_first c a ≡ none
unfolding split_first
split_first-none c [] h = refl
split_first-none c (x ∷ a) h = rw (==_ne x c h.0, split_first-none c a h.1) refl

-- The separators do not occur in encoded text.
encode_byte-Lacks : (c : ℕ) → c < 256 → Lacks b'&' (encode_byte c) × Lacks b'=' (encode_byte c)
unfolding encode_byte to_hex
encode_byte-Lacks c h = ground arith

url_encode-Lacks : (s : List ℕ) → IsBytes s → Lacks b'&' (url_encode s) × Lacks b'=' (url_encode s)
unfolding url_encode
url_encode-Lacks [] h = (tt, tt)
url_encode-Lacks (c ∷ s) h =
    let (a, e) = encode_byte-Lacks c h.0 in
    let (a', e') = url_encode-Lacks s h.1 in
    (
      Lacks-append b'&' (encode_byte c) (url_encode s) a a',
      Lacks-append b'=' (encode_byte c) (url_encode s) e e',
    )

abbrev pub AreBytes : Params → Type 0
AreBytes [] = Unit {0}
AreBytes ((k, v) ∷ ps) = IsBytes k × IsBytes v × AreBytes ps

pair-Lacks :
    (k v : List ℕ) → IsBytes k → IsBytes v → Lacks b'&' (url_encode k ++ (b'=' ∷ url_encode v))
pair-Lacks k v hk hv =
    Lacks-append b'&' (url_encode k) (b'=' ∷ url_encode v) (url_encode-Lacks k hk).0
      (λ e. absurd (omega arith), (url_encode-Lacks v hv).0)

store_pair-encode :
    (k v : List ℕ) (params : Params)
    → IsBytes k
    → IsBytes v
    → store_pair (url_encode k ++ (b'=' ∷ url_encode v)) params ≡ returns (insert k v params)
unfolding store_pair store_split
store_pair-encode k v params hk hv =
    rw
      (
        split_first-some b'=' (url_encode k) (url_encode v) (url_encode-Lacks k hk).1,
        url_decode-url_encode k hk,
        url_decode-url_encode v hv,
      )
      refl

pair-ne-nil : (a b : List ℕ) (c : ℕ) → is_nil (a ++ (c ∷ b)) ≡ false
pair-ne-nil [] b c = refl
pair-ne-nil (x ∷ a) b c = refl

parse_query-encode :
    (ps : Params) (fuel : ℕ) (params : Params)
    → AreBytes ps
    → length ps ≤ fuel
    → parse_query (suc fuel) (encode_query ps) params ≡ returns (insert_all ps params)
unfolding parse_query parse_split split_first
parse_query-encode [] fuel params h f = refl
parse_query-encode ((k, v) ∷ []) fuel params h f =
    rw
      (
        split_first-none b'&' (url_encode k ++ (b'=' ∷ url_encode v)) (pair-Lacks k v h.0 h.1),
        pair-ne-nil (url_encode k) (url_encode v) b'=',
      )
      (store_pair-encode k v params h.0 h.1)
parse_query-encode ((k, v) ∷ (p ∷ ps)) zero params h f = absurd (omega arith)
parse_query-encode ((k, v) ∷ (p ∷ ps)) (suc fuel) params h f =
    rw
      (
        split_first-some b'&' (url_encode k ++ (b'=' ∷ url_encode v)) (encode_query (p ∷ ps))
            (pair-Lacks k v h.0 h.1),
        store_pair-encode k v params h.0 h.1,
      )
      (parse_query-encode (p ∷ ps) fuel (insert k v params) h.2 (omega arith))

length-encode_query : (ps : Params) → length ps ≤ length (encode_query ps)
length-encode_query [] = omega arith
length-encode_query ((k, v) ∷ []) =
    omega (arith, length-append (url_encode k) (b'=' ∷ url_encode v))
length-encode_query ((k, v) ∷ (p ∷ ps)) = omega (
  arith,
  length-append (url_encode k ++ (b'=' ∷ url_encode v)) (b'&' ∷ encode_query (p ∷ ps)),
  length-encode_query (p ∷ ps),
)

-- A target made of a path without '?' and a list of encoded parameters is taken apart again: the path
-- is the url, and the parameters are stored in order, a later one over an earlier one of its key.
pub pre_parse_get_param-encode :
    (url : List ℕ) (ps params : Params)
    → Lacks b'?' url
    → AreBytes ps
    → pre_parse_get_param (url ++ (b'?' ∷ encode_query ps)) params
      ≡ returns (url, insert_all ps params)
unfolding pre_parse_get_param target_split
pre_parse_get_param-encode url ps params h b =
    rw
      (
        split_first-some b'?' url (encode_query ps) h,
        add-one,
        parse_query-encode ps (length (encode_query ps)) params b (length-encode_query ps),
      )
      refl
