-- ===== src/Base64/Examples.antt =====
-- The round trip of three bytes.
use boost_asio_threadpool.Base.{List, [], ℕ, ◌∷◌, ◌≡◌}
use boost_asio_threadpool.Base.Outcome.{returns}
use boost_asio_threadpool.Samples.{bio}
use boost_asio_threadpool.Base64.{base64_decode, base64_encode}
use boost_asio_threadpool.Base64.RoundTrip.{base64_decode-base64_encode}

base64_decode-base64_encode_example :
    (encoded : List ℕ) × (base64_encode bio (0 ∷ 255 ∷ 10 ∷ []) ≡ returns encoded)
    × (base64_decode bio encoded ≡ returns (0 ∷ 255 ∷ 10 ∷ []))
base64_decode-base64_encode_example = base64_decode-base64_encode bio 0 (255 ∷ 10 ∷ [])
