-- ===== src/Samples.antt =====
-- Concrete code for what the program takes from outside, for the examples: a network order, a codec
-- that stores bytes as they are, a hash that keeps the first bytes, and servers with fixed answers.
use boost_asio_threadpool.Base.{
  Bool, List, some, length-take, sym, take-append-drop, [], arith, drop, false, length, min, refl,
  take, true, ℕ, ◌%◌, ◌*◌, ◌++◌, ◌+◌, ◌/◌, ◌<◌, ◌∷◌, ◌≡◌, ◌≢◌,
}
use boost_asio_threadpool.MsgNode.{Asio, store_short}
use boost_asio_threadpool.Base64.{Bio, Read, bytes, done}
use boost_asio_threadpool.Hash.{Md5}
use boost_asio_threadpool.Pool.Mysql.{Mysql}
use boost_asio_threadpool.Pool.Redis.{Hiredis, reply_string}

abbrev pub swap_bytes : ℕ → ℕ
swap_bytes x = x / 256 % 256 + 256 * (x % 256)

pub swap_bytes-stored : (x : ℕ) → x < 65536 → store_short (swap_bytes x) ≡ x / 256 ∷ x % 256 ∷ []
swap_bytes-stored x small =
    let low : swap_bytes x % 256 ≡ x / 256 = omega arith in
    let high : swap_bytes x / 256 % 256 ≡ x % 256 = omega arith in rw (low, high) refl

pub swap_bytes-loaded : (a b : ℕ) → a < 256 → b < 256 → swap_bytes (a + 256 * b) ≡ a * 256 + b
swap_bytes-loaded a b ha hb = omega arith

abbrev pub asio : Asio
asio = record {
  host_to_network_short = swap_bytes;
  network_to_host_short = swap_bytes;
  buffer_length = min;
  network_bytes = swap_bytes-stored;
  host_value = swap_bytes-loaded;
  buffer_min = λ size n. refl;
}

-- A chain that gives its bytes as they were written.
abbrev pub read_plain : List ℕ → ℕ → Read × List ℕ
read_plain [] n = (done, [])
read_plain (x ∷ xs) n = (bytes (take n (x ∷ xs)), drop n (x ∷ xs))

abbrev pub is_some : List ℕ → Bool
is_some [] = false
is_some (x ∷ xs) = true

pub read_plain-some :
    (c : List ℕ) (n : ℕ)
    → 0 < n
    → c ≢ []
    → (xs : List ℕ) × (c' : List ℕ) × (read_plain c n ≡ (bytes xs, c'))
      × (0 < length xs)
      × (c ≡ xs ++ c')
read_plain-some [] n pos some_ = absurd (some_ refl)
read_plain-some (x ∷ xs) n pos some_ = (
  take n (x ∷ xs),
  drop n (x ∷ xs),
  refl,
  rw (length-take n (x ∷ xs)) omega arith,
  sym (take-append-drop n (x ∷ xs)),
)

pub read_plain-none : (c : List ℕ) (n : ℕ) → c ≡ [] → (c' : List ℕ) × (read_plain c n ≡ (done, c'))
read_plain-none [] n e = ([], refl)
read_plain-none (x ∷ xs) n e = cc

abbrev pub bio : Bio
bio = record {
  Chain = List ℕ;
  writes = is_some;
  text = λ xs. xs;
  open_text = λ xs. xs;
  read = read_plain;
  rest = λ xs. xs;
  writes_none = refl;
  writes_some = λ x xs. refl;
  text_longer = λ xs. omega arith;
  opened = λ x xs. refl;
  read_some = read_plain-some;
  read_none = read_plain-none;
}

-- A hash that is the number of bytes and the first of them.
abbrev pub md5 : Md5
md5 = record {
  Context = ℕ;
  md5_init = 0;
  md5_update = λ n xs. n + length xs;
  md5_final = λ n. n % 256 ∷ [];
  md5 = λ xs. length xs % 256 ∷ [];
}

-- A database on which every call succeeds, with one user, `uid` 7, whose name, email and password
-- are single bytes.
abbrev pub mysql : Mysql
mysql = record {
  State = ℕ;
  call = λ conn command s. (true, s + 1);
  fetched_count = λ conn s. 0;
  fetched_user = λ conn s. (7, 1 ∷ [], 2 ∷ [], 3 ∷ []);
  no_data = λ conn s. false;
  duplicate_entry = λ conn s. false;
}

abbrev pub hiredis : Hiredis
hiredis = record {
  Server = ℕ;
  redis_command = λ c command args s.
      (some (record { kind = reply_string; integer = 0; str = some (65 ∷ []) }), s + 1);
}
