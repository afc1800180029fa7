-- ===== src/Pool/Redis.antt =====
-- RedisMgr.cpp: the commands, each on a connection of the pool. A key or a value is a list of bytes.
use boost_asio_threadpool.Base.{
  Bool, List, Option, String, [], bytes_eq, false, if◌then◌else◌, length, ltb, none, some, suc,
  take, true, zero, ℕ, ◌++◌, ◌==◌, ◌^◌, ◌∷◌,
}
use boost_asio_threadpool.Base.Outcome.{Outcome, returns, undefined, ◌>>=◌}
use boost_asio_threadpool.Pool.{Pool, get_connection, return_connection}

-- `redisReply::type`.
pub data ReplyType : Type 0 where
  reply_string reply_array reply_integer reply_nil reply_status reply_error : ReplyType

-- The integer is a 64-bit word; the string is none where hiredis sets no string.
pub record Reply : Type 0 where
  pub kind : ReplyType
  pub integer : ℕ
  pub str : Option (List ℕ)

-- `reply->integer > 0` of the signed word.
unfoldable pub is_positive : ℕ → Bool
is_positive n = if ltb 0 n then ltb n (2 ^ 63) else false

unfoldable pub is_kind : ReplyType → ReplyType → Bool
is_kind reply_string reply_string = true
is_kind reply_array reply_array = true
is_kind reply_integer reply_integer = true
is_kind reply_nil reply_nil = true
is_kind reply_status reply_status = true
is_kind reply_error reply_error = true
is_kind a b = false

-- A copy of `reply->str`: undefined for the null pointer.
unfoldable pub copy_str : Option (List ℕ) → Outcome (List ℕ)
copy_str none = undefined
copy_str (some s) = returns s

-- What each command makes of its reply.
unfoldable pub get_reply : Reply → Outcome (Option (List ℕ))
get_reply r =
    if is_kind r.kind reply_string
    then (copy_str r.str >>= (λ s. returns (some s)))
    else returns none

-- `strcmp` with "OK" and with "ok".
unfoldable pub set_reply : Reply → Outcome Bool
set_reply r =
    let compared = (do
      s ← copy_str r.str
      returns (if bytes_eq s (b'O' ∷ b'K' ∷ []) then true else bytes_eq s (b'o' ∷ b'k' ∷ []))) in
    if is_kind r.kind reply_status then compared else returns false

unfoldable pub push_reply : Reply → Outcome Bool
push_reply r = returns (if is_kind r.kind reply_integer then is_positive r.integer else false)

unfoldable pub pop_reply : Reply → Outcome (Option (List ℕ))
pop_reply r =
    if is_kind r.kind reply_nil then returns none else (copy_str r.str >>= (λ s. returns (some s)))

unfoldable pub integer_reply : Reply → Outcome Bool
integer_reply r = returns (is_kind r.kind reply_integer)

unfoldable pub h_get_reply : Reply → Outcome (List ℕ)
h_get_reply r = if is_kind r.kind reply_nil then returns [] else copy_str r.str

unfoldable pub h_del_reply : Reply → Outcome Bool
h_del_reply r = returns (if is_kind r.kind reply_integer then is_positive r.integer else false)

unfoldable pub exists_reply : Reply → Outcome Bool
exists_reply r =
    returns
      (if is_kind r.kind reply_integer then (if r.integer == 0 then false else true) else false)

-- What hiredis and the server behind a connection answer to a command; no reply is a null pointer.
pub record Hiredis : Type 1 where
  pub Server : Type 0
  pub redis_command : ℕ → String → List (List ℕ) → Server → Option Reply × Server

module _ (h : Hiredis) where
  open h use {Server, redis_command}

  -- The result of a command, with the pool and the server that it leaves.
  abbrev pub Run : Type 0 → Type 0
  Run A = Pool ℕ → Server → Outcome (A × Pool ℕ × Server)

  unfoldable pub give_back : {A : Type 0} → ℕ → Pool ℕ → Server → A → Outcome (A × Pool ℕ × Server)
  give_back c pool s a = returns (a, return_connection c pool, s)

  -- What a command does with its connection and the reply.
  unfoldable pub answer :
      {A : Type 0}
      → A
      → (Reply → Outcome A)
      → ℕ
      → Pool ℕ
      → Option Reply × Server
      → Outcome (A × Pool ℕ × Server)
  answer failed accept c pool (none, s) = give_back c pool s failed
  answer failed accept c pool (some reply, s) = accept reply >>= give_back c pool s

  unfoldable pub on_connection :
      {A : Type 0}
      → A
      → String
      → List (List ℕ)
      → (Reply → Outcome A)
      → Server
      → Option ℕ × Pool ℕ
      → Outcome (A × Pool ℕ × Server)
  on_connection failed verb command accept s (none, pool) = returns (failed, pool, s)
  on_connection failed verb command accept s (some c, pool) =
      answer failed accept c pool (redis_command c verb command s)

  -- The frame of every command: a connection, the command, what the reply means, the connection back.
  unfoldable pub with_reply :
      {A : Type 0} → A → String → List (List ℕ) → (Reply → Outcome A) → Run A
  with_reply failed verb command accept pool s =
      get_connection pool >>= on_connection failed verb command accept s

  -- The value is `none` where the command is false and leaves the caller's value alone.
  unfoldable pub redis_get : List ℕ → Run (Option (List ℕ))
  redis_get key = with_reply none "GET" (key ∷ []) get_reply

  unfoldable pub redis_set : List ℕ → List ℕ → Run Bool
  redis_set key value = with_reply false "SET" (key ∷ value ∷ []) set_reply

  unfoldable pub l_push : List ℕ → List ℕ → Run Bool
  l_push key value = with_reply false "LPUSH" (key ∷ value ∷ []) push_reply

  unfoldable pub l_pop : List ℕ → Run (Option (List ℕ))
  l_pop key = with_reply none "LPOP" (key ∷ []) pop_reply

  unfoldable pub r_push : List ℕ → List ℕ → Run Bool
  r_push key value = with_reply false "RPUSH" (key ∷ value ∷ []) push_reply

  unfoldable pub r_pop : List ℕ → Run (Option (List ℕ))
  r_pop key = with_reply none "RPOP" (key ∷ []) pop_reply

  unfoldable pub h_set : List ℕ → List ℕ → List ℕ → Run Bool
  h_set key hkey value = with_reply false "HSET" (key ∷ hkey ∷ value ∷ []) integer_reply

  -- The overload that takes the value with its length.
  unfoldable pub h_set_len : List ℕ → List ℕ → List ℕ → ℕ → Run Bool
  h_set_len key hkey hvalue hvaluelen =
      with_reply false "HSET" (key ∷ hkey ∷ take hvaluelen hvalue ∷ []) integer_reply

  -- A missing field and an empty one have the same answer.
  unfoldable pub h_get : List ℕ → List ℕ → Run (List ℕ)
  h_get key hkey = with_reply [] "HGET" (key ∷ hkey ∷ []) h_get_reply

  unfoldable pub h_del : List ℕ → List ℕ → Run Bool
  h_del key field = with_reply false "HDEL" (key ∷ field ∷ []) h_del_reply

  unfoldable pub del : List ℕ → Run Bool
  del key = with_reply false "DEL" (key ∷ []) integer_reply

  unfoldable pub exists_key : List ℕ → Run Bool
  exists_key key = with_reply false "exists" (key ∷ []) exists_reply

  -- `checkThread`: each connection is pinged once and pushed at the back, with a reply or without.
  check_loop : ℕ → List ℕ → Server → Outcome (List ℕ × Server)
  check_loop zero cs s = returns (cs, s)
  check_loop (suc n) [] s = undefined
  check_loop (suc n) (c ∷ cs) s = check_loop n (cs ++ (c ∷ [])) (redis_command c "PING" ([]) s).1

  unfoldable pub check_thread : Pool ℕ → Server → Outcome (Pool ℕ × Server)
  unfolding check_loop
  check_thread pool s =
      let looped = (do
        (cs, s') ← check_loop (length pool.connections) pool.connections s
        returns (record pool { connections = cs }, s')) in
      if pool.b_stop then returns (pool, s) else looped
