-- ===== src/Pool/Commands.antt =====
-- The commands of RedisMgr.cpp, taken together: what each does to the pool of connections.
use boost_asio_threadpool.Base.{
  Bool, true, take, inl, inr, ◌⊎◌, List, Option, String, [], ap, false, none, refl, some, ℕ, ◌++◌,
  ◌∷◌, ◌≡◌,
}
use boost_asio_threadpool.Base.Outcome.{Outcome, blocks, returns, ◌>>=◌}
use boost_asio_threadpool.Pool.{Pool, close, get_connection, open_pool, return_connection}
use boost_asio_threadpool.Pool.Replies.{
  Settles, if_string, if_status, unless_nil, never, get_reply-Settles, set_reply-Settles,
  pop_reply-Settles, h_get_reply-Settles, push_reply-Settles, integer_reply-Settles,
  h_del_reply-Settles, exists_reply-Settles,
}
use boost_asio_threadpool.Pool.Redis.{
  Hiredis, Reply, ReplyType, answer, copy_str, del, exists_key, give_back, h_del, h_get, h_set,
  h_set_len, is_kind, l_pop, l_push, on_connection, pop_reply, r_pop, r_push, redis_get, redis_set,
  reply_error, with_reply,
}

pub data Op : Type 0 where
  op_get op_l_pop op_r_pop op_del op_exists_key : List ℕ → Op
  op_set op_l_push op_r_push op_h_get op_h_del : List ℕ → List ℕ → Op
  op_h_set : List ℕ → List ℕ → List ℕ → Op
  op_h_set_len : List ℕ → List ℕ → List ℕ → ℕ → Op

pub data Answer : Type 0 where
  as_flag : Bool → Answer
  as_value : Option (List ℕ) → Answer
  as_text : List ℕ → Answer

-- The answer of a command that did not succeed.
abbrev pub failure : Op → Answer
failure (op_get key) = as_value none
failure (op_l_pop key) = as_value none
failure (op_r_pop key) = as_value none
failure (op_h_get key hkey) = as_text []
failure op = as_flag false

-- What each command sends.
abbrev pub command_of : Op → String × List (List ℕ)
command_of (op_get key) = ("GET", key ∷ [])
command_of (op_set key v) = ("SET", key ∷ v ∷ [])
command_of (op_l_push key v) = ("LPUSH", key ∷ v ∷ [])
command_of (op_l_pop key) = ("LPOP", key ∷ [])
command_of (op_r_push key v) = ("RPUSH", key ∷ v ∷ [])
command_of (op_r_pop key) = ("RPOP", key ∷ [])
command_of (op_h_set key hkey v) = ("HSET", key ∷ hkey ∷ v ∷ [])
command_of (op_h_set_len key hkey v len) = ("HSET", key ∷ hkey ∷ take len v ∷ [])
command_of (op_h_get key hkey) = ("HGET", key ∷ hkey ∷ [])
command_of (op_h_del key field) = ("HDEL", key ∷ field ∷ [])
command_of (op_del key) = ("DEL", key ∷ [])
command_of (op_exists_key key) = ("exists", key ∷ [])

-- For which replies it reads the text.
abbrev pub reads_text : Op → ReplyType → Bool
reads_text (op_get key) = if_string
reads_text (op_set key v) = if_status
reads_text (op_l_pop key) = unless_nil
reads_text (op_r_pop key) = unless_nil
reads_text (op_h_get key hkey) = unless_nil
reads_text op = never

module _ (h : Hiredis) where
  open h use {Server}

  abbrev answered :
      {A : Type 0} → (A → Answer) → A × Pool ℕ × Server → Outcome (Answer × Pool ℕ × Server)
  answered f (a, pool, s) = returns (f a, pool, s)

  unfoldable pub run_op : Op → Pool ℕ → Server → Outcome (Answer × Pool ℕ × Server)
  run_op (op_get key) pool s = redis_get h key pool s >>= answered as_value
  run_op (op_set key v) pool s = redis_set h key v pool s >>= answered as_flag
  run_op (op_l_push key v) pool s = l_push h key v pool s >>= answered as_flag
  run_op (op_l_pop key) pool s = l_pop h key pool s >>= answered as_value
  run_op (op_r_push key v) pool s = r_push h key v pool s >>= answered as_flag
  run_op (op_r_pop key) pool s = r_pop h key pool s >>= answered as_value
  run_op (op_h_set key hkey v) pool s = h_set h key hkey v pool s >>= answered as_flag
  run_op (op_h_set_len key hkey v len) pool s =
      h_set_len h key hkey v len pool s >>= answered as_flag
  run_op (op_h_get key hkey) pool s = h_get h key hkey pool s >>= answered as_text
  run_op (op_h_del key field) pool s = h_del h key field pool s >>= answered as_flag
  run_op (op_del key) pool s = del h key pool s >>= answered as_flag
  run_op (op_exists_key key) pool s = exists_key h key pool s >>= answered as_flag

  -- The reply to this command on connection `c` has no text, and the command reads its text.
  abbrev pub HadNoText : String × List (List ℕ) → (ReplyType → Bool) → ℕ → Server → Type 0
  HadNoText (verb, command) reads c s =
      (reply : Reply) × (s' : Server) × (h.redis_command c verb command s ≡ (some reply, s'))
      × (reply.str ≡ none)
      × (reads reply.kind ≡ true)

  answer-keeps :
      {A : Type 0} (failed : A) (reads : ReplyType → Bool) (accept : Reply → Outcome A) (c : ℕ)
      (rest : List ℕ) (r : Option Reply) (s : Server)
      → Settles reads accept
      → ((reply : Reply) × (r ≡ some reply) × (reply.str ≡ none) × (reads reply.kind ≡ true))
        ⊎ ((a : A) × (answer h failed accept c (open_pool rest) (r, s)
              ≡ returns (a, open_pool (rest ++ (c ∷ [])), s)))
  unfolding answer give_back return_connection
  answer-keeps failed reads accept c rest none s settles = inr (failed, refl)
  answer-keeps failed reads accept c rest (some reply) s settles = elim (settles reply) [
    | inl (silent, read) ↦ inl (reply, refl, silent, read)
    | inr (a, e) ↦ inr (a, rw e refl)
  ]

  with_reply-keeps :
      {A : Type 0} (f : A → Answer) (failed : A) (verb : String) (command : List (List ℕ))
      (reads : ReplyType → Bool) (accept : Reply → Outcome A) (c : ℕ) (rest : List ℕ) (s : Server)
      → Settles reads accept
      → HadNoText (verb, command) reads c s
        ⊎ ((a : Answer) × (s' : Server) × ((with_reply h failed verb command accept
                  (open_pool (c ∷ rest))
                  s
                >>= answered f)
              ≡ returns (a, open_pool (rest ++ (c ∷ [])), s')))
  unfolding with_reply on_connection get_connection
  with_reply-keeps f failed verb command reads accept c rest s settles =
      let (r, s') = h.redis_command c verb command s in
      elim (answer-keeps failed reads accept c rest r s' settles) [
        | inl (reply, e, silent, read) ↦ inl (reply, s', ap (λ o. (o, s')) e, silent, read)
        | inr (a, e) ↦ inr (f a, s', ap (λ o. o >>= answered f) e)
      ]

  -- Whatever a command is, it returns and its connection goes back to the pool, behind the others,
  -- the pool being otherwise as it was; or else the server's reply to this very command had no text,
  -- and was of a kind of which the command reads the text: a string for GET, a status for SET, anything
  -- but nil for LPOP, RPOP and HGET. The other commands read no text.
  pub run_op_keeps :
      (op : Op) (c : ℕ) (rest : List ℕ) (s : Server)
      → HadNoText (command_of op) (reads_text op) c s
        ⊎ ((a : Answer) × (s' : Server) × (run_op op (open_pool (c ∷ rest)) s
              ≡ returns (a, open_pool (rest ++ (c ∷ [])), s')))
  unfolding run_op redis_get redis_set l_push l_pop r_push r_pop h_set h_set_len h_get h_del del
      exists_key
  run_op_keeps (op_get key) c rest s =
      with_reply-keeps as_value _ _ _ _ _ c rest s get_reply-Settles
  run_op_keeps (op_set key v) c rest s =
      with_reply-keeps as_flag _ _ _ _ _ c rest s set_reply-Settles
  run_op_keeps (op_l_push key v) c rest s =
      with_reply-keeps as_flag _ _ _ _ _ c rest s push_reply-Settles
  run_op_keeps (op_l_pop key) c rest s =
      with_reply-keeps as_value _ _ _ _ _ c rest s pop_reply-Settles
  run_op_keeps (op_r_push key v) c rest s =
      with_reply-keeps as_flag _ _ _ _ _ c rest s push_reply-Settles
  run_op_keeps (op_r_pop key) c rest s =
      with_reply-keeps as_value _ _ _ _ _ c rest s pop_reply-Settles
  run_op_keeps (op_h_set key hkey v) c rest s =
      with_reply-keeps as_flag _ _ _ _ _ c rest s integer_reply-Settles
  run_op_keeps (op_h_set_len key hkey v n) c rest s =
      with_reply-keeps as_flag _ _ _ _ _ c rest s integer_reply-Settles
  run_op_keeps (op_h_get key hkey) c rest s =
      with_reply-keeps as_text _ _ _ _ _ c rest s h_get_reply-Settles
  run_op_keeps (op_h_del key field) c rest s =
      with_reply-keeps as_flag _ _ _ _ _ c rest s h_del_reply-Settles
  run_op_keeps (op_del key) c rest s =
      with_reply-keeps as_flag _ _ _ _ _ c rest s integer_reply-Settles
  run_op_keeps (op_exists_key key) c rest s =
      with_reply-keeps as_flag _ _ _ _ _ c rest s exists_reply-Settles

  -- After `Close` every command fails at once, without waiting and without asking the server.
  pub run_op_closed :
      (op : Op) (pool : Pool ℕ) (s : Server)
      → run_op op (close pool) s ≡ returns (failure op, close pool, s)
  unfolding run_op redis_get redis_set l_push l_pop r_push r_pop h_set h_set_len h_get h_del del
      exists_key with_reply on_connection get_connection close
  run_op_closed (op_get key) pool s = refl
  run_op_closed (op_set key v) pool s = refl
  run_op_closed (op_l_push key v) pool s = refl
  run_op_closed (op_l_pop key) pool s = refl
  run_op_closed (op_r_push key v) pool s = refl
  run_op_closed (op_r_pop key) pool s = refl
  run_op_closed (op_h_set key hkey v) pool s = refl
  run_op_closed (op_h_set_len key hkey v n) pool s = refl
  run_op_closed (op_h_get key hkey) pool s = refl
  run_op_closed (op_h_del key field) pool s = refl
  run_op_closed (op_del key) pool s = refl
  run_op_closed (op_exists_key key) pool s = refl

  -- A command on an open pool without a connection waits.
  pub run_op_empty : (op : Op) (s : Server) → run_op op (open_pool []) s ≡ blocks
  unfolding run_op redis_get redis_set l_push l_pop r_push r_pop h_set h_set_len h_get h_del del
      exists_key with_reply get_connection
  run_op_empty (op_get key) s = refl
  run_op_empty (op_set key v) s = refl
  run_op_empty (op_l_push key v) s = refl
  run_op_empty (op_l_pop key) s = refl
  run_op_empty (op_r_push key v) s = refl
  run_op_empty (op_r_pop key) s = refl
  run_op_empty (op_h_set key hkey v) s = refl
  run_op_empty (op_h_set_len key hkey v n) s = refl
  run_op_empty (op_h_get key hkey) s = refl
  run_op_empty (op_h_del key field) s = refl
  run_op_empty (op_del key) s = refl
  run_op_empty (op_exists_key key) s = refl

  -- LPop takes an error reply for a value: where the key holds no list, the caller gets the text of the
  -- server's error as the element that was popped.
  pub l_pop_error :
      (key message : List ℕ) (c n : ℕ) (rest : List ℕ) (s s' : Server)
      → h.redis_command c "LPOP" (key ∷ []) s
        ≡ (some (record { kind = reply_error; integer = n; str = some message }), s')
      → l_pop h key (open_pool (c ∷ rest)) s
        ≡ returns (some message, open_pool (rest ++ (c ∷ [])), s')
  unfolding l_pop pop_reply is_kind copy_str with_reply on_connection answer give_back
      get_connection return_connection
  l_pop_error key message c n rest s s' e = rw e refl
