-- ===== src/Pool/Opening.antt =====
-- The constructors of RedisConPool in RedisMgr.h and of MySqlPool in MysqlDao.h: which connections a
-- pool begins with.
use boost_asio_threadpool.Base.{
  Bool, List, Option, [], arith, false, if◌then◌else◌, length, length-append, none, refl, some, suc,
  true, zero, ℕ, ◌++◌, ◌+◌, ◌∷◌, ◌≡◌, ◌≤◌, ap,
}
use boost_asio_threadpool.Base.Outcome.{
  Outcome, >>=_returns, >>=-eq-returns, blocks, returns, undefined, ◌>>=◌,
}
use boost_asio_threadpool.Pool.{Pool, get_connection, open_pool}
use boost_asio_threadpool.Pool.Commands.{Op, run_op, run_op_empty}
use boost_asio_threadpool.Pool.Mysql.{SqlConnection}
use boost_asio_threadpool.Pool.Redis.{Hiredis, Reply, is_kind, reply_error}

-- The handle that `mysql_init` gives, and the time in seconds; `mysql_real_connect` is called, and its
-- result is only reported. The null handle is used by that call.
abbrev pub new_connection : ℕ → Option ℕ → Outcome SqlConnection
new_connection timestamp none = undefined
new_connection timestamp (some con) =
    returns (record { con = some con; last_oper_time = timestamp })

-- `port` is `none` where `stoi` throws; the exception ends the loop, and the connections so far stay.
unfoldable pub my_sql_pool :
    Option ℕ → (ℕ → ℕ × Option ℕ) → ℕ → ℕ → List SqlConnection → Outcome (Pool SqlConnection)
my_sql_pool port mysql_init i zero pool = returns (open_pool pool)
my_sql_pool none mysql_init i (suc n) pool = returns (open_pool pool)
my_sql_pool (some port) mysql_init i (suc n) pool = do
  c ← new_connection (mysql_init i).0 (mysql_init i).1
  my_sql_pool (some port) mysql_init (suc i) n (pool ++ (c ∷ []))

-- A port that is no number leaves the pool without a connection, and who asks for one waits for ever.
pub my_sql_pool-no_port :
    (mysql_init : ℕ → ℕ × Option ℕ) (pool_size : ℕ)
    → (my_sql_pool none mysql_init 0 pool_size [] >>= get_connection) ≡ blocks
unfolding my_sql_pool get_connection
my_sql_pool-no_port mysql_init zero = refl
my_sql_pool-no_port mysql_init (suc n) = refl

-- `redis_connect` gives a context with whether its `err` is set, or a null pointer.
module _ (h : Hiredis) (redis_connect : h.Server → Option (ℕ × Bool) × h.Server) where
  open h use {Server, redis_command}

  -- The reply to AUTH; a null pointer is dereferenced.
  unfoldable pub authenticated : ℕ → Option Reply × Server → Outcome (Option ℕ × Server)
  authenticated context (none, s) = undefined
  authenticated context (some reply, s) =
      returns (if is_kind reply.kind reply_error then none else some context, s)

  unfoldable pub open_context : List ℕ → Option (ℕ × Bool) × Server → Outcome (Option ℕ × Server)
  open_context pwd (none, s) = returns (none, s)
  open_context pwd (some (context, true), s) = returns (none, s)
  open_context pwd (some (context, false), s) =
      authenticated context (redis_command context "AUTH" (pwd ∷ []) s)

  abbrev pub push : Option ℕ → List ℕ → List ℕ
  push none connections = connections
  push (some context) connections = connections ++ (context ∷ [])

  -- The loop of the constructor.
  unfoldable pub open_contexts : List ℕ → ℕ → List ℕ → Server → Outcome (Pool ℕ × Server)
  open_contexts pwd zero connections s = returns (open_pool connections, s)
  open_contexts pwd (suc n) connections s =
      open_context pwd (redis_connect s) >>= (λ r. open_contexts pwd n (push r.0 connections) r.1)

  unfoldable pub redis_con_pool : ℕ → List ℕ → Server → Outcome (Pool ℕ × Server)
  redis_con_pool pool_size pwd s = open_contexts pwd pool_size [] s

  abbrev pub IsRefused : Option (ℕ × Bool) → Type 0
  IsRefused none = Unit {0}
  IsRefused (some (context, err)) = err ≡ true

  open_context_refused :
      (pwd : List ℕ) (r : Option (ℕ × Bool)) (s : Server)
      → IsRefused r
      → open_context pwd (r, s) ≡ returns (none, s)
  unfolding open_context
  open_context_refused pwd none s e = refl
  open_context_refused pwd (some (context, true)) s e = refl
  open_context_refused pwd (some (context, false)) s e = cc

  open_contexts_refused :
      (pwd : List ℕ) (n : ℕ) (s : Server)
      → ((t : Server) → IsRefused (redis_connect t).0)
      → (s' : Server) × (open_contexts pwd n [] s ≡ returns (open_pool [], s'))
  unfolding open_contexts
  open_contexts_refused pwd zero s refused = (s, refl)
  open_contexts_refused pwd (suc n) s refused =
      let (s', e) = open_contexts_refused pwd n (redis_connect s).1 refused in
      (
        s',
        >>=_returns (λ r. open_contexts pwd n (push r.0 []) r.1)
            (open_context_refused pwd (redis_connect s).0 (redis_connect s).1 (refused s)) e,
      )

  -- Where the server refuses every connection while the pool is made, the pool is made all the same and
  -- is empty, and every command, whatever the server does by then, waits for ever.
  pub redis_con_pool_refused :
      (pool_size : ℕ) (pwd : List ℕ) (s later : Server) (op : Op)
      → ((t : Server) → IsRefused (redis_connect t).0)
      → (s' : Server) × (pool : Pool ℕ) × (redis_con_pool pool_size pwd s ≡ returns (pool, s'))
        × (run_op h op pool later ≡ blocks)
  unfolding redis_con_pool
  redis_con_pool_refused pool_size pwd s later op refused =
      let (s', e) = open_contexts_refused pwd pool_size s refused in
      (s', open_pool [], e, run_op_empty h op later)

  length-push :
      (r : Option ℕ) (connections : List ℕ) → length (push r connections) ≤ length connections + 1
  length-push none connections = omega arith
  length-push (some context) connections =
      let total = length-append connections (context ∷ []) in omega (arith, total)

  open_contexts_bounded :
      (pwd : List ℕ) (n : ℕ) (connections : List ℕ) (s s' : Server) (pool : Pool ℕ)
      → open_contexts pwd n connections s ≡ returns (pool, s')
      → length pool.connections ≤ length connections + n
  unfolding open_contexts
  open_contexts_bounded pwd zero connections s s' pool e =
      let same : pool ≡ open_pool connections = cc in
      let total = ap (λ q. length q.connections) same in omega (arith, total)
  open_contexts_bounded pwd (suc n) connections s s' pool e =
      let ((r, t), opened, rest) = >>=-eq-returns (open_context pwd (redis_connect s)) _ e in
      let first = length-push r connections in
      let others = open_contexts_bounded pwd n (push r connections) t s' pool rest in
      omega (arith, first, others)

  -- The pool begins with at most `pool_size` connections.
  pub redis_con_pool_bounded :
      (pool_size : ℕ) (pwd : List ℕ) (s s' : Server) (pool : Pool ℕ)
      → redis_con_pool pool_size pwd s ≡ returns (pool, s')
      → length pool.connections ≤ pool_size
  unfolding redis_con_pool
  redis_con_pool_bounded pool_size pwd s s' pool e =
      let bound = open_contexts_bounded pwd pool_size [] s s' pool e in omega (arith, bound)
