-- ===== src/Pool.antt =====
-- The connection pools: MySqlPool of MysqlDao.h, RedisConPool of RedisMgr.h and RPConPool of
-- VerifyGrpcClient.h have the same queue and the same three operations. Each holds the pool's mutex,
-- so a run is a sequence of calls; a wait that nothing ends is `blocks`.
pub mod Mysql
pub mod RegUser
pub mod CheckPwd
pub mod CheckConnection
pub mod Redis
pub mod Replies
pub mod Commands
pub mod Opening
mod Examples
use boost_asio_threadpool.Base.{
  Bool, List, Option, [], false, if◌then◌else◌, none, refl, some, true, ◌++◌, ◌∷◌, ◌≡◌,
}
use boost_asio_threadpool.Base.Outcome.{Outcome, blocks, returns}

pub record Pool (C : Type 0) : Type 0 where
  pub connections : List C
  pub b_stop : Bool

-- The front connection; no connection at all once the pool is closed.
take_front : {C : Type 0} → List C → Outcome (Option C × Pool C)
take_front [] = blocks
take_front (c ∷ rest) = returns (some c, record { connections = rest; b_stop = false })

unfoldable pub get_connection : {C : Type 0} → Pool C → Outcome (Option C × Pool C)
unfolding take_front
get_connection pool =
    let front = take_front pool.connections in if pool.b_stop then returns (none, pool) else front

unfoldable pub return_connection : {C : Type 0} → C → Pool C → Pool C
return_connection c pool =
    if pool.b_stop then pool else record pool { connections = pool.connections ++ (c ∷ []) }

unfoldable pub close : {C : Type 0} → Pool C → Pool C
close pool = record pool { b_stop = true }

-- The destructors, and `ClearConnections`: every connection is popped.
unfoldable pub clear_connections : {C : Type 0} → Pool C → Pool C
clear_connections pool = record pool { connections = [] }

abbrev pub open_pool : {C : Type 0} → List C → Pool C
open_pool connections = record { connections = connections; b_stop = false }

-- Once a pool is closed, and whatever is done with it then, a caller gets no connection and does not
-- wait, and a connection that comes back is dropped.
pub close-get_connection :
    {C : Type 0}
    → (c : C) (pool : Pool C)
    → (get_connection (return_connection c (close pool)) ≡ returns (none, close pool))
      × (get_connection (clear_connections (close pool))
          ≡ returns (none, clear_connections (close pool)))
unfolding get_connection return_connection close clear_connections
close-get_connection c pool = (refl, refl)

-- Connections go out in the order in which they came in: what is returned to an open pool is what the
-- caller after the ones already waiting in it gets.
pub return_connection-get_connection :
    {C : Type 0}
    → (d : C) (rest : List C) (c : C)
    → get_connection (return_connection c (open_pool (d ∷ rest)))
      ≡ returns (some d, return_connection c (open_pool rest))
unfolding get_connection return_connection
return_connection-get_connection d rest c = refl
