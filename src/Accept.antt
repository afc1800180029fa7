-- ===== src/Accept.antt =====
-- servicepool.cpp and the accept loops of cserver.cpp: which io_context a connection gets, and whether
-- the server goes on accepting.
pub mod Turns
pub mod Loop
mod Examples
use boost_asio_threadpool.Base.{
  Bool, List, Option, String, String_eq, [], false, if◌then◌else◌, insert, lookup, ltb, none, some,
  suc, true, zero, ℕ, ◌+◌, ◌==◌, ◌∷◌,
}
use boost_asio_threadpool.Base.Outcome.{Outcome, returns, undefined, ◌>>=◌}

-- `m_Services.size()` and `m_NextServiceIndex`.
pub record ServicePool : Type 0 where
  pub size : ℕ
  pub next_service_index : ℕ

-- `hardware_concurrency` may be 0, and then there is no service to index.
unfoldable pub get_service : ServicePool → Outcome (ℕ × ServicePool)
get_service p =
    let next = p.next_service_index + 1 in
    if ltb p.next_service_index p.size
    then returns
        (p.next_service_index, record p { next_service_index = if next == p.size then 0 else next })
    else undefined

-- The sessions by their uuid, each with its service, and the session whose accept is under way.
pub record CServer : Type 0 where
  pub pool : ServicePool
  pub sessions : List (String × ℕ)
  pub accepting : Option (String × ℕ)

-- `m_sessions.insert`: a uuid that is there keeps its session.
unfoldable pub insert_session : String × ℕ → List (String × ℕ) → List (String × ℕ)
insert_session (uuid, service) sessions = elim (lookup uuid sessions) [
  | none ↦ insert uuid service sessions
  | some old ↦ sessions
]

-- A new session with a random uuid, and `async_accept`.
unfoldable pub start_accept : String → CServer → Outcome CServer
start_accept uuid c = do
  (service, pool') ← get_service c.pool
  returns (record c { pool = pool'; accepting = some (uuid, service) })

-- HandleAccept of the session that was waited for; the next one would have this uuid.
unfoldable pub handle_accept : Bool → String → String × ℕ → CServer → Outcome CServer
handle_accept true uuid new_session c = returns (record c { accepting = none })
handle_accept false uuid new_session c =
    start_accept uuid
      (record c { sessions = insert_session new_session c.sessions; accepting = none })

-- The handler of CServer::Start: an error, or an exception while the session starts, gives the session
-- up, and each way ends in Start.
unfoldable pub start_handler : Bool → Bool → String → String × ℕ → CServer → Outcome CServer
start_handler true thrown uuid new_con c = start_accept uuid c
start_handler false true uuid new_con c = start_accept uuid c
start_handler false false uuid new_con c =
    start_accept uuid (record c { sessions = insert_session new_con c.sessions })
