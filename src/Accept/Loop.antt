-- ===== src/Accept/Loop.antt =====
-- The two accept loops of cserver.cpp after an error.
use boost_asio_threadpool.Base.{
  ap, ◌∙◌, Bool, List, Option, String, [], arith, false, if◌then◌else◌, lt→ltb, none, refl, some,
  true, ℕ, ◌+◌, ◌<◌, ◌==◌, ◌∷◌, ◌≡◌,
}
use boost_asio_threadpool.Base.Outcome.{Outcome, returns, ◌>>=◌}
use boost_asio_threadpool.Accept.{
  CServer, get_service, handle_accept, insert_session, start_accept, start_handler,
}

-- A connection or an error arrives, with the uuid of the session after it. Without an accept under way
-- no handler runs.
unfoldable pub handle_turn : Bool → String → Option (String × ℕ) → CServer → Outcome CServer
handle_turn error uuid none c = returns c
handle_turn error uuid (some new_session) c = handle_accept error uuid new_session c

unfoldable pub run_handle : List (Bool × String) → CServer → Outcome CServer
run_handle [] c = returns c
run_handle ((error, uuid) ∷ es) c = do c' ← handle_turn error uuid c.accepting c; run_handle es c'

unfoldable pub start_turn : Bool → Bool → String → Option (String × ℕ) → CServer → Outcome CServer
start_turn error thrown uuid none c = returns c
start_turn error thrown uuid (some new_con) c = start_handler error thrown uuid new_con c

unfoldable pub run_start : List (Bool × Bool × String) → CServer → Outcome CServer
run_start [] c = returns c
run_start ((error, thrown, uuid) ∷ es) c = do
  c' ← start_turn error thrown uuid c.accepting c
  run_start es c'

run_handle_idle :
    (es : List (Bool × String)) (c : CServer) → c.accepting ≡ none → run_handle es c ≡ returns c
unfolding run_handle handle_turn
run_handle_idle [] c idle = refl
run_handle_idle ((error, uuid) ∷ es) c idle =
    ap (λ a. handle_turn error uuid a c >>= (λ c'. run_handle es c')) idle
    ∙ run_handle_idle es c idle

-- HandleAccept does not accept again after an error in the accept that is under way: whatever
-- connections come, the sessions stay those that there were, and no accept is under way.
pub run_handle-error :
    (uuid : String) (new_session : String × ℕ) (es : List (Bool × String)) (c : CServer)
    → c.accepting ≡ some new_session
    → run_handle ((true, uuid) ∷ es) c ≡ returns (record c { accepting = none })
unfolding run_handle handle_turn handle_accept
run_handle-error uuid new_session es c e =
    ap (λ a. handle_turn true uuid a c >>= (λ c'. run_handle es c')) e
    ∙ run_handle_idle es (record c { accepting = none }) refl

start_accept-alive :
    (uuid : String) (c : CServer)
    → c.pool.next_service_index < c.pool.size
    → (c' : CServer) × (s : String × ℕ) × (start_accept uuid c ≡ returns c')
      × (c'.accepting ≡ some s)
      × (c'.pool.next_service_index < c'.pool.size)
unfolding start_accept get_service
start_accept-alive uuid c h =
    let next = c.pool.next_service_index + 1 in
    (
      record c {
        pool = record c.pool { next_service_index = if next == c.pool.size then 0 else next };
        accepting = some (uuid, c.pool.next_service_index);
      },
      (uuid, c.pool.next_service_index),
      rw (lt→ltb c.pool.next_service_index c.pool.size h) refl,
      refl,
      ground arith,
    )

start_handler-alive :
    (error thrown : Bool) (uuid : String) (new_con : String × ℕ) (c : CServer)
    → c.pool.next_service_index < c.pool.size
    → (c' : CServer) × (s : String × ℕ) × (start_handler error thrown uuid new_con c ≡ returns c')
      × (c'.accepting ≡ some s)
      × (c'.pool.next_service_index < c'.pool.size)
unfolding start_handler
start_handler-alive true thrown uuid new_con c h = start_accept-alive uuid c h
start_handler-alive false true uuid new_con c h = start_accept-alive uuid c h
start_handler-alive false false uuid new_con c h =
    start_accept-alive uuid (record c { sessions = insert_session new_con c.sessions }) h

-- The handler of Start accepts again after every connection, every error and every exception: from a
-- server with an accept under way and the index of a service of the pool, any sequence of them ends
-- with an accept under way.
pub run_start-alive :
    (es : List (Bool × Bool × String)) (new_con : String × ℕ) (c : CServer)
    → c.accepting ≡ some new_con
    → c.pool.next_service_index < c.pool.size
    → (c' : CServer) × (s : String × ℕ) × (run_start es c ≡ returns c') × (c'.accepting ≡ some s)
unfolding run_start start_turn
run_start-alive [] new_con c e h = (c, new_con, refl, e)
run_start-alive ((error, thrown, uuid) ∷ es) new_con c e h =
    let (c', s, one, e', h') = start_handler-alive error thrown uuid new_con c h in
    let (c'', s', rest, e'') = run_start-alive es s c' e' h' in
    (
      c'',
      s',
      ap (λ a. start_turn error thrown uuid a c >>= (λ d. run_start es d)) e
          ∙ (ap (λ o. o >>= (λ d. run_start es d)) one ∙ rest),
      e'',
    )
