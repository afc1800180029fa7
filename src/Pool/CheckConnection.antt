-- ===== src/Pool/CheckConnection.antt =====
-- checkConnection of MySqlPool: the check that the pool's own thread makes every minute.
use boost_asio_threadpool.Base.{
  Bool, List, Option, [], append-nil, append_assoc, arith, false, if◌then◌else◌, inl, inr, length,
  length-append, ap, le→ltb, ltb, map, none, refl, some, subst, suc, true, zero, ℕ, ◌++◌, ◌+◌, ◌∙◌,
  ◌∷◌, ◌≡◌, ◌≤◌, ◌⊎◌,
}
use boost_asio_threadpool.Base.Outcome.{Outcome, returns, undefined, ◌>>=◌}
use boost_asio_threadpool.Pool.{Pool, open_pool}
use boost_asio_threadpool.Pool.Mysql.{SqlConnection}

-- The time in seconds, what `mysql_ping` of each handle says, and the handle that connecting in the
-- place of each gives.
module _ (now : ℕ) (mysql_ping : ℕ → Bool) (mysql_real_connect : ℕ → Option ℕ) where
  -- Reconnecting, after the old handle is closed. Where it fails, the message is read out of that
  -- closed handle.
  unfoldable pub reconnect : Option ℕ → Outcome SqlConnection
  reconnect none = undefined
  reconnect (some new_conn) = returns (record { con = some new_conn; last_oper_time = now })

  -- A ping of the null handle is undefined.
  unfoldable pub ping_one : SqlConnection → Option ℕ → Outcome SqlConnection
  ping_one c none = undefined
  ping_one c (some conn) =
      let again = reconnect (mysql_real_connect conn) in
      if mysql_ping conn then returns c else again

  -- `timestamp - con->_last_oper_time < 5`.
  unfoldable pub check_one : SqlConnection → Outcome SqlConnection
  check_one c =
      let pinged = ping_one c c.con in if ltb now (c.last_oper_time + 5) then returns c else pinged

  -- `for (i < poolsize)`: the front is popped, and pushed at the back when the turn ends.
  unfoldable pub check_loop : ℕ → List SqlConnection → Outcome (List SqlConnection)
  check_loop zero cs = returns cs
  check_loop (suc n) [] = undefined
  check_loop (suc n) (c ∷ cs) = do c' ← check_one c; check_loop n (cs ++ (c' ∷ []))

  unfoldable pub check_connection : Pool SqlConnection → Outcome (Pool SqlConnection)
  unfolding check_loop check_one ping_one reconnect
  check_connection pool = do
    connections' ← check_loop (length pool.connections) pool.connections
    returns (record pool { connections = connections' })

  -- A connection that has a handle, and whose server can be reached if the handle is dead.
  abbrev pub IsReachable : SqlConnection → Type 0
  IsReachable c =
      (conn : ℕ) × (c.con ≡ some conn)
      × ((mysql_ping conn ≡ true) ⊎ ((new_conn : ℕ) × (mysql_real_connect conn ≡ some new_conn)))

  abbrev pub AreReachable : List SqlConnection → Type 0
  AreReachable [] = Unit {0}
  AreReachable (c ∷ cs) = IsReachable c × AreReachable cs

  -- What becomes of it: one that was used less than five seconds ago or answers stays, another is
  -- replaced.
  abbrev pub refreshed_handle : SqlConnection → Option ℕ → SqlConnection
  refreshed_handle c none = c
  refreshed_handle c (some conn) =
      if ltb now (c.last_oper_time + 5)
      then c
      else if mysql_ping conn
      then c
      else record { con = mysql_real_connect conn; last_oper_time = now }

  abbrev pub refreshed : SqlConnection → SqlConnection
  refreshed c = refreshed_handle c c.con

  check_one_reachable : (c : SqlConnection) → IsReachable c → check_one c ≡ returns (refreshed c)
  unfolding check_one ping_one reconnect
  check_one_reachable c (conn, some_conn, answer) = elim answer [
    | inl alive ↦ ground arith
    | inr (new_conn, e) ↦ ground arith
  ]

  -- The connections at the front are checked and go to the back.
  check_loop_reachable :
      (front back : List SqlConnection) (n k : ℕ)
      → k ≡ length front + n
      → AreReachable front
      → check_loop k (front ++ back) ≡ check_loop n (back ++ map refreshed front)
  unfolding check_loop
  check_loop_reachable [] back n k e h =
      let same : k ≡ n = omega arith in rw (same, append-nil back) refl
  check_loop_reachable (c ∷ front) back n zero e h = absurd (omega arith)
  check_loop_reachable (c ∷ front) back n (suc k) e h =
      rw (check_one_reachable c h.0, append_assoc front back (refreshed c ∷ []))
        (check_loop_reachable front (back ++ (refreshed c ∷ [])) n k (omega arith) h.1
          ∙ ap (check_loop n) (append_assoc back (refreshed c ∷ []) (map refreshed front)))

  -- A check that finds the server reachable ends, and leaves the pool with its connections in their
  -- order: those that are dead and were last used five seconds ago or more have a new handle and the
  -- present time, all others are as they were.
  pub check_connection_reachable :
      (connections : List SqlConnection)
      → AreReachable connections
      → check_connection (open_pool connections) ≡ returns (open_pool (map refreshed connections))
  unfolding check_connection check_loop
  check_connection_reachable connections h =
      let looped = check_loop_reachable connections [] 0 (length connections) (omega arith) h in
      rw
        (subst (λ l. check_loop (length connections) l ≡ check_loop 0 (map refreshed connections))
          (append-nil connections) looped)
        refl

  -- A dead connection that cannot be replaced makes the check undefined, wherever it stands in the
  -- pool: the message that is printed comes from the handle that has been closed.
  pub check_connection_unreachable :
      (front rest : List SqlConnection) (conn time : ℕ)
      → AreReachable front
      → time + 5 ≤ now
      → mysql_ping conn ≡ false
      → mysql_real_connect conn ≡ none
      → check_connection
          (open_pool (front ++ ((record { con = some conn; last_oper_time = time }) ∷ rest)))
        ≡ undefined
  unfolding check_connection
  check_connection_unreachable front rest conn time h old dead none_new =
      let c : SqlConnection = record { con = some conn; last_oper_time = time } in
      let total = length-append front (c ∷ rest) in
      rw
        (check_loop_reachable front (c ∷ rest) (suc (length rest)) (length (front ++ (c ∷ rest)))
          (omega arith) h)
        (rw (le→ltb now (time + 5) old, dead, none_new) refl)
