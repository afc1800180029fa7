-- ===== src/Pool/RegUser.antt =====
-- RegUser of MysqlDao.cpp: its transaction, and what it does to the pool.
use boost_asio_threadpool.Base.{
  Bool-cases, List, [], ap, arith, inl, inr, length, ltb, refl, true, ℕ, ◌<◌, ◌∷◌, ◌≡◌,
}
use boost_asio_threadpool.Base.Outcome.{Outcome, blocks, returns, ◌>>=◌}
use boost_asio_threadpool.Pool.{Pool, get_connection, open_pool}
use boost_asio_threadpool.Pool.Mysql.{
  Mysql, RegResult, SqlConnection, attempt, check_calls, commit, email_taken, execute,
  execute_insert, free_result, insert_calls, insert_user, other_error, reg_user, register,
  registered, roll_back, rollback, stmt_close,
}

module _ (m : Mysql) where
  open m use {State, call, fetched_count, duplicate_entry}

  -- The states of the server at the fetched count, at the INSERT's execution, and at the COMMIT.
  abbrev pub at_count : ℕ → List ℕ → State → State
  at_count conn email s = (attempt m conn (check_calls email) s).1

  abbrev pub at_execute : ℕ → List ℕ → List ℕ → List ℕ → List ℕ → State → State
  at_execute conn name email pwd host s =
      let s' = (call conn stmt_close (call conn free_result (at_count conn email s)).1).1 in
      (attempt m conn (insert_calls name email pwd host) s').1

  abbrev pub at_commit : ℕ → List ℕ → List ℕ → List ℕ → List ℕ → State → State
  at_commit conn name email pwd host s =
      (call conn stmt_close (call conn execute (at_execute conn name email pwd host s)).1).1

  -- What each result means: for `registered` no row with the email was counted, and the INSERT and the
  -- COMMIT, the last call, succeeded; for the others the last call was a ROLLBACK, whatever it answered.
  abbrev pub IsEnded : ℕ → List ℕ → List ℕ → List ℕ → List ℕ → State → RegResult × State → Type 0
  IsEnded conn name email pwd host s (registered, s') =
      (fetched_count conn (at_count conn email s) ≡ 0)
      × ((call conn execute (at_execute conn name email pwd host s)).0 ≡ true)
      × (call conn commit (at_commit conn name email pwd host s) ≡ (true, s'))
  IsEnded conn name email pwd host s (email_taken, s') =
      (t : State) × (s' ≡ (call conn rollback t).1)
  IsEnded conn name email pwd host s (other_error, s') =
      (t : State) × (s' ≡ (call conn rollback t).1)

  module _ (conn : ℕ) (name email pwd host : List ℕ) (s : State) where
    execute_insert-IsEnded :
        fetched_count conn (at_count conn email s) ≡ 0
        → IsEnded conn name email pwd host s
            (execute_insert m conn (at_execute conn name email pwd host s))
    unfolding execute_insert roll_back
    execute_insert-IsEnded none_yet =
        let t = at_execute conn name email pwd host s in
        let t' = (call conn execute t).1 in
        let t'' = at_commit conn name email pwd host s in
        elim (Bool-cases (call conn execute t).0) [
          | inl ok ↦ elim (Bool-cases (call conn commit t'').0) [
            | inl done ↦ rw (ok, done) (none_yet, ok, ap (λ b. (b, (call conn commit t'').1)) done)
            | inr failed ↦ rw (ok, failed) (_, refl)
          ]
          | inr failed ↦ elim (Bool-cases (duplicate_entry conn t')) [
            | inl duplicate ↦ rw (failed, duplicate) (_, refl)
            | inr other ↦ rw (failed, other) (_, refl)
          ]
        ]

    insert_user-IsEnded :
        IsEnded conn name email pwd host s
          (insert_user m conn name email pwd host (at_count conn email s))
    unfolding insert_user roll_back
    insert_user-IsEnded =
        let t = at_count conn email s in
        let t' = (call conn stmt_close (call conn free_result t).1).1 in
        elim (Bool-cases (ltb 0 (fetched_count conn t))) [
          | inl found ↦ rw found (_, refl)
          | inr fresh ↦ elim (Bool-cases (attempt m conn (insert_calls name email pwd host) t').0) [
            | inl ok ↦ rw (fresh, ok) (execute_insert-IsEnded (ground (arith, fresh)))
            | inr failed ↦ rw (fresh, failed) (_, refl)
          ]
        ]

    -- Whatever the calls answer, RegUser says `registered` only where no row with the email was
    -- counted, its INSERT succeeded and its last call was a COMMIT that succeeded; with every other
    -- result its last call was a ROLLBACK, whose answer it does not look at.
    pub register-IsEnded :
        IsEnded conn name email pwd host s (register m conn name email pwd host s)
    unfolding register roll_back
    register-IsEnded = elim (Bool-cases (attempt m conn (check_calls email) s).0) [
      | inl ok ↦ rw ok insert_user-IsEnded
      | inr failed ↦ rw failed (_, refl)
    ]

  -- Registrations one after the other, of name, email, password and host.
  pub reg_users :
      List (List ℕ × List ℕ × List ℕ × List ℕ)
      → Pool SqlConnection
      → State
      → Outcome (State × Pool SqlConnection)
  reg_users [] pool s = returns (s, pool)
  reg_users ((name, email, pwd, host) ∷ users) pool s = do
    (result, s', pool') ← reg_user m name email pwd host pool s
    reg_users users pool' s'

  -- No registration gives its connection back, whatever the server answers: with more users to register
  -- than connections in the pool, one of them waits forever.
  pub reg_users_block :
      (users : List (List ℕ × List ℕ × List ℕ × List ℕ)) (connections : List SqlConnection)
      (s : State)
      → length connections < length users
      → reg_users users (open_pool connections) s ≡ blocks
  unfolding reg_users reg_user get_connection
  reg_users_block [] connections s h = absurd (omega arith)
  reg_users_block ((name, email, pwd, host) ∷ users) [] s h = refl
  reg_users_block ((name, email, pwd, host) ∷ users) (c ∷ connections) s h =
      reg_users_block users connections _ (omega arith)
