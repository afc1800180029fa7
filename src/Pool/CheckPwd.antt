-- ===== src/Pool/CheckPwd.antt =====
-- CheckPwd of MysqlDao.cpp: when it says yes, and what it does to the pool.
use boost_asio_threadpool.Base.{
  Bool-cases, inl, inr, ◌⊎◌, if◌then◌else◌, bytes_eq, List, Option, [], ap, arith, bytes_eq_iff,
  false, length, none, refl, some, suc, sym, true, zero, ℕ, ◌++◌, ◌<◌, ◌∷◌, ◌≡◌,
}
use boost_asio_threadpool.Base.Outcome.{Outcome, blocks, returns, returns-injective, ◌>>=◌}
use boost_asio_threadpool.Pool.{Pool, get_connection, open_pool, return_connection}
use boost_asio_threadpool.Pool.Mysql.{
  Checked, Mysql, SqlConnection, UserInfo, after_select, attempt, bind_result, check_pwd, check_row,
  check_with, fetch, matched, mismatch, not_found, resized, select_calls, select_user, stmt_init,
  thrown,
}
use mathlib.Core.Bool.{false≢true}

module _ (m : Mysql) where
  open m use {State, call, fetched_user, no_data}

  -- The server's state when CheckPwd fetches the row.
  abbrev pub before_fetch : ℕ → List ℕ → State → State
  before_fetch conn email s =
      let s' = (attempt m conn (select_calls email) (call conn stmt_init s).1).1 in
      (call conn bind_result s').1

  -- The fetch gave a row whose password is this one, or it failed and this password is empty.
  abbrev pub IsPassed : ℕ → List ℕ → State → Type 0
  IsPassed conn pwd s =
      let (ok, s') = call conn fetch s in
      (no_data conn s' ≡ false)
      × (((ok ≡ true) × ((fetched_user conn s').3 ≡ pwd)) ⊎ ((ok ≡ false) × (pwd ≡ [])))

  check_row-matched :
      (conn : ℕ) (pwd : List ℕ) (info : UserInfo) (s : State)
      → (check_row m conn pwd info s).0 ≡ matched
      → IsPassed conn pwd s
  unfolding check_row
  check_row-matched conn pwd info s h =
      let s' = (call conn fetch s).1 in
      elim (Bool-cases (no_data conn s')) [
        | inl gone ↦ let wrong : not_found ≡ matched = rw gone at h in cc
        | inr there ↦ elim (Bool-cases (call conn fetch s).0) [
          | inl ok ↦ (there, inl (ok, by_pwd (fetched_user conn s').3 pwd (rw (there, ok) at h)))
          | inr failed ↦ (there, inr (failed, sym (by_pwd [] pwd (rw (there, failed) at h))))
        ]
      ]
    where
      by_pwd :
          (stored given : List ℕ)
          → (if bytes_eq stored given then matched else mismatch) ≡ matched
          → stored ≡ given
      by_pwd stored given h = elim (Bool-cases (bytes_eq stored given)) [
        | inl same ↦ (bytes_eq_iff stored given).0 same
        | inr other ↦ let wrong : mismatch ≡ matched = rw other at h in cc
      ]

  select_user-matched :
      (conn : ℕ) (email pwd : List ℕ) (info : UserInfo) (s : State)
      → (select_user m conn email pwd info s).0 ≡ matched
      → IsPassed conn pwd (before_fetch conn email s)
  unfolding select_user
  select_user-matched conn email pwd info s h =
      let made = (call conn stmt_init s).0 in
      let ran = attempt m conn (select_calls email) (call conn stmt_init s).1 in
      let bound = (call conn bind_result ran.1).0 in
      elim (Bool-cases made) [
        | inr failed ↦ let wrong : thrown false false ≡ matched = rw failed at h in cc
        | inl made_ ↦ elim (Bool-cases ran.0) [
          | inr failed ↦ let wrong : thrown true false ≡ matched = rw (made_, failed) at h in cc
          | inl ran_ ↦ elim (Bool-cases bound) [
            | inr failed ↦
                let wrong : thrown true true ≡ matched = rw (made_, ran_, failed) at h in cc
            | inl bound_ ↦
                check_row-matched conn pwd (resized info) (before_fetch conn email s)
                  (rw (made_, ran_, bound_) at h)
          ]
        ]
      ]

  after_select-true :
      (c : SqlConnection) (rest : List SqlConnection) (conn : ℕ) (P : Type 0)
      → (r : Checked × UserInfo × State) → (r.0 ≡ matched → P)
      → (info' : UserInfo) (s' : State) (pool' : Pool SqlConnection)
      → after_select m c (open_pool rest) conn r ≡ (true, info', s', pool')
      → P × (pool' ≡ open_pool (rest ++ (c ∷ [])))
  unfolding after_select return_connection
  after_select-true c rest conn P (not_found, info, s) k info' s' pool' e =
      absurd (false≢true (ap (λ r. r.0) e))
  after_select-true c rest conn P (mismatch, info, s) k info' s' pool' e =
      absurd (false≢true (ap (λ r. r.0) e))
  after_select-true c rest conn P (thrown b d, info, s) k info' s' pool' e =
      absurd (false≢true (ap (λ r. r.0) e))
  after_select-true c rest conn P (matched, info, s) k info' s' pool' e =
      (k refl, sym (ap (λ r. r.3) e))

  -- Where CheckPwd says yes, the row that it has fetched has the given password, or its fetch failed with
  -- another code than MYSQL_NO_DATA and the given password is empty; and the connection is back in the
  -- pool.
  pub check_pwd-true :
      (email pwd : List ℕ) (info : UserInfo) (conn time : ℕ) (rest : List SqlConnection) (s : State)
      → (info' : UserInfo) (s' : State) (pool' : Pool SqlConnection)
      → check_pwd m email pwd info
          (open_pool ((record { con = some conn; last_oper_time = time }) ∷ rest))
          s
        ≡ returns (true, info', s', pool')
      → IsPassed conn pwd (before_fetch conn email s)
        × (pool' ≡ open_pool (rest ++ ((record { con = some conn; last_oper_time = time }) ∷ [])))
  unfolding check_pwd check_with get_connection
  check_pwd-true email pwd info conn time rest s info' s' pool' e =
      after_select-true _ rest conn (IsPassed conn pwd (before_fetch conn email s))
        (select_user m conn email pwd info s) (select_user-matched conn email pwd info s) info' s'
        pool' (returns-injective e)

  -- Logins one after the other, with one email and one password.
  pub check_pwds : ℕ → List ℕ → List ℕ → UserInfo → Pool SqlConnection → State → Outcome State
  check_pwds zero email pwd info pool s = returns s
  check_pwds (suc n) email pwd info pool s = do
    (ok, info', s', pool') ← check_pwd m email pwd info pool s
    check_pwds n email pwd info' pool' s'

  after_select_mismatch :
      (c : SqlConnection) (pool : Pool SqlConnection) (conn : ℕ) (r : Checked × UserInfo × State)
      → r.0 ≡ mismatch
      → after_select m c pool conn r ≡ (false, r.1, r.2, pool)
  unfolding after_select
  after_select_mismatch c pool conn r h = rw h refl

  check_with_mismatch :
      (email pwd : List ℕ) (info : UserInfo) (c : SqlConnection) (rest : List SqlConnection)
      (s : State)
      → ((conn : ℕ) (info' : UserInfo) (t : State)
          → (select_user m conn email pwd info' t).0 ≡ mismatch)
      → (con : Option ℕ) → c.con ≡ con
      → (info' : UserInfo) × (s' : State) × (check_with m email pwd info s (some c) (open_pool rest)
          ≡ (false, info', s', open_pool rest))
  unfolding check_with
  check_with_mismatch email pwd info c rest s wrong none h = (info, s, rw h refl)
  check_with_mismatch email pwd info c rest s wrong (some conn) h =
      let info'' = (select_user m conn email pwd info s).1 in
      let s'' = (select_user m conn email pwd info s).2 in
      (
        info'',
        s'',
        rw h (
            after_select_mismatch c (open_pool rest) conn (select_user m conn email pwd info s)
              (wrong conn info s)),
      )

  -- A login with a wrong password does not give its connection back: if the database finds the user
  -- but never this password, more such logins than the pool has connections end in one that waits
  -- forever.
  pub check_pwds_block :
      (n : ℕ) (email pwd : List ℕ) (info : UserInfo) (connections : List SqlConnection) (s : State)
      → ((conn : ℕ) (info' : UserInfo) (t : State)
          → (select_user m conn email pwd info' t).0 ≡ mismatch)
      → length connections < n
      → check_pwds n email pwd info (open_pool connections) s ≡ blocks
  unfolding check_pwds check_pwd get_connection
  check_pwds_block zero email pwd info connections s wrong h = absurd (omega arith)
  check_pwds_block (suc n) email pwd info [] s wrong h = refl
  check_pwds_block (suc n) email pwd info (c ∷ connections) s wrong h =
      let (info', s', e) = check_with_mismatch email pwd info c connections s wrong c.con refl in
      rw e (check_pwds_block n email pwd info' connections s' wrong (omega arith))
