-- ===== src/Http/Account.antt =====
-- What a successful registration and a successful login rest on.
use boost_asio_threadpool.Base.{
  Bool-cases, List, Option, ap, arith, bytes_eq, bytes_eq_iff, inl, inr, none, refl, some, ℕ, ◌++◌,
  ◌∙◌, ◌≡◌,
}
use boost_asio_threadpool.Base.Outcome.{>>=-eq-returns, returns, returns-injective}
use boost_asio_threadpool.Http.{
  Fields, Stores, check_code, codeprefix, http_post_user_register, passwd_err, reg_code,
  register_user, success, varify_code_err, varify_expired,
}
use boost_asio_threadpool.Pool.{Pool}
use boost_asio_threadpool.Pool.Mysql.{
  Mysql, RegResult, SqlConnection, email_taken, other_error, reg_user, registered,
}
use boost_asio_threadpool.Pool.Redis.{Hiredis, redis_get}

reg_code-registered : (r : RegResult) → reg_code r ≡ success → r ≡ registered
unfolding reg_code
reg_code-registered registered e = refl
reg_code-registered email_taken e = absurd (omega arith)
reg_code-registered other_error e = absurd (omega arith)

module _ (h : Hiredis) (m : Mysql) where
  register_user-registered :
      (f : Fields) (s s' : Stores h m)
      → register_user h m f s ≡ returns (success, s')
      → (mysql' : m.State) × (pool' : Pool SqlConnection) × (reg_user m f.user f.email f.passwd
            f.host s.mysql_pool s.mysql
          ≡ returns (registered, mysql', pool'))
  unfolding register_user
  register_user-registered f s s' e =
      let ((result, mysql', pool'), g, k) =
        >>=-eq-returns (reg_user m f.user f.email f.passwd f.host s.mysql_pool s.mysql) _ e in
      let done = reg_code-registered result (ap (λ r. r.0) (returns-injective k)) in
      (mysql', pool', g ∙ ap (λ r. returns (r, mysql', pool')) done)

  check_code-registered :
      (code : Option (List ℕ)) (f : Fields) (s s' : Stores h m)
      → check_code h m code f s ≡ returns (success, s')
      → (code ≡ some f.varifycode)
        × ((mysql' : m.State) × (pool' : Pool SqlConnection) × (reg_user m f.user f.email f.passwd
                f.host s.mysql_pool s.mysql
              ≡ returns (registered, mysql', pool')))
  unfolding check_code
  check_code-registered none f s s' e =
      let wrong : varify_expired ≡ success = ap (λ r. r.0) (returns-injective e) in
      absurd (omega arith)
  check_code-registered (some code) f s s' e = elim (Bool-cases (bytes_eq code f.varifycode)) [
    | inl same ↦ (
      ap some ((bytes_eq_iff code f.varifycode).0 same),
      register_user-registered f s s' (rw same at e),
    )
    | inr other ↦
        let wrong : varify_code_err ≡ success = ap (λ r. r.0) (returns-injective (rw other at e)) in
        absurd (omega arith)
  ]

  -- A registration that answers with 0 has passed every check: the two passwords are the same, the
  -- server holds a code for the email, that code is the one given, and RegUser said `registered`.
  pub http_post_user_register-success :
      (f : Fields) (s s' : Stores h m)
      → http_post_user_register h m (some f) s ≡ returns (success, s')
      → (f.passwd ≡ f.confirm)
        × ((pool' : Pool ℕ) × (redis' : h.Server) × (mysql' : m.State) × (mysql_pool' : Pool
              SqlConnection)
            × (redis_get h (codeprefix ++ f.email) s.redis_pool s.redis
                ≡ returns (some f.varifycode, pool', redis'))
            × (reg_user m f.user f.email f.passwd f.host s.mysql_pool s.mysql
                ≡ returns (registered, mysql', mysql_pool')))
  unfolding http_post_user_register
  http_post_user_register-success f s s' e = elim (Bool-cases (bytes_eq f.passwd f.confirm)) [
    | inl same ↦
        let ((code, pool', redis'), g, k) =
          >>=-eq-returns (redis_get h (codeprefix ++ f.email) s.redis_pool s.redis) _
            (rw same at e) in
        let (given, (mysql', mysql_pool', r)) =
          check_code-registered code f (record s { redis_pool = pool'; redis = redis' }) s' k in
        (
          (bytes_eq_iff f.passwd f.confirm).0 same,
          (pool', redis', mysql', mysql_pool', g ∙ ap (λ c. returns (c, pool', redis')) given, r),
        )
    | inr other ↦
        let wrong : passwd_err ≡ success = ap (λ r. r.0) (returns-injective (rw other at e)) in
        absurd (omega arith)
  ]
