-- ===== src/Pool/Mysql.antt =====
-- MysqlDao.cpp: RegUser and CheckPwd, over the calls of the MySQL client library.
use boost_asio_threadpool.Base.{
  Bool, List, Option, [], bytes_eq, false, if◌then◌else◌, ltb, none, replicate, some, take, true, ℕ,
  ◌++◌, ◌∷◌,
}
use boost_asio_threadpool.Base.Outcome.{Outcome, returns, ◌>>=◌}
use boost_asio_threadpool.Pool.{Pool, get_connection, return_connection}

-- `SqlConnection`: the handle is null where connecting failed.
pub record SqlConnection : Type 0 where
  pub con : Option ℕ
  pub last_oper_time : ℕ

-- The calls of the library; each succeeds or fails.
pub data Command : Type 0 where
  start_transaction rollback commit : Command
  stmt_init prepare_check prepare_insert prepare_select : Command
  bind_param : List (List ℕ) → Command
  execute result_metadata bind_result fetch : Command
  free_result stmt_close : Command

-- The library and the server behind it: what a call answers, the count that a successful fetch of
-- the check has bound, the user's row (id, name, email, password) that a fetch of the select has
-- bound, and whether the error of the last statement speaks of a duplicate entry.
pub record Mysql : Type 1 where
  pub State : Type 0
  pub call : ℕ → Command → State → Bool × State
  pub fetched_count : ℕ → State → ℕ
  pub fetched_user : ℕ → State → ℕ × List ℕ × List ℕ × List ℕ
  pub no_data : ℕ → State → Bool
  pub duplicate_entry : ℕ → State → Bool

pub data RegResult : Type 0 where
  registered email_taken other_error : RegResult

-- `UserInfo`.
pub record UserInfo : Type 0 where
  pub name : List ℕ
  pub pwd : List ℕ
  pub uid : ℕ
  pub email : List ℕ

-- How the statement of CheckPwd ends; an exception finds the statement and the metadata made or not.
pub data Checked : Type 0 where
  not_found mismatch matched : Checked
  thrown : Bool → Bool → Checked

-- `resize(256)` of the three strings.
pub resize : ℕ → List ℕ → List ℕ
resize n s = take n (s ++ replicate n 0)

abbrev pub resized : UserInfo → UserInfo
resized info = record info {
  name = resize 256 info.name;
  pwd = resize 256 info.pwd;
  email = resize 256 info.email;
}

-- The calls of RegUser before the count is looked at, those of the insertion before its execution, and
-- those of CheckPwd between the statement's making and the binding of its result.
abbrev pub check_calls : List ℕ → List Command
check_calls email =
    start_transaction
    ∷ stmt_init
    ∷ prepare_check
    ∷ bind_param (email ∷ [])
    ∷ execute
    ∷ result_metadata
    ∷ bind_result
    ∷ fetch
    ∷ []

abbrev pub insert_calls : List ℕ → List ℕ → List ℕ → List ℕ → List Command
insert_calls name email pwd host =
    stmt_init ∷ prepare_insert ∷ bind_param (name ∷ pwd ∷ email ∷ host ∷ []) ∷ []

abbrev pub select_calls : List ℕ → List Command
select_calls email = prepare_select ∷ bind_param (email ∷ []) ∷ execute ∷ result_metadata ∷ []

module _ (m : Mysql) where
  open m use {State, call, fetched_count, fetched_user, no_data, duplicate_entry}

  -- Calls of which each is made only if the ones before it succeeded; a failure throws.
  unfoldable pub attempt : ℕ → List Command → State → Bool × State
  attempt conn [] s = (true, s)
  attempt conn (c ∷ cs) s =
      let (ok, s') = call conn c s in
      let rest = attempt conn cs s' in if ok then rest else (false, s')

  -- A `ROLLBACK`, whatever it answers, and the result.
  unfoldable pub roll_back : ℕ → RegResult → State → RegResult × State
  roll_back conn result s = (result, (call conn rollback s).1)

  -- From the `INSERT`'s execution on.
  unfoldable pub execute_insert : ℕ → State → RegResult × State
  execute_insert conn s =
      let (ok, s') = call conn execute s in
      let s'' = (call conn stmt_close s').1 in
      let (committed, s3) = call conn commit s'' in
      if ok
      then (if committed then (registered, s3) else roll_back conn other_error s3)
      else if duplicate_entry conn s'
      then roll_back conn email_taken s'
      else roll_back conn other_error s'

  -- From the fetched count on.
  unfoldable pub insert_user : ℕ → List ℕ → List ℕ → List ℕ → List ℕ → State → RegResult × State
  insert_user conn name email pwd host s =
      let s' = (call conn stmt_close (call conn free_result s).1).1 in
      let (ok, s'') = attempt conn (insert_calls name email pwd host) s' in
      if ltb 0 (fetched_count conn s)
      then roll_back conn email_taken s'
      else if ok
      then execute_insert conn s''
      else roll_back conn other_error s''

  -- The transaction on one connection.
  unfoldable pub register : ℕ → List ℕ → List ℕ → List ℕ → List ℕ → State → RegResult × State
  register conn name email pwd host s =
      let (ok, s') = attempt conn (check_calls email) s in
      if ok then insert_user conn name email pwd host s' else roll_back conn other_error s'

  -- What RegUser does with the connection it got. Each path returns before the clean-up at the end of
  -- the function, so that no connection goes back.
  unfoldable pub register_with :
      List ℕ → List ℕ → List ℕ → List ℕ → Option SqlConnection → State → RegResult × State
  register_with name email pwd host none s = (other_error, s)
  register_with name email pwd host (some c) s = elim c.con [
    | none ↦ (other_error, s)
    | some conn ↦ register conn name email pwd host s
  ]

  unfoldable pub reg_user :
      List ℕ
      → List ℕ
      → List ℕ
      → List ℕ
      → Pool SqlConnection
      → State
      → Outcome (RegResult × State × Pool SqlConnection)
  reg_user name email pwd host pool s = do
    (c, pool') ← get_connection pool
    let (result, s') = register_with name email pwd host c s
    returns (result, s', pool')

  -- `if (userInfo.pwd != pwd)`, on what the fetch has left.
  abbrev pub compare_pwd : List ℕ → UserInfo → State → Checked × UserInfo × State
  compare_pwd pwd info s = (if bytes_eq info.pwd pwd then matched else mismatch, info, s)

  -- How the statement of CheckPwd ends: by an exception, by one of the two early `return false`, or
  -- at the end of the `try`; with the caller's `UserInfo` and the server. Only MYSQL_NO_DATA is looked
  -- at: a fetch that fails in another way leaves the three lengths at 0.
  unfoldable pub check_row : ℕ → List ℕ → UserInfo → State → Checked × UserInfo × State
  check_row conn pwd info s =
      let (ok, s') = call conn fetch s in
      let row = fetched_user conn s' in
      let found =
        compare_pwd pwd (record { uid = row.0; name = row.1; email = row.2; pwd = row.3 }) s' in
      let unread = compare_pwd pwd (record info { name = []; email = []; pwd = [] }) s' in
      if no_data conn s' then (not_found, info, s') else if ok then found else unread

  unfoldable pub select_user : ℕ → List ℕ → List ℕ → UserInfo → State → Checked × UserInfo × State
  select_user conn email pwd info s =
      let (made, s0) = call conn stmt_init s in
      let (ok, s') = attempt conn (select_calls email) s0 in
      let (bound, s'') = call conn bind_result s' in
      let row = check_row conn pwd (resized info) s'' in
      if made
      then (if ok
          then (if bound then row else (thrown true true, resized info, s''))
          else (thrown true false, info, s'))
      else (thrown false false, info, s0)

  -- `if (stmt) mysql_stmt_close(stmt); if (meta) mysql_free_result(meta);`
  unfoldable pub clean : ℕ → Bool → Bool → State → State
  clean conn stmt meta s =
      let s' = if stmt then (call conn stmt_close s).1 else s in
      if meta then (call conn free_result s').1 else s'

  -- The connection goes back from the end of the function, not from the early returns; the result
  -- code is whether the password matched.
  unfoldable pub after_select :
      SqlConnection
      → Pool SqlConnection
      → ℕ
      → Checked × UserInfo × State
      → Bool × UserInfo × State × Pool SqlConnection
  after_select c pool conn (not_found, info, s) = (false, info, s, pool)
  after_select c pool conn (mismatch, info, s) = (false, info, s, pool)
  after_select c pool conn (thrown stmt meta, info, s) =
      (false, info, clean conn stmt meta s, return_connection c pool)
  after_select c pool conn (matched, info, s) =
      (true, info, clean conn true true s, return_connection c pool)

  unfoldable pub check_with :
      List ℕ
      → List ℕ
      → UserInfo
      → State
      → Option SqlConnection
      → Pool SqlConnection
      → Bool × UserInfo × State × Pool SqlConnection
  check_with email pwd info s none pool = (false, info, s, pool)
  check_with email pwd info s (some c) pool = elim c.con [
    | none ↦ (false, info, s, pool)
    | some conn ↦ after_select c pool conn (select_user conn email pwd info s)
  ]

  unfoldable pub check_pwd :
      List ℕ
      → List ℕ
      → UserInfo
      → Pool SqlConnection
      → State
      → Outcome (Bool × UserInfo × State × Pool SqlConnection)
  check_pwd email pwd info pool s = do
    (c, pool') ← get_connection pool
    returns (check_with email pwd info s c pool')
