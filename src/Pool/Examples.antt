-- ===== src/Pool/Examples.antt =====
-- The pools with one or two connections.
use boost_asio_threadpool.Base.{
  suc, ◌⊎◌, bytes_eq, Bool, List, Option, [], arith, false, none, refl, some, true, ℕ, ◌++◌, ◌∷◌,
  ◌≡◌,
}
use boost_asio_threadpool.Base.Outcome.{blocks, returns}
use boost_asio_threadpool.Samples.{hiredis, mysql}
use boost_asio_threadpool.Pool.{Pool, get_connection, open_pool, return_connection}
use boost_asio_threadpool.Pool.CheckPwd.{IsPassed, before_fetch, check_pwd-true}
use boost_asio_threadpool.Pool.Opening.{redis_con_pool, redis_con_pool_refused}
use boost_asio_threadpool.Pool.Commands.{
  Answer, command_of, reads_text, HadNoText, as_value, run_op, run_op_keeps, op_get,
}
use boost_asio_threadpool.Pool.Mysql.{
  after_select, attempt, check_with, clean, check_row, SqlConnection, UserInfo, check_pwd, register,
  select_user,
}
use boost_asio_threadpool.Pool.Redis.{
  answer, copy_str, get_reply, give_back, on_connection, redis_get, with_reply, is_kind,
}
use boost_asio_threadpool.Pool.RegUser.{IsEnded, reg_users, reg_users_block, register-IsEnded}

abbrev connection : SqlConnection
connection = record { con = some 4; last_oper_time = 0 }

-- The server answers on no handle, and opens handle 9 in place of handle 4.
abbrev silent : ℕ → Bool
silent conn = false

abbrev opens : ℕ → Option ℕ
opens conn = some 9

abbrev refuses : ℕ → Option ℕ
refuses conn = none

abbrev user : List ℕ × List ℕ × List ℕ × List ℕ
user = (1 ∷ [], 2 ∷ [], 3 ∷ [], 4 ∷ [])

register-IsEnded_example :
    IsEnded mysql 4
      (1 ∷ [])
      (2 ∷ [])
      (3 ∷ [])
      (4 ∷ [])
      0
      (register mysql 4 (1 ∷ []) (2 ∷ []) (3 ∷ []) (4 ∷ []) 0)
register-IsEnded_example = register-IsEnded mysql 4 (1 ∷ []) (2 ∷ []) (3 ∷ []) (4 ∷ []) 0

reg_users_block_example :
    reg_users mysql (user ∷ user ∷ []) (open_pool (connection ∷ [])) 0 ≡ blocks
reg_users_block_example = reg_users_block mysql (user ∷ user ∷ []) (connection ∷ []) 0 (omega arith)

abbrev info : UserInfo
info = record { name = []; pwd = []; uid = 0; email = [] }

run_get :
    run_op hiredis (op_get (1 ∷ [])) (open_pool (5 ∷ 6 ∷ [])) 0
    ≡ returns (as_value (some (65 ∷ [])), open_pool (6 ∷ 5 ∷ []), 1)
unfolding run_op redis_get get_connection with_reply on_connection answer give_back get_reply
    copy_str is_kind return_connection
run_get = refl

run_op_keeps_example :
    HadNoText hiredis (command_of (op_get (1 ∷ []))) (reads_text (op_get (1 ∷ []))) 5 0
    ⊎ ((a : Answer) × (s' : ℕ) × (run_op hiredis (op_get (1 ∷ [])) (open_pool (5 ∷ 6 ∷ [])) 0
          ≡ returns (a, open_pool ((6 ∷ []) ++ (5 ∷ [])), s')))
run_op_keeps_example = run_op_keeps hiredis (op_get (1 ∷ [])) 5 (6 ∷ []) 0

-- The login of the user that the sample database has.
check_login :
    check_pwd mysql (3 ∷ []) (3 ∷ []) info (open_pool (connection ∷ [])) 0
    ≡ returns (
      true,
      record { name = 1 ∷ []; pwd = 3 ∷ []; uid = 7; email = 2 ∷ [] },
      9,
      open_pool (connection ∷ []),
    )
unfolding check_pwd get_connection check_with after_select select_user attempt check_row bytes_eq
    clean return_connection
check_login = refl

check_pwd-true_example :
    IsPassed mysql 4 (3 ∷ []) (before_fetch mysql 4 (3 ∷ []) 0)
    × (open_pool (connection ∷ []) ≡ open_pool (connection ∷ []))
check_pwd-true_example =
    check_pwd-true mysql (3 ∷ []) (3 ∷ []) info 4 0 [] 0
      (record { name = 1 ∷ []; pwd = 3 ∷ []; uid = 7; email = 2 ∷ [] }) 9
      (open_pool (connection ∷ [])) check_login

-- A server whose contexts all have an error.
abbrev no_server : ℕ → Option (ℕ × Bool) × ℕ
no_server s = (some (s, true), suc s)

redis_con_pool_refused_example :
    (s' : ℕ) × (pool : Pool ℕ) × (redis_con_pool hiredis no_server 5 (112 ∷ []) 0
      ≡ returns (pool, s'))
    × (run_op hiredis (op_get (1 ∷ [])) pool 3 ≡ blocks)
redis_con_pool_refused_example =
    redis_con_pool_refused hiredis no_server 5 (112 ∷ []) 0 3 (op_get (1 ∷ [])) (λ t. refl)
