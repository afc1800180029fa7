-- ===== src/Http/Examples.antt =====
-- A registration that succeeds, and a request with a parameter.
use boost_asio_threadpool.Base.{
  arith, false, insert, lookup, [], bytes_eq, refl, some, ℕ, ◌++◌, ◌∷◌, ◌≡◌,
}
use boost_asio_threadpool.Base.Outcome.{returns}
use boost_asio_threadpool.Samples.{hiredis, mysql}
use boost_asio_threadpool.Pool.{Pool, get_connection, open_pool, return_connection}
use boost_asio_threadpool.Pool.Mysql.{
  SqlConnection, attempt, execute_insert, insert_user, reg_user, register, register_with,
  registered, roll_back,
}
use boost_asio_threadpool.Pool.Redis.{
  answer, copy_str, get_reply, give_back, is_kind, on_connection, redis_get, with_reply,
}
use boost_asio_threadpool.Http.{
  Fields, Stores, check_code, codeprefix, http_post_user_register, reg_code, register_user, success,
}
use boost_asio_threadpool.Http.{
  answers, by_get, by_none, get_answer, get_handlers, get_method, get_test, get_test_path,
  handle_get, handle_http_protocol, not_found_status, ok, post_method,
}
use boost_asio_threadpool.Http.Routes.{handle_http_protocol-encode, is_lacking-Lacks}
use boost_asio_threadpool.Session.{server}
use boost_asio_threadpool.UrlCode.Query.{Lacks, encode_query}
use boost_asio_threadpool.Http.Account.{http_post_user_register-success}

abbrev fields : Fields
fields = record {
  email = 1 ∷ [];
  user = 2 ∷ [];
  passwd = 3 ∷ [];
  confirm = 3 ∷ [];
  host = 4 ∷ [];
  varifycode = 65 ∷ [];
}

abbrev stores : Stores hiredis mysql
stores = record {
  redis_pool = open_pool (5 ∷ []);
  redis = 0;
  mysql_pool = open_pool ((record { con = some 4; last_oper_time = 0 }) ∷ []);
  mysql = 0;
}

abbrev stores_after : Stores hiredis mysql
stores_after = record {
  redis_pool = open_pool (5 ∷ []);
  redis = 1;
  mysql_pool = open_pool [];
  mysql = 16;
}

registers :
    http_post_user_register hiredis mysql (some fields) stores ≡ returns (success, stores_after)
unfolding http_post_user_register check_code register_user reg_code bytes_eq redis_get
    get_connection with_reply on_connection answer give_back get_reply copy_str is_kind
    return_connection reg_user register_with register attempt insert_user execute_insert roll_back
registers = refl

http_post_user_register-success_example :
    (fields.passwd ≡ fields.confirm)
    × ((pool' : Pool ℕ) × (redis' : ℕ) × (mysql' : ℕ) × (mysql_pool' : Pool SqlConnection)
        × (redis_get hiredis (codeprefix ++ fields.email) stores.redis_pool stores.redis
            ≡ returns (some fields.varifycode, pool', redis'))
        × (reg_user mysql fields.user fields.email fields.passwd fields.host stores.mysql_pool
              stores.mysql
            ≡ returns (registered, mysql', mysql_pool')))
http_post_user_register-success_example =
    http_post_user_register-success hiredis mysql fields stores stores_after registers

no_mark : Lacks b'?' get_test_path
no_mark = is_lacking-Lacks b'?' get_test_path refl

handle_http_protocol-encode_example :
    (handle_http_protocol false server get_method
        (get_test_path ++ (b'?' ∷ encode_query ((97 ∷ [], 61 ∷ []) ∷ [])))
        []
      ≡ returns ((97 ∷ [], 61 ∷ []) ∷ [], answers ok (by_get get_test)))
    × (handle_http_protocol false server post_method
          (get_test_path ++ (b'?' ∷ encode_query ((97 ∷ [], 61 ∷ []) ∷ [])))
          []
        ≡ returns ((97 ∷ [], 61 ∷ []) ∷ [], answers not_found_status by_none))
unfolding insert get_answer handle_get get_handlers lookup bytes_eq
handle_http_protocol-encode_example =
    handle_http_protocol-encode server get_test_path ((97 ∷ [], 61 ∷ []) ∷ []) [] no_mark
      ((omega arith, tt), (omega arith, tt), tt)
