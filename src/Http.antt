-- ===== src/Http.antt =====
-- The HTTP side: HandleHttpProtocol of csession.cpp, HandleGet and HandlePost of logicsystem.cpp, and
-- the registration and the login of logicsystem.cpp.
pub mod Account
pub mod Routes
mod Examples
use boost_asio_threadpool.Base.{
  Bool, Bytes_eq, List, Option, [], false, true, bytes_eq, if◌then◌else◌, lookup, none, some, ℕ,
  ℕ_eq, ◌++◌, ◌∷◌,
}
use boost_asio_threadpool.Base.Outcome.{Outcome, returns, ◌>>=◌}
use boost_asio_threadpool.Pool.{Pool}
use boost_asio_threadpool.Pool.Mysql.{
  Mysql, RegResult, SqlConnection, UserInfo, check_pwd, email_taken, other_error, reg_user,
  registered,
}
use boost_asio_threadpool.Pool.Redis.{Hiredis, redis_get}
use boost_asio_threadpool.Session.{Effect, Role, clean_up}
use boost_asio_threadpool.UrlCode.Query.{Params, pre_parse_get_param}

pub data Method : Type 0 where
  get_method post_method other_method : Method

pub data Status : Type 0 where
  ok not_found_status bad_request : Status

pub data GetHandler : Type 0 where
  get_login get_test : GetHandler

pub data PostHandler : Type 0 where
  post_verifyemail post_userregister post_userlogin : PostHandler

-- The paths of the handlers, as bytes.
abbrev pub get_login_path : List ℕ
get_login_path = b'/' ∷ b'g' ∷ b'e' ∷ b't' ∷ b'_' ∷ b'l' ∷ b'o' ∷ b'g' ∷ b'i' ∷ b'n' ∷ []

abbrev pub get_test_path : List ℕ
get_test_path = b'/' ∷ b'g' ∷ b'e' ∷ b't' ∷ b'_' ∷ b't' ∷ b'e' ∷ b's' ∷ b't' ∷ []

abbrev pub post_verifyemail_path : List ℕ
post_verifyemail_path =
    b'/' ∷ b'p' ∷ b'o' ∷ b's' ∷ b't' ∷ b'_' ∷ b'v' ∷ b'e' ∷ b'r' ∷ b'i' ∷ b'f' ∷ b'y' ∷ b'e' ∷ b'm'
    ∷ b'a' ∷ b'i' ∷ b'l' ∷ []

abbrev pub post_userregister_path : List ℕ
post_userregister_path =
    b'/' ∷ b'p' ∷ b'o' ∷ b's' ∷ b't' ∷ b'_' ∷ b'u' ∷ b's' ∷ b'e' ∷ b'r' ∷ b'r' ∷ b'e' ∷ b'g' ∷ b'i'
    ∷ b's' ∷ b't' ∷ b'e' ∷ b'r' ∷ []

abbrev pub post_userlogin_path : List ℕ
post_userlogin_path =
    b'/' ∷ b'p' ∷ b'o' ∷ b's' ∷ b't' ∷ b'_' ∷ b'u' ∷ b's' ∷ b'e' ∷ b'r' ∷ b'l' ∷ b'o' ∷ b'g' ∷ b'i'
    ∷ b'n' ∷ []

-- RegistGet and RegistPost.
unfoldable pub get_handlers : List (List ℕ × GetHandler)
get_handlers = (get_login_path, get_login) ∷ (get_test_path, get_test) ∷ []

unfoldable pub post_handlers : List (List ℕ × PostHandler)
post_handlers =
    (post_verifyemail_path, post_verifyemail)
    ∷ (post_userregister_path, post_userregister)
    ∷ (post_userlogin_path, post_userlogin)
    ∷ []

-- What runs for a request.
pub data Served : Type 0 where
  by_get : GetHandler → Served
  by_post : PostHandler → Served
  by_none : Served

unfoldable pub handle_get : List ℕ → Option GetHandler
handle_get path = lookup path get_handlers

unfoldable pub handle_post : List ℕ → Option PostHandler
handle_post path = lookup path post_handlers

-- What a request ends in: the clean-up of the session, or one answer.
pub data Answer : Type 0 where
  cleans_up : List Effect → Answer
  answers : Status → Served → Answer

unfoldable pub get_answer : Option GetHandler → Answer
get_answer none = answers not_found_status by_none
get_answer (some handler) = answers ok (by_get handler)

unfoldable pub post_answer : Option PostHandler → Answer
post_answer none = answers not_found_status by_none
post_answer (some handler) = answers ok (by_post handler)

-- HandleHttpProtocol, after the transport's error and with the session's parameters: a GET is looked up
-- by the path that PreParseGetParam leaves, a POST by the whole target.
unfoldable pub handle_http_protocol :
    Bool → Role → Method → List ℕ → Params → Outcome (Params × Answer)
handle_http_protocol true role method target params = returns (params, cleans_up (clean_up role))
handle_http_protocol false role get_method target params = do
  (get_url, params') ← pre_parse_get_param target params
  returns (params', get_answer (handle_get get_url))
handle_http_protocol false role post_method target params = do
  (get_url, params') ← pre_parse_get_param target params
  returns (params', post_answer (handle_post target))
handle_http_protocol false role other_method target params =
    returns (params, answers bad_request by_none)

-- `ErrorCodes`, and the error 0.
abbrev pub success : ℕ
success = 0

abbrev pub error_json : ℕ
error_json = 1001

abbrev pub varify_expired : ℕ
varify_expired = 1003

abbrev pub varify_code_err : ℕ
varify_code_err = 1004

abbrev pub user_exist : ℕ
user_exist = 1005

abbrev pub passwd_err : ℕ
passwd_err = 1006

abbrev pub passwd_invalid : ℕ
passwd_invalid = 1009

-- The fields of the body that the handlers read; a missing one is the empty text.
pub record Fields : Type 0 where
  pub email : List ℕ
  pub user : List ℕ
  pub passwd : List ℕ
  pub confirm : List ℕ
  pub host : List ℕ
  pub varifycode : List ℕ

-- The result of RegUser as an error code: 0 for a user who is registered, and UserExist for all else.
unfoldable pub reg_code : RegResult → ℕ
reg_code registered = success
reg_code email_taken = user_exist
reg_code other_error = user_exist

-- `CODEPREFIX`.
abbrev pub codeprefix : List ℕ
codeprefix = b'c' ∷ b'o' ∷ b'd' ∷ b'e' ∷ b'_' ∷ []

module _ (h : Hiredis) (m : Mysql) where
  -- The two pools and the two servers behind them.
  pub record Stores : Type 0 where
    pub redis_pool : Pool ℕ
    pub redis : h.Server
    pub mysql_pool : Pool SqlConnection
    pub mysql : m.State

  -- RegUser of the checked fields.
  unfoldable pub register_user : Fields → Stores → Outcome (ℕ × Stores)
  register_user f s = do
    (result, mysql', pool') ← reg_user m f.user f.email f.passwd f.host s.mysql_pool s.mysql
    returns (reg_code result, record s { mysql_pool = pool'; mysql = mysql' })

  -- What the stored code decides.
  unfoldable pub check_code : Option (List ℕ) → Fields → Stores → Outcome (ℕ × Stores)
  check_code none f s = returns (varify_expired, s)
  check_code (some varify_code) f s =
      let next = register_user f s in
      if bytes_eq varify_code f.varifycode then next else returns (varify_code_err, s)

  -- Http_Post_UserRegister: the `error` of its answer. No fields: the body is no JSON.
  unfoldable pub http_post_user_register : Option Fields → Stores → Outcome (ℕ × Stores)
  http_post_user_register none s = returns (error_json, s)
  http_post_user_register (some f) s =
      let checked = (do
        (varify_code, pool', redis') ← redis_get h (codeprefix ++ f.email) s.redis_pool s.redis
        check_code varify_code f (record s { redis_pool = pool'; redis = redis' })) in
      if bytes_eq f.passwd f.confirm then checked else returns (passwd_err, s)

  -- Http_Post_UserLogin: the `error` of its answer, and the user where it is 0.
  unfoldable pub http_post_user_login :
      Option Fields → UserInfo → Stores → Outcome (ℕ × Option UserInfo × Stores)
  http_post_user_login none info s = returns (error_json, none, s)
  http_post_user_login (some f) info s = do
    (pwd_valid, info', mysql', pool') ← check_pwd m f.email f.passwd info s.mysql_pool s.mysql
    let s' = record s { mysql_pool = pool'; mysql = mysql' }
    returns (if pwd_valid then (success, some info', s') else (passwd_invalid, none, s'))
