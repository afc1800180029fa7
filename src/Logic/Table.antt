-- ===== src/Logic/Table.antt =====
-- The tables of RegisterCallBacks: who sends which message, and who can take it.
use boost_asio_threadpool.Base.{
  Bool, Bool-cases, Bytes_eq, List, String_eq, [], false, if◌then◌else◌, inl, inr, lookup, none,
  refl, some, true, ℕ, ℕ_eq, ◌==◌, ◌∷◌, ◌≡◌,
}
use boost_asio_threadpool.Logic.{
  Handler, back, call_backs, client_fun_call_backs, client_send_test, echo, file_data_bag,
  file_finish, handle_data, handle_file_upload, handle_re_transmit_, handle_upload_request,
  re_check_file, re_tran_damaged_hash, re_trans_lost_bag_finished, receive_verify_code,
  reject_upload, request_file_id, request_upload, send_damaged_block, send_damaged_hash_block,
  send_verify_code_, server_fun_call_backs, server_handle_damaged_hash_bag, server_handle_final_bag,
  server_recev_final, server_send_test, start_upload, verify_code,
}
use boost_asio_threadpool.Session.{Role, client, server}
use mathlib.Core.Bool.{false≢true}
use boost_asio_threadpool.Logic.{file_complete, request_verify, tell_lost_bag}

-- The messages that each handler sends to the other side, and, for the server, those that the threads
-- it starts send: FinalCheck and VerifyHash of file.cpp for `file_finish`, the lost bags and the codes,
-- and SendFile of file.cpp for the client's `start_upload`.
unfoldable pub sends_of : Handler → List ℕ
sends_of client_send_test = echo ∷ []
sends_of server_send_test = back ∷ []
sends_of request_upload = request_file_id ∷ []
sends_of handle_upload_request = reject_upload ∷ start_upload ∷ []
sends_of handle_file_upload = file_data_bag ∷ file_finish ∷ []
sends_of handle_data = tell_lost_bag ∷ []
sends_of server_handle_final_bag =
    server_recev_final ∷ tell_lost_bag ∷ request_verify ∷ file_complete ∷ []
sends_of send_verify_code_ = verify_code ∷ []
sends_of receive_verify_code = send_damaged_block ∷ []
sends_of send_damaged_hash_block = re_tran_damaged_hash ∷ []
sends_of handle_re_transmit_ = file_data_bag ∷ re_trans_lost_bag_finished ∷ []
sends_of re_check_file = tell_lost_bag ∷ request_verify ∷ file_complete ∷ []
sends_of server_handle_damaged_hash_bag = file_complete ∷ request_verify ∷ []
sends_of handler = []

abbrev pub peer : Role → Role
peer server = client
peer client = server

unfoldable pub is_handled : Role → ℕ → Bool
is_handled role msg_id = elim (lookup msg_id (call_backs role)) [
  | none ↦ false
  | some handler ↦ true
]

unfoldable pub all_handled : Role → List ℕ → Bool
all_handled role [] = true
all_handled role (n ∷ ns) =
    let more = all_handled role ns in if is_handled role n then more else false

unfoldable pub all_served : Role → List (ℕ × Handler) → Bool
all_served role [] = true
all_served role ((n, handler) ∷ table) =
    let more = all_served role table in
    if all_handled (peer role) (sends_of handler) then more else false

same_handler :
    (role : Role) (f handler : Handler)
    → all_handled (peer role) (sends_of f) ≡ true
    → some f ≡ some handler
    → all_handled (peer role) (sends_of handler) ≡ true
same_handler role f handler ok e = cc

all_served-lookup :
    (role : Role) (table : List (ℕ × Handler)) (msg_id : ℕ) (handler : Handler)
    → all_served role table ≡ true
    → lookup msg_id table ≡ some handler
    → all_handled (peer role) (sends_of handler) ≡ true
unfolding all_served lookup
all_served-lookup role [] msg_id handler h e = cc
all_served-lookup role ((n, f) ∷ table) msg_id handler h e =
    elim (Bool-cases (all_handled (peer role) (sends_of f))) [
      | inl ok ↦ elim (Bool-cases (n == msg_id)) [
        | inl here ↦ same_handler role f handler ok (rw here at e)
        | inr there ↦ all_served-lookup role table msg_id handler (rw ok at h) (rw there at e)
      ]
      | inr bad ↦ absurd (false≢true (rw bad at h))
    ]

-- Every message that a registered handler sends has a handler in the table of the side that gets it.
pub sends_of-handled :
    (role : Role) (msg_id : ℕ) (handler : Handler)
    → lookup msg_id (call_backs role) ≡ some handler
    → all_handled (peer role) (sends_of handler) ≡ true
unfolding call_backs client_fun_call_backs server_fun_call_backs all_served all_handled sends_of
    is_handled lookup
sends_of-handled server msg_id handler h =
    all_served-lookup server (call_backs server) msg_id handler refl h
sends_of-handled client msg_id handler h =
    all_served-lookup client (call_backs client) msg_id handler refl h
