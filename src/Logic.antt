-- ===== src/Logic.antt =====
-- logicsystem.cpp: the queue of received messages, its worker DealMsg, and the table of handlers that
-- RegisterCallBacks fills.
pub mod Table
pub mod Queue
pub mod Protocol
mod Examples
use boost_asio_threadpool.Base.{
  Bool, Bytes_eq, List, String_eq, [], false, if◌then◌else◌, length, lookup, none, some, true, ℕ,
  ℕ_eq, ◌++◌, ◌==◌, ◌∷◌,
}
use boost_asio_threadpool.Base.Outcome.{Outcome, blocks, returns}
use boost_asio_threadpool.Session.{Role, client, server}

-- What a handler is called; the ones of the table.
pub data Handler : Type 0 where
  client_send_test server_send_test client_return : Handler
  request_upload handle_reject_upload handle_upload_request handle_file_upload : Handler
  handle_data server_handle_final_bag client_handle_final_bag : Handler
  send_verify_code_ receive_verify_code send_damaged_hash_block server_handle_damaged_hash_bag :
      Handler
  handle_re_transmit_ finish_upload re_check_file request_download : Handler

-- `MSG_IDS`, as far as a table names them.
abbrev pub test : ℕ
test = 1001

abbrev pub echo : ℕ
echo = 1002

abbrev pub back : ℕ
back = 1003

abbrev pub file_upload_request : ℕ
file_upload_request = 2001

abbrev pub file_download_request : ℕ
file_download_request = 2002

abbrev pub request_file_id : ℕ
request_file_id = 2003

abbrev pub reject_upload : ℕ
reject_upload = 2005

abbrev pub start_upload : ℕ
start_upload = 2006

abbrev pub file_data_bag : ℕ
file_data_bag = 2007

abbrev pub file_finish : ℕ
file_finish = 2009

abbrev pub tell_lost_bag : ℕ
tell_lost_bag = 2010

abbrev pub file_complete : ℕ
file_complete = 2012

abbrev pub server_recev_final : ℕ
server_recev_final = 2013

abbrev pub request_verify : ℕ
request_verify = 2014

abbrev pub verify_code : ℕ
verify_code = 2015

abbrev pub send_damaged_block : ℕ
send_damaged_block = 2016

abbrev pub re_tran_damaged_hash : ℕ
re_tran_damaged_hash = 2017

abbrev pub re_trans_lost_bag_finished : ℕ
re_trans_lost_bag_finished = 2018

-- `m_ClientFunCallBacks` and `m_ServerFunCallBacks` after RegisterCallBacks.
unfoldable pub client_fun_call_backs : List (ℕ × Handler)
client_fun_call_backs =
    (test, client_send_test)
    ∷ (back, client_return)
    ∷ (file_upload_request, request_upload)
    ∷ (reject_upload, handle_reject_upload)
    ∷ (start_upload, handle_file_upload)
    ∷ (server_recev_final, client_handle_final_bag)
    ∷ (request_verify, send_verify_code_)
    ∷ (send_damaged_block, send_damaged_hash_block)
    ∷ (tell_lost_bag, handle_re_transmit_)
    ∷ (file_complete, finish_upload)
    ∷ (file_download_request, request_download)
    ∷ []

unfoldable pub server_fun_call_backs : List (ℕ × Handler)
server_fun_call_backs =
    (echo, server_send_test)
    ∷ (request_file_id, handle_upload_request)
    ∷ (file_data_bag, handle_data)
    ∷ (file_finish, server_handle_final_bag)
    ∷ (verify_code, receive_verify_code)
    ∷ (re_tran_damaged_hash, server_handle_damaged_hash_bag)
    ∷ (re_trans_lost_bag_finished, re_check_file)
    ∷ (file_download_request, request_download)
    ∷ []

unfoldable pub call_backs : Role → List (ℕ × Handler)
call_backs server = server_fun_call_backs
call_backs client = client_fun_call_backs

-- `LogicNode`: the session's role, and the message with its text.
pub record LogicNode : Type 0 where
  pub role : Role
  pub msg_id : ℕ
  pub text : List ℕ

-- The queue, the stop flag, and the handlers called so far, each with its text, in order.
pub record LogicSystem : Type 0 where
  pub meg_que : List LogicNode
  pub stop : Bool
  pub calls : List (Handler × List ℕ)

-- PostMesgToQue; the flag says whether the worker is notified.
unfoldable pub post_mesg_to_que : LogicNode → LogicSystem → LogicSystem × Bool
post_mesg_to_que node l =
    let meg_que' = l.meg_que ++ (node ∷ []) in
    (record l { meg_que = meg_que' }, length meg_que' == 1)

-- What the worker does with the front message: the handler of its number in its side's table, if any.
unfoldable pub call_handler : LogicNode → List (Handler × List ℕ)
call_handler node = elim (lookup node.msg_id (call_backs node.role)) [
  | none ↦ []
  | some handler ↦ (handler, node.text) ∷ []
]

unfoldable pub deal_front : LogicSystem → LogicNode → List LogicNode → LogicSystem
deal_front l node rest = record l { meg_que = rest; calls = l.calls ++ call_handler node }

-- The loop of DealMsg once it is stopped: until the queue is empty.
unfoldable pub drain : List LogicNode → LogicSystem → LogicSystem
drain [] l = record l { meg_que = [] }
drain (node ∷ rest) l = drain rest (deal_front l node rest)

-- One turn of DealMsg, with whether the worker goes on; an empty queue without a stop is waited on.
unfoldable pub deal_one : List LogicNode → LogicSystem → Outcome (LogicSystem × Bool)
deal_one [] l = blocks
deal_one (node ∷ rest) l = returns (deal_front l node rest, true)

unfoldable pub deal_msg : LogicSystem → Outcome (LogicSystem × Bool)
deal_msg l =
    let one = deal_one l.meg_que l in if l.stop then returns (drain l.meg_que l, false) else one
