-- ===== src/Finish.antt =====
-- FileToSend of file.cpp and ClientHandleFinalBag of logicsystem.cpp: the client says that it has sent
-- a file, and says it again every 20 seconds until the server has answered.
pub mod Repeat
mod Examples
use boost_asio_threadpool.Base.{
  Bool, List, Option, [], false, if◌then◌else◌, none, some, true, ℕ, ◌+◌, ◌∷◌,
}
use boost_asio_threadpool.Base.Outcome.{Outcome, returns, undefined, ◌>>=◌}

-- `m_FinishTimer` is `none` while the pointer is null, and else says whether a wait is pending; `finishes`
-- counts the FileFinish messages that have been sent.
pub record FileToSend : Type 0 where
  pub file_id : Option ℕ
  pub finish_timer : Option Bool
  pub finish_check : Bool
  pub finishes : ℕ

-- The constructor.
unfoldable pub new_file_to_send : FileToSend
new_file_to_send = record {
  file_id = none;
  finish_timer = none;
  finish_check = false;
  finishes = 0;
}

unfoldable pub set_file_id : ℕ → FileToSend → FileToSend
set_file_id fileid file = record file { file_id = some fileid }

-- `expires_after` drops a wait that is pending, and `async_wait` begins one.
unfoldable pub start_finish_timer : FileToSend → Outcome FileToSend
start_finish_timer file = elim file.finish_timer [
  | none ↦ undefined
  | some pending ↦ returns (record file { finish_timer = some true })
]

-- The handler of the wait that has run out.
unfoldable pub timer_expires : FileToSend → Outcome FileToSend
timer_expires file =
    if file.finish_check
    then returns (record file { finish_timer = some false })
    else start_finish_timer
        (record file { finish_timer = some false; finishes = file.finishes + 1 })

-- The end of SendFile.
unfoldable pub send_finish : FileToSend → Outcome FileToSend
send_finish file =
    start_finish_timer (record file { finishes = file.finishes + 1; finish_timer = some false })

-- `cancel` drops the wait.
unfoldable pub cancelled : Option Bool → Option Bool
cancelled none = none
cancelled (some pending) = some false

unfoldable pub stop_finish_timer : FileToSend → FileToSend
stop_finish_timer file = record file {
  finish_timer = cancelled file.finish_timer;
  finish_check = true;
}

-- The handler, on what FindFileToSend gives: a null pointer is used.
unfoldable pub client_handle_final_bag : Option FileToSend → Outcome FileToSend
client_handle_final_bag none = undefined
client_handle_final_bag (some file) = returns (stop_finish_timer file)

-- What happens to a file: SendFile ends, 20 seconds pass, or the server's answer comes.
pub data Event : Type 0 where
  sends_last time_passes answered : Event

-- Time passes for the wait that is pending, if one is.
unfoldable pub pass_time : Option Bool → FileToSend → Outcome FileToSend
pass_time none file = returns file
pass_time (some false) file = returns file
pass_time (some true) file = timer_expires file

unfoldable pub happens : Event → FileToSend → Outcome FileToSend
happens sends_last file = send_finish file
happens time_passes file = pass_time file.finish_timer file
happens answered file = client_handle_final_bag (some file)

unfoldable pub run : List Event → FileToSend → Outcome FileToSend
run [] file = returns file
run (e ∷ es) file = happens e file >>= run es
