-- ===== src/Server.antt =====
-- logicsystem.cpp: the server's handlers of an upload, on the files and the numbers of one session, and
-- what FinalCheck of file.cpp does with its verdict. `uuid` is the session's, and `opens` says whether a
-- file of a name can be opened for writing.
pub mod Held
pub mod Requests
pub mod Data
pub mod Preserve
pub mod Race
mod Examples
use boost_asio_threadpool.Base.{
  Bool, Bytes_eq, List, Option, String, String_eq, [], false, if◌then◌else◌, insert, leb, ltb,
  lookup, none, some, true, ℕ, ℕ_eq, ◌%◌, ◌&&◌, ◌++◌, ◌==◌, ◌∷◌,
}
use boost_asio_threadpool.Base.Outcome.{Outcome, blocks, returns, throws, undefined, ◌>>=◌}
use boost_asio_threadpool.Base64.{Bio, base64_decode}
use boost_asio_threadpool.FileManagement.{Files, add_file, files_of, find_file, remove_file}
use boost_asio_threadpool.Hash.{Md5}
use boost_asio_threadpool.Receive.{FileToReceve, add_packet, check_missing_packets, new_file}
use boost_asio_threadpool.Receive.FinalCheck.{
  Verdict, file_complete, final_check, request_verify, tell_lost_bag,
}
use boost_asio_threadpool.Session.FileIds.{get_file_id, release_file_id}

-- What the handlers send, with the number of the file.
pub data Message : Type 0 where
  rejects : Message
  starts receives_final completes requests_verify : ℕ → Message
  tells_lost_bag : ℕ → List ℕ → Message

-- The fields of an upload request.
pub record UploadRequest : Type 0 where
  pub file_name : List ℕ
  pub file_size : ℕ
  pub file_num : ℕ
  pub file_hash : List ℕ

pub record ServerSession : Type 0 where
  pub files : Files FileToReceve
  pub file_ids : List Bool
  pub sent : List Message

-- `CheckLostPerBags`.
abbrev pub check_lost_per_bags : ℕ
check_lost_per_bags = 100

unfoldable pub send_message : Message → ServerSession → ServerSession
send_message message s = record s { sent = s.sent ++ (message ∷ []) }

-- The file object has changed in place.
unfoldable pub put_file : String → ℕ → FileToReceve → ServerSession → ServerSession
put_file uuid fileid file s = record s {
  files = insert uuid (insert fileid file (files_of (lookup uuid s.files))) s.files;
}

-- Whether the two numbers fit an unsigned int.
abbrev pub is_readable : UploadRequest → Bool
is_readable r = ltb r.file_size 4294967296 && ltb r.file_num 4294967296

module _ (uuid : String) (opens : List ℕ → Bool) where
  -- The constructor of the file, with the value of its uninitialised member: `none` for the
  -- runtime_error that the handler catches. A count that is negative as an `int` makes the vector of
  -- flags throw an exception that is not caught.
  unfoldable pub construct : UploadRequest → ℕ → Outcome (Option FileToReceve)
  construct r garbage =
      if leb 2147483648 r.file_num
      then throws
      else returns
          (if opens r.file_name then some (new_file garbage r.file_num r.file_hash) else none)

  -- What AddFile has answered; its exception is caught.
  unfoldable pub started : ℕ → Outcome (Files FileToReceve) → ServerSession → Outcome ServerSession
  started fileid (returns files) s =
      returns (send_message (starts fileid) (record s { files = files }))
  started fileid throws s = returns (send_message rejects s)
  started fileid blocks s = blocks
  started fileid undefined s = undefined

  unfoldable pub start_file : ℕ → Option FileToReceve → ServerSession → Outcome ServerSession
  start_file fileid none s = returns (send_message rejects s)
  start_file fileid (some file) s = started fileid (add_file uuid fileid file s.files) s

  unfoldable pub accept :
      UploadRequest → ℕ → List Bool × Option ℕ → ServerSession → Outcome ServerSession
  accept r garbage (ids, none) s = returns (send_message rejects s)
  accept r garbage (ids, some fileid) s = do
    file ← construct r garbage
    start_file fileid file (record s { file_ids = ids })

  -- `asUInt` throws for a number that is no unsigned int, and nothing catches it.
  unfoldable pub handle_upload_request : UploadRequest → ℕ → ServerSession → Outcome ServerSession
  handle_upload_request r garbage s =
      let accepted = accept r garbage (get_file_id s.file_ids) s in
      if is_readable r then accepted else throws

-- A gap is told once, until the client has answered.
unfoldable pub tell_lost : String → ℕ → FileToReceve × Bool → ServerSession → ServerSession
tell_lost uuid fileid (file, false) s = put_file uuid fileid file s
tell_lost uuid fileid (file, true) s =
    send_message (tells_lost_bag fileid file.missing_seqs)
      (put_file uuid fileid (record file { able_to_receive_lost_bag = false }) s)

-- Every hundredth packet looks for gaps.
unfoldable pub check_lost : String → ℕ → ℕ → FileToReceve → ServerSession → ServerSession
check_lost uuid fileid seq file s =
    if file.able_to_receive_lost_bag && (seq % check_lost_per_bags == 0)
    then tell_lost uuid fileid (check_missing_packets false file) s
    else put_file uuid fileid file s

-- Neither AddPacket nor the handlers look whether findFile has found a file.
unfoldable pub store_data :
    String → ℕ → ℕ → List ℕ → Option FileToReceve → ServerSession → Outcome ServerSession
store_data uuid fileid seq filedata none s = undefined
store_data uuid fileid seq filedata (some file) s = do
  (file', taken) ← add_packet false file seq filedata
  returns (check_lost uuid fileid seq file' s)

unfoldable pub handle_data : Bio → String → ℕ → ℕ → List ℕ → ServerSession → Outcome ServerSession
handle_data b uuid fileid seq encoded s = do
  filedata ← base64_decode b encoded
  store_data uuid fileid seq filedata (find_file uuid fileid s.files) s

unfoldable pub final_accepted :
    String → ℕ → Option FileToReceve → ServerSession → Outcome ServerSession
final_accepted uuid fileid none s = undefined
final_accepted uuid fileid (some file) s =
    returns (put_file uuid fileid (record file { is_final_accepted = true }) s)

-- The handler, up to the start of the thread that runs FinalCheck.
unfoldable pub server_handle_final_bag : String → ℕ → ServerSession → Outcome ServerSession
server_handle_final_bag uuid fileid s =
    final_accepted uuid fileid (find_file uuid fileid s.files)
      (send_message (receives_final fileid) s)

unfoldable pub re_check : String → ℕ → Option FileToReceve → ServerSession → Outcome ServerSession
re_check uuid fileid none s = undefined
re_check uuid fileid (some file) s =
    returns (put_file uuid fileid (record file { able_to_receive_lost_bag = true }) s)

-- The handler, up to the start of the thread that runs FinalCheck, if the client has finished.
unfoldable pub re_check_file : String → ℕ → ServerSession → Outcome ServerSession
re_check_file uuid fileid s = re_check uuid fileid (find_file uuid fileid s.files) s

-- `m_FileIds[m_FileId] = true`, and `removeFile` after it: no lock holds over the two.
abbrev pub free_id : ℕ → ServerSession → ServerSession
free_id fileid s = record s { file_ids = release_file_id s.file_ids fileid }

abbrev pub forget_file : String → ℕ → ServerSession → ServerSession
forget_file uuid fileid s = record s { files = (remove_file uuid fileid s.files).1 }

-- What FinalCheck does with its verdict, where no handler comes between its steps.
unfoldable pub conclude : String → ℕ → FileToReceve × Verdict → ServerSession → ServerSession
conclude uuid fileid (file, tell_lost_bag seqs) s =
    send_message (tells_lost_bag fileid seqs) (put_file uuid fileid file s)
conclude uuid fileid (file, request_verify) s =
    send_message (requests_verify fileid) (put_file uuid fileid file s)
conclude uuid fileid (file, file_complete) s =
    forget_file uuid fileid (free_id fileid (send_message (completes fileid) s))

-- The thread that runs FinalCheck on a file of the table, alone.
unfoldable pub final_check_thread :
    Md5 → String → ℕ → FileToReceve → ServerSession → Outcome ServerSession
final_check_thread m uuid fileid file s = do
  verdict ← final_check m file
  returns (conclude uuid fileid verdict s)
