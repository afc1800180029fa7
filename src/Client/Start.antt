-- ===== src/Client/Start.antt =====
-- HandleFileUpload of logicsystem.cpp, with the file that RequestUpload leaves in `m_TempFile` and what
-- FinishUpload takes out of the table: the client's files, shared by pointer.
pub mod Answer
pub mod Overwrite
pub mod Supersede
use boost_asio_threadpool.Base.{
  Bool, List, Option, [], get_elem?, if◌then◌else◌, length, none, set, some, ℕ, ◌++◌, ◌∷◌, ◌||◌,
}
use boost_asio_threadpool.Base.Outcome.{Outcome, returns, undefined, ◌>>=◌}
use boost_asio_threadpool.Client.{add_file_to_send, find_file_to_send, remove_file}
use boost_asio_threadpool.Finish.{FileToSend, set_file_id}
use boost_asio_threadpool.MsgNode.{is_negative, to_short}

-- A file with whether `m_FileUploadStream` is open.
pub record StoredFile : Type 0 where
  pub file : FileToSend
  pub is_open : Bool

-- `store` holds the files that were ever made; a pointer is a place in it. `senders` lists the files
-- for which a thread with SendFile was started, oldest first.
pub record Uploading : Type 0 where
  pub store : List StoredFile
  pub temp_file : Option ℕ
  pub files : List (Option ℕ)
  pub senders : List ℕ

-- `m_TempFile = std::make_shared<FileToSend>(...)`.
unfoldable pub make_temp_file : StoredFile → Uploading → Uploading
make_temp_file stored u = record u {
  store = u.store ++ (stored ∷ []);
  temp_file = some (length u.store);
}

-- RemoveFile in FinishUpload.
unfoldable pub finish_file : ℕ → Uploading → Uploading
finish_file fileid u = record u { files = remove_file fileid u.files }

unfoldable pub with_id : ℕ → StoredFile → StoredFile
with_id fileid stored = record stored { file = set_file_id fileid stored.file }

-- The stream is opened where it is not open; `opens` says whether that works.
unfoldable pub with_stream : Bool → StoredFile → StoredFile
with_stream opens stored = record stored { is_open = stored.is_open || opens }

-- What a pointer points to is changed.
unfoldable pub modify : ℕ → (StoredFile → StoredFile) → List StoredFile → Outcome (List StoredFile)
modify p f store = elim (get_elem? store p) [
  | none ↦ undefined
  | some stored ↦ returns (set store p (f stored))
]

-- The end of the handler: the file that was found is sent by a thread of its own.
unfoldable pub start_sending : Bool → Option ℕ → Uploading → Outcome Uploading
start_sending opens none u = returns u
start_sending opens (some p) u =
    modify p (with_stream opens) u.store
    >>= (λ store. returns (record u { store = store; senders = u.senders ++ (p ∷ []) }))

-- The handler from the reading of `m_TempFile` on.
unfoldable pub upload_under : Bool → ℕ → Option ℕ → Uploading → Outcome Uploading
upload_under opens fileid none u = undefined
upload_under opens fileid (some p) u = modify p (with_id fileid) u.store >>= (λ store.
    add_file_to_send (some p) fileid u.files >>= (λ files.
      find_file_to_send fileid files
      >>= (λ found. start_sending opens found (record u { store = store; files = files }))))

-- The number is `none` where the message cannot be parsed.
unfoldable pub handle_file_upload : Bool → Option ℕ → Uploading → Outcome Uploading
handle_file_upload opens none u = returns u
handle_file_upload opens (some value) u =
    if is_negative (to_short value)
    then returns u
    else upload_under opens (to_short value) u.temp_file u
