-- ===== src/Client.antt =====
-- client.cpp: the client's queue of uploads with the thread that serves it, and its table of the files
-- that it is sending. A path is the list of its bytes.
pub mod Uploads
pub mod Stuck
pub mod Files
pub mod Start
mod Examples
use boost_asio_threadpool.Base.{
  Bool, List, Option, [], drop, false, get_elem?, if◌then◌else◌, leb, length, ltb, none, set, some,
  take, true, ℕ, ◌%◌, ◌++◌, ◌+◌, ◌-◌, ◌==◌, ◌∷◌,
}
use boost_asio_threadpool.Base.Outcome.{Outcome, returns, throws, undefined}
use boost_asio_threadpool.MsgNode.{is_negative, to_short}
use boost_asio_threadpool.Receive.{is_nil}
use boost_asio_threadpool.Session.FileIds.{max_upload_num}

-- `m_SendQueue`, `m_NowSend`, whether the thread of DealSendQueue waits on `m_CVSendQue`, and the
-- paths that it has passed to the logic system. `m_NowSend` is a `short`.
pub record Sender : Type 0 where
  pub send_queue : List (List ℕ)
  pub now_send : ℕ
  pub waiting : Bool
  pub posted : List (List ℕ)

-- RequestUpload: the thread is notified where the queue had been empty.
unfoldable pub request_upload : List ℕ → Sender → Sender
request_upload filepath w =
    let queue = w.send_queue ++ (filepath ∷ []) in
    record w { send_queue = queue; waiting = if length queue == 1 then false else w.waiting }

-- `m_NowSend >= MAX_UPLOAD_NUM`, of a signed number.
abbrev pub is_full : ℕ → Bool
is_full now_send = if is_negative now_send then false else leb max_upload_num now_send

-- The front of the queue is taken: an empty path is dropped, another is counted and posted.
unfoldable pub take_front : List ℕ → List (List ℕ) → Sender → Sender
take_front filepath rest w = if is_nil filepath then record w { send_queue = rest } else record w {
  send_queue = rest;
  now_send = to_short (w.now_send + 1);
  posted = w.posted ++ (filepath ∷ []);
}

-- A turn of the loop of DealSendQueue. A thread that is woken looks at the queue again.
unfoldable pub deal_queue : List (List ℕ) → Sender → Sender
deal_queue [] w = record w { waiting = true }
deal_queue (filepath ∷ rest) w =
    if is_full w.now_send then record w { waiting = true } else take_front filepath rest w

unfoldable pub deal_send_queue : Sender → Sender
unfolding deal_queue take_front
deal_send_queue w = if w.waiting then w else deal_queue w.send_queue w

-- `m_NowSend--` of FinishUpload, as one step: the worker makes it with no lock against the thread of
-- DealSendQueue.
unfoldable pub finish_upload : Sender → Sender
finish_upload w = record w { now_send = to_short (w.now_send + 65535) }

-- HandleRejectUpload closes the file, and leaves the queue and its count alone.
unfoldable pub handle_reject_upload : Sender → Sender
handle_reject_upload w = w

-- AddFileToSend: the number is the place of the file in `m_FilesToSend`. The pointers may be null.
unfoldable pub add_file_to_send :
    {F : Type 0} → Option F → ℕ → List (Option F) → Outcome (List (Option F))
add_file_to_send tempfile fileid files =
    if is_negative fileid
    then throws
    else if ltb fileid (length files)
    then returns (set files fileid tempfile)
    else if fileid == length files
    then returns (files ++ (tempfile ∷ []))
    else throws

-- `m_FilesToSend[fileid]`, with no check of the bounds.
abbrev pub element : {F : Type 0} → Option F → Outcome F
element none = undefined
element (some file) = returns file

unfoldable pub find_file_to_send : {F : Type 0} → ℕ → List (Option F) → Outcome (Option F)
find_file_to_send fileid files = element (get_elem? files fileid)

-- RemoveFile: `erase` moves every later file one place down.
unfoldable pub remove_file : {F : Type 0} → ℕ → List (Option F) → List (Option F)
remove_file fileid files =
    if ltb fileid (length files) then take fileid files ++ drop (fileid + 1) files else files
