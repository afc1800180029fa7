-- ===== src/Delivery.antt =====
-- logicsystem.cpp, file.cpp and filemanagement.cpp: an upload from its request to FileComplete, as the
-- messages of the two sides follow each other when nothing is lost on the way. The parts are the
-- handlers of Server, the client's SendFile and HandleReTransmit, and the threads of Receive.
pub mod Chunks
pub mod Sent
pub mod Arriving
pub mod Gap
pub mod Handled
pub mod Written
pub mod Stages
pub mod Whole
mod Examples
use boost_asio_threadpool.Base.{
  Bool, Bytes_eq, List, Option, String, String_eq, [], none, some, suc, zero, ℕ, ℕ_eq, ◌+◌, ◌∷◌,
}
use boost_asio_threadpool.Base.Outcome.{Outcome, returns, undefined, ◌>>=◌}
use boost_asio_threadpool.Base64.{Bio}
use boost_asio_threadpool.FileManagement.{find_file}
use boost_asio_threadpool.Hash.{Md5}
use boost_asio_threadpool.Receive.{FileToReceve}
use boost_asio_threadpool.Receive.Run.{flush_all}
use boost_asio_threadpool.Server.{
  Message, ServerSession, completes, final_check_thread, handle_data, put_file, re_check_file,
  receives_final, rejects, requests_verify, server_handle_final_bag, starts, tells_lost_bag,
}
use boost_asio_threadpool.Upload.{Packet, handle_re_transmit, send_file}

-- `n` sequence numbers from `start` on.
abbrev pub range : ℕ → ℕ → List ℕ
range start zero = []
range start (suc n) = start ∷ range (start + 1) n

-- The file of the number, where there is one.
abbrev pub with_file {ℓ} :
    {A : Type ℓ} → Option FileToReceve → (FileToReceve → Outcome A) → Outcome A
with_file none f = undefined
with_file (some file) f = f file

-- The numbers of the lost packets that the server has asked for last.
abbrev pub asked_last : List ℕ → List Message → List ℕ
asked_last seqs [] = seqs
asked_last seqs (rejects ∷ messages) = asked_last seqs messages
asked_last seqs (starts i ∷ messages) = asked_last seqs messages
asked_last seqs (receives_final i ∷ messages) = asked_last seqs messages
asked_last seqs (completes i ∷ messages) = asked_last seqs messages
asked_last seqs (requests_verify i ∷ messages) = asked_last seqs messages
asked_last seqs (tells_lost_bag i seqs' ∷ messages) = asked_last seqs' messages

module _ (uuid : String) (i : ℕ) where
  -- HandleData on packets that come one after the other.
  unfoldable pub handle_packets : Bio → List Packet → ServerSession → Outcome ServerSession
  handle_packets b [] s = returns s
  handle_packets b ((seq, text) ∷ packets) s = do
    s' ← handle_data b uuid i seq text s
    handle_packets b packets s'

  -- The disk thread of the file, for at most `n` packets.
  unfoldable pub write_out : ℕ → ServerSession → Outcome ServerSession
  write_out n s =
      with_file (find_file uuid i s.files)
        (λ file. do after ← flush_all n file; returns (put_file uuid i after s))

  -- The thread of FinalCheck on the file.
  unfoldable pub check_file : Md5 → ServerSession → Outcome ServerSession
  check_file m s = with_file (find_file uuid i s.files) (λ file. final_check_thread m uuid i file s)

-- SendFile's packets, the last packet's message, and FinalCheck.
unfoldable pub send_and_check :
    Bio → Md5 → String → ℕ → List ℕ → ServerSession → Outcome ServerSession
send_and_check b m uuid i content s = do
  packets ← send_file b content
  s1 ← handle_packets uuid i b packets s
  s2 ← server_handle_final_bag uuid i s1
  check_file uuid i m s2

-- The packets that FinalCheck has asked for, and the message that they have been sent.
unfoldable pub send_again : Bio → String → ℕ → List ℕ → ServerSession → Outcome ServerSession
send_again b uuid i content s = do
  lost ← handle_re_transmit b content (asked_last [] s.sent)
  s1 ← handle_packets uuid i b lost s
  re_check_file uuid i s1
