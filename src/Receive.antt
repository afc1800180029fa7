-- ===== src/Receive.antt =====
-- file.cpp and filemanagement.cpp: a file that the server receives, packet by packet.
-- The stream and the sliding buffer hold bytes as numbers. The parameter `beyond` is the bit that a
-- read of `m_AllReceivedFlags` past its end finds: the vector's bounds are not checked.
pub mod Window
pub mod Missing
pub mod Transfer
pub mod Arrive
pub mod Flush
pub mod Run
pub mod FinalCheck
pub mod Overrun
pub mod Wake
mod Examples
use boost_asio_threadpool.Base.{
  Bool, List, Option, [], false, get_or, if◌then◌else◌, leb, length, ltb, none, replicate, set,
  some, suc, true, zero, ℕ, ◌%◌, ◌++◌, ◌+◌, ◌-◌, ◌==◌, ◌||◌, ◌∷◌,
}
use boost_asio_threadpool.Base.Outcome.{Outcome, blocks, returns, throws, undefined}

-- `WINDOW_SIZE`.
abbrev pub window_size : ℕ
window_size = 1024

-- The members of `FileToReceve` that the transfer reads and writes. `saved` is the content written
-- through `m_FileSaveStream`, and `stream_open` is its `is_open()`.
pub record FileToReceve : Type 0 where
  pub total_packets : ℕ
  pub file_hash : List ℕ
  pub window_start : ℕ
  pub data_buffer : ℕ → List ℕ
  pub all_received_flags : List Bool
  pub last_received_seq : ℕ
  pub missing_seqs : List ℕ
  pub next_expected_seq : ℕ
  pub saved : List ℕ
  pub stream_open : Bool
  pub flush_finished : Bool
  pub able_to_receive_lost_bag : Bool
  pub is_final_accepted : Bool

abbrev pub update {ℓ} : {A : Type ℓ} → (ℕ → A) → ℕ → A → ℕ → A
update f i a j = if i == j then a else f j

abbrev pub is_nil {ℓ} : {A : Type ℓ} → List A → Bool
is_nil [] = true
is_nil (x ∷ xs) = false

-- Steps 2 and 3 of `AddPacket`: the packet in its slot, and the window at its new start.
abbrev pub stored : FileToReceve → ℕ → List ℕ → ℕ → FileToReceve
stored file seq packet start = record file {
  data_buffer = update file.data_buffer (seq % window_size) packet;
  all_received_flags = set file.all_received_flags seq true;
  last_received_seq = seq;
  window_start = start;
}

-- A slide that does not end is undefined: the loop runs on past the end of the flags.
abbrev pub store_packet : FileToReceve → ℕ → List ℕ → Option ℕ → Outcome (FileToReceve × Bool)
store_packet file seq packet none = undefined
store_packet file seq packet (some start) = returns (stored file seq packet start, true)

module _ (beyond : Bool) where
  -- `while (m_AllReceivedFlags[m_WindowStart]) m_WindowStart++`, on fuel; `none`: the fuel ran out.
  unfoldable pub slide_window : ℕ → List Bool → ℕ → Option ℕ
  slide_window zero flags start = none
  slide_window (suc fuel) flags start =
      let rest = slide_window fuel flags (start + 1) in
      if get_or flags start beyond then rest else some start

  -- `FileManagement::AddPacket` on the file that it found.
  unfoldable pub add_packet : FileToReceve → ℕ → List ℕ → Outcome (FileToReceve × Bool)
  add_packet file seq packet =
      if ltb seq file.window_start || leb (file.window_start + window_size) seq
      then returns (file, false)
      else if ltb seq (length file.all_received_flags)
      then store_packet file seq packet (
          slide_window (length file.all_received_flags + 1) (set file.all_received_flags seq true)
            file.window_start)
      else undefined

  -- One round of the loop of `FlushToDisk`, of a thread that is awake: it tests for the next packet, and
  -- writes it. `blocks`: the test fails, and the thread goes to sleep; Wake has the steps of that.
  unfoldable pub flush_to_disk : FileToReceve → Outcome FileToReceve
  flush_to_disk file =
      if get_or file.all_received_flags file.next_expected_seq beyond
      then (if file.stream_open then returns written else throws)
      else blocks
    where
      next : ℕ
      next = file.next_expected_seq + 1

      written : FileToReceve
      written = record file {
        saved = file.saved ++ file.data_buffer (file.next_expected_seq % window_size);
        next_expected_seq = next;
        flush_finished = if leb file.total_packets next then true else file.flush_finished;
      }

  -- The loop of `CheckMissingPackets`, from `i` on for `n` rounds.
  unfoldable pub missing_from : ℕ → FileToReceve → ℕ → List ℕ
  missing_from zero file i = []
  missing_from (suc n) file i =
      let rest = missing_from n file (i + 1) in
      if leb file.total_packets i
      then []
      else if get_or file.all_received_flags i beyond
      then rest
      else i ∷ rest

  unfoldable pub missing_seqs_of : FileToReceve → List ℕ
  missing_seqs_of file =
      missing_from (file.last_received_seq - file.window_start) file file.window_start

  unfoldable pub check_missing_packets : FileToReceve → FileToReceve × Bool
  check_missing_packets file =
      if is_nil (missing_seqs_of file)
      then (file, false)
      else (record file { missing_seqs = missing_seqs_of file }, true)

-- The constructor. `m_LastReceivedSeq` is not initialised there: its value is an argument.
unfoldable pub new_file : ℕ → ℕ → List ℕ → FileToReceve
new_file garbage filenum filehash = record {
  total_packets = filenum;
  file_hash = filehash;
  window_start = 0;
  data_buffer = λ _. [];
  all_received_flags = replicate filenum false;
  last_received_seq = garbage;
  missing_seqs = [];
  next_expected_seq = 0;
  saved = [];
  stream_open = true;
  flush_finished = false;
  able_to_receive_lost_bag = true;
  is_final_accepted = false;
}
