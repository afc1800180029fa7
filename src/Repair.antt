-- ===== src/Repair.antt =====
-- The repair of a stored file whose hash is wrong: SendDamagedHashBlock of logicsystem.cpp on the
-- client, ServerHandleDamagedHashBag of logicsystem.cpp, AddHashRetransmitDataPacket of
-- filemanagement.cpp and ReWriteCausedByHash of file.cpp on the server. The damaged blocks are those
-- that VerifyHash names, ten packets each.
pub mod Send
pub mod Overwrite
pub mod ReWrite
pub mod Whole
mod Examples
use boost_asio_threadpool.Base.{
  Bool, List, Option, [], drop, false, get_elem?, if◌then◌else◌, leb, length, ltb, none, not, some,
  suc, take, true, zero, ℕ, ◌&&◌, ◌*◌, ◌++◌, ◌+◌, ◌∷◌,
}
use boost_asio_threadpool.Base.Outcome.{Outcome, blocks, returns, throws, undefined, ◌>>=◌}
use boost_asio_threadpool.Base64.{Bio, base64_decode, base64_encode}
use boost_asio_threadpool.Blocks.{hash_verify_block}
use boost_asio_threadpool.Hash.{Md5, verify_file_hash}
use boost_asio_threadpool.Receive.{is_nil}
use boost_asio_threadpool.Upload.{Packet, file_data_len}

-- `m_FileUploadStream`, and the variables `total` and `bytes_read` of SendDamagedHashBlock.
pub record Reading : Type 0 where
  pub failed : Bool
  pub at_end : Bool
  pub position : ℕ
  pub total : ℕ
  pub bytes_read : List ℕ

-- `seekg`: it clears the mark of the end, and does nothing else where the stream has failed.
unfoldable pub seek : ℕ → Reading → Reading
seek start r = record r { at_end = false; position = if r.failed then r.position else start }

-- `read` of one packet: a short read sets both marks, and a failed stream gives nothing.
unfoldable pub read_packet : List ℕ → Reading → Reading
read_packet content r = if r.failed then record r { bytes_read = [] } else record r {
  failed = ltb (length bytes) file_data_len;
  at_end = ltb (length bytes) file_data_len;
  position = r.position + file_data_len;
  total = r.total + length bytes;
  bytes_read = bytes;
}
  where
    bytes : List ℕ
    bytes = take file_data_len (drop r.position content)

-- `message_size` gives the number of bytes of a packet's JSON text.
module _ (b : Bio) (message_size : Packet → ℕ) where
  -- The turns of the inner loop.
  unfoldable pub send_packets : ℕ → List ℕ → ℕ → Reading → Outcome (List Packet × Reading)
  send_packets zero content seqnow r = returns ([], r)
  send_packets (suc n) content seqnow r = do
    text ← base64_encode b (read_packet content r).bytes_read
    (packets, r') ← send_packets n content (seqnow + 1) (read_packet content r)
    returns ((seqnow, text) ∷ packets, r')

  unfoldable pub check_size : Packet → Outcome (List Packet)
  check_size packet = if ltb 32767 (message_size packet) then throws else returns (packet ∷ [])

  -- The packet after the ten, at the end of the file.
  unfoldable pub extra_packet : ℕ → Reading → Outcome (List Packet)
  extra_packet seqnow r =
      let extra = base64_encode b r.bytes_read >>= (λ text. check_size (seqnow, text)) in
      if r.at_end && (ltb r.total file_data_len && not (is_nil r.bytes_read))
      then extra
      else returns []

  unfoldable pub send_blocks : List ℕ → List ℕ → Reading → Outcome (List Packet)
  send_blocks content [] r = returns []
  send_blocks content (seq ∷ seqs) r = do
    (packets, r') ← send_packets 10 content (seq * 10) (seek (seq * hash_verify_block) r)
    extra ← extra_packet (seq * 10 + 10) r'
    rest ← send_blocks content seqs r'
    returns (packets ++ (extra ++ rest))

  -- `already_open`: the handler does not close the stream, and `open` of an open stream makes it fail.
  unfoldable pub send_damaged_hash_block : Bool → List ℕ → List ℕ → Outcome (List Packet)
  send_damaged_hash_block already_open content missing_seqs =
      send_blocks content missing_seqs
        (record { failed = already_open; at_end = false; position = 0; total = 0; bytes_read = [] })

-- The members of `FileToReceve` that the repair reads and writes. `saved` is the stored file, and
-- `hash_codes` are the codes of the blocks that have one. An entry of `m_HashDatas` does not keep the
-- bytes, but a reference to the handler's local vector: it is `none` once that vector is gone.
pub record RepairFile : Type 0 where
  pub saved : List ℕ
  pub file_hash : List ℕ
  pub hash_codes : List (ℕ × List ℕ)
  pub next_verifying : ℕ
  pub damaged_block : List ℕ
  pub hash_datas : List (ℕ × Option (List ℕ))
  pub rewrite_index : ℕ

-- `AddHashRetransmitDataPacket` on what findFile gives.
unfoldable pub add_hash_retransmit_data_packet : Option RepairFile → ℕ → List ℕ → Outcome RepairFile
add_hash_retransmit_data_packet none seq filedata = undefined
add_hash_retransmit_data_packet (some file) seq filedata =
    returns (record file { hash_datas = file.hash_datas ++ ((seq, some filedata) ∷ []) })

unfoldable pub dangling : List (ℕ × Option (List ℕ)) → List (ℕ × Option (List ℕ))
dangling [] = []
dangling ((seq, bytes) ∷ datas) = (seq, none) ∷ dangling datas

-- The end of the handler: its local vector is destroyed. One worker runs the handlers, so that no other
-- one has a vector that lives.
unfoldable pub handler_ends : RepairFile → RepairFile
handler_ends file = record file { hash_datas = dangling file.hash_datas }

-- What the thread sends at its end.
pub data Repaired : Type 0 where
  complete verify_again : Repaired

-- The handler. `thread` is what the thread that it starts does before the handler ends: the file, and
-- what the thread has sent, if it has ended.
unfoldable pub server_handle_damaged_hash_bag :
    (RepairFile → Outcome (RepairFile × Option Repaired))
    → Bio
    → Option RepairFile
    → ℕ
    → List ℕ
    → Outcome (RepairFile × Option Repaired)
server_handle_damaged_hash_bag thread b file seq encoded = do
  filedata ← base64_decode b encoded
  added ← add_hash_retransmit_data_packet file seq filedata
  (file', sent) ← thread added
  returns (handler_ends file', sent)

-- A write into a file that keeps its other bytes: a place beyond the end fills the gap with zeros.
unfoldable pub overwrite : List ℕ → ℕ → List ℕ → List ℕ
overwrite content zero bytes = bytes ++ drop (length bytes) content
overwrite [] (suc start) bytes = 0 ∷ overwrite [] start bytes
overwrite (x ∷ content) (suc start) bytes = x ∷ overwrite content start bytes

-- Where the hash is wrong, the check begins anew.
unfoldable pub re_write_result : Bool → RepairFile → RepairFile × Option Repaired
re_write_result true file = (file, some complete)
re_write_result false file = (
  record file {
    hash_codes = [];
    next_verifying = 0;
    damaged_block = [];
    hash_datas = [];
    rewrite_index = 0;
  },
  some verify_again,
)

module _ (m : Md5) where
  -- The end of the thread: after the last packet that has come, the file is checked.
  unfoldable pub re_write_ends : RepairFile → Outcome (RepairFile × Option Repaired)
  re_write_ends file = do
    verified ← verify_file_hash m (some file.saved) file.file_hash
    returns (re_write_result verified file)

  unfoldable pub re_write_packet :
      Bool → Option (ℕ × Option (List ℕ)) → RepairFile → Outcome (RepairFile × Option Repaired)
  re_write_packet opens none file = blocks
  re_write_packet opens (some (seq, none)) file = undefined
  re_write_packet opens (some (seq, some [])) file = blocks
  re_write_packet opens (some (seq, some (x ∷ bytes))) file =
      let ends = re_write_ends written in
      if opens
      then (if leb (length file.hash_datas) written.rewrite_index
          then ends
          else returns (written, none))
      else throws
    where
      written : RepairFile
      written = record file {
        saved = overwrite file.saved (seq * file_data_len) (x ∷ bytes);
        rewrite_index = file.rewrite_index + 1;
      }

  -- A turn of the loop: it waits for its packet. `opens`: whether the stored file can be opened.
  unfoldable pub re_write_turn : Bool → RepairFile → Outcome (RepairFile × Option Repaired)
  re_write_turn opens file =
      re_write_packet opens (get_elem? file.hash_datas file.rewrite_index) file

  -- The turns, until the thread ends, or as many as given.
  unfoldable pub re_write_caused_by_hash : ℕ → RepairFile → Outcome (RepairFile × Option Repaired)
  re_write_caused_by_hash zero file = returns (file, none)
  re_write_caused_by_hash (suc n) file = do
    (file', ended) ← re_write_turn true file
    elim ended [
      | none ↦ re_write_caused_by_hash n file'
      | some result ↦ returns (file', some result)
    ]
