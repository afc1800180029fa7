-- ===== src/Upload.antt =====
-- The client's side of an upload: RequestUpload and HandleReTransmit of logicsystem.cpp and SendFile
-- of file.cpp. A file is the list of its bytes, and a packet is the `Sequence` and the `Data` of the
-- JSON text that is sent. The buffers keep their room after `clear`, and reads go into that room.
pub mod SendFile
pub mod ReTransmit
pub mod Request
use boost_asio_threadpool.Base.{
  Bool, List, [], drop, false, if◌then◌else◌, leb, length, ltb, suc, take, zero, ℕ, ◌%◌, ◌*◌, ◌+◌,
  ◌/◌, ◌==◌, ◌∷◌,
}
use boost_asio_threadpool.Base.Outcome.{Outcome, blocks, returns, ◌>>=◌}
use boost_asio_threadpool.Base64.{Bio, base64_encode}
use boost_asio_threadpool.Receive.{is_nil}

-- `FILE_DATA_LEN`.
abbrev pub file_data_len : ℕ
file_data_len = 1024

-- The packet count that RequestUpload announces.
unfoldable pub total_packets : ℕ → ℕ
total_packets file_size =
    if file_size % file_data_len == 0
    then file_size / file_data_len
    else file_size / file_data_len + 1

-- `Sequence` and `Data`.
abbrev pub Packet : Type 0
Packet = ℕ × List ℕ

module _ (b : Bio) where
  -- A packet with the text of these bytes, in front of the others.
  abbrev pub encode_packet : ℕ → List ℕ → Outcome (List Packet) → Outcome (List Packet)
  encode_packet seq bytes more = do
    text ← base64_encode b bytes
    packets ← more
    returns ((seq, text) ∷ packets)

  -- After the loop, at the end of the file: what is left is the last packet.
  unfoldable pub last_packet : ℕ → List ℕ → Outcome (List Packet)
  last_packet seq rest =
      let last = encode_packet seq rest (returns []) in if is_nil rest then returns [] else last

  -- A full read up to the twentieth is encoded and counted, and not sent.
  unfoldable pub full_packet : ℕ → List ℕ → Outcome (List Packet) → Outcome (List Packet)
  full_packet seq bytes more =
      let sent = encode_packet seq bytes more in
      let held_back = base64_encode b bytes >>= (λ _. more) in
      if leb seq 19 then held_back else sent

  -- The packets of SendFile from a place in the file on, on fuel.
  unfoldable pub send_from : ℕ → ℕ → List ℕ → Outcome (List Packet)
  send_from zero seq rest = blocks
  send_from (suc fuel) seq rest =
      let more = send_from fuel (seq + 1) (drop file_data_len rest) in
      let full = full_packet seq (take file_data_len rest) more in
      let last = last_packet seq rest in if leb file_data_len (length rest) then full else last

  unfoldable pub send_file : List ℕ → Outcome (List Packet)
  unfolding send_from full_packet last_packet
  send_file content = send_from (length content + 1) 0 content

  -- The loop of HandleReTransmit: a short read leaves the stream failed, and a failed stream neither
  -- seeks nor reads.
  unfoldable pub re_transmit_from : Bool → List ℕ → List ℕ → Outcome (List Packet)
  re_transmit_from failed content [] = returns []
  re_transmit_from failed content (seq ∷ seqs) =
      let bytes = if failed then [] else take file_data_len (drop (seq * file_data_len) content) in
      encode_packet seq bytes (re_transmit_from (ltb (length bytes) file_data_len) content seqs)

  unfoldable pub handle_re_transmit : List ℕ → List ℕ → Outcome (List Packet)
  unfolding re_transmit_from
  handle_re_transmit content missing_seqs = re_transmit_from false content missing_seqs
