-- ===== src/Repair/Whole.antt =====
-- The repair of logicsystem.cpp and file.cpp from the damaged blocks to FileComplete.
use boost_asio_threadpool.Base.{
  List, Option, [], ap, arith, if◌then◌else◌, false, length, none, some, suc, sym, true, zero, ℕ,
  ◌*◌, ◌++◌, ◌+◌, ◌<◌, ◌∙◌, ◌∷◌, ◌≡◌,
}
use boost_asio_threadpool.Base.Outcome.{Outcome, >>=_returns, returns, returns-injective, ◌>>=◌}
use boost_asio_threadpool.Base64.{Bio}
use boost_asio_threadpool.Delivery.{range}
use boost_asio_threadpool.Hash.{Md5, calculate_file_hash, verify_file_hash, verify_file_hash_iff}
use boost_asio_threadpool.Repair.{
  RepairFile, Repaired, complete, verify_again, re_write_caused_by_hash, send_damaged_hash_block,
  server_handle_damaged_hash_bag,
}
use boost_asio_threadpool.Repair.Overwrite.{AreWithin, DiffersIn, write_packets, write_packets_lem}
use boost_asio_threadpool.Repair.ReWrite.{IsCaughtUp, handle_packet}
use boost_asio_threadpool.Repair.Send.{AreBlocks, packets_in, send_damaged_hash_block_lem}
use boost_asio_threadpool.Upload.{Packet, file_data_len}
use boost_asio_threadpool.Upload.ReTransmit.{chunk, chunk-some, packets_of}
use boost_asio_threadpool.Upload.SendFile.{encoded}

-- No packet of the list is empty.
abbrev AreSome : List Packet → Type 0
AreSome [] = Unit {0}
AreSome ((seq, bytes) ∷ packets) = (0 < length bytes) × AreSome packets

module _ (content : List ℕ) where
  range-AreWithin :
      (n start : ℕ) (more : List ℕ)
      → (start + n) * file_data_len < length content
      → AreWithin content more
      → AreWithin content (range start (suc n) ++ more)
  range-AreWithin zero start more h w = (omega arith, w)
  range-AreWithin (suc n) start more h w =
      (omega arith, range-AreWithin n (start + 1) more (omega arith) w)

  AreBlocks-AreWithin :
      (seqs : List ℕ) → AreBlocks content seqs → AreWithin content (packets_in seqs)
  AreBlocks-AreWithin [] h = tt
  AreBlocks-AreWithin (seq ∷ []) h = range-AreWithin 9 (seq * 10) [] h tt
  AreBlocks-AreWithin (seq ∷ (seq' ∷ seqs)) h =
      range-AreWithin 9 (seq * 10) (packets_in (seq' ∷ seqs)) (omega arith)
        (AreBlocks-AreWithin (seq' ∷ seqs) h.1)

  AreWithin-AreSome : (seqs : List ℕ) → AreWithin content seqs → AreSome (packets_of content seqs)
  AreWithin-AreSome [] h = tt
  AreWithin-AreSome (seq ∷ seqs) h = (chunk-some content seq h.0, AreWithin-AreSome seqs h.1)

module _ (b : Bio) (m : Md5) where
  -- ServerHandleDamagedHashBag on packets that come one after the other, where each thread gets its turn
  -- before the handler ends: the file, and what the last thread has sent.
  pub receive_packets :
      List Packet → RepairFile → Option Repaired → Outcome (RepairFile × Option Repaired)
  receive_packets [] file sent = returns (file, sent)
  receive_packets ((seq, text) ∷ packets) file sent = do
    (file', sent') ←
        server_handle_damaged_hash_bag (re_write_caused_by_hash m 1) b (some file) seq text
    receive_packets packets file' sent'

  receive_packets_lem :
      (p : Packet) (packets : List Packet) (file : RepairFile) (sent : Option Repaired)
      → AreSome (p ∷ packets)
      → IsCaughtUp file
      → verify_file_hash m (some (write_packets (p ∷ packets) file.saved)) file.file_hash
        ≡ returns true
      → (after : RepairFile) × (receive_packets (encoded b (p ∷ packets)) file sent
          ≡ returns (after, some complete))
        × (after.saved ≡ write_packets (p ∷ packets) file.saved)
  unfolding receive_packets
  receive_packets_lem (seq, bytes) [] file sent h c v =
      let done = handle_packet m b seq bytes file h.0 c in
      let yes : done.verified ≡ true = returns-injective (
        sym done.checks ∙ (ap (λ s. verify_file_hash m (some s) file.file_hash) done.writes ∙ v)) in
      (
        done.after,
        >>=_returns _ done.handles
            (ap (λ y. returns (done.after, some (if y then complete else verify_again))) yes),
        done.writes,
      )
  receive_packets_lem (seq, bytes) (q ∷ packets) file sent h c v =
      let done = handle_packet m b seq bytes file h.0 c in
      let honest : verify_file_hash m (some (write_packets (q ∷ packets) done.after.saved))
            done.after.file_hash
          ≡ returns true =
        ap (λ s. verify_file_hash m (some (write_packets (q ∷ packets) s)) done.after.file_hash)
          done.writes
        ∙ (ap
              (λ k.
                verify_file_hash m (some (write_packets ((seq, bytes) ∷ (q ∷ packets)) file.saved))
                  k)
              done.hashed
            ∙ v) in
      let (after, e, saved) =
        receive_packets_lem q packets done.after
          (some (if done.verified then complete else verify_again)) h.1 done.caught_up honest in
      (after, >>=_returns _ done.handles e, saved ∙ ap (write_packets (q ∷ packets)) done.writes)

  -- A stored file that differs from the client's in no packet outside the damaged blocks is repaired,
  -- and FileComplete is sent, if each thread that a packet starts gets its turn before the packet's
  -- handler ends: SendDamagedHashBlock sends the blocks' packets, and what is stored at the end is
  -- exactly the client's bytes. The stream is not open already, only the last block may be the file's
  -- last one and has ten packets, if a short one, and the client has given the hash of its file.
  pub repair_completes :
      (message_size : Packet → ℕ) (content : List ℕ) (seq : ℕ) (seqs : List ℕ) (file : RepairFile)
      → AreBlocks content (seq ∷ seqs)
      → DiffersIn content (packets_in (seq ∷ seqs)) file.saved
      → IsCaughtUp file
      → calculate_file_hash m (some content) ≡ returns file.file_hash
      → (packets : List Packet) × (repaired : RepairFile) × (send_damaged_hash_block b message_size
            false content
            (seq ∷ seqs)
          ≡ returns packets)
        × (receive_packets packets file none ≡ returns (repaired, some complete))
        × (repaired.saved ≡ content)
  repair_completes message_size content seq seqs file h d c honest =
      let within = AreBlocks-AreWithin content (seq ∷ seqs) h in
      let raw = packets_of content (packets_in (seq ∷ seqs)) in
      let restored = write_packets_lem content (packets_in (seq ∷ seqs)) file.saved within d in
      let (repaired, run, saved) =
        receive_packets_lem (seq * 10, chunk content (seq * 10))
          (packets_of content (range (seq * 10 + 1) 9 ++ packets_in seqs)) file none
          (AreWithin-AreSome content (packets_in (seq ∷ seqs)) within) c
          ((verify_file_hash_iff m (some (write_packets raw file.saved)) file.file_hash).1
            (ap (λ s. calculate_file_hash m (some s)) restored ∙ honest)) in
      (
        encoded b raw,
        repaired,
        send_damaged_hash_block_lem b message_size content (seq ∷ seqs) h,
        run,
        saved ∙ restored,
      )
