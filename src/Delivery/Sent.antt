-- ===== src/Delivery/Sent.antt =====
-- SendFile of file.cpp: its packets by their numbers.
use boost_asio_threadpool.Base.{
  Bool-cases, List, [], arith, drop, drop_all, inl, inr, leb, leb→lt, length, length-drop,
  length-take, le→leb, lt→leb, refl, suc, take_all, zero, ℕ, ◌*◌, ◌+◌, ◌-◌, ◌<◌, ◌∷◌, ◌≡◌, ◌≤◌,
}
use boost_asio_threadpool.Base.Outcome.{returns}
use boost_asio_threadpool.Base64.{Bio}
use boost_asio_threadpool.Delivery.{range}
use boost_asio_threadpool.Upload.{
  file_data_len, full_packet, last_packet, handle_re_transmit, send_file, send_from, total_packets,
}
use boost_asio_threadpool.Upload.ReTransmit.{
  AreFull, chunk, chunk-some, handle_re_transmit_lem, packets_of,
}
use boost_asio_threadpool.Upload.SendFile.{
  base64_encode_some, drop_further, encoded, total_packets_lem,
}

module _ (b : Bio) (content : List ℕ) where
  abbrev total : ℕ
  total = total_packets (length content)

  last_packet_some :
      (seq : ℕ) (rest : List ℕ)
      → 0 < length rest
      → last_packet b seq rest ≡ returns ((seq, b.text rest) ∷ [])
  unfolding last_packet
  last_packet_some seq [] h = absurd (omega arith)
  last_packet_some seq (x ∷ rest) h = rw (base64_encode_some b (x ∷ rest) h) refl

  -- The turns of the loop from the twenty-first packet on.
  send_from-packets_of :
      (n fuel seq : ℕ)
      → n < fuel
      → 20 ≤ seq
      → seq + n ≡ total
      → send_from b fuel seq (drop (seq * file_data_len) content)
        ≡ returns (encoded b (packets_of content (range seq n)))
  unfolding send_from full_packet last_packet
  send_from-packets_of n zero seq f h e = absurd (omega arith)
  send_from-packets_of zero (suc fuel) seq f h e =
      let at_end =
        drop_all (seq * file_data_len) content
          (omega (arith, total_packets_lem (length content))) in
      rw at_end refl
  send_from-packets_of (suc n) (suc fuel) seq f h e =
      let rest = drop (seq * file_data_len) content in
      let left = length-drop (seq * file_data_len) content in
      let taken = length-take file_data_len rest in
      let some_left = chunk-some content seq (omega (arith, total_packets_lem (length content))) in
      elim (Bool-cases (leb file_data_len (length rest))) [
        | inl full ↦
            rw
              (
                full,
                lt→leb 19 seq (omega arith),
                base64_encode_some b (chunk content seq) some_left,
                drop_further (seq * file_data_len) file_data_len ((seq + 1) * file_data_len) content
                    (omega arith),
                send_from-packets_of n fuel (seq + 1) (omega arith) (omega arith) (omega arith),
              )
              refl
        | inr short ↦
            let below = leb→lt file_data_len (length rest) short in
            let last : n ≡ 0 = omega (arith, total_packets_lem (length content)) in
            let whole : chunk content seq ≡ rest = take_all file_data_len rest (omega arith) in
            rw (short, last, whole) (last_packet_some seq rest (omega arith))
      ]

  -- The turns below the twenty-first packet send nothing.
  send_from-held_back :
      (k fuel seq : ℕ)
      → length content < fuel + seq
      → seq + k ≡ 20
      → 20 ≤ total
      → 20 * file_data_len ≤ length content
      → send_from b fuel seq (drop (seq * file_data_len) content)
        ≡ returns (encoded b (packets_of content (range 20 (total - 20))))
  unfolding send_from full_packet
  send_from-held_back zero fuel seq f e h full =
      let twenty : seq ≡ 20 = omega (arith, e) in
      rw twenty (
        send_from-packets_of (total - 20) fuel 20
          (omega (arith, total_packets_lem (length content))) (omega arith) (omega arith))
  send_from-held_back (suc k) zero seq f e h full = absurd (omega arith)
  send_from-held_back (suc k) (suc fuel) seq f e h full =
      let rest = drop (seq * file_data_len) content in
      let left = length-drop (seq * file_data_len) content in
      let taken = length-take file_data_len rest in
      rw
        (
          le→leb file_data_len (length rest) (omega arith),
          le→leb seq 19 (omega arith),
          base64_encode_some b (chunk content seq) (omega arith),
          drop_further (seq * file_data_len) file_data_len ((seq + 1) * file_data_len) content
              (omega arith),
        )
        (send_from-held_back k fuel (seq + 1) (omega arith) (omega arith) h full)

  -- SendFile ends without an exception, and sends each packet of the file from number 20 on, in order.
  pub send_file-packets_of :
      20 * file_data_len ≤ length content
      → send_file b content
        ≡ returns (encoded b (packets_of content (range 20 (total_packets (length content) - 20))))
  unfolding send_file
  send_file-packets_of h =
      send_from-held_back 20 (length content + 1) 0 (omega arith) refl
        (omega (arith, h, total_packets_lem (length content))) h

  range-AreFull :
      (k start : ℕ) → (start + k) * file_data_len ≤ length content → AreFull content (range start k)
  range-AreFull zero start h = tt
  range-AreFull (suc zero) start h = omega arith
  range-AreFull (suc (suc k)) start h =
      (omega arith, range-AreFull (suc k) (start + 1) (omega arith))

  -- HandleReTransmit sends the first full packets of the file again, in order, when they are asked for.
  pub handle_re_transmit-packets_of :
      (k : ℕ)
      → k * file_data_len ≤ length content
      → handle_re_transmit b content (range 0 k)
        ≡ returns (encoded b (packets_of content (range 0 k)))
  handle_re_transmit-packets_of k h =
      handle_re_transmit_lem b content (range 0 k) (range-AreFull k 0 (omega arith))
