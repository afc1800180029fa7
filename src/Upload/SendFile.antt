-- ===== src/Upload/SendFile.antt =====
-- SendFile of file.cpp: which bytes of the file its packets carry.
use boost_asio_threadpool.Base.{
  Bool-cases, List, [], ap, append-nil, arith, drop, inl, inr, leb, leb→le, length, length-drop,
  length-take, le→leb, lt→leb, refl, subst, suc, sym, take, zero, ℕ, ◌*◌, ◌++◌, ◌+◌, ◌<◌, ◌∙◌, ◌∷◌,
  ◌≡◌, ◌≤◌,
}
use boost_asio_threadpool.Base.Outcome.{Outcome, returns}
use boost_asio_threadpool.Base64.{Bio, base64_encode}
use boost_asio_threadpool.Upload.{
  Packet, file_data_len, full_packet, last_packet, send_file, send_from, total_packets,
}

-- The bytes of a list of packets, one after the other.
abbrev pub payload : List Packet → List ℕ
payload [] = []
payload ((seq, bytes) ∷ packets) = bytes ++ payload packets

-- The number that a packet of the list has, counted from the given one.
abbrev pub AreNumberedFrom : ℕ → List Packet → Type 0
AreNumberedFrom n [] = Unit {0}
AreNumberedFrom n ((seq, bytes) ∷ packets) = (seq ≡ n) × AreNumberedFrom (n + 1) packets

-- The announced count is the least number of packets of 1024 bytes that hold the file.
pub total_packets_lem :
    (size : ℕ)
    → (size ≤ total_packets size * file_data_len)
      × (total_packets size * file_data_len < size + file_data_len)
unfolding total_packets
total_packets_lem size = ground arith

take_payload : (n : ℕ) (rest : List ℕ) → take n rest ++ drop n rest ≡ rest
take_payload zero rest = refl
take_payload (suc n) [] = refl
take_payload (suc n) (x ∷ rest) = ap (◌∷◌ x) (take_payload n rest)

drop_nil : (n : ℕ) → drop {A = ℕ} n [] ≡ []
drop_nil zero = refl
drop_nil (suc n) = refl

pub drop_further : (n m p : ℕ) (s : List ℕ) → p ≡ n + m → drop m (drop n s) ≡ drop p s
drop_further zero m p s h = ap (λ i. drop i s) (omega arith)
drop_further (suc n) m p [] h = drop_nil m ∙ sym (drop_nil p)
drop_further (suc n) m zero (x ∷ s) h = absurd (omega arith)
drop_further (suc n) m (suc p) (x ∷ s) h = drop_further n m p s (omega arith)

module _ (b : Bio) where
  open b use {text, writes_some}

  -- The packets with their bytes encoded.
  abbrev pub encoded : List Packet → List Packet
  encoded [] = []
  encoded ((seq, bytes) ∷ packets) = (seq, text bytes) ∷ encoded packets

  pub base64_encode_some :
      (bytes : List ℕ) → 0 < length bytes → base64_encode b bytes ≡ returns (text bytes)
  unfolding base64_encode
  base64_encode_some [] h = absurd (omega arith)
  base64_encode_some (x ∷ bytes) h = rw (writes_some x bytes) refl

  -- What is sent are the encoded packets, numbered from `seq` on, of the bytes `rest`.
  abbrev pub Sends : Outcome (List Packet) → ℕ → List ℕ → Type 0
  Sends m seq rest =
      (packets : List Packet) × (m ≡ returns (encoded packets))
      × (payload packets ≡ rest)
      × AreNumberedFrom seq packets

  last_packet-Sends : (seq : ℕ) (rest : List ℕ) → Sends (last_packet b seq rest) seq rest
  unfolding last_packet
  last_packet-Sends seq [] = ([], refl, refl, tt)
  last_packet-Sends seq (x ∷ rest) = (
    (seq, x ∷ rest) ∷ [],
    rw (base64_encode_some (x ∷ rest) (omega arith)) refl,
    append-nil (x ∷ rest),
    (refl, tt),
  )

  send_from-Sends :
      (fuel seq : ℕ) (rest : List ℕ)
      → length rest < fuel
      → 20 ≤ seq
      → Sends (send_from b fuel seq rest) seq rest
  unfolding send_from full_packet
  send_from-Sends zero seq rest f h = absurd (omega arith)
  send_from-Sends (suc fuel) seq rest f h = elim (Bool-cases (leb file_data_len (length rest))) [
    | inl full ↦
        let enough = leb→le file_data_len (length rest) full in
        let left = length-drop file_data_len rest in
        let taken = length-take file_data_len rest in
        let (packets, sent, p, n) =
          send_from-Sends fuel (seq + 1) (drop file_data_len rest) (omega arith) (omega arith) in
        (
          (seq, take file_data_len rest) ∷ packets,
          rw
              (
                full,
                lt→leb 19 seq (omega arith),
                base64_encode_some (take file_data_len rest) (omega arith),
                sent,
              )
              refl,
          ap (◌++◌ (take file_data_len rest)) p ∙ take_payload file_data_len rest,
          (refl, n),
        )
    | inr short ↦ rw short (last_packet-Sends seq rest)
  ]

  -- The turns of the loop below the twentieth packet send nothing.
  send_from-skip :
      (k fuel seq : ℕ) (rest : List ℕ)
      → seq + k ≡ 20
      → k * file_data_len ≤ length rest
      → length rest < fuel
      → Sends (send_from b fuel seq rest) 20 (drop (k * file_data_len) rest)
  unfolding send_from full_packet
  send_from-skip zero fuel seq rest h e f =
      subst (λ n. Sends (send_from b fuel seq rest) n rest) (omega arith)
        (send_from-Sends fuel seq rest f (omega arith))
  send_from-skip (suc k) zero seq rest h e f = absurd (omega arith)
  send_from-skip (suc k) (suc fuel) seq rest h e f =
      let left = length-drop file_data_len rest in
      let taken = length-take file_data_len rest in
      let (packets, sent, p, n) =
        send_from-skip k fuel (seq + 1) (drop file_data_len rest) (omega arith) (omega arith)
          (omega arith) in
      (
        packets,
        rw
            (
              le→leb file_data_len (length rest) (omega arith),
              le→leb seq 19 (omega arith),
              base64_encode_some (take file_data_len rest) (omega arith),
              sent,
            )
            refl,
        p
            ∙ drop_further file_data_len (k * file_data_len) (suc k * file_data_len) rest
                (omega arith),
        n,
      )

  -- SendFile ends without an exception, and its packets carry, encoded, in order and numbered from 20
  -- on, exactly the bytes of the file from the first 20 full packets on: the 20480 bytes before that
  -- are not sent. The file has at least those.
  pub send_file_lem :
      (content : List ℕ)
      → 20 * file_data_len ≤ length content
      → (packets : List Packet) × (send_file b content ≡ returns (encoded packets))
        × (payload packets ≡ drop (20 * file_data_len) content)
        × AreNumberedFrom 20 packets
  unfolding send_file
  send_file_lem content h = send_from-skip 20 (length content + 1) 0 content refl h (omega arith)
