-- ===== src/Upload/ReTransmit.antt =====
-- HandleReTransmit of logicsystem.cpp: what goes out for the numbers that were asked for.
use boost_asio_threadpool.Base.{
  Bool, Bool-cases, List, [], inl, inr, ◌⊎◌, ◌++◌, arith, drop, false, length, length-drop,
  length-take, le→ltb, ltb, lt→ltb, refl, take, true, ℕ, ◌*◌, ◌+◌, ◌<◌, ◌∷◌, ◌≡◌, ◌≤◌,
}
use boost_asio_threadpool.Base.Outcome.{Outcome, returns, throws}
use boost_asio_threadpool.Base64.{Bio, base64_encode}
use boost_asio_threadpool.Upload.{
  Packet, encode_packet, file_data_len, handle_re_transmit, re_transmit_from,
}
use boost_asio_threadpool.Upload.SendFile.{base64_encode_some, encoded}

-- The bytes of the file that a packet of this number has to carry.
abbrev pub chunk : List ℕ → ℕ → List ℕ
chunk content seq = take file_data_len (drop (seq * file_data_len) content)

abbrev pub packets_of : List ℕ → List ℕ → List Packet
packets_of content [] = []
packets_of content (seq ∷ seqs) = (seq, chunk content seq) ∷ packets_of content seqs

-- Each number but the last names a full packet, and the last one a packet with at least one byte.
abbrev pub AreFull : List ℕ → List ℕ → Type 0
AreFull content [] = Unit {0}
AreFull content (seq ∷ []) = seq * file_data_len < length content
AreFull content (seq ∷ (seq' ∷ seqs)) =
    ((seq + 1) * file_data_len ≤ length content) × AreFull content (seq' ∷ seqs)

pub chunk-full :
    (content : List ℕ) (seq : ℕ)
    → (seq + 1) * file_data_len ≤ length content
    → ltb (length (chunk content seq)) file_data_len ≡ false
chunk-full content seq h =
    let dropped = length-drop (seq * file_data_len) content in
    let taken = length-take file_data_len (drop (seq * file_data_len) content) in
    le→ltb (length (chunk content seq)) file_data_len (grind arith)

pub chunk-short :
    (content : List ℕ) (seq : ℕ)
    → length content < (seq + 1) * file_data_len
    → ltb (length (chunk content seq)) file_data_len ≡ true
chunk-short content seq h =
    let dropped = length-drop (seq * file_data_len) content in
    let taken = length-take file_data_len (drop (seq * file_data_len) content) in
    lt→ltb (length (chunk content seq)) file_data_len (grind arith)

pub chunk-some :
    (content : List ℕ) (seq : ℕ)
    → seq * file_data_len < length content
    → 0 < length (chunk content seq)
chunk-some content seq h =
    let dropped = length-drop (seq * file_data_len) content in
    let taken = length-take file_data_len (drop (seq * file_data_len) content) in grind arith

module _ (b : Bio) where
  -- Each packet that is asked for goes out once, in the order asked for, with the bytes that the file
  -- has at its place, encoded, as long as only the last of them may be the file's short last packet.
  pub handle_re_transmit_lem :
      (content seqs : List ℕ)
      → AreFull content seqs
      → handle_re_transmit b content seqs ≡ returns (encoded b (packets_of content seqs))
  unfolding handle_re_transmit
  handle_re_transmit_lem content [] h = refl
  handle_re_transmit_lem content (seq ∷ []) h =
      rw (base64_encode_some b (chunk content seq) (chunk-some content seq h)) refl
  handle_re_transmit_lem content (seq ∷ (seq' ∷ seqs)) h =
      rw
        (
          chunk-full content seq h.0,
          base64_encode_some b (chunk content seq) (chunk-some content seq (omega arith)),
          handle_re_transmit_lem content (seq' ∷ seqs) h.1,
        )
        refl

  pub base64_encode-cases :
      (bytes : List ℕ)
      → ((text : List ℕ) × (base64_encode b bytes ≡ returns text))
        ⊎ (base64_encode b bytes ≡ throws)
  unfolding base64_encode
  base64_encode-cases bytes = elim (Bool-cases (b.writes bytes)) [
    | inl e ↦ inl (b.text bytes, rw e refl)
    | inr e ↦ inr (rw e refl)
  ]

  encode_packet-throws :
      (seq : ℕ) (bytes : List ℕ) (more : Outcome (List Packet))
      → more ≡ throws
      → encode_packet b seq bytes more ≡ throws
  encode_packet-throws seq bytes more e = elim (base64_encode-cases bytes) [
    | inl (text, f) ↦ rw (f, e) refl
    | inr f ↦ rw f refl
  ]

  failed-throws :
      (content : List ℕ) (seq : ℕ) (seqs : List ℕ)
      → re_transmit_from b true content (seq ∷ seqs) ≡ throws
  unfolding re_transmit_from base64_encode
  failed-throws content seq seqs = rw b.writes_none refl

  short-throws :
      (content before : List ℕ) (failed : Bool) (seq seq' : ℕ) (seqs : List ℕ)
      → length content < (seq + 1) * file_data_len
      → re_transmit_from b failed content (before ++ (seq ∷ (seq' ∷ seqs))) ≡ throws
  unfolding re_transmit_from
  short-throws content [] true seq seq' seqs h = failed-throws content seq (seq' ∷ seqs)
  short-throws content [] false seq seq' seqs h =
      encode_packet-throws seq (chunk content seq) _
        (rw (chunk-short content seq h) (failed-throws content seq' seqs))
  short-throws content (n ∷ before) failed seq seq' seqs h =
      encode_packet-throws n _ _ (short-throws content before _ seq seq' seqs h)

  -- A packet that is asked for behind a short one, whatever was asked for before, makes
  -- HandleReTransmit throw: the failed stream reads no byte, and no bytes cannot be encoded.
  pub re_transmit_after_short :
      (content before : List ℕ) (seq seq' : ℕ) (seqs : List ℕ)
      → length content < (seq + 1) * file_data_len
      → handle_re_transmit b content (before ++ (seq ∷ (seq' ∷ seqs))) ≡ throws
  unfolding handle_re_transmit
  re_transmit_after_short content before seq seq' seqs h =
      short-throws content before false seq seq' seqs h
