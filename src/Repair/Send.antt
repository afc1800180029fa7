-- ===== src/Repair/Send.antt =====
-- SendDamagedHashBlock of logicsystem.cpp: what goes out for the damaged blocks.
use boost_asio_threadpool.Base.{
  Bool, Bool-cases, List, [], ap, arith, drop, drop_all, false, inl, inr, leb, leb→le, leb→lt,
  length, length-drop, length-take, le→ltb, refl, subst, suc, take, true, zero, ℕ, ◌*◌, ◌++◌, ◌+◌,
  ◌<◌, ◌∙◌, ◌∷◌, ◌≡◌, ◌≤◌, ◌⊎◌,
}
use boost_asio_threadpool.Base.Outcome.{>>=_returns, >>=_throws, returns, throws}
use mathlib.Core.Bool.{false≢true}
use boost_asio_threadpool.Base64.{Bio, base64_encode}
use boost_asio_threadpool.Blocks.{hash_verify_block}
use boost_asio_threadpool.Delivery.{range}
use boost_asio_threadpool.Repair.{
  Reading, extra_packet, read_packet, seek, send_blocks, send_damaged_hash_block, send_packets,
}
use boost_asio_threadpool.Upload.{Packet, file_data_len}
use boost_asio_threadpool.Upload.ReTransmit.{
  base64_encode-cases, chunk, chunk-full, chunk-short, chunk-some, packets_of,
}
use boost_asio_threadpool.Upload.SendFile.{base64_encode_some, encoded}

-- The packets of the blocks.
abbrev pub packets_in : List ℕ → List ℕ
packets_in [] = []
packets_in (seq ∷ seqs) = range (seq * 10) 10 ++ packets_in seqs

-- Each block but the last is whole, and the last one may lack a part of its tenth packet.
abbrev pub AreBlocks : List ℕ → List ℕ → Type 0
AreBlocks content [] = Unit {0}
AreBlocks content (seq ∷ []) = (seq * 10 + 9) * file_data_len < length content
AreBlocks content (seq ∷ (seq' ∷ seqs)) =
    ((seq * 10 + 10) * file_data_len ≤ length content) × AreBlocks content (seq' ∷ seqs)

packets_of-append :
    (content xs ys : List ℕ)
    → packets_of content (xs ++ ys) ≡ packets_of content xs ++ packets_of content ys
packets_of-append content [] ys = refl
packets_of-append content (x ∷ xs) ys =
    ap (◌∷◌ (x, chunk content x)) (packets_of-append content xs ys)

module _ (b : Bio) where
  encoded-append : (xs ys : List Packet) → encoded b (xs ++ ys) ≡ encoded b xs ++ encoded b ys
  encoded-append [] ys = refl
  encoded-append ((seq, bytes) ∷ xs) ys = ap (◌∷◌ (seq, b.text bytes)) (encoded-append xs ys)

  module _ (message_size : Packet → ℕ) (content : List ℕ) where
    -- A stream in front of packet `seq`.
    record IsAt (seq : ℕ) (r : Reading) : Type 0 where
      pub sound : r.failed ≡ false
      pub placed : r.position ≡ seq * file_data_len

    read-chunk :
        (seq : ℕ) (r : Reading)
        → IsAt seq r
        → (read_packet content r).bytes_read ≡ chunk content seq
    unfolding read_packet
    read-chunk seq r a = rw (a.sound, a.placed) refl

    read_packet-IsAt :
        (seq : ℕ) (r : Reading)
        → IsAt seq r
        → (seq + 1) * file_data_len ≤ length content
        → IsAt (seq + 1) (read_packet content r)
    unfolding read_packet
    read_packet-IsAt seq r a h = record {
      sound = rw (a.sound, a.placed) (chunk-full content seq h);
      placed = rw (a.sound, a.placed) (omega arith);
    }

    read_packet-total :
        (seq : ℕ) (r : Reading)
        → IsAt seq r
        → (read_packet content r).total ≡ r.total + length (chunk content seq)
    unfolding read_packet
    read_packet-total seq r a = rw (a.sound, a.placed) refl

    -- Packets that the file has, the last of which may be its short last one.
    send_packets-range :
        (n seq : ℕ) (r : Reading)
        → IsAt seq r
        → (seq + n) * file_data_len < length content
        → (r' : Reading) × (send_packets b message_size (suc n) content seq r
            ≡ returns (encoded b (packets_of content (range seq (suc n))), r'))
          × (r.total + n * file_data_len ≤ r'.total)
          × ((seq + suc n) * file_data_len ≤ length content → IsAt (seq + suc n) r')
    unfolding send_packets
    send_packets-range zero seq r a h =
        let r1 = read_packet content r in
        (
          r1,
          >>=_returns _
              (ap (base64_encode b) (read-chunk seq r a)
                ∙ base64_encode_some b (chunk content seq) (chunk-some content seq (omega arith)))
              refl,
          (omega (arith, (read_packet-total seq r a))),
          λ full. read_packet-IsAt seq r a full,
        )
    send_packets-range (suc n) seq r a h =
        let r1 = read_packet content r in
        let a1 = read_packet-IsAt seq r a (omega arith) in
        let (r', e, t, w) = send_packets-range n (seq + 1) r1 a1 (omega arith) in
        (
          r',
          >>=_returns _
              (ap (base64_encode b) (read-chunk seq r a)
                ∙ base64_encode_some b (chunk content seq) (chunk-some content seq (omega arith)))
              (>>=_returns _ e refl),
          omega (
            arith,
            read_packet-total seq r a,
            t,
            length-drop (seq * file_data_len) content,
            length-take file_data_len (drop (seq * file_data_len) content),
          ),
          λ full. subst (λ k. IsAt k r') (omega arith) (w (omega arith)),
        )

    seek-IsAt :
        (seq : ℕ) (r : Reading)
        → r.failed ≡ false
        → IsAt (seq * 10) (seek (seq * hash_verify_block) r)
    unfolding seek
    seek-IsAt seq r sound = record { sound = sound; placed = rw sound (omega arith) }

    seek-failed : (start : ℕ) (r : Reading) → r.failed ≡ true → (seek start r).failed ≡ true
    unfolding seek
    seek-failed start r h = h

    extra_packet_none :
        (seq : ℕ) (r : Reading)
        → file_data_len ≤ r.total
        → extra_packet b message_size seq r ≡ returns []
    unfolding extra_packet
    extra_packet_none seq r h = elim (Bool-cases r.at_end) [
      | inl e ↦ rw (e, le→ltb r.total file_data_len h) refl
      | inr e ↦ rw e refl
    ]

    -- One block, the others after it.
    send_block :
        (seq : ℕ) (seqs : List ℕ) (r : Reading)
        → r.failed ≡ false
        → (seq * 10 + 9) * file_data_len < length content
        → (r' : Reading) × ((rest : List Packet)
            → send_blocks b message_size content seqs r' ≡ returns rest
            → send_blocks b message_size content (seq ∷ seqs) r
              ≡ returns (encoded b (packets_of content (range (seq * 10) 10)) ++ rest))
          × ((seq * 10 + 10) * file_data_len ≤ length content → r'.failed ≡ false)
    unfolding send_blocks
    send_block seq seqs r sound h =
        let (r', e, t, w) =
          send_packets-range 9 (seq * 10) (seek (seq * hash_verify_block) r) (seek-IsAt seq r sound)
            h in
        (
          r',
          λ rest more. >>=_returns _ e (
              >>=_returns _ (extra_packet_none (seq * 10 + 10) r' (omega (arith, t)))
                (>>=_returns _ more refl)),
          λ full. (w full).sound,
        )

    send_blocks_lem :
        (seqs : List ℕ) (r : Reading)
        → r.failed ≡ false
        → AreBlocks content seqs
        → send_blocks b message_size content seqs r
          ≡ returns (encoded b (packets_of content (packets_in seqs)))
    unfolding send_blocks
    send_blocks_lem [] r sound h = refl
    send_blocks_lem (seq ∷ []) r sound h = let (r', e, w) = send_block seq [] r sound h in e [] refl
    send_blocks_lem (seq ∷ (seq' ∷ seqs)) r sound h =
        let (r', e, w) = send_block seq (seq' ∷ seqs) r sound (omega arith) in
        e (encoded b (packets_of content (packets_in (seq' ∷ seqs))))
          (send_blocks_lem (seq' ∷ seqs) r' (w h.0) h.1)

    -- The packets of each damaged block go out once, in order, with the client's bytes, as long as only
    -- the last block may be the file's last one, and that one has ten packets, if a short one; the
    -- stream must not be open already.
    pub send_damaged_hash_block_lem :
        (seqs : List ℕ)
        → AreBlocks content seqs
        → send_damaged_hash_block b message_size false content seqs
          ≡ returns (encoded b (packets_of content (packets_in seqs)))
    unfolding send_damaged_hash_block
    send_damaged_hash_block_lem seqs h = send_blocks_lem seqs _ refl h

    -- A turn whose later turns throw.
    later-throws :
        (n seq : ℕ) (r : Reading)
        → send_packets b message_size n content (seq + 1) (read_packet content r) ≡ throws
        → send_packets b message_size (suc n) content seq r ≡ throws
    unfolding send_packets
    later-throws n seq r e = elim (base64_encode-cases b (read_packet content r).bytes_read) [
      | inl (text, f) ↦ >>=_returns _ f (>>=_throws _ e)
      | inr f ↦ >>=_throws _ f
    ]

    -- A turn that reads nothing.
    nothing-throws :
        (n seq : ℕ) (r : Reading)
        → (read_packet content r).bytes_read ≡ []
        → send_packets b message_size (suc n) content seq r ≡ throws
    unfolding send_packets base64_encode
    nothing-throws n seq r e = rw (e, b.writes_none) refl

    failed-throws :
        (n seq : ℕ) (r : Reading)
        → r.failed ≡ true
        → send_packets b message_size (suc n) content seq r ≡ throws
    failed-throws n seq r e = nothing-throws n seq r (unfold read_packet in rw e refl)

    short-throws :
        (n seq : ℕ) (r : Reading)
        → IsAt seq r
        → length content ≤ (seq + n) * file_data_len
        → send_packets b message_size (suc n) content seq r ≡ throws
    short-throws zero seq r a h = nothing-throws zero seq r (
        read-chunk seq r a
        ∙ ap (take file_data_len) (drop_all (seq * file_data_len) content (omega arith)))
    short-throws (suc n) seq r a h =
        elim (Bool-cases (leb ((seq + 1) * file_data_len) (length content))) [
          | inl full ↦ later-throws (suc n) seq r (
              short-throws n (seq + 1) (read_packet content r)
                (read_packet-IsAt seq r a (leb→le _ _ full)) (omega arith))
          | inr short ↦ later-throws (suc n) seq r (
              failed-throws n (seq + 1) (read_packet content r) (
                unfold read_packet in
                rw (a.sound, a.placed) (chunk-short content seq (leb→lt _ _ short))))
        ]

    -- Where the file has no tenth packet for the first block, or the stream is still open from an
    -- earlier call, SendDamagedHashBlock throws, whatever other blocks are asked for: a failed stream
    -- reads no byte, and no bytes cannot be encoded.
    pub send_damaged_hash_block_throws :
        (already_open : Bool) (seq : ℕ) (seqs : List ℕ)
        → (already_open ≡ true) ⊎ (length content ≤ (seq * 10 + 9) * file_data_len)
        → send_damaged_hash_block b message_size already_open content (seq ∷ seqs) ≡ throws
    unfolding send_damaged_hash_block send_blocks
    send_damaged_hash_block_throws true seq seqs h =
        >>=_throws _ (failed-throws 9 (seq * 10) _ (seek-failed (seq * hash_verify_block) _ refl))
    send_damaged_hash_block_throws false seq seqs (inr h) =
        >>=_throws _ (short-throws 9 (seq * 10) _ (seek-IsAt seq _ refl) h)
    send_damaged_hash_block_throws false seq seqs (inl h) = absurd (false≢true h)
