-- ===== src/Delivery/Handled.antt =====
-- HandleData of logicsystem.cpp on a run of packets, while a file of at most a window of packets arrives.
use boost_asio_threadpool.Base.{
  Bool, Bool-cases, Bytes_eq, List, String, String_eq, [], arith, false, if◌then◌else◌, inl, inr,
  leb, length, ltb, refl, some, suc, true, zero, ℕ, ℕ_eq, ◌%◌, ◌&&◌, ◌*◌, ◌+◌, ◌-◌, ◌<◌, ◌==◌, ◌∙◌,
  ◌∷◌, ◌≡◌, ◌≤◌,
}
use boost_asio_threadpool.Base.Outcome.{returns}
use boost_asio_threadpool.Base64.{Bio}
use boost_asio_threadpool.Delivery.{handle_packets, range}
use boost_asio_threadpool.Delivery.Arriving.{
  IsArriving, add_packet-IsArriving, noted-IsArriving, same-IsArriving, with_packet,
}
use boost_asio_threadpool.FileManagement.{find_file}
use boost_asio_threadpool.Hash.{Md5}
use boost_asio_threadpool.Receive.{
  FileToReceve, add_packet, check_missing_packets, is_nil, missing_from, missing_seqs_of,
}
use boost_asio_threadpool.Server.{ServerSession, check_lost_per_bags, handle_data}
use boost_asio_threadpool.Server.Data.{after_check, asks, handle_data_lem}
use boost_asio_threadpool.Server.Held.{IsHeld}
use boost_asio_threadpool.Server.Preserve.{handle_data-IsHeld}
use boost_asio_threadpool.Upload.{file_data_len}
use boost_asio_threadpool.Upload.ReTransmit.{chunk, chunk-some, packets_of}
use boost_asio_threadpool.Upload.SendFile.{base64_encode_some, encoded}

-- The packets of `got`, and `k` from `start` on.
abbrev pub with_range : ℕ → ℕ → (ℕ → Bool) → ℕ → Bool
with_range start k got j =
    if leb start j then (if ltb j (start + k) then true else got j) else got j

-- A packet whose number is below a hundred makes the server ask for nothing: packet 0 looks for gaps
-- before itself.
quiet :
    (seq : ℕ) (file : FileToReceve)
    → file.last_received_seq ≡ seq
    → seq < check_lost_per_bags
    → asks seq file ≡ false
unfolding check_missing_packets missing_seqs_of missing_from
quiet zero file last h =
    let none_before : file.last_received_seq - file.window_start ≡ 0 = omega (arith, last) in
    elim (Bool-cases file.able_to_receive_lost_bag) [
      | inl able ↦ rw (able, none_before) refl
      | inr shut ↦ rw shut refl
    ]
quiet (suc seq) file last h =
    let other : (suc seq % check_lost_per_bags == 0) ≡ false = ground arith in
    elim (Bool-cases file.able_to_receive_lost_bag) [
      | inl able ↦ rw (able, other) refl
      | inr shut ↦ rw shut refl
    ]

module _ (uuid : String) (i : ℕ) where
  -- The session has a file under the number, with the packets of `got`.
  pub record IsReceiving (p : ℕ → List ℕ) (n : ℕ) (hash : List ℕ) (got : ℕ → Bool)
      (s : ServerSession) : Type 0 where
    pub file : FileToReceve
    pub found : find_file uuid i s.files ≡ some file
    pub arriving : IsArriving p n hash got file
    pub held : IsHeld uuid s

  -- The same packets, told another way.
  abbrev retold :
      (p : ℕ → List ℕ) (n : ℕ) (hash : List ℕ) (got got' : ℕ → Bool) (s : ServerSession)
      → ((j : ℕ) → got j ≡ got' j)
      → IsReceiving p n hash got s
      → IsReceiving p n hash got' s
  retold p n hash got got' s same r = record {
    file = r.file;
    found = r.found;
    arriving = same-IsArriving p n hash got r.file r.arriving got' same;
    held = r.held;
  }

  -- The check for gaps of HandleData leaves the packets alone.
  after_check-IsArriving :
      (p : ℕ → List ℕ) (n : ℕ) (hash : List ℕ) (got : ℕ → Bool) (seq : ℕ) (file : FileToReceve)
      → IsArriving p n hash got file
      → IsArriving p n hash got (after_check uuid seq file)
        × ((after_check uuid seq file).last_received_seq ≡ file.last_received_seq)
  unfolding check_missing_packets
  after_check-IsArriving p n hash got seq file a =
      elim (Bool-cases (file.able_to_receive_lost_bag && (seq % check_lost_per_bags == 0))) [
        | inr passes ↦ rw passes (a, refl)
        | inl looks ↦ elim (Bool-cases (is_nil (missing_seqs_of false file))) [
          | inl none_lost ↦ rw (looks, none_lost) (a, refl)
          | inr lost ↦
              rw (looks, lost)
                (
                  noted-IsArriving p n hash got file a (missing_seqs_of false file) false
                      file.is_final_accepted,
                  refl,
                )
        ]
      ]

  module _ (b : Bio) where
    handle_data-some :
        (seq : ℕ) (bytes : List ℕ) (file after : FileToReceve) (taken : Bool) (s : ServerSession)
        → 0 < length bytes
        → find_file uuid i s.files ≡ some file
        → add_packet false file seq bytes ≡ returns (after, taken)
        → asks seq after ≡ false
        → (s' : ServerSession) × (handle_data b uuid i seq (b.text bytes) s ≡ returns s')
          × (find_file uuid i s'.files ≡ some (after_check uuid seq after))
          × (s'.sent ≡ s.sent)
    handle_data-some seq [] file after taken s h f a quiet_ = absurd (omega arith)
    handle_data-some seq (x ∷ xs) file after taken s h f a quiet_ =
        let (s', e, found, sent) =
          handle_data_lem uuid b i seq x xs (b.text (x ∷ xs)) file after taken s
            (base64_encode_some b (x ∷ xs) h) f a in
        (s', e, found, sent ∙ rw quiet_ refl)

    module _ (m : Md5) (opens : List ℕ → Bool) (content : List ℕ) (n : ℕ) (hash : List ℕ)
        (small : n ≤ check_lost_per_bags) where
      handle_data-IsReceiving :
          (got : ℕ → Bool) (seq : ℕ) (s : ServerSession)
          → IsReceiving (chunk content) n hash got s
          → seq < n
          → seq * file_data_len < length content
          → got seq ≡ false
          → (s' : ServerSession) × (handle_data b uuid i seq (b.text (chunk content seq)) s
              ≡ returns s')
            × (r : IsReceiving (chunk content) n hash (with_packet seq got) s')
            × (r.file.last_received_seq ≡ seq)
            × (s'.sent ≡ s.sent)
      handle_data-IsReceiving got seq s r h some_ new =
          let (after, e, a, last) =
            add_packet-IsArriving (chunk content) n hash got r.file r.arriving seq
              (omega (arith, small)) h new in
          let (s', run, found, sent) =
            handle_data-some seq (chunk content seq) r.file after true s
              (chunk-some content seq some_) r.found e
              (quiet seq after last (omega (arith, small))) in
          let (a', last') =
            after_check-IsArriving (chunk content) n hash (with_packet seq got) seq after a in
          (
            s',
            run,
            record {
              file = after_check uuid seq after;
              found = found;
              arriving = a';
              held =
                  handle_data-IsHeld b m uuid opens i seq (b.text (chunk content seq)) s s' r.held
                    run;
            },
            last' ∙ last,
            sent,
          )

      -- A run of packets that have not come yet is taken, and its last is the last that arrived.
      pub handle_packets-IsReceiving :
          (k start : ℕ) (got : ℕ → Bool) (s : ServerSession)
          (r : IsReceiving (chunk content) n hash got s)
          → start + k ≤ n
          → ((j : ℕ) → j < n → j * file_data_len < length content)
          → ((j : ℕ) → start ≤ j → j < start + k → got j ≡ false)
          → (s' : ServerSession) × (handle_packets uuid i b
                (encoded b (packets_of content (range start k)))
                s
              ≡ returns s')
            × (r' : IsReceiving (chunk content) n hash (with_range start k got) s')
            × (r'.file.last_received_seq
                ≡ (if k == 0 then r.file.last_received_seq else start + k - 1))
            × (s'.sent ≡ s.sent)
      unfolding handle_packets
      handle_packets-IsReceiving zero start got s r fits some_ new = (
        s,
        refl,
        retold (chunk content) n hash got (with_range start zero got) s (λ j. ground arith) r,
        refl,
        refl,
      )
      handle_packets-IsReceiving (suc k) start got s r fits some_ new =
          let (s1, e1, r1, last1, sent1) =
            handle_data-IsReceiving got start s r (omega arith) (some_ start (omega arith))
              (new start (omega arith) (omega arith)) in
          let (s2, e2, r2, last2, sent2) =
            handle_packets-IsReceiving k (start + 1) (with_packet start got) s1 r1 (omega arith)
              some_ (λ j a h. ground (arith, new j (omega arith) (omega arith))) in
          (
            s2,
            rw e1 e2,
            retold (chunk content) n hash (with_range (start + 1) k (with_packet start got))
                (with_range start (suc k) got) s2 (λ j. ground arith) r2,
            last2 ∙ ground (arith, last1),
            sent2 ∙ sent1,
          )
