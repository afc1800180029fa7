-- ===== src/Delivery/Whole.antt =====
-- An upload of logicsystem.cpp from its request to FileComplete.
use boost_asio_threadpool.Base.{
  Bool, List, String, [], arith, false, get_or, length, none, refl, some, sym, true, ℕ, ◌*◌, ◌++◌,
  ◌+◌, ◌-◌, ◌<◌, ◌∙◌, ◌∷◌, ◌≡◌, ◌≤◌, ap, lt→ltb,
}
use boost_asio_threadpool.Base.Outcome.{>>=_returns, returns}
use boost_asio_threadpool.Base64.{Bio}
use boost_asio_threadpool.Delivery.{
  asked_last, check_file, range, send_again, send_and_check, write_out,
}
use boost_asio_threadpool.Delivery.Chunks.{prefix-chunk_whole}
use boost_asio_threadpool.Delivery.Handled.{IsReceiving, handle_packets-IsReceiving, with_range}
use boost_asio_threadpool.Delivery.Sent.{handle_re_transmit-packets_of, send_file-packets_of}
use boost_asio_threadpool.Delivery.Stages.{
  check_file_asks, check_file_completes, handle_upload_request-IsReceiving,
  re_check_file-IsReceiving, server_handle_final_bag-IsReceiving, write_out-IsOnDisk,
}
use boost_asio_threadpool.FileManagement.{find_file}
use boost_asio_threadpool.Hash.{Md5, calculate_file_hash}
use boost_asio_threadpool.Receive.{FileToReceve}
use boost_asio_threadpool.Receive.Transfer.{prefix}
use boost_asio_threadpool.Server.{
  Message, ServerSession, UploadRequest, completes, handle_upload_request, check_lost_per_bags,
  is_readable, receives_final, rejects, requests_verify, starts, tells_lost_bag,
}
use boost_asio_threadpool.Server.Held.{IsHeld}
use boost_asio_threadpool.Upload.{file_data_len, handle_re_transmit, total_packets}
use boost_asio_threadpool.Upload.ReTransmit.{chunk, packets_of}
use boost_asio_threadpool.Upload.Request.{request_upload, request_upload_lem}
use boost_asio_threadpool.Upload.SendFile.{encoded, total_packets_lem}

four_more :
    {A : Type 0} (xs : List A) (a b c d : A)
    → (((xs ++ (a ∷ [])) ++ (b ∷ [])) ++ (c ∷ [])) ++ (d ∷ []) ≡ xs ++ (a ∷ b ∷ c ∷ d ∷ [])
four_more [] a b c d = refl
four_more (x ∷ xs) a b c d = ap (λ l. x ∷ l) (four_more xs a b c d)

asked_last-append :
    (messages : List Message) (seqs seqs' : List ℕ) (i : ℕ)
    → asked_last seqs (messages ++ (tells_lost_bag i seqs' ∷ [])) ≡ seqs'
asked_last-append [] seqs seqs' i = refl
asked_last-append (rejects ∷ messages) seqs seqs' i = asked_last-append messages seqs seqs' i
asked_last-append (starts j ∷ messages) seqs seqs' i = asked_last-append messages seqs seqs' i
asked_last-append (receives_final j ∷ messages) seqs seqs' i =
    asked_last-append messages seqs seqs' i
asked_last-append (completes j ∷ messages) seqs seqs' i = asked_last-append messages seqs seqs' i
asked_last-append (requests_verify j ∷ messages) seqs seqs' i =
    asked_last-append messages seqs seqs' i
asked_last-append (tells_lost_bag j seqs'' ∷ messages) seqs seqs' i =
    asked_last-append messages seqs'' seqs' i

module _ (b : Bio) (m : Md5) (uuid : String) (opens : List ℕ → Bool) where
  module _ (content : List ℕ) (n i : ℕ) (hash : List ℕ) (fits : n ≤ check_lost_per_bags)
      (above : 20 < n) (ends : (j : ℕ) → j < n → j * file_data_len < length content) where
    -- The packets that SendFile sends.
    abbrev sent_packets : ℕ → Bool
    sent_packets = with_range 20 (n - 20) (λ j. false)

    send_and_check-IsReceiving :
        (s : ServerSession)
        → 20 * file_data_len ≤ length content
        → total_packets (length content) ≡ n
        → IsReceiving uuid i (chunk content) n hash (λ j. false) s
        → (s' : ServerSession) × (send_and_check b m uuid i content s ≡ returns s')
          × (s'.sent ≡ (s.sent ++ (receives_final i ∷ [])) ++ (tells_lost_bag i (range 0 20) ∷ []))
          × (asked_last [] s'.sent ≡ range 0 20)
          × IsReceiving uuid i (chunk content) n hash sent_packets s'
    unfolding send_and_check
    send_and_check-IsReceiving s more counted r =
        let (s1, e1, r1, last1, sent1) =
          handle_packets-IsReceiving uuid i b m opens content n hash fits (n - 20) 20 (λ j. false) s
            r (omega arith) ends (λ j a h. refl) in
        let (s2, e2, r2, last2, sent2) =
          server_handle_final_bag-IsReceiving b m uuid (chunk content) i n hash sent_packets s1
            r1 in
        let last : r2.file.last_received_seq + 1 ≡ n = ground (arith, last1, last2) in
        let (s3, e3, sent, r3) =
          check_file_asks b m uuid (chunk content) i n 20 hash s2 r2 (omega arith) above last in
        (
          s3,
          >>=_returns _
              (send_file-packets_of b content more
                ∙ ap (λ k. returns (encoded b (packets_of content (range 20 (k - 20))))) counted)
              (>>=_returns _ e1 (>>=_returns _ e2 e3)),
          sent
              ∙ ap (λ l. l ++ (tells_lost_bag i (range 0 20) ∷ []))
                  (sent2 ∙ ap (λ l. l ++ (receives_final i ∷ [])) sent1),
          ap (asked_last []) sent ∙ asked_last-append s2.sent [] (range 0 20) i,
          r3,
        )

    send_again-IsReceiving :
        (s : ServerSession)
        → 20 * file_data_len ≤ length content
        → asked_last [] s.sent ≡ range 0 20
        → IsReceiving uuid i (chunk content) n hash sent_packets s
        → (s' : ServerSession) × (send_again b uuid i content s ≡ returns s')
          × IsReceiving uuid i (chunk content) n hash (with_range 0 20 sent_packets) s'
          × (s'.sent ≡ s.sent)
    unfolding send_again
    send_again-IsReceiving s more asked r =
        let (s1, e1, r1, last1, sent1) =
          handle_packets-IsReceiving uuid i b m opens content n hash fits 20 0 sent_packets s r
            (omega arith) ends (λ j a h. ground arith) in
        let (s2, e2, r2, sent2) =
          re_check_file-IsReceiving b m uuid (chunk content) i n hash (with_range 0 20 sent_packets)
            s1 r1 in
        (
          s2,
          >>=_returns _
              (ap (handle_re_transmit b content) asked
                ∙ handle_re_transmit-packets_of b content 20 more)
              (>>=_returns _ e1 e2),
          r2,
          sent2 ∙ sent1,
        )

    whole : (j : ℕ) → j < n → with_range 0 20 sent_packets j ≡ true
    whole j h = ground arith

  -- A file of more than 20480 bytes and at most 100 packets, for which RequestUpload sends a request to
  -- a session that has a free number and can open the file, is delivered: the packets that
  -- SendFile sends, the first twenty that FinalCheck then asks for and that go out again, and the disk
  -- thread leave exactly the file's bytes on disk, and the next FinalCheck sends FileComplete and gives
  -- the number back. The server's messages are StartUpload, the answer to the end of the sending, one
  -- request for lost packets, which names those twenty, and FileComplete, and no others. The messages are
  -- handled one after the other, nothing is lost on the way, the disk thread is first woken after the
  -- last packet, and the read behind the flags that the last slide makes finds a clear bit.
  pub upload_completes :
      (file_name_of : List ℕ → List ℕ) (filepath content : List ℕ) (r : UploadRequest)
      (garbage j : ℕ) (s : ServerSession)
      → request_upload m file_name_of filepath (some content) ≡ some r
      → IsHeld uuid s
      → get_or s.file_ids j false ≡ true
      → opens r.file_name ≡ true
      → 20 * file_data_len < length content
      → length content ≤ check_lost_per_bags * file_data_len
      → (i : ℕ) × (started checked again written complete : ServerSession) × (file : FileToReceve)
        × (handle_upload_request uuid opens r garbage s ≡ returns started)
        × (send_and_check b m uuid i content started ≡ returns checked)
        × (send_again b uuid i content checked ≡ returns again)
        × (write_out uuid i r.file_num again ≡ returns written)
        × (find_file uuid i written.files ≡ some file)
        × (file.saved ≡ content)
        × (check_file uuid i m written ≡ returns complete)
        × (complete.sent
            ≡ s.sent
              ++ (starts i ∷ receives_final i ∷ tells_lost_bag i (range 0 20) ∷ completes i ∷ []))
        × (get_or complete.file_ids i false ≡ true)
        × (find_file uuid i complete.files ≡ none)
  upload_completes file_name_of filepath content r garbage j s asked_for h free opened more small =
      let (named, sized, counted, honest) =
        request_upload_lem m file_name_of filepath content r asked_for in
      let bounds = total_packets_lem (length content) in
      let n = r.file_num in
      let fits : n ≤ check_lost_per_bags = omega (arith, bounds, counted) in
      let above : 20 < n = omega (arith, bounds, counted) in
      let ends : (k : ℕ) → k < n → k * file_data_len < length content =
        λ k a. omega (arith, bounds, counted) in
      let whole_prefix : prefix (chunk content) n ≡ content =
        ap (prefix (chunk content)) counted ∙ prefix-chunk_whole content in
      let read : is_readable r ≡ true =
        rw
          (
            lt→ltb r.file_size 4294967296 (omega (arith, sized)),
            lt→ltb r.file_num 4294967296 (omega (arith, fits)),
          )
          refl in
      let (i, s1, e1, number, r1, sent1) =
        handle_upload_request-IsReceiving b m uuid (chunk content) opens r garbage j s h free read
          opened (omega (arith, fits)) in
      let (s2, e2, sent2, asked, r2) =
        send_and_check-IsReceiving content n i r.file_hash fits above ends s1 (omega arith)
          (sym counted) r1 in
      let (s3, e3, r3, sent3) =
        send_again-IsReceiving content n i r.file_hash fits above ends s2 (omega arith) asked r2 in
      let (s4, e4, d, sent4) =
        write_out-IsOnDisk b m uuid (chunk content) i n r.file_hash _ s3 r3 (omega arith)
          (whole content n i r.file_hash fits above ends) in
      let (s5, e5, sent5, freed, gone) =
        check_file_completes b m uuid (chunk content) i n r.file_hash s4 d number
          (ap (λ c. calculate_file_hash m (some c)) whole_prefix ∙ honest) in
      let told =
        sent5
        ∙ ap (λ l. l ++ (completes i ∷ []))
            (sent4
              ∙ sent3
              ∙ sent2
              ∙ ap (λ l. (l ++ (receives_final i ∷ [])) ++ (tells_lost_bag i (range 0 20) ∷ []))
                  sent1)
        ∙ four_more s.sent (starts i) (receives_final i) (tells_lost_bag i (range 0 20))
            (completes i) in
      (
        i,
        s1,
        s2,
        s3,
        s4,
        s5,
        d.file,
        e1,
        e2,
        e3,
        e4,
        d.found,
        d.saved ∙ whole_prefix,
        e5,
        told,
        freed,
        gone,
      )
