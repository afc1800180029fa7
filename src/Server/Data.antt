-- ===== src/Server/Data.antt =====
-- HandleData and the end of FinalCheck, logicsystem.cpp and file.cpp.
use boost_asio_threadpool.Base.{
  Bool, Bool-cases, Bytes_eq, List, String, String_eq, [], arith, beq_refl, false, get_or,
  get_or-set_self, if◌then◌else◌, inl, inr, none, refl, some, subst, sym, true, ℕ, ℕ_eq, ◌%◌, ◌&&◌,
  ◌<◌, ◌==◌, ◌∙◌, ◌∷◌, ◌≡◌, ◌++◌,
}
use boost_asio_threadpool.Base.Outcome.{returns, returns-injective, undefined}
use boost_asio_threadpool.Base64.{Bio, base64_decode, base64_encode}
use boost_asio_threadpool.Base64.RoundTrip.{base64_decode-base64_encode}
use boost_asio_threadpool.FileManagement.{find_file}
use boost_asio_threadpool.FileManagement.Find.{find_file-remove_file_own}
use boost_asio_threadpool.Hash.{Md5, calculate_file_hash}
use boost_asio_threadpool.Receive.{FileToReceve, add_packet, check_missing_packets}
use boost_asio_threadpool.Receive.FinalCheck.{file_complete, final_check_whole}
use boost_asio_threadpool.Receive.Transfer.{IsValid, prefix}
use boost_asio_threadpool.Session.FileIds.{max_upload_num, release_file_id}
use boost_asio_threadpool.Server.{
  ServerSession, check_lost, check_lost_per_bags, completes, conclude, final_accepted,
  final_check_thread, handle_data, put_file, re_check, re_check_file, send_message,
  server_handle_final_bag, store_data, tell_lost, tells_lost_bag,
}
use boost_asio_threadpool.Server.Held.{IsHeld, find_file-put_file}

-- What base64_encode gave comes back.
pub decode_encoded :
    (b : Bio) (x : ℕ) (xs encoded : List ℕ)
    → base64_encode b (x ∷ xs) ≡ returns encoded
    → base64_decode b encoded ≡ returns (x ∷ xs)
decode_encoded b x xs encoded e =
    let (text, e', d) = base64_decode-base64_encode b x xs in
    subst (λ t. base64_decode b t ≡ returns (x ∷ xs)) (returns-injective (sym e' ∙ e)) d

-- Whether a packet makes the server ask for lost ones.
abbrev pub asks : ℕ → FileToReceve → Bool
asks seq file =
    if file.able_to_receive_lost_bag && (seq % check_lost_per_bags == 0)
    then (check_missing_packets false file).1
    else false

module _ (uuid : String) where
  pub own_file :
      (i : ℕ) (file : FileToReceve) (s : ServerSession)
      → find_file uuid i (put_file uuid i file s).files ≡ some file
  own_file i file s = find_file-put_file uuid i i file s ∙ rw (beq_refl i) refl

  -- What the check for gaps leaves of the file.
  abbrev pub told : FileToReceve × Bool → FileToReceve
  told r = if r.1 then record r.0 { able_to_receive_lost_bag = false } else r.0

  abbrev pub after_check : ℕ → FileToReceve → FileToReceve
  after_check seq file =
      if file.able_to_receive_lost_bag && (seq % check_lost_per_bags == 0)
      then told (check_missing_packets false file)
      else file

  tell_lost-sent :
      (i : ℕ) (r : FileToReceve × Bool) (s : ServerSession)
      → ((tell_lost uuid i r s).sent
          ≡ (if r.1 then s.sent ++ (tells_lost_bag i r.0.missing_seqs ∷ []) else s.sent))
        × (find_file uuid i (tell_lost uuid i r s).files ≡ some (told r))
  unfolding tell_lost send_message put_file
  tell_lost-sent i (file, false) s = (refl, own_file i file s)
  tell_lost-sent i (file, true) s =
      (refl, own_file i (record file { able_to_receive_lost_bag = false }) s)

  check_lost-sent :
      (i seq : ℕ) (file : FileToReceve) (s : ServerSession)
      → ((check_lost uuid i seq file s).sent ≡ (
          if asks seq file
          then s.sent ++ (tells_lost_bag i (check_missing_packets false file).0.missing_seqs ∷ [])
          else s.sent))
        × (find_file uuid i (check_lost uuid i seq file s).files ≡ some (after_check seq file))
  unfolding check_lost
  check_lost-sent i seq file s =
      elim (Bool-cases (file.able_to_receive_lost_bag && (seq % check_lost_per_bags == 0))) [
        | inl looks ↦ rw looks (tell_lost-sent i (check_missing_packets false file) s)
        | inr passes ↦ rw passes (unfold put_file in refl, own_file i file s)
      ]

  -- A packet of a file that the server has, not empty and encoded by the client, is stored with the
  -- client's bytes as AddPacket stores them, where AddPacket returns. Lost packets are told exactly at
  -- every hundredth packet that finds a gap while the server may ask, and from then on it may not.
  pub handle_data_lem :
      (b : Bio) (i seq x : ℕ) (xs encoded : List ℕ) (file after : FileToReceve) (taken : Bool)
      (s : ServerSession)
      → base64_encode b (x ∷ xs) ≡ returns encoded
      → find_file uuid i s.files ≡ some file
      → add_packet false file seq (x ∷ xs) ≡ returns (after, taken)
      → (s' : ServerSession) × (handle_data b uuid i seq encoded s ≡ returns s')
        × (find_file uuid i s'.files ≡ some (after_check seq after))
        × (s'.sent ≡ (
            if asks seq after
            then s.sent
              ++ (tells_lost_bag i (check_missing_packets false after).0.missing_seqs ∷ [])
            else s.sent))
  unfolding handle_data store_data
  handle_data_lem b i seq x xs encoded file after taken s e f a =
      let (sent, found) = check_lost-sent i seq after s in
      (check_lost uuid i seq after s, rw (decode_encoded b x xs encoded e, f, a) refl, found, sent)

  -- Where the session has no file of a number, each message about that number is undefined behaviour:
  -- the null pointer that findFile gives is used. The data of a data message is text that can be
  -- decoded.
  pub no_file_undefined :
      (b : Bio) (i seq : ℕ) (bytes encoded : List ℕ) (s : ServerSession)
      → find_file uuid i s.files ≡ none
      → base64_decode b encoded ≡ returns bytes
      → (handle_data b uuid i seq encoded s ≡ undefined)
        × (server_handle_final_bag uuid i s ≡ undefined)
        × (re_check_file uuid i s ≡ undefined)
  unfolding handle_data store_data server_handle_final_bag final_accepted re_check_file re_check
  no_file_undefined b i seq bytes encoded s f d = (rw (d, f) refl, rw f refl, rw f refl)

  -- When the thread finds a file complete that has wholly arrived and been written, and whose client
  -- gave the hash of its content, it sends FileComplete, and the number is free again and has no file;
  -- the other numbers keep their files.
  pub final_check_thread_whole :
      (m : Md5) (p : ℕ → List ℕ) (i : ℕ) (file : FileToReceve) (s : ServerSession)
      → IsHeld uuid s
      → i < max_upload_num
      → IsValid p file
      → ((k : ℕ) → k < file.total_packets → get_or file.all_received_flags k false ≡ true)
      → file.flush_finished ≡ true
      → calculate_file_hash m (some (prefix p file.total_packets)) ≡ returns file.file_hash
      → (s' : ServerSession) × (final_check_thread m uuid i file s ≡ returns s')
        × (s'.sent ≡ s.sent ++ (completes i ∷ []))
        × (get_or s'.file_ids i false ≡ true)
        × ((j : ℕ)
            → find_file uuid j s'.files ≡ (if i == j then none else find_file uuid j s.files))
  unfolding final_check_thread conclude send_message release_file_id
  final_check_thread_whole m p i file s h small v all finished hash = (
    conclude uuid i (record file { stream_open = false }, file_complete) s,
    rw (final_check_whole m p file v all finished hash) refl,
    refl,
    get_or-set_self s.file_ids i true false (omega (arith, h.sized)),
    λ j. find_file-remove_file_own uuid i j s.files,
  )
