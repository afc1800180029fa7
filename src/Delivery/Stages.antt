-- ===== src/Delivery/Stages.antt =====
-- The handlers of logicsystem.cpp and the threads of file.cpp that stand before and after the packets.
use boost_asio_threadpool.Base.{
  Bool, Bytes_eq, List, String, String_eq, [], ap, arith, beq_refl, false, get_or, inl, inr, lt→leb,
  none, refl, set, some, suc, sym, true, zero, ℕ, ℕ_eq, ◌++◌, ◌+◌, ◌-◌, ◌<◌, ◌∙◌, ◌∷◌, ◌≡◌,
}
use boost_asio_threadpool.Base.Outcome.{returns, ◌>>=◌}
use mathlib.Core.Bool.{false≢true}
use boost_asio_threadpool.Base64.{Bio}
use boost_asio_threadpool.Delivery.{check_file, range, with_file, write_out}
use boost_asio_threadpool.Delivery.Arriving.{new_file-IsArriving, noted-IsArriving}
use boost_asio_threadpool.Delivery.Gap.{missing_seqs_of-range}
use boost_asio_threadpool.Delivery.Handled.{IsReceiving, with_range}
use boost_asio_threadpool.Delivery.Written.{flush_all-IsWritten}
use boost_asio_threadpool.FileManagement.{find_file}
use boost_asio_threadpool.Hash.{Md5, calculate_file_hash}
use boost_asio_threadpool.Receive.{FileToReceve, is_nil, new_file}
use boost_asio_threadpool.Receive.FinalCheck.{final_check_gap, tell_lost_bag}
use boost_asio_threadpool.Receive.Run.{flush_all, flush_all-finishes}
use boost_asio_threadpool.Receive.Transfer.{IsValid, prefix}
use boost_asio_threadpool.Receive.Window.{set_within}
use boost_asio_threadpool.Server.{
  completes, ServerSession, UploadRequest, conclude, final_accepted, final_check_thread,
  handle_upload_request, is_readable, put_file, re_check, re_check_file, receives_final,
  send_message, server_handle_final_bag, starts, tells_lost_bag,
}
use boost_asio_threadpool.Server.Data.{final_check_thread_whole, own_file}
use boost_asio_threadpool.Server.Held.{IsHeld, file-taken, put_file-IsHeld, send_message-IsHeld}
use boost_asio_threadpool.Server.Requests.{handle_upload_request_lem}
use boost_asio_threadpool.Server.Preserve.{handle_upload_request-IsHeld}
use boost_asio_threadpool.Session.FileIds.{max_upload_num}

range_some : (k : ℕ) → 0 < k → is_nil (range 0 k) ≡ false
range_some zero h = absurd (omega arith)
range_some (suc k) h = refl

module _ (b : Bio) (m : Md5) (uuid : String) (p : ℕ → List ℕ) where
  -- A change of what the file notes beside its packets, in a session that has sent something since.
  abbrev noted :
      (i n : ℕ) (hash : List ℕ) (got : ℕ → Bool) (missing : List ℕ) (able accepted : Bool)
      (s s' : ServerSession) (r : IsReceiving uuid i p n hash got s)
      → find_file uuid i s'.files ≡ some r.file
      → IsHeld uuid s'
      → IsReceiving uuid i p n hash got (
          put_file uuid i
            (record r.file {
              missing_seqs = missing;
              able_to_receive_lost_bag = able;
              is_final_accepted = accepted;
            })
            s')
  noted i n hash got missing able accepted s s' r found held =
      let file = record r.file {
        missing_seqs = missing;
        able_to_receive_lost_bag = able;
        is_final_accepted = accepted;
      } in
      record {
        file = file;
        found = own_file uuid i file s';
        arriving = noted-IsArriving p n hash got r.file r.arriving missing able accepted;
        held = put_file-IsHeld uuid i file s' (file-taken uuid i r.file s' held found) held;
      }

  -- The handler of the last packet's message.
  pub server_handle_final_bag-IsReceiving :
      (i n : ℕ) (hash : List ℕ) (got : ℕ → Bool) (s : ServerSession)
      (r : IsReceiving uuid i p n hash got s)
      → (s' : ServerSession) × (server_handle_final_bag uuid i s ≡ returns s')
        × (r' : IsReceiving uuid i p n hash got s') × (r'.file.last_received_seq
            ≡ r.file.last_received_seq)
        × (s'.sent ≡ s.sent ++ (receives_final i ∷ []))
  unfolding server_handle_final_bag final_accepted
  server_handle_final_bag-IsReceiving i n hash got s r =
      let s1 = send_message (receives_final i) s in
      let found : find_file uuid i s1.files ≡ some r.file = unfold send_message in r.found in
      (
        put_file uuid i (record r.file { is_final_accepted = true }) s1,
        ap (λ o. final_accepted uuid i o s1) r.found,
        noted i n hash got r.file.missing_seqs r.file.able_to_receive_lost_bag true s s1 r found
            (send_message-IsHeld uuid (receives_final i) s r.held),
        refl,
        unfold put_file send_message in refl,
      )

  -- The handler of the message that the lost packets have been sent.
  pub re_check_file-IsReceiving :
      (i n : ℕ) (hash : List ℕ) (got : ℕ → Bool) (s : ServerSession)
      → IsReceiving uuid i p n hash got s
      → (s' : ServerSession) × (re_check_file uuid i s ≡ returns s')
        × IsReceiving uuid i p n hash got s'
        × (s'.sent ≡ s.sent)
  unfolding re_check_file re_check
  re_check_file-IsReceiving i n hash got s r = (
    put_file uuid i (record r.file { able_to_receive_lost_bag = true }) s,
    ap (λ o. re_check uuid i o s) r.found,
    noted i n hash got r.file.missing_seqs true r.file.is_final_accepted s s r r.found r.held,
    unfold put_file in refl,
  )

  -- FinalCheck on a file that lacks its first `k` packets asks for them.
  pub check_file_asks :
      (i n k : ℕ) (hash : List ℕ) (s : ServerSession)
      (r : IsReceiving uuid i p n hash (with_range k (n - k) (λ j. false)) s)
      → 0 < k
      → k < n
      → r.file.last_received_seq + 1 ≡ n
      → (s' : ServerSession) × (check_file uuid i m s ≡ returns s')
        × (s'.sent ≡ s.sent ++ (tells_lost_bag i (range 0 k) ∷ []))
        × IsReceiving uuid i p n hash (with_range k (n - k) (λ j. false)) s'
  unfolding check_file final_check_thread conclude send_message
  check_file_asks i n k hash s r pos_ less last =
      let lacks =
        missing_seqs_of-range r.file k r.arriving.valid.window pos_ (omega arith)
          (omega (arith, r.arriving.counted)) (λ j h. r.arriving.flags j ∙ ground arith)
          (λ j a h. r.arriving.flags j ∙ ground (arith, r.arriving.counted)) in
      let file = record r.file { missing_seqs = range 0 k } in
      let asked =
        noted i n hash (with_range k (n - k) (λ j. false)) (range 0 k)
          r.file.able_to_receive_lost_bag r.file.is_final_accepted s s r r.found r.held in
      let verdict = final_check_gap m r.file (range 0 k) lacks (range_some k pos_) in
      (
        conclude uuid i (file, tell_lost_bag (range 0 k)) s,
        ap (λ o. with_file o (λ f. final_check_thread m uuid i f s)) r.found
            ∙ ap (λ v. v >>= (λ verdict. returns (conclude uuid i verdict s))) verdict,
        unfold put_file in refl,
        record {
          file = asked.file;
          found = asked.found;
          arriving = asked.arriving;
          held =
              unfold send_message in
              send_message-IsHeld uuid (tells_lost_bag i (range 0 k)) (put_file uuid i file s)
                asked.held;
        },
      )

  -- A request for a file that the server can open, where a number is free.
  pub handle_upload_request-IsReceiving :
      (opens : List ℕ → Bool) (r : UploadRequest) (garbage j : ℕ) (s : ServerSession)
      → IsHeld uuid s
      → get_or s.file_ids j false ≡ true
      → is_readable r ≡ true
      → opens r.file_name ≡ true
      → r.file_num < 2147483648
      → (i : ℕ) × (s' : ServerSession) × (handle_upload_request uuid opens r garbage s ≡ returns s')
        × (i < max_upload_num)
        × IsReceiving uuid i p r.file_num r.file_hash (λ j. false) s'
        × (s'.sent ≡ s.sent ++ (starts i ∷ []))
  handle_upload_request-IsReceiving opens r garbage j s h free read opened small =
      elim (handle_upload_request_lem uuid opens r garbage s h) [
        | inl (huge, e) ↦ absurd (false≢true (sym huge ∙ read))
        | inr (read_, inl (all, e)) ↦ absurd (false≢true (sym (all j) ∙ free))
        | inr (read_, inr (i, free_i, before, e)) ↦
            let s1 = record s { file_ids = set s.file_ids i false } in
            let file = new_file garbage r.file_num r.file_hash in
            let s' = send_message (starts i) (put_file uuid i file s1) in
            let run : handle_upload_request uuid opens r garbage s ≡ returns s' =
              e ∙ rw (lt→leb r.file_num 2147483648 small, opened) refl in
            (
              i,
              s',
              run,
              omega (arith, set_within s.file_ids i free_i, h.sized),
              record {
                file = file;
                found = unfold send_message in own_file uuid i file s1;
                arriving = new_file-IsArriving p garbage r.file_num r.file_hash;
                held = handle_upload_request-IsHeld b m uuid opens r garbage s s' h run;
              },
              unfold put_file send_message in refl,
            )
      ]

  -- The session has the file under the number, all of it on disk.
  pub record IsOnDisk (i n : ℕ) (hash : List ℕ) (s : ServerSession) : Type 0 where
    pub file : FileToReceve
    pub found : find_file uuid i s.files ≡ some file
    pub valid : IsValid p file
    pub counted : file.total_packets ≡ n
    pub hashed : file.file_hash ≡ hash
    pub finished : file.flush_finished ≡ true
    pub all : (j : ℕ) → j < file.total_packets → get_or file.all_received_flags j false ≡ true
    pub saved : file.saved ≡ prefix p n
    pub held : IsHeld uuid s

  -- The disk thread of a file that has wholly arrived.
  pub write_out-IsOnDisk :
      (i n : ℕ) (hash : List ℕ) (got : ℕ → Bool) (s : ServerSession)
      → IsReceiving uuid i p n hash got s
      → 0 < n
      → ((j : ℕ) → j < n → got j ≡ true)
      → (s' : ServerSession) × (write_out uuid i n s ≡ returns s')
        × IsOnDisk i n hash s'
        × (s'.sent ≡ s.sent)
  unfolding write_out
  write_out-IsOnDisk i n hash got s r pos_ all =
      let a = r.arriving in
      let arrived : (j : ℕ)
          → j < r.file.total_packets
          → get_or r.file.all_received_flags j false ≡ true =
        λ j h. a.flags j ∙ all j (omega (arith, a.counted)) in
      let (after, run, finished, saved) =
        flush_all-finishes p n r.file a.valid (omega (arith, a.counted)) arrived a.opened
          (omega (arith, a.counted)) in
      let w = flush_all-IsWritten p n r.file after a.valid run in
      (
        put_file uuid i after s,
        ap (λ o. with_file o (λ f. flush_all n f >>= (λ f'. returns (put_file uuid i f' s))))
              r.found
            ∙ ap (λ v. v >>= (λ f'. returns (put_file uuid i f' s))) run,
        record {
          file = after;
          found = own_file uuid i after s;
          valid = w.valid;
          counted = w.counted ∙ a.counted;
          hashed = w.hashed ∙ a.hashed;
          finished = finished;
          all = λ j h.
              ap (λ flags. get_or flags j false) w.flags ∙ arrived j (omega (arith, w.counted));
          saved = saved ∙ ap (prefix p) a.counted;
          held = put_file-IsHeld uuid i after s (file-taken uuid i r.file s r.held r.found) r.held;
        },
        unfold put_file in refl,
      )

  -- FinalCheck on a file that is wholly on disk.
  pub check_file_completes :
      (i n : ℕ) (hash : List ℕ) (s : ServerSession)
      → IsOnDisk i n hash s
      → i < max_upload_num
      → calculate_file_hash m (some (prefix p n)) ≡ returns hash
      → (s' : ServerSession) × (check_file uuid i m s ≡ returns s')
        × (s'.sent ≡ s.sent ++ (completes i ∷ []))
        × (get_or s'.file_ids i false ≡ true)
        × (find_file uuid i s'.files ≡ none)
  unfolding check_file
  check_file_completes i n hash s d small honest =
      let (s', run, sent, free, files) =
        final_check_thread_whole uuid m p i d.file s d.held small d.valid d.all d.finished (
          ap (λ k. calculate_file_hash m (some (prefix p k))) d.counted
          ∙ (honest ∙ ap returns (sym d.hashed))) in
      (
        s',
        ap (λ o. with_file o (λ f. final_check_thread m uuid i f s)) d.found ∙ run,
        sent,
        free,
        files i ∙ rw (beq_refl i) refl,
      )
