-- ===== src/Receive/FinalCheck.antt =====
-- FinalCheck of file.cpp: the check of a file after the client's last packet.
use boost_asio_threadpool.Base.{
  Bool-cases, List, [], ap, arith, false, get_or, if◌then◌else◌, inl, inr, refl, some, sym, true, ℕ,
  ◌<◌, ◌∙◌, ◌≡◌, ◌≤◌, ◌⊎◌,
}
use boost_asio_threadpool.Base.Outcome.{Outcome, blocks, returns, ◌>>=◌}
use boost_asio_threadpool.Receive.Missing.{missing_seqs_of_behind, missing_seqs_of_full}
use boost_asio_threadpool.Hash.{verify_file_hash_iff}
use boost_asio_threadpool.Receive.{is_nil}
use boost_asio_threadpool.Hash.{calculate_file_hash}
use boost_asio_threadpool.Receive.{missing_seqs_of}
use boost_asio_threadpool.Receive.Missing.{contains, check_missing_packets_lem, lost_before_last}
use boost_asio_threadpool.Receive.Transfer.{IsValid, prefix}
use boost_asio_threadpool.Receive.Window.{FirstClear}
use boost_asio_threadpool.Hash.{Md5, verify_file_hash}
use boost_asio_threadpool.Receive.{FileToReceve, check_missing_packets}

-- What `FinalCheck` sends, and whether it gives the file's number back and forgets the file.
pub data Verdict : Type 0 where
  tell_lost_bag : List ℕ → Verdict
  file_complete : Verdict
  request_verify : Verdict

module _ (m : Md5) where
  -- The check after no gap was found: it waits for `b_FlushFinished`, closes the stream, and hashes.
  pub check_hash : FileToReceve → Outcome (FileToReceve × Verdict)
  check_hash file =
      if file.flush_finished
      then (do
        complete ← verify_file_hash m (some file.saved) file.file_hash
        returns (
          record file { stream_open = false },
          if complete then file_complete else request_verify,
        ))
      else blocks

  pub final_check : FileToReceve → Outcome (FileToReceve × Verdict)
  final_check file =
      let (checked, found) = check_missing_packets false file in
      let rest = check_hash checked in
      if found then returns (checked, tell_lost_bag checked.missing_seqs) else rest

  check_hash_complete :
      (file after : FileToReceve)
      → check_hash file ≡ returns (after, file_complete)
      → (file.flush_finished ≡ true)
        × (verify_file_hash m (some file.saved) file.file_hash ≡ returns true)
  unfolding check_hash
  check_hash_complete file after e = ground arith

  told_ne_complete :
      {file after : FileToReceve} {seqs : List ℕ}
      → ◌≡◌ {A = Outcome (FileToReceve × Verdict)}
          (returns (file, tell_lost_bag seqs))
          (returns (after, file_complete))
      → ⊥
  told_ne_complete e = cc

  final_check_cases :
      (file : FileToReceve)
      → (final_check file
          ≡ returns (
            (check_missing_packets false file).0,
            tell_lost_bag (check_missing_packets false file).0.missing_seqs,
          ))
        ⊎ (((check_missing_packets false file).1 ≡ false) × (final_check file ≡ check_hash file))
  unfolding final_check check_missing_packets
  final_check_cases file = elim (Bool-cases (is_nil (missing_seqs_of false file))) [
    | inl none_lost ↦ inr (rw none_lost refl, rw none_lost refl)
    | inr lost ↦ inl (rw lost refl)
  ]

  -- A gap is told to the client.
  pub final_check_gap :
      (file : FileToReceve) (seqs : List ℕ)
      → missing_seqs_of false file ≡ seqs
      → is_nil seqs ≡ false
      → final_check file ≡ returns (record file { missing_seqs = seqs }, tell_lost_bag seqs)
  unfolding final_check check_missing_packets
  final_check_gap file seqs e some_ = rw (e, some_) refl

  final_check_none :
      (file : FileToReceve) → missing_seqs_of false file ≡ [] → final_check file ≡ check_hash file
  unfolding final_check check_missing_packets
  final_check_none file e = rw e refl

  -- Where the window is at its place, `FileComplete` is sent only for a file that the disk thread has
  -- finished, none of whose packets before the last arrival is lost, and whose content on disk has the
  -- hash that the client gave.
  pub final_check_complete :
      (file after : FileToReceve)
      → FirstClear file.all_received_flags 0 file.window_start
      → final_check file ≡ returns (after, file_complete)
      → (file.flush_finished ≡ true)
        × (calculate_file_hash m (some file.saved) ≡ returns file.file_hash)
        × ((j : ℕ) → lost_before_last file j ≡ false)
  final_check_complete file after c e = elim (final_check_cases file) [
    | inl told ↦ absurd (told_ne_complete (sym told ∙ e))
    | inr (clear, same) ↦
        let (finished, verified) = check_hash_complete file after (sym same ∙ e) in
        (
          finished,
          (verify_file_hash_iff m (some file.saved) file.file_hash).0 verified,
          λ j.
              sym (check_missing_packets_lem file c j)
              ∙ ap
                  (λ b.
                    if b
                    then contains j (check_missing_packets false file).0.missing_seqs
                    else false)
                  clear,
        )
  ]

  -- A file that has wholly arrived and been written, and whose client gave the hash of its content,
  -- is found complete.
  pub final_check_whole :
      (p : ℕ → List ℕ) (file : FileToReceve)
      → IsValid p file
      → ((i : ℕ) → i < file.total_packets → get_or file.all_received_flags i false ≡ true)
      → file.flush_finished ≡ true
      → calculate_file_hash m (some (prefix p file.total_packets)) ≡ returns file.file_hash
      → final_check file ≡ returns (record file { stream_open = false }, file_complete)
  unfolding check_hash
  final_check_whole p file v all done honest =
      final_check_none file (missing_seqs_of_full file all)
      ∙ rw
          (
            done,
            v.written,
            v.finished done,
            (verify_file_hash_iff m (some (prefix p file.total_packets)) file.file_hash).1 honest,
          )
          refl

  -- If the packets that a valid file lacks are all behind the last one that arrived, no gap is found,
  -- and `FinalCheck` waits for the disk thread for ever: nothing is sent, so the client is not asked
  -- for them.
  pub final_check_lost_tail :
      (p : ℕ → List ℕ) (file : FileToReceve)
      → IsValid p file
      → file.window_start < file.total_packets
      → file.last_received_seq ≤ file.window_start
      → final_check file ≡ blocks
  unfolding check_hash
  final_check_lost_tail p file v lost last = elim (Bool-cases file.flush_finished) [
    | inl done ↦ absurd (omega (arith, v.finished done, v.behind))
    | inr going ↦ final_check_none file (missing_seqs_of_behind file last) ∙ rw going refl
  ]
