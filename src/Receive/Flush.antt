-- ===== src/Receive/Flush.antt =====
-- FlushToDisk of file.cpp: the disk thread writes the packets in order.
use boost_asio_threadpool.Base.{
  Bool, List, arith, false, get_or, if◌then◌else◌, leb, refl, sym, true, ℕ, ◌%◌, ◌++◌, ◌+◌, ◌∙◌,
  ◌≡◌, ◌≤◌,
}
use boost_asio_threadpool.Base.Outcome.{returns}
use mathlib.Core.Bool.{false≢true}
use native.Mathlib.Decide.{ℕ_discrete}
use native.Mathlib.Numerals.{add-one}
use boost_asio_threadpool.Receive.Transfer.{window_within}
use boost_asio_threadpool.Receive.{FileToReceve, flush_to_disk, window_size}
use boost_asio_threadpool.Receive.Transfer.{IsValid, prefix}

module _ (p : ℕ → List ℕ) where
  abbrev pub flushed : FileToReceve → FileToReceve
  flushed file = record file {
    saved = file.saved ++ file.data_buffer (file.next_expected_seq % window_size);
    next_expected_seq = file.next_expected_seq + 1;
    flush_finished =
        if leb file.total_packets (file.next_expected_seq + 1) then true else file.flush_finished;
  }

  pub flush_to_disk-returns :
      (beyond : Bool) (file after : FileToReceve)
      → flush_to_disk beyond file ≡ returns after
      → (get_or file.all_received_flags file.next_expected_seq beyond ≡ true)
        × (after ≡ flushed file)
  unfolding flush_to_disk
  flush_to_disk-returns beyond file after e = ground arith

  module _ (file : FileToReceve) (v : IsValid p file) where
    flushed-IsValid :
        get_or file.all_received_flags file.next_expected_seq false ≡ true
        → IsValid p (flushed file)
    flushed-IsValid e = record {
      sized = v.sized;
      window = v.window;
      behind = step_behind;
      ahead = v.ahead;
      buffered = λ i a q. v.buffered i (omega arith) q;
      written = written_after;
      finished = λ h. ground (arith, within, v.finished);
      running = λ h b. ground arith;
    }
      where
        step_behind : file.next_expected_seq + 1 ≤ file.window_start
        step_behind = elim (ℕ_discrete file.next_expected_seq file.window_start) [
          | yes same ↦ absurd (false≢true (sym v.window.clear ∙ rw (← same) e))
          | no ne ↦ omega (arith, v.behind)
        ]

        within : file.next_expected_seq + 1 ≤ file.total_packets
        within = omega (
          arith,
          step_behind,
          v.sized,
          window_within file.all_received_flags file.window_start v.window,
        )

        written_after :
            file.saved ++ file.data_buffer (file.next_expected_seq % window_size)
            ≡ prefix p (file.next_expected_seq + 1)
        written_after =
            rw (add-one, v.written, v.buffered file.next_expected_seq (omega arith) e) refl

    -- A round of the loop that writes keeps the file valid.
    pub flush_to_disk-IsValid :
        (after : FileToReceve) → flush_to_disk false file ≡ returns after → IsValid p after
    flush_to_disk-IsValid after e =
        let (waited, same) = flush_to_disk-returns false file after e in
        rw same (flushed-IsValid waited)
