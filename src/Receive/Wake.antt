-- ===== src/Receive/Wake.antt =====
-- FlushToDisk of file.cpp and AddPacket of filemanagement.cpp: the disk thread's wait. The thread tests
-- its condition and goes to sleep under `m_Mutex`, and AddPacket sets the flag and notifies under
-- `m_GlobalMutex`, so that a packet may arrive between the two.
use boost_asio_threadpool.Base.{
  Bool-cases, List, false, get_or, if◌then◌else◌, inl, inr, refl, suc, sym, true, zero, ℕ, ◌+◌, ◌<◌,
  ◌∙◌, ◌≡◌, ◌≤◌, ap,
}
use boost_asio_threadpool.Base.Outcome.{
  Outcome, >>=-eq-returns, >>=_returns, returns, returns-injective, ◌>>=◌,
}
use boost_asio_threadpool.Receive.{FileToReceve, add_packet, flush_to_disk}
use boost_asio_threadpool.Receive.Run.{
  flush_all, flush_all-finishes, flush_all_done, flush_all_going,
}
use boost_asio_threadpool.Receive.Transfer.{IsValid, prefix}

-- Where the thread is: about to test its condition, between a test that failed and the sleep, asleep on
-- `m_CV`, or behind its loop.
pub data Phase : Type 0 where
  tests tested asleep ended : Phase

pub record Flusher : Type 0 where
  pub file : FileToReceve
  pub phase : Phase

abbrev pub phase_of : FileToReceve → Phase
phase_of file = if file.flush_finished then ended else tests

abbrev pub in_phase : FileToReceve → Phase → Flusher
in_phase file phase = record { file = file; phase = phase }

abbrev pub flusher : FileToReceve → Flusher
flusher file = in_phase file (phase_of file)

-- The test of the condition, and the round of the loop that follows if it holds.
unfoldable pub test_turn : FileToReceve → Outcome Flusher
test_turn file =
    let round = flush_to_disk false file >>= (λ written. returns (flusher written)) in
    if get_or file.all_received_flags file.next_expected_seq false
    then round
    else returns (record { file = file; phase = tested })

-- A turn of the thread; one that sleeps stays asleep until it is notified.
unfoldable pub flusher_turn : Flusher → Outcome Flusher
flusher_turn d = elim d.phase [
  | tests ↦ test_turn d.file
  | tested ↦ returns (record d { phase = asleep })
  | asleep ↦ returns d
  | ended ↦ returns d
]

-- `notify_one` wakes the thread if it sleeps, and is lost otherwise.
unfoldable pub notified : Phase → Phase
notified tests = tests
notified tested = tested
notified asleep = tests
notified ended = ended

unfoldable pub packet_arrives : ℕ → List ℕ → Flusher → Outcome Flusher
packet_arrives seq packet d =
    add_packet false d.file seq packet
    >>= (λ r. returns (record { file = r.0; phase = if r.1 then notified d.phase else d.phase }))

unfoldable pub turns : ℕ → Flusher → Outcome Flusher
turns zero d = returns d
turns (suc n) d = flusher_turn d >>= turns n

turns_ended :
    (n : ℕ) (file : FileToReceve)
    → turns n (record { file = file; phase = ended })
      ≡ returns (record { file = file; phase = ended })
unfolding turns flusher_turn
turns_ended zero file = refl
turns_ended (suc n) file = turns_ended n file

-- A round that is possible is the thread's turn.
test_turn-flush :
    (file written : FileToReceve)
    → flush_to_disk false file ≡ returns written
    → test_turn file ≡ returns (flusher written)
unfolding test_turn
test_turn-flush file written e =
    elim (Bool-cases (get_or file.all_received_flags file.next_expected_seq false)) [
      | inl here ↦ rw here (>>=_returns (λ w. returns (flusher w)) e refl)
      | inr missing ↦ unfold flush_to_disk in cc
    ]

turns-flush_all :
    (n : ℕ) (file after : FileToReceve)
    → flush_all n file ≡ returns after
    → turns n (flusher file) ≡ returns (flusher after)
unfolding turns flusher_turn flush_all
turns-flush_all zero file after e = ap (λ f. returns (flusher f)) (returns-injective e)
turns-flush_all (suc n) file after e = elim (Bool-cases file.flush_finished) [
  | inl done ↦
      let over : phase_of file ≡ ended = rw done refl in
      ap (λ q. turns (suc n) (in_phase file q)) over
      ∙ turns_ended (suc n) file
      ∙ sym (ap (λ q. returns (in_phase file q)) over)
      ∙ ap (λ f. returns (flusher f)) (returns-injective (sym (flush_all_done n file done) ∙ e))
  | inr going ↦
      let awake : phase_of file ≡ tests = rw going refl in
      let (written, round, rest) =
        >>=-eq-returns (flush_to_disk false file) (flush_all n)
          (sym (flush_all_going n file going) ∙ e) in
      ap (λ q. turns (suc n) (in_phase file q)) awake
      ∙ >>=_returns (turns n) (test_turn-flush file written round)
          (turns-flush_all n written after rest)
]

-- When all packets of a valid, non-empty file have arrived, its stream is open and the disk thread is
-- awake, about to test its condition, it comes to the end of its loop within as many turns as the file
-- has packets left to write, and the whole source is on disk.
pub turns-finish :
    (p : ℕ → List ℕ) (n : ℕ) (file : FileToReceve)
    → IsValid p file
    → 0 < file.total_packets
    → ((i : ℕ) → i < file.total_packets → get_or file.all_received_flags i false ≡ true)
    → file.stream_open ≡ true
    → file.total_packets ≤ n + file.next_expected_seq
    → (after : FileToReceve) × (turns n (flusher file)
        ≡ returns (record { file = after; phase = ended }))
      × (after.flush_finished ≡ true)
      × (after.saved ≡ prefix p file.total_packets)
turns-finish p n file v pos_ all open_ fuel =
    let (after, run, done, saved) = flush_all-finishes p n file v pos_ all open_ fuel in
    let over : phase_of after ≡ ended = rw done refl in
    (
      after,
      turns-flush_all n file after run ∙ ap (λ q. returns (in_phase after q)) over,
      done,
      saved,
    )
