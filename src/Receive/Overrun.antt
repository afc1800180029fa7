-- ===== src/Receive/Overrun.antt =====
-- Where the transfer of file.cpp goes wrong: packets that overtake the disk, the end of the flags, and
-- a tail that is lost.
use boost_asio_threadpool.Base.{
  Bool, List, ap, arith, false, get_or, get_or_beyond, get_or_within, length, length-set, none,
  refl, set, some, sym, suc, true, zero, ℕ, ◌%◌, ◌++◌, ◌+◌, ◌<◌, ◌∙◌, ◌≡◌, ◌≢◌, ◌≤◌,
}
use boost_asio_threadpool.Base.Outcome.{returns, undefined}
use native.Mathlib.Decide.{dec_lt, ℕ_discrete}
use boost_asio_threadpool.Receive.{slide_window, update}
use boost_asio_threadpool.Receive.Arrive.{add_packet_in_window}
use boost_asio_threadpool.Receive.Transfer.{flag-set}
use boost_asio_threadpool.Receive.{FileToReceve, add_packet, flush_to_disk, stored, window_size}
use boost_asio_threadpool.Receive.Arrive.{slide_after}
use boost_asio_threadpool.Receive.Flush.{flushed}
use boost_asio_threadpool.Receive.Transfer.{IsValid, prefix}
use boost_asio_threadpool.Receive.Window.{FirstClear}
use mathlib.Core.Bool.{false≢true}

-- The window moves on arrival, not when a packet is on disk. So if the disk thread of a valid file
-- with an open stream still has to write a packet that the window has passed, the packet one window
-- later, if the file has one and the window covers it, is accepted and takes its slot: the disk thread
-- then writes that packet's bytes in the place of the earlier one's.
pub add_packet_overruns :
    (p : ℕ → List ℕ) (file : FileToReceve)
    → IsValid p file
    → file.next_expected_seq < file.window_start
    → file.window_start ≤ file.next_expected_seq + window_size
    → file.next_expected_seq + window_size < file.total_packets
    → file.stream_open ≡ true
    → (after written : FileToReceve) × (add_packet false file
          (file.next_expected_seq + window_size)
          (p (file.next_expected_seq + window_size))
        ≡ returns (after, true))
      × (flush_to_disk false after ≡ returns written)
      × (written.saved
          ≡ prefix p file.next_expected_seq ++ p (file.next_expected_seq + window_size))
unfolding flush_to_disk
add_packet_overruns p file v late near more open_ =
    let (t, e, c) = slide_after p file v seq (omega (arith, v.sized)) in
    (
      stored file seq (p seq) t,
      flushed p (stored file seq (p seq) t),
      add_packet_in_window false file seq (p seq) (some t) (omega (arith, v.sized)) near
          (omega arith) e,
      rw
          (
            flag-set file.all_received_flags seq file.next_expected_seq (omega (arith, v.sized)),
            v.window.full file.next_expected_seq (omega arith) late,
            open_,
          )
          (ground arith),
      rw v.written (ap (◌++◌ (prefix p file.next_expected_seq)) slot),
    )
  where
    seq : ℕ
    seq = file.next_expected_seq + window_size

    slot :
        update file.data_buffer (seq % window_size) (p seq) (file.next_expected_seq % window_size)
        ≡ p seq
    slot =
        let same : seq % window_size ≡ file.next_expected_seq % window_size = omega arith in
        ground arith

-- Where every flag is set, and the memory behind them too, no fuel is enough.
slide_window_endless :
    (fuel : ℕ) (flags : List Bool) (start : ℕ)
    → ((i : ℕ) → get_or flags i true ≡ true)
    → slide_window true fuel flags start ≡ none
unfolding slide_window
slide_window_endless zero flags start all = refl
slide_window_endless (suc fuel) flags start all =
    rw (all start) (slide_window_endless fuel flags (start + 1) all)

set_everywhere :
    (flags : List Bool) (seq : ℕ)
    → ((i : ℕ) → i < length flags → i ≢ seq → get_or flags i false ≡ true)
    → seq < length flags
    → (i : ℕ) → get_or (set flags seq true) i true ≡ true
set_everywhere flags seq all h i = elim (dec_lt i (length flags)) [
  | yes within ↦
      get_or_within (set flags seq true) i true false (omega (arith, length-set flags seq true))
      ∙ elim (ℕ_discrete i seq) [
        | yes e ↦ rw (flag-set flags seq i h) (ground (arith, e))
        | no ne ↦ rw (flag-set flags seq i h, all i within ne) (ground arith)
      ]
  | no past ↦ get_or_beyond (set flags seq true) i true (omega (arith, length-set flags seq true))
]

-- When the last packet that a file lacks arrives inside the window, the slide reads on behind the flags,
-- and what `AddPacket` does rests on the memory there: where it is clear, `AddPacket` returns, with the
-- window at the place behind the last flag; where every bit of it is set, the slide does not end.
pub add_packet_last :
    (p : ℕ → List ℕ) (file : FileToReceve) (seq : ℕ)
    → IsValid p file
    → seq < file.total_packets
    → file.window_start ≤ seq
    → seq < file.window_start + window_size
    → ((i : ℕ) → i < file.total_packets → i ≢ seq → get_or file.all_received_flags i false ≡ true)
    → (add_packet false file seq (p seq)
        ≡ returns (stored file seq (p seq) file.total_packets, true))
      × (add_packet true file seq (p seq) ≡ undefined)
add_packet_last p file seq v h lo hi all =
    let (t, e, c) = slide_after p file v seq (omega (arith, v.sized)) in
    (
      add_packet_in_window false file seq (p seq) (some t) (omega (arith, v.sized)) lo hi e
          ∙ ap (λ k. returns (stored file seq (p seq) k, true)) (at_end t c),
      add_packet_in_window true file seq (p seq) none (omega (arith, v.sized)) lo hi (
          slide_window_endless (length file.all_received_flags + 1)
            (set file.all_received_flags seq true) file.window_start
            (set_everywhere file.all_received_flags seq (λ i a b. all i (omega (arith, v.sized)) b)
              (omega (arith, v.sized)))),
    )
  where
    flags : List Bool
    flags = set file.all_received_flags seq true

    sized : length flags ≡ file.total_packets
    sized = length-set file.all_received_flags seq true ∙ v.sized

    set_all : (i : ℕ) → i < file.total_packets → get_or flags i false ≡ true
    set_all i a =
        sym (get_or_within flags i true false (omega (arith, sized)))
        ∙ set_everywhere file.all_received_flags seq (λ k b d. all k (omega (arith, v.sized)) d)
            (omega (arith, v.sized)) i

    at_end : (t : ℕ) → FirstClear flags file.window_start t → t ≡ file.total_packets
    at_end t c = elim (dec_lt t file.total_packets) [
      | yes before ↦ absurd (false≢true (sym c.clear ∙ set_all t before))
      | no reached ↦ elim (dec_lt file.total_packets t) [
        | yes past ↦ absurd (
            false≢true (
              sym (get_or_beyond flags file.total_packets false (omega (arith, sized)))
              ∙ c.full file.total_packets (omega (arith, lo, h)) past))
        | no not_past ↦ omega arith
      ]
    ]
