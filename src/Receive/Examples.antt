-- ===== src/Receive/Examples.antt =====
-- The theorems about a file that arrives, at files of a few packets.
use boost_asio_threadpool.Base.{
  inr, Bool, List, [], arith, false, get_or, refl, replicate, some, suc, true, zero, ℕ, ◌++◌, ◌<◌,
  ◌∷◌, ◌≡◌, length-replicate, sym, ◌∙◌, subst, ◌==◌, if◌then◌else◌,
}
use boost_asio_threadpool.Base.Outcome.{blocks, returns, undefined}
use mathlib.Core.Bool.{false≢true}
use boost_asio_threadpool.Hash.{calculate_small_file_hash, hex, calculate_file_hash}
use boost_asio_threadpool.Samples.{md5}
use boost_asio_threadpool.Receive.{
  FileToReceve, add_packet, check_missing_packets, flush_to_disk, new_file, slide_window,
}
use boost_asio_threadpool.Receive.{stored}
use boost_asio_threadpool.Receive.Arrive.{add_packet-IsValid}
use boost_asio_threadpool.Receive.FinalCheck.{
  file_complete, final_check, final_check_complete, final_check_lost_tail, final_check_whole,
}
use boost_asio_threadpool.Receive.Missing.{check_missing_packets_lem, contains, lost_before_last}
use boost_asio_threadpool.Receive.Overrun.{add_packet_last, add_packet_overruns}
use boost_asio_threadpool.Receive.Run.{
  Reach, Reach-IsValid, Reach-saved_whole, arrive, begin, later, write,
}
use boost_asio_threadpool.Receive.Transfer.{IsValid, get_or-replicate, new_file-IsValid, prefix}
use boost_asio_threadpool.Receive.Wake.{ended, flusher, turns, turns-finish}
use boost_asio_threadpool.Receive.Window.{FirstClear}

-- Each packet is one byte, its number.
abbrev source : ℕ → List ℕ
source i = i ∷ []

-- The hash of a file of one byte.
abbrev hash : List ℕ
hash = 48 ∷ 49 ∷ []

-- A file of one packet: new, with its packet arrived, and on disk.
abbrev one_new : FileToReceve
one_new = record {
  total_packets = 1;
  file_hash = hash;
  window_start = 0;
  data_buffer = λ _. [];
  all_received_flags = false ∷ [];
  last_received_seq = 0;
  missing_seqs = [];
  next_expected_seq = 0;
  saved = [];
  stream_open = true;
  flush_finished = false;
  able_to_receive_lost_bag = true;
  is_final_accepted = false;
}

abbrev one_arrived : FileToReceve
one_arrived = record one_new {
  data_buffer = λ j. if 0 == j then 0 ∷ [] else [];
  all_received_flags = true ∷ [];
  window_start = 1;
}

abbrev one_saved : FileToReceve
one_saved = record one_arrived { next_expected_seq = 1; saved = 0 ∷ []; flush_finished = true }

new_file_one : new_file 0 1 hash ≡ one_new
unfolding new_file
new_file_one = refl

add_packet_one : add_packet false one_new 0 (source 0) ≡ returns (one_arrived, true)
unfolding add_packet slide_window
add_packet_one = refl

flush_one : flush_to_disk false one_arrived ≡ returns one_saved
unfolding flush_to_disk
flush_one = refl

one_new-Reach : Reach source (new_file 0 1 hash) one_new
one_new-Reach = subst (Reach source (new_file 0 1 hash)) new_file_one begin

one_saved-Reach : Reach source (new_file 0 1 hash) one_saved
one_saved-Reach =
    later (later one_new-Reach (arrive 0 true (omega arith) (omega arith) add_packet_one))
      (write flush_one)

Reach-saved_whole_example : one_saved.saved ≡ prefix source one_saved.total_packets
Reach-saved_whole_example = Reach-saved_whole source 0 1 hash one_saved one_saved-Reach refl

one_arrived-IsValid : IsValid source one_arrived
one_arrived-IsValid =
    Reach-IsValid (later one_new-Reach (arrive 0 true (omega arith) (omega arith) add_packet_one))
      (new_file-IsValid source 0 1 hash)

one_saved-IsValid : IsValid source one_saved
one_saved-IsValid = Reach-IsValid one_saved-Reach (new_file-IsValid source 0 1 hash)

one_all : (i : ℕ) → i < 1 → get_or (true ∷ []) i false ≡ true
one_all = elim [ zero ↦ λ h. refl | suc j ↦ λ h. absurd (omega arith) ]

turns-finish_example :
    (after : FileToReceve) × (turns 1 (flusher one_arrived)
      ≡ returns (record { file = after; phase = ended }))
    × (after.flush_finished ≡ true)
    × (after.saved ≡ prefix source 1)
turns-finish_example =
    turns-finish source 1 one_arrived one_arrived-IsValid (omega arith) one_all refl (omega arith)

one_hash : calculate_file_hash md5 (some (prefix source 1)) ≡ returns hash
unfolding calculate_file_hash calculate_small_file_hash hex
one_hash = refl

final_check_one :
    final_check md5 one_saved ≡ returns (record one_saved { stream_open = false }, file_complete)
final_check_one = final_check_whole md5 source one_saved one_saved-IsValid one_all refl one_hash

final_check_complete_example :
    (one_saved.flush_finished ≡ true)
    × (calculate_file_hash md5 (some one_saved.saved) ≡ returns hash)
    × ((j : ℕ) → lost_before_last one_saved j ≡ false)
final_check_complete_example =
    final_check_complete md5 one_saved (record one_saved { stream_open = false })
      one_saved-IsValid.window final_check_one

final_check_lost_tail_example : final_check md5 (new_file 0 2 hash) ≡ blocks
unfolding new_file
final_check_lost_tail_example =
    final_check_lost_tail md5 source (new_file 0 2 hash) (new_file-IsValid source 0 2 hash)
      (omega arith) (omega arith)

add_packet-IsValid_example :
    (after : FileToReceve) × (taken : Bool) × (add_packet true (new_file 0 3 hash) 2 (source 2)
      ≡ returns (after, taken))
    × IsValid source after
unfolding new_file
add_packet-IsValid_example =
    add_packet-IsValid source (new_file 0 3 hash) (new_file-IsValid source 0 3 hash) 2 true
      (omega arith) (omega arith) (inr (0, omega arith, (λ e. absurd (omega (arith, e))), refl))

-- Three packets, the one in the middle lost.
abbrev gap : FileToReceve
gap = record one_new {
  total_packets = 3;
  all_received_flags = true ∷ false ∷ true ∷ [];
  window_start = 1;
  last_received_seq = 2;
}

gap-FirstClear : FirstClear gap.all_received_flags 0 1
gap-FirstClear = record {
  onwards = omega arith;
  clear = refl;
  full = elim [ zero ↦ λ lo hi. refl | suc j ↦ λ lo hi. absurd (omega arith) ];
}

check_missing_packets_lem_example :
    let (after, found) = check_missing_packets false gap in
    (if found then contains 1 after.missing_seqs else false) ≡ true
check_missing_packets_lem_example = check_missing_packets_lem gap gap-FirstClear 1

-- Two thousand packets, of which the first has arrived and is not on disk.
abbrev long_flags : List Bool
long_flags = true ∷ replicate 1999 false

abbrev long : FileToReceve
long = record one_new {
  total_packets = 2000;
  all_received_flags = long_flags;
  window_start = 1;
  data_buffer = λ j. if 0 == j then 0 ∷ [] else [];
}

long_first : (i : ℕ) → get_or long_flags i false ≡ true → i ≡ 0
long_first = elim [
  | zero ↦ λ h. refl
  | suc j ↦ λ h. absurd (false≢true (sym (get_or-replicate 1999 j) ∙ h))
]

long-IsValid : IsValid source long
long-IsValid = record {
  sized = omega (arith, length-replicate 1999 false);
  window = record {
    onwards = omega arith;
    clear = get_or-replicate 1999 0;
    full = elim [ zero ↦ λ lo hi. refl | suc j ↦ λ lo hi. absurd (omega arith) ];
  };
  behind = omega arith;
  ahead = λ i h. omega (arith, long_first i h);
  buffered = λ i lo h. rw (long_first i h) refl;
  written = refl;
  finished = λ h. absurd (false≢true h);
  running = λ h pos. omega arith;
}

add_packet_overruns_example :
    (after written : FileToReceve) × (add_packet false long 1024 (source 1024)
      ≡ returns (after, true))
    × (flush_to_disk false after ≡ returns written)
    × (written.saved ≡ prefix source 0 ++ source 1024)
add_packet_overruns_example =
    add_packet_overruns source long long-IsValid (omega arith) (omega arith) (omega arith) refl

add_packet_last_example :
    (add_packet false (new_file 0 1 hash) 0 (source 0)
      ≡ returns (stored (new_file 0 1 hash) 0 (source 0) 1, true))
    × (add_packet true (new_file 0 1 hash) 0 (source 0) ≡ undefined)
unfolding new_file
add_packet_last_example =
    add_packet_last source (new_file 0 1 hash) 0 (new_file-IsValid source 0 1 hash) (omega arith)
      (omega arith) (omega arith) (λ i h ne. absurd (ne (omega arith)))
