-- ===== src/Server/Examples.antt =====
-- The server's handlers on a fresh session, and on one with a file.
use boost_asio_threadpool.Base.{
  Bool, Bytes_eq, List, String_eq, [], arith, false, get_or, if◌then◌else◌, insert, lookup, none,
  refl, replicate, set, some, true, sym, zero, suc, ℕ, ℕ_eq, ◌<◌, ◌∷◌, ◌≡◌, ◌⊎◌, ◌==◌,
}
use boost_asio_threadpool.Base.Outcome.{returns, throws}
use boost_asio_threadpool.Base64.{base64_encode}
use boost_asio_threadpool.FileManagement.{add_file, emplace, files_of, find_file}
use boost_asio_threadpool.Hash.{calculate_file_hash, calculate_small_file_hash, hex}
use boost_asio_threadpool.Receive.{
  FileToReceve, add_packet, check_missing_packets, new_file, slide_window, update,
}
use boost_asio_threadpool.Receive.Transfer.{IsValid, prefix}
use boost_asio_threadpool.Samples.{bio, md5}
use boost_asio_threadpool.Session.FileIds.{all_free, get_file_id}
use boost_asio_threadpool.Server.{
  ServerSession, UploadRequest, accept, completes, construct, final_check_thread, handle_data,
  handle_upload_request, is_readable, rejects, send_message, start_file, started, starts,
  tells_lost_bag,
}
use boost_asio_threadpool.Server.Data.{after_check, asks, final_check_thread_whole, handle_data_lem}
use boost_asio_threadpool.Server.Held.{IsHeld}
use boost_asio_threadpool.Server.Requests.{
  answered, handle_upload_request_lem, handle_upload_requests, requests_drain,
}
use mathlib.Core.Bool.{false≢true}

abbrev fresh : ServerSession
fresh = record { files = []; file_ids = all_free; sent = [] }

abbrev opened : List ℕ → Bool
opened name = true

abbrev shut : List ℕ → Bool
shut name = false

abbrev request : UploadRequest
request = record { file_name = 102 ∷ []; file_size = 2500; file_num = 3; file_hash = 48 ∷ [] }

fresh-IsHeld : IsHeld "a" fresh
unfolding find_file lookup files_of
fresh-IsHeld = record { sized = refl; free = λ i f. refl }

handle_upload_request_lem_example :
    ((is_readable request ≡ false) × (handle_upload_request "a" opened request 0 fresh ≡ throws))
    ⊎ ((is_readable request ≡ true)
        × ((((j : ℕ) → get_or all_free j false ≡ false)
              × (handle_upload_request "a" opened request 0 fresh
                  ≡ returns (send_message rejects fresh)))
            ⊎ ((i : ℕ) × (get_or all_free i false ≡ true)
                × ((j : ℕ) → j < i → get_or all_free j false ≡ false)
                × (handle_upload_request "a" opened request 0 fresh
                    ≡ answered "a" opened request 0 i fresh))))
handle_upload_request_lem_example =
    handle_upload_request_lem "a" opened request 0 fresh fresh-IsHeld

requests_drain_example :
    (s' : ServerSession) × (handle_upload_requests "a" shut (replicate 5 request) 0 fresh
      ≡ returns s')
    × (s'.files ≡ [])
    × (handle_upload_request "a" shut request 0 s' ≡ returns (send_message rejects s'))
requests_drain_example =
    requests_drain "a" shut (replicate 5 request) request 0 fresh
      (
        refl,
        refl,
        refl,
        (refl, refl, refl, (refl, refl, refl, (refl, refl, refl, (refl, refl, refl, tt)))),
      )
      refl refl refl

-- The session after that request.
abbrev after_request : ServerSession
after_request = record {
  files = ("a", (0, new_file 0 3 (48 ∷ [])) ∷ []) ∷ [];
  file_ids = false ∷ replicate 4 true;
  sent = starts 0 ∷ [];
}

first_request : handle_upload_request "a" opened request 0 fresh ≡ returns after_request
unfolding handle_upload_request accept get_file_id construct start_file started add_file emplace
    files_of lookup insert send_message
first_request = refl

-- Two hundred packets, of which the first has arrived.
abbrev long : FileToReceve
long = record {
  total_packets = 200;
  file_hash = [];
  window_start = 1;
  data_buffer = λ j. [];
  all_received_flags = true ∷ replicate 199 false;
  last_received_seq = 0;
  missing_seqs = [];
  next_expected_seq = 1;
  saved = 7 ∷ [];
  stream_open = true;
  flush_finished = false;
  able_to_receive_lost_bag = true;
  is_final_accepted = false;
}

abbrev longer : FileToReceve
longer = record long {
  data_buffer = update long.data_buffer 100 (7 ∷ []);
  all_received_flags = set long.all_received_flags 100 true;
  last_received_seq = 100;
}

abbrev receiving : ServerSession
receiving = record {
  files = ("a", (0, long) ∷ []) ∷ [];
  file_ids = false ∷ replicate 4 true;
  sent = [];
}

add_hundredth : add_packet false long 100 (7 ∷ []) ≡ returns (longer, true)
unfolding add_packet slide_window
add_hundredth = refl

encoded_seven : base64_encode bio (7 ∷ []) ≡ returns (7 ∷ [])
unfolding base64_encode
encoded_seven = refl

find_long : find_file "a" 0 receiving.files ≡ some long
unfolding find_file lookup files_of
find_long = refl

handle_data_lem_example :
    (s' : ServerSession) × (handle_data bio "a" 0 100 (7 ∷ []) receiving ≡ returns s')
    × (find_file "a" 0 s'.files ≡ some (after_check "a" 100 longer))
    × (s'.sent ≡ (
        if asks 100 longer
        then tells_lost_bag 0 (check_missing_packets false longer).0.missing_seqs ∷ []
        else []))
handle_data_lem_example =
    handle_data_lem "a" bio 0 100 7 [] (7 ∷ []) long longer true receiving encoded_seven find_long
      add_hundredth

-- A file of one packet, on disk.
abbrev whole : FileToReceve
whole = record {
  total_packets = 1;
  file_hash = 48 ∷ 49 ∷ [];
  window_start = 1;
  data_buffer = λ j. [];
  all_received_flags = true ∷ [];
  last_received_seq = 0;
  missing_seqs = [];
  next_expected_seq = 1;
  saved = 7 ∷ [];
  stream_open = true;
  flush_finished = true;
  able_to_receive_lost_bag = true;
  is_final_accepted = true;
}

abbrev source : ℕ → List ℕ
source i = 7 ∷ []

beyond_one : (i : ℕ) → get_or (true ∷ []) i false ≡ true → i ≡ 0
beyond_one = elim [ zero ↦ λ h. refl | suc j ↦ λ h. absurd (false≢true h) ]

whole-IsValid : IsValid source whole
whole-IsValid = record {
  sized = refl;
  window = record {
    onwards = omega arith;
    clear = refl;
    full = elim [ zero ↦ λ lo hi. refl | suc j ↦ λ lo hi. absurd (omega arith) ];
  };
  behind = omega arith;
  ahead = λ i h. omega (arith, beyond_one i h);
  buffered = λ i lo h. absurd (omega (arith, beyond_one i h));
  written = refl;
  finished = λ h. refl;
  running = λ h. absurd (false≢true (sym h));
}

whole_all : (k : ℕ) → k < 1 → get_or (true ∷ []) k false ≡ true
whole_all = elim [ zero ↦ λ h. refl | suc j ↦ λ h. absurd (omega arith) ]

whole_hash : calculate_file_hash md5 (some (prefix source 1)) ≡ returns (48 ∷ 49 ∷ [])
unfolding calculate_file_hash calculate_small_file_hash hex
whole_hash = refl

final_check_thread_whole_example :
    (s' : ServerSession) × (final_check_thread md5 "a" 2 whole fresh ≡ returns s')
    × (s'.sent ≡ completes 2 ∷ [])
    × (get_or s'.file_ids 2 false ≡ true)
    × ((j : ℕ) → find_file "a" j s'.files ≡ (if 2 == j then none else find_file "a" j []))
final_check_thread_whole_example =
    final_check_thread_whole "a" md5 source 2 whole fresh fresh-IsHeld (omega arith) whole-IsValid
      whole_all refl whole_hash
