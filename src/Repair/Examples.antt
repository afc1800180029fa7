-- ===== src/Repair/Examples.antt =====
-- A file of ten packets, the last of one byte, stored with a wrong first byte.
use boost_asio_threadpool.Base.{
  Bool, none, List, [], ap, arith, false, get_elem?, inr, length, length-replicate, lt→ltb, refl,
  replicate, some, suc, sym, zero, ℕ, ◌+◌, ◌/◌, ◌<◌, ◌∷◌, ◌≡◌,
}
use boost_asio_threadpool.Base.Outcome.{returns, throws, undefined}
use mathlib.Core.Bool.{false≢true}
use boost_asio_threadpool.Hash.{calculate_file_hash, calculate_small_file_hash, large_size}
use boost_asio_threadpool.Receive.Missing.{contains}
use boost_asio_threadpool.Repair.{
  RepairFile, complete, re_write_turn, server_handle_damaged_hash_bag, send_damaged_hash_block,
}
use boost_asio_threadpool.Repair.Overwrite.{DiffersIn}
use boost_asio_threadpool.Repair.Send.{packets_in, send_damaged_hash_block_throws}
use boost_asio_threadpool.Repair.ReWrite.{re_write_dangles}
use boost_asio_threadpool.Repair.Whole.{receive_packets, repair_completes}
use boost_asio_threadpool.Samples.{bio, md5}
use boost_asio_threadpool.Upload.{Packet, file_data_len}

abbrev rest : List ℕ
rest = replicate 9216 7

abbrev content : List ℕ
content = 7 ∷ rest

abbrev damaged : RepairFile
damaged = record {
  saved = 8 ∷ rest;
  file_hash = calculate_small_file_hash md5 content;
  hash_codes = [];
  next_verifying = 0;
  damaged_block = 0 ∷ [];
  hash_datas = [];
  rewrite_index = 0;
}

-- The JSON text of a packet is some thirty bytes longer than its data.
abbrev message_size : Packet → ℕ
message_size (seq, bytes) = length bytes + 30

content-length : length content ≡ 9217
content-length = ap suc (length-replicate {A = ℕ} 9216 7)

same :
    (k : ℕ)
    → contains (k / file_data_len) (packets_in (0 ∷ [])) ≡ false
    → get_elem? (8 ∷ rest) k ≡ get_elem? content k
same zero h = absurd (false≢true (sym h))
same (suc k) h = refl

damaged-DiffersIn : DiffersIn content (packets_in (0 ∷ [])) (8 ∷ rest)
damaged-DiffersIn = record { sized = refl; same = same }

small_hash :
    (c : List ℕ)
    → length c < large_size
    → calculate_file_hash md5 (some c) ≡ returns (calculate_small_file_hash md5 c)
unfolding calculate_file_hash
small_hash c h = rw (lt→ltb (length c) large_size h) refl

repair_completes_example :
    (packets : List Packet) × (repaired : RepairFile) × (send_damaged_hash_block bio message_size
        false content
        (0 ∷ [])
      ≡ returns packets)
    × (receive_packets bio md5 packets damaged none ≡ returns (repaired, some complete))
    × (repaired.saved ≡ content)
repair_completes_example =
    repair_completes bio md5 message_size content 0 [] damaged (omega (arith, content-length))
      damaged-DiffersIn refl (small_hash content (omega (arith, content-length)))

re_write_dangles_example :
    (after : RepairFile) × (server_handle_damaged_hash_bag
        (λ f. returns (f, none))
        bio
        (some damaged)
        0
        (7 ∷ [])
      ≡ returns (after, none))
    × ((opens : Bool) → re_write_turn md5 opens after ≡ undefined)
re_write_dangles_example = re_write_dangles md5 bio 0 (7 ∷ []) damaged (omega arith) refl

send_damaged_hash_block_throws_example :
    send_damaged_hash_block bio message_size false (7 ∷ []) (0 ∷ 1 ∷ []) ≡ throws
send_damaged_hash_block_throws_example =
    send_damaged_hash_block_throws bio message_size (7 ∷ []) false 0 (1 ∷ []) (inr (omega arith))
