-- ===== src/Client/Examples.antt =====
-- The theorems about client.cpp at concrete paths and tables.
use boost_asio_threadpool.Base.{
  List, [], arith, false, refl, some, subst, ℕ, ◌++◌, ◌∷◌, ◌≡◌, ◌≤◌, length, map, replicate,
  get_elem?, true, zero, suc, ◌+◌, ◌≢◌,
}
use boost_asio_threadpool.Session.FileIds.{max_upload_num}
use boost_asio_threadpool.Client.{Sender, deal_send_queue, find_file_to_send, request_upload}
use boost_asio_threadpool.Base.Outcome.{returns, ◌>>=◌}
use boost_asio_threadpool.Finish.{new_file_to_send}
use boost_asio_threadpool.Client.Start.{
  StoredFile, Uploading, finish_file, handle_file_upload, make_temp_file,
}
use boost_asio_threadpool.Client.Start.Overwrite.{finish_file_overwrites}
use boost_asio_threadpool.Client.Start.Supersede.{IsTwice, make_temp_file_supersedes}
use boost_asio_threadpool.Client.Stuck.{finishes, requests, run, run_sixth, turns}
use boost_asio_threadpool.Client.Uploads.{
  Reach, Reach-uploads, begin, idle, kept, requested, turned,
}

-- A client that was asked for two files, of which its thread has posted one.
abbrev busy : Sender
busy = record {
  send_queue = (98 ∷ []) ∷ [];
  now_send = 1;
  waiting = false;
  posted = (97 ∷ []) ∷ [];
}

asked : deal_send_queue (request_upload (98 ∷ []) (request_upload (97 ∷ []) idle)) ≡ busy
unfolding request_upload deal_send_queue
asked = refl

busy-Reach : Reach ((97 ∷ []) ∷ ((98 ∷ []) ∷ [])) 0 busy
busy-Reach =
    subst (Reach ((97 ∷ []) ∷ ((98 ∷ []) ∷ [])) 0) asked
      (turned (requested (98 ∷ []) (requested (97 ∷ []) begin)))

Reach-uploads_example :
    (length busy.posted ≡ busy.now_send + 0)
    × (length busy.posted ≤ max_upload_num + 0)
    × (kept ((97 ∷ []) ∷ ((98 ∷ []) ∷ [])) ≡ busy.posted ++ kept busy.send_queue)
Reach-uploads_example = Reach-uploads busy-Reach

abbrev five : List (List ℕ)
five = replicate 5 (97 ∷ [])

run_sixth_example :
    (run idle (
      map requests (five ++ ((98 ∷ []) ∷ []))
      ++ (replicate (length five) turns ++ ((turns ∷ []) ++ (finishes ∷ (turns ∷ [])))))).posted
    ≡ five
run_sixth_example =
    run_sixth five [] (98 ∷ []) (finishes ∷ (turns ∷ [])) (refl, (refl, (refl, (refl, (refl, tt)))))
      refl

abbrev stored_file : StoredFile
stored_file = record { file = new_file_to_send; is_open = true }

-- Three files under way, and a fourth that was announced.
abbrev uploading : Uploading
uploading = record {
  store = replicate 4 stored_file;
  temp_file = some 3;
  files = some 0 ∷ some 1 ∷ some 2 ∷ [];
  senders = 0 ∷ 1 ∷ 2 ∷ [];
}

second_once : (k : ℕ) → get_elem? uploading.files k ≡ some (some 1) → k ≡ 0 + 1
second_once zero e = cc
second_once (suc zero) e = refl
second_once (suc (suc zero)) e = cc
second_once (suc (suc (suc k))) e = cc

finish_file_overwrites_example :
    (after : Uploading) × (handle_file_upload false (some 0) (finish_file 0 uploading)
      ≡ returns after)
    × (find_file_to_send 0 after.files ≡ returns (some 3))
    × (find_file_to_send 1 after.files ≢ returns (some 1))
finish_file_overwrites_example =
    finish_file_overwrites false 0 1 3 1 uploading stored_file (omega arith) (omega arith) refl refl
      (λ e. absurd (omega (arith, e))) refl second_once

make_temp_file_supersedes_example :
    (after : Uploading) × ((handle_file_upload true
          (some 3)
          (make_temp_file stored_file (make_temp_file stored_file uploading))
        >>= handle_file_upload true (some 4))
      ≡ returns after)
    × IsTwice 3 5 uploading.senders after
make_temp_file_supersedes_example =
    make_temp_file_supersedes true stored_file stored_file uploading 3 refl (omega arith)
