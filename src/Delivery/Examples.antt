-- ===== src/Delivery/Examples.antt =====
-- An upload of a file of 20481 bytes.
use boost_asio_threadpool.Base.{
  Bytes_eq, List, String_eq, [], ap, arith, length, length-replicate, lt→ltb, none, get_or, false,
  lookup, refl, replicate, some, sym, true, ℕ, ℕ_eq, ◌<◌, ◌∷◌, ◌≡◌,
}
use boost_asio_threadpool.Base.Outcome.{returns}
use boost_asio_threadpool.Delivery.{check_file, write_out}
use boost_asio_threadpool.Delivery.{range, send_again, send_and_check}
use boost_asio_threadpool.Delivery.Whole.{upload_completes}
use boost_asio_threadpool.FileManagement.{files_of, find_file}
use boost_asio_threadpool.Hash.{calculate_file_hash, calculate_small_file_hash, large_size}
use boost_asio_threadpool.Receive.{FileToReceve}
use boost_asio_threadpool.Samples.{bio, md5}
use boost_asio_threadpool.Server.{
  ServerSession, UploadRequest, completes, handle_upload_request, receives_final, starts,
  tells_lost_bag,
}
use boost_asio_threadpool.Server.Held.{IsHeld}
use boost_asio_threadpool.Session.FileIds.{all_free}
use boost_asio_threadpool.Upload.{total_packets}
use boost_asio_threadpool.Upload.Request.{announce, request_upload}

abbrev content : List ℕ
content = replicate 20481 7

abbrev request : UploadRequest
request = record {
  file_name = 97 ∷ [];
  file_size = 20481;
  file_num = 21;
  file_hash = calculate_small_file_hash md5 content;
}

abbrev fresh : ServerSession
fresh = record { files = []; file_ids = all_free; sent = [] }

fresh-IsHeld : IsHeld "u" fresh
unfolding find_file lookup files_of
fresh-IsHeld = record { sized = refl; free = λ i h. refl }

content-length : length content ≡ 20481
content-length = length-replicate {A = ℕ} 20481 7

content-counted : 21 ≡ total_packets (length content)
unfolding total_packets
content-counted = sym (ap total_packets content-length)

small_hash :
    (c : List ℕ)
    → length c < large_size
    → calculate_file_hash md5 (some c) ≡ returns (calculate_small_file_hash md5 c)
unfolding calculate_file_hash
small_hash c h = rw (lt→ltb (length c) large_size h) refl

content-hash :
    calculate_file_hash md5 (some content) ≡ returns (calculate_small_file_hash md5 content)
content-hash = small_hash content (omega (arith, content-length))

request-announced : request_upload md5 (λ path. path) (97 ∷ []) (some content) ≡ some request
unfolding request_upload announce
request-announced = rw (content-hash, sym content-counted, content-length) refl

upload_completes_example :
    (i : ℕ) × (started checked again written complete : ServerSession) × (file : FileToReceve)
    × (handle_upload_request "u" (λ name. true) request 0 fresh ≡ returns started)
    × (send_and_check bio md5 "u" i content started ≡ returns checked)
    × (send_again bio "u" i content checked ≡ returns again)
    × (write_out "u" i 21 again ≡ returns written)
    × (find_file "u" i written.files ≡ some file)
    × (file.saved ≡ content)
    × (check_file "u" i md5 written ≡ returns complete)
    × (complete.sent
        ≡ starts i ∷ receives_final i ∷ tells_lost_bag i (range 0 20) ∷ completes i ∷ [])
    × (get_or complete.file_ids i false ≡ true)
    × (find_file "u" i complete.files ≡ none)
upload_completes_example =
    upload_completes bio md5 "u" (λ name. true) (λ path. path) (97 ∷ []) content request 0 2 fresh
      request-announced fresh-IsHeld refl refl (omega (arith, content-length))
      (omega (arith, content-length))
