-- ===== src/Upload/Request.antt =====
-- RequestUpload of logicsystem.cpp: what the client announces of a file.
use boost_asio_threadpool.Base.{
  List, Option, [], if◌then◌else◌, length, none, some, sym, ap, ℕ, ◌∷◌, ◌≡◌,
}
use boost_asio_threadpool.Base.Outcome.{Outcome, blocks, returns, throws, undefined}
use boost_asio_threadpool.Hash.{Md5, calculate_file_hash}
use boost_asio_threadpool.Receive.{is_nil}
use boost_asio_threadpool.Server.{UploadRequest}
use boost_asio_threadpool.Upload.{total_packets}

-- `file_name_of` is the filename of a std::filesystem::path.
module _ (m : Md5) (file_name_of : List ℕ → List ℕ) where
  -- The request, once the hash is known; an exception is caught, and nothing is sent.
  unfoldable pub announce : List ℕ → Option (List ℕ) → Outcome (List ℕ) → Option UploadRequest
  announce filepath (some content) (returns filehash) = some (record {
    file_name = file_name_of filepath;
    file_size = length content;
    file_num = total_packets (length content);
    file_hash = filehash;
  })
  announce filepath none (returns filehash) = none
  announce filepath content throws = none
  announce filepath content blocks = none
  announce filepath content undefined = none

  -- The handler: the request that is sent, if one is. The content is `none` where the file cannot be
  -- opened.
  unfoldable pub request_upload : List ℕ → Option (List ℕ) → Option UploadRequest
  request_upload filepath content =
      if is_nil filepath then none else announce filepath content (calculate_file_hash m content)

  announced :
      (filepath content : List ℕ) (r : UploadRequest) (hash : Outcome (List ℕ))
      → announce filepath (some content) hash ≡ some r
      → (r.file_name ≡ file_name_of filepath)
        × (r.file_size ≡ length content)
        × (r.file_num ≡ total_packets (length content))
        × (hash ≡ returns r.file_hash)
  unfolding announce
  announced filepath content r (returns filehash) e =
      let sent : UploadRequest = record {
        file_name = file_name_of filepath;
        file_size = length content;
        file_num = total_packets (length content);
        file_hash = filehash;
      } in
      let same : sent ≡ r = cc in
      (
        sym (ap (λ q. q.file_name) same),
        sym (ap (λ q. q.file_size) same),
        sym (ap (λ q. q.file_num) same),
        ap (λ q. returns q.file_hash) same,
      )
  announced filepath content r throws e = cc
  announced filepath content r blocks e = cc
  announced filepath content r undefined e = cc

  -- What a request says of the file.
  pub request_upload_lem :
      (filepath content : List ℕ) (r : UploadRequest)
      → request_upload filepath (some content) ≡ some r
      → (r.file_name ≡ file_name_of filepath)
        × (r.file_size ≡ length content)
        × (r.file_num ≡ total_packets (length content))
        × (calculate_file_hash m (some content) ≡ returns r.file_hash)
  unfolding request_upload
  request_upload_lem [] content r e = cc
  request_upload_lem (x ∷ filepath) content r e =
      announced (x ∷ filepath) content r (calculate_file_hash m (some content)) e
