-- ===== src/Server/Preserve.antt =====
-- The handlers of the server keep the files and the numbers of a session together.
use boost_asio_threadpool.Base.{
  Bool, Bool-cases, Bytes_eq, List, Option, String, String_eq, false, get_or, if◌then◌else◌, inl,
  inr, leb, none, refl, set, some, subst, sym, true, ℕ, ℕ_eq, ◌%◌, ◌&&◌, ◌==◌, ◌∙◌, ◌≡◌,
}
use boost_asio_threadpool.Base.Outcome.{>>=-eq-returns, returns, returns-injective, throws}
use boost_asio_threadpool.Base64.{Bio, base64_decode}
use boost_asio_threadpool.FileManagement.{find_file}
use boost_asio_threadpool.Hash.{Md5}
use boost_asio_threadpool.Receive.{FileToReceve, add_packet, check_missing_packets, new_file}
use boost_asio_threadpool.Receive.FinalCheck.{Verdict, file_complete, request_verify, tell_lost_bag}
use boost_asio_threadpool.Server.{
  ServerSession, UploadRequest, check_lost, check_lost_per_bags, conclude, final_accepted,
  handle_data, handle_upload_request, put_file, re_check, requests_verify, rejects, send_message,
  starts, store_data, tell_lost, tells_lost_bag,
}
use boost_asio_threadpool.Server.Held.{
  IsHeld, cleared, complete-IsHeld, file-taken, put_file-IsHeld, send_message-IsHeld, take-IsHeld,
}
use boost_asio_threadpool.Server.Requests.{answered, handle_upload_request_lem}

module _ (b : Bio) (m : Md5) (uuid : String) (opens : List ℕ → Bool) where
  -- Whichever way a request with a number goes.
  either-IsHeld :
      (negative opened : Bool) (x y s' : ServerSession)
      → IsHeld uuid x
      → IsHeld uuid y
      → (if negative then throws else returns (if opened then x else y)) ≡ returns s'
      → IsHeld uuid s'
  either-IsHeld true opened x y s' hx hy e = cc
  either-IsHeld false true x y s' hx hy e = subst (IsHeld uuid) (returns-injective e) hx
  either-IsHeld false false x y s' hx hy e = subst (IsHeld uuid) (returns-injective e) hy

  answered-IsHeld :
      (r : UploadRequest) (garbage i : ℕ) (s s' : ServerSession)
      → IsHeld uuid s
      → answered uuid opens r garbage i s ≡ returns s'
      → IsHeld uuid s'
  answered-IsHeld r garbage i s s' h e =
      let t = record s { file_ids = set s.file_ids i false } in
      let file = new_file garbage r.file_num r.file_hash in
      let taken = take-IsHeld uuid i s h in
      either-IsHeld (leb 2147483648 r.file_num) (opens r.file_name) _ _ s'
        (send_message-IsHeld uuid (starts i) (put_file uuid i file t)
          (put_file-IsHeld uuid i file t (cleared s.file_ids i) taken))
        (send_message-IsHeld uuid rejects t taken) e

  pub handle_upload_request-IsHeld :
      (r : UploadRequest) (garbage : ℕ) (s s' : ServerSession)
      → IsHeld uuid s
      → handle_upload_request uuid opens r garbage s ≡ returns s'
      → IsHeld uuid s'
  handle_upload_request-IsHeld r garbage s s' h e =
      elim (handle_upload_request_lem uuid opens r garbage s h) [
        | inl (huge, thrown) ↦ cc
        | inr (read, answer) ↦ elim answer [
          | inl (all, refused) ↦
              subst (IsHeld uuid) (returns-injective (sym refused ∙ e))
                (send_message-IsHeld uuid rejects s h)
          | inr (i, free, before, same) ↦ answered-IsHeld r garbage i s s' h (sym same ∙ e)
        ]
      ]

  -- The checks of a packet change the file that is there.
  check_lost-IsHeld :
      (i seq : ℕ) (file : FileToReceve) (s : ServerSession)
      → get_or s.file_ids i false ≡ false
      → IsHeld uuid s
      → IsHeld uuid (check_lost uuid i seq file s)
  unfolding check_lost tell_lost
  check_lost-IsHeld i seq file s taken h =
      elim (Bool-cases (file.able_to_receive_lost_bag && (seq % check_lost_per_bags == 0))) [
        | inl looks ↦ rw looks (told (check_missing_packets false file))
        | inr passes ↦ rw passes (put_file-IsHeld uuid i file s taken h)
      ]
    where
      told : (r : FileToReceve × Bool) → IsHeld uuid (tell_lost uuid i r s)
      told (f, false) = put_file-IsHeld uuid i f s taken h
      told (f, true) =
          send_message-IsHeld uuid (tells_lost_bag i f.missing_seqs) _
            (put_file-IsHeld uuid i (record f { able_to_receive_lost_bag = false }) s taken h)

  pub handle_data-IsHeld :
      (i seq : ℕ) (encoded : List ℕ) (s s' : ServerSession)
      → IsHeld uuid s
      → handle_data b uuid i seq encoded s ≡ returns s'
      → IsHeld uuid s'
  unfolding handle_data store_data
  handle_data-IsHeld i seq encoded s s' h e =
      let (filedata, d, e') = >>=-eq-returns (base64_decode b encoded) _ e in
      stored_in (find_file uuid i s.files) filedata refl e'
    where
      stored_in :
          (o : Option FileToReceve) (filedata : List ℕ)
          → find_file uuid i s.files ≡ o
          → store_data uuid i seq filedata o s ≡ returns s'
          → IsHeld uuid s'
      stored_in none filedata f e = cc
      stored_in (some file) filedata f e =
          let (r, a, e') = >>=-eq-returns (add_packet false file seq filedata) _ e in
          subst (IsHeld uuid) (returns-injective e')
            (check_lost-IsHeld i seq r.0 s (file-taken uuid i file s h f) h)

  -- A handler that sets a flag of the file.
  pub final_accepted-IsHeld :
      (o : Option FileToReceve) (i : ℕ) (s s' : ServerSession)
      → find_file uuid i s.files ≡ o
      → IsHeld uuid s
      → final_accepted uuid i o s ≡ returns s'
      → IsHeld uuid s'
  unfolding final_accepted
  final_accepted-IsHeld none i s s' f h e = cc
  final_accepted-IsHeld (some file) i s s' f h e = subst (IsHeld uuid) (returns-injective e) (
      put_file-IsHeld uuid i (record file { is_final_accepted = true }) s
        (file-taken uuid i file s h f) h)

  re_check-IsHeld :
      (o : Option FileToReceve) (i : ℕ) (s s' : ServerSession)
      → find_file uuid i s.files ≡ o
      → IsHeld uuid s
      → re_check uuid i o s ≡ returns s'
      → IsHeld uuid s'
  unfolding re_check
  re_check-IsHeld none i s s' f h e = cc
  re_check-IsHeld (some file) i s s' f h e = subst (IsHeld uuid) (returns-injective e) (
      put_file-IsHeld uuid i (record file { able_to_receive_lost_bag = true }) s
        (file-taken uuid i file s h f) h)

  pub conclude-IsHeld :
      (r : FileToReceve × Verdict) (i : ℕ) (s : ServerSession)
      → get_or s.file_ids i false ≡ false
      → IsHeld uuid s
      → IsHeld uuid (conclude uuid i r s)
  unfolding conclude send_message
  conclude-IsHeld (file, tell_lost_bag seqs) i s taken h =
      send_message-IsHeld uuid (tells_lost_bag i seqs) _ (put_file-IsHeld uuid i file s taken h)
  conclude-IsHeld (file, request_verify) i s taken h =
      send_message-IsHeld uuid (requests_verify i) _ (put_file-IsHeld uuid i file s taken h)
  conclude-IsHeld (file, file_complete) i s taken h = complete-IsHeld uuid i s _ h
