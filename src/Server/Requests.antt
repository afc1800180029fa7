-- ===== src/Server/Requests.antt =====
-- HandleUploadRequest of logicsystem.cpp.
use boost_asio_threadpool.Base.{
  Bool, Bool-cases, Bytes_eq, List, String, String_eq, [], arith, ap, false, get_or, if◌then◌else◌,
  inl, inr, length, append-nil, append_assoc, ◌+◌, suc, leb, none, refl, replicate, set, some, sym,
  true, ℕ, ℕ_eq, ◌<◌, ◌∙◌, ◌∷◌, ◌≡◌, ◌++◌, ◌⊎◌,
}
use boost_asio_threadpool.Base.Outcome.{Outcome, returns, throws, ◌>>=◌}
use boost_asio_threadpool.FileManagement.{find_file}
use boost_asio_threadpool.FileManagement.Find.{add_file-cases}
use boost_asio_threadpool.Receive.{FileToReceve, new_file}
use boost_asio_threadpool.Session.FileIds.{
  all_free, max_upload_num, get_file_id, get_file_id_filled, get_file_id_lem,
}
use boost_asio_threadpool.Server.{
  ServerSession, UploadRequest, accept, construct, handle_upload_request, is_readable, put_file,
  rejects, send_message, start_file, started, starts,
}
use boost_asio_threadpool.Server.Held.{IsHeld}

module _ (uuid : String) (opens : List ℕ → Bool) where
  -- AddFile takes a file under a number that has none.
  start_file_free :
      (i : ℕ) (file : FileToReceve) (s : ServerSession)
      → find_file uuid i s.files ≡ none
      → start_file uuid opens i (some file) s
        ≡ returns (send_message (starts i) (put_file uuid i file s))
  unfolding start_file started send_message put_file
  start_file_free i file s no_file = elim (add_file-cases uuid i file s.files) [
    | inl (taken, e) ↦ absurd (taken no_file)
    | inr (free, e) ↦ rw e refl
  ]

  -- The answer to a request that has got a number.
  abbrev pub answered : UploadRequest → ℕ → ℕ → ServerSession → Outcome ServerSession
  answered r garbage i s =
      let s' = record s { file_ids = set s.file_ids i false } in
      if leb 2147483648 r.file_num
      then throws
      else returns (
          if opens r.file_name
          then send_message (starts i)
              (put_file uuid i (new_file garbage r.file_num r.file_hash) s')
          else send_message rejects s')

  accept_free :
      (r : UploadRequest) (garbage i : ℕ) (s : ServerSession)
      → find_file uuid i s.files ≡ none
      → accept uuid opens r garbage (set s.file_ids i false, some i) s ≡ answered r garbage i s
  unfolding accept construct
  accept_free r garbage i s no_file = elim (Bool-cases (leb 2147483648 r.file_num)) [
    | inl negative ↦ rw negative refl
    | inr counted ↦ elim (Bool-cases (opens r.file_name)) [
      | inl opened ↦
          rw (counted, opened)
            (start_file_free i (new_file garbage r.file_num r.file_hash)
              (record s { file_ids = set s.file_ids i false }) no_file)
      | inr shut ↦ unfold start_file in rw (counted, shut) refl
    ]
  ]

  -- Where no free number has a file, a request whose size or packet count is 2 ^ 32 or more throws out of
  -- the handler, and any other is rejected if all the session's numbers are in use. Else it takes the smallest free one, and the new file stands under that number and the client is
  -- told to start, if the file can be opened; if it cannot, the client is rejected, and the number
  -- stays taken. A packet count that is negative as an `int` throws out of the handler.
  pub handle_upload_request_lem :
      (r : UploadRequest) (garbage : ℕ) (s : ServerSession)
      → IsHeld uuid s
      → ((is_readable r ≡ false) × (handle_upload_request uuid opens r garbage s ≡ throws))
        ⊎ ((is_readable r ≡ true)
            × ((((j : ℕ) → get_or s.file_ids j false ≡ false)
                  × (handle_upload_request uuid opens r garbage s
                      ≡ returns (send_message rejects s)))
                ⊎ ((i : ℕ) × (get_or s.file_ids i false ≡ true)
                    × ((j : ℕ) → j < i → get_or s.file_ids j false ≡ false)
                    × (handle_upload_request uuid opens r garbage s ≡ answered r garbage i s))))
  unfolding handle_upload_request
  handle_upload_request_lem r garbage s h = elim (Bool-cases (is_readable r)) [
    | inr huge ↦ inl (huge, rw huge refl)
    | inl read ↦ inr (
      read,
      elim (get_file_id_lem s.file_ids) [
        | inl (e, all) ↦ inl (all, rw read (unfold accept in rw e refl))
        | inr (i, e, free, before) ↦ inr (
          i,
          free,
          before,
          rw read (
              ap (λ got. accept uuid opens r garbage got s) e
              ∙ accept_free r garbage i s (h.free i free)),
        )
      ],
    )
  ]

  -- A request with a readable size, a packet count that fits an `int`, and a file that cannot be opened.
  abbrev pub AreRefused : List UploadRequest → Type 0
  AreRefused [] = Unit {0}
  AreRefused (r ∷ rs) =
      (is_readable r ≡ true)
      × (leb 2147483648 r.file_num ≡ false)
      × (opens r.file_name ≡ false)
      × AreRefused rs

  -- Requests one after the other, each with its value of the uninitialised member.
  unfoldable pub handle_upload_requests :
      List UploadRequest → ℕ → ServerSession → Outcome ServerSession
  handle_upload_requests [] garbage s = returns s
  handle_upload_requests (r ∷ rs) garbage s = do
    s' ← handle_upload_request uuid opens r garbage s
    handle_upload_requests rs garbage s'

  -- One such request takes a number, and gives nothing back.
  refused :
      (r : UploadRequest) (garbage i : ℕ) (ids : List Bool) (s : ServerSession)
      → get_file_id s.file_ids ≡ (ids, some i)
      → is_readable r ≡ true
      → leb 2147483648 r.file_num ≡ false
      → opens r.file_name ≡ false
      → handle_upload_request uuid opens r garbage s
        ≡ returns (send_message rejects (record s { file_ids = ids }))
  unfolding handle_upload_request accept construct start_file
  refused r garbage i ids s got read counted shut = rw (read, got, counted, shut) refl

  abbrev rejected : ℕ → ℕ → ServerSession → ServerSession
  rejected n left s = record s {
    file_ids = replicate (suc n) false ++ replicate left true;
    sent = s.sent ++ (rejects ∷ []);
  }

  refused_from :
      (rs : List UploadRequest) (garbage n : ℕ) (s : ServerSession)
      → AreRefused rs
      → n + length rs ≡ max_upload_num
      → s.file_ids ≡ replicate n false ++ replicate (length rs) true
      → (s' : ServerSession) × (handle_upload_requests rs garbage s ≡ returns s')
        × (s'.file_ids ≡ replicate max_upload_num false)
        × (s'.files ≡ s.files)
        × (s'.sent ≡ s.sent ++ replicate (length rs) rejects)
  unfolding handle_upload_requests send_message
  refused_from [] garbage n s refused_ size ids =
      let full : n ≡ 5 = omega (arith, size) in
      (
        s,
        refl,
        ids ∙ (append-nil (replicate n false) ∙ ap (λ k. replicate k false) full),
        refl,
        sym (append-nil s.sent),
      )
  refused_from (r ∷ rs) garbage n s refused_ size ids =
      let one =
        refused r garbage n (replicate (suc n) false ++ replicate (length rs) true) s
          (ap get_file_id ids ∙ get_file_id_filled n (replicate (length rs) true)) refused_.0
          refused_.1 refused_.2 in
      let (s', run, taken, same, told) =
        refused_from rs garbage (suc n) (rejected n (length rs) s) refused_.3 (omega (arith, size))
          refl in
      (
        s',
        rw one run,
        taken,
        same,
        told ∙ append_assoc s.sent (rejects ∷ []) (replicate (length rs) rejects),
      )

  -- Five readable requests for files that the server cannot open, with packet counts that fit an `int`, use up
  -- the five numbers of a session whose numbers were all free, though no file is received: every later
  -- readable request is rejected.
  pub requests_drain :
      (rs : List UploadRequest) (r : UploadRequest) (garbage : ℕ) (s : ServerSession)
      → AreRefused rs
      → length rs ≡ max_upload_num
      → s.file_ids ≡ all_free
      → is_readable r ≡ true
      → (s' : ServerSession) × (handle_upload_requests rs garbage s ≡ returns s')
        × (s'.files ≡ s.files)
        × (handle_upload_request uuid opens r garbage s' ≡ returns (send_message rejects s'))
  unfolding handle_upload_request accept get_file_id
  requests_drain rs r garbage s refused_ size ids read =
      let (s', run, taken, same, told) =
        refused_from rs garbage 0 s refused_ (omega (arith, size))
          (ids ∙ ap (λ k. replicate k true) (sym size)) in
      (s', run, same, rw (read, taken) refl)
