-- ===== src/Client/Start/Supersede.antt =====
-- RequestUpload and HandleFileUpload of logicsystem.cpp: two files are announced before the first answer
-- has come.
use boost_asio_threadpool.Base.{
  Bool, List, [], arith, get_elem?, get_elem?-set_self, length, length-append, refl, some, ℕ, ◌++◌,
  ◌+◌, ◌<◌, ◌∙◌, ◌∷◌, ◌≡◌, ◌≤◌, subst, length-set,
}
use boost_asio_threadpool.Base.Outcome.{>>=_returns, returns, ◌>>=◌}
use boost_asio_threadpool.Client.{find_file_to_send}
use boost_asio_threadpool.Client.Files.{get_elem?-append_last}
use boost_asio_threadpool.Client.Start.{
  StoredFile, Uploading, handle_file_upload, make_temp_file, with_id, with_stream,
}
use boost_asio_threadpool.Finish.{set_file_id}
use boost_asio_threadpool.Client.Start.Answer.{
  answered, find_file_to_send-placed, get_elem?-placed, get_elem?_lt, handle_file_upload_lem,
  sent_as,
}

-- Both numbers find one file, which has the second number, and two threads were started for it; `before`
-- lists the threads from before.
pub record IsTwice (i p : ℕ) (before : List ℕ) (after : Uploading) : Type 0 where
  pub first_found : find_file_to_send i after.files ≡ returns (some p)
  pub second_found : find_file_to_send (i + 1) after.files ≡ returns (some p)
  pub last_file : StoredFile
  pub last_stored : get_elem? after.store p ≡ some last_file
  pub second_id : last_file.file.file_id ≡ some (i + 1)
  pub threads : after.senders ≡ (before ++ (p ∷ [])) ++ (p ∷ [])

answered-store :
    (opens : Bool) (i p : ℕ) (stored : StoredFile) (u : Uploading)
    → p < length u.store
    → get_elem? (answered opens i p stored u).store p ≡ some (sent_as opens i stored)
answered-store opens i p stored u h =
    get_elem?-set_self _ p _ (rw (length-set u.store p (with_id i stored)) h)

two_answers :
    (opens : Bool) (i p : ℕ) (u : Uploading) (stored : StoredFile)
    → i + 1 < 32768
    → i ≤ length u.files
    → u.temp_file ≡ some p
    → get_elem? u.store p ≡ some stored
    → (after : Uploading) × ((handle_file_upload opens (some i) u
          >>= handle_file_upload opens (some (i + 1)))
        ≡ returns after)
      × IsTwice i p u.senders after
unfolding with_id with_stream set_file_id
two_answers opens i p u stored small h t e =
    let inside = get_elem?_lt u.store p stored e in
    let next = answered opens i p stored u in
    let kept = answered-store opens i p stored u inside in
    let after = answered opens (i + 1) p (sent_as opens i stored) next in
    let found : get_elem? next.files i ≡ some (some p) =
      get_elem?-placed u.files p i i h ∙ ground arith in
    let fits = get_elem?_lt next.files i (some p) found in
    let again : find_file_to_send i next.files ≡ returns (some p) =
      find_file_to_send-placed u.files p i i h ∙ ground arith in
    (
      after,
      >>=_returns _ (handle_file_upload_lem opens i p u stored (omega (arith, small)) h t e) (
          handle_file_upload_lem opens (i + 1) p next (sent_as opens i stored) small
            (omega (arith, fits)) t kept),
      record {
        first_found =
            find_file_to_send-placed next.files p (i + 1) i (omega (arith, fits))
            ∙ ground (arith, again);
        second_found =
            find_file_to_send-placed next.files p (i + 1) (i + 1) (omega (arith, fits))
            ∙ ground arith;
        last_file = sent_as opens (i + 1) (sent_as opens i stored);
        last_stored =
            answered-store opens (i + 1) p (sent_as opens i stored) next
              (get_elem?_lt next.store p _ kept);
        second_id = refl;
        threads = refl;
      },
    )

-- Two files are announced, and then the server's two answers give the next two numbers: both numbers
-- find the second file, whose own number is the second one, and SendFile is started twice for the
-- second file and never for the first.
pub make_temp_file_supersedes :
    (opens : Bool) (a b : StoredFile) (u : Uploading) (i : ℕ)
    → i ≡ length u.files
    → i + 1 < 32768
    → (after : Uploading) × ((handle_file_upload opens
            (some i)
            (make_temp_file b (make_temp_file a u))
          >>= handle_file_upload opens (some (i + 1)))
        ≡ returns after)
      × IsTwice i (length u.store + 1) u.senders after
unfolding make_temp_file
make_temp_file_supersedes opens a b u i e small =
    let made = make_temp_file b (make_temp_file a u) in
    let p = length (u.store ++ (a ∷ [])) in
    let place : p ≡ length u.store + 1 = length-append u.store (a ∷ []) in
    let hit : get_elem? made.store p ≡ some b =
      get_elem?-append_last (u.store ++ (a ∷ [])) b p ∙ ground arith in
    let (after, run, twice) = two_answers opens i p made b small (omega (arith, e)) refl hit in
    (after, run, subst (λ q. IsTwice i q u.senders after) place twice)
