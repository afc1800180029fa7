-- ===== src/Client/Start/Answer.antt =====
-- HandleFileUpload of logicsystem.cpp: what an answer with a valid number does.
use boost_asio_threadpool.Base.{
  Bool, List, Option, ap, arith, [], get_elem?, get_elem?-set_ne, get_elem?_beyond,
  get_elem?-set_self, if◌then◌else◌, length, le→ltb, lt→leb, lt→ltb, ltb, refl, set, some, sym, ℕ,
  ◌++◌, ◌<◌, ◌%◌, ◌==◌, ◌∷◌, ◌∙◌, ◌≡◌, ◌≤◌,
}
use boost_asio_threadpool.Base.Outcome.{>>=_returns, >>=_throws, returns, throws}
use boost_asio_threadpool.Client.{add_file_to_send, find_file_to_send}
use boost_asio_threadpool.Client.Files.{get_elem?-append_last}
use boost_asio_threadpool.Client.Start.{
  StoredFile, Uploading, handle_file_upload, modify, start_sending, upload_under, with_id,
  with_stream,
}
use native.Mathlib.Decide.{dec_lt, ℕ_discrete}

-- The table with a pointer under a number.
abbrev pub placed : ℕ → ℕ → List (Option ℕ) → List (Option ℕ)
placed p i files = if ltb i (length files) then set files i (some p) else files ++ (some p ∷ [])

abbrev pub sent_as : Bool → ℕ → StoredFile → StoredFile
sent_as opens i stored = with_stream opens (with_id i stored)

-- What the handler leaves.
abbrev pub answered : Bool → ℕ → ℕ → StoredFile → Uploading → Uploading
answered opens i p stored u = record u {
  store = set (set u.store p (with_id i stored)) p (sent_as opens i stored);
  files = placed p i u.files;
  senders = u.senders ++ (p ∷ []);
}

pub get_elem?-placed :
    (files : List (Option ℕ)) (p i j : ℕ)
    → i ≤ length files
    → get_elem? (placed p i files) j ≡ (if j == i then some (some p) else get_elem? files j)
get_elem?-placed files p i j h = elim (dec_lt i (length files)) [
  | yes inside ↦ elim (ℕ_discrete j i) [
    | yes same ↦
        rw (lt→ltb i (length files) inside, same, get_elem?-set_self files i (some p) inside)
          (ground arith)
    | no other ↦
        rw
          (lt→ltb i (length files) inside, get_elem?-set_ne files i j (some p) (λ e. other (sym e)))
          (ground arith)
  ]
  | no outside ↦
      rw (le→ltb i (length files) (omega arith), get_elem?-append_last files (some p) j)
        (ground arith)
]

pub find_file_to_send-placed :
    (files : List (Option ℕ)) (p i j : ℕ)
    → i ≤ length files
    → find_file_to_send j (placed p i files)
      ≡ (if j == i then returns (some p) else find_file_to_send j files)
unfolding find_file_to_send
find_file_to_send-placed files p i j h = rw (get_elem?-placed files p i j h) (ground arith)

modify_lem :
    (p : ℕ) (f : StoredFile → StoredFile) (store : List StoredFile) (stored : StoredFile)
    → get_elem? store p ≡ some stored
    → modify p f store ≡ returns (set store p (f stored))
unfolding modify
modify_lem p f store stored e = rw (modify, e) refl

add_file_to_send-placed :
    (files : List (Option ℕ)) (p i : ℕ)
    → i < 32768
    → i ≤ length files
    → add_file_to_send (some p) i files ≡ returns (placed p i files)
unfolding add_file_to_send
add_file_to_send-placed files p i small h = rw (lt→leb i 32768 small) (ground arith)

pub get_elem?_lt {ℓ} :
    {A : Type ℓ} (xs : List A) (p : ℕ) (x : A) → get_elem? xs p ≡ some x → p < length xs
get_elem?_lt xs p x e = elim (dec_lt p (length xs)) [
  | yes h ↦ h
  | no h ↦ let beyond = get_elem?_beyond xs p (omega arith) in cc
]

pub upload_under_lem :
    (opens : Bool) (i p : ℕ) (u : Uploading) (stored : StoredFile)
    → i < 32768
    → i ≤ length u.files
    → get_elem? u.store p ≡ some stored
    → upload_under opens i (some p) u ≡ returns (answered opens i p stored u)
unfolding upload_under start_sending
upload_under_lem opens i p u stored small h e =
    let hit : get_elem? (set u.store p (with_id i stored)) p ≡ some (with_id i stored) =
      get_elem?-set_self u.store p (with_id i stored) (get_elem?_lt u.store p stored e) in
    let found : find_file_to_send i (placed p i u.files) ≡ returns (some p) =
      find_file_to_send-placed u.files p i i h ∙ ground arith in
    >>=_returns _ (modify_lem p (with_id i) u.store stored e) (
      >>=_returns _ (add_file_to_send-placed u.files p i small h)
        (>>=_returns _ found (>>=_returns _ (modify_lem p (with_stream opens) _ _ hit) refl)))

pub handle_file_upload_lem :
    (opens : Bool) (i p : ℕ) (u : Uploading) (stored : StoredFile)
    → i < 32768
    → i ≤ length u.files
    → u.temp_file ≡ some p
    → get_elem? u.store p ≡ some stored
    → handle_file_upload opens (some i) u ≡ returns (answered opens i p stored u)
unfolding handle_file_upload
handle_file_upload_lem opens i p u stored small h t e =
    let short : i % 65536 ≡ i = omega arith in
    rw (short, lt→leb i 32768 small)
      (ap (λ q. upload_under opens i q u) t ∙ upload_under_lem opens i p u stored small h e)

add_file_to_send_beyond :
    (files : List (Option ℕ)) (p i : ℕ)
    → i < 32768
    → length files < i
    → add_file_to_send (some p) i files ≡ throws
unfolding add_file_to_send
add_file_to_send_beyond files p i small h = rw (lt→leb i 32768 small) (ground arith)

-- A number beyond the end of the table throws.
pub handle_file_upload_throws :
    (opens : Bool) (i p : ℕ) (u : Uploading) (stored : StoredFile)
    → i < 32768
    → length u.files < i
    → u.temp_file ≡ some p
    → get_elem? u.store p ≡ some stored
    → handle_file_upload opens (some i) u ≡ throws
unfolding handle_file_upload upload_under
handle_file_upload_throws opens i p u stored small h t e =
    let short : i % 65536 ≡ i = omega arith in
    rw (short, lt→leb i 32768 small)
      (ap (λ q. upload_under opens i q u) t
        ∙ >>=_returns _ (modify_lem p (with_id i) u.store stored e)
            (>>=_throws _ (add_file_to_send_beyond u.files p i small h)))
