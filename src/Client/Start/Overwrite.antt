-- ===== src/Client/Start/Overwrite.antt =====
-- FinishUpload and HandleFileUpload of logicsystem.cpp: a number that is free again is given to a new
-- file, while RemoveFile has moved another file to it.
use boost_asio_threadpool.Base.{
  Bool, List, Option, arith, get_elem?, length, none, refl, some, sym, ℕ, ◌+◌, ◌<◌, ◌∙◌, ◌≡◌, ◌≢◌,
  le→ltb, lt→ltb,
}
use boost_asio_threadpool.Base.Outcome.{returns}
use boost_asio_threadpool.Client.{element, find_file_to_send, remove_file}
use boost_asio_threadpool.Client.Files.{find_file_to_send-remove_file}
use boost_asio_threadpool.Client.Start.{StoredFile, Uploading, finish_file, handle_file_upload}
use boost_asio_threadpool.Client.Start.Answer.{
  answered, find_file_to_send-placed, get_elem?_lt, handle_file_upload_lem,
}
use native.Mathlib.Decide.{dec_lt, ℕ_discrete}

element_returns :
    (found : Option (Option ℕ)) (x : Option ℕ) → element found ≡ returns x → found ≡ some x
element_returns none x e = cc
element_returns (some y) x e = cc

find_file_to_send_hit :
    (files : List (Option ℕ)) (j : ℕ) (x : Option ℕ)
    → find_file_to_send j files ≡ returns x
    → get_elem? files j ≡ some x
unfolding find_file_to_send
find_file_to_send_hit files j x e = element_returns (get_elem? files j) x e

find_file_to_send_found :
    (files : List (Option ℕ)) (j : ℕ) (x : Option ℕ)
    → get_elem? files j ≡ some x
    → find_file_to_send j files ≡ returns x
unfolding find_file_to_send
find_file_to_send_found files j x e = rw e refl

-- After a removal the file behind the removed one has its number, and no other.
remove_file_moved :
    (files : List (Option ℕ)) (i j q : ℕ)
    → i < length files
    → ((k : ℕ) → get_elem? files k ≡ some (some q) → k ≡ i + 1)
    → find_file_to_send j (remove_file i files) ≡ returns (some q)
    → j ≡ i
remove_file_moved files i j q h once e = elim (dec_lt j i) [
  | yes before ↦
      let moved : find_file_to_send j files ≡ returns (some q) =
        sym (find_file_to_send-remove_file files i j h ∙ rw (lt→ltb j i before) refl) ∙ e in
      absurd (let at = once j (find_file_to_send_hit files j (some q) moved) in omega (arith, at))
  | no after ↦
      let moved : find_file_to_send (j + 1) files ≡ returns (some q) =
        sym (find_file_to_send-remove_file files i j h ∙ rw (le→ltb j i (omega arith)) refl) ∙ e in
      let at = once (j + 1) (find_file_to_send_hit files (j + 1) (some q) moved) in
      omega (arith, at)
]

returns_some : (p q : ℕ) → returns (some p) ≡ returns (some q) → q ≡ p
returns_some p q e = cc

-- A file under way that stands behind a file that finishes is lost where the number of the finished
-- file, which the server has freed, is given to a new file: afterwards the number finds the new file, and
-- the file that was under way, if it stood in one place of the table, is found under no number.
pub finish_file_overwrites :
    (opens : Bool) (i j p q : ℕ) (u : Uploading) (stored : StoredFile)
    → i < 32768
    → i < length u.files
    → u.temp_file ≡ some p
    → get_elem? u.store p ≡ some stored
    → q ≢ p
    → get_elem? u.files (i + 1) ≡ some (some q)
    → ((k : ℕ) → get_elem? u.files k ≡ some (some q) → k ≡ i + 1)
    → (after : Uploading) × (handle_file_upload opens (some i) (finish_file i u) ≡ returns after)
      × (find_file_to_send i after.files ≡ returns (some p))
      × (find_file_to_send j after.files ≢ returns (some q))
unfolding finish_file
finish_file_overwrites opens i j p q u stored small h t e other behind once =
    let files = remove_file i u.files in
    let moved : find_file_to_send i files ≡ returns (some q) =
      find_file_to_send-remove_file u.files i i h
      ∙ rw (le→ltb i i (omega arith)) (find_file_to_send_found u.files (i + 1) (some q) behind) in
    let fits = get_elem?_lt files i (some q) (find_file_to_send_hit files i (some q) moved) in
    (
      answered opens i p stored (finish_file i u),
      handle_file_upload_lem opens i p (finish_file i u) stored small (omega (arith, fits)) t e,
      find_file_to_send-placed files p i i (omega (arith, fits)) ∙ ground arith,
      λ found. elim (ℕ_discrete j i) [
        | yes same ↦ other (
            returns_some p q (
              sym (find_file_to_send-placed files p i j (omega (arith, fits)) ∙ ground arith)
              ∙ found))
        | no apart ↦ apart (
            remove_file_moved u.files i j q h once (
              sym (find_file_to_send-placed files p i j (omega (arith, fits)) ∙ ground arith)
              ∙ found))
      ],
    )
