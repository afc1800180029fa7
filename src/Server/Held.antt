-- ===== src/Server/Held.antt =====
-- Every sequence of handlers and threads on the server's side of one session: which numbers are held.
use boost_asio_threadpool.Base.{
  ==_iff, Bool, Bool-cases, Bytes_eq, List, String, String_eq, [], false, get_or, get_or-set_ne,
  if◌then◌else◌, inl, inr, length, length-set, none, refl, set, some, sym, true, zero, suc, ℕ, ℕ_eq,
  ◌∙◌, ◌∷◌, ◌≡◌, ap, ◌==◌,
}
use mathlib.Core.Bool.{false≢true}
use boost_asio_threadpool.FileManagement.{find_file, remove_file}
use boost_asio_threadpool.FileManagement.Find.{find_file-insert_file, find_file-remove_file_own}
use boost_asio_threadpool.Receive.{FileToReceve}
use boost_asio_threadpool.Session.FileIds.{max_upload_num, release_file_id}
use boost_asio_threadpool.Server.{Message, ServerSession, put_file, send_message}

pub cleared : (ids : List Bool) (i : ℕ) → get_or (set ids i false) i false ≡ false
cleared [] i = refl
cleared (x ∷ ids) zero = refl
cleared (x ∷ ids) (suc i) = cleared ids i

module _ (uuid : String) where
  -- A number that is free has no file.
  pub record IsHeld (s : ServerSession) : Type 0 where
    pub sized : length s.file_ids ≡ max_upload_num
    pub free : (i : ℕ) → get_or s.file_ids i false ≡ true → find_file uuid i s.files ≡ none

  pub send_message-IsHeld :
      (message : Message) (s : ServerSession) → IsHeld s → IsHeld (send_message message s)
  unfolding send_message
  send_message-IsHeld message s h = record { sized = h.sized; free = h.free }

  pub find_file-put_file :
      (i j : ℕ) (file : FileToReceve) (s : ServerSession)
      → find_file uuid j (put_file uuid i file s).files
        ≡ (if i == j then some file else find_file uuid j s.files)
  unfolding put_file
  find_file-put_file i j file s = find_file-insert_file uuid i j file s.files

  -- A number with a file is in use.
  pub file-taken :
      (i : ℕ) (file : FileToReceve) (s : ServerSession)
      → IsHeld s
      → find_file uuid i s.files ≡ some file
      → get_or s.file_ids i false ≡ false
  file-taken i file s h e = elim (Bool-cases (get_or s.file_ids i false)) [
    | inl is_free ↦ let no_file = h.free i is_free in cc
    | inr taken ↦ taken
  ]

  pub put_file-IsHeld :
      (i : ℕ) (file : FileToReceve) (s : ServerSession)
      → get_or s.file_ids i false ≡ false
      → IsHeld s
      → IsHeld (put_file uuid i file s)
  unfolding put_file
  put_file-IsHeld i file s taken h = record {
    sized = h.sized;
    free = λ j f. find_file-put_file i j file s ∙ unset j f;
  }
    where
      unset :
          (j : ℕ)
          → get_or s.file_ids j false ≡ true
          → (if i == j then some file else find_file uuid j s.files) ≡ none
      unset j f = elim (Bool-cases (i == j)) [
        | inl same ↦ absurd (
            false≢true
              (sym taken ∙ (ap (λ k. get_or s.file_ids k false) ((==_iff i j).0 same) ∙ f)))
        | inr other ↦ rw other (h.free j f)
      ]

  -- A number is taken.
  pub take-IsHeld :
      (i : ℕ) (s : ServerSession)
      → IsHeld s
      → IsHeld (record s { file_ids = set s.file_ids i false })
  take-IsHeld i s h = record {
    sized = length-set s.file_ids i false ∙ h.sized;
    free = λ j f. h.free j (before j f);
  }
    where
      before :
          (j : ℕ)
          → get_or (set s.file_ids i false) j false ≡ true
          → get_or s.file_ids j false ≡ true
      before j f = elim (Bool-cases (i == j)) [
        | inl same ↦ absurd (
            false≢true (
              sym (cleared s.file_ids i)
              ∙ (ap (λ k. get_or (set s.file_ids i false) k false) ((==_iff i j).0 same) ∙ f)))
        | inr other ↦
            sym (
              get_or-set_ne s.file_ids i j false false
                (λ e. false≢true (sym other ∙ (==_iff i j).1 e)))
            ∙ f
      ]

  -- A file that is complete gives its number back.
  pub complete-IsHeld :
      (i : ℕ) (s : ServerSession) (sent : List Message)
      → IsHeld s
      → IsHeld (record {
        files = (remove_file uuid i s.files).1;
        file_ids = release_file_id s.file_ids i;
        sent = sent;
      })
  unfolding release_file_id
  complete-IsHeld i s sent h = record {
    sized = length-set s.file_ids i true ∙ h.sized;
    free = λ j f. find_file-remove_file_own uuid i j s.files ∙ unset j f;
  }
    where
      unset :
          (j : ℕ)
          → get_or (set s.file_ids i true) j false ≡ true
          → (if i == j then none else find_file uuid j s.files) ≡ none
      unset j f = elim (Bool-cases (i == j)) [
        | inl same ↦ rw same refl
        | inr other ↦ rw other (
            h.free j (
              sym (
                get_or-set_ne s.file_ids i j true false
                  (λ e. false≢true (sym other ∙ (==_iff i j).1 e)))
              ∙ f))
      ]
