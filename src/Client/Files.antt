-- ===== src/Client/Files.antt =====
-- The client's table of files, client.cpp.
use boost_asio_threadpool.Base.{
  List, Option, [], arith, drop, get_elem?, if◌then◌else◌, length, ltb, le→ltb, lt→ltb, refl, some,
  suc, take, zero, ℕ, ◌++◌, ◌+◌, ◌<◌, ◌==◌, ◌∙◌, ◌∷◌, ◌≡◌,
}
use native.Mathlib.Numerals.{add-one}
use boost_asio_threadpool.Client.{find_file_to_send, remove_file}

pub get_elem?-append_last {ℓ} :
    {A : Type ℓ} (files : List A) (file : A) (j : ℕ)
    → get_elem? (files ++ (file ∷ [])) j
      ≡ (if j == length files then some file else get_elem? files j)
get_elem?-append_last [] file zero = refl
get_elem?-append_last [] file (suc j) = ground arith
get_elem?-append_last (x ∷ files) file zero = ground arith
get_elem?-append_last (x ∷ files) file (suc j) = ground (arith, get_elem?-append_last files file j)

module _ {F : Type 0} where
  get_elem?-erase :
      (files : List (Option F)) (i j : ℕ)
      → i < length files
      → get_elem? (take i files ++ drop (suc i) files) j
        ≡ (if ltb j i then get_elem? files j else get_elem? files (suc j))
  get_elem?-erase [] i j h = absurd (omega arith)
  get_elem?-erase (x ∷ files) zero j h = rw (le→ltb j 0 (omega arith)) refl
  get_elem?-erase (x ∷ files) (suc i) zero h = rw (lt→ltb 0 (suc i) (omega arith)) refl
  get_elem?-erase (x ∷ files) (suc i) (suc j) h =
      get_elem?-erase files i j (omega arith) ∙ ground arith

  -- RemoveFile renumbers: a number below the removed one finds its own file, and one from it on finds
  -- the file that had the next number, or reads past the end of the table.
  pub find_file_to_send-remove_file :
      (files : List (Option F)) (i j : ℕ)
      → i < length files
      → find_file_to_send j (remove_file i files)
        ≡ (if ltb j i then find_file_to_send j files else find_file_to_send (j + 1) files)
  unfolding find_file_to_send remove_file
  find_file_to_send-remove_file files i j h =
      rw (lt→ltb i (length files) h, add-one, add-one, get_elem?-erase files i j h) (ground arith)
