-- ===== src/FileManagement/Find.antt =====
-- What findFile of filemanagement.cpp finds after AddFile and removeFile.
use boost_asio_threadpool.Base.{
  Bool, Bytes_eq, List, Option, String, String_eq, [], ap, arith, erase, false, if◌then◌else◌, inl,
  inr, insert, lookup, lookup-erase, lookup-insert, none, refl, some, subst, sym, true, ℕ, ℕ_eq,
  ◌==◌, ◌∙◌, ◌∷◌, ◌≡◌, ◌≢◌, ◌⊎◌,
}
use boost_asio_threadpool.Base.Outcome.{returns, returns-injective, throws}
use boost_asio_threadpool.FileManagement.{
  Files, add_file, emplace, files_of, find_file, remove_file, remove_from,
}
use boost_asio_threadpool.Receive.{is_nil}
use text.Mathlib.Text.{◌==◌ as str_eq}
use text.Mathlib.TextEquality.{eq_iff}

module _ {F : Type 0} where
  -- A session's map is replaced as a whole.
  find_file-insert :
      (u v : String) (j : ℕ) (inner : List (ℕ × F)) (files : Files F)
      → find_file v j (insert u inner files)
        ≡ (if str_eq u v then lookup j inner else find_file v j files)
  unfolding find_file files_of
  find_file-insert u v j inner files =
      ap (λ o. lookup j (files_of o)) (lookup-insert u v inner files) ∙ pushed (str_eq u v)
    where
      pushed :
          (b : Bool)
          → lookup j (files_of (if b then some inner else lookup v files))
            ≡ (if b then lookup j inner else lookup j (files_of (lookup v files)))
      pushed true = refl
      pushed false = refl

  find_file-erase :
      (u v : String) (j : ℕ) (files : Files F)
      → find_file v j (erase u files) ≡ (if str_eq u v then none else find_file v j files)
  unfolding find_file files_of lookup
  find_file-erase u v j files =
      ap (λ o. lookup j (files_of o)) (lookup-erase u v files) ∙ pushed (str_eq u v)
    where
      pushed :
          (b : Bool)
          → lookup j (files_of (if b then none else lookup v files))
            ≡ (if b then none else lookup j (files_of (lookup v files)))
      pushed true = refl
      pushed false = refl

  emplace_lem :
      (o : Option F) (u : String) (i : ℕ) (file : F) (files : Files F)
      → find_file u i files ≡ o
      → ((find_file u i files ≢ none)
          × (emplace o u i file (files_of (lookup u files)) files ≡ throws))
        ⊎ ((find_file u i files ≡ none)
            × (emplace o u i file (files_of (lookup u files)) files
                ≡ returns (insert u (insert i file (files_of (lookup u files))) files)))
  unfolding emplace
  emplace_lem none u i file files e = inr (e, refl)
  emplace_lem (some old) u i file files e = inl ((λ n. cc), refl)

  -- AddFile throws exactly on a number that the session already has, and otherwise gives the table with
  -- the new file in it.
  pub add_file-cases :
      (u : String) (i : ℕ) (file : F) (files : Files F)
      → ((find_file u i files ≢ none) × (add_file u i file files ≡ throws))
        ⊎ ((find_file u i files ≡ none)
            × (add_file u i file files
                ≡ returns (insert u (insert i file (files_of (lookup u files))) files)))
  unfolding add_file find_file
  add_file-cases u i file files =
      emplace_lem (lookup i (files_of (lookup u files))) u i file files refl

  -- A new file of a session's map.
  inserted :
      (u v : String) (i j : ℕ) (file : F) (files : Files F)
      → (if str_eq u v
          then lookup j (insert i file (files_of (lookup u files)))
          else find_file v j files)
        ≡ (if str_eq u v
            then (if i == j then some file else find_file v j files)
            else find_file v j files)
  unfolding find_file
  inserted u v i j file files =
      ground (arith, eq_iff u v, lookup-insert i j file (files_of (lookup u files)))

  own :
      (u : String) (i j : ℕ) (o : Option F) (files : Files F)
      → (if str_eq u u then (if i == j then o else find_file u j files) else find_file u j files)
        ≡ (if i == j then o else find_file u j files)
  own u i j o files = rw ((eq_iff u u).1 refl) refl

  -- The file that a session has under a number, replaced or new.
  pub find_file-insert_file :
      (u : String) (i j : ℕ) (file : F) (files : Files F)
      → find_file u j (insert u (insert i file (files_of (lookup u files))) files)
        ≡ (if i == j then some file else find_file u j files)
  find_file-insert_file u i j file files =
      find_file-insert u u j (insert i file (files_of (lookup u files))) files
      ∙ (inserted u u i j file files ∙ own u i j (some file) files)

  -- After AddFile has returned, findFile finds the new file under its session and number, and under
  -- every other session or number what it found before.
  pub find_file-add_file :
      (u v : String) (i j : ℕ) (file : F) (files files' : Files F)
      → add_file u i file files ≡ returns files'
      → find_file v j files' ≡ (
          if str_eq u v
          then (if i == j then some file else find_file v j files)
          else find_file v j files)
  find_file-add_file u v i j file files files' e = elim (add_file-cases u i file files) [
    | inl (taken, t) ↦ cc
    | inr (free, t) ↦
        subst
          (λ g. find_file v j g ≡ (
            if str_eq u v
            then (if i == j then some file else find_file v j files)
            else find_file v j files))
          (returns-injective (sym t ∙ e))
          (find_file-insert u v j (insert i file (files_of (lookup u files))) files
            ∙ inserted u v i j file files)
  ]

  -- Whether there is a file.
  abbrev pub found : Option F → Bool
  found none = false
  found (some file) = true

  -- The session's map without the file is empty, or it is stored.
  lookup-erase_nil :
      (i j : ℕ) (inner : List (ℕ × F))
      → is_nil (erase i inner) ≡ true
      → (if i == j then none else lookup j inner) ≡ none
  unfolding lookup
  lookup-erase_nil i j inner e = sym (lookup-erase i j inner) ∙ empty (erase i inner) e
    where
      empty : (l : List (ℕ × F)) → is_nil l ≡ true → lookup j l ≡ none
      empty [] h = refl
      empty (x ∷ l) h = cc

  removed :
      (u v : String) (i j : ℕ) (files : Files F) (last : Bool)
      → is_nil (erase i (files_of (lookup u files))) ≡ last
      → find_file v j
          (if last then erase u files else insert u (erase i (files_of (lookup u files))) files)
        ≡ (if str_eq u v
            then (if i == j then none else find_file v j files)
            else find_file v j files)
  removed u v i j files true e =
      find_file-erase u v j files
      ∙ unfold find_file in
        ground (arith, eq_iff u v, lookup-erase_nil i j (files_of (lookup u files)) e)
  removed u v i j files false e =
      find_file-insert u v j (erase i (files_of (lookup u files))) files
      ∙ unfold find_file in ground (arith, eq_iff u v, lookup-erase i j (files_of (lookup u files)))

  remove_from_lem :
      (o : Option F) (u v : String) (i j : ℕ) (files : Files F)
      → find_file u i files ≡ o
      → (find_file v j (remove_from o u i (files_of (lookup u files)) files).1 ≡ (
          if str_eq u v
          then (if i == j then none else find_file v j files)
          else find_file v j files))
        × ((remove_from o u i (files_of (lookup u files)) files).0 ≡ found o)
  unfolding remove_from
  remove_from_lem none u v i j files e = (ground (arith, eq_iff u v), refl)
  remove_from_lem (some old) u v i j files e = (removed u v i j files _ refl, refl)

  -- removeFile says whether there was such a file; after it that file is not found, and every other is
  -- found as before.
  pub find_file-remove_file :
      (u v : String) (i j : ℕ) (files : Files F)
      → (find_file v j (remove_file u i files).1 ≡ (
          if str_eq u v
          then (if i == j then none else find_file v j files)
          else find_file v j files))
        × ((remove_file u i files).0 ≡ found (find_file u i files))
  unfolding remove_file find_file
  find_file-remove_file u v i j files =
      remove_from_lem (lookup i (files_of (lookup u files))) u v i j files refl

  -- The session's own files after removeFile.
  pub find_file-remove_file_own :
      (u : String) (i j : ℕ) (files : Files F)
      → find_file u j (remove_file u i files).1 ≡ (if i == j then none else find_file u j files)
  find_file-remove_file_own u i j files =
      (find_file-remove_file u u i j files).0 ∙ own u i j none files
