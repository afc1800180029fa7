-- ===== src/FileManagement/Refine.antt =====
-- AddFile, removeFile and findFile of filemanagement.cpp against a table that is a function of the
-- session and the number: the order of the maps' entries, and sessions without a file, are not seen.
use boost_asio_threadpool.Base.{
  Bool, Bytes_eq, List, Option, String, String_eq, [], false, if◌then◌else◌, inl, inr, insert,
  lookup, none, refl, some, sym, true, ap, ℕ, ℕ_eq, ◌==◌, ◌∙◌, ◌∷◌, ◌≡◌,
}
use boost_asio_threadpool.Base.Outcome.{Outcome, blocks, returns, throws, undefined}
use boost_asio_threadpool.FileManagement.{Files, add_file, files_of, find_file, remove_file}
use boost_asio_threadpool.FileManagement.Find.{
  add_file-cases, find_file-add_file, find_file-remove_file, found,
}
use text.Mathlib.Text.{◌==◌ as str_eq}

abbrev pub Table : Type 0 → Type 0
Table F = String → ℕ → Option F

-- The calls, and what their callers see of them; AddFile's callers catch its exception.
pub data Op (F : Type 0) : Type 0 where
  adds : String → ℕ → F → Op F
  removes finds : String → ℕ → Op F

pub data Seen (F : Type 0) : Type 0 where
  added removed : Bool → Seen F
  got : Option F → Seen F

module _ {F : Type 0} where
  answer_add : Outcome (Files F) → Files F → Seen F × Files F
  answer_add (returns files') files = (added true, files')
  answer_add throws files = (added false, files)
  answer_add blocks files = (added false, files)
  answer_add undefined files = (added false, files)

  pub step : Op F → Files F → Seen F × Files F
  step (adds u i file) files = answer_add (add_file u i file files) files
  step (removes u i) files = (removed (remove_file u i files).0, (remove_file u i files).1)
  step (finds u i) files = (got (find_file u i files), files)

  pub run : List (Op F) → Files F → List (Seen F)
  run [] files = []
  run (op ∷ ops) files = (step op files).0 ∷ run ops (step op files).1

  -- The same on a function.
  put : String → ℕ → Option F → Table F → Table F
  put u i o t v j = if str_eq u v then (if i == j then o else t v j) else t v j

  spec_add : Option F → String → ℕ → F → Table F → Seen F × Table F
  spec_add none u i file t = (added true, put u i (some file) t)
  spec_add (some old) u i file t = (added false, t)

  spec : Op F → Table F → Seen F × Table F
  spec (adds u i file) t = spec_add (t u i) u i file t
  spec (removes u i) t = (removed (found (t u i)), put u i none t)
  spec (finds u i) t = (got (t u i), t)

  pub replay : List (Op F) → Table F → List (Seen F)
  replay [] t = []
  replay (op ∷ ops) t = (spec op t).0 ∷ replay ops (spec op t).1

  -- The function gives what findFile finds.
  abbrev pub Sees : Files F → Table F → Type 0
  Sees files t = (v : String) (j : ℕ) → find_file v j files ≡ t v j

  none_ne_some : {a : F} → ◌≡◌ {A = Option F} none (some a) → ⊥
  none_ne_some e = cc

  added-Sees :
      (u : String) (i : ℕ) (file : F) (files : Files F) (t : Table F)
      → Sees files t
      → (o : Option F) → t u i ≡ o
      → ((answer_add (add_file u i file files) files).0 ≡ (spec_add o u i file t).0)
        × Sees (answer_add (add_file u i file files) files).1 (spec_add o u i file t).1
  unfolding answer_add spec_add put
  added-Sees u i file files t h (some old) e = elim (add_file-cases u i file files) [
    | inl (taken, thrown) ↦ rw thrown (refl, h)
    | inr (free, put_in) ↦ absurd (none_ne_some (sym free ∙ (h u i ∙ e)))
  ]
  added-Sees u i file files t h none e = elim (add_file-cases u i file files) [
    | inl (taken, thrown) ↦ absurd (taken (h u i ∙ e))
    | inr (free, put_in) ↦ rw put_in (
      refl,
      λ v j.
          find_file-add_file u v i j file files
            (insert u (insert i file (files_of (lookup u files))) files) put_in
          ∙ ap (λ x. if str_eq u v then (if i == j then some file else x) else x) (h v j),
    )
  ]

  step-Sees :
      (op : Op F) (files : Files F) (t : Table F)
      → Sees files t
      → ((step op files).0 ≡ (spec op t).0) × Sees (step op files).1 (spec op t).1
  unfolding step spec put
  step-Sees (adds u i file) files t h = added-Sees u i file files t h (t u i) refl
  step-Sees (removes u i) files t h = (
    ap removed ((find_file-remove_file u u i i files).1 ∙ ap found (h u i)),
    λ v j.
        (find_file-remove_file u v i j files).0
        ∙ ap (λ x. if str_eq u v then (if i == j then none else x) else x) (h v j),
  )
  step-Sees (finds u i) files t h = (ap got (h u i), h)

  -- In every sequence of AddFile, removeFile and findFile, on every table, the callers see what they
  -- would see of a function from sessions and numbers to files: AddFile succeeds where there is no
  -- file and puts it there, removeFile says whether there was one and takes it away, findFile gives it.
  pub run-replay :
      (ops : List (Op F)) (files : Files F)
      → run ops files ≡ replay ops (λ u i. find_file u i files)
  unfolding replay run
  run-replay ops files = from ops files (λ u i. find_file u i files) (λ u i. refl)
    where
      from :
          (ops : List (Op F)) (files : Files F) (t : Table F)
          → Sees files t
          → run ops files ≡ replay ops t
      from [] files t h = refl
      from (op ∷ ops) files t h =
          let (same, after) = step-Sees op files t h in
          ap (λ seen. seen ∷ run ops (step op files).1) same
          ∙ ap (◌∷◌ (spec op t).0) (from ops (step op files).1 (spec op t).1 after)
