-- ===== src/FileManagement/Examples.antt =====
-- The table of files at two sessions.
use boost_asio_threadpool.Base.{List, [], ℕ, ◌∷◌, ◌≡◌}
use boost_asio_threadpool.FileManagement.{Files, find_file}
use boost_asio_threadpool.FileManagement.Refine.{Op, adds, finds, removes, replay, run, run-replay}

abbrev files : Files ℕ
files = ("a", (0, 10) ∷ []) ∷ []

abbrev calls : List (Op ℕ)
calls = adds "a" 0 11 ∷ adds "b" 0 12 ∷ removes "a" 0 ∷ finds "a" 0 ∷ adds "a" 0 13 ∷ []

run-replay_example : run calls files ≡ replay calls (λ u i. find_file u i files)
run-replay_example = run-replay calls files
