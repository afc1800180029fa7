-- ===== src/Logic/Examples.antt =====
-- What the server sends for a file that has been sent, and the client's worker.
use boost_asio_threadpool.Base.{List, [], ℕ, ℕ_eq, ◌∷◌}

abbrev own_text : ℕ → List ℕ
own_text n = n ∷ []
