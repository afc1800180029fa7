-- ===== src/Accept/Examples.antt =====
-- Two services and three connections.
use boost_asio_threadpool.Base.{String, [], arith, false, refl, some, true, ℕ, ◌∷◌, ◌≡◌}
use boost_asio_threadpool.Base.Outcome.{returns}
use boost_asio_threadpool.Accept.{CServer, ServicePool}
use boost_asio_threadpool.Accept.Loop.{run_start, run_start-alive}

abbrev two : ServicePool
two = record { size = 2; next_service_index = 1 }

abbrev accepting : CServer
accepting = record { pool = two; sessions = []; accepting = some ("a", 0) }

run_start-alive_example :
    (c' : CServer) × (s : String × ℕ) × (run_start
        ((true, false, "b") ∷ (false, false, "c") ∷ [])
        accepting
      ≡ returns c')
    × (c'.accepting ≡ some s)
run_start-alive_example =
    run_start-alive ((true, false, "b") ∷ (false, false, "c") ∷ []) ("a", 0) accepting refl
      (omega arith)
