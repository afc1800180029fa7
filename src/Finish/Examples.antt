-- ===== src/Finish/Examples.antt =====
-- A file that is answered after a minute.
use boost_asio_threadpool.Base.{[], replicate, ◌++◌, ◌+◌, ◌∷◌, ◌≡◌}
use boost_asio_threadpool.Base.Outcome.{returns}
use boost_asio_threadpool.Finish.{
  FileToSend, answered, new_file_to_send, run, sends_last, time_passes,
}
use boost_asio_threadpool.Finish.Repeat.{endings, run_finishes}

run_finishes_example :
    (after : FileToSend) × (run
        (sends_last ∷ (replicate 3 time_passes ++ (answered ∷ (time_passes ∷ []))))
        new_file_to_send
      ≡ returns after)
    × (after.finishes ≡ 1 + 3 + endings (time_passes ∷ []))
run_finishes_example = run_finishes 3 (time_passes ∷ [])
