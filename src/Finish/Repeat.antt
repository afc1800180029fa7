-- ===== src/Finish/Repeat.antt =====
-- StartFinishTimer and StopFinishTimer of file.cpp: how often FileFinish is sent.
use boost_asio_threadpool.Base.{
  Bool, List, Option, [], ap, arith, false, none, refl, replicate, some, suc, true, zero, ℕ, ◌++◌,
  ◌+◌, ◌∙◌, ◌∷◌, ◌≡◌,
}
use boost_asio_threadpool.Base.Outcome.{>>=_returns, returns}
use boost_asio_threadpool.Finish.{
  Event, FileToSend, answered, client_handle_final_bag, happens, new_file_to_send, pass_time, run,
  send_finish, sends_last, start_finish_timer, stop_finish_timer, time_passes, timer_expires,
}

-- How often SendFile ends.
abbrev pub endings : List Event → ℕ
endings [] = 0
endings (sends_last ∷ es) = suc (endings es)
endings (time_passes ∷ es) = endings es
endings (answered ∷ es) = endings es

endings-cons : (e : Event) (es : List Event) → endings (e ∷ es) ≡ endings (e ∷ []) + endings es
endings-cons sends_last es = omega arith
endings-cons time_passes es = omega arith
endings-cons answered es = omega arith

-- A file that is not asked after any more, with a number of messages sent.
record IsDone (n : ℕ) (file : FileToSend) : Type 0 where
  pub checked : file.finish_check ≡ true
  pub count : file.finishes ≡ n

pass_time-IsDone :
    (timer : Option Bool) (n : ℕ) (file : FileToSend)
    → IsDone n file
    → (after : FileToSend) × (pass_time timer file ≡ returns after) × IsDone n after
unfolding pass_time timer_expires
pass_time-IsDone none n file d = (file, refl, d)
pass_time-IsDone (some false) n file d = (file, refl, d)
pass_time-IsDone (some true) n file d = (
  record file { finish_timer = some false },
  rw (d.checked) refl,
  record { checked = d.checked; count = d.count },
)

-- After the answer only the end of SendFile itself sends FileFinish.
happens-IsDone :
    (e : Event) (n : ℕ) (file : FileToSend)
    → IsDone n file
    → (after : FileToSend) × (happens e file ≡ returns after) × IsDone (endings (e ∷ []) + n) after
unfolding happens send_finish start_finish_timer client_handle_final_bag stop_finish_timer
happens-IsDone sends_last n file d =
    (_, refl, record { checked = d.checked; count = omega (arith, d.count) })
happens-IsDone answered n file d =
    (_, refl, record { checked = refl; count = omega (arith, d.count) })
happens-IsDone time_passes n file d =
    let (after, e, d') = pass_time-IsDone file.finish_timer n file d in
    (after, e, record { checked = d'.checked; count = omega (arith, d'.count) })

run-IsDone :
    (es : List Event) (n : ℕ) (file : FileToSend)
    → IsDone n file
    → (after : FileToSend) × (run es file ≡ returns after) × IsDone (endings es + n) after
unfolding run
run-IsDone [] n file d =
    (file, refl, record { checked = d.checked; count = omega (arith, d.count) })
run-IsDone (e ∷ es) n file d =
    let (f1, e1, d1) = happens-IsDone e n file d in
    let (f2, e2, d2) = run-IsDone es (endings (e ∷ []) + n) f1 d1 in
    (
      f2,
      >>=_returns _ e1 e2,
      record { checked = d2.checked; count = omega (arith, d2.count, endings-cons e es) },
    )

-- A file whose wait is pending, and which has not been answered.
abbrev waiting : ℕ → FileToSend
waiting n = record { file_id = none; finish_timer = some true; finish_check = false; finishes = n }

run-waiting :
    (k n : ℕ) (es : List Event)
    → run (replicate k time_passes ++ es) (waiting n) ≡ run es (waiting (k + n))
unfolding run happens pass_time timer_expires start_finish_timer
run-waiting zero n es = ap (λ m. run es (waiting m)) (omega arith)
run-waiting (suc k) n es = run-waiting k (n + 1) es ∙ ap (λ m. run es (waiting m)) (omega arith)

-- FileFinish is sent at the end of SendFile and again each time that the wait runs out, as long as the
-- server has not answered. After the answer it is sent only where SendFile itself ends again, whatever
-- waits run out and whatever answers come. None of this is undefined.
pub run_finishes :
    (k : ℕ) (es : List Event)
    → (after : FileToSend) × (run
          (sends_last ∷ (replicate k time_passes ++ (answered ∷ es)))
          new_file_to_send
        ≡ returns after)
      × (after.finishes ≡ 1 + k + endings es)
unfolding run happens send_finish start_finish_timer client_handle_final_bag stop_finish_timer
    new_file_to_send
run_finishes k es =
    let stopped = stop_finish_timer (waiting (k + 1)) in
    let (after, e, d) = run-IsDone es (k + 1) stopped (record { checked = refl; count = refl }) in
    (after, run-waiting k 1 (answered ∷ es) ∙ e, omega (arith, d.count))
