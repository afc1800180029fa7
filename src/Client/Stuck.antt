-- ===== src/Client/Stuck.antt =====
-- The upload that no one wakes the thread for, client.cpp and FinishUpload of logicsystem.cpp.
use boost_asio_threadpool.Base.{
  List, [], append_assoc, subst, append-nil, arith, false, if◌then◌else◌, length, length-append,
  map, refl, replicate, sym, ap, true, ℕ, ◌++◌, ◌+◌, ◌<◌, ◌∙◌, ◌∷◌, ◌≡◌,
}
use boost_asio_threadpool.Receive.{is_nil}
use boost_asio_threadpool.Client.{
  Sender, deal_queue, deal_send_queue, finish_upload, handle_reject_upload, request_upload,
}
use boost_asio_threadpool.Client.Uploads.{idle}

pub data Event : Type 0 where
  requests : List ℕ → Event
  turns finishes rejects : Event

unfoldable pub step : Sender → Event → Sender
step w (requests filepath) = request_upload filepath w
step w turns = deal_send_queue w
step w finishes = finish_upload w
step w rejects = handle_reject_upload w

unfoldable pub run : Sender → List Event → Sender
unfolding step
run w [] = w
run w (e ∷ es) = run (step w e) es

run-append : (w : Sender) (es fs : List Event) → run w (es ++ fs) ≡ run (run w es) fs
unfolding run
run-append w [] fs = refl
run-append w (e ∷ es) fs = run-append (step w e) es fs

-- A thread that waits while the queue is not empty.
pub record IsStuck (w : Sender) : Type 0 where
  pub asleep : w.waiting ≡ true
  pub left : 0 < length w.send_queue

step-IsStuck :
    (w : Sender) (e : Event) → IsStuck w → IsStuck (step w e) × ((step w e).posted ≡ w.posted)
unfolding step request_upload deal_send_queue finish_upload handle_reject_upload
step-IsStuck w (requests filepath) s =
    let grown = length-append w.send_queue (filepath ∷ []) in
    (record { asleep = ground arith; left = omega arith }, refl)
step-IsStuck w turns s =
    let same : deal_send_queue w ≡ (if true then w else deal_queue w.send_queue w) =
      ap (λ b. if b then w else deal_queue w.send_queue w) s.asleep in
    (subst IsStuck (sym same) s, ap (λ x. x.posted) same)
step-IsStuck w finishes s = (record { asleep = s.asleep; left = s.left }, refl)
step-IsStuck w rejects s = (s, refl)

run-IsStuck : (w : Sender) (es : List Event) → IsStuck w → (run w es).posted ≡ w.posted
unfolding run
run-IsStuck w [] s = refl
run-IsStuck w (e ∷ es) s =
    let (s', same) = step-IsStuck w e s in run-IsStuck (step w e) es s' ∙ same

abbrev AreSome : List (List ℕ) → Type 0
AreSome [] = Unit {0}
AreSome (p ∷ ps) = (is_nil p ≡ false) × AreSome ps

abbrev sender : List (List ℕ) → ℕ → List (List ℕ) → Sender
sender queue n posted = record {
  send_queue = queue;
  now_send = n;
  waiting = false;
  posted = posted;
}

-- Requests to a thread that does not wait.
request_awake :
    (p : List ℕ) (queue posted : List (List ℕ)) (n : ℕ)
    → request_upload p (sender queue n posted) ≡ sender (queue ++ (p ∷ [])) n posted
unfolding request_upload
request_awake p queue posted n = ground arith

run-requests :
    (ps queue posted : List (List ℕ)) (n : ℕ)
    → run (sender queue n posted) (map requests ps) ≡ sender (queue ++ ps) n posted
unfolding run step
run-requests [] queue posted n = rw (append-nil queue) refl
run-requests (p ∷ ps) queue posted n =
    ap (λ w. run w (map requests ps)) (request_awake p queue posted n)
    ∙ (run-requests ps (queue ++ (p ∷ [])) posted n
        ∙ ap (λ q. sender q n posted) (append_assoc queue (p ∷ []) ps))

turn_some :
    (p : List ℕ) (rest posted : List (List ℕ)) (n : ℕ)
    → is_nil p ≡ false
    → n < 5
    → deal_send_queue (sender (p ∷ rest) n posted) ≡ sender rest (n + 1) (posted ++ (p ∷ []))
unfolding deal_send_queue
turn_some p rest posted n h small = ground arith

run-turns :
    (front rest posted : List (List ℕ)) (n : ℕ)
    → AreSome front
    → n + length front ≡ 5
    → run (sender (front ++ rest) n posted) (replicate (length front) turns)
      ≡ sender rest 5 (posted ++ front)
unfolding run step
run-turns [] rest posted n h e = let five : n ≡ 5 = omega arith in rw (five, append-nil posted) refl
run-turns (p ∷ front) rest posted n h e =
    ap (λ w. run w (replicate (length front) turns))
      (turn_some p (front ++ rest) posted n h.0 (omega arith))
    ∙ (run-turns front rest (posted ++ (p ∷ [])) (n + 1) h.1 (omega arith)
        ∙ ap (sender rest 5) (append_assoc posted (p ∷ []) front))

-- The turn after those, with five uploads under way.
turn_full :
    (path : List ℕ) (rest front : List (List ℕ))
    → run (sender (path ∷ rest) 5 front) (turns ∷ [])
      ≡ record (sender (path ∷ rest) 5 front) { waiting = true }
unfolding run deal_send_queue
turn_full path rest front = refl

-- A sixth upload that is asked for while five are under way is never started: the thread waits with
-- the path in the queue, and no number of finished uploads, rejections and further requests wakes it.
-- The five first paths are all that is ever posted. No path of the five is empty, and the thread is
-- never woken but by a notification.
pub run_sixth :
    (front rest : List (List ℕ)) (path : List ℕ) (es : List Event)
    → AreSome front
    → length front ≡ 5
    → (run idle (
        map requests (front ++ (path ∷ rest))
        ++ (replicate (length front) turns ++ ((turns ∷ []) ++ es)))).posted
      ≡ front
run_sixth front rest path es h e =
    rw
      (
        run-append idle (map requests (front ++ (path ∷ rest)))
            (replicate (length front) turns ++ ((turns ∷ []) ++ es)),
        run-requests (front ++ (path ∷ rest)) [] [] 0,
        run-append (sender (front ++ (path ∷ rest)) 0 []) (replicate (length front) turns)
            ((turns ∷ []) ++ es),
        run-turns front (path ∷ rest) [] 0 h (omega arith),
        run-append (sender (path ∷ rest) 5 front) (turns ∷ []) es,
        turn_full path rest front,
      )
      (run-IsStuck _ es (record { asleep = refl; left = omega arith }))
