-- ===== src/Client/Uploads.antt =====
-- Every history of the client's upload queue, client.cpp: requests, turns of the thread, and what the
-- logic system does for a finished or a rejected upload.
use boost_asio_threadpool.Base.{
  List, [], length, length-append, ◌+◌, append_assoc, arith, false, if◌then◌else◌, refl, sym, ap, ℕ,
  ◌++◌, ◌<◌, ◌≤◌, ◌∙◌, ◌∷◌, ◌≡◌,
}
use boost_asio_threadpool.Receive.{is_nil}
use boost_asio_threadpool.Session.FileIds.{max_upload_num}
use boost_asio_threadpool.Client.{
  Sender, deal_queue, deal_send_queue, finish_upload, handle_reject_upload, request_upload,
  take_front,
}

-- A client that has started, before its thread first runs.
abbrev pub idle : Sender
idle = record { send_queue = []; now_send = 0; waiting = false; posted = [] }

-- The paths asked for, how many uploads have finished, and where the client then is. An upload finishes
-- only while one is counted.
pub data Reach : List (List ℕ) → ℕ → Sender → Type 0 where
  begin : Reach [] 0 idle
  requested :
      {paths : List (List ℕ)} {done : ℕ} {w : Sender} (filepath : List ℕ)
      → Reach paths done w
      → Reach (paths ++ (filepath ∷ [])) done (request_upload filepath w)
  turned :
      {paths : List (List ℕ)} {done : ℕ} {w : Sender}
      → Reach paths done w
      → Reach paths done (deal_send_queue w)
  finished :
      {paths : List (List ℕ)} {done : ℕ} {w : Sender}
      → Reach paths done w
      → 0 < w.now_send
      → Reach paths (done + 1) (finish_upload w)
  rejected :
      {paths : List (List ℕ)} {done : ℕ} {w : Sender}
      → Reach paths done w
      → Reach paths done (handle_reject_upload w)

-- The paths that are not empty.
abbrev pub kept : List (List ℕ) → List (List ℕ)
kept [] = []
kept (p ∷ ps) = if is_nil p then kept ps else p ∷ kept ps

kept-append : (ps qs : List (List ℕ)) → kept (ps ++ qs) ≡ kept ps ++ kept qs
kept-append [] qs = refl
kept-append (p ∷ ps) qs = ground (arith, kept-append ps qs)

deal_queue-le :
    (queue : List (List ℕ)) (w : Sender)
    → w.now_send ≤ max_upload_num
    → (deal_queue queue w).now_send ≤ max_upload_num
unfolding deal_queue take_front
deal_queue-le [] w h = h
deal_queue-le (p ∷ queue) w h = ground arith

deal_queue-kept :
    (queue : List (List ℕ)) (w : Sender)
    → w.send_queue ≡ queue
    → (deal_queue queue w).posted ++ kept (deal_queue queue w).send_queue ≡ w.posted ++ kept queue
unfolding deal_queue take_front
deal_queue-kept [] w e = ground arith
deal_queue-kept (p ∷ queue) w e = ground (arith, append_assoc w.posted (p ∷ []) (kept queue))

deal_queue-count :
    (queue : List (List ℕ)) (w : Sender) (done : ℕ)
    → w.now_send ≤ max_upload_num
    → length w.posted ≡ w.now_send + done
    → length (deal_queue queue w).posted ≡ (deal_queue queue w).now_send + done
unfolding deal_queue take_front
deal_queue-count [] w done h e = e
deal_queue-count (p ∷ queue) w done h e =
    let total = length-append w.posted (p ∷ []) in ground (arith, total)

-- In every history in which uploads finish only while one is counted and each change of the count is
-- one step, the uploads that were posted and have not finished are at most five, and are as many as the
-- count says; and the paths that were asked for, the empty ones aside, are in their order those that
-- were posted and then those still in the queue.
pub Reach-uploads :
    {paths : List (List ℕ)} {done : ℕ} {w : Sender}
    → Reach paths done w
    → (length w.posted ≡ w.now_send + done)
      × (length w.posted ≤ max_upload_num + done)
      × (kept paths ≡ w.posted ++ kept w.send_queue)
unfolding request_upload deal_send_queue finish_upload handle_reject_upload
Reach-uploads begin = (refl, omega arith, refl)
Reach-uploads (requested {paths} {done} {w} filepath r) =
    let (count, bound, same) = Reach-uploads r in
    (
      count,
      bound,
      kept-append paths (filepath ∷ [])
          ∙ ap (λ l. l ++ kept (filepath ∷ [])) same
          ∙ append_assoc w.posted (kept w.send_queue) (kept (filepath ∷ []))
          ∙ ap (◌++◌ w.posted) (sym (kept-append w.send_queue (filepath ∷ []))),
    )
Reach-uploads (turned {paths} {done} {w} r) =
    let (count, bound, same) = Reach-uploads r in
    let kept_on = deal_queue-kept w.send_queue w refl in
    let few : w.now_send ≤ max_upload_num = omega (arith, count) in
    let counted = deal_queue-count w.send_queue w done few count in
    let below = deal_queue-le w.send_queue w few in ground (arith, counted, below, kept_on)
Reach-uploads (finished {paths} {done} {w} r some_now) =
    let (count, bound, same) = Reach-uploads r in
    let few : w.now_send ≤ max_upload_num = omega (arith, count) in
    (omega (arith, count), omega (arith, bound), same)
Reach-uploads (rejected r) = Reach-uploads r
