-- ===== src/Session/Queued.antt =====
-- The queue of csession.cpp over a whole run: calls of Send and completed writes, in any order.
use boost_asio_threadpool.Base.{
  ◌<◌, Bool-cases, List, [], ap, append-nil, append_assoc, arith, drop, drop-append_left, drop_all,
  false, if◌then◌else◌, inl, inr, length, length-append, le→ltb, ltb, lt→ltb, refl, subst, sym,
  take, ℕ, ◌++◌, ◌+◌, ◌∙◌, ◌∷◌, ◌≡◌, ◌⊎◌,
}
use boost_asio_threadpool.Base.Outcome.{>>=-eq-returns, Outcome, returns, returns-injective, ◌>>=◌}
use boost_asio_threadpool.MsgNode.{Asio, MsgNode, send_node}
use boost_asio_threadpool.MsgNode.Layout.{send_node_lem}
use boost_asio_threadpool.Receive.{is_nil}
use boost_asio_threadpool.Session.{Effect, Role, write_node}
use boost_asio_threadpool.Session.SendQueue.{handle_write, max_sendque, send, write_front}

-- The queue, what `Send` has accepted, what has been handed to `async_write`, and what that has
-- finished, each in order.
pub record World : Type 0 where
  pub queue : List MsgNode
  pub accepted : List MsgNode
  pub issued : List MsgNode
  pub finished : List MsgNode

pub data Call : Type 0 where
  sends : List ℕ → ℕ → ℕ → Call
  finishes : Call

-- The packets among the effects.
abbrev pub written : List Effect → List MsgNode
written [] = []
written (write_node n ∷ effects) = n ∷ written effects
written (other ∷ effects) = written effects

abbrev pub empty_world : World
empty_world = record { queue = []; accepted = []; issued = []; finished = [] }

module _ (asio : Asio) (role : Role) where
  -- A write finishes only while one is under way.
  unfoldable pub step : World → Call → Outcome World
  step w (sends msg len id) = do
    (queue', effects) ← send asio role w.queue msg len id
    returns (record w {
      queue = queue';
      accepted = w.accepted ++ drop (length w.queue) queue';
      issued = w.issued ++ written effects;
    })
  step w finishes =
      if ltb (length w.finished) (length w.issued)
      then (do
        (queue', effects) ← handle_write role false w.queue
        returns (record w {
          queue = queue';
          issued = w.issued ++ written effects;
          finished = w.finished ++ take 1 w.queue;
        }))
      else returns w

  unfoldable pub run : World → List Call → Outcome World
  run w [] = returns w
  run w (c ∷ cs) = do w' ← step w c; run w' cs

  pub record IsOrdered (w : World) : Type 0 where
    pub kept : w.accepted ≡ w.finished ++ w.queue
    pub one_write : w.issued ≡ w.finished ++ take 1 w.queue

  written_front : (queue : List MsgNode) → written (write_front queue) ≡ take 1 queue
  written_front [] = refl
  written_front (n ∷ rest) = refl

  -- What a call of `Send` that returns has done to the queue.
  send_cases :
      (queue queue' : List MsgNode) (effects : List Effect) (msg : List ℕ) (len id : ℕ)
      → send asio role queue msg len id ≡ returns (queue', effects)
      → ((queue' ≡ queue) × (effects ≡ []))
        ⊎ ((n : MsgNode) × (queue' ≡ queue ++ (n ∷ []))
            × (effects ≡ (if is_nil queue then write_node n ∷ [] else [])))
  unfolding send
  send_cases queue queue' effects msg len id e =
      elim (Bool-cases (ltb max_sendque (length queue))) [
        | inl full ↦ inl (ground arith)
        | inr room ↦
            let (n, _, f) =
              >>=-eq-returns {B = List MsgNode × List Effect} (send_node asio msg len id)
                (λ n. returns (queue ++ (n ∷ []), if is_nil queue then write_node n ∷ [] else []))
                {b = (queue', effects)} (ground arith) in
            inr (n, ground arith, ground arith)
      ]

  issue_after :
      (queue : List MsgNode) (n : MsgNode)
      → take 1 queue ++ written (if is_nil queue then write_node n ∷ [] else [])
        ≡ take 1 (queue ++ (n ∷ []))
  issue_after [] n = refl
  issue_after (x ∷ queue) n = refl

  abbrev world : List MsgNode → List MsgNode → List MsgNode → List MsgNode → World
  world queue accepted issued finished = record {
    queue = queue;
    accepted = accepted;
    issued = issued;
    finished = finished;
  }

  sends_after-IsOrdered :
      (w : World) (queue' : List MsgNode) (effects : List Effect)
      → IsOrdered w
      → ((queue' ≡ w.queue) × (effects ≡ []))
        ⊎ ((n : MsgNode) × (queue' ≡ w.queue ++ (n ∷ []))
            × (effects ≡ (if is_nil w.queue then write_node n ∷ [] else [])))
      → IsOrdered (
          world queue'
            (w.accepted ++ drop (length w.queue) queue')
            (w.issued ++ written effects)
            w.finished)
  sends_after-IsOrdered w queue' effects o (inl (q, f)) = record {
    kept = rw (q, drop_all (length w.queue) w.queue (omega arith), append-nil w.accepted) o.kept;
    one_write = rw (f, q) (append-nil w.issued ∙ o.one_write);
  }
  sends_after-IsOrdered w queue' effects o (inr (n, q, f)) = record {
    kept =
        rw (q, drop-append_left (length w.queue) w.queue (n ∷ []) refl, o.kept)
          (append_assoc w.finished w.queue (n ∷ []));
    one_write =
        rw (f, q, o.one_write)
          (append_assoc w.finished (take 1 w.queue) _
            ∙ ap (◌++◌ w.finished) (issue_after w.queue n));
  }

  step_sends-IsOrdered :
      (w w' : World) (msg : List ℕ) (len id : ℕ)
      → IsOrdered w
      → step w (sends msg len id) ≡ returns w'
      → IsOrdered w'
  unfolding step
  step_sends-IsOrdered w w' msg len id o e =
      let ((queue', effects), s, f) = >>=-eq-returns (send asio role w.queue msg len id) _ e in
      subst IsOrdered (returns-injective f)
        (sends_after-IsOrdered w queue' effects o (send_cases w.queue queue' effects msg len id s))

  -- A write finishes only with a packet at the front of the queue, so its handler always returns.
  finish-IsOrdered :
      (queue accepted issued finished : List MsgNode)
      → IsOrdered (world queue accepted issued finished)
      → (w' : World) × (step (world queue accepted issued finished) finishes ≡ returns w')
        × IsOrdered w'
  unfolding step handle_write
  finish-IsOrdered [] accepted issued finished o =
      let same : length issued ≡ length finished = ap length (o.one_write ∙ append-nil finished) in
      (
        world [] accepted issued finished,
        rw (le→ltb (length finished) (length issued) (omega arith)) refl,
        o,
      )
  finish-IsOrdered (n ∷ rest) accepted issued finished o =
      let more : length issued ≡ length finished + 1 =
        ap length o.one_write ∙ length-append finished (n ∷ []) in
      (
        world rest accepted (issued ++ take 1 rest) (finished ++ (n ∷ [])),
        rw (lt→ltb (length finished) (length issued) (omega arith), written_front rest) refl,
        record {
          kept = o.kept ∙ sym (append_assoc finished (n ∷ []) rest);
          one_write = ap (λ l. l ++ take 1 rest) o.one_write;
        },
      )

  step-IsOrdered : (w w' : World) (c : Call) → IsOrdered w → step w c ≡ returns w' → IsOrdered w'
  step-IsOrdered w w' (sends msg len id) o e = step_sends-IsOrdered w w' msg len id o e
  step-IsOrdered w w' finishes o e =
      let (v, s, o') = finish-IsOrdered w.queue w.accepted w.issued w.finished o in
      subst IsOrdered (returns-injective (sym s ∙ e)) o'

  -- Messages that fit a packet.
  abbrev pub IsSendable : Call → Type 0
  IsSendable (sends msg len id) = (len ≡ length msg) × (len < 32764) × (id < 65536)
  IsSendable finishes = Unit {0}

  abbrev pub AreSendable : List Call → Type 0
  AreSendable [] = Unit {0}
  AreSendable (c ∷ cs) = IsSendable c × AreSendable cs

  send_returns :
      (queue : List MsgNode) (msg : List ℕ) (id : ℕ)
      → id < 65536
      → length msg < 32764
      → (r : List MsgNode × List Effect) × (send asio role queue msg (length msg) id ≡ returns r)
  unfolding send
  send_returns queue msg id small short_ = elim (Bool-cases (ltb max_sendque (length queue))) [
    | inl full ↦ ((queue, []), rw full refl)
    | inr room ↦
        let (n, e, _, _) = send_node_lem asio msg id small short_ in
        ((queue ++ (n ∷ []), if is_nil queue then write_node n ∷ [] else []), rw (room, e) refl)
  ]

  step_returns :
      (w : World) (c : Call) → IsSendable c → IsOrdered w → (w' : World) × (step w c ≡ returns w')
  unfolding step
  step_returns w (sends msg len id) (same, short_, small) o =
      let (r, e) = send_returns w.queue msg id small (omega arith) in
      let e' : send asio role w.queue msg len id ≡ returns r =
        ap (λ l. send asio role w.queue msg l id) same ∙ e in
      (
        record w {
          queue = r.0;
          accepted = w.accepted ++ drop (length w.queue) r.0;
          issued = w.issued ++ written r.1;
        },
        rw e' refl,
      )
  step_returns w finishes sendable o =
      let (w', s, _) = finish-IsOrdered w.queue w.accepted w.issued w.finished o in (w', s)

  run_returns :
      (cs : List Call) (w : World)
      → AreSendable cs
      → IsOrdered w
      → (w' : World) × (run w cs ≡ returns w') × IsOrdered w'
  unfolding run
  run_returns [] w sendable o = (w, refl, o)
  run_returns (c ∷ cs) w sendable o =
      let (v, s) = step_returns w c sendable.0 o in
      let (w', r, o') = run_returns cs v sendable.1 (step-IsOrdered w v c o s) in
      (w', ap (λ m. m >>= (λ x. run x cs)) s ∙ r, o')

  -- However calls of `Send` and writes that complete without error alternate, none of them faults, the
  -- packets go to the socket in the order in which they were accepted, none lost and none twice, and one
  -- write at most is under way: that of the front of the queue. The messages fit a packet.
  pub run_ordered :
      (cs : List Call)
      → AreSendable cs
      → (w : World) × (run empty_world cs ≡ returns w)
        × (w.accepted ≡ w.finished ++ w.queue)
        × (w.issued ≡ w.finished ++ take 1 w.queue)
  run_ordered cs sendable =
      let (w, r, o) =
        run_returns cs empty_world sendable (record { kept = refl; one_write = refl }) in
      (w, r, o.kept, o.one_write)
