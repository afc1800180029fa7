-- ===== src/Session/SendQueue.antt =====
-- Send and HandleWrite of csession.cpp: the queue of packets that wait for the socket. Each handler
-- holds `m_SendLock`, so a run is a sequence of calls.
use boost_asio_threadpool.Base.{Bool, List, [], if◌then◌else◌, length, ltb, ℕ, ◌++◌, ◌∷◌}
use boost_asio_threadpool.Base.Outcome.{Outcome, returns, undefined, ◌>>=◌}
use boost_asio_threadpool.MsgNode.{Asio, MsgNode, send_node}
use boost_asio_threadpool.Receive.{is_nil}
use boost_asio_threadpool.Session.{Effect, Role, clean_up, write_node}

-- `MAX_SENDQUE`.
abbrev pub max_sendque : ℕ
max_sendque = 500000

module _ (asio : Asio) (role : Role) where
  -- The new queue, and the packets that are handed to `async_write`.
  enqueue : List MsgNode → Outcome MsgNode → Outcome (List MsgNode × List Effect)
  enqueue queue node = do
    n ← node
    returns (queue ++ (n ∷ []), if is_nil queue then write_node n ∷ [] else [])

  unfoldable pub send : List MsgNode → List ℕ → ℕ → ℕ → Outcome (List MsgNode × List Effect)
  unfolding enqueue
  send queue msg max_len id =
      if ltb max_sendque (length queue)
      then returns (queue, [])
      else enqueue queue (send_node asio msg max_len id)

-- `front()` of what is left, if any.
abbrev pub write_front : List MsgNode → List Effect
write_front [] = []
write_front (n ∷ rest) = write_node n ∷ []

-- After a write without error: `pop` of an empty queue is undefined.
pop_written : List MsgNode → Outcome (List MsgNode × List Effect)
pop_written [] = undefined
pop_written (n ∷ rest) = returns (rest, write_front rest)

unfoldable pub handle_write : Role → Bool → List MsgNode → Outcome (List MsgNode × List Effect)
unfolding pop_written clean_up
handle_write role error queue =
    let popped = pop_written queue in if error then returns (queue, clean_up role) else popped
