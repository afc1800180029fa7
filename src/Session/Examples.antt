-- ===== src/Session/Examples.antt =====
-- The theorems about csession.cpp at concrete packets and runs.
use boost_asio_threadpool.Base.{
  List, [], arith, drop, false, inl, none, refl, take, ℕ, ◌++◌, ◌∷◌, ◌≡◌, replicate,
}
use boost_asio_threadpool.Base.Outcome.{returns, undefined}
use boost_asio_threadpool.MsgNode.{MsgNode, head_total_len, send_node}
use boost_asio_threadpool.MsgNode.Layout.{packet}
use boost_asio_threadpool.Samples.{asio}
use boost_asio_threadpool.Session.{
  clear_session, socket_close, post, read_body, read_head, server, clean_up,
}
use boost_asio_threadpool.Session.Read.{Reader, handle_read_head, handle_read_meg, max_length}
use boost_asio_threadpool.Session.Frames.{
  received_node, send_node-received, handle_read_head_rejects, handle_read_meg_overreads, with_head,
}
use boost_asio_threadpool.Session.Queued.{
  Call, World, empty_world, finishes, run, run_ordered, sends, step,
}
use boost_asio_threadpool.Session.SendQueue.{handle_write, send}

abbrev head_node : MsgNode
head_node = record {
  contents = replicate 5 0;
  cur_len = 0;
  total_len = 4;
  sequence = 0;
  msg_id = 0;
}

abbrev reader : Reader
reader = record { role = server; received = []; recev_head_node = head_node; recev_msg_node = none }

send_node-received_example :
    (node : MsgNode) × (r' : Reader) × (r'' : Reader) × (send_node asio (104 ∷ 105 ∷ []) 2 1010
      ≡ returns node)
    × (handle_read_head asio false (take head_total_len node.contents) reader
        ≡ returns (r', read_body 2 ∷ []))
    × (handle_read_meg asio false (take 2 (drop head_total_len node.contents)) r'
        ≡ returns (r'', post (received_node asio (104 ∷ 105 ∷ []) 1010) ∷ read_head ∷ []))
send_node-received_example =
    send_node-received asio reader (104 ∷ 105 ∷ []) 1010 (omega arith) (omega arith) (omega arith)

handle_read_head_rejects_example :
    handle_read_head asio false (3 ∷ 0 ∷ 0 ∷ 5 ∷ []) reader
    ≡ returns (with_head asio reader 3 0 0 5, clear_session ∷ socket_close ∷ [])
unfolding clean_up
handle_read_head_rejects_example =
    handle_read_head_rejects asio reader 3 0 0 5 (omega arith) (omega arith) (omega arith)
      (omega arith) (λ e. omega (arith, e)) (λ e. omega (arith, e)) (inl (inl (omega arith)))

handle_read_meg_overreads_example :
    (r' : Reader) × (handle_read_head asio false (3 ∷ 242 ∷ 8 ∷ 1 ∷ []) reader
      ≡ returns (r', read_body max_length ∷ []))
    × (handle_read_meg asio false (1 ∷ 2 ∷ []) r' ≡ undefined)
handle_read_meg_overreads_example =
    handle_read_meg_overreads asio reader 3 242 8 1 (1 ∷ 2 ∷ []) (omega arith) (omega arith)
      (omega arith) (omega arith) (λ e. omega (arith, e)) (λ e. omega (arith, e)) (omega arith)
      (omega arith) (omega arith) (omega arith)

-- The node of a packet of one byte.
abbrev sent_node : ℕ → ℕ → MsgNode
sent_node id byte = record {
  contents = packet (byte ∷ []) id;
  cur_len = 0;
  total_len = 5;
  sequence = 0;
  msg_id = id;
}

abbrev calls : List Call
calls = sends (104 ∷ []) 1 1010 ∷ sends (105 ∷ []) 1 1011 ∷ finishes ∷ []

abbrev after_calls : World
after_calls = record {
  queue = sent_node 1011 105 ∷ [];
  accepted = sent_node 1010 104 ∷ sent_node 1011 105 ∷ [];
  issued = sent_node 1010 104 ∷ sent_node 1011 105 ∷ [];
  finished = sent_node 1010 104 ∷ [];
}

-- Two packets are sent, and the first write completes.
run_calls : run asio server empty_world calls ≡ returns after_calls
unfolding run step send handle_write send_node
run_calls = refl

run_ordered_example :
    (w : World) × (run asio server empty_world calls ≡ returns w)
    × (w.accepted ≡ w.finished ++ w.queue)
    × (w.issued ≡ w.finished ++ take 1 w.queue)
run_ordered_example =
    run_ordered asio server calls
      ((refl, omega arith, omega arith), ((refl, omega arith, omega arith), (tt, tt)))
