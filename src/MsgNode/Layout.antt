-- ===== src/MsgNode/Layout.antt =====
-- The bytes of a SendNode of msgnode.cpp.
use boost_asio_threadpool.Base.{
  List, [], ap, arith, drop, get_or, length, le→ltb, lt→leb, refl, replicate, suc, take_all, zero,
  ℕ, ◌%◌, ◌++◌, ◌+◌, ◌/◌, ◌<◌, ◌∷◌, ◌≡◌, ◌≤◌,
}
use boost_asio_threadpool.Base.Outcome.{returns, throws}
use native.Mathlib.Numerals.{add-one}
use boost_asio_threadpool.MsgNode.{fill}
use boost_asio_threadpool.MsgNode.{msg_node, to_short}
use boost_asio_threadpool.MsgNode.{Asio, MsgNode, head_total_len, send_node}

pub drop-replicate_one : (n : ℕ) → drop n (replicate (suc n) (let z : ℕ = 0 in z)) ≡ 0 ∷ []
drop-replicate_one zero = refl
drop-replicate_one (suc n) = drop-replicate_one n

abbrev pub packet : List ℕ → ℕ → List ℕ
packet msg id = id / 256 ∷ id % 256 ∷ length msg / 256 ∷ length msg % 256 ∷ (msg ++ (0 ∷ []))

-- A new node of `n` zeros, with the zero at its end.
abbrev pub zeros : ℕ → ℕ → MsgNode
zeros n id = record {
  contents = replicate (suc n) 0;
  cur_len = 0;
  total_len = n;
  sequence = 0;
  msg_id = id;
}

pub msg_node_lem : (n m id : ℕ) → m ≡ n → n < 32768 → msg_node m id ≡ returns (zeros n id)
unfolding msg_node
msg_node_lem n m id e h = rw (e, lt→leb n 32768 h, add-one) refl

-- What the machine stores of a number in network order.
first_byte : (asio : Asio) (x : ℕ) → x < 65536 → asio.host_to_network_short x % 256 ≡ x / 256
first_byte asio x h = ap (λ b. get_or b 0 0) (asio.network_bytes x h)

second_byte : (asio : Asio) (x : ℕ) → x < 65536 → asio.host_to_network_short x / 256 % 256 ≡ x % 256
second_byte asio x h = ap (λ b. get_or b 1 0) (asio.network_bytes x h)

filled :
    (asio : Asio) (msg : List ℕ) (id : ℕ)
    → id < 65536
    → length msg < 32764
    → (node : MsgNode) × (fill asio msg
          (length msg)
          id
          (zeros (suc (suc (suc (suc (length msg))))) id)
        ≡ returns node)
      × (node.contents ≡ packet msg id)
      × (node.total_len ≡ length msg + head_total_len)
unfolding fill
filled asio msg id i h = (
  record (zeros (suc (suc (suc (suc (length msg))))) id) { contents = packet msg id },
  rw
      (
        lt→leb (length msg) 32768 (omega arith),
        le→ltb (length msg) (length msg) (omega arith),
        first_byte asio id i,
        second_byte asio id i,
        first_byte asio (length msg) (omega arith),
        second_byte asio (length msg) (omega arith),
        take_all (length msg) msg (omega arith),
        drop-replicate_one (length msg),
      )
      refl,
  refl,
  omega arith,
)

-- A packet is its number and its length in network order, then the message and a zero; the length in
-- the header counts the message alone.
pub send_node_lem :
    (asio : Asio) (msg : List ℕ) (id : ℕ)
    → id < 65536
    → length msg < 32764
    → (node : MsgNode) × (send_node asio msg (length msg) id ≡ returns node)
      × (node.contents ≡ packet msg id)
      × (node.total_len ≡ length msg + head_total_len)
unfolding send_node
send_node_lem asio msg id i h =
    let (node, e, c, t) = filled asio msg id i h in
    (
      node,
      rw
          (msg_node_lem (suc (suc (suc (suc (length msg)))))
            (to_short (length msg + head_total_len)) id (omega arith) (omega arith))
          e,
      c,
      t,
    )

-- A message whose length with the header does not fit a `short` is not sent: the node's length wraps
-- below zero, and its allocation throws.
pub send_node-throws :
    (asio : Asio) (msg : List ℕ) (max_len id : ℕ)
    → 32764 ≤ max_len
    → max_len < 32768
    → send_node asio msg max_len id ≡ throws
unfolding send_node msg_node
send_node-throws asio msg max_len id lo hi = ground arith
