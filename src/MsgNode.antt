-- ===== src/MsgNode.antt =====
-- msgnode.cpp and msgnode.h: the nodes that carry a packet. A `short` is its bit pattern, a number
-- below 2 ^ 16; the machine stores its low byte first.
pub mod Layout
use boost_asio_threadpool.Base.{
  Bool, List, [], drop, get_or, if◌then◌else◌, leb, length, ltb, min, replicate, take, ℕ, ◌%◌, ◌*◌,
  ◌++◌, ◌+◌, ◌/◌, ◌<◌, ◌==◌, ◌||◌, ◌∷◌, ◌≡◌,
}
use boost_asio_threadpool.Base.Outcome.{Outcome, returns, throws, undefined, ◌>>=◌}

abbrev pub to_short : ℕ → ℕ
to_short n = n % 65536

abbrev pub is_negative : ℕ → Bool
is_negative w = leb 32768 w

-- `HEAD_ID_LEN`, `HEAD_DATA_LEN`, `HEAD_TOTAL_LEN`.
abbrev pub head_id_len : ℕ
head_id_len = 2

abbrev pub head_data_len : ℕ
head_data_len = 2

abbrev pub head_total_len : ℕ
head_total_len = head_id_len + head_data_len

abbrev pub store_short : ℕ → List ℕ
store_short w = w % 256 ∷ w / 256 % 256 ∷ []

-- The short at an offset of a byte array.
abbrev pub load_short : List ℕ → ℕ → ℕ
load_short bytes at_ = get_or bytes at_ 0 + 256 * get_or bytes (at_ + 1) 0

-- Boost.Asio's conversions between host and network order, and the length of `buffer(array, n)`.
pub record Asio : Type 0 where
  pub host_to_network_short : ℕ → ℕ
  pub network_to_host_short : ℕ → ℕ
  pub buffer_length : ℕ → ℕ → ℕ
  pub network_bytes :
      (x : ℕ) → x < 65536 → store_short (host_to_network_short x) ≡ x / 256 ∷ x % 256 ∷ []
  pub host_value : (a b : ℕ) → a < 256 → b < 256 → network_to_host_short (a + 256 * b) ≡ a * 256 + b
  pub buffer_min : (size n : ℕ) → buffer_length size n ≡ min size n

-- `m_Data` without its sharing: the bytes that the node owns.
pub record MsgNode : Type 0 where
  pub contents : List ℕ
  pub cur_len : ℕ
  pub total_len : ℕ
  pub sequence : ℕ
  pub msg_id : ℕ

-- `memcpy(dst + at, src, length src)`, where the room is enough.
abbrev pub memcpy : List ℕ → ℕ → List ℕ → List ℕ
memcpy dst at_ src = take at_ dst ++ (src ++ drop (length src) (drop at_ dst))

-- `new char[m_TotalLen + 1]()`, and the zero at its end: a length below -1 throws, and with -1 the
-- zero is written in front of the array.
unfoldable pub msg_node : ℕ → ℕ → Outcome MsgNode
msg_node max_len id =
    if is_negative max_len
    then (if max_len == 65535 then undefined else throws)
    else returns (record {
      contents = replicate (max_len + 1) 0;
      cur_len = 0;
      total_len = max_len;
      sequence = 0;
      msg_id = id;
    })

unfoldable pub clear : MsgNode → MsgNode
clear node = record node {
  contents = memcpy node.contents 0 (replicate node.total_len 0);
  cur_len = 0;
}

unfoldable pub recev_node : ℕ → ℕ → Outcome MsgNode
unfolding msg_node
recev_node max_len id = msg_node max_len id

pub recev_node_at : ℕ → ℕ → ℕ → Outcome MsgNode
unfolding msg_node
recev_node_at max_len id seq = do
  node ← msg_node (to_short (max_len + head_total_len)) id
  returns (record node { sequence = seq })

-- The body of the `SendNode` constructors. `max_len` becomes a `size_t` in the last `memcpy`: a
-- negative one, or one beyond the message, reads or writes outside the arrays.
unfoldable pub fill : Asio → List ℕ → ℕ → ℕ → MsgNode → Outcome MsgNode
fill asio msg max_len id node =
    if is_negative max_len || ltb (length msg) max_len
    then undefined
    else returns (record node {
      contents =
          memcpy
            (memcpy (memcpy node.contents 0 (store_short (asio.host_to_network_short id)))
              head_id_len (store_short (asio.host_to_network_short max_len)))
            head_total_len (take max_len msg);
    })

unfoldable pub send_node : Asio → List ℕ → ℕ → ℕ → Outcome MsgNode
unfolding msg_node fill
send_node asio msg max_len id = do
  node ← msg_node (to_short (max_len + head_total_len)) id
  fill asio msg max_len id node

pub send_node_at : Asio → List ℕ → ℕ → ℕ → ℕ → Outcome MsgNode
unfolding msg_node fill
send_node_at asio msg max_len id seq = do
  node ← msg_node (to_short (max_len + head_total_len)) id
  fill asio msg max_len id (record node { sequence = seq })
