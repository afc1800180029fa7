-- ===== src/Session/Read.antt =====
-- HandleReadHead, HandleMyProtocol and HandleReadMeg of csession.cpp. What `async_read` has put into
-- `m_Data` is an argument, and so is whether it reports an error.
use boost_asio_threadpool.Base.{
  Bool, List, Option, [], bytes_eq, false, if◌then◌else◌, length, ltb, none, replicate, some, take,
  true, ℕ, ◌++◌, ◌+◌, ◌-◌, ◌^◌, ◌||◌, ◌∷◌,
}
use boost_asio_threadpool.Base.Outcome.{Outcome, blocks, returns, throws, undefined, ◌>>=◌}
use boost_asio_threadpool.MsgNode.{
  Asio, MsgNode, clear, head_id_len, head_total_len, is_negative, load_short, memcpy, recev_node,
  to_short,
}
use boost_asio_threadpool.Session.{Effect, Role, clean_up, post, read_body, read_head, start_http}

-- `MAX_LENGTH`, the size of `m_Data`.
abbrev pub max_length : ℕ
max_length = 2048

abbrev pub msgid_min : ℕ
msgid_min = 1001

abbrev pub msgid_max : ℕ
msgid_max = 3002

-- The comparisons of a signed `short` with a constant that is not negative.
abbrev pub short_gt : ℕ → ℕ → Bool
short_gt w k = if is_negative w then false else ltb k w

abbrev pub short_lt : ℕ → ℕ → Bool
short_lt w k = if is_negative w then true else ltb w k

-- A `short` as a `size_t`.
abbrev pub short_to_size : ℕ → ℕ
short_to_size w = if is_negative w then 2 ^ 64 - (65536 - w) else w

pub record Reader : Type 0 where
  pub role : Role
  pub received : List ℕ
  pub recev_head_node : MsgNode
  pub recev_msg_node : Option MsgNode

abbrev pub is_http : List ℕ → Bool
is_http head = bytes_eq head (71 ∷ 69 ∷ 84 ∷ 32 ∷ []) || bytes_eq head (80 ∷ 79 ∷ 83 ∷ 84 ∷ [])

module _ (asio : Asio) where
  -- After the length has been accepted: a length below -1 throws, and the handler of
  -- `HandleReadHead` catches that and starts no new read.
  unfoldable pub expect_body : Reader → ℕ → Outcome MsgNode → Outcome (Reader × List Effect)
  expect_body r len (returns node) = returns (
    record r {
      recev_msg_node = some node;
      received = memcpy r.received 0 (replicate head_total_len 0);
    },
    read_body (asio.buffer_length max_length (short_to_size len)) ∷ [],
  )
  expect_body r len throws = returns (r, [])
  expect_body r len blocks = blocks
  expect_body r len undefined = undefined

  unfoldable pub handle_my_protocol : Reader → Outcome (Reader × List Effect)
  unfolding clear recev_node expect_body
  handle_my_protocol r =
      let msg_id = asio.network_to_host_short (load_short r.recev_head_node.contents 0) in
      let msg_len =
        asio.network_to_host_short (load_short r.recev_head_node.contents head_id_len) in
      if short_gt msg_id msgid_max || short_lt msg_id msgid_min
      then returns (r, clean_up r.role)
      else if short_gt msg_len 4000
      then returns (r, clean_up r.role)
      else expect_body (record r { recev_head_node = clear r.recev_head_node }) msg_len
          (recev_node msg_len msg_id)

  -- `effects` stand in front of those of `m`.
  abbrev pub after : List Effect → Outcome (Reader × List Effect) → Outcome (Reader × List Effect)
  after effects m = do (r, more) ← m; returns (r, effects ++ more)

  unfoldable pub head_read : Reader → List ℕ → Outcome (Reader × List Effect)
  unfolding handle_my_protocol
  head_read r bytes =
      let head = take head_total_len r.received in
      let r' = record r {
        recev_head_node = record r.recev_head_node {
          contents = memcpy r.recev_head_node.contents 0 head;
          cur_len = to_short (r.recev_head_node.cur_len + length bytes);
        };
      } in
      if ltb (length bytes) head_total_len
      then returns (r, clean_up r.role)
      else if is_http head
      then returns (r', start_http ∷ [])
      else handle_my_protocol r'

  unfoldable pub handle_read_head : Bool → List ℕ → Reader → Outcome (Reader × List Effect)
  unfolding head_read
  handle_read_head error bytes r =
      after (if error then clean_up r.role else [])
        (head_read (record r { received = memcpy r.received 0 bytes }) bytes)

  -- `memcpy` of `m_TotalLen` bytes out of `m_Data`: more than `m_Data` holds are read past its end.
  unfoldable pub body_read : Reader → ℕ → Option MsgNode → Outcome (Reader × List Effect)
  body_read r count none = undefined
  body_read r count (some node) =
      let node' = record node {
        contents = memcpy node.contents 0 (take node.total_len r.received);
        cur_len = to_short (node.cur_len + count);
      } in
      if ltb max_length (short_to_size node.total_len)
      then undefined
      else returns (
        record r {
          recev_msg_node = some node';
          received = memcpy r.received 0 (replicate head_total_len 0);
        },
        post node' ∷ read_head ∷ [],
      )

  unfoldable pub handle_read_meg : Bool → List ℕ → Reader → Outcome (Reader × List Effect)
  unfolding body_read
  handle_read_meg error bytes r = after (if error then clean_up r.role else []) (
      body_read (record r { received = memcpy r.received 0 bytes }) (length bytes) r.recev_msg_node)
