-- ===== src/Session/Frames.antt =====
-- What csession.cpp makes of the bytes on the wire.
use boost_asio_threadpool.Base.{
  ==_ne, List, [], ap, arith, bytes_eq, drop, false, if◌then◌else◌, length, le→ltb, lt→leb, min,
  refl, replicate, some, take, take-append_left, ℕ, ◌%◌, ◌*◌, ◌++◌, ◌+◌, ◌/◌, ◌<◌, ◌==◌, ◌∙◌, ◌∷◌,
  ◌≡◌, ◌≢◌, ◌≤◌, ◌⊎◌,
}
use boost_asio_threadpool.Base.Outcome.{Outcome, blocks, returns, throws, undefined}
use boost_asio_threadpool.MsgNode.{
  Asio, MsgNode, clear, head_total_len, memcpy, msg_node, recev_node, send_node, to_short,
}
use boost_asio_threadpool.MsgNode.Layout.{drop-replicate_one, msg_node_lem, send_node_lem, zeros}
use boost_asio_threadpool.Session.{Effect, clean_up, post, read_body, read_head}
use boost_asio_threadpool.Session.Read.{
  Reader, after, body_read, expect_body, handle_my_protocol, handle_read_head, handle_read_meg,
  head_read, is_http, max_length, msgid_max, msgid_min,
}

module _ (asio : Asio) where
  -- The four bytes of a header, as the reader keeps them.
  abbrev pub with_head : Reader → ℕ → ℕ → ℕ → ℕ → Reader
  with_head r a b c d = record r {
    received = memcpy r.received 0 (a ∷ b ∷ c ∷ d ∷ []);
    recev_head_node = record r.recev_head_node {
      contents = memcpy r.recev_head_node.contents 0 (a ∷ b ∷ c ∷ d ∷ []);
      cur_len = to_short (r.recev_head_node.cur_len + 4);
    };
  }

  after-nil : (m : Outcome (Reader × List Effect)) → after asio [] m ≡ m
  after-nil (returns (r, effects)) = refl
  after-nil throws = refl
  after-nil blocks = refl
  after-nil undefined = refl

  is_http_ne : (a b c d : ℕ) → a ≢ 71 → a ≢ 80 → is_http (a ∷ b ∷ c ∷ d ∷ []) ≡ false
  unfolding bytes_eq
  is_http_ne a b c d g p = rw (==_ne a 71 g, ==_ne a 80 p) refl

  -- A whole header that does not begin an HTTP request goes to the custom protocol.
  handle_read_head_custom :
      (r : Reader) (a b c d : ℕ)
      → a ≢ 71
      → a ≢ 80
      → handle_read_head asio false (a ∷ b ∷ c ∷ d ∷ []) r
        ≡ handle_my_protocol asio (with_head r a b c d)
  unfolding handle_read_head
  handle_read_head_custom r a b c d g p = after-nil _ ∙ rw (is_http_ne a b c d g p, head_read) refl

  -- A header that does not begin with 'G' or 'P', with a number outside the protocol's or with a
  -- length above 4000 that is positive as a `short`, ends the session, and nothing is read or passed
  -- on.
  pub handle_read_head_rejects :
      (r : Reader) (a b c d : ℕ)
      → a < 256
      → b < 256
      → c < 256
      → d < 256
      → a ≢ 71
      → a ≢ 80
      → ((a * 256 + b < msgid_min) ⊎ (msgid_max < a * 256 + b))
        ⊎ ((4000 < c * 256 + d) × (c * 256 + d < 32768))
      → handle_read_head asio false (a ∷ b ∷ c ∷ d ∷ []) r
        ≡ returns (with_head r a b c d, clean_up r.role)
  unfolding handle_my_protocol
  handle_read_head_rejects r a b c d ha hb hc hd g p bad =
      handle_read_head_custom r a b c d g p
      ∙ ground (arith, asio.host_value a b ha hb, asio.host_value c d hc hd)

  -- A length that is negative as a `short` passes the check, though it is below zero. Then the
  -- session neither reads on nor is closed, or, at -1, the zero is written outside the node.
  pub handle_read_head_negative :
      (r : Reader) (a b c d : ℕ)
      → a < 256
      → b < 256
      → c < 256
      → d < 256
      → a ≢ 71
      → a ≢ 80
      → msgid_min ≤ a * 256 + b
      → a * 256 + b ≤ msgid_max
      → 32768 ≤ c * 256 + d
      → handle_read_head asio false (a ∷ b ∷ c ∷ d ∷ []) r ≡ (
          if c * 256 + d == 65535
          then undefined
          else returns (
            record (with_head r a b c d) {
              recev_head_node = clear (with_head r a b c d).recev_head_node;
            },
            [],
          ))
  unfolding handle_my_protocol recev_node msg_node expect_body
  handle_read_head_negative r a b c d ha hb hc hd g p lo hi neg =
      handle_read_head_custom r a b c d g p
      ∙ ground (arith, asio.host_value a b ha hb, asio.host_value c d hc hd)

  -- A header of the protocol: the session makes a node for the message, and asks for at most as many
  -- bytes as `m_Data` holds.
  handle_read_head_accepts :
      (r : Reader) (a b c d id len : ℕ)
      → a < 256
      → b < 256
      → c < 256
      → d < 256
      → a ≢ 71
      → a ≢ 80
      → a * 256 + b ≡ id
      → c * 256 + d ≡ len
      → msgid_min ≤ id
      → id ≤ msgid_max
      → len ≤ 4000
      → (r' : Reader) × (handle_read_head asio false (a ∷ b ∷ c ∷ d ∷ []) r
          ≡ returns (r', read_body (min max_length len) ∷ []))
        × (r'.recev_msg_node ≡ some (zeros len id))
  unfolding handle_my_protocol recev_node expect_body
  handle_read_head_accepts r a b c d id len ha hb hc hd g p ei el lo hi small = (
    record (with_head r a b c d) {
      recev_head_node = clear (with_head r a b c d).recev_head_node;
      recev_msg_node = some (zeros len id);
      received = memcpy (with_head r a b c d).received 0 (replicate head_total_len 0);
    },
    handle_read_head_custom r a b c d g p
        ∙ ground (
          arith,
          asio.host_value a b ha hb,
          asio.host_value c d hc hd,
          msg_node_lem len len id refl (omega arith),
          asio.buffer_min max_length len,
        ),
    refl,
  )

  handle_read_meg_node :
      (r : Reader) (body : List ℕ) (node : MsgNode)
      → r.recev_msg_node ≡ some node
      → handle_read_meg asio false body r
        ≡ body_read asio
            (record r { received = memcpy r.received 0 body })
            (length body)
            (some node)
  unfolding handle_read_meg
  handle_read_meg_node r body node e =
      after-nil _
      ∙ ap (body_read asio (record r { received = memcpy r.received 0 body }) (length body)) e

  -- In a header that does not begin with 'G' or 'P' and has a number of the protocol, a length from
  -- 2049 to 4000 passes the check, but `m_Data` is shorter: of such a message only 2048 bytes are
  -- read, and then bytes behind `m_Data` are copied into its node.
  pub handle_read_meg_overreads :
      (r : Reader) (a b c d : ℕ) (body : List ℕ)
      → a < 256
      → b < 256
      → c < 256
      → d < 256
      → a ≢ 71
      → a ≢ 80
      → msgid_min ≤ a * 256 + b
      → a * 256 + b ≤ msgid_max
      → max_length < c * 256 + d
      → c * 256 + d ≤ 4000
      → (r' : Reader) × (handle_read_head asio false (a ∷ b ∷ c ∷ d ∷ []) r
          ≡ returns (r', read_body max_length ∷ []))
        × (handle_read_meg asio false body r' ≡ undefined)
  unfolding body_read
  handle_read_meg_overreads r a b c d body ha hb hc hd g p lo hi long small =
      let (r', e, n) =
        handle_read_head_accepts r a b c d (a * 256 + b) (c * 256 + d) ha hb hc hd g p refl refl lo
          hi small in
      let full : min max_length (c * 256 + d) ≡ max_length = omega arith in
      (
        r',
        e ∙ rw full refl,
        handle_read_meg_node r' body (zeros (c * 256 + d) (a * 256 + b)) n ∙ ground arith,
      )

  -- The node of a message, once its bytes are in.
  abbrev pub received_node : List ℕ → ℕ → MsgNode
  received_node msg id = record (zeros (length msg) id) {
    contents = msg ++ (0 ∷ []);
    cur_len = length msg;
  }

  handle_read_meg_received :
      (r : Reader) (msg : List ℕ) (id : ℕ)
      → length msg ≤ max_length
      → r.recev_msg_node ≡ some (zeros (length msg) id)
      → (r' : Reader) × (handle_read_meg asio false msg r
          ≡ returns (r', post (received_node msg id) ∷ read_head ∷ []))
  unfolding body_read
  handle_read_meg_received r msg id h n = (
    record r {
      recev_msg_node = some (received_node msg id);
      received = memcpy (memcpy r.received 0 msg) 0 (replicate head_total_len 0);
    },
    handle_read_meg_node r msg (zeros (length msg) id) n
        ∙ rw
            (
              lt→leb (length msg) 32768 (omega arith),
              le→ltb max_length (length msg) h,
              take-append_left (length msg) msg (drop (length msg) r.received) refl,
              drop-replicate_one (length msg),
              short_len,
            )
            refl,
  )
    where
      short_len : (0 + length msg) % 65536 ≡ length msg
      short_len = omega arith

  -- What one end sends the other receives: for a number of the protocol and a message of at most 2048
  -- bytes, the first four bytes of the packet make the reader ask for the rest, and the rest hands the
  -- logic system a node with the message's number, its length and its bytes, after which the reader
  -- waits for the next header.
  pub send_node-received :
      (r : Reader) (msg : List ℕ) (id : ℕ)
      → msgid_min ≤ id
      → id ≤ msgid_max
      → length msg ≤ max_length
      → (node : MsgNode) × (r' : Reader) × (r'' : Reader) × (send_node asio msg (length msg) id
          ≡ returns node)
        × (handle_read_head asio false (take head_total_len node.contents) r
            ≡ returns (r', read_body (length msg) ∷ []))
        × (handle_read_meg asio false (take (length msg) (drop head_total_len node.contents)) r'
            ≡ returns (r'', post (received_node msg id) ∷ read_head ∷ []))
  unfolding body_read
  send_node-received r msg id lo hi h =
      let (node, s, content, t) = send_node_lem asio msg id (omega arith) (omega arith) in
      let (r', e, n) =
        handle_read_head_accepts r (id / 256) (id % 256) (length msg / 256) (length msg % 256) id
          (length msg) (omega arith) (omega arith) (omega arith) (omega arith) (omega arith)
          (omega arith) (omega arith) (omega arith) lo hi (omega arith) in
      let (r'', f) = handle_read_meg_received r' msg id h n in
      let whole : min max_length (length msg) ≡ length msg = omega arith in
      (
        node,
        r',
        r'',
        s,
        ap (λ c. handle_read_head asio false (take head_total_len c) r) content ∙ e ∙ rw whole refl,
        ap (λ c. handle_read_meg asio false (take (length msg) (drop head_total_len c)) r') content
            ∙ rw (take-append_left (length msg) msg (0 ∷ []) refl) f,
      )
