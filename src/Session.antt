-- ===== src/Session.antt =====
-- csession.cpp: one connection. Its reader, its queue of outgoing packets and its file numbers do not
-- share members, and are modelled each by its own record.
pub mod Read
pub mod Frames
pub mod SendQueue
pub mod Queued
pub mod FileIds
mod Examples
use boost_asio_threadpool.Base.{List, [], ℕ, ◌∷◌}
use boost_asio_threadpool.MsgNode.{MsgNode}

-- `CSession::Role`.
pub data Role : Type 0 where
  server client : Role

-- What a handler asks of the session's surroundings, in the order in which it does.
pub data Effect : Type 0 where
  clear_session socket_close handle_session_close : Effect
  read_head start_http : Effect
  read_body : ℕ → Effect
  post : MsgNode → Effect
  write_node : MsgNode → Effect

-- The clean-up that the handlers share: the server forgets the session and closes its socket, the
-- client drops its session.
unfoldable pub clean_up : Role → List Effect
clean_up server = clear_session ∷ socket_close ∷ []
clean_up client = handle_session_close ∷ []
