-- ===== src/Logic/Protocol.antt =====
-- The messages of the two sides against the tables of RegisterCallBacks and the worker of
-- logicsystem.cpp: what one side's handler sends, the other side's worker handles.
use boost_asio_threadpool.Base.{Bytes_eq, List, String_eq, [], ℕ, ℕ_eq, ◌∷◌}
use boost_asio_threadpool.Logic.{Handler, LogicNode}
use boost_asio_threadpool.Session.{Role}

-- Messages with these numbers as one side gets them, each with its text.
abbrev pub nodes_of : Role → (ℕ → List ℕ) → List ℕ → List LogicNode
nodes_of role text [] = []
nodes_of role text (n ∷ ns) =
    record { role = role; msg_id = n; text = text n } ∷ nodes_of role text ns

abbrev pub texts : List (Handler × List ℕ) → List (List ℕ)
texts [] = []
texts ((handler, text) ∷ calls) = text ∷ texts calls
