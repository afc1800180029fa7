-- ===== src/Logic/Queue.antt =====
-- DealMsg of logicsystem.cpp over a whole queue.
use boost_asio_threadpool.Base.{
  Bool, List, [], ap, append-nil, append_assoc, arith, false, length, length-append, refl, suc, sym,
  true, zero, ℕ, ◌++◌, ◌∙◌, ◌∷◌, ◌≡◌,
}
use boost_asio_threadpool.Base.Outcome.{Outcome, blocks, returns, ◌>>=◌}
use boost_asio_threadpool.Logic.{
  Handler, LogicNode, LogicSystem, call_handler, deal_front, deal_msg, deal_one, drain,
  post_mesg_to_que,
}
use boost_asio_threadpool.Receive.{is_nil}

-- What a list of messages makes the worker call, in order.
abbrev pub calls_of : List LogicNode → List (Handler × List ℕ)
calls_of [] = []
calls_of (node ∷ nodes) = call_handler node ++ calls_of nodes

-- Turns of the worker, as many as given.
pub deal_turns : ℕ → LogicSystem → Outcome LogicSystem
deal_turns zero l = returns l
deal_turns (suc n) l = do (l', more) ← deal_msg l; deal_turns n l'

pub post_all : List LogicNode → LogicSystem → LogicSystem
post_all [] l = l
post_all (node ∷ nodes) l = post_all nodes (post_mesg_to_que node l).0

abbrev pub logic_system : List LogicNode → Bool → List (Handler × List ℕ) → LogicSystem
logic_system meg_que stop calls = record { meg_que = meg_que; stop = stop; calls = calls }

post_all-queue :
    (nodes que : List LogicNode) (stop : Bool) (calls : List (Handler × List ℕ))
    → post_all nodes (logic_system que stop calls) ≡ logic_system (que ++ nodes) stop calls
unfolding post_all post_mesg_to_que
post_all-queue [] que stop calls = ap (λ q. logic_system q stop calls) (sym (append-nil que))
post_all-queue (node ∷ nodes) que stop calls =
    post_all-queue nodes (que ++ (node ∷ [])) stop calls
    ∙ ap (λ q. logic_system q stop calls) (append_assoc que (node ∷ []) nodes)

deal_turns-all :
    (nodes : List LogicNode) (calls : List (Handler × List ℕ))
    → deal_turns (length nodes) (logic_system nodes false calls)
      ≡ returns (logic_system [] false (calls ++ calls_of nodes))
unfolding deal_turns deal_msg deal_one deal_front
deal_turns-all [] calls = ap (λ c. returns (logic_system [] false c)) (sym (append-nil calls))
deal_turns-all (node ∷ nodes) calls =
    deal_turns-all nodes (calls ++ call_handler node)
    ∙ ap (λ c. returns (logic_system [] false c))
        (append_assoc calls (call_handler node) (calls_of nodes))

-- However many messages are posted to an idle worker, it calls for each, in the order of posting, the
-- handler that its side's table has for it, passes over those without one, and then waits.
pub post_all-deal_turns :
    (nodes : List LogicNode) (calls : List (Handler × List ℕ))
    → (deal_turns (length nodes) (post_all nodes (logic_system [] false calls))
        ≡ returns (logic_system [] false (calls ++ calls_of nodes)))
      × (deal_msg (logic_system [] false (calls ++ calls_of nodes)) ≡ blocks)
unfolding deal_msg deal_one
post_all-deal_turns nodes calls = (
  ap (deal_turns (length nodes)) (post_all-queue nodes [] false calls) ∙ deal_turns-all nodes calls,
  refl,
)

drain_lem :
    (nodes : List LogicNode) (que : List LogicNode) (calls : List (Handler × List ℕ))
    → drain nodes (logic_system que true calls) ≡ logic_system [] true (calls ++ calls_of nodes)
unfolding drain deal_front
drain_lem [] que calls = ap (logic_system [] true) (sym (append-nil calls))
drain_lem (node ∷ nodes) que calls =
    drain_lem nodes nodes (calls ++ call_handler node)
    ∙ ap (logic_system [] true) (append_assoc calls (call_handler node) (calls_of nodes))

-- A worker that is stopped still handles every message of its queue, in order, and then ends.
pub deal_msg-stopped :
    (nodes : List LogicNode) (calls : List (Handler × List ℕ))
    → deal_msg (logic_system nodes true calls)
      ≡ returns (logic_system [] true (calls ++ calls_of nodes), false)
unfolding deal_msg
deal_msg-stopped nodes calls = ap (λ l. returns (l, false)) (drain_lem nodes nodes calls)

-- The worker is woken whenever it may be waiting: a message posted to an empty queue notifies it, one
-- posted behind others does not.
pub post_mesg_to_que-notifies :
    (node : LogicNode) (l : LogicSystem) → (post_mesg_to_que node l).1 ≡ is_nil l.meg_que
unfolding post_mesg_to_que
post_mesg_to_que-notifies node l = grind (arith, length-append l.meg_que (node ∷ []))
