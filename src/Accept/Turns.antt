-- ===== src/Accept/Turns.antt =====
-- GetService of servicepool.cpp over many calls.
use boost_asio_threadpool.Base.{
  Bool-cases, ==_iff, List, [], arith, get_elem?, inl, inr, lt→ltb, refl, some, suc, zero, ap, sym,
  ℕ, ◌%◌, ◌+◌, ◌<◌, ◌==◌, ◌∙◌, ◌∷◌, ◌≡◌, if◌then◌else◌,
}
use native.Mathlib.Nat.{add-mod_left, mod-eq_of_lt}
use boost_asio_threadpool.Base.Outcome.{Outcome, returns, ◌>>=◌}
use boost_asio_threadpool.Accept.{ServicePool, get_service}

-- The services of `k` calls.
unfoldable pub get_services : ℕ → ServicePool → Outcome (List ℕ × ServicePool)
get_services zero p = returns ([], p)
get_services (suc k) p = do
  (service, p') ← get_service p
  (services, p'') ← get_services k p'
  returns (service ∷ services, p'')

-- The services from an index on, round and round.
abbrev pub round_robin : ℕ → ℕ → ℕ → List ℕ
round_robin size next zero = []
round_robin size next (suc k) = next ∷ round_robin size (if next + 1 == size then 0 else next + 1) k

round_robin-get_elem? :
    (size next k j : ℕ)
    → next < size
    → j < k
    → get_elem? (round_robin size next k) j ≡ some ((next + j) % size)
round_robin-get_elem? size next zero j h small = absurd (omega arith)
round_robin-get_elem? size next (suc k) zero h small =
    let stays : next ≡ next + 0 = omega arith in
    ap some (sym (mod-eq_of_lt h) ∙ ap (λ a. a % size) stays)
round_robin-get_elem? size next (suc k) (suc j) h small = elim (Bool-cases (next + 1 == size)) [
  | inl wraps ↦
      let last = (==_iff (next + 1) size).0 wraps in
      let from : 0 + j ≡ j = omega arith in
      let to : size + j ≡ next + suc j = omega (arith, last) in
      rw wraps (
        round_robin-get_elem? size 0 k j (omega arith) (omega arith)
        ∙ ap some (ap (λ a. a % size) from ∙ (sym (add-mod_left size j) ∙ ap (λ a. a % size) to)))
  | inr goes_on ↦
      let further : next + 1 < size = ground arith in
      let to : next + 1 + j ≡ next + suc j = omega arith in
      rw goes_on (
        round_robin-get_elem? size (next + 1) k j further (omega arith)
        ∙ ap (λ a. some (a % size)) to)
]

get_services_lem :
    (k size next : ℕ)
    → next < size
    → (p' : ServicePool) × (get_services k (record { size = size; next_service_index = next })
        ≡ returns (round_robin size next k, p'))
unfolding get_services get_service
get_services_lem zero size next h = (record { size = size; next_service_index = next }, refl)
get_services_lem (suc k) size next h =
    let small : (if next + 1 == size then 0 else next + 1) < size = ground arith in
    let (p', e) = get_services_lem k size (if next + 1 == size then 0 else next + 1) small in
    (p', rw (lt→ltb next size h, e) refl)

-- The calls take the services in turn: the call with number j gets the one j places on from the next,
-- round the pool. The next index is one of the pool's.
pub get_services-round_robin :
    (k j : ℕ) (p : ServicePool)
    → p.next_service_index < p.size
    → j < k
    → (services : List ℕ) × (p' : ServicePool) × (get_services k p ≡ returns (services, p'))
      × (get_elem? services j ≡ some ((p.next_service_index + j) % p.size))
get_services-round_robin k j p h small =
    let (p', e) = get_services_lem k p.size p.next_service_index h in
    (
      round_robin p.size p.next_service_index k,
      p',
      e,
      round_robin-get_elem? p.size p.next_service_index k j h small,
    )
