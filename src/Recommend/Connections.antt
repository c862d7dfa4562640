-- ===== src/Recommend/Connections.antt =====
-- crates/vectorseam-recommendation-server/src/lib.rs: `Server::serve`, which accepts connections, and
-- `drain_connections`. The `JoinSet` is the number of its tasks; what tokio's `select!` picks is an event.
-- A connection's own traffic, of the crate hyper, is not modelled.
use vectorseam.Base.{
  ap, ◌++◌, All, arith, leb_false→lt, refl, ◌<◌, ◌≡◌, Bool, Bool-cases, List, Option, [], false,
  if◌then◌else◌, inl, inr, leb, none, not, some, suc, true, zero, ◌+◌, ◌-◌, ◌∷◌, ◌≤◌, ℕ,
}

-- What a round of the loop waits for: the shutdown, a task that ends, a connection, a failing `accept`
-- whose pause the shutdown may end.
pub data ServeEvent : Type 0 where
  shutdown joined accepted : ServeEvent
  accept_failed : Bool → ServeEvent

-- `while let Some(joined) = connections.try_join_next()`: as many tasks as have ended.
abbrev pub reap : ℕ → ℕ → ℕ
reap ended connections = connections - ended

-- `select!` of a full server, which does not accept: whether the loop goes on, and the tasks.
abbrev pub full_round : ℕ → ServeEvent → Bool × ℕ
full_round connections shutdown = (false, connections)
full_round connections joined = (true, connections - 1)
full_round connections accepted = (true, connections)
full_round connections (accept_failed stop) = (true, connections)

-- `select!` of a server with room.
abbrev pub open_round : ℕ → ServeEvent → Bool × ℕ
open_round connections shutdown = (false, connections)
open_round connections joined = (true, connections - 1)
open_round connections accepted = (true, connections + 1)
open_round connections (accept_failed stop) = (not stop, connections)

unfoldable pub serve_round : ℕ → ℕ → ℕ → ServeEvent → Bool × ℕ
serve_round max_connections ended connections event =
    let open_now = reap ended connections in
    if leb max_connections open_now then full_round open_now event else open_round open_now event

-- The loop, on the events of its rounds: the tasks after every round, and those at the end.
unfoldable pub serve_loop : ℕ → ℕ → List (ℕ × ServeEvent) → List ℕ × ℕ
unfolding serve_round
serve_loop max_connections connections [] = ([], connections)
serve_loop max_connections connections ((ended, event) ∷ rounds) =
    let round = serve_round max_connections ended connections event in
    let (counts, final) = serve_loop max_connections round.1 rounds in
    if round.0 then (round.1 ∷ counts, final) else (round.1 ∷ [], round.1)

-- `drain_connections`: `true` for a task that is joined before the deadline, `false` for the deadline,
-- after which the tasks are aborted; those that are left are joined one by one.
unfoldable pub join_rest : ℕ → ℕ
join_rest zero = zero
join_rest (suc connections) = join_rest connections

unfoldable pub drain_connections : ℕ → List Bool → Option ℕ
unfolding join_rest
drain_connections zero events = some (join_rest zero)
drain_connections (suc connections) [] = none
drain_connections (suc connections) (true ∷ events) = drain_connections connections events
drain_connections (suc connections) (false ∷ events) = some (join_rest (suc connections))

full_round-bound : (n limit : ℕ) (event : ServeEvent) → n ≤ limit → (full_round n event).1 ≤ limit
full_round-bound n limit shutdown h = h
full_round-bound n limit joined h = omega (arith, h)
full_round-bound n limit accepted h = h
full_round-bound n limit (accept_failed stop) h = h

open_round-bound : (n limit : ℕ) (event : ServeEvent) → n < limit → (open_round n event).1 ≤ limit
open_round-bound n limit shutdown h = omega (arith, h)
open_round-bound n limit joined h = omega (arith, h)
open_round-bound n limit accepted h = omega (arith, h)
open_round-bound n limit (accept_failed stop) h = omega (arith, h)

serve_round-bound :
    (max_connections ended connections : ℕ) (event : ServeEvent)
    → connections ≤ max_connections
    → (serve_round max_connections ended connections event).1 ≤ max_connections
unfolding serve_round
serve_round-bound max_connections ended connections event h =
    elim (Bool-cases (leb max_connections (connections - ended))) [
      | inl e ↦
          rw (e, serve_round)
            (full_round-bound (connections - ended) max_connections event (omega (arith, h)))
      | inr e ↦
          rw (e, serve_round)
            (open_round-bound (connections - ended) max_connections event
              (leb_false→lt max_connections (connections - ended) e))
    ]

join_rest-eq-zero : (connections : ℕ) → join_rest connections ≡ 0
unfolding join_rest
join_rest-eq-zero zero = refl
join_rest-eq-zero (suc connections) = join_rest-eq-zero connections

-- Whatever tasks are joined before the deadline, the drain is over when the deadline has come, and no
-- task is left.
pub drain_connections-ends :
    (connections : ℕ) (events : List Bool)
    → drain_connections connections (events ++ (false ∷ [])) ≡ some 0
unfolding drain_connections
drain_connections-ends zero [] = refl
drain_connections-ends zero (event ∷ events) = refl
drain_connections-ends (suc connections) [] = ap some (join_rest-eq-zero (suc connections))
drain_connections-ends (suc connections) (true ∷ events) = drain_connections-ends connections events
drain_connections-ends (suc connections) (false ∷ events) =
    ap some (join_rest-eq-zero (suc connections))

-- A server that starts with no more tasks than its limit never has more after a round of its loop,
-- whatever the events of the rounds are and however many tasks end between them.
pub serve_loop-bound :
    (max_connections connections : ℕ) (rounds : List (ℕ × ServeEvent))
    → connections ≤ max_connections
    → All (λ n. n ≤ max_connections) (serve_loop max_connections connections rounds).0
unfolding serve_loop
serve_loop-bound max_connections connections [] h = tt
serve_loop-bound max_connections connections ((ended, event) ∷ rounds) h =
    let bound = serve_round-bound max_connections ended connections event h in
    let later =
      serve_loop-bound max_connections (serve_round max_connections ended connections event).1
        rounds bound in
    elim (Bool-cases (serve_round max_connections ended connections event).0) [
      | inl e ↦ rw (e, serve_loop) (bound, later)
      | inr e ↦ rw (e, serve_loop) (bound, tt)
    ]
