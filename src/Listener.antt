-- ===== src/Listener.antt =====
-- The management server's listener (cmd/worker/serve.go): a connection holds one of 32 slots until
-- it is closed, and gives it back once.
pub mod Slots
use edgelab.Shared.{
  Bool, List, Option, [], false, if◌then◌else◌, ltb, none, some, suc, true, zero, ℕ, ◌++◌, ◌+◌, ◌-◌,
  ◌∷◌,
}

-- make(chan struct{}, 32)
abbrev pub max_connections : ℕ
max_connections = 32

-- workerListener with the connections that it has accepted, in their order: whether the release of
-- each is yet to be done.
pub record WorkerListener : Type 0 where
  pub slots : ℕ
  pub holds : List Bool

-- A connection arrives, or the n-th accepted one is closed, which may happen to it more than once.
pub data Event : Type 0 where
  arrive : Event
  close_of : ℕ → Event

-- The connection is accepted if a slot is free, and is closed at once if none is.
unfoldable pub accept : WorkerListener → Option WorkerListener
accept l =
    if ltb l.slots max_connections
    then some (record { slots = l.slots + 1; holds = l.holds ++ true ∷ [] })
    else none

unfoldable pub is_held : ℕ → List Bool → Bool
is_held n [] = false
is_held zero (held ∷ rest) = held
is_held (suc n) (held ∷ rest) = is_held n rest

unfoldable pub let_go : ℕ → List Bool → List Bool
let_go n [] = []
let_go zero (held ∷ rest) = false ∷ rest
let_go (suc n) (held ∷ rest) = held ∷ let_go n rest

-- workerConnection.Close: once.Do(release), which takes one out of the channel.
unfoldable pub close : ℕ → WorkerListener → WorkerListener
close n l =
    if is_held n l.holds then record { slots = l.slots - 1; holds = let_go n l.holds } else l

unfoldable pub on_event : Event → WorkerListener → WorkerListener
unfolding accept close
on_event arrive l = elim (accept l) [ none ↦ l | some next ↦ next ]
on_event (close_of n) l = close n l

unfoldable pub on_events : List Event → WorkerListener → WorkerListener
on_events [] l = l
on_events (event ∷ rest) l = on_events rest (on_event event l)
