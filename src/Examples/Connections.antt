-- ===== src/Examples/Connections.antt =====
-- Connections that arrive at the listener and are closed.
use edgelab.Shared.{List, [], arith, false, refl, true, ◌∷◌, ◌≡◌}
use edgelab.Listener.Slots.{IsCounted, on_events-IsCounted}
use edgelab.Listener.{
  Event, WorkerListener, accept, arrive, close, close_of, is_held, let_go, on_event, on_events,
}

abbrev started : WorkerListener
started = record { slots = 0; holds = [] }

abbrev visits : List Event
visits = arrive ∷ arrive ∷ close_of 0 ∷ close_of 0 ∷ arrive ∷ []

two_are_open : on_events visits started ≡ record { slots = 2; holds = false ∷ true ∷ true ∷ [] }
unfolding on_events on_event accept close is_held let_go
two_are_open = refl

on_events-IsCounted_example : IsCounted (on_events visits started)
on_events-IsCounted_example = on_events-IsCounted visits started (refl, omega arith)
