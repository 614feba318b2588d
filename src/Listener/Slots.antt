-- ===== src/Listener/Slots.antt =====
-- The slots of the management server's listener (cmd/worker/serve.go).
use edgelab.Listener.{
  Event, WorkerListener, accept, arrive, close, close_of, is_held, let_go, max_connections,
  on_event, on_events,
}
use edgelab.Shared.{
  Bool, List, [], arith, false, if◌then◌else◌, none, refl, suc, true, zero, ℕ, ◌++◌, ◌↔◌, ◌∷◌, ◌≡◌,
  ◌≤◌,
}

-- The connections that hold a slot.
abbrev pub open_count : List Bool → ℕ
open_count [] = 0
open_count (held ∷ rest) = if held then suc (open_count rest) else open_count rest

-- The slots taken are those of the open connections, and are at most 32.
abbrev pub IsCounted : WorkerListener → Type 0
IsCounted l = (l.slots ≡ open_count l.holds) × (l.slots ≤ max_connections)

open_count-append : (holds : List Bool) → open_count (holds ++ true ∷ []) ≡ suc (open_count holds)
open_count-append [] = refl
open_count-append (held ∷ rest) = ground (arith, open_count-append rest)

pub open_count-let_go :
    (n : ℕ) (holds : List Bool)
    → is_held n holds ≡ true
    → suc (open_count (let_go n holds)) ≡ open_count holds
unfolding is_held let_go
open_count-let_go n [] h = ground arith
open_count-let_go zero (held ∷ rest) h = ground arith
open_count-let_go (suc n) (held ∷ rest) h = ground (arith, open_count-let_go n rest)

is_held-let_go : (n : ℕ) (holds : List Bool) → is_held n (let_go n holds) ≡ false
unfolding is_held let_go
is_held-let_go n [] = refl
is_held-let_go zero (held ∷ rest) = refl
is_held-let_go (suc n) (held ∷ rest) = is_held-let_go n rest

on_event-IsCounted :
    (event : Event) (l : WorkerListener) → IsCounted l → IsCounted (on_event event l)
unfolding on_event accept close
on_event-IsCounted arrive l counted = ground (arith, open_count-append l.holds)
on_event-IsCounted (close_of n) l counted = ground (arith, open_count-let_go n l.holds)

-- Whatever connections arrive and are closed, in any order and however often each is closed, the
-- slots taken stay those of the open connections, and at most 32.
pub on_events-IsCounted :
    (events : List Event) (l : WorkerListener) → IsCounted l → IsCounted (on_events events l)
unfolding on_events
on_events-IsCounted [] l counted = counted
on_events-IsCounted (event ∷ rest) l counted =
    on_events-IsCounted rest (on_event event l) (on_event-IsCounted event l counted)

-- To close a connection again changes nothing.
close_once : (n : ℕ) (l : WorkerListener) → close n (close n l) ≡ close n l
unfolding close
close_once n l = ground (arith, is_held-let_go n l.holds)

-- After any events, where the slots taken were first those of the open connections and at most 32, a
-- connection is turned away exactly when 32 are open.
accept_refused_iff :
    (events : List Event) (l : WorkerListener)
    → IsCounted l
    → accept (on_events events l) ≡ none ↔ open_count (on_events events l).holds ≡ 32
unfolding accept
accept_refused_iff events l counted =
    let now = on_events-IsCounted events l counted in (λ h. ground arith, λ h. ground arith)
