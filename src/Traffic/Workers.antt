-- ===== src/Traffic/Workers.antt =====
-- The workers of the traffic generator (cmd/traffic/main.go): each takes the next number until the
-- attempts or the time are used up.
use edgelab.Listener.Slots.{open_count, open_count-let_go}
use edgelab.Listener.{is_held, let_go}
use edgelab.Shared.{
  Bool, Bool-cases, List, [], arith, if◌then◌else◌, inl, inr, ltb, not, subst, ℕ, ◌+◌, ◌-◌, ◌||◌,
  ◌∷◌, ◌≡◌, ◌≤◌,
}

-- The shared counter, which workers still run, and the numbers requested, the last one first.
pub record Pool : Type 0 where
  pub next : ℕ
  pub running : List Bool
  pub requested : List ℕ

-- A turn: the n-th worker goes on, and whether the duration has passed by then.
pub record Turn : Type 0 where
  pub worker : ℕ
  pub is_late : Bool

-- next.Add(1), and a return or a request. A worker that has returned does nothing.
unfoldable pub take_turn : ℕ → Turn → Pool → Pool
take_turn count turn p =
    if not (is_held turn.worker p.running)
    then p
    else if ltb count (p.next + 1) || turn.is_late
    then record p { next = p.next + 1; running = let_go turn.worker p.running }
    else record p { next = p.next + 1; requested = (p.next + 1) ∷ p.requested }

unfoldable pub take_turns : ℕ → List Turn → Pool → Pool
take_turns count [] p = p
take_turns count (turn ∷ rest) p = take_turns count rest (take_turn count turn p)

-- The turns of workers that run.
abbrev pub effective : ℕ → List Turn → Pool → ℕ
effective count [] p = 0
effective count (turn ∷ rest) p =
    (if is_held turn.worker p.running then 1 else 0) + effective count rest (take_turn count turn p)

-- Each number is below the one before it in the list, and lies from 1 to the bound.
abbrev pub IsDescending : ℕ → List ℕ → Type 0
IsDescending bound [] = Unit
IsDescending bound (id ∷ rest) = (1 ≤ id) × (id ≤ bound) × IsDescending (id - 1) rest

-- Every number requested is at most the counter, and requested once.
pub record IsFresh (count : ℕ) (p : Pool) : Type 0 where
  pub within : IsDescending p.next p.requested
  pub bounded : IsDescending count p.requested

IsDescending-le : (a b : ℕ) (ids : List ℕ) → a ≤ b → IsDescending a ids → IsDescending b ids
IsDescending-le a b [] le h = tt
IsDescending-le a b (id ∷ rest) le (one, fits, h) = (one, omega arith, h)

take_turn-IsFresh :
    (count : ℕ) (turn : Turn) (p : Pool) → IsFresh count p → IsFresh count (take_turn count turn p)
unfolding take_turn
take_turn-IsFresh count turn p h =
    let later = IsDescending-le p.next (p.next + 1) p.requested (omega arith) h.within in
    elim (Bool-cases (is_held turn.worker p.running)) [
      | inr idle ↦
          let same : p ≡ take_turn count turn p = ground arith in subst (IsFresh count) same h
      | inl runs ↦ elim (Bool-cases (ltb count (p.next + 1) || turn.is_late)) [
        | inl over ↦
            let same : record p { next = p.next + 1; running = let_go turn.worker p.running }
                ≡ take_turn count turn p =
              ground arith in
            subst (IsFresh count) same (record { within = later; bounded = h.bounded })
        | inr goes_on ↦
            let same : record p { next = p.next + 1; requested = (p.next + 1) ∷ p.requested }
                ≡ take_turn count turn p =
              ground arith in
            let below : IsDescending (p.next + 1 - 1) p.requested =
              IsDescending-le p.next (p.next + 1 - 1) p.requested (omega arith) h.within in
            subst (IsFresh count) same (record {
              within = (omega arith, omega arith, below);
              bounded = (omega arith, ground arith, below);
            })
      ]
    ]

-- However the workers' turns come, the numbers requested stay distinct, from 1 to the count and at
-- most the counter, if they were so.
take_turns-IsFresh :
    (count : ℕ) (turns : List Turn) (p : Pool)
    → IsFresh count p
    → IsFresh count (take_turns count turns p)
unfolding take_turns
take_turns-IsFresh count [] p h = h
take_turns-IsFresh count (turn ∷ rest) p h =
    take_turns-IsFresh count rest (take_turn count turn p) (take_turn-IsFresh count turn p h)

-- The attempts that are left, and the workers that run.
abbrev pub budget : ℕ → Pool → ℕ
budget count p = (count - p.next) + open_count p.running

take_turn-budget :
    (count : ℕ) (turn : Turn) (p : Pool)
    → (if is_held turn.worker p.running then 1 else 0) + budget count (take_turn count turn p)
      ≤ budget count p
unfolding take_turn
take_turn-budget count turn p = ground (arith, open_count-let_go turn.worker p.running)

-- However the workers' turns come, those that running workers take are at most as many as there are
-- attempts left and workers that run.
pub effective-le-budget :
    (count : ℕ) (turns : List Turn) (p : Pool) → effective count turns p ≤ budget count p
effective-le-budget count [] p = omega arith
effective-le-budget count (turn ∷ rest) p =
    omega (
      arith,
      take_turn-budget count turn p,
      effective-le-budget count rest (take_turn count turn p),
    )
