-- ===== src/Recovery/Numbers.antt =====
-- The incarnation and the revision of a recovered snapshot (cmd/worker/recover.go).
use edgelab.Recovery.{merge_owner, merge_owners, merge_records, raise_to}
use edgelab.Registry.{RouteSnapshot}
use edgelab.Shared.Outcome.{Outcome-cases, ok}
use mathlib.Core.List.{Memᴰ}
use edgelab.Shared.{List, [], arith, inl, inr, ◌∙◌, ◌∷◌, ◌≡◌, ◌≤◌}

-- `s` is numbered no lower than `o`.
pub record IsAtLeast (s o : RouteSnapshot) : Type 0 where
  pub incarnation_reached : o.incarnation ≤ s.incarnation
  pub revision_reached : o.revision ≤ s.revision

merge_owner-IsAtLeast :
    (merged merged' accepted : RouteSnapshot)
    → merge_owner merged accepted ≡ ok merged'
    → IsAtLeast merged' merged × IsAtLeast merged' accepted × (merged'.owner ≡ merged.owner)
unfolding merge_owner raise_to
merge_owner-IsAtLeast merged merged' accepted h =
    elim (Outcome-cases (merge_records merged.records accepted.records)) [
      | inr (x, e) ↦ absurd (ground arith)
      | inl (records, e) ↦ ground arith
    ]

IsAtLeast-owners :
    (merged next first : RouteSnapshot) (rest : List RouteSnapshot)
    → IsAtLeast merged next
    → IsAtLeast next first
    → ((o : RouteSnapshot) → Memᴰ o rest → IsAtLeast merged o)
    → (o : RouteSnapshot) → Memᴰ o (first ∷ rest)
    → IsAtLeast merged o
IsAtLeast-owners merged next first rest still taken others o (Memᴰ.head e) = ground arith
IsAtLeast-owners merged next first rest still taken others o (Memᴰ.tail m) = others o m

-- The merge is numbered no lower than what it starts from and than every account.
pub merge_owners-IsAtLeast :
    (merged merged' : RouteSnapshot) (owners : List RouteSnapshot)
    → merge_owners merged owners ≡ ok merged'
    → IsAtLeast merged' merged
      × ((o : RouteSnapshot) → Memᴰ o owners → IsAtLeast merged' o)
      × (merged'.owner ≡ merged.owner)
unfolding merge_owners
merge_owners-IsAtLeast merged merged' [] h = (ground arith, λ o m. elim m [ ], ground arith)
merge_owners-IsAtLeast merged merged' (first ∷ rest) h =
    elim (Outcome-cases (merge_owner merged first)) [
      | inr (x, e) ↦ absurd (ground arith)
      | inl (next, e) ↦
          let (kept, taken, owner) = merge_owner-IsAtLeast merged next first e in
          let (still, others, owner') = merge_owners-IsAtLeast next merged' rest (ground arith) in
          (
            ground arith,
            IsAtLeast-owners merged' next first rest still taken others,
            owner' ∙ owner,
          )
    ]
