-- ===== src/Recovery/Origins.antt =====
-- A recovery invents no instance (cmd/worker/recover.go).
use mathlib.Core.Path.{subst₂}
use edgelab.Recovery.Quarantine.{reconciled, lookup-reconcile_backup}
use edgelab.Recovery.Prepared.{prepare-Prepared, carry_deletion-Dominates}
use edgelab.Shared.Outcome.{ok}
use edgelab.Recovery.{carry_deletion, join, prepare}
use edgelab.Registry.{RouteRecord, RouteSnapshot}
use mathlib.Core.List.{Memᴰ}
use edgelab.Shared.Table.{HasDistinctKeys, Table, lookup}
use edgelab.Shared.{
  Bool-cases, List, Option, String, [], arith, inl, inr, ltb, refl, some, ◌∷◌, ◌≡◌, none, sym,
}
use edgelab.Recovery.Sources.{AllEntries, AllOwners, AllRecords-merge_owners}

-- Some router has an accepted record of the instance under the application and endpoint.
abbrev pub IsAccepted : List RouteSnapshot → String → String → String → Type 0
IsAccepted accepted k app endpoint =
    (o : RouteSnapshot) × Memᴰ o accepted
    × ((r : RouteRecord) × Memᴰ (k, r) o.records × (r.app ≡ app) × (r.endpoint ≡ endpoint))

all_entries :
    (P : String → RouteRecord → Type 0) (m : Table RouteRecord)
    → ((k : String) (r : RouteRecord) → Memᴰ (k, r) m → P k r)
    → AllEntries P m
all_entries P [] h = tt
all_entries P ((k, r) ∷ m) h =
    (h k r (Memᴰ.head refl), all_entries P m (λ j q e. h j q (Memᴰ.tail e)))

all_owners :
    (P : String → RouteRecord → Type 0) (owners : List RouteSnapshot)
    → ((o : RouteSnapshot)
        → Memᴰ o owners
        → (k : String) (r : RouteRecord) → Memᴰ (k, r) o.records
        → P k r)
    → AllOwners P owners
all_owners P [] h = tt
all_owners P (o ∷ rest) h =
    (all_entries P o.records (h o (Memᴰ.head refl)), all_owners P rest (λ x m. h x (Memᴰ.tail m)))

pub join_identity :
    (Q : String → String → Type 0) (old r : RouteRecord)
    → Q old.app old.endpoint
    → Q r.app r.endpoint
    → Q (join old r).app (join old r).endpoint
unfolding join
join_identity Q old r hold hr = elim (Bool-cases (ltb old.revision r.revision)) [
  | inl e ↦ rw e hr
  | inr e ↦ rw e (elim (Bool-cases r.deleted) [ inl d ↦ rw d hold | inr d ↦ rw d hold ])
]

reconciled_identity :
    (Q : String → String → Type 0) (old : Option RouteRecord) (acc : Option RouteRecord)
    (a : RouteRecord)
    → ((x : RouteRecord) → acc ≡ some x → Q x.app x.endpoint)
    → reconciled old acc ≡ some a
    → Q a.app a.endpoint
unfolding carry_deletion
reconciled_identity Q none acc a h e = h a e
reconciled_identity Q (some old) none a h e = absurd (ground arith)
reconciled_identity Q (some old) (some x) a h e =
    let d = carry_deletion-Dominates old x a e in
    subst₂ Q (sym d.app_kept) (sym d.endpoint_kept) (h x refl)

-- Where the backup has each key once, every instance of a recovered snapshot is one that a router has accepted under that application
-- and endpoint: the backup adds none.
pub recovered-IsAccepted :
    (backup : RouteSnapshot) (accepted : List RouteSnapshot) (s : RouteSnapshot)
    (quarantined : Table RouteRecord) (k : String) (a : RouteRecord)
    → prepare backup accepted ≡ ok (s, quarantined)
    → HasDistinctKeys backup.records
    → lookup k s.records ≡ some a
    → IsAccepted accepted k a.app a.endpoint
unfolding lookup
recovered-IsAccepted backup accepted s quarantined k a h distinct found =
    let (merged, p) = prepare-Prepared backup accepted s quarantined h in
    let all =
      AllRecords-merge_owners (λ j r. IsAccepted accepted j r.app r.endpoint)
        (λ j old r po pr same. join_identity (IsAccepted accepted j) old r po pr) _ merged accepted
        (λ j r e. absurd (ground arith))
        (all_owners _ accepted (λ o m j r e. (o, m, (r, e, refl, refl)))) p.merges in
    let there = (lookup-reconcile_backup k merged.records [] backup.records distinct).0 in
    reconciled_identity (IsAccepted accepted k) (lookup k backup.records) (lookup k merged.records)
      a (all k) (ground (arith, p.records_are, there))
