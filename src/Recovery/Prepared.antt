-- ===== src/Recovery/Prepared.antt =====
-- What a prepared recovery promises (cmd/worker/recover.go): the routers' accounts kept, the backup
-- put in its place, and numbers above all that any router has seen.
use edgelab.Recovery.Quarantine.{lookup-reconcile_backup, reconciled, set_aside}
use edgelab.Recovery.Merge.{Covers, Dominates, Dominates-refl, Dominates-trans, merge_owners-Covers}
use edgelab.Recovery.Numbers.{merge_owners-IsAtLeast}
use edgelab.Recovery.{
  advance, merge_owners, prepare, reconcile_backup, carry_deletion, raise_to, same_identity,
  is_quarantined,
}
use edgelab.Shared.Table.{Table, HasDistinctKeys, lookup}
use edgelab.Registry.{RouteRecord, RouteSnapshot, max_revision}
use edgelab.Shared.Outcome.{Outcome-cases, ok}
use mathlib.Core.List.{Memᴰ}
use edgelab.Shared.{
  List, [], arith, inl, inr, ◌+◌, ◌<◌, ◌∙◌, ◌≡◌, ◌≤◌, Bool-cases, Option, String, none, refl, some,
  true, ◌&&◌, ◌↔◌, eq_iff, false,
}

-- The parts of a successful preparation.
pub record Prepared (backup : RouteSnapshot) (accepted : List RouteSnapshot) (s : RouteSnapshot)
    (quarantined : Table RouteRecord) (merged : RouteSnapshot) : Type 0 where
  pub merges : merge_owners (record backup { schema = 1; records = [] }) accepted ≡ ok merged
  pub incarnation_room : merged.incarnation < max_revision
  pub revision_room : merged.revision < max_revision
  pub owner_same : s.owner ≡ merged.owner
  pub incarnation_next : s.incarnation ≡ merged.incarnation + 1
  pub revision_next : s.revision ≡ merged.revision + 1
  pub records_are : s.records ≡ (reconcile_backup merged.records [] backup.records).0
  pub quarantine_is : quarantined ≡ (reconcile_backup merged.records [] backup.records).1

pub prepare-Prepared :
    (backup : RouteSnapshot) (accepted : List RouteSnapshot) (s : RouteSnapshot)
    (quarantined : Table RouteRecord)
    → prepare backup accepted ≡ ok (s, quarantined)
    → (merged : RouteSnapshot) × Prepared backup accepted s quarantined merged
unfolding prepare advance
prepare-Prepared backup accepted s quarantined h =
    elim (Outcome-cases (merge_owners (record backup { schema = 1; records = [] }) accepted)) [
      | inr (x, e) ↦ absurd (ground arith)
      | inl (merged, e) ↦ (merged, ground arith)
    ]

module _ (backup : RouteSnapshot) (accepted : List RouteSnapshot) (s : RouteSnapshot)
    (quarantined : Table RouteRecord) (h : prepare backup accepted ≡ ok (s, quarantined)) where
  -- The recovered snapshot has an incarnation and a revision above the backup's and above every
  -- router's, neither passes the maximum, and it has the backup's owner.
  pub prepare-exceeds :
      (backup.incarnation < s.incarnation)
      × (backup.revision < s.revision)
      × (s.incarnation ≤ max_revision)
      × (s.revision ≤ max_revision)
      × (s.owner ≡ backup.owner)
      × ((o : RouteSnapshot)
          → Memᴰ o accepted
          → (o.incarnation < s.incarnation) × (o.revision < s.revision))
  prepare-exceeds =
      let (merged, p) = prepare-Prepared backup accepted s quarantined h in
      let (start, accounts, owner) = merge_owners-IsAtLeast _ merged accepted p.merges in
      (
        omega (arith, p.incarnation_next, start.incarnation_reached),
        omega (arith, p.revision_next, start.revision_reached),
        omega (arith, p.incarnation_next, p.incarnation_room),
        omega (arith, p.revision_next, p.revision_room),
        p.owner_same ∙ owner,
        λ o m. (
          omega (arith, p.incarnation_next, (accounts o m).incarnation_reached),
          omega (arith, p.revision_next, (accounts o m).revision_reached),
        ),
      )

pub carry_deletion-Dominates :
    (old a b : RouteRecord) → carry_deletion old (some a) ≡ some b → Dominates b a
unfolding carry_deletion raise_to
carry_deletion-Dominates old a b h = ground arith

carry_deletion-same :
    (old a : RouteRecord) → (b : RouteRecord) × (carry_deletion old (some a) ≡ some b)
unfolding carry_deletion
carry_deletion-same old a = elim (Bool-cases (old.deleted && same_identity a old)) [
  | inl e ↦ (record a { deleted = true; revision = raise_to a.revision old.revision }, ground arith)
  | inr e ↦ (a, ground arith)
]

reconciled-Dominates :
    (old : Option RouteRecord) (a : RouteRecord)
    → (b : RouteRecord) × (reconciled old (some a) ≡ some b) × Dominates b a
reconciled-Dominates none a = (a, refl, Dominates-refl a)
reconciled-Dominates (some old) a =
    let (b, e) = carry_deletion-same old a in (b, e, carry_deletion-Dominates old a b e)

stays_out :
    (old : RouteRecord) (acc : Option RouteRecord)
    → is_quarantined old (carry_deletion old acc) ≡ false
    → (a : RouteRecord) × (carry_deletion old acc ≡ some a)
      × (a.app ≡ old.app)
      × (a.endpoint ≡ old.endpoint)
      × (a.deleted ≡ old.deleted)
unfolding is_quarantined carry_deletion same_identity
stays_out old none h = cc
stays_out old (some x) h =
    let (a, e) = carry_deletion-same old x in
    (
      a,
      e,
      ground (arith, eq_iff old.app x.app, eq_iff x.app old.app),
      ground (arith, eq_iff old.endpoint x.endpoint, eq_iff x.endpoint old.endpoint),
      ground (
        arith,
        eq_iff old.app x.app,
        eq_iff x.app old.app,
        eq_iff old.endpoint x.endpoint,
        eq_iff x.endpoint old.endpoint,
      ),
    )

kept_out :
    (old : RouteRecord) (acc : Option RouteRecord) (a : RouteRecord)
    → carry_deletion old acc ≡ some a
    → a.app ≡ old.app
    → a.endpoint ≡ old.endpoint
    → a.deleted ≡ old.deleted
    → is_quarantined old (carry_deletion old acc) ≡ false
unfolding is_quarantined same_identity
kept_out old acc a e app endpoint deleted =
    rw e (ground (arith, eq_iff old.app a.app, eq_iff old.endpoint a.endpoint))

module _ (backup : RouteSnapshot) (accepted : List RouteSnapshot) (s : RouteSnapshot)
    (quarantined : Table RouteRecord) (h : prepare backup accepted ≡ ok (s, quarantined))
    (distinct : HasDistinctKeys backup.records) where
  -- Nothing that a router has accepted is lost: where the backup has each key once, the recovered
  -- snapshot has each such instance under
  -- the same application and endpoint, at no lower revision, and deleted if any router had it so.
  pub prepare-Covers : (o : RouteSnapshot) → Memᴰ o accepted → Covers s.records o.records
  prepare-Covers o m k r hr =
      let (merged, p) = prepare-Prepared backup accepted s quarantined h in
      let (a, ha, da) = (merge_owners-Covers _ merged accepted p.merges).1 o m k r hr in
      let (b, hb, db) = reconciled-Dominates (lookup k backup.records) a in
      (
        b,
        ground (
          arith,
          p.records_are,
          (lookup-reconcile_backup k merged.records [] backup.records distinct).0,
        ),
        Dominates-trans db da,
      )

  pub lookup-recovered :
      (k : String)
      → (accepted_record : Option RouteRecord) × (lookup k s.records
          ≡ reconciled (lookup k backup.records) accepted_record)
        × (lookup k quarantined ≡ set_aside (lookup k backup.records) accepted_record none)
  unfolding lookup
  lookup-recovered k =
      let (merged, p) = prepare-Prepared backup accepted s quarantined h in
      let (there, aside) = lookup-reconcile_backup k merged.records [] backup.records distinct in
      (
        lookup k merged.records,
        ground (arith, p.records_are, there),
        ground (arith, p.quarantine_is, aside),
      )

  -- Where the backup has each key once, a record of it stays out of the quarantine exactly when the recovered snapshot has the
  -- instance under the same application and endpoint, and deleted just as the backup has it.
  pub prepare-quarantine_iff :
      (k : String) (old : RouteRecord)
      → lookup k backup.records ≡ some old
      → (lookup k quarantined ≡ none) ↔ (
          (a : RouteRecord) × (lookup k s.records ≡ some a)
          × (a.app ≡ old.app)
          × (a.endpoint ≡ old.endpoint)
          × (a.deleted ≡ old.deleted))
  prepare-quarantine_iff k old known =
      let (acc, there, aside) = lookup-recovered k in
      let kept : lookup k s.records ≡ carry_deletion old acc = ground (arith, there) in
      (
        λ out.
            let (a, e, app, endpoint, deleted) = stays_out old acc (ground (arith, aside)) in
            (a, kept ∙ e, app, endpoint, deleted),
        λ (a, e, app, endpoint, deleted). ground (arith, aside, kept, kept_out old acc a),
      )
