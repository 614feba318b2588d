-- ===== src/Recovery/Progress.antt =====
-- When a recovery can be prepared (cmd/worker/recover.go).
use edgelab.Recovery.Origins.{join_identity}
use edgelab.Shared.Outcome.{ok}
use edgelab.Recovery.{
  join, merge_record, same_identity, advance, merge_owner, merge_owners, merge_records, prepare,
  raise_to, reconcile_backup,
}
use edgelab.Shared.Table.{Table, insert, lookup}
use edgelab.Registry.{RouteRecord, RouteSnapshot, max_revision, u64}
use edgelab.Shared.{
  List, Option-cases, String, [], arith, inl, inr, ◌<◌, ◌∷◌, ◌≡◌, eq_iff, refl, true, ◌+◌,
}
use edgelab.Recovery.Sources.{
  AllOwners, AllRecords, AllEntries, AllRecords-merge_owner, AllRecords-merge_record,
}

-- No account has an incarnation or a revision at the maximum.
abbrev pub HasRoom : List RouteSnapshot → Type 0
HasRoom [] = Unit
HasRoom (o ∷ rest) = ((o.incarnation < max_revision) × (o.revision < max_revision)) × HasRoom rest

module _ (app endpoint : String → String) where
  abbrev IsNamed : String → RouteRecord → Type 0
  IsNamed k r = (r.app ≡ app k) × (r.endpoint ≡ endpoint k)

  join-IsNamed :
      (k : String) (old r : RouteRecord)
      → IsNamed k old
      → IsNamed k r
      → same_identity old r ≡ true
      → IsNamed k (join old r)
  join-IsNamed k old r named named' same =
      join_identity (λ x y. (x ≡ app k) × (y ≡ endpoint k)) old r named named'

  merge_record_total :
      (merged : Table RouteRecord) (id : String) (r : RouteRecord)
      → AllRecords IsNamed merged
      → IsNamed id r
      → (merged' : Table RouteRecord) × (merge_record merged id r ≡ ok merged')
  unfolding merge_record same_identity
  merge_record_total merged id r all named = elim (Option-cases (lookup id merged)) [
    | inl e ↦ (insert id r merged, ground arith)
    | inr (old, e) ↦
        let before = all id old e in
        (
          insert id (join old r) merged,
          ground (arith, eq_iff old.app r.app, eq_iff old.endpoint r.endpoint),
        )
  ]

  merge_records_total :
      (merged t : Table RouteRecord)
      → AllRecords IsNamed merged
      → AllEntries IsNamed t
      → (merged' : Table RouteRecord) × (merge_records merged t ≡ ok merged')
  unfolding merge_records
  merge_records_total merged [] all named = (merged, refl)
  merge_records_total merged ((id, r) ∷ rest) all named =
      let (next, e) = merge_record_total merged id r all named.0 in
      let kept = AllRecords-merge_record IsNamed join-IsNamed merged next id r all named.0 e in
      let (last, e') = merge_records_total next rest kept named.1 in (last, rw e e')

  merge_owner_total :
      (merged accepted : RouteSnapshot)
      → AllRecords IsNamed merged.records
      → AllEntries IsNamed accepted.records
      → (merged' : RouteSnapshot) × (merge_owner merged accepted ≡ ok merged')
        × (merged.incarnation < max_revision
            → accepted.incarnation < max_revision
            → merged'.incarnation < max_revision)
        × (merged.revision < max_revision
            → accepted.revision < max_revision
            → merged'.revision < max_revision)
  unfolding merge_owner raise_to
  merge_owner_total merged accepted all named =
      let (records, e) = merge_records_total merged.records accepted.records all named in
      (
        record merged {
          incarnation = raise_to merged.incarnation accepted.incarnation;
          revision = raise_to merged.revision accepted.revision;
          records = records;
        },
        rw e,
        λ h h'. ground arith,
        λ h h'. ground arith,
      )

  merge_owners_total :
      (merged : RouteSnapshot) (accepted : List RouteSnapshot)
      → AllRecords IsNamed merged.records
      → AllOwners IsNamed accepted
      → merged.incarnation < max_revision
      → merged.revision < max_revision
      → HasRoom accepted
      → (merged' : RouteSnapshot) × (merge_owners merged accepted ≡ ok merged')
        × (merged'.incarnation < max_revision)
        × (merged'.revision < max_revision)
  unfolding merge_owners
  merge_owners_total merged [] all named i r room = (merged, refl, i, r)
  merge_owners_total merged (first ∷ rest) all named i r room =
      let (next, e, keeps_i, keeps_r) = merge_owner_total merged first all named.0 in
      let kept = AllRecords-merge_owner IsNamed join-IsNamed merged next first all named.0 e in
      let (last, e', i', r') =
        merge_owners_total next rest kept named.1 (keeps_i i room.0.0) (keeps_r r room.0.1)
          room.1 in
      (last, rw e e', i', r')

  -- Where all accounts give each instance one application and endpoint, and no number is at its
  -- maximum, the recovery is prepared, whatever the backup's records say.
  pub prepare_total :
      (backup : RouteSnapshot) (accepted : List RouteSnapshot)
      → AllOwners (λ k r. (r.app ≡ app k) × (r.endpoint ≡ endpoint k)) accepted
      → backup.incarnation < max_revision
      → backup.revision < max_revision
      → HasRoom accepted
      → (s : RouteSnapshot) × (quarantined : Table RouteRecord) × (prepare backup accepted
          ≡ ok (s, quarantined))
  unfolding prepare advance lookup
  prepare_total backup accepted named i r room =
      let (merged, e, i', r') =
        merge_owners_total (record backup { schema = 1; records = [] }) accepted
          (λ k q h. absurd (ground arith)) named i r room in
      let (records, quarantined) = reconcile_backup merged.records [] backup.records in
      (
        record merged {
          incarnation = u64 (merged.incarnation + 1);
          revision = u64 (merged.revision + 1);
          records = records;
        },
        quarantined,
        rw e (ground arith),
      )
