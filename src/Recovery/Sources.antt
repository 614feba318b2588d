-- ===== src/Recovery/Sources.antt =====
-- Where the records of a recovered snapshot come from (cmd/worker/recover.go).
use edgelab.Recovery.{join, merge_owner, merge_owners, merge_record, merge_records, same_identity}
use edgelab.Shared.Table.{Table, insert, lookup, lookup-insert}
use edgelab.Registry.{RouteRecord, RouteSnapshot}
use edgelab.Shared.Outcome.{Outcome-cases, ok}
use edgelab.Shared.{
  Bool-cases, List, Option-cases, String, [], arith, eq_iff, inl, inr, some, str_eq, subst, true,
  ◌∷◌, ◌≡◌,
}

-- `P` holds of every entry; of every record that the table has.
abbrev pub AllEntries : (String → RouteRecord → Type 0) → Table RouteRecord → Type 0
AllEntries P [] = Unit
AllEntries P ((k, r) ∷ m) = P k r × AllEntries P m

abbrev pub AllRecords : (String → RouteRecord → Type 0) → Table RouteRecord → Type 0
AllRecords P m = (k : String) (r : RouteRecord) → lookup k m ≡ some r → P k r

abbrev pub AllOwners : (String → RouteRecord → Type 0) → List RouteSnapshot → Type 0
AllOwners P [] = Unit
AllOwners P (o ∷ rest) = AllEntries P o.records × AllOwners P rest

-- What passes from two records to their join passes to the merge.
module _ (P : String → RouteRecord → Type 0)
    (joins : (k : String) (old r : RouteRecord)
      → P k old
      → P k r
      → same_identity old r ≡ true
      → P k (join old r)) where
  AllRecords-insert :
      (id : String) (a : RouteRecord) (m : Table RouteRecord)
      → P id a
      → AllRecords P m
      → AllRecords P (insert id a m)
  AllRecords-insert id a m pa all k r h = elim (Bool-cases (str_eq id k)) [
    | inl same ↦
        let at_r : a ≡ r = ground (arith, lookup-insert id k a m) in
        let at_k : id ≡ k = ground (arith, eq_iff id k) in
        subst (λ x. P k x) at_r (subst (λ j. P j a) at_k pa)
    | inr other ↦ all k r (ground (arith, lookup-insert id k a m))
  ]

  pub AllRecords-merge_record :
      (merged merged' : Table RouteRecord) (id : String) (r : RouteRecord)
      → AllRecords P merged
      → P id r
      → merge_record merged id r ≡ ok merged'
      → AllRecords P merged'
  unfolding merge_record
  AllRecords-merge_record merged merged' id r all pr h = elim (Option-cases (lookup id merged)) [
    | inl e ↦
        let after : merged' ≡ insert id r merged = ground arith in
        rw after (AllRecords-insert id r merged pr all)
    | inr (old, e) ↦
        let same : same_identity old r ≡ true = ground arith in
        let after : merged' ≡ insert id (join old r) merged = ground arith in
        rw after
          (AllRecords-insert id (join old r) merged (joins id old r (all id old e) pr same) all)
  ]

  pub AllRecords-merge_records :
      (merged merged' t : Table RouteRecord)
      → AllRecords P merged
      → AllEntries P t
      → merge_records merged t ≡ ok merged'
      → AllRecords P merged'
  unfolding merge_records
  AllRecords-merge_records merged merged' [] all pt h =
      let after : merged' ≡ merged = ground arith in rw after all
  AllRecords-merge_records merged merged' ((id, r) ∷ rest) all pt h =
      elim (Outcome-cases (merge_record merged id r)) [
        | inr (x, e) ↦ absurd (ground arith)
        | inl (next, e) ↦
            AllRecords-merge_records next merged' rest
              (AllRecords-merge_record merged next id r all pt.0 e) pt.1 (ground arith)
      ]

  pub AllRecords-merge_owner :
      (merged merged' accepted : RouteSnapshot)
      → AllRecords P merged.records
      → AllEntries P accepted.records
      → merge_owner merged accepted ≡ ok merged'
      → AllRecords P merged'.records
  unfolding merge_owner
  AllRecords-merge_owner merged merged' accepted all pt h =
      elim (Outcome-cases (merge_records merged.records accepted.records)) [
        | inr (x, e) ↦ absurd (ground arith)
        | inl (records, e) ↦
            let same : merged'.records ≡ records = ground arith in
            rw same (AllRecords-merge_records merged.records records accepted.records all pt e)
      ]

  pub AllRecords-merge_owners :
      (merged merged' : RouteSnapshot) (owners : List RouteSnapshot)
      → AllRecords P merged.records
      → AllOwners P owners
      → merge_owners merged owners ≡ ok merged'
      → AllRecords P merged'.records
  unfolding merge_owners
  AllRecords-merge_owners merged merged' [] all po h =
      let after : merged' ≡ merged = ground arith in rw after all
  AllRecords-merge_owners merged merged' (first ∷ rest) all po h =
      elim (Outcome-cases (merge_owner merged first)) [
        | inr (x, e) ↦ absurd (ground arith)
        | inl (next, e) ↦
            AllRecords-merge_owners next merged' rest
              (AllRecords-merge_owner merged next first all po.0 e) po.1 (ground arith)
      ]
