-- ===== src/Recovery/Quarantine.antt =====
-- What a recovery makes of the backup's own records (cmd/worker/recover.go).
use edgelab.Recovery.{carry_deletion, is_quarantined, raise_to, reconcile_backup, store}
use edgelab.Registry.{RouteRecord}
use edgelab.Shared.{
  Option, Option-cases, String, [], arith, eq_iff, if◌then◌else◌, inl, inr, none, refl, some,
  str_eq, true, ◌∷◌, ◌≡◌, Bool-cases, subst,
}
use edgelab.Shared.Table.{HasDistinctKeys, Table, lookup, lookup-insert, insert}

-- What the loop leaves of an instance: of the merge, and of the quarantine.
abbrev pub reconciled : Option RouteRecord → Option RouteRecord → Option RouteRecord
reconciled none accepted = accepted
reconciled (some old) accepted = carry_deletion old accepted

abbrev pub set_aside :
    Option RouteRecord → Option RouteRecord → Option RouteRecord → Option RouteRecord
set_aside none accepted before = before
set_aside (some old) accepted before =
    if is_quarantined old (carry_deletion old accepted) then some old else before

lookup-store :
    (old : RouteRecord) (id k : String) (m : Table RouteRecord)
    → lookup k (store id (carry_deletion old (lookup id m)) m)
      ≡ (if str_eq id k then carry_deletion old (lookup k m) else lookup k m)
unfolding store carry_deletion
lookup-store old id k m = elim (Option-cases (lookup id m)) [
  | inl e ↦ ground (arith, eq_iff id k)
  | inr (a, e) ↦ ground (
    arith,
    eq_iff id k,
    lookup-insert id k a m,
    lookup-insert id k (record a { deleted = true; revision = raise_to a.revision old.revision }) m,
  )
]

module _ (k : String) where
  pub lookup-reconcile_backup :
      (merged quarantined backup : Table RouteRecord)
      → HasDistinctKeys backup
      → let (merged', quarantined') = reconcile_backup merged quarantined backup in
        (lookup k merged' ≡ reconciled (lookup k backup) (lookup k merged))
        × (lookup k quarantined'
            ≡ set_aside (lookup k backup) (lookup k merged) (lookup k quarantined))
  unfolding reconcile_backup lookup
  lookup-reconcile_backup merged quarantined [] d = (refl, refl)
  lookup-reconcile_backup merged quarantined ((id, old) ∷ rest) d =
      let accepted = carry_deletion old (lookup id merged) in
      let merged' = store id accepted merged in
      let quarantined' =
        if is_quarantined old accepted then insert id old quarantined else quarantined in
      let (ih, ih') = lookup-reconcile_backup merged' quarantined' rest d.1 in
      let here = lookup-store old id k merged in
      let aside = lookup-insert id k old quarantined in
      elim (Bool-cases (str_eq id k)) [
        | inl same ↦
            let at_k : id ≡ k = ground (arith, eq_iff id k) in
            let gone : lookup k rest ≡ none = subst (λ j. lookup j rest ≡ none) at_k d.0 in
            (ground (arith, ih, gone, here), ground (arith, ih', gone, here, aside, eq_iff id k))
        | inr other ↦ (ground (arith, ih, here), ground (arith, ih', here, aside))
      ]
