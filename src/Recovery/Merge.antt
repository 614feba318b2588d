-- ===== src/Recovery/Merge.antt =====
-- No router's account is lost in a recovery (cmd/worker/recover.go).
use mathlib.Core.List.{Memᴰ}
use edgelab.Shared.Outcome.{ok, Outcome-cases}
use edgelab.Recovery.{join, merge_record, merge_records, same_identity, merge_owner, merge_owners}
use edgelab.Shared.Table.{Table, insert, lookup, lookup-insert}
use edgelab.Registry.{RouteRecord, RouteSnapshot}
use edgelab.Shared.{
  Bool-cases, Option-cases, String, [], arith, eq_iff, eq_refl, inl, inr, some, str_eq, subst, true,
  ◌∷◌, ◌≡◌, ◌≤◌, List, sym,
}

-- `a` is at least what `r` says of one instance: the same identity, no older, deleted if `r` is.
pub record Dominates (a r : RouteRecord) : Type 0 where
  pub app_kept : a.app ≡ r.app
  pub endpoint_kept : a.endpoint ≡ r.endpoint
  pub revision_kept : r.revision ≤ a.revision
  pub deletion_kept : r.deleted ≡ true → a.deleted ≡ true

pub Dominates-trans : {a b c : RouteRecord} → Dominates a b → Dominates b c → Dominates a c
Dominates-trans d e = ground arith

pub Dominates-refl : (a : RouteRecord) → Dominates a a
Dominates-refl a = ground arith

-- Every record of `t` is dominated in `m`.
abbrev pub Covers : Table RouteRecord → Table RouteRecord → Type 0
Covers m t =
    (k : String) (r : RouteRecord)
    → lookup k t ≡ some r
    → (a : RouteRecord) × (lookup k m ≡ some a) × Dominates a r

pub Covers-trans : (m n t : Table RouteRecord) → Covers m n → Covers n t → Covers m t
Covers-trans m n t c d k r h =
    let (a, ha, da) = d k r h in let (b, hb, db) = c k a ha in (b, hb, Dominates-trans db da)

join-Dominates :
    (old r : RouteRecord)
    → same_identity old r ≡ true
    → Dominates (join old r) old × Dominates (join old r) r
unfolding join same_identity
join-Dominates old r h = ground (arith, eq_iff old.app r.app, eq_iff old.endpoint r.endpoint)

-- To put a record that dominates the one it replaces.
pub Covers-insert :
    (id : String) (a : RouteRecord) (m : Table RouteRecord)
    → ((old : RouteRecord) → lookup id m ≡ some old → Dominates a old)
    → Covers (insert id a m) m
Covers-insert id a m better k r h = elim (Bool-cases (str_eq id k)) [
  | inl same ↦ (a, rw (lookup-insert, same), better r (ground (arith, eq_iff id k)))
  | inr other ↦ (r, rw (lookup-insert, other) h, Dominates-refl r)
]

merge_record-Covers :
    (merged merged' : Table RouteRecord) (id : String) (r : RouteRecord)
    → merge_record merged id r ≡ ok merged'
    → Covers merged' merged × ((a : RouteRecord) × (lookup id merged' ≡ some a) × Dominates a r)
unfolding merge_record
merge_record-Covers merged merged' id r h = elim (Option-cases (lookup id merged)) [
  | inl e ↦
      let after : merged' ≡ insert id r merged = ground arith in
      rw after (
        Covers-insert id r merged (λ old he. ground arith),
        (r, rw (lookup-insert, eq_refl), Dominates-refl r),
      )
  | inr (old, e) ↦
      let same : same_identity old r ≡ true = ground arith in
      let after : merged' ≡ insert id (join old r) merged = ground arith in
      let (over_old, over_new) = join-Dominates old r same in
      rw after (
        Covers-insert id (join old r) merged
            (λ q hq. subst (Dominates (join old r)) (ground arith) over_old),
        (join old r, rw (lookup-insert, eq_refl), over_new),
      )
]

Covers-cons :
    (id : String) (r : RouteRecord) (t m : Table RouteRecord)
    → (a : RouteRecord) × (lookup id m ≡ some a) × Dominates a r
    → Covers m t
    → Covers m ((id, r) ∷ t)
unfolding lookup
Covers-cons id r t m (a, ha, da) others k q hq = elim (Bool-cases (str_eq id k)) [
  | inl same ↦
      let at_r : r ≡ q = ground arith in
      let at_k : id ≡ k = ground (arith, eq_iff id k) in
      (a, subst (λ j. lookup j m ≡ some a) at_k ha, subst (Dominates a) at_r da)
  | inr other ↦ others k q (ground arith)
]

merge_records-Covers :
    (merged merged' t : Table RouteRecord)
    → merge_records merged t ≡ ok merged'
    → Covers merged' merged × Covers merged' t
unfolding merge_records lookup
merge_records-Covers merged merged' [] h =
    let after : merged' ≡ merged = ground arith in
    rw after (λ k r e. (r, e, Dominates-refl r), λ k r e. absurd (ground arith))
merge_records-Covers merged merged' ((id, r) ∷ rest) h =
    elim (Outcome-cases (merge_record merged id r)) [
      | inr (x, e) ↦ absurd (ground arith)
      | inl (next, e) ↦
          let (kept, (a, ha, da)) = merge_record-Covers merged next id r e in
          let (still, others) = merge_records-Covers next merged' rest (ground arith) in
          let (b, hb, db) = still id a ha in
          (
            Covers-trans merged' next merged still kept,
            Covers-cons id r rest merged' (b, hb, Dominates-trans db da) others,
          )
    ]

merge_owner-Covers :
    (merged merged' accepted : RouteSnapshot)
    → merge_owner merged accepted ≡ ok merged'
    → Covers merged'.records merged.records × Covers merged'.records accepted.records
unfolding merge_owner
merge_owner-Covers merged merged' accepted h =
    elim (Outcome-cases (merge_records merged.records accepted.records)) [
      | inr (x, e) ↦ absurd (ground arith)
      | inl (records, e) ↦
          let same : merged'.records ≡ records = ground arith in
          rw same (merge_records-Covers merged.records records accepted.records e)
    ]

Covers-owners :
    (merged next first : RouteSnapshot) (rest : List RouteSnapshot)
    → Covers merged.records next.records
    → Covers next.records first.records
    → ((o : RouteSnapshot) → Memᴰ o rest → Covers merged.records o.records)
    → (o : RouteSnapshot) → Memᴰ o (first ∷ rest)
    → Covers merged.records o.records
Covers-owners merged next first rest still taken others o (Memᴰ.head e) =
    subst (λ (x : RouteSnapshot). Covers merged.records x.records) (sym e)
      (Covers-trans merged.records next.records first.records still taken)
Covers-owners merged next first rest still taken others o (Memᴰ.tail m) = others o m

-- Every record of the table to start with, and of every account, is dominated in the merge.
pub merge_owners-Covers :
    (merged merged' : RouteSnapshot) (owners : List RouteSnapshot)
    → merge_owners merged owners ≡ ok merged'
    → Covers merged'.records merged.records
      × ((o : RouteSnapshot) → Memᴰ o owners → Covers merged'.records o.records)
unfolding merge_owners
merge_owners-Covers merged merged' [] h =
    let after : merged' ≡ merged = ground arith in
    rw after (λ k r e. (r, e, Dominates-refl r), λ o m. elim m [ ])
merge_owners-Covers merged merged' (first ∷ rest) h =
    elim (Outcome-cases (merge_owner merged first)) [
      | inr (x, e) ↦ absurd (ground arith)
      | inl (next, e) ↦
          let (kept, taken) = merge_owner-Covers merged next first e in
          let (still, others) = merge_owners-Covers next merged' rest (ground arith) in
          (
            Covers-trans merged'.records next.records merged.records still kept,
            Covers-owners merged' next first rest still taken others,
          )
    ]
