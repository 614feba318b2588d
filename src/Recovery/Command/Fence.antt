-- ===== src/Recovery/Command/Fence.antt =====
-- Publication stays fenced until a recovery is complete (cmd/worker/recover.go).

use edgelab.Shared.Action.{after_bind, lift, ◌>>=◌}
use edgelab.Shared.Outcome.{err}
use edgelab.Recovery.Command.{
  acknowledge_all, acknowledge_one, complete_recovery, check_journal, distribute, recover,
}
use edgelab.Recovery.{RecoverError, busy, io_failure}
use edgelab.Registry.{Platform, RouteSnapshot}
use edgelab.Shared.{
  List, Option, String, [], arith, none, refl, some, true, ◌∷◌, ◌≡◌, ◌⊎◌, Bool-cases, inl, inr, ◌∙◌,
  Option-cases, not, ◌||◌,
}
use edgelab.Recovery.Command.Completion.{acknowledge_all_ok}
use edgelab.Shared.Outcome.{is_some}
use edgelab.Recovery.Run.{
  remove_guard, save_complete, write_config, write_row, Arguments, Digests, Environment, Files,
  RecoveryJournal, begin, plan, take_lock, write_guard,
}

module _ {Blob : Type 0} (p : Platform Blob) (digests : Digests) (a : Arguments)
    (env : Environment) where
  guard-begin :
      (w : Files Blob)
      → ((begin p digests a env w).0 ≡ w
          × ((e : RecoverError) × ((begin p digests a env w).1 ≡ err e)))
        ⊎ ((begin p digests a env w).0.guard ≡ some a.operation)
  unfolding begin
  guard-begin w = elim (Bool-cases (env.fails take_lock)) [
    | inl e ↦ inl (ground arith, (busy, ground arith))
    | inr e ↦ elim (Bool-cases (env.fails write_guard)) [
      | inl e' ↦ inl (ground arith, (io_failure, ground arith))
      | inr e' ↦ inr (ground arith)
    ]
  ]

  guard-plan :
      (j : RecoveryJournal) (o : Option RouteSnapshot) (w : Files Blob)
      → (plan p digests a env j o w).0.guard ≡ w.guard
  unfolding plan
  guard-plan j none w = ground arith
  guard-plan j (some s) w = refl

  guard-acknowledge_one :
      (s : RouteSnapshot) (first : Option String) (j : RecoveryJournal) (router : String)
      (w : Files Blob)
      → (acknowledge_one p digests a env s first j router w).0.guard ≡ w.guard
  unfolding acknowledge_one
  guard-acknowledge_one s first j router w = ground arith

  guard-acknowledge_all :
      (s : RouteSnapshot) (first : Option String) (j : RecoveryJournal) (routers : List String)
      (w : Files Blob)
      → (acknowledge_all p digests a env s first j routers w).0.guard ≡ w.guard
  unfolding acknowledge_all
  guard-acknowledge_all s first j [] w = refl
  guard-acknowledge_all s first j (router ∷ rest) w =
      let one = guard-acknowledge_one s first j router w in
      after_bind (λ r. r.0.guard ≡ w.guard) (acknowledge_one p digests a env s first j router)
        (λ x. acknowledge_all p digests a env s (some x.1) x.0 rest) w (λ e h. one)
        (λ x h.
          guard-acknowledge_all s (some x.1) x.0 rest
            (acknowledge_one p digests a env s first j router w).0
          ∙ one)

  -- The journal is complete, and the database and the configuration have its snapshot and its
  -- credential.
  abbrev pub HasFinished : Files Blob → Type 0
  HasFinished w =
      (j : RecoveryJournal) × (s : RouteSnapshot) × (body : Blob) × (w.journal ≡ some j)
      × (j.complete ≡ true)
      × (j.snapshot ≡ some s)
      × (w.body ≡ some body)
      × (p.decode body ≡ some s)
      × (w.token ≡ j.credential)

  guard-complete_recovery :
      (s : RouteSnapshot) (j : RecoveryJournal) (w : Files Blob)
      → j.snapshot ≡ some s
      → ((complete_recovery p digests a env s j w).0.guard ≡ w.guard)
        ⊎ HasFinished (complete_recovery p digests a env s j w).0
  unfolding complete_recovery
  guard-complete_recovery s j w has = elim (Option-cases (p.encode s)) [
    | inl e ↦ inl (ground arith)
    | inr (encoded, e) ↦
        elim (Bool-cases (
          env.fails write_row
          || not (is_some w.body)
          || env.fails write_config
          || env.fails save_complete
          || env.fails remove_guard)) [
            | inl bad ↦ inl (ground arith)
            | inr good ↦ inr (
              record j { complete = true },
              s,
              encoded,
              ground arith,
              refl,
              has,
              ground arith,
              p.decode-encode s encoded e,
              ground arith,
            )
          ]
  ]

  -- The guard is as it was, or the recovery is finished.
  abbrev IsFenced : Files Blob → Files Blob → Type 0
  IsFenced w w' = (w'.guard ≡ w.guard) ⊎ HasFinished w'

  IsFenced-distribute :
      (j : RecoveryJournal) (o : Option RouteSnapshot) (w : Files Blob)
      → j.snapshot ≡ o
      → IsFenced w (distribute p digests a env j o w).0
  unfolding distribute
  IsFenced-distribute j none w has = inl refl
  IsFenced-distribute j (some s) w has =
      after_bind (λ r. IsFenced w r.0) (lift (check_journal digests a s j))
        (λ u.
          acknowledge_all p digests a env s none j a.routers
          >>= complete_recovery p digests a env s)
        w (λ e h. inl refl)
        (λ u h.
          after_bind (λ r. IsFenced w r.0) (acknowledge_all p digests a env s none j a.routers)
            (complete_recovery p digests a env s) w
            (λ e h'. inl (guard-acknowledge_all s none j a.routers w))
            (λ j' h'.
              let (d, earlier, heard, kept, credential) =
                acknowledge_all_ok p digests a env s none j a.routers w j' h' in
              elim (guard-complete_recovery s j'
                (acknowledge_all p digests a env s none j a.routers w).0 (kept ∙ has)) [
                  | inl same ↦ inl (same ∙ guard-acknowledge_all s none j a.routers w)
                  | inr done ↦ inr done
                ]))

  IsFenced-rest :
      (j : RecoveryJournal) (w : Files Blob)
      → IsFenced w
          ((plan p digests a env j j.snapshot >>= λ j'. distribute p digests a env j' j'.snapshot)
            w).0
  IsFenced-rest j w =
      let planned = guard-plan j j.snapshot w in
      after_bind (λ r. IsFenced w r.0) (plan p digests a env j j.snapshot)
        (λ j'. distribute p digests a env j' j'.snapshot) w (λ e h. inl planned)
        (λ j' h.
          elim (IsFenced-distribute j' j'.snapshot (plan p digests a env j j.snapshot w).0 refl) [
            | inl same ↦ inl (same ∙ planned)
            | inr done ↦ inr done
          ])

  -- Where a run that began in `w` may leave no guard.
  abbrev EndsWell : Files Blob → Files Blob → Type 0
  EndsWell w w' = w'.guard ≡ none → (w' ≡ w) ⊎ HasFinished w'

  ends_well : (w : Files Blob) → EndsWell w (recover p digests a env w).0
  unfolding recover
  ends_well w =
      let rest = λ (j : RecoveryJournal).
        plan p digests a env j j.snapshot >>= λ j'. distribute p digests a env j' j'.snapshot in
      elim (guard-begin w) [
        | inl (same, (e, failed)) ↦
            after_bind (λ r. EndsWell w r.0) (begin p digests a env) rest w (λ e' h g. inl same)
              (λ j h. cc)
        | inr guarded ↦
            after_bind (λ r. EndsWell w r.0) (begin p digests a env) rest w (λ e' h g. cc)
              (λ j h g. elim (IsFenced-rest j (begin p digests a env w).0) [
                | inl same ↦ cc
                | inr done ↦ inr done
              ])
      ]

  -- A run that leaves no restore guard has found none and stopped before it wrote anything, or has
  -- finished the recovery: its journal is complete, the database has the journal's snapshot and the
  -- configuration its credential. No failure or interruption before that lets a worker publish again.
  pub recover_fenced :
      (w : Files Blob)
      → (recover p digests a env w).0.guard ≡ none
      → ((recover p digests a env w).0 ≡ w) ⊎ HasFinished (recover p digests a env w).0
  recover_fenced w g = ends_well w g
