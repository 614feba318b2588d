-- ===== src/Recovery/Command/Resume.antt =====
-- A recovery that is interrupted goes on with the same snapshot and credential
-- (cmd/worker/recover.go).
use edgelab.Shared.Action.{after_bind, lift, ◌>>=◌}
use edgelab.Shared.Outcome.{ok}
use edgelab.Recovery.Command.{
  acknowledge_one, complete_recovery, acknowledge_all, check_journal, distribute, recover,
}
use edgelab.Registry.{Platform, RouteSnapshot}
use edgelab.Shared.{Option, String, arith, none, some, ◌≡◌, List, [], ◌∷◌, subst}
use edgelab.Recovery.Run.{
  Arguments, Digests, Environment, Files, RecoveryJournal, begin, plan, resume,
}

-- A journal is there and has the snapshot and the credential.
abbrev pub HasPlan : RouteSnapshot → String → Option RecoveryJournal → Type 0
HasPlan s credential none = ⊥
HasPlan s credential (some j) = (j.snapshot ≡ some s) × (j.credential ≡ credential)

module _ {Blob : Type 0} (p : Platform Blob) (digests : Digests) (a : Arguments) (s : RouteSnapshot)
    (credential : String) where
  module _ (env : Environment) where
    HasPlan-begin :
        (w : Files Blob)
        → HasPlan s credential w.journal
        → HasPlan s credential (begin p digests a env w).0.journal
          × ((j : RecoveryJournal)
              → (begin p digests a env w).1 ≡ ok j
              → HasPlan s credential (some j))
    unfolding begin resume
    HasPlan-begin w h = (ground arith, λ j' e. ground arith)

    HasPlan-acknowledge_one :
        (first : Option String) (j : RecoveryJournal) (router : String) (w : Files Blob)
        → HasPlan s credential (some j)
        → HasPlan s credential w.journal
        → HasPlan s credential (acknowledge_one p digests a env s first j router w).0.journal
          × ((x : RecoveryJournal × String)
              → (acknowledge_one p digests a env s first j router w).1 ≡ ok x
              → HasPlan s credential (some x.0))
    unfolding acknowledge_one
    HasPlan-acknowledge_one first j router w plan h = (ground arith, λ x e. ground arith)

    HasPlan-complete_recovery :
        (j : RecoveryJournal) (w : Files Blob)
        → HasPlan s credential (some j)
        → HasPlan s credential w.journal
        → HasPlan s credential (complete_recovery p digests a env s j w).0.journal
    unfolding complete_recovery
    HasPlan-complete_recovery j w plan h = ground arith

    HasPlan-acknowledge_all :
        (first : Option String) (j : RecoveryJournal) (routers : List String) (w : Files Blob)
        → HasPlan s credential (some j)
        → HasPlan s credential w.journal
        → HasPlan s credential (acknowledge_all p digests a env s first j routers w).0.journal
          × ((j' : RecoveryJournal)
              → (acknowledge_all p digests a env s first j routers w).1 ≡ ok j'
              → HasPlan s credential (some j'))
    unfolding acknowledge_all
    HasPlan-acknowledge_all first j [] w plan h = (h, λ j' e. ground arith)
    HasPlan-acknowledge_all first j (router ∷ rest) w plan h =
        let (after, passes) = HasPlan-acknowledge_one first j router w plan h in
        after_bind
          (λ r.
            HasPlan s credential r.0.journal
            × ((j' : RecoveryJournal) → r.1 ≡ ok j' → HasPlan s credential (some j')))
          (acknowledge_one p digests a env s first j router)
          (λ x. acknowledge_all p digests a env s (some x.1) x.0 rest) w
          (λ e h'. (after, λ j' bad. cc))
          (λ x h'.
            HasPlan-acknowledge_all (some x.1) x.0 rest
              (acknowledge_one p digests a env s first j router w).0 (passes x h') after)

    HasPlan-distribute :
        (j : RecoveryJournal) (w : Files Blob)
        → HasPlan s credential (some j)
        → HasPlan s credential w.journal
        → HasPlan s credential (distribute p digests a env j (some s) w).0.journal
    unfolding distribute
    HasPlan-distribute j w plan h =
        let (after, passes) = HasPlan-acknowledge_all none j a.routers w plan h in
        after_bind (λ r. HasPlan s credential r.0.journal) (lift (check_journal digests a s j))
          (λ u.
            acknowledge_all p digests a env s none j a.routers
            >>= complete_recovery p digests a env s)
          w (λ e h'. h)
          (λ u h'.
            after_bind (λ r. HasPlan s credential r.0.journal)
              (acknowledge_all p digests a env s none j a.routers)
              (complete_recovery p digests a env s) w (λ e bad. after)
              (λ j' e.
                HasPlan-complete_recovery j'
                  (acknowledge_all p digests a env s none j a.routers w).0 (passes j' e) after))

    HasPlan-distribute_of :
        (j : RecoveryJournal) (o : Option RouteSnapshot) (w : Files Blob)
        → o ≡ some s
        → HasPlan s credential (some j)
        → HasPlan s credential w.journal
        → HasPlan s credential (distribute p digests a env j o w).0.journal
    HasPlan-distribute_of j none w e planned h = cc
    HasPlan-distribute_of j (some t) w e planned h =
        let same : s ≡ t = ground arith in
        subst (λ t. HasPlan s credential (distribute p digests a env j (some t) w).0.journal) same
          (HasPlan-distribute j w planned h)

    HasPlan-rest :
        (j : RecoveryJournal) (o : Option RouteSnapshot) (w : Files Blob)
        → o ≡ some s
        → HasPlan s credential (some j)
        → HasPlan s credential w.journal
        → HasPlan s credential
            ((plan p digests a env j o >>= λ j'. distribute p digests a env j' j'.snapshot)
              w).0.journal
    unfolding plan
    HasPlan-rest j none w e planned h = cc
    HasPlan-rest j (some t) w e planned h = HasPlan-distribute_of j j.snapshot w planned.0 planned h

    HasPlan-recover :
        (w : Files Blob)
        → HasPlan s credential w.journal
        → HasPlan s credential (recover p digests a env w).0.journal
    unfolding recover
    HasPlan-recover w h =
        let (after, passes) = HasPlan-begin w h in
        after_bind (λ r. HasPlan s credential r.0.journal) (begin p digests a env)
          (λ j.
            plan p digests a env j j.snapshot >>= λ j'. distribute p digests a env j' j'.snapshot)
          w (λ e bad. after)
          (λ j e.
            HasPlan-rest j j.snapshot (begin p digests a env w).0 (passes j e).0 (passes j e) after)

-- Runs of the command, one after the other, each with what it meets.
unfoldable pub recover_again :
    {Blob : Type 0}
    → Platform Blob
    → Digests
    → Arguments
    → Files Blob
    → List Environment
    → Files Blob
recover_again p digests a w [] = w
recover_again p digests a w (env ∷ rest) =
    recover_again p digests a (recover p digests a env w).0 rest

-- Once the journal has a snapshot and a credential, it keeps them through any runs, however they fail
-- or are interrupted: no later run replaces what a router may have acknowledged already.
pub recover_resumes :
    {Blob : Type 0} (p : Platform Blob) (digests : Digests) (a : Arguments) (s : RouteSnapshot)
    (credential : String) (w : Files Blob) (runs : List Environment)
    → HasPlan s credential w.journal
    → HasPlan s credential (recover_again p digests a w runs).journal
unfolding recover_again
recover_resumes p digests a s credential w [] h = h
recover_resumes p digests a s credential w (env ∷ rest) h =
    recover_resumes p digests a s credential (recover p digests a env w).0 rest
      (HasPlan-recover p digests a s credential env w h)
