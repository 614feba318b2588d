-- ===== src/Recovery/Command/Completion.antt =====
-- What a completed recovery has done (cmd/worker/recover.go).
use edgelab.Shared.Action.{after_bind, lift, ◌>>=◌}
use mathlib.Core.Path.{subst₂}
use mathlib.Core.List.{Memᴰ}
use edgelab.Recovery.Command.{
  acknowledge_one, acknowledged, agree_on, acknowledge_all, complete_recovery, check_journal,
  distribute, recover,
}
use edgelab.Registry.{Platform, RouteSnapshot}
use edgelab.Shared.Outcome.{Outcome-cases, ok}
use edgelab.Shared.{
  Option, String, arith, eq_iff, inl, inr, none, some, sym, ◌∙◌, ◌≡◌, List, Option-cases, [], refl,
  true, ◌∷◌,
}
use edgelab.Recovery.Run.{
  Arguments, Digests, Environment, Files, Recovery, RecoveryJournal, begin, plan,
}

-- A router has acknowledged the snapshot and the credential, with the digest.
abbrev pub HasAcknowledged :
    Digests → Arguments → Environment → RouteSnapshot → String → String → String → Type 0
HasAcknowledged digests a env s credential digest router =
    env.acknowledge router s (digests.sha256 credential)
    ≡ some (some (record { operation = a.operation; digest = digest }))

acknowledged_is :
    (a : Arguments) (o : Option (Option Recovery)) (r : Recovery)
    → acknowledged a o ≡ ok r
    → (o ≡ some (some (record { operation = a.operation; digest = r.digest })))
unfolding acknowledged
acknowledged_is a none r h = cc
acknowledged_is a (some none) r h = cc
acknowledged_is a (some (some q)) r h = ground (arith, eq_iff q.operation a.operation)

agree_on_is :
    (first : Option String) (digest d : String)
    → agree_on first digest ≡ ok d
    → (digest ≡ d) × ((f : String) → first ≡ some f → d ≡ f)
unfolding agree_on
agree_on_is none digest d h = (ground arith, λ f e. cc)
agree_on_is (some f) digest d h = (ground (arith, eq_iff digest f), λ g e. ground arith)

all_acknowledged :
    (digests : Digests) (a : Arguments) (env : Environment) (s : RouteSnapshot) (router : String)
    (rest : List String) (credential d : String)
    → HasAcknowledged digests a env s credential d router
    → ((r : String) → Memᴰ r rest → HasAcknowledged digests a env s credential d r)
    → (r : String) → Memᴰ r (router ∷ rest)
    → HasAcknowledged digests a env s credential d r
all_acknowledged digests a env s router rest credential d here there r (Memᴰ.head e) = rw e here
all_acknowledged digests a env s router rest credential d here there r (Memᴰ.tail m) = there r m

module _ {Blob : Type 0} (p : Platform Blob) (digests : Digests) (a : Arguments) (env : Environment)
    (s : RouteSnapshot) where
  acknowledge_one_ok :
      (first : Option String) (j : RecoveryJournal) (router : String) (w : Files Blob)
      (j' : RecoveryJournal) (d : String)
      → (acknowledge_one p digests a env s first j router w).1 ≡ ok (j', d)
      → HasAcknowledged digests a env s j.credential d router
        × ((f : String) → first ≡ some f → d ≡ f)
        × (j'.snapshot ≡ j.snapshot)
        × (j'.credential ≡ j.credential)
  unfolding acknowledge_one
  acknowledge_one_ok first j router w j' d h =
      elim (Outcome-cases
        (acknowledged a (env.acknowledge router s (digests.sha256 j.credential)))) [
          | inr (e, bad) ↦ absurd (ground arith)
          | inl (r, e) ↦ elim (Outcome-cases (agree_on first r.digest)) [
            | inr (e', bad) ↦ absurd (ground arith)
            | inl (d', e') ↦
                let (same, earlier) = agree_on_is first r.digest d' e' in
                let at_d : d' ≡ d = ground arith in
                let heard =
                  acknowledged_is a (env.acknowledge router s (digests.sha256 j.credential)) r e in
                (ground arith, λ f x. sym at_d ∙ earlier f x, ground arith, ground arith)
          ]
        ]

  pub acknowledge_all_ok :
      (first : Option String) (j : RecoveryJournal) (routers : List String) (w : Files Blob)
      (j' : RecoveryJournal)
      → (acknowledge_all p digests a env s first j routers w).1 ≡ ok j'
      → (d : String) × ((f : String) → first ≡ some f → d ≡ f)
        × ((router : String)
            → Memᴰ router routers
            → HasAcknowledged digests a env s j.credential d router)
        × (j'.snapshot ≡ j.snapshot)
        × (j'.credential ≡ j.credential)
  unfolding acknowledge_all
  acknowledge_all_ok none j [] w j' h =
      ("", λ f e. cc, λ router m. elim m [ ], ground arith, ground arith)
  acknowledge_all_ok (some f) j [] w j' h =
      (f, λ g e. ground arith, λ router m. elim m [ ], ground arith, ground arith)
  acknowledge_all_ok first j (router ∷ rest) w j' h =
      elim (Outcome-cases (acknowledge_one p digests a env s first j router w).1) [
        | inr (e, bad) ↦ absurd (ground arith)
        | inl ((next, d), e) ↦
            let (heard, earlier, snapshot_kept, credential_kept) =
              acknowledge_one_ok first j router w next d e in
            let (d', later, others, snapshot_kept', credential_kept') =
              acknowledge_all_ok (some d) next rest
                (acknowledge_one p digests a env s first j router w).0 j' (ground arith) in
            let same : d' ≡ d = later d refl in
            (
              d,
              earlier,
              all_acknowledged digests a env s router rest j.credential d heard (
                  subst₂ (λ x y. (r : String) → Memᴰ r rest → HasAcknowledged digests a env s x y r)
                    credential_kept same others),
              snapshot_kept' ∙ snapshot_kept,
              credential_kept' ∙ credential_kept,
            )
      ]

  complete_recovery_ok :
      (j : RecoveryJournal) (w : Files Blob)
      → (complete_recovery p digests a env s j w).1 ≡ ok tt
      → ((complete_recovery p digests a env s j w).0.guard ≡ none)
        × ((complete_recovery p digests a env s j w).0.journal
            ≡ some (record j { complete = true }))
        × ((complete_recovery p digests a env s j w).0.token ≡ j.credential)
        × ((encoded : Blob) × ((complete_recovery p digests a env s j w).0.body ≡ some encoded)
            × (p.encode s ≡ some encoded))
  unfolding complete_recovery
  complete_recovery_ok j w h = elim (Option-cases (p.encode s)) [
    | inl e ↦ absurd (ground arith)
    | inr (encoded, e) ↦ (ground arith, ground arith, ground arith, (encoded, ground arith, e))
  ]

-- The recovery is over: the journal is complete with the snapshot `s`, every router has acknowledged
-- it under one digest, the database has it, the configuration has the credential, the guard is gone.
pub record IsComplete {Blob : Type 0} (p : Platform Blob) (digests : Digests) (a : Arguments)
    (env : Environment) (w : Files Blob) : Type 0 where
  pub journal : RecoveryJournal
  pub s : RouteSnapshot
  pub digest : String
  pub body : Blob
  pub saved : w.journal ≡ some journal
  pub is_complete : journal.complete ≡ true
  pub has_snapshot : journal.snapshot ≡ some s
  pub unguarded : w.guard ≡ none
  pub has_credential : w.token ≡ journal.credential
  pub stored : w.body ≡ some body
  pub decodes : p.decode body ≡ some s
  pub heard :
      (router : String)
      → Memᴰ router a.routers
      → HasAcknowledged digests a env s journal.credential digest router

module _ {Blob : Type 0} (p : Platform Blob) (digests : Digests) (a : Arguments)
    (env : Environment) where
  distribute_ok :
      (j : RecoveryJournal) (o : Option RouteSnapshot) (w : Files Blob)
      → j.snapshot ≡ o
      → (distribute p digests a env j o w).1 ≡ ok tt
      → IsComplete p digests a env (distribute p digests a env j o w).0
  unfolding distribute
  distribute_ok j none w e h = cc
  distribute_ok j (some s) w e h =
      after_bind (λ r. r.1 ≡ ok tt → IsComplete p digests a env r.0)
        (lift (check_journal digests a s j))
        (λ u.
          acknowledge_all p digests a env s none j a.routers
          >>= complete_recovery p digests a env s)
        w (λ x bad. cc)
        (λ u passed.
          after_bind (λ r. r.1 ≡ ok tt → IsComplete p digests a env r.0)
            (acknowledge_all p digests a env s none j a.routers)
            (complete_recovery p digests a env s) w (λ x bad. cc)
            (λ j' e' done.
              let (d, earlier, heard, snapshot_kept, credential_kept) =
                acknowledge_all_ok p digests a env s none j a.routers w j' e' in
              let (guard, journal, token, (encoded, stored, e'')) =
                complete_recovery_ok p digests a env s j' _ done in
              record {
                journal = record j' { complete = true };
                s = s;
                digest = d;
                body = encoded;
                saved = journal;
                is_complete = refl;
                has_snapshot = snapshot_kept ∙ e;
                unguarded = guard;
                has_credential = token;
                stored = stored;
                decodes = p.decode-encode s encoded e'';
                heard = λ router m. rw credential_kept (heard router m);
              }))
        h

  -- A run that succeeds has completed the recovery.
  pub recover-IsComplete :
      (w : Files Blob)
      → (recover p digests a env w).1 ≡ ok tt
      → IsComplete p digests a env (recover p digests a env w).0
  unfolding recover
  recover-IsComplete w h =
      after_bind (λ r. r.1 ≡ ok tt → IsComplete p digests a env r.0) (begin p digests a env)
        (λ j. plan p digests a env j j.snapshot >>= λ j'. distribute p digests a env j' j'.snapshot)
        w (λ x bad. cc)
        (λ j e.
          after_bind (λ r. r.1 ≡ ok tt → IsComplete p digests a env r.0)
            (plan p digests a env j j.snapshot) (λ j'. distribute p digests a env j' j'.snapshot)
            (begin p digests a env w).0 (λ x bad. cc)
            (λ j' e'. distribute_ok j' j'.snapshot _ refl))
        h
