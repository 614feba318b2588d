-- ===== src/Recovery/Started.antt =====
-- The `recover` command as a whole (cmd/worker/recover.go): what its success says of both routers.
use edgelab.Shared.{
  List, Option, Option-cases, String, [], ap, arith, eq_iff, inl, inr, refl, some, subst, sym, true,
  ◌∙◌, ◌∷◌, ◌≡◌,
}
use edgelab.Management.{Config}
use edgelab.Recovery.Command.{recover}
use edgelab.Recovery.Command.Completion.{IsComplete, recover-IsComplete}
use edgelab.Recovery.Run.{Arguments, Digests, Environment, Files}
use edgelab.Recovery.Start.{
  RecoverFlags, are_two, are_valid, check_options, failed, is_recoverable, recover_worker,
}
use edgelab.Registry.{Platform}
use edgelab.Shared.Action.{relabel_ok}
use edgelab.Shared.Outcome.{Outcome-cases, ok}

-- Two different routers and no other.
abbrev pub AreTwo : List String → Type 0
AreTwo routers =
    (first : String) × (second : String) × (routers ≡ first ∷ second ∷ []) × ¬ (first ≡ second)

are_two-AreTwo : (routers : List String) → are_two routers ≡ true → AreTwo routers
unfolding are_two
are_two-AreTwo [] h = cc
are_two-AreTwo (first ∷ []) h = cc
are_two-AreTwo (first ∷ second ∷ []) h =
    (first, second, refl, λ same. ground (arith, eq_iff first second))
are_two-AreTwo (first ∷ second ∷ third ∷ rest) h = cc

-- The arguments are those of the flags and of the configuration, whose routers are two.
abbrev pub AreChecked : RecoverFlags → Option (Option Config) → Arguments → Type 0
AreChecked f content a =
    (c : Config) × (content ≡ some (some c))
    × (a.owner ≡ c.owner)
    × (a.routers ≡ c.routers)
    × (a.operation ≡ f.operation)
    × (a.database ≡ f.database)
    × AreTwo a.routers
    × ¬ (f.database ≡ f.journal_path)

check_options-AreChecked :
    (f : RecoverFlags) (content : Option (Option Config)) (a : Arguments)
    → check_options f content ≡ ok a
    → AreChecked f content a
unfolding check_options are_valid is_recoverable
check_options-AreChecked f content a e = elim (Option-cases content) [
  | inl missing ↦ absurd (ground arith)
  | inr (decoded, read) ↦ elim (Option-cases decoded) [
    | inl bad ↦ absurd (ground arith)
    | inr (c, known) ↦
        let routers : a.routers ≡ c.routers = ground arith in
        (
          c,
          read ∙ ap some known,
          ground arith,
          routers,
          ground arith,
          ground arith,
          subst AreTwo (sym routers) (are_two-AreTwo c.routers (ground arith)),
          λ same. ground (arith, eq_iff f.database f.journal_path),
        )
  ]
]

module _ {Blob : Type 0} (p : Platform Blob) (digests : Digests) (env : Environment) where
  -- A command that succeeds has checked that its journal is not its database and that its
  -- configuration names two different routers and no other, and has completed the recovery with them.
  pub recover_worker-IsComplete :
      (f : RecoverFlags) (content : Option (Option Config)) (w : Files Blob)
      → (recover_worker p digests env f content w).1 ≡ ok tt
      → (a : Arguments) × AreChecked f content a
        × IsComplete p digests a env (recover_worker p digests env f content w).0
  unfolding recover_worker
  recover_worker-IsComplete f content w h = elim (Outcome-cases (check_options f content)) [
    | inr (e, bad) ↦ absurd (ground arith)
    | inl (a, good) ↦
        let done : (recover p digests a env w).1 ≡ ok tt =
          relabel_ok failed (recover p digests a env w).1 tt (rw (recover_worker, good) at h) in
        (
          a,
          check_options-AreChecked f content a good,
          rw (recover_worker, good) (recover-IsComplete p digests a env w done),
        )
  ]
