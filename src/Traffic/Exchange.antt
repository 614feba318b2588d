-- ===== src/Traffic/Exchange.antt =====
-- What an accepted reply says, and that the echo instance's reply is accepted (cmd/traffic/main.go,
-- cmd/echo/main.go).
use edgelab.Publication.{text_at}
use edgelab.Shared.Outcome.{ok}
use edgelab.Storage.{contains}
use edgelab.Shared.Table.{Table, lookup}
use edgelab.Shared.{
  List, Option-cases, String, [], ap, arith, eq_iff, false, inl, inr, length, refl, some, subst,
  suc, sym, true, zero, ℕ, ◌++◌, ◌+◌, ◌<◌, ◌==◌, ◌↔◌, ◌∙◌, ◌∷◌, ◌≡◌, Option, none, ◌≢◌,
}
use edgelab.Traffic.{
  Expectation, Identities, check_identity, check_line, check_manifest, check_payload, check_reply,
  echo, eof, equal, has_all, max_line, payload, read_line, take, agrees, manifest_fields,
}

equal_iff : (s t : List ℕ) → (equal s t ≡ true) ↔ (s ≡ t)
unfolding equal
equal_iff [] [] = (λ h. refl, λ h. refl)
equal_iff [] (b ∷ t) = (λ h. cc, λ h. cc)
equal_iff (a ∷ s) [] = (λ h. cc, λ h. cc)
equal_iff (a ∷ s) (b ∷ t) = (λ h. ground (arith, equal_iff s t), λ h. ground (arith, equal_iff s t))

-- What is read with one byte to spare, and is as long as expected, is all.
take_all : (s t : List ℕ) → take (length s + 1) t ≡ s → t ≡ s
unfolding take
take_all [] [] h = refl
take_all [] (b ∷ t) h = absurd (cc)
take_all (a ∷ s) [] h = absurd (ground arith)
take_all (a ∷ s) (b ∷ t) h = ground (arith, take_all s t)

take_self : (s : List ℕ) → take (length s + 1) s ≡ s
unfolding take
take_self [] = refl
take_self (a ∷ s) = ground (arith, take_self s)

-- No byte of the line is a newline.
abbrev pub IsOneLine : List ℕ → Type 0
IsOneLine [] = Unit
IsOneLine (b ∷ s) = ((b == 10) ≡ false) × IsOneLine s

read_line-append :
    (n : ℕ) (line rest : List ℕ)
    → IsOneLine line
    → length line < n
    → read_line n (line ++ (10 ∷ rest)) ≡ some (line, rest)
unfolding read_line
read_line-append zero line rest one fits = absurd (omega arith)
read_line-append (suc n) [] rest one fits = refl
read_line-append (suc n) (b ∷ line) rest (other, one) fits =
    rw (other, read_line-append n line rest one (omega arith)) refl

-- The manifest has the instance, with the same four fields.
abbrev pub MatchesManifest : Table String → Option (Table (Table String)) → Type 0
MatchesManifest m none = Unit
MatchesManifest m (some manifest) =
    (e : Table String) × (lookup (text_at "instance" m) manifest ≡ some e)
    × (text_at "app" m ≡ text_at "app" e)
    × (text_at "worker" m ≡ text_at "worker" e)
    × (text_at "region" m ≡ text_at "region" e)
    × (text_at "version" m ≡ text_at "version" e)

agrees_iff :
    (m e : Table String)
    → (agrees manifest_fields m e ≡ true) ↔ (
        (text_at "app" m ≡ text_at "app" e)
        × (text_at "worker" m ≡ text_at "worker" e)
        × (text_at "region" m ≡ text_at "region" e)
        × (text_at "version" m ≡ text_at "version" e))
unfolding agrees
agrees_iff m e =
    let app = eq_iff (text_at "app" m) (text_at "app" e) in
    let worker = eq_iff (text_at "worker" m) (text_at "worker" e) in
    let region = eq_iff (text_at "region" m) (text_at "region" e) in
    let version = eq_iff (text_at "version" m) (text_at "version" e) in
    (λ h. (ground arith, ground arith, ground arith, ground arith), λ h. ground arith)

check_manifest_iff :
    (m : Table String) (o : Option (Table (Table String)))
    → (check_manifest m o ≡ ok tt) ↔ MatchesManifest m o
unfolding check_manifest
check_manifest_iff m none = (λ h. tt, λ h. refl)
check_manifest_iff m (some manifest) =
    elim (Option-cases (lookup (text_at "instance" m) manifest)) [
      | inl e ↦ (λ h. absurd (ground arith), λ h. absurd (ground arith))
      | inr (found_one, e) ↦
          let fields = agrees_iff m found_one in
          (
            λ h. let (a, w, r, v) = fields.0 (ground arith) in (found_one, e, a, w, r, v),
            λ (other, e', a, w, r, v).
                let same : other ≡ found_one = ground arith in
                let agreed = fields.1 (
                  ground (arith, same),
                  ground (arith, same),
                  ground (arith, same),
                  ground (arith, same),
                ) in
                ground arith,
          )
    ]

module _ (json : Identities) (x : Expectation) where
  -- The identity is of the application and of an allowed instance, has its fields, and is that of
  -- the manifest.
  abbrev pub IsExpected : Table String → Type 0
  IsExpected m =
      (text_at "app" m ≡ x.app)
      × (contains x.instances (text_at "instance" m) ≡ true)
      × (text_at "worker" m ≢ "")
      × (text_at "region" m ≢ "")
      × (text_at "version" m ≢ "")
      × MatchesManifest m x.manifest

  check_identity_iff : (m : Table String) → (check_identity x m ≡ ok tt) ↔ IsExpected m
  unfolding check_identity has_all
  check_identity_iff m =
      let manifest = check_manifest_iff m x.manifest in
      let app = eq_iff (text_at "app" m) x.app in
      let worker = eq_iff (text_at "worker" m) "" in
      let region = eq_iff (text_at "region" m) "" in
      let version = eq_iff (text_at "version" m) "" in
      (
        λ h. (
          ground arith,
          ground arith,
          ground arith,
          ground arith,
          ground arith,
          manifest.0 (ground arith),
        ),
        λ (a, i, w, r, v, t). let known = manifest.1 t in ground arith,
      )

  check_payload_ok :
      (id size : ℕ) (rest : List ℕ)
      → check_payload id size rest ≡ ok tt
      → rest ≡ payload id size ++ eof
  unfolding check_payload
  check_payload_ok id size rest h =
      let expected = payload id size ++ eof in
      take_all expected rest
        (sym ((equal_iff expected (take (length expected + 1) rest)).0 (ground arith)))

  -- A reply that is accepted starts with a line that decodes to the expected identity, and goes on
  -- with the payload that was sent and the end, and nothing more.
  pub check_reply_ok :
      (id size : ℕ) (reply : List ℕ) (m : Table String)
      → check_reply json x id size reply ≡ ok m
      → (line : List ℕ) × (read_line max_line reply ≡ some (line, payload id size ++ eof))
        × (json.decode line ≡ some m)
        × IsExpected m
  unfolding check_reply check_line
  check_reply_ok id size reply m h = elim (Option-cases (read_line max_line reply)) [
    | inl e ↦ absurd (ground arith)
    | inr ((line, rest), e) ↦ elim (Option-cases (json.decode line)) [
      | inl e' ↦ absurd (ground arith)
      | inr (other, e') ↦
          let same : other ≡ m = ground arith in
          let is_payload = check_payload_ok id size rest (ground arith) in
          (
            line,
            subst (λ r. read_line max_line reply ≡ some (line, r)) is_payload e,
            e' ∙ ap some same,
            (check_identity_iff m).0 (subst (λ z. check_identity x z ≡ ok tt) same (ground arith)),
          )
    ]
  ]

  -- The echo instance's reply to the payload of a request is accepted, whatever the request's number
  -- and size, if its identity is the expected one and its line is one of at most 4095 bytes that
  -- decodes to it.
  pub check_reply-echo :
      (id size : ℕ) (m : Table String)
      → json.decode (json.encode m) ≡ some m
      → IsOneLine (json.encode m)
      → length (json.encode m) < max_line
      → IsExpected m
      → check_reply json x id size (echo json m (payload id size)) ≡ ok m
  unfolding check_reply check_line echo check_payload
  check_reply-echo id size m decodes one fits expected_identity =
      let expected = payload id size ++ eof in
      let line = read_line-append max_line (json.encode m) expected one fits in
      let identified = (check_identity_iff m).1 expected_identity in
      let is_equal =
        (equal_iff expected (take (length expected + 1) expected)).1 (sym (take_self expected)) in
      ground arith
