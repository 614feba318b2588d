-- ===== src/Traffic.antt =====
-- The traffic generator (cmd/traffic/main.go) and the echo instance that it talks to
-- (cmd/echo/main.go): one request with its checks, and the workers that share the attempts.
pub mod Exchange
pub mod Workers
pub mod Summary
pub mod Counted
use edgelab.Publication.{text_at}
use edgelab.Storage.{contains}
use edgelab.Shared.Table.{Table, lookup}
use edgelab.Shared.Outcome.{Outcome, err, expect, fail_if, ok, ◌>>=◌, ◌>>◌}
use edgelab.Shared.{
  Bool, List, Option, String, [], false, if◌then◌else◌, length, none, not, some, str_eq, suc, true,
  zero, ℕ, ◌%◌, ◌&&◌, ◌++◌, ◌+◌, ◌==◌, ◌||◌, ◌∷◌,
}

-- What a request expects: the application, the instances allowed and, if there is one, the manifest
-- of the identities.
pub record Expectation : Type 0 where
  pub app : String
  pub instances : List String
  pub manifest : Option (Table (Table String))

pub data TrafficError : Type 0 where
  no_identity undecodable unexpected_identity missing_field : TrafficError
  not_in_manifest mismatch payload_mismatch : TrafficError

-- encoding/json on an identity.
pub record Identities : Type 0 where
  pub encode : Table String → List ℕ
  pub decode : List ℕ → Option (Table String)

-- bufio.NewReaderSize(conn, 4096)
abbrev pub max_line : ℕ
max_line = 4096

-- "\nEOF\n"
abbrev pub eof : List ℕ
eof = 10 ∷ 69 ∷ 79 ∷ 70 ∷ 10 ∷ []

-- byte((int(id) + i) % 251) for each i.
unfoldable pub payload_from : ℕ → ℕ → ℕ → List ℕ
payload_from id i zero = []
payload_from id i (suc n) = ((id + i) % 251) ∷ payload_from id (i + 1) n

unfoldable pub payload : ℕ → ℕ → List ℕ
unfolding payload_from
payload id size = payload_from id 0 size

-- reader.ReadSlice('\n'): the line without its end, and the rest. The buffer has room for `n` bytes.
unfoldable pub read_line : ℕ → List ℕ → Option (List ℕ × List ℕ)
read_line zero s = none
read_line (suc n) [] = none
read_line (suc n) (b ∷ s) =
    let more = read_line n s in
    if b == 10
    then some ([], s)
    else elim more [ none ↦ none | some (line, rest) ↦ some (b ∷ line, rest) ]

-- io.LimitReader
unfoldable pub take : ℕ → List ℕ → List ℕ
take zero s = []
take (suc n) [] = []
take (suc n) (b ∷ s) = b ∷ take n s

-- bytes.Equal
unfoldable pub equal : List ℕ → List ℕ → Bool
equal [] [] = true
equal [] (b ∷ t) = false
equal (a ∷ s) [] = false
equal (a ∷ s) (b ∷ t) = a == b && equal s t

unfoldable pub has_all : List String → Table String → Bool
has_all [] m = true
has_all (key ∷ rest) m = not (str_eq (text_at key m) "") && has_all rest m

unfoldable pub agrees : List String → Table String → Table String → Bool
agrees [] m expected = true
agrees (key ∷ rest) m expected =
    str_eq (text_at key m) (text_at key expected) && agrees rest m expected

abbrev pub required_fields : List String
required_fields = "worker" ∷ "region" ∷ "version" ∷ []

abbrev pub manifest_fields : List String
manifest_fields = "app" ∷ "worker" ∷ "region" ∷ "version" ∷ []

unfoldable pub check_manifest :
    Table String → Option (Table (Table String)) → Outcome TrafficError (Unit {0})
check_manifest m none = ok tt
check_manifest m (some manifest) = elim (lookup (text_at "instance" m) manifest) [
  | none ↦ err not_in_manifest
  | some expected ↦ if agrees manifest_fields m expected then ok tt else err mismatch
]

unfoldable pub check_identity : Expectation → Table String → Outcome TrafficError (Unit {0})
unfolding check_manifest
check_identity x m = do
  fail_if
      (not (str_eq (text_at "app" m) x.app) || not (contains x.instances (text_at "instance" m)))
      unexpected_identity
  fail_if (not (has_all required_fields m)) missing_field
  check_manifest m x.manifest

-- The rest of the reply, of which one byte too many is read, is the payload and the end.
unfoldable pub check_payload : ℕ → ℕ → List ℕ → Outcome TrafficError (Unit {0})
check_payload id size rest =
    let expected = payload id size ++ eof in
    fail_if (not (equal expected (take (length expected + 1) rest))) payload_mismatch

module _ (json : Identities) (x : Expectation) where
  unfoldable pub check_line : ℕ → ℕ → Option (List ℕ × List ℕ) → Outcome TrafficError (Table String)
  unfolding check_identity check_payload
  check_line id size none = err no_identity
  check_line id size (some (line, rest)) = do
    m ← expect undecodable (json.decode line)
    check_identity x m
    check_payload id size rest
    ok m

  -- What a request makes of all that it receives, where its calls succeed.
  unfoldable pub check_reply : ℕ → ℕ → List ℕ → Outcome TrafficError (Table String)
  unfolding check_line
  check_reply id size reply = check_line id size (read_line max_line reply)

-- What the echo instance writes to a connection from which it has read the body to its end.
unfoldable pub echo : Identities → Table String → List ℕ → List ℕ
echo json identity body = json.encode identity ++ (10 ∷ (body ++ eof))
