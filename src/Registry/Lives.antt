-- ===== src/Registry/Lives.antt =====
-- The registry (cmd/worker/serve.go) as its users see it: each instance is unknown, served or
-- retired. Revisions, the order of the records and the stored operations are forgotten.
use edgelab.Shared.{
  String, if◌then◌else◌, none, some, str_eq, Option, false, true, ◌≡◌, ◌⊎◌, List, [], ◌∷◌,
}
use edgelab.Shared.Table.{lookup}
use edgelab.Registry.{Database, Platform, Registration, RouteRecord, RouteSnapshot, snapshot}

-- With the application and the endpoint.
pub data Life : Type 0 where
  unknown : Life
  serving retired : String → String → Life

abbrev pub Lives : Type 0
Lives = String → Life

unfoldable pub life_of : Option RouteRecord → Life
life_of none = unknown
life_of (some r) = if r.deleted then retired r.app r.endpoint else serving r.app r.endpoint

unfoldable pub view : RouteSnapshot → Lives
unfolding life_of
view s k = life_of (lookup k s.records)

-- The stored snapshot's, if it can be read.
unfoldable pub lives : {Blob : Type 0} → Platform Blob → Database Blob → Lives
lives p db = elim (snapshot p db) [ none ↦ λ k. unknown | some s ↦ view s ]

-- What a request asks for.
abbrev pub wanted : Registration → Life
wanted r = if r.deleted then retired r.app r.endpoint else serving r.app r.endpoint

abbrev pub HasEndpoint : Life → String → Type 0
HasEndpoint unknown endpoint = ⊥
HasEndpoint (serving app e) endpoint = e ≡ endpoint
HasEndpoint (retired app e) endpoint = e ≡ endpoint

-- A new instance comes on an endpoint that no instance has or had; one that is served may be
-- registered again, or retired; one that is retired may be retired again, and nothing else.
pub data Allows (f : Lives) (r : Registration) : Type 0 where
  starts :
      r.deleted ≡ false
      → f r.id ≡ unknown
      → ((k : String) → HasEndpoint (f k) r.endpoint → k ≡ r.id)
      → Allows f r
  serves : f r.id ≡ serving r.app r.endpoint → Allows f r
  retires : r.deleted ≡ true → f r.id ≡ retired r.app r.endpoint → Allows f r

-- A request that is allowed, and what it makes of the instances.
abbrev pub Step : Lives → Registration → Lives → Type 0
Step f r g = Allows f r × (g ≡ (λ k. if str_eq r.id k then wanted r else f k))

-- Request by request: each is a step, or changes nothing.
abbrev pub Follows : Lives → List Registration → Lives → Type 0
Follows f [] g = g ≡ f
Follows f (r ∷ rest) g = (h : Lives) × ((h ≡ f) ⊎ Step f r h) × Follows h rest g
