-- ===== src/Daemon/Started.antt =====
-- What the start of a worker's daemon leaves to it (cmd/worker/serve.go), and what it keeps from there on.
use edgelab.Objects.{owned}
use edgelab.Shared.Table.{lookup}
use edgelab.Shared.Pragmas.{is_durable_sound}
use edgelab.Registry.History.{empty-IsConsistent, empty_snapshot}
use edgelab.Daemon.{status_epoch}
use edgelab.Daemon.Run.{Event}
use edgelab.Shared.Outcome.{Outcome-cases, ok}
use edgelab.Shared.{
  Option-cases, String, [], arith, eq_iff, inl, inr, none, some, ◌≡◌, ◌⊎◌, List, ap, subst, sym,
  ◌∙◌,
}
use edgelab.Daemon.{Machine, ServeFlags, check_owner, open_state, read_config}
use edgelab.Daemon.Run.{Settings, serve, serve_worker, started, store_initial}
use edgelab.Daemon.Served.{HasServed, HasSnapshot, HasServed-serve}
use edgelab.Registry.{Database, Platform, RouteSnapshot, snapshot}
use edgelab.Registry.History.{insert_initial}
use edgelab.Management.{Decoders, check_config}

-- What a start that goes through has done to the database, and checked of it.
record HasStarted {Blob : Type 0} (p : Platform Blob) (h : Machine) (db db' : Database Blob)
    (owner : String) : Type 0 where
  inserted : insert_initial p owner db ≡ ok db'
  s : RouteSnapshot
  stored : snapshot p db' ≡ some s
  own : s.owner ≡ owner
  logged : h.journal ≡ some "wal"
  synchronised : h.synchronous ≡ some 2

-- A new database, or one that an earlier daemon has left.
abbrev pub IsReady :
    {Body Blob : Type 0} → Decoders Body → Platform Blob → Settings → Database Blob → Type 0
IsReady d p settings db =
    ((db.body ≡ none) × (db.operations ≡ []))
    ⊎ ((s : RouteSnapshot) × HasSnapshot d p settings db s)

module _ {Blob : Type 0} (p : Platform Blob) (h : Machine) where
  check_owner_ok :
      (owner : String) (db : Database Blob)
      → check_owner p h owner db ≡ ok tt
      → (s : RouteSnapshot) × (snapshot p db ≡ some s) × (s.owner ≡ owner)
  unfolding check_owner
  check_owner_ok owner db e = elim (Option-cases (snapshot p db)) [
    | inl bad ↦ absurd (ground arith)
    | inr (s, there) ↦ (s, there, ground (arith, eq_iff s.owner owner))
  ]

  serve_worker-HasStarted :
      (flags : ServeFlags) (db : Database Blob) (settings : Settings)
      → (serve_worker p flags h db).1 ≡ ok settings
      → HasStarted p h db (serve_worker p flags h db).0 settings.config.owner
  unfolding serve_worker store_initial open_state
  serve_worker-HasStarted flags db settings e = elim (Outcome-cases (read_config flags h)) [
    | inr (x, bad) ↦ absurd (ground arith)
    | inl (config, read) ↦ elim (Outcome-cases (check_config config)) [
      | inr (x, bad) ↦ absurd (ground arith)
      | inl (allowed, checked) ↦ elim (Outcome-cases (open_state h)) [
        | inr (x, bad) ↦ absurd (ground arith)
        | inl (u, opened) ↦ elim (Outcome-cases (insert_initial p config.owner db)) [
          | inr (x, bad) ↦ absurd (ground arith)
          | inl (db', done) ↦ elim (Outcome-cases (status_epoch h flags.status_version)) [
            | inr (x, bad) ↦ absurd (ground arith)
            | inl (epoch, known) ↦ elim (Outcome-cases (check_owner p h config.owner db')) [
              | inr (x, bad) ↦ absurd (ground arith)
              | inl (u', owned) ↦
                  let same : config ≡ settings.config = ground arith in
                  let after : (serve_worker p flags h db).0 ≡ db' = ground arith in
                  let (s, there, own) = check_owner_ok config.owner db' owned in
                  let (wal, full) = is_durable_sound h.journal h.synchronous (ground arith) in
                  rw after (
                    subst (λ c. HasStarted p h db db' c.owner) same
                      (record {
                        inserted = done;
                        s = s;
                        stored = there;
                        own = own;
                        logged = wal;
                        synchronised = full;
                      }))
            ]
          ]
        ]
      ]
    ]
  ]

  HasSnapshot-insert_initial :
      {Body : Type 0} (d : Decoders Body) (settings : Settings) (db db' : Database Blob)
      → IsReady d p settings db
      → insert_initial p settings.config.owner db ≡ ok db'
      → (s : RouteSnapshot) × HasSnapshot d p settings db' s
  unfolding insert_initial snapshot
  HasSnapshot-insert_initial d settings db db' (inr (s, known)) e =
      let same : db ≡ db' = ground arith in
      subst (λ x. (t : RouteSnapshot) × HasSnapshot d p settings x t) same (s, known)
  HasSnapshot-insert_initial d settings db db' (inl (empty, fresh)) e =
      elim (Option-cases (p.encode (empty_snapshot settings.config.owner))) [
        | inl bad ↦ absurd (ground arith)
        | inr (blob, encoded) ↦
            let after : db' ≡ record db { body = some blob } = ground arith in
            (
              empty_snapshot settings.config.owner,
              (
                rw after (p.decode-encode _ _ encoded),
                rw (after, fresh) (empty-IsConsistent p settings.config.owner),
                λ k r h. unfold empty_snapshot lookup in cc,
              ),
            )
      ]

  -- A daemon that has started has a durable database. However its handlers and its publication loop
  -- take turns from there on, and whatever fails, its registry stays consistent and its own, with
  -- configured workloads alone; each post is to a configured router, of configured workloads alone,
  -- and extends the post before it; and each command is for the unit of the lab that a configured
  -- workload has. The database is new, or is consistent and has configured workloads alone.
  pub serve-HasServed :
      {Body : Type 0} (d : Decoders Body) (flags : ServeFlags) (db : Database Blob)
      (settings : Settings) (events : List (Event Body))
      → IsReady d p settings db
      → (serve_worker p flags h db).1 ≡ ok settings
      → (h.journal ≡ some "wal")
        × (h.synchronous ≡ some 2)
        × HasServed d p settings
            (serve p d settings events (started p settings (serve_worker p flags h db).0))
  unfolding started
  serve-HasServed d flags db settings events ready e =
      let done = serve_worker-HasStarted flags db settings e in
      let db' = (serve_worker p flags h db).0 in
      let (s, known) = HasSnapshot-insert_initial d settings db db' ready done.inserted in
      let same : done.s ≡ s = ground (arith, done.stored, known.0) in
      (
        done.logged,
        done.synchronised,
        HasServed-serve d p settings events (started p settings db') (record {
          current = s;
          stored = known;
          own = ap (λ t. t.owner) (sym same) ∙ done.own;
          ordered = tt;
          commanded = λ command m. elim m [ ];
          routers = λ router m. m;
        }),
      )
