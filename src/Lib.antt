-- ===== src/Lib.antt =====
-- EdgeLab: the control plane of a small edge-hosting lab, as far as its Go programs decide it.
--
-- A worker (cmd/worker) prepares writable snapshots of images that it fetches from a store, keeps a
-- registry of the instances that it serves, publishes it to two routers, keeps its workloads running
-- and can be restored from a backup. An object store (cmd/objects) and an echo instance (cmd/echo)
-- are among those workloads; a traffic generator (cmd/traffic) talks to the latter. A growth
-- controller (cmd/grow) enlarges the data volume.
--
-- Files and code:
--   Registry     cmd/worker/serve.go: `register`, `snapshot` and the opening of the database. The two
--                SQL tables are a record; a transaction writes a record of its own, which its commit keeps
--                and its rollback drops. Registry/Lives.antt is its abstract view, which
--                Registry/Refinement.antt relates to the code.
--   Management   cmd/worker/serve.go: serveWorker's checks of its configuration, and the handlers of
--                /instances and /snapshot, which call the registry.
--   Daemon       cmd/worker/serve.go: the start of serveWorker (Daemon.antt), and the turns that the calls
--                of /instances and the publication loop take (Daemon/Run.antt). It composes Registry,
--                Management and Publication.
--   Publication  cmd/worker/serve.go: reconcileWorkloads, publishLoop and the observations that
--                /status shows. The commands and the posts that go out are kept in a log.
--   Listener     cmd/worker/serve.go: workerListener and workerConnection.
--   Recovery     cmd/worker/recover.go: the merge of the routers' accounts and the quarantine
--                (Recovery.antt), the checks of the command (Recovery/Start.antt), its run up to its
--                plan (Recovery/Run.antt), and the acknowledgements and the last writes
--                (Recovery/Command.antt).
--   Image        cmd/worker/image.go: validDigest, durableFile and fetch with its cache (Image.antt);
--                loadLayers, with the admission of an archive's entries (Image/Archive.antt) and the
--                manifest, the configuration and the layers (Image/Layers.antt); applyLayers over a
--                tree, which is a function from paths to files and folders (Image/Unpack.antt); what a
--                removal or a write that fails leaves is an input.
--   Storage      cmd/worker/storage.go: inspect, capacity and validate (Storage.antt), create, mount
--                and unmount (Storage/Creation.antt), over the volumes of the group and the mounts;
--                treeDigest (Storage/Digest.antt), a walk over folders and files.
--   Prepare      cmd/worker/main.go: a run from the count of the stored operations to the registered
--                snapshot, after the checks of the arguments and of what the worker owns
--                (Prepare/Start.antt, Prepare/Worker.antt), and the extraction child, which such a run
--                starts and which checks the same and its mount. Its world (Prepare.antt) has the
--                operations, the cache, the volumes, the mounts and the file systems; its steps
--                (Prepare/Steps.antt) call Storage and Image on their parts of it, and Prepare/Run.antt
--                composes them.
--   Objects      cmd/objects/main.go: ServeHTTP and `owned`.
--   ObjectsCheck cmd/objects-check/main.go: the client of the object store that keeps a manifest of the
--                acknowledged uploads and verifies it, over the model of the store.
--   Grow         cmd/grow/main.go: the bounds of the flags (Grow.antt) and the closure `step`
--                (Grow/Step.antt), the checks of its fixture (Grow/Start.antt) and the loop of main
--                (Grow/Control.antt).
--   Traffic      cmd/traffic/main.go: what `request` makes of a reply, and the workers' shared counter
--                (Traffic/Workers.antt), its flags and its summary (Traffic/Summary.antt);
--                cmd/echo/main.go: the reply.
--   Shared       maps and SQL tables as association lists, `(value, error)` results, functions that
--                write durable state and may fail, relative paths, and Go's tests of texts.
--   Examples     tests, and each theorem at an input that meets its conditions.
--
-- How code is rendered. A function that writes state and may fail is an `Action`: what was written
-- before the error stays. A call of the system or of a library that may fail is a field of what the
-- operation meets (Faults, Environment, Conditions, Surroundings, Network, Kernel, Tools), so a theorem
-- over every such value covers every failure that such a value describes. A call on a path may fail on
-- some paths and not on others; a command on the volumes fails in all of a run or in none of it. A
-- process that exits at one of its interruption points ends with an error at that point. A map is
-- iterated in the order of its list, and the theorems hold for every list. Numbers are natural numbers;
-- the wrap-around of uint64 and int64 is written out where the code's guards do not exclude it. Every
-- loop is structural recursion on its list, so no fuel is needed; a loop that the code never leaves is
-- run for as many rounds or events as a list has.
--
-- Parameters. JSON encoding (what is encoded decodes to the same snapshot or identity), gzip, tar,
-- SHA-256, float64 with its parsing, io.LimitReader, net/netip, the routers, the supervisor, the
-- instances, and the volume tools with what they make of the group are arguments of the definitions. The
-- preparation takes the digest of a tree as an argument too: its tree is a function from paths, which has
-- no listing to walk over.
--
-- Not modelled: sockets and timeouts; concurrent requests to the object store, other than the slots
-- that they hold; the slots of the echo instance; the parsing of flags; the history and the printed
-- reports of the traffic generator and of the checking programs; image-check, which compares a
-- mounted file system with a manifest of its own, and routing-check, which starts the routers; the
-- proxy and the routing engine, which are in Rust.
pub mod Shared
pub mod Registry
pub mod Management
pub mod Recovery
pub mod Examples
pub mod Grow
pub mod Objects
pub mod ObjectsCheck
pub mod Daemon
pub mod Publication
pub mod Listener
pub mod Image
pub mod Storage
pub mod Prepare
pub mod Traffic
