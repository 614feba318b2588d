-- ===== src/Examples/Fixtures.antt =====
-- The data of the tests.
use edgelab.Shared.Table.{Table}
use edgelab.Registry.{Database, Faults, Platform, Registration, RouteRecord, RouteSnapshot}
use edgelab.Shared.{Bool, String, [], false, none, some, sym, true, ℕ, ◌≡◌}

pub plain_law : (s b : RouteSnapshot) → some s ≡ some b → some b ≡ some s
plain_law s b h = sym h

-- Snapshots stored as they are; requests told apart by their instance.
abbrev pub plain : Platform RouteSnapshot
plain = record { encode = some; decode = some; request_hash = λ r. r.id; decode-encode = plain_law }

abbrev pub request_of : String → String → String → Bool → Registration
request_of operation id endpoint deleted = record {
  operation = operation;
  id = id;
  app = "echo";
  endpoint = endpoint;
  deleted = deleted;
}

abbrev pub add_one : Registration
add_one = request_of "op-1" "one" "127.0.0.1:19001" false

abbrev pub add_two : Registration
add_two = request_of "op-2" "two" "127.0.0.1:19002" false

abbrev pub delete_one : Registration
delete_one = request_of "op-3" "one" "127.0.0.1:19001" true

abbrev pub new_database : Database RouteSnapshot
new_database = record { body = none; operations = [] }

abbrev pub opened : Database RouteSnapshot
opened = record {
  body =
      some (record { schema = 1; owner = "worker-1"; incarnation = 1; revision = 1; records = [] });
  operations = [];
}

abbrev pub route : String → String → ℕ → Bool → RouteRecord
route id endpoint revision deleted = record {
  id = id;
  app = "echo";
  endpoint = endpoint;
  revision = revision;
  deleted = deleted;
}

abbrev pub snapshot_of : ℕ → Table RouteRecord → RouteSnapshot
snapshot_of revision records = record {
  schema = 1;
  owner = "worker-1";
  incarnation = 1;
  revision = revision;
  records = records;
}

abbrev pub crash_in_commit : Faults
crash_in_commit = record {
  begin = false;
  read_operation = false;
  count_operations = false;
  read_state = false;
  write_state = false;
  write_operation = false;
  commit = true;
}
