-- ===== src/Tiller/Samples.antt =====
-- Concrete releases, a world and a server for the tests.
use helm.Common.{Bytes, codes, Bool, false, none, some, List, [], ◌∷◌, length}
use helm.Common.Decimal.{Int32, int32, int64}
use helm.Release.{
  Release, Hook, Status, superseded, deployed, pre_rollback, pre_install, on_succeeded,
  before_creation,
}
use helm.Result.{ok}
use helm.Storage.Records.{Records, new_record}
use helm.Storage.Memory.{Cache, memory}
use helm.Storage.Store.{make_key}
use helm.Tiller.Server.{Env, Server, Manifest}
use helm.Tiller.Rollback.{RollbackRequest}
use helm.Tiller.Install.{InstallRequest}
use helm.Tiller.Upgrade.{UpdateRequest}

abbrev pub web : Bytes
web = codes "web"

abbrev pub migrate : Hook
migrate = record {
  name = codes "migrate";
  kind = codes "Job";
  path = codes "migrate.yaml";
  manifest = codes "job";
  events = pre_rollback ∷ pre_install ∷ [];
  last_run = none;
  weight = int32 5;
  delete_policies = before_creation ∷ on_succeeded ∷ [];
  delete_timeout = int64 0;
}

abbrev pub sample : Int32 → Status → Release
sample v status = record {
  name = web;
  info = record {
    code = status;
    notes = [];
    first_deployed = 1;
    last_deployed = 1;
    deleted_at = none;
    description = [];
  };
  chart = some (record { chart_name = some web; values = none; content = [] });
  config = none;
  manifest = codes "m";
  hooks = migrate ∷ [];
  version = v;
  namespace = codes "ns";
}

abbrev pub first_release : Release
first_release = sample (int32 1) superseded

abbrev pub second_release : Release
second_release = sample (int32 2) deployed

abbrev pub kept_file : Manifest
kept_file = record {
  name = codes "a";
  content = codes "claim";
  kind = codes "PersistentVolumeClaim";
  metadata_name = some (codes "a");
  annotations = (codes "helm.sh/resource-policy", codes "keep") ∷ [];
}

abbrev pub plain_file : Manifest
plain_file = record {
  name = codes "b";
  content = codes "pod";
  kind = codes "Pod";
  metadata_name = some (codes "b");
  annotations = [];
}

-- The cluster accepts every call.
abbrev pub world : Env
world = record {
  reply = λ _ _. none;
  output = λ _ _. [];
  now = λ calls. length calls;
  name_sep = λ _ i. codes "fuzzy";
  render = λ _ _ _ _ _.
      (ok (record { hooks = migrate ∷ []; manifest = codes "m"; notes = [] }), codes "m");
  coalesced_yaml = λ _ _. ok [];
  merged_yaml = λ _ raw. ok raw;
  uninstall_manifests = λ _. ok (kept_file ∷ plain_file ∷ []);
}

abbrev pub empty_server : Server memory
empty_server = record { store = record { max_history = 0; db = [] }; calls = [] }

abbrev pub records_of : List Release → Cache
records_of rs = (web, entries rs) ∷ []
  where
    entries : List Release → Records
    entries [] = []
    entries (r ∷ rs) = new_record (make_key r.name r.version) r ∷ entries rs

abbrev pub server_with : List Release → Server memory
server_with rs = record { store = record { max_history = 0; db = records_of rs }; calls = [] }

abbrev pub rollback_request : Bool → RollbackRequest
rollback_request dry_run = record {
  name = web;
  dry_run = dry_run;
  disable_hooks = false;
  version = int32 0;
  recreate = false;
  timeout = int64 300;
  wait = false;
  force = false;
  description = [];
  cleanup_on_fail = false;
}

abbrev pub install_request_of : Bool → InstallRequest
install_request_of dry_run = record {
  chart = some (record { chart_name = some web; values = none; content = [] });
  values = none;
  dry_run = dry_run;
  name = web;
  disable_hooks = false;
  namespace = codes "ns";
  reuse_name = false;
  timeout = int64 300;
  wait = false;
  disable_crd_hook = false;
  description = [];
  sub_notes = false;
}

abbrev pub update_request_of : Bool → UpdateRequest
update_request_of dry_run = record {
  name = web;
  chart = some (record { chart_name = some web; values = none; content = [] });
  values = none;
  dry_run = dry_run;
  disable_hooks = false;
  recreate = false;
  timeout = int64 300;
  reset_values = false;
  wait = false;
  reuse_values = false;
  force = false;
  description = [];
  sub_notes = false;
  cleanup_on_fail = false;
}
