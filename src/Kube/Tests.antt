-- ===== src/Kube/Tests.antt =====
-- The theorems on the Kubernetes client, applied to a small cluster: every name but "new" is in it,
-- and "broken" cannot be read.
use helm.Kube.Watch.Ready.{IsWaiting, IsFinish, job-IsFinish}
use helm.Kube.Watch.{WatchEvent, added, modified, job_complete, Watches, watch_info_until_ready}
use helm.Common.Text.{eqb}
use helm.Common.Decimal.{int64}
use helm.Kube.Update.Failure.{undo, update_built-undo}
use helm.Kube.Update.{nothing_visited, visit, update_built, update_with_options}
use helm.Kube.Api.{
  other, create_object, strategic_merge_patch_type, get_object, delete_object, patch_object, Api,
  watch_objects, condition_true,
}
use helm.Common.{
  if◌then◌else◌, Bytes, codes, ◌≡◌, true, List, Bool, none, false, ◌++◌, ◌∷◌, refl, [], All, inr,
}
use helm.Kube.Infos.{Info}
use helm.Tiller.Server.{UpdateOptions}
use helm.Result.{ok, err, Error, external, message, Result, ◌>>=◌}

abbrev not_found : Error
not_found = external (codes "not found")

abbrev info : Bytes → Bytes → Info Bytes
info name object = record {
  name = name;
  namespace = codes "web";
  kind = codes "Service";
  object = object;
}

abbrev got : Bytes → Result Bytes
got name =
    if eqb name (codes "new")
    then err not_found
    else (if eqb name (codes "broken") then err (external (codes "no answer")) else ok name)

abbrev original : List (Info Bytes)
original = info (codes "a") (codes "1") ∷ info (codes "b") (codes "1") ∷ []

abbrev target : List (Info Bytes)
target = info (codes "a") (codes "2") ∷ info (codes "new") (codes "2") ∷ []

abbrev broken : List (Info Bytes)
broken = info (codes "new") (codes "2") ∷ info (codes "broken") (codes "2") ∷ []

abbrev built : Bytes → Result (List (Info Bytes))
built manifest = ok (if eqb manifest (codes "original") then original else target)

abbrev cluster : Api Bytes
cluster = record {
  build = λ s namespace manifest. built manifest;
  kubernetes_client_set = λ s. none;
  get = λ s namespace name kind. got name;
  create = λ s namespace kind obj. ok obj;
  patch = λ s namespace name kind type patch. ok patch;
  reply = λ s q. none;
  pods = λ s namespace selector. ok [];
  pod_named = λ s namespace name. err not_found;
  deployment_named = λ s namespace name. err not_found;
  new_replica_set = λ s d. ok none;
  claim_named = λ s namespace name. err not_found;
  service_named = λ s namespace name. err not_found;
  max_unavailable = λ d. 0;
  refresh = λ i obj. ok (record i { object = obj });
  is_not_found = λ e. eqb (message e) (codes "not found");
  is_already_exists = λ e. false;
  is_not_registered = λ e. false;
  annotations = λ obj. ok [];
  marshal = λ obj. ok obj;
  create_merge_patch = λ old new. ok new;
  create_two_way_merge_patch = λ old new versioned. ok new;
  as_versioned = λ i. (i.object, none);
  is_unstructured = λ obj. false;
  is_crd = λ obj. false;
  type_of = λ obj. other;
  object_kind = λ obj. codes "Service";
  retries = λ s timeout. 0;
  err_wait_timeout = external (codes "timed out waiting for the condition");
  errorf = λ msg. external msg;
}

abbrev options : Bool → UpdateOptions
options clean = record {
  force = false;
  recreate = false;
  timeout = int64 0;
  should_wait = true;
  cleanup_on_fail = clean;
}

update_requests :
    update_with_options cluster (codes "web") (codes "original") (codes "target") (options true) []
    ≡ (
      ok tt,
      get_object (codes "web") (codes "a") (codes "Service")
          ∷ patch_object
              (codes "web")
              (codes "a")
              (codes "Service")
              strategic_merge_patch_type
              (codes "2")
          ∷ get_object (codes "web") (codes "new") (codes "Service")
          ∷ create_object (codes "web") (codes "Service") (codes "2")
          ∷ get_object (codes "web") (codes "b") (codes "Service")
          ∷ delete_object (codes "web") (codes "b") (codes "Service")
          ∷ [],
    )
unfolding update_with_options ◌>>=◌ message
update_requests = refl

update_built-undo_example :
    let (v, t) = visit cluster (options true) original broken nothing_visited [] in
    ((text : Bytes) × ((update_built cluster (options true) original broken []).0
        ≡ err (external (codes "Could not get information about the resource: no answer" ++ text))))
    × ((update_built cluster (options true) original broken []).1 ≡ t ++ undo true v.created)
unfolding visit ◌>>=◌ message
update_built-undo_example =
    update_built-undo cluster (options true) original broken []
      (codes "Could not get information about the resource: no answer") [] refl

abbrev job : Info Bytes
job = record { name = codes "j"; namespace = codes "web"; kind = codes "Job"; object = [] }

abbrev sightings : Watches Bytes
sightings = record {
  events = λ s i timeout. added (codes "start") ∷ modified (codes "done") ∷ [];
  selector_error = λ name. none;
  job_conditions =
      λ obj. ok (if eqb obj (codes "done") then (job_complete, condition_true, []) ∷ [] else []);
  crd_conditions = λ obj. ok ([], []);
  pod_phase = λ obj. inr obj;
}

job-IsFinish_example :
    (before after : List (WatchEvent Bytes)) × (e : WatchEvent Bytes) × (added (codes "start")
        ∷ modified (codes "done")
        ∷ []
      ≡ before ++ e ∷ after)
    × All (IsWaiting cluster sightings) before
    × IsFinish cluster sightings e
unfolding eqb watch_info_until_ready ◌>>=◌
job-IsFinish_example =
    job-IsFinish cluster sightings (int64 5) job []
      (watch_objects (codes "web") (codes "j") (codes "Job") ∷ []) refl refl
