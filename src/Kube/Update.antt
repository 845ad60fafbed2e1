-- ===== src/Kube/Update.antt =====
-- UpdateWithOptions, Update and cleanup of pkg/kube/client.go.
pub mod Scope
pub mod Visits
pub mod Changes
pub mod Failure
use helm.Common.Decimal.{Int64}
use helm.Kube.Wait.{wait_for_resources}
use helm.Kube.Api.{
  Request, Api, Act, get_helper, get_info, create_resource, delete_resource, wrapping,
}
use helm.Kube.Patch.{update_resource}
use helm.Result.{
  Error, external, quote, message, Result, ok, err, pure, raise, lift, attempt, ◌>>=◌, ◌>>◌,
}
use helm.Kube.Infos.{Info}
use helm.Common.Text.{contains}
use helm.Common.{
  if◌then◌else◌, Bytes, codes, Bool, none, List, true, ◌∷◌, some, ◌++◌, Option, [], false,
}
use helm.Kube.Infos
use helm.Tiller.Modules.{resource_policy_is_keep}
use helm.Tiller.Server.{UpdateOptions}

-- What the visit of the targets has done: the resources created, the messages of failed updates,
-- the targets as they are then, and the error that has ended the visit.
pub record Visited (O : Type 0) : Type 0 where
  pub created : List (Info O)
  pub update_errors : List Bytes
  pub targets : List (Info O)
  pub failure : Option Error

-- What the visit of one target comes to, when it goes on.
pub data Change (O : Type 0) : Type 0 where
  created_info updated_info : Info O → Change O
  failed_update : Info O → Error → Change O

-- strings.Join(messages, " && ")
unfoldable pub join_and : List Bytes → Bytes
join_and [] = []
join_and (m ∷ []) = m
join_and (m ∷ n ∷ ms) = m ++ (codes " && " ++ join_and (n ∷ ms))

module _ {O : Type 0} where
  abbrev pub unmanaged : Info O → Error
  unmanaged info = external (
      codes "kind "
      ++ (info.kind
          ++ (codes " with the name "
              ++ (quote info.name
                  ++ (codes " in "
                      ++ (quote info.namespace
                          ++ codes
                              " already exists in the cluster and wasn't defined in the previous release. Before upgrading, please either delete the resource from the cluster or remove it from the chart"))))))

  abbrev pub update_change : Info O → Result (Info O) → Change O
  update_change info (ok i) = updated_info i
  update_change info (err e) = failed_update info e

  abbrev pub noted : Change O → Visited O → Visited O
  noted (created_info i) v = record v {
    created = v.created ++ i ∷ [];
    targets = v.targets ++ i ∷ [];
  }
  noted (updated_info i) v = record v { targets = v.targets ++ i ∷ [] }
  noted (failed_update i e) v = record v {
    update_errors = v.update_errors ++ message e ∷ [];
    targets = v.targets ++ i ∷ [];
  }

  -- the first messages of the error of the update
  abbrev pub failures : Visited O → List Bytes
  failures v = elim v.failure [ some e ↦ message e ∷ [] | none ↦ v.update_errors ]

  abbrev pub nothing_visited : Visited O
  nothing_visited = record { created = []; update_errors = []; targets = []; failure = none }

module _ {O : Type 0} (api : Api O) where
  -- the visit of a target that cannot be read, whether or not since it is not in the cluster
  unfoldable pub create_missing : Info O → Error → Bool → Act O (Change O)
  unfolding create_resource
  create_missing info e true =
      wrapping (codes "failed to create resource: ") (create_resource api info) >>= λ i.
      pure (created_info i)
  create_missing info e false =
      raise (external (codes "Could not get information about the resource: " ++ message e))

  -- the visit of a target that is in the cluster, for the resource of the original
  unfoldable pub update_existing : UpdateOptions → Info O → Option (Info O) → Act O (Change O)
  unfolding update_resource
  update_existing opts info none = raise (unmanaged info)
  update_existing opts info (some original) =
      attempt (update_resource api info original.object opts.force opts.recreate) >>= λ r.
      pure (update_change info r)

  abbrev pub visit_got : UpdateOptions → List (Info O) → Info O → Result O → Act O (Change O)
  visit_got opts original info (ok _) = update_existing opts info (Infos.get original info)
  visit_got opts original info (err e) = create_missing info e (api.is_not_found e)

  unfoldable pub visit_one : UpdateOptions → List (Info O) → Info O → Act O (Change O)
  unfolding get_helper create_missing update_existing Infos.get
  visit_one opts original info = attempt (get_helper api info) >>= visit_got opts original info

  abbrev pub visited_one :
      (Visited O → List (Request O) → Visited O × List (Request O))
      → Visited O
      → Result (Change O) × List (Request O)
      → Visited O × List (Request O)
  visited_one rest v (ok c, s) = rest (noted c v) s
  visited_one rest v (err e, s) = (record v { failure = some e }, s)

  -- target.Visit
  unfoldable pub visit :
      UpdateOptions
      → List (Info O)
      → List (Info O)
      → Visited O
      → List (Request O)
      → Visited O × List (Request O)
  unfolding visit_one
  visit opts original [] v s = (v, s)
  visit opts original (i ∷ is) v s =
      visited_one (visit opts original is) v (visit_one opts original i s)

  abbrev pub error_message : Result (Unit {0}) → List Bytes
  error_message (ok _) = []
  error_message (err e) = message e ∷ []

  -- the messages of the deletions that fail
  unfoldable pub cleanup : List (Info O) → List (Request O) → List Bytes × List (Request O)
  unfolding delete_resource
  cleanup [] s = ([], s)
  cleanup (i ∷ is) s =
      let (r, s') = delete_resource api i s in
      let (es, s'') = cleanup is s' in (error_message r ++ es, s'')

  abbrev pub or_unchanged : Info O → Result (Info O) → Info O
  or_unchanged info (ok i) = i
  or_unchanged info (err e) = info

  abbrev pub or_nil : Result (List (Bytes × Bytes)) → List (Bytes × Bytes)
  or_nil (ok annotations) = annotations
  or_nil (err e) = []

  -- whether the policy of a resource is to keep it
  unfoldable pub is_kept : Info O → Bool
  unfolding resource_policy_is_keep
  is_kept info = resource_policy_is_keep (or_nil (api.annotations info.object))

  unfoldable pub delete_unless_kept : Info O → Bool → Act O (Unit {0})
  unfolding delete_resource
  delete_unless_kept info true = pure tt
  delete_unless_kept info false = attempt (delete_resource api info) >>= λ d. pure tt

  -- A resource that is in the original and not in the target is read again, and deleted unless
  -- it is to be kept. Errors are only logged.
  unfoldable pub sweep_one : Info O → Act O (Unit {0})
  unfolding get_info delete_unless_kept is_kept
  sweep_one info = attempt (get_info api info) >>= λ r.
      delete_unless_kept (or_unchanged info r) (is_kept (or_unchanged info r))

  unfoldable pub sweep : List (Info O) → Act O (Unit {0})
  unfolding sweep_one
  sweep [] = pure tt
  sweep (i ∷ is) = sweep_one i >> sweep is

  -- cleanup, where it is asked for and there was an error
  abbrev pub cleanup_if : Bool → List (Info O) → List (Request O) → List Bytes × List (Request O)
  cleanup_if true created s = cleanup created s
  cleanup_if false created s = ([], s)

  abbrev pub joined :
      List Bytes → List Bytes × List (Request O) → Result (Unit {0}) × List (Request O)
  joined errors (cleanup_errors, s) = (err (api.errorf (join_and (errors ++ cleanup_errors))), s)

  abbrev pub wait_outcome : Bool → List (Info O) → Result (Unit {0}) → Act O (Unit {0})
  wait_outcome clean created (ok _) s = (ok tt, s)
  wait_outcome true created (err e) s = joined (message e ∷ []) (cleanup created s)
  wait_outcome false created (err e) s = (err e, s)

  -- the wait at the end, where it is asked for
  unfoldable pub await : Bool → UpdateOptions → Visited O → Act O (Unit {0})
  unfolding wait_for_resources cleanup join_and
  await false opts v = pure tt
  await true opts v = attempt (wait_for_resources api opts.timeout v.targets) >>= λ r.
      wait_outcome opts.cleanup_on_fail v.created r

  -- after the visit: the messages of its errors, if any
  unfoldable pub settle : UpdateOptions → List (Info O) → Visited O → List Bytes → Act O (Unit {0})
  unfolding cleanup sweep await Infos.difference join_and
  settle opts original v (e ∷ es) s = joined (e ∷ es) (cleanup_if opts.cleanup_on_fail v.created s)
  settle opts original v [] s =
      (sweep (Infos.difference original v.targets) >> await opts.should_wait opts v) s

  unfoldable pub update_built : UpdateOptions → List (Info O) → List (Info O) → Act O (Unit {0})
  unfolding visit settle
  update_built opts original target s =
      let (v, s') = visit opts original target nothing_visited s in
      settle opts original v (failures v) s'

  abbrev kubs_api_error_msg : Bytes
  kubs_api_error_msg = codes "unable to recognize \"\": no matches for kind"

  -- the error of a manifest that does not build, with the text for a removed API
  abbrev pub explain : Bytes → Result (List (Info O)) → Result (List (Info O))
  explain dropped (ok infos) = ok infos
  explain dropped (err e) =
      if contains (message e) kubs_api_error_msg
      then err (external (dropped ++ message e))
      else err (external (codes "failed decoding reader into objects: " ++ message e))

  unfoldable pub update_with_options : Bytes → Bytes → Bytes → UpdateOptions → Act O (Unit {0})
  unfolding update_built contains
  update_with_options namespace original_reader target_reader opts s =
      (lift (
            explain
              (codes
                "current release manifest contains removed kubernetes api(s) for this kubernetes version and it is therefore unable to build the kubernetes objects for performing the diff. error from kubernetes: ")
              (api.build s namespace original_reader))
          >>= λ original.
              lift (
                explain
                  (codes
                    "new release manifest contains removed kubernetes api(s) for this kubernetes version and it is therefore unable to build the kubernetes objects for deployment. error from kubernetes: ")
                  (api.build s namespace target_reader))
              >>= λ target. update_built opts original target)
        s

  -- Client.Update
  unfoldable pub update : Bytes → Bytes → Bytes → Bool → Bool → Int64 → Bool → Act O (Unit {0})
  unfolding update_with_options
  update namespace original_reader target_reader force recreate timeout should_wait =
      update_with_options namespace original_reader target_reader record {
        force = force;
        recreate = recreate;
        timeout = timeout;
        should_wait = should_wait;
        cleanup_on_fail = false;
      }
