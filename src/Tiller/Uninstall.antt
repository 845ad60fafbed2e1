-- ===== src/Tiller/Uninstall.antt =====
-- pkg/tiller/release_uninstall.go
pub mod Outcome
mod Tests
use helm.Common.{
  Bytes, codes, Bool, true, if◌then◌else◌, Option, none, some, List, [], ◌∷◌, ◌++◌, map, length,
}
use helm.Common.Decimal.{Int64}
use helm.Release.{Release, Timestamp, status_eq, deleting, deleted, set_status, set_description}
use helm.Result.{
  Error, Result, ok, err, pure, raise, lift, message, missing_release, already_deleted,
  deletion_completed, ◌>>=◌, ◌>>◌,
}
use helm.Releaseutil.Sorter.{sort_by_revision}
use helm.Storage.Driver.{Driver}
use helm.Storage.Store
use helm.Tiller.Server.{
  Env, Action, on_store, from_store, recorded, current_time, validate_release_name,
}
use helm.Tiller.Hooks.{hooks_unless, or_fail}
use helm.Tiller.Modules.{module_delete}
use helm.Tiller.Install.{described}

-- services.UninstallReleaseRequest
pub record UninstallRequest : Type 0 where
  pub name : Bytes
  pub disable_hooks : Bool
  pub purge : Bool
  pub timeout : Int64
  pub description : Bytes

-- services.UninstallReleaseResponse
pub record UninstallResponse : Type 0 where
  pub release : Release
  pub info : Bytes

-- the last of a list of releases
unfoldable pub final : List Release → Option Release
final [] = none
final (r ∷ []) = some r
final (r ∷ s ∷ rs) = final (s ∷ rs)

-- strings.Join(es, "; ")
unfoldable pub join : List Bytes → Bytes
join [] = []
join (e ∷ []) = e
join (e ∷ f ∷ es) = e ++ (codes "; " ++ join (f ∷ es))

-- the release as it is marked before its resources are deleted
abbrev pub deleting_release : Timestamp → Release → Release
deleting_release now r = record r {
  info = record r.info {
    code = deleting;
    deleted_at = some now;
    description = codes "Deletion in progress (or silently failed)";
  };
}

module _ (D : Driver) (env : Env) where
  -- purgeReleases: it stops at the first error
  unfoldable pub purge_releases : List Release → Action D (Unit {0})
  unfolding Store.delete
  purge_releases [] = pure tt
  purge_releases (r ∷ rs) = on_store D (Store.delete D r.name r.version) >> purge_releases rs

  -- the deletion of a release that is marked deleted already
  unfoldable pub purge_again :
      UninstallRequest → List Release → Release → Action D UninstallResponse
  unfolding purge_releases
  purge_again req rels rel =
      if req.purge
      then purge_releases rels >> pure (record { release = rel; info = [] })
      else raise (already_deleted req.name)

  abbrev pub hook_error : List Error → Result (Unit {0}) → List Error
  hook_error errs (ok _) = errs
  hook_error errs (err e) = errs ++ e ∷ []

  abbrev pub completed : UninstallResponse → List Error → Action D UninstallResponse
  completed res [] = pure res
  completed res (e ∷ es) =
      raise (deletion_completed (length (e ∷ es)) (join (map message (e ∷ es))))

  -- the end of UninstallRelease: the release is deleted, and its history purged or updated
  unfoldable pub finish_uninstall :
      UninstallRequest → List Release → UninstallResponse → List Error → Action D UninstallResponse
  unfolding purge_releases Store.update join message
  finish_uninstall req rels res errs =
      if req.purge
      then purge_releases rels >> pure res
      else recorded D res.release true >> completed res errs

  abbrev pub deleted_release : UninstallRequest → Release → Release
  deleted_release req r =
      set_description (described req.description (codes "Deletion complete")) (set_status deleted r)

  -- the deletion of a release that is not marked deleted
  unfoldable pub run_uninstall :
      UninstallRequest → List Release → Release → Action D UninstallResponse
  unfolding module_delete finish_uninstall
  run_uninstall req rels rel = do
    now ← current_time D env
    before ←
        hooks_unless D env req.disable_hooks (deleting_release now rel) (codes "pre-delete")
          req.timeout
    rel ← or_fail D env before
    recorded D rel true
    removed ← (λ s. let (r, s') = module_delete D env rel s in (ok r, s'))
    after ← hooks_unless D env req.disable_hooks rel (codes "post-delete") req.timeout
    finish_uninstall req rels (record { release = deleted_release req after.1; info = removed.0 })
        (hook_error removed.1 after.0)

  unfoldable pub uninstall_last :
      UninstallRequest → List Release → Option Release → Action D UninstallResponse
  unfolding purge_again run_uninstall
  uninstall_last req rels none = raise missing_release
  uninstall_last req rels (some rel) =
      if status_eq rel.info.code deleted
      then purge_again req rels rel
      else run_uninstall req rels rel

  -- UninstallRelease
  unfoldable pub uninstall_release : UninstallRequest → Action D UninstallResponse
  unfolding uninstall_last final sort_by_revision Store.history validate_release_name
  uninstall_release req = do
    lift (validate_release_name req.name)
    rels ← from_store D (Store.history D req.name)
    let rels = sort_by_revision rels
    uninstall_last req rels (final rels)
