-- ===== src/Tiller/Uninstall/Outcome.antt =====
-- What an uninstall returns when it returns a response.
use helm.Common.{
  ◌++◌, arith, true, ◌≡◌, refl, ap, List, [], ◌∷◌, Bytes, codes, Option, none, some, ℕ,
}
use helm.Release.{Release, deleted, status_eq}
use helm.Releaseutil.Latest.{IsLatest, sort_by_revision-IsLatest}
use helm.Releaseutil.Sorter.{sort_by_revision}
use helm.Result.{ok, Error, pure, raise, already_deleted, ◌>>◌}
use helm.Result.Ends.{Ends, Ends-eq, Ends-weaken, >>=-Ends, >>=-Ends_any, if-Ends, reads-Ends}
use helm.Storage.Driver.{Driver}
use helm.Storage.Store
use helm.Tiller.Server.{Env, Server, validate_release_name}
use helm.Tiller.Hooks.Stamped.{Kept, through_hooks, hooks_unless-Ends, IsStamped, IsStamped-trans}
use helm.Tiller.Uninstall.{
  UninstallRequest, UninstallResponse, final, deleting_release, deleted_release, purge_releases,
  purge_again, completed, finish_uninstall, run_uninstall, uninstall_last, uninstall_release,
}

-- The response has the release, marked deleted.
pub record IsDeleted (rel : Release) (res : UninstallResponse) : Type 0 where
  pub code : status_eq res.release.info.code deleted ≡ true
  pub name : res.release.name ≡ rel.name
  pub version : res.release.version ≡ rel.version
  pub manifest : res.release.manifest ≡ rel.manifest

module _ (D : Driver) (env : Env) (req : UninstallRequest) where
  module _ (rel : Release) where
    abbrev Gone : UninstallResponse → Server D → Type 0
    Gone res t = IsDeleted rel res

    completed-Ends :
        (res : UninstallResponse) (errs : List Error) (s : Server D)
        → IsDeleted rel res
        → Ends Gone (completed D env res errs s)
    completed-Ends res [] s h = h
    completed-Ends res (e ∷ es) s h = tt

    finish_uninstall-Ends :
        (rels : List Release) (res : UninstallResponse) (errs : List Error) (s : Server D)
        → IsDeleted rel res
        → Ends Gone (finish_uninstall D env req rels res errs s)
    unfolding finish_uninstall
    finish_uninstall-Ends rels res errs s h =
        if-Ends Gone req.purge _ _ s
          (λ _. >>=-Ends_any Gone (purge_releases D env rels) (λ _. pure res) s λ _ _ _. h)
          (λ _. >>=-Ends_any Gone _ _ s λ _ t _. completed-Ends res errs t h)

    IsDeleted-stamped :
        (now : ℕ) (info : Bytes) (r : Release)
        → IsStamped (deleting_release now rel) r
        → IsDeleted rel (record { release = deleted_release D env req r; info = info })
    IsDeleted-stamped now info r (hs, a, e) = record {
      code = refl;
      name = ap (λ q. q.name) e;
      version = ap (λ q. q.version) e;
      manifest = ap (λ q. q.manifest) e;
    }

    run_uninstall-Ends :
        (rels : List Release) (s : Server D) → Ends Gone (run_uninstall D env req rels rel s)
    unfolding run_uninstall
    run_uninstall-Ends rels s =
        reads-Ends Gone (λ u. ok (env.now u.calls)) _ s
          λ now _.
            through_hooks D env Gone (deleting_release now rel) req.disable_hooks
              (codes "pre-delete") req.timeout _ s
              λ r t h _. >>=-Ends_any Gone _ _ t λ _ u _. >>=-Ends_any Gone _ _ u λ removed v _.
                >>=-Ends (Kept D env r) Gone _ _ v
                  (hooks_unless-Ends D env r req.disable_hooks (codes "post-delete") req.timeout v)
                  λ after w k. finish_uninstall-Ends rels _ _ w (
                    IsDeleted-stamped now removed.0 after.1
                      (IsStamped-trans (deleting_release now rel) r after.1 h k))

    purge_again-Ends :
        (rels : List Release) (s : Server D)
        → status_eq rel.info.code deleted ≡ true
        → Ends Gone (purge_again D env req rels rel s)
    unfolding purge_again
    purge_again-Ends rels s h =
        if-Ends Gone req.purge
          (purge_releases D env rels >> pure (record { release = rel; info = [] }))
          (raise (already_deleted req.name)) s
          (λ _.
            >>=-Ends_any Gone _ _ s
              λ _ _ _. record { code = h; name = refl; version = refl; manifest = refl })
          (λ _. tt)

  abbrev GoneOf : Option Release → UninstallResponse → Server D → Type 0
  GoneOf o res t = (rel : Release) × (o ≡ some rel) × IsDeleted rel res

  uninstall_last-Ends :
      (rels : List Release) (o : Option Release) (s : Server D)
      → Ends (GoneOf o) (uninstall_last D env req rels o s)
  unfolding uninstall_last
  uninstall_last-Ends rels none s = tt
  uninstall_last-Ends rels (some rel) s =
      let Q : UninstallResponse → Server D → Type 0 = GoneOf (some rel) in
      if-Ends Q (status_eq rel.info.code deleted) (purge_again D env req rels rel)
        (run_uninstall D env req rels rel) s
        (λ h. Ends-weaken (Gone rel) Q _ (purge_again-Ends rel rels s h) λ res t k. (rel, refl, k))
        (λ _. Ends-weaken (Gone rel) Q _ (run_uninstall-Ends rel rels s) λ res t k. (rel, refl, k))

  final_end :
      (l : List Release) (r : Release) → final l ≡ some r → (xs : List Release) × (l ≡ xs ++ r ∷ [])
  unfolding final
  final_end [] r h = cc
  final_end (q ∷ []) r h = ([], ground arith)
  final_end (q ∷ p ∷ l) r h = let (xs, e) = final_end (p ∷ l) r h in (q ∷ xs, ap (λ x. q ∷ x) e)

  abbrev Uninstalled : Server D → UninstallResponse → Server D → Type 0
  Uninstalled s res t =
      (rels : List Release) × (rel : Release) × (Store.history D req.name s.store ≡ ok rels)
      × IsLatest rels rel
      × IsDeleted rel res

  uninstall-Ends : (s : Server D) → Ends (Uninstalled s) (uninstall_release D env req s)
  unfolding uninstall_release
  uninstall-Ends s =
      reads-Ends (Uninstalled s) (λ _. validate_release_name req.name) _ s
        λ _ _.
          reads-Ends (Uninstalled s) (λ t. Store.history D req.name t.store) _ s
            λ rels found.
              Ends-weaken (GoneOf (final (sort_by_revision rels))) (Uninstalled s) _
                (uninstall_last-Ends (sort_by_revision rels) (final (sort_by_revision rels)) s)
                λ res t (rel, last, k).
                  (let (xs, cut) = final_end (sort_by_revision rels) rel last in
                    (rels, rel, found, sort_by_revision-IsLatest rels xs rel cut, k))

  -- An uninstall that returns a response, returns the release of the greatest revision in the
  -- name's history: its name, version and manifest, marked deleted.
  pub uninstall-IsDeleted :
      (s t : Server D) (res : UninstallResponse)
      → uninstall_release D env req s ≡ (ok res, t)
      → (rels : List Release) × (rel : Release) × (Store.history D req.name s.store ≡ ok rels)
        × IsLatest rels rel
        × IsDeleted rel res
  uninstall-IsDeleted s t res h = Ends-eq (Uninstalled s) (uninstall-Ends s) h
