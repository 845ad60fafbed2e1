-- ===== src/Kube/Update/Visits.antt =====
-- The visit of the targets, the cleanup and the sweep of UpdateWithOptions in pkg/kube/client.go:
-- what they ask for, and how the resources visited correspond to the targets.
use helm.Releaseutil.Filter.{all}
use helm.Kube.Update.Scope.{
  Permits, IsStable, create_resource-Runs, delete_resource-Runs, update_resource-Runs,
}
use helm.Kube.Infos.Laws.{Same, AllSame}
use helm.Kube.Api.{
  Request, get_object, delete_object, delete_pod, Api, get_helper, create_resource, delete_resource,
}
use helm.Kube.Requests.{
  Holds, is_read, Made, Made-none, Made-one, Made-trans, Runs, >>=-Runs, wrapping-Runs,
}
use helm.Result.{Error, Result, ok, err}
use helm.Common.{
  Bytes, codes, All, All-append, none, ap, some, [], false, sym, append-nil, List, ◌++◌,
  append_assoc, Bool, Option, ◌∷◌, ◌≡◌, true, refl, ◌∙◌,
}
use helm.Kube.Infos.{Info}
use helm.Kube.Update.{
  visit, Visited, Change, created_info, updated_info, failed_update, update_change, noted,
  create_missing, update_existing, visit_got, visit_one, visited_one, cleanup,
}
use helm.Tiller.Server.{UpdateOptions}

-- the resource that a visit has come to
abbrev pub info_of : {O : Type 0} → Change O → Info O
info_of (created_info i) = i
info_of (updated_info i) = i
info_of (failed_update i e) = i

module _ {O : Type 0} (api : Api O) (P : Request O → Type 0) (opts : UpdateOptions)
    (reads : (q : Request O) → is_read q ≡ true → P q)
    (pods : opts.recreate ≡ true → (ns name uid : Bytes) → P (delete_pod ns name uid))
    (stable : IsStable api) where
  -- the cleanup of a resource, where it is asked for
  abbrev pub IsCleaned : Info O → Type 0
  IsCleaned i = opts.cleanup_on_fail ≡ true → P (delete_object i.namespace i.name i.kind)

  IsCleaned-Same : (i j : Info O) → Same j i → IsCleaned i → IsCleaned j
  IsCleaned-Same i j (e, f, g) h = rw (e, f, g) h

  abbrev Visits : Info O → List (Request O) → Result (Change O) × List (Request O) → Type 0
  Visits i = Runs P (λ c. Same (info_of c) i)

  create_missing-Runs :
      (i : Info O) (e : Error) (missing : Bool) (s : List (Request O))
      → Permits P opts i
      → Visits i s (create_missing api i e missing s)
  unfolding create_missing
  create_missing-Runs i e true s p =
      >>=-Runs P (λ j. Same j i) (λ c. Same (info_of c) i) _ _ s
        (wrapping-Runs P (λ j. Same j i) (codes "failed to create resource: ")
          (create_resource api i) s
          (create_resource-Runs api P opts reads pods stable i s p.creation))
        λ j t h. (Made-none P t, h)
  create_missing-Runs i e false s p = (Made-none P s, tt)

  update_change-Same :
      (i : Info O) (r : Result (Info O))
      → Holds (λ j. Same j i) r
      → Same (info_of (update_change i r)) i
  update_change-Same i (ok j) h = h
  update_change-Same i (err e) h = (refl, refl, refl)

  update_existing-Runs :
      (i : Info O) (original : Option (Info O)) (s : List (Request O))
      → Permits P opts i
      → Visits i s (update_existing api opts i original s)
  unfolding update_existing
  update_existing-Runs i none s p = (Made-none P s, tt)
  update_existing-Runs i (some original) s p =
      >>=-Runs P (Holds (λ j. Same j i)) (λ c. Same (info_of c) i) _ _ s
        (update_resource-Runs api P opts reads pods stable i original.object s p)
        λ r t h. (Made-none P t, update_change-Same i r h)

  visit_got-Runs :
      (original : List (Info O)) (i : Info O) (r : Result O) (s : List (Request O))
      → Permits P opts i
      → Visits i s (visit_got api opts original i r s)
  visit_got-Runs original i (ok _) s p = update_existing-Runs i _ s p
  visit_got-Runs original i (err e) s p = create_missing-Runs i e _ s p

  visit_one-Runs :
      (original : List (Info O)) (i : Info O) (s : List (Request O))
      → Permits P opts i
      → Visits i s (visit_one api opts original i s)
  unfolding visit_one get_helper is_read
  visit_one-Runs original i s p =
      >>=-Runs P (λ _. Unit {0}) (λ c. Same (info_of c) i) _ _ s
        (Made-one P s _ (reads (get_object i.namespace i.name i.kind) refl), tt)
        λ r t _. visit_got-Runs original i r t p

  noted-IsCleaned :
      (c : Change O) (v : Visited O)
      → IsCleaned (info_of c)
      → All IsCleaned v.created
      → All IsCleaned (noted c v).created
  noted-IsCleaned (created_info i) v h hs = All-append IsCleaned v.created (i ∷ []) hs (h, tt)
  noted-IsCleaned (updated_info i) v h hs = hs
  noted-IsCleaned (failed_update i e) v h hs = hs

  noted-targets : (c : Change O) (v : Visited O) → (noted c v).targets ≡ v.targets ++ info_of c ∷ []
  noted-targets (created_info i) v = refl
  noted-targets (updated_info i) v = refl
  noted-targets (failed_update i e) v = refl

  -- from `v`, the targets `is` have been visited
  abbrev pub HasVisited :
      List (Info O) → Visited O → List (Request O) → Visited O × List (Request O) → Type 0
  HasVisited is v s x =
      Made P s x.1
      × All IsCleaned x.0.created
      × (x.0.failure ≡ none
          → (js : List (Info O)) × (x.0.targets ≡ v.targets ++ js) × AllSame js is)

  pub visit-HasVisited :
      (original is : List (Info O)) (v : Visited O) (s : List (Request O))
      → All (Permits P opts) is
      → All IsCleaned v.created
      → HasVisited is v s (visit api opts original is v s)
  unfolding visit
  visit-HasVisited original [] v s p h =
      (Made-none P s, h, λ _. ([], sym (append-nil v.targets), tt))
  visit-HasVisited original (i ∷ is) v s (p, ps) h =
      go (visit_one api opts original i s) (visit_one-Runs original i s p)
        λ u t k. visit-HasVisited original is u t ps k
    where
      go :
          (x : Result (Change O) × List (Request O))
          → Visits i s x
          → ((u : Visited O) (t : List (Request O))
              → All IsCleaned u.created
              → HasVisited is u t (visit api opts original is u t))
          → HasVisited (i ∷ is) v s (visited_one api (visit api opts original is) v x)
      go (err e, t) (m, _) k = (m, h, λ f. cc)
      go (ok c, t) (m, same) k =
          let (n, cleaned, at) =
            k (noted c v) t (noted-IsCleaned c v (IsCleaned-Same i (info_of c) same p.cleaned) h) in
          (
            Made-trans P s t _ m n,
            cleaned,
            λ f.
                let (js, e, all) = at f in
                (
                  info_of c ∷ js,
                  e
                      ∙ (ap (λ x. x ++ js) (noted-targets c v)
                          ∙ append_assoc v.targets (info_of c ∷ []) js),
                  (same, all),
                ),
          )

  pub cleanup-Made :
      (is : List (Info O)) (s : List (Request O))
      → opts.cleanup_on_fail ≡ true
      → All IsCleaned is
      → Made P s (cleanup api is s).1
  unfolding cleanup
  cleanup-Made [] s on _ = Made-none P s
  cleanup-Made (i ∷ is) s on (h, hs) =
      let t = (delete_resource api i s).1 in
      Made-trans P s t _ (delete_resource-Runs api P opts reads pods stable i s (h on)).0
        (cleanup-Made is t on hs)
