-- ===== src/Kube/Update/Scope.antt =====
-- The requests that UpdateWithOptions of pkg/kube/client.go makes, for any predicate on requests
-- that the reads and the changes asked for have.
use helm.Kube.Infos.Laws.{Same}
use helm.Kube.Wait.Reads.{read-Runs}
use helm.Kube.Requests.{
  is_read, Made-none, Runs, Holds-any, Runs-weaken, >>=-Runs, wrapping-Runs, lift-Runs,
  ask-Runs_answer, Holds, Made-one, tell-Runs,
}
use helm.Kube.Api.{
  create_object, Labels, PatchType, Request, delete_object, patch_object, delete_pod, Pod, Api,
  get_helper, get_info, create_resource, delete_resource,
}
use helm.Result.{Error, Result, ok, err}
use helm.Common.{
  Bytes, none, some, ◌≡◌, refl, sym, true, subst, ◌∷◌, ◌⊎◌, inl, inr, ◌∙◌, Bool, List, Option, [],
  false, codes,
}
use helm.Kube.Infos.{Info}
use helm.Kube.Patch.{
  update_resource, recreate_resource, refreshed, patched, apply_patch, delete_pods, restart_pods,
  recreate_pods,
}
use helm.Tiller.Server.{UpdateOptions}

-- the changes of one resource that are asked for have the predicate
pub record Permits {O : Type 0} (P : Request O → Type 0) (opts : UpdateOptions) (i : Info O)
    : Type 0 where
  pub creation : P (create_object i.namespace i.kind i.object)
  pub patching :
      (type : PatchType) (patch : Bytes) → P (patch_object i.namespace i.name i.kind type patch)
  pub forced : opts.force ≡ true → P (delete_object i.namespace i.name i.kind)
  pub cleaned : opts.cleanup_on_fail ≡ true → P (delete_object i.namespace i.name i.kind)

-- The API server returned the object for the creation or for a patch of the resource.
abbrev pub IsAnswer : {O : Type 0} → Api O → Info O → O → Type 0
IsAnswer {O} api i obj =
    ((s : List (Request O)) × (api.create s i.namespace i.kind i.object ≡ ok obj))
    ⊎ ((s : List (Request O)) × (type : PatchType) × (patch : Bytes) × (api.patch s i.namespace
            i.name i.kind type patch
          ≡ ok obj))

-- The object that is returned for the creation or for a patch of a resource has its name and its
-- namespace: no name is generated. A refresh takes both from the object, and keeps the kind.
abbrev pub IsStable : {O : Type 0} → Api O → Type 0
IsStable {O} api =
    (i : Info O) (obj : O) (j : Info O) → IsAnswer api i obj → api.refresh i obj ≡ ok j → Same j i

module _ {O : Type 0} (api : Api O) (P : Request O → Type 0) (opts : UpdateOptions)
    (reads : (q : Request O) → is_read q ≡ true → P q)
    (pods : opts.recreate ≡ true → (ns name uid : Bytes) → P (delete_pod ns name uid))
    (stable : IsStable api) where
  abbrev Quiet : {A : Type 0} → List (Request O) → Result A × List (Request O) → Type 0
  Quiet = Runs P (λ _. Unit {0})

  refresh-Holds :
      (i : Info O) (obj : O) → IsAnswer api i obj → Holds (λ j. Same j i) (api.refresh i obj)
  refresh-Holds i obj answered = go (api.refresh i obj) refl
    where
      go : (r : Result (Info O)) → api.refresh i obj ≡ r → Holds (λ j. Same j i) r
      go (ok j) e = stable i obj j answered e
      go (err e) _ = tt

  pub create_resource-Runs :
      (i : Info O) (s : List (Request O))
      → P (create_object i.namespace i.kind i.object)
      → Runs P (λ j. Same j i) s (create_resource api i s)
  unfolding create_resource
  create_resource-Runs i s p =
      >>=-Runs P (λ obj. api.create s i.namespace i.kind i.object ≡ ok obj) (λ j. Same j i) _ _ s
        (ask-Runs_answer P (λ s. api.create s i.namespace i.kind i.object) _ s p)
        λ obj t e. lift-Runs P (λ j. Same j i) _ t (refresh-Holds i obj (inl (s, e)))

  pub delete_resource-Runs :
      (i : Info O) (s : List (Request O))
      → P (delete_object i.namespace i.name i.kind)
      → Quiet s (delete_resource api i s)
  unfolding delete_resource
  delete_resource-Runs i s p = tell-Runs P api _ s p

  recreate_resource-Runs :
      (force : Bool) (i : Info O) (e : Error) (s : List (Request O))
      → opts.force ≡ force
      → Permits P opts i
      → Runs P (λ j. Same j i) s (recreate_resource api force i e s)
  unfolding recreate_resource
  recreate_resource-Runs true i e s f p =
      >>=-Runs P (λ _. Unit {0}) (λ j. Same j i) _ _ s (delete_resource-Runs i s (p.forced f))
        λ _ t _.
          wrapping-Runs P (λ j. Same j i) (codes "Failed to recreate resource: ")
            (create_resource api i) t (create_resource-Runs i t p.creation)
  recreate_resource-Runs false i e s f p = (Made-none P s, tt)

  refreshed-Same :
      (i : Info O) (r : Result (Info O)) → Holds (λ j. Same j i) r → Same (refreshed api i r) i
  refreshed-Same i (ok j) h = h
  refreshed-Same i (err e) h = (refl, refl, refl)

  patched-Runs :
      (i : Info O) (r : Result O) (s : List (Request O))
      → Permits P opts i
      → ((obj : O) → r ≡ ok obj → IsAnswer api i obj)
      → Runs P (λ j. Same j i) s (patched api opts.force i r s)
  patched-Runs i (ok obj) s p answered =
      (Made-none P s, refreshed-Same i _ (refresh-Holds i obj (answered obj refl)))
  patched-Runs i (err e) s p answered = recreate_resource-Runs opts.force i e s refl p

  pub get_info-Runs :
      (i : Info O) (s : List (Request O)) → Runs P (λ j. Same j i) s (get_info api i s)
  unfolding get_info get_helper is_read
  get_info-Runs i s =
      >>=-Runs P (λ _. Unit {0}) (λ j. Same j i) _ _ s
        (read-Runs api P reads (λ s. api.get s i.namespace i.name i.kind) _ s refl)
        λ obj t _. (Made-none P t, (refl, refl, refl))

  apply_patch-Runs :
      (i : Info O) (p : Option (PatchType × Bytes)) (s : List (Request O))
      → Permits P opts i
      → Runs P (λ j. Same j i) s (apply_patch api opts.force i p s)
  unfolding apply_patch
  apply_patch-Runs i none s p =
      wrapping-Runs P (λ j. Same j i) (codes "error trying to refresh resource information: ")
        (get_info api i) s (get_info-Runs i s)
  apply_patch-Runs i (some (type, patch)) s p =
      let answer : Result O = api.patch s i.namespace i.name i.kind type patch in
      >>=-Runs P (λ r. r ≡ answer) (λ j. Same j i) _ _ s
        (Made-one P s _ (p.patching type patch), refl)
        λ r t e. patched-Runs i r t p λ obj f. inr (s, type, patch, sym e ∙ f)

  delete_pods-Runs :
      (ps : List Pod) (s : List (Request O)) → opts.recreate ≡ true → Quiet s (delete_pods api ps s)
  unfolding delete_pods
  delete_pods-Runs [] s h = (Made-none P s, tt)
  delete_pods-Runs (q ∷ ps) s h =
      >>=-Runs P (λ _. Unit {0}) (λ _. Unit {0}) _ _ s (tell-Runs P api _ s (pods h _ _ _))
        λ _ t _. delete_pods-Runs ps t h

  restart_pods-Runs :
      (i : Info O) (selector : Option Labels) (s : List (Request O))
      → opts.recreate ≡ true
      → Quiet s (restart_pods api i selector s)
  unfolding restart_pods is_read
  restart_pods-Runs i none s h = (Made-none P s, tt)
  restart_pods-Runs i (some selector) s h =
      >>=-Runs P (λ _. Unit {0}) (λ _. Unit {0}) _ _ s
        (lift-Runs P (λ _. Unit {0}) _ s (Holds-any P _))
        λ _ t _.
          >>=-Runs P (λ _. Unit {0}) (λ _. Unit {0}) _ _ t
            (read-Runs api P reads (λ s. api.pods s i.namespace selector) _ t refl)
            λ ps u _. delete_pods-Runs ps u h

  recreate_pods-Runs :
      (recreate : Bool) (i : Info O) (s : List (Request O))
      → opts.recreate ≡ recreate
      → Runs P (λ j. j ≡ i) s (recreate_pods api recreate i s)
  unfolding recreate_pods
  recreate_pods-Runs false i s h = (Made-none P s, refl)
  recreate_pods-Runs true i s h =
      >>=-Runs P (λ _. Unit {0}) (λ j. j ≡ i) _ _ s
        (lift-Runs P (λ _. Unit {0}) _ s (Holds-any P _))
        λ selector t _.
          >>=-Runs P (λ _. Unit {0}) (λ j. j ≡ i) _ _ t (restart_pods-Runs i selector t h)
            λ _ u _. (Made-none P u, refl)

  pub update_resource-Runs :
      (i : Info O) (current : O) (s : List (Request O))
      → Permits P opts i
      → Runs P (λ j. Same j i) s (update_resource api i current opts.force opts.recreate s)
  unfolding update_resource
  update_resource-Runs i current s p =
      >>=-Runs P (λ _. Unit {0}) (λ j. Same j i) _ _ s
        (lift-Runs P (λ _. Unit {0}) _ s (Holds-any P _))
        λ patch t _.
          >>=-Runs P (λ j. Same j i) (λ j. Same j i) _ _ t (apply_patch-Runs i patch t p)
            λ j u h.
              Runs-weaken P (λ k. k ≡ j) (λ k. Same k i) u _
                (recreate_pods-Runs opts.recreate j u refl) λ k e. subst (λ x. Same x i) (sym e) h
