-- ===== src/Kube/Update/Failure.antt =====
-- What UpdateWithOptions of pkg/kube/client.go does after a visit that has failed.
use helm.Kube.Api.{Request, delete_object, Api, ask, tell, delete_resource}
use helm.Kube.Update.{
  join_and, failures, nothing_visited, visit, cleanup, cleanup_if, joined, settle, update_built,
}
use helm.Common.{
  Bytes, codes, true, refl, List, ◌≡◌, ap, ◌∷◌, append-nil, [], ◌∙◌, Bool, append_assoc, ◌++◌, map,
  false, sym,
}
use helm.Kube.Infos.{Info}
use helm.Tiller.Server.{UpdateOptions}
use helm.Result.{err}

module _ {O : Type 0} where
  abbrev pub deletion : Info O → Request O
  deletion i = delete_object i.namespace i.name i.kind

  -- the deletions of the resources that the visit has created, in the order of their creation
  abbrev pub undo : Bool → List (Info O) → List (Request O)
  undo true created = map deletion created
  undo false created = []

module _ {O : Type 0} (api : Api O) where
  cleanup-calls :
      (is : List (Info O)) (s : List (Request O)) → (cleanup api is s).1 ≡ s ++ map deletion is
  unfolding cleanup delete_resource tell ask
  cleanup-calls [] s = sym (append-nil s)
  cleanup-calls (i ∷ is) s =
      cleanup-calls is (s ++ deletion i ∷ []) ∙ append_assoc s (deletion i ∷ []) (map deletion is)

  cleanup_if-calls :
      (clean : Bool) (is : List (Info O)) (s : List (Request O))
      → (cleanup_if api clean is s).1 ≡ s ++ undo clean is
  cleanup_if-calls true is s = cleanup-calls is s
  cleanup_if-calls false is s = sym (append-nil s)

  joined_text :
      (m : Bytes) (ms : List Bytes) (x : List Bytes × List (Request O))
      → (text : Bytes) × ((joined api (m ∷ ms) x).0 ≡ err (api.errorf (m ++ text)))
  unfolding join_and
  joined_text m [] ([], s) = ([], ap (λ y. err (api.errorf y)) (sym (append-nil m)))
  joined_text m [] (e ∷ es, s) = (codes " && " ++ join_and (e ∷ es), refl)
  joined_text m (n ∷ ms) (es, s) = (codes " && " ++ join_and (n ∷ (ms ++ es)), refl)

  -- Where the visit of the targets stops at an error or an update has failed, the update ends with
  -- an error, nothing of the original is deleted, and after the requests of the visit come at most
  -- the deletions of what it has created, all of them in order with cleanup on failure, and none
  -- without.
  pub update_built-undo :
      (opts : UpdateOptions) (original target : List (Info O)) (s : List (Request O)) (m : Bytes)
      (ms : List Bytes)
      → let (v, t) = visit api opts original target nothing_visited s in
        failures v ≡ m ∷ ms
        → ((text : Bytes) × ((update_built api opts original target s).0
              ≡ err (api.errorf (m ++ text))))
          × ((update_built api opts original target s).1 ≡ t ++ undo opts.cleanup_on_fail v.created)
  unfolding update_built settle
  update_built-undo opts original target s m ms h =
      let (v, t) = visit api opts original target nothing_visited s in
      rw h (
        joined_text m ms (cleanup_if api opts.cleanup_on_fail v.created t),
        cleanup_if-calls opts.cleanup_on_fail v.created t,
      )
