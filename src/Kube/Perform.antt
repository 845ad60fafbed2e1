-- ===== src/Kube/Perform.antt =====
-- perform and batchPerform of pkg/kube/client.go, and what is done by them: Create, Delete,
-- DeleteWithTimeout; and pkg/kube/namespace.go. The actions of resources of one kind run in
-- goroutines; here they take the order of the list. The kind of an object stays when it is read.
use helm.Kube.Infos.{Info}
use helm.Common.Text.{eqb}
use helm.Common.Decimal.{Int64, int64}
use helm.Kube.Api.{
  Request, get_namespace, create_namespace, Api, Act, tell, get_info, delete_resource, poll,
}
use helm.Result.{no_objects_visited, Result, ok, err, bind, pure, raise, lift, attempt, ◌>>=◌, ◌>>◌}
use helm.Common.{◌||◌, if◌then◌else◌, Bytes, ◌&&◌, List, false, true, ◌∷◌, not, Bool, []}

module _ {O : Type 0} (api : Api O) where
  module _ {A : Type 0} (fn : Info O → Act O A) where
    -- batchPerform after the first error, which ends perform: the actions of the kind run all the
    -- same, but their errors are not received, so that the next kind is not started when there
    -- were any
    unfoldable pub left_over : Bytes → Bool → List (Info O) → List (Request O) → List (Request O)
    unfolding eqb
    left_over kind blocked [] s = s
    left_over kind blocked (i ∷ is) s = elim (eqb kind (api.object_kind i.object) || not blocked) [
      | true ↦ left_over (api.object_kind i.object) true is (fn i s).1
      | false ↦ s
    ]

    -- the result of an action, the infos that follow, and how they go on
    abbrev pub performed :
        Info O
        → List (Info O)
        → Act O (List A)
        → Result A × List (Request O)
        → Result (List A) × List (Request O)
    performed i is rest (ok a, s) = let (r, t) = rest s in (bind r (λ done. ok (a ∷ done)), t)
    performed i is rest (err e, s) = (err e, left_over (api.object_kind i.object) false is s)

    unfoldable pub batch_perform : List (Info O) → Act O (List A)
    unfolding left_over
    batch_perform [] s = (ok [], s)
    batch_perform (i ∷ is) s = performed i is (batch_perform is) (fn i s)

    unfoldable pub perform : List (Info O) → Act O (List A)
    unfolding batch_perform
    perform [] = raise no_objects_visited
    perform (i ∷ is) = batch_perform (i ∷ is)

  abbrev pub skip_if_not_found : Result (Unit {0}) → Result (Unit {0})
  skip_if_not_found (ok _) = ok tt
  skip_if_not_found (err e) = if api.is_not_found e then ok tt else err e

  -- the deletion of one resource
  unfoldable pub delete_present : Info O → Act O (Unit {0})
  unfolding delete_resource
  delete_present i = attempt (delete_resource api i) >>= λ r. lift (skip_if_not_found r)

  -- whether an info.Get says that the resource is gone
  abbrev pub gone : Result (Info O) → Result Bool
  gone (ok _) = ok false
  gone (err e) = if api.is_not_found e then ok true else err e

  abbrev pub all_true : List Bool → Bool
  all_true [] = true
  all_true (b ∷ bs) = b && all_true bs

  unfoldable pub wait_until_all_resource_deleted : List (Info O) → Int64 → Act O (Unit {0})
  unfolding poll perform get_info
  wait_until_all_resource_deleted infos timeout s =
      poll api (api.retries s timeout)
        (perform (λ i. attempt (get_info api i) >>= λ r. lift (gone r)) infos >>= λ bs.
          pure (all_true bs))
        s

  abbrev pub build : Bytes → Bytes → Act O (List (Info O))
  build namespace manifest s = (api.build s namespace manifest, s)

  unfoldable pub delete_with_timeout : Bytes → Bytes → Int64 → Bool → Act O (Unit {0})
  unfolding perform delete_present wait_until_all_resource_deleted
  delete_with_timeout namespace manifest timeout should_wait = build namespace manifest >>= λ infos.
      perform delete_present infos
      >> (if should_wait then wait_until_all_resource_deleted infos timeout else pure tt)

  unfoldable pub delete : Bytes → Bytes → Act O (Unit {0})
  unfolding delete_with_timeout
  delete namespace manifest = delete_with_timeout namespace manifest (int64 0) false

  abbrev pub created_or_there : Result (Unit {0}) → Result (Unit {0})
  created_or_there (ok _) = ok tt
  created_or_there (err e) = if api.is_already_exists e then ok tt else err e

  unfoldable pub ensure_namespace : Bytes → Act O (Unit {0})
  unfolding tell
  ensure_namespace namespace = attempt (tell api (get_namespace namespace)) >>= λ r. elim r [
    | ok _ ↦ pure tt
    | err e ↦
        if api.is_not_found e
        then attempt (tell api (create_namespace namespace)) >>= (λ c. lift (created_or_there c))
        else raise e
  ]
