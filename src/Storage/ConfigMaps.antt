-- ===== src/Storage/ConfigMaps.antt =====
-- pkg/storage/driver/cfgmaps.go: the driver that keeps each release in a ConfigMap of Kubernetes. The
-- client of the API server, the encoding, the clock and the check of label values are parameters.
pub mod Refines
mod Tests
use helm.Common.{
  Bytes, codes, Bool, if◌then◌else◌, Option, none, some, List, [], ◌∷◌, ◌++◌, ◌≡◌, true,
}
use helm.Release.{Release, status_name}
use helm.Common.Decimal.{itoa}
use helm.Result.{
  Error, Result, ok, err, Exec, external, bind, quote, release_not_found, release_exists,
}
use helm.Storage.Labels
use helm.Storage.Labels.{Labels}
use helm.Storage.Driver.{Driver}

-- a ConfigMap, or a Secret: its name, its labels and its entry `release`
pub record Object : Type 0 where
  pub name : Bytes
  pub lbs : Labels
  pub payload : Bytes

-- what apierrors tells apart
pub data ApiError : Type 0 where
  is_not_found is_already_exists : ApiError
  other : Bytes → ApiError

pub data Answer (A : Type 0) : Type 0 where
  got : A → Answer A
  refused : ApiError → Answer A

-- corev1.ConfigMapInterface, as far as it is used, over the state of the API server
pub record Client : Type 1 where
  pub State : Type 0
  pub get : Bytes → State → Answer Object
  -- with the labels of a selector
  pub list : Labels → State → Answer (List Object)
  pub create : Object → State → Answer (Unit {0}) × State
  pub update : Object → State → Answer (Unit {0}) × State
  pub delete : Bytes → State → Answer (Unit {0}) × State

-- the error of a call of the client, as it is returned
abbrev pub api_error : ApiError → Error
api_error is_not_found = external (codes "not found")
api_error is_already_exists = external (codes "already exists")
api_error (other e) = external e

-- the coding of releases, the seconds of the clock by the state, and validation.IsValidLabelValue
pub record Context (C : Client) : Type 0 where
  pub encode : Release → Result Bytes
  pub decode : Bytes → Result Release
  pub unix_time : C.State → Bytes
  pub label_errors : Bytes → List Bytes

-- newConfigMapsObject, after the release is encoded
abbrev pub labelled : Bytes → Release → Labels → Bytes → Object
labelled key rls lbs s =
    let lbs = Labels.set lbs (codes "NAME") rls.name in
    let lbs = Labels.set lbs (codes "OWNER") (codes "TILLER") in
    let lbs = Labels.set lbs (codes "STATUS") (status_name rls.info.code) in
    let lbs = Labels.set lbs (codes "VERSION") (itoa rls.version) in
    record { name = key; lbs = lbs; payload = s }

-- Where the label has several faults, their texts are joined by "; ".
unfoldable pub join_errors : List Bytes → Bytes
join_errors [] = []
join_errors (e ∷ []) = e
join_errors (e ∷ f ∷ es) = e ++ (codes "; " ++ join_errors (f ∷ es))

abbrev pub invalid_label : Bytes → List Bytes → Error
invalid_label v errs =
    external (codes "invalid label value: " ++ (quote v ++ (codes ": " ++ join_errors errs)))

module _ (C : Client) (X : Context C) where
  open X use {encode, decode, unix_time, label_errors}

  -- newConfigMapsObject
  unfoldable pub new_object : Bytes → Release → Labels → Result Object
  unfolding Labels.set itoa
  new_object key rls lbs = bind (encode rls) λ s. ok (labelled key rls lbs s)

  abbrev pub decoded : Bytes → Answer Object → Result Release
  decoded key (got o) = decode o.payload
  decoded key (refused is_not_found) = err (release_not_found key)
  decoded key (refused e) = err (api_error e)

  -- ConfigMaps.Get
  unfoldable pub get_release : Bytes → C.State → Result Release
  get_release key s = decoded key (C.get key s)

  abbrev pub keep : (Release → Bool) → Result Release → List Release → List Release
  keep filter (ok rls) results = if filter rls then rls ∷ results else results
  keep filter (err e) results = results

  -- the loops of List and Query: what cannot be decoded is left out
  unfoldable pub decode_all : (Release → Bool) → List Object → List Release
  decode_all filter [] = []
  decode_all filter (o ∷ items) = keep filter (decode o.payload) (decode_all filter items)

  abbrev pub listed : (Release → Bool) → Answer (List Object) → Result (List Release)
  listed filter (got items) = ok (decode_all filter items)
  listed filter (refused e) = err (api_error e)

  -- ConfigMaps.List
  unfoldable pub list_releases : (Release → Bool) → C.State → Result (List Release)
  unfolding decode_all
  list_releases filter s = listed filter (C.list ((codes "OWNER", codes "TILLER") ∷ []) s)

  -- the labels whose values are all valid
  unfoldable pub valid_labels : Labels → Labels → Result Labels
  valid_labels [] ls = ok ls
  valid_labels ((k, v) ∷ lbs) ls = elim (label_errors v) [
    | [] ↦ valid_labels lbs (Labels.set ls k v)
    | e ∷ es ↦ err (invalid_label v (e ∷ es))
  ]

  abbrev pub queried : Labels → Answer (List Object) → Result (List Release)
  queried lbs (refused e) = err (api_error e)
  queried lbs (got []) = err (release_not_found (Labels.get lbs (codes "NAME")))
  queried lbs (got (o ∷ items)) = ok (decode_all (λ r. true) (o ∷ items))

  -- ConfigMaps.Query
  unfoldable pub query_releases : Labels → C.State → Result (List Release)
  unfolding valid_labels Labels.get
  query_releases lbs s = bind (valid_labels lbs Labels.init) λ ls. queried lbs (C.list ls s)

  -- the error of a create, for the text that names the release
  abbrev pub created : Bytes → Answer (Unit {0}) × C.State → Result (Unit {0}) × C.State
  created name (got _, s) = (ok tt, s)
  created name (refused is_already_exists, s) = (err (release_exists name), s)
  created name (refused e, s) = (err (api_error e), s)

  abbrev pub create_object : Bytes → C.State → Result Object → Result (Unit {0}) × C.State
  create_object name s (err e) = (err e, s)
  create_object name s (ok o) = created name (C.create o s)

  -- the labels that a create and an update begin with
  abbrev pub created_at : C.State → Labels
  created_at s = (codes "CREATED_AT", unix_time s) ∷ []

  abbrev pub modified_at : C.State → Labels
  modified_at s = (codes "MODIFIED_AT", unix_time s) ∷ []

  -- ConfigMaps.Create
  unfoldable pub create_release : Bytes → Release → Exec C.State (Unit {0})
  unfolding new_object
  create_release key rls s = create_object key s (new_object key rls (created_at s))

  abbrev pub updated : Answer (Unit {0}) × C.State → Result (Unit {0}) × C.State
  updated (got _, s) = (ok tt, s)
  updated (refused e, s) = (err (api_error e), s)

  abbrev pub update_object : C.State → Result Object → Result (Unit {0}) × C.State
  update_object s (err e) = (err e, s)
  update_object s (ok o) = updated (C.update o s)

  -- ConfigMaps.Update
  unfoldable pub update_release : Bytes → Release → Exec C.State (Unit {0})
  unfolding new_object
  update_release key rls s = update_object s (new_object key rls (modified_at s))

  abbrev pub deleted : Release → Answer (Unit {0}) × C.State → Result Release × C.State
  deleted rls (got _, s) = (ok rls, s)
  deleted rls (refused e, s) = (err (api_error e), s)

  abbrev pub delete_got : Bytes → C.State → Result Release → Result Release × C.State
  delete_got key s (err e) = (err e, s)
  delete_got key s (ok rls) = deleted rls (C.delete key s)

  -- ConfigMaps.Delete. The error of Get is never one for which IsNotFound holds, since Get has put
  -- its own in its place.
  unfoldable pub delete_release : Bytes → Exec C.State Release
  unfolding get_release
  delete_release key s = delete_got key s (get_release key s)

  -- NewConfigMaps
  abbrev pub config_maps : Driver
  config_maps = record {
    State = C.State;
    get = get_release;
    list = list_releases;
    query = query_releases;
    create = create_release;
    update = update_release;
    delete = delete_release;
  }
