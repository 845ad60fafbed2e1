-- ===== src/Tiller/Server.antt =====
-- The parts of pkg/tiller/release_server.go that the operations share: the server's state, the
-- calls of the cluster, what is recorded of a release, and the checks of names and manifests.
-- What Tiller does not implement itself is `Env`. A call of the cluster is kept in `calls`, in
-- order, and the answer to a call may depend on all calls before it.
use helm.Common.{
  ℕ, Bytes, Bool, false, leb, ltb, ◌==◌, if◌then◌else◌, ◌&&◌, ◌||◌, not, Option, none, some, List,
  [], ◌∷◌, ◌++◌, length,
}
use helm.Common.Decimal.{Int32, Int64}
use helm.Release.{Release, Hook, Chart, Timestamp}
use helm.Result.{
  Error, Result, ok, err, Exec, missing_release, invalid_name, no_api_versions, attempt, ◌>>=◌,
  ◌>>◌,
}
use helm.Storage.Driver.{Driver}
use helm.Storage.Store
use helm.Storage.Store.{Store}

pub record UpdateOptions : Type 0 where
  pub force : Bool
  pub recreate : Bool
  pub timeout : Int64
  pub should_wait : Bool
  pub cleanup_on_fail : Bool

-- The calls of environment.KubeClient that the operations make, and the
-- discovery of API versions: of DeleteRelease, and of `capabilities`.
pub data Call : Type 0 where
  kube_create : (namespace manifest : Bytes) → (timeout : Int64) → (should_wait : Bool) → Call
  kube_get : (namespace manifest : Bytes) → Call
  kube_delete : (namespace manifest : Bytes) → Call
  kube_delete_with_timeout :
      (namespace manifest : Bytes) → (timeout : Int64) → (should_wait : Bool) → Call
  kube_watch_until_ready :
      (namespace manifest : Bytes) → (timeout : Int64) → (should_wait : Bool) → Call
  kube_update : (namespace original modified : Bytes) → UpdateOptions → Call
  kube_validate : (namespace manifest : Bytes) → Call
  kube_wait_until_crd_established : (manifest : Bytes) → (timeout : Int64) → Call
  discover_versions : Call
  server_version discover_resources : Call

-- chartutil.ReleaseOptions
pub record ReleaseOptions : Type 0 where
  pub name : Bytes
  pub time : Timestamp
  pub namespace : Bytes
  pub is_upgrade : Bool
  pub is_install : Bool
  pub revision : Int32

-- What renderResources returns without an error.
pub record Rendered : Type 0 where
  pub hooks : List Hook
  pub manifest : Bytes
  pub notes : Bytes

-- pkg/manifest.Manifest, with the parts of its head that are read here: its annotations, where it
-- has any, and its kind and the name of its metadata.
pub record Manifest : Type 0 where
  pub name : Bytes
  pub content : Bytes
  pub kind : Bytes
  pub metadata_name : Option Bytes
  pub annotations : List (Bytes × Bytes)

-- The world around the server.
pub record Env : Type 0 where
  -- the cluster's answer to a call after the calls before it: its error, if any, and its output
  pub reply : List Call → Call → Option Error
  pub output : List Call → Call → Bytes
  -- timeconv.Now
  pub now : List Call → Timestamp
  -- moniker.New().NameSep("-"), in the tries of one request
  pub name_sep : List Call → ℕ → Bytes
  -- chartutil.ToRenderValuesCaps and renderResources, with the capabilities that the calls before
  -- it asked for: the rendered chart, or an error beside the text that was rendered
  pub render : List Call → Chart → Option Bytes → Bool → ReleaseOptions → Result Rendered × Bytes
  -- chartutil.CoalesceValues and YAML
  pub coalesced_yaml : Option Chart → Option Bytes → Result Bytes
  -- chartutil.ReadValues of a request's values and of a release's, MergeInto and YAML
  pub merged_yaml : Option Bytes → Bytes → Result Bytes
  -- releaseutil.SplitManifests and sortManifests in UninstallOrder
  pub uninstall_manifests : Bytes → Result (List Manifest)

abbrev pub answer : Option Error → Result (Unit {0})
answer none = ok tt
answer (some e) = err e

abbrev pub release_name_max_len : ℕ
release_name_max_len = 53

abbrev is_alnum : ℕ → Bool
is_alnum c =
    (leb b'A' c && leb c b'Z') || ((leb b'a' c && leb c b'z') || (leb b'0' c && leb c b'9'))

abbrev is_name_byte : ℕ → Bool
is_name_byte c = is_alnum c || (c == b'-' || (c == b'_' || c == b'.'))

name_rest : ℕ → Bytes → Bool
name_rest c [] = is_alnum c
name_rest c (d ∷ s) = is_name_byte c && name_rest d s

-- ValidName.MatchString, of ^(([A-Za-z0-9][-A-Za-z0-9_.]*)?[A-Za-z0-9])+$: letters, digits, and
-- between the first and the last byte also `-`, `_` and `.`
unfoldable pub valid_name : Bytes → Bool
unfolding name_rest
valid_name [] = false
valid_name (c ∷ s) = is_alnum c && name_rest c s

unfoldable pub validate_release_name : Bytes → Result (Unit {0})
unfolding valid_name
validate_release_name [] = err missing_release
validate_release_name (c ∷ s) =
    if not (valid_name (c ∷ s)) || ltb release_name_max_len (length (c ∷ s))
    then err invalid_name
    else ok tt

module _ (D : Driver) where
  pub record Server : Type 0 where
    pub store : Store D
    pub calls : List Call

  abbrev pub Action : Type 0 → Type 0
  Action A = Exec Server A

  -- an operation of `s.env.Releases`
  abbrev pub on_store : {A : Type 0} → Exec (Store D) A → Action A
  on_store m s = let (r, store') = m s.store in (r, record s { store = store' })

  -- a reading of `s.env.Releases`
  abbrev pub from_store : {A : Type 0} → (Store D → Result A) → Action A
  from_store f s = (f s.store, s)

  -- recordRelease: an error is logged and dropped
  unfoldable pub record_release : Release → Bool → Server → Server
  unfolding Store.update Store.create
  record_release r reuse s =
      if reuse
      then record s { store = (Store.update D r s.store).1 }
      else record s { store = (Store.create D r s.store).1 }

  abbrev pub recorded : Release → Bool → Action (Unit {0})
  recorded r reuse s = (ok tt, record_release r reuse s)

  module _ (env : Env) where
    unfoldable pub kube : Call → Action (Unit {0})
    kube c s = (answer (env.reply s.calls c), record s { calls = s.calls ++ c ∷ [] })

    abbrev pub current_time : Action Timestamp
    current_time s = (ok (env.now s.calls), s)

    abbrev pub versions_found : Result (Unit {0}) → Action (Unit {0})
    versions_found (ok _) s = (ok tt, s)
    versions_found (err e) s = (err (no_api_versions e), s)

    -- capabilities: it asks for the version of the API server, then for the versions that it serves
    unfoldable pub capabilities : Action (Unit {0})
    unfolding kube
    capabilities = kube server_version >> (attempt (kube discover_resources) >>= versions_found)

    -- validateManifest
    unfoldable pub validate_manifest : Bytes → Bytes → Action (Unit {0})
    unfolding kube
    validate_manifest ns manifest = kube (kube_validate ns manifest)
