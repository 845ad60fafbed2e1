-- ===== src/Tiller/Reading.antt =====
-- The handlers that show releases: pkg/tiller/release_status.go, pkg/tiller/release_content.go and
-- pkg/tiller/release_history.go.
use helm.Common.{
  Bytes, codes, if◌then◌else◌, Option, none, some, List, [], ◌++◌, ◌||◌, ltb, leb, ◌-◌,
}
use helm.Common.Decimal.{Int32, int32, itoa}
use helm.Release.{Release, Info, Chart, status_eq, deleted, failed}
use helm.Result.{Error, Result, ok, err, external, bind, quote, message, lift, ◌>>=◌, ◌>>◌, attempt}
use helm.Releaseutil.Sorter.{reverse_by, sort_by_revision}
use helm.Storage.Driver.{Driver}
use helm.Storage.Store
use helm.Storage.Store.{Store}
use helm.Tiller.Paging.{take}
use helm.Tiller.Server.{Env, Action, kube, kube_get, from_store, validate_release_name}

-- services.GetReleaseStatusRequest, services.GetReleaseContentRequest
pub record GetReleaseRequest : Type 0 where
  pub name : Bytes
  pub version : Int32

-- services.GetReleaseStatusResponse, with `Info.Status.Resources`
pub record GetReleaseStatusResponse : Type 0 where
  pub name : Bytes
  pub namespace : Bytes
  pub info : Info
  pub resources : Option Bytes

abbrev not_got : Bytes → Result Release → Result Release
not_got text (ok r) = ok r
not_got text (err e) = err (external (text ++ message e))

abbrev pub release_chart_missing : Error
release_chart_missing = external (codes "release chart is missing")

abbrev pub with_chart : Release → Option Chart → Result Release
with_chart rel none = err release_chart_missing
with_chart rel (some c) = ok rel

module _ (D : Driver) where
  -- the release that a request names: the last one, or that of a version
  unfoldable pub requested : GetReleaseRequest → Store D → Result Release
  unfolding Store.last Store.get
  requested req s =
      if leb req.version (int32 0)
      then Store.last D req.name s
      else Store.get D req.name req.version s

  abbrev explained : GetReleaseRequest → Result Release → Result Release
  explained req r =
      if leb req.version (int32 0)
      then not_got (codes "getting deployed release " ++ (quote req.name ++ codes ": ")) r
      else not_got
          (codes "getting release '"
            ++ (req.name ++ (codes "' (v" ++ (itoa req.version ++ codes "): "))))
          r

  -- GetReleaseContent
  unfoldable pub get_release_content : GetReleaseRequest → Store D → Result Release
  unfolding requested validate_release_name
  get_release_content req s = bind (validate_release_name req.name) λ _. requested req s

  abbrev newest : Int32 → List Release → List Release
  newest max h = if ltb max (int32 0) then [] else take (max - int32 0) h

  -- GetHistory, by the name and the maximum of the request
  unfoldable pub get_history : Bytes → Int32 → Store D → Result (List Release)
  unfolding Store.history validate_release_name
  get_history name max s =
      bind (validate_release_name name)
        λ _. bind (Store.history D name s) λ h. ok (newest max (reverse_by sort_by_revision h))

  module _ (env : Env) where
    abbrev pub response : Release → Option Bytes → GetReleaseStatusResponse
    response rel resources = record {
      name = rel.name;
      namespace = rel.namespace;
      info = rel.info;
      resources = resources;
    }

    -- LocalReleaseModule.Status: the cluster's text on the resources of the release
    unfoldable pub module_status : Release → Action D Bytes
    module_status rel s =
        let call = kube_get rel.namespace rel.manifest in
        let (r, s') = kube D env call s in (bind r (λ _. ok (env.output s.calls call)), s')

    -- errors are skipped for a release that is deleted or failed
    abbrev pub status_answer : Release → Result Bytes → Result GetReleaseStatusResponse
    status_answer rel r =
        if status_eq rel.info.code deleted || status_eq rel.info.code failed
        then ok (response rel none)
        else bind r (λ resp. ok (response rel (some resp)))

    -- GetReleaseStatus
    unfoldable pub get_release_status : GetReleaseRequest → Action D GetReleaseStatusResponse
    unfolding ◌>>=◌ requested validate_release_name module_status
    get_release_status req =
        lift (validate_release_name req.name)
        >> (from_store D (λ s. explained req (requested req s)) >>= λ rel.
            lift (with_chart rel rel.chart)
            >> (attempt (module_status rel) >>= λ r. lift (status_answer rel r)))
