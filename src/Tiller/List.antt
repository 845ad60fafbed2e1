-- ===== src/Tiller/List.antt =====
-- ListReleases of pkg/tiller/release_list.go.
use helm.Common.{
  ℕ, Bytes, codes, Bool, true, false, if◌then◌else◌, Option, none, some, List, [], ◌∷◌, ltb, ◌==◌,
  length, ◌+◌, ◌-◌, ◌++◌,
}
use helm.Common.Text.{eqb}
use helm.Common.Decimal.{Int64, int64}
use helm.Release.{Release, Status, status_eq, deployed}
use helm.Result.{Error, Result, ok, err, external, bind, quote}
use helm.Releaseutil.Sorter.{sort_by_name, sort_by_date, sort_by_chart_name}
use helm.Storage.Driver.{Driver}
use helm.Storage.Store
use helm.Storage.Store.{Store}
use helm.Tiller.Paging.{from_offset, page, partition}

-- services.ListSort_SortBy, services.ListSort_SortOrder
pub data SortBy : Type 0 where
  unsorted by_name by_last_released by_chart_name : SortBy

pub data SortOrder : Type 0 where
  asc desc : SortOrder

-- services.ListReleasesRequest
pub record ListReleasesRequest : Type 0 where
  pub limit : Int64
  pub offset : Bytes
  pub sort_by : SortBy
  pub filter : Bytes
  pub sort_order : SortOrder
  pub status_codes : List Status
  pub namespace : Bytes

-- services.ListReleasesResponse
pub record ListReleasesResponse : Type 0 where
  pub count : ℕ
  pub next : Bytes
  pub total : ℕ
  pub releases : List Release

abbrev pub list_default_limit : Int64
list_default_limit = int64 512

abbrev pub max_msg_size : ℕ
max_msg_size = 20971520

-- the statuses asked for: DEPLOYED where there are none
abbrev pub or_deployed : List Status → List Status
or_deployed [] = deployed ∷ []
or_deployed (c ∷ cs) = c ∷ cs

-- the filter over the request's status codes
unfoldable pub has_status : List Status → Option Release → Bool
has_status cs none = false
has_status [] (some r) = false
has_status (c ∷ cs) (some r) = if status_eq c r.info.code then true else has_status cs (some r)

-- the releases for which a test holds
unfoldable pub select : (Release → Bool) → List Release → List Release
select p [] = []
select p (r ∷ rels) = if p r then r ∷ select p rels else select p rels

-- filterByNamespace, where a namespace is given
unfoldable pub filter_by_namespace : Bytes → List Release → List Release
filter_by_namespace [] rels = rels
filter_by_namespace (c ∷ namespace) rels = select (λ r. eqb (c ∷ namespace) r.namespace) rels

-- the sort that is asked for
unfoldable pub sorted : SortBy → List Release → List Release
unfolding sort_by_name sort_by_date sort_by_chart_name
sorted unsorted rels = rels
sorted by_name rels = sort_by_name rels
sorted by_last_released rels = sort_by_date rels
sorted by_chart_name rels = sort_by_chart_name rels

unfoldable pub reversed : List Release → List Release → List Release
reversed [] out = out
reversed (r ∷ rels) out = reversed rels (r ∷ out)

abbrev pub ordered : SortOrder → List Release → List Release
ordered asc rels = rels
ordered desc rels = reversed rels []

abbrev offset_missing : Bytes → Error
offset_missing name = external (codes "offset " ++ (quote name ++ codes " not found"))

abbrev found_offset : Bytes → Option (List Release) → Result (List Release)
found_offset name none = err (offset_missing name)
found_offset name (some rels) = ok rels

-- the list from the offset, where one is given
unfoldable pub seek : Bytes → List Release → Result (List Release)
seek [] rels = ok rels
seek (c ∷ offset) rels = found_offset (c ∷ offset) (from_offset (c ∷ offset) rels)

-- 0 stands for the default
abbrev pub limit_of : Int64 → Int64
limit_of l = if l == int64 0 then list_default_limit else l

-- A negative limit makes Go panic on the index and the slice.
abbrev out_of_range : Error
out_of_range = external (codes "runtime error: index out of range")

-- `regexp` stands for regexp.Compile and MatchString, `size` for proto.Size of a release, `base_size`
-- for that of a response without releases, and `send` for the stream.
module _ (D : Driver) (regexp : Bytes → Result (Bytes → Bool)) (size : Release → ℕ)
    (base_size : ListReleasesResponse → ℕ) (send : ListReleasesResponse → Option Error) where
  abbrev matching : List Release → (Bytes → Bool) → Result (List Release)
  matching rels match_string = ok (select (λ r. match_string r.name) rels)

  -- filterReleases, where a filter is given
  unfoldable pub filter_releases : Bytes → List Release → Result (List Release)
  filter_releases [] rels = ok rels
  filter_releases (c ∷ filter) rels = bind (regexp (c ∷ filter)) (matching rels)

  -- the releases that match the request, in its order
  unfoldable pub queried : ListReleasesRequest → Store D → Result (List Release)
  unfolding Store.list_filter_all
  queried req s =
      bind (Store.list_filter_all D (has_status (or_deployed req.status_codes) ∷ []) s) λ rels.
        bind (filter_releases req.filter (filter_by_namespace req.namespace rels))
          λ matches. ok (ordered req.sort_order (sorted req.sort_by matches))

  -- The messages that are sent, up to an error of the stream, which is returned.
  unfoldable pub send_all :
      ListReleasesResponse → List (List Release) → List ListReleasesResponse × Result (Unit {0})
  send_all res [] = ([], ok tt)
  send_all res (chunk ∷ chunks) =
      let message = record res { releases = chunk } in
      let (sent, r) = send_all res chunks in
      elim (send message) [ some e ↦ ([], err e) | none ↦ (message ∷ sent, r) ]

  -- the response for a page, without its releases, and its releases
  abbrev pub answer_page : ℕ → Bytes × List Release → ListReleasesResponse
  answer_page total (next, rels) = record {
    count = length rels;
    next = next;
    total = total;
    releases = [];
  }

  -- the capacity that partition gets is max_msg_size less the size of the response
  abbrev pub respond : ℕ → Bytes × List Release → List ListReleasesResponse × Result (Unit {0})
  respond total p =
      let res = answer_page total p in
      send_all res (partition size (λ n. ltb max_msg_size (n + base_size res)) p.1)

  abbrev pub list_page :
      Int64 → ℕ → Result (List Release) → List ListReleasesResponse × Result (Unit {0})
  list_page limit total (err e) = ([], err e)
  list_page limit total (ok rels) =
      if ltb limit (int64 0)
      then ([], err out_of_range)
      else respond total (page (limit - int64 0) rels)

  abbrev pub list_matches :
      ListReleasesRequest → Result (List Release) → List ListReleasesResponse × Result (Unit {0})
  list_matches req (err e) = ([], err e)
  list_matches req (ok rels) = list_page (limit_of req.limit) (length rels) (seek req.offset rels)

  -- ListReleases: the messages that are sent, and the error
  unfoldable pub list_releases :
      ListReleasesRequest → Store D → List ListReleasesResponse × Result (Unit {0})
  unfolding queried
  list_releases req s = list_matches req (queried req s)
