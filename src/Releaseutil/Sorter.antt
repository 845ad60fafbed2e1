-- ===== src/Releaseutil/Sorter.antt =====
-- pkg/releaseutil/sorter.go
use helm.Common.{Bool, Bytes, none, some, List, [], ltb}
use helm.Common.Text.{lessb}
use helm.Common.Sort.{sort}
use helm.Release.{Release}
use mathlib.Core.List.{reverse}

-- Reverse: the sort, and then the elements in the opposite order
unfoldable pub reverse_by : (List Release → List Release) → List Release → List Release
reverse_by sort_fn list = reverse (sort_fn list)

abbrev pub less_name : Release → Release → Bool
less_name r s = lessb r.name s.name

abbrev pub less_date : Release → Release → Bool
less_date r s = ltb r.info.last_deployed s.info.last_deployed

abbrev pub less_revision : Release → Release → Bool
less_revision r s = ltb r.version s.version

abbrev chart_name_of : Release → Bytes
chart_name_of r = elim r.chart [ none ↦ [] | some c ↦ elim c.chart_name [ none ↦ [] | some n ↦ n ] ]

abbrev pub less_chart_name : Release → Release → Bool
less_chart_name r s = lessb (chart_name_of r) (chart_name_of s)

unfoldable pub sort_by_name : List Release → List Release
unfolding sort
sort_by_name = sort less_name

unfoldable pub sort_by_date : List Release → List Release
unfolding sort
sort_by_date = sort less_date

unfoldable pub sort_by_revision : List Release → List Release
unfolding sort
sort_by_revision = sort less_revision

unfoldable pub sort_by_chart_name : List Release → List Release
unfolding sort
sort_by_chart_name = sort less_chart_name
