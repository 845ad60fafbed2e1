-- ===== src/Tiller/SortManifests.antt =====
-- pkg/tiller/hooks.go: rendered files are split into manifests, and these into hooks and the rest.
-- SplitManifests is that of pkg/releaseutil/manifest.go. The parse of a manifest's head from YAML, the
-- cut of a text at its `---` lines by a regular expression, and path.Base are parameters. Go iterates
-- over a map in any order, here in that of its list.
use helm.Common.{
  ℕ, Bytes, codes, Bool, true, false, if◌then◌else◌, Option, none, some, List, [], ◌∷◌, ◌++◌, ◌==◌,
  ltb, leb, ◌&&◌, ◌||◌, ◌+◌, ◌-◌, ◌*◌, ◌%◌,
}
use helm.Common.Text.{eqb, has_prefix}
use helm.Common.Words.{trim_space, to_lower, split1}
use helm.Common.Decimal.{Int32, Int64, int64, atoi}
use helm.Release.{Hook, HookEvent, DeletePolicy}
use helm.Result.{Error, Result, ok, err, external, bind, message}
use helm.Tiller.Server.{Manifest}
use helm.Tiller.Hooks.{named, event_names, policy_names}
use helm.Tiller.KindSorter.{SortOrder, sort_by_kind}

-- util.SimpleHead
pub record SimpleHead : Type 0 where
  pub version : Bytes
  pub kind : Bytes
  -- the name and the annotations of `Metadata`, where it is there
  pub metadata : Option (Bytes × List (Bytes × Bytes))

abbrev pub hook_anno : Bytes
hook_anno = codes "helm.sh/hook"

abbrev pub hook_weight_anno : Bytes
hook_weight_anno = codes "helm.sh/hook-weight"

abbrev pub hook_delete_anno : Bytes
hook_delete_anno = codes "helm.sh/hook-delete-policy"

abbrev pub hook_delete_timeout_anno : Bytes
hook_delete_timeout_anno = codes "helm.sh/hook-delete-timeout"

abbrev pub annotations_of : Option (Bytes × List (Bytes × Bytes)) → List (Bytes × Bytes)
annotations_of none = []
annotations_of (some (n, annotations)) = annotations

abbrev pub annotations : SimpleHead → List (Bytes × Bytes)
annotations h = annotations_of h.metadata

-- hasAnyAnnotation
unfoldable pub has_any_annotation : SimpleHead → Bool
has_any_annotation h = elim (annotations h) [ [] ↦ false | a ∷ rest ↦ true ]

-- `int32(hw)` of an int: its last 32 bits
abbrev pub to_int32 : Bool × ℕ → Int32
to_int32 (true, n) = (18446744073709551616 - n + 2147483648) % 4294967296
to_int32 (false, n) = (n + 2147483648) % 4294967296

abbrev pub weight_of : Option (Bool × ℕ) → Int32
weight_of none = to_int32 (false, 0)
weight_of (some w) = to_int32 w

abbrev pub or_empty : Option Bytes → Bytes
or_empty none = []
or_empty (some v) = v

-- calculateHookWeight
unfoldable pub calculate_hook_weight : SimpleHead → Int32
unfolding named
calculate_hook_weight h = weight_of (atoi (or_empty (named hook_weight_anno (annotations h))))

unfoldable pub clean_all : List Bytes → List Bytes
clean_all [] = []
clean_all (v ∷ vs) = to_lower (trim_space v) ∷ clean_all vs

-- the parts of an annotation between commas, trimmed and in lower case
unfoldable pub parts : Bytes → List Bytes
unfolding clean_all
parts text = clean_all (split1 b',' text)

-- the values that operateAnnotationValues goes through
unfoldable pub annotation_values : SimpleHead → Bytes → List Bytes
unfolding named parts
annotation_values h annotation = elim (named annotation (annotations h)) [
  | none ↦ []
  | some text ↦ parts text
]

-- the events of a hook, or none where one is unknown
unfoldable pub events : List Bytes → Option (List HookEvent)
unfolding named
events [] = some []
events (t ∷ types) = elim (named t event_names) [
  | none ↦ none
  | some e ↦ elim (events types) [ none ↦ none | some es ↦ some (e ∷ es) ]
]

-- An unknown policy is skipped.
unfoldable pub policies : List Bytes → List DeletePolicy
unfolding named
policies [] = []
policies (v ∷ vs) = elim (named v policy_names) [ none ↦ policies vs | some p ↦ p ∷ policies vs ]

-- what strconv.ParseInt(s, 10, 64) gives, also beside an error: 0 for a bad syntax, and the nearest
-- int64 out of range; digits are read up to the first overflow of 64 bits
unfoldable pub scan : Bytes → ℕ → Option ℕ
scan [] n = some n
scan (c ∷ s) n =
    let m = n * 10 + (c - b'0') in
    let rest = scan s m in
    if leb b'0' c && leb c b'9' then (if ltb 18446744073709551615 m then some m else rest) else none

abbrev pub magnitude : Bytes → ℕ
magnitude [] = 0
magnitude (c ∷ s) = elim (scan (c ∷ s) 0) [ none ↦ 0 | some n ↦ n ]

unfoldable pub parse_int : Bytes → Int64
unfolding scan
parse_int [] = int64 0
parse_int (c ∷ s) =
    if c == b'-'
    then 9223372036854775808 - magnitude s
    else (let n = magnitude (if c == b'+' then s else c ∷ s) in
        if ltb 9223372036854775807 n then int64 9223372036854775807 else int64 n)

-- The last value sets the timeout, also one that is not valid: the code says so in its log, and sets
-- it all the same.
unfoldable pub timeout_of : Int64 → List Bytes → Int64
unfolding parse_int
timeout_of t [] = t
timeout_of t (v ∷ vs) = timeout_of (parse_int v) vs

abbrev pub default_hook_delete_timeout : Int64
default_hook_delete_timeout = int64 60

abbrev pub delete_timeout : SimpleHead → List DeletePolicy → Int64
delete_timeout h [] = int64 0
delete_timeout h (p ∷ ps) =
    timeout_of default_hook_delete_timeout (annotation_values h hook_delete_timeout_anno)

abbrev pub metadata_name : SimpleHead → Option Bytes
metadata_name h = elim h.metadata [ none ↦ none | some (n, annos) ↦ some n ]

-- the hook of a manifest for its events
unfoldable pub hook_of : Bytes → Bytes → SimpleHead → List HookEvent → Hook
unfolding calculate_hook_weight annotation_values policies timeout_of
hook_of path m h es =
    let ps = policies (annotation_values h hook_delete_anno) in
    record {
      name = or_empty (metadata_name h);
      kind = h.kind;
      path = path;
      manifest = m;
      events = es;
      last_run = none;
      weight = calculate_hook_weight h;
      delete_policies = ps;
      delete_timeout = delete_timeout h ps;
    }

abbrev pub generic_of : Bytes → Bytes → SimpleHead → Manifest
generic_of path m h = record {
  name = path;
  content = m;
  kind = h.kind;
  metadata_name = metadata_name h;
  annotations = annotations h;
}

-- `result`: the hooks and the other manifests so far
abbrev pub Sorted : Type 0
Sorted = List Hook × List Manifest

abbrev pub add_hook : Sorted → Option Hook → Sorted
add_hook (hs, ms) none = (hs, ms)
add_hook (hs, ms) (some h) = (hs ++ h ∷ [], ms)

abbrev pub with_events : Bytes → Bytes → SimpleHead → Option (List HookEvent) → Option Hook
with_events path m h none = none
with_events path m h (some es) = some (hook_of path m h es)

-- One manifest: a hook, if it has the annotation and knows its events, dropped, if it does not know
-- them, and generic without the annotation.
unfoldable pub place : Bytes → Bytes → SimpleHead → Sorted → Sorted
unfolding named events parts
place path m h (hs, ms) = elim (named hook_anno (annotations h)) [
  | none ↦ (hs, ms ++ generic_of path m h ∷ [])
  | some types ↦ add_hook (hs, ms) (with_events path m h (events (parts types)))
]

abbrev pub yaml_error : Bytes → Error → Error
yaml_error path e = external (codes "YAML parse error on " ++ (path ++ (codes ": " ++ message e)))

-- the parts that are not empty, trimmed; their names in the source are not read
unfoldable pub trimmed : List Bytes → List Bytes
trimmed [] = []
trimmed ([] ∷ docs) = trimmed docs
trimmed ((c ∷ d) ∷ docs) = trim_space (c ∷ d) ∷ trimmed docs

module _ (parse_head : Bytes → Result SimpleHead) (cut : Bytes → List Bytes)
    (base : Bytes → Bytes) where
  -- SplitManifests
  unfoldable pub split_manifests : Bytes → List Bytes
  unfolding trimmed
  split_manifests text = trimmed (cut (trim_space text))

  -- manifestFile.sort, of a file's manifests; the results so far are returned beside an error
  unfoldable pub sort_file : Bytes → List Bytes → Sorted → Result Sorted
  unfolding place
  sort_file path [] result = ok result
  sort_file path (m ∷ entries) result = elim (parse_head m) [
    | err e ↦ err (yaml_error path e)
    | ok h ↦ sort_file path entries (place path m h result)
  ]

  -- partials, whose names begin with `_`, and files without text are skipped
  abbrev pub skipped : Bytes → Bytes → Bool
  skipped path c = has_prefix (base path) (codes "_") || eqb (trim_space c) []

  unfoldable pub sort_files : List (Bytes × Bytes) → Sorted → Result Sorted
  unfolding split_manifests sort_file has_prefix eqb
  sort_files [] result = ok result
  sort_files ((path, c) ∷ files) result = elim (skipped path c) [
    | true ↦ sort_files files result
    | false ↦ bind (sort_file path (split_manifests c) result) λ result'. sort_files files result'
  ]

  abbrev pub by_kind : SortOrder → Sorted → Result (List Hook × List Manifest)
  by_kind order (hs, ms) = ok (hs, sort_by_kind ms order)

  -- sortManifests
  unfoldable pub sort_manifests :
      List (Bytes × Bytes) → SortOrder → Result (List Hook × List Manifest)
  unfolding sort_files sort_by_kind
  sort_manifests files order = bind (sort_files files ([], [])) (by_kind order)
