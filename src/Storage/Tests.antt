-- ===== src/Storage/Tests.antt =====
-- The theorems on storage, applied to concrete releases and stores.
use helm.Storage.Memory.Map.{
  Op, create_op, update_op, delete_op, perform_all, promise_all, empty_map, memory-IsMap,
}
use helm.Storage.Records.Lookup.{find}
use helm.Common.{
  Bytes, codes, true, false, ◌≡◌, ◌≢◌, refl, List, [], ◌∷◌, none, arith, All, length, ◌-◌, ◌+◌, ◌≤◌,
  ◌<◌,
}
use helm.Common.Text.{eqb, lacks2}
use helm.Common.Decimal.{Int32, int32}
use helm.Release.{Release, Status, superseded, deployed}
use helm.Result.{ok, err, invalid_key, no_revision, no_deployed}
use helm.Storage.Records.{Entry, new_record}
use helm.Storage.Memory
use helm.Storage.Memory.{Cache, memory, get, create, update, delete, found, key_name, new_memory}
use helm.Storage.Memory.View.{lookup, IsWellFormed}
use helm.Storage.Memory.Keys.{get-eq-lookup, create_dotted, create-get}
use helm.Storage.Store
use helm.Storage.Store.{
  Store, make_key, to_delete, remove_least_recent, on_db, or_no_deployed, deployed_all,
  deployed_release, history, last,
}
use helm.Storage.Store.Prune.{
  to_delete-oldest, to_delete-safe, first_of, others, Pruned, remove_least_recent-prunes,
  create_undeployed,
}
use helm.Storage.Store.History.{IsLastOf, last-IsLastOf}

abbrev sample : Bytes → Int32 → Status → Release
sample name v status = record {
  name = name;
  info = record {
    code = status;
    notes = [];
    first_deployed = 1;
    last_deployed = 1;
    deleted_at = none;
    description = [];
  };
  chart = none;
  config = none;
  manifest = [];
  hooks = [];
  version = v;
  namespace = codes "ns";
}

abbrev web : Bytes
web = codes "web"

abbrev old_release : Release
old_release = sample web (int32 1) superseded

abbrev new_release : Release
new_release = sample web (int32 2) deployed

abbrev next_release : Release
next_release = sample web (int32 3) deployed

abbrev dotted_release : Release
dotted_release = sample (codes "web.v2x") (int32 1) deployed

abbrev entry : Release → Entry
entry r = new_record (make_key r.name r.version) r

abbrev cache : Cache
cache = (web, entry old_release ∷ entry new_release ∷ []) ∷ []

abbrev stale : Cache
stale = (web, entry old_release ∷ []) ∷ []

abbrev store_of : Cache → Store memory
store_of c = record { max_history = 0; db = c }

abbrev first_key : Bytes
first_key = make_key web (int32 1)

abbrev next_key : Bytes
next_key = make_key web (int32 3)

cache-IsWellFormed : IsWellFormed cache
unfolding find eqb new_record make_key Memory.bucket
cache-IsWellFormed = (((refl, (refl, tt)), refl), tt)

get-eq-lookup_example : get first_key cache ≡ found first_key (lookup web first_key cache)
unfolding lacks2
get-eq-lookup_example = get-eq-lookup web (int32 1) (omega arith) cache refl

create_dotted_example :
    let key = make_key dotted_release.name dotted_release.version in
    let after = create key dotted_release cache in
    (after.0 ≡ ok tt)
    × (get key after.1 ≡ err (invalid_key key))
    × (delete key after.1 ≡ (err (invalid_key key), after.1))
unfolding lacks2 Memory.bucket
create_dotted_example = create_dotted cache dotted_release cache-IsWellFormed refl refl

create-get_example :
    let after = Store.create memory next_release (store_of cache) in
    (after.0 ≡ ok tt)
    × (Store.get memory web (int32 3) after.1 ≡ ok next_release)
    × ((name : Bytes) (v : Int32)
        → v < 4294967296
        → lacks2 b'.' b'v' name ≡ true
        → eqb web name ≡ false
        → Store.get memory name v after.1 ≡ Store.get memory name v (store_of cache))
unfolding lacks2 Memory.bucket find new_record make_key
create-get_example =
    create-get (store_of cache) next_release refl cache-IsWellFormed (omega arith) refl refl

abbrev releases : List Release
releases = old_release ∷ new_release ∷ next_release ∷ []

to_delete-oldest_example :
    to_delete (length releases) 1 (int32 3) 0 releases
    ≡ first_of (length releases - 1) (others (int32 3) releases)
to_delete-oldest_example = to_delete-oldest 1 (int32 3) releases (omega arith)

to_delete-safe_example :
    All (λ r. r.version ≢ int32 3) (to_delete (length releases) 1 (int32 3) 0 releases)
    × (length (to_delete (length releases) 1 (int32 3) 0 releases) + 1 ≤ length releases)
to_delete-safe_example = to_delete-safe 1 (int32 3) releases (omega arith)

remove_least_recent-prunes_example :
    Pruned memory web 1
      (store_of cache)
      (history memory web (store_of cache))
      (deployed_release memory web (store_of cache))
      (remove_least_recent memory web 1 (store_of cache))
remove_least_recent-prunes_example = remove_least_recent-prunes memory web 1 (store_of cache)

abbrev limited : Store memory
limited = record { max_history = 1; db = stale }

create_undeployed_example :
    Store.create memory new_release limited
    ≡ on_db memory (memory.create (make_key web (int32 2)) new_release stale) limited
unfolding deployed_release Memory.query new_record
create_undeployed_example = create_undeployed memory new_release limited (no_deployed web) refl

last-IsLastOf_example :
    IsLastOf
      (no_revision web)
      (history memory web (store_of cache))
      (last memory web (store_of cache))
last-IsLastOf_example = last-IsLastOf memory web (store_of cache)

abbrev ops : List Op
ops =
    create_op (make_key web (int32 1)) old_release
    ∷ create_op (make_key web (int32 1)) old_release
    ∷ update_op (make_key web (int32 2)) new_release
    ∷ delete_op web (int32 1)
    ∷ []

memory-IsMap_example :
    ((perform_all ops new_memory).0 ≡ (promise_all ops empty_map).0)
    × IsWellFormed (perform_all ops new_memory).1
    × ((n j : Bytes)
        → lookup n j (perform_all ops new_memory).1 ≡ (promise_all ops empty_map).1 n j)
unfolding lacks2
memory-IsMap_example = memory-IsMap ops (tt, (tt, (tt, ((omega arith, refl), tt))))
