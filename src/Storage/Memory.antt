-- ===== src/Storage/Memory.antt =====
-- pkg/storage/driver/memory.go: the in-memory driver, a map from release names to their records.
-- The map is an association list with distinct names; Go iterates over it in any order, here in
-- that of the list. Its mutex makes each operation one step.
pub mod View
pub mod Laws
pub mod Keys
pub mod Map
use helm.Common.{
  Bytes, codes, Bool, true, false, if◌then◌else◌, Option, none, some, List, [], ◌∷◌, ◌++◌, ◌&&◌,
}
use helm.Common.Text.{eqb, split2}
use helm.Common.Decimal.{atoi}
use helm.Release.{Release}
use helm.Result.{Result, ok, err, Exec, release_not_found, invalid_key}
use helm.Storage.Labels
use helm.Storage.Labels.{Labels}
use helm.Storage.Records
use helm.Storage.Records.{Entry, Records, new_record}
use helm.Storage.Driver.{Driver}

abbrev pub Cache : Type 0
Cache = List (Bytes × Records)

-- NewMemory
abbrev pub new_memory : Cache
new_memory = []

-- `mem.cache[name]`
unfoldable pub bucket : Bytes → Cache → Option Records
unfolding eqb
bucket name [] = none
bucket name ((n, recs) ∷ cache) = if eqb n name then some recs else bucket name cache

-- `mem.cache[name] = recs`
unfoldable pub assign : Bytes → Records → Cache → Cache
unfolding eqb
assign name recs [] = (name, recs) ∷ []
assign name recs ((n, rs) ∷ cache) =
    if eqb n name then (n, recs) ∷ cache else (n, rs) ∷ assign name recs cache

abbrev pub numbered : {A : Type 0} → Bytes → Option A → Option Bytes
numbered name none = none
numbered name (some n) = some name

abbrev pub two_parts : List Bytes → Option Bytes
two_parts (name ∷ ver ∷ []) = numbered name (atoi ver)
two_parts _ = none

-- The name of a key: `strings.Split(key, ".v")` has two parts, and `strconv.Atoi` takes the second.
unfoldable pub key_name : Bytes → Option Bytes
key_name key = two_parts (split2 b'.' b'v' key)

abbrev pub record_of : Bytes → Option Records → Option Entry
record_of key none = none
record_of key (some recs) = Records.get key recs

abbrev pub found : Bytes → Option Entry → Result Release
found key none = err (release_not_found key)
found key (some r) = ok r.rls

abbrev pub get_named : Bytes → Cache → Option Bytes → Result Release
get_named key cache none = err (invalid_key key)
get_named key cache (some name) = found key (record_of key (bucket name cache))

-- Memory.Get
unfoldable pub get : Bytes → Cache → Result Release
unfolding key_name bucket Records.get
get key cache = get_named key cache (key_name key)

select : (Entry → Bool) → Records → List Release
select p [] = []
select p (r ∷ rs) = if p r then r.rls ∷ select p rs else select p rs

select_all : (Entry → Bool) → Cache → List Release
unfolding select
select_all p [] = []
select_all p ((n, recs) ∷ cache) = select p recs ++ select_all p cache

-- Memory.List
unfoldable pub list : (Release → Bool) → Cache → Result (List Release)
unfolding select_all
list filter cache = ok (select_all (λ r. filter r.rls) cache)

-- Memory.Query
unfoldable pub query : Labels → Cache → Result (List Release)
unfolding select_all Labels.matches
query keyvals cache = ok (select_all (λ r. Labels.matches r.lbs keyvals) cache)

abbrev pub stored : Bytes → Cache → Result Records → Result (Unit {0}) × Cache
stored name cache (ok recs) = (ok tt, assign name recs cache)
stored name cache (err e) = (err e, cache)

abbrev pub create_at : Bytes → Release → Cache → Option Records → Result (Unit {0}) × Cache
create_at key rls cache none = (ok tt, assign rls.name (new_record key rls ∷ []) cache)
create_at key rls cache (some recs) = stored rls.name cache (Records.add (new_record key rls) recs)

-- Memory.Create
unfoldable pub create : Bytes → Release → Exec Cache (Unit {0})
unfolding bucket assign new_record Records.add
create key rls cache = create_at key rls cache (bucket rls.name cache)

abbrev pub update_at : Bytes → Release → Cache → Option Records → Result (Unit {0}) × Cache
update_at key rls cache none = (err (release_not_found rls.name), cache)
update_at key rls cache (some rs) =
    if Records.exists key rs
    then (ok tt, assign rls.name (Records.replace key (new_record key rls) rs).1 cache)
    else (err (release_not_found rls.name), cache)

-- Memory.Update
unfoldable pub update : Bytes → Release → Exec Cache (Unit {0})
unfolding bucket assign new_record Records.replace Records.exists
update key rls cache = update_at key rls cache (bucket rls.name cache)

abbrev pub removed : Bytes → Bytes → Cache → Option Entry × Records → Result Release × Cache
removed key name cache (none, recs) = (err (release_not_found key), cache)
removed key name cache (some r, recs) = (ok r.rls, assign name recs cache)

abbrev pub delete_at : Bytes → Bytes → Cache → Option Records → Result Release × Cache
delete_at key name cache none = (err (release_not_found key), cache)
delete_at key name cache (some recs) = removed key name cache (Records.remove key recs)

abbrev pub delete_named : Bytes → Cache → Option Bytes → Result Release × Cache
delete_named key cache none = (err (invalid_key key), cache)
delete_named key cache (some name) = delete_at key name cache (bucket name cache)

-- Memory.Delete
unfoldable pub delete : Bytes → Exec Cache Release
unfolding key_name bucket assign Records.remove
delete key cache = delete_named key cache (key_name key)

abbrev pub memory : Driver
memory = record {
  State = Cache;
  get = get;
  list = list;
  query = query;
  create = create;
  update = update;
  delete = delete;
}
