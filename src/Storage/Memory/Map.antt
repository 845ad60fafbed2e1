-- ===== src/Storage/Memory/Map.antt =====
-- The in-memory driver of pkg/storage/driver/memory.go against a map from a release name and a key
-- to a record, over sequences of operations.
use helm.Common.Text.{eqb, lacks2}
use helm.Common.Decimal.{Int32}
use helm.Storage.Memory.Keys.{delete-present, delete_missing}
use helm.Storage.Memory.View.{IsWellFormed, lookup}
use helm.Storage.Store.{make_key}
use helm.Storage.Records.{Entry, new_record}
use helm.Result.{Error, release_not_found, release_exists, Result, ok, err}
use helm.Release.{Release}
use helm.Common.{
  if◌then◌else◌, Bytes, All, List, ◌∷◌, ◌∙◌, true, [], some, ◌≡◌, none, ap, Option, ◌<◌, ◌&&◌, refl,
}
use helm.Storage.Memory.{bucket, Cache, new_memory, create, update, delete}
use helm.Storage.Memory.Laws.{Sets, create-fresh, create_taken, update-present, update_missing}

pub data Op : Type 0 where
  create_op update_op : (key : Bytes) → Release → Op
  -- at the key of a name and a version
  delete_op : (name : Bytes) → (v : Int32) → Op

pub data Reply : Type 0 where
  done : Reply
  deleted : Release → Reply
  refused : Error → Reply

abbrev pub reply_of : Result (Unit {0}) → Reply
reply_of (ok _) = done
reply_of (err e) = refused e

abbrev pub deleted_reply : Result Release → Reply
deleted_reply (ok r) = deleted r
deleted_reply (err e) = refused e

-- an operation of the driver
unfoldable pub perform : Op → Cache → Reply × Cache
unfolding create update delete
perform (create_op key rls) cache = let (r, after) = create key rls cache in (reply_of r, after)
perform (update_op key rls) cache = let (r, after) = update key rls cache in (reply_of r, after)
perform (delete_op name v) cache =
    let (r, after) = delete (make_key name v) cache in (deleted_reply r, after)

unfoldable pub perform_all : List Op → Cache → List Reply × Cache
unfolding perform
perform_all [] cache = ([], cache)
perform_all (op ∷ ops) cache =
    let (r, cache') = perform op cache in
    let (rs, after) = perform_all ops cache' in (r ∷ rs, after)

-- a map from names and keys to records
abbrev pub RecordMap : Type 0
RecordMap = Bytes → Bytes → Option Entry

abbrev pub put : Bytes → Bytes → Option Entry → RecordMap → RecordMap
put name key e m n j = if eqb name n && eqb key j then e else m n j

-- what the operations promise: Create needs a free key, Update and Delete one that is there
abbrev pub create_entry : Bytes → Release → RecordMap → Option Entry → Reply × RecordMap
create_entry key rls m none = (done, put rls.name key (some (new_record key rls)) m)
create_entry key rls m (some _) = (refused (release_exists key), m)

abbrev pub update_entry : Bytes → Release → RecordMap → Option Entry → Reply × RecordMap
update_entry key rls m none = (refused (release_not_found rls.name), m)
update_entry key rls m (some _) = (done, put rls.name key (some (new_record key rls)) m)

abbrev pub delete_entry : Bytes → Bytes → RecordMap → Option Entry → Reply × RecordMap
delete_entry name key m none = (refused (release_not_found key), m)
delete_entry name key m (some r) = (deleted r.rls, put name key none m)

unfoldable pub promise : Op → RecordMap → Reply × RecordMap
promise (create_op key rls) m = create_entry key rls m (m rls.name key)
promise (update_op key rls) m = update_entry key rls m (m rls.name key)
promise (delete_op name v) m = delete_entry name (make_key name v) m (m name (make_key name v))

unfoldable pub promise_all : List Op → RecordMap → List Reply × RecordMap
unfolding promise
promise_all [] m = ([], m)
promise_all (op ∷ ops) m =
    let (r, m') = promise op m in let (rs, after) = promise_all ops m' in (r ∷ rs, after)

abbrev pub empty_map : RecordMap
empty_map n j = none

-- Deletions are at versions that are int32 numbers, of names without ".v".
abbrev pub IsReadable : Op → Type 0
IsReadable (delete_op name v) = (v < 4294967296) × (lacks2 b'.' b'v' name ≡ true)
IsReadable _ = Unit

-- the cache is well formed and stands for the map
abbrev pub Stands : Cache → RecordMap → Type 0
Stands cache m = IsWellFormed cache × ((n j : Bytes) → lookup n j cache ≡ m n j)

module _ (cache : Cache) (m : RecordMap) (stands : Stands cache m) where
  Sets-Stands :
      (name key : Bytes) (e : Option Entry) (after : Cache)
      → Sets name key e cache after
      → Stands after (put name key e m)
  Sets-Stands name key e after sets = (
    sets.formed,
    λ n j. sets.at n j ∙ ap (λ o. if eqb name n && eqb key j then e else o) (stands.1 n j),
  )

  -- the reply is the same, and so are the states after it
  abbrev Agree : Reply × Cache → Reply × RecordMap → Type 0
  Agree x y = (x.0 ≡ y.0) × Stands x.1 y.1

  perform-Agree : (op : Op) → IsReadable op → Agree (perform op cache) (promise op m)
  unfolding perform promise
  perform-Agree (create_op key rls) _ = go (m rls.name key) refl
    where
      go :
          (o : Option Entry)
          → m rls.name key ≡ o
          → Agree (perform (create_op key rls) cache) (create_entry key rls m o)
      go none e =
          let (r, sets) = create-fresh cache stands.0 key rls (stands.1 rls.name key ∙ e) in
          (ap reply_of r, Sets-Stands rls.name key _ _ sets)
      go (some old) e =
          rw (create_taken cache stands.0 key rls old (stands.1 rls.name key ∙ e)) (refl, stands)
  perform-Agree (update_op key rls) _ = go (m rls.name key) refl
    where
      go :
          (o : Option Entry)
          → m rls.name key ≡ o
          → Agree (perform (update_op key rls) cache) (update_entry key rls m o)
      go none e =
          rw (update_missing cache stands.0 key rls (stands.1 rls.name key ∙ e)) (refl, stands)
      go (some old) e =
          let (r, sets) = update-present cache stands.0 key rls old (stands.1 rls.name key ∙ e) in
          (ap reply_of r, Sets-Stands rls.name key _ _ sets)
  perform-Agree (delete_op name v) (v_lt, clean) = go (m name (make_key name v)) refl
    where
      go :
          (o : Option Entry)
          → m name (make_key name v) ≡ o
          → Agree (perform (delete_op name v) cache) (delete_entry name (make_key name v) m o)
      go none e =
          rw (delete_missing cache stands.0 name v v_lt clean (stands.1 name (make_key name v) ∙ e))
            (refl, stands)
      go (some r) e =
          let (d, sets) =
            delete-present cache stands.0 name v v_lt r clean
              (stands.1 name (make_key name v) ∙ e) in
          (ap deleted_reply d, Sets-Stands name (make_key name v) _ _ sets)

perform_all-Agree :
    (ops : List Op) (cache : Cache) (m : RecordMap)
    → Stands cache m
    → All IsReadable ops
    → ((perform_all ops cache).0 ≡ (promise_all ops m).0)
      × Stands (perform_all ops cache).1 (promise_all ops m).1
unfolding perform_all promise_all
perform_all-Agree [] cache m s _ = (refl, s)
perform_all-Agree (op ∷ ops) cache m s (h, hs) =
    let (same, s') = perform-Agree cache m s op h in
    let (sames, s'') = perform_all-Agree ops (perform op cache).1 (promise op m).1 s' hs in
    (rw (same, sames) refl, s'')

-- After any sequence of Create, Update and Delete on a new in-memory driver, failed ones included,
-- where deletions are at int32 versions of names without ".v": the replies have been those of a map
-- from names and keys to records, the cache is well formed, and it holds the records of the map.
pub memory-IsMap :
    (ops : List Op)
    → All IsReadable ops
    → ((perform_all ops new_memory).0 ≡ (promise_all ops empty_map).0)
      × IsWellFormed (perform_all ops new_memory).1
      × ((n j : Bytes)
          → lookup n j (perform_all ops new_memory).1 ≡ (promise_all ops empty_map).1 n j)
unfolding bucket
memory-IsMap ops h =
    let (same, (formed, at)) = perform_all-Agree ops new_memory empty_map (tt, λ n j. refl) h in
    (same, formed, at)
