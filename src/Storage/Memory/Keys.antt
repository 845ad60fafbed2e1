-- ===== src/Storage/Memory/Keys.antt =====
-- What Get and Delete of the in-memory driver do at the keys that Tiller makes.
use helm.Common.{Bytes, true, false, Option, none, some, ◌≡◌, refl, sym, ◌∙◌, ◌<◌, arith}
use helm.Common.Text.{eqb, eqb_refl, lacks2}
use helm.Common.Decimal.{Int32}
use helm.Release.{Release}
use helm.Result.{ok, err, release_not_found, invalid_key}
use helm.Storage.Records
use helm.Storage.Records.{Entry, Records, new_record}
use helm.Storage.Records.Lookup.{get-eq-find, remove-eq-find, find-remove, IsDistinct-remove}
use helm.Storage.Store
use helm.Storage.Store.{Store, make_key}
use helm.Storage.Key.{key_name-make_key, key_name-make_key_dotted}
use helm.Storage.Memory.{
  Cache, bucket, get, create, delete, delete_at, record_of, found, removed, memory,
}
use helm.Storage.Memory.View.{find_in, lookup, IsWellFormed, IsDistinct-bucket}
use helm.Storage.Memory.Laws.{Sets, assign-Sets, create-fresh}

record_of-eq-find_in : (key : Bytes) (o : Option Records) → record_of key o ≡ find_in key o
record_of-eq-find_in key none = refl
record_of-eq-find_in key (some recs) = get-eq-find key recs

module _ (name : Bytes) (v : Int32) (v_lt : v < 4294967296) where
  -- `Get` at the key of an int32 version of a name without ".v" returns the record of that name
  -- and key, or says that there is none.
  pub get-eq-lookup :
      (cache : Cache)
      → lacks2 b'.' b'v' name ≡ true
      → get (make_key name v) cache ≡ found (make_key name v) (lookup name (make_key name v) cache)
  unfolding get
  get-eq-lookup cache clean =
      rw
        (
          key_name-make_key name v clean v_lt,
          record_of-eq-find_in (make_key name v) (bucket name cache),
        )
        refl

module _ (cache : Cache) (formed : IsWellFormed cache) (name key : Bytes) where
  deleted_in :
      (o : Option Records) (r : Entry)
      → bucket name cache ≡ o
      → find_in key o ≡ some r
      → ((delete_at key name cache o).0 ≡ ok r.rls)
        × Sets name key none cache (delete_at key name cache o).1
  deleted_in none r b h = cc
  deleted_in (some recs) r b h = taken (Records.remove key recs) (remove-eq-find key recs ∙ h) refl
    where
      taken :
          (x : Option Entry × Records)
          → x.0 ≡ some r
          → x.1 ≡ (Records.remove key recs).1
          → ((removed key name cache x).0 ≡ ok r.rls)
            × Sets name key none cache (removed key name cache x).1
      taken (none, rest) e f = cc
      taken (some q, rest) e f = (
        cc,
        assign-Sets name key none rest cache formed
            (rw f (IsDistinct-remove recs key (IsDistinct-bucket name cache formed b)))
            (λ j.
              rw f (
                ground (arith, b, find-remove recs key j (IsDistinct-bucket name cache formed b)))),
      )

  missing_in :
      (o : Option Records)
      → find_in key o ≡ none
      → delete_at key name cache o ≡ (err (release_not_found key), cache)
  missing_in none h = refl
  missing_in (some recs) h = absent (Records.remove key recs) (remove-eq-find key recs ∙ h)
    where
      absent :
          (x : Option Entry × Records)
          → x.0 ≡ none
          → removed key name cache x ≡ (err (release_not_found key), cache)
      absent (none, rest) e = refl
      absent (some q, rest) e = cc

module _ (cache : Cache) (formed : IsWellFormed cache) (name : Bytes) (v : Int32)
    (v_lt : v < 4294967296) where
  -- In a well-formed cache, `Delete` at the key of an int32 version of a name without ".v"
  -- returns the release that is there, and removes its record and nothing else.
  pub delete-present :
      (r : Entry)
      → lacks2 b'.' b'v' name ≡ true
      → lookup name (make_key name v) cache ≡ some r
      → ((delete (make_key name v) cache).0 ≡ ok r.rls)
        × Sets name (make_key name v) none cache (delete (make_key name v) cache).1
  unfolding delete
  delete-present r clean h =
      rw (key_name-make_key name v clean v_lt)
        (deleted_in cache formed name (make_key name v) (bucket name cache) r refl h)

  -- In a well-formed cache, `Delete` at the key of an int32 version of a name without ".v" fails
  -- where there is no record, and changes nothing.
  pub delete_missing :
      lacks2 b'.' b'v' name ≡ true
      → lookup name (make_key name v) cache ≡ none
      → delete (make_key name v) cache ≡ (err (release_not_found (make_key name v)), cache)
  unfolding delete
  delete_missing clean h =
      rw (key_name-make_key name v clean v_lt)
        (missing_in cache formed name (make_key name v) (bucket name cache) h)

-- In a well-formed cache, a release whose name holds ".v" is created under a new key, but then
-- cannot be read or deleted: its key is invalid.
pub create_dotted :
    (cache : Cache) (rls : Release)
    → IsWellFormed cache
    → lacks2 b'.' b'v' rls.name ≡ false
    → lookup rls.name (make_key rls.name rls.version) cache ≡ none
    → let key = make_key rls.name rls.version in
      let after = create key rls cache in
      (after.0 ≡ ok tt)
      × (get key after.1 ≡ err (invalid_key key))
      × (delete key after.1 ≡ (err (invalid_key key), after.1))
unfolding get delete
create_dotted cache rls formed dotted fresh =
    rw (key_name-make_key_dotted rls.name rls.version dotted)
      ((create-fresh cache formed (make_key rls.name rls.version) rls fresh).0, refl, refl)

-- A store without a limit, over a well-formed cache of the in-memory driver: a release whose
-- version is an int32 and whose name has no ".v" is created under a new key and read back; and
-- every release of another name without ".v" is read as before.
pub create-get :
    (s : Store memory) (rls : Release)
    → s.max_history ≡ 0
    → IsWellFormed s.db
    → rls.version < 4294967296
    → lacks2 b'.' b'v' rls.name ≡ true
    → lookup rls.name (make_key rls.name rls.version) s.db ≡ none
    → let after = Store.create memory rls s in
      (after.0 ≡ ok tt)
      × (Store.get memory rls.name rls.version after.1 ≡ ok rls)
      × ((name : Bytes) (v : Int32)
          → v < 4294967296
          → lacks2 b'.' b'v' name ≡ true
          → eqb rls.name name ≡ false
          → Store.get memory name v after.1 ≡ Store.get memory name v s)
unfolding Store.create Store.get new_record
create-get s rls unlimited formed v_lt clean fresh =
    let key = make_key rls.name rls.version in
    let (created, sets) = create-fresh s.db formed key rls fresh in
    let after = (create key rls s.db).1 in
    rw unlimited (
      created,
      rw
          (
            get-eq-lookup rls.name rls.version v_lt after clean,
            sets.at rls.name key,
            eqb_refl rls.name,
            eqb_refl key,
          )
          refl,
      λ name v w_lt other_clean other.
          rw (get-eq-lookup name v w_lt after other_clean, sets.at name (make_key name v), other)
            (sym (get-eq-lookup name v w_lt s.db other_clean)),
    )
