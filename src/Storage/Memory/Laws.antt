-- ===== src/Storage/Memory/Laws.antt =====
-- What Create, Update, Delete and Get of the in-memory driver do to the map of records.
use helm.Common.{Bytes, Option, none, some, [], ◌∷◌, ◌≡◌, refl, ◌&&◌, arith, if◌then◌else◌}
use helm.Common.Text.{eqb, eqb_iff}
use helm.Release.{Release}
use helm.Result.{ok, err, release_exists, release_not_found}
use helm.Storage.Records
use helm.Storage.Records.{Entry, Records, new_record}
use helm.Storage.Records.Lookup.{
  find, IsDistinct, find-add, add_exists, exists-eq-find, find-replace, IsDistinct-replace,
}
use helm.Storage.Memory.{Cache, bucket, assign, create, update, update_at, create_at}
use helm.Storage.Memory.View.{
  find_in, lookup, IsWellFormed, bucket-assign, IsWellFormed-assign, IsDistinct-bucket,
}

lookup-assign :
    (n m key : Bytes) (recs : Records) (cache : Cache)
    → lookup n key (assign m recs cache) ≡ (if eqb m n then find key recs else lookup n key cache)
lookup-assign n m key recs cache = ground (arith, bucket-assign n m recs cache)

-- `after` differs from `before` at most in the record of one name and key.
pub record Sets (name key : Bytes) (e : Option Entry) (before after : Cache) : Type 0 where
  pub formed : IsWellFormed after
  pub at :
      (n j : Bytes) → lookup n j after ≡ (if eqb name n && eqb key j then e else lookup n j before)

pub assign-Sets :
    (name key : Bytes) (e : Option Entry) (recs : Records) (cache : Cache)
    → IsWellFormed cache
    → IsDistinct recs
    → ((j : Bytes) → find j recs ≡ (if eqb key j then e else lookup name j cache))
    → Sets name key e cache (assign name recs cache)
assign-Sets name key e recs cache w d h = record {
  formed = IsWellFormed-assign name recs cache d w;
  at = λ n j. ground (arith, lookup-assign n name j recs cache, h j, eqb_iff name n);
}

module _ (cache : Cache) (formed : IsWellFormed cache) (key : Bytes) (rls : Release) where
  -- the record of the release is there, and all else is as before
  abbrev pub Stored : Cache → Type 0
  Stored = Sets rls.name key (some (new_record key rls)) cache

  create_in :
      (o : Option Records)
      → bucket rls.name cache ≡ o
      → find_in key o ≡ none
      → ((create_at key rls cache o).0 ≡ ok tt) × Stored (create_at key rls cache o).1
  unfolding find new_record
  create_in none b h = (
    refl,
    assign-Sets rls.name key (some (new_record key rls)) (new_record key rls ∷ []) cache formed
        (refl, tt) (λ j. ground (arith, b)),
  )
  create_in (some recs) b h =
      let (rs, added, d, at) =
        find-add recs (IsDistinct-bucket rls.name cache formed b) (new_record key rls) h in
      rw added (
        refl,
        assign-Sets rls.name key (some (new_record key rls)) rs cache formed d
            (λ j. ground (arith, b, at j)),
      )

  -- In a well-formed cache, `Create` adds a record where there is none: the cache stays well
  -- formed, and all other records are as before.
  pub create-fresh :
      lookup rls.name key cache ≡ none
      → ((create key rls cache).0 ≡ ok tt) × Stored (create key rls cache).1
  unfolding create
  create-fresh h = create_in (bucket rls.name cache) refl h

  taken_in :
      (o : Option Records) (old : Entry)
      → bucket rls.name cache ≡ o
      → find_in key o ≡ some old
      → create_at key rls cache o ≡ (err (release_exists key), cache)
  unfolding new_record
  taken_in none old b h = cc
  taken_in (some recs) old b h =
      rw (add_exists recs (IsDistinct-bucket rls.name cache formed b) (new_record key rls) old h)
        refl

  -- In a well-formed cache, `Create` refuses a key that is there, and changes nothing.
  pub create_taken :
      (old : Entry)
      → lookup rls.name key cache ≡ some old
      → create key rls cache ≡ (err (release_exists key), cache)
  unfolding create
  create_taken old h = taken_in (bucket rls.name cache) old refl h

  update_in :
      (o : Option Records) (old : Entry)
      → bucket rls.name cache ≡ o
      → find_in key o ≡ some old
      → ((update_at key rls cache o).0 ≡ ok tt) × Stored (update_at key rls cache o).1
  unfolding new_record
  update_in none old b h = cc
  update_in (some recs) old b h =
      rw (exists-eq-find key recs, h)
        (
          refl,
          assign-Sets rls.name key (some (new_record key rls))
              (Records.replace key (new_record key rls) recs).1 cache formed
              (IsDistinct-replace recs (new_record key rls)
                (IsDistinct-bucket rls.name cache formed b))
              (λ j. ground (arith, b, find-replace recs (new_record key rls) j, eqb_iff key j)),
        )

  -- In a well-formed cache, `Update` replaces the record at the key of a release that is there:
  -- the cache stays well formed, and all other records are as before.
  pub update-present :
      (old : Entry)
      → lookup rls.name key cache ≡ some old
      → ((update key rls cache).0 ≡ ok tt) × Stored (update key rls cache).1
  unfolding update
  update-present old h = update_in (bucket rls.name cache) old refl h

  update_missing_in :
      (o : Option Records)
      → find_in key o ≡ none
      → update_at key rls cache o ≡ (err (release_not_found rls.name), cache)
  update_missing_in none h = refl
  update_missing_in (some recs) h = rw (exists-eq-find key recs, h) refl

  -- In a well-formed cache, `Update` of a release that is not there changes nothing, and its
  -- error names the release.
  pub update_missing :
      lookup rls.name key cache ≡ none
      → update key rls cache ≡ (err (release_not_found rls.name), cache)
  unfolding update
  update_missing h = update_missing_in (bucket rls.name cache) h
