-- ===== src/Storage/ConfigMaps/Refines.antt =====
-- The ConfigMaps driver of pkg/storage/driver/cfgmaps.go and a map from keys to releases.
use helm.Common.{Bytes, Bool, true, false, if◌then◌else◌, Option, none, some, ◌≡◌, refl, ap}
use helm.Common.Text.{eqb}
use helm.Release.{Release}
use helm.Result.{Result, ok, err, release_not_found, release_exists}
use helm.Storage.Labels.{Labels}
use helm.Storage.ConfigMaps.{
  created_at, modified_at, Client, Context, Object, Answer, got, refused, is_not_found,
  is_already_exists, api_error, get_release, create_release, update_release, delete_release,
  new_object, labelled, decoded,
}

abbrev pub or_not_found : Option Object → Answer Object
or_not_found none = refused is_not_found
or_not_found (some o) = got o

-- What an API server that answers each call does, by the objects that it has: `objects s k` is the
-- object of the name `k`.
pub record IsServer (C : Client) (objects : C.State → Bytes → Option Object) : Type 0 where
  pub get : (k : Bytes) (s : C.State) → C.get k s ≡ or_not_found (objects s k)
  pub create_fresh :
      (o : Object) (s : C.State)
      → objects s o.name ≡ none
      → (t : C.State) × (C.create o s ≡ (got tt, t))
        × ((k : Bytes) → objects t k ≡ (if eqb o.name k then some o else objects s k))
  pub create_taken :
      (o p : Object) (s : C.State)
      → objects s o.name ≡ some p
      → C.create o s ≡ (refused is_already_exists, s)
  pub update_present :
      (o p : Object) (s : C.State)
      → objects s o.name ≡ some p
      → (t : C.State) × (C.update o s ≡ (got tt, t))
        × ((k : Bytes) → objects t k ≡ (if eqb o.name k then some o else objects s k))
  pub update_missing :
      (o : Object) (s : C.State)
      → objects s o.name ≡ none
      → C.update o s ≡ (refused is_not_found, s)
  pub delete_present :
      (k : Bytes) (p : Object) (s : C.State)
      → objects s k ≡ some p
      → (t : C.State) × (C.delete k s ≡ (got tt, t))
        × ((j : Bytes) → objects t j ≡ (if eqb k j then none else objects s j))

module _ (C : Client) (X : Context C) (objects : C.State → Bytes → Option Object) where
  -- the release that an object holds
  abbrev pub release_in : Option Object → Option (Result Release)
  release_in none = none
  release_in (some o) = some (X.decode o.payload)

  -- the map that the driver stands for
  abbrev pub releases : C.State → Bytes → Option (Result Release)
  releases s k = release_in (objects s k)

  abbrev pub found : Bytes → Option (Result Release) → Result Release
  found k none = err (release_not_found k)
  found k (some r) = r

  -- the map with a release under the key
  abbrev pub Holds : C.State → C.State → Bytes → Release → Type 0
  Holds s t key rls =
      (k : Bytes) → releases t k ≡ (if eqb key k then some (ok rls) else releases s k)

  abbrev pub Lacks : C.State → C.State → Bytes → Type 0
  Lacks s t key = (k : Bytes) → releases t k ≡ (if eqb key k then none else releases s k)

  -- create, by what the map has under the key
  abbrev pub Creates : C.State → Bytes → Release → Option (Result Release) → Type 0
  Creates s key rls none =
      (t : C.State) × (create_release C X key rls s ≡ (ok tt, t)) × Holds s t key rls
  Creates s key rls (some r) = create_release C X key rls s ≡ (err (release_exists key), s)

  -- update
  abbrev pub Updates : C.State → Bytes → Release → Option (Result Release) → Type 0
  Updates s key rls none = update_release C X key rls s ≡ (err (api_error is_not_found), s)
  Updates s key rls (some r) =
      (t : C.State) × (update_release C X key rls s ≡ (ok tt, t)) × Holds s t key rls

  -- delete: a release that cannot be read stays
  abbrev pub Deletes : C.State → Bytes → Option (Result Release) → Type 0
  Deletes s key none = delete_release C X key s ≡ (err (release_not_found key), s)
  Deletes s key (some (err e)) = delete_release C X key s ≡ (err e, s)
  Deletes s key (some (ok rls)) =
      (t : C.State) × (delete_release C X key s ≡ (ok rls, t)) × Lacks s t key

  module _ (server : IsServer C objects)
      (coded : (r : Release) (b : Bytes) → X.encode r ≡ ok b → X.decode b ≡ ok r) where
    get_release-found : (k : Bytes) (s : C.State) → get_release C X k s ≡ found k (releases s k)
    unfolding get_release
    get_release-found k s = rw (server.get k s) (go (objects s k))
      where
        go : (o : Option Object) → decoded C X k (or_not_found o) ≡ found k (release_in o)
        go none = refl
        go (some o) = refl

    holds :
        (s t : C.State) (key : Bytes) (rls : Release) (lbs : Labels) (b : Bytes)
        → X.encode rls ≡ ok b
        → ((k : Bytes)
            → objects t k ≡ (if eqb key k then some (labelled key rls lbs b) else objects s k))
        → Holds s t key rls
    holds s t key rls lbs b e h k = rw (h k) (go (eqb key k))
      where
        go :
            (c : Bool)
            → release_in (if c then some (labelled key rls lbs b) else objects s k)
              ≡ (if c then some (ok rls) else releases s k)
        go true = ap some (coded rls b e)
        go false = refl

    create_release-Creates :
        (s : C.State) (key : Bytes) (rls : Release) (b : Bytes)
        → X.encode rls ≡ ok b
        → Creates s key rls (releases s key)
    unfolding create_release new_object
    create_release-Creates s key rls b e = go (objects s key) refl
      where
        go : (o : Option Object) → objects s key ≡ o → Creates s key rls (release_in o)
        go none h =
            let (t, run, after) = server.create_fresh (labelled key rls (created_at C X s) b) s h in
            (t, rw (e, run) refl, holds s t key rls (created_at C X s) b e after)
        go (some p) h =
            rw (e, server.create_taken (labelled key rls (created_at C X s) b) p s h) refl

    update_release-Updates :
        (s : C.State) (key : Bytes) (rls : Release) (b : Bytes)
        → X.encode rls ≡ ok b
        → Updates s key rls (releases s key)
    unfolding update_release new_object
    update_release-Updates s key rls b e = go (objects s key) refl
      where
        go : (o : Option Object) → objects s key ≡ o → Updates s key rls (release_in o)
        go none h = rw (e, server.update_missing (labelled key rls (modified_at C X s) b) s h) refl
        go (some p) h =
            let (t, run, after) =
              server.update_present (labelled key rls (modified_at C X s) b) p s h in
            (t, rw (e, run) refl, holds s t key rls (modified_at C X s) b e after)

    delete_release-Deletes : (s : C.State) (key : Bytes) → Deletes s key (releases s key)
    unfolding delete_release
    delete_release-Deletes s key = go (objects s key) refl
      where
        held :
            (p : Object) (r : Result Release)
            → objects s key ≡ some p
            → X.decode p.payload ≡ r
            → Deletes s key (some r)
        held p (err e) h hd = rw (get_release-found key s, h, hd) refl
        held p (ok rls) h hd =
            let (t, run, after) = server.delete_present key p s h in
            (
              t,
              rw (get_release-found key s, h, hd, run) refl,
              λ j. rw (after j) (gone (eqb key j) j),
            )
          where
            gone :
                (c : Bool) (j : Bytes)
                → release_in (if c then none else objects s j) ≡ (if c then none else releases s j)
            gone true j = refl
            gone false j = refl

        go : (o : Option Object) → objects s key ≡ o → Deletes s key (release_in o)
        go none h = rw (get_release-found key s, h) refl
        go (some p) h = held p (X.decode p.payload) h refl

    -- Over an API server that answers each call, and with a decoding that undoes the encoding, the
    -- driver is a map from keys to releases: Get reads it; Create adds a release under a free key and
    -- fails, changing nothing, under a taken one; Update puts a release in the place of the one under
    -- the key and fails, changing nothing, where there is none; Delete takes a release out and returns
    -- it, and fails, changing nothing, where there is none or it cannot be decoded.
    pub config_maps-refines :
        (s : C.State) (key : Bytes) (rls : Release) (b : Bytes)
        → X.encode rls ≡ ok b
        → (get_release C X key s ≡ found key (releases s key))
          × Creates s key rls (releases s key)
          × Updates s key rls (releases s key)
          × Deletes s key (releases s key)
    config_maps-refines s key rls b e = (
      get_release-found key s,
      create_release-Creates s key rls b e,
      update_release-Updates s key rls b e,
      delete_release-Deletes s key,
    )
