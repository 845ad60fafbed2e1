-- ===== src/Tiller/Names.antt =====
-- uniqName and createUniqName of pkg/tiller/release_server.go.
pub mod Laws
use Prim.Native.Nat.{ℕ, zero, suc}
use helm.Common.{
  Bytes, codes, Bool, true, false, ltb, if◌then◌else◌, ◌&&◌, ◌||◌, List, [], ◌∷◌, length,
}
use helm.Common.Decimal.{int32}
use helm.Release.{Release, Status, status_eq, deleted, failed}
use helm.Result.{Error, Result, ok, err, mentions, name_too_long, name_in_use, name_exists, no_name}
use helm.Releaseutil.Sorter.{sort_by_revision, reverse_by}
use helm.Storage.Driver.{Driver}
use helm.Storage.Store
use helm.Storage.Store.{Store}
use helm.Tiller.Server.{Env, Server, release_name_max_len}

-- `name[:n]` where the name is longer
unfoldable pub take : ℕ → Bytes → Bytes
take zero s = []
take (suc n) [] = []
take (suc n) (c ∷ s) = c ∷ take n s

abbrev pub is_free : Status → Bool
is_free st = status_eq st deleted || status_eq st failed

-- the decision on the last release of the name
unfoldable pub claim : Bytes → Bool → List Release → Result Bytes
claim start reuse [] = ok start
claim start reuse (rel ∷ _) =
    if reuse && is_free rel.info.code
    then ok start
    else (if reuse then err (name_in_use start) else err (name_exists start))

unfoldable pub claim_history : Bytes → Bool → Result (List Release) → Result Bytes
unfolding claim reverse_by sort_by_revision
claim_history start reuse (err e) = ok start
claim_history start reuse (ok h) = claim start reuse (reverse_by sort_by_revision h)

abbrev pub says_not_found : Result Release → Bool
says_not_found (ok _) = false
says_not_found (err e) = mentions (codes "not found") e

module _ (D : Driver) where
  -- The loop of createUniqName: `left` tries are to come, the next of which is number `i`.
  unfoldable pub try_names : (ℕ → Bytes) → ℕ → ℕ → Store D → Result Bytes
  unfolding Store.get take mentions
  try_names gen zero i s = err no_name
  try_names gen (suc left) i s =
      let raw = gen i in
      let name =
        if ltb release_name_max_len (length raw) then take release_name_max_len raw else raw in
      let again = try_names gen left (suc i) s in
      if says_not_found (Store.get D name (int32 1) s) then ok name else again

  unfoldable pub create_uniq_name : (ℕ → Bytes) → Store D → Result Bytes
  unfolding try_names
  create_uniq_name gen s = try_names gen 5 0 s

  unfoldable pub uniq_name : Env → Bytes → Bool → Server D → Result Bytes
  unfolding create_uniq_name claim_history Store.history
  uniq_name env [] reuse s = create_uniq_name (env.name_sep s.calls) s.store
  uniq_name env (c ∷ start) reuse s =
      if ltb release_name_max_len (length (c ∷ start))
      then err (name_too_long (c ∷ start))
      else claim_history (c ∷ start) reuse (Store.history D (c ∷ start) s.store)
