-- ===== src/Chartutil/Coalesce/Laws.antt =====
-- What CoalesceValues of pkg/chartutil/values.go leaves under a key of the chart itself, and what it
-- hands to a subchart.
use helm.Common.{Bytes, false, Option, none, some, ◌≡◌, refl, arith, ◌∙◌, ◌∷◌, ℕ, ap}
use helm.Common.Text.{eqb, eqb_refl}
use helm.Result.{Result, ok, err, bind}
use helm.Chartutil.Value.{Fields, table, end, lookup, assign, Distinct, lookup-assign}
use helm.Chartutil.Tables.{coalesce_tables}
use helm.Chartutil.Tables.Laws.{coalesced, lookup-coalesce_tables}
use helm.Chartutil.Coalesce.{
  Charts, chart, no_charts, sub, chart_name, entries, claim, coalesce, coalesce_deps,
  coalesce_values, coalesce_all, coalesce_globals, global_key, globals_of,
}

-- no dependency has the name
abbrev pub Unclaimed : Bytes → Charts → Type 0
Unclaimed k no_charts = Unit
Unclaimed k (sub c deps) = (eqb (chart_name c) k ≡ false) × Unclaimed k deps

bind-ok :
    {A B : Type 0} (x : Result A) (f : A → Result B) (b : B)
    → bind x f ≡ ok b
    → (a : A) × (x ≡ ok a) × (f a ≡ ok b)
bind-ok (ok a) f b h = (a, refl, h)
bind-ok (err e) f b h = cc

module _ (read_values : Bytes → Result Fields) where
  lookup-claim :
      (k name : Bytes) (dest : Option Fields) (dv dest' : Fields)
      → claim read_values name dest ≡ ok (dv, dest')
      → eqb name k ≡ false
      → lookup k dest' ≡ lookup k (entries dest)
  unfolding claim
  lookup-claim k name none dv dest' h ne = cc
  lookup-claim k name (some dest) dv dest' h ne =
      ground (arith, lookup-assign name k (table end) dest)

  -- The dependencies of a chart change no other key.
  lookup-coalesce_deps :
      (k : Bytes) (deps : Charts) (dest r : Option Fields)
      → coalesce_deps read_values deps dest ≡ ok r
      → Unclaimed k deps
      → lookup k (entries r) ≡ lookup k (entries dest)
  unfolding coalesce
  lookup-coalesce_deps k no_charts dest r h u = cc
  lookup-coalesce_deps k (sub c deps) dest r h (ne, u) =
      let ((dv, dest'), e, rest) = bind-ok (claim read_values (chart_name c) dest) _ r h in
      let (rc, e', rest') = bind-ok (coalesce read_values c (coalesce_globals dv dest')) _ r rest in
      lookup-coalesce_deps k deps _ r rest' u
      ∙ lookup-assign (chart_name c) k (table (entries rc)) dest'
      ∙ rw ne (lookup-claim k (chart_name c) dest dv dest' e ne)

  coalesce_values-ok :
      (x : ℕ) (raw : Bytes) (v r : Option Fields) (d : Fields)
      → read_values (x ∷ raw) ≡ ok d
      → coalesce_values read_values (some (x ∷ raw)) v ≡ ok r
      → entries r ≡ coalesce_tables (entries v) d
  unfolding coalesce_values
  coalesce_values-ok x raw v r d e h = cc

  -- The values of a request `vals` and a non-empty values file `x ∷ raw`, where both are parsed to
  -- maps and no error is returned: under each key that is no dependency's name stands the request's
  -- value where it is not null, the coalesced table where both have one, nothing where the request
  -- has null, and else the value of the values file.
  pub coalesce_all-lookup :
      (name : Bytes) (x : ℕ) (raw vals : Bytes) (deps : Charts) (u d : Fields) (r : Option Fields)
      (k : Bytes)
      → read_values vals ≡ ok u
      → read_values (x ∷ raw) ≡ ok d
      → Distinct u
      → Distinct d
      → Unclaimed k deps
      → coalesce_all read_values (chart name (some (x ∷ raw)) deps) (some vals) ≡ ok r
      → lookup k (entries r) ≡ coalesced (lookup k u) (lookup k d)
  unfolding coalesce_all coalesce
  coalesce_all-lookup name x raw vals deps u d r k eu ed hu hd fresh h =
      let (u', e, h1) = bind-ok (read_values vals) _ r h in
      let (v, e1, h2) = bind-ok (coalesce_values read_values (some (x ∷ raw)) (some u')) _ r h1 in
      let same : u' ≡ u = cc in
      lookup-coalesce_deps k deps v r h2 fresh
      ∙ ap (lookup k) (coalesce_values-ok x raw (some u') v d ed e1)
      ∙ ap (λ w. lookup k (coalesce_tables w d)) same
      ∙ lookup-coalesce_tables k u d hu hd

-- Where both sides' globals are tables or missing, the subchart keeps its other values, and each of
-- its globals is that of the parent where the parent's is not null, the coalesced table where both
-- are tables, nothing where the parent's is null, and else its own.
pub coalesce_globals-lookup :
    (dv dest dg sg : Fields)
    → globals_of (lookup global_key dv) ≡ some dg
    → globals_of (lookup global_key dest) ≡ some sg
    → Distinct dg
    → Distinct sg
    → (fs : Fields) × (coalesce_globals dv dest ≡ some fs)
      × ((k : Bytes) → eqb global_key k ≡ false → lookup k fs ≡ lookup k dv)
      × ((g : Fields) × (lookup global_key fs ≡ some (table g))
          × ((k : Bytes) → lookup k g ≡ coalesced (lookup k sg) (lookup k dg)))
unfolding coalesce_globals
coalesce_globals-lookup dv dest dg sg hd hs distinct_d distinct_s =
    let fs : Fields = assign global_key (table (coalesce_tables sg dg)) dv in
    (
      fs,
      ground (arith, hd, hs),
      λ k ne. lookup-assign global_key k _ dv ∙ rw ne refl,
      (
        coalesce_tables sg dg,
        lookup-assign global_key global_key _ dv ∙ rw (eqb_refl global_key) refl,
        λ k. lookup-coalesce_tables k sg dg distinct_s distinct_d,
      ),
    )
