-- ===== src/Tiller/Upgrade/Reuse.antt =====
-- What reuseValues changes of a request.
use helm.Common.{
  Bool-cases, inl, inr, ◌∙◌, Bool, true, false, if◌then◌else◌, ◌&&◌, not, ◌≡◌, refl, sym, ap,
  Option, none, some, Bytes,
}
use helm.Release.{Release, Chart}
use helm.Result.{Result, ok, err}
use helm.Tiller.Server.{Env}
use helm.Tiller.Upgrade.{
  reuse_values, UpdateRequest, carry_values, carry_with, merge_values, put_values, set_chart_values,
  config_of, no_values,
}

-- What is in use after `reuseValues`: what the request has, with ResetValues; the coalesced values of
-- the deployed chart, and its values merged with those of the request, with ReuseValues; and else
-- the deployed values, where the request has none and they are not empty.
pub record IsReused (env : Env) (req : UpdateRequest) (current : Release) (q : UpdateRequest)
    : Type 0 where
  pub reset : req.reset_values ≡ true → (q.chart ≡ req.chart) × (q.values ≡ req.values)
  pub reused :
      req.reset_values ≡ false
      → req.reuse_values ≡ true
      → (defaults raw merged : Bytes) × (env.coalesced_yaml current.chart current.config
          ≡ ok defaults)
        × (req.values ≡ some raw)
        × (env.merged_yaml (config_of current) raw ≡ ok merged)
        × (q.chart ≡ set_chart_values defaults req.chart)
        × (q.values ≡ some merged)
  pub carried :
      req.reset_values ≡ false
      → req.reuse_values ≡ false
      → (q.chart ≡ req.chart)
        × (no_values req.values ≡ true
            → no_values current.config ≡ false
            → q.values ≡ current.config)
        × (no_values req.values ≡ false → q.values ≡ req.values)
        × (no_values current.config ≡ true → q.values ≡ req.values)

module _ (env : Env) (req : UpdateRequest) (current : Release) (q : UpdateRequest) where
  -- a request with a chart keeps one
  pub IsReused-chart :
      (chart : Chart)
      → req.chart ≡ some chart
      → IsReused env req current q
      → (c : Chart) × (q.chart ≡ some c)
  IsReused-chart chart given used = elim (Bool-cases req.reset_values) [
    | inl r ↦ (chart, (used.reset r).0 ∙ given)
    | inr r ↦ elim (Bool-cases req.reuse_values) [
      | inl u ↦
          (let (defaults, raw, merged, a, b, c, same, d) = used.reused r u in
            (record chart { values = some defaults }, same ∙ ap (set_chart_values defaults) given))
      | inr u ↦ (chart, (used.carried r u).0 ∙ given)
    ]
  ]

-- The requests differ in the chart and the values at most.
abbrev pub IsRevalued : UpdateRequest → UpdateRequest → Type 0
IsRevalued req req' =
    (chart : Option Chart) × (values : Option Bytes) × (req'
      ≡ record req { chart = chart; values = values })

module _ (env : Env) (req : UpdateRequest) where
  kept : IsRevalued req req
  kept = (req.chart, req.values, refl)

  put_values-IsRevalued :
      (chart : Option Chart) (r : Result Bytes)
      → IsRevalued req (put_values env (record req { chart = chart }) r).1
  put_values-IsRevalued chart (ok merged) = (chart, some merged, refl)
  put_values-IsRevalued chart (err e) = (chart, req.values, refl)

  merge_values-IsRevalued :
      (chart : Option Chart) (current : Release) (v : Option Bytes)
      → IsRevalued req (merge_values env (record req { chart = chart }) current v).1
  unfolding merge_values
  merge_values-IsRevalued chart current none = (chart, req.values, refl)
  merge_values-IsRevalued chart current (some raw) = put_values-IsRevalued chart _

  carry_with-IsRevalued :
      (current : Release) (r : Result Bytes) → IsRevalued req (carry_with env req current r).1
  carry_with-IsRevalued current (err e) = kept
  carry_with-IsRevalued current (ok nv) = merge_values-IsRevalued _ current req.values

  put_values-IsReused :
      (current : Release) (defaults raw : Bytes) (m : Result Bytes) (q : UpdateRequest)
      → env.coalesced_yaml current.chart current.config ≡ ok defaults
      → req.values ≡ some raw
      → env.merged_yaml (config_of current) raw ≡ m
      → put_values env (record req { chart = set_chart_values defaults req.chart }) m ≡ (ok tt, q)
      → (ds rs merged : Bytes) × (env.coalesced_yaml current.chart current.config ≡ ok ds)
        × (req.values ≡ some rs)
        × (env.merged_yaml (config_of current) rs ≡ ok merged)
        × (q.chart ≡ set_chart_values ds req.chart)
        × (q.values ≡ some merged)
  put_values-IsReused current defaults raw (err e) q c v m h = cc
  put_values-IsReused current defaults raw (ok merged) q c v m h =
      let same = sym (ap (λ x. x.1) h) in
      (defaults, raw, merged, c, v, m, ap (λ x. x.chart) same, ap (λ x. x.values) same)

  merge_values-IsReused :
      (current : Release) (ds : Bytes) (v : Option Bytes) (q : UpdateRequest)
      → env.coalesced_yaml current.chart current.config ≡ ok ds
      → req.values ≡ v
      → merge_values env (record req { chart = set_chart_values ds req.chart }) current v
        ≡ (ok tt, q)
      → (ds rs merged : Bytes) × (env.coalesced_yaml current.chart current.config ≡ ok ds)
        × (req.values ≡ some rs)
        × (env.merged_yaml (config_of current) rs ≡ ok merged)
        × (q.chart ≡ set_chart_values ds req.chart)
        × (q.values ≡ some merged)
  unfolding merge_values
  merge_values-IsReused current ds none q c f h = cc
  merge_values-IsReused current ds (some raw) q c f h =
      put_values-IsReused current ds raw _ q c f refl h

  carry_with-IsReused :
      (current : Release) (c : Result Bytes) (q : UpdateRequest)
      → env.coalesced_yaml current.chart current.config ≡ c
      → carry_with env req current c ≡ (ok tt, q)
      → (ds rs merged : Bytes) × (env.coalesced_yaml current.chart current.config ≡ ok ds)
        × (req.values ≡ some rs)
        × (env.merged_yaml (config_of current) rs ≡ ok merged)
        × (q.chart ≡ set_chart_values ds req.chart)
        × (q.values ≡ some merged)
  carry_with-IsReused current (err e) q c h = cc
  carry_with-IsReused current (ok ds) q c h = merge_values-IsReused current ds req.values q c refl h

  abbrev carried_over : Release → Result (Unit {0}) × UpdateRequest
  carried_over current =
      if no_values req.values && not (no_values current.config)
      then (ok tt, record req { values = current.config })
      else (ok tt, req)

  abbrev Outcome : Type 0
  Outcome = Result (Unit {0}) × UpdateRequest

  on_true : (a : Bool) (x y w : Outcome) → (if a then x else y) ≡ w → a ≡ true → x ≡ w
  on_true true x y w h e = h
  on_true false x y w h e = cc

  on_false : (a : Bool) (x y w : Outcome) → (if a then x else y) ≡ w → a ≡ false → y ≡ w
  on_false true x y w h e = cc
  on_false false x y w h e = h

  -- what `reuseValues` leaves in use where it succeeds
  pub reuse_values-IsReused :
      (current : Release) (q : UpdateRequest)
      → reuse_values env req current ≡ (ok tt, q)
      → IsReused env req current q
  unfolding reuse_values carry_values
  reuse_values-IsReused current q h = record {
    reset = λ r.
        (let same = ap (λ x. x.1) (on_true req.reset_values _ _ _ h r) in
          (sym (ap (λ x. x.chart) same), sym (ap (λ x. x.values) same)));
    reused = λ r u.
        carry_with-IsReused current _ q refl
          (on_true req.reuse_values _ _ _ (on_false req.reset_values _ _ _ h r) u);
    carried =
        λ r u. carry (on_false req.reuse_values _ _ _ (on_false req.reset_values _ _ _ h r) u);
  }
    where
      carry :
          carried_over current ≡ (ok tt, q)
          → (q.chart ≡ req.chart)
            × (no_values req.values ≡ true
                → no_values current.config ≡ false
                → q.values ≡ current.config)
            × (no_values req.values ≡ false → q.values ≡ req.values)
            × (no_values current.config ≡ true → q.values ≡ req.values)
      carry h = (
        by_cases (no_values req.values && not (no_values current.config)) h,
        λ a b. sym (ap (λ x. x.1.values) (rw (a, b) at h)),
        λ a. sym (ap (λ x. x.1.values) (rw a at h)),
        λ b. last_case (no_values req.values) (rw b at h),
      )
        where
          chosen : Bool → Result (Unit {0}) × UpdateRequest
          chosen b = if b then (ok tt, record req { values = current.config }) else (ok tt, req)

          by_cases : (b : Bool) → chosen b ≡ (ok tt, q) → q.chart ≡ req.chart
          by_cases true h = sym (ap (λ x. x.1.chart) h)
          by_cases false h = sym (ap (λ x. x.1.chart) h)

          last_case : (b : Bool) → chosen (b && false) ≡ (ok tt, q) → q.values ≡ req.values
          last_case true h = sym (ap (λ x. x.1.values) h)
          last_case false h = sym (ap (λ x. x.1.values) h)

  if_kept :
      (b : Bool) (x y : Result (Unit {0}) × UpdateRequest)
      → IsRevalued req x.1
      → IsRevalued req y.1
      → IsRevalued req (if b then x else y).1
  if_kept true x y h k = h
  if_kept false x y h k = k

  -- `reuseValues` changes at most the chart and the values of a request.
  pub reuse_values-IsRevalued :
      (current : Release) → IsRevalued req (reuse_values env req current).1
  unfolding reuse_values carry_values
  reuse_values-IsRevalued current = if_kept req.reset_values _ _ kept (
      if_kept req.reuse_values _ _ (carry_with-IsRevalued current _)
        (if_kept _ _ _ (req.chart, current.config, refl) kept))
