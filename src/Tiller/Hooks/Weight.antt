-- ===== src/Tiller/Hooks/Weight.antt =====
-- The hooks of an event, and their order.
use helm.Common.{
  arith, List, [], ◌∷◌, ◌++◌, Perm, ℕ, zero, suc, ◌<◌, ◌≡◌, refl, ap, ◌⊎◌, inl, inr, false,
  if◌then◌else◌, Bool-cases,
}
use helm.Common.Text.{lessb, lessb_asym, lessb_trans}
use helm.Common.Sort.{sort, IsWeakOrder, IsOrdered, IsSorted-IsOrdered, sort-IsSorted, sort-perm}
use helm.Release.{Hook, HookEvent, event_eq}
use helm.Tiller.Hooks.{Placed, less_weight, sort_by_hook_weight, executing, for_events}

weights : IsWeakOrder less_weight
weights = record {
  asym = λ (_, h) (_, k) e. ground (arith, lessb_asym h.name k.name);
  trans = λ (_, h) (_, k) (_, l) e f. ground (arith, lessb_trans h.name k.name l.name);
}

-- The first may run before the second: its weight is lower, or the same and its name not greater.
abbrev pub MayPrecede : Placed → Placed → Type 0
MayPrecede (_, h) (_, k) =
    (h.weight < k.weight) ⊎ ((h.weight ≡ k.weight) × (lessb k.name h.name ≡ false))

weight-MayPrecede : (p q : Placed) → less_weight q p ≡ false → MayPrecede p q
weight-MayPrecede (_, h) (_, k) e = ground arith

-- Sorting keeps the hooks, and puts them in the order of weights, and of names at the same weight.
pub sort_by_hook_weight-IsOrdered :
    (hs : List Placed)
    → Perm (sort_by_hook_weight hs) hs × IsOrdered MayPrecede (sort_by_hook_weight hs)
unfolding sort_by_hook_weight
sort_by_hook_weight-IsOrdered hs = (
  sort-perm less_weight hs,
  IsSorted-IsOrdered less_weight MayPrecede weight-MayPrecede (sort less_weight hs)
      (sort-IsSorted weights hs),
)

-- how often the event is named
abbrev pub times : HookEvent → List HookEvent → ℕ
times code [] = 0
times code (e ∷ es) = if event_eq e code then suc (times code es) else times code es

abbrev pub copies : ℕ → Placed → List Placed
copies zero p = []
copies (suc n) p = p ∷ copies n p

-- The hooks from a place on, each with its place, as often as it names the event, and no others.
abbrev pub Fires : HookEvent → ℕ → List Hook → List Placed → Type 0
Fires code i [] hs = hs ≡ []
Fires code i (h ∷ hooks) hs =
    (rest : List Placed) × Fires code (suc i) hooks rest
    × (hs ≡ copies (times code h.events) (i, h) ++ rest)

for_events-copies :
    (code : HookEvent) (p : Placed) (es : List HookEvent) (rest : List Placed)
    → for_events code p es rest ≡ copies (times code es) p ++ rest
unfolding for_events
for_events-copies code p [] rest = refl
for_events-copies code p (e ∷ es) rest = elim (Bool-cases (event_eq e code)) [
  | inl f ↦ rw f (ap (λ l. p ∷ l) (for_events-copies code p es rest))
  | inr f ↦ rw f (for_events-copies code p es rest)
]

pub executing-Fires :
    (code : HookEvent) (i : ℕ) (hooks : List Hook) → Fires code i hooks (executing code i hooks)
unfolding executing
executing-Fires code i [] = refl
executing-Fires code i (h ∷ hooks) = (
  executing code (suc i) hooks,
  executing-Fires code (suc i) hooks,
  for_events-copies code (i, h) h.events (executing code (suc i) hooks),
)
