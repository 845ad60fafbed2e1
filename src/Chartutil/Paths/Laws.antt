-- ===== src/Chartutil/Paths/Laws.antt =====
-- PathValue of pkg/chartutil/values.go and a walk through nested tables.
use helm.Common.{
  ℕ, Bytes, Bool, true, false, if◌then◌else◌, Option, none, some, List, [], ◌∷◌, ◌++◌, ◌==◌, ◌≡◌,
  refl, arith, All, ◌∙◌, ap, ◌≢◌,
}
use helm.Common.Words.{split1, join1}
use helm.Chartutil.Value.{Fields, lookup}
use helm.Chartutil.Paths.{
  table_lookup, descend, table_at, PathResult, leaf, initial, last, value_in, path_parts,
  path_value, no_value,
}

-- the text lacks a byte
unfoldable pub lacks : ℕ → Bytes → Bool
lacks x [] = true
lacks x (c ∷ s) = if c == x then false else lacks x s

split1-append : (x : ℕ) (p s : Bytes) → lacks x p ≡ true → split1 x (p ++ x ∷ s) ≡ p ∷ split1 x s
unfolding split1 lacks
split1-append x [] s h = ground arith
split1-append x (c ∷ p) s h = ground (arith, split1-append x p s)

split1-lacks : (x : ℕ) (p : Bytes) → lacks x p ≡ true → split1 x p ≡ p ∷ []
unfolding split1 lacks
split1-lacks x [] h = refl
split1-lacks x (c ∷ p) h = ground (arith, split1-lacks x p)

abbrev pub Keys : List Bytes → Type 0
Keys = All (λ p. lacks b'.' p ≡ true)

-- Parts without the separator are what the joined text splits into.
pub split1-join1 :
    (p : Bytes) (ps : List Bytes) → Keys (p ∷ ps) → split1 b'.' (join1 b'.' (p ∷ ps)) ≡ p ∷ ps
unfolding join1
split1-join1 p [] (h, _) = split1-lacks b'.' p h
split1-join1 p (q ∷ ps) (h, hs) =
    split1-append b'.' p (join1 b'.' (q ∷ ps)) h ∙ ap (λ r. p ∷ r) (split1-join1 q ps hs)

-- the keys followed one after the other: all but the last lead to tables, and the last to a value
-- that is no table
abbrev pub follow : Fields → Bytes → List Bytes → PathResult
follow t k [] = leaf (lookup k t)
follow t k (q ∷ ps) = elim (table_lookup t k) [ none ↦ no_value | some t' ↦ follow t' q ps ]

-- from a table that may be missing
abbrev follow_from : Option Fields → Bytes → List Bytes → PathResult
follow_from none k ps = no_value
follow_from (some t) k ps = follow t k ps

descend-none : (k : Bytes) (names : List Bytes) → value_in k (descend names none) ≡ no_value
unfolding descend
descend-none k [] = refl
descend-none k (n ∷ names) = refl

descend-follow :
    (t : Option Fields) (k : Bytes) (ps : List Bytes)
    → value_in (last k ps) (descend (initial k ps) t) ≡ follow_from t k ps
unfolding last descend initial
descend-follow none k ps = descend-none (last k ps) (initial k ps)
descend-follow (some t) k [] = refl
descend-follow (some t) k (q ∷ ps) = descend-follow (table_lookup t k) q ps ∙ ground arith

initial-Keys : (p : Bytes) (ps : List Bytes) → Keys (p ∷ ps) → Keys (initial p ps)
unfolding initial
initial-Keys p [] h = tt
initial-Keys p (q ∷ ps) (h, hs) = (h, initial-Keys q ps hs)

path_parts-follow :
    (v : Fields) (p : Bytes) (ps : List Bytes)
    → Keys (p ∷ ps)
    → path_parts v (p ∷ ps) ≡ follow v p ps
unfolding table_at initial
path_parts-follow v p [] h = refl
path_parts-follow v p (q ∷ ps) h =
    ap (λ names. value_in (last p (q ∷ ps)) (descend names (some v)))
      (split1-join1 p (initial q ps) (h.0, initial-Keys q ps h.1))
    ∙ descend-follow (some v) p (q ∷ ps)

path_value-split1 :
    (v : Fields) (s : Bytes) → s ≢ [] → path_value v s ≡ path_parts v (split1 b'.' s)
unfolding path_value
path_value-split1 v [] h = absurd (h refl)
path_value-split1 v (c ∷ s) h = refl

-- For keys without dots, the value at the keys joined by dots, where that text is not empty, is the
-- value that following the keys through nested tables leads to, and an error where a key on the way
-- leads to no table, or the last one to no value or to a table.
pub path_value-join1 :
    (v : Fields) (p : Bytes) (ps : List Bytes)
    → Keys (p ∷ ps)
    → join1 b'.' (p ∷ ps) ≢ []
    → path_value v (join1 b'.' (p ∷ ps)) ≡ follow v p ps
path_value-join1 v p ps h ne =
    path_value-split1 v _ ne ∙ ap (path_parts v) (split1-join1 p ps h) ∙ path_parts-follow v p ps h
