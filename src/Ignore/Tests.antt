-- ===== src/Ignore/Tests.antt =====
-- Runs of the ignore rules with a match by equality of texts, and the theorem at them.
use helm.Common.Words.{is_space}
use helm.Common.{Bytes, codes, Bool, true, false, Option, some, [], ◌∷◌, ◌≡◌, ◌≢◌, refl, arith}
use helm.Common.Text.{eqb}
use helm.Result.{ok, err}
use helm.Ignore.{Rules, named, rooted, parse, ignore, double_star, try_pattern}
use helm.Ignore.Laws.{any, decides, ignore-any}

abbrev glob : Bytes → Bytes → Option Bool
glob rule n = some (eqb rule n)

abbrev base : Bytes → Bytes
base n = n

abbrev two_rules : Rules
two_rules =
    (record { raw = codes "a/"; matcher = named (codes "a"); negate = false; must_dir = true })
    ∷ (record { raw = codes "!b"; matcher = named (codes "b"); negate = true; must_dir = false })
    ∷ []

parse_run : parse glob base [] (codes " a/ " ∷ codes "# x" ∷ [] ∷ codes "!b" ∷ []) ≡ ok two_rules
unfolding parse is_space
parse_run = refl

parse-double_star : parse glob base [] (codes "a**" ∷ []) ≡ err double_star
unfolding parse is_space
parse-double_star = refl

-- A negated rule that matches does not end the loop, and one that does not match ignores the path.
ignore_negated : (ignore glob base two_rules (codes "c") false).0 ≡ true
unfolding ignore try_pattern
ignore_negated = refl

ignore_kept : (ignore glob base two_rules (codes "b") false).0 ≡ false
unfolding ignore try_pattern
ignore_kept = refl

abbrev slashes : Rules
slashes =
    (record { raw = codes "//a"; matcher = rooted (codes "//a"); negate = false; must_dir = false })
    ∷ []

-- The same path, asked for twice, is ignored only the second time.
ignore_first : (ignore glob base slashes (codes "a") false).0 ≡ false
unfolding ignore try_pattern
ignore_first = refl

ignore_second :
    (ignore glob base (ignore glob base slashes (codes "a") false).1 (codes "a") false).0 ≡ true
unfolding ignore try_pattern
ignore_second = refl

path_filled : codes "c" ≢ []
path_filled h = cc

path_apart : codes "c" ≢ codes "."
path_apart h = ground arith

path_apart_dir : codes "c" ≢ codes "./"
path_apart_dir h = cc

ignore-any_example :
    (ignore glob base two_rules (codes "c") false).0
    ≡ any glob base (decides glob base (codes "c") false) two_rules
ignore-any_example =
    ignore-any glob base two_rules (codes "c") false path_filled path_apart path_apart_dir
