-- ===== src/Ignore.antt =====
-- pkg/ignore/rules.go: the rules of a .helmignore file. A text is the list of its runes;
-- filepath.Match and filepath.Base are parameters, and so is the reading of lines. A matcher for a
-- rule that begins with `/` takes a `/` off its rule at each call and keeps the result, so that
-- Ignore changes the rules.
pub mod Laws
mod Tests
use helm.Common.{
  ℕ, Bytes, codes, Bool, true, false, if◌then◌else◌, Option, none, some, List, [], ◌∷◌, ◌++◌, ◌==◌,
  ◌&&◌, ◌||◌, not, leb,
}
use helm.Common.Words.{trim_space}
use helm.Common.Text.{eqb, has_prefix, contains}
use helm.Result.{Error, Result, ok, err, external, bind}

-- `strings.TrimPrefix(s, "/")`
unfoldable pub trim_slash : Bytes → Bytes
trim_slash [] = []
trim_slash (c ∷ s) = if c == b'/' then s else c ∷ s

-- `strings.HasSuffix(s, "/")`, and the text without it
unfoldable pub ends_slash : Bytes → Bool
ends_slash [] = false
ends_slash (c ∷ []) = c == b'/'
ends_slash (c ∷ d ∷ s) = ends_slash (d ∷ s)

unfoldable pub but_last : Bytes → Bytes
but_last [] = []
but_last (c ∷ []) = []
but_last (c ∷ d ∷ s) = c ∷ but_last (d ∷ s)

-- the matcher of a pattern: from the root, on the whole path, or on the name of the file alone
pub data Matcher : Type 0 where
  rooted structural named : (rule : Bytes) → Matcher

pub record Pattern : Type 0 where
  pub raw : Bytes
  pub matcher : Matcher
  pub negate : Bool
  pub must_dir : Bool

abbrev pub Rules : Type 0
Rules = List Pattern

-- Empty
abbrev pub empty : Rules
empty = []

abbrev pub double_star : Error
double_star = external (codes "double-star (**) syntax is not supported")

-- The matcher for a rule, after `!` and the last `/` are taken off.
unfoldable pub matcher_of : Bytes → Matcher
matcher_of rule =
    if has_prefix rule (codes "/")
    then rooted rule
    else (if contains rule (codes "/") then structural rule else named rule)

unfoldable pub pattern_of : Bytes → Pattern
unfolding has_prefix ends_slash but_last matcher_of
pattern_of rule =
    let negate = has_prefix rule (codes "!") in
    let rest = if negate then tail rule else rule in
    let must_dir = ends_slash rest in
    record {
      raw = rule;
      matcher = matcher_of (if must_dir then but_last rest else rest);
      negate = negate;
      must_dir = must_dir;
    }
  where
    tail : Bytes → Bytes
    tail [] = []
    tail (c ∷ s) = s

-- `glob` is filepath.Match, without a value where the pattern is malformed; `base` is filepath.Base.
module _ (glob : Bytes → Bytes → Option Bool) (base : Bytes → Bytes) where
  abbrev add_pattern : Rules → Bytes → Option Bool → Result Rules
  add_pattern r rule none = err (external (codes "syntax error in pattern"))
  add_pattern r rule (some m) = ok (r ++ pattern_of rule ∷ [])

  abbrev add_rule : Rules → Bytes → Result Rules
  add_rule r [] = ok r
  add_rule r (c ∷ rule) =
      if c == b'#'
      then ok r
      else (if contains (c ∷ rule) (codes "**")
          then err double_star
          else add_pattern r (c ∷ rule) (glob (c ∷ rule) (codes "abc")))

  -- parseRule
  unfoldable pub parse_rule : Rules → Bytes → Result Rules
  unfolding contains pattern_of trim_space
  parse_rule r rule = add_rule r (trim_space rule)

  -- AddDefaults: its error is dropped
  unfoldable pub add_defaults : Rules → Rules
  unfolding parse_rule
  add_defaults r = elim (parse_rule r (codes "templates/.?*")) [ ok r' ↦ r' | err e ↦ r ]

  -- Parse, from the lines of the file
  unfoldable pub parse : Rules → List Bytes → Result Rules
  unfolding parse_rule
  parse r [] = ok r
  parse r (line ∷ lines) = bind (parse_rule r line) λ r'. parse r' lines

  -- a malformed pattern matches nothing
  abbrev pub matched : Option Bool → Bool
  matched none = false
  matched (some b) = b

  -- a call of the matcher: its answer, and the matcher after it
  unfoldable pub match : Matcher → Bytes → Bool × Matcher
  unfolding trim_slash
  match (rooted rule) n = (matched (glob (trim_slash rule) n), rooted (trim_slash rule))
  match (structural rule) n = (matched (glob rule n), structural rule)
  match (named rule) n = (matched (glob rule (base n)), named rule)

  -- One pattern of the loop of Ignore: whether it ends the loop, which is then with true, and the
  -- pattern after it.
  unfoldable pub try_pattern : Pattern → Bytes → Bool → Bool × Pattern
  unfolding match
  try_pattern p path is_dir =
      let (m, after) = match p.matcher path in
      let p' = record p { matcher = after } in
      if p.must_dir && not is_dir
      then (p.negate, p)
      else (if p.negate then (not m, p') else (m, p'))

  -- the loop of Ignore
  unfoldable pub try_all : Rules → Bytes → Bool → Bool × Rules
  try_all [] path is_dir = (false, [])
  try_all (p ∷ ps) path is_dir =
      let (hit, p') = try_pattern p path is_dir in
      let (rest, ps') = try_all ps path is_dir in if hit then (true, p' ∷ ps) else (rest, p' ∷ ps')

  -- Ignore, with the rules after it
  unfoldable pub ignore : Rules → Bytes → Bool → Bool × Rules
  unfolding try_all eqb
  ignore r path is_dir =
      if eqb path [] || (eqb path (codes ".") || eqb path (codes "./"))
      then (false, r)
      else try_all r path is_dir
