-- ===== src/Ignore/Laws.antt =====
-- Ignore of pkg/ignore/rules.go, by what each pattern decides.
use helm.Common.{
  Bytes, codes, Bool, false, if◌then◌else◌, Option, [], ◌∷◌, ◌&&◌, ◌||◌, not, ◌≡◌, ◌≢◌, refl, arith,
}
use helm.Common.Text.{eqb_iff}
use helm.Ignore.{Rules, Pattern, match, try_pattern, try_all, ignore}

module _ (glob : Bytes → Bytes → Option Bool) (base : Bytes → Bytes) where
  -- A pattern decides that a path is ignored: one that is not negated if it matches and is for a
  -- directory only where the path is one, and a negated one if not.
  unfoldable pub decides : Bytes → Bool → Pattern → Bool
  decides path is_dir p =
      let hit = (not p.must_dir || is_dir) && (match glob base p.matcher path).0 in
      if p.negate then not hit else hit

  unfoldable pub any : (Pattern → Bool) → Rules → Bool
  any f [] = false
  any f (p ∷ ps) = f p || any f ps

  try_pattern-decides :
      (p : Pattern) (path : Bytes) (is_dir : Bool)
      → (try_pattern glob base p path is_dir).0 ≡ decides path is_dir p
  unfolding try_pattern decides
  try_pattern-decides p path is_dir = ground arith

  try_all-any :
      (ps : Rules) (path : Bytes) (is_dir : Bool)
      → (try_all glob base ps path is_dir).0 ≡ any (decides path is_dir) ps
  unfolding try_all any
  try_all-any [] path is_dir = refl
  try_all-any (p ∷ ps) path is_dir =
      ground (arith, try_all-any ps path is_dir, try_pattern-decides p path is_dir)

  -- A path other than the empty one, `.` and `./` is ignored exactly if some pattern decides so: the
  -- order of the patterns plays no part.
  pub ignore-any :
      (r : Rules) (path : Bytes) (is_dir : Bool)
      → path ≢ []
      → path ≢ codes "."
      → path ≢ codes "./"
      → (ignore glob base r path is_dir).0 ≡ any (decides path is_dir) r
  unfolding ignore
  ignore-any r path is_dir h h' h'' = ground (
    arith,
    try_all-any r path is_dir,
    eqb_iff path [],
    eqb_iff path (codes "."),
    eqb_iff path (codes "./"),
  )
