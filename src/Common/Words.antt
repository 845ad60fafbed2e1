-- ===== src/Common/Words.antt =====
-- `strings.TrimSpace`, `strings.ToLower`, and `strings.Split` and `strings.Join` for a separator of one
-- byte. A text that is trimmed or put in lower case is the list of its runes.
use Prim.Native.Nat.{ℕ, ◌+◌}
use mathlib.Core.Bool.{Bool, ◌&&◌, ◌||◌}
use mathlib.Core.List.{List, [], ◌∷◌, ◌++◌}
use helm.Common.Defs.{Bytes, leb, ◌==◌, if◌then◌else◌}
use helm.Common.Text.{onto}

-- unicode.IsSpace
unfoldable pub is_space : ℕ → Bool
is_space c =
    (leb 9 c && leb c 13)
    || ((c == 32 || (c == 133 || (c == 160 || c == 5760)))
        || ((leb 8192 c && leb c 8202)
            || (c == 8232 || (c == 8233 || (c == 8239 || (c == 8287 || c == 12288))))))

unfoldable pub trim_left : Bytes → Bytes
trim_left [] = []
trim_left (c ∷ s) = let rest = trim_left s in if is_space c then rest else c ∷ s

unfoldable pub trim_right : Bytes → Bytes
trim_right [] = []
trim_right (c ∷ s) = elim (trim_right s) [
  | [] ↦ if is_space c then [] else c ∷ []
  | d ∷ t ↦ c ∷ d ∷ t
]

-- `strings.TrimSpace`
unfoldable pub trim_space : Bytes → Bytes
unfolding trim_left trim_right
trim_space s = trim_right (trim_left s)

-- unicode.ToLower, where its value is an ASCII rune: U+0130 and U+212A become i and k
abbrev pub lower : ℕ → ℕ
lower c =
    if leb b'A' c && leb c b'Z'
    then c + 32
    else (if c == 304 then b'i' else (if c == 8490 then b'k' else c))

unfoldable pub to_lower : Bytes → Bytes
to_lower [] = []
to_lower (c ∷ s) = lower c ∷ to_lower s

-- `strings.Split(s, sep)` for the separator of one byte `x`
unfoldable pub split1 : ℕ → Bytes → List Bytes
split1 x [] = [] ∷ []
split1 x (c ∷ s) = let rest = split1 x s in if c == x then [] ∷ rest else onto c rest

-- `strings.Join(parts, sep)` for a separator of one byte
unfoldable pub join1 : ℕ → List Bytes → Bytes
join1 x [] = []
join1 x (p ∷ []) = p
join1 x (p ∷ q ∷ ps) = p ++ x ∷ join1 x (q ∷ ps)
