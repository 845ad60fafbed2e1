-- ===== src/Tiller/Paging/Pages.antt =====
-- Pages of a list of releases that follow each other, by the name that
-- pkg/tiller/release_list.go hands out.
use helm.Common.{
  ℕ, zero, suc, Bytes, true, false, none, some, List, [], ◌∷◌, ◌++◌, length, ltb, ◌<◌, ◌≡◌, refl,
  arith, ap,
}
use helm.Common.Text.{eqb, eqb_refl}
use helm.Release.{Release}
use helm.Tiller.Paging.{take, name_at, from_offset, page}

-- no release of the list has the name
abbrev pub Unnamed : Bytes → List Release → Type 0
Unnamed name [] = Unit
Unnamed name (r ∷ rels) = (eqb r.name name ≡ false) × Unnamed name rels

-- no two releases of the list have the same name
abbrev pub OneOfEach : List Release → Type 0
OneOfEach [] = Unit
OneOfEach (r ∷ rels) = Unnamed r.name rels × OneOfEach rels

from_offset-Unnamed :
    (name : Bytes) (rels : List Release) → Unnamed name rels → from_offset name rels ≡ none
unfolding from_offset
from_offset-Unnamed name [] h = refl
from_offset-Unnamed name (r ∷ rels) (e, h) = rw (from_offset-Unnamed name rels h, e) refl

from_offset-name_at :
    (n : ℕ) (rels : List Release)
    → n < length rels
    → OneOfEach rels
    → (rest : List Release) × (from_offset (name_at n rels) rels ≡ some rest)
      × (take n rels ++ rest ≡ rels)
unfolding from_offset name_at take
from_offset-name_at n [] lt h = absurd (omega arith)
from_offset-name_at zero (r ∷ rels) lt (fresh, h) =
    (r ∷ rels, rw (from_offset-Unnamed r.name rels fresh, eqb_refl r.name) refl, refl)
from_offset-name_at (suc n) (r ∷ rels) lt (fresh, h) =
    let (rest, e, whole) = from_offset-name_at n rels (omega arith) h in
    (rest, rw e refl, ap (λ xs. r ∷ xs) whole)

-- Where no two releases of a list have the same name and the list is longer than a page, the list
-- from the name that comes with the page is what is left of it after the page.
pub page-from_offset :
    (limit : ℕ) (rels : List Release)
    → limit < length rels
    → OneOfEach rels
    → (rest : List Release) × (from_offset (page limit rels).0 rels ≡ some rest)
      × ((page limit rels).1 ++ rest ≡ rels)
unfolding page
page-from_offset limit rels lt h =
    let long : ltb limit (length rels) ≡ true = ground arith in
    rw long (from_offset-name_at limit rels lt h)
