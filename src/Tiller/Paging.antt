-- ===== src/Tiller/Paging.antt =====
-- The pages and messages of a list of releases, in pkg/tiller/release_list.go.
pub mod Pages
pub mod Chunks
mod Tests
use helm.Common.{
  ℕ, zero, suc, Bytes, Bool, true, false, if◌then◌else◌, Option, none, some, List, [], ◌∷◌, ◌++◌,
  ltb, length, ◌+◌,
}
use helm.Common.Text.{eqb}
use helm.Release.{Release}

-- `rels[:n]`
unfoldable pub take : ℕ → List Release → List Release
take zero rels = []
take (suc n) [] = []
take (suc n) (r ∷ rels) = r ∷ take n rels

-- `rels[n].Name`, where it is there
unfoldable pub name_at : ℕ → List Release → Bytes
name_at n [] = []
name_at zero (r ∷ rels) = r.name
name_at (suc n) (r ∷ rels) = name_at n rels

abbrev or_here : Option (List Release) → Bool → List Release → Option (List Release)
or_here (some rels) b here = some rels
or_here none b here = if b then some here else none

-- `rels[i:]` for the loop over the names of the list, which keeps the last index of the name
unfoldable pub from_offset : Bytes → List Release → Option (List Release)
from_offset name [] = none
from_offset name (r ∷ rels) = or_here (from_offset name rels) (eqb r.name name) (r ∷ rels)

-- the name after the page, or the empty text, and the page
unfoldable pub page : ℕ → List Release → Bytes × List Release
page limit rels =
    if ltb limit (length rels) then (name_at limit rels, take limit rels) else ([], rels)

-- partition: the loop, with the chunk so far and its `fill`; `over` says that a size is more than
-- the capacity
abbrev last_chunk : List Release → List (List Release)
last_chunk [] = []
last_chunk (r ∷ chunk) = (r ∷ chunk) ∷ []

module _ (size : Release → ℕ) (over : ℕ → Bool) where
  unfoldable pub chunks_from : List Release → ℕ → List Release → List (List Release)
  chunks_from chunk fill [] = last_chunk chunk
  chunks_from chunk fill (r ∷ rels) = elim (over (size r + fill)) [
    | true ↦ chunk ∷ chunks_from (r ∷ []) (size r) rels
    | false ↦ chunks_from (chunk ++ r ∷ []) (fill + size r) rels
  ]

  unfoldable pub partition : List Release → List (List Release)
  partition rels = chunks_from [] 0 rels
