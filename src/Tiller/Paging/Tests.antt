-- ===== src/Tiller/Paging/Tests.antt =====
-- Pages and messages of a short list of releases, the theorems at them, and a run of the sorting of
-- manifests.
use helm.Common.{
  ℕ, Bytes, codes, Bool, none, some, List, [], ◌∷◌, ◌++◌, ltb, ◌≡◌, refl, All, arith, map,
  if◌then◌else◌,
}
use helm.Result.{Result, ok, err}
use helm.Common.Words.{split1, trim_space, is_space, to_lower}
use helm.Tiller.Server.{Manifest}
use helm.Release.{Hook}
use helm.Common.Text.{eqb}
use helm.Common.Decimal.{int32, int64}
use helm.Release.{Release, deployed}
use helm.Tiller.Paging.{from_offset, page, partition, chunks_from}
use helm.Tiller.Paging.Pages.{OneOfEach, page-from_offset}
use helm.Tiller.Paging.Chunks.{concat, Fits, partition-Fits}
use helm.Tiller.SortManifests.{SimpleHead, sort_files, hook_anno, parse_int, hook_of}

abbrev sample : Bytes → Release
sample name = record {
  name = name;
  info = record {
    code = deployed;
    notes = [];
    first_deployed = 1;
    last_deployed = 1;
    deleted_at = none;
    description = [];
  };
  chart = none;
  config = none;
  manifest = [];
  hooks = [];
  version = int32 1;
  namespace = codes "ns";
}

abbrev three : List Release
three = sample (codes "a") ∷ sample (codes "b") ∷ sample (codes "c") ∷ []

three-OneOfEach : OneOfEach three
unfolding eqb
three-OneOfEach = ((refl, (refl, tt)), ((refl, tt), (tt, tt)))

page-from_offset_example :
    (rest : List Release) × (from_offset (page 2 three).0 three ≡ some rest)
    × ((page 2 three).1 ++ rest ≡ three)
page-from_offset_example = page-from_offset 2 three (omega arith) three-OneOfEach

abbrev size : Release → ℕ
size r = 5

abbrev over : ℕ → Bool
over n = ltb 12 n

partition-Fits_example :
    (concat (partition size over three) ≡ three) × All (Fits size over) (partition size over three)
partition-Fits_example = partition-Fits size over three

-- A first release that is over the capacity comes after a message without releases.
partition_large :
    partition (λ r. 20) over (sample (codes "a") ∷ []) ≡ [] ∷ (sample (codes "a") ∷ []) ∷ []
unfolding partition chunks_from
partition_large = refl

-- Of two releases with the name of the offset the last is taken, so that the one before it is lost.
from_offset_twice :
    from_offset (codes "a") (sample (codes "a") ∷ sample (codes "a") ∷ [])
    ≡ some (sample (codes "a") ∷ [])
unfolding from_offset eqb
from_offset_twice = refl

-- A timeout that is not valid is set all the same.
parse_int_negative : parse_int (codes "-5") ≡ 9223372036854775803
unfolding parse_int
parse_int_negative = refl

parse_int_bad : parse_int (codes "5m") ≡ int64 0
unfolding parse_int
parse_int_bad = refl

-- "h" is the head of a hook with one known event, "x" one with an unknown event, and the rest have no
-- annotations
abbrev parse_head : Bytes → Result SimpleHead
parse_head m = ok (record {
  version = [];
  kind = codes "Job";
  metadata = some (
    codes "m",
    (if eqb m (codes "h")
        then (hook_anno, codes " Pre-Install ") ∷ []
        else (if eqb m (codes "x") then (hook_anno, codes "never") ∷ [] else [])),
  );
})

abbrev cut : Bytes → List Bytes
cut text = split1 b'|' text

abbrev base : Bytes → Bytes
base path = path

-- The names of the hooks' manifests, and those of the others: an unknown hook and a partial are left
-- out.
abbrev shown : Result (List Hook × List Manifest) → List Bytes × List Bytes
shown (ok (hs, ms)) = (map (λ h. h.manifest) hs, map (λ m. m.content) ms)
shown (err e) = ([], [])

sort_files_run :
    shown (
      sort_files parse_head cut base
        ((codes "f", codes "h|x| g |") ∷ (codes "_p", codes "h") ∷ [])
        ([], []))
    ≡ (codes "h" ∷ [], codes "g" ∷ [])
unfolding sort_files trim_space is_space split1 to_lower hook_of
sort_files_run = refl
