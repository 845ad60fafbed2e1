-- ===== src/Releaseutil/Latest.antt =====
-- The first release of a history in reverse order of revisions: the latest.
use mathlib.Core.List.{reverse, reverse-reverse, reverse-cons, mem-cons_self, mem-append_right}
use mathlib.Core.List.Perm.{mem_iff}
use helm.Common.{
  false, List, [], ◌∷◌, ◌++◌, ◌≡◌, sym, ap, ◌∙◌, subst, Mem, All, ◌≤◌, arith, ltb, inl, inr,
  Bool-cases,
}
use helm.Common.Sort.{sort, sift, IsSorted, IsWeakOrder, sort-IsSorted, sort-perm, All-unsort}
use helm.Release.{Release}
use helm.Releaseutil.Sorter.{reverse_by, sort_by_revision, less_revision}

revisions : IsWeakOrder less_revision
revisions = record { asym = λ r s h. ground arith; trans = λ r s t h k. ground arith }

All-end : (P : Release → Type 0) (xs : List Release) (r : Release) → All P (xs ++ r ∷ []) → P r
All-end P [] r (h, _) = h
All-end P (x ∷ xs) r (_, h) = All-end P xs r h

-- the last of a sorted list
sorted_end :
    (xs : List Release) (r : Release)
    → IsSorted less_revision (xs ++ r ∷ [])
    → All (λ q. q.version ≤ r.version) (xs ++ r ∷ [])
sorted_end [] r h = (omega arith, tt)
sorted_end (x ∷ xs) r (below, h) =
    let e : ltb r.version x.version ≡ false =
      All-end (λ y. ltb y.version x.version ≡ false) xs r below in
    (ground arith, sorted_end xs r h)

end_of : (l rest : List Release) (r : Release) → reverse l ≡ r ∷ rest → l ≡ reverse rest ++ r ∷ []
end_of l rest r e = sym (reverse-reverse l) ∙ (ap reverse e ∙ reverse-cons r rest)

-- The release is one of the history, and none has a greater revision.
abbrev pub IsLatest : List Release → Release → Type 0
IsLatest h r = Mem r h × All (λ q. q.version ≤ r.version) h

-- the last release in the order of revisions is the latest
pub sort_by_revision-IsLatest :
    (h xs : List Release) (r : Release) → sort_by_revision h ≡ xs ++ r ∷ [] → IsLatest h r
unfolding sort_by_revision sort sift
sort_by_revision-IsLatest h xs r cut = (
  (mem_iff (sort-perm less_revision h)).0
      (subst (Mem r) (sym cut) (mem-append_right xs mem-cons_self)),
  All-unsort less_revision (λ q. q.version ≤ r.version) h
      (subst (All (λ q. q.version ≤ r.version)) (sym cut)
        (sorted_end xs r (subst (IsSorted less_revision) cut (sort-IsSorted revisions h)))),
)

pub reverse_by-IsLatest :
    (h rest : List Release) (r : Release) → reverse_by sort_by_revision h ≡ r ∷ rest → IsLatest h r
unfolding reverse_by sort_by_revision sort sift
reverse_by-IsLatest h rest r e =
    sort_by_revision-IsLatest h (reverse rest) r (end_of (sort less_revision h) rest r e)

pub reverse_by-nil : (r : Release) (h : List Release) → reverse_by sort_by_revision (r ∷ h) ≡ [] → ⊥
unfolding reverse_by sort_by_revision sort sift
reverse_by-nil r h e =
    sort_cons-nil r h (sym (reverse-reverse (sort less_revision (r ∷ h))) ∙ ap reverse e)
  where
    sift-nil : (x : Release) (l : List Release) → sift less_revision x l ≡ [] → ⊥
    sift-nil x [] e = cc
    sift-nil x (y ∷ l) e = elim (Bool-cases (less_revision y x)) [
      | inl lt ↦ (let k = rw lt at e in cc)
      | inr ge ↦ (let k = rw ge at e in cc)
    ]

    sort_cons-nil : (x : Release) (l : List Release) → sort less_revision (x ∷ l) ≡ [] → ⊥
    sort_cons-nil x l e = sift-nil x (sort less_revision l) e
