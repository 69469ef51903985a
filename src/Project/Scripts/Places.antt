-- ===== src/Project/Scripts/Places.antt =====
-- Each project stays where it is, keeps its name, its kind and its table, and loses no entry of its
-- lists.
use cake.Prelude.{ℕ, zero, suc, ◌≡◌, refl, sym, subst, some, List, [], ◌∷◌, ◌++◌, get_elem?, set}
use cake.Project.{Project}
use cake.Project.Scripts.{new_project}
use cake.Project.Scripts.Grown.{IsGrown, IsGrown-refl, IsGrown-trans}
use cake.Project.Scripts.Kept.{IsKept}

-- Each project of the first list is at its place in the second one.
abbrev pub HasPlaces : List Project → List Project → Type 0
HasPlaces [] qs = Unit {0}
HasPlaces (p ∷ ps) [] = ⊥
HasPlaces (p ∷ ps) (q ∷ qs) = IsGrown p q × HasPlaces ps qs

IsGrown-equal : (p q : Project) → some p ≡ some q → IsGrown p q
IsGrown-equal p q e = let same : p ≡ q = cc in subst (IsGrown p) same (IsGrown-refl p)

pub HasPlaces-refl : (ps : List Project) → HasPlaces ps ps
HasPlaces-refl [] = tt
HasPlaces-refl (p ∷ ps) = (IsGrown-refl p, HasPlaces-refl ps)

pub HasPlaces-at :
    (ps qs : List Project) (k : ℕ) (p : Project)
    → HasPlaces ps qs
    → get_elem? ps k ≡ some p
    → (q : Project) × (get_elem? qs k ≡ some q) × IsGrown p q
HasPlaces-at [] qs k p h e = absurd (cc)
HasPlaces-at (x ∷ ps) [] k p h e = absurd h
HasPlaces-at (x ∷ ps) (y ∷ qs) zero p h e =
    (y, refl, IsGrown-trans p x y (IsGrown-equal p x (sym e)) h.0)
HasPlaces-at (x ∷ ps) (y ∷ qs) (suc k) p h e = HasPlaces-at ps qs k p h.1 e

HasPlaces-set :
    (ps qs : List Project) (k : ℕ) (p q : Project)
    → get_elem? qs k ≡ some p
    → IsGrown p q
    → HasPlaces ps qs
    → HasPlaces ps (set qs k q)
HasPlaces-set [] qs k p q g e h = tt
HasPlaces-set (x ∷ ps) [] k p q g e h = absurd h
HasPlaces-set (x ∷ ps) (y ∷ qs) zero p q g e h =
    (IsGrown-trans x p q (IsGrown-trans x y p h.0 (IsGrown-equal y p g)) e, h.1)
HasPlaces-set (x ∷ ps) (y ∷ qs) (suc k) p q g e h = (h.0, HasPlaces-set ps qs k p q g e h.1)

HasPlaces-append : (ps qs rs : List Project) → HasPlaces ps qs → HasPlaces ps (qs ++ rs)
HasPlaces-append [] qs rs h = tt
HasPlaces-append (x ∷ ps) [] rs h = absurd h
HasPlaces-append (x ∷ ps) (y ∷ qs) rs h = (h.0, HasPlaces-append ps qs rs h.1)

pub HasPlaces-IsKept : (ps : List Project) → IsKept (HasPlaces ps)
HasPlaces-IsKept ps = record {
  replaced = λ qs k p q g e h. HasPlaces-set ps qs k p q g e h;
  added = λ qs kind name key can n h. HasPlaces-append ps qs (new_project kind name key ∷ []) h;
}
