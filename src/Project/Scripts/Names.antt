-- ===== src/Project/Scripts/Names.antt =====
-- No two projects have the same name.
use cake.Prelude.{
  ℕ, zero, suc, ◌≡◌, refl, ap, false, some, List, [], ◌∷◌, ◌++◌, arith, get_elem?, set, map,
}
use cake.Text.{Text, str_eq_iff}
use cake.ArgList.{contains}
use cake.ArgList.Laws.{IsDistinct, IsDistinct-snoc}
use cake.Project.{Project}
use cake.Project.Scripts.{has_name, new_project}
use cake.Project.Scripts.Kept.{IsKept}

abbrev pub names : List Project → List Text
names ps = map (λ p. p.name) ps

abbrev pub HasDistinctNames : List Project → Type 0
HasDistinctNames ps = IsDistinct (names ps)

names-snoc : (ps : List Project) (q : Project) → names (ps ++ q ∷ []) ≡ names ps ++ q.name ∷ []
names-snoc [] q = refl
names-snoc (p ∷ ps) q = ap (◌∷◌ p.name) (names-snoc ps q)

contains-names :
    (ps : List Project) (name : Text) → has_name ps name ≡ false → contains (names ps) name ≡ false
unfolding has_name contains
contains-names [] name h = refl
contains-names (p ∷ ps) name h =
    ground (arith, contains-names ps name, str_eq_iff p.name name, str_eq_iff name p.name)

names-set :
    (ps : List Project) (k : ℕ) (p q : Project)
    → get_elem? ps k ≡ some p
    → q.name ≡ p.name
    → names (set ps k q) ≡ names ps
names-set [] k p q g e = refl
names-set (x ∷ ps) zero p q g e = ap (λ n. n ∷ names ps) (cc)
names-set (x ∷ ps) (suc k) p q g e = ap (◌∷◌ x.name) (names-set ps k p q g e)

-- A project may be replaced by one of its name.
pub HasDistinctNames-set :
    (ps : List Project) (k : ℕ) (p q : Project)
    → get_elem? ps k ≡ some p
    → q.name ≡ p.name
    → HasDistinctNames ps
    → HasDistinctNames (set ps k q)
HasDistinctNames-set ps k p q g e d = rw (names-set ps k p q g e) d

HasDistinctNames-snoc :
    (ps : List Project) (q : Project)
    → HasDistinctNames ps
    → has_name ps q.name ≡ false
    → HasDistinctNames (ps ++ q ∷ [])
HasDistinctNames-snoc ps q d n =
    rw (names-snoc ps q) (IsDistinct-snoc (names ps) q.name d (contains-names ps q.name n))

-- The names stay distinct.
pub HasDistinctNames-IsKept : IsKept HasDistinctNames
unfolding new_project
HasDistinctNames-IsKept = record {
  replaced = λ ps k p q g e d. HasDistinctNames-set ps k p q g e.name d;
  added = λ ps kind name key can n d. HasDistinctNames-snoc ps (new_project kind name key) d n;
}
