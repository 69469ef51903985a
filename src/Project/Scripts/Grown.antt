-- ===== src/Project/Scripts/Grown.antt =====
-- What writes through a pointer to a project leave of it.
use cake.Prelude.{ℕ, ◌≡◌, refl, sym, ◌∙◌, ap, append_assoc, append-nil, Option, List, [], ◌++◌}
use cake.Text.{Text}
use cake.Project.{Project}

-- A list with more behind it.
abbrev pub IsPrefix : {A : Type 0} → List A → List A → Type 0
IsPrefix {A} xs ys = (more : List A) × (ys ≡ xs ++ more)

module _ {A : Type 0} where
  pub unchanged : (xs : List A) → IsPrefix xs xs
  unchanged xs = ([], sym (append-nil xs))

  pub IsPrefix-trans : (xs ys zs : List A) → IsPrefix xs ys → IsPrefix ys zs → IsPrefix xs zs
  IsPrefix-trans xs ys zs (a, e) (b, f) = (a ++ b, f ∙ ap (λ l. l ++ b) e ∙ append_assoc xs a b)

-- A project as it is after writes: its name, its kind and its table are as before, and its lists go
-- on behind what they had. The suffix may be another.
pub record IsGrown (p q : Project) : Type 0 where
  pub name : q.name ≡ p.name
  pub kind : q.kind ≡ p.kind
  pub registry : q.registry ≡ p.registry
  pub files : IsPrefix p.files q.files
  pub flags : IsPrefix p.flags q.flags
  pub libs : IsPrefix p.libs q.libs
  pub pkgdepends : IsPrefix p.pkgdepends q.pkgdepends
  pub depends : IsPrefix p.depends q.depends

-- The lists and the suffix are what a write can change.
written :
    (p : Project) {files flags libs pkgdepends : List Text} {depends : List (Option ℕ)}
    (output_suffix : Text)
    → IsPrefix p.files files
    → IsPrefix p.flags flags
    → IsPrefix p.libs libs
    → IsPrefix p.pkgdepends pkgdepends
    → IsPrefix p.depends depends
    → IsGrown p (record p {
      files = files;
      flags = flags;
      libs = libs;
      pkgdepends = pkgdepends;
      depends = depends;
      output_suffix = output_suffix;
    })
written p output_suffix files flags libs pkgdepends depends = record {
  name = refl;
  kind = refl;
  registry = refl;
  files = files;
  flags = flags;
  libs = libs;
  pkgdepends = pkgdepends;
  depends = depends;
}

pub IsGrown-suffix : (p : Project) (t : Text) → IsGrown p (record p { output_suffix = t })
IsGrown-suffix p t =
    written p t (unchanged p.files) (unchanged p.flags) (unchanged p.libs) (unchanged p.pkgdepends)
      (unchanged p.depends)

pub IsGrown-trans : (p q r : Project) → IsGrown p q → IsGrown q r → IsGrown p r
IsGrown-trans p q r h k = record {
  name = k.name ∙ h.name;
  kind = k.kind ∙ h.kind;
  registry = k.registry ∙ h.registry;
  files = IsPrefix-trans p.files q.files r.files h.files k.files;
  flags = IsPrefix-trans p.flags q.flags r.flags h.flags k.flags;
  libs = IsPrefix-trans p.libs q.libs r.libs h.libs k.libs;
  pkgdepends = IsPrefix-trans p.pkgdepends q.pkgdepends r.pkgdepends h.pkgdepends k.pkgdepends;
  depends = IsPrefix-trans p.depends q.depends r.depends h.depends k.depends;
}

pub IsGrown-refl : (p : Project) → IsGrown p p
IsGrown-refl p = IsGrown-suffix p p.output_suffix

pub IsGrown-files :
    (p : Project) (more : List Text) → IsGrown p (record p { files = p.files ++ more })
IsGrown-files p more =
    written p p.output_suffix (more, refl) (unchanged p.flags) (unchanged p.libs)
      (unchanged p.pkgdepends) (unchanged p.depends)

pub IsGrown-flags :
    (p : Project) (more : List Text) → IsGrown p (record p { flags = p.flags ++ more })
IsGrown-flags p more =
    written p p.output_suffix (unchanged p.files) (more, refl) (unchanged p.libs)
      (unchanged p.pkgdepends) (unchanged p.depends)

pub IsGrown-libs : (p : Project) (more : List Text) → IsGrown p (record p { libs = p.libs ++ more })
IsGrown-libs p more =
    written p p.output_suffix (unchanged p.files) (unchanged p.flags) (more, refl)
      (unchanged p.pkgdepends) (unchanged p.depends)

pub IsGrown-pkgdepends :
    (p : Project) (more : List Text) → IsGrown p (record p { pkgdepends = p.pkgdepends ++ more })
IsGrown-pkgdepends p more =
    written p p.output_suffix (unchanged p.files) (unchanged p.flags) (unchanged p.libs)
      (more, refl) (unchanged p.depends)

pub IsGrown-depends :
    (p : Project) (more : List (Option ℕ)) → IsGrown p (record p { depends = p.depends ++ more })
IsGrown-depends p more =
    written p p.output_suffix (unchanged p.files) (unchanged p.flags) (unchanged p.libs)
      (unchanged p.pkgdepends) (more, refl)
