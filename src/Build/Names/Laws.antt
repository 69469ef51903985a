-- ===== src/Build/Names/Laws.antt =====
-- Object and dependency names, and the buffers that they are made in.
use mathlib.Core.List.{append_cancel_left, append_cancel_right}
use cake.Prelude.{
  ◌↔◌, ℕ, suc, ◌+◌, ◌-◌, ◌≤◌, ◌<◌, ◌≡◌, ◌≢◌, refl, sym, ap, ◌∙◌, true, false, [], ◌∷◌, ◌++◌, arith,
  ltb, lt→ltb, if◌then◌else◌, length, take, length-append, length-take_le, append_assoc, Bool-cases,
  Option-cases, inl, inr,
}
use cake.Text.{Text, codes, has_byte, strrchr}
use cake.Text.Search.{strrchr_last, strrchr-lt}
use cake.Utility.{endswith1of}
use cake.Utility.Laws.{endswith1of_iff}
use cake.System.{Machine, done, stopped, overrun}
use cake.Build.Names.{with_extension, header_endings, objname_of, depname_of, mkobjname, mkdepname}

take-stem : (stem ext : Text) (c : ℕ) → take (suc (length stem)) (stem ++ c ∷ ext) ≡ stem ++ c ∷ []
take-stem [] ext c = refl
take-stem (x ∷ stem) ext c = ap (◌∷◌ x) (take-stem stem ext c)

pos-length : (t : Text) → t ≢ [] → 0 < length t
pos-length [] h = absurd (h refl)
pos-length (x ∷ t) h = omega arith

-- The last extension, if it is not empty, is replaced.
pub with_extension-stem :
    (c : ℕ) (stem ext : Text)
    → ext ≢ []
    → has_byte b'.' ext ≡ false
    → with_extension c (stem ++ b'.' ∷ ext) ≡ stem ++ b'.' ∷ c ∷ []
unfolding with_extension
with_extension-stem c stem ext n h =
    let short : length stem < length (stem ++ b'.' ∷ ext) - 1 =
      omega (arith, length-append stem (b'.' ∷ ext), pos-length ext n) in
    rw (strrchr_last b'.' stem ext h, with_extension, lt→ltb _ _ short, take-stem stem ext b'.')
      (append_assoc stem (b'.' ∷ []) (c ∷ []))

-- The object of a source is in the object folder, with `.o` for the last extension, if that is not
-- empty.
pub objname_of-stem :
    (objdir stem ext : Text)
    → ext ≢ []
    → has_byte b'.' ext ≡ false
    → objname_of objdir (stem ++ b'.' ∷ ext) ≡ objdir ++ (stem ++ codes ".o")
unfolding objname_of
objname_of-stem objdir stem ext n h =
    rw (← append_assoc objdir stem (b'.' ∷ ext))
      (with_extension-stem b'o' (objdir ++ stem) ext n h ∙ append_assoc objdir stem (codes ".o"))

-- Of two sources with extensions that are not empty, the objects are the same exactly when the sources
-- are, up to the last extension.
pub objname_of_iff :
    (objdir stem stem' ext ext' : Text)
    → ext ≢ []
    → ext' ≢ []
    → has_byte b'.' ext ≡ false
    → has_byte b'.' ext' ≡ false
    → (objname_of objdir (stem ++ b'.' ∷ ext) ≡ objname_of objdir (stem' ++ b'.' ∷ ext'))
      ↔ (stem ≡ stem')
objname_of_iff objdir stem stem' ext ext' n n' h h' =
    let here = objname_of-stem objdir stem ext n h in
    let there = objname_of-stem objdir stem' ext' n' h' in
    (
      λ e. append_cancel_right stem stem' (codes ".o") (
          append_cancel_left objdir (stem ++ codes ".o") (stem' ++ codes ".o")
            (sym here ∙ e ∙ there)),
      λ e. here ∙ ap (λ t. objdir ++ (t ++ codes ".o")) e ∙ sym there,
    )

-- Sources that differ only in their last extension have the same object, if neither is empty.
pub objname_of-collides :
    (objdir stem ext ext' : Text)
    → ext ≢ []
    → ext' ≢ []
    → has_byte b'.' ext ≡ false
    → has_byte b'.' ext' ≡ false
    → objname_of objdir (stem ++ b'.' ∷ ext) ≡ objname_of objdir (stem ++ b'.' ∷ ext')
objname_of-collides objdir stem ext ext' n n' h h' =
    (objname_of_iff objdir stem stem ext ext' n n' h h').1 refl

-- The dependency file of a header `stem.h` is `stem.h.d` in the object folder.
pub depname_of-header :
    (objdir stem : Text) → depname_of objdir (stem ++ codes ".h") ≡ objdir ++ (stem ++ codes ".h.d")
unfolding depname_of
depname_of-header objdir stem =
    let name = objdir ++ (stem ++ codes ".h") in
    let split : name ≡ (objdir ++ (stem ++ codes ".")) ++ codes "h" = simp append_assoc in
    let ends : endswith1of name header_endings ≡ true =
      (endswith1of_iff name header_endings).1 (inl (objdir ++ (stem ++ codes "."), split)) in
    rw (ends, depname_of) (simp append_assoc)

pub length-with_extension : (c : ℕ) (t : Text) → length (with_extension c t) ≤ length t
unfolding with_extension
length-with_extension c t = elim (Option-cases (strrchr b'.' t)) [
  | inl e ↦ rw (e, with_extension) (omega arith)
  | inr (i, e) ↦
      rw (e, with_extension)
        (ground (
          arith,
          strrchr-lt b'.' t i e,
          length-append (take (suc i) t) (c ∷ []),
          length-take_le (suc i) t,
        ))
]

module _ {W : Type 0} where
  -- `mkobjname` gives the object's name if the folder and the file have fewer than 260 bytes, else it
  -- overruns its buffer; writing the extension makes the name no longer.
  pub mkobjname_lem :
      (fname : Text) (s : Machine W)
      → (mkobjname fname s ≡ (
        (if ltb (length s.objdir + length fname) 260
            then done (objname_of s.objdir fname)
            else stopped overrun),
        s,
      ))
        × (length (objname_of s.objdir fname) ≤ length s.objdir + length fname)
  unfolding mkobjname objname_of
  mkobjname_lem fname s = (
    rw (length-append s.objdir fname) (ground arith),
    omega (arith, length-with_extension b'o' (s.objdir ++ fname), length-append s.objdir fname),
  )

  pub mkdepname-reads : (fname : Text) (s : Machine W) → (mkdepname fname s).1 ≡ s
  unfolding mkdepname
  mkdepname-reads fname s = elim (Bool-cases (ltb (length (s.objdir ++ fname)) 260)) [
    | inl fits ↦ rw fits
    | inr long ↦ rw long
  ]
