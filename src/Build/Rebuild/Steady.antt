-- ===== src/Build/Rebuild/Steady.antt =====
-- What a decision on rebuilding leaves, whatever it is that the calls it makes leave.
use cake.Prelude.{ℕ, suc, Bool, true, false, not, Option, none, some, List, [], ◌∷◌, drop}
use cake.Text.{Text, strchr, tokens}
use cake.System.{Os, Machine, Stop, pure, gets}
use cake.System.Ends.{Ends-pure, Ends-gets, Ends-if, Ends-bind}
use cake.File.{exists, read_file}
use cake.File.Steady.{
  IsSteady, Preserves, exists-Preserves, is_changed-Preserves, read_file-Preserves,
}
use cake.Build.Names.{mkdepname}
use cake.Build.Rebuild.{file_is_newer, any_newer, check_deps, read_deps, needs_rebuild, dep_blanks}

module _ {W : Type 0} (os : Os W) (E : Stop → Type 0) (P : Machine W → Type 0)
    (steady : IsSteady os P) where
  file_is_newer-Preserves : (f c : Text) → Preserves os E P steady (file_is_newer os f c)
  unfolding file_is_newer
  file_is_newer-Preserves f c = Ends-bind (exists os c) (exists-Preserves os E P steady c) λ there.
      Ends-if there (λ _. is_changed-Preserves os E P steady f c) (λ _. Ends-pure true (λ s p. p))

  any_newer-Preserves :
      (ts : List Text) (objname : Text) → Preserves os E P steady (any_newer os ts objname)
  unfolding any_newer
  any_newer-Preserves [] objname = Ends-pure false (λ s p. p)
  any_newer-Preserves (t ∷ ts) objname =
      Ends-bind (file_is_newer os t objname) (file_is_newer-Preserves t objname) λ newer.
        Ends-if newer (λ _. Ends-pure true (λ s p. p)) (λ _. any_newer-Preserves ts objname)

  check_deps-Preserves :
      (contents objname : Text) → Preserves os E P steady (check_deps os contents objname)
  unfolding check_deps
  check_deps-Preserves contents objname = go (strchr b':' contents)
    where
      go :
          (o : Option ℕ)
          → Preserves os E P steady {A = Bool} (elim o [
            | none ↦ pure true
            | some colon ↦ any_newer os (tokens dep_blanks (drop (suc colon) contents)) objname
          ])
      go none = Ends-pure true (λ s p. p)
      go (some colon) = any_newer-Preserves _ objname

  read_deps-Preserves : (dep objname : Text) → Preserves os E P steady (read_deps os dep objname)
  unfolding read_deps
  read_deps-Preserves dep objname =
      Ends-bind (exists os dep) (exists-Preserves os E P steady dep) λ there.
        Ends-if (not there) (λ _. Ends-pure true (λ s p. p))
          (λ _. Ends-bind (read_file os dep) (read_file-Preserves os E P steady dep) go)
    where
      go :
          (o : Option Text)
          → Preserves os E P steady {A = Bool}
              (elim o [ none ↦ pure true | some text ↦ check_deps os text objname ])
      go none = Ends-pure true (λ s p. p)
      go (some text) = check_deps-Preserves text objname

  pub needs_rebuild-Preserves :
      (f objname : Text)
      → Preserves os E P steady (mkdepname f)
      → Preserves os E P steady (needs_rebuild os f objname)
  unfolding needs_rebuild
  needs_rebuild-Preserves f objname named =
      Ends-bind {R = λ _. P} (gets (λ s. s.rebuild_flag)) (Ends-gets _ (λ s p. p)) λ rebuild.
        Ends-if rebuild (λ _. Ends-pure true (λ s p. p))
          (λ _. Ends-bind (mkdepname f) named λ dep. read_deps-Preserves dep objname)
