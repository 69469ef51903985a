-- ===== src/Main/Calls.antt =====
-- What the functions that a script may call do to the list of projects.
use cake.Prelude.{refl, inl, inr, Bool, not, List, [], ◌∷◌, ◌==◌, ◌++◌}
use cake.Text.{codes}
use cake.System.{Os, change, look, system}
use cake.Project.{Project, program, static_library}
use cake.Project.Scripts.{
  Shop, Script, program_functions, library_functions, create_program, create_library, add_libs,
  add_pkgdepend, add_flags, add_files,
}
use cake.Project.Scripts.Always.{Always, Always-pure, Always-if, Always-after}
use cake.Project.Scripts.Grown.{IsGrown-libs, IsGrown-pkgdepends, IsGrown-flags, IsGrown-files}
use cake.Project.Scripts.Kept.{
  IsKept, add_strings-Always, set_output_suffix-Always, depend-Always, create-Always, raise-Always,
}
use cake.Lua.{
  Lua, top, Call, s_add_libs, s_add_pkgdepend, s_add_flags, s_add_files, s_set_output_suffix,
  s_depend, s_create_program, s_create_library, s_getcwd, s_chdir,
}
use cake.Main.{calls, lua_getcwd, lua_chdir, chdir_to}

module _ {W : Type 0} (os : Os W) (lua : Lua W) {P : List Project → Type 0} (kept : IsKept P) where
  lua_chdir-Always : Always P (lua_chdir os lua)
  unfolding lua_chdir
  lua_chdir-Always = Always-after (look lua.gettop) λ last.
      Always-after (look (lua.isstring (top 1))) λ string.
        Always-if (not (last == 1)) (raise-Always lua kept (codes "expected string")) (
          Always-if (not string) (raise-Always lua kept (codes "expected string")) (
            Always-after (system (lua.tostring (top 1))) λ str.
              Always-after (chdir_to os lua str) λ ok.
                Always-if (not ok) (raise-Always lua kept (codes "chdir() failed"))
                  (Always-pure 0)))

  call-Always : (c : Call) → Always P (calls os lua c)
  unfolding calls add_libs add_pkgdepend add_flags add_files create_program create_library
      lua_getcwd
  call-Always s_add_libs =
      add_strings-Always lua kept (λ t p. record p { libs = p.libs ++ t ∷ [] })
        (λ t p. IsGrown-libs p (t ∷ []))
  call-Always s_add_pkgdepend =
      add_strings-Always lua kept (λ t p. record p { pkgdepends = p.pkgdepends ++ t ∷ [] })
        (λ t p. IsGrown-pkgdepends p (t ∷ []))
  call-Always s_add_flags =
      add_strings-Always lua kept (λ t p. record p { flags = p.flags ++ t ∷ [] })
        (λ t p. IsGrown-flags p (t ∷ []))
  call-Always s_add_files =
      add_strings-Always lua kept (λ t p. record p { files = p.files ++ t ∷ [] })
        (λ t p. IsGrown-files p (t ∷ []))
  call-Always s_set_output_suffix = set_output_suffix-Always lua kept
  call-Always s_depend = depend-Always lua kept
  call-Always s_create_program =
      create-Always lua kept (codes "program") program program_functions (inl refl)
  call-Always s_create_library =
      create-Always lua kept (codes "library") static_library library_functions (inr refl)
  call-Always s_getcwd =
      Always-after (look os.getcwd)
        λ cwd. Always-after (change (lua.pushstring cwd)) λ _. Always-pure 1
  call-Always s_chdir = lua_chdir-Always

  -- Each function that a script may call keeps `P`, whether it comes back, raises an error or ends the
  -- process.
  pub calls-Kept : (call : Call) (s : Shop W) → P s.projects → P (calls os lua call s).1.projects
  calls-Kept call s = (call-Always call).at s

-- A script changes the projects only by the functions that it may call.
abbrev pub Keeps : {W : Type 0} → Os W → Lua W → Script W Bool → Type 1
Keeps {W} os lua script =
    (P : List Project → Type 0)
    → ((call : Call) (s : Shop W) → P s.projects → P (calls os lua call s).1.projects)
    → (s : Shop W) → P s.projects
    → P (script s).1.projects
