-- ===== src/Project/Compile/Result.antt =====
-- What `Project::compile` leaves of a project.
use cake.Prelude.{◌≡◌, sym, subst, ap, ◌++◌, Bool, List, [], false, All}
use cake.Text.{Text}
use cake.Text.Tokens.{IsWord}
use cake.ArgList.{blanks}
use cake.System.{Os, Machine, done, look}
use cake.System.Gives.{Gives, Gives-pure, Gives-if, Gives-last, Gives-bind, Gives-weaken}
use cake.Project.{Project}
use cake.Project.Packages.{Found, ask_packages}
use cake.Project.Packages.Laws.{Extends, ask_packages-Extends}
use cake.Project.Compile.{compile_project, compile_with}
use cake.Project.Scripts.Grown.{IsGrown, IsGrown-libs}
use cake.Build.{start, finish}

-- The project with words behind its libraries.
abbrev pub HasMoreLibs : Project → Project → Type 0
HasMoreLibs p q =
    (words : List Text) × All (IsWord blanks) words × (q ≡ record p { libs = p.libs ++ words })

extended :
    (p : Project) (r : Found)
    → Extends (record { flags = []; libs = p.libs }) r
    → HasMoreLibs p (record p { libs = r.libs })
extended p r h = (h.libs, h.words, ap (λ l. record p { libs = l }) h.all_libs)

module _ {W : Type 0} (os : Os W) (projects : List Project) (p : Project) where
  compile_project-HasMoreLibs : Gives (λ r. HasMoreLibs p r.1) (compile_project os projects p)
  unfolding compile_project
  compile_project-HasMoreLibs = Gives-last (start os) λ b. Gives-last (look os.getcwd) λ cwd.
      Gives-bind (ask_packages os cwd p.pkgdepends (record { flags = []; libs = p.libs }))
        (ask_packages-Extends os cwd p.pkgdepends (record { flags = []; libs = p.libs }))
        λ r h.
          Gives-if r.0
            (Gives-last (compile_with os projects (record p { libs = r.1.libs }) r.1.flags b)
              λ ok. Gives-pure (ok, record p { libs = r.1.libs }) (extended p r.1 h))
            (Gives-last (finish os b)
              λ _. Gives-pure (false, record p { libs = r.1.libs }) (extended p r.1 h))

  -- A project that is compiled is as before, with more libraries.
  pub compile_project-IsGrown : Gives (λ r. IsGrown p r.1) (compile_project os projects p)
  compile_project-IsGrown =
      Gives-weaken (λ r (words, _, e). subst (IsGrown p) (sym e) (IsGrown-libs p words))
        compile_project-HasMoreLibs

  -- If compiling a project comes back, then the project is as before, with or without success, but
  -- for libraries that were added behind those it had, each of them a word: not empty, and without a
  -- blank.
  pub compile_project-keeps :
      (s : Machine W) (ok : Bool) (q : Project)
      → (compile_project os projects p s).0 ≡ done (ok, q)
      → (words : List Text) × All (IsWord blanks) words × (q ≡ record p { libs = p.libs ++ words })
  compile_project-keeps s ok q e = compile_project-HasMoreLibs.at s (ok, q) e
