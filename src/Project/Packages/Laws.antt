-- ===== src/Project/Packages/Laws.antt =====
-- What pkg-config adds to the flags and the libraries.
use cake.Prelude.{
  ◌≡◌, refl, sym, ap, ◌∙◌, true, false, not, some, List, [], ◌∷◌, ◌++◌, All, All-append, append-nil,
  append_assoc,
}
use cake.Text.{Text, codes}
use cake.Text.Tokens.{IsWord}
use cake.ArgList.{blanks, insert_spacedelim}
use cake.ArgList.Laws.{insert_spacedelim-IsWord}
use cake.System.{Os}
use cake.System.Gives.{Gives, Gives-pure, Gives-if, Gives-last, Gives-bind, Gives-weaken}
use cake.Utility.Print.{printerr}
use cake.Command.{execute_command, execute_grab}
use cake.Project.Packages.{
  Found, pkg_args, give_up, warn_missing, ask_libs, ask_cflags, ask_package, ask_packages,
}

-- The flags and the libraries are those from before with more behind them, and the libraries that
-- were added are words.
pub record Extends (found result : Found) : Type 0 where
  pub flags : Text
  pub libs : List Text
  pub all_flags : result.flags ≡ found.flags ++ flags
  pub all_libs : result.libs ≡ found.libs ++ libs
  pub words : All (IsWord blanks) libs

Extends-refl : (found : Found) → Extends found found
Extends-refl found = record {
  flags = [];
  libs = [];
  all_flags = sym (append-nil found.flags);
  all_libs = sym (append-nil found.libs);
  words = tt;
}

Extends-trans : {a b c : Found} → Extends a b → Extends b c → Extends a c
Extends-trans {a} h k = record {
  flags = h.flags ++ k.flags;
  libs = h.libs ++ k.libs;
  all_flags =
      k.all_flags ∙ ap (λ t. t ++ k.flags) h.all_flags ∙ append_assoc a.flags h.flags k.flags;
  all_libs = k.all_libs ∙ ap (λ t. t ++ k.libs) h.all_libs ∙ append_assoc a.libs h.libs k.libs;
  words = All-append (IsWord blanks) h.libs k.libs h.words k.words;
}

module _ {W : Type 0} (os : Os W) where
  give_up-Extends :
      (msg : Text) (a found : Found)
      → Extends a found
      → Gives (λ r. Extends a r.1) (give_up os msg found)
  unfolding give_up
  give_up-Extends msg a found h = Gives-last (printerr os msg) λ _. Gives-pure (false, found) h

  ask_libs-Extends :
      (cwd pkg : Text) (a found : Found)
      → Extends a found
      → Gives (λ r. Extends a r.1) (ask_libs os cwd pkg found)
  unfolding ask_libs
  ask_libs-Extends cwd pkg a found h =
      Gives-last (execute_grab os (pkg_args "--libs" pkg) (some cwd)) λ r.
        Gives-if (not r.0) (give_up-Extends (codes "Failed") a found h) (
          Gives-pure
            (true, record found { libs = found.libs ++ insert_spacedelim os.beyond [] r.2 })
            (Extends-trans h (record {
              flags = [];
              libs = insert_spacedelim os.beyond [] r.2;
              all_flags = sym (append-nil found.flags);
              all_libs = refl;
              words = insert_spacedelim-IsWord os.beyond [] r.2 tt;
            })))

  ask_cflags-Extends :
      (cwd pkg : Text) (a found : Found)
      → Extends a found
      → Gives (λ r. Extends a r.1) (ask_cflags os cwd pkg found)
  unfolding ask_cflags
  ask_cflags-Extends cwd pkg a found h =
      Gives-last (execute_grab os (pkg_args "--cflags" pkg) (some cwd)) λ r.
        Gives-if (not r.0) (give_up-Extends (codes "failed running pkg-config") a found h) (
          ask_libs-Extends cwd pkg a (record found { flags = found.flags ++ r.2 })
            (Extends-trans h (record {
              flags = r.2;
              libs = [];
              all_flags = refl;
              all_libs = sym (append-nil found.libs);
              words = tt;
            })))

  ask_package-Extends :
      (cwd pkg : Text) (found : Found)
      → Gives (λ r. Extends found r.1) (ask_package os cwd pkg found)
  unfolding ask_package
  ask_package-Extends cwd pkg found =
      Gives-last (execute_command os (pkg_args "--exists" pkg) (some (codes "./"))) λ r.
        Gives-if (not r.0)
          (give_up-Extends (codes "Failed to run pkgconfig") found found (Extends-refl found))
          (Gives-last (warn_missing os pkg r.1)
            λ _. ask_cflags-Extends cwd pkg found found (Extends-refl found))

  pub ask_packages-Extends :
      (cwd : Text) (pkgs : List Text) (found : Found)
      → Gives (λ r. Extends found r.1) (ask_packages os cwd pkgs found)
  unfolding ask_packages
  ask_packages-Extends cwd [] found = Gives-pure (true, found) (Extends-refl found)
  ask_packages-Extends cwd (pkg ∷ pkgs) found =
      Gives-bind (ask_package os cwd pkg found) (ask_package-Extends cwd pkg found) λ r h.
        Gives-if r.0 (Gives-weaken (λ q k. Extends-trans h k) (ask_packages-Extends cwd pkgs r.1))
          (Gives-pure (false, r.1) h)
