-- ===== src/Build/Objects/Arguments.antt =====
-- The arguments of a link are put together without touching the account.
use cake.Prelude.{
  ℕ, ◌+◌, ◌<◌, ◌⊎◌, Option, none, some, List, [], ◌∷◌, ◌++◌, if◌then◌else◌, All, length, get_elem?,
}
use cake.Text.{Text, codes}
use cake.ArgList.{ArgList, add_arg, add_args}
use cake.Config.{compiler, link_options}
use cake.System.{Os, Stop, overrun, crashed, ◌>>=◌, stop, gets, fits}
use cake.System.Ends.{Ends-stop, Ends-if, Ends-bind, Fits}
use cake.Project.{Project}
use cake.Build.Compile.{add_pch}
use cake.Build.Link.{link_args, verbose_args, add_depends, depend_args, is_program}
use cake.Build.Objects.Machine.{Stays, Stays-pure, Stays-gets, Stays-fits}
use cake.Build.Objects.Steps.{print_args-Stays, add_pch-Stays}

abbrev pub CanLinkTo : (Stop → Type 0) → Option Project → Type 0
CanLinkTo E none = E crashed
CanLinkTo E (some p) = Fits E 260 (codes "-l" ++ p.name ++ p.output_suffix)

-- A dependency can be named on the command line: the project is there, and `-l` and its name fit a
-- buffer.
abbrev pub CanLink : (Stop → Type 0) → List Project → Option ℕ → Type 0
CanLink E projects none = E crashed
CanLink E projects (some k) = CanLinkTo E (get_elem? projects k)

module _ {W : Type 0} (os : Os W) (E : Stop → Type 0) (d : Text) where
  pub verbose_args-Stays : (args : ArgList) → Stays os E d (verbose_args os args)
  unfolding verbose_args
  verbose_args-Stays args =
      Ends-bind (gets (λ s. s.verbose_flag)) (Stays-gets os E d (λ s. s.verbose_flag))
        λ verbose. Ends-if verbose (λ _. print_args-Stays os E d args) (λ _. Stays-pure os E d tt)

  add_depends-Stays :
      (projects : List Project) (ds : List (Option ℕ)) (args : ArgList)
      → All (CanLink E projects) ds
      → Stays os E d (add_depends os projects ds args)
  unfolding add_depends
  add_depends-Stays projects [] args h = Stays-pure os E d args
  add_depends-Stays projects (none ∷ ds) args h = Ends-stop crashed h.0
  add_depends-Stays projects (some k ∷ ds) args h =
      go (get_elem? projects k) h.0 (λ more. add_depends-Stays projects ds more h.1)
    where
      go :
          (o : Option Project)
          → CanLinkTo E o
          → ((more : ArgList) → Stays os E d (add_depends os projects ds more))
          → Stays os E d {A = ArgList} (elim o [
            | none ↦ stop crashed
            | some p ↦
                if is_program p.kind
                then add_depends os projects ds args
                else (fits 260 (codes "-l" ++ p.name ++ p.output_suffix) >>= λ tmp.
                    add_depends os projects ds (add_arg args tmp))
          ])
      go none h rest = Ends-stop crashed h
      go (some p) h rest =
          Ends-if (is_program p.kind) (λ _. rest args)
            (λ _.
              Ends-bind (fits 260 (codes "-l" ++ p.name ++ p.output_suffix))
                (Stays-fits os E d 260 (codes "-l" ++ p.name ++ p.output_suffix) h)
                λ tmp. rest (add_arg args tmp))

  pub depend_args-Stays :
      (projects : List Project) (ds : List (Option ℕ)) (args : ArgList)
      → All (CanLink E projects) ds
      → Stays os E d (depend_args os projects ds args)
  unfolding depend_args
  depend_args-Stays projects [] args h = Stays-pure os E d args
  depend_args-Stays projects (k ∷ ds) args h = add_depends-Stays projects (k ∷ ds) _ h

  pub link_args-Stays :
      (pchname ldflags outname : Text) (linklist : List Text)
      → (2 + length pchname < 260) ⊎ E overrun
      → Stays os E d (link_args os pchname ldflags outname linklist)
  unfolding link_args
  link_args-Stays pchname ldflags outname linklist room =
      Ends-bind (add_pch os pchname (add_args [] (compiler ∷ link_options)))
        (add_pch-Stays os E d pchname (add_args [] (compiler ∷ link_options)) room)
        λ args. Stays-pure os E d _
