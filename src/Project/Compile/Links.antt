-- ===== src/Project/Compile/Links.antt =====
-- A project that is compiled is linked of the objects of its files, in whatever order the jobs ended.
use mathlib.Core.Quot
use mathlib.Core.Quot.{Quot}
use cake.Prelude.{
  ℕ, ◌+◌, ◌≡◌, refl, inl, inr, Bool, true, Option, none, some, get_elem?, List, [], ◌∷◌, arith, All,
}
use cake.Text.{Text}
use cake.System.{Os, Stop, Outcome, done, stopped}
use cake.System.Laws.{done-injective}
use cake.System.Ends.{Any, Never, Ended, came_back}
use cake.Project.{Project, Kind, program, static_library, shared_library}
use cake.Project.Compile.{build_files}
use cake.Project.Compile.Objects.{objects, ShortFile, ShortTarget, build_files-JoinedIf}
use cake.Build.{Job, Site}
use cake.Build.Start.{IsNew}
use cake.Build.Jobs.Tally.{active}
use cake.Build.Jobs.Slots.{ForksApart}
use cake.Build.Objects.{occurrences, running}
use cake.Build.Objects.Sites.{Whole}
use cake.Build.Objects.Steps.{ShortName}
use cake.Build.Objects.Compile.{sources}
use cake.Build.Objects.Arguments.{CanLink, CanLinkTo}
use cake.Build.Objects.Link.{JoinedIf}

-- Lists of names with the same names in them, each as often.
abbrev pub SameNames : List Text → List Text → Type 0
SameNames xs ys = (x : Text) → occurrences x xs ≡ occurrences x ys

-- Names without an order.
abbrev pub Bag : Type 0
Bag = Quot SameNames

abbrev pub bag : List Text → Bag
bag xs = Quot.mk xs

running_none : (x : Text) (js : List Job) → active js ≡ 0 → running x js ≡ 0
running_none x [] h = refl
running_none x (j ∷ js) h = ground (arith, running_none x js)

IsNew-Whole :
    {W : Type 0} (os : Os W) (E : Stop → Type 0) (x : Text) (s : Site W)
    → IsNew s.build
    → Whole os E s.machine.objdir x 0 s
IsNew-Whole os E x s new = record {
  folder = refl;
  slot = new.slot;
  room = inl (rw new.no_header (omega arith));
  links = λ _. rw new.unlinked (omega (arith, running_none x s.build.jobs new.idle));
}

Any-files :
    (d : Text) (matches : Text → List Text) (fs : List Text) → All (ShortFile Any d matches) fs
Any-files d matches [] = tt
Any-files d matches (f ∷ fs) = ((inr tt, names (sources (matches f) f)), Any-files d matches fs)
  where
    names : (gs : List Text) → All (ShortName Any d) gs
    names [] = tt
    names (g ∷ gs) = (inr tt, names gs)

CanLink-Any : (projects : List Project) (ds : List (Option ℕ)) → All (CanLink Any projects) ds
CanLink-Any projects [] = tt
CanLink-Any projects (none ∷ ds) = (tt, CanLink-Any projects ds)
CanLink-Any projects (some k ∷ ds) = (go (get_elem? projects k), CanLink-Any projects ds)
  where
    go : (o : Option Project) → CanLinkTo Any o
    go none = tt
    go (some p) = inr tt

Any-target : (projects : List Project) (p : Project) (kind : Kind) → ShortTarget Any projects p kind
Any-target projects p program = (inr tt, CanLink-Any projects p.depends)
Any-target projects p static_library = inr tt
Any-target projects p shared_library = tt

module _ {W : Type 0} (os : Os W) (apart : ForksApart os) (matches : Text → List Text)
    (glob_matches : (f : Text) (w : W) → os.glob f w ≡ matches f) (projects : List Project)
    (p : Project) (flags : Text) (making_cpp : Bool) (s : Site W) (new : IsNew s.build) where
  names_linked :
      (x : Text)
      → (build_files os projects p flags making_cpp s).0 ≡ done true
      → occurrences x (build_files os projects p flags making_cpp s).1.build.linklist
        ≡ occurrences x (objects s.machine.objdir matches p.files)
  names_linked x e = go (build_files os projects p flags making_cpp s).0 _ e (
      (build_files-JoinedIf os apart Any s.machine.objdir matches glob_matches x projects p flags
          making_cpp (Any-files s.machine.objdir matches p.files) (Any-target projects p p.kind)).at
        s (IsNew-Whole os Any x s new))
    where
      go :
          (o : Outcome Bool) (t : Site W)
          → o ≡ done true
          → Ended Any
              (JoinedIf os Any s.machine.objdir x
                (occurrences x (objects s.machine.objdir matches p.files) + 0))
              o
              t
          → occurrences x t.build.linklist
            ≡ occurrences x (objects s.machine.objdir matches p.files)
      go (done b) t e h = omega (arith, h (done-injective e))
      go (stopped c) t e h = cc

  -- If `fork` never gives its caller 0 and what glob finds does not change, then a new build that
  -- comes to success has linked the objects of the sources of the project, each as often as it comes
  -- from a source, in some order.
  pub build_files-links :
      (build_files os projects p flags making_cpp s).0 ≡ done true
      → bag (build_files os projects p flags making_cpp s).1.build.linklist
        ≡ bag (objects s.machine.objdir matches p.files)
  build_files-links e = Quot.sound (λ x. names_linked x e)

  -- If `fork` never gives its caller 0, what glob finds does not change, the names of the files, of
  -- the target and of the libraries that it depends on fit their buffers, and the projects that it
  -- depends on are there, then building them with a new build comes back.
  pub build_files-returns :
      All (ShortFile Never s.machine.objdir matches) p.files
      → ShortTarget Never projects p p.kind
      → (ok : Bool) × ((build_files os projects p flags making_cpp s).0 ≡ done ok)
  build_files-returns short target =
      came_back
        (JoinedIf os Never s.machine.objdir []
          (occurrences [] (objects s.machine.objdir matches p.files) + 0))
        (build_files os projects p flags making_cpp s).0 _
        ((build_files-JoinedIf os apart Never s.machine.objdir matches glob_matches [] projects p
            flags making_cpp short target).at
          s (IsNew-Whole os Never [] s new))
