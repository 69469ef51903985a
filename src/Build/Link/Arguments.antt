-- ===== src/Build/Link/Arguments.antt =====
-- The command line of a link.
use cake.Prelude.{
  ℕ, ◌+◌, ◌<◌, ◌≡◌, refl, ◌∙◌, ap, inl, inr, Bool-cases, Option, none, some, get_elem?, List, [],
  ◌∷◌, ◌++◌, if◌then◌else◌, All, length, lt→ltb,
}
use cake.Text.{Text, codes, tokens}
use cake.ArgList.{ArgList, add_arg, add_args, insert_spacedelim, line_buffer, blanks}
use cake.ArgList.Laws.{add_args-append}
use cake.Config.{compiler, link_options}
use cake.Utility.{strfmt}
use cake.System.{Os, Machine, Outcome, done, stop, crashed, fits, ◌>>=◌}
use cake.System.Ends.{Never}
use cake.File.{mkpath}
use cake.Build.Objects.Machine.{Stays-back}
use cake.Build.Objects.Files.{mkpath-Stays}
use cake.Build.Compile.Arguments.{pch_include, add_pch_lem}
use cake.Project.{Project}
use cake.Build.{Site}
use cake.Build.Objects.Arguments.{CanLink, CanLinkTo, verbose_args-Stays}
use cake.Build.Link.{
  is_program, add_depends, depend_args, link_args, add_libs, verbose_args, do_link, run_tool,
}

-- `-l` and the name for each dependency that is a library.
abbrev pub libraries : List Project → List (Option ℕ) → List Text
libraries projects [] = []
libraries projects (none ∷ ds) = libraries projects ds
libraries projects (some d ∷ ds) =
    let rest = libraries projects ds in
    elim (get_elem? projects d) [
      | none ↦ rest
      | some p ↦
          if is_program p.kind then rest else (codes "-l" ++ p.name ++ p.output_suffix) ∷ rest
    ]

-- Where there are dependencies, their folder and their names.
abbrev pub depend_options : List Project → List (Option ℕ) → List Text
depend_options projects [] = []
depend_options projects (d ∷ ds) = codes "-Llib/" ∷ libraries projects (d ∷ ds)

abbrev pub given_libs : Option (List Text) → List Text
given_libs none = []
given_libs (some libs) = libs

module _ {W : Type 0} (os : Os W) where
  -- The compiler, the folder of the precompiled header, the flags, the target, and the objects.
  abbrev pub link_start : List Text → Text → Text → List Text → List Text
  link_start include ldflags outname objs =
      (compiler ∷ link_options)
      ++ include
      ++ tokens blanks (line_buffer os.beyond ldflags)
      ++ codes "-o" ∷ outname ∷ objs

  -- Behind them the libraries and the dependencies.
  abbrev pub link_command :
      List Project
      → List (Option ℕ)
      → Option (List Text)
      → List Text
      → Text
      → Text
      → List Text
      → List Text
  link_command projects ds libs include ldflags outname objs =
      link_start include ldflags outname objs ++ given_libs libs ++ depend_options projects ds

  add_depends_lem :
      (projects : List Project) (ds : List (Option ℕ)) (args : ArgList) (s : Machine W)
      → All (CanLink Never projects) ds
      → add_depends os projects ds args s ≡ (done (add_args args (libraries projects ds)), s)
  unfolding add_depends add_args
  add_depends_lem projects [] args s h = refl
  add_depends_lem projects (none ∷ ds) args s h = absurd h.0
  add_depends_lem projects (some d ∷ ds) args s h =
      go (get_elem? projects d) h.0 (λ more. add_depends_lem projects ds more s h.1)
    where
      go :
          (o : Option Project)
          → CanLinkTo Never o
          → ((more : ArgList)
              → add_depends os projects ds more s
                ≡ (done (add_args more (libraries projects ds)), s))
          → (elim o as (λ _. Machine W → Outcome ArgList × Machine W) [
            | none ↦ stop crashed
            | some p ↦
                if is_program p.kind
                then add_depends os projects ds args
                else (fits 260 (codes "-l" ++ p.name ++ p.output_suffix) >>= λ tmp.
                    add_depends os projects ds (add_arg args tmp))
          ])
              s
            ≡ (
              done (
                  add_args args (elim o [
                    | none ↦ libraries projects ds
                    | some p ↦
                        if is_program p.kind
                        then libraries projects ds
                        else (codes "-l" ++ p.name ++ p.output_suffix) ∷ libraries projects ds
                  ])),
              s,
            )
      go none h rest = absurd h
      go (some p) (inr e) rest = absurd e
      go (some p) (inl short) rest = elim (Bool-cases (is_program p.kind)) [
        | inl e ↦ rw e (rest args)
        | inr e ↦
            rw (e, lt→ltb (length (codes "-l" ++ p.name ++ p.output_suffix)) 260 short)
              (rest (add_arg args (codes "-l" ++ p.name ++ p.output_suffix)))
      ]

  depend_args_lem :
      (projects : List Project) (ds : List (Option ℕ)) (args : ArgList) (s : Machine W)
      → All (CanLink Never projects) ds
      → depend_args os projects ds args s ≡ (done (add_args args (depend_options projects ds)), s)
  unfolding depend_args add_args strfmt
  depend_args_lem projects [] args s h = refl
  depend_args_lem projects (d ∷ ds) args s h = add_depends_lem projects (d ∷ ds) _ s h

  pub mkpath_done : (outname : Text) (s : Machine W) → (mkpath os outname s).0 ≡ done tt
  mkpath_done outname s =
      Stays-back os (mkpath os outname) s (mkpath-Stays os Never s.objdir outname)

  add_libs_lem :
      (libs : Option (List Text)) (args : ArgList)
      → add_libs os libs args ≡ add_args args (given_libs libs)
  unfolding add_libs add_args
  add_libs_lem none args = refl
  add_libs_lem (some libs) args = refl

  link_args_lem :
      (pchname ldflags outname : Text) (objs : List Text) (s : Machine W)
      → 2 + length pchname < 260
      → link_args os pchname ldflags outname objs s
        ≡ (done (add_args [] (link_start (pch_include os pchname s.world) ldflags outname objs)), s)
  unfolding link_args insert_spacedelim
  link_args_lem pchname ldflags outname objs s room =
      let include = pch_include os pchname s.world in
      let words = tokens blanks (line_buffer os.beyond ldflags) in
      rw (add_pch_lem os pchname (add_args [] (compiler ∷ link_options)) s room) (
        ap (λ z. (done z, s))
          (ap (λ z. add_args (add_args z words) (codes "-o" ∷ outname ∷ objs))
              (add_args-append [] (compiler ∷ link_options) include)
            ∙ ap (λ z. add_args z (codes "-o" ∷ outname ∷ objs))
                (add_args-append [] (compiler ∷ link_options ++ include) words)
            ∙ add_args-append [] (compiler ∷ link_options ++ include ++ words)
                (codes "-o" ∷ outname ∷ objs)))

  arguments_lem :
      (start : List Text) (libs : Option (List Text)) (more : List Text)
      → add_args (add_libs os libs (add_args [] start)) more
        ≡ add_args [] (start ++ given_libs libs ++ more)
  arguments_lem start libs more =
      ap (λ z. add_args z more)
        (add_libs_lem libs (add_args [] start) ∙ add_args-append [] start (given_libs libs))
      ∙ add_args-append [] (start ++ given_libs libs) more

  pub verbose_args_done : (args : ArgList) (s : Machine W) → (verbose_args os args s).0 ≡ done tt
  verbose_args_done args s =
      Stays-back os (verbose_args os args) s (verbose_args-Stays os Never s.objdir args)

  -- If the include path of the precompiled header fits its buffer, and the dependencies can be named
  -- on the command line, then linking makes the folders of the target, prints the command so far
  -- where verbose output is asked for, and runs the compiler with the folder of the header, the
  -- flags, the target, all objects, the libraries and the dependencies, in this order, each
  -- argument once.
  pub do_link-command :
      (projects : List Project) (p : Project) (target ldflags : Text) (libs : Option (List Text))
      (outname : Text) (s : Site W)
      → 2 + length s.build.pchname < 260
      → All (CanLink Never projects) p.depends
      → let m = (mkpath os outname s.machine).1 in
        let include = pch_include os s.build.pchname m.world in
        let start = link_start include ldflags outname s.build.linklist in
        do_link os projects p target ldflags libs outname s
        ≡ run_tool os target
            (add_args []
              (link_command projects p.depends libs include ldflags outname s.build.linklist))
            (os.getcwd m.world)
            (record s { machine = (verbose_args os (add_args [] start) m).1 })
  unfolding do_link
  do_link-command projects p target ldflags libs outname s room can =
      let m = (mkpath os outname s.machine).1 in
      let include = pch_include os s.build.pchname m.world in
      let start = link_start include ldflags outname s.build.linklist in
      rw
        (
          mkpath_done outname s.machine,
          link_args_lem s.build.pchname ldflags outname s.build.linklist m room,
          verbose_args_done (add_args [] start) m,
          depend_args_lem projects p.depends (add_libs os libs (add_args [] start))
              (verbose_args os (add_args [] start) m).1 can,
          arguments_lem start libs (depend_options projects p.depends),
        )
        refl
