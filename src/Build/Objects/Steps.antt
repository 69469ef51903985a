-- ===== src/Build/Objects/Steps.antt =====
-- What the steps of a compilation that only the machine takes leave: the object folder stays, and
-- they end by themselves, if the names fit their buffers.
use cake.Prelude.{
  ◌+◌, ◌<◌, ◌≤◌, ◌≡◌, refl, sym, subst, ◌⊎◌, inl, inr, Bool, true, false, [], ◌∷◌, ◌++◌,
  if◌then◌else◌, arith, length, length-append,
}
use cake.Text.{Text, codes}
use cake.ArgList.{ArgList, add_arg, add_args}
use cake.Config.{compiler, compile_options}
use cake.Utility.{endswith1of}
use cake.Utility.Print.{blue}
use cake.System.{Os, Machine, M, Stop, pure, gets, change, ◌>>=◌, each, fits, overrun}
use cake.System.Ends.{Ends, Ended, Ends-pure, Ends-if, Ends-bind, Ends-fits, Ends-known, Fits}
use cake.File.{path}
use cake.Build.Names.{
  with_extension, objname_of, depname_of, mkobjname, mkdepname, mkpchname, header_endings,
}
use cake.Build.Names.Laws.{length-with_extension}
use cake.Build.Rebuild.{needs_rebuild}
use cake.Build.Compile.{add_pch, print_args, compile_args, announce}
use cake.Build.Objects.Machine.{
  Stays, Stays-pure, Stays-gets, Stays-change, Stays-each, Stays-fits, cprintf-Stays,
}
use cake.Build.Rebuild.Steady.{needs_rebuild-Preserves}
use cake.Build.Objects.Files.{InFolder, folder-IsSteady, path-Stays}

-- Each name that is made of `d` and `f` fits a buffer of 260 bytes, also behind `-I`.
abbrev pub ShortName : (Stop → Type 0) → Text → Text → Type 0
ShortName E d f = (length d + length f + 6 < 260) ⊎ E overrun

pub Fits-short :
    (E : Stop → Type 0) (d f t : Text)
    → length t ≤ length d + length f + 6
    → ShortName E d f
    → Fits E 260 t
Fits-short E d f t h (inl short) = inl (omega arith)
Fits-short E d f t h (inr over) = inr over

length-depname_of : (d f : Text) → length (depname_of d f) ≤ length d + length f + 2
unfolding depname_of
length-depname_of d f = go (endswith1of (d ++ f) header_endings)
  where
    go :
        (b : Bool)
        → length (if b then d ++ f ++ codes ".d" else with_extension b'd' (d ++ f))
          ≤ length d + length f + 2
    go true = omega (arith, length-append (d ++ f) (codes ".d"), length-append d f)
    go false = omega (arith, length-with_extension b'd' (d ++ f), length-append d f)

module _ {W : Type 0} (os : Os W) (E : Stop → Type 0) (d : Text) where
  -- The folder is read.
  reading-folder :
      {A : Type 0} {Q : A → Machine W → Type 0} (f : Text → M W A)
      → Ends E (λ s. s.objdir ≡ d) (f d) Q
      → Ends E (λ s. s.objdir ≡ d) (gets (λ s. s.objdir) >>= f) Q
  reading-folder {A} {Q} f h = record {
    at = λ s p. subst (λ o. Ended E Q (f o s).0 (f o s).1) (sym p) (h.at s p);
  }

  pub mkobjname-ends :
      (f : Text)
      → ShortName E d f
      → Ends E
          (λ s. s.objdir ≡ d)
          (mkobjname {W = W} f)
          (λ a s. (s.objdir ≡ d) × (a ≡ objname_of d f))
  unfolding mkobjname
  mkobjname-ends f short =
      reading-folder (λ o. fits 260 (o ++ f) >>= λ _. pure (objname_of o f))
        (Ends-bind (fits 260 (d ++ f))
          (Stays-fits os E d 260 (d ++ f)
            (Fits-short E d f (d ++ f) (omega (arith, length-append d f)) short))
          λ _. Ends-pure (objname_of d f) (λ s p. (p, refl)))

  pub mkdepname-Stays : (f : Text) → ShortName E d f → Stays os E d (mkdepname f)
  unfolding mkdepname
  mkdepname-Stays f short =
      reading-folder (λ o. fits 260 (o ++ f) >>= λ _. fits 260 (depname_of o f))
        (Ends-bind (fits 260 (d ++ f))
          (Stays-fits os E d 260 (d ++ f)
            (Fits-short E d f (d ++ f) (omega (arith, length-append d f)) short))
          λ _.
            Stays-fits os E d 260 (depname_of d f)
              (Fits-short E d f (depname_of d f) (omega (arith, length-depname_of d f)) short))

  pub mkpchname-ends :
      (f : Text)
      → ShortName E d f
      → Ends E
          (λ s. s.objdir ≡ d)
          (mkpchname {W = W} f)
          (λ a s. (s.objdir ≡ d) × (a ≡ d ++ f ++ codes ".gch"))
  unfolding mkpchname
  mkpchname-ends f short =
      reading-folder (λ o. fits 260 (o ++ f ++ codes ".gch"))
        (Ends-fits 260 (d ++ f ++ codes ".gch") (
          Fits-short E d f (d ++ f ++ codes ".gch")
            (omega (arith, length-append (d ++ f) (codes ".gch"), length-append d f)) short))

  pub needs_rebuild-Stays :
      (f objname : Text) → ShortName E d f → Stays os E d (needs_rebuild os f objname)
  needs_rebuild-Stays f objname short =
      needs_rebuild-Preserves os E (InFolder os E d) (folder-IsSteady os E d) f objname
        (mkdepname-Stays f short)

  pub print_args-Stays : (args : ArgList) → Stays os E d (print_args os args)
  unfolding print_args
  print_args-Stays args =
      Ends-bind (each (λ arg. change (os.print_out (arg ++ codes " "))) args)
        (Stays-each os E d (λ arg. change (os.print_out (arg ++ codes " ")))
          (λ arg. Stays-change os E d (os.print_out (arg ++ codes " "))) args)
        λ _. Stays-change os E d (os.print_out (10 ∷ []))

  pub announce-Stays : (f : Text) (args : ArgList) → Stays os E d (announce os f args)
  unfolding announce
  announce-Stays f args =
      Ends-bind (gets (λ s. s.verbose_flag)) (Stays-gets os E d (λ s. s.verbose_flag))
        λ verbose. Ends-if verbose (λ _. print_args-Stays args) (λ _. cprintf-Stays os E d blue f)

  -- `-I` and the folder of the precompiled header fit, if they do with the header's whole name.
  pub add_pch-Stays :
      (pchname : Text) (args : ArgList)
      → (2 + length pchname < 260) ⊎ E overrun
      → Stays os E d (add_pch os pchname args)
  unfolding add_pch
  add_pch-Stays [] args room = Stays-pure os E d args
  add_pch-Stays (c ∷ cs) args room =
      Ends-bind (path os (c ∷ cs)) (path-Stays os E d (c ∷ cs)) λ folder. Ends-known λ short.
        Ends-bind (fits 260 (codes "-I" ++ folder))
          (Stays-fits os E d 260 (codes "-I" ++ folder) (fit folder short room))
          λ ipch. Stays-pure os E d (add_arg args ipch)
    where
      fit :
          (folder : Text)
          → length folder ≤ length (c ∷ cs)
          → (2 + length (c ∷ cs) < 260) ⊎ E overrun
          → Fits E 260 (codes "-I" ++ folder)
      fit folder h (inl r) = inl (omega arith)
      fit folder h (inr o) = inr o

  pub compile_args-Stays :
      (pchname f cflags objname : Text)
      → (2 + length pchname < 260) ⊎ E overrun
      → Stays os E d (compile_args os pchname f cflags objname)
  unfolding compile_args
  compile_args-Stays pchname f cflags objname room =
      Ends-bind (gets (λ s. s.target)) (Stays-gets os E d (λ s. s.target)) λ target.
        Ends-bind (add_pch os pchname (add_args [] (compiler ∷ compile_options)))
          (add_pch-Stays pchname (add_args [] (compiler ∷ compile_options)) room)
          λ args. Stays-pure os E d _
