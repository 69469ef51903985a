-- ===== src/Build/Rest.antt =====
-- A machine on which there is nothing to do, and what the steps of a build leave of it.
pub mod Sites
pub mod Link
use cake.Prelude.{
  ℕ, ◌+◌, ◌≤◌, ◌<◌, ◌≡◌, refl, sym, ap, subst, inl, inr, Bool, true, false, Option, none, some,
  arith, length, ltb, lt→ltb, length-append, ◌++◌,
}
use cake.Text.{Text, codes}
use cake.System.{Os, Stat, Machine, Outcome, M, done, stopped}
use cake.System.Ends.{Ends, Ended, Never}
use cake.File.{path, is_dir, mkpath, exists, is_older}
use cake.File.Steady.{IsSteady, exists-Preserves}
use cake.Build.Names.{mkobjname, mkdepname, mkpchname, objname_of}
use cake.Build.Names.Laws.{mkobjname_lem, mkdepname-reads}
use cake.Build.Compile.Arguments.{folder_of, path_lem}
use cake.Build.Rebuild.{needs_rebuild}
use cake.Build.Rebuild.Fresh.{IsUpToDate, IsUpToDate-needs_rebuild}
use cake.Build.Rebuild.Steady.{needs_rebuild-Preserves}
use cake.Build.Objects.Steps.{ShortName, mkdepname-Stays}

-- What reading files and complaining leaves of the world; and no file or folder is younger than
-- `newest`.
pub record IsCalm {W : Type 0} (os : Os W) (I : W → Type 0) (newest : ℕ) : Type 0 where
  pub fopen : (t : Text) (w : W) → I w → I (os.fopen t w).1
  pub fread : (h n : ℕ) (w : W) → I w → I (os.fread h n w).1
  pub fclose : (h : ℕ) (w : W) → I w → I (os.fclose h w)
  pub complain : (t : Text) (w : W) → I w → I (os.print_err t w)
  pub none_younger : (t : Text) (f : Stat) (w : W) → I w → os.stat t w ≡ some f → f.mtime ≤ newest

-- No rebuild is forced, and neither the makefile nor a file that was noted is younger than they are
-- said to be.
pub record AtRest {W : Type 0} (I : W → Type 0) (d : Text) (made newest : ℕ) (s : Machine W)
    : Type 0 where
  pub folder : s.objdir ≡ d
  pub free : s.rebuild_flag ≡ false
  pub makefile : s.makefile_time ≡ made
  pub noted : s.newest_time ≤ newest
  pub world : I s.world

not_below : (a b : ℕ) → b ≤ a → ltb a b ≡ false
not_below a b h = ground arith

-- A result that is known, and a state at rest.
pub with_result :
    {S A : Type 0} {P : S → Type 0} (m : S → Outcome A × S) (a : A)
    → Ends Never P m (λ _. P)
    → ((s : S) → P s → (m s).0 ≡ done a)
    → Ends Never P m (λ b s. P s × (b ≡ a))
with_result {S} {A} {P} m a h e = record { at = λ s p. go (m s).0 (m s).1 (h.at s p) (e s p) }
  where
    go :
        (o : Outcome A) (t : S)
        → Ended Never (λ _. P) o t
        → o ≡ done a
        → Ended Never (λ b s. P s × (b ≡ a)) o t
    go (done b) t p e = (p, cc)
    go (stopped c) t p e = p

found_name :
    {W : Type 0} (os : Os W) (s : Machine W) (name : Text) (st : Stat)
    → os.stat name s.world ≡ some st
    → exists os name s ≡ (done true, s)
unfolding exists
found_name os s name st found = rw found refl

found_dir :
    {W : Type 0} (os : Os W) (s : Machine W) (name : Text) (st : Stat)
    → os.stat name s.world ≡ some st
    → st.is_directory ≡ true
    → is_dir os name s ≡ (done true, s)
unfolding is_dir
found_dir os s name st found dir = rw (found, dir) refl

module _ {W : Type 0} (os : Os W) (I : W → Type 0) (d : Text) (made newest : ℕ)
    (calm : IsCalm os I newest) where
  abbrev pub Rest : Machine W → Type 0
  Rest = AtRest I d made newest

  in_world : (s : Machine W) (w : W) → Rest s → I w → Rest (record s { world = w })
  in_world s w p i = record {
    folder = p.folder;
    free = p.free;
    makefile = p.makefile;
    noted = p.noted;
    world = i;
  }

  pub rest-IsSteady : IsSteady os Rest
  rest-IsSteady = record {
    fopen = λ t s p. in_world s _ p (calm.fopen t s.world p.world);
    fread = λ h n s p. in_world s _ p (calm.fread h n s.world p.world);
    fclose = λ h s p. in_world s _ p (calm.fclose h s.world p.world);
    complain = λ t s p. in_world s _ p (calm.complain t s.world p.world);
    newest = λ t f s e p. record {
      folder = p.folder;
      free = p.free;
      makefile = p.makefile;
      noted = calm.none_younger t f s.world p.world e;
      world = p.world;
    };
  }

  -- The folder of a file is there.
  abbrev pub HasFolder : Text → Type 0
  HasFolder name =
      (w : W)
      → I w
      → (st : Stat) × (os.stat (folder_of os name w) w ≡ some st) × (st.is_directory ≡ true)

  pub mkpath-Rest : (name : Text) → HasFolder name → Ends Never Rest (mkpath os name) (λ _. Rest)
  unfolding mkpath
  mkpath-Rest name folder = record {
    at = λ s p.
        settled s (folder_of os name s.world) p (path_lem os name s) (folder s.world p.world);
  }
    where
      settled :
          (s : Machine W) (there : Text)
          → Rest s
          → path os name s ≡ (done there, s)
          → ((st : Stat) × (os.stat there s.world ≡ some st) × (st.is_directory ≡ true))
          → Ended Never (λ _. Rest) (mkpath os name s).0 (mkpath os name s).1
      settled s there p e (st, found, dir) =
          rw (e, found_name os s there st found, found_dir os s there st found dir) p

  -- The object of a file is up to date, in a folder that is there, and both stay so.
  abbrev pub Current : Text → Text → Type 0
  Current f objname = ((s : Machine W) → Rest s → IsUpToDate os s f objname) × HasFolder objname

  abbrev pub There : Text → Type 0
  There name = (w : W) → I w → (st : Stat) × (os.stat name w ≡ some st)

  pub mkobjname-Rest :
      (f : Text)
      → ShortName Never d f
      → Ends Never Rest (mkobjname f) (λ a s. Rest s × (a ≡ objname_of d f))
  mkobjname-Rest f (inr e) = absurd e
  mkobjname-Rest f (inl short) = record {
    at = λ s p.
        rw
          (
            (mkobjname_lem f s).0,
            lt→ltb (length s.objdir + length f) 260 (omega (arith, ap length p.folder)),
          )
          (p, ap (λ o. objname_of o f) p.folder);
  }

  pub mkpchname-Rest :
      (f : Text)
      → ShortName Never d f
      → Ends Never Rest (mkpchname f) (λ a s. Rest s × (a ≡ d ++ f ++ codes ".gch"))
  unfolding mkpchname
  mkpchname-Rest f (inr e) = absurd e
  mkpchname-Rest f (inl short) = record {
    at = λ s p.
        rw
          (lt→ltb (length (s.objdir ++ f ++ codes ".gch")) 260 (
            omega (
              arith,
              ap length p.folder,
              length-append (s.objdir ++ f) (codes ".gch"),
              length-append s.objdir f,
            )))
          (p, ap (λ o. o ++ f ++ codes ".gch") p.folder);
  }

  pub mkdepname-Rest : (f : Text) → ShortName Never d f → Ends Never Rest (mkdepname f) (λ _. Rest)
  mkdepname-Rest f short = record {
    at = λ s p.
        go s (mkdepname f s).0 (mkdepname f s).1 p (mkdepname-reads f s)
          ((mkdepname-Stays os Never d f short).at s p.folder);
  }
    where
      go :
          (s : Machine W) (o : Outcome Text) (t : Machine W)
          → Rest s
          → t ≡ s
          → Ended Never (λ _ t. t.objdir ≡ d) o t
          → Ended Never (λ _. Rest) o t
      go s (done a) t p e h = subst Rest (sym e) p
      go s (stopped c) t p e h = h

  pub needs_rebuild-Rest :
      (f objname : Text)
      → ShortName Never d f
      → Current f objname
      → Ends Never Rest (needs_rebuild os f objname) (λ a s. Rest s × (a ≡ false))
  needs_rebuild-Rest f objname short current =
      with_result (needs_rebuild os f objname) false
        (needs_rebuild-Preserves os Never Rest rest-IsSteady f objname (mkdepname-Rest f short))
        (λ s p. IsUpToDate-needs_rebuild os f objname s p.free (current.0 s p))

  pub exists-Rest :
      (name : Text) → There name → Ends Never Rest (exists os name) (λ a s. Rest s × (a ≡ true))
  unfolding exists
  exists-Rest name there =
      with_result (exists os name) true (exists-Preserves os Never Rest rest-IsSteady name)
        (λ s p. rw (there s.world p.world).1 refl)

  pub is_older-Rest :
      (name : Text) (t : Stat)
      → ((w : W) → I w → os.stat name w ≡ some t)
      → made ≤ t.mtime
      → newest ≤ t.mtime
      → Ends Never Rest (is_older os name) (λ a s. Rest s × (a ≡ false))
  unfolding is_older
  is_older-Rest name t at after_makefile youngest = record {
    at = λ s p.
        rw
          (
            at s.world p.world,
            not_below t.mtime s.makefile_time (omega (arith, p.makefile)),
            not_below t.mtime s.newest_time (omega (arith, p.noted)),
          )
          (p, refl);
  }
