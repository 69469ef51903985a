-- ===== src/File/Steady.antt =====
-- What the functions of file.cpp leave, whatever it is that the calls they make leave.
use cake.Prelude.{
  ℕ, zero, suc, ◌≤◌, ◌≡◌, refl, Bool, true, false, Option, none, some, [], ◌∷◌, ◌++◌, if◌then◌else◌,
  arith, length, take, ltb, ◌==◌, drop,
}
use cake.Text.{Text, strchr, c_str}
use cake.System.{Os, Machine, M, Stat, Stop, pure, gets, look, system, change, ◌>>◌}
use cake.System.Ends.{Ends, Ends-gets, Ends-pure, Ends-if, Ends-bind, Ends-weaken}
use cake.Utility.Print.{printerr, line, red}
use cake.File.{
  exists, is_dir, path, makedir, mkpath_loop, mkpath, in_the_way, is_changed, compare_times,
  note_time, no_access, is_older, read_open, read_file,
}
use cake.File.Path.{path_of, basename_at}

length-take : (n : ℕ) (t : Text) → length (take n t) ≤ length t
length-take zero t = omega arith
length-take (suc n) [] = omega arith
length-take (suc n) (c ∷ t) = omega (arith, length-take n t)

length-path_of : (p : Text) → length (path_of p) ≤ length p
unfolding path_of
length-path_of p = go (basename_at p == 0)
  where
    go : (b : Bool) → length (if b then p else take (basename_at p) p) ≤ length p
    go true = omega arith
    go false = length-take (basename_at p) p

-- What is left by making folders.
abbrev pub Makes : {W : Type 0} → Os W → (Machine W → Type 0) → Type 0
Makes {W} os P = (t : Text) (s : Machine W) → P s → P (record s { world = (os.mkdir t s.world).1 })

-- What is left by the calls that look at files, read them, complain, and note the time of a file.
pub record IsSteady {W : Type 0} (os : Os W) (P : Machine W → Type 0) : Type 0 where
  pub fopen : (t : Text) (s : Machine W) → P s → P (record s { world = (os.fopen t s.world).1 })
  pub fread : (h n : ℕ) (s : Machine W) → P s → P (record s { world = (os.fread h n s.world).1 })
  pub fclose : (h : ℕ) (s : Machine W) → P s → P (record s { world = os.fclose h s.world })
  pub complain : (t : Text) (s : Machine W) → P s → P (record s { world = os.print_err t s.world })
  pub newest :
      (t : Text) (f : Stat) (s : Machine W)
      → os.stat t s.world ≡ some f
      → P s
      → P (record s { newest_time = f.mtime })

module _ {W : Type 0} (os : Os W) (E : Stop → Type 0) (P : Machine W → Type 0)
    (steady : IsSteady os P) where
  abbrev pub Preserves : {A : Type 0} → M W A → Type 0
  Preserves m = Ends E P m (λ _. P)

  module _ {A : Type 0} where
    Preserves-pure : (a : A) → Preserves (pure a)
    Preserves-pure a = Ends-pure a (λ s p. p)

    Preserves-gets : (g : Machine W → A) → Preserves (gets g)
    Preserves-gets g = Ends-gets g (λ s p. p)

    Preserves-look : (f : W → A) → Preserves (look f)
    Preserves-look f = record { at = λ s p. p }

  pub printerr-Preserves : (msg : Text) → Preserves (printerr os msg)
  unfolding printerr
  printerr-Preserves msg = Ends-bind (gets (λ s. s.silent_flag)) (Preserves-gets _) λ silent.
      Ends-bind (gets (λ s. s.print_colors)) (Preserves-gets _) λ colors.
        Ends-if silent (λ _. Preserves-pure tt)
          (λ _. record { at = λ s p. steady.complain (line colors red msg) s p })

  pub exists-Preserves : (f : Text) → Preserves (exists os f)
  unfolding exists
  exists-Preserves f = Ends-bind (look (os.stat f)) (Preserves-look _) go
    where
      go : (o : Option Stat) → Preserves (elim o [ none ↦ pure false | some _ ↦ pure true ])
      go none = Preserves-pure false
      go (some st) = Preserves-pure true

  pub is_dir-Preserves : (f : Text) → Preserves (is_dir os f)
  unfolding is_dir
  is_dir-Preserves f = Ends-bind (look (os.stat f)) (Preserves-look _) go
    where
      go :
          (o : Option Stat)
          → Preserves (elim o [ none ↦ pure false | some st ↦ pure st.is_directory ])
      go none = Preserves-pure false
      go (some st) = Preserves-pure st.is_directory

  pub path-Preserves : (p : Text) → Ends E P (path os p) (λ a s. P s × (length a ≤ length p))
  unfolding path
  path-Preserves p = Ends-bind (is_dir os p) (is_dir-Preserves p) λ dir.
      Ends-if dir (λ _. Ends-pure p (λ s q. (q, omega arith)))
        (λ _. Ends-pure (path_of p) (λ s q. (q, length-path_of p)))

  mkpath_loop-Preserves :
      (makes : Makes os P) (fuel : ℕ) (before at : Text) → Preserves (mkpath_loop os fuel before at)
  unfolding mkpath_loop makedir
  mkpath_loop-Preserves makes zero before at = Preserves-pure tt
  mkpath_loop-Preserves makes (suc fuel) before [] = Preserves-pure tt
  mkpath_loop-Preserves makes (suc fuel) before (c ∷ cs) =
      go (strchr b'/' (c ∷ cs)) (λ n. mkpath_loop-Preserves makes fuel _ _)
    where
      go :
          (o : Option ℕ)
          → ((n : ℕ)
              → Preserves
                  (mkpath_loop os fuel (before ++ take (suc n) (c ∷ cs)) (drop (suc n) (c ∷ cs))))
          → Preserves (elim o [
            | none ↦ (makedir os (c ∷ cs) >> pure tt)
            | some n ↦
                (makedir os (before ++ take n (c ∷ cs))
                  >> mkpath_loop os fuel (before ++ take (suc n) (c ∷ cs)) (drop (suc n) (c ∷ cs)))
          ])
      go none rest =
          Ends-bind (makedir os (c ∷ cs)) (record { at = λ s p. makes (c ∷ cs) s p })
            λ _. Preserves-pure tt
      go (some n) rest =
          Ends-bind (makedir os (before ++ take n (c ∷ cs)))
            (record { at = λ s p. makes (before ++ take n (c ∷ cs)) s p }) λ _. rest n

  pub mkpath-Preserves : (makes : Makes os P) (f : Text) → Preserves (mkpath os f)
  unfolding mkpath
  mkpath-Preserves makes f = Ends-bind (path os f) (path-Preserves f) λ xpath.
      Ends-weaken (λ s p. p.0) (λ a s p. p)
        (Ends-bind (exists os xpath) (exists-Preserves xpath) λ there.
          Ends-bind (is_dir os xpath) (is_dir-Preserves xpath) λ folder.
            Ends-if there
              (λ _.
                Ends-if folder (λ _. Preserves-pure tt) (λ _. printerr-Preserves (in_the_way f)))
              (λ _. mkpath_loop-Preserves makes (suc (length xpath)) [] xpath))

  compare_times-Preserves :
      (name : Text) (f c : Stat)
      → Ends E (λ s. P s × (os.stat name s.world ≡ some f)) (compare_times os f c) (λ _. P)
  unfolding compare_times note_time
  compare_times-Preserves name f c =
      Ends-bind {R = λ _ s. P s × (os.stat name s.world ≡ some f)} (gets (λ s. s.makefile_time))
        (Ends-gets _ (λ s p. p))
        λ limit.
          Ends-if (ltb c.mtime limit) (λ _. Ends-pure true (λ s p. p.0))
            (λ _.
              Ends-bind {R = λ _. P} (note_time f.mtime)
                (record { at = λ s (p, e). noted s p e (ltb s.newest_time f.mtime) })
                λ _. Preserves-pure (ltb c.mtime f.mtime))
    where
      noted :
          (s : Machine W)
          → P s
          → os.stat name s.world ≡ some f
          → (b : Bool) → P (if b then record s { newest_time = f.mtime } else s)
      noted s p e true = steady.newest name f s e p
      noted s p e false = p

  complain-Preserves : (msg : Text) (b : Bool) → Preserves (printerr os msg >> pure b)
  complain-Preserves msg b =
      Ends-bind (printerr os msg) (printerr-Preserves msg) λ _. Preserves-pure b

  pub is_changed-Preserves : (f c : Text) → Preserves (is_changed os f c)
  unfolding is_changed
  is_changed-Preserves f c =
      Ends-bind {R = λ o s. P s × (os.stat f s.world ≡ o)} (look (os.stat f))
        (record { at = λ s p. (p, refl) })
        λ fstat.
          Ends-bind {R = λ _ s. P s × (os.stat f s.world ≡ fstat)} (look (os.stat c))
            (record { at = λ s p. p }) λ cstat. go fstat cstat
    where
      go :
          (fs cs : Option Stat)
          → Ends E
              (λ s. P s × (os.stat f s.world ≡ fs))
              (elim fs [
                | none ↦ (printerr os (no_access f) >> pure true)
                | some f' ↦ elim cs [
                  | none ↦ (printerr os (no_access c) >> pure true)
                  | some c' ↦ compare_times os f' c'
                ]
              ])
              (λ _. P)
      go none cs = Ends-weaken (λ s p. p.0) (λ a s p. p) (complain-Preserves (no_access f) true)
      go (some f') none =
          Ends-weaken (λ s p. p.0) (λ a s p. p) (complain-Preserves (no_access c) true)
      go (some f') (some c') = compare_times-Preserves f f' c'

  pub is_older-Preserves : (f : Text) → Preserves (is_older os f)
  unfolding is_older
  is_older-Preserves f = Ends-bind (look (os.stat f)) (Preserves-look _) λ fstat.
      Ends-bind (gets (λ s. s.makefile_time)) (Preserves-gets _) λ limit.
        Ends-bind (gets (λ s. s.newest_time)) (Preserves-gets _) λ newest. go fstat limit newest
    where
      go :
          (fs : Option Stat) (limit newest : ℕ)
          → Preserves (elim fs [
            | none ↦ (printerr os (no_access f) >> pure true)
            | some f' ↦ if ltb f'.mtime limit then pure true else pure (ltb f'.mtime newest)
          ])
      go none limit newest = complain-Preserves (no_access f) true
      go (some f') limit newest =
          Ends-if (ltb f'.mtime limit) (λ _. Preserves-pure true)
            (λ _. Preserves-pure (ltb f'.mtime newest))

  read_open-Preserves : (h : ℕ) → Preserves (read_open os h)
  unfolding read_open
  read_open-Preserves h = Ends-bind (look (os.file_size h)) (Preserves-look _) λ size.
      Ends-if (ltb 0 size)
        (λ _.
          Ends-bind (system (os.fread h size)) (record { at = λ s p. steady.fread h size s p })
            λ contents. Preserves-pure (some (c_str contents)))
        (λ _.
          Ends-bind (change (os.fclose h)) (record { at = λ s p. steady.fclose h s p })
            λ _. Preserves-pure none)

  pub read_file-Preserves : (f : Text) → Preserves (read_file os f)
  unfolding read_file
  read_file-Preserves f =
      Ends-bind (system (os.fopen f)) (record { at = λ s p. steady.fopen f s p }) go
    where
      go :
          (o : Option ℕ)
          → Preserves {A = Option Text} (elim o [ none ↦ pure none | some h ↦ read_open os h ])
      go none = Preserves-pure none
      go (some h) = read_open-Preserves h
