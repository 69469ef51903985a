-- ===== src/Project/Scripts/Kept.antt =====
-- What the functions that a script calls do to the list of projects.
use cake.Prelude.{
  ℕ, zero, suc, ◌≡◌, refl, ◌⊎◌, Bool, true, false, not, Option, none, some, List, [], ◌∷◌, ◌++◌,
  if◌then◌else◌, ◌==◌, ltb, get_elem?, set, length,
}
use cake.Text.{Text, codes}
use cake.System.{
  raised, crashed, starved, ◌>>=◌, change, look, system, each, Outcome, done, stopped, resume,
}
use cake.Project.{Project, Handle, Kind, program, static_library}
use cake.Lua.{Lua, Index, bottom, top, Call}
use cake.Project.Scripts.{
  Shop, has_name, new_project, update, put_string, raise, getproject, put_strings, add_strings,
  write_kth, push_project, set_output_suffix, depend, make_table, create_named, create, register,
}
use cake.Project.Scripts.Grown.{IsGrown, IsGrown-suffix, IsGrown-depends}
use cake.Project.Scripts.Always.{
  Always, Always-pure, Always-stop, Always-if, Always-first, Always-after,
}

-- The kinds that a script can ask for.
abbrev pub CanCreate : Kind → Type 0
CanCreate kind = (kind ≡ program) ⊎ (kind ≡ static_library)

-- A property of the projects that stays when a project is written to, and when one is added behind
-- them.
pub record IsKept (P : List Project → Type 0) : Type 0 where
  pub replaced :
      (ps : List Project) (k : ℕ) (p q : Project)
      → get_elem? ps k ≡ some p
      → IsGrown p q
      → P ps
      → P (set ps k q)
  pub added :
      (ps : List Project) (kind : Kind) (name : Text) (key : Handle)
      → CanCreate kind
      → has_name ps name ≡ false
      → P ps
      → P (ps ++ new_project kind name key ∷ [])

module _ {W : Type 0} {P : List Project → Type 0} (kept : IsKept P) where
  write_kth-keeps :
      (k : ℕ) (f : Project → Project) (o : Option Project) (s : Shop W)
      → ((q : Project) → IsGrown q (f q))
      → get_elem? s.projects k ≡ o
      → P s.projects
      → P (write_kth k f o s).1.projects
  unfolding write_kth
  write_kth-keeps k f none s e g d = d
  write_kth-keeps k f (some q) s e g d = kept.replaced s.projects k q (f q) g (e q) d

  update-Always :
      (p : Option ℕ) (f : Project → Project)
      → ((q : Project) → IsGrown q (f q))
      → Always {W = W} P (update p f)
  unfolding update
  update-Always none f e = Always-stop crashed
  update-Always (some k) f e = record {
    at = λ s d. write_kth-keeps k f (get_elem? s.projects k) s e refl d;
  }

  put_string-Always :
      (put : Text → Project → Project) (p : Option ℕ) (t : Option Text)
      → ((u : Text) (q : Project) → IsGrown q (put u q))
      → Always {W = W} P (put_string put p t)
  unfolding put_string
  put_string-Always put p none e = Always-stop crashed
  put_string-Always put p (some u) e = update-Always p (put u) (e u)

module _ {W : Type 0} (lua : Lua W) {P : List Project → Type 0} (kept : IsKept P) where
  pub raise-Always : {A : Type 0} (msg : Text) → Always {A = A} P (raise lua msg)
  unfolding raise
  raise-Always msg = Always-after (change (lua.error msg)) λ _. Always-stop raised

  getproject-Always : (i : Index) → Always P (getproject lua i)
  unfolding getproject
  getproject-Always i = Always-after (change (lua.pushstring (codes "__project"))) λ _.
      Always-after (system (lua.gettable i)) λ ok. Always-if (not ok) (Always-stop raised) (
        Always-after (look (lua.touserdata (top 1)))
          λ p. Always-after (change (lua.pop 1)) λ _. Always-pure p)

  put_strings-Always :
      (put : Text → Project → Project) (e : (u : Text) (q : Project) → IsGrown q (put u q))
      (fuel : ℕ) (p : Option ℕ) (i : ℕ)
      → Always P (put_strings lua fuel put p i)
  unfolding put_strings
  put_strings-Always put e zero p i = Always-stop starved
  put_strings-Always put e (suc fuel) p i = Always-after (look lua.gettop) λ last.
      Always-if (ltb last i) (Always-pure tt) (
        Always-after (system (lua.tostring (bottom i))) λ curr.
          Always-first (put_string put p curr) _ (put_string-Always kept put p curr e)
            λ _. put_strings-Always put e fuel p (suc i))

  pub add_strings-Always :
      (put : Text → Project → Project)
      → ((u : Text) (q : Project) → IsGrown q (put u q))
      → Always P (add_strings lua put)
  unfolding add_strings
  add_strings-Always put e =
      Always-first (getproject lua (bottom 1)) _ (getproject-Always (bottom 1)) λ p.
        Always-after (look lua.gettop) λ last.
          Always-first (put_strings lua (suc last) put p 2) _
            (put_strings-Always put e (suc last) p 2) λ _. Always-pure 0

  pub set_output_suffix-Always : Always P (set_output_suffix lua)
  unfolding set_output_suffix
  set_output_suffix-Always =
      Always-first (getproject lua (bottom 1)) _ (getproject-Always (bottom 1)) λ p.
        Always-after (system (lua.tostring (bottom 2))) λ suffix.
          Always-first (put_string (λ t q. record q { output_suffix = t }) p suffix) _
            (put_string-Always kept (λ t q. record q { output_suffix = t }) p suffix
              (λ t q. IsGrown-suffix q t))
            λ _. Always-pure 0

  pub depend-Always : Always P (depend lua)
  unfolding depend
  depend-Always = Always-after (look lua.gettop) λ last.
      Always-if (not (last == 2)) (raise-Always (codes "expected a parameter to depend()")) (
        Always-first (getproject lua (bottom 1)) _ (getproject-Always (bottom 1)) λ p.
          Always-first (getproject lua (bottom 2)) _ (getproject-Always (bottom 2)) λ dep.
            Always-first (update p (λ q. record q { depends = q.depends ++ dep ∷ [] })) _
              (update-Always kept p (λ q. record q { depends = q.depends ++ dep ∷ [] })
                (λ q. IsGrown-depends q (dep ∷ [])))
              λ _. Always-pure 0)

  make_table-Always :
      {R : List Project → Type 0} (functions : List (Text × Call)) (k : ℕ)
      → Always R (make_table lua functions k)
  unfolding make_table
  make_table-Always functions k = Always-after (change lua.newtable) λ _.
      Always-after (each (register lua) functions) λ _.
        Always-after (change (lua.pushstring (codes "__project"))) λ _.
          Always-after (change (lua.pushlightuserdata k)) λ _.
            Always-after (change (lua.settable (top 3))) λ _.
              Always-after (look (lua.istable (bottom 2))) λ table.
                Always-if (not table) (Always-stop raised) (
                  Always-after (change (lua.pushvalue (bottom 2))) λ _.
                    Always-after (system lua.ref) λ key.
                      Always-after (look lua.running)
                        λ state. Always-pure (record { state = state; key = key }))

  pushed :
      (kind : Kind) (name : Text) (o : Outcome Handle) (s : Shop W)
      → CanCreate kind
      → P s.projects × (has_name s.projects name ≡ false)
      → P (resume o (push_project kind name) s).1.projects
  unfolding push_project
  pushed kind name (done key) s can (d, n) = kept.added s.projects kind name key can n d
  pushed kind name (stopped e) s can (d, n) = d

  create_named-Always :
      (kind : Kind) (functions : List (Text × Call)) (name : Option Text)
      → CanCreate kind
      → Always P (create_named lua kind functions name)
  unfolding create_named raise
  create_named-Always kind functions none can = Always-stop crashed
  create_named-Always kind functions (some name) can = record {
    at = λ s d. go s (has_name s.projects name) refl d;
  }
    where
      go :
          (s : Shop W) (b : Bool)
          → has_name s.projects name ≡ b
          → P s.projects
          → P
              ((if b
                  then raise lua (codes "project '" ++ name ++ codes "' already exists")
                  else (make_table lua functions (length s.projects) >>= push_project kind name))
                s).1.projects
      go s true e d = d
      go s false e d = pushed kind name (make_table lua functions (length s.projects) s).0 _ can (
          (make_table-Always {R = λ ps. P ps × (has_name ps name ≡ false)} functions
              (length s.projects)).at
            s (d, e))

  pub create-Always :
      (what : Text) (kind : Kind) (functions : List (Text × Call))
      → CanCreate kind
      → Always P (create lua what kind functions)
  unfolding create
  create-Always what kind functions can = Always-after (look lua.gettop) λ last.
      Always-if (not (last == 1))
        (raise-Always
          (codes "Wrong number of parameters to " ++ what ++ codes "(). Expected string (name)"))
        (Always-after (look (lua.isstring (bottom 1))) λ string.
          Always-if (not string) (raise-Always (codes "Expected string (name)")) (
            Always-after (system (lua.tostring (bottom 1)))
              λ name. create_named-Always kind functions name can))
