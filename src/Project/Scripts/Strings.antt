-- ===== src/Project/Scripts/Strings.antt =====
-- The functions that take any number of strings.
use cake.Prelude.{
  ℕ, zero, suc, ◌+◌, ◌≡◌, ◌<◌, refl, false, some, List, [], ◌∷◌, ◌++◌, foldl, arith, get_elem?, set,
  ltb, lt→ltb, ltb→lt, ap, sym, ◌∙◌, append-nil, append_assoc, length,
}
use cake.Text.{Text}
use cake.System.{Machine, done}
use cake.Lua.{Lua, bottom}
use cake.Project.{Project}
use cake.Project.Scripts.{
  Shop, put_string, put_strings, update, write_kth, getproject, add_files, add_strings,
}

some-injective : {A : Type 0} {a b : A} → some a ≡ some b → a ≡ b
some-injective e = cc

-- The strings `ts` stand on the stack from the place `i` on, as `tostring` finds them one by one, and
-- the stack keeps its size; `v` is the world after that.
pub data Reads {W : Type 0} (lua : Lua W) (last : ℕ) : ℕ → List Text → W → W → Type 0 where
  over : {w : W} → lua.gettop w ≡ last → Reads lua last (suc last) [] w w
  next :
      {i : ℕ} {t : Text} {ts : List Text} {w v : W}
      → lua.gettop w ≡ last
      → i < suc last
      → (lua.tostring (bottom i) w).0 ≡ some t
      → Reads lua last (suc i) ts (lua.tostring (bottom i) w).1 v
      → Reads lua last i (t ∷ ts) w v

get-set :
    (ps : List Project) (j : ℕ) (p q : Project)
    → get_elem? ps j ≡ some p
    → get_elem? (set ps j q) j ≡ some q
get-set [] j p q e = cc
get-set (x ∷ ps) zero p q e = refl
get-set (x ∷ ps) (suc j) p q e = get-set ps j p q e

set-set : (ps : List Project) (j : ℕ) (p q : Project) → set (set ps j p) j q ≡ set ps j q
set-set [] j p q = refl
set-set (x ∷ ps) zero p q = refl
set-set (x ∷ ps) (suc j) p q = ap (◌∷◌ x) (set-set ps j p q)

set-same : (ps : List Project) (j : ℕ) (p : Project) → get_elem? ps j ≡ some p → set ps j p ≡ ps
set-same [] j p e = refl
set-same (x ∷ ps) zero p e = ap (λ y. y ∷ ps) (some-injective (sym e))
set-same (x ∷ ps) (suc j) p e = ap (◌∷◌ x) (set-same ps j p e)

-- The program with a world and a list of projects.
abbrev pub at : {W : Type 0} → Machine W → W → List Project → Shop W
at m w ps = record { machine = record m { world = w }; projects = ps }

module _ {W : Type 0} (lua : Lua W) (put : Text → Project → Project) (k : ℕ) (m : Machine W) where
  put_string-found :
      (t : Text) (p : Project) (w : W) (ps : List Project)
      → get_elem? ps k ≡ some p
      → put_string put (some k) (some t) (at m w ps) ≡ (done tt, at m w (set ps k (put t p)))
  unfolding put_string update write_kth
  put_string-found t p w ps e = rw e refl

  put_strings-over :
      (fuel last : ℕ) (w : W) (ps : List Project)
      → lua.gettop w ≡ last
      → put_strings lua (suc fuel) put (some k) (suc last) (at m w ps) ≡ (done tt, at m w ps)
  unfolding put_strings
  put_strings-over fuel last w ps g = rw (g, lt→ltb last (suc last) (omega arith)) refl

  put_strings-next :
      (fuel last i : ℕ) (t : Text) (p : Project) (w : W) (ps : List Project)
      → lua.gettop w ≡ last
      → i < suc last
      → (lua.tostring (bottom i) w).0 ≡ some t
      → get_elem? ps k ≡ some p
      → put_strings lua (suc fuel) put (some k) i (at m w ps)
        ≡ put_strings lua fuel put
            (some k)
            (suc i)
            (at m (lua.tostring (bottom i) w).1 (set ps k (put t p)))
  unfolding put_strings
  put_strings-next fuel last i t p w ps g h e f =
      let more : ltb last i ≡ false = ground (arith, ltb→lt last i) in
      rw (g, more, e, put_string-found t p (lua.tostring (bottom i) w).1 ps f) refl

  -- The arguments from `i` on are put into the project one by one, and nothing else is changed.
  put_strings-Reads :
      (fuel last i : ℕ) (ts : List Text) (w v : W) (p : Project) (ps : List Project)
      → Reads lua last i ts w v
      → length ts < fuel
      → get_elem? ps k ≡ some p
      → put_strings lua fuel put (some k) i (at m w ps)
        ≡ (done tt, at m v (set ps k (foldl (λ q t. put t q) p ts)))
  put_strings-Reads zero last i ts w v p ps r h e = absurd (omega arith)
  put_strings-Reads (suc fuel) last i [] w v p ps (over g) h e =
      put_strings-over fuel last w ps g ∙ ap (λ qs. (done tt, at m w qs)) (sym (set-same ps k p e))
  put_strings-Reads (suc fuel) last i (t ∷ ts) w v p ps (next g l q r) h e =
      put_strings-next fuel last i t p w ps g l q e
      ∙ put_strings-Reads fuel last (suc i) ts (lua.tostring (bottom i) w).1 v (put t p)
          (set ps k (put t p)) r (omega arith) (get-set ps k p (put t p) e)
      ∙ ap (λ qs. (done tt, at m v qs))
          (set-set ps k (put t p) (foldl (λ q t. put t q) (put t p) ts))

Reads-length :
    {W : Type 0} (lua : Lua W) (last i : ℕ) (ts : List Text) (w v : W)
    → Reads lua last i ts w v
    → i + length ts ≡ suc last
Reads-length lua last i [] w v (over g) = omega arith
Reads-length lua last i (t ∷ ts) w v (next g l q r) =
    omega (arith, Reads-length lua last (suc i) ts (lua.tostring (bottom i) w).1 v r)

Reads-top :
    {W : Type 0} (lua : Lua W) (last i : ℕ) (ts : List Text) (w v : W)
    → Reads lua last i ts w v
    → lua.gettop w ≡ last
Reads-top lua last i [] w v (over g) = g
Reads-top lua last i (t ∷ ts) w v (next g l q r) = g

-- Adding files one by one.
put_files :
    (ts : List Text) (p : Project)
    → foldl (λ q t. record q { files = q.files ++ t ∷ [] }) p ts
      ≡ record p { files = p.files ++ ts }
put_files [] p = ap (λ fs. record p { files = fs }) (sym (append-nil p.files))
put_files (t ∷ ts) p =
    put_files ts (record p { files = p.files ++ t ∷ [] })
    ∙ ap (λ fs. record p { files = fs }) (append_assoc p.files (t ∷ []) ts)

-- If the first argument is the table of the project `k`, and the other arguments are the strings
-- `ts`, then `add_files` comes back, with the strings appended to the files of that project in order
-- and nothing else changed in the projects.
pub add_files-appends :
    {W : Type 0} (lua : Lua W) (m : Machine W) (k last : ℕ) (ts : List Text) (w w' v : W)
    (p : Project) (ps : List Project)
    → getproject lua (bottom 1) (at m w ps) ≡ (done (some k), at m w' ps)
    → Reads lua last 2 ts w' v
    → get_elem? ps k ≡ some p
    → add_files lua (at m w ps) ≡ (done 0, at m v (set ps k (record p { files = p.files ++ ts })))
unfolding add_files add_strings
add_files-appends lua m k last ts w w' v p ps g r e =
    rw
      (
        g,
        Reads-top lua last 2 ts w' v r,
        put_strings-Reads lua (λ t q. record q { files = q.files ++ t ∷ [] }) k m (suc last) last 2
            ts w' v p ps r (omega (arith, Reads-length lua last 2 ts w' v r)) e,
        put_files ts p,
      )
      refl
