-- ===== src/Main/Search.antt =====
-- cake.cpp: where the search for the makefile ends.
use cake.Prelude.{
  All, ℕ, zero, suc, ◌<◌, ◌≡◌, ◌≢◌, refl, sym, ap, subst, ◌∙◌, Bool, true, false, Option, none,
  some, List, [], ◌∷◌, ◌++◌, if◌then◌else◌, arith, length, ◌==◌, take-length-append, length-append,
  lt→ltb, Bool-cases, Option-cases, inl, inr,
}
use cake.Text.{Text, has_byte, strchr}
use cake.Text.Search.{strrchr_last, strchr_absent}
use cake.System.{Os, Machine, Outcome, done, skip}
use cake.File.{exists}
use cake.Main.{take, cut_name, parent_of, change_to, step_up, search_up, find_makefile}

strchr_present : (c : ℕ) (xs : Text) → has_byte c xs ≡ true → (i : ℕ) × (strchr c xs ≡ some i)
unfolding has_byte strchr
strchr_present c [] h = cc
strchr_present c (x ∷ xs) h = elim (Bool-cases (x == c)) [
  | inl e ↦ (0, rw e refl)
  | inr e ↦ let (i, q) = strchr_present c xs (ground arith) in (suc i, rw (e, q) refl)
]

cut_name-slash :
    (dir name : Text) → name ≢ [] → has_byte b'/' name ≡ false → cut_name (dir ++ b'/' ∷ name) ≡ dir
unfolding cut_name
cut_name-slash dir [] named plain = absurd (named refl)
cut_name-slash dir (c ∷ cs) named plain =
    let short : suc (length dir) < length (dir ++ b'/' ∷ c ∷ cs) =
      omega (arith, length-append dir (b'/' ∷ c ∷ cs)) in
    rw (cut_name, strrchr_last b'/' dir (c ∷ cs) plain, lt→ltb _ _ short)
      (take-length-append dir (b'/' ∷ c ∷ cs))

-- From a folder in a folder, the search goes on in the outer one if the path of that one has a
-- slash, and ends otherwise: the root is not searched from a folder in it.
pub parent_of-slash :
    (dir name : Text)
    → name ≢ []
    → has_byte b'/' name ≡ false
    → parent_of (dir ++ b'/' ∷ name) ≡ (if has_byte b'/' dir then some dir else none)
unfolding parent_of
parent_of-slash dir name named plain = elim (Bool-cases (has_byte b'/' dir)) [
  | inl h ↦
      rw (parent_of, cut_name-slash dir name named plain, (strchr_present b'/' dir h).1, h)
        (ap some (cut_name-slash dir name named plain))
  | inr h ↦ rw (parent_of, cut_name-slash dir name named plain, strchr_absent b'/' dir h, h) refl
]

-- The parents that are searched from a folder, at most `n` of them.
abbrev pub ancestors : ℕ → Text → List Text
ancestors zero c = []
ancestors (suc n) c = elim (parent_of c) [ none ↦ [] | some p ↦ p ∷ ancestors n p ]

-- The first folder with the makefile; the last one of all where none has it.
abbrev pub first_with : (Text → Bool) → List Text → Text → Text
first_with there [] last = last
first_with there (p ∷ ps) last = let rest = first_with there ps p in if there p then p else rest

either : (b : Bool) (p : Text) → p ≡ (if b then p else p)
either true p = refl
either false p = refl

abbrev pub is_some : {A : Type 0} → Option A → Bool
is_some none = false
is_some (some a) = true

-- The names on the way to a folder, from the innermost on, none of them empty or with a slash.
abbrev pub IsName : Text → Type 0
IsName n = (n ≢ []) × (has_byte b'/' n ≡ false)

-- The path of a folder.
abbrev pub folder : List Text → Text
folder [] = []
folder (n ∷ outer) = folder outer ++ b'/' ∷ n

-- A folder and those that it is in, from the innermost on, but for the root.
abbrev pub folders : List Text → List Text
folders [] = []
folders (n ∷ outer) = folder (n ∷ outer) ∷ folders outer

has_byte-middle : (xs ys : Text) (c : ℕ) → has_byte c (xs ++ c ∷ ys) ≡ true
unfolding has_byte
has_byte-middle [] ys c = ground arith
has_byte-middle (x ∷ xs) ys c = ground (arith, has_byte-middle xs ys c)

-- What the search takes for the parents of a folder are the folders that it is in.
ancestors-folders :
    (n : ℕ) (dir : Text) (outer : List Text)
    → All IsName (dir ∷ outer)
    → ancestors n (folder (dir ∷ outer)) ≡ take n (folders outer)
unfolding has_byte
ancestors-folders zero dir outer h = refl
ancestors-folders (suc n) dir [] h = rw (ancestors, parent_of-slash [] dir h.0.0 h.0.1) refl
ancestors-folders (suc n) dir (m ∷ outer) h =
    rw
      (
        ancestors,
        parent_of-slash (folder (m ∷ outer)) dir h.0.0 h.0.1,
        has_byte-middle (folder outer) m b'/',
      )
      (ap (◌∷◌ (folder (m ∷ outer))) (ancestors-folders n m outer h.1))

module _ {W : Type 0} (os : Os W) (name : Text) (there : Text → Bool)
    (found : (w : W) → is_some (os.stat name w) ≡ there (os.getcwd w)) where
  exists_there : (s : Machine W) → exists os name s ≡ (done (there (os.getcwd s.world)), s)
  unfolding exists
  exists_there s = elim (Option-cases (os.stat name s.world)) [
    | inl e ↦ rw e (ap (λ b. (done b, s)) (sym (ap is_some e) ∙ found s.world))
    | inr (st, e) ↦ rw e (ap (λ b. (done b, s)) (sym (ap is_some e) ∙ found s.world))
  ]

  step_up-none :
      (s : Machine W) → parent_of (os.getcwd s.world) ≡ none → step_up os s ≡ (done false, s)
  unfolding step_up change_to
  step_up-none s e = rw e refl

  step_up-some :
      (s : Machine W) (p : Text)
      → parent_of (os.getcwd s.world) ≡ some p
      → step_up os s ≡ (done true, record s { world = (os.chdir p s.world).1 })
  unfolding step_up change_to
  step_up-some s p e = rw e refl

  abbrev moved : Machine W → Text → Machine W
  moved s p = record s { world = (os.chdir p s.world).1 }

  -- A change to the folder does what it is asked to.
  abbrev pub Reaches : Text → Type 0
  Reaches p = (w : W) → os.getcwd (os.chdir p w).1 ≡ p

  exists-moved :
      (s : Machine W) (p : Text)
      → Reaches p
      → s.makefile ≡ name
      → exists os s.makefile (moved s p) ≡ (done (there p), moved s p)
  exists-moved s p cd m =
      ap (λ n. exists os n (moved s p)) m
      ∙ exists_there (moved s p)
      ∙ ap (λ d. (done (there d), moved s p)) (cd s.world)

  search_up-none :
      (n : ℕ) (s : Machine W)
      → parent_of (os.getcwd s.world) ≡ none
      → search_up os n s ≡ (done tt, s)
  unfolding search_up
  search_up-none zero s e = rw (step_up-none s e) refl
  search_up-none (suc n) s e = rw (step_up-none s e) refl

  search_up-some :
      (n : ℕ) (s : Machine W) (p : Text)
      → Reaches p
      → s.makefile ≡ name
      → parent_of (os.getcwd s.world) ≡ some p
      → search_up os (suc n) s ≡ (if there p then skip else search_up os n) (moved s p)
  unfolding search_up
  search_up-some n s p cd m e = rw (step_up-some s p e, exists-moved s p cd m) refl

  abbrev EndsIn : Outcome (Unit {0}) × Machine W → Text → Type 0
  EndsIn r p = (r.0 ≡ done tt) × (os.getcwd r.1.world ≡ p)

  search_up-top :
      (s : Machine W) (p : Text)
      → parent_of (os.getcwd s.world) ≡ some p
      → search_up os zero s ≡ (done tt, moved s p)
  unfolding search_up
  search_up-top s p e = rw (step_up-some s p e) refl

  first_reached :
      (n : ℕ) (c p : Text)
      → parent_of c ≡ some p
      → All Reaches (ancestors (suc n) c)
      → Reaches p × All Reaches (ancestors n p)
  first_reached n c p e h =
      subst (λ o. All Reaches (elim o [ none ↦ [] | some q ↦ q ∷ ancestors n q ])) e h

  search_up-ends :
      (n : ℕ) (s : Machine W)
      → s.makefile ≡ name
      → All Reaches (ancestors (suc n) (os.getcwd s.world))
      → EndsIn
          (search_up os n s)
          (first_with there (ancestors (suc n) (os.getcwd s.world)) (os.getcwd s.world))
  search_up-ends zero s m h = elim (Option-cases (parent_of (os.getcwd s.world))) [
    | inl e ↦ rw (search_up-none zero s e, ancestors, e) (refl, refl)
    | inr (p, e) ↦
        let cd : Reaches p = (first_reached 0 (os.getcwd s.world) p e h).0 in
        rw (search_up-top s p e, ancestors, e) (refl, cd s.world ∙ either (there p) p)
  ]
  search_up-ends (suc n) s m h = elim (Option-cases (parent_of (os.getcwd s.world))) [
    | inl e ↦ rw (search_up-none (suc n) s e, ancestors, e) (refl, refl)
    | inr (p, e) ↦
        let (cd, others) = first_reached (suc n) (os.getcwd s.world) p e h in
        elim (Bool-cases (there p)) [
          | inl f ↦ rw (search_up-some n s p cd m e, ancestors, e, f) (refl, cd s.world)
          | inr f ↦
              rw (search_up-some n s p cd m e, ancestors, e, f)
                (subst
                  (λ c.
                    EndsIn (search_up os n (moved s p)) (first_with there (ancestors (suc n) c) c))
                  (cd s.world)
                  (search_up-ends n (moved s p) m
                    (subst (λ c. All Reaches (ancestors (suc n) c)) (sym (cd s.world)) others)))
        ]
  ]

  -- If the working directory is a folder below the root, a change to each of the eight nearest
  -- folders that it is in does what it is asked to, and whether the makefile is there depends on
  -- the working directory alone, then the search comes back, in the working directory if that has
  -- the makefile, else in the nearest of those folders that has it, or in the last of them; the
  -- root is not one of them.
  pub find_makefile-nearest :
      (dir : Text) (outer : List Text) (s : Machine W)
      → All IsName (dir ∷ outer)
      → os.getcwd s.world ≡ folder (dir ∷ outer)
      → All Reaches (take 8 (folders outer))
      → s.makefile ≡ name
      → ((find_makefile os s).0 ≡ done tt)
        × (os.getcwd (find_makefile os s).1.world
            ≡ first_with there (take 9 (folders (dir ∷ outer))) (folder (dir ∷ outer)))
  unfolding find_makefile
  find_makefile-nearest dir outer s plain at cd m =
      let path = folder (dir ∷ outer) in
      let over : ancestors 8 (os.getcwd s.world) ≡ take 8 (folders outer) =
        ap (ancestors 8) at ∙ ancestors-folders 8 dir outer plain in
      let ended = search_up-ends 7 s m (subst (All Reaches) (sym over) cd) in
      elim (Bool-cases (there (os.getcwd s.world))) [
        | inl h ↦
            rw (ap (λ n. exists os n s) m ∙ exists_there s, h, sym (ap there at) ∙ h) (refl, at)
        | inr h ↦
            rw (ap (λ n. exists os n s) m ∙ exists_there s, h, sym (ap there at) ∙ h)
              (
                ended.0,
                ended.1
                    ∙ ap (λ l. first_with there l (os.getcwd s.world)) over
                    ∙ ap (first_with there (take 8 (folders outer))) at,
              )
      ]
