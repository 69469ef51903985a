-- ===== src/File/Times.antt =====
-- file.cpp: the comparison of time stamps.
use cake.Prelude.{
  ℕ, ◌≤◌, ◌≡◌, ◌∙◌, ◌↔◌, true, false, ◌||◌, none, some, arith, ltb, if◌then◌else◌, Option-cases,
  Bool-cases, inl, inr,
}
use cake.Text.{Text}
use cake.System.{Os, Stat, Machine, done}
use cake.Utility.Print.Laws.{printerr_lem}
use cake.File.{is_changed, is_older, compare_times, note_time, no_access}

module _ {W : Type 0} (os : Os W) where
  -- Both files are there, and the object is not older than the makefile, nor than the other file.
  abbrev pub IsFresh : W → ℕ → Text → Text → Type 0
  IsFresh w makefile_time filename compared =
      (f : Stat) × (c : Stat) × (os.stat filename w ≡ some f)
      × (os.stat compared w ≡ some c)
      × (makefile_time ≤ c.mtime)
      × (f.mtime ≤ c.mtime)

  -- Two files that are there: the answer, and the newest time that is noted unless the makefile
  -- forces a rebuild.
  pub is_changed_present :
      (filename compared : Text) (s : Machine W) (f c : Stat)
      → os.stat filename s.world ≡ some f
      → os.stat compared s.world ≡ some c
      → is_changed os filename compared s ≡ (
          if ltb c.mtime s.makefile_time then (done true, s) else (
            done (ltb c.mtime f.mtime),
            (if ltb s.newest_time f.mtime then record s { newest_time = f.mtime } else s),
          ))
  unfolding is_changed compare_times note_time
  is_changed_present filename compared s f c p q = rw (p, q) (ground arith)

  is_changed-missing :
      (filename compared : Text) (s : Machine W)
      → os.stat filename s.world ≡ none
      → (is_changed os filename compared s).0 ≡ done true
  unfolding is_changed
  is_changed-missing filename compared s p =
      let (w, e) = printerr_lem os (no_access filename) s in rw (p, e)

  unseen :
      (filename compared : Text) (s : Machine W) (f : Stat)
      → os.stat filename s.world ≡ some f
      → os.stat compared s.world ≡ none
      → (is_changed os filename compared s).0 ≡ done true
  unfolding is_changed
  unseen filename compared s f p q =
      let (w, e) = printerr_lem os (no_access compared) s in rw (p, q, e)

  pub is_changed-fresh :
      (filename compared : Text) (s : Machine W)
      → IsFresh s.world s.makefile_time filename compared
      → (n : ℕ) × (is_changed os filename compared s ≡ (done false, record s { newest_time = n }))
  is_changed-fresh filename compared s (f, c, p, q, h, k) = (
    if ltb s.newest_time f.mtime then f.mtime else s.newest_time,
    rw (is_changed_present filename compared s f c p q) (ground arith),
  )

  present :
      (filename compared : Text) (s : Machine W) (f c : Stat)
      → os.stat filename s.world ≡ some f
      → os.stat compared s.world ≡ some c
      → (is_changed os filename compared s).0 ≡ done false
      → (s.makefile_time ≤ c.mtime) × (f.mtime ≤ c.mtime)
  present filename compared s f c p q e =
      let h = is_changed_present filename compared s f c p q in ground (arith, h)

  pub IsFresh-is_changed :
      (filename compared : Text) (s : Machine W)
      → (is_changed os filename compared s).0 ≡ done false
      → IsFresh s.world s.makefile_time filename compared
  IsFresh-is_changed filename compared s e = elim (Option-cases (os.stat filename s.world)) [
    | inl gone ↦ absurd (cc (e, is_changed-missing filename compared s gone))
    | inr (f, p) ↦ elim (Option-cases (os.stat compared s.world)) [
      | inl gone ↦ absurd (cc (e, unseen filename compared s f p gone))
      | inr (c, q) ↦ let (h, k) = present filename compared s f c p q e in (f, c, p, q, h, k)
    ]
  ]

  -- `is_changed` says no exactly when both files are there, and the second is not older than the
  -- makefile nor than the first.
  pub is_changed_iff :
      (filename compared : Text) (s : Machine W)
      → ((is_changed os filename compared s).0 ≡ done false)
        ↔ IsFresh s.world s.makefile_time filename compared
  is_changed_iff filename compared s = (
    IsFresh-is_changed filename compared s,
    λ h. let (n, e) = is_changed-fresh filename compared s h in rw e,
  )

  is_older_present :
      (target : Text) (s : Machine W) (t : Stat)
      → os.stat target s.world ≡ some t
      → is_older os target s ≡ (done (ltb t.mtime s.makefile_time || ltb t.mtime s.newest_time), s)
  unfolding is_older
  is_older_present target s t p = rw p (ground arith)

  -- After `is_changed` on a file and an object that is no older than the makefile, a target is older
  -- exactly when the makefile, a file noted before, or that file is newer. All three are there.
  pub is_older-is_changed :
      (target filename compared : Text) (s : Machine W) (t f c : Stat)
      → os.stat target s.world ≡ some t
      → os.stat filename s.world ≡ some f
      → os.stat compared s.world ≡ some c
      → s.makefile_time ≤ c.mtime
      → (is_older os target (is_changed os filename compared s).1).0
        ≡ done (ltb t.mtime s.makefile_time || ltb t.mtime s.newest_time || ltb t.mtime f.mtime)
  is_older-is_changed target filename compared s t f c o p q h =
      elim (Bool-cases (ltb s.newest_time f.mtime)) [
        | inl newer ↦
            rw (looked, newer, is_older_present target (record s { newest_time = f.mtime }) t o)
              (ground arith)
        | inr older ↦ rw (looked, older, is_older_present target s t o) (ground arith)
      ]
    where
      looked : is_changed os filename compared s ≡ (
        done (ltb c.mtime f.mtime),
        (if ltb s.newest_time f.mtime then record s { newest_time = f.mtime } else s),
      )
      looked =
          let e : ltb c.mtime s.makefile_time ≡ false = ground arith in
          is_changed_present filename compared s f c p q ∙ rw e
