-- ===== src/Build/Rebuild/Fresh.antt =====
-- When a file is left alone.
use cake.Prelude.{
  ℕ, suc, ◌≡◌, refl, ◌↔◌, false, some, List, [], ◌∷◌, arith, Option-cases, Bool-cases, inl, inr,
  All, drop,
}
use cake.Text.{Text, strchr, tokens}
use cake.System.{Os, Stat, Machine, done}
use cake.System.Laws.{resume-done}
use cake.File.{exists, read_file}
use cake.File.Read.{read_file_lem}
use cake.File.Times.{IsFresh, is_changed-fresh, IsFresh-is_changed}
use cake.Build.Names.{mkdepname}
use cake.Build.Names.Laws.{mkdepname-reads}
use cake.Build.Rebuild.{file_is_newer, any_newer, check_deps, read_deps, needs_rebuild, dep_blanks}

module _ {W : Type 0} (os : Os W) where
  newer-fresh :
      (fname compared : Text) (s : Machine W)
      → IsFresh os s.world s.makefile_time fname compared
      → (n : ℕ) × (file_is_newer os fname compared s ≡ (done false, record s { newest_time = n }))
  unfolding file_is_newer exists
  newer-fresh fname compared s h =
      let (n, e) = is_changed-fresh os fname compared s h in
      let (f, c, p, q, _, _) = h in (n, rw q e)

  IsFresh-newer :
      (fname compared : Text) (s : Machine W)
      → (file_is_newer os fname compared s).0 ≡ done false
      → IsFresh os s.world s.makefile_time fname compared
  unfolding file_is_newer exists
  IsFresh-newer fname compared s e = elim (Option-cases (os.stat compared s.world)) [
    | inl gone ↦ absurd (ground (arith, gone, e))
    | inr (c, q) ↦ IsFresh-is_changed os fname compared s (ground (arith, q, e))
  ]

  any_newer-fresh :
      (ts : List Text) (objname : Text) (s : Machine W)
      → All (λ t. IsFresh os s.world s.makefile_time t objname) ts
      → (any_newer os ts objname s).0 ≡ done false
  unfolding any_newer
  any_newer-fresh [] objname s h = refl
  any_newer-fresh (t ∷ ts) objname s h =
      let (n, e) = newer-fresh t objname s h.0 in
      rw e (any_newer-fresh ts objname (record s { newest_time = n }) h.1)

  head-fresh :
      (t : Text) (ts : List Text) (objname : Text) (s : Machine W)
      → (any_newer os (t ∷ ts) objname s).0 ≡ done false
      → (file_is_newer os t objname s).0 ≡ done false
  unfolding any_newer
  head-fresh t ts objname s h =
      let (newer, e, q) = resume-done (file_is_newer os t objname s).0 _ _ h in
      elim (Bool-cases newer) [ inl y ↦ absurd (ground (arith, y, q)) | inr n ↦ rw (e, n) ]

  IsFresh-any_newer :
      (ts : List Text) (objname : Text) (s : Machine W)
      → (any_newer os ts objname s).0 ≡ done false
      → All (λ t. IsFresh os s.world s.makefile_time t objname) ts
  unfolding any_newer
  IsFresh-any_newer [] objname s h = tt
  IsFresh-any_newer (t ∷ ts) objname s h =
      let fresh = IsFresh-newer t objname s (head-fresh t ts objname s h) in
      let (n, e) = newer-fresh t objname s fresh in
      (fresh, IsFresh-any_newer ts objname (record s { newest_time = n }) (rw (any_newer, e) at h))

  -- The dependency file is named, is there, and can be read; its contents have a colon; and for each
  -- file listed behind the colon, that file and the object are there, and the object is no older
  -- than the makefile and that file. Where no file is listed, nothing is asked of the object.
  abbrev pub IsUpToDate : Machine W → Text → Text → Type 0
  IsUpToDate s fname objname =
      (dep : Text) × (st : Stat) × (contents : Text) × (colon : ℕ) × (w : W) × ((mkdepname fname
          s).0
        ≡ done dep)
      × (os.stat dep s.world ≡ some st)
      × (read_file os dep s ≡ (done (some contents), record s { world = w }))
      × (strchr b':' contents ≡ some colon)
      × All (λ t. IsFresh os w s.makefile_time t objname)
          (tokens dep_blanks (drop (suc colon) contents))

  -- The last step, on the contents of the dependency file.
  check_deps_inv :
      (contents objname : Text) (s : Machine W)
      → (check_deps os contents objname s).0 ≡ done false
      → (colon : ℕ) × (strchr b':' contents ≡ some colon)
        × All
            (λ t. IsFresh os s.world s.makefile_time t objname)
            (tokens dep_blanks (drop (suc colon) contents))
  unfolding check_deps
  check_deps_inv contents objname s e = elim (Option-cases (strchr b':' contents)) [
    | inl bare ↦ absurd (ground (arith, bare, e))
    | inr (colon, k) ↦ (
      colon,
      k,
      IsFresh-any_newer (tokens dep_blanks (drop (suc colon) contents)) objname s
          (rw (check_deps, k) at e),
    )
  ]

  read_deps_inv :
      (dep objname : Text) (s : Machine W)
      → (read_deps os dep objname s).0 ≡ done false
      → (st : Stat) × (contents : Text) × (w : W) × (os.stat dep s.world ≡ some st)
        × (read_file os dep s ≡ (done (some contents), record s { world = w }))
        × ((check_deps os contents objname (record s { world = w })).0 ≡ done false)
  unfolding read_deps exists
  read_deps_inv dep objname s e = elim (Option-cases (os.stat dep s.world)) [
    | inl gone ↦ absurd (ground (arith, gone, e))
    | inr (st, x) ↦
        let (o, w, q) = read_file_lem os dep s in
        elim (Option-cases o) [
          | inl empty ↦ absurd (cc (rw (read_deps, exists, x, q, empty) at e))
          | inr (contents, f) ↦
              (st, contents, w, x, rw (q, f), rw (read_deps, exists, x, q, f) at e)
        ]
  ]

  pub IsUpToDate-needs_rebuild :
      (fname objname : Text) (s : Machine W)
      → s.rebuild_flag ≡ false
      → IsUpToDate s fname objname
      → (needs_rebuild os fname objname s).0 ≡ done false
  unfolding needs_rebuild read_deps exists check_deps
  IsUpToDate-needs_rebuild fname objname s r (dep, st, contents, colon, w, d, x, c, k, all) =
      let fresh =
        any_newer-fresh (tokens dep_blanks (drop (suc colon) contents)) objname
          (record s { world = w }) all in
      simp r (rw (d, mkdepname-reads fname s, x, c, check_deps, k) fresh)

  needs_rebuild-IsUpToDate :
      (fname objname : Text) (s : Machine W)
      → s.rebuild_flag ≡ false
      → (needs_rebuild os fname objname s).0 ≡ done false
      → IsUpToDate s fname objname
  unfolding needs_rebuild
  needs_rebuild-IsUpToDate fname objname s r e =
      let (dep, d, q) = resume-done (mkdepname fname s).0 _ _ (simp r at e) in
      let same = mkdepname-reads fname s in
      let (st, contents, w, x, c, k) = read_deps_inv dep objname s (rw same at q) in
      let (colon, l, all) = check_deps_inv contents objname (record s { world = w }) k in
      (dep, st, contents, colon, w, d, x, c, l, all)

  -- A file is left alone exactly when no rebuild is forced and this holds: its dependency file is
  -- named, there, read and has a colon, and for each file listed behind the colon, that file and the
  -- object are there, and the object is no older than the makefile and that file. Where no file is
  -- listed behind the colon, the object is not looked at.
  pub needs_rebuild_iff :
      (fname objname : Text) (s : Machine W)
      → ((needs_rebuild os fname objname s).0 ≡ done false)
        ↔ ((s.rebuild_flag ≡ false) × IsUpToDate s fname objname)
  unfolding needs_rebuild
  needs_rebuild_iff fname objname s = (
    λ e. elim (Bool-cases s.rebuild_flag) [
      | inl forced ↦ absurd (cc (simp forced at e))
      | inr free ↦ (free, needs_rebuild-IsUpToDate fname objname s free e)
    ],
    λ h. IsUpToDate-needs_rebuild fname objname s h.0 h.1,
  )
