-- ===== src/File/Path/Laws.antt =====
-- file.cpp: `basename` and `path` on the shapes of a path.
use cake.Prelude.{
  suc, ◌<◌, ◌≡◌, ◌≢◌, refl, ap, false, [], ◌∷◌, ◌++◌, arith, lt→ltb, length, take, drop,
  length-append,
}
use cake.Text.{Text, has_byte}
use cake.Text.Search.{strrchr_absent, strrchr_last}
use cake.File.Path.{basename_at, basename, path_of}

module _ (dir base : Text) (named : base ≢ []) (plain : has_byte b'/' base ≡ false) where
  basename_at-slash : basename_at (dir ++ b'/' ∷ base) ≡ suc (length dir)
  unfolding basename_at
  basename_at-slash = go base named plain
    where
      go :
          (b : Text)
          → b ≢ []
          → has_byte b'/' b ≡ false
          → basename_at (dir ++ b'/' ∷ b) ≡ suc (length dir)
      go [] n h = absurd (n refl)
      go (c ∷ cs) n h =
          let short : suc (length dir) < length (dir ++ b'/' ∷ c ∷ cs) =
            omega (arith, length-append dir (b'/' ∷ c ∷ cs)) in
          rw (strrchr_last b'/' dir (c ∷ cs) h, basename_at, lt→ltb _ _ short)

  drop-slash : (d : Text) → drop (suc (length d)) (d ++ b'/' ∷ base) ≡ base
  drop-slash [] = refl
  drop-slash (x ∷ d) = drop-slash d

  take-slash : (d : Text) → take (suc (length d)) (d ++ b'/' ∷ base) ≡ d ++ b'/' ∷ []
  take-slash [] = refl
  take-slash (x ∷ d) = ap (◌∷◌ x) (take-slash d)

  -- Of a folder, a slash and a name that is not empty and has no slash, the file name is that name,
  -- and the path is the folder with the slash.
  pub basename-slash :
      (basename (dir ++ b'/' ∷ base) ≡ base) × (path_of (dir ++ b'/' ∷ base) ≡ dir ++ b'/' ∷ [])
  unfolding basename path_of
  basename-slash = (
    rw basename_at-slash (drop-slash dir),
    rw (path_of, basename_at-slash) (ground (arith, take-slash dir)),
  )

-- Without a slash, and with one at the end only, there is nothing to split off.
basename_at-plain : (p : Text) → has_byte b'/' p ≡ false → basename_at p ≡ 0
unfolding basename_at
basename_at-plain p plain = rw (basename_at, strrchr_absent b'/' p plain) refl

basename_at-folder : (dir : Text) → basename_at (dir ++ b'/' ∷ []) ≡ 0
unfolding basename_at has_byte
basename_at-folder dir =
    rw (basename_at, strrchr_last b'/' dir [] refl, length-append dir (b'/' ∷ [])) (ground arith)

not_split : (p : Text) → basename_at p ≡ 0 → (basename p ≡ p) × (path_of p ≡ p)
unfolding basename path_of
not_split p e = (rw (basename, e) refl, rw (path_of, e) refl)

-- Of a folder, a slash and a name that is not empty and has no slash, the file name is that name,
-- and the path is the folder with the slash; of such a name alone, and of the folder and the slash
-- alone, both are the whole text.
pub basename-splits :
    (dir base : Text)
    → base ≢ []
    → has_byte b'/' base ≡ false
    → ((basename (dir ++ b'/' ∷ base) ≡ base) × (path_of (dir ++ b'/' ∷ base) ≡ dir ++ b'/' ∷ []))
      × ((basename base ≡ base) × (path_of base ≡ base))
      × ((basename (dir ++ b'/' ∷ []) ≡ dir ++ b'/' ∷ [])
          × (path_of (dir ++ b'/' ∷ []) ≡ dir ++ b'/' ∷ []))
basename-splits dir base named plain = (
  basename-slash dir base named plain,
  not_split base (basename_at-plain base plain),
  not_split (dir ++ b'/' ∷ []) (basename_at-folder dir),
)
