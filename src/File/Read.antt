-- ===== src/File/Read.antt =====
-- file.cpp: reading touches nothing but the world.
use cake.Prelude.{ℕ, ◌≡◌, Option, none, some, ltb, Option-cases, Bool-cases, inl, inr}
use cake.Text.{Text, c_str}
use cake.System.{Os, Machine, done}
use cake.File.{read_file, read_open}

module _ {W : Type 0} (os : Os W) where
  read_open_lem :
      (h : ℕ) (s : Machine W)
      → (o : Option Text) × (w : W) × (read_open os h s ≡ (done o, record s { world = w }))
  unfolding read_open
  read_open_lem h s = elim (Bool-cases (ltb 0 (os.file_size h s.world))) [
    | inl full ↦ (
      some (c_str (os.fread h (os.file_size h s.world) s.world).0),
      (os.fread h (os.file_size h s.world) s.world).1,
      rw full,
    )
    | inr empty ↦ (none, os.fclose h s.world, rw empty)
  ]

  pub read_file_lem :
      (fname : Text) (s : Machine W)
      → (o : Option Text) × (w : W) × (read_file os fname s ≡ (done o, record s { world = w }))
  unfolding read_file
  read_file_lem fname s = elim (Option-cases (os.fopen fname s.world).0) [
    | inl failed ↦ (none, (os.fopen fname s.world).1, rw failed)
    | inr (h, e) ↦
        let (o, w, q) = read_open_lem h (record s { world = (os.fopen fname s.world).1 }) in
        (o, w, rw (e, q))
  ]
