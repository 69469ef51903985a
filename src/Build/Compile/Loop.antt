-- ===== src/Build/Compile/Loop.antt =====
-- The loop of `build::compile` by index over a globber.
use cake.Prelude.{
  ℕ, zero, suc, ◌≡◌, refl, subst, ◌∙◌, true, not, ◌==◌, some, get_elem?, List, [], ◌∷◌, ◌++◌,
  if◌then◌else◌, arith, length, append_assoc, length-append,
}
use cake.Text.{Text}
use cake.System.{Os, Outcome, done, stopped, resume, each, skip, ◌>>=◌, ◌>>◌}
use cake.Globber.{Globber, at, size, start}
use cake.Build.{Site, B, on_machine}
use cake.Build.Compile.{do_compile, compile_each, compile}

get_elem?-length :
    (xs : List Text) (x : Text) (ys : List Text) → get_elem? (xs ++ x ∷ ys) (length xs) ≡ some x
get_elem?-length [] x ys = refl
get_elem?-length (y ∷ xs) x ys = get_elem?-length xs x ys

at-length :
    (xs : List Text) (x : Text) (ys : List Text)
    → at (record { paths = xs ++ x ∷ ys }) (length xs) ≡ x
unfolding at
at-length xs x ys = rw (at, get_elem?-length xs x ys) refl

some_files : (n : ℕ) → not (suc n == 0) ≡ true
some_files n = ground arith

module _ {W : Type 0} (os : Os W) where
  -- The rounds of the loop from the index `i` on, `n` of them.
  unfoldable pub compile_from : Globber → Text → ℕ → ℕ → B W (Unit {0})
  compile_from g cflags zero i = skip
  compile_from g cflags (suc n) i = do_compile os (at g i) cflags >> compile_from g cflags n (suc i)

  unfoldable pub compile_by_index : Text → Text → B W (Unit {0})
  compile_by_index fname cflags = do
    g ← on_machine (start os fname)
    if not (size g == 0) then compile_from g cflags (size g) 0 else do_compile os fname cflags

  compile_from-each :
      (before after : List Text) (cflags : Text) (s : Site W)
      → compile_from (record { paths = before ++ after }) cflags (length after) (length before) s
        ≡ each (λ file. do_compile os file cflags) after s
  unfolding compile_from each
  compile_from-each before [] cflags s = refl
  compile_from-each before (x ∷ after) cflags s =
      rw (compile_from, at-length before x after)
        (next (do_compile os x cflags s).0 (do_compile os x cflags s).1 λ t.
          subst
            (λ n.
              compile_from (record { paths = before ++ x ∷ after }) cflags (length after) n t
              ≡ each (λ file. do_compile os file cflags) after t)
            (length-append before (x ∷ []) ∙ omega arith)
            (subst
              (λ ps.
                compile_from (record { paths = ps }) cflags (length after)
                  (length (before ++ x ∷ [])) t
                ≡ each (λ file. do_compile os file cflags) after t)
              (append_assoc before (x ∷ []) after)
              (compile_from-each (before ++ x ∷ []) after cflags t)))
    where
      next :
          (o : Outcome (Unit {0})) (t : Site W)
          → {m m' : B W (Unit {0})} → ((t : Site W) → m t ≡ m' t)
          → resume o (λ _. m) t ≡ resume o (λ _. m') t
      next (done u) t h = h t
      next (stopped e) t h = refl

  compile_found :
      (found : List Text) (fname cflags : Text) (s : Site W)
      → (if not (length found == 0)
            then compile_from (record { paths = found }) cflags (length found) 0
            else do_compile os fname cflags)
          s
        ≡ compile_each os found fname cflags s
  unfolding compile_each
  compile_found [] fname cflags s = refl
  compile_found (x ∷ xs) fname cflags s =
      rw (some_files (length xs)) (compile_from-each [] (x ∷ xs) cflags s)

  -- The loop by index over the files of a globber, or the compilation of the pattern itself where it
  -- has none, is `compile`.
  pub compile_by_index-compile :
      (fname cflags : Text) (s : Site W)
      → compile_by_index fname cflags s ≡ compile os fname cflags s
  unfolding compile_by_index compile start size
  compile_by_index-compile fname cflags s =
      compile_found (os.glob fname s.machine.world) fname cflags s
