-- ===== src/Build/Objects/Sites.antt =====
-- How the account of the objects goes through steps of the machine, and of the build alone.
use cake.Prelude.{ℕ, ◌+◌, ◌≡◌, sym, ◌∙◌}
use cake.Text.{Text}
use cake.System.{Os, Machine, M, Stop, Outcome, done, stopped, ◌>>=◌}
use cake.System.Ends.{Ends, Ended, Ends-bind, Ends-weaken, Ends-known, Ends-modify}
use cake.Build.{Build, Site, B, on_machine, on_build}
use cake.Build.Objects.{Objects, occurrences, running}
use cake.Build.Objects.Machine.{Stays}

module _ {W : Type 0} (os : Os W) (E : Stop → Type 0) (d x : Text) where
  abbrev pub Has : ℕ → ℕ → Site W → Type 0
  Has n o = Objects E d x n o

  -- The account with the jobs of the vector.
  abbrev pub Whole : ℕ → Site W → Type 0
  Whole o s = Has (running x s.build.jobs) o s

  -- Another machine with the same object folder.
  in_folder :
      (n o : ℕ) (s : Site W) (m : Machine W)
      → m.objdir ≡ d
      → Has n o s
      → Has n o (record s { machine = m })
  in_folder n o s m f p = record { folder = f; slot = p.slot; room = p.room; links = p.links }

  -- Other numbers that come to the same.
  pub Has-change :
      (n o n' o' : ℕ) (s : Site W) → ((k : ℕ) → k + n ≡ o → k + n' ≡ o') → Has n o s → Has n' o' s
  Has-change n o n' o' s h p = record {
    folder = p.folder;
    slot = p.slot;
    room = p.room;
    links = λ f. h (occurrences x s.build.linklist) (p.links f);
  }

  -- A step of the machine, with a fact about its result.
  pub Whole-step :
      {A : Type 0} {R : A → Type 0} (o : ℕ) (m : M W A)
      → Ends E (λ s. s.objdir ≡ d) m (λ a s. (s.objdir ≡ d) × R a)
      → Ends E (Whole o) (on_machine m) (λ a s. Whole o s × R a)
  Whole-step {A} {R} o m h = record {
    at = λ s p. go s p (m s.machine).0 (m s.machine).1 (h.at s.machine p.folder);
  }
    where
      go :
          (s : Site W)
          → Whole o s
          → (r : Outcome A) (t : Machine W) → Ended E (λ a s. (s.objdir ≡ d) × R a) r t
          → Ended E (λ a s. Whole o s × R a) r (record s { machine = t })
      go s p (done a) t (f, r) = (in_folder (running x s.build.jobs) o s t f p, r)
      go s p (stopped e) t r = r

  pub Whole-after :
      {A C : Type 0} {Q : C → Site W → Type 0} {f : A → B W C} (o : ℕ) (m : M W A)
      → Stays os E d m
      → ((a : A) → Ends E (Whole o) (f a) Q)
      → Ends E (Whole o) (on_machine m >>= f) Q
  Whole-after o m h k =
      Ends-bind (on_machine m)
        (Ends-weaken (λ s p. p) (λ a s p. p.0)
          (Whole-step {R = λ _. Unit {0}} o m (Ends-weaken (λ s p. p) (λ a s p. (p, tt)) h)))
        k

  pub Whole-knowing :
      {A C : Type 0} {R : A → Type 0} {Q : C → Site W → Type 0} {f : A → B W C} (o : ℕ) (m : M W A)
      → Ends E (λ s. s.objdir ≡ d) m (λ a s. (s.objdir ≡ d) × R a)
      → ((a : A) → R a → Ends E (Whole o) (f a) Q)
      → Ends E (Whole o) (on_machine m >>= f) Q
  Whole-knowing o m h k = Ends-bind (on_machine m) (Whole-step o m h) λ a. Ends-known (k a)

  -- A change of the build that leaves the jobs, the links, the header and the failures alone.
  pub Whole-on_build :
      (o : ℕ) (f : Build → Build)
      → ((b : Build)
          → ((f b).jobs ≡ b.jobs)
            × ((f b).linklist ≡ b.linklist)
            × ((f b).pchname ≡ b.pchname)
            × ((f b).nfailed ≡ b.nfailed))
      → Ends E (Whole o) (on_build f) (λ _. Whole o)
  Whole-on_build o f h = Ends-modify _ λ s p.
      let (j, l, c, n) = h s.build in
      record {
        folder = p.folder;
        slot = rw j p.slot;
        room = rw c p.room;
        links = λ e. rw (j, l) (p.links (sym n ∙ e));
      }
