-- ===== src/Build/Jobs/Tally.antt =====
-- What the counters of a build say while jobs end.
use cake.Prelude.{
  ℕ, zero, suc, ◌+◌, ◌≤◌, ◌≡◌, refl, Bool, true, false, some, List, [], ◌∷◌, ◌++◌, arith,
  if◌then◌else◌, length, length-append, get_elem?, set,
}
use cake.Text.{Text}
use cake.System.{done}
use cake.Command.{is_active}
use cake.Build.{Job, Build, Site}
use cake.Build.Jobs.{settle}

-- The number of jobs that run, or may have run to their end unnoticed.
abbrev pub active : List Job → ℕ
active [] = 0
active (j ∷ js) = if is_active j.cmd then suc (active js) else active js

-- From `b` to `b'`, `d` jobs have ended: each is counted once, as compiled or as failed, and those
-- that are compiled are linked.
pub record Progress (d : ℕ) (b b' : Build) : Type 0 where
  pub jobs : b'.jobs ≡ b.jobs
  pub processed : b'.nprocessed ≡ b.nprocessed
  pub skipped : b'.nskipped ≡ b.nskipped
  pub settled : b'.ncompiled + b'.nfailed ≡ b.ncompiled + b.nfailed + d
  pub linked : length b'.linklist + b.ncompiled ≡ length b.linklist + b'.ncompiled
  pub failed : b.nfailed ≤ b'.nfailed

pub Progress-refl : (b : Build) → Progress 0 b b
Progress-refl b = ground arith

pub Progress-trans :
    {d e : ℕ} {a b c : Build} → Progress d a b → Progress e b c → Progress (d + e) a c
Progress-trans p q = ground arith

-- From `b` to `b'`, `k` jobs have come in. Every job is still running, or was counted once as
-- compiled or failed; each compiled one was linked; no slot was lost.
pub record Accounts (k : ℕ) (b b' : Build) : Type 0 where
  pub slots : length b'.jobs ≡ length b.jobs
  pub processed : b'.nprocessed ≡ b.nprocessed
  pub skipped : b'.nskipped ≡ b.nskipped
  pub balance :
      b'.ncompiled + b'.nfailed + active b'.jobs ≡ b.ncompiled + b.nfailed + active b.jobs + k
  pub linked : length b'.linklist + b.ncompiled ≡ length b.linklist + b'.ncompiled
  pub failed : b.nfailed ≤ b'.nfailed

pub Accounts-trans :
    {k l : ℕ} {a b c : Build} → Accounts k a b → Accounts l b c → Accounts (k + l) a c
Accounts-trans p q = ground arith

-- What a pass over the vector comes to, once the vector is written back.
pub Accounts-pass :
    {d k : ℕ} {b b' : Build} (js : List Job)
    → Progress d b b'
    → length js ≡ length b.jobs
    → d + active js ≡ active b.jobs + k
    → Accounts k b (record b' { jobs = js })
Accounts-pass js p l e = ground (arith, l, e)

pub settle_lem :
    {W : Type 0} (ok : Bool) (objname : Text) (s : Site W)
    → (b : Build) × (settle ok objname s ≡ (done tt, record s { build = b })) × Progress 1 s.build b
unfolding settle
settle_lem true objname s = (
  record s.build { linklist = s.build.linklist ++ objname ∷ []; ncompiled = s.build.ncompiled + 1 },
  refl,
  ground (arith, length-append s.build.linklist (objname ∷ [])),
)
settle_lem false objname s = (record s.build { nfailed = s.build.nfailed + 1 }, refl, ground arith)

pub active-le-length : (js : List Job) → active js ≤ length js
active-le-length [] = omega arith
active-le-length (j ∷ js) = ground (arith, active-le-length js)

-- In a vector of active jobs, a job takes the place of another.
pub active-set :
    (js : List Job) (i : ℕ) (j j' : Job)
    → get_elem? js i ≡ some j
    → is_active j.cmd ≡ true
    → is_active j'.cmd ≡ true
    → active (set js i j') ≡ active js
active-set [] i j j' h a a' = cc
active-set (x ∷ js) zero j j' h a a' = ground arith
active-set (x ∷ js) (suc i) j j' h a a' = ground (arith, active-set js i j j' h a a')
