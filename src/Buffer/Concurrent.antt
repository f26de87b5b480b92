-- ===== src/Buffer/Concurrent.antt =====
-- src/buffer.rs with any number of threads: a step relation over the counter and the threads, one
-- atomic operation a step.
use rust_xhttp.Common.{
  ℕ, ◌+◌, ◌-◌, ◌^◌, ◌≤◌, ◌<◌, ◌≡◌, ◌≢◌, refl, ap, sym, subst, ◌∙◌, replicate, zero, suc, List, [],
  ◌∷◌, ◌++◌, none, some, arith,
}
use rust_xhttp.Buffer.{Budget, new, next_used, release, fetch_add}

-- A thread is outside `try_reserve`, in its loop with the value that it loaded last, or holds a
-- reservation.
pub data Thread : Type 0 where
  idle : Thread
  loaded : ℕ → ℕ → Thread
  holding : ℕ → Thread

pub record System : Type 0 where
  pub budget : Budget
  pub threads : List Thread

-- One thread, between `before` and `after`, goes from one state to another.
abbrev pub Moves : System → Thread → Thread → Budget → System → Type 0
Moves s from to budget s' =
    (before : List Thread) × (after : List Thread) × (s.threads ≡ before ++ from ∷ after)
    × (s' ≡ record { budget = budget; threads = before ++ to ∷ after })

pub data Step (s : System) : System → Type 0 where
  -- the unlimited branch
  add :
      {s' : System} (bytes : ℕ)
      → s.budget.limit ≡ 0
      → Moves s idle (holding bytes) (record s.budget { used = fetch_add s.budget.used bytes }) s'
      → Step s s'
  -- `load`
  load :
      {s' : System} (bytes : ℕ)
      → s.budget.limit ≢ 0
      → Moves s idle (loaded bytes s.budget.used) s.budget s'
      → Step s s'
  -- the check refuses: `return None`
  refuse :
      {s' : System} (bytes cur : ℕ)
      → next_used s.budget.limit cur bytes ≡ none
      → Moves s (loaded bytes cur) idle s.budget s'
      → Step s s'
  -- the exchange succeeds, which it does only on the value that was loaded
  exchange :
      {s' : System} (bytes cur next : ℕ)
      → next_used s.budget.limit cur bytes ≡ some next
      → s.budget.used ≡ cur
      → Moves s (loaded bytes cur) (holding bytes) (record s.budget { used = next }) s'
      → Step s s'
  -- the exchange fails, perhaps spuriously, and gives the value that is there
  retry :
      {s' : System} (bytes cur next : ℕ)
      → next_used s.budget.limit cur bytes ≡ some next
      → Moves s (loaded bytes cur) (loaded bytes s.budget.used) s.budget s'
      → Step s s'
  -- the reservation is dropped
  drop :
      {s' : System} (bytes : ℕ)
      → Moves s (holding bytes) idle (release s.budget bytes) s'
      → Step s s'

pub data Reach (s : System) : System → Type 0 where
  here : Reach s s
  further : {t u : System} → Reach s t → Step t u → Reach s u

-- The bytes that a thread holds, and that all of them hold.
abbrev held_by : Thread → ℕ
held_by idle = 0
held_by (loaded bytes cur) = 0
held_by (holding bytes) = bytes

abbrev pub held : List Thread → ℕ
held [] = 0
held (t ∷ ts) = held_by t + held ts

held-append : (ts us : List Thread) → held (ts ++ us) ≡ held ts + held us
held-append [] us = omega arith
held-append (t ∷ ts) us = omega (arith, held-append ts us)

-- With a limit the counter is the number of bytes held, and stays within the limit.
pub record Accounted (limit : ℕ) (s : System) : Type 0 where
  pub configured : s.budget.limit ≡ limit
  pub limited : s.budget.limit ≢ 0
  pub below_max : s.budget.limit < 2 ^ 64 - 1
  pub exact : s.budget.used ≡ held s.threads
  pub within : s.budget.used ≤ s.budget.limit

-- A move keeps the account if the counter changes by what the thread's share changes.
Moves-Accounted :
    (limit : ℕ) (s : System) (from to : Thread) (b : Budget) (s' : System)
    → Moves s from to b s'
    → Accounted limit s
    → b.limit ≡ s.budget.limit
    → b.used + held_by from ≡ s.budget.used + held_by to
    → b.used ≤ s.budget.limit
    → Accounted limit s'
Moves-Accounted limit s from to b s' (before, after, e, e') a same balance fits =
    subst (Accounted limit) (sym e') (record {
      configured = same ∙ a.configured;
      limited = rw same a.limited;
      below_max = rw same a.below_max;
      exact = omega (
        arith,
        ap held e,
        held-append before (from ∷ after),
        held-append before (to ∷ after),
        a.exact,
      );
      within = rw same fits;
    })

next_used-exact :
    (limit cur bytes next : ℕ)
    → limit < 2 ^ 64 - 1
    → next_used limit cur bytes ≡ some next
    → (next ≡ cur + bytes) × (next ≤ limit)
unfolding next_used
next_used-exact limit cur bytes next h e = ground arith

release-exact :
    (b : Budget) (bytes : ℕ)
    → bytes ≤ b.used
    → b.used < 2 ^ 64
    → ((release b bytes).limit ≡ b.limit) × ((release b bytes).used + bytes ≡ b.used)
unfolding release
release-exact b bytes h small = (refl, omega arith)

-- What one thread holds is part of the whole.
holding-le :
    (before after : List Thread) (bytes : ℕ) → bytes ≤ held (before ++ holding bytes ∷ after)
holding-le before after bytes = omega (arith, held-append before (holding bytes ∷ after))

-- One atomic step of any thread keeps the account.
Step-Accounted : {limit : ℕ} {s s' : System} → Step s s' → Accounted limit s → Accounted limit s'
Step-Accounted {limit} {s} {s'} (add bytes z m) a = absurd (a.limited z)
Step-Accounted {limit} {s} {s'} (load bytes z m) a =
    Moves-Accounted limit s _ _ _ s' m a refl refl a.within
Step-Accounted {limit} {s} {s'} (refuse bytes cur e m) a =
    Moves-Accounted limit s _ _ _ s' m a refl refl a.within
Step-Accounted {limit} {s} {s'} (exchange bytes cur next e same m) a =
    let (sum, fits) = next_used-exact s.budget.limit cur bytes next a.below_max e in
    Moves-Accounted limit s (loaded bytes cur) (holding bytes) (record s.budget { used = next }) s'
      m a refl (omega arith) fits
Step-Accounted {limit} {s} {s'} (retry bytes cur next e m) a =
    Moves-Accounted limit s _ _ _ s' m a refl refl a.within
Step-Accounted {limit} {s} {s'} (drop bytes (before, after, e, e')) a =
    let part : bytes ≤ s.budget.used =
      omega (arith, ap held e, holding-le before after bytes, a.exact) in
    let (same, sum) = release-exact s.budget bytes part (omega (arith, a.within, a.below_max)) in
    Moves-Accounted limit s (holding bytes) idle (release s.budget bytes) s' (before, after, e, e')
      a same (omega arith) (omega (arith, a.within))

held-idle : (n : ℕ) → held (replicate n idle) ≡ 0
held-idle zero = refl
held-idle (suc n) = omega (arith, held-idle n)

Reach-Accounted : {limit : ℕ} {s s' : System} → Accounted limit s → Reach s s' → Accounted limit s'
Reach-Accounted a here = a
Reach-Accounted a (further r st) = Step-Accounted st (Reach-Accounted a r)

-- A budget with its threads, none of which has begun.
abbrev pub start : ℕ → ℕ → System
start limit n = record { budget = new limit; threads = replicate n idle }

start-Accounted : (limit n : ℕ) → limit ≢ 0 → limit < 2 ^ 64 - 1 → Accounted limit (start limit n)
unfolding new
start-Accounted limit n nonzero small = record {
  configured = refl;
  limited = nonzero;
  below_max = small;
  exact = sym (held-idle n);
  within = omega arith;
}

-- From a fresh budget with a limit that is neither 0 nor the largest u64, whatever the threads do
-- and however their atomic operations interleave, the counter is exactly the number of bytes
-- reserved and not yet dropped, and that number never passes the limit.
pub Reach-start :
    (limit n : ℕ) (s : System)
    → limit ≢ 0
    → limit < 2 ^ 64 - 1
    → Reach (start limit n) s
    → (s.budget.used ≡ held s.threads) × (held s.threads ≤ limit)
Reach-start limit n s nonzero small r =
    let a = Reach-Accounted {limit = limit} (start-Accounted limit n nonzero small) r in
    (a.exact, omega (arith, a.exact, a.within, a.configured))
