-- ===== src/Collector/Memory/Threads.antt =====
-- Any number of threads that reserve and release through one tracker, in any interleaving of their loads
-- and exchanges.
use vectorseam.Base.{
  ℕ, ◌+◌, ◌≤◌, ◌≡◌, refl, ap, sym, ◌∙◌, Bool, true, false, List, [], ◌∷◌, ◌++◌, arith, All,
  All-append,
}
use vectorseam.Collector.Memory.{
  Attempt, refused, reserved, retry, ReleaseAttempt, released, again, try_reserve_round,
  release_round,
}

-- Where a thread stands: outside, in the loop of `try_reserve` with the value that it last saw, holding a
-- guard, or in the loop of `release` with what is left to release and the value that it last saw.
pub data Phase : Type 0 where
  outside : Phase
  reserving : ℕ → ℕ → Phase
  holding : ℕ → Phase
  releasing : ℕ → ℕ → ℕ → Phase

-- The guard's bytes count from the exchange that reserves them to the one that releases them.
abbrev pub held : Phase → ℕ
held outside = 0
held (reserving bytes current) = 0
held (holding bytes) = bytes
held (releasing bytes left current) = bytes

abbrev pub held_by_all : List Phase → ℕ
held_by_all [] = 0
held_by_all (p ∷ ps) = held p + held_by_all ps

abbrev after_reserve : ℕ → Attempt → Phase
after_reserve bytes refused = outside
after_reserve bytes reserved = holding bytes
after_reserve bytes (retry current) = reserving bytes current

abbrev after_release : ℕ → ReleaseAttempt → Phase
after_release bytes released = outside
after_release bytes (again left current) = releasing bytes left current

-- One thread's step, with the tracker's value before and after it.
pub data ThreadStep (limit : ℕ) : ℕ → Phase → ℕ → Phase → Type 0 where
  start_reserve : {used : ℕ} (bytes : ℕ) → ThreadStep limit used outside used (reserving bytes used)
  reserve_round :
      {used next : ℕ} {q : Phase} (weak : Bool) (bytes current : ℕ)
      → next ≡ (try_reserve_round weak bytes limit current used).1
      → q ≡ after_reserve bytes (try_reserve_round weak bytes limit current used).0
      → ThreadStep limit used (reserving bytes current) next q
  start_release :
      {used : ℕ} (bytes : ℕ)
      → ThreadStep limit used (holding bytes) used (releasing bytes bytes used)
  release_step :
      {used next : ℕ} {q : Phase} (weak : Bool) (bytes left current : ℕ)
      → next ≡ (release_round weak left current used).1
      → q ≡ after_release bytes (release_round weak left current used).0
      → ThreadStep limit used (releasing bytes left current) next q

pub record System : Type 0 where
  pub used : ℕ
  pub threads : List Phase

-- A step of the system is a step of one of its threads.
pub data Step (limit : ℕ) : System → System → Type 0 where
  step :
      {s t : System} (before after : List Phase) (p q : Phase)
      → s.threads ≡ before ++ (p ∷ after)
      → t.threads ≡ before ++ (q ∷ after)
      → ThreadStep limit s.used p t.used q
      → Step limit s t

pub data Reach (limit : ℕ) (s : System) : System → Type 0 where
  here : Reach limit s s
  next : {t u : System} → Reach limit s t → Step limit t u → Reach limit s u

-- A releasing thread still has its whole guard to release, and the value that it saw covers it.
abbrev IsSound : Phase → Type 0
IsSound (releasing bytes left current) = (left ≡ bytes) × (bytes ≤ current)
IsSound outside = Unit
IsSound (reserving bytes current) = Unit
IsSound (holding bytes) = Unit

-- The tracker counts exactly the bytes of the guards that are held, within the limit.
pub record IsConsistent (limit : ℕ) (s : System) : Type 0 where
  pub counted : s.used ≡ held_by_all s.threads
  pub within : s.used ≤ limit
  pub sound : All IsSound s.threads

held-append : (ps qs : List Phase) → held_by_all (ps ++ qs) ≡ held_by_all ps + held_by_all qs
held-append [] qs = omega arith
held-append (p ∷ ps) qs = omega (arith, held-append ps qs)

reserve_counts :
    (weak : Bool) (bytes limit current used : ℕ)
    → used ≤ limit
    → let r = try_reserve_round weak bytes limit current used in
      (r.1 + 0 ≡ used + held (after_reserve bytes r.0))
      × (r.1 ≤ limit)
      × IsSound (after_reserve bytes r.0)
unfolding try_reserve_round
reserve_counts true bytes limit current used l = ground arith
reserve_counts false bytes limit current used l = ground arith

release_counts :
    (weak : Bool) (bytes current limit used : ℕ)
    → bytes ≤ used
    → used ≤ limit
    → bytes ≤ current
    → let r = release_round weak bytes current used in
      (r.1 + bytes ≡ used + held (after_release bytes r.0))
      × (r.1 ≤ limit)
      × IsSound (after_release bytes r.0)
unfolding release_round
release_counts true bytes current limit used h l s = ground arith
release_counts false bytes current limit used h l s = ground arith

-- What one step does to the count.
thread_step :
    {limit used next : ℕ} {p q : Phase}
    → ThreadStep limit used p next q
    → held p ≤ used
    → used ≤ limit
    → IsSound p
    → (next + held p ≡ used + held q) × (next ≤ limit) × IsSound q
thread_step (start_reserve bytes) h l s = (omega arith, l, tt)
thread_step {limit} {used} (reserve_round weak bytes current n e) h l s =
    rw (n, e) (reserve_counts weak bytes limit current used l)
thread_step (start_release bytes) h l s = (omega arith, l, (refl, h))
thread_step {limit} {used} (release_step weak bytes left current n e) h l s =
    rw (n, e, s.0) (release_counts weak bytes current limit used h l s.1)

All-split :
    (before after : List Phase) (p : Phase)
    → All IsSound (before ++ (p ∷ after))
    → All IsSound before × IsSound p × All IsSound after
All-split [] after p a = (tt, a.0, a.1)
All-split (b ∷ before) after p a = let (x, y, z) = All-split before after p a.1 in ((a.0, x), y, z)

Step-IsConsistent :
    {limit : ℕ} {s t : System} → Step limit s t → IsConsistent limit s → IsConsistent limit t
Step-IsConsistent {limit} {s} {t} (step before after p q e f m) c =
    let (sb, sp, sa) = All-split before after p (rw e at c.sound) in
    let total : s.used ≡ held_by_all before + (held p + held_by_all after) =
      c.counted ∙ ap held_by_all e ∙ held-append before (p ∷ after) in
    let (counts, within, sound) = thread_step m (omega arith) c.within sp in
    record {
      counted =
          let moved : t.used ≡ held_by_all before + (held q + held_by_all after) = omega arith in
          moved ∙ sym (held-append before (q ∷ after)) ∙ ap held_by_all (sym f);
      within = within;
      sound = rw f (All-append IsSound before (q ∷ after) sb (sound, sa));
    }

-- Whatever threads reserve and release under one limit, and however their loads and exchanges are
-- interleaved, spurious failures included, a tracker whose value is the sum of the guards held, within the
-- limit, stays so.
pub Reach-IsConsistent :
    {limit : ℕ} {s t : System} → IsConsistent limit s → Reach limit s t → IsConsistent limit t
Reach-IsConsistent c here = c
Reach-IsConsistent c (next r m) = Step-IsConsistent m (Reach-IsConsistent c r)

-- From a consistent system on, a thread in `release` never clamps what it releases: it releases its guard, and the
-- value that it works with covers it.
pub release_never_clamps :
    {limit : ℕ} {s t : System}
    → IsConsistent limit s
    → Reach limit s t
    → (before after : List Phase) (bytes left current : ℕ)
    → t.threads ≡ before ++ (releasing bytes left current ∷ after)
    → (left ≡ bytes) × (left ≤ current) × (left ≤ t.used)
release_never_clamps c r before after bytes left current e =
    let d = Reach-IsConsistent c r in
    let (_, sp, _) = All-split before after (releasing bytes left current) (rw e at d.sound) in
    (
      sp.0,
      omega arith,
      omega (
        arith,
        d.counted,
        ap held_by_all e,
        held-append before (releasing bytes left current ∷ after),
      ),
    )
