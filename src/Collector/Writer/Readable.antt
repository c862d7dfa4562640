-- ===== src/Collector/Writer/Readable.antt =====
-- Folding and flushing keep the writer sound.
use vectorseam.Base.{
  ℕ, ◌≤◌, ◌≡◌, refl, Bool-cases, inl, inr, Option, none, some, List, [], ◌∷◌, arith, Assoc, All,
  lookup, without, upsert, keys, AllEntries, AllEntries-without, AllEntries-upsert,
  AllEntries-lookup, ok, ◌==◌, u64_max,
}
use vectorseam.Core.Cohort.{CohortName, validate_cohort_name}
use vectorseam.Core.Window.{aligned_window_start}
use vectorseam.Collector.Counters.{take_pending_cohort_drops, take_all_pending_cohort_drops}
use vectorseam.Collector.Writer.{
  Environment, Writer, CohortState, default_state, add_received, take_flush_batch,
  fold_pending_drops, fold_drops, fold_all_pending_drops, flush_cohort, has_nothing,
}
use vectorseam.Collector.Writer.Handlers.{flush_each, flush_all, flush_window}
use vectorseam.Collector.Writer.Stored.{
  IsState, IsName, IsSound, add_received-IsState, default_state-IsState, put_flush-IsSound,
}

upsert-IsState :
    (cohort : CohortName) (drops : ℕ) (m : Assoc CohortState)
    → validate_cohort_name cohort ≡ ok tt
    → AllEntries IsState m
    → AllEntries IsState (upsert cohort default_state (add_received drops) m)
upsert-IsState cohort drops m v h =
    AllEntries-upsert IsState cohort default_state (add_received drops) m
      (add_received-IsState drops cohort default_state (default_state-IsState cohort v))
      (add_received-IsState drops) h

pub fold_pending_drops-IsSound :
    (cohort : CohortName) (w : Writer)
    → validate_cohort_name cohort ≡ ok tt
    → IsSound w
    → IsSound (fold_pending_drops cohort w)
unfolding fold_pending_drops take_pending_cohort_drops
fold_pending_drops-IsSound cohort w v h =
    elim (Bool-cases ((take_pending_cohort_drops w.counters cohort).1 == 0)) [
      | inl e ↦ rw e (record {
        states = h.states;
        ledger = ledger;
        window_seconds = h.window_seconds;
        window = h.window;
        objects = h.objects;
      })
      | inr e ↦ rw e (record {
        states = upsert-IsState cohort _ w.states v h.states;
        ledger = ledger;
        window_seconds = h.window_seconds;
        window = h.window;
        objects = h.objects;
      })
    ]
  where
    ledger : AllEntries IsName (take_pending_cohort_drops w.counters cohort).0.pending_cohort_drops
    ledger = elim (Bool-cases w.counters.poisoned) [
      | inl e ↦ rw e h.ledger
      | inr e ↦ rw e (AllEntries-without IsName cohort w.counters.pending_cohort_drops h.ledger)
    ]

fold_drops-IsState :
    (taken : Assoc ℕ) (m : Assoc CohortState)
    → AllEntries IsName taken
    → AllEntries IsState m
    → AllEntries IsState (fold_drops taken m)
unfolding fold_drops
fold_drops-IsState [] m t h = h
fold_drops-IsState ((cohort, drops) ∷ taken) m t h =
    fold_drops-IsState taken _ t.1 (upsert-IsState cohort drops m t.0 h)

fold_all_pending_drops-IsSound : (w : Writer) → IsSound w → IsSound (fold_all_pending_drops w)
unfolding fold_all_pending_drops take_all_pending_cohort_drops
fold_all_pending_drops-IsSound w h = elim (Bool-cases w.counters.poisoned) [
  | inl e ↦ rw e (record {
    states = fold_drops-IsState [] w.states tt h.states;
    ledger = h.ledger;
    window_seconds = h.window_seconds;
    window = h.window;
    objects = h.objects;
  })
  | inr e ↦ rw e (record {
    states = fold_drops-IsState w.counters.pending_cohort_drops w.states h.ledger h.states;
    ledger = tt;
    window_seconds = h.window_seconds;
    window = h.window;
    objects = h.objects;
  })
]

pub flush_cohort-IsSound :
    (env : Environment) (cohort : CohortName) (window_start : ℕ) (before : Writer)
    → validate_cohort_name cohort ≡ ok tt
    → window_start ≤ u64_max
    → IsSound before
    → IsSound (flush_cohort env cohort window_start before).0
unfolding flush_cohort take_flush_batch
flush_cohort-IsSound env cohort window_start before v b h = after (lookup cohort w.states) refl
  where
    w : Writer
    w = fold_pending_drops cohort before

    sound : IsSound w
    sound = fold_pending_drops-IsSound cohort before v h

    taken : IsSound (record w { states = without cohort w.states })
    taken = record {
      states = AllEntries-without IsState cohort w.states sound.states;
      ledger = sound.ledger;
      window_seconds = sound.window_seconds;
      window = sound.window;
      objects = sound.objects;
    }

    after :
        (found : Option CohortState)
        → lookup cohort w.states ≡ found
        → IsSound (flush_cohort env cohort window_start before).0
    after none p = rw (p, flush_cohort) sound
    after (some s) p = elim (Bool-cases (has_nothing s)) [
      | inl e ↦ rw (p, flush_cohort) (rw e sound)
      | inr e ↦
          rw (p, flush_cohort)
            (rw e (
              rw (p, take_flush_batch)
                (rw e (
                  put_flush-IsSound env cohort s _ window_start
                    (AllEntries-lookup IsState cohort w.states s sound.states p) b taken))))
    ]

flush_each-IsSound :
    (env : Environment) (cohorts : List CohortName) (window_start : ℕ) (w : Writer)
    → All (λ cohort. validate_cohort_name cohort ≡ ok tt) cohorts
    → window_start ≤ u64_max
    → IsSound w
    → IsSound (flush_each env cohorts window_start w)
unfolding flush_each
flush_each-IsSound env [] window_start w v b h = h
flush_each-IsSound env (cohort ∷ cohorts) window_start w v b h =
    flush_each-IsSound env cohorts window_start _ v.1 b
      (flush_cohort-IsSound env cohort window_start w v.0 b h)

names_of :
    (m : Assoc CohortState)
    → AllEntries IsState m
    → All (λ cohort. validate_cohort_name cohort ≡ ok tt) (keys m)
names_of [] h = tt
names_of ((j, s) ∷ m) h = (h.0.name, names_of m h.1)

pub flush_window-IsSound :
    (env : Environment) (w : Writer) → IsSound w → IsSound (flush_window env w)
unfolding flush_window flush_all
flush_window-IsSound env w h =
    let all = fold_all_pending_drops-IsSound w h in
    flush_each-IsSound env _ w.current_window_start (fold_all_pending_drops w)
      (names_of _ all.states) h.window all

pub aligned_le :
    (t s start : ℕ) → t ≤ u64_max → aligned_window_start t s ≡ ok start → start ≤ u64_max
unfolding aligned_window_start
aligned_le t s start h p = ground arith

pub with_window :
    (w : Writer) (start : ℕ)
    → start ≤ u64_max
    → IsSound w
    → IsSound (record w { current_window_start = start })
with_window w start b h = record {
  states = h.states;
  ledger = h.ledger;
  window_seconds = h.window_seconds;
  window = b;
  objects = h.objects;
}
