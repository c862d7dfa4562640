-- ===== src/Collector/Writer/Flushing.antt =====
-- Flushing gives back what a cohort's records hold.
use vectorseam.Base.{
  bytes_eq→≡, ℕ, ◌≡◌, refl, ◌∙◌, Bool, true, false, Bool-cases, inl, inr, Option, none, some, List,
  [], ◌∷◌, arith, Assoc, lookup, without, keys, Distinct-without, total-without, total_zero,
  lookup-without, Bytes, bytes_eq, if◌then◌else◌,
}
use vectorseam.Core.Cohort.{CohortName}
use vectorseam.Collector.Writer.{
  Environment, Writer, BufferedRecord, CohortState, put_flush, take_flush_batch, fold_pending_drops,
  flush_cohort, has_nothing, batch_of,
}
use vectorseam.Collector.Writer.Handlers.{flush_each, flush_all}
use vectorseam.Collector.Writer.Ownership.{
  state_guarded, held, held_at, Owns, SameHeld, put_flush-Puts, fold_pending_drops-SameHeld,
}

-- What flushing a cohort leaves: the reservations are accounted for, that cohort holds nothing, and the
-- others hold what they did.
pub record Flushes (cohort : CohortName) (rest : ℕ) (w v : Writer) : Type 0 where
  pub owns : Owns rest v
  pub at : (i : Bytes) → held_at i v ≡ (if bytes_eq cohort i then 0 else held_at i w)
  pub window : v.current_window_start ≡ w.current_window_start
  pub config : v.config ≡ w.config

-- The state in which the pending drops have been folded in.
module _ (env : Environment) (cohort : CohortName) (window_start rest : ℕ) (w : Writer)
    (o : Owns rest w) where
  -- Nothing is taken: the cohort holds nothing.
  keep-Flushes : held_at cohort w ≡ 0 → Flushes cohort rest w w
  keep-Flushes z = record { owns = o; at = at_same; window = refl; config = refl }
    where
      at_same : (i : Bytes) → held_at i w ≡ (if bytes_eq cohort i then 0 else held_at i w)
      at_same i = elim (Bool-cases (bytes_eq cohort i)) [
        | inl e ↦ rw (e, ← bytes_eq→≡ cohort i e) z
        | inr e ↦ rw e
      ]

  put-Flushes :
      (s : CohortState)
      → lookup cohort w.states ≡ some s
      → Flushes cohort rest w (
          put_flush env
            (batch_of w.config cohort window_start s)
            (record w { states = without cohort w.states }))
  put-Flushes s p =
      let batch = batch_of w.config cohort window_start s in
      let q = put_flush-Puts env batch (record w { states = without cohort w.states }) in
      let split = rw p at (total-without state_guarded cohort w.states o.distinct) in
      record {
        owns = record {
          distinct = rw q.states (Distinct-without cohort w.states o.distinct);
          memory = rw (q.states, q.memory) (omega (arith, split, o.memory));
        };
        at = λ i. rw q.states (
            rw (lookup-without cohort i w.states)
              (elim (Bool-cases (bytes_eq cohort i)) [ inl e ↦ rw e | inr e ↦ rw e ]));
        window = q.window;
        config = q.config;
      }

has_nothing-guarded : (s : CohortState) → has_nothing s ≡ true → state_guarded s ≡ 0
has_nothing-guarded s h = after s.records refl h
  where
    after : (rs : List BufferedRecord) → s.records ≡ rs → has_nothing s ≡ true → state_guarded s ≡ 0
    after [] p h = rw p
    after (r ∷ rs) p h = cc

module _ (env : Environment) (cohort : CohortName) (window_start rest : ℕ) (before : Writer)
    (o : Owns rest before) where
  pub flush_cohort-Flushes :
      Flushes cohort rest before (flush_cohort env cohort window_start before).0
  unfolding flush_cohort take_flush_batch
  flush_cohort-Flushes = after (lookup cohort w.states) refl
    where
      w : Writer
      w = fold_pending_drops cohort before

      s : SameHeld before w
      s = fold_pending_drops-SameHeld cohort before

      owns : Owns rest w
      owns = record {
        distinct = s.distinct o.distinct;
        memory = omega (arith, s.memory, s.held, o.memory);
      }

      from_before : (v : Writer) → Flushes cohort rest w v → Flushes cohort rest before v
      from_before v f = record {
        owns = f.owns;
        at = λ i. f.at i ∙ rw (s.at i);
        window = f.window ∙ s.window;
        config = f.config ∙ s.config;
      }

      at_state :
          (t : CohortState)
          → lookup cohort w.states ≡ some t
          → Flushes cohort rest before (flush_cohort env cohort window_start before).0
      at_state t p = elim (Bool-cases (has_nothing t)) [
        | inl e ↦
            rw (p, flush_cohort)
              (rw e (
                from_before w (
                  keep-Flushes env cohort window_start rest w owns
                    (rw p (has_nothing-guarded t e)))))
        | inr e ↦
            rw (p, flush_cohort)
              (rw e (
                rw (p, take_flush_batch)
                  (rw e (from_before _ (put-Flushes env cohort window_start rest w owns t p)))))
      ]

      after :
          (found : Option CohortState)
          → lookup cohort w.states ≡ found
          → Flushes cohort rest before (flush_cohort env cohort window_start before).0
      after none p =
          rw (p, flush_cohort)
            (from_before w (keep-Flushes env cohort window_start rest w owns (rw p)))
      after (some t) p = at_state t p

abbrev pub member : Bytes → List Bytes → Bool
member i [] = false
member i (k ∷ ks) = let later = member i ks in if bytes_eq k i then true else later

-- What flushing several cohorts leaves.
pub record FlushesEach (cohorts : List CohortName) (rest : ℕ) (w v : Writer) : Type 0 where
  pub owns : Owns rest v
  pub at : (i : Bytes) → held_at i v ≡ (if member i cohorts then 0 else held_at i w)
  pub window : v.current_window_start ≡ w.current_window_start
  pub config : v.config ≡ w.config

pub flush_each-FlushesEach :
    (env : Environment) (cohorts : List CohortName) (window_start rest : ℕ) (w : Writer)
    → Owns rest w
    → FlushesEach cohorts rest w (flush_each env cohorts window_start w)
unfolding flush_each
flush_each-FlushesEach env [] window_start rest w o = record {
  owns = o;
  at = λ i. refl;
  window = refl;
  config = refl;
}
flush_each-FlushesEach env (cohort ∷ cohorts) window_start rest w o =
    let f = flush_cohort-Flushes env cohort window_start rest w o in
    let g =
      flush_each-FlushesEach env cohorts window_start rest
        (flush_cohort env cohort window_start w).0 f.owns in
    record {
      owns = g.owns;
      at = λ i.
          g.at i
          ∙ rw (f.at i) (elim (Bool-cases (bytes_eq cohort i)) [
            | inl e ↦ rw e ((elim (Bool-cases (member i cohorts)) [ inl m ↦ rw m | inr m ↦ rw m ]))
            | inr e ↦ rw e
          ]);
      window = g.window ∙ f.window;
      config = g.config ∙ f.config;
    }

lookup_no_member :
    (i : Bytes) (m : Assoc CohortState) → member i (keys m) ≡ false → lookup i m ≡ none
unfolding lookup
lookup_no_member i [] h = refl
lookup_no_member i ((j, v) ∷ m) h = elim (Bool-cases (bytes_eq j i)) [
  | inl e ↦ cc
  | inr e ↦ rw e (lookup_no_member i m (rw e at h))
]

-- Flushing every cohort leaves nothing held.
pub flush_all-empties :
    (env : Environment) (window_start rest : ℕ) (w : Writer)
    → Owns rest w
    → held (flush_all env window_start w) ≡ 0
unfolding flush_all
flush_all-empties env window_start rest w o =
    let f = flush_each-FlushesEach env (keys w.states) window_start rest w o in
    total_zero state_guarded _ f.owns.distinct (λ i.
      f.at i ∙ (elim (Bool-cases (member i (keys w.states))) [
        | inl m ↦ rw m
        | inr m ↦ rw (m, lookup_no_member i w.states m)
      ]))
