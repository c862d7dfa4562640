-- ===== src/Collector/Writer/Ownership.antt =====
-- The guards of the buffered records: the writer holds what it has reserved, and gives all of it back.
use vectorseam.Base.{
  ℕ, ◌+◌, ◌-◌, ◌≡◌, refl, ◌∙◌, Bool-cases, inl, inr, List, [], ◌∷◌, ◌++◌, arith, Assoc, lookup,
  upsert, Distinct, Distinct-upsert, total, total-upsert, weight_of, weight_of-upsert, Bytes, ◌==◌,
  map, Result, ok, err,
}
use vectorseam.Core.Cohort.{CohortName}
use vectorseam.Core.Segment.{SegmentError, write_segment}
use vectorseam.Core.Window.{WindowError, object_key}
use vectorseam.Collector.Memory.{release}
use vectorseam.Collector.Counters.{take_pending_cohort_drops, take_all_pending_cohort_drops}
use vectorseam.Collector.Writer.{
  Environment, Writer, BufferedRecord, CohortState, FlushBatch, PutOutcome, stored, failed,
  timed_out, default_state, add_received, drop_records, after_put, put_flush, fold_pending_drops,
  fold_drops, fold_all_pending_drops, segment_record,
}

-- The bytes that the guards of some records hold.
abbrev pub guarded : List BufferedRecord → ℕ
guarded [] = 0
guarded (r ∷ rs) = r.memory + guarded rs

abbrev pub state_guarded : CohortState → ℕ
state_guarded s = guarded s.records

-- The bytes that all of the writer's records hold.
abbrev pub held : Writer → ℕ
held w = total state_guarded w.states

-- The tracker counts what the writer's records hold and `rest`, which others hold.
pub record Owns (rest : ℕ) (w : Writer) : Type 0 where
  pub distinct : Distinct w.states
  pub memory : w.memory ≡ held w + rest

pub guarded-append : (rs ss : List BufferedRecord) → guarded (rs ++ ss) ≡ guarded rs + guarded ss
guarded-append [] ss = omega arith
guarded-append (r ∷ rs) ss = omega (arith, guarded-append rs ss)

pub drop_records-guarded :
    (rs : List BufferedRecord) (used : ℕ) → drop_records rs used ≡ used - guarded rs
unfolding drop_records release
drop_records-guarded [] used = omega arith
drop_records-guarded (r ∷ rs) used = ground (arith, drop_records-guarded rs (release used r.memory))

-- What putting a batch leaves alone, and the memory it frees, however the put ends.
pub record Puts (batch : FlushBatch) (w v : Writer) : Type 0 where
  pub memory : v.memory ≡ w.memory - guarded batch.records
  pub states : v.states ≡ w.states
  pub window : v.current_window_start ≡ w.current_window_start
  pub config : v.config ≡ w.config

after_put-Puts :
    (batch : FlushBatch) (w v : Writer) (o : PutOutcome) (key segment : Bytes)
    → Puts batch w v
    → Puts batch w (after_put o key segment v)
unfolding after_put
after_put-Puts batch w v stored key segment p = record {
  memory = p.memory;
  states = p.states;
  window = p.window;
  config = p.config;
}
after_put-Puts batch w v failed key segment p = record {
  memory = p.memory;
  states = p.states;
  window = p.window;
  config = p.config;
}
after_put-Puts batch w v timed_out key segment p = record {
  memory = p.memory;
  states = p.states;
  window = p.window;
  config = p.config;
}

pub put_flush-Puts :
    (env : Environment) (batch : FlushBatch) (w : Writer) → Puts batch w (put_flush env batch w)
unfolding put_flush
put_flush-Puts env batch w =
    after (write_segment batch.header (map segment_record batch.records)) refl
  where
    freed : drop_records batch.records w.memory ≡ w.memory - guarded batch.records
    freed = drop_records-guarded batch.records w.memory

    at_key :
        (segment : Bytes) (r : Result WindowError Bytes)
        → write_segment batch.header (map segment_record batch.records) ≡ ok segment
        → object_key batch.header.cohort batch.window_start (env.ulid w.keys_made) ≡ r
        → Puts batch w (put_flush env batch w)
    at_key segment (err e) p q =
        rw (p, put_flush)
          (rw (q, put_flush)
            (record { memory = freed; states = refl; window = refl; config = refl }))
    at_key segment (ok key) p q =
        rw (p, put_flush)
          (rw (q, put_flush)
            (after_put-Puts batch w _ (env.put w.keys_made) key segment
              (record { memory = freed; states = refl; window = refl; config = refl })))

    after :
        (r : Result SegmentError Bytes)
        → write_segment batch.header (map segment_record batch.records) ≡ r
        → Puts batch w (put_flush env batch w)
    after (err e) p =
        rw (p, put_flush) (record { memory = freed; states = refl; window = refl; config = refl })
    after (ok segment) p =
        at_key segment (object_key batch.header.cohort batch.window_start (env.ulid w.keys_made)) p
          refl

-- What a cohort's records hold.
abbrev pub held_at : Bytes → Writer → ℕ
held_at i w = weight_of state_guarded (lookup i w.states)

-- Two writers with the same reservations.
pub record SameHeld (w v : Writer) : Type 0 where
  pub distinct : Distinct w.states → Distinct v.states
  pub held : held v ≡ held w
  pub at : (i : Bytes) → held_at i v ≡ held_at i w
  pub memory : v.memory ≡ w.memory
  pub window : v.current_window_start ≡ w.current_window_start
  pub config : v.config ≡ w.config

pub fold_pending_drops-SameHeld :
    (cohort : CohortName) (w : Writer) → SameHeld w (fold_pending_drops cohort w)
unfolding fold_pending_drops
fold_pending_drops-SameHeld cohort w =
    elim (Bool-cases ((take_pending_cohort_drops w.counters cohort).1 == 0)) [
      | inl e ↦ rw e (record {
        distinct = λ d. d;
        held = refl;
        at = λ i. refl;
        memory = refl;
        window = refl;
        config = refl;
      })
      | inr e ↦ rw e (record {
        distinct = Distinct-upsert cohort _ _ w.states;
        held =
            total-upsert state_guarded cohort default_state _ w.states 0 (held w) refl
              (λ v b. omega arith) (omega arith)
            ∙ omega arith;
        at = λ i. weight_of-upsert state_guarded cohort default_state _ i w.states refl (λ v. refl);
        memory = refl;
        window = refl;
        config = refl;
      })
    ]

-- Folding the whole ledger keeps what the states hold.
fold_drops-total :
    (taken : Assoc ℕ) (states : Assoc CohortState)
    → (Distinct states → Distinct (fold_drops taken states))
      × (total state_guarded (fold_drops taken states) ≡ total state_guarded states)
unfolding fold_drops
fold_drops-total [] states = (λ d. d, refl)
fold_drops-total ((cohort, drops) ∷ taken) states =
    let (d, t) = fold_drops-total taken (upsert cohort default_state (add_received drops) states) in
    let one =
      total-upsert state_guarded cohort default_state (add_received drops) states 0
        (total state_guarded states) refl (λ v b. omega arith) (omega arith) in
    (λ h. d (Distinct-upsert cohort _ _ states h), omega arith)

pub fold_all_pending_drops-Owns :
    (rest : ℕ) (w : Writer) → Owns rest w → Owns rest (fold_all_pending_drops w)
unfolding fold_all_pending_drops
fold_all_pending_drops-Owns rest w o =
    let (d, t) = fold_drops-total (take_all_pending_cohort_drops w.counters).1 w.states in
    record { distinct = d o.distinct; memory = omega (arith, o.memory, t) }
