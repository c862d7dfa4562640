-- ===== src/Collector/Writer/Buffers.antt =====
-- Where a frame's record goes.
use vectorseam.Base.{
  ℕ, ◌+◌, ◌/◌, ◌≡◌, refl, ap, ◌∙◌, ◌⊎◌, Bool-cases, inl, inr, Option, none, some, List, [], ◌∷◌,
  ◌++◌, Assoc, lookup, upsert, without, or_default, lookup-upsert_same, lookup-upsert_other,
  lookup-without, Bytes, bytes_eq, bytes_eq→≡, Result, ok, err, leb, ◌==◌,
}
use vectorseam.Core.Cohort.{CohortName}
use vectorseam.Core.Window.{WindowError, aligned_window_start}
use vectorseam.Collector.Counters.{take_pending_cohort_drops, take_all_pending_cohort_drops}
use vectorseam.Collector.Reader.{FrameEvent}
use vectorseam.Collector.Writer.{
  Environment, Writer, BufferedRecord, CohortState, default_state, add_received, fold_pending_drops,
  fold_drops, fold_all_pending_drops, flush_cohort, take_flush_batch, has_nothing, batch_of,
}
use vectorseam.Collector.Writer.Handlers.{
  flush_each, flush_all, flush_window, flush_largest_cohort, largest, add_record, push_record,
  buffered, advance_to_receive_window, make_room, keep_budget, handle_frame,
  cohort_would_exceed_cap, global_live_budget_is_full,
}
use vectorseam.Collector.Writer.Ownership.{Owns, put_flush-Puts}
use vectorseam.Collector.Writer.Release.{handle_frame-Owns}

abbrev pub records_of : Option CohortState → List BufferedRecord
records_of none = []
records_of (some s) = s.records

-- The records that are buffered for a cohort.
abbrev pub records_at : Bytes → Writer → List BufferedRecord
records_at i w = records_of (lookup i w.states)

-- A cohort's records are all there still, or all gone.
abbrev Leaves : Bytes → Writer → Writer → Type 0
Leaves i w v = (records_at i v ≡ records_at i w) ⊎ (records_at i v ≡ [])

Leaves-trans : (i : Bytes) (u v w : Writer) → Leaves i u v → Leaves i v w → Leaves i u w
Leaves-trans i u v w h (inr k) = inr k
Leaves-trans i u v w (inl h) (inl k) = inl (k ∙ h)
Leaves-trans i u v w (inr h) (inl k) = inr (k ∙ h)

add_received-records :
    (drops : ℕ) (cohort i : Bytes) (states : Assoc CohortState)
    → records_of (lookup i (upsert cohort default_state (add_received drops) states))
      ≡ records_of (lookup i states)
add_received-records drops cohort i states = elim (Bool-cases (bytes_eq cohort i)) [
  | inl e ↦
      rw
        (
          ← bytes_eq→≡ cohort i e,
          lookup-upsert_same cohort default_state (add_received drops) states,
        )
        (received (lookup cohort states))
  | inr e ↦ rw (lookup-upsert_other cohort i default_state (add_received drops) states e) refl
]
  where
    received :
        (found : Option CohortState)
        → records_of (some (add_received drops (or_default default_state found))) ≡ records_of found
    received none = refl
    received (some s) = refl

fold_pending_drops-records :
    (cohort i : Bytes) (w : Writer) → records_at i (fold_pending_drops cohort w) ≡ records_at i w
unfolding fold_pending_drops
fold_pending_drops-records cohort i w =
    elim (Bool-cases ((take_pending_cohort_drops w.counters cohort).1 == 0)) [
      | inl e ↦ rw e refl
      | inr e ↦ rw e (add_received-records _ cohort i w.states)
    ]

fold_drops-records :
    (taken : Assoc ℕ) (i : Bytes) (states : Assoc CohortState)
    → records_of (lookup i (fold_drops taken states)) ≡ records_of (lookup i states)
unfolding fold_drops
fold_drops-records [] i states = refl
fold_drops-records ((cohort, drops) ∷ taken) i states =
    fold_drops-records taken i (upsert cohort default_state (add_received drops) states)
    ∙ add_received-records drops cohort i states

without-records :
    (cohort i : Bytes) (states : Assoc CohortState)
    → (records_of (lookup i (without cohort states)) ≡ records_of (lookup i states))
      ⊎ (records_of (lookup i (without cohort states)) ≡ [])
without-records cohort i states = elim (Bool-cases (bytes_eq cohort i)) [
  | inl e ↦ inr (rw (lookup-without cohort i states, e) refl)
  | inr e ↦ inl (rw (lookup-without cohort i states, e) refl)
]

flush_cohort-Leaves :
    (env : Environment) (cohort : CohortName) (i : Bytes) (window_start : ℕ) (w : Writer)
    → Leaves i w (flush_cohort env cohort window_start w).0
unfolding flush_cohort take_flush_batch
flush_cohort-Leaves env cohort i window_start before =
    Leaves-trans i before w (flush_cohort env cohort window_start before).0
      (inl (fold_pending_drops-records cohort i before)) (after (lookup cohort w.states) refl)
  where
    w : Writer
    w = fold_pending_drops cohort before

    after :
        (found : Option CohortState)
        → lookup cohort w.states ≡ found
        → Leaves i w (flush_cohort env cohort window_start before).0
    after none p = rw (p, flush_cohort) (inl refl)
    after (some t) p = elim (Bool-cases (has_nothing t)) [
      | inl e ↦ rw (p, flush_cohort) (rw e (inl refl))
      | inr e ↦
          let q =
            put_flush-Puts env (batch_of w.config cohort window_start t)
              (record w { states = without cohort w.states }) in
          rw (p, flush_cohort)
            (rw e
              (rw (p, take_flush_batch) (rw e (rw q.states (without-records cohort i w.states)))))
    ]

flush_each-Leaves :
    (env : Environment) (cohorts : List CohortName) (i : Bytes) (window_start : ℕ) (w : Writer)
    → Leaves i w (flush_each env cohorts window_start w)
unfolding flush_each
flush_each-Leaves env [] i window_start w = inl refl
flush_each-Leaves env (cohort ∷ cohorts) i window_start w =
    let v = (flush_cohort env cohort window_start w).0 in
    Leaves-trans i w v (flush_each env cohorts window_start v)
      (flush_cohort-Leaves env cohort i window_start w)
      (flush_each-Leaves env cohorts i window_start v)

flush_window-Leaves : (env : Environment) (i : Bytes) (w : Writer) → Leaves i w (flush_window env w)
unfolding flush_window flush_all fold_all_pending_drops
flush_window-Leaves env i w =
    Leaves-trans i w (fold_all_pending_drops w) (flush_window env w)
      (inl (fold_drops-records (take_all_pending_cohort_drops w.counters).1 i w.states))
      (flush_each-Leaves env _ i w.current_window_start (fold_all_pending_drops w))

advance-Leaves :
    (env : Environment) (time : ℕ) (i : Bytes) (w : Writer)
    → Leaves i w (advance_to_receive_window env time w)
unfolding advance_to_receive_window
advance-Leaves env time i w =
    after (aligned_window_start (time / 1000000) w.config.window_seconds) refl
  where
    after :
        (r : Result WindowError ℕ)
        → aligned_window_start (time / 1000000) w.config.window_seconds ≡ r
        → Leaves i w (advance_to_receive_window env time w)
    after (err e) p = rw (p, advance_to_receive_window) (inl refl)
    after (ok start) p = elim (Bool-cases (leb start w.current_window_start)) [
      | inl e ↦ rw (p, advance_to_receive_window) (rw e (inl refl))
      | inr e ↦ rw (p, advance_to_receive_window) (rw e (flush_window-Leaves env i w))
    ]

make_room-Leaves :
    (env : Environment) (event : FrameEvent) (i : Bytes) (w : Writer)
    → Leaves i w (make_room env event w)
make_room-Leaves env event i w =
    elim (Bool-cases (cohort_would_exceed_cap event.cohort event.memory w)) [
      | inl p ↦ rw p (flush_cohort-Leaves env event.cohort i w.current_window_start w)
      | inr p ↦ rw p (inl refl)
    ]

keep_budget-Leaves : (env : Environment) (i : Bytes) (w : Writer) → Leaves i w (keep_budget env w)
unfolding flush_largest_cohort
keep_budget-Leaves env i w = elim (Bool-cases (global_live_budget_is_full w)) [
  | inl p ↦ rw p (after (largest w.states) refl)
  | inr p ↦ rw p (inl refl)
]
  where
    after :
        (x : Option (Bytes × CohortState))
        → largest w.states ≡ x
        → Leaves i w (flush_largest_cohort env w)
    after none p = rw (p, flush_largest_cohort) (inl refl)
    after (some x) p =
        rw (p, flush_largest_cohort) (flush_cohort-Leaves env x.0 i w.current_window_start w)

add_record-records :
    (event : FrameEvent) (w : Writer)
    → records_at event.cohort (add_record event event.memory w)
      ≡ records_at event.cohort w ++ (buffered event ∷ [])
unfolding add_record
add_record-records event w =
    rw (lookup-upsert_same event.cohort default_state (push_record event event.memory) w.states)
      (pushed (lookup event.cohort w.states))
  where
    pushed :
        (found : Option CohortState)
        → records_of (some (push_record event event.memory (or_default default_state found)))
          ≡ records_of found ++ (buffered event ∷ [])
    pushed none = refl
    pushed (some s) = refl

-- If the tracker counts what the writer's records, a frame's event and others hold, then after the frame
-- is handled it counts what the records and the others hold, and the frame with its guard is the last
-- record of its cohort: after all the records that the cohort had, or alone when they were flushed.
pub handle_frame-buffers :
    (env : Environment) (event : FrameEvent) (rest : ℕ) (w : Writer)
    → Owns (event.memory + rest) w
    → Owns rest (handle_frame env event w)
      × ((records_at event.cohort (handle_frame env event w)
            ≡ records_at event.cohort w ++ (buffered event ∷ []))
          ⊎ (records_at event.cohort (handle_frame env event w) ≡ buffered event ∷ []))
unfolding handle_frame
handle_frame-buffers env event rest w o =
    let advanced = advance_to_receive_window env event.receive_time w in
    let folded = fold_pending_drops event.cohort advanced in
    let roomy = make_room env event folded in
    let left : Leaves event.cohort w (keep_budget env roomy) =
      Leaves-trans event.cohort w advanced (keep_budget env roomy)
        (advance-Leaves env event.receive_time event.cohort w)
        (Leaves-trans event.cohort advanced folded (keep_budget env roomy)
          (inl (fold_pending_drops-records event.cohort event.cohort advanced))
          (Leaves-trans event.cohort folded roomy (keep_budget env roomy)
            (make_room-Leaves env event event.cohort folded)
            (keep_budget-Leaves env event.cohort roomy))) in
    let added = add_record-records event (keep_budget env roomy) in
    (
      handle_frame-Owns env event rest w o,
      elim left [
        | inl same ↦ inl (added ∙ ap (λ records. records ++ (buffered event ∷ [])) same)
        | inr gone ↦ inr (added ∙ ap (λ records. records ++ (buffered event ∷ [])) gone)
      ],
    )
