-- ===== src/Collector/Writer/Release.antt =====
-- Over a whole run the writer gives back every reservation that it was handed.
use vectorseam.Base.{
  ℕ, ◌+◌, ◌/◌, ◌≡◌, refl, Bool-cases, inl, inr, Option, none, some, List, [], ◌∷◌, arith,
  Distinct-upsert, total-upsert, Bytes, Result, ok, err, leb,
}
use vectorseam.Core.Window.{WindowError, aligned_window_start}
use vectorseam.Collector.Reader.{FrameEvent}
use vectorseam.Collector.Writer.{
  Environment, Writer, CohortState, default_state, fold_pending_drops, fold_all_pending_drops,
}
use vectorseam.Collector.Writer.Handlers.{
  flush_all, flush_window, flush_largest_cohort, largest, add_record, push_record,
  advance_to_receive_window, make_room, keep_budget, handle_frame, close_window, Signal, frame,
  tick, handle, run, cohort_would_exceed_cap, global_live_budget_is_full,
}
use vectorseam.Collector.Writer.Ownership.{
  state_guarded, held, Owns, fold_pending_drops-SameHeld, fold_all_pending_drops-Owns,
  guarded-append,
}
use vectorseam.Collector.Writer.Flushing.{
  flush_cohort-Flushes, flush_each-FlushesEach, flush_all-empties,
}

flush_window-Owns :
    (env : Environment) (rest : ℕ) (w : Writer) → Owns rest w → Owns rest (flush_window env w)
unfolding flush_window flush_all
flush_window-Owns env rest w o =
    (flush_each-FlushesEach env _ w.current_window_start rest (fold_all_pending_drops w)
      (fold_all_pending_drops-Owns rest w o)).owns

flush_window-empties :
    (env : Environment) (rest : ℕ) (w : Writer) → Owns rest w → (flush_window env w).memory ≡ rest
unfolding flush_window
flush_window-empties env rest w o =
    let all = fold_all_pending_drops-Owns rest w o in
    omega (
      arith,
      flush_all-empties env w.current_window_start rest (fold_all_pending_drops w) all,
      (flush_window-Owns env rest w o).memory,
    )

pub advance_to_receive_window-Owns :
    (env : Environment) (time rest : ℕ) (w : Writer)
    → Owns rest w
    → Owns rest (advance_to_receive_window env time w)
unfolding advance_to_receive_window
advance_to_receive_window-Owns env time rest w o =
    after (aligned_window_start (time / 1000000) w.config.window_seconds) refl
  where
    after :
        (r : Result WindowError ℕ)
        → aligned_window_start (time / 1000000) w.config.window_seconds ≡ r
        → Owns rest (advance_to_receive_window env time w)
    after (err e) p = rw (p, advance_to_receive_window) o
    after (ok start) p = elim (Bool-cases (leb start w.current_window_start)) [
      | inl e ↦ rw (p, advance_to_receive_window) (rw e o)
      | inr e ↦
          let f = flush_window-Owns env rest w o in
          rw (p, advance_to_receive_window)
            (rw e (record { distinct = f.distinct; memory = f.memory }))
    ]

pub make_room-Owns :
    (env : Environment) (e : FrameEvent) (rest : ℕ) (w : Writer)
    → Owns rest w
    → Owns rest (make_room env e w)
make_room-Owns env e rest w o = elim (Bool-cases (cohort_would_exceed_cap e.cohort e.memory w)) [
  | inl p ↦ rw p (flush_cohort-Flushes env e.cohort w.current_window_start rest w o).owns
  | inr p ↦ rw p o
]

flush_largest_cohort-Owns :
    (env : Environment) (rest : ℕ) (w : Writer)
    → Owns rest w
    → Owns rest (flush_largest_cohort env w)
unfolding flush_largest_cohort
flush_largest_cohort-Owns env rest w o = after (largest w.states) refl
  where
    after :
        (x : Option (Bytes × CohortState))
        → largest w.states ≡ x
        → Owns rest (flush_largest_cohort env w)
    after none p = rw (p, flush_largest_cohort) o
    after (some x) p =
        rw (p, flush_largest_cohort)
          (flush_cohort-Flushes env x.0 w.current_window_start rest w o).owns

keep_budget-Owns :
    (env : Environment) (rest : ℕ) (w : Writer) → Owns rest w → Owns rest (keep_budget env w)
keep_budget-Owns env rest w o = elim (Bool-cases (global_live_budget_is_full w)) [
  | inl p ↦ rw p (flush_largest_cohort-Owns env rest w o)
  | inr p ↦ rw p o
]

add_record-Owns :
    (e : FrameEvent) (rest : ℕ) (w : Writer)
    → Owns (e.memory + rest) w
    → Owns rest (add_record e e.memory w)
unfolding add_record
add_record-Owns e rest w o =
    let one =
      total-upsert state_guarded e.cohort default_state (push_record e e.memory) w.states e.memory
        (held w) (omega arith) (λ s b. omega (arith, guarded-append s.records _)) (omega arith) in
    record {
      distinct = Distinct-upsert e.cohort _ _ w.states o.distinct;
      memory = omega (arith, o.memory, one);
    }

-- A frame's guard passes from the event to the buffered record, whatever is flushed on the way: if the
-- tracker counts what the writer's records, the event and others hold, it counts afterwards what the
-- records and the others hold.
pub handle_frame-Owns :
    (env : Environment) (event : FrameEvent) (rest : ℕ) (w : Writer)
    → Owns (event.memory + rest) w
    → Owns rest (handle_frame env event w)
unfolding handle_frame
handle_frame-Owns env event rest w o =
    let advanced =
      advance_to_receive_window-Owns env event.receive_time (event.memory + rest) w o in
    let s =
      fold_pending_drops-SameHeld event.cohort
        (advance_to_receive_window env event.receive_time w) in
    let folded : Owns (event.memory + rest)
        (fold_pending_drops event.cohort (advance_to_receive_window env event.receive_time w)) =
      record {
        distinct = s.distinct advanced.distinct;
        memory = omega (arith, s.memory, s.held, advanced.memory);
      } in
    add_record-Owns event rest _ (keep_budget-Owns env _ _ (make_room-Owns env event _ _ folded))

-- If the tracker counts what the writer's records and others hold, closing a window leaves it with what the
-- others hold, and no record with the writer, whether the segments could be put or not.
pub close_window-empties :
    (env : Environment) (now : Option ℕ) (rest : ℕ) (w : Writer)
    → Owns rest w
    → (held (close_window env now w) ≡ 0) × ((close_window env now w).memory ≡ rest)
unfolding close_window
close_window-empties env now rest w o =
    let f = flush_window-empties env rest w o in
    (omega (arith, f, (flush_window-Owns env rest w o).memory), f)

-- What the events that wait in the channel hold.
abbrev pub in_flight : List Signal → ℕ
in_flight [] = 0
in_flight (frame e ∷ signals) = e.memory + in_flight signals
in_flight (tick now ∷ signals) = in_flight signals

-- A run to the end of the channel gives back every byte: if the tracker counts what the writer's records,
-- the events still to come and others hold, it ends with what the others hold, whatever the store
-- answers and the clock says.
pub run_releases :
    (env : Environment) (signals : List Signal) (rest : ℕ) (w : Writer)
    → Owns (in_flight signals + rest) w
    → (run env signals w).memory ≡ rest
unfolding run handle close_window
run_releases env [] rest w o =
    flush_window-empties env rest w
      (record { distinct = o.distinct; memory = omega (arith, o.memory) })
run_releases env (frame e ∷ signals) rest w o =
    run_releases env signals rest (handle_frame env e w) (
      handle_frame-Owns env e (in_flight signals + rest) w
        (record { distinct = o.distinct; memory = omega (arith, o.memory) }))
run_releases env (tick now ∷ signals) rest w o =
    let f = flush_window-Owns env (in_flight signals + rest) w o in
    run_releases env signals rest (close_window env now w)
      (record { distinct = f.distinct; memory = f.memory })
