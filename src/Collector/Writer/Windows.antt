-- ===== src/Collector/Writer/Windows.antt =====
-- How the writer's window moves.
use vectorseam.Base.{
  ℕ, ◌+◌, ◌/◌, ◌≡◌, refl, ◌∙◌, Bool-cases, inl, inr, Option, none, some, arith, Bytes, ok, leb, max,
}
use vectorseam.Core.Window.{aligned_window_start}
use vectorseam.Collector.Reader.{FrameEvent}
use vectorseam.Collector.Writer.{Environment, Writer, CohortState, fold_pending_drops}
use vectorseam.Collector.Writer.Handlers.{
  flush_largest_cohort, largest, add_record, advance_to_receive_window, make_room, keep_budget,
  handle_frame, cohort_would_exceed_cap, global_live_budget_is_full,
}
use vectorseam.Collector.Writer.Ownership.{Owns, fold_pending_drops-SameHeld}
use vectorseam.Collector.Writer.Flushing.{flush_cohort-Flushes}
use vectorseam.Collector.Writer.Release.{advance_to_receive_window-Owns, make_room-Owns}

make_room-window :
    (env : Environment) (e : FrameEvent) (rest : ℕ) (w : Writer)
    → Owns rest w
    → (make_room env e w).current_window_start ≡ w.current_window_start
make_room-window env e rest w o = elim (Bool-cases (cohort_would_exceed_cap e.cohort e.memory w)) [
  | inl p ↦ rw p (flush_cohort-Flushes env e.cohort w.current_window_start rest w o).window
  | inr p ↦ rw p
]

keep_budget-window :
    (env : Environment) (rest : ℕ) (w : Writer)
    → Owns rest w
    → (keep_budget env w).current_window_start ≡ w.current_window_start
unfolding flush_largest_cohort
keep_budget-window env rest w o = elim (Bool-cases (global_live_budget_is_full w)) [
  | inl p ↦ rw p (after (largest w.states) refl)
  | inr p ↦ rw p
]
  where
    after :
        (x : Option (Bytes × CohortState))
        → largest w.states ≡ x
        → (flush_largest_cohort env w).current_window_start ≡ w.current_window_start
    after none p = rw (p, flush_largest_cohort)
    after (some x) p =
        rw (p, flush_largest_cohort)
          (flush_cohort-Flushes env x.0 w.current_window_start rest w o).window

advance_to_receive_window-max :
    (env : Environment) (time start : ℕ) (w : Writer)
    → aligned_window_start (time / 1000000) w.config.window_seconds ≡ ok start
    → (advance_to_receive_window env time w).current_window_start ≡ max w.current_window_start start
unfolding advance_to_receive_window
advance_to_receive_window-max env time start w p =
    elim (Bool-cases (leb start w.current_window_start)) [
      | inl e ↦ rw (p, advance_to_receive_window) (rw e (ground (arith, e)))
      | inr e ↦ rw (p, advance_to_receive_window) (rw e (ground (arith, e)))
    ]

-- Handling a frame moves the window to the later of the current one and the one that the frame was
-- received in, so the window never goes back and no frame is buffered under a window before its own. The
-- tracker counts what the writer's records, the event and others hold.
pub handle_frame-window :
    (env : Environment) (event : FrameEvent) (start rest : ℕ) (w : Writer)
    → Owns (event.memory + rest) w
    → aligned_window_start (event.receive_time / 1000000) w.config.window_seconds ≡ ok start
    → (handle_frame env event w).current_window_start ≡ max w.current_window_start start
unfolding handle_frame add_record
handle_frame-window env event start rest w o p =
    let moved = advance_to_receive_window env event.receive_time w in
    let advanced =
      advance_to_receive_window-Owns env event.receive_time (event.memory + rest) w o in
    let s = fold_pending_drops-SameHeld event.cohort moved in
    let folded : Owns (event.memory + rest) (fold_pending_drops event.cohort moved) = record {
      distinct = s.distinct advanced.distinct;
      memory = omega (arith, s.memory, s.held, advanced.memory);
    } in
    keep_budget-window env (event.memory + rest) _
      (make_room-Owns env event (event.memory + rest) _ folded)
    ∙ make_room-window env event (event.memory + rest) _ folded
    ∙ s.window
    ∙ advance_to_receive_window-max env event.receive_time start w p
