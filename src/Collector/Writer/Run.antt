-- ===== src/Collector/Writer/Run.antt =====
-- Over a whole run the store holds only objects that read back.
use vectorseam.Base.{
  ℕ, ◌/◌, ◌≤◌, ◌≡◌, refl, subst, Bool, true, false, Bool-cases, inl, inr, Option, none, some, List,
  [], ◌∷◌, ◌++◌, arith, Assoc, All, AllEntries, AllEntries-upsert, Bytes, map, length-append,
  Result, ok, err, if◌then◌else◌, leb, u64_max,
}
use vectorseam.Core.Cohort.{CohortName, validate_cohort_name}
use vectorseam.Core.Segment.RoundTrip.{IsTimed}
use vectorseam.Core.Window.{WindowError, aligned_window_start}
use vectorseam.Collector.Reader.{FrameEvent}
use vectorseam.Collector.Writer.{
  Environment, Writer, WriterConfig, BufferedRecord, CohortState, default_state, fold_pending_drops,
  first_time, last_time, segment_record, is_empty,
}
use vectorseam.Collector.Writer.Handlers.{
  flush_largest_cohort, largest, larger, add_record, push_record, buffered,
  advance_to_receive_window, next_window, make_room, keep_budget, handle_frame, close_window,
  Signal, frame, tick, handle, run, cohort_would_exceed_cap, global_live_budget_is_full,
}
use vectorseam.Collector.Writer.Stored.{IsState, IsStored, IsSound, default_state-IsState}
use vectorseam.Collector.Writer.Readable.{
  fold_pending_drops-IsSound, flush_cohort-IsSound, flush_window-IsSound, aligned_le, with_window,
}

advance_to_receive_window-IsSound :
    (env : Environment) (time : ℕ) (w : Writer)
    → time ≤ u64_max
    → IsSound w
    → IsSound (advance_to_receive_window env time w)
unfolding advance_to_receive_window
advance_to_receive_window-IsSound env time w b h =
    after (aligned_window_start (time / 1000000) w.config.window_seconds) refl
  where
    after :
        (r : Result WindowError ℕ)
        → aligned_window_start (time / 1000000) w.config.window_seconds ≡ r
        → IsSound (advance_to_receive_window env time w)
    after (err e) p = rw (p, advance_to_receive_window) h
    after (ok start) p = elim (Bool-cases (leb start w.current_window_start)) [
      | inl e ↦ rw (p, advance_to_receive_window) (rw e h)
      | inr e ↦
          rw (p, advance_to_receive_window)
            (rw e (
              with_window _ start (aligned_le (time / 1000000) _ start (omega arith) p)
                (flush_window-IsSound env w h)))
    ]

module _ (x y : Bytes × CohortState) (named : IsState y.0 y.1) where
  first_name : (some y ≡ some x) → validate_cohort_name x.0 ≡ ok tt
  first_name p =
      let same : y ≡ x = cc p in subst (λ z. validate_cohort_name z.0 ≡ ok tt) same named.name

  larger_name :
      (empty : Bool) (best : Option (Bytes × CohortState))
      → (best ≡ some x → validate_cohort_name x.0 ≡ ok tt)
      → (if empty then best else larger y best) ≡ some x
      → validate_cohort_name x.0 ≡ ok tt
  larger_name true best later p = later p
  larger_name false none later p = first_name p
  larger_name false (some z) later p = elim (Bool-cases (leb y.1.bytes z.1.bytes)) [
    | inl e ↦ later (rw e at p)
    | inr e ↦ first_name (rw e at p)
  ]

-- The cohort that is flushed has a name that is valid.
largest_name :
    (m : Assoc CohortState) (x : Bytes × CohortState)
    → AllEntries IsState m
    → largest m ≡ some x
    → validate_cohort_name x.0 ≡ ok tt
unfolding largest
largest_name [] x h p = cc
largest_name (y ∷ m) x h p =
    larger_name x y h.0 (is_empty y.1.records) (largest m) (largest_name m x h.1) p

flush_largest_cohort-IsSound :
    (env : Environment) (w : Writer) → IsSound w → IsSound (flush_largest_cohort env w)
unfolding flush_largest_cohort
flush_largest_cohort-IsSound env w h = after (largest w.states) refl
  where
    after :
        (x : Option (Bytes × CohortState))
        → largest w.states ≡ x
        → IsSound (flush_largest_cohort env w)
    after none p = rw (p, flush_largest_cohort) h
    after (some x) p =
        rw (p, flush_largest_cohort)
          (flush_cohort-IsSound env x.0 w.current_window_start w
            (largest_name w.states x h.states p) h.window h)

last_time_append :
    (rs : List BufferedRecord) (r : BufferedRecord) → last_time (rs ++ (r ∷ [])) ≡ r.receive_time
last_time_append [] r = refl
last_time_append (a ∷ []) r = refl
last_time_append (a ∷ b ∷ rs) r = last_time_append (b ∷ rs) r

first_time_append :
    (rs : List BufferedRecord) (r : BufferedRecord)
    → first_time rs ≤ u64_max
    → r.receive_time ≤ u64_max
    → first_time (rs ++ (r ∷ [])) ≤ u64_max
first_time_append [] r h k = k
first_time_append (a ∷ rs) r h k = h

timed_append :
    (rs : List BufferedRecord) (r : BufferedRecord)
    → All IsTimed (map segment_record rs)
    → r.receive_time ≤ u64_max
    → All IsTimed (map segment_record (rs ++ (r ∷ [])))
timed_append [] r h k = (k, tt)
timed_append (a ∷ rs) r h k = (h.0, timed_append rs r h.1 k)

push_record-IsState :
    (e : FrameEvent) (cohort : CohortName) (s : CohortState)
    → e.receive_time ≤ u64_max
    → IsState cohort s
    → IsState cohort (push_record e e.memory s)
push_record-IsState e cohort s b h = record {
  name = h.name;
  records = timed_append s.records (buffered e) h.records b;
  first = first_time_append s.records (buffered e) h.first b;
  last = rw (last_time_append s.records (buffered e)) b;
  received = ground (arith, h.received);
  count = ground (arith, h.received, h.count, length-append s.records (buffered e ∷ []));
}

-- What the reader puts into an event, and the clock into a tick: a valid name and `u64` times.
pub record IsEvent (e : FrameEvent) : Type 0 where
  pub name : validate_cohort_name e.cohort ≡ ok tt
  pub time : e.receive_time ≤ u64_max

abbrev pub IsSignal : Signal → Type 0
IsSignal (frame e) = IsEvent e
IsSignal (tick none) = Unit
IsSignal (tick (some now)) = now ≤ u64_max

add_record-IsSound :
    (e : FrameEvent) (w : Writer) → IsEvent e → IsSound w → IsSound (add_record e e.memory w)
unfolding add_record
add_record-IsSound e w v h = record {
  states =
      AllEntries-upsert IsState e.cohort default_state (push_record e e.memory) w.states
        (push_record-IsState e e.cohort default_state v.time
          (default_state-IsState e.cohort v.name))
        (λ j s. push_record-IsState e j s v.time) h.states;
  ledger = h.ledger;
  window_seconds = h.window_seconds;
  window = h.window;
  objects = h.objects;
}

-- Handling a frame keeps the writer sound: whatever it flushes reads back.
handle_frame-IsSound :
    (env : Environment) (e : FrameEvent) (w : Writer)
    → IsEvent e
    → IsSound w
    → IsSound (handle_frame env e w)
unfolding handle_frame
handle_frame-IsSound env e w v h = add_record-IsSound e _ v (budget _ (room _ folded))
  where
    folded : IsSound (fold_pending_drops e.cohort (advance_to_receive_window env e.receive_time w))
    folded =
        fold_pending_drops-IsSound e.cohort _ v.name
          (advance_to_receive_window-IsSound env e.receive_time w v.time h)

    room : (u : Writer) → IsSound u → IsSound (make_room env e u)
    room u k = elim (Bool-cases (cohort_would_exceed_cap e.cohort e.memory u)) [
      | inl p ↦ rw p (flush_cohort-IsSound env e.cohort u.current_window_start u v.name k.window k)
      | inr p ↦ rw p k
    ]

    budget : (u : Writer) → IsSound u → IsSound (keep_budget env u)
    budget u k = elim (Bool-cases (global_live_budget_is_full u)) [
      | inl p ↦ rw p (flush_largest_cohort-IsSound env u k)
      | inr p ↦ rw p k
    ]

next_window_le :
    (config : WriterConfig) (closing : ℕ) (now : Option ℕ)
    → IsSignal (tick now)
    → next_window config closing now ≤ u64_max
unfolding next_window aligned_window_start
next_window_le config closing none h = ground arith
next_window_le config closing (some now) h = ground arith

-- A run from a sound writer, on events of valid names and 64-bit times: whatever the store answers and the
-- clock says, every object that the store has acknowledged at the end reads back to a segment whose header counts its records, and no more of
-- them than frames were received, under the key of its cohort and window.
pub run-IsSound :
    (env : Environment) (signals : List Signal) (w : Writer)
    → All IsSignal signals
    → IsSound w
    → All IsStored (run env signals w).objects
unfolding run handle close_window
run-IsSound env [] w s h = (flush_window-IsSound env w h).objects
run-IsSound env (frame e ∷ signals) w s h =
    run-IsSound env signals (handle_frame env e w) s.1 (handle_frame-IsSound env e w s.0 h)
run-IsSound env (tick now ∷ signals) w s h = run-IsSound env signals _ s.1 (
    with_window _ _ (next_window_le w.config w.current_window_start now s.0)
      (flush_window-IsSound env w h))
