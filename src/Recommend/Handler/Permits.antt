-- ===== src/Recommend/Handler/Permits.antt =====
-- The permits: never more look-ups at a time than configured, and none is lost.
use vectorseam.Core.Cohort.{try_from}
use vectorseam.Recommend.Config.{Config}
use vectorseam.Recommend.Lookup.{
  CachedLookup, LatestRound, StoreAnswer, TransientLookupError, found, load_with_timeout, negative,
}
use vectorseam.Recommend.Handler.{
  AppState, Event, Response, await_load, begin_request, bound, cached, conclude, end_request,
  abandoned, abandon_request, load_dropped, loaded, negative_dropped, recommendation_dropped,
  released, remember, remove_waiting, reply, reply_waiting, request, run, serve_cached, step,
  try_get_with,
}
use vectorseam.Base.{
  ==0_false→lt, Bool-cases, Bytes, List, Option, Option-cases, Result, Result-cases, [], ap, arith,
  bytes_eq, err, inl, inr, length, lookup, none, ok, refl, some, some-injective, suc, ◌+◌, ◌==◌,
  ◌∙◌, ◌∷◌, ◌≡◌, ◌≤◌, ℕ,
}

length-remove_waiting :
    (cohort : Bytes) (waiting rest : List Bytes)
    → remove_waiting cohort waiting ≡ some rest
    → length waiting ≡ suc (length rest)
unfolding remove_waiting
length-remove_waiting cohort [] rest h = cc
length-remove_waiting cohort (name ∷ waiting) rest h = elim (Bool-cases (bytes_eq name cohort)) [
  | inl e ↦
      ap (λ (names : List Bytes). suc (length names)) (some-injective (rw (e, remove_waiting) at h))
  | inr e ↦ elim (Option-cases (remove_waiting cohort waiting)) [
    | inl f ↦ absurd (cc (rw (e, f, remove_waiting) at h))
    | inr (others, f) ↦
        ap suc (length-remove_waiting cohort waiting others f)
        ∙ ap (λ (names : List Bytes). suc (length names))
            (some-injective (rw (e, f, remove_waiting) at h))
  ]
]

-- The permits that are free and those that handlers hold.
abbrev pub permits : AppState → ℕ
permits state = state.load_permits + length state.waiting

permits-await_load :
    (state : AppState) (raw : Bytes) → permits (await_load state raw).0 ≡ permits state
unfolding await_load
permits-await_load state raw = elim (Bool-cases (state.load_permits == 0)) [
  | inl e ↦ rw e refl
  | inr e ↦ let n = ==0_false→lt state.load_permits e in rw e (omega (arith, n))
]

permits-begin_request :
    (state : AppState) (raw : Bytes) → permits (begin_request state raw).0 ≡ permits state
unfolding begin_request
permits-begin_request state raw = elim (Result-cases (try_from raw)) [
  | inr (failure, e) ↦ rw (e, begin_request) refl
  | inl (cohort, e) ↦
      let begun : begin_request state raw ≡ serve_cached state cohort (cached state cohort) =
        rw (e, begin_request) in
      ap (λ (r : AppState × Option Response). permits r.0) begun
      ∙ after cohort (cached state cohort)
]
  where
    after :
        (cohort : Bytes) (known : Option CachedLookup)
        → permits (serve_cached state cohort known).0 ≡ permits state
    after cohort none = permits-await_load state cohort
    after cohort (some value) = refl

module _ (from_slice : Bytes → Option LatestRound) where
  permits-remember :
      (cohort : Bytes) (value : CachedLookup) (state : AppState)
      → permits (remember cohort value state) ≡ permits state
  unfolding remember
  permits-remember cohort (found ef) state = refl
  permits-remember cohort (negative reason) state = refl

  permits-conclude :
      (cohort : Bytes) (loading : AppState × Result TransientLookupError CachedLookup)
      → permits (conclude from_slice cohort loading).0 ≡ permits loading.0
  permits-conclude cohort (state, ok value) = permits-remember cohort value state
  permits-conclude cohort (state, err failure) = refl

  permits-try_get_with :
      (state : AppState) (cohort : Bytes) (answer : StoreAnswer)
      → permits (try_get_with from_slice state cohort answer).0 ≡ permits state
  unfolding try_get_with
  permits-try_get_with state cohort answer =
      elim (Option-cases (lookup cohort state.coalesced_loads)) [
        | inr (known, e) ↦ rw (e, try_get_with) refl
        | inl e ↦ elim (Result-cases (load_with_timeout from_slice cohort answer)) [
          | inl (value, f) ↦ rw (e, f, try_get_with) refl
          | inr (failure, f) ↦ rw (e, f, try_get_with) refl
        ]
      ]

  permits-end_request :
      (state : AppState) (cohort : Bytes) (answer : StoreAnswer)
      → permits (end_request from_slice state cohort answer).0 ≡ permits state
  unfolding end_request
  permits-end_request state cohort answer =
      elim (Option-cases (remove_waiting cohort state.waiting)) [
        | inl e ↦ rw (e, end_request) refl
        | inr (waiting, e) ↦
            let shorter = length-remove_waiting cohort state.waiting waiting e in
            let loading = try_get_with from_slice (released state waiting) cohort answer in
            let kept =
              permits-conclude cohort loading
              ∙ permits-try_get_with (released state waiting) cohort answer in
            let same : permits (released state waiting) ≡ permits state = omega (arith, shorter) in
            rw (e, end_request) (kept ∙ same)
      ]

  permits-abandon_request :
      (state : AppState) (cohort : Bytes) → permits (abandon_request state cohort) ≡ permits state
  unfolding abandon_request
  permits-abandon_request state cohort = elim (Option-cases (remove_waiting cohort state.waiting)) [
    | inl e ↦ rw (e, abandon_request) refl
    | inr (waiting, e) ↦
        let shorter = length-remove_waiting cohort state.waiting waiting e in
        let same : permits (released state waiting) ≡ permits state = omega (arith, shorter) in
        rw (e, abandon_request) same
  ]

  reply-state :
      (raw : Bytes) (result : AppState × Option Response)
      → (reply from_slice raw result).0 ≡ result.0
  reply-state raw (state, none) = refl
  reply-state raw (state, some response) = refl

  reply_waiting-state :
      (result : AppState × Option (Bytes × Response))
      → (reply_waiting from_slice result).0 ≡ result.0
  reply_waiting-state (state, none) = refl
  reply_waiting-state (state, some answer) = refl

  permits-step :
      (state : AppState) (event : Event from_slice)
      → permits (step from_slice state event).0 ≡ permits state
  unfolding step
  permits-step state (request raw) =
      ap permits (reply-state raw (begin_request state raw)) ∙ permits-begin_request state raw
  permits-step state (loaded cohort answer) =
      ap permits (reply_waiting-state (end_request from_slice state cohort answer))
      ∙ permits-end_request state cohort answer
  permits-step state (recommendation_dropped cohort) = refl
  permits-step state (negative_dropped cohort) = refl
  permits-step state (abandoned cohort) = permits-abandon_request state cohort
  permits-step state (load_dropped cohort) = refl

  permits-run :
      (state : AppState) (events : List (Event from_slice))
      → permits (run from_slice state events).0 ≡ permits state
  unfolding run
  permits-run state [] = refl
  permits-run state (event ∷ events) =
      permits-run (step from_slice state event).0 events ∙ permits-step state event

  -- After any events from the server's start the free permits and the waiting handlers add up to the
  -- configured number, so that no more handlers than that wait for the store.
  pub run-permits :
      (config : Config) (events : List (Event from_slice))
      → ((run from_slice (bound config) events).0.load_permits
            + length (run from_slice (bound config) events).0.waiting
          ≡ config.max_concurrent_requests)
        × (length (run from_slice (bound config) events).0.waiting ≤ config.max_concurrent_requests)
  run-permits config events =
      let kept = permits-run (bound config) events in (omega (arith, kept), omega (arith, kept))
