-- ===== src/Recommend/Handler/Served.antt =====
-- What a client can be told: only efs in range, and only what the store says.
use vectorseam.Core.Window.{digits}
use vectorseam.Recommend.Config.{Config}
use vectorseam.Core.Cohort.{try_from, CohortName}
use vectorseam.Core.Recommendation.{max_ef_search, min_ef_search}
use vectorseam.Recommend.Lookup.Published.{load_with_timeout-IsPublished}
use vectorseam.Seam.Accounting.{contains}
use vectorseam.Recommend.Handler.Replies.{Holds, Gives, IsReply, run-AreSound}
use vectorseam.Recommend.Lookup.{
  CachedLookup, LatestRound, StoreAnswer, TransientLookupError, defect, found, is_ef,
  load_with_timeout, missing, negative,
}
use vectorseam.Recommend.Handler.{
  Event, abandoned, Response, bad_request, bound, found_response, int_text, load_dropped, loaded,
  lookup_response, negative_dropped, negative_response, recommendation_dropped, request, run,
  status_response, unavailable,
}
use vectorseam.Base.{
  All-imp, &&-eq-true, All, Bytes, List, Option, Result, [], err, inl, inr, leb→le, negsuc, ok, pos,
  refl, subst, sym, true, ◌∙◌, ◌∷◌, ◌≡◌, ◌≤◌, ◌⊎◌, ℕ,
}

module _ (from_slice : Bytes → Option LatestRound) where
  -- An ef of `MIN_EF_SEARCH..=MAX_EF_SEARCH`; there is nothing to say of a negative answer.
  abbrev IsSafe : Bytes → CachedLookup → Type 0
  IsSafe cohort (found ef) = is_ef ef ≡ true
  IsSafe cohort (negative reason) = Unit

  load-IsSafe :
      (cohort : Bytes) (answer : StoreAnswer) (value : CachedLookup)
      → load_with_timeout from_slice cohort answer ≡ ok value
      → IsSafe cohort value
  load-IsSafe cohort answer (found ef) h =
      (load_with_timeout-IsPublished from_slice cohort answer ef h).in_range
  load-IsSafe cohort answer (negative reason) h = tt

  all-Give-IsSafe : (events : List (Event from_slice)) → All (Gives from_slice IsSafe) events
  all-Give-IsSafe [] = tt
  all-Give-IsSafe (request raw ∷ events) = (tt, all-Give-IsSafe events)
  all-Give-IsSafe (loaded cohort answer ∷ events) =
      (load-IsSafe cohort answer, all-Give-IsSafe events)
  all-Give-IsSafe (recommendation_dropped cohort ∷ events) = (tt, all-Give-IsSafe events)
  all-Give-IsSafe (negative_dropped cohort ∷ events) = (tt, all-Give-IsSafe events)
  all-Give-IsSafe (abandoned cohort ∷ events) = (tt, all-Give-IsSafe events)
  all-Give-IsSafe (load_dropped cohort ∷ events) = (tt, all-Give-IsSafe events)

  -- The responses that a client can meet: an ef in range as decimal text, or a status without a body.
  abbrev pub IsSafeResponse : Bytes × Response → Type 0
  IsSafeResponse (raw, response) =
      ((ef : ℕ) × (min_ef_search ≤ ef)
        × (ef ≤ max_ef_search)
        × (response ≡ record { status = 200; body = digits 20 ef }))
      ⊎ ((status : ℕ) × (contains status (400 ∷ 404 ∷ 500 ∷ 503 ∷ []) ≡ true)
          × (response ≡ status_response status))

  lookup_response-IsSafe :
      (raw : Bytes) (value : CachedLookup)
      → IsSafe raw value
      → IsSafeResponse (raw, lookup_response value)
  unfolding lookup_response found_response int_text negative_response
  lookup_response-IsSafe raw (found (pos ef)) h =
      let (low, high) = &&-eq-true h in
      inl (ef, leb→le min_ef_search ef low, leb→le ef max_ef_search high, refl)
  lookup_response-IsSafe raw (found (negsuc n)) h = cc h
  lookup_response-IsSafe raw (negative missing) h = inr (404, refl, refl)
  lookup_response-IsSafe raw (negative (defect reason)) h = inr (500, refl, refl)

  reply-IsSafe : (entry : Bytes × Response) → IsReply from_slice IsSafe entry → IsSafeResponse entry
  reply-IsSafe (raw, response) (inl (failure, e, same)) = inr (400, refl, same)
  reply-IsSafe (raw, response) (inr (inl same)) = inr (503, refl, same)
  reply-IsSafe (raw, response) (inr (inr (value, named, safe, same))) =
      subst (λ r. IsSafeResponse (raw, r)) (sym same) (lookup_response-IsSafe raw value safe)

  -- From the start of the server on, whatever is stored and however requests, loads and drops follow one
  -- another, every response is an ef between 1 and 1000 as decimal text, or a status 400, 404, 500 or 503
  -- without a body.
  pub run-IsSafe :
      (config : Config) (events : List (Event from_slice))
      → All IsSafeResponse (run from_slice (bound config) events).1
  run-IsSafe config events =
      let start : Holds from_slice IsSafe (bound config) = record {
        positives = tt;
        negatives = tt;
        loads = tt;
        names = tt;
      } in
      All-imp (IsReply from_slice IsSafe) IsSafeResponse (run from_slice (bound config) events).1
        reply-IsSafe
        (run-AreSound from_slice IsSafe (bound config) events start (all-Give-IsSafe events)).1

  -- The caches aside: what a request is answered if the store is asked at once.
  abbrev pub answer_of : Result TransientLookupError CachedLookup → Response
  answer_of (ok value) = lookup_response value
  answer_of (err failure) = unavailable

  unfoldable pub direct_response : (CohortName → StoreAnswer) → Bytes → Response
  direct_response store raw = elim (try_from raw) [
    | err failure ↦ bad_request
    | ok cohort ↦ answer_of (load_with_timeout from_slice cohort (store cohort))
  ]

  -- The store answers as it does now whenever a look-up comes.
  abbrev pub Asks : (CohortName → StoreAnswer) → Event from_slice → Type 0
  Asks store (loaded cohort answer) = answer ≡ store cohort
  Asks store (request raw) = Unit
  Asks store (recommendation_dropped cohort) = Unit
  Asks store (negative_dropped cohort) = Unit
  Asks store (abandoned cohort) = Unit
  Asks store (load_dropped cohort) = Unit

  module _ (store : CohortName → StoreAnswer) where
    abbrev IsCurrent : Bytes → CachedLookup → Type 0
    IsCurrent cohort value = load_with_timeout from_slice cohort (store cohort) ≡ ok value

    all-Give-IsCurrent :
        (events : List (Event from_slice))
        → All (Asks store) events
        → All (Gives from_slice IsCurrent) events
    all-Give-IsCurrent [] h = tt
    all-Give-IsCurrent (request raw ∷ events) h = (tt, all-Give-IsCurrent events h.1)
    all-Give-IsCurrent (loaded cohort answer ∷ events) h =
        (λ value e. rw (sym h.0) e, all-Give-IsCurrent events h.1)
    all-Give-IsCurrent (recommendation_dropped cohort ∷ events) h =
        (tt, all-Give-IsCurrent events h.1)
    all-Give-IsCurrent (negative_dropped cohort ∷ events) h = (tt, all-Give-IsCurrent events h.1)
    all-Give-IsCurrent (abandoned cohort ∷ events) h = (tt, all-Give-IsCurrent events h.1)
    all-Give-IsCurrent (load_dropped cohort ∷ events) h = (tt, all-Give-IsCurrent events h.1)

    -- The response is that of the store, or says to try again.
    abbrev pub IsDirect : Bytes × Response → Type 0
    IsDirect (raw, response) = (response ≡ direct_response store raw) ⊎ (response ≡ unavailable)

    reply-IsDirect :
        (entry : Bytes × Response) → IsReply from_slice IsCurrent entry → IsDirect entry
    unfolding direct_response
    reply-IsDirect (raw, response) (inl (failure, e, same)) =
        inl (same ∙ sym (rw (e, direct_response)))
    reply-IsDirect (raw, response) (inr (inl same)) = inr same
    reply-IsDirect (raw, response) (inr (inr (value, named, current, same))) =
        inl (same ∙ sym (rw (named, current, direct_response)))

    -- While the store's answers do not change, every response in a run of the server from its start is the
    -- response of a look-up at once, or says that the service is unavailable, whatever the order of
    -- requests, loads and dropped cache entries.
    pub run-IsDirect :
        (config : Config) (events : List (Event from_slice))
        → All (Asks store) events
        → All IsDirect (run from_slice (bound config) events).1
    run-IsDirect config events h =
        let start : Holds from_slice IsCurrent (bound config) = record {
          positives = tt;
          negatives = tt;
          loads = tt;
          names = tt;
        } in
        All-imp (IsReply from_slice IsCurrent) IsDirect (run from_slice (bound config) events).1
          reply-IsDirect
          (run-AreSound from_slice IsCurrent (bound config) events start
            (all-Give-IsCurrent events h)).1
