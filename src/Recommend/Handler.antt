-- ===== src/Recommend/Handler.antt =====
-- crates/vectorseam-recommendation-server/src/lib.rs: the handler of a request, with the caches and the
-- permits that the requests share. A handler runs up to its wait for the store, and from there to its
-- end; in between other requests run. The caches of the crate moka may drop an entry at any moment, when
-- it is old or the cache is full: an event of its own.
pub mod Replies
pub mod Served
pub mod Permits
use vectorseam.Core.Window.{digits}
use vectorseam.Core.Cohort.{try_from, CohortName}
use vectorseam.Recommend.Config.{Config}
use vectorseam.Recommend.Lookup.{
  CachedLookup, LatestRound, NegativeLookup, StoreAnswer, TransientLookupError, defect, found,
  load_with_timeout, missing, negative,
}
use vectorseam.Base.{
  Assoc, Bytes, List, Option, Result, [], bytes_eq, codes, err, if◌then◌else◌, insert, lookup,
  negsuc, none, ok, pos, some, suc, without, ℤ, ◌++◌, ◌+◌, ◌-◌, ◌==◌, ◌∷◌, ℕ,
}

-- A status and a body.
pub record Response : Type 0 where
  pub status : ℕ
  pub body : Bytes

-- `StatusCode::….into_response()`
abbrev pub status_response : ℕ → Response
status_response status = record { status = status; body = [] }

abbrev pub bad_request : Response
bad_request = status_response 400

abbrev pub unavailable : Response
unavailable = status_response 503

-- `ef_search.to_string()`
unfoldable pub int_text : ℤ → Bytes
unfolding digits
int_text (pos n) = digits 20 n
int_text (negsuc n) = codes "-" ++ digits 20 (suc n)

unfoldable pub found_response : ℤ → Response
unfolding int_text
found_response ef = record { status = 200; body = int_text ef }

unfoldable pub negative_response : NegativeLookup → Response
negative_response missing = status_response 404
negative_response (defect reason) = status_response 500

-- The response to what a load gave.
unfoldable pub lookup_response : CachedLookup → Response
unfolding found_response negative_response
lookup_response (found ef) = found_response ef
lookup_response (negative reason) = negative_response reason

-- `waiting` are the cohorts of the handlers that wait for the store, each with a permit.
pub record AppState : Type 0 where
  pub recommendations : Assoc ℤ
  pub negative_recommendations : Assoc NegativeLookup
  pub coalesced_loads : Assoc CachedLookup
  pub load_permits : ℕ
  pub waiting : List CohortName

-- The state of `Server::bind`.
abbrev pub bound : Config → AppState
bound config = record {
  recommendations = [];
  negative_recommendations = [];
  coalesced_loads = [];
  load_permits = config.max_concurrent_requests;
  waiting = [];
}

-- The handler takes a permit and waits, unless none is left.
unfoldable pub await_load : AppState → CohortName → AppState × Option Response
await_load state cohort = if state.load_permits == 0 then (state, some unavailable) else (
  record {
    recommendations = state.recommendations;
    negative_recommendations = state.negative_recommendations;
    coalesced_loads = state.coalesced_loads;
    load_permits = state.load_permits - 1;
    waiting = cohort ∷ state.waiting;
  },
  none,
)

-- What the caches know of a cohort.
unfoldable pub cached : AppState → CohortName → Option CachedLookup
unfolding lookup
cached state cohort = elim (lookup cohort state.recommendations) [
  | some ef ↦ some (found ef)
  | none ↦ elim (lookup cohort state.negative_recommendations) [
    | some reason ↦ some (negative reason)
    | none ↦ none
  ]
]

abbrev pub serve_cached : AppState → CohortName → Option CachedLookup → AppState × Option Response
serve_cached state cohort (some known) = (state, some (lookup_response known))
serve_cached state cohort none = await_load state cohort

-- `get_ef_search` up to the wait.
unfoldable pub begin_request : AppState → Bytes → AppState × Option Response
unfolding try_from cached await_load lookup_response
begin_request state raw_cohort = elim (try_from raw_cohort) [
  | err failure ↦ (state, some bad_request)
  | ok cohort ↦ serve_cached state cohort (cached state cohort)
]

-- The first handler of the cohort leaves the list.
unfoldable pub remove_waiting : CohortName → List CohortName → Option (List CohortName)
remove_waiting cohort [] = none
remove_waiting cohort (name ∷ waiting) =
    if bytes_eq name cohort
    then some waiting
    else elim (remove_waiting cohort waiting) [ none ↦ none | some rest ↦ some (name ∷ rest) ]

-- The caches after a load, which a handler ends with: its permit goes back.
unfoldable pub remember : CohortName → CachedLookup → AppState → AppState
remember cohort (found ef) state = record {
  recommendations = insert cohort ef state.recommendations;
  negative_recommendations = state.negative_recommendations;
  coalesced_loads = state.coalesced_loads;
  load_permits = state.load_permits;
  waiting = state.waiting;
}
remember cohort (negative reason) state = record {
  recommendations = state.recommendations;
  negative_recommendations = insert cohort reason state.negative_recommendations;
  coalesced_loads = state.coalesced_loads;
  load_permits = state.load_permits;
  waiting = state.waiting;
}

abbrev pub released : AppState → List CohortName → AppState
released state waiting = record {
  recommendations = state.recommendations;
  negative_recommendations = state.negative_recommendations;
  coalesced_loads = state.coalesced_loads;
  load_permits = state.load_permits + 1;
  waiting = waiting;
}

abbrev pub coalesce : CohortName → CachedLookup → AppState → AppState
coalesce cohort value state = record {
  recommendations = state.recommendations;
  negative_recommendations = state.negative_recommendations;
  coalesced_loads = insert cohort value state.coalesced_loads;
  load_permits = state.load_permits;
  waiting = state.waiting;
}

-- A waiting handler that is dropped, its client gone: its permit goes back, and it answers nothing.
unfoldable pub abandon_request : AppState → CohortName → AppState
unfolding remove_waiting
abandon_request state cohort = elim (remove_waiting cohort state.waiting) [
  | none ↦ state
  | some waiting ↦ released state waiting
]

module _ (from_slice : Bytes → Option LatestRound) where
  -- `try_get_with`: a value that is there already, or the result of the load, which is kept unless it is
  -- an error. Handlers that wait for the same load are given the same result, one after another.
  unfoldable pub try_get_with :
      AppState → CohortName → StoreAnswer → AppState × Result TransientLookupError CachedLookup
  unfolding lookup load_with_timeout
  try_get_with state cohort answer = elim (lookup cohort state.coalesced_loads) [
    | some value ↦ (state, ok value)
    | none ↦ elim (load_with_timeout from_slice cohort answer) [
      | ok value ↦ (coalesce cohort value state, ok value)
      | err failure ↦ (state, err failure)
    ]
  ]

  abbrev pub conclude :
      CohortName → AppState × Result TransientLookupError CachedLookup → AppState × Response
  conclude cohort (state, ok value) = (remember cohort value state, lookup_response value)
  conclude cohort (state, err failure) = (state, unavailable)

  -- `get_ef_search` from the wait on.
  unfoldable pub end_request :
      AppState → CohortName → StoreAnswer → AppState × Option (CohortName × Response)
  unfolding remove_waiting try_get_with remember lookup_response
  end_request state cohort answer = elim (remove_waiting cohort state.waiting) [
    | none ↦ (state, none)
    | some waiting ↦
        let (after, response) =
          conclude cohort (try_get_with (released state waiting) cohort answer) in
        (after, some (cohort, response))
  ]

  pub data Event : Type 0 where
    request : Bytes → Event
    loaded : CohortName → StoreAnswer → Event
    abandoned recommendation_dropped negative_dropped load_dropped : CohortName → Event

  abbrev pub reply : Bytes → AppState × Option Response → AppState × List (Bytes × Response)
  reply raw_cohort (state, none) = (state, [])
  reply raw_cohort (state, some response) = (state, (raw_cohort, response) ∷ [])

  abbrev pub reply_waiting :
      AppState × Option (CohortName × Response) → AppState × List (Bytes × Response)
  reply_waiting (state, none) = (state, [])
  reply_waiting (state, some answer) = (state, answer ∷ [])

  -- An event changes the state and may send a response, here with the cohort that was asked for.
  unfoldable pub step : AppState → Event → AppState × List (Bytes × Response)
  unfolding begin_request end_request abandon_request without
  step state (request raw_cohort) = reply raw_cohort (begin_request state raw_cohort)
  step state (loaded cohort answer) = reply_waiting (end_request state cohort answer)
  step state (abandoned cohort) = (abandon_request state cohort, [])
  step state (recommendation_dropped cohort) = (
    record {
      recommendations = without cohort state.recommendations;
      negative_recommendations = state.negative_recommendations;
      coalesced_loads = state.coalesced_loads;
      load_permits = state.load_permits;
      waiting = state.waiting;
    },
    [],
  )
  step state (negative_dropped cohort) = (
    record {
      recommendations = state.recommendations;
      negative_recommendations = without cohort state.negative_recommendations;
      coalesced_loads = state.coalesced_loads;
      load_permits = state.load_permits;
      waiting = state.waiting;
    },
    [],
  )
  step state (load_dropped cohort) = (
    record {
      recommendations = state.recommendations;
      negative_recommendations = state.negative_recommendations;
      coalesced_loads = without cohort state.coalesced_loads;
      load_permits = state.load_permits;
      waiting = state.waiting;
    },
    [],
  )

  unfoldable pub run : AppState → List Event → AppState × List (Bytes × Response)
  unfolding step
  run state [] = (state, [])
  run state (event ∷ events) =
      let (after, replies) = step state event in
      let (final, more) = run after events in (final, replies ++ more)
