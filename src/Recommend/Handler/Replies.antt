-- ===== src/Recommend/Handler/Replies.antt =====
-- What every response says, whatever requests, loads and drops came before it.
use vectorseam.Recommend.Lookup.{
  StoreAnswer, TransientLookupError, CachedLookup, LatestRound, found, load_with_timeout, negative,
}
use vectorseam.Core.Cohort.{try_from, CohortNameError, validate_cohort_name}
use vectorseam.Recommend.Handler.{
  coalesce, conclude, released, run, step, end_request, remember, remove_waiting, reply_waiting,
  serve_cached, try_get_with, AppState, Event, Response, await_load, bad_request, begin_request,
  cached, abandoned, abandon_request, load_dropped, loaded, lookup_response, negative_dropped,
  recommendation_dropped, reply, request, unavailable,
}
use vectorseam.Base.{
  all, ap, bytes_eq, bytes_eq→≡, ◌∙◌, All-append, AllEntries-without, Result-cases, [], ◌∷◌,
  >>=-eq-ok, All, AllEntries, AllEntries-lookup, Bool-cases, Bytes, List, Option, Option-cases,
  Result, err, inl, inr, lookup, none, ok, ok-injective, refl, some, some-injective, subst, sym,
  ◌==◌, ◌≡◌, ◌⊎◌,
}

try_from-eq-ok : (raw cohort : Bytes) → try_from raw ≡ ok cohort → cohort ≡ raw
unfolding try_from
try_from-eq-ok raw cohort h =
    let (checked, _, result) = >>=-eq-ok (validate_cohort_name raw) _ h in sym (ok-injective result)

-- A name that is accepted.
abbrev pub IsName : Bytes → Type 0
IsName name = try_from name ≡ ok name

-- The handler that leaves was among those that waited.
remove_waiting-All :
    (cohort : Bytes) (waiting rest : List Bytes)
    → remove_waiting cohort waiting ≡ some rest
    → All IsName waiting
    → IsName cohort × All IsName rest
unfolding remove_waiting
remove_waiting-All cohort [] rest h names = cc
remove_waiting-All cohort (name ∷ waiting) rest h names = elim (Bool-cases (bytes_eq name cohort)) [
  | inl e ↦ (
    subst IsName (bytes_eq→≡ name cohort e) names.0,
    subst (All IsName) (some-injective (rw (e, remove_waiting) at h)) names.1,
  )
  | inr e ↦ elim (Option-cases (remove_waiting cohort waiting)) [
    | inl f ↦ absurd (cc (rw (e, f, remove_waiting) at h))
    | inr (others, f) ↦
        let (one, all) = remove_waiting-All cohort waiting others f names.1 in
        (one, subst (All IsName) (some-injective (rw (e, f, remove_waiting) at h)) (names.0, all))
  ]
]

-- A state whose caches hold only what `P` says of a cohort, and the replies that come of it.
module _ (from_slice : Bytes → Option LatestRound) (P : Bytes → CachedLookup → Type 0) where
  pub record Holds (state : AppState) : Type 0 where
    pub positives : AllEntries (λ cohort ef. P cohort (found ef)) state.recommendations
    pub negatives :
        AllEntries (λ cohort reason. P cohort (negative reason)) state.negative_recommendations
    pub loads : AllEntries P state.coalesced_loads
    pub names : All IsName state.waiting

  -- A bad name is refused; a good one gets what `P` says, or the word that nothing is known now.
  abbrev pub IsReply : Bytes × Response → Type 0
  IsReply (raw, response) =
      ((failure : CohortNameError) × (try_from raw ≡ err failure) × (response ≡ bad_request))
      ⊎ ((response ≡ unavailable)
          ⊎ ((value : CachedLookup) × IsName raw
              × P raw value
              × (response ≡ lookup_response value)))

  -- What the store answers is as `P` says.
  abbrev pub Gives : Event from_slice → Type 0
  Gives (loaded cohort answer) =
      (value : CachedLookup)
      → load_with_timeout from_slice cohort answer ≡ ok value
      → P cohort value
  Gives (request raw) = Unit
  Gives (recommendation_dropped cohort) = Unit
  Gives (negative_dropped cohort) = Unit
  Gives (abandoned cohort) = Unit
  Gives (load_dropped cohort) = Unit

  -- A state and the replies so far.
  abbrev AreSound : AppState × List (Bytes × Response) → Type 0
  AreSound (state, replies) = Holds state × All IsReply replies

  cached-P :
      (state : AppState) (cohort : Bytes) (value : CachedLookup)
      → Holds state
      → cached state cohort ≡ some value
      → P cohort value
  unfolding cached
  cached-P state cohort value k h = elim (Option-cases (lookup cohort state.recommendations)) [
    | inr (ef, e) ↦
        subst (P cohort) (some-injective (rw (e, cached) at h))
          (AllEntries-lookup (λ c n. P c (found n)) cohort state.recommendations ef k.positives e)
    | inl e ↦ elim (Option-cases (lookup cohort state.negative_recommendations)) [
      | inr (reason, f) ↦ subst (P cohort) (some-injective (rw (e, f, cached) at h)) (
          AllEntries-lookup (λ c r. P c (negative r)) cohort state.negative_recommendations reason
            k.negatives f)
      | inl f ↦ absurd (cc (rw (e, f, cached) at h))
    ]
  ]

  await_load-AreSound :
      (state : AppState) (raw : Bytes)
      → Holds state
      → IsName raw
      → AreSound (reply from_slice raw (await_load state raw))
  unfolding await_load
  await_load-AreSound state raw k named = elim (Bool-cases (state.load_permits == 0)) [
    | inl e ↦ rw e (k, (inr (inl refl), tt))
    | inr e ↦ rw e (
      record {
        positives = k.positives;
        negatives = k.negatives;
        loads = k.loads;
        names = (named, k.names);
      },
      tt,
    )
  ]

  serve_cached-AreSound :
      (state : AppState) (raw : Bytes)
      → Holds state
      → IsName raw
      → (known : Option CachedLookup) → cached state raw ≡ known
      → AreSound (reply from_slice raw (serve_cached state raw known))
  serve_cached-AreSound state raw k named none p = await_load-AreSound state raw k named
  serve_cached-AreSound state raw k named (some value) p =
      (k, (inr (inr (value, named, cached-P state raw value k p, refl)), tt))

  begin_request-AreSound :
      (state : AppState) (raw : Bytes)
      → Holds state
      → AreSound (reply from_slice raw (begin_request state raw))
  unfolding begin_request
  begin_request-AreSound state raw k = elim (Result-cases (try_from raw)) [
    | inl (cohort, e) ↦
        let begun : begin_request state raw ≡ serve_cached state cohort (cached state cohort) =
          rw (e, begin_request) in
        let named : IsName raw = e ∙ ap ok (try_from-eq-ok raw cohort e) in
        subst (λ r. AreSound (reply from_slice raw r)) (sym begun)
          (subst (λ c. AreSound (reply from_slice raw (serve_cached state c (cached state c))))
            (sym (try_from-eq-ok raw cohort e))
            (serve_cached-AreSound state raw k named (cached state raw) refl))
    | inr (failure, e) ↦
        let begun : begin_request state raw ≡ (state, some bad_request) = rw (e, begin_request) in
        subst (λ r. AreSound (reply from_slice raw r)) (sym begun) (k, (inl (failure, e, refl), tt))
  ]

  remember-Holds :
      (cohort : Bytes) (value : CachedLookup) (state : AppState)
      → P cohort value
      → Holds state
      → Holds (remember cohort value state)
  unfolding remember
  remember-Holds cohort (found ef) state p k = record {
    positives =
        (p, AllEntries-without (λ c n. P c (found n)) cohort state.recommendations k.positives);
    negatives = k.negatives;
    loads = k.loads;
    names = k.names;
  }
  remember-Holds cohort (negative reason) state p k = record {
    positives = k.positives;
    negatives = (
      p,
      AllEntries-without (λ c r. P c (negative r)) cohort state.negative_recommendations
          k.negatives,
    );
    loads = k.loads;
    names = k.names;
  }

  conclude-AreSound :
      (cohort : Bytes) (loading : AppState × Result TransientLookupError CachedLookup)
      → IsName cohort
      → Holds loading.0
      → ((value : CachedLookup) → loading.1 ≡ ok value → P cohort value)
      → Holds (conclude from_slice cohort loading).0
        × IsReply (cohort, (conclude from_slice cohort loading).1)
  conclude-AreSound cohort (state, ok value) named k gives = (
    remember-Holds cohort value state (gives value refl) k,
    inr (inr (value, named, gives value refl, refl)),
  )
  conclude-AreSound cohort (state, err failure) named k gives = (k, inr (inl refl))

  -- What a load gives is as `P` says, and so is what it keeps.
  abbrev IsLoad : Bytes → AppState × Result TransientLookupError CachedLookup → Type 0
  IsLoad cohort (state, result) =
      Holds state × ((value : CachedLookup) → result ≡ ok value → P cohort value)

  try_get_with-IsLoad :
      (state : AppState) (cohort : Bytes) (answer : StoreAnswer)
      → Holds state
      → Gives (loaded cohort answer)
      → IsLoad cohort (try_get_with from_slice state cohort answer)
  unfolding try_get_with
  try_get_with-IsLoad state cohort answer k gives =
      elim (Option-cases (lookup cohort state.coalesced_loads)) [
        | inr (known, e) ↦
            let kept : try_get_with from_slice state cohort answer ≡ (state, ok known) =
              rw (e, try_get_with) in
            subst (IsLoad cohort) (sym kept) (
              k,
              λ value h.
                  subst (P cohort) (ok-injective h)
                    (AllEntries-lookup P cohort state.coalesced_loads known k.loads e),
            )
        | inl e ↦ elim (Result-cases (load_with_timeout from_slice cohort answer)) [
          | inl (value, f) ↦
              let kept : try_get_with from_slice state cohort answer
                  ≡ (coalesce cohort value state, ok value) =
                rw (e, f, try_get_with) in
              subst (IsLoad cohort) (sym kept) (
                record {
                  positives = k.positives;
                  negatives = k.negatives;
                  loads =
                      (gives value f, AllEntries-without P cohort state.coalesced_loads k.loads);
                  names = k.names;
                },
                λ given h. subst (P cohort) (ok-injective h) (gives value f),
              )
          | inr (failure, f) ↦
              let kept : try_get_with from_slice state cohort answer ≡ (state, err failure) =
                rw (e, f, try_get_with) in
              subst (IsLoad cohort) (sym kept) (k, λ value h. cc h)
        ]
      ]

  end_request-AreSound :
      (state : AppState) (cohort : Bytes) (answer : StoreAnswer)
      → Holds state
      → Gives (loaded cohort answer)
      → AreSound (reply_waiting from_slice (end_request from_slice state cohort answer))
  unfolding end_request
  end_request-AreSound state cohort answer k gives =
      elim (Option-cases (remove_waiting cohort state.waiting)) [
        | inl e ↦
            let ended : end_request from_slice state cohort answer ≡ (state, none) =
              rw (e, end_request) in
            subst (λ r. AreSound (reply_waiting from_slice r)) (sym ended) (k, tt)
        | inr (waiting, e) ↦
            let loading = try_get_with from_slice (released state waiting) cohort answer in
            let ended : end_request from_slice state cohort answer ≡ (
              (conclude from_slice cohort loading).0,
              some (cohort, (conclude from_slice cohort loading).1),
            ) =
              rw (e, end_request) in
            let (named, others) = remove_waiting-All cohort state.waiting waiting e k.names in
            let free : Holds (released state waiting) = record {
              positives = k.positives;
              negatives = k.negatives;
              loads = k.loads;
              names = others;
            } in
            let (after, gives_back) =
              try_get_with-IsLoad (released state waiting) cohort answer free gives in
            let (final, replied) = conclude-AreSound cohort loading named after gives_back in
            subst (λ r. AreSound (reply_waiting from_slice r)) (sym ended) (final, (replied, tt))
      ]

  abandon_request-Holds :
      (state : AppState) (cohort : Bytes) → Holds state → Holds (abandon_request state cohort)
  unfolding abandon_request
  abandon_request-Holds state cohort k = elim (Option-cases (remove_waiting cohort state.waiting)) [
    | inl e ↦ rw (e, abandon_request) k
    | inr (waiting, e) ↦
        rw (e, abandon_request)
          (record {
            positives = k.positives;
            negatives = k.negatives;
            loads = k.loads;
            names = (remove_waiting-All cohort state.waiting waiting e k.names).1;
          })
  ]

  step-AreSound :
      (state : AppState) (event : Event from_slice)
      → Holds state
      → Gives event
      → AreSound (step from_slice state event)
  unfolding step
  step-AreSound state (request raw) k gives = begin_request-AreSound state raw k
  step-AreSound state (loaded cohort answer) k gives =
      end_request-AreSound state cohort answer k gives
  step-AreSound state (recommendation_dropped cohort) k gives = (
    record {
      positives =
          AllEntries-without (λ c n. P c (found n)) cohort state.recommendations k.positives;
      negatives = k.negatives;
      loads = k.loads;
      names = k.names;
    },
    tt,
  )
  step-AreSound state (negative_dropped cohort) k gives = (
    record {
      positives = k.positives;
      negatives =
          AllEntries-without (λ c r. P c (negative r)) cohort state.negative_recommendations
            k.negatives;
      loads = k.loads;
      names = k.names;
    },
    tt,
  )
  step-AreSound state (abandoned cohort) k gives = (abandon_request-Holds state cohort k, tt)
  step-AreSound state (load_dropped cohort) k gives = (
    record {
      positives = k.positives;
      negatives = k.negatives;
      loads = AllEntries-without P cohort state.coalesced_loads k.loads;
      names = k.names;
    },
    tt,
  )

  pub run-AreSound :
      (state : AppState) (events : List (Event from_slice))
      → Holds state
      → All Gives events
      → Holds (run from_slice state events).0 × All IsReply (run from_slice state events).1
  unfolding run
  run-AreSound state [] k gives = (k, tt)
  run-AreSound state (event ∷ events) k gives =
      let (after, replied) = step-AreSound state event k gives.0 in
      let (final, more) = run-AreSound (step from_slice state event).0 events after gives.1 in
      (
        final,
        All-append IsReply (step from_slice state event).1
            (run from_slice (step from_slice state event).0 events).1 replied more,
      )
