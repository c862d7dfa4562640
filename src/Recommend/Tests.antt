-- ===== src/Recommend/Tests.antt =====
-- The theorems about the recommendation server at concrete inputs.
use vectorseam.Recommend.Config.{default_config}
use vectorseam.Core.Cohort.{
  CohortName, validate_cohort_name, validate_segments, validate_segment, is_allowed_segment_byte,
}
use vectorseam.Recommend.Rounds.{stored, AreInverse, Rounds-found, latest_effective}
use vectorseam.Recommend.Handler.Served.{IsDirect, IsSafeResponse, run-IsDirect, run-IsSafe}
use vectorseam.Recommend.Connections.{accepted, serve_loop, serve_loop-bound, shutdown}
use vectorseam.Seam.Samples.{computed_round, first_input, thousandths}
use vectorseam.Seam.Aggregate.Rounds.{Rounds}
use vectorseam.Recommend.Lookup.{
  object, found, LatestEffective, LatestRound, StoreAnswer, latest_json_max_bytes,
  load_with_timeout,
}
use vectorseam.Recommend.Handler.Permits.{run-permits}
use vectorseam.Recommend.Handler.{
  Event, bad_request, bound, loaded, recommendation_dropped, request, run,
}
use vectorseam.Seam.Model.{EffectiveRecommendation, RoundOutput}
use vectorseam.Base.{
  split, bytes_eq, starts_with, All, Bytes, List, Option, [], ap, arith, codes, false, length, none,
  ok, pos, refl, some, suc, zero, ◌+◌, ◌∷◌, ◌≡◌, ◌≤◌, ℕ,
}

-- A document is its cohort's only; it offers an ef of 20.
abbrev from_slice : Bytes → Option LatestRound
from_slice bytes = some (record {
  format_version = 1;
  cohort = bytes;
  effective = some (record { recommended_ef = pos 20 });
})

abbrev store : CohortName → StoreAnswer
store cohort = object 4 (some (codes "prod"))

abbrev prod : Bytes
prod = codes "prod"

-- Two requests wait for the same load, the entry is dropped, and the next request waits again.
abbrev events : List (Event from_slice)
events =
    request prod
    ∷ request prod
    ∷ loaded prod (store prod)
    ∷ loaded prod (store prod)
    ∷ request prod
    ∷ recommendation_dropped prod
    ∷ request prod
    ∷ request (codes "prod//x")
    ∷ []

responses :
    (run from_slice (bound default_config) events).1
    ≡ (prod, record { status = 200; body = codes "20" })
      ∷ (prod, record { status = 200; body = codes "20" })
      ∷ (prod, record { status = 200; body = codes "20" })
      ∷ (codes "prod//x", bad_request)
      ∷ []
unfolding run validate_cohort_name split validate_segments validate_segment bytes_eq starts_with
    is_allowed_segment_byte
responses = refl

run-IsSafe_example :
    All (IsSafeResponse from_slice) (run from_slice (bound default_config) events).1
run-IsSafe_example = run-IsSafe from_slice default_config events

run-IsDirect_example :
    All (IsDirect from_slice store) (run from_slice (bound default_config) events).1
run-IsDirect_example =
    run-IsDirect from_slice store default_config events
      (tt, (tt, (refl, (refl, (tt, (tt, (tt, (tt, tt))))))))

run-permits_example :
    ((run from_slice (bound default_config) events).0.load_permits
        + length (run from_slice (bound default_config) events).0.waiting
      ≡ 100)
    × (length (run from_slice (bound default_config) events).0.waiting ≤ 100)
run-permits_example = run-permits from_slice default_config events

-- Two connections, one ends while a third is accepted, and the server is full when a fourth comes.
serve_loop-bound_example :
    All
      (λ n. n ≤ 2)
      (serve_loop 2 0
        ((0, accepted) ∷ (0, accepted) ∷ (1, accepted) ∷ (0, accepted) ∷ (0, shutdown) ∷ [])).0
serve_loop-bound_example =
    serve_loop-bound 2 0
      ((0, accepted) ∷ (0, accepted) ∷ (1, accepted) ∷ (0, accepted) ∷ (0, shutdown) ∷ [])
      (omega arith)

-- A document of three parts: the version, the ef and one, or zero for none, and the cohort.
abbrev ef_code : Option (EffectiveRecommendation thousandths) → ℕ
ef_code none = zero
ef_code (some effective) = suc effective.recommended_ef

abbrev to_vec : RoundOutput thousandths → Bytes
to_vec output = output.format_version ∷ ef_code output.effective ∷ output.cohort

abbrev ef_of : ℕ → Option LatestEffective
ef_of zero = none
ef_of (suc ef) = some (record { recommended_ef = pos ef })

abbrev read_document : Bytes → Option LatestRound
read_document [] = none
read_document (version ∷ []) = none
read_document (version ∷ code ∷ cohort) =
    some (record { format_version = version; cohort = cohort; effective = ef_of code })

documents-AreInverse : AreInverse thousandths to_vec read_document
documents-AreInverse output =
    ap
      (λ (e : Option LatestEffective).
        some (record {
          format_version = output.format_version;
          cohort = output.cohort;
          effective = e;
        }))
      (same output.effective)
  where
    same :
        (effective : Option (EffectiveRecommendation thousandths))
        → ef_of (ef_code effective) ≡ latest_effective thousandths to_vec read_document effective
    same none = refl
    same (some effective) = refl

small_document : length (to_vec computed_round.0) ≤ latest_json_max_bytes
small_document = rw computed_round.3 (omega arith)

Rounds-found_example :
    load_with_timeout read_document computed_round.0.cohort
      (stored thousandths to_vec read_document computed_round.0)
    ≡ ok (found (pos 20))
Rounds-found_example =
    Rounds-found thousandths to_vec read_document documents-AreInverse computed_round.0
      (Rounds.first_round first_input computed_round.0 refl computed_round.1)
      (record {
        recommended_ef = 20;
        confidence = 990;
        source_round = codes "1970-01-01T00:02:00Z";
        carried = false;
      })
      computed_round.2 small_document
