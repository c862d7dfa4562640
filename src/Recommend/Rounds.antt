-- ===== src/Recommend/Rounds.antt =====
-- From crates/seam to crates/vectorseam-recommendation-server: `latest.json`, which a round writes, as the
-- server reads it.
use vectorseam.Seam.Aggregate.Decision.{aggregate-IsDecided}
use vectorseam.Seam.Model.{EffectiveRecommendation, RoundOutput}
use vectorseam.Recommend.Lookup.{
  LatestEffective, LatestRound, StoreAnswer, found, latest_json_max_bytes, load_with_timeout,
  object,
}
use vectorseam.Core.Recommendation.{max_ef_search, min_ef_search}
use vectorseam.Recommend.Lookup.Published.{IsPublished-load_with_timeout}
use vectorseam.Seam.Aggregate.Rounds.{Rounds, effective-IsServable, first_round, next_round}
use vectorseam.Base.{Bytes, Option, ap, length, le→leb, none, ok, pos, refl, some, ◌≡◌, ◌≤◌}
use vectorseam.Seam.Floats.{Floats}

aggregate-version :
    (fl : Floats) (output : RoundOutput fl) → Rounds fl output → output.format_version ≡ 1
aggregate-version fl _ (first_round input output alone h) =
    (aggregate-IsDecided fl input output h).version
aggregate-version fl _ (next_round previous input output rounds known h) =
    (aggregate-IsDecided fl input output h).version

module _ (fl : Floats) (to_vec : RoundOutput fl → Bytes)
    (from_slice : Bytes → Option LatestRound) where
  -- The fields of a round that the server's own type has.
  abbrev pub latest_effective : Option (EffectiveRecommendation fl) → Option LatestEffective
  latest_effective none = none
  latest_effective (some effective) =
      some (record { recommended_ef = pos effective.recommended_ef })

  abbrev pub latest_round : RoundOutput fl → LatestRound
  latest_round output = record {
    format_version = output.format_version;
    cohort = output.cohort;
    effective = latest_effective output.effective;
  }

  -- What the derived `Serialize` and `Deserialize` of serde promise: the fields that both types name come
  -- back, and the others are passed over.
  abbrev pub AreInverse : Type 0
  AreInverse = (output : RoundOutput fl) → from_slice (to_vec output) ≡ some (latest_round output)

  -- What `store.get` answers when the document of the output is stored.
  abbrev pub stored : RoundOutput fl → StoreAnswer
  stored output = object (length (to_vec output)) (some (to_vec output))

  -- If serde's two derived implementations agree on the fields that both types name, the recommendation
  -- in force after any number of rounds is the one that the server finds in the stored document of the
  -- last round's output, when that is not larger than `latest_json_max_bytes`.
  pub Rounds-found :
      AreInverse
      → (output : RoundOutput fl) → Rounds fl output
      → (effective : EffectiveRecommendation fl) → output.effective ≡ some effective
      → length (to_vec output) ≤ latest_json_max_bytes
      → load_with_timeout from_slice output.cohort (stored output)
        ≡ ok (found (pos effective.recommended_ef))
  Rounds-found inverse output rounds effective e small =
      let servable = effective-IsServable fl output rounds effective e in
      let low = le→leb min_ef_search effective.recommended_ef servable.positive in
      let high = le→leb effective.recommended_ef max_ef_search servable.bounded in
      IsPublished-load_with_timeout from_slice output.cohort (stored output)
        (pos effective.recommended_ef)
        (record {
          size = length (to_vec output);
          bytes = to_vec output;
          latest = latest_round output;
          effective = record { recommended_ef = pos effective.recommended_ef };
          stored = refl;
          small = small;
          parsed = inverse output;
          version = aggregate-version fl output rounds;
          same_cohort = refl;
          offered = ap latest_effective e;
          recommended = refl;
          in_range = rw (low, high) refl;
        })
