-- ===== src/Seam/Pipeline/Puts.antt =====
-- What the steps of a round before its publication put into the store: the files of measured parts.
use mathlib.Core.List.{append_assoc}
use vectorseam.Seam.Pipeline.{
  Environment, PipelineError, SourcePart, Step, World, bind, bytes_of, bind_result,
  intermediate_paths, lift, pure, put_bytes, tick,
}
use vectorseam.Seam.Model.{AggregationConfig}
use vectorseam.Base.{
  ℕ, Bool-cases, inl, inr, ◌⊎◌, sym, ◌+◌, some, List, [], ◌∷◌, ◌++◌, Bytes, Result, ok, err, ap,
  ◌∙◌, ◌≡◌, refl,
}
use vectorseam.Seam.Floats.{Floats}
use vectorseam.Seam.Measure.{MeasuredPart, PreparedPart, complete, prepare_segment}
use vectorseam.Seam.Measure.Part.{measure_prepared_part}

-- A property of a step's end, from those of its parts.
pub bind-elim :
    {A B : Type 0} (P : World × Result PipelineError B → Type 0) (first : Step A) (f : A → Step B)
    (w : World)
    → ((a : A) → (first w).1 ≡ ok a → P (f a (first w).0))
    → ((failure : PipelineError) → P ((first w).0, err failure))
    → P (bind first f w)
unfolding bind
bind-elim {A = A} {B = B} P first f w done failed = split (first w) done failed
  where
    split :
        (r : World × Result PipelineError A)
        → ((a : A) → r.1 ≡ ok a → P (f a r.0))
        → ((failure : PipelineError) → P (r.0, err failure))
        → P (bind_result r f)
    split (v, ok a) done failed = done a refl
    split (v, err failure) done failed = failed failure

module _ (fl : Floats) (env : Environment fl) (config : AggregationConfig fl)
    (computed_at_us : ℕ) where
  -- A part that was measured to its end from the segment that the store gave for its source.
  pub record IsMeasured (source : SourcePart) (part : MeasuredPart fl) : Type 0 where
    pub read_at : ℕ
    pub segment : Bytes
    pub read : bytes_of fl env source.path (env.get read_at source.path) ≡ ok segment
    pub prepared : PreparedPart
    pub accepted :
        prepare_segment segment config.cohort source.listed.window_start
          config.storage_window_seconds
        ≡ ok prepared
    pub measured_at : ℕ
    pub completed :
        measure_prepared_part fl prepared source.listed.part_ulid config computed_at_us
          (env.moments measured_at)
        ≡ ok (complete part)

  -- A measured part with its two files and their names.
  pub record MeasuredFiles : Type 0 where
    pub source : SourcePart
    pub part : MeasuredPart fl
    pub evidence : IsMeasured source part
    pub files : Bytes × Bytes
    pub encoded : env.encode_pair part.metadata part.truth_rows part.sweep_rows ≡ some files
    pub paths : Bytes × Bytes
    pub named :
        intermediate_paths config.cohort source.listed.window_start source.listed.part_ulid
        ≡ ok paths

  abbrev pub truth_of : MeasuredFiles → Bytes × Bytes
  truth_of m = (m.paths.0, m.files.0)

  abbrev pub sweep_of : MeasuredFiles → Bytes × Bytes
  sweep_of m = (m.paths.1, m.files.1)

  -- The objects of some parts: of each part the truth and then the sweep.
  abbrev pub objects_of : List MeasuredFiles → List (Bytes × Bytes)
  objects_of [] = []
  objects_of (m ∷ parts) = truth_of m ∷ sweep_of m ∷ objects_of parts

  pub objects_of-append :
      (parts others : List MeasuredFiles)
      → objects_of (parts ++ others) ≡ objects_of parts ++ objects_of others
  objects_of-append [] others = refl
  objects_of-append (m ∷ parts) others =
      ap (λ objects. truth_of m ∷ sweep_of m ∷ objects) (objects_of-append parts others)

  -- What was put between two moments: the files of measured parts, both of each.
  pub record Extends (w after : World) : Type 0 where
    pub added : List MeasuredFiles
    pub puts : after.puts ≡ w.puts ++ objects_of added

  -- Both files of some parts, and of a last one the truth alone.
  pub record IsHalfMeasured (w after : World) : Type 0 where
    pub before : World
    pub whole : Extends w before
    pub last : MeasuredFiles
    pub puts : after.puts ≡ before.puts ++ (truth_of last ∷ [])

  -- Where a step that fails stops.
  abbrev pub Halts : World → World → Type 0
  Halts w after = Extends w after ⊎ IsHalfMeasured w after

  abbrev pub Leaves : {A : Type 0} → World → World × Result PipelineError A → Type 0
  Leaves w (after, ok a) = Extends w after
  Leaves w (after, err failure) = Halts w after

  -- A step that puts nothing but files of measured parts.
  pub record Keeps {A : Type 0} (step : Step A) : Type 0 where
    pub kept : (w v : World) → Extends w v → Leaves w (step v)

  pub ticked : (w v : World) → Extends w v → Extends w (tick v)
  ticked w v e = record { added = e.added; puts = e.puts }

  -- Both files of a part more.
  pub extended :
      (w v after : World) (m : MeasuredFiles)
      → Extends w v
      → after.puts ≡ (v.puts ++ (truth_of m ∷ [])) ++ (sweep_of m ∷ [])
      → Extends w after
  extended w v after m e h = record {
    added = e.added ++ (m ∷ []);
    puts =
        h
        ∙ append_assoc v.puts (truth_of m ∷ []) (sweep_of m ∷ [])
        ∙ ap (λ puts. puts ++ (truth_of m ∷ sweep_of m ∷ [])) e.puts
        ∙ append_assoc w.puts (objects_of e.added) (truth_of m ∷ sweep_of m ∷ [])
        ∙ ap (λ objects. w.puts ++ objects) (sym (objects_of-append e.added (m ∷ [])));
  }

module _ {fl : Floats} {env : Environment fl} {config : AggregationConfig fl}
    {computed_at_us : ℕ} where
  bind_result-Leaves :
      {A B : Type 0} (w : World) (r : World × Result PipelineError A) (f : A → Step B)
      → Leaves fl env config computed_at_us w r
      → ((a : A) → r.1 ≡ ok a → Keeps fl env config computed_at_us (f a))
      → Leaves fl env config computed_at_us w (bind_result r f)
  bind_result-Leaves w (v, ok a) f e k = (k a refl).kept w v e
  bind_result-Leaves w (v, err failure) f e k = e

  pub bind-Keeps_of :
      {A B : Type 0} (first : Step A) (f : A → Step B)
      → Keeps fl env config computed_at_us first
      → ((v : World) (a : A) → (first v).1 ≡ ok a → Keeps fl env config computed_at_us (f a))
      → Keeps fl env config computed_at_us (bind first f)
  unfolding bind
  bind-Keeps_of first f k kf = record {
    kept = λ w v e. bind_result-Leaves w (first v) f (k.kept w v e) (kf v);
  }

  pub bind-Keeps :
      {A B : Type 0} (first : Step A) (f : A → Step B)
      → Keeps fl env config computed_at_us first
      → ((a : A) → Keeps fl env config computed_at_us (f a))
      → Keeps fl env config computed_at_us (bind first f)
  bind-Keeps first f k kf = bind-Keeps_of first f k (λ v a h. kf a)

  pub pure-Keeps : {A : Type 0} (a : A) → Keeps fl env config computed_at_us (pure a)
  unfolding pure
  pure-Keeps a = record { kept = λ w v e. e }

  pub lift-Keeps :
      {A : Type 0} (result : Result PipelineError A)
      → Keeps fl env config computed_at_us (lift result)
  unfolding lift
  lift-Keeps (ok a) = record { kept = λ w v e. e }
  lift-Keeps (err failure) = record { kept = λ w v e. inl e }

  -- A step that asks, and puts nothing.
  pub ask-Keeps :
      {A : Type 0} (answer : World → Result PipelineError A)
      → Keeps fl env config computed_at_us (λ w. (tick w, answer w))
  ask-Keeps {A = A} answer = record { kept = λ w v e. asked w v e (answer v) }
    where
      asked :
          (w v : World)
          → Extends fl env config computed_at_us w v
          → (result : Result PipelineError A)
          → Leaves fl env config computed_at_us w (tick v, result)
      asked w v e (ok a) = ticked fl env config computed_at_us w v e
      asked w v e (err failure) = inl (ticked fl env config computed_at_us w v e)

  -- The two puts of a part and what comes after.
  pub put_pair-Keeps :
      {A : Type 0} (m : MeasuredFiles fl env config computed_at_us) (rest : Step A)
      → Keeps fl env config computed_at_us rest
      → Keeps fl env config computed_at_us (
          bind
            (put_bytes fl env m.paths.0 m.files.0)
            (λ truth_done. bind (put_bytes fl env m.paths.1 m.files.1) (λ sweep_done. rest)))
  unfolding bind put_bytes
  put_pair-Keeps m rest k = record { kept = λ w v e. go w v e }
    where
      go :
          (w v : World)
          → Extends fl env config computed_at_us w v
          → Leaves fl env config computed_at_us w (
              bind
                (put_bytes fl env m.paths.0 m.files.0)
                (λ truth_done. bind (put_bytes fl env m.paths.1 m.files.1) (λ sweep_done. rest))
                v)
      go w v e = elim (Bool-cases (env.put v.moment m.paths.0)) [
        | inr p ↦ rw (p, bind, put_bytes) (inl (ticked fl env config computed_at_us w v e))
        | inl p ↦ elim (Bool-cases (env.put (v.moment + 1) m.paths.1)) [
          | inr q ↦
              rw (p, q, bind, put_bytes)
                (inr (record { before = v; whole = e; last = m; puts = refl }))
          | inl q ↦
              rw (p, q, bind, put_bytes)
                (k.kept w _ (extended fl env config computed_at_us w v _ m e refl))
        ]
      ]
