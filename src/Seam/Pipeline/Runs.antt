-- ===== src/Seam/Pipeline/Runs.antt =====
-- Steps of a round that end well.
use vectorseam.Seam.Pipeline.Listing.{Quiet, lift-Quiet, pure-Quiet}
use vectorseam.Seam.Pipeline.{PipelineError, Step, World, bind, bind_result, lift, pure}
use vectorseam.Base.{ap, ◌∙◌, ◌≡◌, refl, sym, Result, ok, err, ok-injective}

-- A step that ends well.
pub record Runs {A : Type 0} (step : Step A) (w v : World) (a : A) : Type 0 where
  pub ran : step w ≡ (v, ok a)

-- A chain of two steps that ends well.
pub bind-Runs :
    {A B : Type 0} (first : Step A) (f : A → Step B) (w after : World) (b : B)
    → Runs (bind first f) w after b
    → (v : World) × (a : A) × Runs first w v a × Runs (f a) v after b
unfolding bind
bind-Runs {A = A} {B = B} first f w after b h = split (first w) refl h.ran
  where
    split :
        (r : World × Result PipelineError A)
        → first w ≡ r
        → bind_result r f ≡ (after, ok b)
        → (v : World) × (a : A) × Runs first w v a × Runs (f a) v after b
    split (v, ok a) p e = (v, a, record { ran = p }, record { ran = e })
    split (v, err failure) p e = absurd (cc (ap (λ (r : World × Result PipelineError B). r.1) e))

pub Runs-result :
    {A : Type 0} (step : Step A) (w v : World) (a : A) → Runs step w v a → (step w).1 ≡ ok a
Runs-result step w v a h = ap (λ p. p.1) h.ran

pub Runs-world :
    {A : Type 0} (step : Step A) (w v : World) (a : A) → Runs step w v a → (step w).0 ≡ v
Runs-world step w v a h = ap (λ p. p.0) h.ran

pub Quiet-puts :
    {A : Type 0} (step : Step A) (w v : World) (a : A)
    → Quiet step
    → Runs step w v a
    → v.puts ≡ w.puts
Quiet-puts step w v a q h = ap (λ (u : World). u.puts) (sym (Runs-world step w v a h)) ∙ q.quiet w

pub lift-result :
    {A : Type 0} (result : Result PipelineError A) (w v : World) (a : A)
    → Runs (lift result) w v a
    → result ≡ ok a
unfolding lift
lift-result result w v a h = Runs-result (lift result) w v a h

pub lift-puts :
    {A : Type 0} (result : Result PipelineError A) (w v : World) (a : A)
    → Runs (lift result) w v a
    → v.puts ≡ w.puts
lift-puts result w v a h = Quiet-puts (lift result) w v a (lift-Quiet result) h

pub pure-value : {A : Type 0} (b : A) (w v : World) (a : A) → Runs (pure b) w v a → b ≡ a
unfolding pure
pure-value b w v a h = ok-injective (Runs-result (pure b) w v a h)

pub pure-puts : {A : Type 0} (b : A) (w v : World) (a : A) → Runs (pure b) w v a → v.puts ≡ w.puts
pure-puts b w v a h = Quiet-puts (pure b) w v a (pure-Quiet b) h
