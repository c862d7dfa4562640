-- ===== src/Seam/Tests/Pipeline.antt =====
-- The theorem about a round and its store at a concrete input.
use vectorseam.Seam.Pipeline.{Environment, World, content, not_found}
use vectorseam.Seam.Pipeline.Publication.{Ends, run_cohort_round-Ends}
use vectorseam.Seam.Pipeline.Round.{run_cohort_round}
use vectorseam.Seam.Samples.{intermediate, round_config, thousandths}
use vectorseam.Core.Tests.{segment}
use vectorseam.Base.{
  [], ◌∷◌, Bytes, codes, false, if◌then◌else◌, none, ok, pos, some, starts_with, true,
}

abbrev name : Bytes
name = codes "part-01ARZ3NDEKTSV4RRFFQ69G5FAV.vseam"

-- A store with one segment, which takes every put.
abbrev one_segment : Environment thousandths
one_segment = record {
  list = λ moment prefix.
      some
        ((codes "cohorts/prod/window=19700101T0010Z/part-01ARZ3NDEKTSV4RRFFQ69G5FAV.vseam") ∷ []);
  get = λ moment path.
      if starts_with path (codes "calibrations/") then not_found else content segment;
  put = λ moment path. true;
  is_cancelled = λ moment. false;
  moments = λ moment sample. record {
    is_cancelled = false;
    answer = ok (record {
      gt_keys = pos 4 ∷ [];
      gt_distances = 250 ∷ [];
      ground_truth_latency_ms = 3000;
      sweeps =
          record { ef = 10; returned_keys = pos 5 ∷ []; recall = 0; latency_ms = 1000 }
          ∷ record { ef = 20; returned_keys = pos 4 ∷ []; recall = 1000; latency_ms = 2000 }
          ∷ [];
    });
  };
  extension = λ path. some (codes "vseam");
  filename = λ path. some name;
  parse_ulid = λ text. some text;
  from_slice = λ bytes. none;
  to_vec = λ output. some (codes "{}");
  encode_pair = λ metadata truth_rows sweep_rows. some (codes "truth", codes "sweep");
  read_pair = λ truth_bytes sweep_bytes. some intermediate;
}

abbrev at_start : World
at_start = record { moment = 0; puts = [] }

run_cohort_round-Ends_example :
    Ends thousandths one_segment round_config 660
      (codes "1970-01-01T00:11:00Z")
      660000000
      at_start
      (run_cohort_round thousandths one_segment round_config 660
        (codes "1970-01-01T00:11:00Z")
        660000000
        at_start)
run_cohort_round-Ends_example =
    run_cohort_round-Ends thousandths one_segment round_config 660 (codes "1970-01-01T00:11:00Z")
      660000000 at_start
