-- ===== src/Collector/Writer/Outcomes.antt =====
-- Every flush is counted once, as a part or as a failure.
use vectorseam.Base.{◌+◌, ◌<◌, ◌≡◌, refl, arith, length, map, Bytes, Result, ok, err, u64_max}
use vectorseam.Core.Segment.{SegmentError, write_segment}
use vectorseam.Core.Window.{WindowError, object_key}
use vectorseam.Collector.Writer.{
  Environment, Writer, FlushBatch, PutOutcome, stored, failed, timed_out, after_put, put_flush,
  segment_record,
}

-- One counter more, and `flushed_parts` counts what the store has acknowledged.
pub record Counts (w v : Writer) : Type 0 where
  pub once :
      v.counters.flushed_parts + v.counters.flush_failures
      ≡ w.counters.flushed_parts + w.counters.flush_failures + 1
  pub acknowledged :
      length v.objects + w.counters.flushed_parts ≡ length w.objects + v.counters.flushed_parts

-- While neither counter is about to wrap, putting a batch moves exactly one of `flushed_parts` and
-- `flush_failures` by one, whichever way it ends, and `flushed_parts` exactly when the store has acknowledged
-- one object more.
pub put_flush-Counts :
    (env : Environment) (batch : FlushBatch) (w : Writer)
    → w.counters.flushed_parts < u64_max
    → w.counters.flush_failures < u64_max
    → Counts w (put_flush env batch w)
unfolding put_flush after_put
put_flush-Counts env batch w p f =
    after (write_segment batch.header (map segment_record batch.records)) refl
  where
    at_answer :
        (segment key : Bytes) (o : PutOutcome)
        → write_segment batch.header (map segment_record batch.records) ≡ ok segment
        → object_key batch.header.cohort batch.window_start (env.ulid w.keys_made) ≡ ok key
        → env.put w.keys_made ≡ o
        → Counts w (put_flush env batch w)
    at_answer segment key stored a b c =
        rw (a, put_flush)
          (rw (b, put_flush)
            (rw (c, put_flush) (record { once = omega arith; acknowledged = omega arith })))
    at_answer segment key failed a b c =
        rw (a, put_flush)
          (rw (b, put_flush)
            (rw (c, put_flush) (record { once = omega arith; acknowledged = omega arith })))
    at_answer segment key timed_out a b c =
        rw (a, put_flush)
          (rw (b, put_flush)
            (rw (c, put_flush) (record { once = omega arith; acknowledged = omega arith })))

    at_key :
        (segment : Bytes) (r : Result WindowError Bytes)
        → write_segment batch.header (map segment_record batch.records) ≡ ok segment
        → object_key batch.header.cohort batch.window_start (env.ulid w.keys_made) ≡ r
        → Counts w (put_flush env batch w)
    at_key segment (err e) a b =
        rw (a, put_flush)
          (rw (b, put_flush) (record { once = omega arith; acknowledged = omega arith }))
    at_key segment (ok key) a b = at_answer segment key (env.put w.keys_made) a b refl

    after :
        (r : Result SegmentError Bytes)
        → write_segment batch.header (map segment_record batch.records) ≡ r
        → Counts w (put_flush env batch w)
    after (err e) a = rw (a, put_flush) (record { once = omega arith; acknowledged = omega arith })
    after (ok segment) a =
        at_key segment (object_key batch.header.cohort batch.window_start (env.ulid w.keys_made)) a
          refl
