-- ===== src/Collector/Reader/Accounting.antt =====
-- What the reader's counters add up to.
use vectorseam.Base.{
  inr, inl, ◌++◌, ltb, Bool-cases, checked_add, ℕ, zero, suc, ◌+◌, ◌-◌, ◌≡◌, refl, arith, length,
  Bytes, usize_max, Option, none, some,
}
use vectorseam.Collector.Counters.{CollectorCounters}
use vectorseam.Collector.Reader.Settles.{
  HasRoom, IsBalanced, Keeps, Same, Same-Keeps, take_frame-Keeps,
}
use vectorseam.Core.Endian.{from_le_bytes}
use vectorseam.Collector.Reader.{
  ReaderConfig, Ending, closed, ReadOutcome, read, ended, Moment, Verdict, delivered, dropped,
  hung_up, Round, done, took, read_exact_or_shutdown, count_ending, read_body, read_round,
  handle_connection, count_read,
}

-- What a round leaves: the balance, and room for the rounds to come.
KeepsRound : ℕ → CollectorCounters → Round → Type 0
KeepsRound n c (done d) = Keeps n c (d, dropped)
KeepsRound n c (took d v rest) = Keeps n c (d, v)

count_ending-Same : (c : CollectorCounters) (e : Ending) → Same c (count_ending c e)
unfolding count_ending
count_ending-Same c closed = record {
  valid = refl;
  channel = refl;
  memory = refl;
  ledger = refl;
  healthy = refl;
}
count_ending-Same c _ = record {
  valid = refl;
  channel = refl;
  memory = refl;
  ledger = refl;
  healthy = refl;
}

from_count_read :
    (n : ℕ) (c : CollectorCounters) (r : CollectorCounters × Verdict)
    → Keeps n (count_read c) r
    → Keeps n c r
from_count_read n c r k = record {
  room = k.room;
  balance = record { frames = k.balance.frames; ledger = k.balance.ledger };
}

count_read-HasRoom : (n : ℕ) (c : CollectorCounters) → HasRoom n c → HasRoom n (count_read c)
count_read-HasRoom n c h = record {
  valid = h.valid;
  drops = record {
    channel = h.drops.channel;
    memory = h.drops.memory;
    ledger = h.drops.ledger;
    healthy = h.drops.healthy;
  };
}

module _ (n : ℕ) (config : ReaderConfig) (ending : Ending) (m : Moment) (c : CollectorCounters)
    (h : HasRoom (suc n) c) where
  read_body-KeepsRound :
      (len_buf input : Bytes) (total : ℕ)
      → KeepsRound n c (read_body config ending m (count_read c) len_buf input total)
  unfolding read_body KeepsRound
  read_body-KeepsRound len_buf input total =
      after (read_exact_or_shutdown input (total - 4) ending) refl
    where
      after :
          (o : ReadOutcome)
          → read_exact_or_shutdown input (total - 4) ending ≡ o
          → KeepsRound n c (read_body config ending m (count_read c) len_buf input total)
      after (ended e) p =
          rw (p, read_body)
            (from_count_read n c _ (
              Same-Keeps dropped refl (count_read-HasRoom (suc n) c h)
                (count_ending-Same (count_read c) e)))
      after (read body rest) p =
          rw (p, read_body)
            (from_count_read n c _ (
              take_frame-Keeps n config m (count_read c) (len_buf ++ body)
                (count_read-HasRoom (suc n) c h)))

  read_round-KeepsRound : (input : Bytes) → KeepsRound n c (read_round config ending m c input)
  unfolding read_round KeepsRound
  read_round-KeepsRound input = after (read_exact_or_shutdown input 4 ending) refl
    where
      at_total :
          (len_buf rest : Bytes) (o : Option ℕ)
          → read_exact_or_shutdown input 4 ending ≡ read len_buf rest
          → checked_add usize_max (from_le_bytes len_buf) 4 ≡ o
          → KeepsRound n c (read_round config ending m c input)
      at_total len_buf rest none p q =
          rw (p, read_round)
            (rw (q, read_round)
              (Same-Keeps dropped refl h (record {
                valid = refl;
                channel = refl;
                memory = refl;
                ledger = refl;
                healthy = refl;
              })))
      at_total len_buf rest (some total) p q = elim (Bool-cases (ltb config.max_frame_size total)) [
        | inl s ↦
            rw (p, read_round)
              (rw (q, read_round)
                (rw s (
                  Same-Keeps dropped refl h (record {
                    valid = refl;
                    channel = refl;
                    memory = refl;
                    ledger = refl;
                    healthy = refl;
                  }))))
        | inr s ↦
            rw (p, read_round) (rw (q, read_round) (rw s (read_body-KeepsRound len_buf rest total)))
      ]

      after :
          (o : ReadOutcome)
          → read_exact_or_shutdown input 4 ending ≡ o
          → KeepsRound n c (read_round config ending m c input)
      after (ended e) p = rw (p, read_round) (Same-Keeps dropped refl h (count_ending-Same c e))
      after (read len_buf rest) p =
          at_total len_buf rest (checked_add usize_max (from_le_bytes len_buf) 4) p refl

IsBalanced-trans :
    {a b c : CollectorCounters} (m n k : ℕ)
    → k ≡ m + n
    → IsBalanced a b m
    → IsBalanced b c n
    → IsBalanced a c k
IsBalanced-trans m n k e p q = record { frames = omega arith; ledger = omega arith }

-- Over a whole connection: every frame counted as valid was sent or counted as dropped, and the ledger of
-- pending drops has grown by exactly the drops counted. The counters start with room for a frame in each
-- round of the fuel, and the ledger is usable.
pub handle_connection-IsBalanced :
    (fuel : ℕ) (config : ReaderConfig) (ending : Ending) (moments : ℕ → Moment)
    (c : CollectorCounters) (input : Bytes)
    → HasRoom fuel c
    → let r = handle_connection fuel config ending moments c input in
      IsBalanced c r.counters (length r.sent)
unfolding handle_connection KeepsRound
handle_connection-IsBalanced zero config ending moments c input h = record {
  frames = omega arith;
  ledger = omega arith;
}
handle_connection-IsBalanced (suc fuel) config ending moments c input h =
    after (read_round config ending (moments 0) c input) refl
      (read_round-KeepsRound fuel config ending (moments 0) c h input)
      (handle_connection-IsBalanced fuel config ending (λ i. moments (suc i)))
  where
    After : Type 0
    After =
        let r = handle_connection (suc fuel) config ending moments c input in
        IsBalanced c r.counters (length r.sent)

    after :
        (r : Round)
        → read_round config ending (moments 0) c input ≡ r
        → KeepsRound fuel c r
        → ((d : CollectorCounters) (rest : Bytes)
            → HasRoom fuel d
            → let q = handle_connection fuel config ending (λ i. moments (suc i)) d rest in
              IsBalanced d q.counters (length q.sent))
        → After
    after (done d) p k ih = rw (p, handle_connection) k.balance
    after (took d (delivered e) rest) p k ih =
        rw (p, handle_connection)
          (IsBalanced-trans 1 _ _ (omega arith) k.balance (ih d rest k.room))
    after (took d dropped rest) p k ih =
        rw (p, handle_connection)
          (IsBalanced-trans 0 _ _ (omega arith) k.balance (ih d rest k.room))
    after (took d hung_up rest) p k ih = rw (p, handle_connection) k.balance
