-- ===== src/Collector/Reader/Delivery.antt =====
-- The reader's loop: it ends, all that it sends is sound, and a stream of well-formed frames is sent whole.
use vectorseam.Base.{
  ℕ, zero, suc, ◌+◌, ◌-◌, ◌≤◌, ◌<◌, ◌≡◌, refl, ◌∙◌, sym, ap, true, List, [], ◌∷◌, ◌++◌, arith,
  length, length-append, drop, take-append, drop-append, All, Bytes, usize_max, ok, some, bump,
}
use vectorseam.Core.Endian.{to_le_bytes, from-to_le_bytes}
use vectorseam.Core.Cohort
use vectorseam.Core.Cohort.{CohortName, validate_cohort_name}
use vectorseam.Core.Frame.{FrameHeader, parse_frame_header}
use vectorseam.Core.Frame.Encode.{encode, IsFrame, length-encode}
use vectorseam.Core.Frame.RoundTrip.{parse_frame_header-encode}
use vectorseam.Collector.Memory.{try_reserve}
use vectorseam.Collector.Counters.{CollectorCounters}
use vectorseam.Collector.Reader.{
  FrameEvent, ReaderConfig, Ending, read, Moment, SendOutcome, Verdict, delivered, dropped, hung_up,
  Round, done, took, read_exact_or_shutdown, send_event, reserve_and_send, take_frame, read_body,
  read_round, handle_connection, count_read,
}
use vectorseam.Collector.Reader.Rounds.{IsEvent, read_round-took, take_frame-delivered}

-- With fuel beyond the bytes of the input the loop runs to its end.
pub handle_connection_finishes :
    (fuel : ℕ) (config : ReaderConfig) (ending : Ending) (moments : ℕ → Moment)
    (c : CollectorCounters) (input : Bytes)
    → length input < fuel
    → (handle_connection fuel config ending moments c input).finished ≡ true
unfolding handle_connection
handle_connection_finishes zero config ending moments c input h = absurd (omega arith)
handle_connection_finishes (suc fuel) config ending moments c input h =
    after (read_round config ending (moments 0) c input) refl
      (handle_connection_finishes fuel config ending (λ i. moments (suc i)))
  where
    shorter :
        (d : CollectorCounters) (v : Verdict) (rest : Bytes)
        → read_round config ending (moments 0) c input ≡ took d v rest
        → length rest < fuel
    shorter d v rest p =
        let f = read_round-took config ending (moments 0) c d v input rest p in
        omega (arith, f.prefixed, ap length f.front, length-append f.frame rest)

    after :
        (r : Round)
        → read_round config ending (moments 0) c input ≡ r
        → ((d : CollectorCounters) (rest : Bytes)
            → length rest < fuel
            → (handle_connection fuel config ending (λ i. moments (suc i)) d rest).finished ≡ true)
        → (handle_connection (suc fuel) config ending moments c input).finished ≡ true
    after (done d) p ih = rw (p, handle_connection)
    after (took d (delivered e) rest) p ih =
        rw (p, handle_connection) (ih d rest (shorter d (delivered e) rest p))
    after (took d dropped rest) p ih =
        rw (p, handle_connection) (ih d rest (shorter d dropped rest p))
    after (took d hung_up rest) p ih = rw (p, handle_connection)

-- Every event that a connection sends holds one whole frame that parses, of a valid cohort and within the
-- size limit, with a reservation to match, whatever bytes the peer sends.
pub handle_connection_sound :
    (fuel : ℕ) (config : ReaderConfig) (ending : Ending) (moments : ℕ → Moment)
    (c : CollectorCounters) (input : Bytes)
    → All (IsEvent config) (handle_connection fuel config ending moments c input).sent
unfolding handle_connection
handle_connection_sound zero config ending moments c input = tt
handle_connection_sound (suc fuel) config ending moments c input =
    after (read_round config ending (moments 0) c input) refl
      (handle_connection_sound fuel config ending (λ i. moments (suc i)))
  where
    event :
        (d : CollectorCounters) (e : FrameEvent) (rest : Bytes)
        → read_round config ending (moments 0) c input ≡ took d (delivered e) rest
        → IsEvent config e
    event d e rest p =
        let f = read_round-took config ending (moments 0) c d (delivered e) input rest p in
        let t = take_frame-delivered config (moments 0) d e (count_read c) f.frame f.taken in
        record {
          header = t.header;
          parsed = ap parse_frame_header t.whole ∙ t.parsed;
          named = t.named;
          valid = t.valid;
          sized = omega (arith, f.sized, ap length t.whole);
          reserved = omega (arith, t.reserved, ap length t.whole);
        }

    after :
        (r : Round)
        → read_round config ending (moments 0) c input ≡ r
        → ((d : CollectorCounters) (rest : Bytes)
            → All
                (IsEvent config)
                (handle_connection fuel config ending (λ i. moments (suc i)) d rest).sent)
        → All (IsEvent config) (handle_connection (suc fuel) config ending moments c input).sent
    after (done d) p ih = rw (p, handle_connection) tt
    after (took d (delivered e) rest) p ih = rw (p, handle_connection) (event d e rest p, ih d rest)
    after (took d dropped rest) p ih = rw (p, handle_connection) (ih d rest)
    after (took d hung_up rest) p ih = rw (p, handle_connection) tt

-- What a peer sends: frames, one behind the other.
abbrev pub stream : List (FrameHeader × Bytes) → Bytes
stream [] = []
stream ((h, vector) ∷ frames) = encode h vector ++ stream frames

abbrev pub event_of : ℕ → FrameHeader × Bytes → FrameEvent
event_of time (h, vector) = record {
  cohort = h.name;
  receive_time = time;
  frame = encode h vector;
  memory = length (encode h vector) + 8;
}

-- The events for a stream, each with the time of its round.
abbrev pub events_of : (ℕ → ℕ) → List (FrameHeader × Bytes) → List FrameEvent
events_of times [] = []
events_of times (f ∷ frames) = event_of (times 0) f ∷ events_of (λ i. times (suc i)) frames

-- A well-formed frame for a cohort in the grammar, not oversized.
pub record IsAcceptable (config : ReaderConfig) (f : FrameHeader × Bytes) : Type 0 where
  pub frame : IsFrame f.0 f.1
  pub cohort : validate_cohort_name f.0.name ≡ ok tt
  pub sized : length (encode f.0 f.1) ≤ config.max_frame_size

-- A moment at which the clock answers, the frame fits the budget and the channel has room.
pub record IsFavourable (config : ReaderConfig) (time : ℕ) (moment : Moment) : Type 0 where
  pub clock : moment.unix_micros_now ≡ some time
  pub channel : moment.try_send ≡ SendOutcome.sent
  pub budget : moment.used_bytes + config.max_frame_size + 8 ≤ config.live_memory_bytes

read_append :
    (xs rest : Bytes) (n : ℕ) (ending : Ending)
    → length xs ≡ n
    → read_exact_or_shutdown (xs ++ rest) n ending ≡ read xs rest
unfolding read_exact_or_shutdown
read_append xs rest n ending e =
    ground
      (arith, length-append xs rest, take-append n xs rest (sym e), drop-append n xs rest (sym e))

module _ (config : ReaderConfig) (limit : config.live_memory_bytes ≤ usize_max) (time : ℕ)
    (moment : Moment) (m : IsFavourable config time moment) (h : FrameHeader) (vector : Bytes)
    (a : IsAcceptable config (h, vector)) where
  abbrev counted : CollectorCounters → CollectorCounters
  counted c = record c { valid_frames_received = bump c.valid_frames_received }

  reserved :
      (c : CollectorCounters)
      → reserve_and_send config moment c h.name time (encode h vector)
        ≡ (c, delivered (event_of time (h, vector)))
  unfolding reserve_and_send send_event try_reserve
  reserved c = ground (arith, m.channel, m.budget, a.sized)

  accepted :
      (c : CollectorCounters)
      → take_frame config moment c (encode h vector)
        ≡ (counted c, delivered (event_of time (h, vector)))
  unfolding take_frame Cohort.try_from
  accepted c =
      ground
        (arith, parse_frame_header-encode h vector a.frame, a.cohort, m.clock, reserved (counted c))

  body : Bytes
  body = drop 4 (encode h vector)

  framed : encode h vector ≡ to_le_bytes 4 h.frame_len ++ body
  unfolding encode body
  framed = refl

  length-body : length body ≡ h.frame_len
  length-body =
      let f = a.frame in
      omega (arith, ap length framed, length-encode h vector, f.frame_len, f.name_len, f.vector_len)

  round :
      (ending : Ending) (c : CollectorCounters) (rest : Bytes)
      → read_round config ending moment c (encode h vector ++ rest)
        ≡ took (counted (count_read c)) (delivered (event_of time (h, vector))) rest
  unfolding read_round read_body
  round ending c rest = ground (
    arith,
    ap (λ x. read_exact_or_shutdown (x ++ rest) 4 ending) framed,
    read_append (to_le_bytes 4 h.frame_len) (body ++ rest) 4 ending refl,
    from-to_le_bytes 4 h.frame_len (omega (arith, a.frame.fits)),
    read_append body rest (h.frame_len + 4 - 4) ending (omega (arith, length-body)),
    framed,
    a.frame.fits,
    a.sized,
    ap length framed,
    length-body,
    accepted (count_read c),
  )

-- While the clock answers, the budget has room for the largest frame and the channel has a free place, a
-- stream of acceptable frames is sent whole: every frame, byte for byte and in order, stamped with the time
-- of its round, under its cohort, with a guard of its length and eight bytes.
pub handle_connection-stream :
    (fuel : ℕ) (config : ReaderConfig) (ending : Ending) (times : ℕ → ℕ) (moments : ℕ → Moment)
    (c : CollectorCounters) (frames : List (FrameHeader × Bytes))
    → config.live_memory_bytes ≤ usize_max
    → ((i : ℕ) → IsFavourable config (times i) (moments i))
    → All (IsAcceptable config) frames
    → length frames < fuel
    → (handle_connection fuel config ending moments c (stream frames)).sent ≡ events_of times frames
unfolding handle_connection
handle_connection-stream zero config ending times moments c frames l m a f = absurd (omega arith)
handle_connection-stream (suc fuel) config ending times moments c [] l m a f =
    unfold read_round read_exact_or_shutdown in refl
handle_connection-stream (suc fuel) config ending times moments c ((h, vector) ∷ frames) l m a f =
    let first = round config l (times 0) (moments 0) (m 0) h vector a.0 ending c (stream frames) in
    let later =
      handle_connection-stream fuel config ending (λ i. times (suc i)) (λ i. moments (suc i))
        (counted config l (times 0) (moments 0) (m 0) h vector a.0 (count_read c)) frames l
        (λ i. m (suc i)) a.1 (omega arith) in
    rw (first, handle_connection) (ap (λ es. event_of (times 0) (h, vector) ∷ es) later)
