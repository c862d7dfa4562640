-- ===== src/Collector/Reader/Rounds.antt =====
-- One round of the reader, and what every sent event satisfies.
use vectorseam.Base.{
  inr, inl, Bool-cases, ltb_false→ge, ltb, checked_add, ℕ, ◌+◌, ◌-◌, ◌≤◌, ◌≡◌, refl, ◌∙◌, sym, ap,
  ap₂, false, ◌++◌, arith, append_assoc, length, length-append, length-take, take, drop,
  take-append-drop, Bytes, usize_max, ok, err, Option, none, some, Result, bump,
}
use vectorseam.Core.Endian.{from_le_bytes}
use vectorseam.Core.Cohort
use vectorseam.Core.Cohort.{CohortName, CohortNameError, validate_cohort_name}
use vectorseam.Core.Cohort.Grammar.{try_from-eq-ok}
use vectorseam.Core.Frame.{FrameError, FrameHeader, parse_frame_header}
use vectorseam.Collector.Counters.{CollectorCounters}
use vectorseam.Collector.Reader.{
  count_read, took_frame, FrameEvent, ReaderConfig, Ending, ReadOutcome, read, ended, Moment,
  Verdict, delivered, took, read_exact_or_shutdown, send_event, reserve_and_send, take_frame,
  read_body, read_round,
}

-- An event that the writer may rely on: its frame parses and names its cohort, which is in the grammar; it
-- is not oversized, and its guard covers the frame and eight bytes for the time.
pub record IsEvent (config : ReaderConfig) (e : FrameEvent) : Type 0 where
  pub header : FrameHeader
  pub parsed : parse_frame_header e.frame ≡ ok header
  pub named : e.cohort ≡ header.name
  pub valid : validate_cohort_name e.cohort ≡ ok tt
  pub sized : length e.frame ≤ config.max_frame_size
  pub reserved : e.memory ≡ length e.frame + 8

read_exact_or_shutdown-eq-read :
    (input : Bytes) (n : ℕ) (ending : Ending) (body rest : Bytes)
    → read_exact_or_shutdown input n ending ≡ read body rest
    → (input ≡ body ++ rest) × (length body ≡ n)
unfolding read_exact_or_shutdown
read_exact_or_shutdown-eq-read input n ending body rest h =
    let (fits, front, back) = parts h in
    (
      sym (take-append-drop n input) ∙ ap₂ ◌++◌ front back,
      sym (ap length front) ∙ length-take n input fits,
    )
  where
    parts :
        read_exact_or_shutdown input n ending ≡ read body rest
        → (n ≤ length input) × (take n input ≡ body) × (drop n input ≡ rest)
    parts e = ground arith

module _ (config : ReaderConfig) (moment : Moment) (c d : CollectorCounters) (e : FrameEvent) where
  -- What a delivered event takes from its frame.
  pub record Taken (frame : Bytes) : Type 0 where
    pub whole : e.frame ≡ frame
    pub reserved : e.memory ≡ length frame + 8
    pub header : FrameHeader
    pub parsed : parse_frame_header frame ≡ ok header
    pub named : e.cohort ≡ header.name
    pub valid : validate_cohort_name e.cohort ≡ ok tt

  reserve_and_send-delivered :
      (cohort : CohortName) (time : ℕ) (frame : Bytes)
      → reserve_and_send config moment c cohort time frame ≡ (d, delivered e)
      → (e.frame ≡ frame) × (e.memory ≡ length frame + 8) × (e.cohort ≡ cohort)
  unfolding reserve_and_send send_event
  reserve_and_send-delivered cohort time frame h = ground arith

module _ (config : ReaderConfig) (moment : Moment) (d : CollectorCounters) (e : FrameEvent) where
  pub take_frame-delivered :
      (c : CollectorCounters) (frame : Bytes)
      → take_frame config moment c frame ≡ (d, delivered e)
      → Taken config moment c d e frame
  unfolding take_frame
  take_frame-delivered c frame h = after (parse_frame_header frame) refl
    where
      counted : CollectorCounters
      counted = record c { valid_frames_received = bump c.valid_frames_received }

      at_send :
          (header : FrameHeader) (cohort : CohortName) (time : Option ℕ)
          → parse_frame_header frame ≡ ok header
          → Cohort.try_from header.name ≡ ok cohort
          → moment.unix_micros_now ≡ time
          → Taken config moment c d e frame
      at_send header cohort none p q t = absurd (ground (arith, p, q, t))
      at_send header cohort (some time) p q t =
          let (whole, reserved, same) =
            reserve_and_send-delivered config moment counted d e cohort time frame
              (ground (arith, p, q, t)) in
          let (name, valid) = try_from-eq-ok header.name q in
          record {
            whole = whole;
            reserved = reserved;
            header = header;
            parsed = p;
            named = same ∙ name;
            valid = ap validate_cohort_name (same ∙ name) ∙ valid;
          }

      at_name :
          (header : FrameHeader) (r : Result CohortNameError CohortName)
          → parse_frame_header frame ≡ ok header
          → Cohort.try_from header.name ≡ r
          → Taken config moment c d e frame
      at_name header (err x) p q = absurd (ground (arith, p, q))
      at_name header (ok cohort) p q = at_send header cohort moment.unix_micros_now p q refl

      after :
          (r : Result FrameError FrameHeader)
          → parse_frame_header frame ≡ r
          → Taken config moment c d e frame
      after (err x) p = absurd (ground (arith, p))
      after (ok header) p = at_name header (Cohort.try_from header.name) p refl

module _ (config : ReaderConfig) (ending : Ending) (moment : Moment) (c d : CollectorCounters)
    (v : Verdict) (input rest : Bytes) where
  -- A round that took a frame: where the frame stood, and what was done with it.
  pub record Framed : Type 0 where
    pub frame : Bytes
    pub front : input ≡ frame ++ rest
    pub prefixed : 4 ≤ length frame
    pub sized : length frame ≤ config.max_frame_size
    pub taken : take_frame config moment (count_read c) frame ≡ (d, v)

  took_frame-inj :
      (x : CollectorCounters × Verdict) (r : Bytes)
      → took_frame x r ≡ took d v rest
      → (x ≡ (d, v)) × (r ≡ rest)
  took_frame-inj (a, b) r h = (ground arith, ground arith)

  pub read_round-took : read_round config ending moment c input ≡ took d v rest → Framed
  unfolding read_round
  read_round-took h = after (read_exact_or_shutdown input 4 ending) refl
    where
      at_body :
          (len_buf behind : Bytes) (total : ℕ) (r : ReadOutcome)
          → read_exact_or_shutdown input 4 ending ≡ read len_buf behind
          → checked_add usize_max (from_le_bytes len_buf) 4 ≡ some total
          → ltb config.max_frame_size total ≡ false
          → read_exact_or_shutdown behind (total - 4) ending ≡ r
          → Framed
      at_body len_buf behind total (ended x) p q s t =
          absurd (unfold read_body in ground (arith, p, q, s, t))
      at_body len_buf behind total (read body after_body) p q s t =
          let (a, n) = read_exact_or_shutdown-eq-read input 4 ending len_buf behind p in
          let (b, m) = read_exact_or_shutdown-eq-read behind (total - 4) ending body after_body t in
          let (x, y) =
            took_frame-inj (take_frame config moment (count_read c) (len_buf ++ body)) after_body
              (unfold read_body in ground (arith, p, q, s, t)) in
          let least : 4 ≤ total = ground (arith, q) in
          record {
            frame = len_buf ++ body;
            front =
                a ∙ ap (◌++◌ len_buf) (b ∙ ap (◌++◌ body) y) ∙ sym (append_assoc len_buf body rest);
            prefixed = omega (arith, length-append len_buf body);
            sized =
                omega
                  (arith, length-append len_buf body, ltb_false→ge config.max_frame_size total s);
            taken = x;
          }

      at_total :
          (len_buf behind : Bytes) (o : Option ℕ)
          → read_exact_or_shutdown input 4 ending ≡ read len_buf behind
          → checked_add usize_max (from_le_bytes len_buf) 4 ≡ o
          → Framed
      at_total len_buf behind none p q = absurd (ground (arith, p, q))
      at_total len_buf behind (some total) p q =
          elim (Bool-cases (ltb config.max_frame_size total)) [
            | inl s ↦ absurd (ground (arith, p, q, s))
            | inr s ↦
                at_body len_buf behind total (read_exact_or_shutdown behind (total - 4) ending) p q
                  s refl
          ]

      after : (r : ReadOutcome) → read_exact_or_shutdown input 4 ending ≡ r → Framed
      after (ended x) p = absurd (ground (arith, p))
      after (read len_buf behind) p =
          at_total len_buf behind (checked_add usize_max (from_le_bytes len_buf) 4) p refl
