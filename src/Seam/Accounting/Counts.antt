-- ===== src/Seam/Accounting/Counts.antt =====
-- The counts of a round's parts.
use vectorseam.Base.{ℕ, ◌+◌, ◌≤◌, ◌≡◌, List, [], ◌∷◌, arith, ok}
use vectorseam.Seam.Accounting.{PartCounts, sum_counts}

abbrev pub all_received : List PartCounts → ℕ
all_received [] = 0
all_received (p ∷ parts) = p.received + all_received parts

abbrev pub all_records : List PartCounts → ℕ
all_records [] = 0
all_records (p ∷ parts) = p.records + all_records parts

-- Counts that start ordered and are summed without an error are the exact sums, and no more records
-- than frames are received.
pub sum_counts-exact :
    (received records : ℕ) (parts : List PartCounts) (r s : ℕ)
    → records ≤ received
    → sum_counts received records parts ≡ ok (r, s)
    → (r ≡ received + all_received parts) × (s ≡ records + all_records parts) × (s ≤ r)
unfolding sum_counts
sum_counts-exact received records [] r s h e = ground arith
sum_counts-exact received records (p ∷ parts) r s h e =
    ground (arith, sum_counts-exact (received + p.received) (records + p.records) parts r s)
