-- ===== src/Metrics/Trackers.antt =====
-- src/metrics.rs: `LatencyTracker` and `ThroughputTracker`. Instants and durations are numbers of
-- nanoseconds; floating point is a parameter.
use kode_bridge.Base.{
  ℕ, ◌+◌, ◌-◌, ◌/◌, ◌%◌, ◌^◌, Bool, Option, none, some, List, [], ◌∷◌, ◌++◌, length, drop,
  get_elem?, leb, ◌==◌, u64, if◌then◌else◌,
}

-- What the trackers use of `f64`.
pub record Floats : Type 1 where
  pub Float : Type 0
  pub float_zero : Float
  pub from_nat : ℕ → Float
  pub as_secs : ℕ → Float
  pub divide : Float → Float → Float
  pub exceeds : Float → Float → Bool
  -- `(n as f64 * p / 100.0).round() as usize`
  pub rank : ℕ → ℕ → ℕ

pub record LatencyTracker : Type 0 where
  pub samples : List ℕ
  pub last_reset : ℕ
  pub max_samples : ℕ

unfoldable pub new_latency_tracker : ℕ → ℕ → LatencyTracker
new_latency_tracker now max_samples = record {
  samples = [];
  last_reset = now;
  max_samples = max_samples;
}

-- `drain(0..max_samples / 2)` where the samples are full, then `push`.
unfoldable pub record_latency : ℕ → LatencyTracker → LatencyTracker
record_latency latency t =
    let kept =
      if leb t.max_samples (length t.samples)
      then drop (t.max_samples / 2) t.samples
      else t.samples in
    record t { samples = kept ++ (latency ∷ []) }

unfoldable pub insert_sorted : ℕ → List ℕ → List ℕ
insert_sorted x [] = x ∷ []
insert_sorted x (y ∷ ys) = let rest = insert_sorted x ys in if leb x y then x ∷ y ∷ ys else y ∷ rest

unfoldable pub sort : List ℕ → List ℕ
sort [] = []
sort (x ∷ xs) = insert_sorted x (sort xs)

-- An index that is out of range panics.
pub data Indexed : Type 0 where
  no_samples : Indexed
  value_at : ℕ → Indexed
  out_of_range : Indexed

unfoldable pub percentile_of : ℕ → List ℕ → Indexed
percentile_of index [] = no_samples
percentile_of index (x ∷ xs) = elim (get_elem? (sort (x ∷ xs)) index) [
  | none ↦ out_of_range
  | some value ↦ value_at value
]

unfoldable pub percentile : Floats → ℕ → LatencyTracker → Indexed
percentile f p t = percentile_of (f.rank (length t.samples - 1) p) t.samples

unfoldable pub sum : List ℕ → ℕ
sum [] = 0
sum (x ∷ xs) = x + sum xs

-- A number of samples that is 0 as `u32` panics.
unfoldable pub average : LatencyTracker → Indexed
average t =
    let divisor = length t.samples % 2 ^ 32 in
    if length t.samples == 0
    then no_samples
    else if divisor == 0
    then out_of_range
    else value_at (sum t.samples / divisor)

unfoldable pub count : LatencyTracker → ℕ
count t = length t.samples

unfoldable pub reset_latencies : ℕ → LatencyTracker → LatencyTracker
reset_latencies now t = record t { samples = []; last_reset = now }

pub record Window : Type 0 where
  pub timestamp : ℕ
  pub requests : ℕ

pub record ThroughputTracker : Type 0 where
  pub windows : List Window
  pub window_size : ℕ
  pub max_windows : ℕ

unfoldable pub new_throughput_tracker : ℕ → ℕ → ThroughputTracker
new_throughput_tracker window_size max_windows = record {
  windows = [];
  window_size = window_size;
  max_windows = max_windows;
}

-- `retain(now - timestamp <= window_size)`
unfoldable pub retain_windows : ℕ → ℕ → List Window → List Window
retain_windows now size [] = []
retain_windows now size (w ∷ ws) =
    let rest = retain_windows now size ws in if leb (now - w.timestamp) size then w ∷ rest else rest

-- `last_mut`, and its count incremented. None for an empty list.
unfoldable pub bump_last : List Window → Option (List Window)
bump_last [] = none
bump_last (w ∷ []) = some (record { timestamp = w.timestamp; requests = u64 (w.requests + 1) } ∷ [])
bump_last (w ∷ v ∷ ws) = elim (bump_last (v ∷ ws)) [ none ↦ none | some rest ↦ some (w ∷ rest) ]

-- `remove(0)` panics where there is nothing to remove.
unfoldable pub new_window : ℕ → ℕ → List Window → Option (List Window)
new_window now max_windows windows =
    let window : Window = record { timestamp = now; requests = 1 } in
    if leb max_windows (length windows)
    then elim windows [ [] ↦ none | w ∷ ws ↦ some (ws ++ (window ∷ [])) ]
    else some (windows ++ (window ∷ []))

-- None if it panics.
unfoldable pub record_request : ℕ → ThroughputTracker → Option ThroughputTracker
record_request now t =
    let kept = retain_windows now t.window_size t.windows in
    elim (bump_last kept) [
      | some bumped ↦ some (record t { windows = bumped })
      | none ↦ elim (new_window now t.max_windows kept) [
        | none ↦ none
        | some ws ↦ some (record t { windows = ws })
      ]
    ]

unfoldable pub total_of_windows : List Window → ℕ
total_of_windows [] = 0
total_of_windows (w ∷ ws) = u64 (w.requests + total_of_windows ws)

unfoldable pub last_timestamp : ℕ → List Window → ℕ
last_timestamp first [] = first
last_timestamp first (w ∷ ws) = last_timestamp w.timestamp ws

module _ (f : Floats) where
  open f use {Float, float_zero, from_nat, as_secs, divide, exceeds}

  unfoldable pub rate_of : List Window → Float
  rate_of [] = float_zero
  rate_of (w ∷ ws) =
      let time_span = last_timestamp w.timestamp ws - w.timestamp in
      if exceeds (as_secs time_span) float_zero
      then divide (from_nat (total_of_windows (w ∷ ws))) (as_secs time_span)
      else float_zero

  unfoldable pub requests_per_second : ThroughputTracker → Float
  requests_per_second t = rate_of t.windows
