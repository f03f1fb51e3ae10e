-- ===== src/Metrics/Throughput.antt =====
-- src/metrics.rs, `ThroughputTracker`: it holds one window at most.
use kode_bridge.Base.{
  ℕ, ◌+◌, ◌-◌, ◌≤◌, ◌≡◌, refl, ◌∙◌, false, Option, none, some, List, [], ◌∷◌, length, u64, arith,
}
use kode_bridge.Metrics.Trackers.{
  Floats, ThroughputTracker, Window, new_throughput_tracker, retain_windows, bump_last, new_window,
  record_request, last_timestamp, rate_of, requests_per_second,
}

-- A history of requests, given by their times.
unfoldable pub record_requests : List ℕ → ThroughputTracker → Option ThroughputTracker
record_requests [] t = some t
record_requests (now ∷ later) t = elim (record_request now t) [
  | none ↦ none
  | some next ↦ record_requests later next
]

length-retain_windows :
    (now size : ℕ) (ws : List Window) → length (retain_windows now size ws) ≤ length ws
unfolding retain_windows
length-retain_windows now size [] = omega arith
length-retain_windows now size (w ∷ ws) = ground (arith, length-retain_windows now size ws)

-- What `record_request` leaves: one window, under the same limits.
pub record_request-one :
    (now : ℕ) (t : ThroughputTracker)
    → length t.windows ≤ 1
    → 1 ≤ t.max_windows
    → (next : ThroughputTracker) × (record_request now t ≡ some next)
      × (length next.windows ≡ 1)
      × (next.max_windows ≡ t.max_windows)
unfolding record_request
record_request-one now t few room =
    after (retain_windows now t.window_size t.windows)
      (omega (arith, length-retain_windows now t.window_size t.windows))
  where
    after :
        (kept : List Window)
        → length kept ≤ 1
        → (next : ThroughputTracker) × ((elim (bump_last kept) [
          | some bumped ↦ some (record t { windows = bumped })
          | none ↦ elim (new_window now t.max_windows kept) [
            | none ↦ none
            | some ws ↦ some (record t { windows = ws })
          ]
        ])
            ≡ some next)
          × (length next.windows ≡ 1)
          × (next.max_windows ≡ t.max_windows)
    after [] h = (
      record t { windows = record { timestamp = now; requests = 1 } ∷ [] },
      unfold bump_last new_window in ground arith,
      refl,
      refl,
    )
    after (w ∷ []) h = (
      record t {
        windows = record { timestamp = w.timestamp; requests = u64 (w.requests + 1) } ∷ [];
      },
      unfold bump_last in refl,
      refl,
      refl,
    )
    after (w ∷ v ∷ ws) h = absurd (omega arith)

record_requests-next :
    (now : ℕ) (later : List ℕ) (t next : ThroughputTracker)
    → record_request now t ≡ some next
    → record_requests (now ∷ later) t ≡ record_requests later next
unfolding record_requests
record_requests-next now later t next is = rw (record_requests, is) refl

record_requests-one :
    (times : List ℕ) (t : ThroughputTracker)
    → length t.windows ≤ 1
    → 1 ≤ t.max_windows
    → (last : ThroughputTracker) × (record_requests times t ≡ some last) × (length last.windows ≤ 1)
record_requests-one [] t few room = (t, unfold record_requests in refl, few)
record_requests-one (now ∷ later) t few room =
    let (next, is, one, limit) = record_request-one now t few room in
    let (last, done, few_left) = record_requests-one later next (omega arith) (omega arith) in
    (last, record_requests-next now later t next is ∙ done, few_left)

rate_of-one :
    (f : Floats) (ws : List Window)
    → length ws ≤ 1
    → f.exceeds (f.as_secs 0) f.float_zero ≡ false
    → rate_of f ws ≡ f.float_zero
unfolding rate_of last_timestamp
rate_of-one f [] few h = refl
rate_of-one f (w ∷ []) few h =
    let same : w.timestamp - w.timestamp ≡ 0 = omega arith in rw (same, h) refl
rate_of-one f (w ∷ v ∷ ws) few h = absurd (omega arith)

-- Whatever requests are recorded at whatever times, a new tracker with room for a window counts all
-- of them in one window, does not panic, and reports that there are zero requests per second.
requests_per_second_zero :
    (f : Floats) (times : List ℕ) (window_size max_windows : ℕ)
    → 1 ≤ max_windows
    → f.exceeds (f.as_secs 0) f.float_zero ≡ false
    → (last : ThroughputTracker) × (record_requests times
          (new_throughput_tracker window_size max_windows)
        ≡ some last)
      × (length last.windows ≤ 1)
      × (requests_per_second f last ≡ f.float_zero)
requests_per_second_zero f times window_size max_windows room h =
    let (last, is, few) =
      record_requests-one times (new_throughput_tracker window_size max_windows)
        (unfold new_throughput_tracker in (omega arith)) (unfold new_throughput_tracker in room) in
    (last, is, few, unfold requests_per_second in rate_of-one f last.windows few h)
