-- ===== src/Metrics/Samples.antt =====
-- src/metrics.rs, `LatencyTracker`: which latencies it keeps, and what a percentile is.
use mathlib.Core.List.{append_assoc, append-nil}
use kode_bridge.Base.{
  subst, ℕ, ◌+◌, ◌-◌, ◌/◌, ◌≤◌, ◌<◌, ◌≡◌, refl, sym, ap, ◌∙◌, inl, inr, true, false, List, [], ◌∷◌,
  ◌++◌, length, length-append, length-drop, drop-append, drop-drop, drop, min, Bool-cases, leb,
  arith,
}
use kode_bridge.Metrics.Trackers.{LatencyTracker, record_latency, new_latency_tracker}

-- The tracker keeps the last latencies of a history: at most its maximum, and more than half of it
-- once there were as many.
pub record IsRecent (history : List ℕ) (t : LatencyTracker) : Type 0 where
  pub forgotten : ℕ
  pub in_history : forgotten ≤ length history
  pub last_ones : t.samples ≡ drop forgotten history
  pub bounded : length t.samples ≤ t.max_samples
  pub enough : min (length history) (t.max_samples / 2 + 1) ≤ length t.samples

unfoldable pub record_all : List ℕ → LatencyTracker → LatencyTracker
record_all [] t = t
record_all (x ∷ xs) t = record_all xs (record_latency x t)

module _ (history : List ℕ) (x : ℕ) (t : LatencyTracker) (big : 2 ≤ t.max_samples)
    (r : IsRecent history t) where
  full-IsRecent :
      leb t.max_samples (length t.samples) ≡ true
      → IsRecent
          (history ++ (x ∷ []))
          (record t { samples = drop (t.max_samples / 2) t.samples ++ (x ∷ []) })
  full-IsRecent full =
      let half = t.max_samples / 2 in
      let there : t.max_samples ≤ length t.samples = ground arith in
      let len = length-append (drop half t.samples) (x ∷ []) in
      let kept = length-drop half t.samples in
      let before : length t.samples ≡ length history - r.forgotten =
        ap length r.last_ones ∙ length-drop r.forgotten history in
      let inside : r.forgotten + half ≤ length history = omega arith in
      record {
        forgotten = r.forgotten + half;
        in_history = omega (arith, length-append history (x ∷ []));
        last_ones =
            ap (λ s. drop half s ++ (x ∷ [])) r.last_ones
            ∙ ap (λ s. s ++ (x ∷ [])) (drop-drop half r.forgotten (r.forgotten + half) history refl)
            ∙ sym (drop-append (r.forgotten + half) history (x ∷ []) inside);
        bounded = omega (arith, len, kept, r.bounded);
        enough = omega (arith, len, kept);
      }

  room-IsRecent :
      leb t.max_samples (length t.samples) ≡ false
      → IsRecent (history ++ (x ∷ [])) (record t { samples = t.samples ++ (x ∷ []) })
  room-IsRecent room =
      let less : length t.samples < t.max_samples = ground arith in
      let len = length-append t.samples (x ∷ []) in
      record {
        forgotten = r.forgotten;
        in_history = omega (arith, r.in_history, length-append history (x ∷ []));
        last_ones =
            ap (λ s. s ++ (x ∷ [])) r.last_ones
            ∙ sym (drop-append r.forgotten history (x ∷ []) r.in_history);
        bounded = omega arith;
        enough = omega (arith, r.enough, length-append history (x ∷ []));
      }

  record_latency-IsRecent : IsRecent (history ++ (x ∷ [])) (record_latency x t)
  unfolding record_latency
  record_latency-IsRecent = elim (Bool-cases (leb t.max_samples (length t.samples))) [
    | inl full ↦ rw full (full-IsRecent full)
    | inr room ↦ rw room (room-IsRecent room)
  ]

record_all-append :
    (xs : List ℕ) (history : List ℕ) (t : LatencyTracker)
    → 2 ≤ t.max_samples
    → IsRecent history t
    → IsRecent (history ++ xs) (record_all xs t)
unfolding record_all
record_all-append [] history t big r = rw (append-nil history) r
record_all-append (x ∷ xs) history t big r =
    let more = record_latency-IsRecent history x t big r in
    subst (λ h. IsRecent h (record_all xs (record_latency x t))) (append_assoc history (x ∷ []) xs)
      (record_all-append xs (history ++ (x ∷ [])) (record_latency x t)
        (unfold record_latency in big) more)

-- A new tracker for at least two samples that recorded a history holds its last latencies: at most
-- its maximum, and all of them or more than half of the maximum.
pub record_all-IsRecent :
    (now max_samples : ℕ) (history : List ℕ)
    → 2 ≤ max_samples
    → IsRecent history (record_all history (new_latency_tracker now max_samples))
record_all-IsRecent now max_samples history big =
    record_all-append history [] (new_latency_tracker now max_samples)
      (unfold new_latency_tracker in big)
      (unfold new_latency_tracker in
        (record {
          forgotten = 0;
          in_history = omega arith;
          last_ones = refl;
          bounded = omega arith;
          enough = omega arith;
        }))
