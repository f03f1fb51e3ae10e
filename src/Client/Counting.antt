-- ===== src/Client/Counting.antt =====
-- src/ipc_http_client.rs, `send` and `get_connection`: what they count.
use kode_bridge.Metrics.Throughput.{record_request-one}
use kode_bridge.Base.{
  ◌≤◌, length, ℕ, ◌<◌, ◌^◌, ◌≡◌, ap, inl, inr, String, Bool, true, false, some, fetch_inc,
  Option-cases, arith, if◌then◌else◌,
}
use kode_bridge.Errors.{KodeBridgeError, Result, ok, err}
use kode_bridge.Metrics.Collector.{
  new_collector, MetricsCollector, request_start, start_counters, insert_method, record_throughput,
  success, failure, complete, record_error, step, count_existing, starts, inserts, throughput_at,
  succeeds, fails,
}
use kode_bridge.Metrics.Trackers.{new_throughput_tracker}
use text.Mathlib.Text.{◌==◌ as str_eq}
use kode_bridge.Metrics.Accounting.{new_collector-Agrees, Agrees, step-Agrees}
use kode_bridge.Client.Exchange.{count_outcome, counted_send}

-- The counters agree, and the throughput tracker has room for a window and holds one at most, as
-- that of a new collector does.
pub record IsSound (m : MetricsCollector) : Type 0 where
  pub agrees : Agrees m
  pub few : length m.throughput.windows ≤ 1
  pub room : 1 ≤ m.throughput.max_windows

-- What `request_start` does to the counters of requests.
record IsStarted (m started : MetricsCollector) : Type 0 where
  sound : IsSound started
  total : started.requests.total_requests ≡ fetch_inc m.requests.total_requests
  active : started.requests.active_requests ≡ fetch_inc m.requests.active_requests
  successful : started.requests.successful_requests ≡ m.requests.successful_requests
  failed : started.requests.failed_requests ≡ m.requests.failed_requests
  errors : started.errors.total_errors ≡ m.errors.total_errors

with_throughput-IsStarted :
    (now : ℕ) (m ready : MetricsCollector)
    → IsStarted m ready
    → (started : MetricsCollector) × (record_throughput now ready ≡ some started)
      × IsStarted m started
unfolding record_throughput
with_throughput-IsStarted now m ready i =
    let (t, is, one, limit) = record_request-one now ready.throughput i.sound.few i.sound.room in
    let agrees : Agrees (record ready { throughput = t }) =
      unfold step record_throughput in
      ground (arith, is, step-Agrees (throughput_at now) ready i.sound.agrees) in
    (
      record ready { throughput = t },
      ground (arith, is),
      record {
        sound = record {
          agrees = agrees;
          few = omega arith;
          room = omega (arith, limit, i.sound.room);
        };
        total = i.total;
        active = i.active;
        successful = i.successful;
        failed = i.failed;
        errors = i.errors;
      },
    )

request_start-IsStarted :
    (method : String) (now : ℕ) (m : MetricsCollector)
    → IsSound m
    → (started : MetricsCollector) × (request_start method now m ≡ some started)
      × IsStarted m started
unfolding request_start start_counters step
request_start-IsStarted method now m a =
    let first : Agrees (start_counters method m).0 = step-Agrees (starts method) m a.agrees in
    elim (Option-cases (count_existing str_eq method m.requests.requests_by_method)) [
      | inl n ↦
          let ready = insert_method method (start_counters method m).0 in
          let second : Agrees ready =
            step-Agrees (inserts method) (start_counters method m).0 first in
          let (started, is, i) =
            with_throughput-IsStarted now m ready
              (unfold insert_method in ground (arith, n, second)) in
          (started, ground (arith, n, is), i)
      | inr (counted, e) ↦
          let (started, is, i) =
            with_throughput-IsStarted now m (start_counters method m).0
              (ground (arith, e, first)) in
          (started, ground (arith, e, is), i)
    ]

-- What `send` leaves behind of a request: one more, which is successful or failed and no longer
-- active, and an error is counted with each failure.
pub record IsCounted (succeeded : Bool) (m m' : MetricsCollector) : Type 0 where
  pub sound : IsSound m'
  pub total : m'.requests.total_requests ≡ fetch_inc m.requests.total_requests
  pub active : m'.requests.active_requests ≡ m.requests.active_requests
  pub successful : m'.requests.successful_requests ≡ (
      if succeeded
      then fetch_inc m.requests.successful_requests
      else m.requests.successful_requests)
  pub failed :
      m'.requests.failed_requests
      ≡ (if succeeded then m.requests.failed_requests else fetch_inc m.requests.failed_requests)
  pub errors :
      m'.errors.total_errors
      ≡ (if succeeded then m.errors.total_errors else fetch_inc m.errors.total_errors)

abbrev pub is_ok : {A : Type 0} → Result A → Bool
is_ok (ok v) = true
is_ok (err e) = false

count_outcome-IsCounted :
    (debug : KodeBridgeError → String) (start now : ℕ) (outcome : Result ℕ)
    (m started : MetricsCollector)
    → m.requests.active_requests < 2 ^ 64
    → IsStarted m started
    → IsCounted (is_ok outcome) m (count_outcome debug start now outcome started)
unfolding count_outcome success failure complete record_error
count_outcome-IsCounted debug start now (ok status) m started small i = record {
  sound = record {
    agrees = unfold step in step-Agrees (succeeds start status now) started i.sound.agrees;
    few = i.sound.few;
    room = i.sound.room;
  };
  total = i.total;
  active = omega (arith, i.active);
  successful = ap fetch_inc i.successful;
  failed = i.failed;
  errors = i.errors;
}
count_outcome-IsCounted debug start now (err e) m started small i = record {
  sound = record {
    agrees = unfold step in step-Agrees (fails start (debug e) now) started i.sound.agrees;
    few = i.sound.few;
    room = i.sound.room;
  };
  total = i.total;
  active = omega (arith, i.active);
  successful = i.successful;
  failed = ap fetch_inc i.failed;
  errors = ap fetch_inc i.errors;
}

-- A new collector is sound.
pub new_collector-IsSound : (now : ℕ) → IsSound (new_collector now)
new_collector-IsSound now = record {
  agrees = new_collector-Agrees now;
  few = unfold new_collector new_throughput_tracker in omega arith;
  room = unfold new_collector new_throughput_tracker in omega arith;
}

-- On a sound collector `send` does not panic. It counts a request once, as successful or failed by
-- its outcome, leaves as many requests active as before, and leaves the collector sound.
pub counted_send-IsCounted :
    (debug : KodeBridgeError → String) (method : String) (start now : ℕ) (outcome : Result ℕ)
    (m : MetricsCollector)
    → m.requests.active_requests < 2 ^ 64
    → IsSound m
    → (m' : MetricsCollector) × (counted_send debug method start now outcome m ≡ some m')
      × IsCounted (is_ok outcome) m m'
unfolding counted_send
counted_send-IsCounted debug method start now outcome m small a =
    let (started, is, i) = request_start-IsStarted method start m a in
    (
      count_outcome debug start now outcome started,
      ground (arith, is),
      count_outcome-IsCounted debug start now outcome m started small i,
    )
