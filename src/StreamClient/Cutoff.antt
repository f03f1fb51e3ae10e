-- ===== src/StreamClient/Cutoff.antt =====
-- src/stream_client.rs: the loops with a timer are those without one on the events before it runs out.
use kode_bridge.Base.{
  ℕ, ◌-◌, ◌*◌, ◌≡◌, refl, ap, inl, inr, min, String, false, Option, none, some, List, [], ◌∷◌, ◌++◌,
  leb, if◌then◌else◌, Bool-cases, Option-cases, arith,
}
use kode_bridge.Errors.{ok}
use kode_bridge.Bytes.{Bytes}
use kode_bridge.HttpClient.Reader.{Utf8}
use kode_bridge.StreamClient.Lines.{
  Verdict, verdict_of, Event, Item, process_json_loop, process_json, line, broken, ended, json_line,
  json_loop, json, process_lines, timed_loop, process_lines_with_timeout, stream_process_lines,
  collect_loop, collect_text, timed_collect_loop, collect_text_with_timeout,
}

-- The stream as if it ended after the first wait that is as long as the limit.
abbrev pub end_of_stream : List Event
end_of_stream = record { gap = 0; item = ended } ∷ []

abbrev pub cut : ℕ → List Event → List Event
cut limit [] = end_of_stream
cut limit (e ∷ es) =
    let later = cut limit es in if leb limit e.gap then end_of_stream else e ∷ later

collect_loop-cut :
    (limit : ℕ) (events : List Event) (body_lines : List Bytes)
    → collect_loop body_lines (cut limit events) ≡ some (timed_collect_loop limit body_lines events)
unfolding collect_loop timed_collect_loop
collect_loop-cut limit [] body_lines = refl
collect_loop-cut limit (e ∷ es) body_lines = elim (Bool-cases (leb limit e.gap)) [
  | inl late ↦ ground (arith, late)
  | inr in_time ↦
      by_item e.item refl in_time (λ text. collect_loop-cut limit es (body_lines ++ text ∷ []))
]
  where
    by_item :
        (i : Item)
        → e.item ≡ i
        → leb limit e.gap ≡ false
        → ((text : Bytes)
            → collect_loop (body_lines ++ text ∷ []) (cut limit es)
              ≡ some (timed_collect_loop limit (body_lines ++ text ∷ []) es))
        → collect_loop body_lines (cut limit (e ∷ es))
          ≡ some (timed_collect_loop limit body_lines (e ∷ es))
    by_item (line text) is in_time later =
        rw (cut, collect_loop, timed_collect_loop, in_time, is) (later text)
    by_item (broken reason) is in_time later =
        rw (cut, collect_loop, timed_collect_loop, in_time, is) refl
    by_item ended is in_time later = rw (cut, collect_loop, timed_collect_loop, in_time, is) refl

-- Collecting a stream with a timeout gives what collecting it without one would, had the stream ended
-- after the first wait of the timeout or of 30 seconds.
pub collect_text-cut :
    (timeout : ℕ) (events : List Event)
    → collect_text (cut (min timeout (30 * 1_000_000_000)) events)
      ≡ some (collect_text_with_timeout timeout events)
unfolding collect_text collect_text_with_timeout
collect_text-cut timeout events = collect_loop-cut (min timeout (30 * 1_000_000_000)) events []

module _ {S : Type 0} (handler : S → Bytes → S × Option String) where
  abbrev going_on : S → Bytes → S × Verdict
  going_on s text = ((handler s text).0, verdict_of (handler s text).1)

  process_lines-timed :
      (limit : ℕ) (events : List Event) (s : S)
      → process_lines handler s (cut limit events) ≡ some (timed_loop going_on limit s events)
  unfolding process_lines timed_loop
  process_lines-timed limit [] s = refl
  process_lines-timed limit (e ∷ es) s = elim (Bool-cases (leb limit e.gap)) [
    | inl late ↦ ground (arith, late)
    | inr in_time ↦
        by_item e.item refl in_time (λ text. process_lines-timed limit es (handler s text).0)
  ]
    where
      by_item :
          (i : Item)
          → e.item ≡ i
          → leb limit e.gap ≡ false
          → ((text : Bytes)
              → process_lines handler (handler s text).0 (cut limit es)
                ≡ some (timed_loop going_on limit (handler s text).0 es))
          → process_lines handler s (cut limit (e ∷ es))
            ≡ some (timed_loop going_on limit s (e ∷ es))
      by_item (line text) is in_time later = elim (Option-cases (handler s text).1) [
        | inl n ↦ rw (cut, process_lines, timed_loop, in_time, is, n) (later text)
        | inr (reason, r) ↦ rw (cut, process_lines, timed_loop, in_time, is, r) refl
      ]
      by_item (broken reason) is in_time later =
          rw (cut, process_lines, timed_loop, in_time, is) refl
      by_item ended is in_time later = rw (cut, process_lines, timed_loop, in_time, is) refl

  -- The client of src/ipc_stream_client.rs handles the lines of a stream as `process_lines` without a
  -- timeout would, had the stream ended after the first wait of the timeout or of 5 seconds.
  process_lines-cut :
      (timeout : ℕ) (s : S) (events : List Event)
      → process_lines handler s (cut (min timeout (5 * 1_000_000_000)) events)
        ≡ some (stream_process_lines handler timeout s events)
  unfolding stream_process_lines process_lines_with_timeout
  process_lines-cut timeout s events =
      process_lines-timed (min timeout (5 * 1_000_000_000)) events s

-- The lines that come in the given time, up to an error or the end.
abbrev lines_of : Item → List Bytes → List Bytes
lines_of (line text) later = text ∷ later
lines_of _ later = []

abbrev pub lines_within : ℕ → List Event → List Bytes
lines_within time [] = []
lines_within time (e ∷ es) =
    let later = lines_within (time - e.gap) es in
    if leb time e.gap then [] else lines_of e.item later

abbrev pub filter_map : {A B : Type 0} → (A → Option B) → List A → List B
filter_map f [] = []
filter_map f (x ∷ xs) = elim (f x) [ none ↦ filter_map f xs | some y ↦ y ∷ filter_map f xs ]

module _ {T : Type 0} (u : Utf8) (parse : Bytes → Option T) where
  json_loop-lines :
      (time : ℕ) (events : List Event)
      → json_loop u parse time events ≡ filter_map (json_line u parse) (lines_within time events)
  unfolding json_loop
  json_loop-lines time [] = refl
  json_loop-lines time (e ∷ es) = elim (Bool-cases (leb time e.gap)) [
    | inl late ↦ ground (arith, late)
    | inr in_time ↦ by_item e.item refl in_time (json_loop-lines (time - e.gap) es)
  ]
    where
      by_item :
          (i : Item)
          → e.item ≡ i
          → leb time e.gap ≡ false
          → json_loop u parse (time - e.gap) es
            ≡ filter_map (json_line u parse) (lines_within (time - e.gap) es)
          → json_loop u parse time (e ∷ es)
            ≡ filter_map (json_line u parse) (lines_within time (e ∷ es))
      by_item (line text) is in_time later = elim (Option-cases (json_line u parse text)) [
        | inl n ↦ rw (json_loop, lines_within, lines_of, filter_map, in_time, is, n) later
        | inr (value, v) ↦
            rw (json_loop, lines_within, lines_of, filter_map, in_time, is, v)
              (ap (λ l. value ∷ l) later)
      ]
      by_item (broken reason) is in_time later =
          rw (json_loop, lines_within, lines_of, filter_map, in_time, is) refl
      by_item ended is in_time later =
          rw (json_loop, lines_within, lines_of, filter_map, in_time, is) refl

  process_json-json_loop :
      {S : Type 0} (s : S) (time : ℕ) (events : List Event)
      → process_json_loop (λ t text. (t, json_line u parse text)) time s events
        ≡ (s, json_loop u parse time events)
  unfolding process_json_loop json_loop
  process_json-json_loop s time [] = refl
  process_json-json_loop {S} s time (e ∷ es) = elim (Bool-cases (leb time e.gap)) [
    | inl late ↦ ground (arith, late)
    | inr in_time ↦ by_item e.item refl in_time (process_json-json_loop s (time - e.gap) es)
  ]
    where
      by_item :
          (i : Item)
          → e.item ≡ i
          → leb time e.gap ≡ false
          → process_json_loop (λ t text. (t, json_line u parse text)) (time - e.gap) s es
            ≡ (s, json_loop u parse (time - e.gap) es)
          → process_json_loop (λ t text. (t, json_line u parse text)) time s (e ∷ es)
            ≡ (s, json_loop u parse time (e ∷ es))
      by_item (line text) is in_time later = elim (Option-cases (json_line u parse text)) [
        | inl n ↦ rw (process_json_loop, json_loop, in_time, is, n, later) refl
        | inr (value, v) ↦ rw (process_json_loop, json_loop, in_time, is, v, later) refl
      ]
      by_item (broken reason) is in_time later = rw (process_json_loop, json_loop, in_time, is) refl
      by_item ended is in_time later = rw (process_json_loop, json_loop, in_time, is) refl

  -- `json` never fails: it returns the values of the lines that come before the timeout, up to an
  -- error or the end of the stream, in their order, without the blank lines and those that do not
  -- parse; and `process_json` with that as its handler returns the same.
  pub json-lines :
      {S : Type 0} (s : S) (timeout : ℕ) (events : List Event)
      → (json u parse timeout events
          ≡ ok (filter_map (json_line u parse) (lines_within timeout events)))
        × (process_json (λ t text. (t, json_line u parse text)) timeout s events
            ≡ (s, json u parse timeout events))
  unfolding json process_json
  json-lines s timeout events = (
    ap ok (json_loop-lines timeout events),
    rw (process_json, process_json-json_loop s timeout events) refl,
  )
