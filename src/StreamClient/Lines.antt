-- ===== src/StreamClient/Lines.antt =====
-- src/stream_client.rs: what `StreamingResponse` does with the lines of its stream. An event is what
-- the wait for the next line comes to, and how long it takes. A timer that runs out at the same time
-- comes first. A handler has a state, and an error of it is its text.
use kode_bridge.Base.{
  ℕ, ◌-◌, ◌*◌, min, String, Option, none, some, List, [], ◌∷◌, ◌++◌, length, leb, ◌==◌,
  if◌then◌else◌,
}
use Prim.Native.String.{◌++◌ as append}
use kode_bridge.Errors.{io, custom, Result, ok, err}
use kode_bridge.Bytes.{Bytes}
use kode_bridge.HttpClient.Reader.{Utf8}

pub data Item : Type 0 where
  line : Bytes → Item
  broken : String → Item
  ended : Item

pub record Event : Type 0 where
  pub gap : ℕ
  pub item : Item

-- `join("\n")`
unfoldable pub join : List Bytes → Bytes
join [] = []
join (x ∷ []) = x
join (x ∷ y ∷ ys) = x ++ 10 ∷ join (y ∷ ys)

module _ {T : Type 0} (u : Utf8) (parse : Bytes → Option T) where
  -- A line that is not blank and that parses.
  unfoldable pub json_line : Bytes → Option T
  json_line text = if length (u.trim text) == 0 then none else parse text

  abbrev push : Option T → List T → List T
  push none later = later
  push (some value) later = value ∷ later

  -- The timer runs for the whole of the loop. `remaining` is what is left of it.
  unfoldable pub json_loop : ℕ → List Event → List T
  json_loop remaining [] = []
  json_loop remaining (e ∷ es) =
      let later = json_loop (remaining - e.gap) es in
      if leb remaining e.gap
      then []
      else elim e.item [ line text ↦ push (json_line text) later | broken reason ↦ [] | ended ↦ [] ]

  unfoldable pub json : ℕ → List Event → Result (List T)
  json timeout events = ok (json_loop timeout events)

module _ {S T : Type 0} (handler : S → Bytes → S × Option T) where
  abbrev with_value : Option T → S × List T → S × List T
  with_value none (s, later) = (s, later)
  with_value (some value) (s, later) = (s, value ∷ later)

  unfoldable pub process_json_loop : ℕ → S → List Event → S × List T
  process_json_loop remaining s [] = (s, [])
  process_json_loop remaining s (e ∷ es) = if leb remaining e.gap then (s, []) else elim e.item [
    | line text ↦
        with_value (handler s text).1 (process_json_loop (remaining - e.gap) (handler s text).0 es)
    | broken reason ↦ (s, [])
    | ended ↦ (s, [])
  ]

  unfoldable pub process_json : ℕ → S → List Event → S × Result (List T)
  process_json timeout s events =
      let (s', values) = process_json_loop timeout s events in (s', ok values)

-- What a handler says of a line: to go on, to stop, or that it failed.
pub data Verdict : Type 0 where
  goes_on stops : Verdict
  fails : String → Verdict

abbrev pub verdict_of : Option String → Verdict
verdict_of none = goes_on
verdict_of (some reason) = fails reason

unfoldable pub handler_error : String → Result (Unit {0})
handler_error text = err (custom (append "Handler error: " text))

module _ {S : Type 0} where
  -- None while the stream is waited for.
  unfoldable pub process_lines :
      (S → Bytes → S × Option String) → S → List Event → Option (S × Result (Unit {0}))
  process_lines handler s [] = none
  process_lines handler s (e ∷ es) = elim e.item [
    | line text ↦
        let later = process_lines handler (handler s text).0 es in
        elim (handler s text).1 [
          | some reason ↦ some ((handler s text).0, handler_error reason)
          | none ↦ later
        ]
    | broken reason ↦ some (s, err (io reason))
    | ended ↦ some (s, ok tt)
  ]

  -- The timer starts anew after each line.
  unfoldable pub timed_loop : (S → Bytes → S × Verdict) → ℕ → S → List Event → S × Result (Unit {0})
  timed_loop handler limit s [] = (s, ok tt)
  timed_loop handler limit s (e ∷ es) = if leb limit e.gap then (s, ok tt) else elim e.item [
    | line text ↦
        let later = timed_loop handler limit (handler s text).0 es in
        elim (handler s text).1 [
          | goes_on ↦ later
          | stops ↦ ((handler s text).0, ok tt)
          | fails reason ↦ ((handler s text).0, handler_error reason)
        ]
    | broken reason ↦ (s, err (io reason))
    | ended ↦ (s, ok tt)
  ]

  unfoldable pub process_lines_with_timeout :
      (S → Bytes → S × Verdict) → ℕ → S → List Event → S × Result (Unit {0})
  process_lines_with_timeout handler timeout s events =
      timed_loop handler (min timeout (5 * 1_000_000_000)) s events

  -- `StreamResponse::process_lines` of src/ipc_stream_client.rs.
  unfoldable pub stream_process_lines :
      (S → Bytes → S × Option String) → ℕ → S → List Event → S × Result (Unit {0})
  stream_process_lines handler timeout s events =
      process_lines_with_timeout (λ t text. ((handler t text).0, verdict_of (handler t text).1))
        timeout s events

unfoldable pub collect_loop : List Bytes → List Event → Option (Result Bytes)
collect_loop body_lines [] = none
collect_loop body_lines (e ∷ es) = elim e.item [
  | line text ↦ collect_loop (body_lines ++ text ∷ []) es
  | broken reason ↦ some (err (io reason))
  | ended ↦ some (ok (join body_lines))
]

-- None while the stream is waited for.
unfoldable pub collect_text : List Event → Option (Result Bytes)
collect_text events = collect_loop [] events

unfoldable pub timed_collect_loop : ℕ → List Bytes → List Event → Result Bytes
timed_collect_loop limit body_lines [] = ok (join body_lines)
timed_collect_loop limit body_lines (e ∷ es) =
    if leb limit e.gap then ok (join body_lines) else elim e.item [
      | line text ↦ timed_collect_loop limit (body_lines ++ text ∷ []) es
      | broken reason ↦ err (io reason)
      | ended ↦ ok (join body_lines)
    ]

unfoldable pub collect_text_with_timeout : ℕ → List Event → Result Bytes
collect_text_with_timeout timeout events =
    timed_collect_loop (min timeout (30 * 1_000_000_000)) [] events
