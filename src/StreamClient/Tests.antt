-- ===== src/StreamClient/Tests.antt =====
-- A streamed response and its lines, and the theorems applied there.
use kode_bridge.Base.{ℕ, ◌+◌, String, Option, none, List, [], ◌∷◌}
use kode_bridge.Bytes.{Bytes, bytes}
use kode_bridge.HttpClient.Response.{ParseError}
use kode_bridge.HttpClient.Sample.{stream}
use kode_bridge.StreamClient.Head.{read_streaming_head}
use kode_bridge.StreamClient.Boundary.{IsHead, read_streaming_head-IsHead}
use kode_bridge.StreamClient.Lines.{Event, line, ended}

read_streaming_head-IsHead_example : IsHead stream (read_streaming_head stream)
read_streaming_head-IsHead_example = read_streaming_head-IsHead stream

abbrev display : ParseError → String
display e = "bad"

-- Two lines, the second a blank one, and a third after nine seconds.
abbrev events : List Event
events =
    record { gap = 1; item = line (bytes "ab") }
    ∷ record { gap = 1; item = line [] }
    ∷ record { gap = 9_000_000_000; item = line (bytes "c") }
    ∷ record { gap = 1; item = ended }
    ∷ []

-- A handler that counts its lines.
count_lines : ℕ → Bytes → ℕ × Option String
count_lines n text = (n + 1, none)
