-- ===== src/Server/Tests.antt =====
-- The server on a concrete connection, routes and histories, and the theorems applied there.
use kode_bridge.Base.{◌*◌, arith}
use kode_bridge.Server.Drain.{drain, IsDrained, drain-ends}
use kode_bridge.Base.{
  ℕ, ◌≤◌, ◌≡◌, ◌↔◌, refl, Bool, true, false, Option, none, some, List, [], ◌∷◌, length, ◌==◌,
}
use kode_bridge.Errors.{custom}
use kode_bridge.Bytes.{bytes}
use kode_bridge.Codec.{HttpResponse, ParsedRequest}
use kode_bridge.Codec.Sample.{crates, two, parsed}
use kode_bridge.Pool.Counter.{counter}
use kode_bridge.Server.Router.{
  Routing, Router, new_router, add_route, find_handler_and_params, is_safe_path, contains_dots, any,
  is_control, is_bad_control, starts_with_slash, utf8_len, utf8_width,
}
use kode_bridge.Server.Router.Safety.{IsSafe, is_safe_path-IsSafe}
use kode_bridge.Server.Router.Routes.{IsRouted, find_handler_and_params-IsRouted}
use kode_bridge.Server.Connection.{
  new_stats, sent, Turn, malformed, arrived, answered, handler_failed, Served, handle_connection,
  connection_loop, turn, answer, refuse, replied, stop, reply_to, response_of, bad_request,
}
use kode_bridge.Server.Replies.{internal_error}
use kode_bridge.Server.Connection.Order.{IsServed, handle_connection-IsServed}
use kode_bridge.Server.Accept.{
  Server, new_server, spawn, Step, acquires, accepts, Reach, start, next, accepting,
}
use kode_bridge.Server.Accept.Limit.{Move, IsLimited, Reach-IsLimited, serve_refines_bound}

abbrev page : HttpResponse (crates two)
page = record { status = 200; headers = []; body = bytes "hi" }

abbrev asks : Turn (crates two)
asks = record { arrival = arrived parsed; handled = answered page; writing = sent }

-- A malformed request, two requests, the second of which its handler fails, and a third beyond the
-- limit of two.
abbrev turns : List (Turn (crates two))
turns =
    record { arrival = malformed (custom "bad"); handled = answered page; writing = sent }
    ∷ asks
    ∷ record asks { handled = handler_failed (custom "no") }
    ∷ asks
    ∷ []

abbrev finds_all : ParsedRequest (crates two) → Bool
finds_all request = true

abbrev served : Served (crates two)
served = handle_connection (crates two) finds_all 2 new_stats turns

served_replies : served.replies ≡ bad_request (crates two) ∷ page ∷ internal_error (crates two) ∷ []
unfolding handle_connection connection_loop turn answer refuse replied stop reply_to response_of
    bad_request
served_replies = refl

handle_connection-IsServed_example : IsServed (crates two) finds_all 2 0 new_stats turns served
handle_connection-IsServed_example =
    handle_connection-IsServed (crates two) finds_all 2 new_stats turns

-- One tree takes any route and answers with the last.
abbrev routing : Routing
routing = record {
  Method = ℕ;
  same_method = ◌==◌;
  Handler = ℕ;
  Tree = Option ℕ;
  empty = none;
  insert = λ tree path handler. some (some handler);
  find = λ tree path. elim tree [ none ↦ none | some handler ↦ some (handler, []) ];
  url_path = some;
}

abbrev routes : Router routing
routes = add_route routing (new_router routing) 1 (bytes "/a") 7

safe_and_unsafe : (is_safe_path (bytes "/a/b") ≡ true) × (is_safe_path (bytes "/a/../b") ≡ false)
unfolding is_safe_path contains_dots any is_control is_bad_control starts_with_slash utf8_len
    utf8_width
safe_and_unsafe = (refl, refl)

is_safe_path-IsSafe_example : is_safe_path (bytes "/a/b") ≡ true ↔ IsSafe (bytes "/a/b")
is_safe_path-IsSafe_example = is_safe_path-IsSafe (bytes "/a/b")

find_handler_and_params-IsRouted_example :
    (find_handler_and_params routing routes 1 (bytes "/a") ≡ some (7, []))
    ↔ IsRouted routing routes 1 (bytes "/a") (7, [])
find_handler_and_params-IsRouted_example =
    find_handler_and_params-IsRouted routing routes 1 (bytes "/a") (7, [])

-- A server for one connection, which it has.
abbrev new_one : Server counter
new_one = new_server counter 1

abbrev ready : Server counter
ready = record new_one { semaphore = 0; phase = accepting }

to_ready : Step counter new_one ready
unfolding new_server
to_ready = acquires new_one 0 refl refl

ready_Reach : Reach counter 1 ready
ready_Reach = next start to_ready

Reach-IsLimited_example : IsLimited counter 1 ready
Reach-IsLimited_example = Reach-IsLimited counter 1 ready_Reach

serve_refines_bound_example :
    (length ready.live ≤ 1) × Move 1 (length ready.live) (length (spawn counter ready).live)
serve_refines_bound_example = serve_refines_bound counter 1 ready_Reach (accepts ready refl)

-- Two connections never end; the timeout is 250 ms.
abbrev always_two : ℕ → ℕ
always_two n = 2

abbrev ticking : ℕ → ℕ
ticking n = n * 100_000_000

drain-ends_example :
    (m : ℕ) × (drain always_two ticking 250_000_000 4 0 ≡ some (m, 2))
    × IsDrained always_two ticking 250_000_000 m
    × (m ≤ 3)
drain-ends_example = drain-ends always_two ticking 250_000_000 (λ k. omega arith)
