-- ===== src/Server/Connection/Order.antt =====
-- src/ipc_http_server.rs, `handle_connection`: every request is answered once and in order, up to
-- the limit, and every request, response and error is counted.
use kode_bridge.Base.{
  subst, ℕ, ◌+◌, ◌<◌, ◌≡◌, refl, sym, ap, ◌∙◌, ◌⊎◌, inl, inr, Bool, true, false, List, [], ◌∷◌,
  ◌++◌, Bool-cases, All, max, u64, leb, arith,
}
use kode_bridge.Errors.{timeout_msg, Result, ok, err}
use kode_bridge.Codec.{Http, HttpResponse, ParsedRequest}
use kode_bridge.Server.Connection.{
  SharedStats, Sent, sent, send_failed, send_timed_out, Arrival, closed, read_timed_out, malformed,
  arrived, Handled, Turn, Ending, waiting, ended, Served, bad_request, reply_to, refuse, answer,
  turn, connection_loop, handle_connection, stop, replied, count_request, count_response,
  count_error,
}

module _ (h : Http) (finds : ParsedRequest h → Bool) (max_requests : ℕ) where
  -- What a turn is owed: a malformed request is refused, and a request is answered.
  abbrev pub owed : Arrival h → Handled h → List (HttpResponse h)
  owed closed handled = []
  owed read_timed_out handled = []
  owed (malformed e) handled = bad_request h ∷ []
  owed (arrived request) handled = reply_to h finds max_requests request handled ∷ []

  abbrev pub replies_to : List (Turn h) → List (HttpResponse h)
  replies_to [] = []
  replies_to (t ∷ ts) = owed t.arrival t.handled ++ replies_to ts

  abbrev pub requests_in : Arrival h → ℕ
  requests_in (arrived request) = 1
  requests_in _ = 0

  abbrev pub malformed_in : Arrival h → ℕ
  malformed_in (malformed e) = 1
  malformed_in _ = 0

  abbrev pub requests_of : List (Turn h) → ℕ
  requests_of [] = 0
  requests_of (t ∷ ts) = requests_in t.arrival + requests_of ts

  abbrev pub malformed_of : List (Turn h) → ℕ
  malformed_of [] = 0
  malformed_of (t ∷ ts) = malformed_in t.arrival + malformed_of ts

  -- A turn that brought a request, whose reply was written.
  abbrev pub IsAnswered : Turn h → Type 0
  IsAnswered t = (t.writing ≡ sent) × (requests_in t.arrival + malformed_in t.arrival ≡ 1)

  abbrev pub EndsWriting : Sent → Ending → Type 0
  EndsWriting sent ending = ⊥
  EndsWriting (send_failed e) ending = ending ≡ ended (err e)
  EndsWriting send_timed_out ending = ending ≡ ended (err (timeout_msg "Response write timeout"))

  -- How a turn ends the connection.
  abbrev pub EndsAt : Arrival h → Sent → Ending → Type 0
  EndsAt closed writing ending = ending ≡ ended (ok tt)
  EndsAt read_timed_out writing ending = ending ≡ ended (err (timeout_msg "Request read timeout"))
  EndsAt (malformed e) writing ending = EndsWriting writing ending
  EndsAt (arrived request) writing ending = EndsWriting writing ending

  abbrev pub StopsIn : List (Turn h) → Ending → Type 0
  StopsIn [] ending = ending ≡ waiting
  StopsIn (t ∷ ts) ending = EndsAt t.arrival t.writing ending

  -- The requests of the first turn, if it is one that ends the connection.
  abbrev pub unanswered : List (Turn h) → ℕ
  unanswered [] = 0
  unanswered (t ∷ ts) = requests_in t.arrival

  -- The limit, which is one where the configured one is zero.
  abbrev pub limit : ℕ
  limit = max max_requests 1

  -- The connection ends because the limit is reached, or because of the next turn.
  abbrev pub Ends : ℕ → List (Turn h) → Ending → Type 0
  Ends n rest ending =
      ((n ≡ limit) × (ending ≡ ended (ok tt))) ⊎ ((n < limit) × StopsIn rest ending)

  abbrev pub left_over : ℕ → List (Turn h) → ℕ
  left_over n rest = elim (leb limit n) [ true ↦ 0 | false ↦ unanswered rest ]

  -- What came of the turns: the first ones were all answered, in order, and the connection ended for
  -- a reason that the source names, within its limit; the counters say the same, up to their wrap.
  pub record IsServed (served : ℕ) (stats : SharedStats) (turns : List (Turn h)) (r : Served h)
      : Type 0 where
    pub done : List (Turn h)
    pub rest : List (Turn h)
    pub split : turns ≡ done ++ rest
    pub answered : All IsAnswered done
    pub in_order : r.replies ≡ replies_to done
    pub reason : Ends (served + requests_of done) rest r.ending
    pub responses : u64 r.stats.total_responses ≡ u64 (stats.total_responses + requests_of done)
    pub requests :
        u64 r.stats.total_requests
        ≡ u64 (stats.total_requests + requests_of done + left_over (served + requests_of done) rest)
    pub errors :
        u64 r.stats.total_errors
        ≡ u64 (stats.total_errors + malformed_of done + left_over (served + requests_of done) rest)

  -- One turn is answered, and the rest of the loop is served.
  one_more :
      (served more : ℕ) (stats stats' : SharedStats) (t : Turn h) (turns : List (Turn h))
      (r : Served h) (response : HttpResponse h)
      → IsAnswered t
      → owed t.arrival t.handled ≡ response ∷ []
      → more ≡ served + requests_in t.arrival
      → u64 stats'.total_responses ≡ u64 (stats.total_responses + requests_in t.arrival)
      → u64 stats'.total_requests ≡ u64 (stats.total_requests + requests_in t.arrival)
      → u64 stats'.total_errors ≡ u64 (stats.total_errors + malformed_in t.arrival)
      → IsServed more stats' turns r
      → IsServed served stats (t ∷ turns) (replied h response r)
  one_more served more stats stats' t turns r response a o m res req er i =
      let n = requests_of i.done in
      let same : served + requests_of (t ∷ i.done) ≡ more + n = omega arith in
      let lo : left_over (served + requests_of (t ∷ i.done)) i.rest ≡ left_over (more + n) i.rest =
        ap (λ k. left_over k i.rest) same in
      record {
        done = t ∷ i.done;
        rest = i.rest;
        split = ap (◌∷◌ t) i.split;
        answered = (a, i.answered);
        in_order =
            unfold replied in
            (ap (◌∷◌ response) i.in_order ∙ ap (λ os. os ++ replies_to i.done) (sym o));
        reason = unfold replied in (subst (λ k. Ends k i.rest r.ending) (sym same) i.reason);
        responses = unfold replied in (omega (arith, i.responses, res));
        requests = unfold replied in (omega (arith, i.requests, req, lo));
        errors = unfold replied in (omega (arith, i.errors, er, lo));
      }

  -- The connection ends with this turn.
  stopped :
      (served : ℕ) (stats stats' : SharedStats) (t : Turn h) (turns : List (Turn h))
      (result : Result (Unit {0}))
      → served < limit
      → EndsAt t.arrival t.writing (ended result)
      → u64 stats'.total_responses ≡ u64 stats.total_responses
      → u64 stats'.total_requests ≡ u64 (stats.total_requests + requests_in t.arrival)
      → u64 stats'.total_errors ≡ u64 (stats.total_errors + requests_in t.arrival)
      → IsServed served stats (t ∷ turns) (stop h stats' result)
  stopped served stats stats' t turns result small e res req er =
      let here : served + 0 ≡ served = omega arith in
      let lo : left_over (served + 0) (t ∷ turns) ≡ requests_in t.arrival = ground (arith, small) in
      record {
        done = [];
        rest = t ∷ turns;
        split = refl;
        answered = tt;
        in_order = unfold stop in refl;
        reason = inr (omega arith, unfold stop in e);
        responses = unfold stop in (omega (arith, res));
        requests = unfold stop in (omega (arith, req, lo));
        errors = unfold stop in (omega (arith, er, lo));
      }

  -- The limit is reached.
  reached :
      (served : ℕ) (stats stats' : SharedStats) (t : Turn h) (turns : List (Turn h))
      (response : HttpResponse h)
      → IsAnswered t
      → owed t.arrival t.handled ≡ response ∷ []
      → served + requests_in t.arrival ≡ limit
      → u64 stats'.total_responses ≡ u64 (stats.total_responses + requests_in t.arrival)
      → u64 stats'.total_requests ≡ u64 (stats.total_requests + requests_in t.arrival)
      → u64 stats'.total_errors ≡ u64 (stats.total_errors + malformed_in t.arrival)
      → IsServed served stats (t ∷ turns) (replied h response (stop h stats' (ok tt)))
  reached served stats stats' t turns response a o m res req er =
      let sum : served + requests_of (t ∷ []) ≡ limit = omega arith in
      let lo : left_over (served + requests_of (t ∷ [])) turns ≡ 0 = ground (arith, sum) in
      record {
        done = t ∷ [];
        rest = turns;
        split = refl;
        answered = (a, tt);
        in_order = unfold replied stop in (ap (λ os. os ++ []) (sym o));
        reason = inl (sum, unfold replied stop in refl);
        responses = unfold replied stop in (omega (arith, res));
        requests = unfold replied stop in (omega (arith, req, lo));
        errors = unfold replied stop in (omega (arith, er, lo));
      }

  module _ (turns : List (Turn h)) (later : ℕ → SharedStats → Served h)
      (next : (k : ℕ) (s : SharedStats) → k < limit → IsServed k s turns (later k s))
      (hd : Handled h) where
    one_turn :
        (a : Arrival h) (w : Sent) (served : ℕ) (stats : SharedStats)
        → served < limit
        → IsServed served stats
            (record { arrival = a; handled = hd; writing = w } ∷ turns)
            (turn h finds max_requests a hd w served stats later)
    unfolding turn refuse answer count_request count_response count_error
    one_turn closed w served stats small =
        stopped served stats stats _ turns (ok tt) small refl refl (omega arith) (omega arith)
    one_turn read_timed_out w served stats small =
        stopped served stats stats _ turns _ small refl refl (omega arith) (omega arith)
    one_turn (malformed e) sent served stats small =
        one_more served served stats (count_error stats) _ turns _ (bad_request h) (refl, refl) refl
          (omega arith) (omega arith) (omega arith) (omega arith)
          (next served (count_error stats) small)
    one_turn (malformed e) (send_failed x) served stats small =
        stopped served stats stats _ turns _ small refl refl (omega arith) (omega arith)
    one_turn (malformed e) send_timed_out served stats small =
        stopped served stats stats _ turns _ small refl refl (omega arith) (omega arith)
    one_turn (arrived request) (send_failed x) served stats small =
        stopped served stats (count_error (count_request stats)) _ turns _ small refl refl
          (omega arith) (omega arith)
    one_turn (arrived request) send_timed_out served stats small =
        stopped served stats (count_error (count_request stats)) _ turns _ small refl refl
          (omega arith) (omega arith)
    one_turn (arrived request) sent served stats small =
        let stats' = count_response (count_request stats) in
        let response = reply_to h finds max_requests request hd in
        elim (Bool-cases (leb max_requests (served + 1))) [
          | inl last ↦ rw last (
              reached served stats stats' _ turns response (refl, refl) refl (ground (arith, last))
                (omega arith) (omega arith) (omega arith))
          | inr room ↦ rw room (
              one_more served (served + 1) stats stats' _ turns _ response (refl, refl) refl refl
                (omega arith) (omega arith) (omega arith)
                (next (served + 1) stats' (ground (arith, room))))
        ]

  connection_loop-IsServed :
      (turns : List (Turn h)) (served : ℕ) (stats : SharedStats)
      → served < limit
      → IsServed served stats turns (connection_loop h finds max_requests served stats turns)
  unfolding connection_loop
  connection_loop-IsServed [] served stats small = record {
    done = [];
    rest = [];
    split = refl;
    answered = tt;
    in_order = refl;
    reason = inr (omega arith, refl);
    responses = omega arith;
    requests = ground arith;
    errors = ground arith;
  }
  connection_loop-IsServed (t ∷ turns) served stats small =
      one_turn turns (λ k s. connection_loop h finds max_requests k s turns)
        (λ k s. connection_loop-IsServed turns k s) t.handled t.arrival t.writing served stats small

  -- Whatever a connection meets, it writes one reply to each request and to each malformed one, in
  -- the order in which they came, up to the limit or the first turn that ends it; it ends for that
  -- reason only, and counts what it did.
  pub handle_connection-IsServed :
      (stats : SharedStats) (turns : List (Turn h))
      → IsServed 0 stats turns (handle_connection h finds max_requests stats turns)
  handle_connection-IsServed stats turns =
      unfold handle_connection in connection_loop-IsServed turns 0 stats (omega arith)
