-- ===== src/StreamServer/Broadcast.antt =====
-- src/ipc_stream_server.rs: what the task of a source broadcasts and counts.
use kode_bridge.Base.{
  ℕ, ◌+◌, ◌≡◌, refl, sym, ap, ◌∙◌, inl, inr, Bool-cases, List, [], ◌∷◌, ◌++◌, length, length-append,
  u64, arith, if◌then◌else◌,
}
use mathlib.Core.List.{append-nil}
use kode_bridge.Errors.{Result, ok, err}
use kode_bridge.Metrics.Trackers.{Floats}
use kode_bridge.StreamServer.Messages.{StreamMessage, BroadcastMessage, broadcast_of}
use kode_bridge.StreamServer.Source.{
  Round, StreamServerStats, broadcasts_of, iterator_rounds, update_message_rate, count_source_error,
  source_round, source_loop,
}

abbrev messages_of : Result (List StreamMessage) → List StreamMessage
messages_of (ok messages) = messages
messages_of (err e) = []

abbrev failures_of : Result (List StreamMessage) → ℕ
failures_of (ok messages) = 0
failures_of (err e) = 1

-- The messages of the rounds up to the one that exhausts the source, and how many of them failed.
abbrev pub messages_in : List Round → List StreamMessage
messages_in [] = []
messages_in (r ∷ rounds) =
    let later = messages_in rounds in messages_of r.messages ++ (if r.has_more then later else [])

abbrev pub failures_in : List Round → ℕ
failures_in [] = 0
failures_in (r ∷ rounds) =
    let later = failures_in rounds in failures_of r.messages + (if r.has_more then later else 0)

broadcasts_of-append :
    (xs ys : List StreamMessage) → broadcasts_of (xs ++ ys) ≡ broadcasts_of xs ++ broadcasts_of ys
unfolding broadcasts_of
broadcasts_of-append [] ys = refl
broadcasts_of-append (x ∷ xs) ys = ap (λ l. broadcast_of x ∷ l) (broadcasts_of-append xs ys)

module _ (f : Floats) where
  -- What the task sent, and what it counted.
  pub record IsBroadcast (rounds : List Round) (before : StreamServerStats f)
      (after : StreamServerStats f × List BroadcastMessage) : Type 0 where
    pub sent : after.1 ≡ broadcasts_of (messages_in rounds)
    pub counted :
        u64 after.0.total_messages ≡ u64 (before.total_messages + length (messages_in rounds))
    pub failed : u64 after.0.total_errors ≡ u64 (before.total_errors + failures_in rounds)
    pub connections : after.0.active_connections ≡ before.active_connections

  round_counts :
      (now : ℕ) (answer : Result (List StreamMessage)) (s : StreamServerStats f)
      → let (s', sent) = source_round f now answer s in
        (sent ≡ broadcasts_of (messages_of answer))
        × (u64 s'.total_messages ≡ u64 (s.total_messages + length (messages_of answer)))
        × (u64 s'.total_errors ≡ u64 (s.total_errors + failures_of answer))
        × (s'.active_connections ≡ s.active_connections)
  unfolding source_round count_source_error update_message_rate broadcasts_of
  round_counts now (err e) s = (refl, omega arith, omega arith, refl)
  round_counts now (ok messages) s = (refl, ground arith, ground arith, ground arith)

  source_loop-IsBroadcast :
      (clock : ℕ → ℕ) (n : ℕ) (s : StreamServerStats f) (rounds : List Round)
      → IsBroadcast rounds s (source_loop f clock n s rounds)
  unfolding source_loop
  source_loop-IsBroadcast clock n s [] = record {
    sent = unfold broadcasts_of in refl;
    counted = omega arith;
    failed = omega arith;
    connections = refl;
  }
  source_loop-IsBroadcast clock n s (r ∷ rounds) =
      let (sent, counted, failed, connections) = round_counts (clock n) r.messages s in
      let i =
        source_loop-IsBroadcast clock (n + 1) (source_round f (clock n) r.messages s).0 rounds in
      elim (Bool-cases r.has_more) [
        | inl more ↦
            rw (source_loop, messages_in, failures_in, more)
              (record {
                sent =
                    ap (λ l. (source_round f (clock n) r.messages s).1 ++ l) i.sent
                    ∙ (ap (λ l. l ++ broadcasts_of (messages_in rounds)) sent
                        ∙ sym (broadcasts_of-append (messages_of r.messages) (messages_in rounds)));
                counted = omega (
                  arith,
                  counted,
                  i.counted,
                  length-append (messages_of r.messages) (messages_in rounds),
                );
                failed = omega (arith, failed, i.failed);
                connections = i.connections ∙ connections;
              })
        | inr last ↦
            rw (source_loop, messages_in, failures_in, last)
              (record {
                sent = sent ∙ ap broadcasts_of (sym (append-nil (messages_of r.messages)));
                counted = omega (arith, counted, length-append (messages_of r.messages) []);
                failed = omega (arith, failed);
                connections = connections;
              })
      ]

  iterator_messages : (xs : List StreamMessage) → messages_in (iterator_rounds xs) ≡ xs
  unfolding iterator_rounds
  iterator_messages [] = refl
  iterator_messages (x ∷ xs) = ap (λ l. x ∷ l) (iterator_messages xs)

  -- The task of a source sends the messages of its rounds to the channel, in order, up to the round
  -- that exhausts the source; it counts each message and each round that failed. For a source over a
  -- stream of messages these are all messages of the stream.
  source_loop-broadcasts :
      (clock : ℕ → ℕ) (s : StreamServerStats f) (rounds : List Round) (xs : List StreamMessage)
      → IsBroadcast rounds s (source_loop f clock 0 s rounds)
        × ((source_loop f clock 0 s (iterator_rounds xs)).1 ≡ broadcasts_of xs)
  source_loop-broadcasts clock s rounds xs =
      let i = source_loop-IsBroadcast clock 0 s (iterator_rounds xs) in
      (source_loop-IsBroadcast clock 0 s rounds, i.sent ∙ ap broadcasts_of (iterator_messages xs))
