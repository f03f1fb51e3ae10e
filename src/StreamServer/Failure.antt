-- ===== src/StreamServer/Failure.antt =====
-- src/ipc_stream_server.rs, `handle_stream_client`: the messages that a client is due, and the write
-- that ends its task.
use kode_bridge.Base.{
  ℕ, ◌-◌, ◌≤◌, ◌<◌, ◌≡◌, ◌≢◌, refl, sym, ap, subst, ◌∙◌, ◌⊎◌, inl, inr, true, false, Bool-cases,
  List, [], ◌∷◌, ◌++◌, length, ltb, leb, arith, if◌then◌else◌,
}
use kode_bridge.Bytes.{Bytes}
use kode_bridge.Server.Connection.{Sent, sent, send_failed, send_timed_out}
use kode_bridge.StreamServer.Delivery.{
  StreamServerConfig, StreamClient, Event, received, received_close, channel_closed, lagged,
  keepalive_due, Written, message, keepalive, broken, Delivered, count_message, count_errors,
  end_task, wrote, client_loop,
}

abbrev pub messages : List Written → List Bytes
messages [] = []
messages (message b ∷ ws) = b ∷ messages ws
messages (keepalive ∷ ws) = messages ws

module _ (config : StreamServerConfig) where
  -- The messages that the client is due: those that it receives up to the end of the channel and
  -- that are not too large.
  abbrev pub due : List Event → List Bytes
  due [] = []
  due (received b w now ∷ es) =
      let later = due es in if ltb config.max_message_size (length b) then later else b ∷ later
  due (received_close ∷ es) = []
  due (channel_closed ∷ es) = []
  due (lagged skipped ∷ es) = due es
  due (keepalive_due now w ∷ es) = due es

  -- An event that the task goes on after: nothing is written for it, or it is written in full.
  abbrev pub GoesOn : ℕ → Event → Type 0
  GoesOn last (received b w now) = (config.max_message_size < length b) ⊎ (w ≡ sent)
  GoesOn last received_close = ⊥
  GoesOn last channel_closed = ⊥
  GoesOn last (lagged skipped) = Unit
  GoesOn last (keepalive_due now w) = (now - last < config.keepalive_interval) ⊎ (w ≡ sent)

  -- An event whose write fails.
  abbrev pub FailsToWrite : ℕ → Event → Type 0
  FailsToWrite last (received b w now) = (length b ≤ config.max_message_size) × (w ≢ sent)
  FailsToWrite last received_close = ⊥
  FailsToWrite last channel_closed = ⊥
  FailsToWrite last (lagged skipped) = ⊥
  FailsToWrite last (keepalive_due now w) = (config.keepalive_interval ≤ now - last) × (w ≢ sent)

  -- The time of the last keepalive after an event.
  abbrev pub last_keepalive : ℕ → Event → ℕ
  last_keepalive last (keepalive_due now w) =
      if leb config.keepalive_interval (now - last) then now else last
  last_keepalive last (received b w now) = last
  last_keepalive last received_close = last
  last_keepalive last channel_closed = last
  last_keepalive last (lagged skipped) = last

  abbrev pub IsEnd : Event → Type 0
  IsEnd received_close = Unit
  IsEnd channel_closed = Unit
  IsEnd (received b w now) = ⊥
  IsEnd (lagged skipped) = ⊥
  IsEnd (keepalive_due now w) = ⊥

  -- The first event whose write fails stands behind events that the task goes on after.
  abbrev pub FailsFirst : ℕ → List Event → Event → Type 0
  FailsFirst last [] failing = FailsToWrite last failing
  FailsFirst last (e ∷ before) failing =
      GoesOn last e × FailsFirst (last_keepalive last e) before failing

  pub record IsBroken (last : ℕ) (es : List Event) (written : List Bytes) : Type 0 where
    pub before : List Event
    pub failing : Event
    pub after : List Event
    pub split : es ≡ before ++ (failing ∷ after)
    pub fails_first : FailsFirst last before failing
    pub all_before : written ≡ due before

  -- No write fails up to the end of the channel.
  abbrev pub Survives : ℕ → List Event → Type 0
  Survives last [] = Unit
  Survives last (e ∷ es) = IsEnd e ⊎ (GoesOn last e × Survives (last_keepalive last e) es)

  -- The task ends as broken exactly at the first write that fails.
  abbrev pub EndsAtFailure : ℕ → List Event → Delivered → Type 0
  EndsAtFailure last es d =
      ((d.ending ≢ broken) × Survives last es) ⊎ IsBroken last es (messages d.writes)

  fails_now :
      (last : ℕ) (e : Event) (es : List Event) → FailsToWrite last e → IsBroken last (e ∷ es) []
  fails_now last e es fails = record {
    before = [];
    failing = e;
    after = es;
    split = refl;
    fails_first = fails;
    all_before = refl;
  }

  fails_later :
      (last : ℕ) (e : Event) (es : List Event) (written written' : List Bytes)
      → GoesOn last e
      → ((before : List Event) → written ≡ due before → written' ≡ due (e ∷ before))
      → IsBroken (last_keepalive last e) es written
      → IsBroken last (e ∷ es) written'
  fails_later last e es written written' on grows i = record {
    before = e ∷ i.before;
    failing = i.failing;
    after = i.after;
    split = ap (◌∷◌ e) i.split;
    fails_first = (on, i.fails_first);
    all_before = grows i.before i.all_before;
  }

  ends_later :
      (last : ℕ) (e : Event) (es : List Event) (d d' : Delivered)
      → GoesOn last e
      → d'.ending ≡ d.ending
      → ((before : List Event)
          → messages d.writes ≡ due before
          → messages d'.writes ≡ due (e ∷ before))
      → EndsAtFailure (last_keepalive last e) es d
      → EndsAtFailure last (e ∷ es) d'
  ends_later last e es d d' on same grows (inl (not_broken, fine)) =
      inl (λ b. not_broken (sym same ∙ b), inr (on, fine))
  ends_later last e es d d' on same grows (inr i) =
      inr (fails_later last e es (messages d.writes) (messages d'.writes) on grows i)

  due-large :
      (b : Bytes) (w : Sent) (now : ℕ) (before : List Event)
      → ltb config.max_message_size (length b) ≡ true
      → due (received b w now ∷ before) ≡ due before
  due-large b w now before large = rw large refl

  due-fits :
      (b : Bytes) (w : Sent) (now : ℕ) (before : List Event)
      → ltb config.max_message_size (length b) ≡ false
      → due (received b w now ∷ before) ≡ b ∷ due before
  due-fits b w now before fits = rw fits refl

  module _ (es : List Event)
      (rest : (last : ℕ) (c : StreamClient) (total_errors : ℕ)
        → EndsAtFailure last es (client_loop config last c total_errors es))
      (last : ℕ) (c : StreamClient) (n : ℕ) where
    received_skips :
        (b : Bytes) (w : Sent) (now : ℕ)
        → ltb config.max_message_size (length b) ≡ true
        → client_loop config last c n (received b w now ∷ es) ≡ client_loop config last c n es
    unfolding client_loop
    received_skips b sent now large = rw large refl
    received_skips b (send_failed e) now large = rw large refl
    received_skips b send_timed_out now large = rw large refl

    received_writes :
        (b : Bytes) (w : Sent) (now : ℕ)
        → ltb config.max_message_size (length b) ≡ false
        → EndsAtFailure last
            (received b w now ∷ es)
            (client_loop config last c n (received b w now ∷ es))
    unfolding client_loop end_task wrote
    received_writes b sent now fits =
        let later = client_loop config last (count_message now c) n es in
        rw (client_loop, fits)
          (ends_later last (received b sent now) es later (wrote (message b) later) (inr refl) refl
            (λ before is. ap (◌∷◌ b) is ∙ sym (due-fits b sent now before fits))
            (rest last (count_message now c) n))
    received_writes b (send_failed e) now fits =
        rw (client_loop, fits)
          (inr (fails_now last (received b (send_failed e) now) es (ground arith, λ w. cc)))
    received_writes b send_timed_out now fits =
        rw (client_loop, fits)
          (inr (fails_now last (received b send_timed_out now) es (ground arith, λ w. cc)))

    received-EndsAtFailure :
        (b : Bytes) (w : Sent) (now : ℕ)
        → EndsAtFailure last
            (received b w now ∷ es)
            (client_loop config last c n (received b w now ∷ es))
    received-EndsAtFailure b w now =
        let later = client_loop config last c n es in
        elim (Bool-cases (ltb config.max_message_size (length b))) [
          | inl large ↦
              subst (EndsAtFailure last (received b w now ∷ es))
                (sym (received_skips b w now large))
                (ends_later last (received b w now) es later later (inl (ground arith)) refl
                  (λ before is. is ∙ sym (due-large b w now before large)) (rest last c n))
          | inr fits ↦ received_writes b w now fits
        ]

    keepalive_skips :
        (now : ℕ) (w : Sent)
        → leb config.keepalive_interval (now - last) ≡ false
        → client_loop config last c n (keepalive_due now w ∷ es) ≡ client_loop config last c n es
    unfolding client_loop
    keepalive_skips now sent early = rw early refl
    keepalive_skips now (send_failed e) early = rw early refl
    keepalive_skips now send_timed_out early = rw early refl

    keepalive_writes :
        (now : ℕ) (w : Sent)
        → leb config.keepalive_interval (now - last) ≡ true
        → EndsAtFailure last
            (keepalive_due now w ∷ es)
            (client_loop config last c n (keepalive_due now w ∷ es))
    unfolding client_loop end_task wrote
    keepalive_writes now sent is_due =
        let later = client_loop config now c n es in
        let next : last_keepalive last (keepalive_due now sent) ≡ now = rw is_due refl in
        let writes : client_loop config last c n (keepalive_due now sent ∷ es)
            ≡ wrote keepalive later =
          rw (client_loop, is_due) refl in
        subst (EndsAtFailure last (keepalive_due now sent ∷ es)) (sym writes) (
          ends_later last (keepalive_due now sent) es later (wrote keepalive later) (inr refl) refl
            (λ before is. is) (subst (λ t. EndsAtFailure t es later) (sym next) (rest now c n)))
    keepalive_writes now (send_failed e) is_due =
        rw (client_loop, is_due)
          (inr (fails_now last (keepalive_due now (send_failed e)) es (ground arith, λ w. cc)))
    keepalive_writes now send_timed_out is_due =
        rw (client_loop, is_due)
          (inr (fails_now last (keepalive_due now send_timed_out) es (ground arith, λ w. cc)))

    keepalive-EndsAtFailure :
        (now : ℕ) (w : Sent)
        → EndsAtFailure last
            (keepalive_due now w ∷ es)
            (client_loop config last c n (keepalive_due now w ∷ es))
    keepalive-EndsAtFailure now w =
        let later = client_loop config last c n es in
        elim (Bool-cases (leb config.keepalive_interval (now - last))) [
          | inl is_due ↦ keepalive_writes now w is_due
          | inr early ↦
              let next : last_keepalive last (keepalive_due now w) ≡ last = rw early refl in
              subst (EndsAtFailure last (keepalive_due now w ∷ es))
                (sym (keepalive_skips now w early))
                (ends_later last (keepalive_due now w) es later later (inl (ground arith)) refl
                  (λ before is. is)
                  (subst (λ t. EndsAtFailure t es later) (sym next) (rest last c n)))
        ]

  pub client_loop-EndsAtFailure :
      (es : List Event) (last : ℕ) (c : StreamClient) (total_errors : ℕ)
      → EndsAtFailure last es (client_loop config last c total_errors es)
  unfolding client_loop end_task
  client_loop-EndsAtFailure [] last c n = inl (λ e. cc, tt)
  client_loop-EndsAtFailure (received_close ∷ es) last c n = inl (λ e. cc, inl tt)
  client_loop-EndsAtFailure (channel_closed ∷ es) last c n = inl (λ e. cc, inl tt)
  client_loop-EndsAtFailure (lagged skipped ∷ es) last c n =
      let later = client_loop config last (count_errors skipped c) n es in
      ends_later last (lagged skipped) es later later tt refl (λ before is. is)
        (client_loop-EndsAtFailure es last (count_errors skipped c) n)
  client_loop-EndsAtFailure (received b w now ∷ es) last c n =
      received-EndsAtFailure es (client_loop-EndsAtFailure es) last c n b w now
  client_loop-EndsAtFailure (keepalive_due now w ∷ es) last c n =
      keepalive-EndsAtFailure es (client_loop-EndsAtFailure es) last c n now w
