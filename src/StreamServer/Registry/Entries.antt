-- ===== src/StreamServer/Registry/Entries.antt =====
-- src/ipc_stream_server.rs: whom the registry of clients holds.
use kode_bridge.Base.{
  ℕ, zero, suc, ◌+◌, ◌≤◌, ◌<◌, ◌≡◌, ◌⊎◌, refl, sym, ap, subst, inl, inr, ◌∙◌, ltb, ◌==◌, List, [],
  ◌∷◌, length, some, if◌then◌else◌, Bool-cases, Option-cases, arith,
}
use kode_bridge.Base.{◌^◌}
use kode_bridge.Errors.{Result, ok, err}
use kode_bridge.StreamServer.Messages.{StreamMessage}
use kode_bridge.Metrics.Trackers.{Floats}
use kode_bridge.Pool.{Permits, take_out}
use kode_bridge.Pool.Accounting.{length-take_out}
use kode_bridge.StreamServer.Source.{
  StreamServerStats, new_stats, count_source_error, source_round, update_message_rate,
}
use kode_bridge.StreamServer.Delivery.{StreamClient, count_message, count_errors}
use kode_bridge.StreamServer.Registry.{
  Clients, remove, insert, update_client, Phase, accepting, Server, new_server, count_connection,
  spawn, release_permit, turn_away, finish, crash, update, count_error, run_source, Step, acquires,
  accepts, turns_away, sends, misses, counts_error, broadcasts, finishes, crashes, stops,
  stops_accepting, Reach, start, next,
}

-- How often an id stands in a list.
abbrev pub occurrences : ℕ → List ℕ → ℕ
occurrences id [] = 0
occurrences id (x ∷ xs) = if x == id then suc (occurrences id xs) else occurrences id xs

abbrev pub keys : Clients → List ℕ
keys [] = []
keys (entry ∷ entries) = entry.0 ∷ keys entries

occurrences-remove :
    (id j : ℕ) (clients : Clients)
    → occurrences j (keys (remove id clients))
      ≡ (if id == j then 0 else occurrences j (keys clients))
unfolding remove
occurrences-remove id j [] = ground arith
occurrences-remove id j ((k, c) ∷ entries) = ground (arith, occurrences-remove id j entries)

length-remove :
    (id : ℕ) (clients : Clients)
    → length (keys (remove id clients)) + occurrences id (keys clients) ≡ length (keys clients)
unfolding remove
length-remove id [] = refl
length-remove id ((k, c) ∷ entries) = ground (arith, length-remove id entries)

keys-update_client :
    (id : ℕ) (change : StreamClient → StreamClient) (clients : Clients)
    → keys (update_client id change clients) ≡ keys clients
unfolding update_client
keys-update_client id change [] = refl
keys-update_client id change ((k, c) ∷ entries) =
    ground (arith, keys-update_client id change entries)

occurrences-take_out :
    (j i x : ℕ) (xs rest : List ℕ)
    → take_out i xs ≡ some (x, rest)
    → occurrences j xs ≡ (if x == j then suc (occurrences j rest) else occurrences j rest)
unfolding take_out
occurrences-take_out j i x [] rest e = cc
occurrences-take_out j zero x (y ∷ ys) rest e = ground arith
occurrences-take_out j (suc i) x (y ∷ ys) rest e = elim (Option-cases (take_out i ys)) [
  | inl n ↦ ground arith
  | inr ((z, zs), s) ↦ ground (arith, occurrences-take_out j i z ys zs s)
]

abbrev pub in_hand : Phase → ℕ
in_hand accepting = 1
in_hand _ = 0

module _ (p : Permits) (f : Floats) (bound : ℕ) where
  open p use {available, available-release, try_acquire-some, available-new}

  -- After `n` clients were let in: each permit is free, in the hand of the accept loop, or with the
  -- task of a client; the clients of the registry are those with a task and those whose task panicked,
  -- each once, with ids from 1 to `n`; and the active connections are their number.
  pub record IsRegistered (n : ℕ) (s : Server p f) : Type 0 where
    pub permits : available s.semaphore + in_hand s.phase + length s.live ≡ bound
    pub counter : s.client_id_counter ≡ n + 1
    pub entries :
        (id : ℕ)
        → occurrences id (keys s.clients) ≡ occurrences id s.live + occurrences id s.crashed
    pub once : (id : ℕ) → occurrences id (keys s.clients) ≤ 1
    pub ids : (id : ℕ) → (occurrences id (keys s.clients) ≡ 0) ⊎ ((1 ≤ id) × (id ≤ n))
    pub amount : length (keys s.clients) ≡ length s.live + length s.crashed
    pub active : s.stats.active_connections ≡ length (keys s.clients)
    pub within : length (keys s.clients) ≤ n

  spawn-IsRegistered :
      (now n : ℕ) (s : Server p f)
      → n + 2 < 2 ^ 64
      → s.phase ≡ accepting
      → IsRegistered n s
      → IsRegistered (n + 1) (spawn p f now s)
  unfolding spawn count_connection insert
  spawn-IsRegistered now n s b a i =
      let new = s.client_id_counter in
      let fresh : occurrences new (keys s.clients) ≡ 0 = ground (arith, i.counter, i.ids new) in
      let gone : length (keys (remove new s.clients)) ≡ length (keys s.clients) =
        ground (arith, fresh, length-remove new s.clients) in
      record {
        permits = ground (arith, a, i.permits);
        counter = ground (arith, b, i.counter);
        entries = λ id.
            ground (arith, i.entries id, occurrences-remove new id s.clients, i.entries new, fresh);
        once = λ id. ground (arith, occurrences-remove new id s.clients, i.once id);
        ids = λ id. ground (arith, occurrences-remove new id s.clients, i.ids id, i.counter);
        amount = ground (arith, gone, i.amount);
        active = ground (arith, gone, i.active, i.within, b);
        within = ground (arith, gone, i.within);
      }

  finish-IsRegistered :
      (n : ℕ) (s : Server p f) (i id : ℕ) (rest : List ℕ)
      → take_out i s.live ≡ some (id, rest)
      → IsRegistered n s
      → IsRegistered n (finish p f id rest s)
  unfolding finish release_permit
  finish-IsRegistered n s j id rest e i =
      let one : occurrences id (keys s.clients) ≡ 1 =
        ground (arith, i.once id, i.entries id, occurrences-take_out id j id s.live rest e) in
      let gone : length (keys (remove id s.clients)) + 1 ≡ length (keys s.clients) =
        ground (arith, one, length-remove id s.clients) in
      record {
        permits =
            ground
              (arith, i.permits, available-release s.semaphore, length-take_out j s.live id rest e);
        counter = i.counter;
        entries = λ x. ground (
          arith,
          i.entries x,
          i.once x,
          occurrences-remove id x s.clients,
          occurrences-take_out x j id s.live rest e,
        );
        once = λ x. ground (arith, occurrences-remove id x s.clients, i.once x);
        ids = λ x. ground (arith, occurrences-remove id x s.clients, i.ids x);
        amount = ground (arith, gone, i.amount, length-take_out j s.live id rest e);
        active = ground (arith, gone, i.active);
        within = ground (arith, gone, i.within);
      }

  crash-IsRegistered :
      (n : ℕ) (s : Server p f) (i id : ℕ) (rest : List ℕ)
      → take_out i s.live ≡ some (id, rest)
      → IsRegistered n s
      → IsRegistered n (crash p f id rest s)
  unfolding crash release_permit
  crash-IsRegistered n s j id rest e i = record {
    permits =
        ground
          (arith, i.permits, available-release s.semaphore, length-take_out j s.live id rest e);
    counter = i.counter;
    entries = λ x. ground (arith, i.entries x, occurrences-take_out x j id s.live rest e);
    once = i.once;
    ids = i.ids;
    amount = ground (arith, i.amount, length-take_out j s.live id rest e);
    active = i.active;
    within = i.within;
  }

  update-IsRegistered :
      (n id : ℕ) (change : StreamClient → StreamClient) (s : Server p f)
      → IsRegistered n s
      → IsRegistered n (update p f id change s)
  unfolding update
  update-IsRegistered n id change s i =
      let same = keys-update_client id change s.clients in
      record {
        permits = i.permits;
        counter = i.counter;
        entries = λ x. ap (occurrences x) same ∙ i.entries x;
        once = λ x. subst (λ k. occurrences x k ≤ 1) (sym same) (i.once x);
        ids = λ x. subst (λ k. (occurrences x k ≡ 0) ⊎ ((1 ≤ x) × (x ≤ n))) (sym same) (i.ids x);
        amount = ap (length {A = ℕ}) same ∙ i.amount;
        active = i.active ∙ ap (length {A = ℕ}) (sym same);
        within = subst (λ k. length k ≤ n) (sym same) i.within;
      }

  -- A step that leaves the registry, the tasks and the active connections.
  keeps-IsRegistered :
      (n : ℕ) (s t : Server p f)
      → available t.semaphore + in_hand t.phase ≡ available s.semaphore + in_hand s.phase
      → t.client_id_counter ≡ s.client_id_counter
      → t.clients ≡ s.clients
      → t.live ≡ s.live
      → t.crashed ≡ s.crashed
      → t.stats.active_connections ≡ s.stats.active_connections
      → IsRegistered n s
      → IsRegistered n t
  keeps-IsRegistered n s t a b c d e g i = record {
    permits = ground (arith, a, i.permits, ap (length {A = ℕ}) d);
    counter = b ∙ i.counter;
    entries = λ x. ground (arith, c, d, e, i.entries x);
    once = λ x. ground (arith, c, i.once x);
    ids = λ x. ground (arith, c, i.ids x);
    amount = ground (arith, c, d, e, i.amount);
    active = ground (arith, g, c, i.active);
    within = ground (arith, c, i.within);
  }

  source_round-active :
      (now : ℕ) (messages : Result (List StreamMessage)) (s : StreamServerStats f)
      → (source_round f now messages s).0.active_connections ≡ s.active_connections
  unfolding source_round count_source_error update_message_rate
  source_round-active now (err e) s = refl
  source_round-active now (ok messages) s = elim (Bool-cases (ltb 0 (length messages))) [
    | inl y ↦ rw (source_round, y) refl
    | inr z ↦ rw (source_round, z) refl
  ]

  same : (n : ℕ) {s : Server p f} → IsRegistered n s → IsRegistered (n + 0) s
  same n {s} i = subst (λ m. IsRegistered m s) (omega arith) i

  Step-IsRegistered :
      {n k : ℕ} {s t : Server p f}
      → Step p f k s t
      → n + k + 1 < 2 ^ 64
      → IsRegistered n s
      → IsRegistered (n + k) t
  unfolding turn_away release_permit count_error run_source count_source_error
  Step-IsRegistered {n} (acquires s left w e) b i = same n (
      keeps-IsRegistered n s _ (ground (arith, w, try_acquire-some s.semaphore left e)) refl refl
        refl refl refl i)
  Step-IsRegistered {n} (accepts now s a) b i = spawn-IsRegistered now n s (omega arith) a i
  Step-IsRegistered {n} (turns_away s a) b i = same n (
      keeps-IsRegistered n s _ (ground (arith, a, available-release s.semaphore)) refl refl refl
        refl refl i)
  Step-IsRegistered {n} (sends id now s) b i =
      same n (update-IsRegistered n id (count_message now) s i)
  Step-IsRegistered {n} (misses id m s) b i = same n (update-IsRegistered n id (count_errors m) s i)
  Step-IsRegistered {n} (counts_error s) b i =
      same n (keeps-IsRegistered n s _ refl refl refl refl refl refl i)
  Step-IsRegistered {n} (broadcasts now messages s) b i = same n (
      keeps-IsRegistered n s _ refl refl refl refl refl (source_round-active now messages s.stats)
        i)
  Step-IsRegistered {n} (finishes s j id rest e) b i =
      same n (finish-IsRegistered n s j id rest e i)
  Step-IsRegistered {n} (crashes s j id rest e) b i = same n (crash-IsRegistered n s j id rest e i)
  Step-IsRegistered {n} (stops s w) b i =
      same n (keeps-IsRegistered n s _ (ground (arith, w)) refl refl refl refl refl i)
  Step-IsRegistered {n} (stops_accepting s a) b i = same n (
      keeps-IsRegistered n s _ (ground (arith, a, available-release s.semaphore)) refl refl refl
        refl refl i)

  -- In every history of a new server that has let in `n` clients, fewer than 2 ^ 64 - 1: the registry
  -- holds each client with a task and each whose task panicked, once and under an id from 1 to `n`, and
  -- no other; the active connections are their number; and each permit is free, in the hand of the
  -- accept loop, or with the task of a client.
  pub Reach-IsRegistered :
      {now n : ℕ} {s : Server p f} → Reach p f bound now n s → n + 1 < 2 ^ 64 → IsRegistered n s
  unfolding new_server new_stats
  Reach-IsRegistered start b = record {
    permits = ground (arith, available-new bound);
    counter = refl;
    entries = λ x. refl;
    once = λ x. omega arith;
    ids = λ x. inl refl;
    amount = refl;
    active = refl;
    within = omega arith;
  }
  Reach-IsRegistered (next {n = n} {k = k} r st) b =
      Step-IsRegistered st b (Reach-IsRegistered r (omega arith))
