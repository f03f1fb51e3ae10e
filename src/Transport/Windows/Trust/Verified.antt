-- ===== src/Transport/Windows/Trust/Verified.antt =====
-- src/transport/windows.rs: a client gets a stream exactly from a server that it trusts.
use kode_bridge.Base.{
  ℕ, zero, suc, ◌+◌, ◌*◌, ◌<◌, ◌≡◌, ◌≢◌, ◌↔◌, ◌⊎◌, refl, sym, ap, inl, inr, ◌∙◌, Bool, true, false,
  ◌==◌, Option, none, some, if◌then◌else◌, Bool-cases, arith,
}
use kode_bridge.Transport.{IoResult, done, fails, io_error, other, permission_denied, ◌>>=◌}
use kode_bridge.Transport.Windows.Stream.{PipeStream, new_stream}
use kode_bridge.Transport.Windows.Trust.{
  Win32, WindowsServerVerification, new_verification, or_last, pipe_server_process_id, token_user,
  verify_process_is_local_system, run_verifier, is_none, check_system, verify_server, Opening,
  opened, busy, verified, connect_loop, connect_with_server_verification,
}

module _ {A B : Type 0} where
  -- A chain succeeds exactly if both of its parts do.
  chain-done :
      (r : IoResult A) (f : A → IoResult B) (b : B)
      → (r >>= f) ≡ done b ↔ ((a : A) × (r ≡ done a) × (f a ≡ done b))
  chain-done (done a) f b = (λ e. (a, refl, e), λ c. let e : a ≡ c.0 = cc in ap f e ∙ c.2)
  chain-done (fails e) f b = (λ e. cc, λ c. let e = c.1 in cc)

module _ (win : Win32) where
  open win use {Client, Process, Token, Sid}

  -- A process whose token's user is the local system.
  pub record IsLocalSystem (process_id : ℕ) : Type 0 where
    pub process : Process
    pub token : Token
    pub user : Sid
    pub system : Sid
    pub opens : win.open_process process_id ≡ some process
    pub has_token : win.open_process_token process ≡ some token
    pub sized : win.token_size token ≢ 0
    pub has_user : win.token_user token (win.token_size token) ≡ some user
    pub has_system : win.local_system_sid ≡ some system
    pub same : win.equal_sid user system ≡ true

  or_last-done : {A : Type 0} (o : Option A) (a : A) → (or_last win o ≡ done a) ↔ (o ≡ some a)
  or_last-done none a = (λ e. cc, λ e. cc)
  or_last-done (some b) a = (λ e. cc, λ e. cc)

  token_user-done :
      (token : Token) (user : Sid)
      → (token_user win token ≡ done user)
        ↔ ((win.token_size token ≢ 0) × (win.token_user token (win.token_size token) ≡ some user))
  unfolding token_user
  token_user-done token user = elim (Bool-cases (win.token_size token == 0)) [
    | inl z ↦ (λ e. ground (arith, z), λ (n, e). ground (arith, n))
    | inr z ↦ (
      λ e. (
        ground (arith, z),
        (or_last-done (win.token_user token (win.token_size token)) user).0 (ground (arith, z)),
      ),
      λ (n, e).
          rw (token_user, z)
            ((or_last-done (win.token_user token (win.token_size token)) user).1 e),
    )
  ]

  abbrev system_answer : Bool → IoResult (Unit {0})
  system_answer same =
      if same
      then done tt
      else io_error permission_denied "Windows named-pipe server is not LocalSystem"

  system_or_not : (same : Bool) → (system_answer same ≡ done tt) ↔ (same ≡ true)
  system_or_not true = (λ e. refl, λ e. refl)
  system_or_not false = (λ e. cc, λ e. cc)

  verify-IsLocalSystem :
      (id : ℕ) → (verify_process_is_local_system win id ≡ done tt) ↔ IsLocalSystem id
  unfolding verify_process_is_local_system
  verify-IsLocalSystem id = (
    λ e.
        let (process, p, e1) = (chain-done (or_last win (win.open_process id)) _ tt).0 e in
        let (token, t, e2) =
          (chain-done (or_last win (win.open_process_token process)) _ tt).0 e1 in
        let (user, u, e3) = (chain-done (token_user win token) _ tt).0 e2 in
        let (system, y, e4) = (chain-done (or_last win win.local_system_sid) _ tt).0 e3 in
        let (sized, has_user) = (token_user-done token user).0 u in
        record {
          process = process;
          token = token;
          user = user;
          system = system;
          opens = (or_last-done _ process).0 p;
          has_token = (or_last-done _ token).0 t;
          sized = sized;
          has_user = has_user;
          has_system = (or_last-done _ system).0 y;
          same = (system_or_not (win.equal_sid user system)).0 e4;
        },
    λ i.
        rw
          (
            i.opens,
            i.has_token,
            (token_user-done i.token i.user).1 (i.sized, i.has_user),
            i.has_system,
            i.same,
          )
          refl,
  )

  -- The verifier, if there is one, takes the process.
  abbrev pub Accepts : Option (ℕ → IoResult (Unit {0})) → ℕ → Type 0
  Accepts none id = Unit
  Accepts (some verifier) id = verifier id ≡ done tt

  -- Nothing is asked of the server; or its process is known and passes each check that is asked for.
  abbrev pub IsTrusted : Client → WindowsServerVerification → Type 0
  IsTrusted client v =
      ((v.require_system ≡ false) × (v.verifier ≡ none))
      ⊎ ((id : ℕ) × (win.server_process_id client ≡ some id)
          × (id ≢ 0)
          × ((v.require_system ≡ false) ⊎ IsLocalSystem id)
          × Accepts v.verifier id)

  nonzero-done :
      (found id : ℕ)
      → ((if found == 0
            then io_error other "Windows named-pipe server returned an invalid process ID"
            else done found)
          ≡ done id)
        ↔ ((found ≡ id) × (id ≢ 0))
  nonzero-done found id = elim (Bool-cases (found == 0)) [
    | inl z ↦ (λ e. ground (arith, z), λ (q, n). ground (arith, z, q, n))
    | inr z ↦ (λ e. (ground (arith, z), ground (arith, z)), λ (q, n). ground (arith, z, q))
  ]

  process_id-done :
      (client : Client) (id : ℕ)
      → (pipe_server_process_id win client ≡ done id)
        ↔ ((win.server_process_id client ≡ some id) × (id ≢ 0))
  unfolding pipe_server_process_id
  process_id-done client id = (
    λ e.
        let (found, p, q) = (chain-done (or_last win (win.server_process_id client)) _ id).0 e in
        let (same, n) = (nonzero-done found id).0 q in
        ((or_last-done _ found).0 p ∙ ap some same, n),
    λ (p, n). rw (p) ((nonzero-done id id).1 (refl, n)),
  )

  check_system-done :
      (required : Bool) (id : ℕ)
      → (check_system win required id ≡ done tt) ↔ ((required ≡ false) ⊎ IsLocalSystem id)
  unfolding check_system
  check_system-done true id = (
    λ e. inr ((verify-IsLocalSystem id).0 e),
    λ c. elim c [ inl n ↦ cc | inr i ↦ (verify-IsLocalSystem id).1 i ],
  )
  check_system-done false id = (λ e. inl refl, λ c. refl)

  run_verifier-done :
      (verifier : Option (ℕ → IoResult (Unit {0}))) (id : ℕ)
      → (run_verifier win verifier id ≡ done tt) ↔ Accepts verifier id
  unfolding run_verifier
  run_verifier-done none id = (λ e. tt, λ c. refl)
  run_verifier-done (some verifier) id = (λ e. e, λ c. c)

  check_all-done :
      (client : Client) (v : WindowsServerVerification)
      → ((pipe_server_process_id win client >>= λ id.
            check_system win v.require_system id >>= λ u. run_verifier win v.verifier id)
          ≡ done tt)
        ↔ ((id : ℕ) × (win.server_process_id client ≡ some id)
            × (id ≢ 0)
            × ((v.require_system ≡ false) ⊎ IsLocalSystem id)
            × Accepts v.verifier id)
  check_all-done client v = (
    λ e.
        let (id, p, q) = (chain-done (pipe_server_process_id win client) _ tt).0 e in
        let (u, c, r) = (chain-done (check_system win v.require_system id) _ tt).0 q in
        let (known, n) = (process_id-done client id).0 p in
        (
          id,
          known,
          n,
          (check_system-done v.require_system id).0 c,
          (run_verifier-done v.verifier id).0 r,
        ),
    λ (id, known, n, system, taken).
        rw
          (
            (process_id-done client id).1 (known, n),
            (check_system-done v.require_system id).1 system,
          )
          ((run_verifier-done v.verifier id).1 taken),
  )

  abbrev asks : Client → WindowsServerVerification → IoResult (Unit {0})
  asks client v = pipe_server_process_id win client >>= λ id.
      check_system win v.require_system id >>= λ u. run_verifier win v.verifier id

  asked :
      (client : Client) (v : WindowsServerVerification)
      → verify_server win client v ≡ asks client v
      → (((v.require_system ≡ false) × (v.verifier ≡ none)) → ⊥)
      → (verify_server win client v ≡ done tt) ↔ IsTrusted client v
  asked client v q n = (
    λ e. inr ((check_all-done client v).0 (sym q ∙ e)),
    λ c. elim c [ inl free ↦ absurd (n free) | inr i ↦ q ∙ (check_all-done client v).1 i ],
  )

  verify_server-IsTrusted :
      (client : Client) (required : Bool) (verifier : Option (ℕ → IoResult (Unit {0})))
      → let v = new_verification required verifier in
        (verify_server win client v ≡ done tt) ↔ IsTrusted client v
  unfolding verify_server is_none new_verification
  verify_server-IsTrusted client false none = (λ e. inl (refl, refl), λ c. refl)
  verify_server-IsTrusted client false (some f) =
      asked client (new_verification false (some f)) refl (λ c. let e = c.1 in cc)
  verify_server-IsTrusted client true verifier =
      asked client (new_verification true verifier) refl (λ c. let e = c.0 in cc)

  -- `attempts` finds the pipe busy until the attempt `n`.
  abbrev pub IsBusyUntil : (ℕ → Opening win) → ℕ → Type 0
  IsBusyUntil attempts n = (k : ℕ) → k < n → attempts k ≡ busy

  connect_loop_lem :
      (fuel : ℕ) (attempts : ℕ → Opening win) (v : WindowsServerVerification) (n m : ℕ) (slept : ℕ)
      (client : Client)
      → ((k : ℕ) → k < m → attempts (n + k) ≡ busy)
      → attempts (n + m) ≡ opened client
      → m < fuel
      → connect_loop win fuel attempts v n slept
        ≡ some (record { result = verified win client v; slept = slept + 5 * m })
  unfolding connect_loop
  connect_loop_lem zero attempts v n m slept client h o l = absurd (omega arith)
  connect_loop_lem (suc fuel) attempts v n zero slept client h o l =
      rw (connect_loop, sym (ap attempts {y = n} (omega arith)) ∙ o)
        (ap (λ k. some (record { result = verified win client v; slept = k })) (omega arith))
  connect_loop_lem (suc fuel) attempts v n (suc m) slept client h o l =
      let rest =
        connect_loop_lem fuel attempts v (suc n) m (slept + 5) client
          (λ k b.
            ap attempts {x = suc n + k} {y = n + suc k} (omega arith) ∙ h (suc k) (omega arith))
          (ap attempts {x = suc n + m} {y = n + suc m} (omega arith) ∙ o) (omega arith) in
      rw (connect_loop, sym (ap attempts {x = n + 0} {y = n} (omega arith)) ∙ h 0 (omega arith))
        (rest ∙ ap (λ k. some (record { result = verified win client v; slept = k })) (omega arith))

  -- A client that finds the pipe busy `n` times and then opens it sleeps 5 ms after each of them, and
  -- gets a new stream exactly from a server that it trusts: if it asks for nothing, or the process of
  -- the server is known and passes each of the checks that it asks for.
  pub connect-IsTrusted :
      (fuel : ℕ) (attempts : ℕ → Opening win) (required : Bool)
      (verifier : Option (ℕ → IoResult (Unit {0}))) (n : ℕ) (client : Client)
      → IsBusyUntil attempts n
      → attempts n ≡ opened client
      → n < fuel
      → let v = new_verification required verifier in
        let stream = new_stream (win.pipe client) in
        (answer : IoResult PipeStream) × (connect_with_server_verification win fuel attempts v
          ≡ some (record { result = answer; slept = 5 * n }))
        × ((answer ≡ done stream) ↔ IsTrusted client v)
  unfolding connect_with_server_verification verified
  connect-IsTrusted fuel attempts required verifier n client h o l =
      let v = new_verification required verifier in
      let trusted = verify_server-IsTrusted client required verifier in
      (
        verified win client v,
        connect_loop_lem fuel attempts v 0 n 0 client
              (λ k b. ap attempts {x = 0 + k} {y = k} (omega arith) ∙ h k b)
              (ap attempts {x = 0 + n} {y = n} (omega arith) ∙ o) l
            ∙ ap (λ k. some (record { result = verified win client v; slept = k })) (omega arith),
        (
          λ e.
              trusted.0
                ((chain-done (verify_server win client v) _ (new_stream (win.pipe client))).0 e).1,
          λ t.
              (chain-done (verify_server win client v) _ (new_stream (win.pipe client))).1
                (tt, trusted.1 t, refl),
        ),
      )
