-- ===== src/Client/Batches.antt =====
-- src/ipc_http_client.rs, `put_batch`: what it returns, and how many requests it has under way.
use mathlib.Core.List.{append_assoc, append-nil}
use kode_bridge.Base.{
  ℕ, ◌≤◌, ◌<◌, ◌≡◌, refl, sym, ap, subst, ◌∙◌, inl, inr, ◌⊎◌, min, List, [], ◌∷◌, ◌++◌, length,
  length-append, All, Bool-cases, ◌==◌, arith,
}
use kode_bridge.Errors.{KodeBridgeError, Result, ok, err, Result-cases}
use kode_bridge.Client.Batch.{take_results, Sent, sent_before, last_batch, batch_loop, put_batch}

abbrev pub concat : {A : Type 0} → List (List A) → List A
concat [] = []
concat (x ∷ xs) = x ++ concat xs

module _ {A B : Type 0} (send : A → Result B) where
  -- Requests that are sent one after another, until one fails.
  abbrev pub results_of : List A → Result (List B)
  results_of [] = ok []
  results_of (x ∷ xs) = elim (send x) [
    | err e ↦ err e
    | ok response ↦ elim (results_of xs) [ err e ↦ err e | ok rest ↦ ok (response ∷ rest) ]
  ]

  abbrev behind : List B → Result (List B) → Result (List B)
  behind responses (ok rest) = ok (responses ++ rest)
  behind responses (err e) = err e

  take_results-results_of :
      (xs : List A) (responses : List B)
      → take_results send xs responses ≡ behind responses (results_of xs)
  unfolding take_results
  take_results-results_of [] responses = ap ok (sym (append-nil responses))
  take_results-results_of (x ∷ xs) responses = elim (Result-cases (send x)) [
    | inr (e, is) ↦ rw (results_of, take_results, is) refl
    | inl (r, is) ↦
        rw (results_of, take_results, is, take_results-results_of xs (responses ++ r ∷ []))
          (moved (results_of xs) r)
  ]
    where
      moved :
          (rest : Result (List B)) (r : B)
          → behind (responses ++ r ∷ []) rest
            ≡ behind responses (elim rest [ err e ↦ err e | ok rs ↦ ok (r ∷ rs) ])
      moved (ok rs) r = ap ok (append_assoc responses (r ∷ []) rs)
      moved (err e) r = refl

  take_results-append :
      (xs ys : List A) (responses : List B)
      → take_results send (xs ++ ys) responses ≡ elim (take_results send xs responses) [
        | err e ↦ err e
        | ok more ↦ take_results send ys more
      ]
  unfolding take_results
  take_results-append [] ys responses = refl
  take_results-append (x ∷ xs) ys responses = elim (Result-cases (send x)) [
    | inr (e, is) ↦ ground (arith, is)
    | inl (r, is) ↦ ground (arith, is, take_results-append xs ys (responses ++ r ∷ []))
  ]

  batch_loop-result :
      (limit : ℕ) (pending : List A) (responses : List B) (xs : List A)
      → (batch_loop send limit pending responses xs).result
        ≡ take_results send (pending ++ xs) responses
  unfolding batch_loop sent_before
  batch_loop-result limit [] responses [] = unfold last_batch take_results in refl
  batch_loop-result limit (p ∷ ps) responses [] =
      unfold last_batch in ap (λ l. take_results send l responses) (sym (append-nil (p ∷ ps)))
  batch_loop-result limit pending responses (x ∷ xs) =
      let pending' = pending ++ x ∷ [] in
      let joined = ap (λ l. take_results send l responses) (append_assoc pending (x ∷ []) xs) in
      elim (Bool-cases (length pending' == limit)) [
        | inr e ↦ rw (batch_loop, e) (batch_loop-result limit pending' responses xs ∙ joined)
        | inl e ↦ elim (Result-cases (take_results send pending' responses)) [
          | inr (x, is) ↦
              rw (batch_loop, e, is)
                (sym (sym joined ∙ (take_results-append pending' xs responses ∙ rw is refl)))
          | inl (more, is) ↦
              rw (batch_loop, e, is)
                (batch_loop-result limit [] more xs
                  ∙ sym (sym joined ∙ (take_results-append pending' xs responses ∙ rw is refl)))
        ]
      ]

  abbrev pub Succeeds : A → Type 0
  Succeeds x = (response : B) × (send x ≡ ok response)

  -- A batch is followed by another one only if all its requests succeed.
  abbrev pub StopsAtError : List (List A) → Type 0
  StopsAtError [] = Unit {0}
  StopsAtError (batch ∷ []) = Unit {0}
  StopsAtError (batch ∷ next ∷ later) = All Succeeds batch × StopsAtError (next ∷ later)

  StopsAtError-cons :
      (batch : List A) (later : List (List A))
      → All Succeeds batch
      → StopsAtError later
      → StopsAtError (batch ∷ later)
  StopsAtError-cons batch [] good h = tt
  StopsAtError-cons batch (next ∷ later) good h = (good, h)

  take_results-Succeeds :
      (xs : List A) (responses more : List B)
      → take_results send xs responses ≡ ok more
      → All Succeeds xs
  unfolding take_results
  take_results-Succeeds [] responses more e = tt
  take_results-Succeeds (x ∷ xs) responses more e = elim (Result-cases (send x)) [
    | inr (error, is) ↦ absurd (ground (arith, is))
    | inl (r, is) ↦
        ((r, is), take_results-Succeeds xs (responses ++ r ∷ []) more (ground (arith, is)))
  ]

  -- The batches that were sent are at most `limit` long; they are the first requests, in order, and
  -- all of them if no request failed; none is sent behind one with an error.
  pub record AreBatches (limit : ℕ) (requests : List A) (s : Sent send) : Type 0 where
    pub bounded : All (λ batch. length batch ≤ limit) s.batches
    pub unsent : List A
    pub in_order : concat s.batches ++ unsent ≡ requests
    pub stopped : StopsAtError s.batches
    pub complete : (unsent ≡ []) ⊎ ((e : KodeBridgeError) × (s.result ≡ err e))

  batch_loop-AreBatches :
      (limit : ℕ) (pending : List A) (responses : List B) (xs : List A)
      → length pending < limit
      → AreBatches limit (pending ++ xs) (batch_loop send limit pending responses xs)
  unfolding batch_loop last_batch
  batch_loop-AreBatches limit [] responses [] h = record {
    bounded = tt;
    unsent = [];
    stopped = tt;
    in_order = refl;
    complete = inl refl;
  }
  batch_loop-AreBatches limit (p ∷ ps) responses [] h = record {
    bounded = (omega arith, tt);
    unsent = [];
    stopped = tt;
    in_order = ap (λ l. l ++ []) (append-nil (p ∷ ps));
    complete = inl refl;
  }
  batch_loop-AreBatches limit pending responses (x ∷ xs) h =
      let pending' = pending ++ x ∷ [] in
      let len = length-append pending (x ∷ []) in
      let joined = append_assoc pending (x ∷ []) xs in
      elim (Bool-cases (length pending' == limit)) [
        | inr e ↦
            rw (batch_loop, e)
              (subst (λ l. AreBatches limit l (batch_loop send limit pending' responses xs)) joined
                (batch_loop-AreBatches limit pending' responses xs (ground (arith, e))))
        | inl e ↦ elim (Result-cases (take_results send pending' responses)) [
          | inr (x, is) ↦
              rw (batch_loop, e, is)
                (record {
                  bounded = (ground (arith, e), tt);
                  unsent = xs;
                  stopped = tt;
                  in_order = ap (λ l. l ++ xs) (append-nil pending') ∙ joined;
                  complete = inr (x, refl);
                })
          | inl (more, is) ↦
              rw (batch_loop, e, is)
                (after_batch pending' (batch_loop send limit [] more xs) xs (ground (arith, e))
                  joined (take_results-Succeeds pending' responses more is)
                  (batch_loop-AreBatches limit [] more xs (omega arith)))
        ]
      ]
    where
      after_batch :
          (batch : List A) (later : Sent send) (rest : List A) {whole : List A}
          → length batch ≤ limit
          → batch ++ rest ≡ whole
          → All Succeeds batch
          → AreBatches limit rest later
          → AreBatches limit whole (sent_before send batch later)
      after_batch batch later rest small is good a =
          unfold sent_before in
          (record {
            bounded = (small, a.bounded);
            unsent = a.unsent;
            stopped = StopsAtError-cons batch later.batches good a.stopped;
            in_order =
                append_assoc batch (concat later.batches) a.unsent
                ∙ (ap (λ l. batch ++ l) a.in_order ∙ is);
            complete = a.complete;
          })

  behind_nil : (r : Result (List B)) → behind [] r ≡ r
  behind_nil (ok rs) = refl
  behind_nil (err e) = refl

  shorter :
      (small large : ℕ) (batches : List (List A))
      → small ≤ large
      → All (λ batch. length batch ≤ small) batches
      → All (λ batch. length batch ≤ large) batches
  shorter small large [] h hs = tt
  shorter small large (b ∷ bs) h hs = (omega (arith, hs.0), shorter small large bs h hs.1)

  -- For a positive `max_concurrent_requests`, `put_batch` returns what sending the requests one after another would: all responses in order,
  -- or the first error. At most `max_concurrent_requests` of them are under way at a time, and no
  -- batch is sent after one with an error.
  pub put_batch_lem :
      (max_concurrent_requests : ℕ) (requests : List A)
      → 1 ≤ max_concurrent_requests
      → ((put_batch send max_concurrent_requests requests).result ≡ results_of requests)
        × AreBatches max_concurrent_requests requests
            (put_batch send max_concurrent_requests requests)
  unfolding put_batch
  put_batch_lem m [] h = (
    refl,
    record { bounded = tt; unsent = []; stopped = tt; in_order = refl; complete = inl refl },
  )
  put_batch_lem m (x ∷ xs) h =
      let limit = min m (length (x ∷ xs)) in
      let a = batch_loop-AreBatches limit [] [] (x ∷ xs) (omega arith) in
      (
        batch_loop-result limit [] [] (x ∷ xs)
            ∙ (take_results-results_of (x ∷ xs) [] ∙ behind_nil (results_of (x ∷ xs))),
        record {
          bounded =
              shorter limit m (batch_loop send limit [] [] (x ∷ xs)).batches (omega arith)
                a.bounded;
          unsent = a.unsent;
          stopped = a.stopped;
          in_order = a.in_order;
          complete = a.complete;
        },
      )
