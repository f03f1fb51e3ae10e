-- ===== src/Client/Batch.antt =====
-- src/ipc_http_client.rs, `put_batch`. `send` is what a request comes to; a list of the batches that
-- were sent is kept beside the result.
use kode_bridge.Base.{true, false, ℕ, min, List, [], ◌∷◌, ◌++◌, length, ◌==◌}
use kode_bridge.Errors.{Result, ok, err}

module _ {A B : Type 0} (send : A → Result B) where
  -- The results of a batch, which are all there, are taken in order up to the first error.
  unfoldable pub take_results : List A → List B → Result (List B)
  take_results [] responses = ok responses
  take_results (x ∷ xs) responses = elim (send x) [
    | err e ↦ err e
    | ok response ↦ take_results xs (responses ++ response ∷ [])
  ]

  pub record Sent : Type 0 where
    pub result : Result (List B)
    pub batches : List (List A)

  unfoldable pub sent_before : List A → Sent → Sent
  sent_before batch later = record later { batches = batch ∷ later.batches }

  -- The batch that is left at the end.
  unfoldable pub last_batch : List A → List B → Sent
  last_batch [] responses = record { result = ok responses; batches = [] }
  last_batch (x ∷ xs) responses = record {
    result = take_results (x ∷ xs) responses;
    batches = (x ∷ xs) ∷ [];
  }

  unfoldable pub batch_loop : ℕ → List A → List B → List A → Sent
  batch_loop limit pending responses [] = last_batch pending responses
  batch_loop limit pending responses (x ∷ xs) =
      let pending' = pending ++ x ∷ [] in
      elim (length pending' == limit) [
        | false ↦ batch_loop limit pending' responses xs
        | true ↦ elim (take_results pending' responses) [
          | err e ↦ record { result = err e; batches = pending' ∷ [] }
          | ok responses' ↦ sent_before pending' (batch_loop limit [] responses' xs)
        ]
      ]

  unfoldable pub put_batch : ℕ → List A → Sent
  put_batch max_concurrent_requests [] = record { result = ok []; batches = [] }
  put_batch max_concurrent_requests (x ∷ xs) =
      batch_loop (min max_concurrent_requests (length (x ∷ xs))) [] [] (x ∷ xs)
