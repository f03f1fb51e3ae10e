-- ===== src/HttpClient/Adaptive.antt =====
-- src/http_client.rs, `read_until_end_adaptive`: how much it reads, and what.
use mathlib.Core.List.{append_assoc}
use kode_bridge.Base.{
  ℕ, ◌+◌, ◌*◌, ◌≤◌, ◌≡◌, sym, ap, ◌∙◌, inl, inr, some, List, [], ◌∷◌, ◌++◌, length, Bool-cases, ltb,
  leb, arith,
}
use kode_bridge.Errors.{ok}
use kode_bridge.Bytes.{Bytes}
use kode_bridge.HttpClient.Reader.{
  Read, got, eof, timed_out, read_error, adaptive_loop, read_until_end_adaptive,
}

-- The bytes that a list of reads gives.
unfoldable pub data_of : List Read → Bytes
data_of [] = []
data_of (got data_read ∷ reads) = data_read ++ data_of reads
data_of (eof ∷ reads) = data_of reads
data_of (timed_out ∷ reads) = data_of reads
data_of (read_error e ∷ reads) = data_of reads

adaptive_loop_ok :
    (reads : List Read) (empty_reads : ℕ) (body result : Bytes)
    → length body ≤ 20 * 1024 * 1024
    → adaptive_loop empty_reads body reads ≡ some (ok result)
    → (length result ≤ 20 * 1024 * 1024)
      × ((left : Bytes) × (result ++ left ≡ body ++ data_of reads))
unfolding adaptive_loop data_of
adaptive_loop_ok [] empty_reads body result h e = absurd cc
adaptive_loop_ok (eof ∷ reads) empty_reads body result h e =
    let same : body ≡ result = cc in
    (omega (arith, ap length same), (data_of reads, ap (λ b. b ++ data_of reads) (sym same)))
adaptive_loop_ok (read_error x ∷ reads) empty_reads body result h e = absurd cc
adaptive_loop_ok (timed_out ∷ reads) empty_reads body result h e =
    elim (Bool-cases (leb 2 (empty_reads + 1))) [
      | inl stop ↦
          let same : body ≡ result = ground (arith, stop) in
          (omega (arith, ap length same), (data_of reads, ap (λ b. b ++ data_of reads) (sym same)))
      | inr again ↦ adaptive_loop_ok reads (empty_reads + 1) body result h (ground (arith, again))
    ]
adaptive_loop_ok (got data_read ∷ reads) empty_reads body result h e =
    elim (Bool-cases (ltb (20 * 1024 * 1024) (length (body ++ data_read)))) [
      | inl large ↦ absurd (ground (arith, large))
      | inr fits ↦
          let small : length (body ++ data_read) ≤ 20 * 1024 * 1024 = ground (arith, fits) in
          let (bound, (left, is)) =
            adaptive_loop_ok reads 0 (body ++ data_read) result small (ground (arith, fits)) in
          (bound, (left, is ∙ append_assoc body data_read (data_of reads)))
    ]

-- A body that is read without a length has at most 20 MiB, and is a prefix of the bytes that the
-- reads give.
pub read_until_end_adaptive_ok :
    (reads : List Read) (body : Bytes)
    → read_until_end_adaptive reads ≡ some (ok body)
    → (length body ≤ 20 * 1024 * 1024) × ((left : Bytes) × (body ++ left ≡ data_of reads))
unfolding read_until_end_adaptive
read_until_end_adaptive_ok reads body e = adaptive_loop_ok reads 0 [] body (omega arith) e
