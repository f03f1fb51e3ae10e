-- ===== src/Transport/Windows/Endpoint.antt =====
-- src/transport/windows.rs, `validate_endpoint`: which paths are those of a named pipe.
use kode_bridge.Base.{
  ℕ, suc, ◌+◌, ◌≤◌, ◌<◌, ◌≡◌, ◌≢◌, ◌↔◌, refl, sym, ap, subst, inl, inr, ◌∙◌, true, false, leb, ◌==◌,
  [], ◌∷◌, ◌++◌, All, length, take, drop, drop-length, drop-at, take-append-drop, length-append,
  length-drop, some, Bool-cases, Option-cases, arith,
}
use kode_bridge.Bytes.{Bytes}
use kode_bridge.Transport.{done}
use kode_bridge.Transport.Unix.{has_nul}
use kode_bridge.Transport.Windows.{
  position, get_from_2, eq_bytes, slice_is, starts_with_backslashes, pipe_part, validate_pipe,
  host_end, validate_endpoint,
}

-- `\\host\pipe\name`, with a host without a backslash, which may be empty, a name that is not empty,
-- and no byte 0.
pub record IsPipePath (path : Bytes) : Type 0 where
  pub host : Bytes
  pub name : Bytes
  pub parts : path ≡ 92 ∷ 92 ∷ (host ++ (pipe_part ++ name))
  pub host_part : All (λ b. b ≢ 92) host
  pub named : 0 < length name
  pub no_nul : has_nul path ≡ false

position-some :
    (bs : Bytes) (n : ℕ)
    → position 92 bs ≡ some n
    → (host rest : Bytes) × (bs ≡ host ++ 92 ∷ rest) × (n ≡ length host) × All (λ b. b ≢ 92) host
unfolding position
position-some [] n e = cc
position-some (c ∷ cs) n e = elim (Bool-cases (c == 92)) [
  | inl y ↦ ([], cs, ground (arith, y), ground (arith, y), tt)
  | inr n' ↦ elim (Option-cases (position 92 cs)) [
    | inl gone ↦ ground (arith, n', gone)
    | inr (m, q) ↦
        let (host, rest, parts, len, all) = position-some cs m q in
        (c ∷ host, rest, ap (◌∷◌ c) parts, ground (arith, n', q), (ground (arith, n'), all))
  ]
]

position-host :
    (host rest : Bytes)
    → All (λ b. b ≢ 92) host
    → position 92 (host ++ 92 ∷ rest) ≡ some (length host)
unfolding position
position-host [] rest h = refl
position-host (c ∷ cs) rest h = ground (arith, position-host cs rest h.1)

eq_bytes_iff : (xs ys : Bytes) → (eq_bytes xs ys ≡ true) ↔ (xs ≡ ys)
unfolding eq_bytes
eq_bytes_iff [] [] = (λ e. refl, λ e. refl)
eq_bytes_iff [] (y ∷ ys) = (λ e. cc, λ e. cc)
eq_bytes_iff (x ∷ xs) [] = (λ e. cc, λ e. cc)
eq_bytes_iff (x ∷ xs) (y ∷ ys) =
    let i = eq_bytes_iff xs ys in (λ e. ground (arith, i.0), λ e. ground (arith, i.1))

-- What the checks after the host come to.
abbrev Checks : Bytes → ℕ → Type 0
Checks path n =
    (starts_with_backslashes path ≡ true)
    × (slice_is path (2 + n) 6 pipe_part ≡ true)
    × (leb (length path) (2 + n + 6) ≡ false)
    × (has_nul path ≡ false)

validate_pipe-Checks : (path : Bytes) (n : ℕ) → (validate_pipe path n ≡ done tt) ↔ Checks path n
unfolding validate_pipe
validate_pipe-Checks path n = (λ e. ground arith, λ c. rw (c.0, c.1, c.2, c.3))

Checks-IsPipePath :
    (a b : ℕ) (rest : Bytes) (n : ℕ)
    → position 92 rest ≡ some n
    → Checks (a ∷ b ∷ rest) n
    → IsPipePath (a ∷ b ∷ rest)
unfolding starts_with_backslashes slice_is
Checks-IsPipePath a b rest n e (start, part, long, nul) =
    let (host, tail, parts, len, all) = position-some rest n e in
    let at : drop n rest ≡ 92 ∷ tail = ap (drop n) parts ∙ drop-at n host (92 ∷ tail) len in
    let six : take 6 (92 ∷ tail) ≡ pipe_part =
      ap (take 6) (sym at) ∙ (eq_bytes_iff (take 6 (drop n rest)) pipe_part).0 (ground arith) in
    let whole =
      ap (◌++◌ host)
        (sym (take-append-drop 6 (92 ∷ tail)) ∙ ap (λ t. t ++ drop 6 (92 ∷ tail)) six) in
    record {
      host = host;
      name = drop 6 (92 ∷ tail);
      parts =
          ap (λ x. x ∷ b ∷ rest) (ground arith)
          ∙ ap (λ x. 92 ∷ x ∷ rest) (ground arith)
          ∙ ap (λ x. 92 ∷ 92 ∷ x) (parts ∙ whole);
      host_part = all;
      named = ground (
        arith,
        len,
        long,
        ap (length {A = ℕ}) parts,
        length-append host (92 ∷ tail),
        length-drop 6 (92 ∷ tail),
      );
      no_nul = nul;
    }

slice_is-part :
    (path : Bytes) (start : ℕ)
    → start + 6 ≤ length path
    → take 6 (drop start path) ≡ pipe_part
    → slice_is path start 6 pipe_part ≡ true
unfolding slice_is
slice_is-part path start long e =
    ground (arith, (eq_bytes_iff (take 6 (drop start path)) pipe_part).1)

IsPipePath-Checks :
    (host name : Bytes)
    → All (λ b. b ≢ 92) host
    → 0 < length name
    → has_nul (92 ∷ 92 ∷ (host ++ (pipe_part ++ name))) ≡ false
    → validate_endpoint (92 ∷ 92 ∷ (host ++ (pipe_part ++ name))) ≡ done tt
unfolding validate_endpoint host_end get_from_2 starts_with_backslashes slice_is eq_bytes
IsPipePath-Checks host name all long nul =
    let path = 92 ∷ 92 ∷ (host ++ (pipe_part ++ name)) in
    let at : drop (2 + length host) path ≡ drop (length host) (host ++ (pipe_part ++ name)) =
      ap (λ k. drop k path) {y = suc (suc (length host))} (omega arith) in
    let part : slice_is path (2 + length host) 6 pipe_part ≡ true =
      slice_is-part path (2 + length host) (ground (arith, length-append host (pipe_part ++ name)))
        (ap (take 6) (at ∙ drop-length host (pipe_part ++ name))) in
    let long : leb (length path) (2 + length host + 6) ≡ false =
      ground (arith, length-append host (pipe_part ++ name)) in
    let valid = (validate_pipe-Checks path (length host)).1 (refl, part, long, nul) in
    rw (validate_endpoint, position-host host (drop 1 (pipe_part ++ name)) all) valid

accepted : (path : Bytes) → validate_endpoint path ≡ done tt → IsPipePath path
unfolding validate_endpoint host_end get_from_2
accepted [] e = cc
accepted (a ∷ []) e = cc
accepted (a ∷ b ∷ rest) e = elim (Option-cases (position 92 rest)) [
  | inl gone ↦ ground (arith, gone)
  | inr (n, q) ↦
      Checks-IsPipePath a b rest n q ((validate_pipe-Checks (a ∷ b ∷ rest) n).0 (ground (arith, q)))
]

-- `validate_endpoint` accepts exactly the paths `\\host\pipe\name` whose host has no backslash, whose name
-- is not empty, and in which no byte is 0.
pub validate_endpoint-IsPipePath :
    (path : Bytes) → (validate_endpoint path ≡ done tt) ↔ IsPipePath path
validate_endpoint-IsPipePath path = (
  accepted path,
  λ i.
      subst (λ x. validate_endpoint x ≡ done tt) (sym i.parts)
        (IsPipePath-Checks i.host i.name i.host_part i.named
          (subst (λ x. has_nul x ≡ false) i.parts i.no_nul)),
)
