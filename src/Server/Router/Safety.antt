-- ===== src/Server/Router/Safety.antt =====
-- src/ipc_http_server.rs, `Router::is_safe_path`: which paths reach a route.
use kode_bridge.Base.{
  ℕ, zero, suc, ◌≤◌, ◌<◌, ◌≡◌, ◌≢◌, ◌↔◌, ◌⊎◌, inl, inr, refl, Bool, true, false, some, [], ◌∷◌,
  Bool-cases, All, get_elem?, ltb, ◌==◌, arith,
}
use kode_bridge.Server.Router.{
  Text, utf8_len, contains_dots, any, is_control, is_bad_control, starts_with_slash, is_safe_path,
}

-- A control character that a path may have: tab, line feed and carriage return are.
abbrev pub IsPlain : ℕ → Type 0
IsPlain c = ((0x20 ≤ c) × ((c < 0x7f) ⊎ (0xa0 ≤ c))) ⊎ ((c ≡ 9) ⊎ ((c ≡ 10) ⊎ (c ≡ 13)))

-- No two dots stand side by side.
abbrev pub HasNoDots : Text → Type 0
HasNoDots path = (n : ℕ) → get_elem? path n ≡ some b'.' → get_elem? path (suc n) ≡ some b'.' → ⊥

-- A path that begins with a slash, has at most 2048 bytes, no backslash, no control character but
-- tab, line feed and carriage return, and no two dots side by side.
pub record IsSafe (path : Text) : Type 0 where
  pub rooted : get_elem? path 0 ≡ some b'/'
  pub short : utf8_len path ≤ 2048
  pub characters : All (λ c. (c ≢ 92) × IsPlain c) path
  pub no_dots : HasNoDots path

any-none : (p : ℕ → Bool) (path : Text) → any p path ≡ false ↔ All (λ c. p c ≡ false) path
unfolding any
any-none p [] = (λ e. tt, λ h. refl)
any-none p (c ∷ cs) = (
  λ e. (ground arith, (any-none p cs).0 (ground arith)),
  λ h. ground (arith, (any-none p cs).1 h.1),
)

contains_dots-HasNoDots : (path : Text) → contains_dots path ≡ false → HasNoDots path
unfolding contains_dots
contains_dots-HasNoDots [] e n a b = cc
contains_dots-HasNoDots (x ∷ []) e zero a b = cc
contains_dots-HasNoDots (x ∷ []) e (suc n) a b = cc
contains_dots-HasNoDots (x ∷ y ∷ cs) e zero a b = ground arith
contains_dots-HasNoDots (x ∷ y ∷ cs) e (suc n) a b =
    contains_dots-HasNoDots (y ∷ cs) (ground arith) n a b

HasNoDots-contains_dots : (path : Text) → HasNoDots path → contains_dots path ≡ false
unfolding contains_dots
HasNoDots-contains_dots [] h = refl
HasNoDots-contains_dots (x ∷ []) h = refl
HasNoDots-contains_dots (x ∷ y ∷ cs) h =
    let later = HasNoDots-contains_dots (y ∷ cs) (λ n. h (suc n)) in
    elim (Bool-cases (x == b'.')) [
      | inr e ↦ ground (arith, later, e)
      | inl e ↦ elim (Bool-cases (y == b'.')) [
        | inr f ↦ ground (arith, later, e, f)
        | inl f ↦ absurd (h 0 (ground arith) (ground arith))
      ]
    ]

allowed : (c : ℕ) → is_bad_control c ≡ false → IsPlain c
unfolding is_bad_control is_control
allowed c ctl = elim (Bool-cases (ltb c 0x20)) [
  | inl low ↦ inr (ground (arith, low))
  | inr high ↦ elim (Bool-cases (ltb c 0x7f)) [
    | inl ascii ↦ inl (ground arith, inl (ground arith))
    | inr del ↦ inl (ground arith, inr (ground (arith, high, del)))
  ]
]

refused : (c : ℕ) → IsPlain c → (is_bad_control c ≡ false) × ((c == 0) ≡ false)
unfolding is_bad_control is_control
refused c p = ground arith

characters_of :
    (path : Text)
    → any (λ c. c == 92) path ≡ false
    → any is_bad_control path ≡ false
    → All (λ c. (c ≢ 92) × IsPlain c) path
unfolding any
characters_of [] b e = tt
characters_of (c ∷ cs) b e =
    let plain = allowed c (ground arith) in
    ((ground arith, plain), characters_of cs (ground arith) (ground arith))

no_bad_characters :
    (path : Text)
    → All (λ c. (c ≢ 92) × IsPlain c) path
    → (any (λ c. c == 92) path ≡ false)
      × (any (λ c. c == 0) path ≡ false)
      × (any is_bad_control path ≡ false)
unfolding any
no_bad_characters [] h = (refl, refl, refl)
no_bad_characters (c ∷ cs) h =
    let (bad, nul) = refused c h.0.1 in
    let (b, n, e) = no_bad_characters cs h.1 in (ground arith, ground arith, ground arith)

starts_with_slash-rooted :
    (path : Text) → starts_with_slash path ≡ true ↔ (get_elem? path 0 ≡ some b'/')
unfolding starts_with_slash
starts_with_slash-rooted [] = (λ e. cc, λ e. cc)
starts_with_slash-rooted (c ∷ cs) = (λ e. ground arith, λ e. ground arith)

-- `is_safe_path` accepts exactly the safe paths.
pub is_safe_path-IsSafe : (path : Text) → is_safe_path path ≡ true ↔ IsSafe path
is_safe_path-IsSafe path = (forth, back)
  where
    forth : is_safe_path path ≡ true → IsSafe path
    forth e =
        let parts : (contains_dots path ≡ false)
            × (any (λ c. c == 92) path ≡ false)
            × (any is_bad_control path ≡ false)
            × (starts_with_slash path ≡ true)
            × (utf8_len path ≤ 2048) =
          unfold is_safe_path in ground arith in
        record {
          rooted = (starts_with_slash-rooted path).0 parts.3;
          short = parts.4;
          characters = characters_of path parts.1 parts.2;
          no_dots = contains_dots-HasNoDots path parts.0;
        }

    back : IsSafe path → is_safe_path path ≡ true
    back s =
        let dots = HasNoDots-contains_dots path s.no_dots in
        let (slash, nul, bad) = no_bad_characters path s.characters in
        let root = (starts_with_slash-rooted path).1 s.rooted in
        unfold is_safe_path in ground (arith, dots, slash, nul, bad, root, s.short)
