-- ===== src/Server/Router.antt =====
-- src/ipc_http_server.rs: `Router`. A path is the list of its characters, by code point; the crates
-- `url` and `path_tree` are parameters, and a handler is any value.
pub mod Safety
pub mod Routes
use kode_bridge.Base.{
  ℕ, ◌+◌, Bool, true, false, not, ◌&&◌, ◌||◌, Option, none, some, List, [], ◌∷◌, ltb, leb, ◌==◌,
  if◌then◌else◌,
}

abbrev pub Text : Type 0
Text = List ℕ

-- `str::len`: the bytes of a character in UTF-8.
unfoldable pub utf8_width : ℕ → ℕ
utf8_width c = if ltb c 0x80 then 1 else if ltb c 0x800 then 2 else if ltb c 0x10000 then 3 else 4

unfoldable pub utf8_len : Text → ℕ
utf8_len [] = 0
utf8_len (c ∷ cs) = utf8_width c + utf8_len cs

-- `contains("..")`
unfoldable pub contains_dots : Text → Bool
contains_dots (a ∷ b ∷ cs) = (a == b'.' && b == b'.') || contains_dots (b ∷ cs)
contains_dots _ = false

unfoldable pub any : (ℕ → Bool) → Text → Bool
any p [] = false
any p (c ∷ cs) = p c || any p cs

-- `char::is_control`: the category Cc.
unfoldable pub is_control : ℕ → Bool
is_control c = ltb c 0x20 || (leb 0x7f c && ltb c 0xa0)

unfoldable pub is_bad_control : ℕ → Bool
is_bad_control c = is_control c && (not (c == 10) && (not (c == 13) && not (c == 9)))

unfoldable pub starts_with_slash : Text → Bool
starts_with_slash [] = false
starts_with_slash (c ∷ cs) = c == b'/'

unfoldable pub is_safe_path : Text → Bool
is_safe_path path =
    if contains_dots path || any (λ c. c == 92) path
    then false
    else if any (λ c. c == 0) path || any is_bad_control path
    then false
    else if not (starts_with_slash path)
    then false
    else if ltb 2048 (utf8_len path)
    then false
    else true

-- The crates `url`, `http` and `path_tree`. A tree refuses a pattern that it cannot take.
pub record Routing : Type 1 where
  pub Method : Type 0
  pub same_method : Method → Method → Bool
  pub Handler : Type 0
  pub Tree : Type 0
  pub empty : Tree
  pub insert : Tree → Text → Handler → Option Tree
  pub find : Tree → Text → Option (Handler × List (Text × Text))
  -- The path of `Url::parse("http://localhost" + path)`.
  pub url_path : Text → Option Text

module _ (r : Routing) where
  open r use {Method, Handler, Tree, same_method}

  pub record Router : Type 0 where
    pub trees : List (Method × Tree)

  unfoldable pub new_router : Router
  new_router = record { trees = [] }

  unfoldable pub lookup : Method → List (Method × Tree) → Option Tree
  lookup method [] = none
  lookup method ((m, tree) ∷ rest) = if same_method m method then some tree else lookup method rest

  unfoldable pub insert_or_keep : Text → Handler → Tree → Tree
  insert_or_keep path handler tree = elim (r.insert tree path handler) [
    | none ↦ tree
    | some tree' ↦ tree'
  ]

  -- `entry(method).or_default()`, and an insertion whose error is dropped.
  unfoldable pub insert_route :
      Method → Text → Handler → List (Method × Tree) → List (Method × Tree)
  insert_route method path handler [] = (method, insert_or_keep path handler r.empty) ∷ []
  insert_route method path handler ((m, tree) ∷ rest) =
      let later = insert_route method path handler rest in
      if same_method m method
      then (m, insert_or_keep path handler tree) ∷ rest
      else (m, tree) ∷ later

  unfoldable pub add_route : Router → Method → Text → Handler → Router
  add_route router method path handler = record {
    trees = insert_route method path handler router.trees;
  }

  unfoldable pub find_handler_and_params :
      Router → Method → Text → Option (Handler × List (Text × Text))
  find_handler_and_params router method path = elim (r.url_path path) [
    | none ↦ none
    | some decoded_path ↦
        if not (is_safe_path decoded_path) then none else elim (lookup method router.trees) [
          | none ↦ none
          | some tree ↦ r.find tree decoded_path
        ]
  ]
