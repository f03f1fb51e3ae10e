-- ===== src/Server/Router/Routes.antt =====
-- src/ipc_http_server.rs, `Router`: which handler answers a request.
use kode_bridge.Base.{
  ◌≡◌, ◌↔◌, inl, inr, ap, true, false, Option, none, some, List, [], ◌∷◌, Bool-cases, Option-cases,
  arith,
}
use kode_bridge.Server.Router.{
  Text, Routing, Router, lookup, insert_or_keep, insert_route, add_route, is_safe_path,
  find_handler_and_params,
}
use kode_bridge.Server.Router.Safety.{IsSafe, is_safe_path-IsSafe}

module _ (r : Routing) where
  open r use {Method, Handler, same_method}

  -- The tree of the request's method finds the handler under a decoded path, which is safe.
  pub record IsRouted (router : Router r) (method : Method) (path : Text)
      (answer : Handler × List (Text × Text)) : Type 0 where
    pub decoded : Text
    pub tree : r.Tree
    pub decodes : r.url_path path ≡ some decoded
    pub safe : IsSafe decoded
    pub of_method : lookup r method router.trees ≡ some tree
    pub found : r.find tree decoded ≡ some answer

  -- A handler is found exactly if the decoded path is safe and the method's tree has a route for it:
  -- a path that is not safe reaches no handler.
  pub find_handler_and_params-IsRouted :
      (router : Router r) (method : Method) (path : Text) (answer : Handler × List (Text × Text))
      → (find_handler_and_params r router method path ≡ some answer)
        ↔ IsRouted router method path answer
  find_handler_and_params-IsRouted router method path answer = (forth, back)
    where
      forth :
          find_handler_and_params r router method path ≡ some answer
          → IsRouted router method path answer
      forth e = elim (Option-cases (r.url_path path)) [
        | inl n ↦ absurd (unfold find_handler_and_params in ground (arith, n))
        | inr (decoded, d) ↦ elim (Bool-cases (is_safe_path decoded)) [
          | inr bad ↦ absurd (unfold find_handler_and_params in ground (arith, d, bad))
          | inl good ↦ elim (Option-cases (lookup r method router.trees)) [
            | inl n ↦ absurd (unfold find_handler_and_params in ground (arith, d, good, n))
            | inr (tree, t) ↦ record {
              decoded = decoded;
              tree = tree;
              decodes = d;
              safe = (is_safe_path-IsSafe decoded).0 good;
              of_method = t;
              found = unfold find_handler_and_params in ground (arith, d, good, t);
            }
          ]
        ]
      ]

      back :
          IsRouted router method path answer
          → find_handler_and_params r router method path ≡ some answer
      back i =
          let good = (is_safe_path-IsSafe i.decoded).1 i.safe in
          unfold find_handler_and_params in ground (arith, i.decodes, good, i.of_method, i.found)

  -- The tree of a method, which is empty where it has no route yet.
  abbrev pub tree_of : Option r.Tree → r.Tree
  tree_of none = r.empty
  tree_of (some tree) = tree

  module _ (sound : (a b : Method) → same_method a b ≡ true → a ≡ b)
      (reflexive : (a : Method) → same_method a a ≡ true) (m : Method) (path : Text)
      (handler : Handler) where
    lookup-insert_route_self :
        (trees : List (Method × r.Tree))
        → lookup r m (insert_route r m path handler trees)
          ≡ some (insert_or_keep r path handler (tree_of (lookup r m trees)))
    unfolding lookup insert_route
    lookup-insert_route_self [] = ground (arith, reflexive m)
    lookup-insert_route_self ((k, tree) ∷ rest) = elim (Bool-cases (same_method k m)) [
      | inl e ↦ ground (arith, e)
      | inr e ↦ ground (arith, e, lookup-insert_route_self rest)
    ]

    lookup-insert_route_other :
        (other : Method) (trees : List (Method × r.Tree))
        → same_method m other ≡ false
        → lookup r other (insert_route r m path handler trees) ≡ lookup r other trees
    unfolding lookup insert_route
    lookup-insert_route_other other [] ne = ground (arith, ne)
    lookup-insert_route_other other ((k, tree) ∷ rest) ne = elim (Bool-cases (same_method k m)) [
      | inl e ↦ ground (arith, e, ap (λ a. same_method a other) (sound k m e), ne)
      | inr e ↦ ground (arith, e, lookup-insert_route_other other rest ne)
    ]

    -- A route that is added is put into the tree of its own method, and changes no answer to a
    -- request with another method.
    pub find-add_route :
        (router : Router r) (other : Method) (request_path : Text)
        → (lookup r m (add_route r router m path handler).trees
            ≡ some (insert_or_keep r path handler (tree_of (lookup r m router.trees))))
          × (same_method m other ≡ false
              → find_handler_and_params r (add_route r router m path handler) other request_path
                ≡ find_handler_and_params r router other request_path)
    unfolding add_route find_handler_and_params
    find-add_route router other request_path = (
      lookup-insert_route_self router.trees,
      λ ne. ground (arith, lookup-insert_route_other other router.trees ne),
    )
