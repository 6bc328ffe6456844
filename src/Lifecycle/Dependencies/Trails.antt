-- ===== src/Lifecycle/Dependencies/Trails.antt =====
-- What `_find_path` returns is a path of edges of the graph from its origin to its goal.
use specsmither.Base.{
  Bool-cases, ℕ, zero, suc, String, ◌≡◌, refl, sym, inl, inr, true, not, ◌&&◌, some, List, [], ◌∷◌,
  ◌++◌, arith, eq_iff,
}
use mathlib.Core.Path.{subst}
use specsmither.Base.Text.{◌==◌}
use specsmither.Base.Sets.{mem}
use specsmither.Base.Graph.{Graph}
use specsmither.Lifecycle.Dependencies.{
  SpecDependencyEdge, successors, Entry, push_all, is_empty, search_from, find_path,
}

-- The edges stand in a row from `a` to `b`, each one an edge of the graph.
abbrev pub IsTrail : Graph → String → List SpecDependencyEdge → String → Type 0
IsTrail g a [] b = a ≡ b
IsTrail g a (e ∷ trail) b =
    (e.from_ticket_id ≡ a) × (mem e.to_ticket_id (g a) ≡ true) × IsTrail g e.to_ticket_id trail b

IsTrail-snoc :
    (g : Graph) (a b c : String) (trail : List SpecDependencyEdge)
    → IsTrail g a trail b
    → mem c (g b) ≡ true
    → IsTrail g a (trail ++ record { from_ticket_id = b; to_ticket_id = c } ∷ []) c
IsTrail-snoc g a b c [] h m = (sym h, subst (λ k. mem c (g k) ≡ true) (sym h) m, refl)
IsTrail-snoc g a b c (e ∷ trail) (p, q, r) m = (p, q, IsTrail-snoc g e.to_ticket_id b c trail r m)

-- A larger graph has the trail too.
pub IsTrail-mono :
    (g h : Graph)
    → ((v w : String) → mem w (g v) ≡ true → mem w (h v) ≡ true)
    → (a b : String) (trail : List SpecDependencyEdge) → IsTrail g a trail b
    → IsTrail h a trail b
IsTrail-mono g h grows a b [] t = t
IsTrail-mono g h grows a b (e ∷ trail) (p, q, r) =
    (p, grows a e.to_ticket_id q, IsTrail-mono g h grows e.to_ticket_id b trail r)

module _ (g : Graph) (origin : String) where
  AreTrails : List Entry → Type 0
  AreTrails [] = Unit {0}
  AreTrails ((node, trail) ∷ stack) = IsTrail g origin trail node × AreTrails stack

  AreTrails-push_all :
      (node : String) (trail : List SpecDependencyEdge) (ns : List String) (stack : List Entry)
      → IsTrail g origin trail node
      → ((n : String) → mem n ns ≡ true → mem n (g node) ≡ true)
      → AreTrails stack
      → AreTrails (push_all node trail ns stack)
  unfolding push_all AreTrails mem
  AreTrails-push_all node trail [] stack t sub h = h
  AreTrails-push_all node trail (n ∷ ns) stack t sub h =
      AreTrails-push_all node trail ns
        ((n, trail ++ record { from_ticket_id = node; to_ticket_id = n } ∷ []) ∷ stack) t
        (λ k m. sub k (ground (arith, m)))
        (IsTrail-snoc g origin node n trail t (sub n (ground (arith, eq_iff n n))), h)

search_from_sound :
    (fuel : ℕ) (edges : List SpecDependencyEdge) (origin goal : String) (stack : List Entry)
    (visited : List String) (path : List SpecDependencyEdge)
    → AreTrails (successors edges) origin stack
    → search_from fuel edges goal stack visited ≡ some (some path)
    → IsTrail (successors edges) origin path goal
unfolding search_from AreTrails
search_from_sound zero edges origin goal stack visited path h e = absurd (cc)
search_from_sound (suc fuel) edges origin goal [] visited path h e = absurd (cc)
search_from_sound (suc fuel) edges origin goal ((node, trail) ∷ stack) visited path (t, h) e =
    elim (Bool-cases (node == goal && not (is_empty trail))) [
      | inl a ↦
          let same : trail ≡ path = ground (arith, e) in
          let last : node ≡ goal = ground (arith, eq_iff node goal) in
          subst (λ k. IsTrail (successors edges) origin k goal) same
            (subst (λ k. IsTrail (successors edges) origin trail k) last t)
      | inr a ↦ elim (Bool-cases (mem node visited)) [
        | inl m ↦ search_from_sound fuel edges origin goal stack visited path h (ground (arith, e))
        | inr m ↦
            search_from_sound fuel edges origin goal
              (push_all node trail (successors edges node) stack) (node ∷ visited) path
              (AreTrails-push_all (successors edges) origin node trail (successors edges node) stack
                t (λ n q. q) h)
              (ground (arith, e))
      ]
    ]

pub find_path_sound :
    (fuel : ℕ) (origin goal : String) (edges path : List SpecDependencyEdge)
    → find_path fuel origin goal edges ≡ some (some path)
    → IsTrail (successors edges) origin path goal
unfolding find_path AreTrails
find_path_sound fuel origin goal edges path e =
    search_from_sound fuel edges origin goal ((origin, []) ∷ []) [] path (refl, tt) e
