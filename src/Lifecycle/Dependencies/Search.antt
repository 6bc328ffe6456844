-- ===== src/Lifecycle/Dependencies/Search.antt =====
-- The search of `_find_path` ends within its fuel, and finds nothing only if there is no path.
use specsmither.Base.Graph.{Reaches-closed, Reaches}
use mathlib.Core.Path.{subst}
use specsmither.Base.Text.{◌==◌}
use specsmither.Lifecycle.Dependencies.{
  SpecDependencyEdge, successors, Entry, push_all, is_empty, search_from, find_path,
}
use specsmither.Base.Sets.{mem}
use specsmither.Base.{
  if◌then◌else◌, Bool-cases, length, ℕ, ◌+◌, ◌≤◌, String, ◌≡◌, refl, inl, inr, Bool, true, false,
  not, ◌&&◌, ◌||◌, List, [], ◌∷◌, ◌++◌, arith, eq_iff, zero, suc, ◌<◌, sym, Option, none, some,
}

-- The edges that leave nodes not visited yet: each is pushed at most once from here on.
pending : List SpecDependencyEdge → List String → ℕ
pending [] visited = 0
pending (e ∷ edges) visited =
    (if mem e.from_ticket_id visited then 0 else 1) + pending edges visited

pending-le :
    (edges : List SpecDependencyEdge) (visited : List String) → pending edges visited ≤ length edges
unfolding pending
pending-le [] visited = omega arith
pending-le (e ∷ edges) visited = ground (arith, pending-le edges visited)

-- A node that is visited first gives up as many of these edges as it has successors.
pending-visit :
    (edges : List SpecDependencyEdge) (node : String) (visited : List String)
    → mem node visited ≡ false
    → length (successors edges node) + pending edges (node ∷ visited) ≡ pending edges visited
unfolding pending successors mem
pending-visit [] node visited new = omega arith
pending-visit (e ∷ edges) node visited new = ground (
  arith,
  pending-visit edges node visited new,
  eq_iff e.from_ticket_id node,
  eq_iff node e.from_ticket_id,
)

length-push_all :
    (node : String) (trail : List SpecDependencyEdge) (ns : List String) (stack : List Entry)
    → length (push_all node trail ns stack) ≡ length ns + length stack
unfolding push_all
length-push_all node trail [] stack = omega arith
length-push_all node trail (n ∷ ns) stack = omega (
  arith,
  length-push_all node trail ns
      ((n, trail ++ record { from_ticket_id = node; to_ticket_id = n } ∷ []) ∷ stack),
)

-- The node waits on the stack, reached by an edge.
on_stack : String → List Entry → Bool
on_stack w [] = false
on_stack w ((n, trail) ∷ stack) = n == w && not (is_empty trail) || on_stack w stack

-- The node waits on the stack.
waits : String → List Entry → Bool
waits w [] = false
waits w ((n, trail) ∷ stack) = n == w || waits w stack

pub is_empty-append {ℓ} : {A : Type ℓ} (xs : List A) (x : A) → is_empty (xs ++ x ∷ []) ≡ false
unfolding is_empty
is_empty-append [] x = refl
is_empty-append (y ∷ xs) x = refl

on_stack-push_all :
    (w node : String) (trail : List SpecDependencyEdge) (ns : List String) (stack : List Entry)
    → on_stack w (push_all node trail ns stack) ≡ (mem w ns || on_stack w stack)
unfolding push_all on_stack mem
on_stack-push_all w node trail [] stack = refl
on_stack-push_all w node trail (n ∷ ns) stack = ground (
  arith,
  on_stack-push_all w node trail ns
      ((n, trail ++ record { from_ticket_id = node; to_ticket_id = n } ∷ []) ∷ stack),
  is_empty-append trail (record { from_ticket_id = node; to_ticket_id = n }),
)

waits-push_all :
    (w node : String) (trail : List SpecDependencyEdge) (ns : List String) (stack : List Entry)
    → waits w (push_all node trail ns stack) ≡ (mem w ns || waits w stack)
unfolding push_all waits mem
waits-push_all w node trail [] stack = refl
waits-push_all w node trail (n ∷ ns) stack = ground (
  arith,
  waits-push_all w node trail ns
      ((n, trail ++ record { from_ticket_id = node; to_ticket_id = n } ∷ []) ∷ stack),
)

module _ (edges : List SpecDependencyEdge) (goal : String) where
  -- Each successor of a visited node is visited and not the goal, or waits on the stack.
  IsSwept : List String → List Entry → Type 0
  IsSwept visited stack =
      (v w : String)
      → mem v visited ≡ true
      → mem w (successors edges v) ≡ true
      → mem w visited && not (w == goal) || on_stack w stack ≡ true

  -- What a failed search leaves: a set without a way out to the goal.
  record IsExhausted (visited : List String) (stack : List Entry) : Type 0 where
    inside : String → Bool
    has_visited : (v : String) → mem v visited ≡ true → inside v ≡ true
    has_waiting : (v : String) → waits v stack ≡ true → inside v ≡ true
    has_successors :
        (v w : String)
        → inside v ≡ true
        → mem w (successors edges v) ≡ true
        → (inside w ≡ true) × (w == goal ≡ false)

  IsSwept-skip :
      (visited : List String) (node : String) (trail : List SpecDependencyEdge) (stack : List Entry)
      → node == goal && not (is_empty trail) ≡ false
      → mem node visited ≡ true
      → IsSwept visited ((node, trail) ∷ stack)
      → IsSwept visited stack
  unfolding IsSwept on_stack
  IsSwept-skip visited node trail stack missed seen h v w m s =
      ground (arith, h v w m s, eq_iff node w, eq_iff node goal, eq_iff w goal)

  IsSwept-expand :
      (visited : List String) (node : String) (trail : List SpecDependencyEdge) (stack : List Entry)
      → node == goal && not (is_empty trail) ≡ false
      → IsSwept visited ((node, trail) ∷ stack)
      → IsSwept (node ∷ visited) (push_all node trail (successors edges node) stack)
  unfolding IsSwept on_stack mem
  IsSwept-expand visited node trail stack missed h v w m s = elim (Bool-cases (node == v)) [
    | inl e ↦
        let same : node ≡ v = (eq_iff node v).0 e in
        let next : mem w (successors edges node) ≡ true =
          subst (λ k. mem w (successors edges k) ≡ true) (sym same) s in
        rw (on_stack-push_all w node trail (successors edges node) stack) (ground arith)
    | inr e ↦
        rw (on_stack-push_all w node trail (successors edges node) stack)
          (ground (arith, h v w (ground arith) s, eq_iff node w, eq_iff node goal, eq_iff w goal))
  ]

  IsExhausted-end : (visited : List String) → IsSwept visited [] → IsExhausted visited []
  unfolding IsSwept on_stack waits
  IsExhausted-end visited h = record {
    inside = λ v. mem v visited;
    has_visited = λ v m. m;
    has_waiting = λ v m. cc;
    has_successors =
        λ v w m s. let both = h v w m s in (ground (arith, both), ground (arith, both));
  }

  IsExhausted-skip :
      (visited : List String) (node : String) (trail : List SpecDependencyEdge) (stack : List Entry)
      → mem node visited ≡ true
      → IsExhausted visited stack
      → IsExhausted visited ((node, trail) ∷ stack)
  unfolding waits
  IsExhausted-skip visited node trail stack seen x = record {
    inside = x.inside;
    has_visited = x.has_visited;
    has_waiting = λ v m. elim (Bool-cases (node == v)) [
      | inl e ↦ subst (λ k. x.inside k ≡ true) ((eq_iff node v).0 e) (x.has_visited node seen)
      | inr e ↦ x.has_waiting v (ground arith)
    ];
    has_successors = x.has_successors;
  }

  IsExhausted-expand :
      (visited : List String) (node : String) (trail : List SpecDependencyEdge) (stack : List Entry)
      → IsExhausted (node ∷ visited) (push_all node trail (successors edges node) stack)
      → IsExhausted visited ((node, trail) ∷ stack)
  unfolding waits mem
  IsExhausted-expand visited node trail stack x = record {
    inside = x.inside;
    has_visited = λ v m. x.has_visited v (ground arith);
    has_waiting = λ v m. elim (Bool-cases (node == v)) [
      | inl e ↦ x.has_visited v (ground arith)
      | inr e ↦
          x.has_waiting v
            (rw (waits-push_all v node trail (successors edges node) stack) (ground arith))
    ];
    has_successors = x.has_successors;
  }

  -- With more fuel than pushes to come, the search ends; when it finds nothing, it leaves such a set.
  search_from_total :
      (fuel : ℕ) (stack : List Entry) (visited : List String)
      → length stack + pending edges visited < fuel
      → IsSwept visited stack
      → (r : Option (List SpecDependencyEdge)) × (search_from fuel edges goal stack visited
          ≡ some r)
        × (r ≡ none → IsExhausted visited stack)
  unfolding search_from waits
  search_from_total zero stack visited h swept = absurd (omega arith)
  search_from_total (suc fuel) [] visited h swept = (none, refl, λ e. IsExhausted-end visited swept)
  search_from_total (suc fuel) ((node, trail) ∷ stack) visited h swept =
      elim (Bool-cases (node == goal && not (is_empty trail))) [
        | inl e ↦ rw e ((some trail, refl, λ q. cc))
        | inr e ↦ rw e (elim (Bool-cases (mem node visited)) [
          | inl m ↦
              let (r, same, left) =
                search_from_total fuel stack visited (omega arith)
                  (IsSwept-skip visited node trail stack e m swept) in
              rw m ((r, same, λ q. IsExhausted-skip visited node trail stack m (left q)))
          | inr m ↦
              let (r, same, left) =
                search_from_total fuel (push_all node trail (successors edges node) stack)
                  (node ∷ visited)
                  (omega (
                    arith,
                    length-push_all node trail (successors edges node) stack,
                    pending-visit edges node visited m,
                  ))
                  (IsSwept-expand visited node trail stack e swept) in
              rw m ((r, same, λ q. IsExhausted-expand visited node trail stack (left q)))
        ])
      ]

-- With more fuel than edges and one, `find_path` ends; when it finds nothing, the goal cannot be
-- reached from the origin by one edge or more.
pub find_path_total :
    (fuel : ℕ) (origin goal : String) (edges : List SpecDependencyEdge)
    → length edges + 1 < fuel
    → (r : Option (List SpecDependencyEdge)) × (find_path fuel origin goal edges ≡ some r)
      × (r ≡ none → Reaches (successors edges) origin goal → ⊥)
unfolding find_path waits IsSwept on_stack mem
find_path_total fuel origin goal edges h =
    let (r, same, left) =
      search_from_total edges goal fuel ((origin, []) ∷ []) [] (omega (arith, pending-le edges []))
        (λ v w m s. cc) in
    (
      r,
      same,
      λ q reach.
          let x = left q in
          Reaches-closed (successors edges) x.inside goal
            (λ v w m s.
              let (a, b) = x.has_successors v w m s in (a, λ e. ground (arith, eq_iff w goal)))
            reach (x.has_waiting origin (ground (arith, eq_iff origin origin))) refl,
    )
