-- ===== src/Crud/Search.antt =====
-- The breadth-first search of `would_create_cycle` ends within its fuel, and answers no only if there is no path.
use specsmither.Base.{
  if◌then◌else◌, Bool-cases, length, length-append, ℕ, zero, suc, ◌+◌, ◌≤◌, ◌<◌, String, ◌≡◌, refl,
  sym, ap, inl, inr, Bool, true, false, not, ◌&&◌, ◌||◌, some, List, [], ◌∷◌, ◌++◌, arith, eq_iff,
}
use mathlib.Core.Path.{subst}
use specsmither.Base.Text.{◌==◌}
use specsmither.Base.Sets.{mem, mem-append}
use specsmither.Base.Graph.{Reaches, Reaches-closed}
use specsmither.Crud.{DependencyEdge, forward, unvisited, reach_from}

-- The edges that leave nodes not visited yet.
unfoldable pub pending_edges : List DependencyEdge → List String → ℕ
pending_edges [] visited = 0
pending_edges (e ∷ edges) visited =
    (if mem e.ticket_id visited then 0 else 1) + pending_edges edges visited

pub pending_edges-le :
    (edges : List DependencyEdge) (visited : List String)
    → pending_edges edges visited ≤ length edges
unfolding pending_edges
pending_edges-le [] visited = omega arith
pending_edges-le (e ∷ edges) visited = ground (arith, pending_edges-le edges visited)

pending_edges-visit :
    (edges : List DependencyEdge) (node : String) (visited : List String)
    → mem node visited ≡ false
    → length (forward edges node) + pending_edges edges (node ∷ visited)
      ≡ pending_edges edges visited
unfolding pending_edges forward mem
pending_edges-visit [] node visited new = omega arith
pending_edges-visit (e ∷ edges) node visited new = ground (
  arith,
  pending_edges-visit edges node visited new,
  eq_iff e.ticket_id node,
  eq_iff node e.ticket_id,
)

length-unvisited : (visited ns : List String) → length (unvisited visited ns) ≤ length ns
unfolding unvisited
length-unvisited visited [] = omega arith
length-unvisited visited (n ∷ ns) = ground (arith, length-unvisited visited ns)

mem-unvisited :
    (w : String) (visited ns : List String)
    → mem w (unvisited visited ns) ≡ (mem w ns && not (mem w visited))
unfolding unvisited mem
mem-unvisited w visited [] = refl
mem-unvisited w visited (n ∷ ns) =
    ground (arith, mem-unvisited w visited ns, eq_iff n w, ap (λ q. mem q visited) {x = n} {y = w})

module _ (edges : List DependencyEdge) (target : String) where
  -- Each successor of a visited node is visited or waits; the target is not visited.
  record IsSwept (visited queue : List String) : Type 0 where
    swept :
        (v w : String)
        → mem v visited ≡ true
        → mem w (forward edges v) ≡ true
        → mem w visited || mem w queue ≡ true
    missed : mem target visited ≡ false

  -- What a failed search leaves: a set that holds the queue, without a way out to the target.
  record IsExhausted (visited queue : List String) : Type 0 where
    within : String → Bool
    has_visited : (v : String) → mem v visited ≡ true → within v ≡ true
    has_queue : (v : String) → mem v queue ≡ true → within v ≡ true
    has_successors :
        (v w : String) → within v ≡ true → mem w (forward edges v) ≡ true → within w ≡ true
    no_target : within target ≡ false

  skip-IsSwept :
      (current : String) (queue visited : List String)
      → mem current visited ≡ true
      → IsSwept visited (current ∷ queue)
      → IsSwept visited queue
  unfolding mem
  skip-IsSwept current queue visited m s = record {
    swept = λ v w a b. ground (
      arith,
      s.swept v w a b,
      m,
      eq_iff current w,
      ap (λ q. mem q visited) {x = current} {y = w},
    );
    missed = s.missed;
  }

  expand-IsSwept :
      (current : String) (queue visited : List String)
      → current == target ≡ false
      → IsSwept visited (current ∷ queue)
      → IsSwept (current ∷ visited) (queue ++ unvisited (current ∷ visited) (forward edges current))
  unfolding mem
  expand-IsSwept current queue visited other s = record {
    swept = λ v w a b.
        let there = mem-append w queue (unvisited (current ∷ visited) (forward edges current)) in
        let new = mem-unvisited w (current ∷ visited) (forward edges current) in
        elim (Bool-cases (current == v)) [
          | inl e ↦
              let next_one : mem w (forward edges current) ≡ true =
                subst (λ k. mem w (forward edges k) ≡ true) (sym ((eq_iff current v).0 e)) b in
              ground (arith, there, new, next_one)
          | inr e ↦
              let before : mem v visited ≡ true = ground (arith, a, e) in
              ground (arith, there, new, s.swept v w before b)
        ];
    missed = ground (arith, s.missed, other);
  }

  skip-IsExhausted :
      (current : String) (queue visited : List String)
      → mem current visited ≡ true
      → IsExhausted visited queue
      → IsExhausted visited (current ∷ queue)
  unfolding mem
  skip-IsExhausted current queue visited m x = record {
    within = x.within;
    has_visited = x.has_visited;
    has_queue = λ v a. elim (Bool-cases (current == v)) [
      | inl e ↦ subst (λ k. x.within k ≡ true) ((eq_iff current v).0 e) (x.has_visited current m)
      | inr e ↦ x.has_queue v (ground (arith, a, e))
    ];
    has_successors = x.has_successors;
    no_target = x.no_target;
  }

  expand-IsExhausted :
      (current : String) (queue visited : List String)
      → IsExhausted
          (current ∷ visited)
          (queue ++ unvisited (current ∷ visited) (forward edges current))
      → IsExhausted visited (current ∷ queue)
  unfolding mem
  expand-IsExhausted current queue visited x = record {
    within = x.within;
    has_visited = λ v m. x.has_visited v (ground (arith, m));
    has_queue = λ v a. elim (Bool-cases (current == v)) [
      | inl e ↦ x.has_visited v (ground (arith, e))
      | inr e ↦ x.has_queue v (
          ground (
            arith,
            a,
            e,
            mem-append v queue (unvisited (current ∷ visited) (forward edges current)),
          ))
    ];
    has_successors = x.has_successors;
    no_target = x.no_target;
  }

  reach_from_total :
      (fuel : ℕ) (queue visited : List String)
      → length queue + pending_edges edges visited < fuel
      → IsSwept visited queue
      → (r : Bool) × (reach_from fuel edges target queue visited ≡ some r)
        × (r ≡ false → IsExhausted visited queue)
  unfolding reach_from mem
  reach_from_total zero queue visited h s = absurd (omega arith)
  reach_from_total (suc fuel) [] visited h s = (
    false,
    refl,
    λ e. record {
      within = λ v. mem v visited;
      has_visited = λ v m. m;
      has_queue = λ v m. absurd (cc);
      has_successors = λ v w m f. ground (arith, s.swept v w m f);
      no_target = s.missed;
    },
  )
  reach_from_total (suc fuel) (current ∷ queue) visited h s =
      elim (Bool-cases (current == target)) [
        | inl e ↦ rw e ((true, refl, λ q. absurd (cc)))
        | inr e ↦ rw e (elim (Bool-cases (mem current visited)) [
          | inl m ↦
              let (r, same, left) =
                reach_from_total fuel queue visited (omega arith)
                  (skip-IsSwept current queue visited m s) in
              rw m ((r, same, λ q. skip-IsExhausted current queue visited m (left q)))
          | inr m ↦
              let more = unvisited (current ∷ visited) (forward edges current) in
              let (r, same, left) =
                reach_from_total fuel (queue ++ more) (current ∷ visited)
                  (omega (
                    arith,
                    length-append queue more,
                    length-unvisited (current ∷ visited) (forward edges current),
                    pending_edges-visit edges current visited m,
                  ))
                  (expand-IsSwept current queue visited e s) in
              rw m ((r, same, λ q. expand-IsExhausted current queue visited (left q)))
        ])
      ]

-- With more fuel than edges and one the search answers, and it answers no only if the target is neither the
-- origin nor reached from it.
pub would_reach_total :
    (fuel : ℕ) (edges : List DependencyEdge) (target origin : String)
    → length edges + 1 < fuel
    → (r : Bool) × (reach_from fuel edges target (origin ∷ []) [] ≡ some r)
      × (r ≡ false → Reaches (forward edges) origin target → ⊥)
unfolding mem
would_reach_total fuel edges target origin h =
    let (r, same, left) =
      reach_from_total edges target fuel (origin ∷ []) []
        (omega (arith, h, pending_edges-le edges []))
        (record { swept = λ v w a b. absurd (cc); missed = refl }) in
    (
      r,
      same,
      λ q reach.
          let x = left q in
          Reaches-closed (forward edges) x.within target
            (λ v w a b.
              let inside = x.has_successors v w a b in
              (
                inside,
                λ e.
                    let here : x.within target ≡ true = subst (λ k. x.within k ≡ true) e inside in
                    ground (arith, here, x.no_target),
              ))
            reach (x.has_queue origin (ground (arith, eq_iff origin origin))) refl,
    )
