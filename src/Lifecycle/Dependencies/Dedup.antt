-- ===== src/Lifecycle/Dependencies/Dedup.antt =====
-- The two deduplications of `run_dependencies_batch`: which edges are kept, and how many are dropped.
use specsmither.Lifecycle.Dependencies.Search.{is_empty-append}
use mathlib.Core.List.{append-nil, append_assoc}
use mathlib.Core.Path.{subst}
use specsmither.Base.Dict.{keys}
use specsmither.Base.{
  Bool-cases, Option-cases, length, ◌+◌, String, ◌≡◌, refl, sym, ap, ◌∙◌, inl, inr, true, false,
  not, ◌&&◌, none, some, List, [], ◌∷◌, ◌++◌, map, arith, eq_iff, ◌||◌,
}
use specsmither.Base.Sets.{mem, IsDistinct}
use specsmither.Lifecycle.Dependencies.{
  SpecDependencyEdge, dedup_intra, dedup_persisted, Progress, settle, check_cycles, batch_result,
  run_dependencies_batch, find_path, is_empty, edge_key, batch_ok,
}

dedup_intra-keys :
    (k : String) (seen : List String) (es : List SpecDependencyEdge)
    → mem k (map edge_key (dedup_intra seen es).0) ≡ (mem k (map edge_key es) && not (mem k seen))
unfolding dedup_intra mem
dedup_intra-keys k seen [] = refl
dedup_intra-keys k seen (e ∷ es) = ground (
  arith,
  dedup_intra-keys k seen es,
  dedup_intra-keys k (edge_key e ∷ seen) es,
  eq_iff (edge_key e) k,
  ap (λ q. mem q seen) {x = edge_key e} {y = k},
)

dedup_intra-IsDistinct :
    (seen : List String) (es : List SpecDependencyEdge)
    → IsDistinct (map edge_key (dedup_intra seen es).0)
unfolding dedup_intra mem
dedup_intra-IsDistinct seen [] = tt
dedup_intra-IsDistinct seen (e ∷ es) = elim (Bool-cases (mem (edge_key e) seen)) [
  | inl m ↦ rw m (dedup_intra-IsDistinct seen es)
  | inr m ↦ rw m (
      (
        ground (
          arith,
          dedup_intra-keys (edge_key e) (edge_key e ∷ seen) es,
          eq_iff (edge_key e) (edge_key e),
        ),
        dedup_intra-IsDistinct (edge_key e ∷ seen) es,
      ))
]

dedup_intra-length :
    (seen : List String) (es : List SpecDependencyEdge)
    → length (dedup_intra seen es).0 + length (dedup_intra seen es).1 ≡ length es
unfolding dedup_intra
dedup_intra-length seen [] = omega arith
dedup_intra-length seen (e ∷ es) =
    ground (arith, dedup_intra-length seen es, dedup_intra-length (edge_key e ∷ seen) es)

dedup_persisted-keys :
    (k : String) (keys : List String) (es : List SpecDependencyEdge)
    → mem k (map edge_key (dedup_persisted keys es).0)
      ≡ (mem k (map edge_key es) && not (mem k keys))
unfolding dedup_persisted mem
dedup_persisted-keys k keys [] = refl
dedup_persisted-keys k keys (e ∷ es) = ground (
  arith,
  dedup_persisted-keys k keys es,
  eq_iff (edge_key e) k,
  ap (λ q. mem q keys) {x = edge_key e} {y = k},
)

dedup_persisted-IsDistinct :
    (keys : List String) (es : List SpecDependencyEdge)
    → IsDistinct (map edge_key es)
    → IsDistinct (map edge_key (dedup_persisted keys es).0)
unfolding dedup_persisted mem
dedup_persisted-IsDistinct keys [] h = tt
dedup_persisted-IsDistinct keys (e ∷ es) (h, r) = elim (Bool-cases (mem (edge_key e) keys)) [
  | inl m ↦ rw m (dedup_persisted-IsDistinct keys es r)
  | inr m ↦ rw m (
      (
        ground (arith, dedup_persisted-keys (edge_key e) keys es),
        dedup_persisted-IsDistinct keys es r,
      ))
]

dedup_persisted-length :
    (keys : List String) (es : List SpecDependencyEdge)
    → length (dedup_persisted keys es).0 + length (dedup_persisted keys es).1 ≡ length es
unfolding dedup_persisted
dedup_persisted-length keys [] = omega arith
dedup_persisted-length keys (e ∷ es) = ground (arith, dedup_persisted-length keys es)

-- Rounds that end with no cycle had none before, and kept every edge.
check_cycles-survivors :
    (p q : Progress) (es : List SpecDependencyEdge)
    → check_cycles p es ≡ some q
    → is_empty q.cycles ≡ true
    → (is_empty p.cycles ≡ true) × (q.to_persist ≡ p.to_persist ++ es)
unfolding check_cycles settle is_empty
check_cycles-survivors p q [] e h =
    let same : p ≡ q = ground (arith, e) in
    (subst (λ k. is_empty k.cycles ≡ true) (sym same) h, rw same (sym (append-nil q.to_persist)))
check_cycles-survivors p q (x ∷ es) e h =
    elim (Option-cases (find_path (length p.graph + 2) x.to_ticket_id x.from_ticket_id p.graph)) [
      | inl f ↦ absurd (ground (arith, f, e))
      | inr (none, f) ↦
          let (a, b) = check_cycles-survivors (settle p x none) q es (ground (arith, f, e)) h in
          (a, b ∙ append_assoc p.to_persist (x ∷ []) es)
      | inr (some back, f) ↦
          let (a, b) =
            check_cycles-survivors (settle p x (some back)) q es (ground (arith, f, e)) h in
          absurd (
            ground
              (arith, a, is_empty-append p.cycles (record { new_edge = x; cycle_path = x ∷ back })))
    ]

batch_result-ok :
    (ps intra persisted di dp : List SpecDependencyEdge) (p : Progress)
    → batch_result intra persisted p ≡ batch_ok ps di dp
    → (is_empty p.cycles ≡ true) × (p.to_persist ≡ ps) × (intra ≡ di) × (persisted ≡ dp)
unfolding batch_result
batch_result-ok ps intra persisted di dp p h = elim (Bool-cases (is_empty p.cycles)) [
  | inl e ↦ (e, ground (arith, e, h), ground (arith, e, h), ground (arith, e, h))
  | inr e ↦ absurd (ground (arith, e, h))
]

-- A batch that reports no cycle loses nothing and repeats nothing: no key stands twice among the survivors, the
-- keys that are persisted or survive are the keys that were persisted or came in, no survivor has a persisted
-- key, and each incoming edge is counted as a survivor, a repeat within the batch, or a repeat of a persisted
-- edge.
pub run_dependencies_batch-keys :
    (incoming existing ps di dp : List SpecDependencyEdge) (k : String)
    → run_dependencies_batch incoming existing ≡ some (batch_ok ps di dp)
    → IsDistinct (map edge_key ps)
      × ((mem k (map edge_key existing) || mem k (map edge_key ps))
          ≡ (mem k (map edge_key existing) || mem k (map edge_key incoming)))
      × (mem k (map edge_key existing) && mem k (map edge_key ps) ≡ false)
      × (length ps + length di + length dp ≡ length incoming)
unfolding run_dependencies_batch mem
run_dependencies_batch-keys incoming existing ps di dp k h =
    let intra = dedup_intra [] incoming in
    let keys = map edge_key existing in
    let candidates = dedup_persisted keys intra.0 in
    let begin : Progress = record { graph = existing; cycles = []; to_persist = [] } in
    elim (Option-cases (check_cycles begin candidates.0)) [
      | inl f ↦ absurd (ground (arith, f, h))
      | inr (q, f) ↦
          let (clear, b, c, d) =
            batch_result-ok ps intra.1 candidates.1 di dp q (ground (arith, f, h)) in
          let (_, survivors) = check_cycles-survivors begin q candidates.0 f clear in
          let same : candidates.0 ≡ ps = sym survivors ∙ b in
          (
            subst (λ es. IsDistinct (map edge_key es)) same
                (dedup_persisted-IsDistinct keys intra.0 (dedup_intra-IsDistinct [] incoming)),
            subst
                (λ es.
                  (mem k keys || mem k (map edge_key es))
                  ≡ (mem k keys || mem k (map edge_key incoming)))
                same
                (ground
                  (arith, dedup_persisted-keys k keys intra.0, dedup_intra-keys k [] incoming)),
            subst (λ es. mem k keys && mem k (map edge_key es) ≡ false) same
                (ground (arith, dedup_persisted-keys k keys intra.0)),
            omega (
              arith,
              ap length same,
              ap length c,
              ap length d,
              dedup_intra-length [] incoming,
              dedup_persisted-length keys intra.0,
            ),
          )
    ]

-- The survivors are what the deduplications leave.
pub run_dependencies_batch-survivors :
    (incoming existing ps di dp : List SpecDependencyEdge)
    → run_dependencies_batch incoming existing ≡ some (batch_ok ps di dp)
    → (dedup_persisted (map edge_key existing) (dedup_intra [] incoming).0).0 ≡ ps
unfolding run_dependencies_batch
run_dependencies_batch-survivors incoming existing ps di dp h =
    let intra = dedup_intra [] incoming in
    let candidates = dedup_persisted (map edge_key existing) intra.0 in
    let begin : Progress = record { graph = existing; cycles = []; to_persist = [] } in
    elim (Option-cases (check_cycles begin candidates.0)) [
      | inl f ↦ absurd (ground (arith, f, h))
      | inr (q, f) ↦
          let (clear, b, _, _) =
            batch_result-ok ps intra.1 candidates.1 di dp q (ground (arith, f, h)) in
          let (_, survivors) = check_cycles-survivors begin q candidates.0 f clear in
          sym survivors ∙ b
    ]
