-- ===== src/Lifecycle/Dependencies/Examples.antt =====
-- A chain of two dependencies, batches against it, and the theorems at these.
use specsmither.Lifecycle.Prechecks.{denied}
use mathlib.Core.Path.{subst}
use specsmither.Base.Text.{◌==◌}
use specsmither.Lifecycle.Dependencies.Paths.{find_path-Reaches, run_dependencies_batch-self_loop}
use specsmither.Lifecycle.Dependencies.Batch.{HasNoLoop, IsAnswer, run_dependencies_batch-IsAcyclic}
use specsmither.Lifecycle.Dependencies.Dedup.{run_dependencies_batch-keys}
use specsmither.Base.Sets.{mem, IsDistinct}
use specsmither.Base.{
  String, ◌≡◌, refl, some, List, [], ◌∷◌, if◌then◌else◌, is_some, ℕ, true, false, ◌&&◌, ◌||◌,
  Option, ◌++◌, map, arith, eq_iff, ◌≢◌,
}
use specsmither.Base.Graph.{Reaches, IsAcyclic, IsAcyclic-ranked}
use specsmither.Lifecycle.Dependencies.{
  SpecDependencyEdge, BatchValidationResult, successors, run_dependencies_batch,
  validate_dependencies_batch, find_path, batch_ok, edge_key,
}

abbrev edge : String → String → SpecDependencyEdge
edge a b = record { from_ticket_id = a; to_ticket_id = b }

abbrev chain : List SpecDependencyEdge
chain = edge "t1" "t2" ∷ edge "t2" "t3" ∷ []

abbrev batch : List SpecDependencyEdge
batch = edge "t1" "t3" ∷ edge "t1" "t2" ∷ edge "t1" "t3" ∷ []

abbrev closing : List SpecDependencyEdge
closing = edge "t3" "t1" ∷ []

batch_accepted :
    run_dependencies_batch batch chain
    ≡ some (batch_ok (edge "t1" "t3" ∷ []) (edge "t1" "t3" ∷ []) (edge "t1" "t2" ∷ []))
unfolding run_dependencies_batch
batch_accepted = refl

batch_denied : validate_dependencies_batch closing chain ≡ some (denied "cycle_detected")
unfolding validate_dependencies_batch
batch_denied = refl

batch_deduped : validate_dependencies_batch chain chain ≡ some (denied "batch_fully_deduped")
unfolding validate_dependencies_batch
batch_deduped = refl

rank : String → ℕ
rank t = if "t1" == t then 0 else if "t2" == t then 1 else 2

rank_t2 : (w : String) → "t2" == w ≡ true → rank w ≡ 1
unfolding rank
rank_t2 w e = subst (λ k. rank k ≡ 1) ((eq_iff "t2" w).0 e) refl

rank_t3 : (w : String) → "t3" == w ≡ true → rank w ≡ 2
unfolding rank
rank_t3 w e = subst (λ k. rank k ≡ 2) ((eq_iff "t3" w).0 e) refl

rank_t1 : (w : String) → "t1" == w ≡ true → rank w ≡ 0
unfolding rank
rank_t1 w e = ground (arith, e)

chain-IsAcyclic : IsAcyclic (successors chain)
unfolding successors mem
chain-IsAcyclic =
    IsAcyclic-ranked (successors chain) rank
      (λ v w m. ground (arith, m, rank_t1 v, rank_t2 v, rank_t2 w, rank_t3 w))

apart : (a b : String) → a == b ≡ false → a ≢ b
apart a b h p = ground (arith, h, p, eq_iff a b)

batch-HasNoLoop : HasNoLoop batch
batch-HasNoLoop = (apart "t1" "t3" refl, (apart "t1" "t2" refl, (apart "t1" "t3" refl, tt)))

run_dependencies_batch-IsAcyclic_example :
    (r : BatchValidationResult) × (run_dependencies_batch batch chain ≡ some r)
    × IsAnswer batch chain r
run_dependencies_batch-IsAcyclic_example =
    run_dependencies_batch-IsAcyclic batch chain batch-HasNoLoop chain-IsAcyclic

find_path-Reaches_example :
    (r : Option (List SpecDependencyEdge)) × (find_path 4 "t1" "t3" chain ≡ some r)
    × (is_some r ≡ true → Reaches (successors chain) "t1" "t3")
    × (Reaches (successors chain) "t1" "t3" → is_some r ≡ true)
find_path-Reaches_example = find_path-Reaches "t1" "t3" chain

run_dependencies_batch-self_loop_example :
    (run_dependencies_batch (edge "t2" "t2" ∷ []) chain
      ≡ some (batch_ok (edge "t2" "t2" ∷ []) [] []))
    × (IsAcyclic (successors (chain ++ edge "t2" "t2" ∷ [])) → ⊥)
unfolding mem edge_key
run_dependencies_batch-self_loop_example =
    run_dependencies_batch-self_loop (edge "t2" "t2") chain refl refl chain-IsAcyclic

run_dependencies_batch-keys_example :
    IsDistinct (map edge_key (edge "t1" "t3" ∷ []))
    × ((mem "t1 t3" (map edge_key chain) || mem "t1 t3" (map edge_key (edge "t1" "t3" ∷ [])))
        ≡ (mem "t1 t3" (map edge_key chain) || mem "t1 t3" (map edge_key batch)))
    × (mem "t1 t3" (map edge_key chain) && mem "t1 t3" (map edge_key (edge "t1" "t3" ∷ [])) ≡ false)
    × ◌≡◌ {A = ℕ} 3 3
run_dependencies_batch-keys_example =
    run_dependencies_batch-keys batch chain (edge "t1" "t3" ∷ []) (edge "t1" "t3" ∷ [])
      (edge "t1" "t2" ∷ []) "t1 t3" batch_accepted
