-- ===== src/Lifecycle/Projector/Batches.antt =====
-- A batch of dependencies that the pre-check accepts keeps the projected dependency graph acyclic.
use specsmither.Lifecycle.Projector.References.{entity_refs_exist}
use specsmither.Lifecycle.Projector.Union.{create_dependencies-union}
use specsmither.Lifecycle.Projector.Types.{Specification, create_dependencies}
use specsmither.Lifecycle.Projector.Guards.{accept}
use specsmither.Lifecycle.Projector.Flat.{flat_edges, spec_full_from_spec, Payload, edge_specs}
use specsmither.Lifecycle.Dependencies.Batch.{
  HasNoLoop, All-dedup_intra, All-dedup_persisted, IsAnswer, run_dependencies_batch-IsAcyclic,
}
use specsmither.Lifecycle.Dependencies.Dedup.{
  run_dependencies_batch-keys, run_dependencies_batch-survivors,
}
use specsmither.Lifecycle.Projector.{apply_mutation}
use specsmither.Lifecycle.Projector.Referrers.{edge_in, edge_in-append}
use specsmither.Base.{
  All, String, ◌≡◌, refl, true, List, [], ◌∷◌, arith, Bool-cases, ap, inl, inr, map, eq_iff, sym,
  ◌∙◌, ◌||◌, some, ◌++◌,
}
use mathlib.Core.Path.{ap₂, subst}
use specsmither.Base.Text.{◌==◌}
use specsmither.Base.Decimal.{concat}
use specsmither.Base.Sets.{mem}
use specsmither.Base.Graph.{Graph, Reaches, one, more, IsAcyclic}
use specsmither.Lifecycle.Dependencies.{
  SpecDependencyEdge, successors, edge_key, batch_ok, dedup_intra, run_dependencies_batch,
}
use specsmither.Base.Spaces.{is_spaceless, concat-space}

abbrev pub AreSpaceless : List SpecDependencyEdge → Type 0
AreSpaceless es =
    All (λ e. (is_spaceless e.from_ticket_id ≡ true) × (is_spaceless e.to_ticket_id ≡ true)) es

mem-successors :
    (v w : String) (es : List SpecDependencyEdge) → mem w (successors es v) ≡ edge_in v w es
unfolding successors edge_in mem
mem-successors v w [] = refl
mem-successors v w (e ∷ es) = ground (arith, mem-successors v w es)

Reaches-mono :
    (g h : Graph)
    → ((v w : String) → mem w (g v) ≡ true → mem w (h v) ≡ true)
    → {a c : String} → Reaches g a c
    → Reaches h a c
Reaches-mono g h grows {a} {c} (one m) = one (grows a c m)
Reaches-mono g h grows {a} {c} (more b m r) = more b (grows a b m) (Reaches-mono g h grows r)

edge_key-injective :
    (e f : SpecDependencyEdge)
    → is_spaceless e.from_ticket_id ≡ true
    → is_spaceless f.from_ticket_id ≡ true
    → edge_key e ≡ edge_key f
    → (e.from_ticket_id ≡ f.from_ticket_id) × (e.to_ticket_id ≡ f.to_ticket_id)
unfolding edge_key
edge_key-injective e f h k same =
    concat-space e.from_ticket_id f.from_ticket_id e.to_ticket_id f.to_ticket_id h k same

-- Where ids have no spaces, an edge whose key is listed is itself listed.
mem-edge_key :
    (e : SpecDependencyEdge) (es : List SpecDependencyEdge)
    → is_spaceless e.from_ticket_id ≡ true
    → AreSpaceless es
    → mem (edge_key e) (map edge_key es) ≡ true
    → edge_in e.from_ticket_id e.to_ticket_id es ≡ true
unfolding mem edge_in
mem-edge_key e [] h s m = absurd (cc)
mem-edge_key e (f ∷ es) h ((k, _), s) m = elim (Bool-cases (edge_key f == edge_key e)) [
  | inl q ↦
      let (a, b) = edge_key-injective f e k h ((eq_iff (edge_key f) (edge_key e)).0 q) in
      ground (
        arith,
        a,
        b,
        eq_iff f.from_ticket_id e.from_ticket_id,
        eq_iff f.to_ticket_id e.to_ticket_id,
      )
  | inr q ↦ ground (arith, q, m, mem-edge_key e es h s)
]

same_key :
    (e : SpecDependencyEdge) (v w : String)
    → e.from_ticket_id == v ≡ true
    → e.to_ticket_id == w ≡ true
    → edge_key e ≡ edge_key (record { from_ticket_id = v; to_ticket_id = w })
unfolding edge_key
same_key e v w h k =
    ap₂ (λ a b. concat (a ∷ " " ∷ b ∷ [])) ((eq_iff e.from_ticket_id v).0 h)
      ((eq_iff e.to_ticket_id w).0 k)

-- The key of a listed edge is listed.
edge_in-key :
    (v w : String) (es : List SpecDependencyEdge)
    → edge_in v w es ≡ true
    → mem (edge_key (record { from_ticket_id = v; to_ticket_id = w })) (map edge_key es) ≡ true
unfolding mem edge_in edge_key
edge_in-key v w [] h = absurd (cc)
edge_in-key v w (e ∷ es) h = ground (
  arith,
  h,
  edge_in-key v w es,
  eq_iff e.from_ticket_id v,
  eq_iff e.to_ticket_id w,
  eq_iff (edge_key e) (edge_key (record { from_ticket_id = v; to_ticket_id = w })),
  same_key e v w,
)

edge_in-spaceless :
    (v w : String) (es : List SpecDependencyEdge)
    → AreSpaceless es
    → edge_in v w es ≡ true
    → is_spaceless v ≡ true
unfolding edge_in
edge_in-spaceless v w [] s h = absurd (cc)
edge_in-spaceless v w (e ∷ es) ((k, _), s) h = ground (
  arith,
  h,
  k,
  edge_in-spaceless v w es s,
  eq_iff e.from_ticket_id v,
  ap is_spaceless {x = e.from_ticket_id} {y = v},
)

module _ (incoming existing ps di dp : List SpecDependencyEdge) where
  accepted-IsAcyclic :
      HasNoLoop incoming
      → IsAcyclic (successors existing)
      → run_dependencies_batch incoming existing ≡ some (batch_ok ps di dp)
      → IsAcyclic (successors (existing ++ ps))
  accepted-IsAcyclic apart acyclic h =
      let (r, same, answer) = run_dependencies_batch-IsAcyclic incoming existing apart acyclic in
      let found : r ≡ batch_ok ps di dp = ground (arith, same, h) in
      subst (λ k. IsAnswer incoming existing k) found answer

  survivors_spaceless :
      AreSpaceless incoming
      → run_dependencies_batch incoming existing ≡ some (batch_ok ps di dp)
      → AreSpaceless ps
  survivors_spaceless clean h =
      let P : SpecDependencyEdge → Type 0 =
        λ e. (is_spaceless e.from_ticket_id ≡ true) × (is_spaceless e.to_ticket_id ≡ true) in
      subst (λ es. All P es) (run_dependencies_batch-survivors incoming existing ps di dp h)
        (All-dedup_persisted P (map edge_key existing) (dedup_intra [] incoming).0
          (All-dedup_intra P [] incoming clean))

  -- An incoming edge is persisted already or survives.
  kept_somewhere :
      (v w : String)
      → AreSpaceless incoming
      → AreSpaceless existing
      → run_dependencies_batch incoming existing ≡ some (batch_ok ps di dp)
      → edge_in v w incoming ≡ true
      → edge_in v w (existing ++ ps) ≡ true
  kept_somewhere v w clean old h m =
      let e : SpecDependencyEdge = record { from_ticket_id = v; to_ticket_id = w } in
      let (_, all_keys, _, _) =
        run_dependencies_batch-keys incoming existing ps di dp (edge_key e) h in
      let listed : mem (edge_key e) (map edge_key incoming) ≡ true = edge_in-key v w incoming m in
      let first : is_spaceless v ≡ true = edge_in-spaceless v w incoming clean m in
      edge_in-append v w existing ps
      ∙ elim (Bool-cases (mem (edge_key e) (map edge_key existing))) [
        | inl a ↦ rw (mem-edge_key e existing first old a) refl
        | inr a ↦
            let there : mem (edge_key e) (map edge_key ps) ≡ true =
              ground (arith, a, all_keys, listed) in
            rw (mem-edge_key e ps first (survivors_spaceless clean h) there) (ground arith)
      ]

-- When the ids have no spaces, no edge of the batch leads from a ticket to itself, and the check of its tickets
-- and the check of its cycles both accept it, the batch leaves an acyclic dependency graph acyclic in the
-- projected specification, which has all the edges of the payload.
pub create_dependencies-IsAcyclic :
    (s : Specification) (p : Payload) (ps di dp : List SpecDependencyEdge)
    → AreSpaceless p.dependencies
    → AreSpaceless (flat_edges s.epics)
    → HasNoLoop p.dependencies
    → IsAcyclic (successors (flat_edges s.epics))
    → entity_refs_exist "create_dependencies" p (spec_full_from_spec s) ≡ accept
    → run_dependencies_batch p.dependencies (flat_edges s.epics) ≡ some (batch_ok ps di dp)
    → IsAcyclic (
        successors
          (flat_edges (apply_mutation s (create_dependencies (edge_specs p.dependencies))).epics))
create_dependencies-IsAcyclic s p ps di dp clean old apart acyclic refs h n r =
    let existing = flat_edges s.epics in
    let after =
      flat_edges (apply_mutation s (create_dependencies (edge_specs p.dependencies))).epics in
    accepted-IsAcyclic p.dependencies existing ps di dp apart acyclic h n (
      Reaches-mono (successors after) (successors (existing ++ ps))
        (λ v w m.
          let (union, _) = create_dependencies-union s p v w refs in
          let found : edge_in v w existing || edge_in v w p.dependencies ≡ true =
            sym union ∙ sym (mem-successors v w after) ∙ m in
          mem-successors v w (existing ++ ps) ∙ elim (Bool-cases (edge_in v w existing)) [
            | inl a ↦ edge_in-append v w existing ps ∙ rw a refl
            | inr a ↦
                kept_somewhere p.dependencies existing ps di dp v w clean old h
                  (ground (arith, a, found))
          ])
        r)
