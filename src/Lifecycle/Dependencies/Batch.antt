-- ===== src/Lifecycle/Dependencies/Batch.antt =====
-- `run_dependencies_batch` always answers, keeps the graph acyclic, and reports true cycles only.
use specsmither.Base.Dict.{keys}
use mathlib.Core.List.{append_assoc, append-nil}
use specsmither.Base.{
  and_then, length, All, ℕ, ◌+◌, String, ◌≡◌, refl, sym, ap, ◌∙◌, ◌≢◌, inl, inr, true, ◌||◌, Option,
  none, some, List, [], ◌∷◌, ◌++◌, arith, eq_iff, Bool-cases, false, map,
}
use mathlib.Core.Path.{subst}
use specsmither.Base.Sets.{mem}
use specsmither.Base.Graph.{Graph, IsAcyclic, IsExtended, IsAcyclic-extended, Reaches}
use specsmither.Lifecycle.Dependencies.{
  SpecDependencyEdge, DetectedCycle, BatchValidationResult, successors, dedup_intra,
  dedup_persisted, Progress, settle, check_cycles, batch_result, run_dependencies_batch, find_path,
  is_empty, edge_key, batch_ok, batch_cycle,
}
use specsmither.Lifecycle.Dependencies.Search.{find_path_total}
use specsmither.Lifecycle.Dependencies.Trails.{IsTrail, IsTrail-mono, find_path_sound}

successors-append :
    (w v : String) (es fs : List SpecDependencyEdge)
    → mem w (successors (es ++ fs) v) ≡ (mem w (successors es v) || mem w (successors fs v))
unfolding successors mem
successors-append w v [] fs = refl
successors-append w v (e ∷ es) fs = ground (arith, successors-append w v es fs)

pub successors-IsExtended :
    (es : List SpecDependencyEdge) (e : SpecDependencyEdge)
    → IsExtended (successors es) (successors (es ++ e ∷ [])) e.from_ticket_id e.to_ticket_id
unfolding successors mem
successors-IsExtended es e = record {
  added = ground (
    arith,
    successors-append e.to_ticket_id e.from_ticket_id es (e ∷ []),
    eq_iff e.from_ticket_id e.from_ticket_id,
    eq_iff e.to_ticket_id e.to_ticket_id,
  );
  old = λ v w m. ground (
    arith,
    successors-append w v es (e ∷ []),
    eq_iff e.from_ticket_id v,
    eq_iff e.to_ticket_id w,
    eq_iff w e.to_ticket_id,
  );
}

-- No edge leads from a ticket to itself.
abbrev pub HasNoLoop : List SpecDependencyEdge → Type 0
HasNoLoop es = All (λ e. e.from_ticket_id ≢ e.to_ticket_id) es

-- The path of a reported cycle starts with the new edge and comes back to where that starts.
abbrev pub IsCycle : Graph → DetectedCycle → Type 0
IsCycle g c =
    (back : List SpecDependencyEdge) × (c.cycle_path ≡ c.new_edge ∷ back)
    × IsTrail g c.new_edge.from_ticket_id c.cycle_path c.new_edge.from_ticket_id

All-append {ℓ κ} :
    {A : Type ℓ} (P : A → Type κ) (xs ys : List A) → All P xs → All P ys → All P (xs ++ ys)
All-append P [] ys h k = k
All-append P (x ∷ xs) ys (h, r) k = (h, All-append P xs ys r k)

module _ (existing whole : List SpecDependencyEdge) where
  -- What holds of the progress: only survivors were added, no cycle arose, the cycles reported are true.
  record IsClean (p : Progress) : Type 0 where
    joined : p.graph ≡ existing ++ p.to_persist
    acyclic : IsAcyclic (successors p.graph)
    within :
        (v w : String) → mem w (successors p.graph v) ≡ true → mem w (successors whole v) ≡ true
    true_cycles : All (IsCycle (successors whole)) p.cycles

  settle-IsClean :
      (p : Progress) (e : SpecDependencyEdge) (back : Option (List SpecDependencyEdge)) (fuel : ℕ)
      → IsClean p
      → e.from_ticket_id ≢ e.to_ticket_id
      → mem e.to_ticket_id (successors whole e.from_ticket_id) ≡ true
      → find_path fuel e.to_ticket_id e.from_ticket_id p.graph ≡ some back
      → (back ≡ none → Reaches (successors p.graph) e.to_ticket_id e.from_ticket_id → ⊥)
      → IsClean (settle p e back)
  unfolding settle
  settle-IsClean p e (some back) fuel h apart member found unreached = record {
    joined = h.joined;
    acyclic = h.acyclic;
    within = h.within;
    true_cycles =
        All-append (IsCycle (successors whole)) p.cycles
          (record { new_edge = e; cycle_path = e ∷ back } ∷ []) h.true_cycles
          (
            (
              back,
              refl,
              (
                refl,
                member,
                IsTrail-mono (successors p.graph) (successors whole) h.within e.to_ticket_id
                    e.from_ticket_id back
                    (find_path_sound fuel e.to_ticket_id e.from_ticket_id p.graph back found),
              ),
            ),
            tt,
          );
  }
  settle-IsClean p e none fuel h apart member found unreached = record {
    joined = simp (h.joined, append_assoc);
    acyclic = IsAcyclic-extended (successors-IsExtended p.graph e) h.acyclic apart (unreached refl);
    within = λ v w m. elim ((successors-IsExtended p.graph e).old v w m) [
      | inl o ↦ h.within v w o
      | inr (a, b) ↦
          subst (λ k. mem w (successors whole k) ≡ true) (sym a)
            (subst (λ k. mem k (successors whole e.from_ticket_id) ≡ true) (sym b) member)
    ];
    true_cycles = h.true_cycles;
  }

  check_cycles-IsClean :
      (p : Progress) (es : List SpecDependencyEdge)
      → IsClean p
      → HasNoLoop es
      → All (λ e. mem e.to_ticket_id (successors whole e.from_ticket_id) ≡ true) es
      → (q : Progress) × (check_cycles p es ≡ some q) × IsClean q
  unfolding check_cycles
  check_cycles-IsClean p [] h apart member = (p, refl, h)
  check_cycles-IsClean p (e ∷ es) h (a, apart) (m, member) =
      let (back, found, unreached) =
        find_path_total (length p.graph + 2) e.to_ticket_id e.from_ticket_id p.graph
          (omega arith) in
      let (q, same, clean) =
        check_cycles-IsClean (settle p e back) es
          (settle-IsClean p e back (length p.graph + 2) h a m found unreached) apart member in
      (q, ap (λ o. and_then o (λ b. check_cycles (settle p e b) es)) found ∙ same, clean)

-- What the two deduplications keep are edges of their input.
pub All-dedup_intra {κ} :
    (P : SpecDependencyEdge → Type κ) (seen : List String) (es : List SpecDependencyEdge)
    → All P es
    → All P (dedup_intra seen es).0
unfolding dedup_intra
All-dedup_intra P seen [] h = tt
All-dedup_intra P seen (e ∷ es) (h, r) = elim (Bool-cases (mem (edge_key e) seen)) [
  | inl m ↦ rw m (All-dedup_intra P seen es r)
  | inr m ↦ rw m ((h, All-dedup_intra P (edge_key e ∷ seen) es r))
]

pub All-dedup_persisted {κ} :
    (P : SpecDependencyEdge → Type κ) (keys : List String) (es : List SpecDependencyEdge)
    → All P es
    → All P (dedup_persisted keys es).0
unfolding dedup_persisted
All-dedup_persisted P keys [] h = tt
All-dedup_persisted P keys (e ∷ es) (h, r) = elim (Bool-cases (mem (edge_key e) keys)) [
  | inl m ↦ rw m (All-dedup_persisted P keys es r)
  | inr m ↦ rw m ((h, All-dedup_persisted P keys es r))
]

All-successors :
    (pre es : List SpecDependencyEdge)
    → All (λ e. mem e.to_ticket_id (successors (pre ++ es) e.from_ticket_id) ≡ true) es
unfolding successors mem
All-successors pre [] = tt
All-successors pre (e ∷ es) = (
  ground (
    arith,
    successors-append e.to_ticket_id e.from_ticket_id pre (e ∷ es),
    eq_iff e.from_ticket_id e.from_ticket_id,
    eq_iff e.to_ticket_id e.to_ticket_id,
  ),
  subst (λ k. All (λ f. mem f.to_ticket_id (successors k f.from_ticket_id) ≡ true) es)
      (append_assoc pre (e ∷ []) es) (All-successors (pre ++ e ∷ []) es),
)

-- What a batch answers: survivors that leave the graph acyclic, or true cycles, at least one.
abbrev pub IsAnswer :
    List SpecDependencyEdge → List SpecDependencyEdge → BatchValidationResult → Type 0
IsAnswer incoming existing (batch_ok to_persist _ _) =
    IsAcyclic (successors (existing ++ to_persist))
IsAnswer incoming existing (batch_cycle cycles _ _) =
    (is_empty cycles ≡ false) × All (IsCycle (successors (existing ++ incoming))) cycles

batch_result-IsAnswer :
    (incoming existing intra persisted : List SpecDependencyEdge) (p : Progress)
    → IsClean existing (existing ++ incoming) p
    → IsAnswer incoming existing (batch_result intra persisted p)
unfolding batch_result
batch_result-IsAnswer incoming existing intra persisted p h =
    elim (Bool-cases (is_empty p.cycles)) [
      | inl e ↦ rw e (subst (λ k. IsAcyclic (successors k)) h.joined h.acyclic)
      | inr e ↦ rw e ((e, h.true_cycles))
    ]

-- On an acyclic graph, and with no edge from a ticket to itself, a batch always gets an answer: either
-- the graph with the survivors added is acyclic, or at least one cycle is reported, and each cycle reported
-- is a closed walk over persisted and incoming edges that starts with the edge it is reported for.
pub run_dependencies_batch-IsAcyclic :
    (incoming existing : List SpecDependencyEdge)
    → HasNoLoop incoming
    → IsAcyclic (successors existing)
    → (r : BatchValidationResult) × (run_dependencies_batch incoming existing ≡ some r)
      × IsAnswer incoming existing r
unfolding run_dependencies_batch
run_dependencies_batch-IsAcyclic incoming existing apart acyclic =
    let intra = dedup_intra [] incoming in
    let candidates = dedup_persisted (map edge_key existing) intra.0 in
    let start_progress : Progress = record { graph = existing; cycles = []; to_persist = [] } in
    let start_clean : IsClean existing (existing ++ incoming) start_progress = record {
      joined = sym (append-nil existing);
      acyclic = acyclic;
      within = λ v w m. ground (arith, successors-append w v existing incoming);
      true_cycles = tt;
    } in
    let kept : (P : SpecDependencyEdge → Type 0) → All P incoming → All P candidates.0 = λ P h.
      All-dedup_persisted P (map edge_key existing) intra.0 (All-dedup_intra P [] incoming h) in
    let (q, same, clean) =
      check_cycles-IsClean existing (existing ++ incoming) start_progress candidates.0 start_clean
        (kept (λ e. e.from_ticket_id ≢ e.to_ticket_id) apart)
        (kept (λ e. mem e.to_ticket_id (successors (existing ++ incoming) e.from_ticket_id) ≡ true)
          (All-successors existing incoming)) in
    (
      batch_result intra.1 candidates.1 q,
      ap (λ o. and_then o (λ p. some (batch_result intra.1 candidates.1 p))) same,
      batch_result-IsAnswer incoming existing intra.1 candidates.1 q clean,
    )
