-- ===== src/Rollups/Counts/Examples.antt =====
-- The counts of two tickets in one epic and one outside it.
use native.Mathlib.Nat.{div-eq_of_lt, mul-add-div, div-lt_iff_lt-mul}
use specsmither.Rollups.Counts.Epics.{
  derive_epic_status, progress_pct, SpecCountsView, derive_epic_counts, derive_project_counts,
  Floats,
}
use specsmither.Rollups.Counts.Statuses.{
  IsFloats, derive_epic_counts-status, in_spec_buckets, derive_project_counts-buckets, has_status,
}
use specsmither.Domain.Enums.{EpicStatus, SpecStatus, draft, in_review, todo}
use specsmither.Base.Text.{◌==◌}
use specsmither.Rollups.Counts.Dependencies.{
  count_edges, within_epic, derive_dependency_counts-counted,
}
use specsmither.Rollups.Counts.{DependencyCountResult, derive_dependency_counts}
use specsmither.Dag.Types.{TicketNode, DepEdge}
use specsmither.Base.{
  length, all, String, ◌≡◌, refl, Option, none, some, List, [], ◌∷◌, ℕ, suc, ◌+◌, ◌*◌, ◌/◌, arith,
  any, ◌≤◌, ◌<◌, ap, ◌∙◌, ◌≢◌, true, false,
}
use specsmither.Base.Dict.{Dict, get_or}

abbrev row : String → String → TicketNode
row id status = record {
  id = id;
  status = status;
  estimated_minutes = some 30;
  epic_id = none;
  epic_number = none;
  ticket_number = none;
  title = none;
}

abbrev edge : String → String → DepEdge
edge a b = record { ticket_id = a; depends_on_id = b; type = "requires" }

abbrev edges : List DepEdge
edges = edge "b" "a" ∷ edge "c" "a" ∷ []

abbrev epics : Dict (Option String)
epics = ("a", some "e") ∷ ("b", some "e") ∷ ("c", none) ∷ []

derive_dependency_counts-counted_example :
    (get_or (DependencyCountResult.ticket_outgoing (derive_dependency_counts edges epics)) "e" 0
      ≡ count_edges (λ e. e.ticket_id == "e") edges)
    × (get_or (DependencyCountResult.ticket_incoming (derive_dependency_counts edges epics)) "e" 0
        ≡ count_edges (λ e. e.depends_on_id == "e") edges)
    × (get_or (DependencyCountResult.epic (derive_dependency_counts edges epics)) "e" 0
        ≡ count_edges (within_epic epics "e") edges)
derive_dependency_counts-counted_example = derive_dependency_counts-counted epics "e" edges

-- Numbers in thousandths, rounded down.
thousandths : Floats ℕ
thousandths = record {
  divide = λ a b. a * 1000 / b;
  times = λ x y. x * y / 1000;
  plus = λ x y. x + y;
  floor = λ x. x / 1000;
  hundred = 100000;
  half = 500;
}

-- Rounding makes 199 of 200 the whole.
near_full : progress_pct thousandths 199 200 ≡ 100
unfolding progress_pct thousandths
near_full = refl

epic_nearly_done :
    derive_epic_status 200 199 0 (progress_pct thousandths 199 200) ≡ EpicStatus.completed
unfolding derive_epic_status progress_pct thousandths
epic_nearly_done = refl

thousandths-IsFloats : IsFloats thousandths
unfolding thousandths
thousandths-IsFloats = record {
  LessOrEqual = λ x y. x ≤ y;
  zero_float = 0;
  one_float = 1000;
  divide_none = λ b. div-eq_of_lt (omega arith);
  divide_same = λ b.
      ap (λ k. k / suc b) {x = suc b * 1000} {y = suc b * 1000 + 0} (omega arith)
      ∙ mul-add-div (omega arith) 1000 0
      ∙ ap (λ k. 1000 + k) (div-eq_of_lt (omega arith));
  divide_le = λ a b h.
      let below : a * 1000 / suc b < 1001 =
        (div-lt_iff_lt-mul {k = suc b} {x = a * 1000} {y = 1001} (omega arith)).1
          (omega (arith, h)) in
      omega (arith, below);
  times_zero = refl;
  times_one = refl;
  times_mono = λ x y h. omega (arith, h);
  plus_mono = λ x y h. omega (arith, h);
  floor_mono = λ x y h. omega (arith, h);
  floor_half = refl;
  floor_hundred = refl;
}

abbrev crew : List TicketNode
crew = row "a" "done" ∷ row "b" "active" ∷ []

derive_epic_counts-status_example :
    (0 < length crew
      → all (has_status "done") crew ≡ true
      → (derive_epic_counts thousandths crew).status ≡ EpicStatus.completed)
    × (any (has_status "done") crew ≡ false
        → any (has_status "active") crew ≡ false
        → (derive_epic_counts thousandths crew).status ≡ todo)
    × (any (has_status "active") crew ≡ true → (derive_epic_counts thousandths crew).status ≢ todo)
    × ((derive_epic_counts thousandths crew).progress ≤ 100)
derive_epic_counts-status_example = derive_epic_counts-status thousandths thousandths-IsFloats crew

abbrev view : SpecStatus → SpecCountsView
view status = record {
  status = status;
  epic_count = 1;
  completed_epic_count = 0;
  ticket_count = 2;
  completed_ticket_count = 1;
}

derive_project_counts-buckets_example :
    (in_spec_buckets (derive_project_counts (view in_review ∷ view draft ∷ []))
      ≡ length (view in_review ∷ view draft ∷ []))
    × ((derive_project_counts (view in_review ∷ view draft ∷ [])).spec_count
        ≡ length (view in_review ∷ view draft ∷ []))
derive_project_counts-buckets_example =
    derive_project_counts-buckets (view in_review ∷ view draft ∷ [])
