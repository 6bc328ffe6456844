-- ===== src/Rollups/Recompute/Idempotence.antt =====
-- A second recompute of the same tickets and edges changes nothing.
use mathlib.Core.Path.{fun_ext, subst}
use specsmither.Base.{ℕ, suc, String, ◌≡◌, refl, sym, ap, ◌∙◌, inr, some, List, [], map}
use specsmither.Rollups.Recompute.Columns.{
  renew, renew_twice, titles-renew, states-renew, apply_status-same, map-fixed, All-statuses,
}
use specsmither.Rollups.Recompute.Fixpoint.{get-states_from, statuses_of, cascade_to_fixpoint_total}
use specsmither.Rollups.Recompute.Derived.{derived, derive}
use specsmither.Rollups.Recompute.Passes.{derive-partial}
use specsmither.Rollups.Recompute.{TicketRow, titles_from, apply_status, recompute_statuses}
use mathlib.Core.Option
use mathlib.Core.Option.{some-injective, IsSome}
use specsmither.Base.Dict.{Dict, get}
use specsmither.Dag.Types.{DepEdge}

module _ (tickets : List TicketRow) (edges : List DepEdge) (states : Dict String)
    (ends : (t : String) → get states t ≡ derive (statuses_of tickets) edges t) where
  abbrev titles : Dict String
  titles = titles_from [] tickets

  abbrev renewed : List TicketRow
  renewed = map (renew states edges titles) tickets

  statuses-renewed : (t : String) → get (statuses_of renewed) t ≡ get states t
  statuses-renewed t =
      states-renew states edges titles tickets [] t (All-statuses tickets edges states ends)
        (λ absent. sym (
          ends t
          ∙ unfold derive derived in rw (get-states_from [] tickets t absent) (unfold get in refl)))

  -- The second cascade ends with the statuses that the first one ended with.
  again :
      (second : Dict String)
      → ((t : String) → get second t ≡ derive (statuses_of renewed) edges t)
      → (t : String) → get second t ≡ get states t
  again second h t =
      h t
      ∙ derive-partial edges (statuses_of tickets) (statuses_of renewed)
          (λ a. inr (statuses-renewed a ∙ ends a)) t
      ∙ sym (ends t)

  rows-again :
      (second : Dict String)
      → ((t : String) → get second t ≡ derive (statuses_of renewed) edges t)
      → map (apply_status second edges (titles_from [] renewed)) renewed ≡ renewed
  rows-again second h = rw (titles-renew states edges titles tickets []) (
      ap (λ (f : TicketRow → TicketRow). map f renewed)
        (fun_ext λ r. apply_status-same second states edges titles r (again second h))
      ∙ map-fixed (renew states edges titles) tickets (renew_twice states edges titles))

abbrev pub rows_from : List TicketRow → List DepEdge → Dict String → List TicketRow
rows_from tickets edges states = map (apply_status states edges (titles_from [] tickets)) tickets

-- Recomputing the rows that a recompute has written, with the same edges, writes the same rows:
-- statuses, progress and block reasons.
pub recompute_statuses_twice :
    (fuel : ℕ) (tickets rows : List TicketRow) (edges : List DepEdge)
    → recompute_statuses (suc (suc fuel)) tickets edges ≡ some rows
    → recompute_statuses (suc (suc fuel)) rows edges ≡ some rows
unfolding recompute_statuses
recompute_statuses_twice fuel tickets rows edges h =
    let (states, ends, all_derived) = cascade_to_fixpoint_total fuel tickets edges in
    let made : renewed tickets edges states all_derived ≡ rows =
      some-injective _ _ (sym (ap (Option.map (rows_from tickets edges)) ends) ∙ h) in
    let (second, ends2, derived2) =
      cascade_to_fixpoint_total fuel (renewed tickets edges states all_derived) edges in
    subst (λ r. recompute_statuses (suc (suc fuel)) r edges ≡ some r) made
      (ap (Option.map (rows_from (renewed tickets edges states all_derived) edges)) ends2
        ∙ ap some (rows-again tickets edges states all_derived second derived2))
