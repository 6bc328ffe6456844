-- ===== src/Rollups/Recompute.antt =====
-- rollups/recompute.py: the status cascade over all tickets of a specification, and the columns of
-- each ticket that follow from its status.
pub mod Derived
pub mod Passes
pub mod Fixpoint
pub mod Columns
pub mod Idempotence
pub mod Reasons
mod Examples
use mathlib.Core.Option
use specsmither.Base.Text.{◌==◌}
use specsmither.Dag.Cascade.{find_dependencies, has_status}
use specsmither.Dag.StatusCalculator.{should_recalculate, calculate_ticket_status}
use specsmither.Base.Decimal.{concat, join, decimal}
use specsmither.Base.{
  nat_eq, if◌then◌else◌, length, filter, ℕ, zero, suc, String, Bool, true, false, not, Option, none,
  some, List, [], ◌∷◌, map,
}
use specsmither.Base.Dict.{Dict, get, put, get_or}
use specsmither.Dag.Types.{DepEdge}

-- The columns of a `tickets` row that the recompute reads or writes here.
pub record TicketRow : Type 0 where
  pub id : String
  pub status : String
  pub title : String
  pub progress : ℕ
  pub block_reason : Option String

-- `{t.id: t.status for t in tickets}`, from the entries made so far
unfoldable pub states_from : Dict String → List TicketRow → Dict String
unfolding put
states_from states [] = states
states_from states (t ∷ tickets) = states_from (put states t.id t.status) tickets

-- `calculate_ticket_status(current, [states.get(d, _UNKNOWN) for d in find_dependencies(edges, tid)])`
unfoldable pub new_status : List DepEdge → Dict String → String → String → String
unfolding get_or
new_status edges states tid current =
    calculate_ticket_status current (map (λ d. get_or states d "") (find_dependencies edges tid))

-- One turn of the `for` loop of `_cascade_to_fixpoint`, on (states, changed), from the status that
-- it looks up. Each id is a key of `states`, so the lookup does not raise.
unfoldable pub visit_status :
    List DepEdge → Dict String × Bool → String → Option String → Dict String × Bool
visit_status edges (states, changed) tid none = (states, changed)
visit_status edges (states, changed) tid (some current) =
    if not (should_recalculate current)
    then (states, changed)
    else if not (new_status edges states tid current == current)
    then (put states tid (new_status edges states tid current), true)
    else (states, changed)

unfoldable pub visit : List DepEdge → Dict String × Bool → String → Dict String × Bool
visit edges s tid = visit_status edges s tid (get s.0 tid)

-- One round of the `while` loop.
unfoldable pub cascade_pass : List DepEdge → List String → Dict String × Bool → Dict String × Bool
cascade_pass edges [] s = s
cascade_pass edges (tid ∷ ids) s = cascade_pass edges ids (visit edges s tid)

-- `while changed`; `none` means that the fuel ran out.
unfoldable pub cascade_loop : ℕ → List DepEdge → List String → Dict String → Option (Dict String)
cascade_loop zero edges ids states = none
cascade_loop (suc fuel) edges ids states =
    let s = cascade_pass edges ids (states, false) in
    let rest = cascade_loop fuel edges ids s.0 in if s.1 then rest else some s.0

unfoldable pub cascade_to_fixpoint : ℕ → List TicketRow → List DepEdge → Option (Dict String)
cascade_to_fixpoint fuel tickets edges =
    cascade_loop fuel edges (map (λ t. t.id) tickets) (states_from [] tickets)

-- `{t.id: t.title for t in tickets}`
unfoldable pub titles_from : Dict String → List TicketRow → Dict String
unfolding put
titles_from titles [] = titles
titles_from titles (t ∷ tickets) = titles_from (put titles t.id t.title) tickets

-- `title_by_id.get(b) or b`: an empty title is false.
unfoldable pub name_of : Dict String → String → String
unfolding get
name_of titles b = elim (get titles b) [ none ↦ b | some title ↦ if title == "" then b else title ]

unfoldable pub format_block_reason : List String → Dict String → String
unfolding join decimal concat name_of
format_block_reason blocker_ids title_by_id =
    let count = length blocker_ids in
    let noun = if nat_eq count 1 then "dependency" else "dependencies" in
    let names = join ", " (map (name_of title_by_id) blocker_ids) in
    concat ("Blocked by " ∷ decimal count ∷ " " ∷ noun ∷ ": " ∷ names ∷ [])

-- `[d for d in find_dependencies(dep_edges, ticket.id) if states.get(d) != _DONE]`
unfoldable pub blockers_of : Dict String → List DepEdge → String → List String
unfolding filter
blockers_of states edges id =
    filter (λ d. not (has_status states d "done")) (find_dependencies edges id)

-- The reason that is stored: `None` without a blocker.
unfoldable pub reason_for : List String → Dict String → Option String
unfolding format_block_reason
reason_for [] titles = none
reason_for (b ∷ bs) titles = some (format_block_reason (b ∷ bs) titles)

-- The body of step 2 of `_recompute_spec`, for one ticket and its final status.
unfoldable pub with_status :
    Dict String → List DepEdge → Dict String → String → TicketRow → TicketRow
unfolding reason_for blockers_of
with_status states edges titles final t = record t {
  status = final;
  progress = if final == "done" then 100 else 0;
  block_reason =
      if final == "pending" then reason_for (blockers_of states edges t.id) titles else none;
}

-- Its id is a key of `states`, so the lookup does not raise.
unfoldable pub apply_status : Dict String → List DepEdge → Dict String → TicketRow → TicketRow
unfolding with_status get_or
apply_status states edges titles t = with_status states edges titles (get_or states t.id t.status) t

-- Steps 1 and 2 of `_recompute_spec`.
unfoldable pub recompute_statuses : ℕ → List TicketRow → List DepEdge → Option (List TicketRow)
recompute_statuses fuel tickets edges =
    Option.map (λ states. map (apply_status states edges (titles_from [] tickets)) tickets)
      (cascade_to_fixpoint fuel tickets edges)
