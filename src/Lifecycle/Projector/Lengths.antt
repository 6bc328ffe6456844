-- ===== src/Lifecycle/Projector/Lengths.antt =====
-- How the changes of the projector move the numbers of epics and tickets.
use specsmither.Lifecycle.Projector.Deletion.{epics_without-absent}
use specsmither.Lifecycle.Projector.References.{epic_full_ids}
use specsmither.Lifecycle.Projector.Types.{Ticket, Epic, DependencyEdgeSpec}
use specsmither.Lifecycle.Projector.Guards.{reaches, find_epic, accept, create_ticket_bound}
use specsmither.Lifecycle.Projector.Flat.{ticket_refs, flat_epics}
use specsmither.Lifecycle.Projector.{
  id_or, change_epic, change_first, change_ticket, map_tickets, each_edge, epics_without,
  tickets_without, drop_ticket, with_ticket,
}
use specsmither.Base.{
  leb, Bool-cases, length, length-append, length-map, ℕ, suc, ◌+◌, ◌≤◌, String, ◌≡◌, refl, ap, ◌∙◌,
  inl, inr, Bool, true, false, ◌&&◌, Option, none, some, List, [], ◌∷◌, ◌++◌, arith, eq_iff,
}
use specsmither.Base.Text.{◌==◌}
use specsmither.Base.Sets.{mem, IsDistinct}
use mathlib.Core.Path.{subst}

unfoldable pub within_max : Option ℕ → ℕ → Bool
within_max none n = true
within_max (some bound) n = leb n bound

unfoldable pub within_min : Option ℕ → ℕ → Bool
within_min none n = true
within_min (some bound) n = leb bound n

unfoldable pub tickets_within : Option ℕ → List Epic → Bool
unfolding within_max
tickets_within bound [] = true
tickets_within bound (e ∷ es) = within_max bound (length e.tickets) && tickets_within bound es

pub length-flat_epics : (es : List Epic) → length (flat_epics es) ≡ length es
unfolding flat_epics
length-flat_epics [] = refl
length-flat_epics (e ∷ es) = ap suc (length-flat_epics es)

pub length-ticket_refs : (ts : List Ticket) → length (ticket_refs ts) ≡ length ts
unfolding ticket_refs
length-ticket_refs [] = refl
length-ticket_refs (t ∷ ts) = ap suc (length-ticket_refs ts)

pub length-change_epic :
    (k : String) (f : Epic → Epic) (es : List Epic) → length (change_epic k f es) ≡ length es
unfolding change_epic
length-change_epic k f [] = refl
length-change_epic k f (e ∷ es) = ground (arith, length-change_epic k f es)

pub length-change_ticket :
    (k : String) (f : Ticket → Ticket) (es : List Epic) → length (change_ticket k f es) ≡ length es
unfolding change_ticket
length-change_ticket k f [] = refl
length-change_ticket k f (e ∷ es) = ground (arith, length-change_ticket k f es)

pub length-change_first :
    (k : String) (f : Ticket → Ticket) (ts : List Ticket) → length (change_first k f ts) ≡ length ts
unfolding change_first
length-change_first k f [] = refl
length-change_first k f (t ∷ ts) = ground (arith, length-change_first k f ts)

pub length-map_tickets :
    (f : Ticket → Ticket) (es : List Epic) → length (map_tickets f es) ≡ length es
unfolding map_tickets
length-map_tickets f [] = refl
length-map_tickets f (e ∷ es) = ap suc (length-map_tickets f es)

pub length-drop_ticket : (k : String) (es : List Epic) → length (drop_ticket k es) ≡ length es
unfolding drop_ticket
length-drop_ticket k [] = refl
length-drop_ticket k (e ∷ es) = ap suc (length-drop_ticket k es)

pub length-epics_without-le :
    (x : String) (es : List Epic) → length (epics_without x es) ≤ length es
unfolding epics_without
length-epics_without-le x [] = omega arith
length-epics_without-le x (e ∷ es) = ground (arith, length-epics_without-le x es)

-- One epic goes at most, where ids are apart.
pub length-epics_without :
    (x : String) (es : List Epic)
    → IsDistinct (epic_full_ids (flat_epics es))
    → length es ≤ length (epics_without x es) + 1
unfolding epics_without epic_full_ids flat_epics
length-epics_without x [] d = omega arith
length-epics_without x (e ∷ es) (n, d) = elim (Bool-cases (e.id == x)) [
  | inl q ↦
      let gone : epics_without x es ≡ es =
        epics_without-absent x es
          (subst (λ k. mem k (epic_full_ids (flat_epics es)) ≡ false) ((eq_iff e.id x).0 q) n) in
      rw (q, gone) (omega arith)
  | inr q ↦ rw q (omega (arith, length-epics_without x es d))
]

pub length-tickets_without :
    (k : String) (ts : List Ticket) → length (tickets_without k ts) ≤ length ts
unfolding tickets_without
length-tickets_without k [] = omega arith
length-tickets_without k (t ∷ ts) = ground (arith, length-tickets_without k ts)

module _ (bound : Option ℕ) where
  pub within_max-le : (m n : ℕ) → m ≤ n → within_max bound n ≡ true → within_max bound m ≡ true
  unfolding within_max
  within_max-le m n l h = ground (arith, l, h)

  pub tickets_within-change_epic :
      (k : String) (f : Epic → Epic) (es : List Epic)
      → ((e : Epic) → (f e).tickets ≡ e.tickets)
      → tickets_within bound es ≡ true
      → tickets_within bound (change_epic k f es) ≡ true
  unfolding tickets_within change_epic
  tickets_within-change_epic k f [] same h = h
  tickets_within-change_epic k f (e ∷ es) same h =
      ground (arith, h, tickets_within-change_epic k f es same, ap length (same e))

  pub tickets_within-change_ticket :
      (k : String) (f : Ticket → Ticket) (es : List Epic)
      → tickets_within bound es ≡ true
      → tickets_within bound (change_ticket k f es) ≡ true
  unfolding tickets_within change_ticket
  tickets_within-change_ticket k f [] h = h
  tickets_within-change_ticket k f (e ∷ es) h =
      ground (arith, h, tickets_within-change_ticket k f es, length-change_first k f e.tickets)

  pub tickets_within-map_tickets :
      (f : Ticket → Ticket) (es : List Epic)
      → tickets_within bound es ≡ true
      → tickets_within bound (map_tickets f es) ≡ true
  unfolding tickets_within map_tickets
  tickets_within-map_tickets f [] h = h
  tickets_within-map_tickets f (e ∷ es) h =
      ground (arith, h, tickets_within-map_tickets f es, length-map f e.tickets)

  pub tickets_within-drop_ticket :
      (k : String) (es : List Epic)
      → tickets_within bound es ≡ true
      → tickets_within bound (drop_ticket k es) ≡ true
  unfolding tickets_within drop_ticket
  tickets_within-drop_ticket k [] h = h
  tickets_within-drop_ticket k (e ∷ es) h = ground (
    arith,
    h,
    tickets_within-drop_ticket k es,
    within_max-le (length (tickets_without k e.tickets)) (length e.tickets)
        (length-tickets_without k e.tickets),
  )

  pub tickets_within-epics_without :
      (x : String) (es : List Epic)
      → tickets_within bound es ≡ true
      → tickets_within bound (epics_without x es) ≡ true
  unfolding tickets_within epics_without
  tickets_within-epics_without x [] h = h
  tickets_within-epics_without x (e ∷ es) h = ground (arith, h, tickets_within-epics_without x es)

  pub tickets_within-append :
      (es : List Epic) (e : Epic)
      → length e.tickets ≡ 0
      → tickets_within bound es ≡ true
      → tickets_within bound (es ++ e ∷ []) ≡ true
  unfolding tickets_within within_max
  tickets_within-append [] e z h = ground (arith, z)
  tickets_within-append (f ∷ es) e z h = ground (arith, h, tickets_within-append es e z)

  -- A ticket added to the epic that `count_bounds` has looked at.
  pub tickets_within-with_ticket :
      (k title description ticket_type complexity : String) (id : Option String) (es : List Epic)
      → create_ticket_bound bound (find_epic (some k) (flat_epics es)) ≡ accept
      → tickets_within bound es ≡ true
      → tickets_within bound
          (change_epic k (with_ticket title description ticket_type complexity id) es)
        ≡ true
  unfolding tickets_within change_epic with_ticket create_ticket_bound find_epic flat_epics
      within_max reaches
  tickets_within-with_ticket k title description ticket_type complexity id [] b h = h
  tickets_within-with_ticket k title description ticket_type complexity id (e ∷ es) b h =
      elim (Bool-cases (e.id == k)) [
        | inl q ↦ rw q (
            ground (
              arith,
              h,
              b,
              q,
              length-ticket_refs e.tickets,
              length-append e.tickets (
                  record {
                    id = id_or id "__proj_ticket_" (length e.tickets);
                    epic_id = e.id;
                    body =
                        ("title", title)
                        ∷ ("description", description)
                        ∷ ("ticket_type", ticket_type)
                        ∷ ("complexity", complexity)
                        ∷ [];
                    dependencies = [];
                    blueprint_references = [];
                  }
                  ∷ []),
            ))
        | inr q ↦ rw q (
            ground (
              arith,
              h,
              b,
              q,
              tickets_within-with_ticket k title description ticket_type complexity id es,
            ))
      ]

pub length-each_edge :
    (f : DependencyEdgeSpec → List Epic → List Epic) (edges : List DependencyEdgeSpec)
    (es : List Epic)
    → ((edge : DependencyEdgeSpec) (fs : List Epic) → length (f edge fs) ≡ length fs)
    → length (each_edge f edges es) ≡ length es
unfolding each_edge
length-each_edge f [] es same = refl
length-each_edge f (edge ∷ edges) es same = length-each_edge f edges (f edge es) same ∙ same edge es

pub tickets_within-each_edge :
    (bound : Option ℕ) (f : DependencyEdgeSpec → List Epic → List Epic)
    (edges : List DependencyEdgeSpec) (es : List Epic)
    → ((edge : DependencyEdgeSpec) (fs : List Epic)
        → tickets_within bound fs ≡ true
        → tickets_within bound (f edge fs) ≡ true)
    → tickets_within bound es ≡ true
    → tickets_within bound (each_edge f edges es) ≡ true
unfolding each_edge
tickets_within-each_edge bound f [] es keep h = h
tickets_within-each_edge bound f (edge ∷ edges) es keep h =
    tickets_within-each_edge bound f edges (f edge es) keep (keep edge es h)
