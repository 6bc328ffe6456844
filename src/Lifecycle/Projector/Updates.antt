-- ===== src/Lifecycle/Projector/Updates.antt =====
-- Updates that leave the tree as it is: they set no id, no dependencies, no tickets and no epics.
use specsmither.Base.{all, ◌≡◌, refl, sym, ap, ◌∙◌, Bool, true, false, List, [], ◌∷◌, arith}
use specsmither.Lifecycle.Projector.{assign, set_on_ticket, set_on_epic, set_on_spec, has_link}
use specsmither.Lifecycle.Projector.Edges.{IsTame}
use specsmither.Lifecycle.Projector.Types.{
  Ticket, Epic, Specification, Assignment, set_id, set_epic_id, set_specification_id,
  set_dependencies, set_blueprint_references, set_tickets, set_epics, set_blueprints, set_attribute,
  MutationOp, update_spec, update_epic, update_ticket,
}

unfoldable pub leaves_tree : Assignment → Bool
leaves_tree (set_id _) = false
leaves_tree (set_dependencies _) = false
leaves_tree (set_tickets _) = false
leaves_tree (set_epics _) = false
leaves_tree _ = true

-- The mutation is no update, or one that leaves the tree as it is.
unfoldable pub keeps_tree : MutationOp → Bool
unfolding leaves_tree
keeps_tree (update_spec fields) = all leaves_tree fields
keeps_tree (update_epic _ fields) = all leaves_tree fields
keeps_tree (update_ticket _ fields) = all leaves_tree fields
keeps_tree _ = true

-- What a `setattr` keeps, the loop over the fields keeps.
assign-kept :
    {A B : Type 0} (setattr : A → Assignment → A) (view : A → B)
    → ((field : Assignment) (a : A) → leaves_tree field ≡ true → view (setattr a field) ≡ view a)
    → (fields : List Assignment) (a : A) → all leaves_tree fields ≡ true
    → view (assign setattr fields a) ≡ view a
unfolding assign all
assign-kept setattr view keep [] a h = refl
assign-kept setattr view keep (field ∷ fields) a h =
    assign-kept setattr view keep fields (setattr a field) (ground (arith, h))
    ∙ keep field a (ground (arith, h))

set_on_ticket-kept :
    (field : Assignment) (t : Ticket)
    → leaves_tree field ≡ true
    → ((set_on_ticket t field).id ≡ t.id) × ((set_on_ticket t field).dependencies ≡ t.dependencies)
unfolding leaves_tree set_on_ticket
set_on_ticket-kept (set_id v) t h = absurd (cc)
set_on_ticket-kept (set_epic_id v) t h = (refl, refl)
set_on_ticket-kept (set_specification_id v) t h = (refl, refl)
set_on_ticket-kept (set_dependencies v) t h = absurd (cc)
set_on_ticket-kept (set_blueprint_references v) t h = (refl, refl)
set_on_ticket-kept (set_tickets v) t h = absurd (cc)
set_on_ticket-kept (set_epics v) t h = absurd (cc)
set_on_ticket-kept (set_blueprints v) t h = (refl, refl)
set_on_ticket-kept (set_attribute key value) t h = (refl, refl)

set_on_epic-kept :
    (field : Assignment) (e : Epic)
    → leaves_tree field ≡ true
    → (set_on_epic e field).tickets ≡ e.tickets
unfolding leaves_tree set_on_epic
set_on_epic-kept (set_id v) e h = absurd (cc)
set_on_epic-kept (set_epic_id v) e h = refl
set_on_epic-kept (set_specification_id v) e h = refl
set_on_epic-kept (set_dependencies v) e h = absurd (cc)
set_on_epic-kept (set_blueprint_references v) e h = refl
set_on_epic-kept (set_tickets v) e h = absurd (cc)
set_on_epic-kept (set_epics v) e h = absurd (cc)
set_on_epic-kept (set_blueprints v) e h = refl
set_on_epic-kept (set_attribute key value) e h = refl

set_on_spec-kept :
    (field : Assignment) (s : Specification)
    → leaves_tree field ≡ true
    → (set_on_spec s field).epics ≡ s.epics
unfolding leaves_tree set_on_spec
set_on_spec-kept (set_id v) s h = absurd (cc)
set_on_spec-kept (set_epic_id v) s h = refl
set_on_spec-kept (set_specification_id v) s h = refl
set_on_spec-kept (set_dependencies v) s h = absurd (cc)
set_on_spec-kept (set_blueprint_references v) s h = refl
set_on_spec-kept (set_tickets v) s h = absurd (cc)
set_on_spec-kept (set_epics v) s h = absurd (cc)
set_on_spec-kept (set_blueprints v) s h = refl
set_on_spec-kept (set_attribute key value) s h = refl

pub assigned-IsTame :
    (fields : List Assignment)
    → all leaves_tree fields ≡ true
    → IsTame (λ w. false) (assign set_on_ticket fields)
assigned-IsTame fields h = record {
  same_id =
      λ t. assign-kept set_on_ticket (λ u. u.id) (λ f u k. (set_on_ticket-kept f u k).0) fields t h;
  old_links = λ t w m.
      let same : (assign set_on_ticket fields t).dependencies ≡ t.dependencies =
        assign-kept set_on_ticket (λ u. u.dependencies) (λ f u k. (set_on_ticket-kept f u k).1)
          fields t h in
      let there : has_link w t.dependencies ≡ true = sym (ap (has_link w) same) ∙ m in
      ground (arith, there);
}

pub assign_epic-tickets :
    (fields : List Assignment) (e : Epic)
    → all leaves_tree fields ≡ true
    → (assign set_on_epic fields e).tickets ≡ e.tickets
assign_epic-tickets fields e h =
    assign-kept set_on_epic (λ u. u.tickets) set_on_epic-kept fields e h

pub assign_spec-epics :
    (fields : List Assignment) (s : Specification)
    → all leaves_tree fields ≡ true
    → (assign set_on_spec fields s).epics ≡ s.epics
assign_spec-epics fields s h = assign-kept set_on_spec (λ u. u.epics) set_on_spec-kept fields s h
