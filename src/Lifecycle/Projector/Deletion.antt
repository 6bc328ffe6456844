-- ===== src/Lifecycle/Projector/Deletion.antt =====
-- What goes with an epic that is removed: its tickets, and the edges that start at them.
use specsmither.Lifecycle.Projector.Removal.{has_edge-epics_without}
use mathlib.Core.Path.{subst}
use specsmither.Lifecycle.Projector.References.{
  epic_full_ids, ticket_ref_ids, all_ticket_ids, ids_of_epic,
}
use specsmither.Lifecycle.Projector.Types.{Ticket, Epic}
use specsmither.Lifecycle.Projector.Guards.{find_epic}
use specsmither.Lifecycle.Projector.Flat.{ticket_refs, flat_epics}
use specsmither.Lifecycle.Projector.{has_ticket, epics_without}
use specsmither.Base.{
  Bool-cases, String, ◌≡◌, refl, sym, ap, ◌∙◌, inl, inr, true, false, ◌||◌, some, List, [], ◌∷◌,
  ◌++◌, arith, eq_iff,
}
use specsmither.Base.Text.{◌==◌}
use specsmither.Base.Sets.{mem, mem-append, IsDistinct}
use specsmither.Lifecycle.Projector.Edges.{
  has_edge, has_id, links_from, mem-all_ticket_ids, mem-ticket_ref_ids,
}

-- The ticket that depends on another is a ticket of the tree.
links_from-has_ticket :
    (v w : String) (ts : List Ticket) → links_from v w ts ≡ true → has_ticket v ts ≡ true
unfolding links_from has_ticket
links_from-has_ticket v w [] h = h
links_from-has_ticket v w (t ∷ ts) h = ground (arith, h, links_from-has_ticket v w ts)

has_edge-has_id : (v w : String) (es : List Epic) → has_edge v w es ≡ true → has_id v es ≡ true
unfolding has_edge has_id
has_edge-has_id v w [] h = h
has_edge-has_id v w (e ∷ es) h =
    ground (arith, h, has_edge-has_id v w es, links_from-has_ticket v w e.tickets)

IsDistinct-append :
    (xs ys : List String)
    → IsDistinct (xs ++ ys)
    → IsDistinct ys × ((a : String) → mem a xs ≡ true → mem a ys ≡ false)
unfolding mem
IsDistinct-append [] ys h = (h, λ a m. absurd (cc))
IsDistinct-append (x ∷ xs) ys (n, h) =
    let (d, apart) = IsDistinct-append xs ys h in
    (
      d,
      λ a m. ground (
        arith,
        m,
        n,
        apart a,
        mem-append x xs ys,
        eq_iff x a,
        ap (λ q. mem q ys) {x = x} {y = a},
      ),
    )

module _ (x : String) where
  -- The ticket ids that `cascade_rules` takes for those of the epic.
  abbrev pub ids_under : List Epic → List String
  ids_under es = ids_of_epic (find_epic (some x) (flat_epics es))

  ids_under-here :
      (e : Epic) (es : List Epic)
      → e.id == x ≡ true
      → ids_under (e ∷ es) ≡ ticket_ref_ids (ticket_refs e.tickets)
  unfolding ids_of_epic find_epic flat_epics
  ids_under-here e es q = rw q refl

  ids_under-there :
      (e : Epic) (es : List Epic) → e.id == x ≡ false → ids_under (e ∷ es) ≡ ids_under es
  unfolding ids_of_epic find_epic flat_epics
  ids_under-there e es q = rw q refl

  ids_under-has_id :
      (w : String) (es : List Epic) → mem w (ids_under es) ≡ true → has_id w es ≡ true
  unfolding has_id mem
  ids_under-has_id w [] h = unfold ids_of_epic find_epic flat_epics in h
  ids_under-has_id w (e ∷ es) h = elim (Bool-cases (e.id == x)) [
    | inl q ↦
        let there : mem w (ticket_ref_ids (ticket_refs e.tickets)) ≡ true =
          sym (ap (mem w) (ids_under-here e es q)) ∙ h in
        ground (arith, mem-ticket_ref_ids w e.tickets, there)
    | inr q ↦ ground (arith, ids_under-has_id w es (sym (ap (mem w) (ids_under-there e es q)) ∙ h))
  ]

  pub epics_without-absent :
      (es : List Epic) → mem x (epic_full_ids (flat_epics es)) ≡ false → epics_without x es ≡ es
  unfolding epics_without epic_full_ids flat_epics mem
  epics_without-absent [] h = refl
  epics_without-absent (e ∷ es) h = ground (arith, h, epics_without-absent es)

  -- Only the tickets of the epic go with it.
  pub has_id-epics_without :
      (w : String) (es : List Epic)
      → IsDistinct (epic_full_ids (flat_epics es))
      → has_id w es ≡ true
      → mem w (ids_under es) ≡ false
      → has_id w (epics_without x es) ≡ true
  unfolding epic_full_ids flat_epics has_id epics_without
  has_id-epics_without w [] d h m = h
  has_id-epics_without w (e ∷ es) (n, d) h m = elim (Bool-cases (e.id == x)) [
    | inl q ↦
        let gone : epics_without x es ≡ es =
          epics_without-absent es
            (subst (λ k. mem k (epic_full_ids (flat_epics es)) ≡ false) ((eq_iff e.id x).0 q) n) in
        let out : mem w (ticket_ref_ids (ticket_refs e.tickets)) ≡ false =
          sym (ap (mem w) (ids_under-here e es q)) ∙ m in
        rw (q, gone) (ground (arith, h, out, mem-ticket_ref_ids w e.tickets))
    | inr q ↦
        let out : mem w (ids_under es) ≡ false = sym (ap (mem w) (ids_under-there e es q)) ∙ m in
        rw q (ground (arith, h, has_id-epics_without w es d, out))
  ]

  -- No edge that is left starts at a ticket of the epic.
  pub has_edge-epics_without-outside :
      (v w : String) (es : List Epic)
      → IsDistinct (all_ticket_ids (flat_epics es))
      → has_edge v w (epics_without x es) ≡ true
      → mem v (ids_under es) ≡ false
  unfolding all_ticket_ids flat_epics epics_without has_edge
  has_edge-epics_without-outside v w [] d h = absurd (cc)
  has_edge-epics_without-outside v w (e ∷ es) d h =
      let (d', apart) =
        IsDistinct-append (ticket_ref_ids (ticket_refs e.tickets)) (all_ticket_ids (flat_epics es))
          d in
      elim (Bool-cases (e.id == x)) [
        | inl q ↦
            let left : has_edge v w (epics_without x es) ≡ true = ground (arith, h, q) in
            let inside : has_id v es ≡ true =
              has_edge-has_id v w es (has_edge-epics_without x v w es left) in
            ap (mem v) (ids_under-here e es q)
            ∙ ground (arith, inside, apart v, mem-all_ticket_ids v es)
        | inr q ↦
            let left : links_from v w e.tickets || has_edge v w (epics_without x es) ≡ true =
              ground (arith, h, q) in
            ap (mem v) (ids_under-there e es q) ∙ elim (Bool-cases (links_from v w e.tickets)) [
              | inl k ↦ ground (
                arith,
                links_from-has_ticket v w e.tickets k,
                mem-ticket_ref_ids v e.tickets,
                apart v,
                ids_under-has_id v es,
                mem-all_ticket_ids v es,
              )
              | inr k ↦ has_edge-epics_without-outside v w es d' (ground (arith, k, left))
            ]
      ]
