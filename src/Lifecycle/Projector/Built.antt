-- ===== src/Lifecycle/Projector/Built.antt =====
-- Which mutation an operation asks for, read back from the mutation.
use specsmither.Lifecycle.Projector.Types.{
  MutationOp, update_spec, create_epic, update_epic, delete_epic, create_ticket, update_ticket,
  delete_ticket, create_blueprint, update_blueprint, delete_blueprint, link_blueprint_to_tickets,
  unlink_blueprint_to_tickets, create_dependencies, mutation_kind,
}
use specsmither.Base.{
  Bool-cases, String, ◌≡◌, refl, sym, inl, inr, Option, none, some, eq_iff, false,
}
use specsmither.Base.Text.{◌==◌}
use specsmither.Lifecycle.Projector.Flat.{
  Payload, Projection, mutation, unchanged, required, text_or, edge_specs, build_mutation_op,
}
use mathlib.Core.Path.{subst}

-- What a mutation took from the payload, for those that remove entities or add edges.
abbrev pub AsksFor : Payload → MutationOp → Type 0
AsksFor p (delete_epic id) = p.id ≡ some id
AsksFor p (delete_ticket id) = p.id ≡ some id
AsksFor p (create_ticket parent _ _ _ _ _) = p.epic_id ≡ some parent
AsksFor p (create_dependencies edges) = edges ≡ edge_specs p.dependencies
AsksFor p _ = Unit

-- The operation has the mutation's kind, and the mutation its values from the payload.
pub record IsBuilt (op : String) (p : Payload) (m : MutationOp) : Type 0 where
  pub named : op ≡ mutation_kind m
  pub asked : AsksFor p m

required-some :
    (o : Option String) (f : String → Projection) (m : MutationOp)
    → required o f ≡ mutation m
    → (a : String) × (o ≡ some a) × (f a ≡ mutation m)
unfolding required
required-some none f m h = absurd (cc)
required-some (some a) f m h = (a, refl, h)

at_name : (P : String → Type 0) (op name : String) → P name → (op == name ≡ false → P op) → P op
at_name P op name here elsewhere = elim (Bool-cases (op == name)) [
  | inl q ↦ subst P (sym ((eq_iff op name).0 q)) here
  | inr q ↦ elsewhere q
]

module _ (p : Payload) where
  from_mutation :
      (op : String) (n m : MutationOp) → mutation n ≡ mutation m → IsBuilt op p n → IsBuilt op p m
  from_mutation op n m h b = let same : n ≡ m = cc in subst (λ k. IsBuilt op p k) same b

  from_required :
      (op : String) (o : Option String) (f : String → MutationOp) (m : MutationOp)
      → ((a : String) → o ≡ some a → IsBuilt op p (f a))
      → required o (λ a. mutation (f a)) ≡ mutation m
      → IsBuilt op p m
  from_required op o f m b h =
      let (a, e, g) = required-some o (λ a. mutation (f a)) m h in
      from_mutation op (f a) m g (b a e)

  -- At each name in turn, else no mutation is built.
  by_name :
      (P : String → Type 0) (op : String)
      → P "update_spec"
      → P "create_epic"
      → P "update_epic"
      → P "delete_epic"
      → P "create_ticket"
      → P "update_ticket"
      → P "delete_ticket"
      → P "create_blueprint"
      → P "update_blueprint"
      → P "delete_blueprint"
      → P "link_blueprint_to_tickets"
      → P "unlink_blueprint_to_tickets"
      → P "create_dependencies"
      → (build_mutation_op op p ≡ unchanged → P op)
      → P op
  unfolding build_mutation_op
  by_name P op a b c d e f g h i j k l m rest = at_name P op "update_spec" a (λ q1.
      at_name P op "create_epic" b (λ q2. at_name P op "update_epic" c (λ q3.
        at_name P op "delete_epic" d (λ q4. at_name P op "create_ticket" e (λ q5.
          at_name P op "update_ticket" f (λ q6. at_name P op "delete_ticket" g (λ q7.
            at_name P op "create_blueprint" h (λ q8. at_name P op "update_blueprint" i (λ q9.
              at_name P op "delete_blueprint" j (λ q10.
                at_name P op "link_blueprint_to_tickets" k (λ q11.
                  at_name P op "unlink_blueprint_to_tickets" l (λ q12.
                    at_name P op "create_dependencies" m (λ q13. rest (
                      rw (q1, q2, q3, q4, q5, q6, q7, q8, q9, q10, q11, q12, q13) refl))))))))))))))

  pub build_mutation_op-IsBuilt :
      (op : String) (m : MutationOp) → build_mutation_op op p ≡ mutation m → IsBuilt op p m
  unfolding build_mutation_op mutation_kind
  build_mutation_op-IsBuilt op m =
      by_name (λ n. build_mutation_op n p ≡ mutation m → IsBuilt n p m) op
        (λ h.
          from_mutation "update_spec" (update_spec p.fields) m h
            (record { named = refl; asked = tt }))
        (from_required "create_epic" p.title (λ a. create_epic a (text_or p.description) "" p.id) m
          (λ a e. record { named = refl; asked = tt }))
        (from_required "update_epic" p.id (λ a. update_epic a p.fields) m
          (λ a e. record { named = refl; asked = tt }))
        (from_required "delete_epic" p.id delete_epic m (λ a e. record { named = refl; asked = e }))
        (λ h.
          let (parent, e, g) =
            required-some p.epic_id
              (λ parent. required p.title (λ title. mutation (
                create_ticket parent title (text_or p.description) "implementation" "medium" p.id)))
              m h in
          from_required "create_ticket" p.title
            (λ title.
              create_ticket parent title (text_or p.description) "implementation" "medium" p.id)
            m (λ a q. record { named = refl; asked = e }) g)
        (from_required "update_ticket" p.id (λ a. update_ticket a p.fields) m
          (λ a e. record { named = refl; asked = tt }))
        (from_required "delete_ticket" p.id delete_ticket m
          (λ a e. record { named = refl; asked = e }))
        (λ h.
          let (title, e, g) =
            required-some p.title
              (λ title.
                required p.category
                  (λ category. mutation (create_blueprint title category (text_or p.content) p.id)))
              m h in
          from_required "create_blueprint" p.category
            (λ category. create_blueprint title category (text_or p.content) p.id) m
            (λ a q. record { named = refl; asked = tt }) g)
        (from_required "update_blueprint" p.id (λ a. update_blueprint a p.fields) m
          (λ a e. record { named = refl; asked = tt }))
        (from_required "delete_blueprint" p.id delete_blueprint m
          (λ a e. record { named = refl; asked = tt }))
        (from_required "link_blueprint_to_tickets" p.blueprint_id
          (λ a. link_blueprint_to_tickets a p.ticket_ids) m
          (λ a e. record { named = refl; asked = tt }))
        (from_required "unlink_blueprint_to_tickets" p.blueprint_id
          (λ a. unlink_blueprint_to_tickets a p.ticket_ids) m
          (λ a e. record { named = refl; asked = tt }))
        (λ h.
          from_mutation "create_dependencies" (create_dependencies (edge_specs p.dependencies)) m h
            (record { named = refl; asked = refl }))
        (λ e h. absurd (cc))
