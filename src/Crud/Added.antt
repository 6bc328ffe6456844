-- ===== src/Crud/Added.antt =====
-- Adding a dependency always answers, and keeps the dependencies within specifications and without a cycle.
use specsmither.Lifecycle.System.Effects.{sound}
use specsmither.Dag.Cascade.Transitions.{depends_on}
use specsmither.Base.{
  Bool-cases, is_some, length, ◌+◌, String, ◌≡◌, refl, sym, ap, ◌∙◌, ◌≢◌, inl, inr, true, false,
  ◌&&◌, ◌||◌, Option, none, some, List, [], ◌∷◌, ◌++◌, arith, eq_iff,
}
use mathlib.Core.Path.{subst}
use specsmither.Base.Text.{◌==◌}
use specsmither.Base.Sets.{mem}
use specsmither.Base.Dict.{get}
use specsmither.Base.Graph.{Reaches, one, more, IsAcyclic, IsExtended, IsAcyclic-extended}
use specsmither.Crud.{
  DependencyEdge, Rows, AddOutcome, failed, added, validation_failed, not_found, conflict, forward,
  would_create_cycle, coerce_dep_type, ticket_spec, is_spec, list_dependencies, has_pair,
  insert_unless, add_in_spec, add_between, add_typed, add_dependency,
}
use specsmither.Crud.Search.{would_reach_total}

-- Each dependency is between two tickets of one specification, and no ticket depends on itself in the end.
pub record IsSound (store : Rows) : Type 0 where
  pub within_specs :
      (v w : String)
      → mem w (forward store.edges v) ≡ true
      → (s : String) × (is_spec (ticket_spec store v) s ≡ true)
        × (is_spec (ticket_spec store w) s ≡ true)
  pub acyclic : IsAcyclic (forward store.edges)

-- A failure, or a sound store in which the ticket depends on the other.
abbrev pub IsAdded : String → String → AddOutcome → Type 0
IsAdded ticket depends_on (failed _) = Unit
IsAdded ticket depends_on (added store) =
    IsSound store × (mem depends_on (forward store.edges ticket) ≡ true)

forward-append :
    (w v : String) (es fs : List DependencyEdge)
    → mem w (forward (es ++ fs) v) ≡ (mem w (forward es v) || mem w (forward fs v))
unfolding forward mem
forward-append w v [] fs = refl
forward-append w v (e ∷ es) fs = ground (arith, forward-append w v es fs)

forward-IsExtended :
    (es : List DependencyEdge) (ticket depends_on type : String)
    → IsExtended
        (forward es)
        (forward
          (es ++ record { ticket_id = ticket; depends_on_id = depends_on; type = type } ∷ []))
        ticket
        depends_on
unfolding forward mem
forward-IsExtended es ticket depends_on type =
    let row : DependencyEdge = record {
      ticket_id = ticket;
      depends_on_id = depends_on;
      type = type;
    } in
    record {
      added = ground (
        arith,
        forward-append depends_on ticket es (row ∷ []),
        eq_iff ticket ticket,
        eq_iff depends_on depends_on,
      );
      old = λ v w m.
          ground (arith, m, forward-append w v es (row ∷ []), eq_iff ticket v, eq_iff depends_on w);
    }

forward-list_dependencies :
    (store : Rows) (s v w : String) (es : List DependencyEdge)
    → mem w (forward (list_dependencies store s es) v)
      ≡ (mem w (forward es v) && is_spec (ticket_spec store v) s)
unfolding forward list_dependencies mem
forward-list_dependencies store s v w [] = refl
forward-list_dependencies store s v w (e ∷ es) = ground (
  arith,
  forward-list_dependencies store s v w es,
  eq_iff e.ticket_id v,
  ap (λ q. is_spec (ticket_spec store q) s) {x = e.ticket_id} {y = v},
)

is_spec-same : (o : Option String) (s t : String) → is_spec o s ≡ true → is_spec o t ≡ true → s ≡ t
unfolding is_spec
is_spec-same none s t h k = absurd (cc)
is_spec-same (some x) s t h k = sym ((eq_iff x s).0 h) ∙ (eq_iff x t).0 k

-- A path that starts in a specification stays in it.
Reaches-within :
    (store : Rows) (sound : IsSound store) (s : String) {a c : String}
    → Reaches (forward store.edges) a c
    → is_spec (ticket_spec store a) s ≡ true
    → Reaches (forward (list_dependencies store s store.edges)) a c
Reaches-within store sound s {a} {c} (one h) m =
    one (forward-list_dependencies store s a c store.edges ∙ rw (h, m) refl)
Reaches-within store sound s {a} {c} (more b h r) m =
    let (t, p, q) = sound.within_specs a b h in
    let same : s ≡ t = is_spec-same (ticket_spec store a) s t m p in
    more b (forward-list_dependencies store s a b store.edges ∙ rw (h, m) refl) (
      Reaches-within store sound s r
        (subst (λ k. is_spec (ticket_spec store b) k ≡ true) (sym same) q))

inserted-IsSound :
    (store : Rows) (ticket depends_on type s : String)
    → IsSound store
    → ticket ≢ depends_on
    → is_spec (ticket_spec store ticket) s ≡ true
    → is_spec (ticket_spec store depends_on) s ≡ true
    → (Reaches (forward (list_dependencies store s store.edges)) depends_on ticket → ⊥)
    → IsAdded ticket depends_on (insert_unless store ticket depends_on type false)
unfolding insert_unless ticket_spec
inserted-IsSound store ticket depends_on type s sound apart here there unreached =
    let ext = forward-IsExtended store.edges ticket depends_on type in
    (
      record {
        within_specs = λ v w m. elim (ext.old v w m) [
          | inl o ↦ sound.within_specs v w o
          | inr (a, b) ↦ (
            s,
            subst (λ k. is_spec (ticket_spec store k) s ≡ true) (sym a) here,
            subst (λ k. is_spec (ticket_spec store k) s ≡ true) (sym b) there,
          )
        ];
        acyclic =
            IsAcyclic-extended ext sound.acyclic apart
              (λ r. unreached (Reaches-within store sound s r there));
      },
      ext.added,
    )

in_spec_total :
    (store : Rows) (ticket depends_on type s : String)
    → IsSound store
    → ticket ≢ depends_on
    → is_spec (ticket_spec store ticket) s ≡ true
    → is_spec (ticket_spec store depends_on) s ≡ true
    → (r : AddOutcome) × (add_in_spec store ticket depends_on type s ≡ some r)
      × IsAdded ticket depends_on r
unfolding add_in_spec would_create_cycle
in_spec_total store ticket depends_on type s sound apart here there =
    let edges = list_dependencies store s store.edges in
    elim (Bool-cases (has_pair ticket depends_on edges)) [
      | inl e ↦ rw e ((failed conflict, refl, tt))
      | inr e ↦
          let other : ticket == depends_on ≡ false = elim (Bool-cases (ticket == depends_on)) [
            | inl q ↦ elim (apart ((eq_iff ticket depends_on).0 q)) [ ]
            | inr q ↦ q
          ] in
          let (r, same, left) =
            would_reach_total (length edges + 2) edges ticket depends_on (omega arith) in
          elim (Bool-cases r) [
            | inl q ↦ rw (e, other, same, q) ((failed conflict, unfold insert_unless in refl, tt))
            | inr q ↦
                rw (e, other, same, q)
                  ((
                    insert_unless store ticket depends_on type false,
                    refl,
                    inserted-IsSound store ticket depends_on type s sound apart here there (left q),
                  ))
          ]
    ]

between_total :
    (store : Rows) (ticket depends_on type : String) (a b : Option String)
    → IsSound store
    → ticket ≢ depends_on
    → ticket_spec store ticket ≡ a
    → ticket_spec store depends_on ≡ b
    → (r : AddOutcome) × (add_between store ticket depends_on type a b ≡ some r)
      × IsAdded ticket depends_on r
unfolding add_between is_spec
between_total store ticket depends_on type none b sound apart here there =
    (failed validation_failed, refl, tt)
between_total store ticket depends_on type (some s) none sound apart here there =
    (failed validation_failed, refl, tt)
between_total store ticket depends_on type (some s) (some t) sound apart here there =
    elim (Bool-cases (s == t)) [
      | inl e ↦ rw e (
          in_spec_total store ticket depends_on type s sound apart (rw here ((eq_iff s s).1 refl))
            (rw there ((eq_iff t s).1 (sym ((eq_iff s t).0 e)))))
      | inr e ↦ rw e ((failed validation_failed, refl, tt))
    ]

typed_total :
    (store : Rows) (ticket depends_on : String) (type : Option String)
    → IsSound store
    → (r : AddOutcome) × (add_typed store ticket depends_on type ≡ some r)
      × IsAdded ticket depends_on r
unfolding add_typed
typed_total store ticket depends_on none sound = (failed validation_failed, refl, tt)
typed_total store ticket depends_on (some type) sound = elim (Bool-cases (ticket == depends_on)) [
  | inl e ↦ rw e ((failed validation_failed, refl, tt))
  | inr e ↦ rw e (elim (Bool-cases (is_some (get store.ticket_specs ticket))) [
    | inr f ↦ rw f ((failed not_found, refl, tt))
    | inl f ↦ rw f (elim (Bool-cases (is_some (get store.ticket_specs depends_on))) [
      | inr g ↦ rw g ((failed not_found, refl, tt))
      | inl g ↦ rw g (
          between_total store ticket depends_on type (ticket_spec store ticket)
            (ticket_spec store depends_on) sound
            (λ q. ground (arith, e, q, eq_iff ticket depends_on)) refl refl)
    ])
  ])
]

-- From a sound store, adding a dependency always answers: with an error, or with a sound store in which the
-- ticket depends on the other one.
pub add_dependency-IsSound :
    (store : Rows) (ticket depends_on type : String)
    → IsSound store
    → (r : AddOutcome) × (add_dependency store ticket depends_on type ≡ some r)
      × IsAdded ticket depends_on r
unfolding add_dependency
add_dependency-IsSound store ticket depends_on type sound =
    typed_total store ticket depends_on (coerce_dep_type type) sound
