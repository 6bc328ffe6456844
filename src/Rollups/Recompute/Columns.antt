-- ===== src/Rollups/Recompute/Columns.antt =====
-- The rows that are made from the final statuses.
use specsmither.Rollups.Recompute.Derived.{derived, derive}
use mathlib.Core.Path.{ap₂}
use specsmither.Base.Text.{◌==◌}
use specsmither.Rollups.Recompute.Fixpoint.{ids_of, get-states_from, statuses_of}
use specsmither.Rollups.Recompute.{
  TicketRow, states_from, titles_from, blockers_of, reason_for, with_status, apply_status,
}
use specsmither.Dag.Cascade.{find_dependencies, is_status, has_status}
use specsmither.Base.Sets.{mem}
use specsmither.Base.{
  if◌then◌else◌, filter, All, String, ◌≡◌, refl, ap, false, not, Option, none, some, List, [], ◌∷◌,
  map, arith, eq_iff, Bool-cases, ◌∙◌, inl, inr, true,
}
use specsmither.Base.Dict.{Dict, get, put, or_else, get_or, get-put}
use specsmither.Dag.Types.{DepEdge}

-- What the rows of a recompute are made from: statuses that the cascade ended with.
module _ (states : Dict String) (edges : List DepEdge) (titles : Dict String) where
  abbrev pub renew : TicketRow → TicketRow
  renew = apply_status states edges titles

  pub renew_twice : (r : TicketRow) → renew (renew r) ≡ renew r
  unfolding apply_status with_status get_or
  renew_twice r = ap (λ s. with_status states edges titles s r) (again (get states r.id))
    where
      again : (o : Option String) → or_else o (or_else o r.status) ≡ or_else o r.status
      again none = refl
      again (some s) = refl

  pub titles-renew :
      (rows : List TicketRow) (acc : Dict String)
      → titles_from acc (map renew rows) ≡ titles_from acc rows
  unfolding titles_from apply_status with_status
  titles-renew [] acc = refl
  titles-renew (r ∷ rows) acc = titles-renew rows (put acc r.id r.title)

  -- The renewed rows have the statuses that they were renewed from.
  pub states-renew :
      (rows : List TicketRow) (acc : Dict String) (t : String)
      → All (λ r. get states r.id ≡ some (get_or states r.id r.status)) rows
      → (mem t (ids_of rows) ≡ false → get acc t ≡ get states t)
      → get (states_from acc (map renew rows)) t ≡ get states t
  unfolding states_from apply_status with_status mem
  states-renew [] acc t h k = k refl
  states-renew (r ∷ rows) acc t h k =
      states-renew rows (put acc r.id (get_or states r.id r.status)) t h.1 (λ absent. ground (
        arith,
        get-put acc r.id t (get_or states r.id r.status),
        k,
        h.0,
        eq_iff r.id t,
        ap (get states) {x = r.id} {y = t},
      ))

-- The columns are read off the statuses alone.
pub apply_status-same :
    (a b : Dict String) (edges : List DepEdge) (titles : Dict String) (r : TicketRow)
    → ((t : String) → get a t ≡ get b t)
    → apply_status a edges titles r ≡ apply_status b edges titles r
unfolding apply_status with_status blockers_of has_status get_or
apply_status-same a b edges titles r h = λ i. record r {
  status = or_else (h r.id i) r.status;
  progress = if or_else (h r.id i) r.status == "done" then 100 else 0;
  block_reason =
      if or_else (h r.id i) r.status == "pending"
      then reason_for (filter (λ d. not (is_status (h d i) "done")) (find_dependencies edges r.id))
          titles
      else none;
}

pub map-fixed {ℓ} :
    {A : Type ℓ} (f : A → A) (xs : List A) → ((x : A) → f (f x) ≡ f x) → map f (map f xs) ≡ map f xs
map-fixed f [] h = refl
map-fixed f (x ∷ xs) h = ap₂ ◌∷◌ (h x) (map-fixed f xs h)

All-ids :
    (rows : List TicketRow) (ids : List String)
    → ((t : String) → mem t (ids_of rows) ≡ true → mem t ids ≡ true)
    → All (λ r. mem r.id ids ≡ true) rows
unfolding mem
All-ids [] ids h = tt
All-ids (r ∷ rows) ids h =
    (h r.id (ground (arith, eq_iff r.id r.id)), All-ids rows ids (λ t m. h t (ground arith)))

get-states_from-mem :
    (acc : Dict String) (rows : List TicketRow) (t : String)
    → mem t (ids_of rows) ≡ true
    → (c : String) × (get (states_from acc rows) t ≡ some c)
unfolding states_from mem
get-states_from-mem acc [] t h = cc
get-states_from-mem acc (r ∷ rows) t h = elim (Bool-cases (mem t (ids_of rows))) [
  | inl later ↦ get-states_from-mem (put acc r.id r.status) rows t later
  | inr last ↦ (
    r.status,
    get-states_from (put acc r.id r.status) rows t last
        ∙ ground (arith, get-put acc r.id t r.status),
  )
]

-- Every ticket has a status when the cascade ends.
pub All-statuses :
    (tickets : List TicketRow) (edges : List DepEdge) (states : Dict String)
    → ((t : String) → get states t ≡ derive (statuses_of tickets) edges t)
    → All (λ r. get states r.id ≡ some (get_or states r.id r.status)) tickets
All-statuses tickets edges states h = over tickets (All-ids tickets (ids_of tickets) (λ t m. m))
  where
    at :
        (r : TicketRow) (o : Option String) (c : String)
        → o ≡ derived (statuses_of tickets) edges r.id (some c)
        → o ≡ some (or_else o r.status)
    at r none c e = unfold derived in cc
    at r (some s) c e = refl

    one :
        (r : TicketRow)
        → mem r.id (ids_of tickets) ≡ true
        → get states r.id ≡ some (get_or states r.id r.status)
    one r m =
        let (c, e) = get-states_from-mem [] tickets r.id m in
        unfold get_or in
        at r (get states r.id) c
          (h r.id ∙ unfold derive in ap (derived (statuses_of tickets) edges r.id) e)

    over :
        (rows : List TicketRow)
        → All (λ r. mem r.id (ids_of tickets) ≡ true) rows
        → All (λ r. get states r.id ≡ some (get_or states r.id r.status)) rows
    over [] m = tt
    over (r ∷ rows) m = (one r m.0, over rows m.1)
