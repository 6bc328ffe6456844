-- ===== src/Lifecycle/System/Harmless.antt =====
-- Plans that make no specification `ready`, whatever rows they write.
use specsmither.Base.Text.{◌==◌}
use specsmither.Lifecycle.Plan.{
  PlanningSessionRecord, SessionField, WritePlanItem, spec_mutation, session_update, session_create,
  action_append, record_transition, WritePlan,
}
use specsmither.Lifecycle.Executor.{
  Store, Applied, applied, failed, mutate_spec, update_session, put_session, apply_item, and_apply,
  apply_items, apply_write_plan, committed, commit_write_plan,
}
use specsmither.Base.Dict.{Dict, get, put, get-put}
use specsmither.Base.{
  if◌then◌else◌, all, String, ◌≡◌, refl, sym, ap, ◌∙◌, ◌⊎◌, inl, inr, Bool, true, false, not, ◌||◌,
  Option, none, some, List, [], ◌∷◌, arith, eq_iff,
}
use specsmither.Domain.Enums.{SpecStatus, ready}

unfoldable pub is_ready : SpecStatus → Bool
is_ready ready = true
is_ready _ = false

-- No specification that is not `ready` before is so after, `exempt` apart.
unfoldable pub IsKept : (String → Bool) → Dict SpecStatus → Dict SpecStatus → Type 0
IsKept exempt before after =
    (s : String) → get after s ≡ some ready → (get before s ≡ some ready) ⊎ (exempt s ≡ true)

-- An item that makes no specification ready, `exempt` apart.
unfoldable pub is_harmless : (String → Bool) → WritePlanItem → Bool
unfolding is_ready
is_harmless exempt (spec_mutation id status) = not (is_ready status) || exempt id
is_harmless exempt _ = true

put-kept :
    (exempt : String → Bool) (id s : String) (status : SpecStatus) (before : Dict SpecStatus)
    (same : Bool)
    → not (is_ready status) || exempt id ≡ true
    → id == s ≡ same
    → (if same then some status else get before s) ≡ some ready
    → (get before s ≡ some ready) ⊎ (exempt s ≡ true)
unfolding is_ready
put-kept exempt id s status before false harmless e h = inl h
put-kept exempt id s status before true harmless e h =
    let made : status ≡ ready = cc in
    let equal : id ≡ s = ground (arith, eq_iff id s) in
    inr (ap exempt (sym equal) ∙ ground (arith, ap is_ready made))

mutated-kept :
    (exempt : String → Bool) (id s : String) (status : SpecStatus) (before specs : Dict SpecStatus)
    → not (is_ready status) || exempt id ≡ true
    → IsKept exempt before specs
    → get (put specs id status) s ≡ some ready
    → (get before s ≡ some ready) ⊎ (exempt s ≡ true)
unfolding IsKept
mutated-kept exempt id s status before specs harmless h e =
    elim (put-kept exempt id s status specs (id == s) harmless refl
      (sym (get-put specs id s status) ∙ e)) [ inl old ↦ h s old | inr exempted ↦ inr exempted ]

module _ (exempt : String → Bool) (origin : Store) where
  -- What the specifications come to, `origin` being the store that an error rolls back to.
  IsStillKept : Applied → Type 0
  IsStillKept outcome = IsKept exempt origin.specs (Store.specs (committed origin outcome))

  mutate_spec-kept :
      (store : Store) (affected : List String) (id : String) (status : SpecStatus)
      (read : Option SpecStatus)
      → not (is_ready status) || exempt id ≡ true
      → IsKept exempt origin.specs store.specs
      → IsStillKept (mutate_spec store affected id status read)
  unfolding IsStillKept IsKept mutate_spec committed
  mutate_spec-kept store affected id status none harmless h s e = inl e
  mutate_spec-kept store affected id status (some old) harmless h s e =
      mutated-kept exempt id s status origin.specs store.specs harmless h e

  update_session-kept :
      (store : Store) (affected : List String) (id : String) (fields : List SessionField)
      (read : Option PlanningSessionRecord)
      → IsKept exempt origin.specs store.specs
      → IsStillKept (update_session store affected id fields read)
  unfolding IsStillKept IsKept update_session committed
  update_session-kept store affected id fields none h s e = inl e
  update_session-kept store affected id fields (some row) h s e = h s e

  item-kept :
      (store : Store) (affected : List String) (item : WritePlanItem)
      → is_harmless exempt item ≡ true
      → IsKept exempt origin.specs store.specs
      → IsStillKept (apply_item store affected item)
  unfolding IsStillKept apply_item put_session committed is_harmless
  item-kept store affected (spec_mutation id status) harmless h =
      mutate_spec-kept store affected id status (get store.specs id) harmless h
  item-kept store affected (session_update id fields) harmless h =
      update_session-kept store affected id fields (get store.sessions id) h
  item-kept store affected (session_create id fields) harmless h = h
  item-kept store affected (action_append a) harmless h = h
  item-kept store affected (record_transition t) harmless h = h

  rest-kept :
      (outcome : Applied) (rest : Store → List String → Applied)
      → ((store : Store) (affected : List String)
          → IsKept exempt origin.specs store.specs
          → IsStillKept (rest store affected))
      → IsStillKept outcome
      → IsStillKept (and_apply outcome rest)
  unfolding IsStillKept and_apply committed
  rest-kept (failed e) rest go h = h
  rest-kept (applied store affected) rest go h = go store affected h

  items-kept :
      (store : Store) (affected : List String) (plan : WritePlan)
      → all (is_harmless exempt) plan ≡ true
      → IsKept exempt origin.specs store.specs
      → IsStillKept (apply_items store affected plan)
  unfolding IsStillKept apply_items all committed
  items-kept store affected [] harmless h = h
  items-kept store affected (item ∷ plan) harmless h =
      rest-kept (apply_item store affected item) (λ st a. apply_items st a plan)
        (λ st a k. items-kept st a plan (ground arith) k)
        (item-kept store affected item (ground arith) h)

-- A plan of harmless items makes no specification ready.
pub commit-IsKept :
    (exempt : String → Bool) (store : Store) (plan : WritePlan)
    → all (is_harmless exempt) plan ≡ true
    → IsKept exempt store.specs (Store.specs (commit_write_plan store plan))
unfolding commit_write_plan apply_write_plan IsKept IsStillKept
commit-IsKept exempt store plan harmless =
    items-kept exempt store store [] plan harmless (λ s e. inl e)

-- A plan without a mutation to `ready`.
unfoldable pub no_one : String → Bool
no_one s = false

pub plain-kept :
    (store : Store) (plan : WritePlan) (s : String)
    → all (is_harmless no_one) plan ≡ true
    → get (Store.specs (commit_write_plan store plan)) s ≡ some ready
    → get store.specs s ≡ some ready
unfolding IsKept no_one
plain-kept store plan s harmless e = elim (commit-IsKept no_one store plan harmless s e) [
  | inl old ↦ old
  | inr never ↦ cc
]
