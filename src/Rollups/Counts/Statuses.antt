-- ===== src/Rollups/Counts/Statuses.antt =====
-- The status that the counts of an epic give it, and the buckets of a project.
use mathlib.Core.Path.{subst}
use specsmither.Rollups.Counts.Tallies.{tally_from-count}
use specsmither.Domain.Enums.{
  SpecStatus, draft, planning, ready_for_review, in_review, reviewed, todo, completed,
}
use specsmither.Base.{
  if◌then◌else◌, ℕ, suc, ◌+◌, ◌≤◌, String, ◌≡◌, Bool, arith, eq_iff, ltb, length, all, any, zero,
  ◌<◌, refl, sym, ◌≢◌, true, false, List, [], ◌∷◌, ap, ◌∙◌,
}
use specsmither.Base.Text.{◌==◌}
use specsmither.Dag.Types.{TicketNode}
use specsmither.Rollups.Counts.{
  TicketTally, tally_tickets, tally_from, tally_ticket, tally_status, no_tickets,
}
use specsmither.Rollups.Counts.Epics.{
  SpecCountsView, ProjectCounts, derive_epic_counts, derive_epic_status, progress_pct,
  derive_project_counts, count_specs, count_spec, bucket_spec, no_specs, Floats, percent,
}

-- What IEEE 754 gives: the operations are monotone, and exact on the numbers below.
pub record IsFloats {F : Type 0} (floats : Floats F) : Type 1 where
  pub LessOrEqual : F → F → Type 0
  pub zero_float : F
  pub one_float : F
  pub divide_none : (b : ℕ) → floats.divide 0 (suc b) ≡ zero_float
  pub divide_same : (b : ℕ) → floats.divide (suc b) (suc b) ≡ one_float
  pub divide_le : (a b : ℕ) → a ≤ suc b → LessOrEqual (floats.divide a (suc b)) one_float
  pub times_zero : floats.times zero_float floats.hundred ≡ zero_float
  pub times_one : floats.times one_float floats.hundred ≡ floats.hundred
  pub times_mono :
      (x y : F)
      → LessOrEqual x y
      → LessOrEqual (floats.times x floats.hundred) (floats.times y floats.hundred)
  pub plus_mono :
      (x y : F)
      → LessOrEqual x y
      → LessOrEqual (floats.plus x floats.half) (floats.plus y floats.half)
  pub floor_mono : (x y : F) → LessOrEqual x y → floats.floor x ≤ floats.floor y
  pub floor_half : floats.floor (floats.plus zero_float floats.half) ≡ 0
  pub floor_hundred : floats.floor (floats.plus floats.hundred floats.half) ≡ 100

module _ {F : Type 0} (floats : Floats F) (laws : IsFloats floats) where
  round : F → ℕ
  round x = floats.floor (floats.plus x floats.half)

  percent_none : (total : ℕ) → percent floats 0 (suc total) ≡ 0
  unfolding percent round
  percent_none total =
      ap (λ x. round (floats.times x floats.hundred)) (laws.divide_none total)
      ∙ ap round laws.times_zero
      ∙ laws.floor_half

  percent_all : (total : ℕ) → percent floats (suc total) (suc total) ≡ 100
  unfolding percent round
  percent_all total =
      ap (λ x. round (floats.times x floats.hundred)) (laws.divide_same total)
      ∙ ap round laws.times_one
      ∙ laws.floor_hundred

  percent-le : (part total : ℕ) → part ≤ suc total → percent floats part (suc total) ≤ 100
  unfolding percent round
  percent-le part total h =
      let below : round (floats.times (floats.divide part (suc total)) floats.hundred)
          ≤ round (floats.times laws.one_float floats.hundred) =
        laws.floor_mono _ _
          (laws.plus_mono _ _ (laws.times_mono _ _ (laws.divide_le part total h))) in
      subst (λ k. round (floats.times (floats.divide part (suc total)) floats.hundred) ≤ k)
        (ap round laws.times_one ∙ laws.floor_hundred) below

unfoldable pub has_status : String → TicketNode → Bool
has_status status t = t.status == status

other_status : (s a b : String) → a == b ≡ false → s == a ≡ true → s == b ≡ false
other_status s a b e q = subst (λ k. k == b ≡ false) (sym ((eq_iff s a).0 q)) e

unfoldable count_status : String → List TicketNode → ℕ
unfolding has_status
count_status status [] = 0
count_status status (t ∷ ts) = (if has_status status t then 1 else 0) + count_status status ts

tally_status-done :
    (s : String) (tally : TicketTally)
    → TicketTally.completed_ticket_count (tally_status s tally)
      ≡ (if s == "done" then 1 else 0) + tally.completed_ticket_count
unfolding tally_status
tally_status-done s tally = ground (
  arith,
  other_status s "done" "pending" refl,
  other_status s "done" "ready" refl,
  other_status s "done" "active" refl,
)

tally_status-active :
    (s : String) (tally : TicketTally)
    → TicketTally.active_ticket_count (tally_status s tally)
      ≡ (if s == "active" then 1 else 0) + tally.active_ticket_count
unfolding tally_status
tally_status-active s tally =
    ground (arith, other_status s "active" "pending" refl, other_status s "active" "ready" refl)

tally_from-done :
    (tally : TicketTally) (ts : List TicketNode)
    → TicketTally.completed_ticket_count (tally_from tally ts)
      ≡ tally.completed_ticket_count + count_status "done" ts
unfolding tally_from tally_ticket count_status has_status
tally_from-done tally [] = omega arith
tally_from-done tally (t ∷ ts) =
    omega (arith, tally_from-done (tally_ticket t tally) ts, tally_status-done t.status tally)

tally_from-active :
    (tally : TicketTally) (ts : List TicketNode)
    → TicketTally.active_ticket_count (tally_from tally ts)
      ≡ tally.active_ticket_count + count_status "active" ts
unfolding tally_from tally_ticket count_status has_status
tally_from-active tally [] = omega arith
tally_from-active tally (t ∷ ts) =
    omega (arith, tally_from-active (tally_ticket t tally) ts, tally_status-active t.status tally)

count_status-le : (s : String) (ts : List TicketNode) → count_status s ts ≤ length ts
unfolding count_status
count_status-le s [] = omega arith
count_status-le s (t ∷ ts) = ground (arith, count_status-le s ts)

count_status-all :
    (s : String) (ts : List TicketNode)
    → all (has_status s) ts ≡ true
    → count_status s ts ≡ length ts
unfolding count_status all
count_status-all s [] h = omega arith
count_status-all s (t ∷ ts) h = ground (arith, h, count_status-all s ts)

count_status-any :
    (s : String) (ts : List TicketNode) → (any (has_status s) ts) ≡ ltb 0 (count_status s ts)
unfolding count_status any
count_status-any s [] = refl
count_status-any s (t ∷ ts) = ground (arith, count_status-any s ts)

module _ {F : Type 0} (floats : Floats F) (laws : IsFloats floats) where
  progress_pct-le : (part total : ℕ) → part ≤ total → progress_pct floats part total ≤ 100
  unfolding progress_pct
  progress_pct-le part zero h = omega arith
  progress_pct-le part (suc n) h = ground (arith, percent-le floats laws part n h)

  status_of :
      (total finished running : ℕ)
      → (0 < total
          → finished ≡ total
          → derive_epic_status total finished running (progress_pct floats finished total)
            ≡ completed)
        × (finished ≡ 0
            → running ≡ 0
            → derive_epic_status total finished running (progress_pct floats finished total) ≡ todo)
        × (0 < total
            → 0 < running
            → derive_epic_status total finished running (progress_pct floats finished total) ≢ todo)
  unfolding derive_epic_status progress_pct
  status_of zero finished running =
      ((λ h e. absurd (omega arith)), (λ h e. refl), (λ h e. absurd (omega arith)))
  status_of (suc n) finished running = (
    (λ h e. rw (e, percent_all floats laws n) (ground arith)),
    (λ h e. rw (h, e, percent_none floats laws n) (ground arith)),
    (λ h e. ground (arith, e)),
  )

  -- With floating-point numbers that are monotone and exact at the ends: an epic whose tickets, at least one, are all done is completed; one
  -- with no ticket done or active is to do; one with an active ticket is not to do; and progress is at most 100.
  pub derive_epic_counts-status :
      (ts : List TicketNode)
      → (0 < length ts
          → all (has_status "done") ts ≡ true
          → (derive_epic_counts floats ts).status ≡ completed)
        × (any (has_status "done") ts ≡ false
            → any (has_status "active") ts ≡ false
            → (derive_epic_counts floats ts).status ≡ todo)
        × (any (has_status "active") ts ≡ true → (derive_epic_counts floats ts).status ≢ todo)
        × ((derive_epic_counts floats ts).progress ≤ 100)
  unfolding derive_epic_counts tally_tickets
  derive_epic_counts-status ts =
      let total = tally_from-count no_tickets ts in
      let finished = tally_from-done no_tickets ts in
      let running = tally_from-active no_tickets ts in
      let tally = tally_from no_tickets ts in
      let (full, idle, busy) =
        status_of tally.ticket_count tally.completed_ticket_count tally.active_ticket_count in
      (
        (λ h e.
            full (omega (arith, total))
              (omega (arith, total, finished, count_status-all "done" ts e))),
        (λ h e.
            idle (ground (arith, finished, count_status-any "done" ts, h))
              (ground (arith, running, count_status-any "active" ts, e))),
        (λ h.
            let some_running : 0 < count_status "active" ts =
              ground (arith, count_status-any "active" ts, h) in
            busy (omega (arith, total, some_running, count_status-le "active" ts))
              (omega (arith, running, some_running))),
        progress_pct-le tally.completed_ticket_count tally.ticket_count
            (omega (arith, total, finished, count_status-le "done" ts)),
      )

abbrev pub in_spec_buckets : ProjectCounts → ℕ
in_spec_buckets c =
    c.completed_spec_count + c.draft_spec_count + c.planning_spec_count + c.ready_spec_count
    + c.in_progress_spec_count + c.in_review_spec_count

bucket_spec-buckets :
    (status : SpecStatus) (c : ProjectCounts)
    → (in_spec_buckets (bucket_spec status c) ≡ in_spec_buckets c + 1)
      × (ProjectCounts.spec_count (bucket_spec status c) ≡ c.spec_count)
unfolding bucket_spec
bucket_spec-buckets draft c = (omega arith, refl)
bucket_spec-buckets planning c = (omega arith, refl)
bucket_spec-buckets SpecStatus.ready c = (omega arith, refl)
bucket_spec-buckets SpecStatus.in_progress c = (omega arith, refl)
bucket_spec-buckets ready_for_review c = (omega arith, refl)
bucket_spec-buckets in_review c = (omega arith, refl)
bucket_spec-buckets reviewed c = (omega arith, refl)
bucket_spec-buckets SpecStatus.done c = (omega arith, refl)

count_specs-buckets :
    (specs : List SpecCountsView) (c : ProjectCounts)
    → (in_spec_buckets (count_specs specs c) ≡ in_spec_buckets c + length specs)
      × (ProjectCounts.spec_count (count_specs specs c) ≡ c.spec_count + length specs)
unfolding count_specs count_spec
count_specs-buckets [] c = (omega arith, omega arith)
count_specs-buckets (v ∷ specs) c =
    let (a, b) = count_specs-buckets specs (count_spec v c) in
    let (d, e) = bucket_spec-buckets v.status c in (omega (arith, a, d), omega (arith, b, e))

-- Each specification of a project is in one of the six buckets, whatever its status: the buckets add up to the
-- number of specifications.
pub derive_project_counts-buckets :
    (specs : List SpecCountsView)
    → (in_spec_buckets (derive_project_counts specs) ≡ length specs)
      × ((derive_project_counts specs).spec_count ≡ length specs)
unfolding derive_project_counts
derive_project_counts-buckets specs =
    let (a, b) = count_specs-buckets specs no_specs in (omega (arith, a), omega (arith, b))
