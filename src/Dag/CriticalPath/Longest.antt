-- ===== src/Dag/CriticalPath/Longest.antt =====
-- The memoised recursion computes what the plain recursion computes.
use specsmither.Base.Text.{◌==◌}
use specsmither.Dag.CriticalPath.{
  Candidate, improves, no_path, Memo, best_of, extend, longest_to, cached_or, record_result,
}
use specsmither.Base.Sets.{mem, mem-cons_self}
use specsmither.Base.{
  if◌then◌else◌, ℕ, zero, suc, ◌<◌, String, ◌≡◌, refl, ap, true, Option, some, List, [], ◌∷◌, arith,
  Bool-cases, and_then, sym, ◌∙◌, inl, inr, none, eq_iff,
}
use mathlib.Core.Option.{some-injective}
use specsmither.Base.Dict.{Dict, get, put, get-put}

-- The best of the candidates of some nodes, as the loop over the dependencies picks it.
unfoldable pub choose : (String → Candidate) → List String → Candidate → Candidate
choose f [] best = best
choose f (d ∷ ds) best = choose f ds (if improves (f d) best then f d else best)

-- The recursion without the memo.
unfoldable pub longest_ref : Dict ℕ → (String → List String) → ℕ → String → Candidate
longest_ref minutes deps zero n = no_path
longest_ref minutes deps (suc fuel) n =
    extend minutes n (choose (longest_ref minutes deps fuel) (deps n) no_path)

choose-same :
    (f g : String → Candidate) (ds : List String) (best : Candidate)
    → ((d : String) → mem d ds ≡ true → f d ≡ g d)
    → choose f ds best ≡ choose g ds best
unfolding choose
choose-same f g [] best h = refl
choose-same f g (d ∷ ds) best h =
    rw (h d (mem-cons_self d ds)) (choose-same f g ds _ (λ e m. h e (unfold mem in ground arith)))

-- Dependencies have a smaller rank: there is no cycle.
abbrev pub IsAcyclic : (String → List String) → (String → ℕ) → Type 0
IsAcyclic deps rank = (n d : String) → mem d (deps n) ≡ true → rank d < rank n

module _ (minutes : Dict ℕ) (deps : String → List String) (rank : String → ℕ)
    (acyclic : IsAcyclic deps rank) where
  longest_ref_stable :
      (f g : ℕ) (n : String)
      → rank n < f
      → rank n < g
      → longest_ref minutes deps f n ≡ longest_ref minutes deps g n
  unfolding longest_ref
  longest_ref_stable zero g n h k = absurd (omega arith)
  longest_ref_stable (suc f) zero n h k = absurd (omega arith)
  longest_ref_stable (suc f) (suc g) n h k = ap (extend minutes n) (
      choose-same (longest_ref minutes deps f) (longest_ref minutes deps g) (deps n) no_path (λ d m.
        longest_ref_stable f g d (omega (arith, acyclic n d m)) (omega (arith, acyclic n d m))))

  -- The candidate of a node, from the recursion with enough fuel.
  pub best : String → Candidate
  best n = longest_ref minutes deps (suc (rank n)) n

  pub best_step : (n : String) → best n ≡ extend minutes n (choose best (deps n) no_path)
  unfolding best longest_ref
  best_step n = ap (extend minutes n) (
      choose-same (longest_ref minutes deps (rank n)) best (deps n) no_path
        (λ d m. longest_ref_stable (rank n) (suc (rank d)) d (acyclic n d m) (omega arith)))

  -- What is in the memo is right.
  abbrev pub IsSound : Memo → Type 0
  IsSound memo = (k : String) (c : Candidate) → get memo k ≡ some c → c ≡ best k

  abbrev pub Finds : Option (Candidate × Memo) → Candidate → Type 0
  Finds r c = (memo : Memo) × (r ≡ some (c, memo)) × IsSound memo

  best_of-Finds :
      (call : String → Memo → Option (Candidate × Memo)) (ds : List String) (b : Candidate)
      (memo : Memo)
      → ((d : String) → mem d ds ≡ true → (m : Memo) → IsSound m → Finds (call d m) (best d))
      → IsSound memo
      → Finds (best_of call ds b memo) (choose best ds b)
  unfolding best_of choose
  best_of-Finds call [] b memo h s = (memo, refl, s)
  best_of-Finds call (d ∷ ds) b memo h s =
      let (memo', e, s') = h d (mem-cons_self d ds) memo s in
      let (memo'', e', s'') =
        best_of-Finds call ds (if improves (best d) b then best d else b) memo'
          (λ d' m. h d' (unfold mem in ground arith)) s' in
      (
        memo'',
        ap
              (λ o.
                and_then o
                  (λ found. best_of call ds (if improves found.0 b then found.0 else b) found.1))
              e
            ∙ e',
        s'',
      )

  put-IsSound : (n : String) (memo : Memo) → IsSound memo → IsSound (put memo n (best n))
  put-IsSound n memo s k c h = elim (Bool-cases (n == k)) [
    | inl same ↦
        let e : best n ≡ c =
          some-injective _ _ (rw same at (sym (get-put memo n k (best n)) ∙ h)) in
        sym e ∙ ap best ((eq_iff n k).0 same)
    | inr other ↦ s k c (rw other at (sym (get-put memo n k (best n)) ∙ h))
  ]

  record-Finds :
      (n : String) (r : Option (Candidate × Memo))
      → Finds r (choose best (deps n) no_path)
      → Finds (record_result minutes n r) (best n)
  unfolding record_result
  record-Finds n r (memo, e, s) = (
    put memo n (best n),
    ap (record_result minutes n) e ∙ ap (λ c. some (c, put memo n c)) (sym (best_step n)),
    put-IsSound n memo s,
  )

  cached_or-Finds :
      (n : String) (memo : Memo) (o : Option Candidate) (computed : Option (Candidate × Memo))
      → get memo n ≡ o
      → IsSound memo
      → Finds computed (best n)
      → Finds (cached_or memo o computed) (best n)
  unfolding cached_or
  cached_or-Finds n memo none computed e s f = f
  cached_or-Finds n memo (some c) computed e s f = (memo, ap (λ a. some (a, memo)) (s n c e), s)

  -- With more fuel than the rank of the node the memoised recursion ends, with the candidate of the
  -- plain one, and the memo it leaves is right.
  pub longest_to-Finds :
      (fuel : ℕ) (n : String) (memo : Memo)
      → rank n < fuel
      → IsSound memo
      → Finds (longest_to fuel minutes deps n memo) (best n)
  unfolding longest_to
  longest_to-Finds zero n memo h s = absurd (omega arith)
  longest_to-Finds (suc fuel) n memo h s =
      cached_or-Finds n memo (get memo n)
        (record_result minutes n (best_of (longest_to fuel minutes deps) (deps n) no_path memo))
        refl s
        (record-Finds n (best_of (longest_to fuel minutes deps) (deps n) no_path memo) (
          best_of-Finds (longest_to fuel minutes deps) (deps n) no_path memo
            (λ d m memo' s'. longest_to-Finds fuel d memo' (omega (arith, acyclic n d m)) s') s))
