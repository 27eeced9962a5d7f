-- ===== src/Tasks/Attempts.antt =====
-- Sequences of calls of services/task_queue, and the claims and starts of one task in them.
use mathlib.Core.Path.{subst}
use ang553_latam_aie_01_fina.Common.{
  ℕ, ◌+◌, ◌≤◌, ◌<◌, Bool, true, false, ◌&&◌, ◌≡◌, ◌⊎◌, inl, inr, refl, sym, ap, ◌∙◌, some, List, [],
  ◌∷◌, arith, ◌==◌, ==_iff, Bool-cases, ltb, if◌then◌else◌,
}
use ang553_latam_aie_01_fina.Tasks.Types.{
  ExecutionState, TaskRow, Registry, find_task, update_task, is_claimed, claimed,
}
use ang553_latam_aie_01_fina.Tasks.Claims.{
  claim_execution, start_prefect, is_claimable, claim_row, is_startable, started_row,
}
use ang553_latam_aie_01_fina.Tasks.Calls.{TaskCall, claim, start, perform}
use ang553_latam_aie_01_fina.Tasks.Rows.{
  is_yes, is_yes-answered, answered_rows, is_answered, update_task-answered,
}
use ang553_latam_aie_01_fina.Tasks.Diagram as Edges
use ang553_latam_aie_01_fina.Tasks.Diagram.{
  Life, waiting, preparing, executing, parked, ended, life_of, life, Edge, Moved,
}
use ang553_latam_aie_01_fina.Tasks.Diagram.Refines.{perform-Moved}

abbrev pub attempts : Life → ℕ
attempts (waiting n) = n
attempts (preparing n) = n
attempts (executing n) = n
attempts (parked n) = n
attempts (ended e n) = n

pub attempts-life_of : (st : ExecutionState) (n : ℕ) → attempts (life_of st n) ≡ n
attempts-life_of st n = ground arith

Edge-attempts :
    {a b : Life} → Edge a b → (attempts a ≤ attempts b) × (attempts a ≤ 3 → attempts b ≤ 3)
Edge-attempts (Edges.take h) = (omega arith, λ k. omega arith)
Edge-attempts (Edges.retake h) = (omega arith, λ k. omega arith)
Edge-attempts _ = (omega arith, λ k. k)

-- The starts that the state of a task still allows.
abbrev pub budget : Life → ℕ
budget (waiting n) = 1
budget (preparing n) = 1
budget _ = 0

Edge-budget : {a b : Life} → Edge a b → budget b ≤ budget a
Edge-budget (Edges.take h) = omega arith
Edge-budget _ = omega arith

pub Moved-attempts :
    (r r' : TaskRow)
    → Moved r r'
    → (r.attempt_count ≤ r'.attempt_count) × (r.attempt_count ≤ 3 → r'.attempt_count ≤ 3)
Moved-attempts r r' m = go m.life
  where
    go :
        (life r' ≡ life r) ⊎ Edge (life r) (life r')
        → (r.attempt_count ≤ r'.attempt_count) × (r.attempt_count ≤ 3 → r'.attempt_count ≤ 3)
    go (inl e) = ground (
      arith,
      ap attempts e,
      attempts-life_of r.execution_state r.attempt_count,
      attempts-life_of r'.execution_state r'.attempt_count,
    )
    go (inr e) = ground (
      arith,
      Edge-attempts e,
      attempts-life_of r.execution_state r.attempt_count,
      attempts-life_of r'.execution_state r'.attempt_count,
    )

Moved-budget : (r r' : TaskRow) → Moved r r' → budget (life r') ≤ budget (life r)
Moved-budget r r' m = go m.life
  where
    go : (life r' ≡ life r) ⊎ Edge (life r) (life r') → budget (life r') ≤ budget (life r)
    go (inl e) = omega (arith, ap budget e)
    go (inr e) = Edge-budget e

-- Whether a call claims a task, and whether it starts one.
unfoldable pub claims_task : ℕ → TaskCall → Registry → Bool
claims_task id (claim token attempt lease now j) s =
    j == id && is_answered (claim_execution token attempt lease now j s.tasks).0
claims_task id _ s = false

unfoldable pub starts_task : ℕ → TaskCall → Registry → Bool
starts_task id (start token epoch lease now j) s =
    j == id && is_yes (start_prefect token epoch lease now j s.tasks).0
starts_task id _ s = false

abbrev pub one_if : Bool → ℕ
one_if b = if b then 1 else 0

-- The calls of a sequence that claim a task, and those that start it.
unfoldable pub claims : ℕ → List TaskCall → Registry → ℕ
claims id [] s = 0
claims id (call ∷ calls) s = one_if (claims_task id call s) + claims id calls (perform call s)

unfoldable pub starts : ℕ → List TaskCall → Registry → ℕ
starts id [] s = 0
starts id (call ∷ calls) s = one_if (starts_task id call s) + starts id calls (perform call s)

pub claim_execution-answered :
    (token attempt lease now id : ℕ) (s : List TaskRow) (r : TaskRow)
    → find_task id s ≡ some r
    → is_answered (claim_execution token attempt lease now id s).0 ≡ true
    → (is_claimable now r ≡ true)
      × (find_task id (claim_execution token attempt lease now id s).1
          ≡ some (claim_row token attempt lease now r))
unfolding claim_execution
claim_execution-answered token attempt lease now id s r p h = elim (Bool-cases (ltb lease 1)) [
  | inl short ↦ absurd (ground (arith, short))
  | inr long ↦ rw long (
      update_task-answered id (is_claimable now) (claim_row token attempt lease now) s r (λ a. refl)
        p (ground (arith, long)))
]

start_prefect-answered :
    (token epoch lease now id : ℕ) (s : List TaskRow) (r : TaskRow)
    → find_task id s ≡ some r
    → is_yes (start_prefect token epoch lease now id s).0 ≡ true
    → (is_startable now token epoch r ≡ true)
      × (find_task id (start_prefect token epoch lease now id s).1 ≡ some (started_row lease now r))
unfolding start_prefect
start_prefect-answered token epoch lease now id s r p h =
    let update = update_task id (is_startable now token epoch) (started_row lease now) s in
    rw (answered_rows update) (
      update_task-answered id (is_startable now token epoch) (started_row lease now) s r (λ a. refl)
        p (sym (is_yes-answered update) ∙ h))

claimed-attempts :
    (id : ℕ) (call : TaskCall) (s : Registry) (r r' : TaskRow)
    → find_task id s.tasks ≡ some r
    → find_task id (perform call s).tasks ≡ some r'
    → claims_task id call s ≡ true
    → (r'.attempt_count ≡ r.attempt_count + 1) × (r.attempt_count < 3)
unfolding claims_task perform
claimed-attempts id (claim token attempt lease now j) s r r' p q h =
    let here : j ≡ id = (==_iff j id).0 (ground arith) in
    let (c, later) =
      claim_execution-answered token attempt lease now j s.tasks r
        (subst (λ k. find_task k s.tasks ≡ some r) (sym here) p) (ground arith) in
    ground (
      arith,
      q,
      c,
      subst
          (λ k.
            find_task k (claim_execution token attempt lease now j s.tasks).1
            ≡ some (claim_row token attempt lease now r))
          here later,
    )
claimed-attempts id _ s r r' p q h = ground arith

started-budget :
    (id : ℕ) (call : TaskCall) (s : Registry) (r r' : TaskRow)
    → find_task id s.tasks ≡ some r
    → find_task id (perform call s).tasks ≡ some r'
    → starts_task id call s ≡ true
    → (budget (life r') ≡ 0) × (budget (life r) ≡ 1)
unfolding starts_task perform
started-budget id (start token epoch lease now j) s r r' p q h =
    let here : j ≡ id = (==_iff j id).0 (ground arith) in
    let (c, later) =
      start_prefect-answered token epoch lease now j s.tasks r
        (subst (λ k. find_task k s.tasks ≡ some r) (sym here) p) (ground arith) in
    let found : find_task id (start_prefect token epoch lease now j s.tasks).1
        ≡ some (started_row lease now r) =
      subst
        (λ k.
          find_task k (start_prefect token epoch lease now j s.tasks).1
          ≡ some (started_row lease now r))
        here later in
    let same : started_row lease now r ≡ r' = ground (arith, q, found) in
    (
      subst (λ x. budget (life x) ≡ 0) same refl,
      from_claimed r.execution_state r.attempt_count (ground (arith, c)),
    )
  where
    from_claimed : (st : ExecutionState) (n : ℕ) → is_claimed st ≡ true → budget (life_of st n) ≡ 1
    from_claimed claimed n h = refl
    from_claimed _ n h = ground arith
started-budget id _ s r r' p q h = ground arith

-- The calls of any sequence that claim a recorded task are at most three, less the claims it has had.
claims-le :
    (id : ℕ) (calls : List TaskCall) (s : Registry) (r : TaskRow)
    → find_task id s.tasks ≡ some r
    → r.attempt_count ≤ 3
    → r.attempt_count + claims id calls s ≤ 3
unfolding claims
claims-le id [] s r p h = omega arith
claims-le id (call ∷ calls) s r p h =
    let (r', q, m) = (perform-Moved call s).at id r p in
    let (up, below) = Moved-attempts r r' m in
    let rest = claims-le id calls (perform call s) r' q (below h) in
    elim (Bool-cases (claims_task id call s)) [
      | inl hit ↦ rw hit (ground (arith, claimed-attempts id call s r r' p q hit, rest))
      | inr miss ↦ rw miss (omega (arith, rest, up))
    ]

starts-le-budget :
    (id : ℕ) (calls : List TaskCall) (s : Registry) (r : TaskRow)
    → find_task id s.tasks ≡ some r
    → starts id calls s ≤ budget (life r)
unfolding starts
starts-le-budget id [] s r p = omega arith
starts-le-budget id (call ∷ calls) s r p =
    let (r', q, m) = (perform-Moved call s).at id r p in
    let rest = starts-le-budget id calls (perform call s) r' q in
    elim (Bool-cases (starts_task id call s)) [
      | inl hit ↦ rw hit (ground (arith, started-budget id call s r r' p q hit, rest))
      | inr miss ↦ rw miss (omega (arith, rest, Moved-budget r r' m))
    ]

budget-le : (l : Life) → budget l ≤ 1
budget-le (waiting n) = omega arith
budget-le _ = omega arith

-- Of the calls of any sequence, those that claim a recorded task are at most three, less the claims that
-- it has had, and at most one starts the pipeline for it, however its claims expire.
pub execution_bounds :
    (id : ℕ) (calls : List TaskCall) (s : Registry) (r : TaskRow)
    → find_task id s.tasks ≡ some r
    → r.attempt_count ≤ 3
    → (r.attempt_count + claims id calls s ≤ 3) × (starts id calls s ≤ 1)
execution_bounds id calls s r p h =
    (claims-le id calls s r p h, omega (arith, starts-le-budget id calls s r p, budget-le (life r)))
