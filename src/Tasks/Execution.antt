-- ===== src/Tasks/Execution.antt =====
-- The fence of services/task_queue/tasks.py: which executions of a worker run the pipeline.
use ang553_latam_aie_01_fina.Common.{
  ℕ, String, Bool, true, false, ◌≡◌, ◌⊎◌, inl, inr, refl, Option, none, some, List, Bool-cases,
  ◌&&◌, ==_iff, ◌==◌, arith,
}
use ang553_latam_aie_01_fina.Tasks.Types.{TaskRow, Registry}
use ang553_latam_aie_01_fina.Tasks.{contract_version}
use ang553_latam_aie_01_fina.Tasks.Claims.{claim_execution, start_prefect}
use ang553_latam_aie_01_fina.Tasks.Calls.{TaskCall}
use ang553_latam_aie_01_fina.Tasks.Worker

-- The same worker with another run of the pipeline, and other calls during it.
abbrev pub with_flow : Worker.Flow → List TaskCall → Worker.Worker → Worker.Worker
with_flow flow meanwhile w = record w { flow = flow; meanwhile = meanwhile }

module _ (w : Worker.Worker) (m : Worker.Message) where
  -- The two transactions of a claim and of its start.
  abbrev claimed : Registry → Option (Option TaskRow) × Registry
  claimed s =
      Worker.end_transaction (w.link 0) s (
        Worker.on_tasks (claim_execution w.token w.attempt_id w.lease_seconds (w.clock 0) m.task) s)

  abbrev started : ℕ → Registry → Option Bool × Registry
  started epoch t =
      Worker.end_transaction (w.link 1) t
        (Worker.on_tasks (start_prefect w.token epoch w.lease_seconds (w.clock 1) m.task) t)

  -- The claim was granted and confirmed, for the run of the message, and so was the start under its epoch.
  pub record StartConfirmed (s : Registry) : Type 0 where
    pub row : TaskRow
    pub after_claim : Registry
    pub after_start : Registry
    pub claim : claimed s ≡ (some (some row), after_claim)
    pub run : row.run_id ≡ m.run
    pub start : started row.execution_epoch after_claim ≡ (some true, after_start)

  module _ (flow : Worker.Flow) (meanwhile : List TaskCall) where
    abbrev other : Worker.Worker
    other = with_flow flow meanwhile w

    retry_same :
        (c : Worker.Claim) (code message : String) (s : Registry)
        → Worker.retry_claim other m c code message s ≡ Worker.retry_claim w m c code message s
    unfolding Worker.retry_claim Worker.retry_or_fail Worker.close_claim Worker.close_after
    retry_same c code message s = refl

    close_same :
        (c : Worker.Claim) (reason code message : String) (s : Registry)
        → Worker.close_claim other m c reason code message s
          ≡ Worker.close_claim w m c reason code message s
    unfolding Worker.close_claim Worker.close_after
    close_same c reason code message s = refl

    unclaimed_same : (s : Registry) → Worker.unclaimed other m s ≡ Worker.unclaimed w m s
    unfolding Worker.unclaimed Worker.existing_result Worker.stored_result
    unclaimed_same s = refl

    run_flow-Fenced :
        (c : Worker.Claim) (y : Option Bool × Registry)
        → (Worker.run_flow other m c y ≡ Worker.run_flow w m c y)
          ⊎ ((u : Registry) × (y ≡ (some true, u)))
    unfolding Worker.run_flow
    run_flow-Fenced c (none, u) = inl refl
    run_flow-Fenced c (some false, u) = inl refl
    run_flow-Fenced c (some true, u) = inr (u, refl)

    execute_claim-Fenced :
        (c : Worker.Claim) (p : Worker.Probe) (t : Registry)
        → (Worker.execute_claim other m c p t ≡ Worker.execute_claim w m c p t)
          ⊎ ((u : Registry) × (started c.epoch t ≡ (some true, u)))
    unfolding Worker.execute_claim
    execute_claim-Fenced c (Worker.unavailable code message) t = inl (retry_same c code message t)
    execute_claim-Fenced c (Worker.broken code message) t =
        inl (close_same c "non_retryable" code message t)
    execute_claim-Fenced c Worker.answers t = run_flow-Fenced c (started c.epoch t)

    with_claim-Fenced :
        (week : ℕ) (s : Registry) (y : Option (Option TaskRow) × Registry)
        → claimed s ≡ y
        → (Worker.with_claim other m week y ≡ Worker.with_claim w m week y) ⊎ StartConfirmed s
    unfolding Worker.with_claim
    with_claim-Fenced week s (none, t) e = inl refl
    with_claim-Fenced week s (some none, t) e = inl (unclaimed_same t)
    with_claim-Fenced week s (some (some r), t) e =
        elim (Bool-cases (r.run_id == m.run && r.week_start == week)) [
          | inr different ↦ inl (rw different refl)
          | inl ours ↦
              elim (execute_claim-Fenced
                (record { epoch = r.execution_epoch; attempt = r.attempt_count }) w.probe t) [
                  | inl same ↦ inl (rw ours same)
                  | inr (u, start) ↦ inr (record {
                    row = r;
                    after_claim = t;
                    after_start = u;
                    claim = e;
                    run = (==_iff r.run_id m.run).0 (ground (arith, ours));
                    start = start;
                  })
                ]
        ]

    claim_week-Fenced :
        (week : Option ℕ) (s : Registry)
        → (Worker.claim_week other m week s ≡ Worker.claim_week w m week s) ⊎ StartConfirmed s
    unfolding Worker.claim_week
    claim_week-Fenced none s = inl refl
    claim_week-Fenced (some week) s = elim (Bool-cases (Worker.valid_timing w m)) [
      | inr refused ↦ inl (rw refused refl)
      | inl accepted ↦ elim (with_claim-Fenced week s (claimed s) refl) [
        | inl same ↦ inl (rw accepted same)
        | inr confirmed ↦ inr confirmed
      ]
    ]

    -- A worker's answer and the registry that it leaves depend on the pipeline's run, and on what others do
    -- during it, only if the claim of the task was granted for the run of the message, the start under its
    -- epoch was accepted, and both transactions were confirmed: without that the pipeline does not run.
    pub run_weekly_pipeline_task-Fenced :
        (s : Registry)
        → (Worker.run_weekly_pipeline_task other m s ≡ Worker.run_weekly_pipeline_task w m s)
          ⊎ StartConfirmed s
    unfolding Worker.run_weekly_pipeline_task
    run_weekly_pipeline_task-Fenced s = elim (Bool-cases (m.version == contract_version)) [
      | inr unknown ↦ inl (rw unknown refl)
      | inl known ↦ elim (claim_week-Fenced (Worker.parse_closed_week w.today m.day) s) [
        | inl same ↦ inl (rw known same)
        | inr confirmed ↦ inr confirmed
      ]
    ]
