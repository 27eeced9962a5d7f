-- ===== src/Tasks/Diagram/Relayed.antt =====
-- The relay of services/task_queue/relay.py, as what it does to every recorded task.
use mathlib.Core.Path.{subst}
use ang553_latam_aie_01_fina.Common.{
  ℕ, String, Bool, true, false, ◌≡◌, inl, refl, sym, ap, ◌∙◌, Option, none, some, List, arith,
  any_of, change_where, if◌then◌else◌, leb,
}
use ang553_latam_aie_01_fina.Tasks.Types.{
  ExecutionState, accepted, TaskRow, DispatchRow, Registry, task_with,
}
use ang553_latam_aie_01_fina.Tasks.Reconciliation.{is_settled}
use ang553_latam_aie_01_fina.Tasks.Dispatch.{
  RelayConfig, RelayTurn, Publication, taken, raised, stopped, mark_task, flag_task, queue_task,
  queued_if_accepted, swept, take_ready, claim_one, publish_failed, publish_done, published_turn,
  relay_once, is_taken,
}
use ang553_latam_aie_01_fina.Tasks.Rows.{
  Evolves, Evolves-refl, Evolves-trans, Evolves-change_where, Evolves-map,
}
use ang553_latam_aie_01_fina.Tasks.Diagram.{life_of, life, end_of_task, Moved}

-- The relay touches no more of a task than its dispatch, and queues it when it was accepted.
record Still (r r' : TaskRow) : Type 0 where
  run_id : r'.run_id ≡ r.run_id
  week_start : r'.week_start ≡ r.week_start
  life : life r' ≡ life r
  epoch : r'.execution_epoch ≡ r.execution_epoch
  attempts : r'.attempt_count ≡ r.attempt_count
  kept : is_settled r.execution_state ≡ true → end_of_task r' ≡ end_of_task r

Still-refl : (r : TaskRow) → Still r r
Still-refl r = record {
  run_id = refl;
  week_start = refl;
  life = refl;
  epoch = refl;
  attempts = refl;
  kept = λ h. refl;
}

Still-trans : (a b c : TaskRow) → Still a b → Still b c → Still a c
Still-trans a b c p q = record {
  run_id = q.run_id ∙ p.run_id;
  week_start = q.week_start ∙ p.week_start;
  life = q.life ∙ p.life;
  epoch = q.epoch ∙ p.epoch;
  attempts = q.attempts ∙ p.attempts;
  kept = λ h.
      q.kept (subst (λ x. is_settled x ≡ true) (sym (ap (λ o. o.state) (p.kept h))) h) ∙ p.kept h;
}

Still-Moved : (r r' : TaskRow) → Still r r' → Moved r r'
Still-Moved r r' p = record {
  run_id = p.run_id;
  week_start = p.week_start;
  life = inl p.life;
  drift = ground (arith, p.epoch, p.attempts);
  kept = p.kept;
}

flag_task-Still : (now : ℕ) (r : TaskRow) → Still r (flag_task now r)
flag_task-Still now r = record {
  run_id = refl;
  week_start = refl;
  life = refl;
  epoch = refl;
  attempts = refl;
  kept = λ h. refl;
}

mark_task-Still :
    (now : ℕ) (outbox : List DispatchRow) (r : TaskRow) → Still r (mark_task now outbox r)
mark_task-Still now outbox r = go _
  where
    go : (b : Bool) → Still r (if b then flag_task now r else r)
    go true = flag_task-Still now r
    go false = Still-refl r

same_life : (st : ExecutionState) (n : ℕ) → life_of (queued_if_accepted st) n ≡ life_of st n
same_life accepted n = refl
same_life _ n = refl

settled-queued : (st : ExecutionState) → is_settled st ≡ true → queued_if_accepted st ≡ st
settled-queued accepted h = ground arith
settled-queued _ h = refl

queue_task-Still : (now : ℕ) (r : TaskRow) → Still r (queue_task now r)
queue_task-Still now r = record {
  run_id = refl;
  week_start = refl;
  life = same_life r.execution_state r.attempt_count;
  epoch = refl;
  attempts = refl;
  kept = λ h. ap (λ st. record (end_of_task r) { state = st }) (settled-queued r.execution_state h);
}

marked-Still :
    (b : Bool) (id : ℕ) (f : TaskRow → TaskRow) (s : List TaskRow)
    → ((r : TaskRow) → (f r).task_id ≡ r.task_id)
    → ((r : TaskRow) → Still r (f r))
    → Evolves Still s (if b then change_where (task_with id) f s else s)
marked-Still true id f s keeps h = Evolves-change_where Still id f s Still-refl keeps (λ r p. h r)
marked-Still false id f s keeps h = Evolves-refl Still Still-refl s

publish-Still :
    (c : RelayConfig) (t : RelayTurn) (o : Option DispatchRow) (s : Registry) (p : Publication)
    → Evolves Still s.tasks ((published_turn c t (o, s) p).1).tasks
unfolding published_turn publish_failed publish_done
publish-Still c t none s p = Evolves-refl Still Still-refl s.tasks
publish-Still c t (some o) s taken =
    marked-Still (any_of (is_taken o.task_id t.token) s.outbox) o.task_id (queue_task t.later)
      s.tasks (λ r. refl) (queue_task-Still t.later)
publish-Still c t (some o) s (raised code) =
    marked-Still (leb c.max_publish_attempts o.publish_attempts) o.task_id (flag_task t.later)
      s.tasks (λ r. refl) (flag_task-Still t.later)
publish-Still c t (some o) s stopped = Evolves-refl Still Still-refl s.tasks

keeps_id :
    (now : ℕ) (outbox : List DispatchRow) (r : TaskRow)
    → (mark_task now outbox r).task_id ≡ r.task_id
keeps_id now outbox r = go _
  where
    go : (b : Bool) → (if b then flag_task now r else r).task_id ≡ r.task_id
    go true = refl
    go false = refl

take_ready-tasks :
    (owner : String) (token lease now : ℕ) (o : Option DispatchRow) (s : Registry)
    → ((take_ready owner token lease now o s).1).tasks ≡ s.tasks
unfolding take_ready
take_ready-tasks owner token lease now none s = refl
take_ready-tasks owner token lease now (some o) s = refl

claim_one-Still :
    (c : RelayConfig) (owner : String) (token now : ℕ) (s : Registry)
    → Evolves Still s.tasks ((claim_one c owner token now s).1).tasks
unfolding claim_one swept
claim_one-Still c owner token now s =
    rw (take_ready-tasks owner token c.lease_seconds now _ _)
      (Evolves-map Still (mark_task now _) s.tasks (keeps_id now _) (mark_task-Still now _))

relay_once-Still :
    (c : RelayConfig) (t : RelayTurn) (s : Registry)
    → Evolves Still s.tasks ((relay_once c t s).1).tasks
unfolding relay_once
relay_once-Still c t s =
    Evolves-trans Still Still-trans s.tasks _ _ (claim_one-Still c t.owner t.token t.now s) (
      publish-Still c t (claim_one c t.owner t.token t.now s).0
        (claim_one c t.owner t.token t.now s).1 t.publication)

pub relay_once-Moved :
    (c : RelayConfig) (t : RelayTurn) (s : Registry)
    → Evolves Moved s.tasks ((relay_once c t s).1).tasks
relay_once-Moved c t s = record {
  at = λ id r h.
      let (r', h', p) = (relay_once-Still c t s).at id r h in (r', h', Still-Moved r r' p);
}
