-- ===== src/Tasks/Dispatch.antt =====
-- services/task_queue/relay.py: the relay of the dispatch outbox to the broker.
use ang553_latam_aie_01_fina.Common.{
  ℕ, ◌+◌, ◌*◌, ◌^◌, String, Bool, true, false, not, ◌&&◌, ◌||◌, Option, none, some, List, [], ◌∷◌,
  opt_eq, map, ◌==◌, ltb, leb, any_of, change_where, if◌then◌else◌,
}
use ang553_latam_aie_01_fina.Tasks.Types.{
  ExecutionState, accepted, queued, DispatchStatus, dispatch_pending, publishing, dispatch_retry,
  published, publication_uncertain, dispatch_reconciliation, TaskRow, DispatchRow, Registry,
  task_with, second,
}
use ang553_latam_aie_01_fina.Tasks.{due}

-- The arguments of `relay_once` besides its publisher, all positive (`main`).
pub record RelayConfig : Type 0 where
  pub lease_seconds : ℕ
  pub max_backoff_seconds : ℕ
  pub max_publish_attempts : ℕ

abbrev pub is_publishing : DispatchStatus → Bool
is_publishing publishing = true
is_publishing _ = false

abbrev pub needs_reconciliation : DispatchStatus → Bool
needs_reconciliation dispatch_reconciliation = true
needs_reconciliation _ = false

-- `('pending', 'retry_wait', 'publication_uncertain')`
abbrev pub is_waiting : DispatchStatus → Bool
is_waiting dispatch_pending = true
is_waiting dispatch_retry = true
is_waiting publication_uncertain = true
is_waiting _ = false

-- The first two updates of `_claim_one`, on one row.
abbrev pub expire : ℕ → DispatchRow → DispatchRow
expire now o =
    if is_publishing o.dispatch_status && due now o.relay_lease_expires_at
    then record o {
      dispatch_status = publication_uncertain;
      last_error_code = some "publication_uncertain";
      updated_at = now;
    }
    else o

abbrev pub exhaust : ℕ → ℕ → DispatchRow → DispatchRow
exhaust max now o =
    if is_waiting o.dispatch_status && leb max o.publish_attempts
    then record o {
      dispatch_status = dispatch_reconciliation;
      last_error_code = some "publish_attempts_exhausted";
      updated_at = now;
    }
    else o

abbrev pub dispatch_with : ℕ → DispatchRow → Bool
dispatch_with id o = o.task_id == id

-- The third, on one task.
abbrev pub mark_task : ℕ → List DispatchRow → TaskRow → TaskRow
mark_task now outbox r =
    if any_of
        (λ (o : DispatchRow). dispatch_with r.task_id o && needs_reconciliation o.dispatch_status)
        outbox
      && not (needs_reconciliation r.dispatch_status)
    then record r { dispatch_status = dispatch_reconciliation; updated_at = now }
    else r

abbrev pub lease_free : ℕ → Option ℕ → Bool
lease_free now none = true
lease_free now (some t) = leb t now

abbrev pub is_ready : ℕ → ℕ → DispatchRow → Bool
is_ready max now o =
    is_waiting o.dispatch_status
    && ltb o.publish_attempts max
    && leb o.next_attempt_at now
    && lease_free now o.relay_lease_expires_at

-- `ORDER BY next_attempt_at, created_at LIMIT 1`
abbrev pub ready_before : DispatchRow → DispatchRow → Bool
ready_before a b =
    ltb a.next_attempt_at b.next_attempt_at
    || (a.next_attempt_at == b.next_attempt_at && ltb a.created_at b.created_at)

unfoldable pub readier : DispatchRow → Option DispatchRow → DispatchRow
readier o none = o
readier o (some best) = if ready_before best o then best else o

unfoldable pub next_ready : (DispatchRow → Bool) → List DispatchRow → Option DispatchRow
next_ready p [] = none
next_ready p (o ∷ rows) =
    let rest = next_ready p rows in if p o then some (readier o rest) else rest

abbrev pub take_row : String → ℕ → ℕ → ℕ → DispatchRow → DispatchRow
take_row owner token lease now o = record o {
  dispatch_status = publishing;
  relay_owner = some owner;
  relay_token = some token;
  relay_lease_expires_at = some (now + lease * second);
  publish_attempts = o.publish_attempts + 1;
  updated_at = now;
}

-- The tables after the three updates.
unfoldable pub swept : ℕ → ℕ → Registry → Registry
swept max now s =
    let outbox = map (λ o. exhaust max now (expire now o)) s.outbox in
    record s { outbox = outbox; tasks = map (mark_task now outbox) s.tasks }

unfoldable pub take_ready :
    String → ℕ → ℕ → ℕ → Option DispatchRow → Registry → Option DispatchRow × Registry
take_ready owner token lease now none s = (none, s)
take_ready owner token lease now (some o) s = (
  some (take_row owner token lease now o),
  record s {
    outbox = change_where (dispatch_with o.task_id) (take_row owner token lease now) s.outbox;
  },
)

unfoldable pub claim_one : RelayConfig → String → ℕ → ℕ → Registry → Option DispatchRow × Registry
claim_one c owner token now s =
    let t = swept c.max_publish_attempts now s in
    take_ready owner token c.lease_seconds now
      (next_ready (is_ready c.max_publish_attempts now) t.outbox) t

-- `2 ** min(attempts, 8)`, at most the configured backoff, in seconds.
abbrev pub smaller : ℕ → ℕ → ℕ
smaller a b = if leb a b then a else b

abbrev pub delay : ℕ → ℕ → ℕ
delay max attempts = smaller max (2 ^ smaller attempts 8)

abbrev pub is_taken : ℕ → ℕ → DispatchRow → Bool
is_taken id token o =
    dispatch_with id o && opt_eq o.relay_token (some token) && is_publishing o.dispatch_status

abbrev pub release_row : RelayConfig → ℕ → String → ℕ → DispatchRow → DispatchRow
release_row c wait code now o = record o {
  dispatch_status =
      if leb c.max_publish_attempts o.publish_attempts
      then dispatch_reconciliation
      else dispatch_retry;
  next_attempt_at = now + wait * second;
  relay_owner = none;
  relay_token = none;
  relay_lease_expires_at = none;
  last_error_code = some code;
  updated_at = now;
}

abbrev pub flag_task : ℕ → TaskRow → TaskRow
flag_task now r = record r { dispatch_status = dispatch_reconciliation; updated_at = now }

unfoldable pub publish_failed : RelayConfig → ℕ → String → ℕ → DispatchRow → Registry → Registry
publish_failed c token code now o s = record s {
  outbox =
      change_where (is_taken o.task_id token)
        (release_row c (delay c.max_backoff_seconds o.publish_attempts) code now) s.outbox;
  tasks =
      if leb c.max_publish_attempts o.publish_attempts
      then change_where (task_with o.task_id) (flag_task now) s.tasks
      else s.tasks;
}

abbrev pub published_row : ℕ → DispatchRow → DispatchRow
published_row now o = record o {
  dispatch_status = published;
  published_at = some now;
  relay_owner = none;
  relay_token = none;
  relay_lease_expires_at = none;
  last_error_code = none;
  updated_at = now;
}

abbrev pub queued_if_accepted : ExecutionState → ExecutionState
queued_if_accepted accepted = queued
queued_if_accepted s = s

abbrev pub queue_task : ℕ → TaskRow → TaskRow
queue_task now r = record r {
  dispatch_status = published;
  execution_state = queued_if_accepted r.execution_state;
  updated_at = now;
}

unfoldable pub publish_done : ℕ → ℕ → DispatchRow → Registry → Registry
publish_done token now o s = record s {
  outbox = change_where (is_taken o.task_id token) (published_row now) s.outbox;
  tasks =
      if any_of (is_taken o.task_id token) s.outbox
      then change_where (task_with o.task_id) (queue_task now) s.tasks
      else s.tasks;
}

-- How a publication ends: the broker took the message; the publisher raised, with the code of
-- `public_exception`; or nothing that follows is committed, the process having stopped or the second
-- transaction having failed.
pub data Publication : Type 0 where
  taken : Publication
  raised : String → Publication
  stopped : Publication

pub record RelayTurn : Type 0 where
  pub owner : String
  pub token : ℕ
  pub now : ℕ
  pub later : ℕ
  pub publication : Publication

unfoldable pub published_turn :
    RelayConfig → RelayTurn → Option DispatchRow × Registry → Publication → Bool × Registry
published_turn c t (none, s) p = (false, s)
published_turn c t (some o, s) taken = (true, publish_done t.token t.later o s)
published_turn c t (some o, s) (raised code) = (true, publish_failed c t.token code t.later o s)
published_turn c t (some o, s) stopped = (true, s)

-- `relay_once`: whether it took a row up.
unfoldable pub relay_once : RelayConfig → RelayTurn → Registry → Bool × Registry
relay_once c t s = published_turn c t (claim_one c t.owner t.token t.now s) t.publication
