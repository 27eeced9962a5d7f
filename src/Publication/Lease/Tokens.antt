-- ===== src/Publication/Lease/Tokens.antt =====
-- The lease calls of pipelines/concurrency.py one by one: what each may do to the fencing token of
-- a week.
use mathlib.Core.Path.{subst}
use ang553_latam_aie_01_fina.Common.{
  ℕ, ◌≤◌, suc, ℤ, Bool, true, not, ◌&&◌, ◌≡◌, refl, sym, ap, ◌∙◌, Option, none, some, [], ◌∷◌,
  arith, ◌==◌, ==_iff, first-append_some, is_some, Bool-cases, inl, inr,
}
use ang553_latam_aie_01_fina.Publication.Types.{WeekControl, Store, Connection}
use ang553_latam_aie_01_fina.Publication.Call.{
  Result, ok, err, Call, ◌>>=◌, find_control, control_of, change_control, update_control, Ensures,
  Ensures-bind,
}
use ang553_latam_aie_01_fina.Publication.Rules.{
  Reads, Reads-bind, Reads-or_raise, Reads-pure, Reads-execute, Ensures-read, Ensures-write,
  read_rules, first-change_where,
}
use ang553_latam_aie_01_fina.Publication.Controls.{
  insert_control, ensure_week_control, get_week_control, empty_control,
}
use ang553_latam_aie_01_fina.Publication.Runs.History.{require_run-Reads}
use ang553_latam_aie_01_fina.Publication.Lease.{
  from_run_store, lease_statement, checked_seconds, checked_token, run_for_week, grant_lease,
  acquire_week_lease, verify_week_lease, renew_week_lease, release_week_lease, expired,
}

pub lease_statement-Reads : (c : Connection) (n : ℕ) → Reads (lease_statement c n)
unfolding lease_statement
lease_statement-Reads c n = record { at = λ s. ground arith }

pub checked_seconds-Reads : (n : ℤ) → Reads (checked_seconds n)
unfolding checked_seconds
checked_seconds-Reads n = record { at = λ s. ground arith }

pub checked_token-Reads : (n : ℤ) → Reads (checked_token n)
unfolding checked_token
checked_token-Reads n = record { at = λ s. ground arith }

pub from_run_store-Reads : {A : Type 0} (m : Call A) → Reads m → Reads (from_run_store m)
unfolding from_run_store
from_run_store-Reads m rm = record { at = λ s. rm.at s }

pub ruleset lease_reads = (
  read_rules, lease_statement-Reads, checked_seconds-Reads, checked_token-Reads,
  from_run_store-Reads, require_run-Reads,
)

pub run_for_week-Reads : (c : Connection) (id day : ℕ) → Reads (run_for_week c id day)
unfolding run_for_week
run_for_week-Reads c id day = search lease_reads depth 10

-- A row and a later one: the token is no smaller, an owner under the same token was the owner before,
-- and the publication pointer is untouched.
pub record Advances (k k' : WeekControl) : Type 0 where
  pub token : k.fencing_token ≤ k'.fencing_token
  pub owner :
      (o : ℕ)
      → k'.owner_run_id ≡ some o
      → k'.fencing_token ≡ k.fencing_token
      → k.owner_run_id ≡ some o
  pub publication : k'.last_valid_publication_run_id ≡ k.last_valid_publication_run_id

-- Every control row that is stored stays, and only advances.
pub record Fenced (s t : Store) : Type 0 where
  pub at :
      (day : ℕ) (k : WeekControl)
      → find_control day s ≡ some k
      → (k' : WeekControl) × (find_control day t ≡ some k') × Advances k k'

pub Advances-refl : (k : WeekControl) → Advances k k
Advances-refl k = record { token = omega arith; owner = λ o h e. h; publication = refl }

pub Fenced-refl : (s : Store) → Fenced s s
Fenced-refl s = record { at = λ day k h. (k, h, Advances-refl k) }

pub Advances-trans : (k l m : WeekControl) → Advances k l → Advances l m → Advances k m
Advances-trans k l m a b = record {
  token = omega (arith, a.token, b.token);
  owner = λ o h e.
      a.owner o (b.owner o h (omega (arith, a.token, b.token))) (omega (arith, a.token, b.token));
  publication = b.publication ∙ a.publication;
}

pub Fenced-trans : (s t u : Store) → Fenced s t → Fenced t u → Fenced s u
Fenced-trans s t u a b = record {
  at = λ day k h.
      let (l, hl, al) = a.at day k h in
      let (m, hm, bm) = b.at day l hl in (m, hm, Advances-trans k l m al bm);
}

-- A reading step, and a step that fences followed by a reading rest or by another such call.
pub fence_read :
    {A B : Type 0} (m : Call A) (f : A → Call B) (s : Store)
    → Reads m
    → ((a : A) → m s ≡ (ok a, s) → Ensures (λ x t. Fenced s t) (f a s))
    → Ensures (λ x t. Fenced s t) ((m >>= f) s)
fence_read m f s rm good = Ensures-read m f s rm good (λ c. Fenced-refl s)

pub fence_step :
    {A B : Type 0} (m : Call A) (f : A → Call B) (s : Store)
    → Fenced s (m s).1
    → ((a : A) (t : Store) → Ensures (λ x u. Fenced t u) (f a t))
    → Ensures (λ x t. Fenced s t) ((m >>= f) s)
fence_step {A} m f s fenced rest =
    Ensures-bind m f s
      (λ a t h. record {
        at = Fenced-trans s t _ (subst (Fenced s) (left (ok a) t h) fenced) (rest a t).at;
      })
      (λ c t h. subst (Fenced s) (left (err c) t h) fenced)
  where
    left : (r : Result A) (t : Store) → m s ≡ (r, t) → (m s).1 ≡ t
    left r t h = ap (λ (x : Result A × Store). x.1) h

pub update_control-Fenced :
    (day : ℕ) (cond : WeekControl → Bool) (set : WeekControl → WeekControl) (s : Store)
    → ((k : WeekControl) → (set k).week_start ≡ k.week_start)
    → ((k : WeekControl) → cond k ≡ true → Advances k (set k))
    → Fenced s (update_control day cond set s).1
unfolding update_control change_control
update_control-Fenced day cond set s keeps step = go (find_control day s) refl
  where
    go :
        (o : Option WeekControl)
        → find_control day s ≡ o
        → Fenced s (change_control day cond set o s).1
    go none p = Fenced-refl s
    go (some k) p = elim (Bool-cases (cond k)) [
      | inr no_match ↦ rw no_match (Fenced-refl s)
      | inl hit ↦ rw hit (record {
        at = λ j x h. elim (Bool-cases (j == day)) [
          | inl here ↦
              let e = (==_iff j day).0 here in
              let found : find_control day s ≡ some x =
                subst (λ d. find_control d s ≡ some x) e h in
              (
                set x,
                rw (first-change_where (λ a. a.week_start) set keeps day j s.controls, h, here),
                step x (subst (λ y. cond y ≡ true) (ground (arith, p, found)) hit),
              )
          | inr there ↦ (
            x,
            rw (first-change_where (λ a. a.week_start) set keeps day j s.controls, h, there),
            Advances-refl x,
          )
        ];
      })
    ]

pub reading : {A : Type 0} (m : Call A) (s : Store) → Reads m → Ensures (λ x t. Fenced s t) (m s)
reading m s rm = record { at = subst (Fenced s) (sym (rm.at s)) (Fenced-refl s) }

insert_control-Fenced : (day : ℕ) (s : Store) → Fenced s (insert_control day s).1
unfolding insert_control
insert_control-Fenced day s = record {
  at = λ j k h. (
    k,
    ground (arith, first-append_some (control_of j) s.controls (empty_control day ∷ []) k h),
    Advances-refl k,
  );
}

get_week_control-Reads : (c : Connection) (n day : ℕ) → Reads (get_week_control c n day)
unfolding get_week_control
get_week_control-Reads c n day = search read_rules depth 10

ensure_week_control-Fenced :
    (c : Connection) (n day : ℕ) (s : Store) → Fenced s (ensure_week_control c n day s).1
unfolding ensure_week_control
ensure_week_control-Fenced c n day s =
    (fence_read _ _ s (search read_rules) λ _ _. fence_read _ _ s (search read_rules) λ start _.
      fence_read _ _ s (Reads-execute c n) λ _ _.
        fence_step _ _ s (insert_control-Fenced _ s) λ _ t.
          fence_read _ _ t (get_week_control-Reads c (suc n) _)
            λ control _. reading _ t (Reads-or_raise control _)).at

from_run_store-Fenced :
    {A : Type 0} (m : Call A) (s : Store) → Fenced s (m s).1 → Fenced s (from_run_store m s).1
unfolding from_run_store
from_run_store-Fenced m s f = f

-- A new grant takes the next token, so it is no owner under the old one.
grant_lease-Fenced :
    (c : Connection) (day id seconds : ℕ) (locked : WeekControl) (s : Store)
    → Ensures (λ x t. Fenced s t) (grant_lease c day id seconds locked s)
unfolding grant_lease
grant_lease-Fenced c day id seconds locked s = fence_read _ _ s (lease_statement-Reads c 4) λ _ _.
    fence_step _ _ s
      (update_control-Fenced day _ _ s (λ k. refl)
        (λ k hit. record {
          token = omega arith;
          owner = λ o h e. absurd (omega arith);
          publication = refl;
        }))
      λ row t. fence_read _ _ t (Reads-or_raise row _) λ given _. reading _ t (Reads-pure _)

pub acquire_week_lease-Fenced :
    (c : Connection) (day id : ℕ) (seconds : ℤ) (s : Store)
    → Fenced s (acquire_week_lease c day id seconds s).1
unfolding acquire_week_lease
acquire_week_lease-Fenced c day id seconds s =
    (fence_read _ _ s (search lease_reads) λ _ _. fence_read _ _ s (search lease_reads) λ start _.
      fence_read _ _ s (checked_seconds-Reads seconds) λ length _.
        fence_read _ _ s (run_for_week-Reads c id start) λ _ _.
          fence_step _ _ s (from_run_store-Fenced _ s (ensure_week_control-Fenced c 1 start s))
            λ _ t. fence_read _ _ t (lease_statement-Reads c 3) λ _ _.
              fence_read _ _ t (search lease_reads) λ found _.
                fence_read _ _ t (Reads-or_raise found _) λ locked _.
                  elim (Bool-cases (
                    is_some locked.owner_run_id
                    && not (expired (c.clock 3) locked.lease_expires_at))) [
                      | inl held ↦ rw held (reading _ t (Reads-pure _))
                      | inr free ↦ rw free (grant_lease-Fenced c start id length locked t)
                    ]).at

pub verify_week_lease-Reads :
    (c : Connection) (day id : ℕ) (token : ℤ) → Reads (verify_week_lease c day id token)
unfolding verify_week_lease
verify_week_lease-Reads c day id token = search lease_reads depth 12

pub renew_week_lease-Fenced :
    (c : Connection) (day id : ℕ) (token seconds : ℤ) (s : Store)
    → Fenced s (renew_week_lease c day id token seconds s).1
unfolding renew_week_lease
renew_week_lease-Fenced c day id token seconds s =
    (fence_read _ _ s (search lease_reads) λ _ _. fence_read _ _ s (search lease_reads) λ start _.
      fence_read _ _ s (checked_seconds-Reads seconds) λ length _.
        fence_read _ _ s (checked_token-Reads token) λ number _.
          fence_read _ _ s (lease_statement-Reads c 0) λ _ _.
            fence_step _ _ s
              (update_control-Fenced start _ _ s (λ k. refl)
                (λ k hit. record { token = omega arith; owner = λ o h e. h; publication = refl }))
              λ row t. reading _ t (Reads-pure _)).at

released_row-Advances :
    (k : WeekControl)
    → Advances k
        (record k { owner_run_id = none; lease_acquired_at = none; lease_expires_at = none })
released_row-Advances k = record {
  token = omega arith;
  owner = λ o h e. nobody o h;
  publication = refl;
}
  where
    nobody : (o : ℕ) → none ≡ some o → k.owner_run_id ≡ some o
    nobody o h = cc

pub release_week_lease-Fenced :
    (c : Connection) (day id : ℕ) (token : ℤ) (s : Store)
    → Fenced s (release_week_lease c day id token s).1
unfolding release_week_lease
release_week_lease-Fenced c day id token s =
    (fence_read _ _ s (search lease_reads) λ _ _. fence_read _ _ s (search lease_reads) λ start _.
      fence_read _ _ s (checked_token-Reads token) λ number _.
        fence_read _ _ s (lease_statement-Reads c 0) λ _ _.
          fence_step _ _ s
            (update_control-Fenced start _ _ s (λ k. refl) (λ k hit. released_row-Advances k))
            λ row t. reading _ t (Reads-pure _)).at
