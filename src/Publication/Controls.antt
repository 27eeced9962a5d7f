-- ===== src/Publication/Controls.antt =====
-- pipelines/run_store.py: the week-control rows and the pointer to the valid publication.
use ang553_latam_aie_01_fina.Common.{
  ℕ, suc, ℤ, String, true, not, Option, none, some, [], ◌∷◌, ◌++◌, ◌==◌, is_some, if◌then◌else◌,
}
use ang553_latam_aie_01_fina.Publication.Types.{WeekControl, Connection}
use ang553_latam_aie_01_fina.Publication.Call.{
  ok, Call, control_not_found, week_mismatch, ◌>>=◌, ◌>>◌, raise_if, or_raise, lift,
  require_transaction, execute, week, count, find_control, read_control, update_control,
}
use ang553_latam_aie_01_fina.Publication.Text.{optional_label, optional_text}
use ang553_latam_aie_01_fina.Publication.Runs.{require_run}

abbrev pub empty_control : ℕ → WeekControl
empty_control day = record {
  week_start = day;
  owner_run_id = none;
  lease_acquired_at = none;
  lease_expires_at = none;
  fencing_token = 0;
  last_valid_publication_run_id = none;
  last_valid_published_at = none;
  dependency_fingerprint = none;
  published_row_count = none;
  rules_version = none;
}

-- `INSERT ... ON CONFLICT (week_start) DO NOTHING`
unfoldable pub insert_control : ℕ → Call (Unit {0})
insert_control day s =
    if is_some (find_control day s)
    then (ok tt, s)
    else (ok tt, record s { controls = s.controls ++ empty_control day ∷ [] })

unfoldable pub get_week_control : Connection → ℕ → ℕ → Call (Option WeekControl)
get_week_control c n start = do
  require_transaction c
  day ← week start
  execute c n
  read_control day

-- `ensure_week_control`, whose statements are the n-th and the next.
unfoldable pub ensure_week_control : Connection → ℕ → ℕ → Call WeekControl
ensure_week_control c n start = do
  require_transaction c
  day ← week start
  execute c n
  insert_control day
  control ← get_week_control c (suc n) day
  or_raise control control_not_found

unfoldable pub record_valid_publication :
    Connection → ℕ → ℕ → ℕ → ℤ → Option String → Option String → Call WeekControl
record_valid_publication c start id published_at rows fingerprint version = do
  require_transaction c
  day ← week start
  run ← require_run c 0 id
  raise_if (not (run.target_week_start == day)) week_mismatch
  control ← ensure_week_control c 1 day
  row_count ← count (some rows)
  print ← lift (optional_text fingerprint)
  rules ← lift (optional_label version)
  execute c 3
  row ←
      update_control day (λ k. true)
        (λ k. record k {
          last_valid_publication_run_id = some id;
          last_valid_published_at = some published_at;
          published_row_count = row_count;
          dependency_fingerprint = print;
          rules_version = rules;
        })
  or_raise row control_not_found
