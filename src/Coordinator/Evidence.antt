-- ===== src/Coordinator/Evidence.antt =====
-- What pipelines/coordinator.py asks for before it writes: `_pre_write_issues`, `_coverage_issues` and
-- `_fingerprint_issue`. The codes of the batch's validation and of the quality report are the request's.
pub mod Complete
use ang553_latam_aie_01_fina.Common.{
  ℕ, String, Bool, true, false, not, ◌&&◌, ◌||◌, Option, none, some, List, [], ◌∷◌, ◌++◌, map,
  str_eq, ltb, length, any_of, all_of, if◌then◌else◌,
}
use mathlib.Core.List.{reverse}
use ang553_latam_aie_01_fina.Publication.Text.{codes, is_space, starts, contains}
use ang553_latam_aie_01_fina.Coordinator.Types.{CoverageEvidence, PublicationRequest}

abbrev pub member : List String → String → Bool
member l s = any_of (str_eq s) l

abbrev pub coverage_sources : List String
coverage_sources = "synthetic_fixture" ∷ "operational_checkpoints" ∷ []

abbrev pub required_coverage_events : List String
required_coverage_events = "stock_threshold_triggered" ∷ "inventory_discrepancy_detected" ∷ []

abbrev pub fingerprint_parts : List String
fingerprint_parts = "telemetry=" ∷ "movements=" ∷ "stockexit=" ∷ "rules=" ∷ []

-- `len(movements) != len(set(movements))`
unfoldable pub repeats_movement : List String → Bool
repeats_movement [] = false
repeats_movement (s ∷ l) = member l s || repeats_movement l

abbrev is_blank_pair : String × String → Bool
is_blank_pair (movement, order) = str_eq movement "" || str_eq order ""

abbrev movement_of : String × String → String
movement_of (movement, order) = movement

unfoldable pub coverage_issues : Option CoverageEvidence → List String
coverage_issues none = "coverage_evidence_required" ∷ []
coverage_issues (some c) =
    if not (member coverage_sources c.source) || not c.lookup_complete
    then "coverage_insufficient" ∷ []
    else if not (all_of (member c.confirmed_event_types) required_coverage_events)
    then "coverage_insufficient" ∷ []
    else if any_of is_blank_pair c.dispatch_order_ids
        || repeats_movement (map movement_of c.dispatch_order_ids)
    then "dispatch_order_not_unique" ∷ []
    else []

unfoldable pub drop_spaces : List ℕ → List ℕ
drop_spaces [] = []
drop_spaces (c ∷ l) = let rest = drop_spaces l in if is_space c then rest else c ∷ l

-- `str.strip`
unfoldable pub strip : String → List ℕ
strip s = reverse (drop_spaces (reverse (drop_spaces (codes s))))

-- The comparison with the week's date needs no test of its own: a date has ten characters.
unfoldable pub fingerprint_issue : Option String → Bool
fingerprint_issue none = true
fingerprint_issue (some s) =
    ltb (length (strip s)) 32
    || starts (codes "MAX(") (strip s)
    || any_of (λ part. not (contains (codes part) (strip s))) fingerprint_parts

unfoldable pub rules_version_missing : Option String → Bool
rules_version_missing none = true
rules_version_missing (some s) = all_of is_space (codes s)

abbrev pub quality_codes : Option (List String) → List String
quality_codes none = "quality_required" ∷ []
quality_codes (some issues) = issues

abbrev pub code_if : Bool → String → List String
code_if true code = code ∷ []
code_if false code = []

unfoldable pub without : String → List String → List String
without s [] = []
without s (t ∷ l) = let rest = without s l in if str_eq s t then rest else t ∷ rest

-- `dict.fromkeys`: each code at its first place.
unfoldable pub unique : List String → List String
unique [] = []
unique (s ∷ l) = s ∷ without s (unique l)

unfoldable pub pre_write_issues : PublicationRequest → List String
pre_write_issues q = unique (
    q.batch_issues
    ++ quality_codes q.quality_issues
    ++ coverage_issues q.coverage
    ++ code_if (fingerprint_issue q.dependency_fingerprint) "fingerprint_incomplete"
    ++ code_if (rules_version_missing q.rules_version) "rules_version_required")
