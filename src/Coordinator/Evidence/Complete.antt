-- ===== src/Coordinator/Evidence/Complete.antt =====
-- What a request without pre-write issues holds (pipelines/coordinator.py).
use ang553_latam_aie_01_fina.Common.{
  String, Bool, true, false, ◌≡◌, refl, ap, Option, none, some, List, [], ◌∷◌, ◌++◌, arith,
}
use ang553_latam_aie_01_fina.Coordinator.Types.{PublicationRequest}
use ang553_latam_aie_01_fina.Coordinator.Evidence.{
  coverage_issues, fingerprint_issue, rules_version_missing, quality_codes, code_if, unique,
  pre_write_issues,
}

-- The batch and its quality report have no issue, the coverage is sufficient, and the fingerprint and the
-- rules are complete.
pub record IsEvidenced (q : PublicationRequest) : Type 0 where
  pub batch : q.batch_issues ≡ []
  pub quality : q.quality_issues ≡ some []
  pub coverage : coverage_issues q.coverage ≡ []
  pub fingerprint : fingerprint_issue q.dependency_fingerprint ≡ false
  pub rules : rules_version_missing q.rules_version ≡ false

unique-empty : (l : List String) → unique l ≡ [] → l ≡ []
unfolding unique
unique-empty [] h = refl
unique-empty (s ∷ l) h = absurd (ground (arith, h))

append-empty : (l m : List String) → l ++ m ≡ [] → (l ≡ []) × (m ≡ [])
append-empty [] m h = (refl, h)
append-empty (s ∷ l) m h = absurd (ground (arith, h))

quality_codes-empty : (o : Option (List String)) → quality_codes o ≡ [] → o ≡ some []
quality_codes-empty none h = absurd (ground (arith, h))
quality_codes-empty (some l) h = ap (λ x. some x) h

code_if-empty : (b : Bool) (code : String) → code_if b code ≡ [] → b ≡ false
code_if-empty true code h = absurd (ground (arith, h))
code_if-empty false code h = refl

pub pre_write_issues-IsEvidenced :
    (q : PublicationRequest) → pre_write_issues q ≡ [] → IsEvidenced q
unfolding pre_write_issues
pre_write_issues-IsEvidenced q h =
    let (h3, rules) = append-empty _ _ (unique-empty _ h) in
    let (h2, fingerprint) = append-empty _ _ h3 in
    let (h1, coverage) = append-empty _ _ h2 in
    let (batch, quality) = append-empty _ _ h1 in
    record {
      batch = batch;
      quality = quality_codes-empty q.quality_issues quality;
      coverage = coverage;
      fingerprint = code_if-empty (fingerprint_issue q.dependency_fingerprint) _ fingerprint;
      rules = code_if-empty (rules_version_missing q.rules_version) _ rules;
    }
