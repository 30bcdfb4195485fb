-- ===== src/Profiles.antt =====
-- src/vheatm_control/semantic_profiles.py: risk priority numbers, the mapping of a failure mode to
-- the dimensions of a question's risk, and blast radius scores. The numbers come from a profile.
pub mod Bounds
pub mod BlastRadius
pub mod Scenarios
use vheatm.Prelude.{
  ℕ, ◌+◌, ◌*◌, min, String, Bool, true, false, not, ◌&&◌, Option, none, some, List, [], ◌∷◌, leb,
  lookup, eqb, Outcome, ok, raised, ◌>>=◌, ◌>>◌, guard, or_raise, pos, if◌then◌else◌,
}
use vheatm.Json.{Json, null, int}

pub data ProfileError : Type 0 where
  bad_score : String → ProfileError
  bad_count : String → ProfileError
  unknown_class : ProfileError
  no_severity_range : ProfileError
  no_blast_scope : ProfileError

-- The parts of policies/semantic-profiles.yaml that are read here, by the names of its keys.
pub record Profile : Type 0 where
  pub rpn_mandatory : ℕ
  pub rpn_required : ℕ
  pub rpn_recommended : ℕ
  pub system_effect_to_integrity : List (String × ℕ)
  pub cause_to_security : List (String × ℕ)
  -- pairs of max and value
  pub severity_to_user_facing : List (ℕ × ℕ)
  pub fmea_risk_max : ℕ
  pub undetectable_floor : ℕ
  pub local_max : ℕ
  pub multi_component_max : ℕ
  pub blast_radius_scope : List (String × ℕ)
  pub teams_weight : ℕ
  pub sla_weight : ℕ
  pub regulatory_weight : ℕ
  pub unknown_sla_floor : ℕ
  pub brs_contained : ℕ
  pub brs_elevated : ℕ
  pub brs_high : ℕ
  pub escalation_threshold : ℕ

-- `_score_1_to_10`
unfoldable pub score_1_to_10 : String → Json → Outcome ProfileError ℕ
score_1_to_10 label (int (pos n)) = do guard (leb 1 n && leb n 10) (bad_score label); ok n
score_1_to_10 label v = raised (bad_score label)

-- A non-negative integer that is no bool.
unfoldable pub count_of : String → Json → Outcome ProfileError ℕ
count_of label (int (pos n)) = ok n
count_of label v = raised (bad_count label)

pub data Priority : Type 0 where
  optional recommended required mandatory : Priority

pub record RpnResult : Type 0 where
  pub severity : ℕ
  pub occurrence : ℕ
  pub detectability : ℕ
  pub score : ℕ
  pub priority : Priority

unfoldable pub rpn_priority : Profile → ℕ → Priority
rpn_priority p score =
    if leb p.rpn_mandatory score
    then mandatory
    else if leb p.rpn_required score
    then required
    else if leb p.rpn_recommended score
    then recommended
    else optional

unfoldable pub calculate_rpn : Profile → Json → Json → Json → Outcome ProfileError RpnResult
calculate_rpn p severity occurrence detectability = do
  s ← score_1_to_10 "severity" severity
  o ← score_1_to_10 "occurrence" occurrence
  d ← score_1_to_10 "detectability" detectability
  let score = s * o * d
  ok (record {
    severity = s;
    occurrence = o;
    detectability = d;
    score = score;
    priority = rpn_priority p score;
  })

pub record Dimensions : Type 0 where
  pub user_facing_impact : ℕ
  pub data_integrity_risk : ℕ
  pub security_risk : ℕ
  pub blast_radius : ℕ

-- The value of the first rule whose max the severity does not exceed.
unfoldable pub user_facing : ℕ → List (ℕ × ℕ) → Option ℕ
user_facing s [] = none
user_facing s ((most, value) ∷ rules) =
    let rest = user_facing s rules in if leb s most then some value else rest

-- A failure that is hard to detect is one worse, up to the most there is.
unfoldable pub raised_integrity : Profile → ℕ → ℕ → ℕ
raised_integrity p d integrity =
    if leb p.undetectable_floor d then min p.fmea_risk_max (integrity + 1) else integrity

unfoldable pub raised_security : Profile → ℕ → ℕ → ℕ
raised_security p d security =
    if leb p.undetectable_floor d && not (eqb security 0)
    then min p.fmea_risk_max (security + 1)
    else security

unfoldable pub blast_scope : Profile → ℕ → String
blast_scope p downstream =
    if leb downstream p.local_max
    then "local"
    else if leb downstream p.multi_component_max
    then "multi_component"
    else "widespread"

unfoldable pub map_fmea_to_qbr :
    Profile → Json → Json → String → String → Json → Outcome ProfileError Dimensions
map_fmea_to_qbr p severity detectability system_effect cause_class downstream_count = do
  s ← score_1_to_10 "severity" severity
  d ← score_1_to_10 "detectability" detectability
  downstream ← count_of "downstream_count" downstream_count
  integrity ← or_raise (lookup system_effect p.system_effect_to_integrity) unknown_class
  security ← or_raise (lookup cause_class p.cause_to_security) unknown_class
  impact ← or_raise (user_facing s p.severity_to_user_facing) no_severity_range
  blast ← or_raise (lookup (blast_scope p downstream) p.blast_radius_scope) no_blast_scope
  ok (record {
    user_facing_impact = impact;
    data_integrity_risk = raised_integrity p d integrity;
    security_risk = raised_security p d security;
    blast_radius = blast;
  })

pub data Tier : Type 0 where
  contained elevated high critical unknown : Tier

-- `score` and `escalation_required` are None where a part is not known.
pub record Brs : Type 0 where
  pub score : Option ℕ
  pub lower_bound : ℕ
  pub tier : Tier
  pub escalation_required : Option Bool

-- None is not known.
unfoldable pub count_or_unknown : String → Json → Outcome ProfileError (Option ℕ)
unfolding count_of
count_or_unknown label null = ok none
count_or_unknown label v = do n ← count_of label v; ok (some n)

unfoldable pub brs_tier : Profile → ℕ → Tier
brs_tier p score =
    if leb score p.brs_contained
    then contained
    else if leb score p.brs_elevated
    then elevated
    else if leb score p.brs_high
    then high
    else critical

abbrev sla_part : Profile → Option ℕ → ℕ
sla_part p none = p.unknown_sla_floor
sla_part p (some n) = n * p.sla_weight

abbrev regulatory_part : Profile → Option ℕ → ℕ
regulatory_part p none = 0
regulatory_part p (some n) = n * p.regulatory_weight

unfoldable pub unknown_brs : Profile → ℕ → Option ℕ → Option ℕ → Brs
unknown_brs p teams sla regulatory = record {
  score = none;
  lower_bound = teams * p.teams_weight + sla_part p sla + regulatory_part p regulatory;
  tier = unknown;
  escalation_required = none;
}

unfoldable pub complete_brs : Profile → ℕ → Brs
unfolding brs_tier
complete_brs p score = record {
  score = some score;
  lower_bound = score;
  tier = brs_tier p score;
  escalation_required = some (leb p.escalation_threshold score);
}

unfoldable pub brs_of : Profile → ℕ → Option ℕ → Option ℕ → Brs
unfolding unknown_brs complete_brs
brs_of p teams (some sla) (some regulatory) =
    complete_brs p (teams * p.teams_weight + sla * p.sla_weight + regulatory * p.regulatory_weight)
brs_of p teams sla regulatory = unknown_brs p teams sla regulatory

unfoldable pub calculate_brs : Profile → Json → Json → Json → Outcome ProfileError Brs
unfolding brs_of
calculate_brs p teams_directly_affected sla_chains_at_risk regulatory_obligations = do
  teams ← count_of "teams_directly_affected" teams_directly_affected
  sla ← count_or_unknown "sla_chains_at_risk" sla_chains_at_risk
  regulatory ← count_or_unknown "regulatory_obligations" regulatory_obligations
  ok (brs_of p teams sla regulatory)
