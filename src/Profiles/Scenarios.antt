-- ===== src/Profiles/Scenarios.antt =====
-- Scores under the numbers of policies/semantic-profiles.yaml.
use vheatm.Prelude.{
  ◌≢◌, inl, inr, true, ℕ, ◌*◌, ◌≤◌, ◌≡◌, refl, none, some, [], ◌∷◌, arith, ok, pos,
}
use vheatm.Json.{Json, int, null}
use vheatm.Profiles.{
  Profile, RpnResult, rpn_priority, required, mandatory, calculate_rpn, score_1_to_10, brs_of, Brs,
  Tier, critical, brs_tier, calculate_brs, count_or_unknown, unknown_brs, complete_brs,
  map_fmea_to_qbr, count_of, user_facing, raised_integrity, raised_security, blast_scope,
}
use vheatm.Profiles.Bounds.{rank, calculate_rpn-bounds, calculate_rpn-monotone}
use vheatm.Profiles.BlastRadius.{tier_rank, calculate_brs-lower_bound}

abbrev policy : Profile
policy = record {
  rpn_mandatory = 125;
  rpn_required = 50;
  rpn_recommended = 25;
  system_effect_to_integrity = ("corruption", 3) ∷ ("partial", 2) ∷ ("operational", 1) ∷ [];
  cause_to_security =
      ("auth_bypass_injection", 3)
      ∷ ("data_exposure", 2)
      ∷ ("resource_exhaustion", 1)
      ∷ ("other", 0)
      ∷ [];
  severity_to_user_facing = (2, 0) ∷ (4, 1) ∷ (7, 2) ∷ (10, 3) ∷ [];
  fmea_risk_max = 3;
  undetectable_floor = 8;
  local_max = 1;
  multi_component_max = 4;
  blast_radius_scope = ("local", 1) ∷ ("multi_component", 2) ∷ ("widespread", 3) ∷ [];
  teams_weight = 1;
  sla_weight = 2;
  regulatory_weight = 3;
  unknown_sla_floor = 1;
  brs_contained = 3;
  brs_elevated = 7;
  brs_high = 12;
  escalation_threshold = 8;
}

abbrev score : ℕ → Json
score n = int (pos n)

abbrev middling : RpnResult
middling = record {
  severity = 5;
  occurrence = 5;
  detectability = 4;
  score = 100;
  priority = required;
}

abbrev severe : RpnResult
severe = record {
  severity = 9;
  occurrence = 5;
  detectability = 4;
  score = 180;
  priority = mandatory;
}

middling_run : calculate_rpn policy (score 5) (score 5) (score 4) ≡ ok middling
unfolding calculate_rpn score_1_to_10 rpn_priority
middling_run = refl

severe_run : calculate_rpn policy (score 9) (score 5) (score 4) ≡ ok severe
unfolding calculate_rpn score_1_to_10 rpn_priority
severe_run = refl

undetected_run :
    map_fmea_to_qbr policy (score 6) (score 9) "partial" "other" (score 5)
    ≡ ok (record {
      user_facing_impact = 2;
      data_integrity_risk = 3;
      security_risk = 0;
      blast_radius = 3;
    })
unfolding map_fmea_to_qbr score_1_to_10 count_of user_facing raised_integrity raised_security
    blast_scope
undetected_run = refl

calculate_rpn-bounds_example :
    (100 ≡ 5 * 5 * 4) × (required ≡ rpn_priority policy 100) × (1 ≤ 100) × (100 ≤ 1000)
calculate_rpn-bounds_example =
    calculate_rpn-bounds policy (score 5) (score 5) (score 4) middling middling_run

calculate_rpn-monotone_example : (100 ≤ 180) × (rank required ≤ rank mandatory)
calculate_rpn-monotone_example =
    calculate_rpn-monotone policy (score 5) (score 5) (score 4) (score 9) (score 5) (score 4)
      middling severe middling_run severe_run (omega arith) (omega arith) (omega arith)

abbrev open_brs : Brs
open_brs = record {
  score = none;
  lower_bound = 16;
  tier = Tier.unknown;
  escalation_required = none;
}

abbrev closed_brs : Brs
closed_brs = record {
  score = some 19;
  lower_bound = 19;
  tier = critical;
  escalation_required = some true;
}

open_run : calculate_brs policy (score 3) null (score 4) ≡ ok open_brs
unfolding calculate_brs count_of count_or_unknown brs_of unknown_brs complete_brs brs_tier
open_run = refl

closed_run : calculate_brs policy (score 3) (score 2) (score 4) ≡ ok closed_brs
unfolding calculate_brs count_of count_or_unknown brs_of unknown_brs complete_brs brs_tier
closed_run = refl

not_none : score 2 ≢ score 0
not_none = λ h. cc

calculate_brs-lower_bound_example :
    (16 ≤ 19) × (8 ≤ 16 → some true ≡ some true) × (tier_rank (brs_tier policy 16) ≤ 3)
calculate_brs-lower_bound_example =
    calculate_brs-lower_bound policy (score 3) null (score 4) (score 2) (score 4) open_brs
      closed_brs 19 open_run closed_run refl (inl refl) (inr refl) (λ h. (omega arith, not_none))
