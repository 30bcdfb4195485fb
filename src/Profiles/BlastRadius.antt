-- ===== src/Profiles/BlastRadius.antt =====
-- The lower bound of a blast radius score that is not complete.
use vheatm.Prelude.{
  ℕ, zero, suc, ◌+◌, ◌*◌, ◌≤◌, ◌≡◌, ◌≢◌, ◌⊎◌, inl, inr, refl, sym, ap, subst, ◌∙◌, String, true,
  Option, none, some, arith, ok, pos, negsuc, ok_inj, some_inj, ok_steps,
}
use vheatm.Json.{Json, null, bool, int, float, str, arr, obj}
use vheatm.Profiles.{
  Profile, brs_of, Brs, Tier, contained, elevated, high, critical, brs_tier, count_of,
  count_or_unknown, calculate_brs, unknown_brs, complete_brs,
}
use vheatm.Profiles.Bounds.{times_monotone}

-- A count that is known is the count that it turns out to be.
unfoldable pub Resolves : Option ℕ → ℕ → Type 0
Resolves none n = Unit
Resolves (some m) n = m ≡ n

unfoldable total : Profile → ℕ → ℕ → ℕ → ℕ
total p teams sla regulatory =
    teams * p.teams_weight + sla * p.sla_weight + regulatory * p.regulatory_weight

brs_of-Resolves :
    (p : Profile) (teams sla regulatory : ℕ) (known_sla known_regulatory : Option ℕ)
    → Resolves known_sla sla
    → Resolves known_regulatory regulatory
    → (known_sla ≡ none → p.unknown_sla_floor ≤ sla * p.sla_weight)
    → (brs_of p teams known_sla known_regulatory).lower_bound ≤ total p teams sla regulatory
unfolding Resolves brs_of unknown_brs complete_brs total
brs_of-Resolves p teams sla regulatory none none e f h = omega (arith, h refl)
brs_of-Resolves p teams sla regulatory none (some m) e f h = (rw f (omega (arith, h refl)))
brs_of-Resolves p teams sla regulatory (some n) none e f h = (rw e (omega arith))
brs_of-Resolves p teams sla regulatory (some n) (some m) e f h = (rw (e, f) (omega arith))

calculate_brs-parts :
    (p : Profile) (teams sla regulatory : Json) {r : Brs}
    → calculate_brs p teams sla regulatory ≡ ok r
    → (t : ℕ) × (s g : Option ℕ) × (count_of "teams_directly_affected" teams ≡ ok t)
      × (count_or_unknown "sla_chains_at_risk" sla ≡ ok s)
      × (count_or_unknown "regulatory_obligations" regulatory ≡ ok g)
      × (r ≡ brs_of p t s g)
unfolding calculate_brs
calculate_brs-parts p teams sla regulatory h =
    let (t, et, h1) = ok_steps (count_of "teams_directly_affected" teams) _ h in
    let (s, es, h2) = ok_steps (count_or_unknown "sla_chains_at_risk" sla) _ h1 in
    let (g, eg, h3) = ok_steps (count_or_unknown "regulatory_obligations" regulatory) _ h2 in
    (t, s, g, et, es, eg, sym (ok_inj h3))

-- A value that is null, for not known, or what it turns out to be.
abbrev pub TurnsOut : Json → Json → Type 0
TurnsOut v w = (v ≡ null) ⊎ (v ≡ w)

TurnsOut-Resolves :
    (label : String) (v w : Json) {m : Option ℕ} {n : ℕ}
    → TurnsOut v w
    → count_or_unknown label v ≡ ok m
    → count_or_unknown label w ≡ ok (some n)
    → Resolves m n
unfolding count_or_unknown Resolves
TurnsOut-Resolves label v w {m} {n} (inl e) h k =
    let same : none ≡ m = ok_inj (rw e at h) in subst (λ z. Resolves z n) same tt
TurnsOut-Resolves label v w {m} {n} (inr e) h k =
    let same : some n ≡ m = ok_inj (sym k ∙ rw e at h) in subst (λ z. Resolves z n) same refl

brs_of-score :
    (p : Profile) (t : ℕ) (s g : Option ℕ) {n : ℕ}
    → (brs_of p t s g).score ≡ some n
    → (sla regulatory : ℕ) × (s ≡ some sla) × (g ≡ some regulatory) × (n ≡ total p t sla regulatory)
unfolding brs_of unknown_brs complete_brs total
brs_of-score p t (some sla) (some regulatory) h = (sla, regulatory, refl, refl, sym (some_inj h))
brs_of-score p t (some sla) none h = cc
brs_of-score p t none g h = cc

count_or_unknown-positive :
    (label : String) (v : Json) {n : ℕ}
    → count_or_unknown label v ≡ ok (some n)
    → v ≢ int (pos 0)
    → 1 ≤ n
unfolding count_or_unknown count_of
count_or_unknown-positive label (int (pos zero)) h d = elim (d refl) [ ]
count_or_unknown-positive label (int (pos (suc k))) h d = ground arith
count_or_unknown-positive label (int (negsuc k)) h d = cc
count_or_unknown-positive label null h d = cc
count_or_unknown-positive label (bool b) h d = cc
count_or_unknown-positive label (float x) h d = cc
count_or_unknown-positive label (str s) h d = cc
count_or_unknown-positive label (arr vs) h d = cc
count_or_unknown-positive label (obj o) h d = cc

abbrev pub tier_rank : Tier → ℕ
tier_rank contained = 0
tier_rank elevated = 1
tier_rank high = 2
tier_rank critical = 3
tier_rank Tier.unknown = 4

brs_tier-monotone :
    (p : Profile) (m n : ℕ) → m ≤ n → tier_rank (brs_tier p m) ≤ tier_rank (brs_tier p n)
unfolding brs_tier
brs_tier-monotone p m n h = ground arith

count_or_unknown-none : (label : String) (v : Json) → count_or_unknown label v ≡ ok none → v ≡ null
unfolding count_or_unknown count_of
count_or_unknown-none label null h = refl
count_or_unknown-none label (int (pos k)) h = cc
count_or_unknown-none label (int (negsuc k)) h = cc
count_or_unknown-none label (bool b) h = cc
count_or_unknown-none label (float x) h = cc
count_or_unknown-none label (str s) h = cc
count_or_unknown-none label (arr vs) h = cc
count_or_unknown-none label (obj o) h = cc

brs_of-judges :
    (p : Profile) (t sla regulatory m : ℕ)
    → m ≤ total p t sla regulatory
    → let r = brs_of p t (some sla) (some regulatory) in
      (p.escalation_threshold ≤ m → r.escalation_required ≡ some true)
      × (tier_rank (brs_tier p m) ≤ tier_rank r.tier)
unfolding brs_of complete_brs total
brs_of-judges p t sla regulatory m h = (λ k. ap some (ground arith), brs_tier-monotone p m _ h)

-- Of two blast radius scores that are returned for the same teams, where a null part of the first
-- may be a number in the second, which is complete: the lower bound of the first is at most the
-- score of the second. If the bound reaches the threshold, the second requires escalation, and the
-- tier of the bound is no higher than that of the second. Where the chains at risk were null, the
-- floor for them must not exceed the weight of a chain, and they must not turn out to be none.
pub calculate_brs-lower_bound :
    (p : Profile) (teams sla regulatory sla' regulatory' : Json) (r r' : Brs) (n : ℕ)
    → calculate_brs p teams sla regulatory ≡ ok r
    → calculate_brs p teams sla' regulatory' ≡ ok r'
    → r'.score ≡ some n
    → TurnsOut sla sla'
    → TurnsOut regulatory regulatory'
    → (sla ≡ null → (p.unknown_sla_floor ≤ p.sla_weight) × (sla' ≢ int (pos 0)))
    → (r.lower_bound ≤ n)
      × (p.escalation_threshold ≤ r.lower_bound → r'.escalation_required ≡ some true)
      × (tier_rank (brs_tier p r.lower_bound) ≤ tier_rank r'.tier)
calculate_brs-lower_bound p teams sla regulatory sla' regulatory' r r' n h h' scored turns turns_g
      f =
    let (t, s, g, et, es, eg, e) = calculate_brs-parts p teams sla regulatory h in
    let (t', s', g', et', es', eg', e') = calculate_brs-parts p teams sla' regulatory' h' in
    let (a, b, ea, eb, sum) =
      brs_of-score p t' s' g' (sym (ap (λ (z : Brs). z.score) e') ∙ scored) in
    let same : t' ≡ t = ok_inj (sym et' ∙ et) in
    let known : count_or_unknown "sla_chains_at_risk" sla' ≡ ok (some a) = es' ∙ ap ok ea in
    let known_g : count_or_unknown "regulatory_obligations" regulatory' ≡ ok (some b) =
      eg' ∙ ap ok eb in
    let floor : s ≡ none → p.unknown_sla_floor ≤ a * p.sla_weight = λ q.
      let (weighed, some_chain) =
        f (count_or_unknown-none "sla_chains_at_risk" sla (es ∙ ap ok q)) in
      let once =
        times_monotone 1 p.sla_weight a p.sla_weight
          (count_or_unknown-positive "sla_chains_at_risk" sla' known some_chain) (omega arith) in
      omega (arith, weighed, once) in
    let below : r.lower_bound ≤ total p t a b =
      subst (λ (z : Brs). z.lower_bound ≤ total p t a b) (sym e)
        (brs_of-Resolves p t a b s g
          (TurnsOut-Resolves "sla_chains_at_risk" sla sla' turns es known)
          (TurnsOut-Resolves "regulatory_obligations" regulatory regulatory' turns_g eg known_g)
          floor) in
    let complete : r' ≡ brs_of p t (some a) (some b) = cc (e', same, ea, eb) in
    let judged = brs_of-judges p t a b r.lower_bound below in
    (
      subst (λ z. r.lower_bound ≤ z) (sym (sum ∙ ap (λ z. total p z a b) same)) below,
      λ k. ap (λ (z : Brs). z.escalation_required) complete ∙ judged.0 k,
      subst (λ (z : Brs). tier_rank (brs_tier p r.lower_bound) ≤ tier_rank z.tier) (sym complete)
          judged.1,
    )
