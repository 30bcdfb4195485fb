-- ===== src/Profiles/Bounds.antt =====
-- The bounds and the order of the risk priority numbers.
use vheatm.Prelude.{ℕ, zero, suc, ◌*◌, ◌≤◌, ◌≡◌, String, arith, ok}
use vheatm.Json.{Json}
use vheatm.Profiles.{
  Profile, Priority, optional, recommended, required, mandatory, RpnResult, rpn_priority,
  calculate_rpn, score_1_to_10,
}

abbrev pub rank : Priority → ℕ
rank optional = 0
rank recommended = 1
rank required = 2
rank mandatory = 3

-- A higher score never has a lower priority.
rpn_priority-monotone :
    (p : Profile) (m n : ℕ) → m ≤ n → rank (rpn_priority p m) ≤ rank (rpn_priority p n)
unfolding rpn_priority
rpn_priority-monotone p m n h = ground arith

score_bounds :
    (label : String) (v : Json) {n : ℕ} → score_1_to_10 label v ≡ ok n → (1 ≤ n) × (n ≤ 10)
unfolding score_1_to_10
score_bounds label v h = ground arith

pub times_monotone : (a b c d : ℕ) → a ≤ c → b ≤ d → a * b ≤ c * d
times_monotone zero b c d h k = omega arith
times_monotone (suc a) b zero d h k = omega arith
times_monotone (suc a) b (suc c) d h k = omega (arith, times_monotone a b c d (omega arith) k)

calculate_rpn-parts :
    (p : Profile) (s o d : Json) (r : RpnResult)
    → calculate_rpn p s o d ≡ ok r
    → (score_1_to_10 "severity" s ≡ ok r.severity)
      × (score_1_to_10 "occurrence" o ≡ ok r.occurrence)
      × (score_1_to_10 "detectability" d ≡ ok r.detectability)
      × (r.score ≡ r.severity * r.occurrence * r.detectability)
      × (r.priority ≡ rpn_priority p r.score)
unfolding calculate_rpn
calculate_rpn-parts p s o d r h = ground arith

product_bounds :
    (s o d : ℕ)
    → (1 ≤ s) × (s ≤ 10)
    → (1 ≤ o) × (o ≤ 10)
    → (1 ≤ d) × (d ≤ 10)
    → (1 ≤ s * o * d) × (s * o * d ≤ 1000)
product_bounds s o d (a, b) (c, e) (f, g) = (
  omega (arith, times_monotone 1 1 (s * o) d (times_monotone 1 1 s o a c) f),
  omega (arith, times_monotone (s * o) d 100 10 (times_monotone s o 10 10 b e) g),
)

-- A risk priority number that is returned is the product of its three scores, lies between 1 and
-- 1000, and has the priority of that product.
pub calculate_rpn-bounds :
    (p : Profile) (s o d : Json) (r : RpnResult)
    → calculate_rpn p s o d ≡ ok r
    → (r.score ≡ r.severity * r.occurrence * r.detectability)
      × (r.priority ≡ rpn_priority p r.score)
      × (1 ≤ r.score)
      × (r.score ≤ 1000)
calculate_rpn-bounds p s o d r h =
    let (es, eo, ed, product, priority) = calculate_rpn-parts p s o d r h in
    let (low, most) =
      product_bounds r.severity r.occurrence r.detectability (score_bounds "severity" s es)
        (score_bounds "occurrence" o eo) (score_bounds "detectability" d ed) in
    (product, priority, omega arith, omega arith)

-- Of two risk priority numbers that are returned, one with no lower severity, occurrence and
-- detectability has no lower score and no lower priority.
pub calculate_rpn-monotone :
    (p : Profile) (s o d s' o' d' : Json) (r r' : RpnResult)
    → calculate_rpn p s o d ≡ ok r
    → calculate_rpn p s' o' d' ≡ ok r'
    → r.severity ≤ r'.severity
    → r.occurrence ≤ r'.occurrence
    → r.detectability ≤ r'.detectability
    → (r.score ≤ r'.score) × (rank r.priority ≤ rank r'.priority)
calculate_rpn-monotone p s o d s' o' d' r r' h h' ls lo ld =
    let (_, _, _, product, priority) = calculate_rpn-parts p s o d r h in
    let (_, _, _, product', priority') = calculate_rpn-parts p s' o' d' r' h' in
    let below : r.score ≤ r'.score =
      rw (product, product')
        (times_monotone (r.severity * r.occurrence) r.detectability (r'.severity * r'.occurrence)
          r'.detectability (times_monotone r.severity r.occurrence r'.severity r'.occurrence ls lo)
          ld) in
    (below, rw (priority, priority') (rpn_priority-monotone p r.score r'.score below))
