-- ===== src/Safety/Envelope.antt =====
-- What the safety envelope lets through.
use gridex_edge_gateway.Prelude.{◌≡◌, refl, true, Option, none, some, arith, Bool-cases}
use gridex_edge_gateway.Double.{clamp, Double, nought, neg, sub, max, min}
use gridex_edge_gateway.Prelude.{inl, inr}
use gridex_edge_gateway.Double.Order.{
  ◌≼◌, IsNumber, nought-le-max, min-le_left, min-le_right, le-min, IsNumber-right, neg-le-nought,
  ≼_trans, IsNumber-left, neg_antitone, clamp_bounds, clamp_nearest,
}
use gridex_edge_gateway.Types.{SafetyInput, good}
use gridex_edge_gateway.Safety.{
  capped, headroom_capped, charge_bit, discharge_bit, max_charge, max_discharge, lower_bound,
  upper_bound, apply, clamped_result,
}

-- A power that no limit forbids: each limit is stated on its own, as the one who sets it means it.
pub record RespectsLimits (i : SafetyInput) (p : Double) : Type 0 where
  pub bms_charge : neg (max nought i.battery.max_charge_kw) ≼ p
  pub bms_discharge : p ≼ max nought i.battery.max_discharge_kw
  pub configured_charge :
      (c : Double) → i.configured_limit.max_charge_kw ≡ some c → neg (max nought c) ≼ p
  pub configured_discharge :
      (c : Double) → i.configured_limit.max_discharge_kw ≡ some c → p ≼ max nought c
  pub site_headroom :
      (load contract : Double)
      → i.site.site_load_kw ≡ some load
      → i.site.contract_limit_kw ≡ some contract
      → neg (max nought (sub contract load)) ≼ p
  pub no_charge : charge_bit i.battery.bms_system_flags ≡ true → nought ≼ p
  pub no_discharge : discharge_bit i.battery.bms_system_flags ≡ true → p ≼ nought

-- A cap lowers a limit that is not negative, and leaves it not negative.
capped_bounds :
    (l : Double) (o : Option Double)
    → nought ≼ l
    → (nought ≼ capped l o)
      × (capped l o ≼ l)
      × ((c : Double) → o ≡ some c → capped l o ≼ max nought c)
unfolding capped
capped_bounds l none h = (h, IsNumber-right nought l h, λ c e. cc)
capped_bounds l (some c) h =
    let m = max nought c in
    let hm : nought ≼ m = nought-le-max c in
    let nl : IsNumber l = IsNumber-right nought l h in
    let nm : IsNumber m = IsNumber-right nought m hm in
    (le-min l m nought h hm, min-le_left l m nl nm, λ d e. ground (arith, min-le_right l m nl nm))

headroom_bounds :
    (l : Double) (load contract : Option Double)
    → nought ≼ l
    → (nought ≼ headroom_capped l load contract)
      × (headroom_capped l load contract ≼ l)
      × ((a c : Double)
          → load ≡ some a
          → contract ≡ some c
          → headroom_capped l load contract ≼ max nought (sub c a))
unfolding headroom_capped
headroom_bounds l none contract h = (h, IsNumber-right nought l h, λ a c e f. cc)
headroom_bounds l (some a) none h = (h, IsNumber-right nought l h, λ a c e f. cc)
headroom_bounds l (some a) (some c) h =
    let (p, q, r) = capped_bounds l (some (sub c a)) h in
    unfold capped in (p, q, λ b d e f. ground (arith, r (sub c a) refl))

-- The two limits are not negative.
nought-le-max_charge : (i : SafetyInput) → nought ≼ max_charge i
unfolding max_charge
nought-le-max_charge i =
    let h = nought-le-max i.battery.max_charge_kw in
    let (p, _, _) = capped_bounds _ i.configured_limit.max_charge_kw h in
    (headroom_bounds _ i.site.site_load_kw i.site.contract_limit_kw p).0

nought-le-max_discharge : (i : SafetyInput) → nought ≼ max_discharge i
unfolding max_discharge
nought-le-max_discharge i =
    (capped_bounds _ i.configured_limit.max_discharge_kw
      (nought-le-max i.battery.max_discharge_kw)).0

pub lower-le-nought : (i : SafetyInput) → lower_bound i ≼ nought
unfolding lower_bound
lower-le-nought i = ground (arith, neg-le-nought (max_charge i) (nought-le-max_charge i))

pub nought-le-upper : (i : SafetyInput) → nought ≼ upper_bound i
unfolding upper_bound
nought-le-upper i = ground (arith, nought-le-max_discharge i)

-- A charging power is allowed by a capped limit where the limit and the cap allow it.
capped_charge :
    (l : Double) (o : Option Double) (p : Double)
    → neg l ≼ p
    → ((c : Double) → o ≡ some c → neg (max nought c) ≼ p)
    → neg (capped l o) ≼ p
unfolding capped min
capped_charge l none p h k = h
capped_charge l (some c) p h k = ground (arith, k c refl)

headroom_charge :
    (l : Double) (load contract : Option Double) (p : Double)
    → neg l ≼ p
    → ((a c : Double) → load ≡ some a → contract ≡ some c → neg (max nought (sub c a)) ≼ p)
    → neg (headroom_capped l load contract) ≼ p
unfolding headroom_capped min
headroom_charge l none contract p h k = h
headroom_charge l (some a) none p h k = h
headroom_charge l (some a) (some c) p h k = ground (arith, k a c refl refl)

capped_discharge :
    (l : Double) (o : Option Double) (p : Double)
    → p ≼ l
    → ((c : Double) → o ≡ some c → p ≼ max nought c)
    → p ≼ capped l o
unfolding capped
capped_discharge l none p h k = h
capped_discharge l (some c) p h k = le-min l (max nought c) p h (k c refl)

pub RespectsLimits-lower : (i : SafetyInput) (p : Double) → RespectsLimits i p → lower_bound i ≼ p
unfolding lower_bound max_charge
RespectsLimits-lower i p r =
    let charge : neg (max_charge i) ≼ p =
      headroom_charge _ i.site.site_load_kw i.site.contract_limit_kw p
        (capped_charge _ i.configured_limit.max_charge_kw p r.bms_charge r.configured_charge)
        r.site_headroom in
    elim (Bool-cases (charge_bit i.battery.bms_system_flags)) [
      | inl e ↦ rw e (r.no_charge e)
      | inr e ↦ rw e charge
    ]

pub RespectsLimits-upper : (i : SafetyInput) (p : Double) → RespectsLimits i p → p ≼ upper_bound i
unfolding upper_bound max_discharge
RespectsLimits-upper i p r =
    let discharge : p ≼ max_discharge i =
      capped_discharge _ i.configured_limit.max_discharge_kw p r.bms_discharge
        r.configured_discharge in
    elim (Bool-cases (discharge_bit i.battery.bms_system_flags)) [
      | inl e ↦ rw e (r.no_discharge e)
      | inr e ↦ rw e discharge
    ]

-- On the lower side, what lies between the bound and `max_charge` is allowed.
charge_limits :
    (i : SafetyInput)
    → (max_charge i ≼ max nought i.battery.max_charge_kw)
      × ((c : Double) → i.configured_limit.max_charge_kw ≡ some c → max_charge i ≼ max nought c)
      × ((a c : Double)
          → i.site.site_load_kw ≡ some a
          → i.site.contract_limit_kw ≡ some c
          → max_charge i ≼ max nought (sub c a))
unfolding max_charge
charge_limits i =
    let (p, q, r) =
      capped_bounds _ i.configured_limit.max_charge_kw (nought-le-max i.battery.max_charge_kw) in
    let (s, t, u) = headroom_bounds _ i.site.site_load_kw i.site.contract_limit_kw p in
    (search (≼_trans, t, q), λ c e. search (≼_trans, t, (r c e)), u)

discharge_limits :
    (i : SafetyInput)
    → (max_discharge i ≼ max nought i.battery.max_discharge_kw)
      × ((c : Double)
          → i.configured_limit.max_discharge_kw ≡ some c
          → max_discharge i ≼ max nought c)
unfolding max_discharge
discharge_limits i =
    let (p, q, r) =
      capped_bounds _ i.configured_limit.max_discharge_kw
        (nought-le-max i.battery.max_discharge_kw) in
    (q, r)

neg_max_charge-le-lower : (i : SafetyInput) → neg (max_charge i) ≼ lower_bound i
unfolding lower_bound
neg_max_charge-le-lower i =
    let h = nought-le-max_charge i in
    let m = neg-le-nought (max_charge i) h in
    ground (arith, IsNumber-left (neg (max_charge i)) nought m)

upper-le-max_discharge : (i : SafetyInput) → upper_bound i ≼ max_discharge i
unfolding upper_bound
upper-le-max_discharge i =
    let h = nought-le-max_discharge i in ground (arith, IsNumber-right nought (max_discharge i) h)

-- What lies between the two bounds is allowed by every limit.
pub bounds-RespectsLimits :
    (i : SafetyInput) (p : Double) → lower_bound i ≼ p → p ≼ upper_bound i → RespectsLimits i p
unfolding lower_bound upper_bound
bounds-RespectsLimits i p lo hi =
    let low : neg (max_charge i) ≼ p = search (≼_trans, (neg_max_charge-le-lower i), lo) in
    let high : p ≼ max_discharge i = search (≼_trans, hi, (upper-le-max_discharge i)) in
    let (c0, c1, c2) = charge_limits i in
    let (d0, d1) = discharge_limits i in
    record {
      bms_charge = search (≼_trans, neg_antitone, low, c0);
      bms_discharge = search (≼_trans, high, d0);
      configured_charge = λ c e. search (≼_trans, neg_antitone, low, (c1 c e));
      configured_discharge = λ c e. search (≼_trans, high, (d1 c e));
      site_headroom = λ a c e f. search (≼_trans, neg_antitone, low, (c2 a c e f));
      no_charge = λ e. ground arith;
      no_discharge = λ e. ground arith;
    }

pub lower-le-upper : (i : SafetyInput) → lower_bound i ≼ upper_bound i
lower-le-upper i = search (≼_trans, lower-le-nought i, nought-le-upper i)

-- The applied power is 0.0, by a refusal, or the clamped request.
pub apply_cases :
    (P : Double → Type 0) (i : SafetyInput)
    → P nought
    → P (clamp i.requested_power_kw (lower_bound i) (upper_bound i))
    → P (apply i).applied_power_kw
unfolding apply clamped_result
apply_cases P i h k = ground arith

-- The applied power respects every limit that is set, for any request that is a number: the BMS
-- limits, the configured caps, the headroom of the site and the two prohibitions.
pub apply-RespectsLimits :
    (i : SafetyInput) → IsNumber i.requested_power_kw → RespectsLimits i (apply i).applied_power_kw
apply-RespectsLimits i n =
    let (lo, hi) =
      clamp_bounds i.requested_power_kw (lower_bound i) (upper_bound i) n (lower-le-upper i) in
    apply_cases (RespectsLimits i) i
      (bounds-RespectsLimits i nought (lower-le-nought i) (nought-le-upper i))
      (bounds-RespectsLimits i _ lo hi)

-- Where control is available nothing is refused.
pub apply-eq-clamped_result :
    (i : SafetyInput)
    → i.ems_connected ≡ true
    → i.battery.quality ≡ good
    → i.battery.limits_valid ≡ true
    → i.battery.control_ready ≡ true
    → apply i ≡ clamped_result i
unfolding apply
apply-eq-clamped_result i connected quality limits ready = simp (connected, quality, limits, ready)

-- Where control is available (the connection is up, the telemetry good, the limits valid and the
-- PCS ready) no permitted power is nearer to the request than the applied one, on either side. In
-- particular a request that every limit permits is applied as it is.
pub apply_nearest :
    (i : SafetyInput) (q : Double)
    → IsNumber i.requested_power_kw
    → i.ems_connected ≡ true
    → i.battery.quality ≡ good
    → i.battery.limits_valid ≡ true
    → i.battery.control_ready ≡ true
    → RespectsLimits i q
    → (q ≼ i.requested_power_kw → q ≼ (apply i).applied_power_kw)
      × (i.requested_power_kw ≼ q → (apply i).applied_power_kw ≼ q)
unfolding clamped_result
apply_nearest i q n connected quality limits ready r =
    rw (apply-eq-clamped_result i connected quality limits ready) (
      clamp_nearest i.requested_power_kw (lower_bound i) (upper_bound i) q n
        (RespectsLimits-lower i q r) (RespectsLimits-upper i q r))
