-- ===== src/Daemon/System.antt =====
-- What the gateway measures of its own computer: base-rockpie/src/SystemTelemetry.cpp and
-- base-rockpie/include/gridex/rockpie/CpuTemperature.hpp. What the files hold, and what a `double` read from
-- one is, are parameters.
use gridex_edge_gateway.Prelude.{
  ℕ, ◌≡◌, Bool, true, false, not, ◌&&◌, ◌||◌, Option, none, some, List, [], ◌∷◌, ◌++◌,
  if◌then◌else◌, ◌==◌, arith, if-both, refl, ap, ◌∙◌,
}
use gridex_edge_gateway.Prelude.Int.{ℤ, pos, neg_ℕ, ltb_ℤ, negsuc}
use gridex_edge_gateway.Prelude.Text.{codes}
use gridex_edge_gateway.Double.{Double, nought, le, fin, is_finite, milli}
use gridex_edge_gateway.Ota.Compare.{text_equal}
use gridex_edge_gateway.Mqtt.{SystemTelemetrySample}
use gridex_edge_gateway.Mqtt.Publish.{leading_number, is_decimal, after_spaces, is_empty}
use gridex_edge_gateway.Mqtt.Number.{after_digits}

-- The milli-degrees, and the text after them.
unfoldable pub temperature_of : ℤ → List ℕ → Option Double
unfolding after_spaces
temperature_of value rest =
    if ltb_ℤ value (neg_ℕ 40000) || ltb_ℤ (pos 150000) value
    then none
    else if not (is_empty (after_spaces rest))
    then none
    else some (fin value)

-- The digits of a `long`; one that does not fit is none, as it is refused in any case.
unfoldable pub digits_temperature : Bool → List ℕ → Option Double
unfolding leading_number after_digits temperature_of
digits_temperature negative [] = none
digits_temperature negative (c ∷ text) =
    let n = leading_number 0 (c ∷ text) in
    if is_decimal c
    then temperature_of (if negative then neg_ℕ n else pos n) (after_digits (c ∷ text))
    else none

-- A sign, and digits.
unfoldable pub signed_temperature : List ℕ → Option Double
unfolding digits_temperature
signed_temperature [] = none
signed_temperature (c ∷ rest) =
    if c == 43
    then digits_temperature false rest
    else if c == 45
    then digits_temperature true rest
    else digits_temperature false (c ∷ rest)

unfoldable pub parse_cpu_temperature : List ℕ → Option Double
unfolding after_spaces signed_temperature
parse_cpu_temperature input = signed_temperature (after_spaces input)

-- What the files and the file system say; none for what cannot be read. A line of `/proc/meminfo` is
-- its key and its value, up to the first line that is none.
pub record SystemReadings : Type 0 where
  pub cpu_temperature : List ℕ
  pub uptime : Option Double
  pub load : Option Double
  pub memory : List (List ℕ × Double)
  pub space_available : Option Double
  pub journal_size : Option Double

-- `value * 1024.0`.
abbrev pub Scale : Type 0
Scale = Double → Double

unfoldable pub add : List ℕ → List ℕ → Option Double → List SystemTelemetrySample
add id unit none = []
add id unit (some value) =
    if is_finite value && le nought value
    then record { sensor_id = id; unit = unit; value = value } ∷ []
    else []

-- The first line of the memory that is available.
unfoldable pub memory_available : List (List ℕ × Double) → Option Double
memory_available [] = none
memory_available ((key, value) ∷ lines) =
    let later = memory_available lines in
    if text_equal key (codes "MemAvailable:") then some value else later

abbrev pub scaled : Scale → Option Double → Option Double
scaled kibi none = none
scaled kibi (some value) = some (kibi value)

abbrev pub temperature_sample : Option Double → List SystemTelemetrySample
temperature_sample none = []
temperature_sample (some value) =
    record { sensor_id = codes "cpuTemperatureC"; unit = codes "Cel"; value = value } ∷ []

unfoldable pub read_system_telemetry : Scale → Bool → SystemReadings → List SystemTelemetrySample
unfolding parse_cpu_temperature add memory_available
read_system_telemetry kibi include_temperature r =
    (if include_temperature
      then temperature_sample (parse_cpu_temperature r.cpu_temperature)
      else [])
    ++ (add (codes "uptimeSeconds") (codes "s") r.uptime
        ++ (add (codes "load1") (codes "load") r.load
            ++ (add (codes "memoryAvailableBytes") (codes "bytes")
                  (scaled kibi (memory_available r.memory))
                ++ (add (codes "storageDataFreeBytes") (codes "bytes") r.space_available
                    ++ add (codes "journalSizeBytes") (codes "bytes") r.journal_size))))

-- The range of a sample: -40 to 150 degrees for the temperature of the processor, and no negative number
-- for every other.
abbrev pub in_range : SystemTelemetrySample → Bool
in_range sample =
    if text_equal sample.sensor_id (codes "cpuTemperatureC")
    then le (fin (neg_ℕ 40000)) sample.value && le sample.value (milli 150000)
    else le nought sample.value

-- Values that may be published: finite, and in their range.
abbrev pub AreSane : List SystemTelemetrySample → Type 0
AreSane [] = Unit
AreSane (sample ∷ samples) =
    (is_finite sample.value ≡ true) × (in_range sample ≡ true) × AreSane samples

append-AreSane : (a b : List SystemTelemetrySample) → AreSane a → AreSane b → AreSane (a ++ b)
append-AreSane [] b ha hb = hb
append-AreSane (x ∷ a) b (h, k, ha) hb = (h, k, append-AreSane a b ha hb)

-- A temperature, if there is one, lies between -40 and 150 degrees.
abbrev pub IsTemperature : Option Double → Type 0
IsTemperature none = Unit
IsTemperature (some d) =
    (is_finite d ≡ true) × (le (fin (neg_ℕ 40000)) d ≡ true) × (le d (milli 150000) ≡ true)

both_first : (a b : Bool) → a && b ≡ true → a ≡ true
both_first a b h = ground arith

both_second : (a b : Bool) → a && b ≡ true → b ≡ true
both_second a b h = ground arith

within :
    (value : ℤ)
    → ltb_ℤ value (neg_ℕ 40000) || ltb_ℤ (pos 150000) value ≡ false
    → IsTemperature (some (fin value))
within (pos n) h = (refl, ground arith, ground (arith, h))
within (negsuc n) h = (refl, ground (arith, h), ground arith)

temperature_of-IsTemperature :
    (value : ℤ) (rest : List ℕ) → IsTemperature (temperature_of value rest)
unfolding temperature_of
temperature_of-IsTemperature value rest =
    if-both IsTemperature (ltb_ℤ value (neg_ℕ 40000) || ltb_ℤ (pos 150000) value) _ _ (λ _. tt)
      (λ e.
        if-both IsTemperature (not (is_empty (after_spaces rest))) _ _ (λ _. tt)
          (λ _. within value e))

digits-IsTemperature :
    (negative : Bool) (text : List ℕ) → IsTemperature (digits_temperature negative text)
unfolding digits_temperature
digits-IsTemperature negative [] = tt
digits-IsTemperature negative (c ∷ text) =
    if-both IsTemperature (is_decimal c) _ _
      (λ _.
        temperature_of-IsTemperature
          (if negative
            then neg_ℕ (leading_number 0 (c ∷ text))
            else pos (leading_number 0 (c ∷ text)))
          (after_digits (c ∷ text)))
      (λ _. tt)

signed-IsTemperature : (text : List ℕ) → IsTemperature (signed_temperature text)
unfolding signed_temperature
signed-IsTemperature [] = tt
signed-IsTemperature (c ∷ rest) =
    if-both IsTemperature (c == 43) _ _ (λ _. digits-IsTemperature false rest)
      (λ _.
        if-both IsTemperature (c == 45) _ _ (λ _. digits-IsTemperature true rest)
          (λ _. digits-IsTemperature false (c ∷ rest)))

pub parse_cpu_temperature-IsTemperature :
    (input : List ℕ) → IsTemperature (parse_cpu_temperature input)
unfolding parse_cpu_temperature
parse_cpu_temperature-IsTemperature input = signed-IsTemperature (after_spaces input)

both_hold : (a b : Bool) → a ≡ true → b ≡ true → a && b ≡ true
both_hold a b h k = ground arith

temperature_sample-AreSane : (t : Option Double) → IsTemperature t → AreSane (temperature_sample t)
temperature_sample-AreSane none h = tt
temperature_sample-AreSane (some d) (finite, low, high) = (finite, both_hold _ _ low high, tt)

add-AreSane :
    (name unit : List ℕ) (value : Option Double)
    → text_equal name (codes "cpuTemperatureC") ≡ false
    → AreSane (add name unit value)
unfolding add
add-AreSane name unit none other = tt
add-AreSane name unit (some value) other =
    if-both AreSane (is_finite value && le nought value) _ _
      (λ e. (
        both_first _ _ e,
        ap
              (λ t.
                if t
                then le (fin (neg_ℕ 40000)) value && le value (milli 150000)
                else le nought value)
              other
            ∙ both_second (is_finite value) _ e,
        tt,
      ))
      (λ _. tt)

-- Every sample that the gateway reports of its own computer, whatever the files hold and the system says,
-- is a finite number. The temperature of the processor lies between -40 and 150 degrees, and every other
-- sample is not negative. A temperature that is read lies between -40 and 150 degrees.
pub read_system_telemetry-AreSane :
    (kibi : Scale) (include_temperature : Bool) (r : SystemReadings)
    → AreSane (read_system_telemetry kibi include_temperature r)
      × IsTemperature (parse_cpu_temperature r.cpu_temperature)
unfolding read_system_telemetry
read_system_telemetry-AreSane kibi include_temperature r =
    let temperature = parse_cpu_temperature-IsTemperature r.cpu_temperature in
    let journal = add-AreSane (codes "journalSizeBytes") (codes "bytes") r.journal_size refl in
    let space =
      append-AreSane _ _
        (add-AreSane (codes "storageDataFreeBytes") (codes "bytes") r.space_available refl)
        journal in
    let memory =
      append-AreSane _ _
        (add-AreSane (codes "memoryAvailableBytes") (codes "bytes")
          (scaled kibi (memory_available r.memory)) refl)
        space in
    let load = append-AreSane _ _ (add-AreSane (codes "load1") (codes "load") r.load refl) memory in
    let uptime =
      append-AreSane _ _ (add-AreSane (codes "uptimeSeconds") (codes "s") r.uptime refl) load in
    (
      append-AreSane _ _
          (if-both AreSane include_temperature _ _
            (λ _. temperature_sample-AreSane (parse_cpu_temperature r.cpu_temperature) temperature)
            (λ _. tt))
          uptime,
      temperature,
    )
