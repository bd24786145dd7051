-- ===== src/Prelude/Text.antt =====
-- Text as the numbers of its characters.
use Prim.Native.Nat.{ℕ, zero, suc, ◌+◌, ◌/◌, ◌%◌, ◌≤◌}
use Prim.Native.Char.{code}
use Prim.Native.String.{String}
use mathlib.Core.List.{List, [], ◌∷◌, ◌++◌}
use native.Mathlib.Omega.{arith}
use gridex_edge_gateway.Prelude.Tests.{ltb, if◌then◌else◌, if-both}
use gridex_edge_gateway.Prelude.{Bool}

abbrev pub codes : String → List ℕ
codes (String.◌∷◌ letter text) = code letter ∷ codes text
codes String.[] = []

-- The digits of the code's `kHex`.
abbrev pub hex_digits : List ℕ
hex_digits = codes "0123456789abcdef"

-- The decimal digits of a number, for as many turns.
unfoldable pub decimal_from : ℕ → ℕ → List ℕ
decimal_from zero n = []
decimal_from (suc turns) n =
    let higher = decimal_from turns (n / 10) in
    if ltb n 10 then (48 + n) ∷ [] else higher ++ ((48 + n % 10) ∷ [])

-- A number as a stream prints it; a number has fewer digits than `suc n`.
unfoldable pub decimal : ℕ → List ℕ
unfolding decimal_from
decimal n = decimal_from (suc n) n

abbrev pub json_bool : Bool → List ℕ
json_bool value = if value then codes "true" else codes "false"

-- The texts of the stream put together: a fixed text, and a value after it.
abbrev pub printed : List (List ℕ × List ℕ) → List ℕ
printed [] = codes "}"
printed ((name, value) ∷ parts) = name ++ (value ++ printed parts)

-- A text without control characters, as every line of a journal is.
abbrev pub IsPlain : List ℕ → Type 0
IsPlain [] = Unit
IsPlain (c ∷ text) = (32 ≤ c) × IsPlain text

pub append-IsPlain : (a b : List ℕ) → IsPlain a → IsPlain b → IsPlain (a ++ b)
append-IsPlain [] b ha hb = hb
append-IsPlain (c ∷ a) b (h, ha) hb = (h, append-IsPlain a b ha hb)

digits-IsPlain : (turns n : ℕ) → IsPlain (decimal_from turns n)
unfolding decimal_from
digits-IsPlain zero n = tt
digits-IsPlain (suc turns) n =
    if-both IsPlain (ltb n 10) _ _ (λ e. (omega arith, tt))
      (λ e.
        append-IsPlain (decimal_from turns (n / 10)) _ (digits-IsPlain turns (n / 10))
          (omega arith, tt))

pub decimal-IsPlain : (n : ℕ) → IsPlain (decimal n)
unfolding decimal
decimal-IsPlain n = digits-IsPlain (suc n) n
