-- ===== src/Mqtt/Number.antt =====
-- A number that was printed in decimal, as the standard library reads it back.
use gridex_edge_gateway.Prelude.{
  ℕ, zero, suc, ◌≡◌, refl, arith, ◌<◌, ◌+◌, ◌*◌, ◌/◌, ◌%◌, true, false, List, [], ◌∷◌, ◌++◌, ltb,
  ap, ◌∙◌, Bool-cases, inl, inr, if◌then◌else◌,
}
use gridex_edge_gateway.Prelude.Text.{decimal, decimal_from}
use gridex_edge_gateway.Mqtt.Publish.{leading_number, is_decimal, after_spaces, is_space}

-- What follows the digits that a text starts with.
unfoldable pub after_digits : List ℕ → List ℕ
after_digits [] = []
after_digits (c ∷ text) = let rest = after_digits text in if is_decimal c then rest else c ∷ text

-- The text starts with a digit.
abbrev pub StartsDecimal : List ℕ → Type 0
StartsDecimal [] = ⊥
StartsDecimal (c ∷ text) = is_decimal c ≡ true

digit : (n : ℕ) → n < 10 → is_decimal (48 + n) ≡ true
digit n h = ground arith

append_assoc : (a b c : List ℕ) → (a ++ b) ++ c ≡ a ++ (b ++ c)
append_assoc [] b c = refl
append_assoc (x ∷ a) b c = ap (λ t. x ∷ t) (append_assoc a b c)

small_turns : (turns m : ℕ) → m < suc turns → ltb m 10 ≡ false → m / 10 < turns
small_turns turns m h e = ground (arith, e)

one_digit :
    (n m : ℕ) (rest : List ℕ)
    → m < 10
    → leading_number n ((48 + m) ∷ rest) ≡ leading_number (n * 10 + m) rest
unfolding leading_number
one_digit n m rest h = rw (digit m h) (ap (λ k. leading_number (n * 10 + k) rest) (omega arith))

leading_from :
    (turns m : ℕ) (rest : List ℕ)
    → m < turns
    → leading_number 0 (decimal_from turns m ++ rest) ≡ leading_number m rest
unfolding decimal_from
leading_from zero m rest h = absurd (omega arith)
leading_from (suc turns) m rest h = elim (Bool-cases (ltb m 10)) [
  | inl e ↦
      rw e (one_digit 0 m rest (ground (arith, e)) ∙ ap (λ k. leading_number k rest) (omega arith))
  | inr e ↦
      let last = (48 + m % 10) ∷ [] in
      rw e (
        ap (leading_number 0) (append_assoc (decimal_from turns (m / 10)) last rest)
        ∙ leading_from turns (m / 10) (last ++ rest) (small_turns turns m h e)
        ∙ one_digit (m / 10) (m % 10) rest (omega arith)
        ∙ ap (λ k. leading_number k rest) (omega arith))
]

after_from :
    (turns m : ℕ) (rest : List ℕ)
    → m < turns
    → after_digits (decimal_from turns m ++ rest) ≡ after_digits rest
unfolding decimal_from after_digits
after_from zero m rest h = absurd (omega arith)
after_from (suc turns) m rest h = elim (Bool-cases (ltb m 10)) [
  | inl e ↦ rw (e, digit m (ground (arith, e))) refl
  | inr e ↦
      let last = (48 + m % 10) ∷ [] in
      rw e (
        ap after_digits (append_assoc (decimal_from turns (m / 10)) last rest)
        ∙ after_from turns (m / 10) (last ++ rest) (small_turns turns m h e)
        ∙ rw (digit (m % 10) (omega arith)) refl)
]

starts_append : (a b : List ℕ) → StartsDecimal a → StartsDecimal (a ++ b)
starts_append [] b h = elim h [ ]
starts_append (c ∷ a) b h = h

starts_from : (turns m : ℕ) → m < turns → StartsDecimal (decimal_from turns m)
unfolding decimal_from
starts_from zero m h = absurd (omega arith)
starts_from (suc turns) m h = elim (Bool-cases (ltb m 10)) [
  | inl e ↦ rw e (digit m (ground (arith, e)))
  | inr e ↦ rw e (
      starts_append (decimal_from turns (m / 10)) ((48 + m % 10) ∷ [])
        (starts_from turns (m / 10) (small_turns turns m h e)))
]

pub leading_number-decimal :
    (m : ℕ) (rest : List ℕ) → leading_number 0 (decimal m ++ rest) ≡ leading_number m rest
unfolding decimal
leading_number-decimal m rest = leading_from (suc m) m rest (omega arith)

pub after_digits-decimal :
    (m : ℕ) (rest : List ℕ) → after_digits (decimal m ++ rest) ≡ after_digits rest
unfolding decimal
after_digits-decimal m rest = after_from (suc m) m rest (omega arith)

pub decimal-StartsDecimal : (m : ℕ) (rest : List ℕ) → StartsDecimal (decimal m ++ rest)
unfolding decimal
decimal-StartsDecimal m rest =
    starts_append (decimal (m)) rest (starts_from (suc m) m (omega arith))

no_space : (c : ℕ) → is_decimal c ≡ true → is_space c ≡ false
no_space c h = ground (arith, h)

pub after_spaces-StartsDecimal : (text : List ℕ) → StartsDecimal text → after_spaces text ≡ text
unfolding after_spaces
after_spaces-StartsDecimal [] h = elim h [ ]
after_spaces-StartsDecimal (c ∷ text) h = rw (no_space c h) refl

abbrev pub AreDigits : List ℕ → Type 0
AreDigits [] = Unit
AreDigits (c ∷ text) = (is_decimal c ≡ true) × AreDigits text

append-AreDigits : (a b : List ℕ) → AreDigits a → AreDigits b → AreDigits (a ++ b)
append-AreDigits [] b ha hb = hb
append-AreDigits (c ∷ a) b (h, ha) hb = (h, append-AreDigits a b ha hb)

digits_from : (turns m : ℕ) → AreDigits (decimal_from turns m)
unfolding decimal_from
digits_from zero m = tt
digits_from (suc turns) m = elim (Bool-cases (ltb m 10)) [
  | inl e ↦ rw e (digit m (ground (arith, e)), tt)
  | inr e ↦ rw e (
      append-AreDigits (decimal_from turns (m / 10)) ((48 + m % 10) ∷ [])
        (digits_from turns (m / 10)) (digit (m % 10) (omega arith), tt))
]

pub decimal-AreDigits : (m : ℕ) → AreDigits (decimal m)
unfolding decimal
decimal-AreDigits m = digits_from (suc m) m
