-- ===== src/Mbus/Provisioning/Printed.antt =====
-- How the line `node` with three numbers is read: its end, its command and its numbers.
use gridex_edge_gateway.Prelude.{
  ℕ, ◌≡◌, refl, arith, ◌<◌, Bool, true, false, none, some, List, [], ◌∷◌, ◌++◌, ltb, ◌==◌,
  if◌then◌else◌, ap, sym, ◌∙◌, ◌^◌, append-nil, Option, length-append, ◌&&◌,
}
use mathlib.Core.Path.{subst}
use gridex_edge_gateway.Prelude.Text.{decimal, codes}
use gridex_edge_gateway.Mqtt.Publish.{leading_number, is_decimal, is_empty, after_spaces, is_space}
use gridex_edge_gateway.Mqtt.Number.{
  after_digits, StartsDecimal, decimal-StartsDecimal, leading_number-decimal, after_digits-decimal,
  after_spaces-StartsDecimal, AreDigits, decimal-AreDigits,
}
use gridex_edge_gateway.Mbus.Provisioning.{scan_digits, scan_unsigned, scan_all, trim_end, trim}

no_sign : (c : ℕ) → is_decimal c ≡ true → ((c == 43) ≡ false) × ((c == 45) ≡ false)
no_sign c h = (ground (arith, h), ground (arith, h))

chosen :
    (d : Bool) (n m : ℕ) (rest : List ℕ)
    → d ≡ true
    → n ≡ m
    → m < 2 ^ 32
    → if◌then◌else◌ {A = Option (ℕ × List ℕ)} d
        (some ((if ltb 4294967295 n then 4294967295 else n), rest))
        none
      ≡ some (m, rest)
chosen d n m rest h e small =
    let fits : ltb 4294967295 n ≡ false = ground (arith, e, small) in
    rw (h, fits) (ap (λ k. some (k, rest)) e)

scan_digits-digits :
    (c n : ℕ) (text : List ℕ)
    → is_decimal c ≡ true
    → leading_number 0 (c ∷ text) ≡ n
    → n < 2 ^ 32
    → scan_digits false (c ∷ text) ≡ some (n, after_digits (c ∷ text))
unfolding scan_digits
scan_digits-digits c n text h e small =
    chosen (is_decimal c) (leading_number 0 (c ∷ text)) n (after_digits (c ∷ text)) h e small

scan_unsigned-digits :
    (text : List ℕ) (n : ℕ)
    → StartsDecimal text
    → leading_number 0 text ≡ n
    → n < 2 ^ 32
    → scan_unsigned text ≡ some (n, after_digits text)
unfolding scan_unsigned
scan_unsigned-digits [] n h e small = elim h [ ]
scan_unsigned-digits (c ∷ text) n h e small =
    let (plus, minus) = no_sign c h in
    rw (after_spaces-StartsDecimal (c ∷ text) h, plus, minus)
      (scan_digits-digits c n text h e small)

-- A number that a space or the end follows.
scan_unsigned-decimal :
    (n : ℕ) (rest : List ℕ)
    → n < 2 ^ 32
    → leading_number n rest ≡ n
    → after_digits rest ≡ rest
    → scan_unsigned (decimal n ++ rest) ≡ some (n, rest)
scan_unsigned-decimal n rest small alone clear =
    scan_unsigned-digits (decimal n ++ rest) n (decimal-StartsDecimal n rest)
      (leading_number-decimal n rest ∙ alone) small
    ∙ ap (λ t. some (n, t)) (after_digits-decimal n rest ∙ clear)

spaced : (text : List ℕ) → scan_unsigned (32 ∷ text) ≡ scan_unsigned text
unfolding scan_unsigned
spaced text = refl

space_alone : (n : ℕ) (text : List ℕ) → leading_number n (32 ∷ text) ≡ n
unfolding leading_number
space_alone n text = refl

space_clear : (text : List ℕ) → after_digits (32 ∷ text) ≡ 32 ∷ text
unfolding after_digits
space_clear text = refl

end_alone : (n : ℕ) → leading_number n [] ≡ n
unfolding leading_number
end_alone n = refl

end_clear : after_digits [] ≡ []
unfolding after_digits
end_clear = refl

-- What stands behind `node `.
abbrev pub node_arguments : ℕ → ℕ → ℕ → List ℕ
node_arguments address type driver =
    decimal address ++ (32 ∷ (decimal type ++ (32 ∷ decimal driver)))

pub scan_all-node_arguments :
    (address type driver : ℕ)
    → address < 2 ^ 32
    → type < 2 ^ 32
    → driver < 2 ^ 32
    → scan_all 3 (node_arguments address type driver) ≡ some (address ∷ type ∷ driver ∷ [])
unfolding scan_all
scan_all-node_arguments address type driver ha ht hd =
    let last = decimal driver in
    let middle = decimal type ++ (32 ∷ last) in
    let first =
      scan_unsigned-decimal address (32 ∷ middle) ha (space_alone address middle)
        (space_clear middle) in
    let second =
      spaced middle
      ∙ scan_unsigned-decimal type (32 ∷ last) ht (space_alone type last) (space_clear last) in
    let third =
      spaced last
      ∙ ap scan_unsigned (sym (append-nil last))
      ∙ scan_unsigned-decimal driver [] hd (end_alone driver) end_clear in
    rw first (rw second (rw third refl))

-- A line that ends in a digit loses nothing at its end.
trim_end-digits : (digits : List ℕ) → AreDigits digits → trim_end digits ≡ digits
unfolding trim_end
trim_end-digits [] h = refl
trim_end-digits (c ∷ digits) (h, hs) =
    let solid : is_space c ≡ false = ground (arith, h) in rw (trim_end-digits digits hs, solid) refl

trim_end-append : (a b : List ℕ) → trim_end b ≡ b → is_empty b ≡ false → trim_end (a ++ b) ≡ a ++ b
unfolding trim_end
trim_end-append [] b kept some_text = kept
trim_end-append (c ∷ a) b kept some_text =
    let longer : is_empty (a ++ b) ≡ false = ground (arith, some_text, length-append a b) in
    let solid : (is_space c && is_empty (a ++ b)) ≡ false = ground (arith, longer) in
    rw (trim_end-append a b kept some_text, solid) refl

starts_some : (text : List ℕ) → StartsDecimal text → is_empty text ≡ false
starts_some [] h = elim h [ ]
starts_some (c ∷ text) h = ground arith

abbrev pub node_line : ℕ → ℕ → ℕ → List ℕ
node_line address type driver = codes "node " ++ node_arguments address type driver

append_assoc : (a b c : List ℕ) → (a ++ b) ++ c ≡ a ++ (b ++ c)
append_assoc [] b c = refl
append_assoc (x ∷ a) b c = ap (λ t. x ∷ t) (append_assoc a b c)

decimal_some : (n : ℕ) → is_empty (decimal n) ≡ false
decimal_some n =
    starts_some (decimal n)
      (subst StartsDecimal (append-nil (decimal n)) (decimal-StartsDecimal n []))

pub trim-node_line :
    (address type driver : ℕ) → trim (node_line address type driver) ≡ node_line address type driver
unfolding trim after_spaces
trim-node_line address type driver =
    let whole = trim_end-digits (decimal driver) (decimal-AreDigits driver) in
    let some_text = decimal_some driver in
    let tail : trim_end (32 ∷ decimal driver) ≡ 32 ∷ decimal driver =
      trim_end-append (32 ∷ []) (decimal driver) whole some_text in
    let middle = trim_end-append (decimal type) (32 ∷ decimal driver) tail (ground arith) in
    let later =
      trim_end-append (32 ∷ []) (decimal type ++ (32 ∷ decimal driver)) middle
        (ground (arith, length-append (decimal type) (32 ∷ decimal driver))) in
    let all =
      trim_end-append (codes "node " ++ decimal address)
        (32 ∷ (decimal type ++ (32 ∷ decimal driver))) later (ground arith) in
    let same =
      append_assoc (codes "node ") (decimal address)
        (32 ∷ (decimal type ++ (32 ∷ decimal driver))) in
    ap trim_end (sym same) ∙ all ∙ same
