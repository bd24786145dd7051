-- ===== src/Mqtt/Json.antt =====
-- The strings of the JSON texts, against a reader of JSON strings.
use gridex_edge_gateway.Prelude.{
  holds_below, holds_below_at, ℕ, List, Option, if◌then◌else◌, Bool, get_or, ◌<◌, leb, ◌==◌, some,
  ◌∷◌, true, ◌≡◌, false, ◌++◌, ◌/◌, ◌&&◌, none, ◌*◌, [], suc, arith, refl, ◌%◌, ap, ◌-◌, ◌+◌, ltb,
  zero, sym, append-nil, ◌∙◌, append_assoc, if-both,
}
use mathlib.Core.Bool.{false≢true}
use gridex_edge_gateway.Prelude.Text.{hex_digits}
use gridex_edge_gateway.Mqtt.{escaped, all_escaped, json_string}

-- A reader of a JSON string, as RFC 8259 says, for the code points below 256.
pub data Reader : Type 0 where
  before : Reader
  inside : List ℕ → Reader
  after_backslash : List ℕ → Reader
  -- So many hexadecimal digits are to come, and these were read.
  in_unicode : ℕ → ℕ → List ℕ → Reader
  finished : List ℕ → Reader
  invalid : Reader

abbrev hex_value : ℕ → Option ℕ
hex_value c =
    if leb 48 c && leb c 57
    then some (c - 48)
    else if leb 97 c && leb c 102
    then some (c - 87)
    else if leb 65 c && leb c 70
    then some (c - 55)
    else none

abbrev named_escape : ℕ → Option ℕ
named_escape c =
    if c == 34
    then some 34
    else if c == 92
    then some 92
    else if c == 47
    then some 47
    else if c == 98
    then some 8
    else if c == 102
    then some 12
    else if c == 110
    then some 10
    else if c == 114
    then some 13
    else if c == 116
    then some 9
    else none

abbrev with_digit : ℕ → ℕ → List ℕ → Option ℕ → Reader
with_digit left point read none = invalid
with_digit zero point read (some d) = inside (read ++ ((point * 16 + d) ∷ []))
with_digit (suc left) point read (some d) = in_unicode left (point * 16 + d) read

abbrev with_escape : List ℕ → Option ℕ → Reader
with_escape read none = invalid
with_escape read (some c) = inside (read ++ (c ∷ []))

unfoldable read_char : ℕ → Reader → Reader
read_char c before = if c == 34 then inside [] else invalid
read_char c (inside read) =
    if c == 34
    then finished read
    else if c == 92
    then after_backslash read
    else if ltb c 32
    then invalid
    else inside (read ++ (c ∷ []))
read_char c (after_backslash read) =
    if c == 117 then in_unicode 3 0 read else with_escape read (named_escape c)
read_char c (in_unicode left point read) = with_digit left point read (hex_value c)
read_char c (finished read) = invalid
read_char c invalid = invalid

unfoldable pub read_text : Reader → List ℕ → Reader
unfolding read_char
read_text r [] = r
read_text r (c ∷ text) = read_text (read_char c r) text

abbrev is_digit : ℕ → Option ℕ → Bool
is_digit i none = false
is_digit i (some d) = d == i

digit_value : (i : ℕ) (v : Option ℕ) → is_digit i v ≡ true → v ≡ some i
digit_value i none e = absurd (false≢true e)
digit_value i (some d) e = ap some (ground (arith, e))

hex_table : holds_below (λ i. is_digit i (hex_value (get_or hex_digits i 0))) 16 ≡ true
unfolding holds_below
hex_table = refl

hex_value-digit : (i : ℕ) → i < 16 → hex_value (get_or hex_digits i 0) ≡ some i
hex_value-digit i h =
    digit_value i _
      (holds_below_at (λ d. is_digit d (hex_value (get_or hex_digits d 0))) 16 i h hex_table)

read_text-append : (r : Reader) (a b : List ℕ) → read_text r (a ++ b) ≡ read_text (read_text r a) b
unfolding read_text
read_text-append r [] b = refl
read_text-append r (c ∷ a) b = read_text-append (read_char c r) a b

-- A control character, by its number.
read_control :
    (c : ℕ) (read : List ℕ)
    → c < 32
    → read_text
        (in_unicode 1 0 read)
        (get_or hex_digits (c / 16) 0 ∷ get_or hex_digits (c % 16) 0 ∷ [])
      ≡ inside (read ++ (c ∷ []))
unfolding read_text read_char
read_control c read h =
    rw (hex_value-digit (c / 16) (omega arith), hex_value-digit (c % 16) (omega arith))
      (ap (λ v. inside (read ++ (v ∷ []))) (omega arith))

read_escaped :
    (c : ℕ) (read : List ℕ) → read_text (inside read) (escaped c) ≡ inside (read ++ (c ∷ []))
unfolding escaped read_text read_char
read_escaped c read =
    let P : List ℕ → Type 0 = λ text. read_text (inside read) text ≡ inside (read ++ (c ∷ [])) in
    let named : (v : ℕ) → (c == v) ≡ true → inside (read ++ (v ∷ [])) ≡ inside (read ++ (c ∷ [])) =
      λ v e. ap (λ w. inside (read ++ (w ∷ []))) (ground (arith, e)) in
    if-both P (c == 34) _ _ (named 34) (λ e1. if-both P (c == 92) _ _ (named 92) (λ e2.
      if-both P (c == 10) _ _ (named 10) (λ e3. if-both P (c == 13) _ _ (named 13) (λ e4.
        if-both P (c == 9) _ _ (named 9) (λ e5.
          if-both P (ltb c 0x20) _ _ (λ low. read_control c read (ground (arith, low)))
            (λ high. rw (e1, e2, high) refl))))))

read_all :
    (value read : List ℕ) → read_text (inside read) (all_escaped value) ≡ inside (read ++ value)
unfolding all_escaped read_text
read_all [] read = ap inside (sym (append-nil read))
read_all (c ∷ value) read =
    read_text-append (inside read) (escaped c) (all_escaped value)
    ∙ ap (λ r. read_text r (all_escaped value)) (read_escaped c read)
    ∙ read_all value (read ++ (c ∷ []))
    ∙ ap inside (append_assoc read (c ∷ []) value)

-- A reader of JSON gets back every text, whatever quotes, backslashes and control characters it has.
pub read_text-json_string : (value : List ℕ) → read_text before (json_string value) ≡ finished value
unfolding json_string read_text
read_text-json_string value =
    read_text-append (inside []) (all_escaped value) (34 ∷ [])
    ∙ ap (λ r. read_text r (34 ∷ [])) (read_all value [])
