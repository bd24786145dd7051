-- ===== src/Apply/Arguments.antt =====
-- The arguments of the program and its token file.
use gridex_edge_gateway.Prelude.{
  ℕ, List, [], Option, Bool, false, none, some, if◌then◌else◌, ◌==◌, ◌∷◌, ◌&&◌, ◌^◌, ◌||◌, true,
  not, ltb, ◌-◌, bit_and, ◌%◌, length,
}
use gridex_edge_gateway.Prelude.Text.{codes}
use gridex_edge_gateway.Mqtt.Publish.{
  leading_number, after_spaces, is_decimal, is_empty, after_prefix,
}
use gridex_edge_gateway.Ota.Compare.{text_equal}

pub record Arguments : Type 0 where
  pub host : List ℕ
  pub port : ℕ
  pub firmware : List ℕ
  pub token_file : List ℕ
  pub self_test : Bool

abbrev pub no_arguments : Arguments
no_arguments = record { host = []; port = 8080; firmware = []; token_file = []; self_test = false }

-- A number that starts with a digit, and fits 64 bits.
unfoldable pub unsigned_of : List ℕ → Option ℕ
unfolding leading_number
unsigned_of [] = none
unsigned_of (c ∷ text) =
    let n = leading_number 0 (c ∷ text) in if is_decimal c && ltb n (2 ^ 64) then some n else none

abbrev pub negated : Option ℕ → Option ℕ
negated none = none
negated (some n) = some ((2 ^ 64 - n) % 2 ^ 64)

-- `std::stoul`: spaces, a sign, digits, and whatever follows; a minus wraps around.
unfoldable pub stoul : List ℕ → Option ℕ
unfolding after_spaces unsigned_of
stoul text = signed (after_spaces text)
  where
    signed : List ℕ → Option ℕ
    signed [] = none
    signed (c ∷ rest) =
        if c == 43
        then unsigned_of rest
        else if c == 45
        then negated (unsigned_of rest)
        else unsigned_of (c ∷ rest)

unfoldable pub with_port : Option ℕ → Arguments → Option Arguments
with_port none result = none
with_port (some parsed) result =
    if parsed == 0 || ltb 65535 parsed then none else some (record result { port = parsed })

-- An argument with a value.
unfoldable pub with_value : List ℕ → List ℕ → Arguments → Option Arguments
unfolding with_port stoul
with_value argument value result =
    if text_equal argument (codes "--host")
    then some (record result { host = value })
    else if text_equal argument (codes "--firmware")
    then some (record result { firmware = value })
    else if text_equal argument (codes "--token-file")
    then some (record result { token_file = value })
    else if text_equal argument (codes "--port")
    then with_port (stoul value) result
    else none

-- The loop over the arguments. `pending` is the argument whose value comes next.
unfoldable pub parse_loop : Option (List ℕ) → List (List ℕ) → Option Arguments → Option Arguments
unfolding with_value
parse_loop pending values none = none
parse_loop none [] (some result) = some result
parse_loop (some argument) [] (some result) = none
parse_loop none (argument ∷ values) (some result) =
    if text_equal argument (codes "--self-test")
    then parse_loop none values (some (record result { self_test = true }))
    else parse_loop (some argument) values (some result)
parse_loop (some argument) (value ∷ values) (some result) =
    parse_loop none values (with_value argument value result)

unfoldable pub complete : Option Arguments → Option Arguments
complete none = none
complete (some result) =
    if not result.self_test
      && (is_empty result.host || is_empty result.firmware || is_empty result.token_file)
    then none
    else some result

unfoldable pub parse_arguments : List (List ℕ) → Option Arguments
unfolding parse_loop complete
parse_arguments values = complete (parse_loop none values (some no_arguments))

-- The characters that `trim` takes off.
abbrev pub is_blank : ℕ → Bool
is_blank c = c == 32 || c == 9 || c == 13 || c == 10

unfoldable pub trim_left : List ℕ → List ℕ
trim_left [] = []
trim_left (c ∷ value) = let rest = trim_left value in if is_blank c then rest else c ∷ value

unfoldable pub trim_right : List ℕ → List ℕ
trim_right [] = []
trim_right (c ∷ value) =
    let rest = trim_right value in if is_blank c && is_empty rest then [] else c ∷ rest

unfoldable pub trim : List ℕ → List ℕ
unfolding trim_left trim_right
trim value = trim_right (trim_left value)

-- `readToken` of a file with this mode and first line; none stands for a failed `stat`.
unfoldable pub read_token : Option ℕ → List ℕ → Option (List ℕ)
unfolding trim
read_token none line = none
read_token (some mode) line =
    let token = trim line in
    if not (bit_and mode 63 == 0)
    then none
    else if ltb (length token) 32 || ltb 128 (length token)
    then none
    else some token

-- The characters " 200 " somewhere.
unfoldable pub has_ok : List ℕ → Bool
unfolding after_prefix
has_ok [] = false
has_ok (c ∷ line) =
    let rest = has_ok line in starts (after_prefix (codes " 200 ") (c ∷ line)) || rest
  where
    starts : Option (List ℕ) → Bool
    starts none = false
    starts (some left) = true
