-- ===== src/Ota/Compare.antt =====
-- The comparison of digests.
use gridex_edge_gateway.Prelude.{
  ℕ, List, ◌∷◌, length, ◌≡◌, ◌<◌, [], true, arith, refl, sym, ◌%◌, ap, ◌∙◌, Bool, ◌==◌, ◌&&◌, false,
}
use gridex_edge_gateway.Prelude.Bits.{bit_or-none, bit_xor-none, bit_xor_self, bit_xor-byte}
use gridex_edge_gateway.Ota.{difference, secure_equals, bit_or, bit_xor}

-- The characters of a text.
abbrev pub AreBytes : List ℕ → Type 0
AreBytes [] = Unit
AreBytes (c ∷ cs) = (c < 256) × AreBytes cs

-- No difference was gathered, hence there was none at the start, and the texts agree.
no_difference :
    (left right : List ℕ) (d : ℕ)
    → AreBytes left
    → AreBytes right
    → length left ≡ length right
    → difference left right d ≡ 0
    → (d ≡ 0) × (left ≡ right)
unfolding difference
no_difference [] [] d hl hr size e = (e, refl)
no_difference [] (r ∷ right) d hl hr size e = absurd (omega arith)
no_difference (l ∷ left) [] d hl hr size e = absurd (omega arith)
no_difference (l ∷ left) (r ∷ right) d (hl, hls) (hr, hrs) size e =
    let (gathered, rest) =
      no_difference left right (bit_or d (bit_xor l r % 256)) hls hrs (omega arith) e in
    let (none_before, none_here) = bit_or-none d (bit_xor l r % 256) gathered in
    let same = bit_xor-none l r (omega (arith, bit_xor-byte l r hl hr)) in
    (none_before, ap (λ c. c ∷ left) same ∙ ap (λ t. r ∷ t) rest)

difference_self : (text : List ℕ) → difference text text 0 ≡ 0
unfolding difference
difference_self [] = refl
difference_self (c ∷ text) = rw (bit_xor_self c) (difference_self text)

-- The comparison in constant time is equality.
pub secure_equals_iff :
    (left right : List ℕ)
    → AreBytes left
    → AreBytes right
    → (secure_equals left right ≡ true → left ≡ right)
      × (left ≡ right → secure_equals left right ≡ true)
unfolding secure_equals
secure_equals_iff left right hl hr = (
  (λ e.
      let size : length left ≡ length right = ground (arith, e) in
      let none_left : difference left right 0 ≡ 0 = ground (arith, e) in
      (no_difference left right 0 hl hr size none_left).1),
  (λ e. rw (sym e) (ground (arith, difference_self left))),
)

-- Equality of texts, the plain way.
abbrev pub text_equal : List ℕ → List ℕ → Bool
text_equal [] [] = true
text_equal (l ∷ left) (r ∷ right) = l == r && text_equal left right
text_equal _ _ = false
