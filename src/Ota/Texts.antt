-- ===== src/Ota/Texts.antt =====
-- The digits of a digest, and facts on the tests of an upload.
use gridex_edge_gateway.Prelude.{
  ℕ, List, arith, [], Bool, get_or, ◌∷◌, ◌≢◌, ◌||◌, ◌&&◌, ◌≡◌, ◌<◌, ◌/◌, true, not, suc, ◌%◌, false,
  if◌then◌else◌, zero, refl,
}
use mathlib.Core.Bool.{true≢false, false≢true}
use gridex_edge_gateway.Prelude.Text.{hex_digits}
use gridex_edge_gateway.Ota.{hex_text, valid_sha256}
use gridex_edge_gateway.Ota.Compare.{AreBytes}

get_or-byte : (text : List ℕ) (i : ℕ) → AreBytes text → get_or text i 0 < 256
get_or-byte [] i h = omega arith
get_or-byte (c ∷ text) zero (h, hs) = h
get_or-byte (c ∷ text) (suc i) (h, hs) = get_or-byte text i hs

hex_digits-AreBytes : AreBytes hex_digits
hex_digits-AreBytes = ground arith

pub hex_text-AreBytes : (digest : List ℕ) → AreBytes (hex_text digest)
unfolding hex_text
hex_text-AreBytes [] = tt
hex_text-AreBytes (value ∷ digest) = (
  get_or-byte hex_digits (value / 16) hex_digits-AreBytes,
  (get_or-byte hex_digits (value % 16) hex_digits-AreBytes, hex_text-AreBytes digest),
)

pub empty_invalid : valid_sha256 [] ≢ true
unfolding valid_sha256
empty_invalid e = false≢true e

pub second_true : (a b : Bool) → a || not b ≡ false → b ≡ true
second_true true b e = absurd (true≢false e)
second_true false true e = refl
second_true false false e = absurd (true≢false e)

pub second_holds : (a b c : Bool) → a && b && c ≡ true → b ≡ true
second_holds a b c e = ground (arith, e)

pub passed : {A : Type 0} (b : Bool) (x y : A) → b ≡ true → (if not b then x else y) ≡ y
passed true x y e = refl
passed false x y e = absurd (false≢true e)
