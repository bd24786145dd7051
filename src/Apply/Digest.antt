-- ===== src/Apply/Digest.antt =====
-- The digest that the program announces, as the node checks it.
use gridex_edge_gateway.Prelude.{
  holds_below, holds_below_at, ℕ, List, suc, length, get_or, ◌∷◌, ◌++◌, arith, ◌≡◌, true, [], zero,
  ◌*◌, refl, ◌/◌, ◌==◌, length-append, ◌%◌,
}
use gridex_edge_gateway.Prelude.Text.{hex_digits}
use gridex_edge_gateway.Ota.{hex_text, all_hex, is_hex, valid_sha256}
use gridex_edge_gateway.Ota.Compare.{AreBytes}
use gridex_edge_gateway.Apply.Sha256.{
  transform, padded, big_endian, all_bytes, finish, update_all, new_hash, hash_pieces,
}

append-AreBytes : (a b : List ℕ) → AreBytes a → AreBytes b → AreBytes (a ++ b)
append-AreBytes [] b ha hb = hb
append-AreBytes (v ∷ a) b (h, ha) hb = (h, append-AreBytes a b ha hb)

big_endian-AreBytes : (bytes n : ℕ) → AreBytes (big_endian bytes n)
unfolding big_endian
big_endian-AreBytes zero n = tt
big_endian-AreBytes (suc bytes) n = (omega arith, big_endian-AreBytes bytes n)

all_bytes-AreBytes : (state : List ℕ) → AreBytes (all_bytes state)
unfolding all_bytes
all_bytes-AreBytes [] = tt
all_bytes-AreBytes (word ∷ state) =
    append-AreBytes (big_endian 4 word) (all_bytes state) (big_endian-AreBytes 4 word)
      (all_bytes-AreBytes state)

length-big_endian : (bytes n : ℕ) → length (big_endian bytes n) ≡ bytes
unfolding big_endian
length-big_endian zero n = refl
length-big_endian (suc bytes) n = omega (arith, length-big_endian bytes n)

length-all_bytes : (state : List ℕ) → length (all_bytes state) ≡ length state * 4
unfolding all_bytes
length-all_bytes [] = refl
length-all_bytes (word ∷ state) = omega (
  arith,
  length-append (big_endian 4 word) (all_bytes state),
  length-big_endian 4 word,
  length-all_bytes state,
)

length-transform : (bytes state : List ℕ) → length (transform bytes state) ≡ 8
unfolding transform
length-transform bytes state = refl

digits_hex : holds_below (λ i. is_hex (get_or hex_digits i 0)) 16 ≡ true
unfolding holds_below
digits_hex = refl

hex_text-all_hex : (digest : List ℕ) → AreBytes digest → all_hex (hex_text digest) ≡ true
unfolding all_hex hex_text
hex_text-all_hex [] h = refl
hex_text-all_hex (v ∷ digest) (h, hs) =
    let high =
      holds_below_at (λ i. is_hex (get_or hex_digits i 0)) 16 (v / 16) (omega arith) digits_hex in
    let low =
      holds_below_at (λ i. is_hex (get_or hex_digits i 0)) 16 (v % 16) (omega arith) digits_hex in
    rw (high, low) (hex_text-all_hex digest hs)

length-hex_text : (digest : List ℕ) → length (hex_text digest) ≡ length digest * 2
unfolding hex_text
length-hex_text [] = refl
length-hex_text (v ∷ digest) = omega (arith, length-hex_text digest)

-- Whatever the file, the digest is one that the node's check of the header accepts.
pub hash_pieces-valid : (pieces : List (List ℕ)) → valid_sha256 (hash_pieces pieces) ≡ true
unfolding valid_sha256 hash_pieces finish
hash_pieces-valid pieces =
    let last = padded (update_all pieces new_hash) in
    let state =
      transform (last.block ++ big_endian 8 (update_all pieces new_hash).bit_count) last.state in
    let size : (length (hex_text (all_bytes state)) == 64) ≡ true = ground (
      arith,
      length-hex_text (all_bytes state),
      length-all_bytes state,
      length-transform (last.block ++ big_endian 8 (update_all pieces new_hash).bit_count)
          last.state,
    ) in
    rw size (hex_text-all_hex (all_bytes state) (all_bytes-AreBytes state))
