-- ===== src/Apply/Sha256.antt =====
-- The class `Sha256` of base-rockpie/src/OtaApply.cpp. A word is a number below 2 ^ 32.
use gridex_edge_gateway.Prelude.{
  ℕ, List, [], bit_or, bit_xor, if◌then◌else◌, ◌++◌, ◌∷◌, ◌/◌, get_or, suc, bit_and, length, ◌+◌,
  ◌^◌, ◌*◌, zero, ◌-◌, ◌%◌, ◌==◌, ltb, drop, replicate, take,
}
use gridex_edge_gateway.Ota.{hex_text}

abbrev pub round_constants : List ℕ
round_constants =
    0x428a2f98 ∷ 0x71374491 ∷ 0xb5c0fbcf ∷ 0xe9b5dba5 ∷ 0x3956c25b ∷ 0x59f111f1 ∷ 0x923f82a4
    ∷ 0xab1c5ed5 ∷ 0xd807aa98 ∷ 0x12835b01 ∷ 0x243185be ∷ 0x550c7dc3 ∷ 0x72be5d74 ∷ 0x80deb1fe
    ∷ 0x9bdc06a7 ∷ 0xc19bf174 ∷ 0xe49b69c1 ∷ 0xefbe4786 ∷ 0x0fc19dc6 ∷ 0x240ca1cc ∷ 0x2de92c6f
    ∷ 0x4a7484aa ∷ 0x5cb0a9dc ∷ 0x76f988da ∷ 0x983e5152 ∷ 0xa831c66d ∷ 0xb00327c8 ∷ 0xbf597fc7
    ∷ 0xc6e00bf3 ∷ 0xd5a79147 ∷ 0x06ca6351 ∷ 0x14292967 ∷ 0x27b70a85 ∷ 0x2e1b2138 ∷ 0x4d2c6dfc
    ∷ 0x53380d13 ∷ 0x650a7354 ∷ 0x766a0abb ∷ 0x81c2c92e ∷ 0x92722c85 ∷ 0xa2bfe8a1 ∷ 0xa81a664b
    ∷ 0xc24b8b70 ∷ 0xc76c51a3 ∷ 0xd192e819 ∷ 0xd6990624 ∷ 0xf40e3585 ∷ 0x106aa070 ∷ 0x19a4c116
    ∷ 0x1e376c08 ∷ 0x2748774c ∷ 0x34b0bcb5 ∷ 0x391c0cb3 ∷ 0x4ed8aa4a ∷ 0x5b9cca4f ∷ 0x682e6ff3
    ∷ 0x748f82ee ∷ 0x78a5636f ∷ 0x84c87814 ∷ 0x8cc70208 ∷ 0x90befffa ∷ 0xa4506ceb ∷ 0xbef9a3f7
    ∷ 0xc67178f2 ∷ []

abbrev pub initial_state : List ℕ
initial_state =
    0x6a09e667 ∷ 0xbb67ae85 ∷ 0x3c6ef372 ∷ 0xa54ff53a ∷ 0x510e527f ∷ 0x9b05688c ∷ 0x1f83d9ab
    ∷ 0x5be0cd19 ∷ []

-- `block` is `block_` up to `used_`.
pub record Sha256 : Type 0 where
  pub state : List ℕ
  pub block : List ℕ
  pub bit_count : ℕ

abbrev pub new_hash : Sha256
new_hash = record { state = initial_state; block = []; bit_count = 0 }

-- The two shifts have no digit in common.
abbrev pub rotate_right : ℕ → ℕ → ℕ
rotate_right value count = bit_or (value / 2 ^ count) (value * 2 ^ (32 - count) % 2 ^ 32)

abbrev pub big_word : List ℕ → ℕ → ℕ
big_word block index =
    get_or block (index * 4) 0 * 2 ^ 24
    + get_or block (index * 4 + 1) 0 * 2 ^ 16
    + get_or block (index * 4 + 2) 0 * 2 ^ 8
    + get_or block (index * 4 + 3) 0

unfoldable pub first_words : List ℕ → ℕ → ℕ → List ℕ
first_words block index zero = []
first_words block index (suc turns) = big_word block index ∷ first_words block (suc index) turns

-- The words from `words.size()` on, so many of them.
unfoldable pub more_words : ℕ → List ℕ → List ℕ
more_words zero words = words
more_words (suc turns) words =
    let index = length words in
    let w15 = get_or words (index - 15) 0 in
    let w2 = get_or words (index - 2) 0 in
    let s0 = bit_xor (bit_xor (rotate_right w15 7) (rotate_right w15 18)) (w15 / 2 ^ 3) in
    let s1 = bit_xor (bit_xor (rotate_right w2 17) (rotate_right w2 19)) (w2 / 2 ^ 10) in
    more_words turns (
      words ++ ((get_or words (index - 16) 0 + s0 + get_or words (index - 7) 0 + s1) % 2 ^ 32 ∷ []))

-- The variables `a` to `h`.
pub record Working : Type 0 where
  pub a : ℕ
  pub b : ℕ
  pub c : ℕ
  pub d : ℕ
  pub e : ℕ
  pub f : ℕ
  pub g : ℕ
  pub h : ℕ

unfoldable pub round : ℕ → ℕ → Working → Working
round constant word v =
    let s1 = bit_xor (bit_xor (rotate_right v.e 6) (rotate_right v.e 11)) (rotate_right v.e 25) in
    let choice = bit_xor (bit_and v.e v.f) (bit_and (2 ^ 32 - 1 - v.e) v.g) in
    let temp1 = (v.h + s1 + choice + constant + word) % 2 ^ 32 in
    let s0 = bit_xor (bit_xor (rotate_right v.a 2) (rotate_right v.a 13)) (rotate_right v.a 22) in
    let majority = bit_xor (bit_xor (bit_and v.a v.b) (bit_and v.a v.c)) (bit_and v.b v.c) in
    let temp2 = (s0 + majority) % 2 ^ 32 in
    record {
      a = (temp1 + temp2) % 2 ^ 32;
      b = v.a;
      c = v.b;
      d = v.c;
      e = (v.d + temp1) % 2 ^ 32;
      f = v.e;
      g = v.f;
      h = v.g;
    }

unfoldable pub rounds : List ℕ → List ℕ → Working → Working
unfolding round
rounds (constant ∷ constants) (word ∷ words) v = rounds constants words (round constant word v)
rounds constants words v = v

unfoldable pub transform : List ℕ → List ℕ → List ℕ
unfolding rounds more_words first_words
transform bytes state =
    let words = more_words 48 (first_words bytes 0 16) in
    let v = rounds round_constants words (record {
      a = get_or state 0 0;
      b = get_or state 1 0;
      c = get_or state 2 0;
      d = get_or state 3 0;
      e = get_or state 4 0;
      f = get_or state 5 0;
      g = get_or state 6 0;
      h = get_or state 7 0;
    }) in
    (get_or state 0 0 + v.a) % 2 ^ 32
    ∷ (get_or state 1 0 + v.b) % 2 ^ 32
    ∷ (get_or state 2 0 + v.c) % 2 ^ 32
    ∷ (get_or state 3 0 + v.d) % 2 ^ 32
    ∷ (get_or state 4 0 + v.e) % 2 ^ 32
    ∷ (get_or state 5 0 + v.f) % 2 ^ 32
    ∷ (get_or state 6 0 + v.g) % 2 ^ 32
    ∷ (get_or state 7 0 + v.h) % 2 ^ 32
    ∷ []

-- A full block is hashed.
unfoldable pub flushed : Sha256 → Sha256
unfolding transform
flushed hash =
    if length hash.block == 64
    then record hash { state = transform hash.block hash.state; block = [] }
    else hash

-- The copy of the bytes that fit, and the block when it is full.
unfoldable pub absorbed : List ℕ → Sha256 → Sha256
unfolding flushed
absorbed bytes hash = flushed (record hash {
  block = hash.block ++ bytes;
  bit_count = (hash.bit_count + length bytes * 8) % 2 ^ 64;
})

-- The loop of `update`, for as many turns.
unfoldable pub update_loop : ℕ → List ℕ → Sha256 → Sha256
unfolding absorbed
update_loop zero input hash = hash
update_loop (suc turns) [] hash = hash
update_loop (suc turns) (byte ∷ input) hash =
    let size = 64 - length hash.block in
    update_loop turns (drop size (byte ∷ input)) (absorbed (take size (byte ∷ input)) hash)

-- Each turn takes a byte at least.
unfoldable pub update : List ℕ → Sha256 → Sha256
unfolding update_loop
update input hash = update_loop (length input) input hash

-- The block with the end mark, and a block before it if the length does not fit.
unfoldable pub padded : Sha256 → Sha256
unfolding transform
padded hash =
    let marked = hash.block ++ (0x80 ∷ []) in
    if ltb 56 (length marked)
    then record hash {
      state = transform (marked ++ replicate (64 - length marked) 0) hash.state;
      block = replicate 56 0;
    }
    else record hash { block = marked ++ replicate (56 - length marked) 0 }

-- The bytes of a number, the highest first.
unfoldable pub big_endian : ℕ → ℕ → List ℕ
big_endian zero n = []
big_endian (suc bytes) n = (n / 2 ^ (bytes * 8) % 256) ∷ big_endian bytes n

unfoldable pub all_bytes : List ℕ → List ℕ
unfolding big_endian
all_bytes [] = []
all_bytes (word ∷ state) = big_endian 4 word ++ all_bytes state

unfoldable pub finish : Sha256 → List ℕ
unfolding padded all_bytes transform big_endian
finish hash =
    let last = padded hash in
    all_bytes (transform (last.block ++ big_endian 8 hash.bit_count) last.state)

-- `hashFile`, with the pieces that the stream reads.
unfoldable pub update_all : List (List ℕ) → Sha256 → Sha256
unfolding update
update_all [] hash = hash
update_all (piece ∷ pieces) hash = update_all pieces (update piece hash)

unfoldable pub hash_pieces : List (List ℕ) → List ℕ
unfolding update_all finish hex_text
hash_pieces pieces = hex_text (finish (update_all pieces new_hash))
