-- ===== src/Apply/Chunks.antt =====
-- The hash of a file, piece by piece.
use gridex_edge_gateway.Prelude.{
  ℕ, length, List, ◌<◌, ◌∷◌, ◌++◌, ◌≤◌, ◌+◌, [], ◌≡◌, if-both, ◌*◌, refl, ◌==◌, ◌%◌, arith, ◌^◌,
  suc, length-append, false, ap, zero, ◌∙◌, append_assoc, ◌-◌, sym, take, append-nil, length-take,
  drop, length-drop, take-drop,
}
use gridex_edge_gateway.Ota.{hex_text}
use gridex_edge_gateway.Ota.Session.{joined}
use gridex_edge_gateway.Apply.Sha256.{
  Sha256, new_hash, flushed, absorbed, update_loop, update, update_all, hash_pieces, finish,
}

-- The block is not full.
abbrev pub IsOpen : Sha256 → Type 0
IsOpen hash = length hash.block < 64

-- Byte by byte.
unfoldable feed : List ℕ → Sha256 → Sha256
feed [] hash = hash
feed (byte ∷ input) hash = feed input (absorbed (byte ∷ []) hash)

feed-append : (a b : List ℕ) (hash : Sha256) → feed (a ++ b) hash ≡ feed b (feed a hash)
unfolding feed
feed-append [] b hash = refl
feed-append (byte ∷ a) b hash = feed-append a b (absorbed (byte ∷ []) hash)

flushed-IsOpen : (hash : Sha256) → length hash.block ≤ 64 → IsOpen (flushed hash)
unfolding flushed
flushed-IsOpen hash h =
    if-both IsOpen (length hash.block == 64) _ _ (λ e. omega arith) (λ e. ground (arith, e))

absorbed-IsOpen :
    (bytes : List ℕ) (hash : Sha256)
    → length hash.block + length bytes ≤ 64
    → IsOpen (absorbed bytes hash)
unfolding absorbed
absorbed-IsOpen bytes hash h =
    flushed-IsOpen
      (record hash {
        block = hash.block ++ bytes;
        bit_count = (hash.bit_count + length bytes * 8) % 2 ^ 64;
      })
      (omega (arith, length-append hash.block bytes))

feed-IsOpen : (input : List ℕ) (hash : Sha256) → IsOpen hash → IsOpen (feed input hash)
unfolding feed
feed-IsOpen [] hash h = h
feed-IsOpen (byte ∷ input) hash h =
    feed-IsOpen input (absorbed (byte ∷ []) hash) (absorbed-IsOpen (byte ∷ []) hash (omega arith))

-- A byte that does not fill the block is put into it.
absorbed_short :
    (byte : ℕ) (hash : Sha256)
    → length hash.block + 2 ≤ 64
    → absorbed (byte ∷ []) hash ≡ record hash {
      block = hash.block ++ (byte ∷ []);
      bit_count = (hash.bit_count + 1 * 8) % 2 ^ 64;
    }
unfolding absorbed flushed
absorbed_short byte hash h =
    let not_full : (length (hash.block ++ (byte ∷ [])) == 64) ≡ false =
      ground (arith, length-append hash.block (byte ∷ [])) in
    rw not_full refl

-- The bytes that fit are taken at once as they are one by one.
feed_fits :
    (byte : ℕ) (input : List ℕ) (hash : Sha256)
    → length hash.block + length (byte ∷ input) ≤ 64
    → feed (byte ∷ input) hash ≡ absorbed (byte ∷ input) hash
unfolding feed absorbed
feed_fits byte [] hash h = refl
feed_fits byte (next ∷ input) hash h =
    let one = absorbed_short byte hash (omega arith) in
    let here : Sha256 = record hash {
      block = hash.block ++ (byte ∷ []);
      bit_count = (hash.bit_count + 1 * 8) % 2 ^ 64;
    } in
    let counted : ((hash.bit_count + 1 * 8) % 2 ^ 64 + length (next ∷ input) * 8) % 2 ^ 64
        ≡ (hash.bit_count + length (byte ∷ next ∷ input) * 8) % 2 ^ 64 =
      omega arith in
    ap (feed (next ∷ input)) one
    ∙ feed_fits next input here (omega (arith, length-append hash.block (byte ∷ [])))
    ∙ ap
        (λ n.
          flushed
            (record hash { block = (hash.block ++ (byte ∷ [])) ++ (next ∷ input); bit_count = n }))
        counted
    ∙ ap
        (λ b. flushed (record hash {
          block = b;
          bit_count = (hash.bit_count + length (byte ∷ next ∷ input) * 8) % 2 ^ 64;
        }))
        (append_assoc hash.block (byte ∷ []) (next ∷ input))

update_loop-feed :
    (turns : ℕ) (input : List ℕ) (hash : Sha256)
    → length input ≤ turns
    → IsOpen hash
    → update_loop turns input hash ≡ feed input hash
unfolding update_loop feed
update_loop-feed zero [] hash h is_open = refl
update_loop-feed zero (byte ∷ input) hash h is_open = absurd (omega arith)
update_loop-feed (suc turns) [] hash h is_open = refl
update_loop-feed (suc turns) (byte ∷ input) hash h is_open =
    let k = 63 - length hash.block in
    let size : 64 - length hash.block ≡ suc k = omega arith in
    let taken : length hash.block + length (byte ∷ take k input) ≤ 64 =
      omega (arith, length-take k input) in
    rw size (
      update_loop-feed turns (drop k input) (absorbed (byte ∷ take k input) hash)
        (omega (arith, length-drop k input)) (absorbed-IsOpen (byte ∷ take k input) hash taken)
      ∙ ap (feed (drop k input)) (sym (feed_fits byte (take k input) hash taken))
      ∙ sym (feed-append (byte ∷ take k input) (drop k input) hash)
      ∙ ap (λ i. feed (byte ∷ i) hash) (take-drop k input))

-- The loop of `update` does byte by byte what it does block by block.
update-feed : (input : List ℕ) (hash : Sha256) → IsOpen hash → update input hash ≡ feed input hash
unfolding update
update-feed input hash h = update_loop-feed (length input) input hash (omega arith) h

update_all-feed :
    (pieces : List (List ℕ)) (hash : Sha256)
    → IsOpen hash
    → update_all pieces hash ≡ feed (joined pieces) hash
unfolding update_all feed
update_all-feed [] hash h = refl
update_all-feed (piece ∷ pieces) hash h =
    ap (update_all pieces) (update-feed piece hash h)
    ∙ update_all-feed pieces (feed piece hash) (feed-IsOpen piece hash h)
    ∙ sym (feed-append piece (joined pieces) hash)

-- The digest of a file does not depend on the pieces in which it is read.
pub hash_pieces-joined :
    (pieces : List (List ℕ)) → hash_pieces pieces ≡ hash_pieces (joined pieces ∷ [])
unfolding hash_pieces
hash_pieces-joined pieces =
    ap (λ h. hex_text (finish h))
      (update_all-feed pieces new_hash (omega arith)
        ∙ ap (λ i. feed i new_hash) (sym (append-nil (joined pieces)))
        ∙ sym (update_all-feed (joined pieces ∷ []) new_hash (omega arith)))
