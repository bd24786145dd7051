-- ===== src/Northbound/Server/Words.antt =====
-- Words in a list of bytes, as a sender writes them and a receiver reads them.
use gridex_edge_gateway.Prelude.{
  ℕ, zero, suc, ◌≡◌, refl, arith, ◌<◌, ◌+◌, ◌*◌, ◌/◌, ◌%◌, List, [], ◌∷◌, ◌++◌, get_or, drop,
  length, ap, sym, ◌∙◌, get_or-drop,
}
use gridex_edge_gateway.Prelude.Words.{word_bytes}
use gridex_edge_gateway.Mbus.Crc.{read_u16}
use gridex_edge_gateway.Northbound.Server.{bytes_of, words_at}

-- Every value is a word.
abbrev pub AreWords : List ℕ → Type 0
AreWords [] = Unit
AreWords (v ∷ vs) = (v < 65536) × AreWords vs

pub length-bytes_of : (values : List ℕ) → length (bytes_of values) ≡ length values * 2
unfolding bytes_of
length-bytes_of [] = refl
length-bytes_of (v ∷ vs) = omega (arith, length-bytes_of vs)

nothing_left : (m : ℕ) → ◌≡◌ {A = List ℕ} [] (drop m [])
nothing_left zero = refl
nothing_left (suc m) = refl

pub drop_more : (n m k : ℕ) (xs : List ℕ) → k ≡ n + m → drop k xs ≡ drop m (drop n xs)
drop_more zero m k xs h = ap (λ i. drop i xs) (omega (arith, h))
drop_more (suc n) m zero xs h = absurd (omega arith)
drop_more (suc n) m (suc k) [] h = nothing_left m
drop_more (suc n) m (suc k) (x ∷ xs) h = drop_more n m k xs (omega arith)

-- The word that stands in front of what is left from the byte `at` on.
pub read_u16-drop :
    (frame rest : List ℕ) (at v : ℕ)
    → v < 65536
    → drop at frame ≡ v / 256 % 256 ∷ v % 256 ∷ rest
    → read_u16 frame at ≡ v
read_u16-drop frame rest at v small h =
    let first = sym (get_or-drop at frame 0 at 0 (omega arith)) ∙ ap (λ t. get_or t 0 0) h in
    let second = sym (get_or-drop at frame 1 (at + 1) 0 (omega arith)) ∙ ap (λ t. get_or t 1 0) h in
    rw (first, second) (word_bytes v small)

pub words_at-bytes_of :
    (frame : List ℕ) (at : ℕ) (values tail : List ℕ)
    → AreWords values
    → drop at frame ≡ bytes_of values ++ tail
    → words_at frame at (length values) ≡ values
unfolding words_at bytes_of
words_at-bytes_of frame at [] tail w h = refl
words_at-bytes_of frame at (v ∷ vs) tail (small, w) h =
    rw (read_u16-drop frame (bytes_of vs ++ tail) at v small h) (
      ap (λ t. v ∷ t)
        (words_at-bytes_of frame (at + 2) vs tail w
          (drop_more at 2 (at + 2) frame refl ∙ ap (drop 2) h)))
