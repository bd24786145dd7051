-- ===== src/Mbus/Line.antt =====
-- `ProvisioningLine` of node-esp32-evb/include/gridex/mbus/ProvisioningLine.hpp: the lines of the serial
-- port. A character is its number.
pub mod Lines
use gridex_edge_gateway.Prelude.{
  ℕ, ◌+◌, Bool, true, false, not, ◌&&◌, ◌||◌, Option, none, some, List, [], ◌∷◌, ◌++◌,
  if◌then◌else◌, ◌==◌, length,
}

abbrev pub buffer_size : ℕ
buffer_size = 80

-- `buffer_` up to `size_`, and `discarding_`.
pub record ProvisioningLine : Type 0 where
  pub buffer : List ℕ
  pub discarding : Bool

abbrev pub empty_line : ProvisioningLine
empty_line = record { buffer = []; discarding = false }

abbrev pub ends_line : ℕ → Bool
ends_line c = c == 13 || c == 10

unfoldable pub push : ℕ → ProvisioningLine → Option (List ℕ) × ProvisioningLine
push c l =
    if ends_line c
    then (
      (if not l.discarding && not (length l.buffer == 0) then some l.buffer else none),
      empty_line,
    )
    else (
      none,
      (if l.discarding
          then l
          else if length l.buffer == buffer_size
          then record l { discarding = true }
          else record l { buffer = l.buffer ++ (c ∷ []) }),
    )

-- The characters one after another, as the loop of the serial port pushes them, with the lines in
-- their order.
unfoldable pub push_all : List ℕ → ProvisioningLine → List (List ℕ) × ProvisioningLine
unfolding push
push_all [] l = ([], l)
push_all (c ∷ cs) l =
    let (line, l') = push c l in
    let (lines, l'') = push_all cs l' in ((elim line [ none ↦ lines | some t ↦ t ∷ lines ]), l'')
