-- ===== src/Mbus/Line/Lines.antt =====
-- The lines that come out of the serial port.
use gridex_edge_gateway.Prelude.{
  Option, none, some, ◌≢◌, ℕ, ◌≡◌, refl, arith, ◌≤◌, ◌<◌, true, false, not, ◌&&◌, ◌==◌, leb, List,
  [], ◌∷◌, ◌++◌, if◌then◌else◌, length, length-append, Bool-cases, inl, inr, ap, ◌∙◌, sym,
  append-nil, append_assoc,
}
use gridex_edge_gateway.Mbus.Line.{
  ProvisioningLine, push, push_all, empty_line, ends_line, buffer_size,
}

-- No character ends the line.
abbrev pub IsText : List ℕ → Type 0
IsText [] = Unit
IsText (c ∷ cs) = (ends_line c ≡ false) × IsText cs

-- What a line should give: itself, where it is not empty and fits.
abbrev pub accepted : List ℕ → List (List ℕ)
accepted line = if leb 1 (length line) && leb (length line) buffer_size then line ∷ [] else []

equal_of : (n : ℕ) → (n == buffer_size) ≡ true → n ≡ buffer_size
equal_of n h = ground arith

unequal_of : (n : ℕ) → (n == buffer_size) ≡ false → n ≢ buffer_size
unequal_of n h e = ground arith

-- The lines after one turn of the loop.
abbrev joined : Option (List ℕ) × ProvisioningLine → List ℕ → List (List ℕ) × ProvisioningLine
joined (line, l) cs =
    ((elim line [ none ↦ (push_all cs l).0 | some t ↦ t ∷ (push_all cs l).0 ]), (push_all cs l).1)

turn :
    (r : Option (List ℕ) × ProvisioningLine) (c : ℕ) (cs : List ℕ) (l : ProvisioningLine)
    → push c l ≡ r
    → push_all (c ∷ cs) l ≡ joined r cs
unfolding push_all
turn r c cs l h = ap (λ q. joined q cs) h

abbrev keeping : List ℕ → ProvisioningLine
keeping buffer = record { buffer = buffer; discarding = false }

abbrev dropping : List ℕ → ProvisioningLine
dropping buffer = record { buffer = buffer; discarding = true }

push-dropping :
    (t : ℕ) (buffer : List ℕ)
    → ends_line t ≡ false
    → push t (dropping buffer) ≡ (none, dropping buffer)
unfolding push
push-dropping t buffer h = rw h refl

push-room :
    (t : ℕ) (buffer : List ℕ)
    → ends_line t ≡ false
    → (length buffer == buffer_size) ≡ false
    → push t (keeping buffer) ≡ (none, keeping (buffer ++ (t ∷ [])))
unfolding push
push-room t buffer h e = rw (h, e) refl

push-full :
    (t : ℕ) (buffer : List ℕ)
    → ends_line t ≡ false
    → (length buffer == buffer_size) ≡ true
    → push t (keeping buffer) ≡ (none, dropping buffer)
unfolding push
push-full t buffer h e = rw (h, e) refl

push-end :
    (c : ℕ) (l : ProvisioningLine)
    → ends_line c ≡ true
    → push c l ≡ (
      (if not l.discarding && not (length l.buffer == 0) then some l.buffer else none),
      empty_line,
    )
unfolding push
push-end c l e = rw e refl

fitting : (line : List ℕ) → 1 ≤ length line → length line ≤ buffer_size → accepted line ≡ line ∷ []
fitting line low high =
    let e : leb 1 (length line) && leb (length line) buffer_size ≡ true = ground arith in rw e refl

finished :
    (buffer : List ℕ)
    → length buffer ≤ buffer_size
    → joined ((if not (length buffer == 0) then some buffer else none), empty_line) []
      ≡ (accepted (buffer ++ []), empty_line)
unfolding push_all
finished [] fits = refl
finished (b ∷ buffer) fits =
    let full : (length (b ∷ buffer) == 0) ≡ false = ground arith in
    let fine = ap accepted (append-nil (b ∷ buffer)) ∙ fitting (b ∷ buffer) (omega arith) fits in
    rw full (ap (λ lines. (lines, empty_line)) (sym fine))

-- The rest of a line that is discarded gives nothing.
discarded :
    (text buffer : List ℕ) (c : ℕ)
    → IsText text
    → ends_line c ≡ true
    → push_all (text ++ (c ∷ [])) (dropping buffer) ≡ ([], empty_line)
unfolding push_all
discarded [] buffer c w e = turn _ c [] (dropping buffer) (push-end c (dropping buffer) e)
discarded (t ∷ text) buffer c (h, w) e =
    turn _ t (text ++ (c ∷ [])) (dropping buffer) (push-dropping t buffer h)
    ∙ discarded text buffer c w e

too_long : (line : List ℕ) → buffer_size < length line → accepted line ≡ []
too_long line h =
    let e : leb 1 (length line) && leb (length line) buffer_size ≡ false = ground arith in rw e refl

-- The rest of a line after what the buffer holds.
completed :
    (text buffer : List ℕ) (c : ℕ)
    → IsText text
    → ends_line c ≡ true
    → length buffer ≤ buffer_size
    → push_all (text ++ (c ∷ [])) (keeping buffer) ≡ (accepted (buffer ++ text), empty_line)
completed [] buffer c w e fits =
    turn _ c [] (keeping buffer) (push-end c (keeping buffer) e) ∙ finished buffer fits
completed (t ∷ text) buffer c (h, w) e fits = elim (Bool-cases (length buffer == buffer_size)) [
  | inl full ↦
      rw
        (too_long (buffer ++ (t ∷ text))
          (omega (arith, length-append buffer (t ∷ text), equal_of (length buffer) full)))
        (turn _ t (text ++ (c ∷ [])) (keeping buffer) (push-full t buffer h full)
          ∙ discarded text buffer c w e)
  | inr room ↦
      turn _ t (text ++ (c ∷ [])) (keeping buffer) (push-room t buffer h room)
      ∙ completed text (buffer ++ (t ∷ [])) c w e
          (omega (arith, length-append buffer (t ∷ []), unequal_of (length buffer) room))
      ∙ ap (λ line. (accepted line, empty_line)) (append_assoc buffer (t ∷ []) text)
]

-- Text without line ends, then a line end, from an empty buffer: it comes out whole if it has 1 to 80
-- characters, and nothing of it comes out otherwise, also no suffix of a longer one; and the
-- buffer is empty for the next line.
pub push_all_line :
    (line : List ℕ) (c : ℕ)
    → IsText line
    → ends_line c ≡ true
    → push_all (line ++ (c ∷ [])) empty_line ≡ (accepted line, empty_line)
push_all_line line c w e = completed line [] c w e (omega arith)
