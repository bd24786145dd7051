-- ===== src/Journal/Bound.antt =====
-- The journal's file: what an append does to it, and how large it gets.
use mathlib.Core.Bool.{false≢true, true≢false}
use gridex_edge_gateway.Prelude.{
  ℕ, List, ◌≡◌, Bool, ◌≤◌, length, ◌⊎◌, true, inl, if-both, [], ◌+◌, arith, leb, not, false, ap,
  inr, some, ◌∙◌, ◌++◌, take, none, refl, Option, length-append, length-take, take_all, Bool-cases,
  ◌∷◌, ◌%◌, if◌then◌else◌, ◌<◌, ◌^◌, sym,
}
use gridex_edge_gateway.Journal.{
  FileSystem, FileSize, bytes, no_such_file, size_error, after_size, rotate_if_needed, rotate,
  write_line, wrote, TelemetryJournal, append,
}

-- A line with its end.
abbrev pub journal_line : List ℕ → List ℕ
journal_line text = text ++ (10 ∷ [])

-- What the code relies on: `main` and `prior` are the contents of the two files, empty where there is none.
pub record Laws {S : Type 0} (fs : FileSystem S) (main prior : S → List ℕ) : Type 0 where
  pub create_keeps : (s : S) → main (fs.create_directories s).1 ≡ main s
  pub size_is : (s : S) (n : ℕ) → fs.file_size s ≡ bytes n → n ≡ length (main s)
  pub missing : (s : S) → fs.file_size s ≡ no_such_file → main s ≡ []
  pub remove_keeps : (s : S) → main (fs.remove_prior s) ≡ main s
  pub renames :
      (s : S)
      → (fs.rename s).0 ≡ true
      → (main (fs.rename s).1 ≡ []) × (prior (fs.rename s).1 ≡ main s)
  pub rename_fails : (s : S) → (fs.rename s).0 ≡ false → main (fs.rename s).1 ≡ main s
  pub open_keeps :
      (s : S) → (main (fs.open_append s).1 ≡ main s) × (prior (fs.open_append s).1 ≡ prior s)
  pub writes :
      (line : List ℕ) (s : S) (n : ℕ)
      → (fs.write line s).0 ≡ some n
      → main (fs.write line s).1 ≡ main s ++ take n line
  pub write_fails :
      (line : List ℕ) (s : S) → (fs.write line s).0 ≡ none → main (fs.write line s).1 ≡ main s
  pub write_prior : (line : List ℕ) (s : S) → prior (fs.write line s).1 ≡ prior s
  pub fsync_keeps : (s : S) → (main (fs.fsync s).1 ≡ main s) × (prior (fs.fsync s).1 ≡ prior s)
  pub close_keeps : (s : S) → (main (fs.close s) ≡ main s) × (prior (fs.close s) ≡ prior s)

module _ {S : Type 0} (fs : FileSystem S) (main prior : S → List ℕ)
    (laws : Laws fs main prior) where
  -- The file before a line is written: as it was, or new, with the old one beside it.
  abbrev pub IsRoom : S → S → Type 0
  IsRoom s s' = (main s' ≡ main s) ⊎ ((main s' ≡ []) × (prior s' ≡ main s))

  abbrev Rotated : ℕ → ℕ → S → Bool × S → Type 0
  Rotated max_bytes incoming s r =
      ((r.0 ≡ true) × (length (main r.1) + incoming ≤ max_bytes) × IsRoom s r.1)
      ⊎ ((r.0 ≡ false) × (main r.1 ≡ main s))

  rotate-Rotated :
      (max_bytes incoming : ℕ) (s s0 : S) (b : Bool)
      → incoming ≤ max_bytes
      → main s ≡ main s0
      → (fs.rename (fs.remove_prior s)).0 ≡ b
      → Rotated max_bytes incoming s0 (rotate fs s)
  unfolding rotate
  rotate-Rotated max_bytes incoming s s0 true fits same e =
      let (empty, moved) = laws.renames (fs.remove_prior s) e in
      inl (e, omega (arith, ap length empty), inr (empty, moved ∙ laws.remove_keeps s ∙ same))
  rotate-Rotated max_bytes incoming s s0 false fits same e =
      inr (e, laws.rename_fails (fs.remove_prior s) e ∙ laws.remove_keeps s ∙ same)

  after_size-Rotated :
      (max_bytes incoming : ℕ) (s s0 : S) (size : FileSize)
      → incoming ≤ max_bytes
      → main s ≡ main s0
      → fs.file_size s ≡ size
      → Rotated max_bytes incoming s0 (after_size fs max_bytes incoming size s)
  unfolding after_size
  after_size-Rotated max_bytes incoming s s0 (bytes current) fits same e =
      if-both {A = Bool × S} (Rotated max_bytes incoming s0) (leb (current + incoming) max_bytes) _
        _ (λ enough. inl (refl, ground (arith, enough, laws.size_is s current e), inl same))
        (λ full.
          rotate-Rotated max_bytes incoming s s0 (fs.rename (fs.remove_prior s)).0 fits same refl)
  after_size-Rotated max_bytes incoming s s0 no_such_file fits same e =
      inl (refl, omega (arith, ap length (laws.missing s e)), inl same)
  after_size-Rotated max_bytes incoming s s0 size_error fits same e = inr (refl, same)

  rotate_if_needed-Rotated :
      (max_bytes incoming : ℕ) (s : S)
      → incoming ≤ max_bytes
      → Rotated max_bytes incoming s (rotate_if_needed fs max_bytes incoming s)
  unfolding rotate_if_needed
  rotate_if_needed-Rotated max_bytes incoming s fits =
      let s1 = (fs.create_directories s).1 in
      let same = laws.create_keeps s in
      if-both {A = Bool × S} (Rotated max_bytes incoming s) (not (fs.create_directories s).0) _ _
        (λ e. inr (refl, same))
        (λ e. after_size-Rotated max_bytes incoming s1 s (fs.file_size s1) fits same refl)

  -- A line that is there whole, or a failure that left no more than the line.
  abbrev Written : List ℕ → S → Bool × S → Type 0
  Written line s r =
      ((r.0 ≡ true) × (main r.1 ≡ main s ++ line) × (prior r.1 ≡ prior s))
      ⊎ ((r.0 ≡ false) × (length (main r.1) ≤ length (main s) + length line))

  write_grows :
      (line : List ℕ) (s : S) (written : Option ℕ)
      → (fs.write line s).0 ≡ written
      → length (main (fs.write line s).1) ≤ length (main s) + length line
  write_grows line s none e = omega (arith, ap length (laws.write_fails line s e))
  write_grows line s (some n) e = omega (
    arith,
    ap length (laws.writes line s n e),
    length-append (main s) (take n line),
    length-take n line,
  )

  write_whole :
      (line : List ℕ) (s : S) (written : Option ℕ)
      → (fs.write line s).0 ≡ written
      → wrote written (length line) ≡ true
      → main (fs.write line s).1 ≡ main s ++ line
  write_whole line s none e whole = absurd (false≢true whole)
  write_whole line s (some n) e whole =
      laws.writes line s n e ∙ ap (λ t. main s ++ t) (take_all n line (ground (arith, whole)))

  write_line-Written : (line : List ℕ) (s : S) → Written line s (write_line fs line s)
  unfolding write_line
  write_line-Written line s =
      let s1 = (fs.open_append s).1 in
      let s2 = (fs.write line s1).1 in
      let s3 = (fs.fsync s2).1 in
      let (opened, opened_prior) = laws.open_keeps s in
      let (synced, synced_prior) = laws.fsync_keeps s2 in
      let (closed2, closed2_prior) = laws.close_keeps s2 in
      let (closed3, closed3_prior) = laws.close_keeps s3 in
      let grown = write_grows line s1 (fs.write line s1).0 refl in
      if-both {A = Bool × S} (Written line s) (not (fs.open_append s).0) _ _
        (λ e. inr (refl, omega (arith, ap length opened)))
        (λ e.
          if-both {A = Bool × S} (Written line s) (wrote (fs.write line s1).0 (length line)) _ _
            (λ whole. elim (Bool-cases (fs.fsync s2).0) [
              | inl flushed ↦ inl (
                flushed,
                closed3
                    ∙ synced
                    ∙ write_whole line s1 (fs.write line s1).0 refl whole
                    ∙ ap (λ m. m ++ line) opened,
                closed3_prior ∙ synced_prior ∙ laws.write_prior line s1 ∙ opened_prior,
              )
              | inr lost ↦ inr (
                lost,
                omega (arith, ap length closed3, ap length synced, ap length opened, grown),
              )
            ])
            (λ short. inr (refl, omega (arith, ap length closed2, ap length opened, grown))))

  -- What an append makes of a journal and its files.
  abbrev pub IsAppended : List ℕ → TelemetryJournal → S → Bool × (TelemetryJournal × S) → Type 0
  IsAppended text j s r =
      (length (main r.1.1) ≤ j.max_bytes)
      × (((r.0 ≡ true)
            × (r.1.0 ≡ record j { sequence = (j.sequence + 1) % 2 ^ 64 })
            × ((main r.1.1 ≡ main s ++ journal_line text)
                ⊎ ((main r.1.1 ≡ journal_line text) × (prior r.1.1 ≡ main s))))
          ⊎ ((r.0 ≡ false) × (r.1.0 ≡ j)))

  appended :
      (text : List ℕ) (j : TelemetryJournal) (s s1 : S)
      → length (main s1) + length (journal_line text) ≤ j.max_bytes
      → IsRoom s s1
      → Written (journal_line text) s1 (write_line fs (journal_line text) s1)
      → let w = write_line fs (journal_line text) s1 in
        IsAppended text j s (
          if not w.0
          then (false, (j, w.1))
          else (true, (record j { sequence = (j.sequence + 1) % 2 ^ 64 }, w.1)))
  appended text j s s1 small place (inr (lost, grown)) = rw lost (omega arith, inr (refl, refl))
  appended text j s s1 small (inl same) (inl (synced, whole, beside)) = rw synced (
    omega (arith, ap length whole, length-append (main s1) (journal_line text)),
    inl (refl, refl, inl (whole ∙ ap (λ m. m ++ journal_line text) same)),
  )
  appended text j s s1 small (inr (empty, moved)) (inl (synced, whole, beside)) = rw synced (
    omega (arith, ap length whole, length-append (main s1) (journal_line text)),
    inl (refl, refl, inr (whole ∙ ap (λ m. m ++ journal_line text) empty, beside ∙ moved)),
  )

  -- In an enabled journal that is within its bound, an append of a text that is shorter than the bound
  -- keeps the bound. Either it reports success, counts, and the line is whole at the end of the file, with the lines before it in front of
  -- it or in the file beside; or it reports failure and does not count.
  pub append-IsAppended :
      (text : List ℕ) (j : TelemetryJournal) (s : S)
      → j.enabled ≡ true
      → length text < j.max_bytes
      → length (main s) ≤ j.max_bytes
      → IsAppended text j s (append fs text (j, s))
  unfolding append
  append-IsAppended text j s on fits within =
      let line = journal_line text in
      let size : length line ≡ length text + 1 = length-append text (10 ∷ []) in
      let incoming : length line ≤ j.max_bytes = omega arith in
      let r = rotate_if_needed fs j.max_bytes (length line) s in
      if-both {A = Bool × (TelemetryJournal × S)} (IsAppended text j s) (not j.enabled) _ _
        (λ off. absurd (true≢false (sym off ∙ ap not on)))
        (λ e. elim (rotate_if_needed-Rotated j.max_bytes (length line) s incoming) [
          | inr (no_room, same) ↦ rw no_room (omega (arith, ap length same), inr (refl, refl))
          | inl (room, small, place) ↦
              rw room (appended text j s r.1 small place (write_line-Written line r.1))
        ])
