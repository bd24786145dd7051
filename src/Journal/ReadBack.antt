-- ===== src/Journal/ReadBack.antt =====
-- A reader of the journal gets the records that were appended.
use gridex_edge_gateway.Prelude.{
  ℕ, List, [], Bool, ◌≡◌, true, ◌++◌, length, ◌∷◌, ◌≤◌, ◌⊎◌, ◌<◌, inr, sym, ◌∙◌, inl, ap,
}
use mathlib.Core.Bool.{true≢false}
use gridex_edge_gateway.Prelude.Text.{IsPlain}
use gridex_edge_gateway.Double.{Double}
use gridex_edge_gateway.Telemetry.{NodePollStatus, MbusNodeTelemetry}
use gridex_edge_gateway.Journal.{
  TelemetryJournal, FileSystem, transition, record_text, append, append_transition, next_sequence,
}
use gridex_edge_gateway.Journal.Bound.{Laws, IsAppended, append-IsAppended, journal_line}
use gridex_edge_gateway.Journal.Lines.{
  AreLines, lines_of, file_of, lines_of-file_of, file_of-append, lines-append, record_text-IsPlain,
}

-- A file of these lines, and nothing after them.
abbrev pub HasLines : List ℕ → List (List ℕ) → Type 0
HasLines content texts = lines_of [] content ≡ (texts, [])

module _ {S : Type 0} (fs : FileSystem S) (main prior : S → List ℕ)
    (laws : Laws fs main prior) where
  append_read :
      (texts : List (List ℕ)) (text : List ℕ) (s : S) (r : Bool × (TelemetryJournal × S))
      (j : TelemetryJournal)
      → AreLines texts
      → IsPlain text
      → main s ≡ file_of texts
      → IsAppended fs main prior laws text j s r
      → r.0 ≡ true
      → HasLines (main r.1.1) (texts ++ (text ∷ []))
        ⊎ (HasLines (main r.1.1) (text ∷ []) × HasLines (prior r.1.1) texts)
  append_read texts text s r j lines plain content (bound, inr (lost, same)) e =
      absurd (true≢false (sym e ∙ lost))
  append_read texts text s r j lines plain content (bound, inl (done, counted, inl grown)) e = inl (
      ap (lines_of [])
        (grown ∙ ap (λ m. m ++ journal_line text) content ∙ file_of-append texts text)
      ∙ lines_of-file_of (texts ++ (text ∷ [])) (lines-append texts text lines plain))
  append_read texts text s r j lines plain content (bound, inl (done, counted, inr (fresh, moved)))
        e =
      inr (
        ap (lines_of []) (fresh ∙ file_of-append [] text)
            ∙ lines_of-file_of (text ∷ []) (plain, tt),
        ap (lines_of []) (moved ∙ content) ∙ lines_of-file_of texts lines,
      )

  module _ (observed_at : List ℕ) (show_double : Double → List ℕ) where
    -- In an enabled journal whose file is within the bound, where the texts of the time and of the power
    -- have no control characters and the record is shorter than the bound: where a transition was
    -- appended with success to a file of lines, a reader finds the earlier lines and the record after
    -- them, or the record alone and the earlier lines in the file beside.
    pub append_transition_read :
        (texts : List (List ℕ)) (slot : ℕ) (sample : MbusNodeTelemetry) (previous : NodePollStatus)
        (j : TelemetryJournal) (s : S)
        → IsPlain observed_at
        → IsPlain (show_double sample.actual_power_kw)
        → AreLines texts
        → main s ≡ file_of texts
        → j.enabled ≡ true
        → length (main s) ≤ j.max_bytes
        → length
            (record_text observed_at show_double (next_sequence j) transition slot sample previous)
          < j.max_bytes
        → (append_transition fs observed_at show_double slot sample previous (j, s)).0 ≡ true
        → let r = append_transition fs observed_at show_double slot sample previous (j, s) in
          let text =
            record_text observed_at show_double (next_sequence j) transition slot sample previous in
          HasLines (main r.1.1) (texts ++ (text ∷ []))
          ⊎ (HasLines (main r.1.1) (text ∷ []) × HasLines (prior r.1.1) texts)
    unfolding append_transition
    append_transition_read texts slot sample previous j s time power lines content on within fits
          done =
        let text =
          record_text observed_at show_double (next_sequence j) transition slot sample previous in
        let plain =
          record_text-IsPlain observed_at show_double (next_sequence j) transition slot sample
            previous time power in
        append_read texts text s (append fs text (j, s)) j lines plain content
          (append-IsAppended fs main prior laws text j s on fits within) done
