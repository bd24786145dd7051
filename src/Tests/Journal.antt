-- ===== src/Tests/Journal.antt =====
-- The journal, on a disk that loses nothing.
use mathlib.Core.Bool.{true≢false}
use gridex_edge_gateway.Prelude.{
  ℕ, List, true, Bool, Option, ap, [], length, false, some, sym, arith, ◌∷◌, ◌++◌, none, refl, ◌⊎◌,
  take_all, ◌∙◌, take,
}
use gridex_edge_gateway.Prelude.Text.{codes}
use gridex_edge_gateway.Double.{Double}
use gridex_edge_gateway.Telemetry.{new_sample, online}
use gridex_edge_gateway.Journal.{
  TelemetryJournal, FileSystem, FileSize, bytes, append, append_transition, record_text, transition,
}
use gridex_edge_gateway.Journal.Bound.{Laws, IsAppended, append-IsAppended}
use gridex_edge_gateway.Journal.ReadBack.{HasLines, append_transition_read}

-- The file and the one beside it.
abbrev Disk : Type 0
Disk = List ℕ × List ℕ

abbrev disk : FileSystem Disk
disk = record {
  create_directories = λ s. (true, s);
  file_size = λ s. bytes (length s.0);
  remove_prior = λ s. (s.0, []);
  rename = λ s. (true, ([], s.0));
  open_append = λ s. (true, s);
  write = λ line s. (some (length line), (s.0 ++ line, s.1));
  fsync = λ s. (true, s);
  close = λ s. s;
}

abbrev size_in : FileSize → ℕ
size_in (bytes n) = n
size_in _ = 0

abbrev is_size : FileSize → Bool
is_size (bytes n) = true
is_size _ = false

abbrev number_in : Option ℕ → ℕ
number_in none = 0
number_in (some n) = n

abbrev is_number : Option ℕ → Bool
is_number none = false
is_number (some n) = true

disk-Laws : Laws disk (λ s. s.0) (λ s. s.1)
disk-Laws = record {
  create_keeps = λ s. refl;
  size_is = λ s n e. ap size_in (sym e);
  missing = λ s e. absurd (true≢false (ap is_size e));
  remove_keeps = λ s. refl;
  renames = λ s e. (refl, refl);
  rename_fails = λ s e. absurd (true≢false e);
  open_keeps = λ s. (refl, refl);
  writes = λ line s n e.
      ap (λ l. s.0 ++ l)
        (sym (take_all (length line) line (omega arith)) ∙ ap (λ m. take m line) (ap number_in e));
  write_fails = λ line s e. absurd (true≢false (ap is_number e));
  write_prior = λ line s. refl;
  fsync_keeps = λ s. (refl, refl);
  close_keeps = λ s. (refl, refl);
}

abbrev journal : TelemetryJournal
journal = record { enabled = true; max_bytes = 65536; sequence = 4 }

append-IsAppended_example :
    IsAppended disk
      (λ s. s.0)
      (λ s. s.1)
      disk-Laws
      (codes "{}")
      journal
      (codes "{}\n", [])
      (append disk (codes "{}") (journal, (codes "{}\n", [])))
append-IsAppended_example =
    append-IsAppended disk (λ s. s.0) (λ s. s.1) disk-Laws (codes "{}") journal (codes "{}\n", [])
      refl (omega arith) (omega arith)

abbrev double_text : Double → List ℕ
double_text x = codes "0"

-- The node of slot 2 is lost.
append_transition_read_example :
    let r =
      append_transition disk
        (codes "t")
        double_text
        2
        (new_sample 2)
        online
        (journal, (codes "{}\n", [])) in
    let text = record_text (codes "t") double_text 5 transition 2 (new_sample 2) online in
    HasLines r.1.1.0 (codes "{}" ∷ text ∷ [])
    ⊎ (HasLines r.1.1.0 (text ∷ []) × HasLines r.1.1.1 (codes "{}" ∷ []))
unfolding append_transition record_text
append_transition_read_example =
    append_transition_read disk (λ s. s.0) (λ s. s.1) disk-Laws (codes "t") double_text
      (codes "{}" ∷ []) 2 (new_sample 2) online journal (codes "{}\n", []) (ground arith)
      (ground arith) (ground arith) refl refl (omega arith) (omega arith) refl
