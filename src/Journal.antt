-- ===== src/Journal.antt =====
-- `TelemetryJournal` of base-rockpie/: a journal of lines in a file of bounded size. The files are the
-- operating system's, and stay a parameter; so do the text of the time and of a `double`.
pub mod Bound
pub mod Lines
pub mod ReadBack
use gridex_edge_gateway.Prelude.{
  ℕ, Bool, ◌+◌, List, Option, if◌then◌else◌, ◌%◌, ◌∷◌, false, ◌++◌, ◌||◌, ◌^◌, [], some, leb, not,
  ltb, ◌==◌, true, length, ◌*◌, none,
}
use gridex_edge_gateway.Prelude.Text.{printed, json_bool, codes, decimal}
use gridex_edge_gateway.Double.{Double}
use gridex_edge_gateway.Telemetry.{
  NodePollStatus, unknown, online, transport_failure, identity_failure, telemetry_failure,
  MbusNodeTelemetry,
}

-- `config_` as far as it is used, and the sequence number.
pub record TelemetryJournal : Type 0 where
  pub enabled : Bool
  pub max_bytes : ℕ
  pub sequence : ℕ

unfoldable pub new_journal : Bool → Bool → ℕ → TelemetryJournal
new_journal enabled path_empty max_bytes = record {
  enabled = if path_empty || ltb max_bytes (64 * 1024) then false else enabled;
  max_bytes = max_bytes;
  sequence = 0;
}

abbrev pub next_sequence : TelemetryJournal → ℕ
next_sequence j = (j.sequence + 1) % 2 ^ 64

unfoldable pub poll_status_name : NodePollStatus → List ℕ
poll_status_name unknown = codes "unknown"
poll_status_name online = codes "online"
poll_status_name transport_failure = codes "transport_failure"
poll_status_name identity_failure = codes "identity_failure"
poll_status_name telemetry_failure = codes "telemetry_failure"

-- The two kinds of a record.
pub data Kind : Type 0 where
  snapshot transition : Kind

unfoldable pub kind_name : Kind → List ℕ
kind_name snapshot = codes "snapshot"
kind_name transition = codes "transition"

-- The text of the record, with the texts of the time and of a double that the library makes.
module _ (observed_at : List ℕ) (show_double : Double → List ℕ) where
  abbrev pub record_parts :
      ℕ → Kind → ℕ → MbusNodeTelemetry → NodePollStatus → List (List ℕ × List ℕ)
  record_parts sequence kind slot sample previous =
      (codes "{\"schemaVersion\":1,\"sequence\":", decimal sequence)
      ∷ (codes ",\"observedAt\":\"", observed_at)
      ∷ (codes "\",\"kind\":\"", kind_name kind)
      ∷ (codes "\",\"slot\":", decimal slot)
      ∷ (codes ",\"online\":", json_bool sample.online)
      ∷ (codes ",\"pollStatus\":\"", poll_status_name sample.poll_status)
      ∷ (codes "\",\"previousPollStatus\":\"", poll_status_name previous)
      ∷ (codes "\",\"consecutiveFailures\":", decimal sample.consecutive_failures)
      ∷ (codes ",\"heartbeat\":", decimal sample.heartbeat)
      ∷ (codes ",\"actualPowerKw\":", show_double sample.actual_power_kw)
      ∷ (codes ",\"energyWh\":", decimal sample.energy_wh)
      ∷ (codes ",\"quality\":", decimal sample.quality)
      ∷ (codes ",\"alarmBits\":", decimal sample.alarm_bits)
      ∷ (codes ",\"lastError\":", decimal sample.last_error)
      ∷ []

  unfoldable pub record_text : ℕ → Kind → ℕ → MbusNodeTelemetry → NodePollStatus → List ℕ
  unfolding decimal kind_name poll_status_name
  record_text sequence kind slot sample previous =
      printed (record_parts sequence kind slot sample previous)

-- The answer of `std::filesystem::file_size`.
pub data FileSize : Type 0 where
  bytes : ℕ → FileSize
  no_such_file size_error : FileSize

-- The calls of the operating system, for the paths of the journal, over a state `S`.
pub record FileSystem (S : Type 0) : Type 0 where
  pub create_directories : S → Bool × S
  pub file_size : S → FileSize
  pub remove_prior : S → S
  pub rename : S → Bool × S
  pub open_append : S → Bool × S
  pub write : List ℕ → S → Option ℕ × S
  pub fsync : S → Bool × S
  pub close : S → S

-- The number that `write` returned; -1 is no number.
abbrev pub wrote : Option ℕ → ℕ → Bool
wrote none expected = false
wrote (some n) expected = n == expected

module _ {S : Type 0} (fs : FileSystem S) where
  unfoldable pub rotate : S → Bool × S
  rotate s = fs.rename (fs.remove_prior s)

  unfoldable pub after_size : ℕ → ℕ → FileSize → S → Bool × S
  unfolding rotate
  after_size max_bytes incoming (bytes current) s =
      let rotated = rotate s in if leb (current + incoming) max_bytes then (true, s) else rotated
  after_size max_bytes incoming no_such_file s = (true, s)
  after_size max_bytes incoming size_error s = (false, s)

  unfoldable pub rotate_if_needed : ℕ → ℕ → S → Bool × S
  unfolding after_size
  rotate_if_needed max_bytes incoming s =
      let (created, s1) = fs.create_directories s in
      let sized = after_size max_bytes incoming (fs.file_size s1) s1 in
      if not created then (false, s1) else sized

  unfoldable pub write_line : List ℕ → S → Bool × S
  write_line line s =
      let (opened, s1) = fs.open_append s in
      let (written, s2) = fs.write line s1 in
      let (flushed, s3) = fs.fsync s2 in
      if not opened
      then (false, s1)
      else if wrote written (length line)
      then (flushed, fs.close s3)
      else (false, fs.close s2)

  unfoldable pub append : List ℕ → TelemetryJournal × S → Bool × (TelemetryJournal × S)
  unfolding rotate_if_needed write_line
  append text (j, s) =
      let line = text ++ (10 ∷ []) in
      let (room, s1) = rotate_if_needed j.max_bytes (length line) s in
      let (synced, s2) = write_line line s1 in
      if not j.enabled
      then (true, (j, s))
      else if not room
      then (false, (j, s1))
      else if not synced
      then (false, (j, s2))
      else (true, (record j { sequence = (j.sequence + 1) % 2 ^ 64 }, s2))

  module _ (observed_at : List ℕ) (show_double : Double → List ℕ) where
    unfoldable pub append_snapshot :
        ℕ → MbusNodeTelemetry → TelemetryJournal × S → Bool × (TelemetryJournal × S)
    unfolding append record_text
    append_snapshot slot sample (j, s) =
        append (record_text observed_at show_double (next_sequence j) snapshot slot sample unknown)
          (j, s)

    unfoldable pub append_transition :
        ℕ
        → MbusNodeTelemetry
        → NodePollStatus
        → TelemetryJournal × S
        → Bool × (TelemetryJournal × S)
    unfolding append record_text
    append_transition slot sample previous (j, s) =
        append
          (record_text observed_at show_double (next_sequence j) transition slot sample previous)
          (j, s)
