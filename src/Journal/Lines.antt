-- ===== src/Journal/Lines.antt =====
-- The lines of the journal, as a reader of the file gets them.
use gridex_edge_gateway.Prelude.{
  false, ℕ, List, Bool, true, ◌≡◌, ◌∷◌, leb, arith, refl, [], ◌&&◌, if◌then◌else◌, ◌==◌, ◌++◌, ap,
  sym, append-nil, append_assoc, ◌∙◌,
}
use gridex_edge_gateway.Prelude.Text.{
  printed, json_bool, codes, IsPlain, append-IsPlain, decimal-IsPlain,
}
use gridex_edge_gateway.Double.{Double}
use gridex_edge_gateway.Telemetry.{
  NodePollStatus, unknown, online, transport_failure, identity_failure, telemetry_failure,
  MbusNodeTelemetry,
}
use gridex_edge_gateway.Journal.{
  Kind, snapshot, transition, kind_name, poll_status_name, record_parts, record_text,
}
use gridex_edge_gateway.Journal.Bound.{journal_line}

all_plain : List ℕ → Bool
all_plain [] = true
all_plain (c ∷ text) = leb 32 c && all_plain text

fixed-IsPlain : (text : List ℕ) → all_plain text ≡ true → IsPlain text
unfolding all_plain
fixed-IsPlain [] e = tt
fixed-IsPlain (c ∷ text) e = (ground (arith, e), fixed-IsPlain text (ground (arith, e)))

kind_name-IsPlain : (kind : Kind) → IsPlain (kind_name kind)
unfolding all_plain kind_name
kind_name-IsPlain snapshot = fixed-IsPlain (codes "snapshot") refl
kind_name-IsPlain transition = fixed-IsPlain (codes "transition") refl

poll_status_name-IsPlain : (status : NodePollStatus) → IsPlain (poll_status_name status)
unfolding all_plain poll_status_name
poll_status_name-IsPlain unknown = fixed-IsPlain (codes "unknown") refl
poll_status_name-IsPlain online = fixed-IsPlain (codes "online") refl
poll_status_name-IsPlain transport_failure = fixed-IsPlain (codes "transport_failure") refl
poll_status_name-IsPlain identity_failure = fixed-IsPlain (codes "identity_failure") refl
poll_status_name-IsPlain telemetry_failure = fixed-IsPlain (codes "telemetry_failure") refl

json_bool-IsPlain : (b : Bool) → IsPlain (json_bool b)
unfolding all_plain
json_bool-IsPlain true = fixed-IsPlain (codes "true") refl
json_bool-IsPlain false = fixed-IsPlain (codes "false") refl

names_plain : List (List ℕ × List ℕ) → Bool
unfolding all_plain
names_plain [] = true
names_plain ((name, value) ∷ parts) = all_plain name && names_plain parts

abbrev ValuesPlain : List (List ℕ × List ℕ) → Type 0
ValuesPlain [] = Unit
ValuesPlain ((name, value) ∷ parts) = IsPlain value × ValuesPlain parts

printed-IsPlain :
    (parts : List (List ℕ × List ℕ))
    → names_plain parts ≡ true
    → ValuesPlain parts
    → IsPlain (printed parts)
unfolding names_plain all_plain
printed-IsPlain [] e h = fixed-IsPlain (codes "}") refl
printed-IsPlain ((name, value) ∷ parts) e (h, hs) =
    let name_plain : all_plain name ≡ true = ground (arith, e) in
    let rest_plain : names_plain parts ≡ true = ground (arith, e) in
    append-IsPlain name _ (fixed-IsPlain name name_plain)
      (append-IsPlain value _ h (printed-IsPlain parts rest_plain hs))

module _ (observed_at : List ℕ) (show_double : Double → List ℕ) where
  pub record_text-IsPlain :
      (sequence : ℕ) (kind : Kind) (slot : ℕ) (sample : MbusNodeTelemetry)
      (previous : NodePollStatus)
      → IsPlain observed_at
      → IsPlain (show_double sample.actual_power_kw)
      → IsPlain (record_text observed_at show_double sequence kind slot sample previous)
  unfolding record_text names_plain all_plain
  record_text-IsPlain sequence kind slot sample previous time power =
      let values : ValuesPlain
          (record_parts observed_at show_double sequence kind slot sample previous) =
        (
          decimal-IsPlain sequence,
          (
            time,
            (
              kind_name-IsPlain kind,
              (
                decimal-IsPlain slot,
                (
                  json_bool-IsPlain sample.online,
                  (
                    poll_status_name-IsPlain sample.poll_status,
                    (
                      poll_status_name-IsPlain previous,
                      (
                        decimal-IsPlain sample.consecutive_failures,
                        (
                          decimal-IsPlain sample.heartbeat,
                          (
                            power,
                            (
                              decimal-IsPlain sample.energy_wh,
                              (
                                decimal-IsPlain sample.quality,
                                (
                                  decimal-IsPlain sample.alarm_bits,
                                  (decimal-IsPlain sample.last_error, tt),
                                ),
                              ),
                            ),
                          ),
                        ),
                      ),
                    ),
                  ),
                ),
              ),
            ),
          ),
        ) in
      printed-IsPlain (record_parts observed_at show_double sequence kind slot sample previous) refl
        values

-- The lines of a text, and a last one without its end.
unfoldable pub lines_of : List ℕ → List ℕ → List (List ℕ) × List ℕ
lines_of start [] = ([], start)
lines_of start (c ∷ text) =
    if c == 10
    then (start ∷ (lines_of [] text).0, (lines_of [] text).1)
    else lines_of (start ++ (c ∷ [])) text

-- The contents of a file of lines.
abbrev pub file_of : List (List ℕ) → List ℕ
file_of [] = []
file_of (text ∷ texts) = journal_line text ++ file_of texts

abbrev pub AreLines : List (List ℕ) → Type 0
AreLines [] = Unit
AreLines (text ∷ texts) = IsPlain text × AreLines texts

lines_of-line :
    (start text rest : List ℕ)
    → IsPlain text
    → lines_of start (text ++ (10 ∷ rest))
      ≡ ((start ++ text) ∷ (lines_of [] rest).0, (lines_of [] rest).1)
unfolding lines_of
lines_of-line start [] rest h =
    ap (λ t. (t ∷ (lines_of [] rest).0, (lines_of [] rest).1)) (sym (append-nil start))
lines_of-line start (c ∷ text) rest (h, hs) =
    let inside : (c == 10) ≡ false = ground arith in
    rw inside (
      lines_of-line (start ++ (c ∷ [])) text rest hs
      ∙ ap (λ t. (t ∷ (lines_of [] rest).0, (lines_of [] rest).1))
          (append_assoc start (c ∷ []) text))

pub lines_of-file_of :
    (texts : List (List ℕ)) → AreLines texts → lines_of [] (file_of texts) ≡ (texts, [])
unfolding lines_of
lines_of-file_of [] h = refl
lines_of-file_of (text ∷ texts) (h, hs) =
    ap (lines_of []) (append_assoc text (10 ∷ []) (file_of texts))
    ∙ lines_of-line [] text (file_of texts) h
    ∙ ap {A = List (List ℕ) × List ℕ} (λ r. (text ∷ r.0, r.1)) (lines_of-file_of texts hs)

pub file_of-append :
    (texts : List (List ℕ)) (text : List ℕ)
    → file_of texts ++ journal_line text ≡ file_of (texts ++ (text ∷ []))
file_of-append [] text = sym (append-nil (journal_line text))
file_of-append (t ∷ texts) text =
    append_assoc (journal_line t) (file_of texts) (journal_line text)
    ∙ ap (λ b. journal_line t ++ b) (file_of-append texts text)

pub lines-append :
    (texts : List (List ℕ)) (text : List ℕ)
    → AreLines texts
    → IsPlain text
    → AreLines (texts ++ (text ∷ []))
lines-append [] text hs h = (h, tt)
lines-append (t ∷ texts) text (k, hs) h = (k, lines-append texts text hs h)
