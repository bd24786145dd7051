-- ===== src/Mbus/Stream/Chunks.antt =====
-- The requests are the same however the bytes arrive.
use gridex_edge_gateway.Prelude.{
  ◌≢◌, ℕ, zero, suc, ◌≡◌, refl, arith, ◌+◌, ◌≤◌, true, false, List, [], ◌∷◌, ◌++◌, if◌then◌else◌,
  ltb, length, take, drop, length-drop, length-append, get_or-append_left, ap, sym, ◌∙◌, ◌||◌,
  if-both, append_assoc, take-append_left, drop-append_left,
}
use mathlib.Core.Path.{subst}
use gridex_edge_gateway.Mbus.Crc.{read_u16}
use gridex_edge_gateway.Mbus.Node.{MbusNode}
use gridex_edge_gateway.Mbus.Control.{handle}
use gridex_edge_gateway.Mbus.Stream.{
  Front, incomplete, malformed, request, front, Served, answering, process_frames, serve, turn,
}

-- The bytes that a decided front has seen.
abbrev FrontOf : List ℕ → Front → Type 0
FrontOf rx incomplete = Unit
FrontOf rx malformed = 7 ≤ length rx
FrontOf rx (request total) = (7 ≤ length rx) × (8 ≤ total) × (total ≤ length rx)

front_lem : (rx : List ℕ) → FrontOf rx (front rx)
unfolding front
front_lem rx =
    if-both (FrontOf rx) (ltb (length rx) 7) _ _ (λ _. tt)
      (λ seven.
        if-both (FrontOf rx) (ltb (read_u16 rx 4) 2 || ltb 260 (6 + read_u16 rx 4)) _ _
          (λ _. ground arith)
          (λ fair.
            if-both (FrontOf rx) (ltb (length rx) (6 + read_u16 rx 4)) _ _ (λ _. tt)
              (λ whole. (ground arith, ground arith, ground arith))))

-- The front depends on the length and on the two bytes of the protocol length.
abbrev front_of : ℕ → ℕ → Front
front_of size protocol_length =
    if ltb size 7
    then incomplete
    else if ltb protocol_length 2 || ltb 260 (6 + protocol_length)
    then malformed
    else if ltb size (6 + protocol_length)
    then incomplete
    else request (6 + protocol_length)

-- More bytes do not change a front that is decided.
front_of-more :
    (size more l : ℕ) → front_of size l ≢ incomplete → front_of (size + more) l ≡ front_of size l
front_of-more size more l d = ground arith

-- A decided front has seen the bytes of the protocol length.
seven_of : (size l : ℕ) → front_of size l ≢ incomplete → 7 ≤ size
seven_of size l d = ground arith

front-append : (rx more : List ℕ) → front rx ≢ incomplete → front (rx ++ more) ≡ front rx
unfolding front
front-append rx more d =
    let seven = seven_of (length rx) (read_u16 rx 4) d in
    rw
      (
        get_or-append_left rx more 4 0 (omega (arith, seven)),
        get_or-append_left rx more 5 0 (omega (arith, seven)),
        length-append rx more,
      )
      (front_of-more (length rx) (length more) (read_u16 rx 4) d)

-- Enough turns: more give the same.
abbrev pub resume : ℕ → List ℕ → Served → Served
resume unit more (n, rest, answers, true) = (n, rest, answers, true)
resume unit more (n, rest, answers, false) = answering answers (serve unit (rest ++ more) n)

module _ (unit : ℕ) where
  -- A turn hands on fewer bytes than it got.
  turn-same :
      (fr : Front) (rx : List ℕ) (n : MbusNode) (c d : List ℕ → MbusNode → Served)
      → FrontOf rx fr
      → ((rest : List ℕ) (m : MbusNode) → suc (length rest) ≤ length rx → c rest m ≡ d rest m)
      → turn unit fr rx n c ≡ turn unit fr rx n d
  turn-same incomplete rx n c d h same = refl
  turn-same malformed rx n c d h same = refl
  turn-same (request total) rx n c d (_, eight, fits) same =
      let r = handle unit (take total rx) n in
      ap (answering r.1)
        (same (drop total rx) r.0 (omega (arith, length-drop total rx, eight, fits)))

  pub turns-enough :
      (f g : ℕ) (rx : List ℕ) (n : MbusNode)
      → length rx ≤ f
      → length rx ≤ g
      → process_frames unit f rx n ≡ process_frames unit g rx n
  unfolding process_frames
  turns-enough zero zero rx n hf hg = refl
  turns-enough zero (suc g) [] n hf hg = refl
  turns-enough zero (suc g) (x ∷ rx) n hf hg = absurd (omega arith)
  turns-enough (suc f) zero [] n hf hg = refl
  turns-enough (suc f) zero (x ∷ rx) n hf hg = absurd (omega arith)
  turns-enough (suc f) (suc g) rx n hf hg =
      turn-same (front rx) rx n (process_frames unit f) (process_frames unit g) (front_lem rx)
        (λ rest m h. turns-enough f g rest m (omega arith) (omega arith))

  resume-answering :
      (more answer : List ℕ) (r : Served)
      → resume unit more (answering answer r) ≡ answering answer (resume unit more r)
  resume-answering more answer (n, rest, answers, true) = refl
  resume-answering more answer (n, rest, answers, false) =
      ap
        (λ a. (
          (serve unit (rest ++ more) n).0,
          (serve unit (rest ++ more) n).1,
          a,
          (serve unit (rest ++ more) n).3,
        ))
        (append_assoc answer answers (serve unit (rest ++ more) n).2)

  pub unrolled :
      (t : ℕ) (rx : List ℕ) (n : MbusNode)
      → process_frames unit (suc t) rx n ≡ turn unit (front rx) rx n (process_frames unit t)
  unfolding process_frames
  unrolled t rx n = refl

  decided : (rx : List ℕ) (fr : Front) → front rx ≡ fr → fr ≢ incomplete → front rx ≢ incomplete
  decided rx fr e d h = d (sym e ∙ h)

  -- A turn on the bytes with more behind them.
  turn-more :
      (fr : Front) (rx more : List ℕ) (n : MbusNode) (g : ℕ) (c : List ℕ → MbusNode → Served)
      → front rx ≡ fr
      → length (rx ++ more) ≤ suc g
      → ((rest : List ℕ) (m : MbusNode)
          → suc (length rest) ≤ length rx
          → process_frames unit g (rest ++ more) m ≡ resume unit more (c rest m))
      → process_frames unit (suc g) (rx ++ more) n ≡ resume unit more (turn unit fr rx n c)
  unfolding serve
  turn-more incomplete rx more n g c e fits ih =
      turns-enough (suc g) (length (rx ++ more)) (rx ++ more) n fits (omega arith)
  turn-more malformed rx more n g c e fits ih =
      unrolled g (rx ++ more) n
      ∙ ap (λ fr. turn unit fr (rx ++ more) n (process_frames unit g))
          (front-append rx more (decided rx malformed e (λ h. cc)) ∙ e)
  turn-more (request total) rx more n g c e fits ih =
      let known : FrontOf rx (request total) = subst (FrontOf rx) e (front_lem rx) in
      let (seven, eight, whole) = known in
      let (n', answer) = handle unit (take total rx) n in
      unrolled g (rx ++ more) n
      ∙ ap (λ fr. turn unit fr (rx ++ more) n (process_frames unit g))
          (front-append rx more (decided rx (request total) e (λ h. cc)) ∙ e)
      ∙ rw (take-append_left total rx more whole, drop-append_left total rx more whole)
          (ap (answering answer)
              (ih (drop total rx) n' (omega (arith, length-drop total rx, eight, whole)))
            ∙ sym (resume-answering more answer (c (drop total rx) n')))

  frames-more :
      (f g : ℕ) (rx more : List ℕ) (n : MbusNode)
      → length rx ≤ f
      → length (rx ++ more) ≤ g
      → process_frames unit g (rx ++ more) n ≡ resume unit more (process_frames unit f rx n)
  unfolding serve
  frames-more f g [] more n hf hg =
      turns-enough g (length more) more n hg (omega arith)
      ∙ ap (resume unit more) (turns-enough 0 f [] n (omega arith) hf)
  frames-more zero g (x ∷ rx) more n hf hg = absurd (omega arith)
  frames-more (suc f) zero (x ∷ rx) more n hf hg = absurd (omega arith)
  frames-more (suc f) (suc g) (x ∷ rx) more n hf hg =
      turn-more (front (x ∷ rx)) (x ∷ rx) more n g (process_frames unit f) refl hg (λ rest m h.
        frames-more f g rest more m (omega arith)
          (omega (arith, length-append rest more, length-append (x ∷ rx) more)))
      ∙ ap (resume unit more) (sym (unrolled f (x ∷ rx) n))

  -- However the bytes of a connection are split on the way, the node is left the same, with the same
  -- answers in the same order and the same bytes kept for the next time: a run on some bytes, and
  -- then on what it left with more bytes behind, is the run on all of them. A run that ends the
  -- connection, for a length that no request has, is the end in both.
  pub serve-append :
      (rx more : List ℕ) (n : MbusNode)
      → serve unit (rx ++ more) n ≡ resume unit more (serve unit rx n)
  unfolding serve
  serve-append rx more n =
      frames-more (length rx) (length (rx ++ more)) rx more n (omega arith) (omega arith)
