-- ===== src/Mbus/Stream/Single.antt =====
-- One whole request on a connection.
use gridex_edge_gateway.Prelude.{
  ℕ, suc, ◌≡◌, arith, ◌≤◌, ◌+◌, ◌||◌, ltb, false, List, [], ◌∷◌, ◌++◌, length, take_all, drop_all,
  append-nil, if◌then◌else◌, ap, ◌∙◌,
}
use gridex_edge_gateway.Prelude.Words.{word_bytes}
use gridex_edge_gateway.Mbus.Node.{MbusNode}
use gridex_edge_gateway.Mbus.Crc.{u16_bytes}
use gridex_edge_gateway.Mbus.Control.{handle}
use gridex_edge_gateway.Mbus.Stream.{
  incomplete, malformed, front, request, serve, process_frames, answering, turn,
}
use gridex_edge_gateway.Mbus.Stream.Chunks.{unrolled, turns-enough}

sized :
    (size l : ℕ)
    → size ≡ 6 + l
    → 2 ≤ l
    → l ≤ 254
    → (if ltb size 7
        then incomplete
        else if ltb l 2 || ltb 260 (6 + l)
        then malformed
        else if ltb size (6 + l)
        then incomplete
        else request (6 + l))
      ≡ request size
sized size l e low high = ground arith

-- The front of one whole request.
pub front-request :
    (t1 t2 unit function : ℕ) (payload : List ℕ)
    → length payload ≤ 252
    → let adu = t1 ∷ t2 ∷ 0 ∷ 0 ∷ (u16_bytes (2 + length payload) ++ (unit ∷ function ∷ payload)) in
      front adu ≡ request (length adu)
unfolding front
front-request t1 t2 unit function payload short =
    rw (word_bytes (2 + length payload) (omega arith)) (
      sized
        (length (t1 ∷ t2 ∷ 0 ∷ 0 ∷ (u16_bytes (2 + length payload) ++ (unit ∷ function ∷ payload))))
        (2 + length payload) (omega arith) (omega arith) (omega arith))

ended :
    (unit : ℕ) (n : MbusNode) (answer : List ℕ)
    → answering answer (process_frames unit 0 [] n) ≡ (n, [], answer, false)
unfolding process_frames
ended unit n answer = ap (λ a. (n, [], a, false)) (append-nil answer)

-- It is handled, and nothing is left.
pub serve-single :
    (unit size : ℕ) (adu : List ℕ) (n : MbusNode)
    → length adu ≡ suc size
    → front adu ≡ request (suc size)
    → serve unit adu n ≡ ((handle unit adu n).0, [], (handle unit adu n).1, false)
unfolding serve
serve-single unit size adu n e f =
    let r = handle unit adu n in
    ap (λ turns. process_frames unit turns adu n) e
    ∙ unrolled unit size adu n
    ∙ ap (λ fr. turn unit fr adu n (process_frames unit size)) f
    ∙ rw (take_all (suc size) adu (omega (arith, e)), drop_all (suc size) adu (omega (arith, e)))
        (ap (answering r.1) (turns-enough unit size 0 [] r.0 (omega arith) (omega arith))
          ∙ ended unit r.0 r.1)
