-- ===== src/Ipc/RoundTrip.antt =====
-- What one end of the link sends (sniff4hound/ipc.py, `_send_frame`) is what the other end reads
-- (`_recv_frame`), in whatever chunks the socket delivers it.
use sniff4hound.Prelude.{
  ℕ, zero, suc, ◌≤◌, ◌≡◌, refl, sym, ap, ◌∙◌, inl, inr, false, Option, none, some, List, [], ◌∷◌,
  ◌++◌, arith, ltb, length, Bool-cases, number_eq, pair_eq,
}
use mathlib.Core.List.{append_assoc}
use sniff4hound.Ipc.Frames.{
  Bytes, Stream, Json, pack, unpack, recv_exact, send_frame, recv_frame, max_frame_bytes,
  read_header, read_data, read_payload, sent, too_large, received, Receiving, Sending,
}
use sniff4hound.Prelude.Tests.{ltb-false→le}
use sniff4hound.Ipc.Receive.{
  bytes_of, Open, unpack-pack, recv_exact-Filled, some_injective, sent_injective,
}

module _ {M : Type 0} (json : Json M) where
  sent_bytes :
      (m : M) (out : Bytes)
      → send_frame json m ≡ sent out
      → (out ≡ pack (length (json.dumps m)) ++ json.dumps m)
        × (length (json.dumps m) ≤ max_frame_bytes)
  unfolding send_frame
  sent_bytes m out h =
      let size = length (json.dumps m) in
      elim (Bool-cases (ltb max_frame_bytes size)) [
        | inl big ↦ absurd (cc (rw big at h))
        | inr fits ↦ (sym (sent_injective (rw fits at h)), ltb-false→le max_frame_bytes size fits)
      ]

  read_fitting :
      (size : ℕ) (stream : Stream)
      → unpack (pack size) ≡ size
      → size ≤ max_frame_bytes
      → read_header json (some (pack size, stream)) ≡ read_data json (recv_exact size stream)
  read_fitting size stream same fits =
      rw same (rw (let e : ltb max_frame_bytes size ≡ false = ground arith in e))

  -- The next frame that the stream holds is this message, and `more` is what follows it.
  Holds : M → Bytes → Receiving M → Type 0
  Holds m more r = (next : Stream) × ((r ≡ received m next) × (Open next × (bytes_of next ≡ more)))

  recv_frame-send_frame :
      (m : M) (out more : Bytes) (stream : Stream)
      → send_frame json m ≡ sent out
      → Open stream
      → bytes_of stream ≡ out ++ more
      → Holds m more (recv_frame json stream)
  unfolding recv_frame Holds pack
  recv_frame-send_frame m out more stream h op holds =
      let facts = sent_bytes m out h in
      let size = length (json.dumps m) in
      let head =
        recv_exact-Filled (pack size) (json.dumps m ++ more) stream op
          (holds ∙ ap (◌++ more) facts.0 ∙ append_assoc (pack size) (json.dumps m) more) in
      let body = recv_exact-Filled (json.dumps m) more head.0 head.1.1.0 head.1.1.1 in
      (
        body.0,
        (
          ap (read_header json) head.1.0
              ∙ read_fitting size head.0 (unpack-pack size facts.1) facts.1
              ∙ ap (read_data json) body.1.0
              ∙ ap (λ o. read_payload json o body.0) (json.loads-dumps m),
          body.1.1,
        ),
      )

  -- Several frames, one after the other; none when one of them is too large.
  abbrev pub onto_frame : Sending → Option Bytes → Option Bytes
  onto_frame too_large rest = none
  onto_frame (sent out) none = none
  onto_frame (sent out) (some rest) = some (out ++ rest)

  unfoldable pub send_all : List M → Option Bytes
  send_all [] = some []
  send_all (m ∷ ms) = onto_frame (send_frame json m) (send_all ms)

  abbrev pub onto_message : M → Option (List M × Stream) → Option (List M × Stream)
  onto_message m none = none
  onto_message m (some (ms, stream)) = some (m ∷ ms, stream)

  unfoldable pub recv_all : ℕ → Stream → Option (List M × Stream)
  recv_all zero stream = some ([], stream)
  recv_all (suc n) stream = elim (recv_frame json stream) [
    | received m next ↦ onto_message m (recv_all n next)
    | _ ↦ none
  ]

  recv_all_next :
      (n : ℕ) (m : M) (stream next : Stream)
      → recv_frame json stream ≡ received m next
      → recv_all (suc n) stream ≡ onto_message m (recv_all n next)
  unfolding recv_all
  recv_all_next n m stream next h = rw (h, recv_all)

  send_all_cons :
      (m : M) (ms : List M) (out : Bytes)
      → send_all (m ∷ ms) ≡ some out
      → (first : Bytes) × (rest : Bytes) × ((send_frame json m ≡ sent first)
          × ((send_all ms ≡ some rest) × (out ≡ first ++ rest)))
  unfolding send_all
  send_all_cons m ms out h = go (send_frame json m) (send_all ms) refl refl h
    where
      go :
          (s : Sending) (r : Option Bytes)
          → send_frame json m ≡ s
          → send_all ms ≡ r
          → onto_frame s r ≡ some out
          → (first : Bytes) × (rest : Bytes) × ((send_frame json m ≡ sent first)
              × ((send_all ms ≡ some rest) × (out ≡ first ++ rest)))
      go too_large r e f k = absurd (cc k)
      go (sent first) none e f k = absurd (cc k)
      go (sent first) (some rest) e f k = (first, rest, (e, (f, cc k)))

  -- Whatever frames one end could send, in whatever chunks they arrive and whatever follows them, the
  -- other end reads the same messages in the same order, and leaves the bytes that follow in the
  -- socket.
  pub recv_all-send_all :
      (ms : List M) (out more : Bytes) (stream : Stream)
      → send_all ms ≡ some out
      → Open stream
      → bytes_of stream ≡ out ++ more
      → (next : Stream) × ((recv_all (length ms) stream ≡ some (ms, next))
          × (Open next × (bytes_of next ≡ more)))
  unfolding send_all recv_all Holds
  recv_all-send_all [] out more stream h op holds =
      (stream, (refl, (op, holds ∙ ap (◌++ more) (some_injective (sym h)))))
  recv_all-send_all (m ∷ ms) out more stream h op holds =
      let parts = send_all_cons m ms out h in
      let first = parts.0 in
      let rest = parts.1 in
      let facts = parts.2 in
      let one =
        recv_frame-send_frame m first (rest ++ more) stream facts.0 op
          (holds ∙ ap (◌++ more) facts.1.1 ∙ append_assoc first rest more) in
      let others = recv_all-send_all ms rest more one.0 facts.1.0 one.1.1.0 one.1.1.1 in
      (
        others.0,
        (
          recv_all_next (length ms) m stream one.0 one.1.0 ∙ ap (onto_message m) others.1.0,
          others.1.1,
        ),
      )
