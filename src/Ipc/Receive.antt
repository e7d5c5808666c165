-- ===== src/Ipc/Receive.antt =====
-- How many bytes `_recv_exact` takes (sniff4hound/ipc.py): as many as are asked for, in whatever chunks the
-- socket delivers them.
use sniff4hound.Prelude.{
  ℕ, zero, suc, ◌+◌, ◌-◌, ◌≤◌, ◌≡◌, refl, sym, ap, ◌∙◌, false, Option, some, [], ◌∷◌, ◌++◌, arith,
  leb, length, take, drop, All, if_elim, number_eq, pair_eq, length-append, length-drop,
  length-take, take-append-drop,
}
use mathlib.Core.List.{append_assoc, append-nil}
use sniff4hound.Prelude.Lists.{take-append, drop-append, take-append_more, drop-append_more}
use sniff4hound.Prelude.Text.{is_empty}
use sniff4hound.Ipc.Frames.{
  Bytes, Stream, pack, unpack, recv, recv_loop, recv_exact, max_frame_bytes, sent,
}

-- All the bytes of a stream.
abbrev pub bytes_of : Stream → Bytes
bytes_of [] = []
bytes_of (chunk ∷ rest) = chunk ++ bytes_of rest

-- No chunk is empty: the peer has not closed.
abbrev pub Open : Stream → Type 0
Open = All (λ chunk. is_empty chunk ≡ false)

pub unpack-pack : (n : ℕ) → n ≤ max_frame_bytes → unpack (pack n) ≡ n
unfolding unpack pack
unpack-pack n h = omega arith

full : (bytes : Bytes) → 1 ≤ length bytes → is_empty bytes ≡ false
full [] h = absurd (omega arith)
full (b ∷ bytes) h = refl

nonempty : (bytes : Bytes) → is_empty bytes ≡ false → 1 ≤ length bytes
nonempty [] h = cc
nonempty (b ∷ bytes) h = omega arith

-- What one `recv` of an open stream that still holds bytes does.
record Took (limit : ℕ) (stream : Stream) (r : Bytes × Stream) : Type 0 where
  kept : r.0 ++ bytes_of r.1 ≡ bytes_of stream
  still_open : Open r.1
  at_most : length r.0 ≤ limit
  some_bytes : is_empty r.0 ≡ false

recv-Took :
    (limit : ℕ) (stream : Stream)
    → Open stream
    → 1 ≤ limit
    → 1 ≤ length (bytes_of stream)
    → Took limit stream (recv limit stream)
recv-Took limit [] op pos held = absurd (omega arith)
recv-Took limit (chunk ∷ rest) op pos held =
    if_elim {A = Bytes × Stream} {x = (chunk, rest)}
      {y = (take limit chunk, drop limit chunk ∷ rest)} (Took limit (chunk ∷ rest))
      (leb (length chunk) limit)
      (λ h. record { kept = refl; still_open = op.1; at_most = ground arith; some_bytes = op.0 })
      (λ h. record {
        kept =
            sym (append_assoc (take limit chunk) (drop limit chunk) (bytes_of rest))
            ∙ ap (◌++ bytes_of rest) (take-append-drop limit chunk);
        still_open = (full (drop limit chunk) (ground (arith, length-drop limit chunk)), op.1);
        at_most = ground (arith, length-take limit chunk);
        some_bytes = full (take limit chunk) (ground (arith, length-take limit chunk));
      })

-- What `n` bytes of a stream that has them are: its first ones, and the stream goes on after them.
record Filled (got : Bytes) (n : ℕ) (stream : Stream) (r : Option (Bytes × Stream)) : Type 0 where
  pub next : Stream
  result : r ≡ some (got ++ take n (bytes_of stream), next)
  next_open : Open next
  pub after : bytes_of next ≡ drop n (bytes_of stream)

recv_loop-Filled :
    (fuel n : ℕ) (got : Bytes) (stream : Stream)
    → Open stream
    → n ≤ fuel
    → n ≤ length (bytes_of stream)
    → Filled got n stream (recv_loop fuel n got stream)
unfolding recv_loop
recv_loop-Filled fuel zero got stream op enough held = record {
  next = stream;
  result = ap (λ b. some (b, stream)) (sym (append-nil got));
  next_open = op;
  after = refl;
}
recv_loop-Filled zero (suc n) got stream op enough held = absurd (omega arith)
recv_loop-Filled (suc fuel) (suc n) got stream op enough held =
    let t = recv-Took (suc n) stream op (omega arith) (omega arith) in
    let chunk = (recv (suc n) stream).0 in
    let left = (recv (suc n) stream).1 in
    let pos : 1 ≤ length chunk = nonempty chunk t.some_bytes in
    let total : length chunk + length (bytes_of left) ≡ length (bytes_of stream) =
      sym (length-append chunk (bytes_of left)) ∙ ap length t.kept in
    let rest =
      recv_loop-Filled fuel (suc n - length chunk) (got ++ chunk) left t.still_open
        (omega (arith, pos)) (omega (arith, total, t.at_most)) in
    record {
      next = rest.next;
      result = rw t.some_bytes (
          rest.result
          ∙ ap (λ b. some (b, rest.next))
              (append_assoc got chunk (take (suc n - length chunk) (bytes_of left))
                ∙ ap (got ++◌) (
                    sym (take-append_more chunk (bytes_of left) (suc n) t.at_most)
                    ∙ ap (take (suc n)) t.kept)));
      next_open = rest.next_open;
      after =
          rest.after
          ∙ sym (drop-append_more chunk (bytes_of left) (suc n) t.at_most)
          ∙ ap (drop (suc n)) t.kept;
    }

-- The bytes that the socket has start with `front`, which is read, and go on with `more`.
pub recv_exact-Filled :
    (front more : Bytes) (stream : Stream)
    → Open stream
    → bytes_of stream ≡ front ++ more
    → (next : Stream) × ((recv_exact (length front) stream ≡ some (front, next))
        × (Open next × (bytes_of next ≡ more)))
unfolding recv_exact
recv_exact-Filled front more stream op holds =
    let held : length front ≤ length (bytes_of stream) =
      omega (arith, ap length holds, length-append front more) in
    let f = recv_loop-Filled (length front) (length front) [] stream op (omega arith) held in
    (
      f.next,
      (
        f.result
            ∙ ap (λ b. some (b, f.next))
                (ap (take (length front)) holds ∙ take-append front more (length front) refl),
        (
          f.next_open,
          f.after ∙ ap (drop (length front)) holds ∙ drop-append front more (length front) refl,
        ),
      ),
    )

pub some_injective : {a b : Bytes} → some a ≡ some b → a ≡ b
some_injective h = cc

pub sent_injective : {a b : Bytes} → sent a ≡ sent b → a ≡ b
sent_injective h = cc
