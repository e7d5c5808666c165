-- ===== src/Ipc/Frames.antt =====
-- sniff4hound/ipc.py: `_send_frame`, `_recv_exact`, `_recv_frame` and `_tokens_match`. What a socket
-- will deliver is the list of the chunks that `recv` finds in its buffer, one after the other; an
-- empty chunk is what `recv` gives when the peer has closed, and so is the end of the list.
use sniff4hound.Prelude.{
  ℕ, zero, suc, ◌+◌, ◌-◌, ◌*◌, ◌/◌, ◌%◌, ◌≡◌, Bool, false, Option, none, some, List, [], ◌∷◌, ◌++◌,
  ltb, leb, if◌then◌else◌, length, take, drop, number_eq, pair_eq,
}
use sniff4hound.Prelude.Text.{Text, list_eq, is_empty, compare_digest}

abbrev pub Bytes : Type 0
Bytes = List ℕ

abbrev pub Stream : Type 0
Stream = List Bytes

-- MAX_FRAME_BYTES
abbrev pub max_frame_bytes : ℕ
max_frame_bytes = 16777216

-- struct.Struct("!I"): four bytes, the most significant first.
unfoldable pub pack : ℕ → Bytes
pack n = n / 16777216 % 256 ∷ n / 65536 % 256 ∷ n / 256 % 256 ∷ n % 256 ∷ []

abbrev pub unpack_onto : ℕ → Bytes → ℕ
unpack_onto n [] = n
unpack_onto n (b ∷ bs) = unpack_onto (n * 256 + b) bs

unfoldable pub unpack : Bytes → ℕ
unpack = unpack_onto 0

-- One `sock.recv(limit)`: at most `limit` bytes of the first chunk, and what stays in the buffer.
abbrev pub recv : ℕ → Stream → Bytes × Stream
recv limit [] = ([], [])
recv limit (chunk ∷ rest) =
    if leb (length chunk) limit then (chunk, rest) else (take limit chunk, drop limit chunk ∷ rest)

-- The loop of `_recv_exact`, one `recv` for a unit of fuel; none is IpcDisconnected.
unfoldable pub recv_loop : ℕ → ℕ → Bytes → Stream → Option (Bytes × Stream)
recv_loop fuel zero got stream = some (got, stream)
recv_loop zero (suc remaining) got stream = none
recv_loop (suc fuel) (suc remaining) got stream =
    let chunk = (recv (suc remaining) stream).0 in
    let next = (recv (suc remaining) stream).1 in
    let rest = recv_loop fuel (suc remaining - length chunk) (got ++ chunk) next in
    if is_empty chunk then none else rest

-- Every `recv` that does not end the loop takes a byte, so `size` of them are enough.
unfoldable pub recv_exact : ℕ → Stream → Option (Bytes × Stream)
recv_exact size = recv_loop size size []

-- _tokens_match: a candidate that is not a text is none; a result of none is the TypeError of
-- `compare_digest`.
unfoldable pub tokens_match : Option Text → Text → Option Bool
tokens_match none expected = some false
tokens_match (some candidate) expected =
    if is_empty expected then some false else compare_digest candidate expected

-- `json.dumps(...).encode()` and `json.loads(... .decode())`; none is a ValueError.
pub record Json (M : Type 0) : Type 0 where
  pub dumps : M → Bytes
  pub loads : Bytes → Option M
  pub loads-dumps : (m : M) → loads (dumps m) ≡ some m

-- What sending a frame does: it raises IpcError, or these bytes go out.
pub data Sending : Type 0 where
  too_large : Sending
  sent : Bytes → Sending

pub data Receiving (M : Type 0) : Type 0 where
  disconnected : Receiving M
  oversized : ℕ → Receiving M
  malformed : Stream → Receiving M
  received : M → Stream → Receiving M

module _ {M : Type 0} (json : Json M) where
  unfoldable pub send_frame : M → Sending
  send_frame payload =
      let data_bytes = json.dumps payload in
      if ltb max_frame_bytes (length data_bytes)
      then too_large
      else sent (pack (length data_bytes) ++ data_bytes)

  abbrev pub read_payload : Option M → Stream → Receiving M
  read_payload none stream = malformed stream
  read_payload (some m) stream = received m stream

  abbrev pub read_data : Option (Bytes × Stream) → Receiving M
  read_data none = disconnected
  read_data (some (bytes, stream)) = read_payload (json.loads bytes) stream

  abbrev pub read_header : Option (Bytes × Stream) → Receiving M
  read_header none = disconnected
  read_header (some (header, stream)) =
      let size = unpack header in
      if ltb max_frame_bytes size then oversized size else read_data (recv_exact size stream)

  unfoldable pub recv_frame : Stream → Receiving M
  recv_frame stream = read_header (recv_exact 4 stream)
