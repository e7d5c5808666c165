-- ===== src/Wire/Sni.antt =====
-- sniff4hound/sniffer.py: `_looks_like_tls_record` and `extract_tls_sni`, the server name of a TLS
-- ClientHello.
use sniff4hound.Prelude.Text.{Text, lower, strip}
use sniff4hound.Wire.Bytes.{Bytes, byte_at, slice, word_at, is_ascii}
use sniff4hound.Prelude.{
  ℕ, zero, suc, ◌+◌, ◌-◌, ◌*◌, ◌≤◌, ◌<◌, min, subst, ◌≢◌, Bool, not, ◌&&◌, ◌||◌, Option, none, some,
  [], ◌∷◌, arith, ltb, leb, nat_beq, if◌then◌else◌, length, if_elim, number_eq, pair_eq, elem,
}

unfoldable pub looks_like_tls_record : Bytes → Bool
looks_like_tls_record payload =
    leb 3 (length payload)
    && elem (byte_at payload 0) (20 ∷ 21 ∷ 22 ∷ 23 ∷ [])
    && nat_beq (byte_at payload 1) 3
    && leb (byte_at payload 2) 4

-- The first name of a server_name extension whose data starts at `start`.
unfoldable pub server_name : Bytes → ℕ → ℕ → Text
server_name payload start limit =
    let p = start + 2 in
    let size = word_at payload (p + 1) in
    let name = slice payload (p + 3) (p + 3 + size) in
    if leb (p + 3) limit
      && nat_beq (byte_at payload p) 0
      && leb (p + 3 + size) limit
      && is_ascii name
    then lower (strip name)
    else []

-- The loop over the extensions: an extension takes four bytes and its data, so the room up to the end
-- is fuel enough. None is that the fuel is spent.
unfoldable pub sni_loop : ℕ → Bytes → ℕ → ℕ → Option Text
sni_loop zero payload pos limit = none
sni_loop (suc fuel) payload pos limit =
    let start = pos + 4 in
    let rest = sni_loop fuel payload (start + word_at payload (pos + 2)) limit in
    if ltb limit start
    then some []
    else if nat_beq (word_at payload pos) 0 && leb (start + 2) limit
    then some (server_name payload start limit)
    else rest

-- The extensions' length at `pos`, and the extensions behind it.
abbrev pub sni_extensions : Bytes → ℕ → Option Text
sni_extensions payload pos =
    let limit = min (pos + 2 + word_at payload pos) (length payload) in
    if ltb (length payload) (pos + 2)
    then some []
    else sni_loop (length payload) payload (pos + 2) limit

-- The compression methods at `pos`.
abbrev pub sni_compression : Bytes → ℕ → Option Text
sni_compression payload pos =
    if leb (length payload) pos
    then some []
    else sni_extensions payload (pos + 1 + byte_at payload pos)

-- The cipher suites at `pos`.
abbrev pub sni_ciphers : Bytes → ℕ → Option Text
sni_ciphers payload pos =
    if ltb (length payload) (pos + 2)
    then some []
    else sni_compression payload (pos + 2 + word_at payload pos)

-- The session id is at 43, behind the record's and the handshake's headers, the version and the random
-- bytes.
unfoldable pub extract_tls_sni : Bytes → Option Text
extract_tls_sni payload =
    if ltb (length payload) 44
      || not (nat_beq (byte_at payload 0) 22)
      || not (nat_beq (byte_at payload 5) 1)
    then some []
    else sni_ciphers payload (44 + byte_at payload 43)

-- One round, when the next ones end.
sni_round-ends :
    (fuel : ℕ) (payload : Bytes) (pos limit : ℕ)
    → (pos + 4 ≤ limit → sni_loop fuel payload (pos + 4 + word_at payload (pos + 2)) limit ≢ none)
    → sni_loop (suc fuel) payload pos limit ≢ none
unfolding sni_loop
sni_round-ends fuel payload pos limit next =
    let start = pos + 4 in
    let found = nat_beq (word_at payload pos) 0 && leb (start + 2) limit in
    let rest = sni_loop fuel payload (start + word_at payload (pos + 2)) limit in
    if_elim {x = some []} {y = if found then some (server_name payload start limit) else rest}
      (λ r. r ≢ none) (ltb limit start) (λ over e. cc e)
      (λ room.
        if_elim {x = some (server_name payload start limit)} {y = rest} (λ r. r ≢ none) found
          (λ hit e. cc e) (λ miss. next (ground arith)))

sni_loop-ends :
    (fuel : ℕ) (payload : Bytes) (pos limit : ℕ)
    → limit < pos + 4 + 4 * fuel
    → sni_loop (suc fuel) payload pos limit ≢ none
sni_loop-ends zero payload pos limit enough =
    sni_round-ends zero payload pos limit (λ room. absurd (omega arith))
sni_loop-ends (suc fuel) payload pos limit enough =
    sni_round-ends (suc fuel) payload pos limit
      (λ room. sni_loop-ends fuel payload (pos + 4 + word_at payload (pos + 2)) limit (omega arith))

extensions-ends :
    (payload : Bytes) (pos : ℕ) → 1 ≤ length payload → sni_extensions payload pos ≢ none
extensions-ends payload pos h =
    let limit = min (pos + 2 + word_at payload pos) (length payload) in
    if_elim {x = some []} {y = sni_loop (length payload) payload (pos + 2) limit} (λ r. r ≢ none)
      (ltb (length payload) (pos + 2)) (λ short e. cc e)
      (λ whole.
        subst (λ fuel. sni_loop fuel payload (pos + 2) limit ≢ none) (omega arith)
          (sni_loop-ends (length payload - 1) payload (pos + 2) limit (omega arith)))

-- Whatever the payload holds, looking for the server name ends with a text.
pub extract_tls_sni-ends : (payload : Bytes) → extract_tls_sni payload ≢ none
unfolding extract_tls_sni
extract_tls_sni-ends payload =
    let size = length payload in
    let head = byte_at payload 43 in
    let other =
      ltb size 44 || not (nat_beq (byte_at payload 0) 22) || not (nat_beq (byte_at payload 5) 1) in
    if_elim {x = some []} {y = sni_ciphers payload (44 + head)} (λ r. r ≢ none) other
      (λ short e. cc e)
      (λ hello.
        let held : 1 ≤ size = ground arith in
        let pos = 44 + head in
        let next = pos + 2 + word_at payload pos in
        if_elim {x = some []} {y = sni_compression payload next} (λ r. r ≢ none)
          (ltb size (pos + 2)) (λ short e. cc e)
          (λ whole.
            if_elim {x = some []} {y = sni_extensions payload (next + 1 + byte_at payload next)}
              (λ r. r ≢ none) (leb size next) (λ short e. cc e)
              (λ there. extensions-ends payload (next + 1 + byte_at payload next) held)))
