-- ===== src/Wire/RoundTrip.antt =====
-- A name as a DNS client writes it, label by label, is what the reader gives (sniff4hound/sniffer.py,
-- `_read_dns_name`), with the offset behind it.
use mathlib.Core.List.{append_assoc, append-nil}
use sniff4hound.Prelude.Lists.{take-append, drop-append}
use sniff4hound.Prelude.Text.{Text}
use sniff4hound.Wire.Bytes.{Bytes, byte_at, slice, is_pointer}
use sniff4hound.Wire.DnsName.{
  Reading, breaks, goes_on, read_label, name_of, read_round, read_loop, read_result, rounds,
  read_dns_name,
}
use sniff4hound.Wire.Total.{read_loop_breaks, read_loop_goes_on}
use sniff4hound.Prelude.{
  ℕ, zero, suc, ◌+◌, ◌-◌, ◌≤◌, ◌<◌, ◌≡◌, refl, sym, ap, ◌∙◌, false, none, some, List, [], ◌∷◌, ◌++◌,
  arith, ltb, leb, nat_beq, length, take, drop, All, number_eq, pair_eq, length-append, drop-drop,
}

-- RFC 1035, section 3.1: each label after its length, and a zero length.
unfoldable pub encode : List Text → Bytes
encode [] = 0 ∷ []
encode (label ∷ labels) = length label ∷ label ++ encode labels

-- A label of the wire has between 1 and 63 bytes.
abbrev pub IsLabel : Text → Type 0
IsLabel label = (1 ≤ length label) × (length label ≤ 63)

pub byte_at-append :
    (before : Bytes) (b : ℕ) (after : Bytes) → byte_at (before ++ b ∷ after) (length before) ≡ b
byte_at-append [] b after = refl
byte_at-append (x ∷ before) b after = byte_at-append before b after

drop_past :
    (before : Bytes) (b : ℕ) (after : Bytes)
    → drop (length before + 1) (before ++ b ∷ after) ≡ after
drop_past before b after =
    sym (drop-drop 1 (length before) (before ++ b ∷ after))
    ∙ ap (drop 1) (drop-append before (b ∷ after) (length before) refl)

pub slice_label :
    (before : Bytes) (b : ℕ) (label after : Bytes)
    → b ≡ length label
    → slice (before ++ (b ∷ (label ++ after))) (length before + 1) (length before + 1 + b) ≡ label
slice_label before b label after e =
    ap (take (length before + 1 + b - (length before + 1))) (drop_past before b (label ++ after))
    ∙ take-append label after (length before + 1 + b - (length before + 1)) (omega arith)

round_label :
    (max_jumps : ℕ) (before : Bytes) (label after : Bytes) (acc : List Text)
    → IsLabel label
    → length acc < 128
    → read_round max_jumps
        (before ++ (length label ∷ (label ++ after)))
        (record { labels = acc; jumps = 0; resume_at = none; pos = length before })
      ≡ goes_on (record {
        labels = acc ++ label ∷ [];
        jumps = 0;
        resume_at = none;
        pos = length before + 1 + length label;
      })
unfolding read_round read_label
round_label max_jumps before label after acc is few =
    let payload = before ++ (length label ∷ (label ++ after)) in
    let size : length payload ≡ length before + 1 + length label + length after =
      length-append before (length label ∷ (label ++ after))
      ∙ omega (arith, length-append label after) in
    let b = byte_at-append before (length label) (label ++ after) in
    let cut = slice_label before (length label) label after refl in
    let more : length (acc ++ label ∷ []) ≡ length acc + 1 = length-append acc (label ∷ []) in
    let past : leb (length payload) (length before) ≡ false = ground (arith, size) in
    let nonzero : nat_beq (length label) 0 ≡ false = ground (arith, is.0) in
    let plain : is_pointer (length label) ≡ false = ground (arith, is.1) in
    let whole : ltb (length payload) (length before + 1 + length label) ≡ false =
      ground (arith, size) in
    let room : ltb 128 (length (acc ++ label ∷ [])) ≡ false = ground (arith, more, few) in
    rw b (rw past (rw nonzero (rw plain (rw cut (rw whole (rw room refl))))))

abbrev reached : List Text → ℕ → Reading
reached acc pos = record { labels = acc; jumps = 0; resume_at = none; pos = pos }

abbrev finished : List Text → ℕ → Reading
finished acc pos = record { labels = acc; jumps = 0; resume_at = some pos; pos = pos }

round_end :
    (max_jumps : ℕ) (before after : Bytes) (acc : List Text)
    → read_round max_jumps (before ++ (0 ∷ after)) (reached acc (length before))
      ≡ breaks (finished acc (length before + 1))
unfolding read_round
round_end max_jumps before after acc =
    let size : length (before ++ (0 ∷ after)) ≡ length before + 1 + length after =
      length-append before (0 ∷ after) ∙ omega arith in
    let past : leb (length (before ++ (0 ∷ after))) (length before) ≡ false =
      ground (arith, size) in
    rw (byte_at-append before 0 after) (rw past refl)

loop_labels :
    (fuel max_jumps : ℕ) (before : Bytes) (labels : List Text) (after : Bytes) (acc : List Text)
    → All IsLabel labels
    → length acc + length labels ≤ 128
    → length labels < fuel
    → read_loop fuel max_jumps (before ++ (encode labels ++ after)) (reached acc (length before))
      ≡ some (finished (acc ++ labels) (length before + length (encode labels)))
unfolding encode
loop_labels zero max_jumps before labels after acc are few enough = absurd (omega arith)
loop_labels (suc fuel) max_jumps before [] after acc are few enough =
    read_loop_breaks fuel max_jumps (before ++ (0 ∷ after)) (reached acc (length before))
      (finished acc (length before + 1)) (round_end max_jumps before after acc)
    ∙ ap (λ labels. some (finished labels (length before + 1))) (sym (append-nil acc))
loop_labels (suc fuel) max_jumps before (label ∷ labels) after acc are few enough =
    let front = length label ∷ label in
    let rest = encode labels ++ after in
    let more : length (acc ++ label ∷ []) ≡ length acc + 1 = length-append acc (label ∷ []) in
    let wide : length (before ++ front) ≡ length before + 1 + length label =
      length-append before front ∙ omega arith in
    let regroup : (before ++ front) ++ rest ≡ before ++ (front ++ rest) =
      append_assoc before front rest in
    let later =
      loop_labels fuel max_jumps (before ++ front) labels after (acc ++ label ∷ []) are.1
        (omega (arith, more)) (omega arith) in
    let total : length (before ++ front) + length (encode labels)
        ≡ length before + suc (length (label ++ encode labels)) =
      omega (arith, wide, length-append label (encode labels)) in
    ap
      (λ t.
        read_loop (suc fuel) max_jumps (before ++ (length label ∷ t)) (reached acc (length before)))
      (append_assoc label (encode labels) after)
    ∙ read_loop_goes_on fuel max_jumps (before ++ (length label ∷ (label ++ rest)))
        (reached acc (length before))
        (reached (acc ++ label ∷ []) (length before + 1 + length label))
        (round_label max_jumps before label rest acc are.0 (omega arith))
    ∙ ap
        (λ p.
          read_loop fuel max_jumps p
            (reached (acc ++ label ∷ []) (length before + 1 + length label)))
        (sym regroup)
    ∙ ap
        (λ pos.
          read_loop fuel max_jumps ((before ++ front) ++ rest) (reached (acc ++ label ∷ []) pos))
        (sym wide)
    ∙ later
    ∙ ap (λ ls. some (finished ls (length (before ++ front) + length (encode labels))))
        (append_assoc acc (label ∷ []) labels)
    ∙ ap (λ pos. some (finished (acc ++ label ∷ labels) pos)) total

pub read_dns_name-encode :
    (max_jumps : ℕ) (before : Bytes) (labels : List Text) (after : Bytes)
    → All IsLabel labels
    → length labels ≤ 128
    → read_dns_name max_jumps (before ++ (encode labels ++ after)) (length before)
      ≡ some (name_of labels, length before + length (encode labels))
unfolding read_dns_name
read_dns_name-encode max_jumps before labels after are few = ap read_result (
    loop_labels (rounds max_jumps) max_jumps before labels after [] are (omega arith) (omega arith))
