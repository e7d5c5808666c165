-- ===== src/Wire/Rounds.antt =====
-- sniff4hound/sniffer.py: one round of `_read_dns_name` stays inside the message and spends its bounds.
use sniff4hound.Wire.Bytes.{Bytes, byte_at, slice, is_pointer}
use sniff4hound.Wire.DnsName.{
  Reading, Round, breaks, goes_on, at_pos, resume_or, end_of_name, jump, follow, add_label,
  read_label, read_round,
}
use sniff4hound.Prelude.{
  ℕ, ◌+◌, ◌*◌, ◌%◌, ◌≤◌, ◌≡◌, ◌∙◌, ◌≢◌, inl, inr, ◌||◌, none, some, [], ◌∷◌, arith, ltb, leb,
  nat_beq, if◌then◌else◌, length, Option-cases, if_elim, number_eq, pair_eq, length-append,
}

-- Where a name ends lies between where it began and the end of the payload.
pub record Inside (offset size : ℕ) (s : Reading) : Type 0 where
  pub pos_inside : s.pos ≤ size
  pub before_pointer : s.resume_at ≡ none → offset ≤ s.pos
  pub after_pointer : (at : ℕ) → s.resume_at ≡ some at → (offset ≤ at) × (at ≤ size)

abbrev pub spent : Reading → ℕ
spent s = s.jumps + length s.labels

-- What a round keeps: it stays inside, and one that goes on has spent one more, of the jumps and the labels
-- that there are.
unfoldable pub Fine : ℕ → ℕ → ℕ → Reading → Round → Type 0
Fine max_jumps offset size s (breaks last) = Inside offset size last
Fine max_jumps offset size s (goes_on next) =
    Inside offset size next
    × ((spent next ≡ spent s + 1) × ((next.jumps ≤ max_jumps) × (length next.labels ≤ 128)))

-- A resume offset that was set stays, and one that is set now lies ahead.
resume_or-Inside :
    (offset size ahead : ℕ) (s : Reading)
    → Inside offset size s
    → (s.resume_at ≡ none → offset ≤ ahead)
    → ahead ≤ size
    → (at : ℕ) → resume_or ahead s ≡ some at
    → (offset ≤ at) × (at ≤ size)
resume_or-Inside offset size ahead s i from to at h = elim (Option-cases s.resume_at) [
  | inl unset ↦
      let e : ahead ≡ at = cc (rw unset at h) in
      (omega (arith, from unset, e), omega (arith, to, e))
  | inr known ↦ i.after_pointer at (resumed s ahead (known.0) at known.1 h)
]
  where
    resumed :
        (s : Reading) (ahead known at : ℕ)
        → s.resume_at ≡ some known
        → resume_or ahead s ≡ some at
        → s.resume_at ≡ some at
    resumed s ahead known at e h = let same : some known ≡ some at = rw e at h in e ∙ same

resume_or_set : (ahead : ℕ) (s : Reading) → resume_or ahead s ≢ none
resume_or_set ahead s h = elim (Option-cases s.resume_at) [
  | inl unset ↦ cc (rw unset at h)
  | inr known ↦ cc (rw known.1 at h)
]

jump-Inside :
    (offset size target : ℕ) (s : Reading)
    → Inside offset size s
    → s.pos + 2 ≤ size
    → target ≤ size
    → Inside offset size (jump target s)
jump-Inside offset size target s i fits inside = record {
  pos_inside = inside;
  before_pointer = λ h. absurd (resume_or_set (s.pos + 2) s h);
  after_pointer =
      resume_or-Inside offset size (s.pos + 2) s i (λ unset. omega (arith, i.before_pointer unset))
        fits;
}

follow-Fine :
    (max_jumps : ℕ) (payload : Bytes) (b offset : ℕ) (s : Reading)
    → Inside offset (length payload) s
    → length s.labels ≤ 128
    → Fine max_jumps offset (length payload) s (follow max_jumps payload b s)
unfolding Fine follow
follow-Fine max_jumps payload b offset s i few =
    let pointer = b % 64 * 256 + byte_at payload (s.pos + 1) in
    let size = length payload in
    let refused = ltb max_jumps (s.jumps + 1) || leb size pointer || nat_beq pointer s.pos in
    if_elim {x = breaks s} {y = if refused then breaks (jump s.pos s) else goes_on (jump pointer s)}
      (Fine max_jumps offset size s) (leb size (s.pos + 1)) (λ short. i)
      (λ whole.
        let fits : s.pos + 2 ≤ size = ground arith in
        if_elim {x = breaks (jump s.pos s)} {y = goes_on (jump pointer s)}
          (Fine max_jumps offset size s) refused
          (λ stops. jump-Inside offset size s.pos s i fits i.pos_inside)
          (λ jumps. (
            jump-Inside offset size pointer s i fits (ground arith),
            (omega arith, (ground arith, few)),
          )))

moved-Inside :
    (offset size pos : ℕ) (s : Reading)
    → Inside offset size s
    → s.pos ≤ pos
    → pos ≤ size
    → Inside offset size (at_pos pos s)
moved-Inside offset size pos s i ahead inside = record {
  pos_inside = inside;
  before_pointer = λ h. omega (arith, i.before_pointer h);
  after_pointer = i.after_pointer;
}

label-Inside :
    (payload : Bytes) (b offset : ℕ) (s : Reading)
    → Inside offset (length payload) s
    → s.pos + 1 + b ≤ length payload
    → Inside offset (length payload) (add_label payload b s)
label-Inside payload b offset s i fits = record {
  pos_inside = fits;
  before_pointer = λ h. omega (arith, i.before_pointer h);
  after_pointer = i.after_pointer;
}

read_label-Fine :
    (max_jumps : ℕ) (payload : Bytes) (b offset : ℕ) (s : Reading)
    → Inside offset (length payload) s
    → s.pos + 1 ≤ length payload
    → s.jumps ≤ max_jumps
    → Fine max_jumps offset (length payload) s (read_label payload b s)
unfolding Fine read_label
read_label-Fine max_jumps payload b offset s i here few =
    let size = length payload in
    let longer = add_label payload b s in
    let more : length longer.labels ≡ length s.labels + 1 =
      length-append s.labels (slice payload (s.pos + 1) (s.pos + 1 + b) ∷ []) in
    if_elim {x = breaks (at_pos (s.pos + 1) s)}
      {y = if ltb 128 (length longer.labels) then breaks longer else goes_on longer}
      (Fine max_jumps offset size s) (ltb size (s.pos + 1 + b))
      (λ cut. moved-Inside offset size (s.pos + 1) s i (omega arith) here)
      (λ whole.
        let fits : s.pos + 1 + b ≤ size = ground arith in
        if_elim {x = breaks longer} {y = goes_on longer} (Fine max_jumps offset size s)
          (ltb 128 (length longer.labels)) (λ full. label-Inside payload b offset s i fits)
          (λ room.
            (label-Inside payload b offset s i fits, (omega (arith, more), (few, ground arith)))))

pub read_round-Fine :
    (max_jumps : ℕ) (payload : Bytes) (offset : ℕ) (s : Reading)
    → Inside offset (length payload) s
    → s.jumps ≤ max_jumps
    → length s.labels ≤ 128
    → Fine max_jumps offset (length payload) s (read_round max_jumps payload s)
unfolding Fine read_round
read_round-Fine max_jumps payload offset s i few_jumps few_labels =
    let size = length payload in
    let b = byte_at payload s.pos in
    let inner = if is_pointer b then follow max_jumps payload b s else read_label payload b s in
    if_elim {x = breaks s} {y = if nat_beq b 0 then breaks (end_of_name s) else inner}
      (Fine max_jumps offset size s) (leb size s.pos) (λ past. i)
      (λ within.
        let here : s.pos + 1 ≤ size = ground arith in
        if_elim {x = breaks (end_of_name s)} {y = inner} (Fine max_jumps offset size s)
          (nat_beq b 0)
          (λ zero_length. record {
            pos_inside = here;
            before_pointer = λ h. absurd (resume_or_set (s.pos + 1) s h);
            after_pointer =
                resume_or-Inside offset size (s.pos + 1) s i
                  (λ unset. omega (arith, i.before_pointer unset)) here;
          })
          (λ more.
            if_elim {x = follow max_jumps payload b s} {y = read_label payload b s}
              (Fine max_jumps offset size s) (is_pointer b)
              (λ pointer. follow-Fine max_jumps payload b offset s i few_labels)
              (λ label. read_label-Fine max_jumps payload b offset s i here few_jumps)))
