-- ===== src/Wire/Total.antt =====
-- Reading a compressed name ends, and leaves the reader inside the payload (sniff4hound/sniffer.py,
-- `_read_dns_name`).
use sniff4hound.Prelude.Text.{Text}
use sniff4hound.Wire.Bytes.{Bytes}
use sniff4hound.Wire.DnsName.{
  Reading, Round, breaks, goes_on, read_round, read_loop, read_result, rounds, read_dns_name,
  beginning, name_of,
}
use sniff4hound.Prelude.{
  ℕ, zero, suc, ◌+◌, ◌≤◌, ◌≡◌, refl, ap, ◌∙◌, inl, inr, some, arith, length, Option-cases, get_or,
  number_eq, pair_eq,
}
use sniff4hound.Wire.Rounds.{Inside, spent, Fine, read_round-Fine}

pub read_loop_breaks :
    (fuel max_jumps : ℕ) (payload : Bytes) (s last : Reading)
    → read_round max_jumps payload s ≡ breaks last
    → read_loop (suc fuel) max_jumps payload s ≡ some last
unfolding read_loop
read_loop_breaks fuel max_jumps payload s last e = rw (e, read_loop)

pub read_loop_goes_on :
    (fuel max_jumps : ℕ) (payload : Bytes) (s next : Reading)
    → read_round max_jumps payload s ≡ goes_on next
    → read_loop (suc fuel) max_jumps payload s ≡ read_loop fuel max_jumps payload next
unfolding read_loop
read_loop_goes_on fuel max_jumps payload s next e = rw (e, read_loop)

beginning-Inside : (offset size : ℕ) → offset ≤ size → Inside offset size (beginning offset)
beginning-Inside offset size h = record {
  pos_inside = h;
  before_pointer = λ e. omega arith;
  after_pointer = λ at e. absurd (cc e);
}

resumes :
    (offset size : ℕ) (s : Reading)
    → Inside offset size s
    → (offset ≤ get_or s.resume_at s.pos) × (get_or s.resume_at s.pos ≤ size)
resumes offset size s i = elim (Option-cases s.resume_at) [
  | inl unset ↦ rw unset (i.before_pointer unset, i.pos_inside)
  | inr set ↦ rw set.1 (i.after_pointer set.0 set.1)
]

read_loop-Inside :
    (fuel max_jumps : ℕ) (payload : Bytes) (offset : ℕ) (s : Reading)
    → Inside offset (length payload) s
    → s.jumps ≤ max_jumps
    → length s.labels ≤ 128
    → max_jumps + 129 ≤ spent s + fuel
    → (last : Reading) × ((read_loop fuel max_jumps payload s ≡ some last)
        × Inside offset (length payload) last)
unfolding read_loop Fine
read_loop-Inside zero max_jumps payload offset s i jumps labels enough = absurd (omega arith)
read_loop-Inside (suc fuel) max_jumps payload offset s i jumps labels enough =
    go (read_round max_jumps payload s) refl
      (read_round-Fine max_jumps payload offset s i jumps labels)
      (λ next. read_loop-Inside fuel max_jumps payload offset next)
  where
    go :
        (round : Round)
        → read_round max_jumps payload s ≡ round
        → Fine max_jumps offset (length payload) s round
        → ((next : Reading)
            → Inside offset (length payload) next
            → next.jumps ≤ max_jumps
            → length next.labels ≤ 128
            → max_jumps + 129 ≤ spent next + fuel
            → (last : Reading) × ((read_loop fuel max_jumps payload next ≡ some last)
                × Inside offset (length payload) last))
        → (last : Reading) × ((read_loop (suc fuel) max_jumps payload s ≡ some last)
            × Inside offset (length payload) last)
    go (breaks last) e f again = (last, (read_loop_breaks fuel max_jumps payload s last e, f))
    go (goes_on next) e f again =
        let rest = again next f.0 f.1.1.0 f.1.1.1 (omega (arith, f.1.0)) in
        (rest.0, (read_loop_goes_on fuel max_jumps payload s next e ∙ rest.1.0, rest.1.1))

-- Whatever the payload holds, pointers that run in circles included, reading a name ends within the rounds
-- given, and the offset at which the caller goes on lies between where the name began and the end
-- of the payload.
pub read_dns_name-Inside :
    (max_jumps : ℕ) (payload : Bytes) (offset : ℕ)
    → offset ≤ length payload
    → (name : Text) × (resume : ℕ) × ((read_dns_name max_jumps payload offset ≡ some (name, resume))
        × ((offset ≤ resume) × (resume ≤ length payload)))
unfolding read_dns_name
read_dns_name-Inside max_jumps payload offset h =
    let read =
      read_loop-Inside (rounds max_jumps) max_jumps payload offset (beginning offset)
        (beginning-Inside offset (length payload) h) (omega arith) (omega arith) (omega arith) in
    let last = read.0 in
    (
      name_of last.labels,
      get_or last.resume_at last.pos,
      (ap read_result read.1.0, resumes offset (length payload) last read.1.1),
    )
