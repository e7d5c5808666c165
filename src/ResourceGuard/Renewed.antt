-- ===== src/ResourceGuard/Renewed.antt =====
-- sniff4hound/resource_guard.py: after a pause that it has ended the guard counts from the beginning.
use native.Mathlib.Nat.{mul-le-mul_left}
use sniff4hound.Prelude.{
  ℕ, ◌&&◌, ◌||◌, ◌∙◌, ◌↔◌, nat_beq, ◌*◌, ◌≤◌, ◌<◌, ◌≡◌, refl, sym, ap, Bool, true, false, arith,
  inl, inr, Bool-cases, subst,
}
use sniff4hound.ResourceGuard.{
  Kind, of_kind, trip, trip_samples, is_over, PerKind, none_of_each, Config, Guard, count_over,
  count_all, exceeded_of, is_high, below_resume, resume, is_nonempty, observe, decide, sample,
}
use sniff4hound.ResourceGuard.Pauses.{trips_now, resumes_now, waits, decide-Decision, sample_elim}

percent_lem : (limit percent : ℕ) → percent < 100 → limit * percent ≤ limit * 100
percent_lem limit percent h = mul-le-mul_left limit (omega arith)

low_count :
    (percent limit tenths n : ℕ)
    → percent < 100
    → is_high percent limit tenths ≡ false
    → count_over limit tenths n ≡ 0
low_count percent limit tenths n h low = let le = percent_lem limit percent h in ground (arith, le)

low_counts :
    (limits measured : PerKind) (percent : ℕ) (over : PerKind)
    → percent < 100
    → below_resume limits measured percent ≡ true
    → count_all limits measured over ≡ none_of_each
unfolding below_resume count_all
low_counts l m percent v h low =
    let c = low_count percent l.cpu_of m.cpu_of v.cpu_of h (ground arith) in
    let r = low_count percent l.ram_of m.ram_of v.ram_of h (ground arith) in
    let s = low_count percent l.storage_of m.storage_of v.storage_of h (ground arith) in cc

-- The sample that ends a pause leaves no counts.
resumed-over :
    (c : Config) (m : PerKind) (writes : Bool) (now : ℕ) (g : Guard)
    → c.resume_percent < 100
    → g.paused_by_guard ≡ true
    → (sample c m writes now g).paused_by_guard ≡ false
    → (sample c m writes now g).over ≡ none_of_each
unfolding observe
resumed-over c m writes now g share paused =
    let o : Guard = observe c m g in
    let P : Guard → Type 0 = λ h. h.paused_by_guard ≡ false → h.over ≡ none_of_each in
    sample_elim P c m writes now g (λ h k. k)
      (elim (decide-Decision c m now o) [
        | trips_now free full e ↦ cc (free, paused)
        | resumes_now held cool low e ↦
            subst P (sym e)
              (unfold resume in λ f. low_counts c.limits m c.resume_percent g.over share low)
        | waits e ↦ λ f. cc (ap (λ h. h.paused_by_guard) e, f, paused)
      ])

-- What a sample makes of a guard that does not pause the capture.
record Counts (limits m over : PerKind) (after : Guard) : Type 0 where
  counted : after.over ≡ count_all limits m over
  pauses : after.paused_by_guard ≡ is_nonempty (exceeded_of (count_all limits m over))

sample-Counts :
    (c : Config) (m : PerKind) (writes : Bool) (now : ℕ) (g : Guard)
    → g.paused_by_guard ≡ false
    → Counts c.limits m g.over (sample c m writes now g)
sample-Counts c m writes now g free =
    sample_elim (Counts c.limits m g.over) c m writes now g
      (λ h k. record { counted = k.counted; pauses = k.pauses })
      (unfold decide observe in
        elim (Bool-cases (is_nonempty (exceeded_of (count_all c.limits m g.over)))) [
          | inl full ↦ rw (full, free) (unfold trip in record { counted = refl; pauses = sym full })
          | inr empty ↦ rw (empty, free) (record { counted = refl; pauses = sym empty })
        ])

some_exceeded :
    (over : PerKind)
    → is_nonempty (exceeded_of over) ≡ (
        nat_beq over.cpu_of trip_samples
        || nat_beq over.ram_of trip_samples
        || nat_beq over.storage_of trip_samples)
unfolding exceeded_of
some_exceeded over = ground arith

-- A kind is over its limit, when there is one.
abbrev pub Over : Config → PerKind → Kind → Type 0
Over c m k = (0 < of_kind c.limits k) × (of_kind c.limits k * 10 < of_kind m k)

first_count : (limit tenths : ℕ) → nat_beq (count_over limit tenths 0) trip_samples ≡ false
first_count limit tenths = ground arith

second_count :
    (a b c d : ℕ)
    → nat_beq (count_over c d (count_over a b 0)) trip_samples ≡ (is_over a b && is_over c d)
second_count a b c d = ground arith

first_sample :
    (limits m : PerKind) → is_nonempty (exceeded_of (count_all limits m none_of_each)) ≡ false
unfolding count_all
first_sample limits m =
    some_exceeded (count_all limits m none_of_each)
    ∙ rw
        (
          first_count limits.cpu_of m.cpu_of,
          first_count limits.ram_of m.ram_of,
          first_count limits.storage_of m.storage_of,
        )
        refl

abbrev both_over : Config → PerKind → Config → PerKind → Kind → Bool
both_over c m c' m' k =
    is_over (of_kind c.limits k) (of_kind m k) && is_over (of_kind c'.limits k) (of_kind m' k)

second_sample :
    (c : Config) (m : PerKind) (c' : Config) (m' : PerKind)
    → is_nonempty (exceeded_of (count_all c'.limits m' (count_all c.limits m none_of_each))) ≡ (
        both_over c m c' m' Kind.cpu
        || both_over c m c' m' Kind.ram
        || both_over c m c' m' Kind.storage)
unfolding count_all
second_sample c m c' m' =
    some_exceeded (count_all c'.limits m' (count_all c.limits m none_of_each))
    ∙ rw
        (
          second_count c.limits.cpu_of m.cpu_of c'.limits.cpu_of m'.cpu_of,
          second_count c.limits.ram_of m.ram_of c'.limits.ram_of m'.ram_of,
          second_count c.limits.storage_of m.storage_of c'.limits.storage_of m'.storage_of,
        )
        refl

both-Over :
    (c : Config) (m : PerKind) (c' : Config) (m' : PerKind) (k : Kind)
    → both_over c m c' m' k ≡ true
    → Over c m k × Over c' m' k
both-Over c m c' m' k h =
    ((ground (arith, h), ground (arith, h)), (ground (arith, h), ground (arith, h)))

Over-both :
    (c : Config) (m : PerKind) (c' : Config) (m' : PerKind) (k : Kind)
    → Over c m k
    → Over c' m' k
    → both_over c m c' m' k ≡ true
Over-both c m c' m' k h h' = ground (arith, h.0, h.1, h'.0, h'.1)

some_kind :
    (test : Kind → Bool)
    → ((test Kind.cpu || test Kind.ram || test Kind.storage) ≡ true)
      ↔ ((k : Kind) × (test k ≡ true))
some_kind test = (
  λ h. elim (Bool-cases (test Kind.cpu)) [
    | inl is ↦ (Kind.cpu, is)
    | inr not_cpu ↦ elim (Bool-cases (test Kind.ram)) [
      | inl is ↦ (Kind.ram, is)
      | inr not_ram ↦ (Kind.storage, ground (arith, h, not_cpu, not_ram))
    ]
  ],
  λ found. of found.0 found.1,
)
  where
    of : (k : Kind) → test k ≡ true → (test Kind.cpu || test Kind.ram || test Kind.storage) ≡ true
    of Kind.cpu h = rw h refl
    of Kind.ram h = ground (arith, h)
    of Kind.storage h = ground (arith, h)

-- With a share below 100 per cent, the guard begins anew after a pause that it has ended: the next sample
-- never pauses the capture again, whatever it measures, and the one after it does exactly when some kind is
-- over its limit in both.
pub sample-Resumed :
    (c c' c2 : Config) (m m' m2 : PerKind) (writes writes' writes2 : Bool) (now now' now2 : ℕ)
    (g : Guard)
    → c.resume_percent < 100
    → g.paused_by_guard ≡ true
    → (sample c m writes now g).paused_by_guard ≡ false
    → let next = sample c' m' writes' now' (sample c m writes now g) in
      (next.paused_by_guard ≡ false)
      × (((sample c2 m2 writes2 now2 next).paused_by_guard ≡ true)
          ↔ ((k : Kind) × (Over c' m' k × Over c2 m2 k)))
sample-Resumed c c' c2 m m' m2 writes writes' writes2 now now' now2 g share paused ended =
    let after = sample c m writes now g in
    let none_left = resumed-over c m writes now g share paused ended in
    let next = sample c' m' writes' now' after in
    let counts = sample-Counts c' m' writes' now' after ended in
    let free : next.paused_by_guard ≡ false =
      counts.pauses
      ∙ ap (λ over. is_nonempty (exceeded_of (count_all c'.limits m' over))) none_left
      ∙ first_sample c'.limits m' in
    let decides =
      (sample-Counts c2 m2 writes2 now2 next free).pauses
      ∙ ap (λ over. is_nonempty (exceeded_of (count_all c2.limits m2 over)))
          (counts.counted ∙ ap (count_all c'.limits m') none_left)
      ∙ second_sample c' m' c2 m2 in
    let kinds = some_kind (both_over c' m' c2 m2) in
    (
      free,
      (
        λ h. let (k, both) = kinds.0 (sym decides ∙ h) in (k, both-Over c' m' c2 m2 k both),
        λ found. decides ∙ kinds.1 (found.0, Over-both c' m' c2 m2 found.0 found.1.0 found.1.1),
      ),
    )
