-- ===== src/Pipeline/Bounds.antt =====
-- What the packet cache keeps: its retention bound, and which items survive a burst.
use sniff4hound.Prelude.{
  ℕ, suc, ◌+◌, ◌-◌, ◌≤◌, ◌<◌, ◌≡◌, refl, sym, ◌∙◌, ap, inl, inr, Bool, true, false, none, some,
  List, [], ◌∷◌, ◌++◌, arith, ltb, leb, if◌then◌else◌, Bool-cases, length, take, drop,
  length-append, length-drop, drop-nil, take-nil, drop_none, take_none, drop_more, take_more,
}
use mathlib.Core.List.{append-nil, append_assoc}
use mathlib.Core.Path.{ap₂}
use sniff4hound.Prelude.Tests.{ltb→lt, leb→le, leb-false→lt, ltb-false→le}
use sniff4hound.Pipeline.{
  PacketCache, make_room, append_item, put, take_many, get, shrink, popleft, get_from,
}

module _ {ℓ} {A : Type ℓ} where
  -- The loop leaves the newest `limit - 1` items, and counts the others.
  pub make_room_lem :
      (limit : ℕ) (xs : List A) (dropped : ℕ)
      → 0 < limit
      → make_room limit xs dropped
        ≡ some (drop (length xs + 1 - limit) xs, dropped + (length xs + 1 - limit))
  unfolding make_room
  make_room_lem limit [] dropped h = elim (Bool-cases (leb limit 0)) [
    | inl full ↦ absurd (omega (arith, leb→le _ _ full))
    | inr free ↦
        rw free (ap₂ (λ ys d. some (ys, d)) (sym (drop-nil {A = A} (1 - limit))) (omega arith))
  ]
  make_room_lem limit (x ∷ xs) dropped h = elim (Bool-cases (leb limit (suc (length xs)))) [
    | inl full ↦
        let most : limit ≤ suc (length xs) = leb→le _ _ full in
        rw full (
          make_room_lem limit xs (dropped + 1) h
          ∙ ap₂ (λ ys d. some (ys, d))
              (sym (
                drop_more (suc (length xs) + 1 - limit) (length xs + 1 - limit) x xs (omega arith)))
              (omega arith))
    | inr free ↦
        let most : suc (length xs) < limit = leb-false→lt _ _ free in
        rw free (
          ap₂ (λ ys d. some (ys, d))
            (sym (drop_none (suc (length xs) + 1 - limit) (x ∷ xs) (omega arith))) (omega arith))
  ]

  pub shrink_lem :
      (limit : ℕ) (xs : List A) (dropped : ℕ)
      → shrink limit xs dropped ≡ (drop (length xs - limit) xs, dropped + (length xs - limit))
  unfolding shrink
  shrink_lem limit [] dropped =
      ap₂ (λ ys d. (ys, d)) (sym (drop-nil {A = A} (0 - limit))) (omega arith)
  shrink_lem limit (x ∷ xs) dropped = elim (Bool-cases (ltb limit (suc (length xs)))) [
    | inl over ↦
        let most : limit < suc (length xs) = ltb→lt _ _ over in
        rw over (
          shrink_lem limit xs (dropped + 1)
          ∙ ap₂ (λ ys d. (ys, d))
              (sym (drop_more (suc (length xs) - limit) (length xs - limit) x xs (omega arith)))
              (omega arith))
    | inr fits ↦
        let most : suc (length xs) ≤ limit = ltb-false→le _ _ fits in
        rw fits (
          ap₂ (λ ys d. (ys, d)) (sym (drop_none (suc (length xs) - limit) (x ∷ xs) (omega arith)))
            (omega arith))
  ]

  pub take_many_lem :
      (limit : ℕ) (taken xs : List A)
      → length taken ≤ limit
      → take_many limit taken xs
        ≡ (taken ++ take (limit - length taken) xs, drop (limit - length taken) xs)
  unfolding take_many
  take_many_lem limit taken [] h =
      ap₂ (λ ys zs. (ys, zs))
        (sym (append-nil taken) ∙ ap (◌++◌ taken) (sym (take-nil {A = A} (limit - length taken))))
        (sym (drop-nil {A = A} (limit - length taken)))
  take_many_lem limit taken (x ∷ xs) h = elim (Bool-cases (ltb (length taken) limit)) [
    | inl room ↦
        let more : length taken < limit = ltb→lt _ _ room in
        let one = length-append taken (x ∷ []) in
        let next : ℕ = limit - length (taken ++ x ∷ []) in
        let left : limit - length taken ≡ suc next = omega arith in
        rw room (
          take_many_lem limit (taken ++ x ∷ []) xs (omega arith)
          ∙ ap₂ (λ ys zs. (ys, zs))
              (append_assoc taken (x ∷ []) (take next xs)
                ∙ ap (◌++◌ taken) (sym (take_more (limit - length taken) next x xs left)))
              (sym (drop_more (limit - length taken) next x xs left)))
    | inr full ↦
        let none_left : limit ≤ length taken = ltb-false→le _ _ full in
        let left : limit - length taken ≡ 0 = omega arith in
        rw full (
          ap₂ (λ ys zs. (ys, zs))
            (sym (append-nil taken) ∙ ap (◌++◌ taken) (sym (take_none _ (x ∷ xs) left)))
            (sym (drop_none _ (x ∷ xs) left)))
  ]

  pub put_closed : (c : PacketCache A) (x : A) → c.closed ≡ true → put c x ≡ some (c, false)
  unfolding put
  put_closed c x shut = simp shut

  pub put_lem :
      (c : PacketCache A) (x : A)
      → c.closed ≡ false
      → 0 < c.limit
      → put c x
        ≡ some (
          append_item c x (
            drop (length c.items + 1 - c.limit) c.items,
            c.dropped + (length c.items + 1 - c.limit),
          ),
          true,
        )
  unfolding put
  put_lem c x open_ h = simp (open_, make_room_lem c.limit c.items c.dropped h)

  abbrev now : PacketCache A → PacketCache A
  now c = c

  pub popleft_empty : (c : PacketCache A) (xs : List A) → xs ≡ [] → popleft c xs ≡ (c, none)
  popleft_empty c [] e = refl
  popleft_empty c (x ∷ xs) e = cc

  pub get_empty : (c : PacketCache A) → c.items ≡ [] → get now c ≡ (c, none)
  unfolding get
  get_empty c e = ap (get_from now c) e ∙ given_up c.closed
    where
      given_up : (b : Bool) → (if b then (c, none) else popleft c c.items) ≡ (c, none)
      given_up true = refl
      given_up false = popleft_empty c c.items e

  pub get_oldest :
      (c : PacketCache A) (x : A) (xs : List A)
      → c.items ≡ x ∷ xs
      → get now c ≡ (record c { items = xs }, some x)
  unfolding get
  get_oldest c x xs e = ap (get_from now c) e

-- The retention bound holds, the peak is no less than what waits, and a closed cache is empty.
pub record Inv {ℓ} {A : Type ℓ} (c : PacketCache A) : Type ℓ where
  pub bounded : length c.items ≤ c.limit
  pub peaked : length c.items ≤ c.peak
  pub drained : c.closed ≡ true → c.items ≡ []

module _ {ℓ} {A : Type ℓ} where
  pub append_item-Inv :
      (c : PacketCache A) (x : A)
      → c.closed ≡ false
      → 0 < c.limit
      → Inv (
          append_item c x (
            drop (length c.items + 1 - c.limit) c.items,
            c.dropped + (length c.items + 1 - c.limit),
          ))
  append_item-Inv c x open_ h =
      let n : ℕ = length c.items + 1 - c.limit in
      let sum = length-append (drop n c.items) (x ∷ []) in
      let less = length-drop n c.items in
      record { bounded = omega arith; peaked = omega arith; drained = λ e. cc }

  -- Taking items from the front keeps the invariant.
  pub tail-Inv :
      (c : PacketCache A) (x : A) (xs : List A)
      → c.items ≡ x ∷ xs
      → Inv c
      → Inv (record c { items = xs })
  tail-Inv c x xs e v =
      let n = ap length e in
      record { bounded = omega arith; peaked = omega arith; drained = λ d. cc (v.drained d) }

  pub shrink-Inv :
      (c : PacketCache A) (n m : ℕ)
      → Inv c
      → Inv (record c { items = drop (length c.items - n) c.items; limit = n; dropped = m })
  shrink-Inv c n m v =
      let less = length-drop (length c.items - n) c.items in
      record {
        bounded = omega arith;
        peaked = omega arith;
        drained = λ e.
            ap (drop (length c.items - n)) (v.drained e) ∙ drop-nil {A = A} (length c.items - n);
      }

  pub drop-Inv : (c : PacketCache A) (n : ℕ) → Inv c → Inv (record c { items = drop n c.items })
  drop-Inv c n v =
      let less = length-drop n c.items in
      record {
        bounded = omega arith;
        peaked = omega arith;
        drained = λ e. ap (drop n) (v.drained e) ∙ drop-nil {A = A} n;
      }
