-- ===== src/Web/Cache/Spared.antt =====
-- webserver/server_thread.c: which entries an eviction spares, and how much it evicts.
use ece344_operating_systems.Base.{
  ℕ, ◌+◌, ◌-◌, ◌<◌, ◌≤◌, ◌%◌, ◌^◌, ◌≡◌, refl, sym, ap, ◌∙◌, true, false, some, [], ◌∷◌, arith, ltb,
  leb, leb→le, le→leb, lt→leb, leb→lt, ◌==◌, ==_eq, if◌then◌else◌, Bool-cases, ◌⊎◌, inl, inr,
}
use ece344_operating_systems.Base.Store.{Ptr}
use ece344_operating_systems.Base.Chain.At.{at}
use ece344_operating_systems.Web.Cache.{FileData}
use ece344_operating_systems.Web.Cache.Evicts.{evict_list, evict_sum}
use ece344_operating_systems.Web.Cache.Room.{room_list}
use ece344_operating_systems.Web.Cache.Valid.{Items, files, total}

-- The bytes of the entries in use.
abbrev pub used_total : (Ptr → ℕ) → Items → ℕ
used_total in_use [] = 0
used_total in_use ((_, (p, f)) ∷ xs) =
    let rest = used_total in_use xs in if ltb 0 (in_use p) then f.file_size + rest else rest

abbrev pub AllUsed : (Ptr → ℕ) → Items → Type 0
AllUsed in_use [] = Unit
AllUsed in_use ((_, (p, f)) ∷ xs) = (ltb 0 (in_use p) ≡ true) × AllUsed in_use xs

small_sum : (a b c : ℕ) → a + (b + c) < 2 ^ 64 → (a + b) % 2 ^ 64 ≡ a + b
small_sum a b c lt = omega (arith, lt)

module _ (in_use : Ptr → ℕ) (amount : ℕ) where
  -- An entry in use stays.
  pub evict_list-keeps :
      (evicted : ℕ) (p : Ptr) (f : FileData) (xs : Items)
      → ltb 0 (in_use p) ≡ true
      → at p (files xs) ≡ some f
      → at p (files (evict_list in_use amount evicted xs)) ≡ some f
  evict_list-keeps evicted p f [] used e = e
  evict_list-keeps evicted p f ((n, (q, g)) ∷ xs) used e =
      let evicted' = (evicted + g.file_size) % 2 ^ 64 in
      elim (Bool-cases (p == q)) [
        | inl h ↦
            let used' : ltb 0 (in_use q) ≡ true =
              ap (λ a. ltb 0 (in_use a)) (sym (==_eq p q h)) ∙ used in
            rw (used', h) (sym (ap (λ t. if t then some g else at p (files xs)) h) ∙ e)
        | inr h ↦
            let e' : at p (files xs) ≡ some f =
              sym (ap (λ t. if t then some g else at p (files xs)) h) ∙ e in
            elim (Bool-cases (ltb 0 (in_use q))) [
              | inl k ↦ rw (k, h) (evict_list-keeps evicted p f xs used e')
              | inr k ↦ elim (Bool-cases (leb amount evicted')) [
                | inl enough ↦ rw (k, enough) e'
                | inr more ↦ rw (k, more) (evict_list-keeps evicted' p f xs used e')
              ]
            ]
      ]

  -- The bytes evicted are those that are gone.
  evict_sum-total :
      (evicted : ℕ) (xs : Items)
      → evicted + total xs < 2 ^ 64
      → total (evict_list in_use amount evicted xs) + evict_sum in_use amount evicted xs
        ≡ total xs + evicted
  evict_sum-total evicted [] lt = refl
  evict_sum-total evicted ((n, (p, f)) ∷ xs) lt =
      let evicted' = (evicted + f.file_size) % 2 ^ 64 in
      let exact : evicted' ≡ evicted + f.file_size = small_sum evicted f.file_size (total xs) lt in
      elim (Bool-cases (ltb 0 (in_use p))) [
        | inl k ↦ let r = evict_sum-total evicted xs (omega (arith, lt)) in rw k (omega (arith, r))
        | inr k ↦ elim (Bool-cases (leb amount evicted')) [
          | inl enough ↦ rw (k, enough) (omega (arith, exact))
          | inr more ↦
              let r = evict_sum-total evicted' xs (omega (arith, lt, exact)) in
              rw (k, more) (omega (arith, r, exact))
        ]
      ]

  -- An eviction goes on until enough bytes are evicted, or all that is left is in use.
  evict_sum-enough :
      (evicted : ℕ) (xs : Items)
      → (leb amount (evict_sum in_use amount evicted xs) ≡ true)
        ⊎ AllUsed in_use (evict_list in_use amount evicted xs)
  evict_sum-enough evicted [] = inr tt
  evict_sum-enough evicted ((n, (p, f)) ∷ xs) =
      let evicted' = (evicted + f.file_size) % 2 ^ 64 in
      elim (Bool-cases (ltb 0 (in_use p))) [
        | inl k ↦ rw k (elim (evict_sum-enough evicted xs) [ inl e ↦ inl e | inr a ↦ inr (k, a) ])
        | inr k ↦ elim (Bool-cases (leb amount evicted')) [
          | inl enough ↦ rw (k, enough) (inl enough)
          | inr more ↦ rw (k, more) (evict_sum-enough evicted' xs)
        ]
      ]

  evict_list-used :
      (evicted : ℕ) (xs : Items)
      → used_total in_use (evict_list in_use amount evicted xs) ≡ used_total in_use xs
  evict_list-used evicted [] = refl
  evict_list-used evicted ((n, (p, f)) ∷ xs) =
      let evicted' = (evicted + f.file_size) % 2 ^ 64 in
      elim (Bool-cases (ltb 0 (in_use p))) [
        | inl k ↦ rw (k, k) (ap (λ t. f.file_size + t) (evict_list-used evicted xs))
        | inr k ↦ elim (Bool-cases (leb amount evicted')) [
          | inl enough ↦ rw (k, enough) refl
          | inr more ↦ rw (k, more) (evict_list-used evicted' xs)
        ]
      ]

AllUsed-total :
    (in_use : Ptr → ℕ) (xs : Items) → AllUsed in_use xs → total xs ≡ used_total in_use xs
AllUsed-total in_use [] all = refl
AllUsed-total in_use ((n, (p, f)) ∷ xs) all =
    rw (all.0) (ap (λ t. f.file_size + t) (AllUsed-total in_use xs all.1))

used_total-total : (in_use : Ptr → ℕ) (xs : Items) → used_total in_use xs ≤ total xs
used_total-total in_use [] = omega arith
used_total-total in_use ((n, (p, f)) ∷ xs) =
    let r = used_total-total in_use xs in
    elim (Bool-cases (ltb 0 (in_use p))) [
      | inl k ↦ rw k (omega (arith, r))
      | inr k ↦ rw k (omega (arith, r))
    ]

more_used :
    (used used' total' s max : ℕ)
    → used ≤ total'
    → used ≡ used'
    → max < used' + s
    → max < total' + s
more_used used used' total' s max le e lt = omega (arith, le, e, lt)

enough_left :
    (t s max left sum : ℕ) → t + s - max ≤ sum → left + sum ≡ t + 0 → max < t + s → left + s ≤ max
enough_left t s max left sum le e lt = omega (arith, le, e, lt)

module _ (in_use : Ptr → ℕ) (max file_size : ℕ) (items : Items) where
  abbrev kept : Items
  kept = room_list in_use max file_size items

  abbrev amount : ℕ
  amount = total items + file_size - max

  abbrev left : Items
  left = evict_list in_use amount 0 items

  room_list-used : used_total in_use kept ≡ used_total in_use items
  room_list-used = elim (Bool-cases (leb (total items + file_size) max)) [
    | inl fits ↦ rw fits refl
    | inr full ↦ rw full (evict_list-used in_use amount 0 items)
  ]

  module _ (le : total items ≤ max) (lt : max < 2 ^ 63)
      (room : used_total in_use items + file_size ≤ max) where
    left-fits : leb (total items + file_size) max ≡ false → total left + file_size ≤ max
    left-fits full = elim (evict_sum-enough in_use amount 0 items) [
      | inl e ↦
          enough_left (total items) file_size max (total left) (evict_sum in_use amount 0 items)
            (leb→le amount (evict_sum in_use amount 0 items) e)
            (evict_sum-total in_use amount 0 items (omega (arith, le, lt)))
            (leb→lt (total items + file_size) max full)
      | inr all ↦
          let same = AllUsed-total in_use left all ∙ evict_list-used in_use amount 0 items in
          rw same room
    ]

    kept-fits : leb (total kept + file_size) max ≡ true
    kept-fits = elim (Bool-cases (leb (total items + file_size) max)) [
      | inl fits ↦ rw fits fits
      | inr full ↦ rw full (le→leb (total left + file_size) max (left-fits full))
    ]

  -- Room is made exactly if the entries in use leave it.
  pub room_list-fits :
      total items ≤ max
      → max < 2 ^ 63
      → leb (total kept + file_size) max ≡ leb (used_total in_use items + file_size) max
  room_list-fits le lt = elim (Bool-cases (leb (used_total in_use items + file_size) max)) [
    | inl room ↦ kept-fits le lt (leb→le (used_total in_use items + file_size) max room) ∙ sym room
    | inr none ↦
        let over = leb→lt (used_total in_use items + file_size) max none in
        let at_least = used_total-total in_use kept in
        lt→leb (total kept + file_size) max (
          more_used (used_total in_use kept) (used_total in_use items) (total kept) file_size max
            at_least room_list-used over)
        ∙ sym none
  ]
