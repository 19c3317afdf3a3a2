-- ===== src/ExpertCache/Victim.antt =====
-- What `_victim` returns: a free slot if there is one, else the least recently used of those that
-- may be taken.
use mathlib.Core.Path.{subst, sym}
use vllm_exl3_plugin.Base.{
  ℕ, zero, suc, ◌+◌, ◌≤◌, ◌<◌, ◌≡◌, ◌⊎◌, inl, inr, ◌≢◌, refl, true, false, ◌&&◌, not, Option, none,
  some, arith, ltb, Option-cases, Bool-cases, dec_lt,
}
use vllm_exl3_plugin.ExpertCache.State.{Layout, Cache, capacity}
use vllm_exl3_plugin.ExpertCache.Lru.{first_free, used_since, older, Best, consider, oldest, victim}

first_free-eq-some :
    (owners : ℕ → Option ℕ) (s n t : ℕ)
    → first_free owners s n ≡ some t
    → (s ≤ t) × (t < s + n) × (owners t ≡ none)
unfolding first_free
first_free-eq-some owners s zero t h = absurd (ground arith)
first_free-eq-some owners s (suc n) t h = elim (Option-cases (owners s)) [
  | inl e ↦ ground arith
  | inr (o, e) ↦
      let (a, b, f) = first_free-eq-some owners (suc s) n t (ground arith) in
      (omega arith, omega arith, f)
]

first_free-eq-none :
    (owners : ℕ → Option ℕ) (s n t : ℕ)
    → first_free owners s n ≡ none
    → s ≤ t
    → t < s + n
    → (e : ℕ) × (owners t ≡ some e)
unfolding first_free
first_free-eq-none owners s zero t h a b = absurd (omega arith)
first_free-eq-none owners s (suc n) t h a b = elim (Option-cases (owners s)) [
  | inl e ↦ absurd (ground arith)
  | inr (o, e) ↦ elim (dec_lt s t) [
    | yes p ↦ first_free-eq-none owners (suc s) n t (ground arith) (omega arith) (omega arith)
    | no p ↦ let same : s ≡ t = omega arith in (o, ground arith)
  ]
]

-- The place of a last use in time, from 0 for never.
abbrev pub age : Option ℕ → ℕ
age none = 0
age (some t) = suc t

older-age : (a b : Option ℕ) → older a b ≡ ltb (age a) (age b)
older-age none none = refl
older-age none (some t) = ground arith
older-age (some t) none = ground arith
older-age (some t) (some u) = ground arith

module _ (c : Cache) (l : ℕ) where
  -- A slot whose expert's copy has landed and that was not routed in the step being planned from.
  pub record Takeable (s : ℕ) (e : ℕ) : Type 0 where
    pub owned : c.owner l s ≡ some e
    pub live : c.live l e ≡ true
    pub unrouted : used_since (c.last_use l e) c.clock ≡ false

  consider-eq-none :
      (s : ℕ) (best : Best)
      → consider c l s best ≡ none
      → (best ≡ none) × ((e : ℕ) → ¬ Takeable s e)
  unfolding consider
  consider-eq-none s none h = (refl, λ e t. ground arith)
  consider-eq-none s (some (b, u)) h = absurd (ground arith)

  consider-eq-some :
      (s : ℕ) (best : Best) (b : ℕ) (u : Option ℕ)
      → consider c l s best ≡ some (b, u)
      → ((best ≡ some (b, u)) ⊎ ((e : ℕ) × (b ≡ s) × Takeable s e × (c.last_use l e ≡ u)))
        × ((e : ℕ) → Takeable s e → age u ≤ age (c.last_use l e))
        × ((b' : ℕ) (u' : Option ℕ) → best ≡ some (b', u') → age u ≤ age u')
  unfolding consider
  consider-eq-some s none b u h = elim (Option-cases (c.owner l s)) [
    | inl o ↦ absurd (ground arith)
    | inr (e, o) ↦ (
      inr (e, ground arith, ground arith, ground arith),
      λ e' t. let same : e' ≡ e = ground (arith, t.owned) in ground arith,
      λ b' u' f. absurd (ground arith),
    )
  ]
  consider-eq-some s (some (b0, u0)) b u h = elim (Option-cases (c.owner l s)) [
    | inl o ↦
        (inl (ground arith), λ e' t. absurd (ground (arith, t.owned)), λ b' u' f. ground arith)
    | inr (e, o) ↦
        elim (Bool-cases
          (c.live l e && not (used_since (c.last_use l e) c.clock) && older (c.last_use l e) u0)) [
            | inl taken ↦ (
              inr (e, ground arith, ground arith, ground arith),
              λ e' t. let same : e' ≡ e = ground (arith, t.owned) in ground arith,
              λ b' u' f. ground (arith, older-age (c.last_use l e) u0),
            )
            | inr kept ↦ (
              inl (ground arith),
              λ e' t.
                  let same : e' ≡ e = ground (arith, t.owned) in
                  ground (arith, t.live, t.unrouted, older-age (c.last_use l e) u0),
              λ b' u' f. ground arith,
            )
          ]
  ]

  oldest-eq-none :
      (s n : ℕ) (best : Best)
      → oldest c l s n best ≡ none
      → (best ≡ none) × ((t e : ℕ) → s ≤ t → t < s + n → ¬ Takeable t e)
  unfolding oldest
  oldest-eq-none s zero best h = (h, λ t e a b k. omega arith)
  oldest-eq-none s (suc n) best h =
      let (stays, later) = oldest-eq-none (suc s) n (consider c l s best) h in
      let (start, here) = consider-eq-none s best stays in
      (
        start,
        λ t e a b k. elim (dec_lt s t) [
          | yes p ↦ later t e (omega arith) (omega arith) k
          | no p ↦ let same : t ≡ s = omega arith in here e (subst (λ x. Takeable x e) same k)
        ],
      )

  abbrev Origin : ℕ → ℕ → Best → ℕ → Option ℕ → Type 0
  Origin s n best b u =
      (best ≡ some (b, u)) ⊎ ((e : ℕ) × (s ≤ b) × (b < s + n) × Takeable b e × (c.last_use l e ≡ u))

  later-Origin :
      (s n : ℕ) (best : Best) (b : ℕ) (u : Option ℕ)
      → consider c l s best ≡ none
      → Origin (suc s) n (consider c l s best) b u
      → (e : ℕ) × (s ≤ b) × (b < s + suc n) × Takeable b e × (c.last_use l e ≡ u)
  later-Origin s n best b u h (inl f) = absurd (ground arith)
  later-Origin s n best b u h (inr (e, p, q, k, f)) = (e, omega arith, omega arith, k, f)

  join-Origin :
      (s n : ℕ) (best : Best) (b : ℕ) (u : Option ℕ) (b1 : ℕ) (u1 : Option ℕ)
      → consider c l s best ≡ some (b1, u1)
      → Origin (suc s) n (consider c l s best) b u
      → (best ≡ some (b1, u1)) ⊎ ((e : ℕ) × (b1 ≡ s) × Takeable s e × (c.last_use l e ≡ u1))
      → Origin s (suc n) best b u
  join-Origin s n best b u b1 u1 h (inr (e, p, q, k, f)) o = inr (e, omega arith, omega arith, k, f)
  join-Origin s n best b u b1 u1 h (inl f) (inl g) = inl (ground arith)
  join-Origin s n best b u b1 u1 h (inl f) (inr (e, p, k, g)) =
      let same : b ≡ s = ground arith in
      inr (e, omega arith, omega arith, subst (λ x. Takeable x e) (sym same) k, ground arith)

  oldest-eq-some :
      (s n : ℕ) (best : Best) (b : ℕ) (u : Option ℕ)
      → oldest c l s n best ≡ some (b, u)
      → Origin s n best b u
        × ((t e : ℕ) → s ≤ t → t < s + n → Takeable t e → age u ≤ age (c.last_use l e))
        × ((b' : ℕ) (u' : Option ℕ) → best ≡ some (b', u') → age u ≤ age u')
  unfolding oldest
  oldest-eq-some s zero best b u h =
      (inl h, λ t e p q k. absurd (omega arith), λ b' u' f. ground arith)
  oldest-eq-some s (suc n) best b u h =
      let (from, least, below) = oldest-eq-some (suc s) n (consider c l s best) b u h in
      elim (Option-cases (consider c l s best)) [
        | inl e1 ↦
            let (start, here) = consider-eq-none s best e1 in
            (
              inr (later-Origin s n best b u e1 from),
              λ t e p q k. elim (dec_lt s t) [
                | yes r ↦ least t e (omega arith) (omega arith) k
                | no r ↦
                    let same : t ≡ s = omega arith in
                    absurd (here e (subst (λ x. Takeable x e) same k))
              ],
              λ b' u' f. absurd (ground arith),
            )
        | inr ((b1, u1), e1) ↦
            let (origin, here, prior) = consider-eq-some s best b1 u1 e1 in
            let down : age u ≤ age u1 = below b1 u1 e1 in
            (
              join-Origin s n best b u b1 u1 e1 from origin,
              λ t e p q k. elim (dec_lt s t) [
                | yes r ↦ least t e (omega arith) (omega arith) k
                | no r ↦
                    let same : t ≡ s = omega arith in
                    omega (arith, here e (subst (λ x. Takeable x e) same k))
              ],
              λ b' u' f. omega (arith, prior b' u' f),
            )
      ]

abbrev pub Chosen : Layout → Cache → ℕ → ℕ → Type 0
Chosen K c l s =
    (e : ℕ) × Takeable c l s e
    × ((t e' : ℕ)
        → t < capacity K l
        → Takeable c l t e'
        → age (c.last_use l e) ≤ age (c.last_use l e'))

taken_victim :
    (K : Layout) (c : Cache) (l s b : ℕ) (u : Option ℕ)
    → b ≡ s
    → ((t : ℕ) → t < capacity K l → c.owner l t ≢ none)
    → Origin c l 0 (capacity K l) none b u
    → ((t e : ℕ) → 0 ≤ t → t < 0 + capacity K l → Takeable c l t e → age u ≤ age (c.last_use l e))
    → (s < capacity K l)
      × ((c.owner l s ≡ none)
          ⊎ (((t : ℕ) → t < capacity K l → c.owner l t ≢ none) × Chosen K c l s))
taken_victim K c l s b u same full (inl f) least = absurd (ground arith)
taken_victim K c l s b u same full (inr (e, p, q, k, f)) least = (
  omega arith,
  inr (
    full,
    (
      e,
      subst (λ x. Takeable c l x e) same k,
      λ t e' r k'. rw f (least t e' (omega arith) (omega arith) k'),
    ),
  ),
)

-- The slot that `_victim` returns exists. It is free, or no slot is free and it holds an expert
-- that may be taken, used no later than any other expert that may be taken.
pub victim-eq-some :
    (K : Layout) (c : Cache) (l s : ℕ)
    → victim K c l ≡ some s
    → (s < capacity K l)
      × ((c.owner l s ≡ none)
          ⊎ (((t : ℕ) → t < capacity K l → c.owner l t ≢ none) × Chosen K c l s))
unfolding victim
victim-eq-some K c l s h = elim (Option-cases (first_free (c.owner l) 0 (capacity K l))) [
  | inr (t, f) ↦
      let same : t ≡ s = ground arith in
      let (a, b, free) = first_free-eq-some (c.owner l) 0 (capacity K l) t f in
      (omega arith, inl (rw (← same) free))
  | inl f ↦ elim (Option-cases (oldest c l 0 (capacity K l) none)) [
    | inl g ↦ absurd (ground arith)
    | inr ((b, u), g) ↦
        let same : b ≡ s = ground arith in
        let (origin, least, _) = oldest-eq-some c l 0 (capacity K l) none b u g in
        taken_victim K c l s b u same
          (λ t p.
            let (e, held) =
              first_free-eq-none (c.owner l) 0 (capacity K l) t f (omega arith) (omega arith) in
            ground arith)
          origin least
  ]
]

-- No slot is returned only if every slot is held by an expert that may not be taken.
pub victim-eq-none :
    (K : Layout) (c : Cache) (l t : ℕ)
    → victim K c l ≡ none
    → t < capacity K l
    → (e : ℕ) × (c.owner l t ≡ some e) × (¬ Takeable c l t e)
unfolding victim
victim-eq-none K c l t h b = elim (Option-cases (first_free (c.owner l) 0 (capacity K l))) [
  | inr (f, e) ↦ absurd (ground arith)
  | inl free ↦ elim (Option-cases (oldest c l 0 (capacity K l) none)) [
    | inr ((v, u), g) ↦ absurd (ground arith)
    | inl g ↦
        let (e, held) =
          first_free-eq-none (c.owner l) 0 (capacity K l) t free (omega arith) (omega arith) in
        let (_, untakeable) = oldest-eq-none c l 0 (capacity K l) none g in
        (e, held, untakeable t e (omega arith) (omega arith))
  ]
]
