-- ===== src/ExpertCache/Lru.antt =====
-- `_victim`: the slot that a promotion takes.
use vllm_exl3_plugin.Base.{
  ℕ, zero, suc, Bool, true, false, Option, none, some, ltb, leb, if◌then◌else◌,
}
use vllm_exl3_plugin.ExpertCache.State.{Layout, Cache, capacity}

-- The first free slot among `n` from `s` on.
unfoldable pub first_free : (ℕ → Option ℕ) → ℕ → ℕ → Option ℕ
first_free owners s zero = none
first_free owners s (suc n) =
    let rest = first_free owners (suc s) n in elim (owners s) [ none ↦ some s | some _ ↦ rest ]

-- `use >= self.clock`, where -1 is `none`.
abbrev pub used_since : Option ℕ → ℕ → Bool
used_since none clock = false
used_since (some t) clock = leb clock t

-- `use < best_use`
abbrev pub older : Option ℕ → Option ℕ → Bool
older none none = false
older none (some t) = true
older (some t) none = false
older (some t) (some u) = ltb t u

-- `best` with `best_use`.
abbrev pub Best : Type 0
Best = Option (ℕ × Option ℕ)

module _ (c : Cache) (l : ℕ) where
  -- One round of the loop over the slots.
  unfoldable pub consider : ℕ → Best → Best
  consider s best = elim (c.owner l s) [
    | none ↦ best
    | some e ↦
        if c.live l e
        then (if used_since (c.last_use l e) c.clock then best else elim best [
          | none ↦ some (s, c.last_use l e)
          | some (b, use_b) ↦
              if older (c.last_use l e) use_b then some (s, c.last_use l e) else some (b, use_b)
        ])
        else best
  ]

  unfoldable pub oldest : ℕ → ℕ → Best → Best
  unfolding consider
  oldest s zero best = best
  oldest s (suc n) best = oldest (suc s) n (consider s best)

unfoldable pub victim : Layout → Cache → ℕ → Option ℕ
unfolding first_free oldest capacity
victim K c l = elim (first_free (c.owner l) 0 (capacity K l)) [
  | some s ↦ some s
  | none ↦ elim (oldest c l 0 (capacity K l) none) [ none ↦ none | some (s, _) ↦ some s ]
]
