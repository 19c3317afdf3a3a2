-- ===== src/ExpertCache/Demand.antt =====
-- The misses of a step, counted per expert and put in the order in which they are promoted.
use vllm_exl3_plugin.Base.{
  ℕ, ◌+◌, ◌-◌, ◌/◌, ◌%◌, Bool, ◌&&◌, ◌||◌, List, [], ◌∷◌, ltb, ◌==◌, if◌then◌else◌,
}
use vllm_exl3_plugin.ExpertCache.State.{Layout}

-- A key of `numpy.unique` with its count.
pub record Demand : Type 0 where
  pub key : ℕ
  pub count : ℕ

-- One more occurrence of a key, in ascending order of keys.
unfoldable pub add_key : ℕ → List Demand → List Demand
add_key k [] = record { key = k; count = 1 } ∷ []
add_key k (d ∷ ds) =
    let rest = add_key k ds in
    if k == d.key
    then record d { count = d.count + 1 } ∷ ds
    else if ltb k d.key
    then record { key = k; count = 1 } ∷ d ∷ ds
    else d ∷ rest

-- `numpy.unique(…, return_counts=True)`
unfoldable pub unique_counts : List ℕ → List Demand
unfolding add_key
unique_counts [] = []
unique_counts (k ∷ ks) = add_key k (unique_counts ks)

module _ (K : Layout) (clock : ℕ) where
  -- `(keys[i] // E - clock) % L`
  unfoldable pub rotation : Demand → ℕ
  rotation d = (d.key / K.experts + (K.layers - clock % K.layers)) % K.layers

  -- The sort key of `a` is below that of `b`.
  unfoldable pub precedes : Demand → Demand → Bool
  unfolding rotation
  precedes a b = ltb b.count a.count || (a.count == b.count && ltb (rotation a) (rotation b))

  unfoldable pub insert : Demand → List Demand → List Demand
  unfolding precedes
  insert x [] = x ∷ []
  insert x (y ∷ ys) = let rest = insert x ys in if precedes y x then y ∷ rest else x ∷ y ∷ ys

  -- `sorted(range(len(keys)), key = …)`, which is stable.
  unfoldable pub sort : List Demand → List Demand
  unfolding insert
  sort [] = []
  sort (x ∷ xs) = insert x (sort xs)
