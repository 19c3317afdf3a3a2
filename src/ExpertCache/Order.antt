-- ===== src/ExpertCache/Order.antt =====
-- The misses in the order of promotion: each once, with its count, and the most wanted first.
use vllm_exl3_plugin.Base.{
  ℕ, suc, ◌+◌, ◌-◌, ◌/◌, ◌%◌, ◌<◌, ◌≤◌, ◌≡◌, ◌⊎◌, inl, inr, refl, sym, ◌∙◌, true, false, List, [],
  ◌∷◌, arith, ltb, ◌==◌, if◌then◌else◌, In, Distinct, Bool-cases, All, dec_lt,
}
use vllm_exl3_plugin.ExpertCache.State.{Layout}
use vllm_exl3_plugin.ExpertCache.Demand.{
  Demand, add_key, unique_counts, rotation, precedes, insert, sort,
}

abbrev pub keys : List Demand → List ℕ
keys [] = []
keys (d ∷ ds) = d.key ∷ keys ds

-- Keys in strictly ascending order, from `lo` on.
abbrev Ascending : ℕ → List Demand → Type 0
Ascending lo [] = Unit
Ascending lo (d ∷ ds) = (lo ≤ d.key) × Ascending (suc d.key) ds

add_key-Ascending :
    (k lo : ℕ) (ds : List Demand) → lo ≤ k → Ascending lo ds → Ascending lo (add_key k ds)
unfolding add_key
add_key-Ascending k lo [] h a = ground arith
add_key-Ascending k lo (d ∷ ds) h (b, a) = elim (dec_lt d.key k) [
  | yes p ↦ ground (arith, add_key-Ascending k (suc d.key) ds p a)
  | no p ↦ ground arith
]

unique_counts-Ascending : (ks : List ℕ) → Ascending 0 (unique_counts ks)
unfolding unique_counts
unique_counts-Ascending [] = tt
unique_counts-Ascending (k ∷ ks) =
    add_key-Ascending k 0 (unique_counts ks) (omega arith) (unique_counts-Ascending ks)

Ascending-le : (lo : ℕ) (ds : List Demand) (k : ℕ) → Ascending lo ds → In k (keys ds) → lo ≤ k
Ascending-le lo [] k a m = absurd m
Ascending-le lo (d ∷ ds) k (b, a) (inl e) = omega arith
Ascending-le lo (d ∷ ds) k (b, a) (inr m) = omega (arith, Ascending-le (suc d.key) ds k a m)

Ascending-Distinct : (lo : ℕ) (ds : List Demand) → Ascending lo ds → Distinct (keys ds)
Ascending-Distinct lo [] a = tt
Ascending-Distinct lo (d ∷ ds) (b, a) =
    (λ m. omega (arith, Ascending-le (suc d.key) ds d.key a m), Ascending-Distinct (suc d.key) ds a)

In-add_key : (k x : ℕ) (ds : List Demand) → In x (keys (add_key k ds)) → (x ≡ k) ⊎ In x (keys ds)
unfolding add_key
In-add_key k x [] (inl e) = inl e
In-add_key k x [] (inr m) = absurd m
In-add_key k x (d ∷ ds) m = elim (Bool-cases (k == d.key)) [
  | inl p ↦ inr (rw (p, In, keys, add_key) at m)
  | inr p ↦ elim (Bool-cases (ltb k d.key)) [
    | inl q ↦ rw (p, q, In, keys, add_key) at m
    | inr q ↦ elim (in_head x d.key (keys (add_key k ds)) (rw (p, q, In, keys, add_key) at m)) [
      | inl e ↦ inr (inl e)
      | inr m' ↦ elim (In-add_key k x ds m') [ inl e ↦ inl e | inr n ↦ inr (inr n) ]
    ]
  ]
]
  where
    in_head : (a b : ℕ) (xs : List ℕ) → In a (b ∷ xs) → (a ≡ b) ⊎ In a xs
    in_head a b xs h = h

In-unique_counts : (x : ℕ) (ks : List ℕ) → In x (keys (unique_counts ks)) → In x ks
unfolding unique_counts
In-unique_counts x [] m = m
In-unique_counts x (k ∷ ks) m = elim (In-add_key k x (unique_counts ks) m) [
  | inl e ↦ inl e
  | inr n ↦ inr (In-unique_counts x ks n)
]

module _ (K : Layout) (clock : ℕ) where
  In-insert :
      (d : Demand) (x : ℕ) (ds : List Demand)
      → In x (keys (insert K clock d ds))
      → (x ≡ d.key) ⊎ In x (keys ds)
  unfolding insert
  In-insert d x [] m = m
  In-insert d x (y ∷ ds) m = elim (Bool-cases (precedes K clock y d)) [
    | inl p ↦ elim (in_front x y.key (keys (insert K clock d ds)) (rw (p, In, keys, insert) at m)) [
      | inl e ↦ inr (inl e)
      | inr m' ↦ elim (In-insert d x ds m') [ inl e ↦ inl e | inr n ↦ inr (inr n) ]
    ]
    | inr p ↦ rw (p, In, keys, insert) at m
  ]
    where
      in_front : (a b : ℕ) (xs : List ℕ) → In a (b ∷ xs) → (a ≡ b) ⊎ In a xs
      in_front a b xs h = h

  insert-Distinct :
      (d : Demand) (ds : List Demand)
      → ¬ In d.key (keys ds)
      → Distinct (keys ds)
      → Distinct (keys (insert K clock d ds))
  unfolding insert
  insert-Distinct d [] n a = (n, a)
  insert-Distinct d (y ∷ ds) n (new, a) = elim (Bool-cases (precedes K clock y d)) [
    | inl p ↦
        rw (p, Distinct, keys, insert)
          (
            λ m. elim (In-insert d y.key ds m) [ inl e ↦ n (inl (sym e)) | inr m' ↦ new m' ],
            insert-Distinct d ds (λ m. n (inr m)) a,
          )
    | inr p ↦ rw (p, Distinct, keys, insert) (n, (new, a))
  ]

  pub In-sort : (x : ℕ) (ds : List Demand) → In x (keys (sort K clock ds)) → In x (keys ds)
  unfolding sort
  In-sort x [] m = m
  In-sort x (d ∷ ds) m = elim (In-insert d x (sort K clock ds) m) [
    | inl e ↦ inl e
    | inr n ↦ inr (In-sort x ds n)
  ]

  sort-Distinct : (ds : List Demand) → Distinct (keys ds) → Distinct (keys (sort K clock ds))
  unfolding sort
  sort-Distinct [] a = a
  sort-Distinct (d ∷ ds) (new, a) =
      insert-Distinct d (sort K clock ds) (λ m. new (In-sort d.key ds m)) (sort-Distinct ds a)

  -- A wanted expert is promoted at most once in a plan.
  pub wanted-Distinct : (ks : List ℕ) → Distinct (keys (sort K clock (unique_counts ks)))
  wanted-Distinct ks =
      sort-Distinct (unique_counts ks)
        (Ascending-Distinct 0 (unique_counts ks) (unique_counts-Ascending ks))

  pub In-wanted : (x : ℕ) (ks : List ℕ) → In x (keys (sort K clock (unique_counts ks))) → In x ks
  In-wanted x ks m = In-unique_counts x ks (In-sort x (unique_counts ks) m)

-- How often a key is among the keys.
abbrev pub occurrences : ℕ → List ℕ → ℕ
occurrences x [] = 0
occurrences x (k ∷ ks) = if x == k then suc (occurrences x ks) else occurrences x ks

-- The counts of the entries with a key, added up.
abbrev pub total : ℕ → List Demand → ℕ
total x [] = 0
total x (d ∷ ds) = if x == d.key then d.count + total x ds else total x ds

total-add_key :
    (x k : ℕ) (ds : List Demand)
    → total x (add_key k ds) ≡ (if x == k then suc (total x ds) else total x ds)
unfolding add_key
total-add_key x k [] = ground arith
total-add_key x k (d ∷ ds) = ground (arith, total-add_key x k ds)

total-unique_counts : (x : ℕ) (ks : List ℕ) → total x (unique_counts ks) ≡ occurrences x ks
unfolding unique_counts
total-unique_counts x [] = refl
total-unique_counts x (k ∷ ks) =
    ground (arith, total-add_key x k (unique_counts ks), total-unique_counts x ks)

module _ (K : Layout) (clock : ℕ) where
  total-insert :
      (x : ℕ) (d : Demand) (ds : List Demand)
      → total x (insert K clock d ds) ≡ (if x == d.key then d.count + total x ds else total x ds)
  unfolding insert
  total-insert x d [] = refl
  total-insert x d (y ∷ ds) = ground (arith, total-insert x d ds)

  total-sort : (x : ℕ) (ds : List Demand) → total x (sort K clock ds) ≡ total x ds
  unfolding sort
  total-sort x [] = refl
  total-sort x (d ∷ ds) = ground (arith, total-insert x d (sort K clock ds), total-sort x ds)

  -- How many layers after the clock's an entry's layer has its turn.
  abbrev pub turn : Demand → ℕ
  turn d = (d.key / K.experts + (K.layers - clock % K.layers)) % K.layers

  -- An entry goes before another: it was missed more often, or as often and its layer's turn is not
  -- later.
  abbrev pub Goes : Demand → Demand → Type 0
  Goes d x = (x.count < d.count) ⊎ ((x.count ≡ d.count) × (turn d ≤ turn x))

  -- Every entry goes before all that stand after it.
  abbrev pub IsOrdered : List Demand → Type 0
  IsOrdered [] = Unit
  IsOrdered (d ∷ ds) = All (Goes d) ds × IsOrdered ds

  Goes-trans : (a b c : Demand) → Goes a b → Goes b c → Goes a c
  Goes-trans a b c (inl h) (inl k) = inl (omega arith)
  Goes-trans a b c (inl h) (inr (e, k)) = inl (omega arith)
  Goes-trans a b c (inr (e, h)) (inl k) = inl (omega arith)
  Goes-trans a b c (inr (e, h)) (inr (f, k)) = inr (omega arith, omega arith)

  precedes-Goes : (a b : Demand) → precedes K clock a b ≡ true → Goes a b
  unfolding precedes rotation
  precedes-Goes a b h = ground arith

  precedes-false-Goes : (a b : Demand) → precedes K clock b a ≡ false → Goes a b
  unfolding precedes rotation
  precedes-false-Goes a b h = ground arith

  All-insert :
      (P : Demand → Type 0) (d : Demand) (ds : List Demand)
      → P d
      → All P ds
      → All P (insert K clock d ds)
  unfolding insert
  All-insert P d [] p h = (p, tt)
  All-insert P d (y ∷ ds) p (q, h) = elim (Bool-cases (precedes K clock y d)) [
    | inl e ↦ rw (e, All, insert) (q, All-insert P d ds p h)
    | inr e ↦ rw (e, All, insert) (p, (q, h))
  ]

  All-weaken :
      (P Q : Demand → Type 0) (ds : List Demand) → ((x : Demand) → P x → Q x) → All P ds → All Q ds
  All-weaken P Q [] f h = tt
  All-weaken P Q (d ∷ ds) f (p, h) = (f d p, All-weaken P Q ds f h)

  insert-IsOrdered :
      (d : Demand) (ds : List Demand) → IsOrdered ds → IsOrdered (insert K clock d ds)
  unfolding insert
  insert-IsOrdered d [] h = (tt, tt)
  insert-IsOrdered d (y ∷ ds) (first, rest) = elim (Bool-cases (precedes K clock y d)) [
    | inl e ↦
        rw (e, IsOrdered, insert)
          (All-insert (Goes y) d ds (precedes-Goes y d e) first, insert-IsOrdered d ds rest)
    | inr e ↦
        rw (e, IsOrdered, insert)
          (
            (
              precedes-false-Goes d y e,
              All-weaken (Goes y) (Goes d) ds
                  (λ x h. Goes-trans d y x (precedes-false-Goes d y e) h) first,
            ),
            (first, rest),
          )
  ]

  sort-IsOrdered : (ds : List Demand) → IsOrdered (sort K clock ds)
  unfolding sort
  sort-IsOrdered [] = tt
  sort-IsOrdered (d ∷ ds) = insert-IsOrdered d (sort K clock ds) (sort-IsOrdered ds)

  -- The misses are taken in an order in which each was missed more often than every later one, or as
  -- often and its layer has its turn, counted from the clock's layer on, no later; each expert stands
  -- there once, with the count of its misses.
  pub wanted-IsOrdered :
      (ks : List ℕ)
      → let order = sort K clock (unique_counts ks) in
        IsOrdered order × Distinct (keys order) × ((x : ℕ) → total x order ≡ occurrences x ks)
  wanted-IsOrdered ks = (
    sort-IsOrdered (unique_counts ks),
    wanted-Distinct K clock ks,
    λ x. total-sort x (unique_counts ks) ∙ total-unique_counts x ks,
  )
