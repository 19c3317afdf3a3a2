-- ===== src/Tp/Rebuild.antt =====
-- The ranks' slices, put together again, are the whole tensor.
use native.Mathlib.Nat.{mul-div_cancel}
use mathlib.Core.Path.{ap₂}
use vllm_exl3_plugin.Base.{
  take_nil, take-add, ℕ, zero, suc, ◌+◌, ◌-◌, ◌*◌, ◌/◌, ◌%◌, ◌≤◌, ◌<◌, ◌≡◌, refl, sym, ap, ◌∙◌,
  arith, List, [], ◌∷◌, ◌++◌, take, drop, length, ok, ◌>>=◌,
}
use vllm_exl3_plugin.Format.Consts.{Checked, tile, had_block}
use vllm_exl3_plugin.Format.Shards.{check_tp_split, shard_bounds, shard_bounds-tiles}
use vllm_exl3_plugin.Tp.Shard.{Role, trellis, suh, svh, scalar, vocab, slice, shard_row}

module _ {A : Type 0} where
  take_all : (n : ℕ) (xs : List A) → length xs ≤ n → take n xs ≡ xs
  take_all n [] h = take_nil n
  take_all zero (x ∷ xs) h = absurd (omega arith)
  take_all (suc n) (x ∷ xs) h = ap (λ t. x ∷ t) (take_all n xs (omega arith))

  -- The slices of `n` ranks of `k` each, one after another, from the first.
  abbrev pub pieces : (ℕ → List A) → ℕ → List A
  pieces f zero = []
  pieces f (suc n) = pieces f n ++ f n

  pieces-take :
      (k n : ℕ) (xs : List A) → pieces (λ r. slice (r * k) ((r + 1) * k) xs) n ≡ take (n * k) xs
  pieces-take k zero xs = ap (λ m. take m xs) (the_zero k)
    where
      the_zero : (k : ℕ) → 0 ≡ 0 * k
      the_zero k = omega arith
  pieces-take k (suc n) xs =
      ap₂ ◌++◌ (pieces-take k n xs) (ap (λ m. take m (drop (n * k) xs)) (the_width n k))
      ∙ take-add (n * k) k xs
      ∙ ap (λ m. take m xs) (the_next n k)
    where
      the_width : (n k : ℕ) → (n + 1) * k - n * k ≡ k
      the_width n k = omega arith

      the_next : (n k : ℕ) → k + n * k ≡ suc n * k
      the_next n k = omega arith

  pub pieces_whole :
      (k n : ℕ) (xs : List A)
      → length xs ≡ n * k
      → pieces (λ r. slice (r * k) ((r + 1) * k) xs) n ≡ xs
  pieces_whole k n xs h = pieces-take k n xs ∙ take_all (n * k) xs (omega (arith, h))

-- The ranks' parts of a tensor, one after another along its first dimension.
abbrev pub gathered : {A : Type 0} → (ℕ → Checked (List A)) → ℕ → Checked (List A)
gathered f zero = ok []
gathered f (suc n) = do before ← gathered f n; part ← f n; ok (before ++ part)

gathered-ok :
    {A : Type 0} (f : ℕ → Checked (List A)) (g : ℕ → List A) (n : ℕ)
    → ((r : ℕ) → f r ≡ ok (g r))
    → gathered f n ≡ ok (pieces g n)
gathered-ok f g zero h = refl
gathered-ok f g (suc n) h = rw (gathered-ok f g n h, h n) refl

pub tile_cut : (r k : ℕ) → k % had_block ≡ 0 → r * k / tile ≡ r * (k / tile)
tile_cut r k h =
    let q = k / tile in
    let whole : k ≡ q * tile = omega arith in
    let assoc : r * k ≡ r * q * tile =
      (let e : r * k ≡ r * (q * tile) = ap (λ x. r * x) whole in grind arith) in
    ap (λ x. x / tile) assoc ∙ mul-div_cancel (r * q) (omega arith)

module _ {A : Type 0} (dim_size tp_size : ℕ) where
  -- A rank's slice of a tensor for a row split.
  abbrev pub rank_row : Role → List (List A) → ℕ → Checked (List (List A))
  rank_row role t r = do
    bounds ← shard_bounds dim_size r tp_size
    ok (shard_row role t bounds.0 bounds.1)

  -- How many entries of the first dimension a tensor of a role has, if a row split cuts it.
  unfoldable pub Cuttable : Role → List (List A) → Type 0
  Cuttable trellis t = length t * tile ≡ dim_size
  Cuttable suh t = length t ≡ dim_size
  Cuttable vocab t = length t ≡ dim_size
  Cuttable svh t = ⊥
  Cuttable scalar t = ⊥

  -- Over more than one rank, the slices of an admitted row split of a tensor that it cuts, put one
  -- after another in the order of the ranks, are the whole tensor.
  pub shard_row-rebuilds :
      (role : Role) (t : List (List A))
      → 1 < tp_size
      → check_tp_split dim_size tp_size ≡ ok tt
      → Cuttable role t
      → gathered (rank_row role t) tp_size ≡ ok t
  unfolding Cuttable shard_row
  shard_row-rebuilds role t many c cut =
      let (k, aligned, whole, bounds) = shard_bounds-tiles dim_size tp_size many c in
      by_role k aligned whole bounds role cut
    where
      by_role :
          (k : ℕ)
          → k % had_block ≡ 0
          → tp_size * k ≡ dim_size
          → ((r : ℕ) → shard_bounds dim_size r tp_size ≡ ok (r * k, (r + 1) * k))
          → (role : Role) → Cuttable role t
          → gathered (rank_row role t) tp_size ≡ ok t
      by_role k aligned whole bounds suh cut =
          gathered-ok _ (λ r. slice (r * k) ((r + 1) * k) t) tp_size (λ r. rw (bounds r) refl)
          ∙ ap ok (pieces_whole k tp_size t (cut ∙ sym whole))
      by_role k aligned whole bounds vocab cut =
          gathered-ok _ (λ r. slice (r * k) ((r + 1) * k) t) tp_size (λ r. rw (bounds r) refl)
          ∙ ap ok (pieces_whole k tp_size t (cut ∙ sym whole))
      by_role k aligned whole bounds trellis cut =
          gathered-ok _ (λ r. slice (r * (k / tile)) ((r + 1) * (k / tile)) t) tp_size
            (λ r. rw (bounds r) (rw (tile_cut r k aligned, tile_cut (r + 1) k aligned) refl))
          ∙ ap ok (pieces_whole (k / tile) tp_size t (tile_length k aligned whole cut))
        where
          tile_length :
              (k : ℕ)
              → k % had_block ≡ 0
              → tp_size * k ≡ dim_size
              → length t * tile ≡ dim_size
              → length t ≡ tp_size * (k / tile)
          tile_length k aligned whole cut =
              sym (mul-div_cancel (length t) (omega arith))
              ∙ ap (λ x. x / tile) (cut ∙ sym whole)
              ∙ tile_cut tp_size k aligned
      by_role k aligned whole bounds svh cut = absurd cut
      by_role k aligned whole bounds scalar cut = absurd cut
