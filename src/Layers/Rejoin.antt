-- ===== src/Layers/Rejoin.antt =====
-- The ranks' slices of an expert's tensor, put together again, are the tensor.
use native.Mathlib.Nat.{mul-div_cancel}
use mathlib.Core.Path.{ap₂, fun_ext}
use vllm_exl3_plugin.Base.{
  ℕ, zero, suc, ◌+◌, ◌*◌, ◌/◌, ◌%◌, ◌<◌, ◌≡◌, refl, sym, ap, ◌∙◌, Bool, true, false, none, some,
  List, [], ◌∷◌, ◌++◌, map, length, arith, ◌==◌, All, Option-cases, bind-ok, ok, ◌>>=◌, inl, inr,
}
use vllm_exl3_plugin.Base.Text.{Text}
use vllm_exl3_plugin.Format.Consts.{tile, had_block}
use vllm_exl3_plugin.Format.Shards.{check_tp_split, shard_bounds, shard_bounds-tiles}
use vllm_exl3_plugin.Tp.Shard.{
  Role, trellis, suh, svh, scalar, vocab, role_of, slice, shard_column, shard_row,
}
use vllm_exl3_plugin.Tp.Rebuild.{pieces, pieces_whole, tile_cut}
use vllm_exl3_plugin.Layers.Store.{width}
use vllm_exl3_plugin.Layers.Moe.{Projection, is_column, cut_width, split_at, tp_shard}

tile_count : (k n len : ℕ) → k % had_block ≡ 0 → n * k ≡ len * tile → len ≡ n * (k / tile)
tile_count k n len aligned whole =
    sym (mul-div_cancel len (omega arith)) ∙ ap (λ x. x / tile) (sym whole) ∙ tile_cut n k aligned

module _ {A : Type 0} where
  -- Two tensors of as many rows, side by side.
  unfoldable pub beside : List (List A) → List (List A) → List (List A)
  beside [] ts = []
  beside (s ∷ ss) [] = []
  beside (s ∷ ss) (t ∷ ts) = (s ++ t) ∷ beside ss ts

  -- As many rows, with nothing in them.
  abbrev pub emptied : List (List A) → List (List A)
  emptied [] = []
  emptied (row ∷ t) = [] ∷ emptied t

  -- The parts of `n` ranks side by side, from the first.
  unfoldable pub besides : (ℕ → List (List A)) → ℕ → List (List A)
  unfolding beside
  besides f zero = emptied (f 0)
  besides f (suc n) = beside (besides f n) (f n)

  beside-map :
      (f g : List A → List A) (t : List (List A))
      → beside (map f t) (map g t) ≡ map (λ row. f row ++ g row) t
  unfolding beside
  beside-map f g [] = refl
  beside-map f g (row ∷ t) = ap (◌∷◌ (f row ++ g row)) (beside-map f g t)

  emptied-map :
      (f g : List A → List A) (t : List (List A))
      → ((row : List A) → g row ≡ [])
      → emptied (map f t) ≡ map g t
  emptied-map f g [] h = refl
  emptied-map f g (row ∷ t) h = rw (h row) (ap (◌∷◌ []) (emptied-map f g t h))

  besides-map :
      (h : ℕ → List A → List A) (t : List (List A)) (n : ℕ)
      → besides (λ r. map (h r) t) n ≡ map (λ row. pieces (λ r. h r row) n) t
  unfolding besides
  besides-map h t zero = emptied-map (h 0) (λ row. pieces (λ r. h r row) 0) t (λ row. refl)
  besides-map h t (suc n) =
      ap (λ s. beside s (map (h n) t)) (besides-map h t n)
      ∙ beside-map (λ row. pieces (λ r. h r row) n) (h n) t

  map_same :
      (f : List A → List A) (P : List A → Type 0) (t : List (List A))
      → ((row : List A) → P row → f row ≡ row)
      → All P t
      → map f t ≡ t
  map_same f P [] same h = refl
  map_same f P (row ∷ t) same (now, later) =
      rw (same row now) (ap (◌∷◌ row) (map_same f P t same later))

  -- Every row of a tensor is as wide as the first.
  abbrev pub Even : List (List A) → Type 0
  Even t = All (λ row. length row ≡ width t) t

  -- The ranks' parts of a role's tensor put together: side by side where a column split cuts the
  -- rows, one under another where it cuts the first dimension, and any rank's where it cuts nothing.
  unfoldable pub rejoin : Bool → Role → (ℕ → List (List A)) → ℕ → List (List A)
  unfolding besides
  rejoin true trellis f n = besides f n
  rejoin false trellis f n = pieces f n
  rejoin true svh f n = pieces f n
  rejoin false svh f n = f 0
  rejoin true suh f n = f 0
  rejoin false suh f n = pieces f n
  rejoin column scalar f n = f 0
  rejoin column vocab f n = f 0

  -- The slice of rank `r` of `k` each.
  abbrev part : Bool → Role → List (List A) → ℕ → ℕ → List (List A)
  part column role t k r = split_at column role t (r * k) ((r + 1) * k)

  rejoin-part :
      (column : Bool) (role : Role) (t : List (List A)) (k n dim : ℕ)
      → Even t
      → k % had_block ≡ 0
      → n * k ≡ dim
      → cut_width column role t ≡ some dim
      → rejoin column role (part column role t k) n ≡ t
  unfolding rejoin cut_width shard_column shard_row
  rejoin-part true trellis t k n dim even aligned whole cut =
      let count = tile_count k n (width t) aligned (whole ∙ (ground arith)) in
      let h : ℕ → List A → List A = λ r row. slice (r * (k / tile)) ((r + 1) * (k / tile)) row in
      ap (λ f. besides f n)
        (fun_ext
          (λ r. ap₂ (λ a b. map (slice a b) t) (tile_cut r k aligned) (tile_cut (r + 1) k aligned)))
      ∙ besides-map h t n
      ∙ map_same _ (λ row. length row ≡ width t) t
          (λ row w. pieces_whole (k / tile) n row (w ∙ count)) even
  rejoin-part false trellis t k n dim even aligned whole cut =
      let count = tile_count k n (length t) aligned (whole ∙ (ground arith)) in
      ap (λ f. pieces f n)
        (fun_ext
          (λ r. ap₂ (λ a b. slice a b t) (tile_cut r k aligned) (tile_cut (r + 1) k aligned)))
      ∙ pieces_whole (k / tile) n t count
  rejoin-part true svh t k n dim even aligned whole cut = pieces_whole k n t (ground arith)
  rejoin-part false suh t k n dim even aligned whole cut = pieces_whole k n t (ground arith)
  rejoin-part true suh t k n dim even aligned whole cut = absurd (ground arith)
  rejoin-part false svh t k n dim even aligned whole cut = absurd (ground arith)
  rejoin-part column scalar t k n dim even aligned whole cut = absurd (ground arith)
  rejoin-part column vocab t k n dim even aligned whole cut = absurd (ground arith)

  rejoin_whole :
      (column : Bool) (role : Role) (t : List (List A)) (n : ℕ)
      → cut_width column role t ≡ none
      → rejoin column role (λ _. t) n ≡ t
  unfolding rejoin cut_width
  rejoin_whole true trellis t n e = absurd (ground arith)
  rejoin_whole false trellis t n e = absurd (ground arith)
  rejoin_whole true svh t n e = absurd (ground arith)
  rejoin_whole false suh t n e = absurd (ground arith)
  rejoin_whole true suh t n e = refl
  rejoin_whole false svh t n e = refl
  rejoin_whole column scalar t n e = refl
  rejoin_whole column vocab t n e = refl

shard_bounds-check :
    (dim r n : ℕ) (b : ℕ × ℕ) → shard_bounds dim r n ≡ ok b → check_tp_split dim n ≡ ok tt
unfolding shard_bounds
shard_bounds-check dim r n b h =
    let (u, checked, _) = bind-ok (check_tp_split dim n) _ b h in checked

at_bounds :
    {A : Type 0} (t : List (List A)) (shard_id : Projection) (role : Role) (dim r n k : ℕ)
    → shard_bounds dim r n ≡ ok (r * k, (r + 1) * k)
    → (shard_bounds dim r n >>= λ b. ok (split_at (is_column shard_id) role t b.0 b.1))
      ≡ ok (part (is_column shard_id) role t k r)
at_bounds t shard_id role dim r n k e = rw e refl

tp_shard-cut :
    {A : Type 0} (name : Text) (t : List (List A)) (shard_id : Projection) (r n dim : ℕ)
    → 1 < n
    → cut_width (is_column shard_id) (role_of name) t ≡ some dim
    → tp_shard name t shard_id r n
      ≡ (shard_bounds dim r n >>= λ b. ok (split_at (is_column shard_id) (role_of name) t b.0 b.1))
unfolding tp_shard
tp_shard-cut name t shard_id r n dim many e =
    let more : (n == 1) ≡ false = ground arith in rw (more, e, tp_shard) refl

-- Over more than one rank, where one rank's slice of an expert's tensor is admitted, every rank's is,
-- and the slices put together are the whole tensor, be it a column or a row split, whatever the
-- stored intermediate width is padded to.
pub tp_shard-rebuilds :
    {A : Type 0} (name : Text) (t : List (List A)) (shard_id : Projection) (r tp_size : ℕ)
    (admitted : List (List A))
    → 1 < tp_size
    → Even t
    → tp_shard name t shard_id r tp_size ≡ ok admitted
    → (parts : ℕ → List (List A)) × ((r' : ℕ) → tp_shard name t shard_id r' tp_size ≡ ok (parts r'))
      × (rejoin (is_column shard_id) (role_of name) parts tp_size ≡ t)
unfolding tp_shard
tp_shard-rebuilds name t shard_id r n admitted many even h =
    let more : (n == 1) ≡ false = ground arith in
    elim (Option-cases (cut_width (is_column shard_id) (role_of name) t)) [
      | inl e ↦ (
        λ _. t,
        λ r'. rw (more, e, tp_shard) refl,
        rejoin_whole (is_column shard_id) (role_of name) t n e,
      )
      | inr (dim, e) ↦
          let opened = sym (tp_shard-cut name t shard_id r n dim many e) ∙ h in
          let (b, bounded, _) = bind-ok (shard_bounds dim r n) _ admitted opened in
          let (k, aligned, whole, bounds) =
            shard_bounds-tiles dim n many (shard_bounds-check dim r n b bounded) in
          (
            part (is_column shard_id) (role_of name) t k,
            λ r'.
                tp_shard-cut name t shard_id r' n dim many e
                ∙ at_bounds t shard_id (role_of name) dim r' n k (bounds r'),
            rejoin-part (is_column shard_id) (role_of name) t k n dim even aligned whole e,
          )
    ]
