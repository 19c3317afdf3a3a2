-- ===== src/Layers/Ready.antt =====
-- What has to be there for a linear layer to finish loading, and that nothing else is asked.
use mathlib.Core.Path.{subst}
use vllm_exl3_plugin.Base.{
  ℕ, suc, ◌+◌, ◌*◌, ◌/◌, ◌≡◌, ◌↔◌, ◌⊎◌, inl, inr, refl, sym, ap, ◌∙◌, Bool, true, false, some, List,
  [], ◌∷◌, length, arith, bind-ok, Result, ok, raise, ◌==◌, ==_refl, Bool-cases, Option-cases,
}
use vllm_exl3_plugin.Base.Text.{Text, codes, text_eq, text_eq-eq, text_eq_refl}
use vllm_exl3_plugin.Format.Consts.{Checked, tile, pad_dim}
use vllm_exl3_plugin.Format.Widths.{bits_from_trellis_shape, dims_from_trellis_shape}
use vllm_exl3_plugin.Layers.Store.{Sub, Param, get, width, shape_of}
use vllm_exl3_plugin.Layers.Linear.{
  lift, Params, param_of, shard, check_shapes, Shard, load_shard, load_shards,
}

-- A dimension rounded up to whole blocks of 128.
abbrev pub padded : ℕ → ℕ
padded n = (n + 127) / 128 * 128

pub ok-injective : {E B : Type 0} {x y : B} → ◌≡◌ {A = Result E B} (ok x) (ok y) → x ≡ y
ok-injective h = ground arith

pub some-injective : {B : Type 0} {x y : B} → some x ≡ some y → x ≡ y
some-injective h = ground arith

true-false : true ≡ false → ⊥
true-false h = ground arith

lift-ok : {B : Type 0} (m : Checked B) (b : B) → lift m ≡ ok b → m ≡ ok b
lift-ok (ok x) b h = ground arith
lift-ok (raise e) b h = absurd (ground arith)

check_shapes_iff :
    (input_size index stored_in stored_out out_size suh_len svh_len : ℕ)
    → (check_shapes input_size index stored_in stored_out out_size suh_len svh_len ≡ ok tt) ↔ (
        (stored_in ≡ padded input_size)
        × (stored_out ≡ padded out_size)
        × (suh_len ≡ padded input_size)
        × (svh_len ≡ padded out_size))
unfolding check_shapes pad_dim
check_shapes_iff input_size index stored_in stored_out out_size suh_len svh_len = ground arith

-- A dict of distinct keys, as a list whose first item of a key counts, has a value under a key.
abbrev pub Holds : {K V : Type 0} → K → V → List (K × V) → Type 0
Holds key v [] = ⊥
Holds key v ((k, x) ∷ rest) = ((key ≡ k) × (x ≡ v)) ⊎ ((key ≡ k → ⊥) × Holds key v rest)

param_of-Holds :
    {A : Type 0} (name : Text) (params : Params A) (p : Param A)
    → param_of name params ≡ some p
    → Holds name p params
unfolding param_of
param_of-Holds name [] p h = absurd (ground arith)
param_of-Holds name ((n, q) ∷ params) p h = elim (Bool-cases (text_eq name n)) [
  | inl e ↦ inl (text_eq-eq name n e, some-injective (rw e at h))
  | inr e ↦ inr (
    λ same. true-false (sym (subst (λ m. text_eq name m ≡ true) same (text_eq_refl name)) ∙ e),
    param_of-Holds name params p (rw e at h),
  )
]

Holds-param_of :
    {A : Type 0} (name : Text) (params : Params A) (p : Param A)
    → Holds name p params
    → param_of name params ≡ some p
unfolding param_of
Holds-param_of name [] p h = absurd h
Holds-param_of name ((n, q) ∷ params) p (inl (same, e)) = rw (← same, text_eq_refl name) (ap some e)
Holds-param_of name ((n, q) ∷ params) p (inr (other, h)) = elim (Bool-cases (text_eq name n)) [
  | inl e ↦ absurd (other (text_eq-eq name n e))
  | inr e ↦ rw e (Holds-param_of name params p h)
]

get-Holds :
    {A : Type 0} (k : ℕ) (kept : List (ℕ × A)) (v : A) → get k kept ≡ some v → Holds k v kept
unfolding get
get-Holds k [] v h = absurd (ground arith)
get-Holds k ((j, w) ∷ kept) v h = elim (Bool-cases (k == j)) [
  | inl e ↦ inl (ground arith, some-injective (rw e at h))
  | inr e ↦ inr (λ same. ground arith, get-Holds k kept v (rw e at h))
]

Holds-get :
    {A : Type 0} (k : ℕ) (kept : List (ℕ × A)) (v : A) → Holds k v kept → get k kept ≡ some v
unfolding get
Holds-get k [] v h = absurd h
Holds-get k ((j, w) ∷ kept) v (inl (same, e)) = rw (← same, ==_refl) (ap some e)
Holds-get k ((j, w) ∷ kept) v (inr (other, h)) = elim (Bool-cases (k == j)) [
  | inl e ↦ absurd (other (ground arith))
  | inr e ↦ rw e (Holds-get k kept v h)
]

-- The layer has a parameter of a name, whose dict of shards has a tensor under an index.
unfoldable pub Stored : {A : Type 0} → Params A → Text → ℕ → Sub A → Type 0
Stored params name index t = (p : Param _) × Holds name p params × Holds index t p.shards

shard-Stored :
    {A : Type 0} (params : Params A) (name : Text) (index : ℕ) (t : Sub A)
    → shard params name index ≡ ok t
    → Stored params name index t
unfolding Stored shard
shard-Stored params name index t h = elim (Option-cases (param_of name params)) [
  | inl e ↦ absurd (ground (arith, rw (e, shard) at h))
  | inr (p, e) ↦ elim (Option-cases (get index p.shards)) [
    | inl f ↦ absurd (ground (arith, rw (e, f, shard) at h))
    | inr (x, f) ↦ (
      p,
      param_of-Holds name params p e,
      get-Holds index p.shards t (f ∙ ap some (ok-injective (rw (e, f, shard) at h))),
    )
  ]
]

Stored-shard :
    {A : Type 0} (params : Params A) (name : Text) (index : ℕ) (t : Sub A)
    → Stored params name index t
    → shard params name index ≡ ok t
unfolding shard Stored
Stored-shard params name index t (p, h, k) =
    rw (Holds-param_of name params p h, Holds-get index p.shards t k, shard) refl

-- The three tensors of an output shard are in, the trellis is of a width that the format has, and they
-- fit the layer's dimensions, each rounded up to whole blocks of 128.
unfoldable pub Fitting : {A : Type 0} → Params A → Bool → ℕ → ℕ → ℕ → Shard A → Type 0
Fitting params has_mul1 input_size index out_size s =
    Stored params (codes "trellis") index s.trellis
    × Stored params (codes "suh") index s.suh
    × Stored params (codes "svh") index s.svh
    × (bits_from_trellis_shape (shape_of s.trellis) (some has_mul1) ≡ ok s.bits)
    × (length (s.trellis).cells * tile ≡ padded input_size)
    × (width (s.trellis).cells * tile ≡ padded out_size)
    × (length (s.suh).cells ≡ padded input_size)
    × (length (s.svh).cells ≡ padded out_size)

module _ {A : Type 0} (params : Params A) (has_mul1 : Bool) (input_size : ℕ) where
  load_shard-Fitting :
      (index out_size : ℕ) (s : Shard A)
      → load_shard params has_mul1 input_size index out_size ≡ ok s
      → Fitting params has_mul1 input_size index out_size s
  unfolding load_shard Fitting dims_from_trellis_shape
  load_shard-Fitting index out_size s h =
      let (trellis, e1, h1) = bind-ok (shard params (codes "trellis") index) _ s h in
      let (suh, e2, h2) = bind-ok (shard params (codes "suh") index) _ s h1 in
      let (svh, e3, h3) = bind-ok (shard params (codes "svh") index) _ s h2 in
      let (bits, e4, h4) =
        bind-ok (lift (bits_from_trellis_shape (shape_of trellis) (some has_mul1))) _ s h3 in
      let (u, e5, h5) =
        bind-ok
          (check_shapes input_size index (length trellis.cells * tile) (width trellis.cells * tile)
            out_size (length suh.cells) (length svh.cells))
          _ s h4 in
      let (dim_in, dim_out, suh_len, svh_len) =
        (check_shapes_iff input_size index (length trellis.cells * tile)
            (width trellis.cells * tile) out_size (length suh.cells) (length svh.cells)).0
          e5 in
      subst (Fitting params has_mul1 input_size index out_size) (ok-injective h5) (
        shard-Stored params (codes "trellis") index trellis e1,
        shard-Stored params (codes "suh") index suh e2,
        shard-Stored params (codes "svh") index svh e3,
        lift-ok (bits_from_trellis_shape (shape_of trellis) (some has_mul1)) bits e4,
        dim_in,
        dim_out,
        suh_len,
        svh_len,
      )

  Fitting-load_shard :
      (index out_size : ℕ) (s : Shard A)
      → Fitting params has_mul1 input_size index out_size s
      → load_shard params has_mul1 input_size index out_size ≡ ok s
  unfolding load_shard Fitting dims_from_trellis_shape
  Fitting-load_shard index out_size s (e1, e2, e3, e4, d1, d2, l1, l2) =
      let t1 = Stored-shard params (codes "trellis") index s.trellis e1 in
      let t2 = Stored-shard params (codes "suh") index s.suh e2 in
      let t3 = Stored-shard params (codes "svh") index s.svh e3 in
      let checked =
        (check_shapes_iff input_size index (length (s.trellis).cells * tile)
            (width (s.trellis).cells * tile) out_size (length (s.suh).cells)
            (length (s.svh).cells)).1
          (d1, d2, l1, l2) in
      rw (t1, t2, t3, e4, checked) refl

  -- Output shards, from one on, that fit the sizes one by one.
  unfoldable pub AllFitting : ℕ → List ℕ → List (Shard A) → Type 0
  AllFitting index [] [] = Unit
  AllFitting index [] (s ∷ loaded) = ⊥
  AllFitting index (out_size ∷ sizes) [] = ⊥
  AllFitting index (out_size ∷ sizes) (s ∷ loaded) =
      Fitting params has_mul1 input_size index out_size s × AllFitting (suc index) sizes loaded

  load_shards-AllFitting :
      (index : ℕ) (sizes : List ℕ) (loaded : List (Shard A))
      → load_shards params has_mul1 input_size index sizes ≡ ok loaded
      → AllFitting index sizes loaded
  unfolding load_shards AllFitting
  load_shards-AllFitting index [] [] h = tt
  load_shards-AllFitting index [] (s ∷ loaded) h = absurd (ground (arith, ok-injective h))
  load_shards-AllFitting index (out_size ∷ sizes) loaded h =
      let (one, e1, h1) =
        bind-ok (load_shard params has_mul1 input_size index out_size) _ loaded h in
      let (more, e2, h2) =
        bind-ok (load_shards params has_mul1 input_size (suc index) sizes) _ loaded h1 in
      subst (AllFitting index (out_size ∷ sizes)) (ok-injective h2)
        (load_shard-Fitting index out_size one e1, load_shards-AllFitting (suc index) sizes more e2)

  AllFitting-load_shards :
      (index : ℕ) (sizes : List ℕ) (loaded : List (Shard A))
      → AllFitting index sizes loaded
      → load_shards params has_mul1 input_size index sizes ≡ ok loaded
  unfolding load_shards AllFitting
  AllFitting-load_shards index [] [] h = refl
  AllFitting-load_shards index [] (s ∷ loaded) h = absurd h
  AllFitting-load_shards index (out_size ∷ sizes) [] h = absurd h
  AllFitting-load_shards index (out_size ∷ sizes) (s ∷ loaded) (now, later) =
      rw
        (
          Fitting-load_shard index out_size s now,
          AllFitting-load_shards (suc index) sizes loaded later,
        )
        refl

-- A linear layer finishes loading with a list of output shards exactly where the list has one for each
-- of the layer's output sizes and each is made of the three tensors that were stored under its index,
-- of a width that the format has, and of dimensions that are the layer's, rounded up to whole blocks
-- of 128; where there is no such list it raises an error.
pub load_shards_iff :
    {A : Type 0} (params : Params A) (has_mul1 : Bool) (input_size : ℕ) (sizes : List ℕ)
    (loaded : List (Shard A))
    → (load_shards params has_mul1 input_size 0 sizes ≡ ok loaded)
      ↔ AllFitting params has_mul1 input_size 0 sizes loaded
load_shards_iff params has_mul1 input_size sizes loaded = (
  load_shards-AllFitting params has_mul1 input_size 0 sizes loaded,
  AllFitting-load_shards params has_mul1 input_size 0 sizes loaded,
)
