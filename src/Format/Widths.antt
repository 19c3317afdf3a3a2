-- ===== src/Format/Widths.antt =====
-- The bit width of a trellis tensor and the shape that it must have.
use vllm_exl3_plugin.Base.{
  ℕ, suc, ◌+◌, ◌*◌, ◌/◌, ◌%◌, ◌≤◌, ◌<◌, ◌≡◌, ◌≢◌, refl, Bool, false, ◌&&◌, ◌||◌, Option, none, some,
  List, [], ◌∷◌, arith, leb, ◌==◌, if◌then◌else◌, ok, raise, not,
}
use vllm_exl3_plugin.Format.Consts.{
  tile, min_bits, max_bits, Checked, not_three_dimensional, no_such_width, half_without_mul1,
  implausible_width, not_tile_multiple, no_bit_width, pad_dim,
}

-- A bit width: an integer, or `n + 0.5`. Any other number is `other`, by which every function
-- that takes a width refuses it.
pub data Width : Type 0 where
  whole : ℕ → Width
  half : ℕ → Width
  other : Width

-- `half in HALF_BITS` for the quotient `last / 16` of a `last` that 16 does not divide.
abbrev pub half_bits : ℕ → Option ℕ
half_bits last =
    if last == 24
    then some 1
    else if last == 40
    then some 2
    else if last == 56
    then some 3
    else none

-- The last dimension's part of `bits_from_trellis_shape`. `mul1` is None, False or True.
unfoldable pub bits_from_last : ℕ → Option Bool → Checked Width
bits_from_last last mul1 =
    if not (last % tile == 0)
    then elim (half_bits last) [
      | none ↦ raise (no_such_width last)
      | some ka ↦ elim mul1 [
        | some b ↦ if b then ok (half ka) else raise (half_without_mul1 last)
        | none ↦ ok (half ka)
      ]
    ]
    else if not (leb min_bits (last / tile) && leb (last / tile) max_bits)
    then raise (implausible_width (last / tile))
    else ok (whole (last / tile))

unfoldable pub bits_from_trellis_shape : List ℕ → Option Bool → Checked Width
unfolding bits_from_last
bits_from_trellis_shape (a ∷ b ∷ last ∷ []) mul1 = bits_from_last last mul1
bits_from_trellis_shape _ mul1 = raise not_three_dimensional

unfoldable pub dims_from_trellis_shape : List ℕ → Checked (ℕ × ℕ)
dims_from_trellis_shape (a ∷ b ∷ last ∷ []) = ok (a * tile, b * tile)
dims_from_trellis_shape _ = raise not_three_dimensional

-- `int(TILE * bits)` for a width that the format has.
unfoldable pub tile_words : Width → Option ℕ
tile_words (whole n) = if leb min_bits n && leb n max_bits then some (tile * n) else none
tile_words (half n) = if n == 1 || n == 2 || n == 3 then some (tile * n + 8) else none
tile_words other = none

unfoldable pub trellis_shape : ℕ → ℕ → Width → Checked (List ℕ)
unfolding tile_words
trellis_shape in_features out_features bits =
    if not (in_features % tile == 0) || not (out_features % tile == 0)
    then raise (not_tile_multiple in_features out_features)
    else elim (tile_words bits) [
      | none ↦ raise no_bit_width
      | some w ↦ ok (in_features / tile ∷ out_features / tile ∷ w ∷ [])
    ]

-- The codebook does not rule the width out: an integer width, or no claim that mul1 is absent.
abbrev pub Fits : Width → Option Bool → Type 0
Fits (half n) mul1 = mul1 ≢ some false
Fits _ mul1 = Unit

tile_words-bits :
    (bits : Width) (mul1 : Option Bool) (w : ℕ)
    → tile_words bits ≡ some w
    → Fits bits mul1
    → bits_from_last w mul1 ≡ ok bits
unfolding tile_words bits_from_last
tile_words-bits (whole n) mul1 w h f = ground arith
tile_words-bits (half n) mul1 w h f = ground arith
tile_words-bits other mul1 w h f = cc

bits-tile_words :
    (last : ℕ) (mul1 : Option Bool) (bits : Width)
    → bits_from_last last mul1 ≡ ok bits
    → tile_words bits ≡ some last
unfolding tile_words bits_from_last
bits-tile_words last mul1 (whole n) h = ground arith
bits-tile_words last mul1 (half n) h = ground arith
bits-tile_words last mul1 other h = ground arith

-- Where `trellis_shape` gives a shape for a pair of dimensions and a width, the dimensions and
-- the width are read back from it, the width under every codebook that does not rule it out.
pub trellis_shape-roundtrip :
    (in_features out_features : ℕ) (bits : Width) (mul1 : Option Bool) (shape : List ℕ)
    → trellis_shape in_features out_features bits ≡ ok shape
    → Fits bits mul1
    → (dims_from_trellis_shape shape ≡ ok (in_features, out_features))
      × (bits_from_trellis_shape shape mul1 ≡ ok bits)
unfolding trellis_shape dims_from_trellis_shape bits_from_trellis_shape
trellis_shape-roundtrip n m bits mul1 (a ∷ b ∷ w ∷ []) h f =
    ground (arith, tile_words-bits bits mul1 w)
trellis_shape-roundtrip n m bits mul1 shape h f = ground arith

-- Of every shape from which a width is read, the dimensions are read too, and `trellis_shape`
-- gives that shape back.
pub bits_from_trellis_shape-roundtrip :
    (shape : List ℕ) (mul1 : Option Bool) (bits : Width)
    → bits_from_trellis_shape shape mul1 ≡ ok bits
    → (n : ℕ) × (m : ℕ) × (dims_from_trellis_shape shape ≡ ok (n, m))
      × (trellis_shape n m bits ≡ ok shape)
unfolding trellis_shape dims_from_trellis_shape bits_from_trellis_shape
bits_from_trellis_shape-roundtrip (a ∷ b ∷ last ∷ []) mul1 bits h =
    (a * tile, b * tile, refl, ground (arith, bits-tile_words last mul1 bits h))
bits_from_trellis_shape-roundtrip shape mul1 bits h = cc

-- A padded dimension is the least multiple of a positive `pad_to` that is not below `n`.
pub pad_dim_lem :
    (n pad_to padded : ℕ)
    → pad_dim n (suc pad_to) ≡ ok padded
    → (padded % suc pad_to ≡ 0) × (n ≤ padded) × (padded < n + suc pad_to)
unfolding pad_dim
pad_dim_lem n pad_to padded h = grind arith
