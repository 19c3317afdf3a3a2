-- ===== src/Format/Blockq.antt =====
-- The block-quantized embedding of format.py: the check of a hidden size, and the stored shapes.
use native.Mathlib.Nat.{div-add-mod}
use vllm_exl3_plugin.Base.{
  ℕ, zero, suc, ◌+◌, ◌*◌, ◌/◌, ◌%◌, ◌≡◌, ap, List, [], ◌∷◌, arith, ◌==◌, if◌then◌else◌, ok, raise,
  ◌>>◌, not,
}
use vllm_exl3_plugin.Format.Consts.{
  Checked, shared_scale_block, odd_hidden, not_two_dimensional, zero_division,
}

unfoldable pub check_blockq_hidden : ℕ → ℕ → Checked (Unit {0})
check_blockq_hidden hidden zero = raise zero_division
check_blockq_hidden hidden (suc b) =
    if not (hidden % suc b == 0)
    then raise (shared_scale_block hidden (suc b))
    else if not (hidden % 2 == 0)
    then raise (odd_hidden hidden)
    else ok tt

-- The values of the returned dict, under its keys `bq_q`, `bq_s` and `bq_r`.
pub record Shapes : Type 0 where
  pub bq_q : List ℕ
  pub bq_s : List ℕ
  pub bq_r : List ℕ

unfoldable pub blockq_shapes : ℕ → ℕ → ℕ → Checked Shapes
unfolding check_blockq_hidden
blockq_shapes vocab hidden block = do
  check_blockq_hidden hidden block
  ok (record {
    bq_q = vocab ∷ hidden / 2 ∷ [];
    bq_s = vocab ∷ 2 ∷ hidden / block ∷ [];
    bq_r = vocab ∷ 4 ∷ [];
  })

unfoldable pub blockq_hidden_from_shape : List ℕ → Checked ℕ
blockq_hidden_from_shape (a ∷ b ∷ []) = ok (b * 2)
blockq_hidden_from_shape _ = raise not_two_dimensional

-- The float `4 + 2 * 8 / block + 4 * 32 / hidden` as an exact fraction, numerator first.
unfoldable pub blockq_bpw : ℕ → ℕ → Checked (ℕ × ℕ)
unfolding check_blockq_hidden
blockq_bpw hidden block = do
  check_blockq_hidden hidden block
  if hidden == 0
      then raise zero_division
      else ok (4 * block * hidden + 2 * 8 * hidden + 4 * 32 * block, block * hidden)

abbrev product : List ℕ → ℕ
product [] = 1
product (n ∷ ns) = n * product ns

-- The bits that the three tensors take: bytes, bytes, and 32-bit floats.
abbrev pub stored_bits : Shapes → ℕ
stored_bits s = 8 * product s.bq_q + 8 * product s.bq_s + 32 * product s.bq_r

-- The hidden size is read back from the packed values' shape.
pub blockq_shapes-roundtrip :
    (vocab hidden block : ℕ) (s : Shapes)
    → blockq_shapes vocab hidden block ≡ ok s
    → blockq_hidden_from_shape s.bq_q ≡ ok hidden
unfolding blockq_shapes blockq_hidden_from_shape
blockq_shapes-roundtrip vocab hidden zero s h = cc
blockq_shapes-roundtrip vocab hidden (suc b) s h = ground arith

bits_arith :
    (v h b k m : ℕ)
    → h ≡ b * k
    → h ≡ 2 * m
    → (4 * b * h + 2 * 8 * h + 4 * 32 * b) * (v * h)
      ≡ (8 * (v * (m * 1)) + 8 * (v * (2 * (k * 1))) + 32 * (v * (4 * 1))) * (b * h)
bits_arith v h b k m p q =
    omega (arith, ap (λ (t : ℕ). v * h * t) p, ap (λ (t : ℕ). v * b * h * t) q)

-- The bits per weight that `blockq_bpw` claims, times the weights, are the bits that the three
-- tensors of `blockq_shapes` take.
pub blockq_bpw-stored_bits :
    (vocab hidden block : ℕ) (s : Shapes) (num den : ℕ)
    → blockq_shapes vocab hidden block ≡ ok s
    → blockq_bpw hidden block ≡ ok (num, den)
    → num * (vocab * hidden) ≡ stored_bits s * den
unfolding blockq_shapes blockq_bpw
blockq_bpw-stored_bits vocab hidden zero s num den h k = cc
blockq_bpw-stored_bits vocab hidden (suc b) s num den h k =
    let halves : hidden % 2 ≡ 0 = ground arith in
    let blocks : hidden % suc b ≡ 0 = ground arith in
    let whole : hidden ≡ suc b * (hidden / suc b) = omega (arith, div-add-mod hidden (suc b)) in
    ground
      (arith, bits_arith vocab hidden (suc b) (hidden / suc b) (hidden / 2) whole (omega arith))
