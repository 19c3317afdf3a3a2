-- ===== src/Layers/Linear.antt =====
-- `EXL3LinearMethod`: what it refuses when it is built, and what it checks once the shards are in.
use vllm_exl3_plugin.Base.{
  ℕ, suc, ◌*◌, Bool, ◌&&◌, ◌||◌, not, Option, none, some, List, [], ◌∷◌, length, ltb, ◌==◌,
  if◌then◌else◌, Result, ok, raise, ◌>>=◌, ◌>>◌,
}
use vllm_exl3_plugin.Base.Text.{Text, codes, text_eq}
use vllm_exl3_plugin.Format.Consts.{FormatError, Checked, pad_dim, pad_to_default}
use vllm_exl3_plugin.Format.Widths.{Width, bits_from_trellis_shape, dims_from_trellis_shape}
use vllm_exl3_plugin.Format.Shards.{check_tp_split}
use vllm_exl3_plugin.Layers.Store.{Sub, shape_of, Param, get}

-- One constructor for each error of the linear method, with the name or the shard of its message, and
-- those of format.py.
pub data LayerError : Type 0 where
  no_such_param : Text → LayerError
  no_shard : Text → ℕ → LayerError
  other_dims : ℕ → LayerError
  other_lengths : ℕ → LayerError
  of_format : FormatError → LayerError

abbrev pub Loading : Type 0 → Type 0
Loading B = Result LayerError B

abbrev pub lift : {B : Type 0} → Checked B → Loading B
lift (ok b) = ok b
lift (raise e) = raise (of_format e)

-- A layer: whether it is row-parallel, and its widths per rank.
pub record Layer : Type 0 where
  pub row_parallel : Bool
  pub input_size : ℕ
  pub output_sizes : List ℕ

abbrev pub check_outputs : List ℕ → ℕ → Checked (Unit {0})
check_outputs [] tp_size = ok tt
check_outputs (out_size ∷ sizes) tp_size = do
  check_tp_split (out_size * tp_size) tp_size
  check_outputs sizes tp_size

unfoldable pub validate_tp : Layer → ℕ → Checked (Unit {0})
unfolding check_tp_split
validate_tp l tp_size =
    if l.row_parallel
    then check_tp_split (l.input_size * tp_size) tp_size
    else check_outputs l.output_sizes tp_size

-- Whether it warns that a split is not one of those tried, and `_TP_WARNED` after it.
unfoldable pub warn_tp : Bool → ℕ → Bool × Bool
warn_tp warned tp_size = (ltb 2 tp_size && not warned, warned || ltb 2 tp_size)

-- A layer's parameters, by name.
abbrev pub Params : Type 0 → Type 0
Params A = List (Text × Param A)

unfoldable pub param_of : {A : Type 0} → Text → Params A → Option (Param A)
param_of name [] = none
param_of name ((n, p) ∷ params) =
    let rest = param_of name params in if text_eq name n then some p else rest

unfoldable pub shard : {A : Type 0} → Params A → Text → ℕ → Loading (Sub A)
unfolding param_of get
shard params name index = elim (param_of name params) [
  | none ↦ raise (no_such_param name)
  | some p ↦ elim (get index p.shards) [ none ↦ raise (no_shard name index) | some t ↦ ok t ]
]

-- The stored dimensions against the layer's, and the lengths of the scales against them.
unfoldable pub check_shapes : ℕ → ℕ → ℕ → ℕ → ℕ → ℕ → ℕ → Loading (Unit {0})
unfolding pad_dim
check_shapes input_size index stored_in stored_out out_size suh_len svh_len = do
  expected_in ← lift (pad_dim input_size pad_to_default)
  expected_out ← lift (pad_dim out_size pad_to_default)
  if not (stored_in == expected_in) || not (stored_out == expected_out)
      then raise (other_dims index)
      else if not (suh_len == stored_in) || not (svh_len == stored_out)
      then raise (other_lengths index)
      else ok tt

-- An output shard as the kernel takes it.
pub record Shard (A : Type 0) : Type 0 where
  pub trellis : Sub A
  pub suh : Sub A
  pub svh : Sub A
  pub bits : Width

unfoldable pub load_shard : {A : Type 0} → Params A → Bool → ℕ → ℕ → ℕ → Loading (Shard A)
unfolding shard check_shapes bits_from_trellis_shape dims_from_trellis_shape
load_shard params has_mul1 input_size index out_size = do
  trellis ← shard params (codes "trellis") index
  suh ← shard params (codes "suh") index
  svh ← shard params (codes "svh") index
  bits ← lift (bits_from_trellis_shape (shape_of trellis) (some has_mul1))
  dims ← lift (dims_from_trellis_shape (shape_of trellis))
  check_shapes input_size index (dims.0) (dims.1) out_size (length suh.cells) (length svh.cells)
  ok (record { trellis = trellis; suh = suh; svh = svh; bits = bits })

-- `process_weights_after_loading`, of the output shards from `index` on.
unfoldable pub load_shards :
    {A : Type 0} → Params A → Bool → ℕ → ℕ → List ℕ → Loading (List (Shard A))
unfolding load_shard
load_shards params has_mul1 input_size index [] = ok []
load_shards params has_mul1 input_size index (out_size ∷ sizes) = do
  one ← load_shard params has_mul1 input_size index out_size
  more ← load_shards params has_mul1 input_size (suc index) sizes
  ok (one ∷ more)
