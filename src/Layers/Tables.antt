-- ===== src/Layers/Tables.antt =====
-- `process_weights_after_loading` of the routed experts: the tables of a layer.
use vllm_exl3_plugin.Base.{
  ℕ, zero, suc, ◌*◌, Bool, true, false, ◌&&◌, not, Option, none, some, List, [], ◌∷◌, ◌++◌, ◌==◌,
  if◌then◌else◌, Result, ok, raise, ◌>>=◌, ◌>>◌,
}
use vllm_exl3_plugin.Base.Text.{Text, codes, text_eq}
use vllm_exl3_plugin.Format.Consts.{FormatError, Checked, tile}
use vllm_exl3_plugin.Format.Widths.{Width, bits_from_trellis_shape}
use vllm_exl3_plugin.Layers.Store.{Sub, width, shape_of}
use vllm_exl3_plugin.Layers.Moe.{Projection, gate, up, down}

pub data MoeError : Type 0 where
  no_parameter : Text → MoeError
  missing_experts : List ℕ → MoeError
  experts_disagree : MoeError
  gate_and_up_differ : MoeError
  of_format : FormatError → MoeError

abbrev pub Loading : Type 0 → Type 0
Loading B = Result MoeError B

abbrev pub lift : {B : Type 0} → Checked B → Loading B
lift (ok b) = ok b
lift (raise e) = raise (of_format e)

-- An `EXL3MoEParameter`'s `shards`: what each expert of each projection stored.
abbrev pub Collected : Type 0 → Type 0
Collected A = Projection → ℕ → Option (Sub A)

-- A layer's parameters by name: `w13_` or `w2_`, and the sub-tensor.
abbrev pub MoeParams : Type 0 → Type 0
MoeParams A = Text → Option (Collected A)

abbrev pub prefix_of : Projection → Text
prefix_of gate = codes "w13_"
prefix_of up = codes "w13_"
prefix_of down = codes "w2_"

-- The experts from `e` on that stored nothing, and what the others stored.
unfoldable pub present : {A : Type 0} → (ℕ → Option (Sub A)) → ℕ → ℕ → List ℕ × List (Sub A)
present shards e zero = ([], [])
present shards e (suc n) =
    let (missing, tensors) = present shards (suc e) n in
    elim (shards e) [ none ↦ (e ∷ missing, tensors) | some t ↦ (missing, t ∷ tensors) ]

abbrev pub complete : {A : Type 0} → List ℕ × List (Sub A) → Loading (List (Sub A))
complete ([], tensors) = ok tensors
complete (e ∷ missing, tensors) = raise (missing_experts (e ∷ missing))

unfoldable pub collect : {A : Type 0} → MoeParams A → ℕ → Projection → Text → Loading (List (Sub A))
unfolding present
collect params experts shard_id name = elim (params (prefix_of shard_id ++ name)) [
  | none ↦ raise (no_parameter (prefix_of shard_id ++ name))
  | some shards ↦ complete (present (shards shard_id) 0 experts)
]

abbrev pub all_shaped : {A : Type 0} → List ℕ → List (Sub A) → Bool
all_shaped shape [] = true
all_shaped shape (t ∷ ts) = text_eq (shape_of t) shape && all_shaped shape ts

unfoldable pub check_uniform : {A : Type 0} → List (Sub A) → Loading (Unit {0})
check_uniform [] = raise experts_disagree
check_uniform (t ∷ ts) = if all_shaped (shape_of t) ts then ok tt else raise experts_disagree

-- One projection's tensors by expert, and the width of its trellis.
pub record Group (A : Type 0) : Type 0 where
  pub trellis : List (Sub A)
  pub suh : List (Sub A)
  pub svh : List (Sub A)
  pub bits : Width

unfoldable pub uniform : {A : Type 0} → MoeParams A → ℕ → Projection → Text → Loading (List (Sub A))
unfolding collect check_uniform
uniform params experts shard_id name = do
  tensors ← collect params experts shard_id name
  check_uniform tensors
  ok tensors

-- The width of the first expert's trellis. A group that passed `check_uniform` has one.
abbrev pub first_bits : {A : Type 0} → List (Sub A) → Bool → Checked Width
first_bits [] mul1 = bits_from_trellis_shape [] (some mul1)
first_bits (t ∷ ts) mul1 = bits_from_trellis_shape (shape_of t) (some mul1)

unfoldable pub group : {A : Type 0} → MoeParams A → ℕ → Bool → Projection → Loading (Group A)
unfolding uniform bits_from_trellis_shape
group params experts mul1 shard_id = do
  trellis ← uniform params experts shard_id (codes "trellis")
  suh ← uniform params experts shard_id (codes "suh")
  svh ← uniform params experts shard_id (codes "svh")
  bits ← lift (first_bits trellis mul1)
  ok (record { trellis = trellis; suh = suh; svh = svh; bits = bits })

abbrev pub width_eq : Width → Width → Bool
width_eq (Width.whole a) (Width.whole b) = a == b
width_eq (Width.half a) (Width.half b) = a == b
width_eq _ _ = false

abbrev pub first_width : {A : Type 0} → List (Sub A) → ℕ
first_width [] = 0
first_width (t ∷ ts) = width t.cells

-- What the layer keeps for the kernel.
pub record Tables (A : Type 0) : Type 0 where
  pub gates : Group A
  pub ups : Group A
  pub downs : Group A
  pub stored_intermediate : ℕ

unfoldable pub process : {A : Type 0} → MoeParams A → ℕ → Bool → Loading (Tables A)
unfolding group
process params experts mul1 = do
  gates ← group params experts mul1 gate
  ups ← group params experts mul1 up
  downs ← group params experts mul1 down
  if not (width_eq gates.bits ups.bits)
      then raise gate_and_up_differ
      else ok (record {
        gates = gates;
        ups = ups;
        downs = downs;
        stored_intermediate = first_width gates.trellis * tile;
      })
