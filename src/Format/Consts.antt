-- ===== src/Format/Consts.antt =====
-- The constants of format.py and the errors that its functions raise.
use vllm_exl3_plugin.Base.{
  ℕ, zero, suc, ◌%◌, ◌+◌, ◌-◌, ◌*◌, ◌/◌, ◌<◌, ◌≡◌, refl, arith, Bool, Result, raise, ok, ◌==◌,
}

abbrev pub tile : ℕ
tile = 16

abbrev pub had_block : ℕ
had_block = 128

abbrev pub pad_to_default : ℕ
pad_to_default = 128

abbrev pub min_bits : ℕ
min_bits = 1

abbrev pub max_bits : ℕ
max_bits = 8

abbrev pub blockq_block : ℕ
blockq_block = 32

-- One constructor for each `raise EXL3FormatError`, with the numbers that its message names, and
-- Python's own error for a division by zero.
pub data FormatError : Type 0 where
  not_three_dimensional not_two_dimensional : FormatError
  no_such_width : ℕ → FormatError
  half_without_mul1 : ℕ → FormatError
  implausible_width : ℕ → FormatError
  not_tile_multiple : ℕ → ℕ → FormatError
  no_bit_width : FormatError
  uneven_split : ℕ → ℕ → FormatError
  cut_block : ℕ → FormatError
  unknown_partitions : FormatError
  no_such_shard : ℕ → ℕ → FormatError
  cut_fused_block : ℕ → ℕ → FormatError
  shared_scale_block : ℕ → ℕ → FormatError
  odd_hidden : ℕ → FormatError
  tied_trellis_embedding : FormatError
  zero_division : FormatError

abbrev pub Checked : Type 0 → Type 0
Checked A = Result FormatError A

-- `a // b`
unfoldable pub floor_div : ℕ → ℕ → Checked ℕ
floor_div a zero = raise zero_division
floor_div a (suc b) = ok (a / suc b)

pub floor_div_pos : (a b : ℕ) → 0 < b → floor_div a b ≡ ok (a / b)
unfolding floor_div
floor_div_pos a zero h = absurd (omega arith)
floor_div_pos a (suc b) h = refl

-- Round a feature count up to a multiple.
unfoldable pub pad_dim : ℕ → ℕ → Checked ℕ
unfolding floor_div
pad_dim n zero = raise zero_division
pad_dim n (suc p) = ok ((n + suc p - 1) / suc p * suc p)

-- Whether a dimension can be split at `n` without straddling a Hadamard block.
unfoldable pub is_had_aligned : ℕ → Bool
is_had_aligned n = n % had_block == 0
