-- ===== src/Compose/Bytes.antt =====
-- `write_shard` and `raw_header`: a safetensors file built from byte ranges of others, and read back.
use vllm_exl3_plugin.Base.{
  ℕ, zero, suc, ◌+◌, ◌-◌, ◌*◌, ◌/◌, ◌%◌, min, Option, none, some, List, [], ◌∷◌, ◌++◌, length, take,
  drop, replicate, if◌then◌else◌, Result, ok, raise, ◌>>=◌,
}
use vllm_exl3_plugin.Base.Text.{Text, text_eq}

abbrev pub Bytes : Type 0
Bytes = List ℕ

-- A tensor's record in a header: its dtype, its shape and its `data_offsets`.
pub record Record : Type 0 where
  pub dtype : ℕ
  pub shape : List ℕ
  pub first : ℕ
  pub last : ℕ

abbrev pub Header : Type 0
Header = List (Text × Record)

-- `json.dumps` and `json.loads` of a header.
pub record Json : Type 0 where
  pub dumps : Header → Bytes
  pub loads : Bytes → Option Header

-- A tensor to copy: where it is in which source, by absolute offsets.
pub record Piece : Type 0 where
  pub name : Text
  pub dtype : ℕ
  pub shape : List ℕ
  pub source : ℕ
  pub first : ℕ
  pub last : ℕ

pub data ShardError : Type 0 where
  short_read : Text → ShardError
  out_of_fuel : ShardError
  not_json : ShardError

-- `_COPY_CHUNK`
abbrev pub copy_chunk : ℕ
copy_chunk = 8388608

-- `n.to_bytes(k, "little")` of a number that fits, and `int.from_bytes`.
unfoldable pub to_bytes : ℕ → ℕ → Bytes
to_bytes zero n = []
to_bytes (suc k) n = n % 256 ∷ to_bytes k (n / 256)

unfoldable pub from_bytes : Bytes → ℕ
from_bytes [] = 0
from_bytes (b ∷ bs) = b + 256 * from_bytes bs

-- `header[name] = record`
unfoldable pub set_record : Text → Record → Header → Header
set_record n r [] = (n, r) ∷ []
set_record n r ((m, q) ∷ header) =
    let rest = set_record n r header in if text_eq n m then (n, r) ∷ header else (m, q) ∷ rest

-- The header's loop, from an offset on.
unfoldable pub build_header : ℕ → List Piece → Header → Header
unfolding set_record
build_header off [] header = header
build_header off (p ∷ pieces) header =
    let n = p.last - p.first in
    build_header (off + n) pieces (
      set_record p.name (record { dtype = p.dtype; shape = p.shape; first = off; last = off + n })
        header)

-- The copy's loop, of `left` bytes from a place on.
unfoldable pub copy : ℕ → Text → Bytes → ℕ → ℕ → Result ShardError Bytes
copy fuel name src at zero = ok []
copy zero name src at (suc left) = raise out_of_fuel
copy (suc fuel) name src at (suc left) =
    let chunk = take (min (suc left) copy_chunk) (drop at src) in
    let rest = copy fuel name src (at + length chunk) (suc left - length chunk) in
    elim chunk [ [] ↦ raise (short_read name) | b ∷ bs ↦ do more ← rest; ok (b ∷ bs ++ more) ]

module _ (json : Json) (files : ℕ → Bytes) where
  unfoldable pub copy_pieces : List Piece → Result ShardError Bytes
  unfolding copy
  copy_pieces [] = ok []
  copy_pieces (p ∷ pieces) = do
    here ← copy (p.last - p.first) p.name (files p.source) p.first (p.last - p.first)
    more ← copy_pieces pieces
    ok (here ++ more)

  -- The header, padded with spaces to a multiple of 8.
  unfoldable pub blob_of : List Piece → Bytes
  unfolding build_header
  blob_of pieces =
      let blob = json.dumps (build_header 0 pieces []) in
      blob ++ replicate ((8 - length blob % 8) % 8) 32

  unfoldable pub write_shard : List Piece → Result ShardError Bytes
  unfolding copy_pieces blob_of to_bytes
  write_shard pieces = do
    payload ← copy_pieces pieces
    ok (to_bytes 8 (length (blob_of pieces)) ++ blob_of pieces ++ payload)

-- The records of a file with absolute offsets.
abbrev pub shifted : ℕ → Header → Header
shifted base [] = []
shifted base ((n, r) ∷ header) =
    (n, record r { first = base + r.first; last = base + r.last }) ∷ shifted base header

-- What `n` says of the file after it: the header, by which the tensors follow at `8 + n`.
abbrev pub read_header : Json → ℕ → Bytes → Result ShardError Header
read_header json n rest = elim (json.loads (take n rest)) [
  | none ↦ raise not_json
  | some header ↦ ok (shifted (8 + n) header)
]

unfoldable pub raw_header : Json → Bytes → Result ShardError Header
unfolding from_bytes
raw_header json file = read_header json (from_bytes (take 8 file)) (drop 8 file)

-- The bytes of a tensor, by its record.
abbrev pub bytes_of : Bytes → Record → Bytes
bytes_of file r = take (r.last - r.first) (drop r.first file)
