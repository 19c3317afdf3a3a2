-- ===== src/BlockqCache/Entries.antt =====
-- What identifies an entry, and reading and writing one.
use vllm_exl3_plugin.Base.{
  ℕ, ◌-◌, Bool, true, false, ◌||◌, not, Option, none, some, List, [], ◌∷◌, ◌++◌, take, drop, Result,
  ok, raise, if◌then◌else◌,
}
use vllm_exl3_plugin.Base.Text.{Text, codes, text_eq, ends_with}
use vllm_exl3_plugin.Format.Consts.{blockq_block}
use vllm_exl3_plugin.Format.Blockq.{blockq_shapes}
use vllm_exl3_plugin.BlockqCache.Pile.{File, text_le, evict}

-- `OverflowError`, which `int` raises for an infinite number.
pub data CeilingError : Type 0 where
  overflow : CeilingError

-- The ceiling of a number: whether it is above 0, and the whole bytes it makes, of which there are
-- `none` where they are infinite.
abbrev pub ceiling : Bool × Option ℕ → Result CeilingError (Option ℕ)
ceiling (false, bytes) = ok none
ceiling (true, none) = raise overflow
ceiling (true, some bytes) = ok (some bytes)

-- `parse` is `float(value)`, `none` where it does not parse.
unfoldable pub max_bytes : (Text → Option (Bool × Option ℕ)) → Text → Result CeilingError (Option ℕ)
max_bytes parse value = elim (parse value) [
  | some gb ↦ ceiling gb
  | none ↦ elim (parse (codes "16")) [ some gb ↦ ceiling gb | none ↦ ok none ]
]

-- `hashlib`'s digest in hex, Python's decimal of a number, `os.path.join` and `str.isalnum`.
pub record Platform : Type 0 where
  pub sha256 : Text → Text
  pub decimal : ℕ → Text
  pub join_path : Text → Text → Text
  pub is_alnum : ℕ → Bool

-- A file as `os.stat` describes it, or `none` where that fails.
abbrev pub Stat : Type 0
Stat = Option (ℕ × ℕ)

-- `sorted(names)` of the names with their stats.
unfoldable pub insert_name : Text × Stat → List (Text × Stat) → List (Text × Stat)
insert_name n [] = n ∷ []
insert_name n (m ∷ ms) =
    let rest = insert_name n ms in if text_le n.0 m.0 then n ∷ m ∷ ms else m ∷ rest

-- The names that count, in order.
unfoldable pub identity_files : List (Text × Stat) → List (Text × Stat)
unfolding insert_name
identity_files [] = []
identity_files ((name, stat) ∷ names) =
    let rest = identity_files names in
    if ends_with name (codes ".safetensors")
      || text_eq name (codes "config.json")
      || text_eq name (codes "model.safetensors.index.json")
    then insert_name (name, stat) rest
    else rest

module _ (P : Platform) where
  -- What is hashed of the files: `none` if one cannot be described.
  unfoldable pub described : List (Text × Stat) → Option Text
  described [] = some []
  described ((name, stat) ∷ names) =
      let rest = described names in
      elim stat [
        | none ↦ none
        | some (size, mtime) ↦ elim rest [
          | none ↦ none
          | some text ↦ some (
              codes "|"
              ++ name
              ++ codes ":"
              ++ P.decimal size
              ++ codes ":"
              ++ P.decimal mtime
              ++ text)
        ]
      ]

  -- `real` is the resolved path and `base` its last part. The listing is `none` where it fails.
  unfoldable pub local_identity : Text → Text → Option (List (Text × Stat)) → Option Text
  unfolding identity_files described
  local_identity real base none = none
  local_identity real base (some names) = elim (identity_files names) [
    | [] ↦ none
    | n ∷ ns ↦ elim (described (n ∷ ns)) [
      | none ↦ none
      | some text ↦ some (base ++ codes "@local-" ++ take 16 (P.sha256 (real ++ text)))
    ]
  ]

  -- `directory` is the local checkout's identity if the name is a directory.
  unfoldable pub checkpoint_identity :
      Option Text → Option Text → Option (Option Text) → Option Text
  checkpoint_identity none commit_hash directory = none
  checkpoint_identity (some []) commit_hash directory = none
  checkpoint_identity (some (c ∷ cs)) commit_hash (some local) = local
  checkpoint_identity (some (c ∷ cs)) none none = none
  checkpoint_identity (some (c ∷ cs)) (some []) none = none
  checkpoint_identity (some (c ∷ cs)) (some (h ∷ hs)) none = some (c ∷ cs ++ codes "@" ++ h ∷ hs)

-- A stored tensor: its shape and its entries along the first dimension.
pub record Tensor : Type 0 where
  pub shape : List ℕ
  pub rows : List (List ℕ)

abbrev pub shape_eq : List ℕ → List ℕ → Bool
shape_eq = text_eq

-- One round of the loop over the wanted tensors. A tensor that the file lacks raises, which is a miss.
unfoldable pub read_tensor : (Text → Option Tensor) → Text → List ℕ → ℕ → ℕ → Option (List (List ℕ))
read_tensor file name shape row_start row_stop = elim (file name) [
  | none ↦ none
  | some t ↦
      if shape_eq t.shape shape
      then some (take (row_stop - row_start) (drop row_start t.rows))
      else none
]

-- The rows of `bq_q`, `bq_s` and `bq_r`. The file is `none` where it is not there or cannot be opened.
unfoldable pub read :
    Option (Text → Option Tensor)
    → ℕ
    → ℕ
    → ℕ
    → ℕ
    → Option (List (List ℕ) × List (List ℕ) × List (List ℕ))
unfolding read_tensor
read none rows hidden row_start row_stop = none
read (some file) rows hidden row_start row_stop = elim (blockq_shapes rows hidden blockq_block) [
  | raise _ ↦ none
  | ok want ↦ elim (read_tensor file (codes "bq_q") want.bq_q row_start row_stop) [
    | none ↦ none
    | some q ↦ elim (read_tensor file (codes "bq_s") want.bq_s row_start row_stop) [
      | none ↦ none
      | some s ↦ elim (read_tensor file (codes "bq_r") want.bq_r row_start row_stop) [
        | none ↦ none
        | some r ↦ some (q, s, r)
      ]
    ]
  ]
]

-- The files of a directory, by path, with what each holds.
abbrev pub Disk : Type 0
Disk = Text → Option (List ℕ)

abbrev pub put : Disk → Text → Option (List ℕ) → Disk
put disk path bytes other = if text_eq other path then bytes else disk other

-- What the file system answers to a write: whether the directory can be made, what a save leaves in
-- the temporary file and whether it succeeded, whether the rename did, whether the clean-up did.
pub record Answers : Type 0 where
  pub made : Bool
  pub saved : Bool
  pub part : Option (List ℕ)
  pub replaced : Bool
  pub unlinked : Bool

-- The paths that an eviction unlinks; `refused` says which unlinks fail.
unfoldable pub remove_all : (Text → Bool) → List File → Disk → Disk
remove_all refused [] disk = disk
remove_all refused (f ∷ fs) disk =
    remove_all refused fs (if refused f.path then disk else put disk f.path none)

-- `limit` is what `max_bytes()` gives, which `evict` asks for first. What it raises is caught like a
-- failed write; the temporary file is gone by then.
unfoldable pub write :
    Answers
    → (Text → Bool)
    → Result CeilingError (Option ℕ)
    → Option (List (Text × Option File))
    → Text
    → Text
    → List ℕ
    → Disk
    → Disk × Bool
unfolding evict remove_all
write a refused limit directory path tmp bytes disk =
    let landed = put (put disk path (some bytes)) tmp none in
    if not a.made
    then (if a.unlinked then put disk tmp none else disk, false)
    else if not a.saved
    then (put disk tmp (if a.unlinked then none else a.part), false)
    else if not a.replaced
    then (put disk tmp (if a.unlinked then none else some bytes), false)
    else elim limit [
      | raise _ ↦ (landed, false)
      | ok ceiling ↦ (remove_all refused (evict ceiling path directory).0 landed, true)
    ]
