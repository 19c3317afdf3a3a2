-- ===== src/Compose/Write.antt =====
-- `write`: what every shard of the output holds, and where each tensor comes from.
use vllm_exl3_plugin.Base.{
  ℕ, Bool, ◌||◌, Option, none, some, List, [], ◌∷◌, ◌++◌, ◌==◌, if◌then◌else◌, Result, ok, raise,
  ◌>>=◌,
}
use vllm_exl3_plugin.Base.Text.{Text, codes, text_eq, ends_with}
use vllm_exl3_plugin.Offload.State.{has_text}
use vllm_exl3_plugin.Compose.Modules.{modules_of}

-- The base's tensors, each with its shard.
abbrev pub Shards : Type 0
Shards = List (Text × ℕ)

abbrev pub names_of : Shards → List Text
names_of [] = []
names_of ((n, s) ∷ base) = n ∷ names_of base

-- `base_t[name][0]`
unfoldable pub shard_of : Text → Shards → Option ℕ
shard_of name [] = none
shard_of name ((n, s) ∷ base) =
    let rest = shard_of name base in if text_eq name n then some s else rest

-- An entry of `assign`, or, where it is dense, of `restore`: the module and its donor.
pub record Move : Type 0 where
  pub key : Text
  pub donor : ℕ
  pub dense : Bool

pub data Origin : Type 0 where
  from_base : Origin
  from_donor : ℕ → Origin

pub data ComposeError : Type 0 where
  no_module : Text → ComposeError
  nothing_incoming : ℕ → ComposeError

abbrev pub dense_names : List Text → List Text
dense_names [] = []
dense_names (n ∷ ns) =
    if ends_with n (codes ".weight") || ends_with n (codes ".bias")
    then n ∷ dense_names ns
    else dense_names ns

-- What a move brings. `donors` has the names of each donor's tensors.
unfoldable pub carried : (ℕ → List Text) → Move → List Text
unfolding modules_of
carried donors mv =
    let group = modules_of (donors mv.donor) mv.key in if mv.dense then dense_names group else group

abbrev pub first_of : List Text → Option Text
first_of [] = none
first_of (n ∷ ns) = some n

-- The shard of the first of a module's names, in which the module's tensors go away and arrive.
unfoldable pub home : Shards → Text → Option ℕ
unfolding shard_of modules_of
home base key = elim (first_of (modules_of (names_of base) key)) [
  | none ↦ none
  | some n ↦ shard_of n base
]

abbrev pub in_shard {ℓ} : {A : Type ℓ} → ℕ → List A → List (ℕ × A)
in_shard s [] = []
in_shard s (x ∷ xs) = (s, x) ∷ in_shard s xs

-- `replaced` and `incoming` after the moves, as pairs of a shard and what is of it.
abbrev pub Ledger : Type 0
Ledger = List (ℕ × Text) × List (ℕ × (Text × ℕ))

abbrev pub with_donor : ℕ → List Text → List (Text × ℕ)
with_donor d [] = []
with_donor d (n ∷ ns) = (n, d) ∷ with_donor d ns

unfoldable pub move_all : Shards → (ℕ → List Text) → List Move → Result ComposeError Ledger
unfolding home carried modules_of
move_all base donors [] = ok ([], [])
move_all base donors (mv ∷ moves) = elim (home base mv.key) [
  | none ↦ raise (no_module mv.key)
  | some s ↦ do
    later ← move_all base donors moves
    ok (
      in_shard s (modules_of (names_of base) mv.key) ++ later.0,
      in_shard s (with_donor mv.donor (carried donors mv)) ++ later.1,
    )
]

-- What a ledger has of a shard.
unfoldable pub at_shard {ℓ} : {A : Type ℓ} → ℕ → List (ℕ × A) → List A
at_shard s [] = []
at_shard s ((t, x) ∷ xs) = let rest = at_shard s xs in if s == t then x ∷ rest else rest

abbrev pub Entries : Type 0
Entries = List (Text × Origin)

-- The base's tensors of a shard that do not go away.
unfoldable pub kept : Shards → List Text → ℕ → Entries
kept [] drop s = []
kept ((n, t) ∷ base) drop s =
    let rest = kept base drop s in
    if s == t then (if has_text n drop then rest else (n, from_base) ∷ rest) else rest

abbrev pub arrived : List (Text × ℕ) → Entries
arrived [] = []
arrived ((n, d) ∷ incoming) = (n, from_donor d) ∷ arrived incoming

-- One shard of the output. A shard that loses nothing is linked; one that loses and gets nothing has
-- no entry in `incoming`, which is a `KeyError`.
unfoldable pub write_shard_of : Shards → Ledger → ℕ → Result ComposeError Entries
unfolding at_shard kept
write_shard_of base ledger s = elim (at_shard s ledger.0) [
  | [] ↦ ok (kept base [] s)
  | n ∷ drop ↦ elim (at_shard s ledger.1) [
    | [] ↦ raise (nothing_incoming s)
    | i ∷ incoming ↦ ok (kept base (n ∷ drop) s ++ arrived (i ∷ incoming))
  ]
]

unfoldable pub write_shards : Shards → Ledger → List ℕ → Result ComposeError (List (ℕ × Entries))
unfolding write_shard_of
write_shards base ledger [] = ok []
write_shards base ledger (s ∷ shards) = do
  entries ← write_shard_of base ledger s
  rest ← write_shards base ledger shards
  ok ((s, entries) ∷ rest)

-- The output, shard by shard of the base's `shards`.
unfoldable pub write :
    Shards → (ℕ → List Text) → List Move → List ℕ → Result ComposeError (List (ℕ × Entries))
unfolding move_all write_shards
write base donors moves shards = do
  ledger ← move_all base donors moves
  write_shards base ledger shards
