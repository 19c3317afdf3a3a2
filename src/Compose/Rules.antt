-- ===== src/Compose/Rules.antt =====
-- `select` and the rules of `main`: which module comes from which donor.
use vllm_exl3_plugin.Base.{
  ℕ, Bool, true, false, ◌&&◌, ◌||◌, not, Option, none, some, List, [], ◌∷◌, ◌++◌, ◌==◌,
  if◌then◌else◌, Result, ok, raise, ◌>>=◌,
}
use vllm_exl3_plugin.Base.Text.{Text, codes, text_eq, ends_with, strip_prefix}
use vllm_exl3_plugin.Format.Keys.{quantized_module_keys}
use vllm_exl3_plugin.Compose.Modules.{module_key}
use vllm_exl3_plugin.Offload.State.{has_text, occurs}

-- `re.search` and `fnmatch.fnmatchcase`, as tests of a pattern and a text.
pub record Patterns : Type 0 where
  pub search : Text → Text → Bool
  pub glob : Text → Text → Bool

-- The keys of `modules_of`, and `format.quantized_module_keys`, as lists in which one may repeat.
abbrev pub module_keys : List Text → List Text
module_keys [] = []
module_keys (n ∷ names) = module_key n ∷ module_keys names

abbrev pub keep_if : (Text → Bool) → List Text → List Text
keep_if p [] = []
keep_if p (m ∷ ms) = let rest = keep_if p ms in if p m then m ∷ rest else rest

pub data RuleError : Type 0 where
  no_such_selector : Text → RuleError
  before_any_from : RuleError
  nothing_quantized : Text → RuleError
  absent_in_donor : Text → RuleError
  not_in_base : RuleError
  unmet_width : RuleError
  nothing_selected : RuleError

pub data Rule : Type 0 where
  from_dir : ℕ → Rule
  keep take restore : Text → Rule
  map_file : List (Text × ℕ) → Rule

-- The known donors in the order of their `--from`, the current one, and the two dicts.
pub record Rules : Type 0 where
  pub donors : List ℕ
  pub current : Option ℕ
  pub assign : Text → Option ℕ
  pub restored : Text → Option ℕ

-- The names of a checkpoint's tensors, and the width of each module that has a trellis.
pub record Checkpoint : Type 0 where
  pub names : List Text
  pub bits : Text → Option ℕ

abbrev starts_with : Text → Text → Bool
starts_with p t = elim (strip_prefix p t) [ none ↦ false | some _ ↦ true ]

module _ (P : Patterns) where
  -- `_CATEGORY`, `none` for another name.
  unfoldable pub category : Text → Option (Text → Bool)
  unfolding occurs
  category sel =
      if text_eq sel (codes "head")
      then some (λ m. text_eq m (codes "lm_head") || ends_with m (codes ".lm_head"))
      else if text_eq sel (codes "embed")
      then some (λ m. ends_with m (codes "embed_tokens"))
      else if text_eq sel (codes "vision")
      then some (
          P.search (
            codes
              "(^|\\.)(vision|visual|vision_tower|vision_adapter|vision_projection|mm_projector|multi_modal|audio_tower)"))
      else if text_eq sel (codes "mtp")
      then some
          (λ m. text_eq m (codes "mtp") || starts_with (codes "mtp.") m || occurs (codes ".mtp.") m)
      else if text_eq sel (codes "experts")
      then some (P.search (codes "(^|\\.)experts\\.\\d+\\."))
      else if text_eq sel (codes "shared-experts")
      then some (occurs (codes "shared_expert"))
      else if text_eq sel (codes "attn")
      then some (P.search (codes "(^|\\.)(self_attn|linear_attn|attn)\\."))
      else if text_eq sel (codes "mlp")
      then some (P.search (codes "(^|\\.)mlp\\."))
      else if text_eq sel (codes "all")
      then some (λ m. true)
      else none

  abbrev pub in_category : Text → Text → Bool
  in_category sel m = elim (category sel) [ none ↦ false | some p ↦ p m ]

  abbrev pub is_glob : Text → Bool
  is_glob sel = occurs (codes "*") sel || occurs (codes "?") sel || occurs (codes "[") sel

  unfoldable pub select : Text → List Text → List Text → Result RuleError (List Text)
  unfolding category occurs
  select sel modules quantized =
      if text_eq sel (codes "quantized")
      then ok quantized
      else if text_eq sel (codes "body")
      then ok (
          keep_if
            (λ m. not (
              in_category (codes "head") m
              || in_category (codes "embed") m
              || in_category (codes "vision") m
              || in_category (codes "mtp") m))
            quantized)
      else elim (category sel) [
        | some p ↦ ok (keep_if p modules)
        | none ↦ elim (strip_prefix (codes "re:") sel) [
          | some pattern ↦ ok (keep_if (P.search pattern) modules)
          | none ↦
              if is_glob sel
              then ok (keep_if (P.glob sel) modules)
              else if has_text sel modules
              then ok (sel ∷ [])
              else raise (no_such_selector sel)
        ]
      ]

abbrev pub drop_all : List Text → (Text → Option ℕ) → Text → Option ℕ
drop_all chosen dict m = if has_text m chosen then none else dict m

abbrev pub set_all : List Text → ℕ → (Text → Option ℕ) → Text → Option ℕ
set_all chosen d dict m = if has_text m chosen then some d else dict m

abbrev pub missing_from : List Text → List Text → List Text
missing_from modules chosen = keep_if (λ m. not (has_text m modules)) chosen

abbrev pub known_donor : ℕ → List ℕ → Bool
known_donor d [] = false
known_donor d (e ∷ es) = (d == e) || known_donor d es

abbrev pub has_bits : Option ℕ → ℕ → Bool
has_bits none k = false
has_bits (some j) k = j == k

module _ (P : Patterns) (base : Checkpoint) (donor : ℕ → Checkpoint) where
  -- The first donor that has a module at a width.
  unfoldable pub supplier : List ℕ → Text → ℕ → Option ℕ
  supplier [] m k = none
  supplier (d ∷ ds) m k =
      let rest = supplier ds m k in
      if has_text m (module_keys (donor d).names) && has_bits ((donor d).bits m) k
      then some d
      else rest

  -- The loop over a map's modules.
  unfoldable pub place_map : List (Text × ℕ) → Rules → Result RuleError Rules
  unfolding supplier
  place_map [] r = ok r
  place_map ((m, k) ∷ wanted) r =
      if has_bits (base.bits m) k then place_map wanted r else elim (supplier r.donors m k) [
        | none ↦ raise unmet_width
        | some d ↦ place_map wanted (record r {
          assign = set_all (m ∷ []) d r.assign;
          restored = drop_all (m ∷ []) r.restored;
        })
      ]

  abbrev pub keys_of_map : List (Text × ℕ) → List Text
  keys_of_map [] = []
  keys_of_map ((m, k) ∷ wanted) = m ∷ keys_of_map wanted

  abbrev pub base_keys : List Text
  base_keys = module_keys base.names

  abbrev pub base_quant : List Text
  base_quant = quantized_module_keys base.names

  abbrev pub take_from : ℕ → List Text → Rules → Result RuleError Rules
  take_from d chosen r = elim (missing_from base_keys chosen) [
    | m ∷ ms ↦ raise not_in_base
    | [] ↦
        ok (record r { assign = set_all chosen d r.assign; restored = drop_all chosen r.restored })
  ]

  abbrev pub restore_from : ℕ → Text → List Text → Rules → Result RuleError Rules
  restore_from d sel [] r = raise (nothing_quantized sel)
  restore_from d sel (m ∷ ms) r = elim (missing_from (module_keys (donor d).names) (m ∷ ms)) [
    | x ∷ xs ↦ raise (absent_in_donor sel)
    | [] ↦
        ok (record r {
          restored = set_all (m ∷ ms) d r.restored;
          assign = drop_all (m ∷ ms) r.assign;
        })
  ]

  unfoldable pub map_from : List (Text × ℕ) → Rules → Result RuleError Rules
  unfolding place_map module_key
  map_from wanted r = elim (missing_from base_keys (keys_of_map wanted)) [
    | m ∷ ms ↦ raise not_in_base
    | [] ↦ place_map wanted r
  ]

  -- One rule of the command line.
  unfoldable pub step : Rules → Rule → Result RuleError Rules
  unfolding select map_from quantized_module_keys module_key
  step r (from_dir d) = ok (record r {
    donors = if known_donor d r.donors then r.donors else r.donors ++ d ∷ [];
    current = some d;
  })
  step r (keep sel) = do
    chosen ← select P sel base_keys base_quant
    ok (record r { assign = drop_all chosen r.assign; restored = drop_all chosen r.restored })
  step r (restore sel) = elim (r.current) [
    | none ↦ raise before_any_from
    | some d ↦ do
      chosen ← select P sel base_keys base_quant
      restore_from d sel (keep_if (λ m. has_text m base_quant) chosen) r
  ]
  step r (map_file wanted) = elim (r.current) [
    | none ↦ raise before_any_from
    | some d ↦ map_from wanted r
  ]
  step r (take sel) = elim (r.current) [
    | none ↦ raise before_any_from
    | some d ↦ do
      chosen ← select P sel (module_keys (donor d).names) (quantized_module_keys (donor d).names)
      take_from d chosen r
  ]

  unfoldable pub run : Rules → List Rule → Result RuleError Rules
  unfolding step
  run r [] = ok r
  run r (rule ∷ rules) = do next ← step r rule; run next rules

-- No donor, no module assigned or restored.
abbrev pub no_rules : Rules
no_rules = record { donors = []; current = none; assign = λ m. none; restored = λ m. none }

module _ (P : Patterns) (base : Checkpoint) (donor : ℕ → Checkpoint) where
  abbrev pub any_given : Rules → List Text → Bool
  any_given r [] = false
  any_given r (m ∷ ms) = elim (r.assign m) [
    | some d ↦ true
    | none ↦ elim (r.restored m) [ some d ↦ true | none ↦ any_given r ms ]
  ]

  -- A command line, which has to change something.
  unfoldable pub resolve : List Rule → Result RuleError Rules
  unfolding run module_key
  resolve rules = do
    r ← run P base donor no_rules rules
    if any_given r (module_keys base.names) then ok r else raise nothing_selected
