-- ===== src/Offload/Dense.antt =====
-- `place`, and the dequantize path's `register_offload`: where one dense tensor lives.
use vllm_exl3_plugin.Base.{
  ℕ, Bool, true, false, ◌&&◌, ◌||◌, not, Option, none, some, List, [], ◌∷◌, ◌++◌, leb,
  if◌then◌else◌,
}
use vllm_exl3_plugin.Base.Text.{Text, codes}
use vllm_exl3_plugin.Offload.State.{
  Offload, has_text, selected, usable, uva_loader, count, offloadable_components,
}

-- A placeholder parameter of a dense linear.
pub record DenseParam : Type 0 where
  pub prefix : Text
  pub name : Text
  pub offloadable : Bool

pub data Place : Type 0 where
  device host : Place

abbrev pub no_params : List Text → Bool
no_params [] = true
no_params (_ ∷ _) = false

-- `.{prefix}.{name}.`
abbrev pub full_name : Text → Text → Text
full_name prefix name = codes "." ++ prefix ++ codes "." ++ name ++ codes "."

module _ (search : Text → Text → Bool) where
  -- A tensor of `nbytes`: where it goes, and the counts after it.
  unfoldable pub place : Offload → DenseParam → ℕ → Place × Offload
  unfolding usable selected uva_loader count
  place o param nbytes =
      let asked = param.offloadable && has_text param.name offloadable_components in
      let o1 : Offload = if asked then uva_loader o else o in
      if not (asked && usable o)
        || no_params o.params
        || not (selected search o.params (full_name param.prefix param.name))
        || leb o.limit o.spent
      then (device, o1)
      else (host, count o1 param.prefix nbytes true)

  -- The finished weight of a layer: its bytes if there is one, and whether it is offloaded already.
  -- Returns the bytes handed to the host.
  unfoldable pub register_offload : Offload → Text → Option ℕ → Bool → ℕ × Offload
  unfolding usable selected uva_loader count
  register_offload o prefix weight already =
      let o1 = uva_loader o in
      if not (usable o) then (0, o1) else elim weight [
        | none ↦ (0, o1)
        | some nbytes ↦
            if not (selected search o.params (full_name prefix (codes "weight")))
              || already
              || leb o.limit o.spent
            then (0, o1)
            else (nbytes, count o1 prefix nbytes true)
      ]
