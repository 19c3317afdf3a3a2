-- ===== src/Env.antt =====
-- vllm_exl3_plugin/env.py: the plugin's environment variables. The warning about a deprecated name is
-- left out.
use vllm_exl3_plugin.Base.{Bool, Option, none, some, ◌++◌}
use vllm_exl3_plugin.Base.Text.{Text, codes, text_eq}

-- `EXL3_<name>`, or the deprecated `VLLM_EXL3_<name>`, or the default.
unfoldable pub get : (Text → Option Text) → Text → Text → Text
get environ name default = elim (environ (codes "EXL3_" ++ name)) [
  | some value ↦ value
  | none ↦ elim (environ (codes "VLLM_EXL3_" ++ name)) [ some legacy ↦ legacy | none ↦ default ]
]

unfoldable pub flag : (Text → Option Text) → Text → Bool
unfolding get
flag environ name = text_eq (get environ name (codes "0")) (codes "1")
