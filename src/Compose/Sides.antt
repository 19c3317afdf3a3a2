-- ===== src/Compose/Sides.antt =====
-- The shapes by suffix that `check_module` makes of a module's names, as what the names say.
use vllm_exl3_plugin.Base.{
  ℕ, ◌≡◌, ◌⊎◌, inl, inr, refl, sym, ap, ◌∙◌, true, Option, none, some, List, [], ◌∷◌, ◌++◌, length,
  drop, arith, In, All, Bool-cases,
}
use mathlib.Core.Path.{subst}
use vllm_exl3_plugin.Base.Text.{Text, text_eq, text_eq-eq, text_eq_refl}
use vllm_exl3_plugin.Compose.Compare.{shapes_of}

-- A name begins with the module's.
abbrev pub Begins : Text → Text → Type 0
Begins key n = (s : Text) × (n ≡ key ++ s)

-- What a side has of a suffix: the shape of the tensor whose name the module's and the suffix make,
-- or nothing where there is no such tensor.
abbrev pub Has : Text → List Text → (Text → List ℕ) → Text → Option (List ℕ) → Type 0
Has key group shape suffix o =
    (In (key ++ suffix) group × (o ≡ some (shape (key ++ suffix))))
    ⊎ ((In (key ++ suffix) group → ⊥) × (o ≡ none))

drop-append : (key s : Text) → drop (length key) (key ++ s) ≡ s
drop-append [] s = refl
drop-append (c ∷ key) s = drop-append key s

pub shapes_of-Has :
    (key : Text) (group : List Text) (shape : Text → List ℕ) (suffix : Text)
    → All (Begins key) group
    → Has key group shape suffix (shapes_of key group shape suffix)
unfolding shapes_of
shapes_of-Has key [] shape suffix h = inr (λ m. m, refl)
shapes_of-Has key (n ∷ ns) shape suffix ((s, e), h) = elim (shapes_of-Has key ns shape suffix h) [
  | inl (m, q) ↦ inl (inr m, rw q refl)
  | inr (missing, q) ↦
      let own : drop (length key) n ≡ s = ap (drop (length key)) e ∙ drop-append key s in
      elim (Bool-cases (text_eq suffix (drop (length key) n))) [
        | inl t ↦
            let same : key ++ suffix ≡ n =
              ap (λ z. key ++ z) (text_eq-eq suffix (drop (length key) n) t ∙ own) ∙ sym e in
            inl (inl same, rw (q, t) (ap (λ z. some (shape z)) (sym same)))
        | inr t ↦ inr (
          λ m. elim m [
            | inr l ↦ missing l
            | inl same ↦
                let matches : suffix ≡ drop (length key) n =
                  sym (drop-append key suffix) ∙ ap (drop (length key)) same in
                let found : text_eq suffix (drop (length key) n) ≡ true =
                  subst (λ z. text_eq suffix z ≡ true) matches (text_eq_refl suffix) in
                absurd (ground arith)
          ],
          rw (q, t) refl,
        )
      ]
]
