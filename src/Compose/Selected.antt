-- ===== src/Compose/Selected.antt =====
-- What a selector selects is a module of those that it was given.
use mathlib.Core.Path.{subst}
use vllm_exl3_plugin.Base.{
  ◌≡◌, inl, inr, refl, sym, ap, ◌∙◌, Bool, true, false, not, Option, none, some, List, [], ◌∷◌,
  ◌++◌, arith, if◌then◌else◌, In, Bool-cases, Result, ok, raise,
}
use vllm_exl3_plugin.Base.Text.{Text, codes, text_eq, strip_prefix, strip_suffix-append}
use vllm_exl3_plugin.Format.Keys.{
  quantized_module_keys, In-quantized_module_keys, first_key, trellis_suffix,
}
use vllm_exl3_plugin.Offload.State.{has_text}
use vllm_exl3_plugin.Layers.Ready.{ok-injective}
use vllm_exl3_plugin.Compose.Modules.{module_key}
use vllm_exl3_plugin.Compose.Lookups.{has_text-In}
use vllm_exl3_plugin.Compose.Rules.{
  Patterns, module_keys, keep_if, RuleError, no_such_selector, category, is_glob, select,
  missing_from,
}

pub keep_if-In :
    (p : Text → Bool) (m : Text) (ms : List Text) → In m (keep_if p ms) → In m ms × (p m ≡ true)
keep_if-In p m [] i = absurd i
keep_if-In p m (x ∷ ms) i = elim (Bool-cases (p x)) [
  | inl e ↦ elim (subst (In m) (ap (λ b. if b then x ∷ keep_if p ms else keep_if p ms) e) i) [
    | inl q ↦ (inl q, ap p q ∙ e)
    | inr l ↦ (let (a, b) = keep_if-In p m ms l in (inr a, b))
  ]
  | inr e ↦
      let later = subst (In m) (ap (λ b. if b then x ∷ keep_if p ms else keep_if p ms) e) i in
      let (a, b) = keep_if-In p m ms later in (inr a, b)
]

In-keep_if :
    (p : Text → Bool) (m : Text) (ms : List Text) → In m ms → p m ≡ true → In m (keep_if p ms)
In-keep_if p m [] i h = absurd i
In-keep_if p m (x ∷ ms) (inl q) h = let e : p x ≡ true = ap p (sym q) ∙ h in rw e (inl q)
In-keep_if p m (x ∷ ms) (inr l) h = elim (Bool-cases (p x)) [
  | inl e ↦ rw e (inr (In-keep_if p m ms l h))
  | inr e ↦ rw e (In-keep_if p m ms l h)
]

pub missing_from-nil :
    (modules chosen : List Text) (m : Text)
    → missing_from modules chosen ≡ []
    → In m chosen
    → In m modules
missing_from-nil modules chosen m h i = elim (Bool-cases (has_text m modules)) [
  | inl e ↦ has_text-In m modules e
  | inr e ↦
      absurd (subst (In m) h (In-keep_if (λ m. not (has_text m modules)) m chosen i (ap not e)))
]

module_keys-In : (n : Text) (names : List Text) → In n names → In (module_key n) (module_keys names)
module_keys-In n [] i = absurd i
module_keys-In n (x ∷ names) (inl e) = inl (ap module_key e)
module_keys-In n (x ∷ names) (inr l) = inr (module_keys-In n names l)

-- A quantized module's key is a module's.
pub quantized-In :
    (names : List Text) (m : Text) → In m (quantized_module_keys names) → In m (module_keys names)
unfolding module_key first_key
quantized-In names m i =
    let (stored, _) = (In-quantized_module_keys names m).0 i in
    let key : module_key (m ++ trellis_suffix) ≡ m =
      rw (strip_suffix-append m trellis_suffix, module_key) refl in
    subst (λ k. In k (module_keys names)) key (module_keys-In (m ++ trellis_suffix) names stored)

-- A result that, where it is a list, has only modules of another.
unfoldable pub Inside : List Text → Result RuleError (List Text) → Type 0
Inside modules r = (chosen : List Text) → r ≡ ok chosen → (m : Text) → In m chosen → In m modules

ok-Inside :
    (modules xs : List Text) → ((m : Text) → In m xs → In m modules) → Inside modules (ok xs)
unfolding Inside
ok-Inside modules xs f chosen e m i = f m (subst (In m) (sym (ok-injective e)) i)

raise-Inside : (modules : List Text) (e : RuleError) → Inside modules (raise e)
unfolding Inside
raise-Inside modules e chosen h = absurd (ground arith)

if-Inside :
    (modules : List Text) (b : Bool) (x y : Result RuleError (List Text))
    → (b ≡ true → Inside modules x)
    → Inside modules y
    → Inside modules (if b then x else y)
if-Inside modules true x y f g = f refl
if-Inside modules false x y f g = g

elim-Inside :
    {A : Type 0} (modules : List Text) (o : Option A) (f : A → Result RuleError (List Text))
    (y : Result RuleError (List Text))
    → ((a : A) → Inside modules (f a))
    → Inside modules y
    → Inside modules (elim o [ none ↦ y | some a ↦ f a ])
elim-Inside modules none f y p q = q
elim-Inside modules (some a) f y p q = p a

keep_if-Inside :
    (modules xs : List Text) (p : Text → Bool)
    → ((m : Text) → In m xs → In m modules)
    → Inside modules (ok (keep_if p xs))
keep_if-Inside modules xs p f =
    ok-Inside modules (keep_if p xs) (λ m i. f m ((keep_if-In p m xs i).0))

pub select-Inside :
    (P : Patterns) (sel : Text) (modules quantized : List Text)
    → ((m : Text) → In m quantized → In m modules)
    → Inside modules (select P sel modules quantized)
unfolding select
select-Inside P sel modules quantized inside =
    if-Inside modules (text_eq sel (codes "quantized")) _ _
      (λ _. ok-Inside modules quantized inside)
      (if-Inside modules (text_eq sel (codes "body")) _ _
        (λ _. keep_if-Inside modules quantized _ inside)
        (elim-Inside modules (category P sel) _ _ (λ p. keep_if-Inside modules modules p (λ m i. i))
          (elim-Inside modules (strip_prefix (codes "re:") sel) _ _
            (λ pattern. keep_if-Inside modules modules (P.search pattern) (λ m i. i))
            (if-Inside modules (is_glob P sel) _ _
              (λ _. keep_if-Inside modules modules (P.glob sel) (λ m i. i))
              (if-Inside modules (has_text sel modules) _ _
                (λ e. ok-Inside modules (sel ∷ []) (λ m i. elim i [
                  | inl q ↦ subst (λ z. In z modules) (sym q) (has_text-In sel modules e)
                  | inr l ↦ absurd l
                ]))
                (raise-Inside modules (no_such_selector sel)))))))
