-- ===== src/Layers/Gathered.antt =====
-- What a layer's experts stored, gathered into a list, and its shape.
use mathlib.Core.Path.{subst}
use vllm_exl3_plugin.Base.{
  ℕ, zero, suc, ◌+◌, ◌<◌, ◌≡◌, refl, sym, ap, ◌∙◌, true, Option, none, some, List, [], ◌∷◌, ◌++◌,
  length, get_elem?, arith, In, Option-cases, ok, raise, inl, inr,
}
use vllm_exl3_plugin.Base.Text.{Text, codes, text_eq, text_eq-eq}
use vllm_exl3_plugin.Format.Consts.{Checked}
use vllm_exl3_plugin.Layers.Store.{Sub, shape_of}
use vllm_exl3_plugin.Layers.Moe.{Projection, gate, up, down}
use vllm_exl3_plugin.Layers.Ready.{ok-injective}
use vllm_exl3_plugin.Layers.Tables.{lift, prefix_of, present, complete, all_shaped, check_uniform}

-- A list has, at each expert's place from `e` on, the tensor that the expert stored.
unfoldable pub Entries : {A : Type 0} → (ℕ → Option (Sub A)) → ℕ → ℕ → List (Sub A) → Type 0
Entries shards e n tensors =
    (length tensors ≡ n)
    × ((k : ℕ)
        → k < n
        → (t : Sub _) × (shards (e + k) ≡ some t) × (get_elem? tensors k ≡ some t) × In t tensors)

pub Entries-cons :
    {A : Type 0} (shards : ℕ → Option (Sub A)) (e n : ℕ) (t : Sub A) (tensors : List (Sub A))
    → shards e ≡ some t
    → Entries shards (suc e) n tensors
    → Entries shards e (suc n) (t ∷ tensors)
unfolding Entries
Entries-cons shards e n t tensors q (len, at) = (ap suc len, from_here)
  where
    from_here :
        (k : ℕ)
        → k < suc n
        → (x : Sub _) × (shards (e + k) ≡ some x)
          × (get_elem? (t ∷ tensors) k ≡ some x)
          × In x (t ∷ tensors)
    from_here zero low = (t, ap shards (omega arith) ∙ q, refl, inl refl)
    from_here (suc k) low =
        let (x, a, b, c) = at k (omega arith) in (x, ap shards (omega arith) ∙ a, b, inr c)

pub present-some :
    {A : Type 0} (shards : ℕ → Option (Sub A)) (e n : ℕ) (t : Sub A)
    → shards e ≡ some t
    → present shards e (suc n) ≡ ((present shards (suc e) n).0, t ∷ (present shards (suc e) n).1)
unfolding present
present-some shards e n t q = rw (q, present) refl

pub present-none :
    {A : Type 0} (shards : ℕ → Option (Sub A)) (e n : ℕ)
    → shards e ≡ none
    → (present shards e (suc n)).0 ≡ e ∷ (present shards (suc e) n).0
unfolding present
present-none shards e n q = rw (q, present) refl

pub present-Entries :
    {A : Type 0} (shards : ℕ → Option (Sub A)) (e n : ℕ)
    → (present shards e n).0 ≡ []
    → Entries shards e n ((present shards e n).1)
unfolding present Entries
present-Entries shards e zero h = (refl, λ k low. absurd (omega arith))
present-Entries shards e (suc n) h = elim (Option-cases (shards e)) [
  | inl q ↦ absurd (ground (arith, present-none shards e n q, h))
  | inr (t, q) ↦
      let opened = present-some shards e n t q in
      subst (λ r. Entries shards e (suc n) (r.1)) (sym opened)
        (Entries-cons shards e n t ((present shards (suc e) n).1) q
          (present-Entries shards (suc e) n (sym (ap (λ r. r.0) opened) ∙ h)))
]

pub complete-ok :
    {A : Type 0} (r : List ℕ × List (Sub A)) (tensors : List (Sub A))
    → complete r ≡ ok tensors
    → (r.0 ≡ []) × (r.1 ≡ tensors)
complete-ok ([], ts) tensors h = (refl, ok-injective h)
complete-ok (e ∷ missing, ts) tensors h = absurd (ground arith)

pub all_shaped-eq :
    {A : Type 0} (shape : List ℕ) (ts : List (Sub A)) (t : Sub A)
    → all_shaped shape ts ≡ true
    → In t ts
    → shape_of t ≡ shape
all_shaped-eq shape [] t h m = absurd m
all_shaped-eq shape (x ∷ ts) t h (inl e) =
    let one : text_eq (shape_of x) shape ≡ true = ground arith in
    ap shape_of e ∙ text_eq-eq (shape_of x) shape one
all_shaped-eq shape (x ∷ ts) t h (inr m) = all_shaped-eq shape ts t (ground arith) m

pub check_uniform-eq :
    {A : Type 0} (ts : List (Sub A))
    → check_uniform ts ≡ ok tt
    → (shape : List ℕ) × ((t : Sub A) → In t ts → shape_of t ≡ shape)
unfolding check_uniform
check_uniform-eq [] h = absurd (ground arith)
check_uniform-eq (x ∷ ts) h =
    let uniform_so : all_shaped (shape_of x) ts ≡ true = ground arith in
    (
      shape_of x,
      λ t m. elim m [
        | inl e ↦ ap shape_of e
        | inr later ↦ all_shaped-eq (shape_of x) ts t uniform_so later
      ],
    )

pub lift-ok : {B : Type 0} (m : Checked B) (b : B) → lift m ≡ ok b → m ≡ ok b
lift-ok (ok x) b h = ground arith
lift-ok (raise e) b h = absurd (ground arith)

pub second-injective : {a b c d : ℕ} {s t : List ℕ} → a ∷ b ∷ s ≡ c ∷ d ∷ t → b ≡ d
second-injective h = ground arith

pub get_elem-lt :
    {A : Type 0} (xs : List A) (e : ℕ) (t : A) → get_elem? xs e ≡ some t → e < length xs
get_elem-lt [] e t h = absurd (ground arith)
get_elem-lt (x ∷ xs) zero t h = omega arith
get_elem-lt (x ∷ xs) (suc e) t h = omega (arith, get_elem-lt xs e t h)

-- The layer's parameter for a sub-tensor: the gate's and the up projection's share one.
abbrev pub parameter_name : Projection → Text → Text
parameter_name gate name = codes "w13_" ++ name
parameter_name up name = codes "w13_" ++ name
parameter_name down name = codes "w2_" ++ name

pub prefix_of-parameter_name :
    (shard_id : Projection) (name : Text)
    → prefix_of shard_id ++ name ≡ parameter_name shard_id name
prefix_of-parameter_name gate name = refl
prefix_of-parameter_name up name = refl
prefix_of-parameter_name down name = refl
