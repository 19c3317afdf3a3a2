-- ===== src/ExpertCache/Tables.antt =====
-- What table writes and copies change, and what they leave alone.
use native.Mathlib.Nat.{mul-add-div_right, mul-add-mod_self_right, mod-eq_of_lt, div-eq_of_lt}
use mathlib.Core.Path.{subst}
use vllm_exl3_plugin.Base.{
  ℕ, ◌+◌, ◌*◌, ◌/◌, ◌%◌, ◌<◌, ◌≡◌, ◌≢◌, ◌⊎◌, inl, inr, refl, sym, ap, ◌∙◌, ◌&&◌, Option, none, some,
  List, [], ◌∷◌, ◌++◌, arith, ◌==◌, if◌then◌else◌, In, Bool-cases, ℕ_discrete,
}
use vllm_exl3_plugin.ExpertCache.State.{Layout, Ref, Update, Content, update, entry, write, labels}
use vllm_exl3_plugin.ExpertCache.Writes.{entries, fill_labels, set_contents, write_slots}

-- Labels are three, hosted experts are experts of the layer, and an expert has one row for a label.
pub record IsWellFormed (K : Layout) : Type 0 where
  pub label_lt : (l e j a : ℕ) → In (j, a) (K.host l e) → j < labels
  pub expert_lt : (l e j a : ℕ) → In (j, a) (K.host l e) → e < K.experts
  pub one_row : (l e j a a' : ℕ) → In (j, a) (K.host l e) → In (j, a') (K.host l e) → a ≡ a'

pub write-append : (u v : List Update) (t : ℕ → ℕ) → write t (u ++ v) ≡ write (write t u) v
unfolding write
write-append [] v t = refl
write-append ((i, x) ∷ u) v t = write-append u v (update t i x)

flat_parts : (x y e e' n : ℕ) → e < n → e' < n → x * n + e ≡ y * n + e' → (x ≡ y) × (e ≡ e')
flat_parts x y e e' n h k eq =
    let pos : 0 < n = omega arith in
    let a : (x * n + e) / n ≡ x = omega (arith, mul-add-div_right pos x e, div-eq_of_lt h) in
    let b : (y * n + e') / n ≡ y = omega (arith, mul-add-div_right pos y e', div-eq_of_lt k) in
    let c : (x * n + e) % n ≡ e = mul-add-mod_self_right x n e ∙ mod-eq_of_lt h in
    let d : (y * n + e') % n ≡ e' = mul-add-mod_self_right y n e' ∙ mod-eq_of_lt k in
    (sym a ∙ ap (λ t. t / n) eq ∙ b, sym c ∙ ap (λ t. t % n) eq ∙ d)

module _ (K : Layout) where
  pub entry-injective :
      (l j e l' j' e' : ℕ)
      → j < labels
      → j' < labels
      → e < K.experts
      → e' < K.experts
      → entry K l j e ≡ entry K l' j' e'
      → (l ≡ l') × (j ≡ j') × (e ≡ e')
  unfolding entry
  entry-injective l j e l' j' e' p q r s h =
      let (x, y) = flat_parts (l * 3 + j) (l' * 3 + j') e e' K.experts r s h in omega arith

  pub write-entries_ne :
      (l e i : ℕ) (f : ℕ → ℕ → ℕ) (rows : List (ℕ × ℕ)) (t : ℕ → ℕ)
      → ((j a : ℕ) → In (j, a) rows → i ≢ entry K l j e)
      → write t (entries K l e f rows) i ≡ t i
  unfolding write entries
  write-entries_ne l e i f [] t h = refl
  write-entries_ne l e i f ((j, a) ∷ rows) t h =
      write-entries_ne l e i f rows _ (λ j' a' m. h j' a' (inr m))
      ∙ ground (arith, h j a (inl refl))

  ref-In : (l e : ℕ) (refs : List Ref) → In (l, e) refs ⊎ (¬ In (l, e) refs)
  ref-In l e [] = inr (λ m. m)
  ref-In l e ((l', e') ∷ refs) = elim (ref-In l e refs) [
    | inl m ↦ inl (inr m)
    | inr h ↦ elim (Bool-cases (l == l' && e == e')) [
      | inl p ↦ inl (inl (ground arith))
      | inr p ↦ inr (λ m. elim m [ inl eq ↦ absurd (ground arith) | inr m' ↦ h m' ])
    ]
  ]

  label-In :
      (j : ℕ) (rows : List (ℕ × ℕ)) → ((a : ℕ) × In (j, a) rows) ⊎ ((a : ℕ) → ¬ In (j, a) rows)
  label-In j [] = inr (λ a m. m)
  label-In j ((j', a') ∷ rows) = elim (label-In j rows) [
    | inl (a, m) ↦ inl (a, inr m)
    | inr h ↦ elim (ℕ_discrete j j') [
      | yes p ↦ inl (a', inl (ground arith))
      | no p ↦ inr (λ a m. elim m [ inl e ↦ p (ground arith) | inr m' ↦ h a m' ])
    ]
  ]

  pub write-entries_self :
      (l e j a : ℕ) (f : ℕ → ℕ → ℕ) (rows : List (ℕ × ℕ)) (t : ℕ → ℕ)
      → e < K.experts
      → ((j' a' : ℕ) → In (j', a') rows → j' < labels)
      → ((a' : ℕ) → In (j, a') rows → a ≡ a')
      → In (j, a) rows
      → write t (entries K l e f rows) (entry K l j e) ≡ f j a
  unfolding write entries
  write-entries_self l e j a f [] t b lt one m = absurd m
  write-entries_self l e j a f ((j0, a0) ∷ rows) t b lt one m = elim (label-In j rows) [
    | inl (a', m') ↦
        let same : a ≡ a' = one a' (inr m') in
        write-entries_self l e j a f rows _ b (λ j' a'' n. lt j' a'' (inr n))
          (λ a'' n. one a'' (inr n)) (subst (λ x. In (j, x) rows) (sym same) m')
    | inr none_left ↦ elim m [
      | inr m' ↦ absurd (none_left a m')
      | inl here ↦
          let same_label : j ≡ j0 = ground arith in
          let same_row : a ≡ a0 = ground arith in
          write-entries_ne l e (entry K l j e) f rows _ (λ j' a' n eq.
            let (_, jj, _) =
              entry-injective l j e l j' e (lt j a (inl here)) (lt j' a' (inr n)) b b eq in
            none_left a' (subst (λ x. In (x, a') rows) (sym jj) n))
          ∙ ground arith
    ]
  ]

  fill_labels_ne :
      (rows : List (ℕ × ℕ)) (l s l' j' s' : ℕ) (v : Content) (m : ℕ → ℕ → ℕ → Content)
      → (l' ≡ l → s' ≢ s)
      → fill_labels K rows l s v m l' j' s' ≡ m l' j' s'
  unfolding fill_labels
  fill_labels_ne [] l s l' j' s' v m h = refl
  fill_labels_ne ((j, a) ∷ rows) l s l' j' s' v m h =
      fill_labels_ne rows l s l' j' s' v _ h ∙ ground arith

  fill_labels_absent :
      (rows : List (ℕ × ℕ)) (l s l' j' s' : ℕ) (v : Content) (m : ℕ → ℕ → ℕ → Content)
      → ((a : ℕ) → ¬ In (j', a) rows)
      → fill_labels K rows l s v m l' j' s' ≡ m l' j' s'
  unfolding fill_labels
  fill_labels_absent [] l s l' j' s' v m h = refl
  fill_labels_absent ((j, a) ∷ rows) l s l' j' s' v m h =
      fill_labels_absent rows l s l' j' s' v _ (λ a' i. h a' (inr i))
      ∙ fresh_label (ℕ_discrete j' j)
    where
      fresh_label :
          Dec (j' ≡ j) → (if l' == l && (j' == j && s' == s) then v else m l' j' s') ≡ m l' j' s'
      fresh_label (yes p) = absurd (h a (inl (ground arith)))
      fresh_label (no p) = ground arith

  fill_labels_self :
      (rows : List (ℕ × ℕ)) (l s j a : ℕ) (v : Content) (m : ℕ → ℕ → ℕ → Content)
      → In (j, a) rows
      → fill_labels K rows l s v m l j s ≡ v
  unfolding fill_labels
  fill_labels_self [] l s j a v m i = absurd i
  fill_labels_self ((j0, a0) ∷ rows) l s j a v m i = elim (label-In j rows) [
    | inl (a', i') ↦ fill_labels_self rows l s j a' v _ i'
    | inr none_left ↦ elim i [
      | inr i' ↦ absurd (none_left a i')
      | inl here ↦
          let same : j ≡ j0 = ground arith in
          fill_labels_absent rows l s l j s v _ none_left ∙ ground arith
    ]
  ]

  pub set_contents_ne :
      (l e l' j' s' : ℕ) (slot : Option ℕ) (v : Content) (m : ℕ → ℕ → ℕ → Content)
      → (l' ≡ l → slot ≢ some s')
      → set_contents K (l, e) slot v m l' j' s' ≡ m l' j' s'
  unfolding set_contents
  set_contents_ne l e l' j' s' none v m h = refl
  set_contents_ne l e l' j' s' (some s) v m h =
      fill_labels_ne (K.host l e) l s l' j' s' v m (λ p q. h p (ground arith))

  pub set_contents_self :
      (l e j a s : ℕ) (slot : Option ℕ) (v : Content) (m : ℕ → ℕ → ℕ → Content)
      → slot ≡ some s
      → In (j, a) (K.host l e)
      → set_contents K (l, e) slot v m l j s ≡ v
  unfolding set_contents
  set_contents_self l e j a s none v m h i = absurd (ground arith)
  set_contents_self l e j a s (some s0) v m h i =
      let same : s0 ≡ s = ground arith in rw same (fill_labels_self (K.host l e) l s j a v m i)

  module _ (mark : ℕ → Content) (target : ℕ → ℕ → Option ℕ) where
    -- A slot that no copy goes to keeps its bytes.
    pub write_slots_ne :
        (refs : List Ref) (m : ℕ → ℕ → ℕ → Content) (l j s : ℕ)
        → ((e : ℕ) → In (l, e) refs → target l e ≢ some s)
        → write_slots K mark refs target m l j s ≡ m l j s
    unfolding write_slots
    write_slots_ne [] m l j s h = refl
    write_slots_ne ((l0, e0) ∷ refs) m l j s h =
        write_slots_ne refs _ l j s (λ e i. h e (inr i))
        ∙ set_contents_ne l0 e0 l j s (target l0 e0) (mark e0) m
            (λ p q. h e0 (inl (ground arith)) (ground arith))

    -- A slot to which the copies of one expert go holds that expert's bytes.
    pub write_slots_self :
        (refs : List Ref) (m : ℕ → ℕ → ℕ → Content) (l e j a s : ℕ)
        → In (l, e) refs
        → target l e ≡ some s
        → In (j, a) (K.host l e)
        → ((e' : ℕ) → In (l, e') refs → target l e' ≡ some s → e' ≡ e)
        → write_slots K mark refs target m l j s ≡ mark e
    unfolding write_slots
    write_slots_self [] m l e j a s i t h one = absurd i
    write_slots_self ((l0, e0) ∷ refs) m l e j a s (inr i) t h one =
        write_slots_self refs _ l e j a s i t h (λ e' i'. one e' (inr i'))
    write_slots_self ((l0, e0) ∷ refs) m l e j a s (inl eq) t h one = elim (ref-In l e refs) [
      | inl i ↦ write_slots_self refs _ l e j a s i t h (λ e' i'. one e' (inr i'))
      | inr none_left ↦
          let ll : l ≡ l0 = ground arith in
          let ee : e ≡ e0 = ground arith in
          write_slots_ne refs _ l j s
            (λ e' i q. none_left (subst (λ x. In (l, x) refs) (one e' (inr i) q) i))
          ∙ rw (← ll, ← ee) (set_contents_self l e j a s (target l e) (mark e) m t h)
    ]
