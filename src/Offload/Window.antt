-- ===== src/Offload/Window.antt =====
-- Blocks stand apart in the staging window, so a batch reads the same rows staged or not.
use native.Mathlib.Nat.{mul-add-div_right, div-eq_of_lt, mul-le-mul}
use vllm_exl3_plugin.Base.{
  ℕ, zero, suc, ◌+◌, ◌-◌, ◌*◌, ◌/◌, ◌≤◌, ◌<◌, ◌≡◌, ◌≢◌, ◌⊎◌, inl, inr, refl, sym, ◌∙◌, Bool, true,
  ◌&&◌, some, List, [], ◌∷◌, length, ltb, leb, ◌==◌, arith, if◌then◌else◌, In, Bool-cases,
  Option-cases, ℕ_discrete,
}
use vllm_exl3_plugin.Offload.Experts.{row_of, row_from}
use vllm_exl3_plugin.Offload.Staging.{
  HostRows, HostedLayer, nbytes, aligned, block_of, offset_from, layer_size, window_size,
  staged_table, Memory, copy_block, stage_label, stage_labels, expert_tables,
}

abbrev pub Blocks : Type 0
Blocks = List (ℕ × HostRows)

row_from-lt :
    (r e : ℕ) (xs : List ℕ) (row : ℕ)
    → row_from r e xs ≡ some row
    → (r ≤ row) × (row < r + length xs)
unfolding row_from
row_from-lt r e [] row h = absurd (ground arith)
row_from-lt r e (x ∷ xs) row h = ground (arith, row_from-lt (suc r) e xs row)

le-aligned : (n : ℕ) → n ≤ aligned n
le-aligned n = omega arith

block_of-cons :
    (j h : ℕ) (b : HostRows) (blocks : Blocks)
    → block_of ((h, b) ∷ blocks) j ≡ (if j == h then some b else block_of blocks j)
unfolding block_of
block_of-cons j h b blocks = refl

offset_from_here :
    (off h : ℕ) (b : HostRows) (blocks : Blocks) (j : ℕ)
    → j ≡ h
    → offset_from off ((h, b) ∷ blocks) j ≡ off
unfolding offset_from
offset_from_here off h b blocks j e = ground arith

offset_from_later :
    (off h : ℕ) (b : HostRows) (blocks : Blocks) (j : ℕ)
    → j ≢ h
    → offset_from off ((h, b) ∷ blocks) j ≡ offset_from (off + aligned (nbytes b)) blocks j
unfolding offset_from
offset_from_later off h b blocks j e = ground arith

-- A block stands in what its layer takes of the window.
offset_from_within :
    (off j : ℕ) (b : HostRows) (blocks : Blocks)
    → block_of blocks j ≡ some b
    → (off ≤ offset_from off blocks j)
      × (offset_from off blocks j + nbytes b ≤ off + layer_size blocks)
unfolding layer_size block_of
offset_from_within off j b [] h = absurd (ground arith)
offset_from_within off j b ((i, c) ∷ blocks) h = elim (ℕ_discrete j i) [
  | yes p ↦
      let here : c ≡ b = ground arith in
      let more = le-aligned (nbytes b) in
      rw (offset_from_here off i c blocks j p, here) (omega arith, omega arith)
  | no p ↦
      let later : block_of blocks j ≡ some b = ground arith in
      let (lo, hi) = offset_from_within (off + aligned (nbytes c)) j b blocks later in
      rw (offset_from_later off i c blocks j p) (omega arith, omega arith)
]

-- One of two places ends before the other begins.
abbrev Apart : ℕ → ℕ → ℕ → ℕ → Type 0
Apart a n b m = (a + n ≤ b) ⊎ (b + m ≤ a)

offset_from-Apart :
    (off i j : ℕ) (b c : HostRows) (blocks : Blocks)
    → i ≢ j
    → block_of blocks i ≡ some b
    → block_of blocks j ≡ some c
    → Apart (offset_from off blocks i) (nbytes b) (offset_from off blocks j) (nbytes c)
unfolding block_of
offset_from-Apart off i j b c [] ne p q = absurd (ground arith)
offset_from-Apart off i j b c ((h, d) ∷ blocks) ne p q = elim (ℕ_discrete i h) [
  | yes at_i ↦
      let here : d ≡ b = ground arith in
      let past_j : j ≢ h = (λ q. ne (at_i ∙ sym q)) in
      let later : block_of blocks j ≡ some c = ground arith in
      let (lo, hi) = offset_from_within (off + aligned (nbytes d)) j c blocks later in
      let more = le-aligned (nbytes d) in
      rw (offset_from_here off h d blocks i at_i, offset_from_later off h d blocks j past_j, ← here)
        (inl (omega arith))
  | no past_i ↦ elim (ℕ_discrete j h) [
    | yes at_j ↦
        let here : d ≡ c = ground arith in
        let later : block_of blocks i ≡ some b = ground arith in
        let (lo, hi) = offset_from_within (off + aligned (nbytes d)) i b blocks later in
        let more = le-aligned (nbytes d) in
        rw
          (
            offset_from_here off h d blocks j at_j,
            offset_from_later off h d blocks i past_i,
            ← here,
          )
          (inr (omega arith))
    | no past_j ↦
        rw (offset_from_later off h d blocks i past_i, offset_from_later off h d blocks j past_j)
          (offset_from-Apart (off + aligned (nbytes d)) i j b c blocks ne (ground arith)
            (ground arith))
  ]
]

copy_block_out :
    (at : ℕ) (b : HostRows) (m : Memory) (a : ℕ)
    → ((at ≤ a) → at + nbytes b ≤ a)
    → copy_block at b m a ≡ m a
unfolding copy_block
copy_block_out at b m a h = ground arith

row_end : (r n w k : ℕ) → r < n → k < w → r * w + k < n * w
row_end r n w k p q =
    let whole : (r + 1) * w ≤ n * w = mul-le-mul (omega arith) (omega arith) in omega arith

copy_block_in :
    (at : ℕ) (b : HostRows) (m : Memory) (r k : ℕ)
    → r < length b.experts
    → k < b.row_bytes
    → copy_block at b m (at + r * b.row_bytes + k) ≡ b.byte r k
unfolding copy_block
copy_block_in at b m r k p q =
    let w = b.row_bytes in
    let inside = row_end r (length b.experts) w k p q in
    let back : at + r * w + k - at ≡ r * w + k = omega arith in
    let quotient : (r * w + k) / w ≡ r =
      (let pos : 0 < w = omega arith in omega (arith, mul-add-div_right pos r k, div-eq_of_lt q)) in
    let rest : r * w + k - r * w ≡ k = omega arith in
    let low : leb at (at + r * w + k) ≡ true = ground arith in
    let high : ltb (at + r * w + k) (at + nbytes b) ≡ true = ground arith in
    rw (low, high, back, quotient, rest) refl

module _ (base : ℕ) (l : HostedLayer) where
  abbrev place_of : ℕ → ℕ
  place_of label = base + offset_from 0 l.blocks label

  stage_label_out :
      (j : ℕ) (m : Memory) (a : ℕ)
      → ((b : HostRows) → block_of l.blocks j ≡ some b → place_of j ≤ a → place_of j + nbytes b ≤ a)
      → stage_label base l j m a ≡ m a
  unfolding stage_label
  stage_label_out j m a h = elim (Option-cases (block_of l.blocks j)) [
    | inl e ↦ rw (e, stage_label) refl
    | inr (b, e) ↦ rw (e, stage_label) (copy_block_out (place_of j) b m a (h b e))
  ]

  stage_labels_out :
      (i n : ℕ) (m : Memory) (a : ℕ)
      → ((j : ℕ) (b : HostRows)
          → i ≤ j
          → block_of l.blocks j ≡ some b
          → place_of j ≤ a
          → place_of j + nbytes b ≤ a)
      → stage_labels base l i n m a ≡ m a
  unfolding stage_labels
  stage_labels_out i zero m a h = refl
  stage_labels_out i (suc n) m a h =
      stage_labels_out (suc i) n (stage_label base l i m) a (λ j b p e. h j b (omega arith) e)
      ∙ stage_label_out i m a (λ b e. h i b (omega arith) e)

  stage_label_in :
      (j : ℕ) (b : HostRows) (m : Memory) (r k : ℕ)
      → block_of l.blocks j ≡ some b
      → r < length b.experts
      → k < b.row_bytes
      → stage_label base l j m (place_of j + r * b.row_bytes + k) ≡ b.byte r k
  unfolding stage_label
  stage_label_in j b m r k e p q = rw (e, stage_label) (copy_block_in (place_of j) b m r k p q)

  -- A row of a block lies in no other block.
  row_Apart :
      (i j : ℕ) (b c : HostRows) (r k : ℕ)
      → i ≢ j
      → block_of l.blocks j ≡ some b
      → block_of l.blocks i ≡ some c
      → r < length b.experts
      → k < b.row_bytes
      → place_of i ≤ place_of j + r * b.row_bytes + k
      → place_of i + nbytes c ≤ place_of j + r * b.row_bytes + k
  row_Apart i j b c r k ne e f p q h =
      let inside = row_end r (length b.experts) b.row_bytes k p q in
      elim (offset_from-Apart 0 i j c b l.blocks ne f e) [
        | inl before ↦ omega arith
        | inr after ↦ omega arith
      ]

  stage_labels_in :
      (i n j : ℕ) (b : HostRows) (m : Memory) (r k : ℕ)
      → i ≤ j
      → j < i + n
      → block_of l.blocks j ≡ some b
      → r < length b.experts
      → k < b.row_bytes
      → stage_labels base l i n m (place_of j + r * b.row_bytes + k) ≡ b.byte r k
  unfolding stage_labels
  stage_labels_in i zero j b m r k lo hi e p q = absurd (omega arith)
  stage_labels_in i (suc n) j b m r k lo hi e p q = elim (ℕ_discrete i j) [
    | yes same ↦
        stage_labels_out (suc i) n (stage_label base l i m) (place_of j + r * b.row_bytes + k)
          (λ j' c past f. row_Apart j' j b c r k (omega arith) e f p q)
        ∙ rw same (stage_label_in j b m r k e p q)
    | no other ↦
        stage_labels_in (suc i) n j b (stage_label base l i m) r k (omega arith) (omega arith) e p q
  ]

-- A layer whose own tables point its hosted experts' entries at rows that memory shows.
unfoldable pub AtRows : HostedLayer → Memory → Type 0
AtRows l m =
    (j e row k : ℕ) (b : HostRows)
    → block_of l.blocks j ≡ some b
    → row_of b.experts e ≡ some row
    → k < b.row_bytes
    → m (l.tables j e + k) ≡ b.byte row k

staged_table_row :
    (base : ℕ) (l : HostedLayer) (j e row : ℕ) (b : HostRows)
    → block_of l.blocks j ≡ some b
    → row_of b.experts e ≡ some row
    → staged_table base l j e ≡ place_of base l j + row * b.row_bytes
unfolding staged_table
staged_table_row base l j e row b block row_e = rw (block, staged_table) (rw row_e refl)

-- Where a layer's own tables lead to its rows, the tables that a batch of any size is given lead to
-- them too, in memory as the copies leave it: each byte of a hosted expert's row is read the same,
-- staged or not.
pub expert_tables-Reads :
    (stage_min_tokens base tokens : ℕ) (staged : Bool) (l : HostedLayer) (m : Memory)
    → AtRows l m
    → (j e row k : ℕ) (b : HostRows) → j < 3
    → block_of l.blocks j ≡ some b
    → row_of b.experts e ≡ some row
    → k < b.row_bytes
    → let result = expert_tables stage_min_tokens base staged l tokens m in
      result.1 (result.0 j e + k) ≡ b.byte row k
unfolding expert_tables AtRows
expert_tables-Reads limit base tokens staged l m at j e row k b j_lt block row_e k_lt =
    elim (Bool-cases (staged && ltb limit tokens)) [
      | inr direct ↦ rw direct (at j e row k b block row_e k_lt)
      | inl copied ↦
          let (_, inside) = row_from-lt 0 e b.experts row row_e in
          rw (copied, staged_table_row base l j e row b block row_e)
            (stage_labels_in base l 0 3 j b m row k (omega arith) (omega arith) block (omega arith)
              k_lt)
    ]

layer_size-le-window_size :
    (l : HostedLayer) (ls : List HostedLayer) → In l ls → layer_size l.blocks ≤ window_size ls
unfolding window_size
layer_size-le-window_size l [] m = absurd m
layer_size-le-window_size l (x ∷ ls) (inl e) = rw e (omega arith)
layer_size-le-window_size l (x ∷ ls) (inr m) =
    let h = layer_size-le-window_size l ls m in omega arith

-- The copies for a batch change no byte outside the one window that is sized for all layers.
pub expert_tables_outside :
    (stage_min_tokens base tokens : ℕ) (staged : Bool) (l : HostedLayer) (ls : List HostedLayer)
    (m : Memory) (a : ℕ)
    → In l ls
    → (a < base) ⊎ (base + window_size ls ≤ a)
    → (expert_tables stage_min_tokens base staged l tokens m).1 a ≡ m a
unfolding expert_tables
expert_tables_outside limit base tokens staged l ls m a l_in out =
    elim (Bool-cases (staged && ltb limit tokens)) [
      | inr direct ↦ rw direct refl
      | inl copied ↦
          let fits = layer_size-le-window_size l ls l_in in
          rw copied (
            stage_labels_out base l 0 3 m a (λ j b p e h.
              let (lo, hi) = offset_from_within 0 j b l.blocks e in
              elim out [ inl low ↦ omega arith | inr high ↦ omega arith ]))
    ]
