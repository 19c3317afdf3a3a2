-- ===== src/Format/Spans.antt =====
-- The spans of `fused_shard_bounds` over all ranks: they are aligned, and divide the columns.
use native.Mathlib.Nat.{
  div-add-mod, mul-mod_right, lt-div-mul-add, div-mul-le_self, div-lt_iff_lt-mul,
}
use vllm_exl3_plugin.Base.{
  ℕ, ◌+◌, ◌-◌, ◌*◌, ◌/◌, ◌%◌, ◌≤◌, ◌<◌, ◌≡◌, inl, inr, refl, ap, some, List, [], ◌∷◌, arith, ok,
  dec_lt, get_elem?, In,
}
use vllm_exl3_plugin.Format.Consts.{had_block}
use vllm_exl3_plugin.Format.Fused.{Span, fused_loop, fused_shard_bounds, Holds, fused_width}

-- The rank that a column of a shard falls to, by its distance from the shard's start.
rank_bounds : (d w n : ℕ) → 0 < w → d < w * n → (d / w < n) × (d / w * w ≤ d) × (d < d / w * w + w)
rank_bounds d w n h b =
    ((div-lt_iff_lt-mul h).1 (omega arith), div-mul-le_self d w, lt-div-mul-add h)

rank_end : (r n w : ℕ) → r < n → r * w + w ≤ w * n
rank_end r n w h = grind arith

rank_lt : (r r' w d : ℕ) → r * w ≤ d → d < r' * w + w → r ≤ r'
rank_lt r r' w d h k = elim (dec_lt r' r) [
  | yes p ↦ absurd (omega (arith, rank_end r' r w p, h, k))
  | no p ↦ omega arith
]

mul-mod_of_mod : (a b m : ℕ) → b % m ≡ 0 → a * b % m ≡ 0
mul-mod_of_mod a b m h =
    let e : b ≡ m * (b / m) = omega (arith, div-add-mod b m) in
    let e' : a * b ≡ m * (a * (b / m)) = omega (arith, ap (λ (t : ℕ). a * t) e) in
    rw e' (mul-mod_right m (a * (b / m)))

abbrev rest_of : List Span → List Span
rest_of [] = []
rest_of (x ∷ xs) = xs

In-of-rest_of : (s : Span) (spans : List Span) → In s (rest_of spans) → In s spans
In-of-rest_of s [] m = m
In-of-rest_of s (x ∷ xs) m = inr m

module _ (sizes : List ℕ) (tp_size : ℕ) where
  -- What the loop has done once it returns: the head span, and the loop over the rest.
  fused_loop-cons :
      (r offset index : ℕ) (indices : List ℕ) (x : Span) (xs : List Span)
      → fused_loop sizes r tp_size offset (index ∷ indices) ≡ ok (x ∷ xs)
      → (w : ℕ) × (get_elem? sizes index ≡ some w)
        × (w % had_block ≡ 0)
        × (fused_loop sizes r tp_size (offset + w * tp_size) indices ≡ ok xs)
        × (x.index ≡ index)
        × (x.first ≡ offset + r * w)
        × (x.last ≡ offset + r * w + w)
  unfolding fused_loop
  fused_loop-cons r offset index indices x xs h = ground arith

  fused_loop-nil :
      (r offset : ℕ) (x : Span) (xs : List Span)
      → ¬ (fused_loop sizes r tp_size offset [] ≡ ok (x ∷ xs))
  unfolding fused_loop
  fused_loop-nil r offset x xs h = cc

  fused_loop-step :
      (r offset index : ℕ) (indices : List ℕ) (spans : List Span)
      → fused_loop sizes r tp_size offset (index ∷ indices) ≡ ok spans
      → (w : ℕ) × (x : Span) × (get_elem? sizes index ≡ some w)
        × (fused_loop sizes r tp_size (offset + w * tp_size) indices ≡ ok (rest_of spans))
        × (spans ≡ x ∷ rest_of spans)
        × (x.first ≡ offset + r * w)
        × (x.last ≡ offset + r * w + w)
  unfolding fused_loop
  fused_loop-step r offset index indices [] h = absurd (ground arith)
  fused_loop-step r offset index indices (x ∷ xs) h =
      let (w, got, aligned, more, i, f, l) = fused_loop-cons r offset index indices x xs h in
      (w, x, got, more, refl, f, l)

  loop-rest_of :
      (r offset index : ℕ) (indices : List ℕ) (spans : List Span) (w : ℕ)
      → get_elem? sizes index ≡ some w
      → fused_loop sizes r tp_size offset (index ∷ indices) ≡ ok spans
      → fused_loop sizes r tp_size (offset + w * tp_size) indices ≡ ok (rest_of spans)
  loop-rest_of r offset index indices spans w got h =
      let (w', x, got', more, eq, f, l) = fused_loop-step r offset index indices spans h in
      let same : w' ≡ w = ground arith in rw same at more

  -- The rank that holds a column of the head shard.
  covers_head :
      (offset index : ℕ) (indices : List ℕ) (spans : ℕ → List Span) (c w : ℕ)
      → get_elem? sizes index ≡ some w
      → ((r : ℕ) → fused_loop sizes r tp_size offset (index ∷ indices) ≡ ok (spans r))
      → offset ≤ c
      → c < offset + w * tp_size
      → (r : ℕ) × (s : Span) × (r < tp_size) × In s (spans r) × Holds s c
  covers_head offset index indices spans c w got h a b =
      let r = (c - offset) / w in
      let (w', x, got', more, eq, f, l) = fused_loop-step r offset index indices (spans r) (h r) in
      let same : w' ≡ w = ground arith in
      let pos : 0 < w = grind arith in
      let (p, q, t) = rank_bounds (c - offset) w tp_size pos (omega arith) in
      (r, x, p, rw eq (inl refl), (ground arith, ground arith))

  first-ge-offset :
      (r offset : ℕ) (indices : List ℕ) (spans : List Span) (s : Span)
      → fused_loop sizes r tp_size offset indices ≡ ok spans
      → In s spans
      → offset ≤ s.first
  first-ge-offset r offset indices [] s h m = absurd m
  first-ge-offset r offset [] (x ∷ xs) s h m = absurd (fused_loop-nil r offset x xs h)
  first-ge-offset r offset (index ∷ indices) (x ∷ xs) s h (inl e) =
      let (w, got, aligned, more, i, f, l) = fused_loop-cons r offset index indices x xs h in
      ground arith
  first-ge-offset r offset (index ∷ indices) (x ∷ xs) s h (inr m) =
      let (w, got, aligned, more, i, f, l) = fused_loop-cons r offset index indices x xs h in
      omega (arith, first-ge-offset r (offset + w * tp_size) indices xs s more m)

  -- A span starts and ends on a whole Hadamard block, and is as wide as its shard is per rank.
  abbrev pub IsSound : Span → Type 0
  IsSound s =
      (s.first % had_block ≡ 0)
      × (s.last % had_block ≡ 0)
      × (s.first ≤ s.last)
      × (get_elem? sizes s.index ≡ some (s.last - s.first))

  pub fused_loop-IsSound :
      (r offset : ℕ) (indices : List ℕ) (spans : List Span) (s : Span)
      → offset % had_block ≡ 0
      → fused_loop sizes r tp_size offset indices ≡ ok spans
      → In s spans
      → IsSound s
  fused_loop-IsSound r offset indices [] s o h m = absurd m
  fused_loop-IsSound r offset [] (x ∷ xs) s o h m = absurd (fused_loop-nil r offset x xs h)
  fused_loop-IsSound r offset (index ∷ indices) (x ∷ xs) s o h (inl e) =
      let (w, got, aligned, more, i, f, l) = fused_loop-cons r offset index indices x xs h in
      let blocks : r * w % 128 ≡ 0 = mul-mod_of_mod r w 128 aligned in ground arith
  fused_loop-IsSound r offset (index ∷ indices) (x ∷ xs) s o h (inr m) =
      let (w, got, aligned, more, i, f, l) = fused_loop-cons r offset index indices x xs h in
      let blocks : tp_size * w % 128 ≡ 0 = mul-mod_of_mod tp_size w 128 aligned in
      fused_loop-IsSound r (offset + w * tp_size) indices xs s (omega arith) more m

  -- No column before `offset + width` and from `offset` on is missed, or held twice.
  pub fused_loop-covers :
      (offset : ℕ) (indices : List ℕ) (spans : ℕ → List Span) (c : ℕ)
      → ((r : ℕ) → fused_loop sizes r tp_size offset indices ≡ ok (spans r))
      → offset ≤ c
      → c < offset + fused_width sizes tp_size indices
      → (r : ℕ) × (s : Span) × (r < tp_size) × In s (spans r) × Holds s c
  fused_loop-covers offset [] spans c h a b = absurd (omega arith)
  fused_loop-covers offset (index ∷ indices) spans c h a b =
      let (w0, x0, got, more0, eq0, f0, l0) =
        fused_loop-step 0 offset index indices (spans 0) (h 0) in
      let here =
        λ (p : c < offset + w0 * tp_size). covers_head offset index indices spans c w0 got h a p in
      elim (dec_lt c (offset + w0 * tp_size)) [
        | yes p ↦ here p
        | no p ↦
            let (r, s, below, m, k) =
              fused_loop-covers (offset + w0 * tp_size) indices (λ r. rest_of (spans r)) c
                (λ r. loop-rest_of r offset index indices (spans r) w0 got (h r)) (omega arith)
                (ground arith) in
            (r, s, below, In-of-rest_of s (spans r) m, k)
      ]

  pub fused_loop_unique :
      (offset : ℕ) (indices : List ℕ) (r r' : ℕ) (spans spans' : List Span) (s s' : Span) (c : ℕ)
      → r < tp_size
      → r' < tp_size
      → fused_loop sizes r tp_size offset indices ≡ ok spans
      → fused_loop sizes r' tp_size offset indices ≡ ok spans'
      → In s spans
      → In s' spans'
      → Holds s c
      → Holds s' c
      → (r ≡ r') × (s ≡ s')
  fused_loop_unique offset indices r r' [] spans' s s' c a b h h' m m' k k' = absurd m
  fused_loop_unique offset indices r r' (x ∷ xs) [] s s' c a b h h' m m' k k' = absurd m'
  fused_loop_unique offset [] r r' (x ∷ xs) (y ∷ ys) s s' c a b h h' m m' k k' =
      absurd (fused_loop-nil r offset x xs h)
  fused_loop_unique offset (index ∷ indices) r r' (x ∷ xs) (y ∷ ys) s s' c a b h h' (inl e) (inl e')
        k k' =
      let (w, got, al, more, i, f, l) = fused_loop-cons r offset index indices x xs h in
      let (w', got', al', more', i', f', l') = fused_loop-cons r' offset index indices y ys h' in
      let same : w' ≡ w = ground arith in
      let one : r ≤ r' = rank_lt r r' w (c - offset) (ground arith) (ground arith) in
      let two : r' ≤ r = rank_lt r' r w (c - offset) (ground arith) (ground arith) in
      let eq : r ≡ r' = omega arith in (eq, ground arith)
  fused_loop_unique offset (index ∷ indices) r r' (x ∷ xs) (y ∷ ys) s s' c a b h h' (inl e) (inr n)
        k k' =
      let (w, got, al, more, i, f, l) = fused_loop-cons r offset index indices x xs h in
      let later =
        first-ge-offset r' (offset + w * tp_size) indices ys s'
          (loop-rest_of r' offset index indices (y ∷ ys) w got h') n in
      let edge = rank_end r tp_size w a in absurd (ground arith)
  fused_loop_unique offset (index ∷ indices) r r' (x ∷ xs) (y ∷ ys) s s' c a b h h' (inr n) (inl e)
        k k' =
      let (w, got, al, more, i, f, l) = fused_loop-cons r' offset index indices y ys h' in
      let later =
        first-ge-offset r (offset + w * tp_size) indices xs s
          (loop-rest_of r offset index indices (x ∷ xs) w got h) n in
      let edge = rank_end r' tp_size w b in absurd (ground arith)
  fused_loop_unique offset (index ∷ indices) r r' (x ∷ xs) (y ∷ ys) s s' c a b h h' (inr n) (inr n')
        k k' =
      let (w, got, al, more, i, f, l) = fused_loop-cons r offset index indices x xs h in
      fused_loop_unique (offset + w * tp_size) indices r r' xs ys s s' c a b more
        (loop-rest_of r' offset index indices (y ∷ ys) w got h') n n' k k'

-- Where every rank's call returns, each column of the fused shards lies in exactly one span of
-- exactly one rank.
pub fused_shard_bounds-partition :
    (sizes indices : List ℕ) (tp_size : ℕ) (spans : ℕ → List Span) (c : ℕ)
    → ((r : ℕ) → fused_shard_bounds sizes indices r tp_size ≡ ok (spans r))
    → c < fused_width sizes tp_size indices
    → (r : ℕ) × (s : Span) × (r < tp_size)
      × In s (spans r)
      × Holds s c
      × ((r' : ℕ) (s' : Span) → r' < tp_size → In s' (spans r') → Holds s' c → (r ≡ r') × (s ≡ s'))
unfolding fused_shard_bounds
fused_shard_bounds-partition [] indices tp_size spans c h b = absurd (ground (arith, h 0))
fused_shard_bounds-partition (z ∷ sizes) indices tp_size spans c h b =
    let (r, s, below, m, k) =
      fused_loop-covers (z ∷ sizes) tp_size 0 indices spans c h (omega arith) (omega arith) in
    (
      r,
      s,
      below,
      m,
      k,
      λ r' s' below' m' k'.
          fused_loop_unique (z ∷ sizes) tp_size 0 indices r r' (spans r) (spans r') s s' c below
            below' (h r) (h r') m m' k k',
    )

-- Every span of a returned list starts and ends on a whole Hadamard block, and is as wide as its
-- output shard is per rank.
pub fused_shard_bounds-IsSound :
    (sizes indices : List ℕ) (tp_rank tp_size : ℕ) (spans : List Span) (s : Span)
    → fused_shard_bounds sizes indices tp_rank tp_size ≡ ok spans
    → In s spans
    → IsSound sizes tp_size s
unfolding fused_shard_bounds
fused_shard_bounds-IsSound [] indices tp_rank tp_size spans s h m = absurd (ground arith)
fused_shard_bounds-IsSound (z ∷ sizes) indices tp_rank tp_size spans s h m =
    fused_loop-IsSound (z ∷ sizes) tp_size tp_rank 0 indices spans s (omega arith) h m
