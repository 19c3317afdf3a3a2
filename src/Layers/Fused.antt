-- ===== src/Layers/Fused.antt =====
-- A fused tensor's output shards: each is kept where its index is looked up.
use native.Mathlib.Nat.{mul-div_cancel}
use mathlib.Core.Path.{subst}
use vllm_exl3_plugin.Base.{
  some-eq, ◌/◌, ℕ, zero, suc, ◌+◌, ◌*◌, ◌<◌, ◌≡◌, ◌≢◌, inl, inr, refl, sym, ap, ◌∙◌, true, false,
  some, List, [], ◌∷◌, map, length, ◌==◌, arith, In, Distinct, get_elem?, ok, raise, ◌%◌, ◌>>◌, leb,
}
use vllm_exl3_plugin.Format.Consts.{Checked, had_block, is_had_aligned}
use vllm_exl3_plugin.Format.Shards.{check_tp_split}
use vllm_exl3_plugin.Format.Fused.{Span, fused_shard_bounds, fused_loop}
use vllm_exl3_plugin.Tp.Shard.{shard_column}
use vllm_exl3_plugin.Layers.Store.{
  Sub, ShardId, one, Param, get, put, store, store_all, load_fused, covered,
}
use vllm_exl3_plugin.Layers.Linear.{Layer, validate_tp, check_outputs}

get-put-same : {A : Type 0} (k : ℕ) (v : A) (kept : List (ℕ × A)) → get k (put k v kept) ≡ some v
unfolding get put
get-put-same k v [] = ground arith
get-put-same k v ((j, w) ∷ kept) = ground (arith, get-put-same k v kept)

get-put-other :
    {A : Type 0} (k i : ℕ) (v : A) (kept : List (ℕ × A)) → i ≢ k → get i (put k v kept) ≡ get i kept
unfolding get put
get-put-other k i v [] ne = ground arith
get-put-other k i v ((j, w) ∷ kept) ne = ground (arith, get-put-other k i v kept ne)

module _ {A : Type 0} (as_int : ShardId → ℕ) (same : (n : ℕ) → as_int (one n) ≡ n) where
  cut_for : Param A → Sub A → Span → Sub A
  cut_for p t s = record t { cells = shard_column p.role t.cells s.first s.last }

  store_all_other :
      (p : Param A) (t : Sub A) (spans : List Span) (i : ℕ)
      → (In i (map (λ s. s.index) spans) → ⊥)
      → get i ((store_all as_int p t spans).shards) ≡ get i p.shards
  unfolding store_all store
  store_all_other p t [] i out = refl
  store_all_other p t (s ∷ spans) i out =
      store_all_other (store as_int p t' (one s.index)) t spans i (λ m. out (inr m))
      ∙ get-put-other (as_int (one s.index)) i t' p.shards (λ e. out (inl (e ∙ same s.index)))
    where
      t' : Sub A
      t' = record t { cells = shard_column p.role t.cells s.first s.last }

  store_all_held :
      (p : Param A) (t : Sub A) (spans : List Span) (s : Span)
      → Distinct (map (λ s. s.index) spans)
      → In s spans
      → get s.index ((store_all as_int p t spans).shards)
        ≡ some (record t { cells = shard_column p.role t.cells s.first s.last })
  unfolding store_all store
  store_all_held p t [] s d m = absurd m
  store_all_held p t (x ∷ spans) s (fresh, d) (inr m) =
      store_all_held
        (store as_int p (record t { cells = shard_column p.role t.cells x.first x.last })
          (one x.index))
        t spans s d m
  store_all_held p t (x ∷ spans) s (fresh, d) (inl e) =
      store_all_other (store as_int p t' (one x.index)) t spans s.index
        (λ m. fresh (rw (sym (ap (λ z. z.index) e)) m))
      ∙ ap (λ i. get i (put (as_int (one x.index)) t' p.shards))
          (ap (λ z. z.index) e ∙ sym (same x.index))
      ∙ get-put-same (as_int (one x.index)) t' p.shards
      ∙ ap (λ z. some (record t { cells = shard_column p.role t.cells z.first z.last })) (sym e)
    where
      t' : Sub A
      t' = record t { cells = shard_column p.role t.cells x.first x.last }

fused_loop-ok :
    (sizes : List ℕ) (tp_rank tp_size offset : ℕ) (indices : List ℕ)
    → ((i s : ℕ) → get_elem? sizes i ≡ some s → s % had_block ≡ 0)
    → ((i : ℕ) → In i indices → (s : ℕ) × (get_elem? sizes i ≡ some s))
    → (spans : List Span) × (fused_loop sizes tp_rank tp_size offset indices ≡ ok spans)
      × (map (λ s. s.index) spans ≡ indices)
unfolding fused_loop
fused_loop-ok sizes r n offset [] aligned known = ([], refl, refl)
fused_loop-ok sizes r n offset (i ∷ indices) aligned known =
    let (w, got) = known i (inl refl) in
    let (spans, run, each) =
      fused_loop-ok sizes r n (offset + w * n) indices aligned (λ j m. known j (inr m)) in
    let whole : (w % had_block == 0) ≡ true = (let e = aligned i w got in ground arith) in
    (
      record { index = i; first = offset + r * w; last = offset + r * w + w } ∷ spans,
      rw (got, fused_loop) (rw (whole, run) refl),
      ap (◌∷◌ i) each,
    )

-- A chain returns where its first step does and the rest does.
then-ok :
    {B : Type 0} (m : Checked (Unit {0})) (k : Checked B) (b : B)
    → (m >> k) ≡ ok b
    → (m ≡ ok tt) × (k ≡ ok b)
then-ok (ok tt) k b h = (refl, h)
then-ok (raise e) k b h = absurd (ground arith)

check_tp_split-aligned : (x n : ℕ) → 1 < n → check_tp_split (x * n) n ≡ ok tt → x % had_block ≡ 0
unfolding check_tp_split is_had_aligned
check_tp_split-aligned x n many h =
    let back : x * n / n ≡ x = mul-div_cancel x (omega arith) in
    let over : leb n 1 ≡ false = ground arith in ground (arith, back, over, h)

fused_bounds-ok :
    (sizes : List ℕ) (tp_rank tp_size : ℕ) (indices : List ℕ)
    → 0 < length sizes
    → ((i s : ℕ) → get_elem? sizes i ≡ some s → s % had_block ≡ 0)
    → ((i : ℕ) → In i indices → (s : ℕ) × (get_elem? sizes i ≡ some s))
    → (spans : List Span) × (fused_shard_bounds sizes indices tp_rank tp_size ≡ ok spans)
      × (map (λ s. s.index) spans ≡ indices)
unfolding fused_shard_bounds
fused_bounds-ok [] r n indices pos aligned known = absurd (omega arith)
fused_bounds-ok (z ∷ sizes) r n indices pos aligned known =
    fused_loop-ok (z ∷ sizes) r n 0 indices aligned known

check_outputs-aligned :
    (sizes : List ℕ) (tp_size : ℕ)
    → 1 < tp_size
    → check_outputs sizes tp_size ≡ ok tt
    → (i s : ℕ) → get_elem? sizes i ≡ some s
    → s % had_block ≡ 0
check_outputs-aligned [] n many h i s got = absurd (ground arith)
check_outputs-aligned (x ∷ sizes) n many h zero s got =
    let (first, _) = then-ok (check_tp_split (x * n) n) (check_outputs sizes n) tt h in
    sym (ap (λ z. z % had_block) (some-eq x s got)) ∙ check_tp_split-aligned x n many first
check_outputs-aligned (x ∷ sizes) n many h (suc i) s got =
    let (_, later) = then-ok (check_tp_split (x * n) n) (check_outputs sizes n) tt h in
    check_outputs-aligned sizes n many later i s got

-- A fused tensor for a layer that `validate_tp` admitted over several ranks, covering distinct output
-- shards that the layer has, is stored: the call returns, and under the index of each covered shard
-- the parameter then has the columns that `fused_shard_bounds` gives the shard on this rank.
pub load_fused-get :
    {A : Type 0} (as_int : ShardId → ℕ) (l : Layer) (p : Param A) (t : Sub A) (id : ShardId)
    → ((n : ℕ) → as_int (one n) ≡ n)
    → 1 < p.tp_size
    → l.row_parallel ≡ false
    → l.output_sizes ≡ p.output_partition_sizes
    → validate_tp l p.tp_size ≡ ok tt
    → 0 < length p.output_partition_sizes
    → Distinct (covered as_int p id)
    → ((i : ℕ)
        → In i (covered as_int p id)
        → (s : ℕ) × (get_elem? p.output_partition_sizes i ≡ some s))
    → (p' : Param A) × (spans : List Span) × (load_fused as_int p t id ≡ ok p')
      × (fused_shard_bounds p.output_partition_sizes (covered as_int p id) p.tp_rank p.tp_size
          ≡ ok spans)
      × (map (λ s. s.index) spans ≡ covered as_int p id)
      × ((s : Span)
          → In s spans
          → get s.index p'.shards
            ≡ some (record t { cells = shard_column p.role t.cells s.first s.last }))
unfolding load_fused validate_tp
load_fused-get as_int l p t id same many column sizes valid some_size distinct known =
    let outputs : check_outputs p.output_partition_sizes p.tp_size ≡ ok tt =
      (let opened : validate_tp l p.tp_size ≡ check_outputs l.output_sizes p.tp_size =
          rw column refl in
        ap (λ z. check_outputs z p.tp_size) (sym sizes) ∙ sym opened ∙ valid) in
    let (spans, run, each) =
      fused_bounds-ok p.output_partition_sizes p.tp_rank p.tp_size (covered as_int p id) some_size
        (check_outputs-aligned p.output_partition_sizes p.tp_size many outputs) known in
    (
      store_all as_int p t spans,
      spans,
      rw run refl,
      run,
      each,
      λ s m. store_all_held as_int same p t spans s (subst Distinct (sym each) distinct) m,
    )
