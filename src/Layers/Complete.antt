-- ===== src/Layers/Complete.antt =====
-- A layer's tables have every expert's own tensor.
use mathlib.Core.Path.{subst}
use vllm_exl3_plugin.Base.{
  ℕ, ◌*◌, ◌<◌, ◌≡◌, refl, sym, ap, ◌∙◌, Bool, true, not, some, List, [], ◌∷◌, ◌++◌, length,
  get_elem?, arith, if◌then◌else◌, Bool-cases, Option-cases, bind-ok, ok, raise, inl, inr,
}
use vllm_exl3_plugin.Base.Text.{Text, codes}
use vllm_exl3_plugin.Format.Consts.{tile}
use vllm_exl3_plugin.Format.Widths.{Width, bits_from_trellis_shape}
use vllm_exl3_plugin.Layers.Store.{Sub, width, shape_of}
use vllm_exl3_plugin.Layers.Moe.{Projection, gate, up, down}
use vllm_exl3_plugin.Layers.Ready.{ok-injective, some-injective}
use vllm_exl3_plugin.Layers.Tables.{
  no_parameter, gate_and_up_differ, first_width, lift, first_bits, Collected, MoeParams, prefix_of,
  present, complete, collect, check_uniform, Group, uniform, group, width_eq, Tables, process,
}
use vllm_exl3_plugin.Layers.Gathered.{
  Entries, present-Entries, complete-ok, check_uniform-eq, lift-ok, second-injective, get_elem-lt,
  parameter_name, prefix_of-parameter_name,
}

-- A table of one sub-tensor of a projection: each expert's own, all of one shape.
unfoldable pub IsTable : {A : Type 0} → MoeParams A → ℕ → Projection → Text → List (Sub A) → Type 0
IsTable params experts shard_id name tensors =
    (shards : Collected _) × (shape : List ℕ) × (params (parameter_name shard_id name)
      ≡ some shards)
    × (length tensors ≡ experts)
    × ((e : ℕ)
        → e < experts
        → (t : Sub _) × (shards shard_id e ≡ some t)
          × (get_elem? tensors e ≡ some t)
          × (shape_of t ≡ shape))

module _ {A : Type 0} (params : MoeParams A) (experts : ℕ) where
  collect-Entries :
      (shard_id : Projection) (name : Text) (tensors : List (Sub A))
      → collect params experts shard_id name ≡ ok tensors
      → (shards : Collected A) × (params (parameter_name shard_id name) ≡ some shards)
        × Entries (shards shard_id) 0 experts tensors
  unfolding collect
  collect-Entries shard_id name tensors h =
      elim (Option-cases (params (prefix_of shard_id ++ name))) [
        | inl q ↦
            let opened : collect params experts shard_id name
                ≡ raise (no_parameter (prefix_of shard_id ++ name)) =
              rw (q, collect) refl in
            absurd (ground (arith, sym opened ∙ h))
        | inr (shards, q) ↦
            let opened : collect params experts shard_id name
                ≡ complete (present (shards shard_id) 0 experts) =
              rw (q, collect) refl in
            let (none_out, all) =
              complete-ok (present (shards shard_id) 0 experts) tensors (sym opened ∙ h) in
            (
              shards,
              ap params (sym (prefix_of-parameter_name shard_id name)) ∙ q,
              subst (Entries (shards shard_id) 0 experts) all
                  (present-Entries (shards shard_id) 0 experts none_out),
            )
      ]

  uniform-IsTable :
      (shard_id : Projection) (name : Text) (tensors : List (Sub A))
      → uniform params experts shard_id name ≡ ok tensors
      → IsTable params experts shard_id name tensors
  unfolding uniform IsTable Entries
  uniform-IsTable shard_id name tensors h =
      let (ts, e1, h1) = bind-ok (collect params experts shard_id name) _ tensors h in
      let (u, e2, h2) = bind-ok (check_uniform ts) _ tensors h1 in
      let (shape, same) = check_uniform-eq ts e2 in
      let (shards, q, entries) = collect-Entries shard_id name ts e1 in
      let (len, at) = entries in
      subst (IsTable params experts shard_id name) (ok-injective h2) (
        shards,
        shape,
        q,
        len,
        λ e low.
            (let (t, a, b, c) = at e low in
              (t, ap (shards shard_id) (omega arith) ∙ a, b, same t c)),
      )

  -- A projection's three tables, and the width that each of its trellises has.
  unfoldable pub IsGroup : Bool → Projection → Group A → Type 0
  unfolding IsTable
  IsGroup mul1 shard_id g =
      IsTable params experts shard_id (codes "trellis") g.trellis
      × IsTable params experts shard_id (codes "suh") g.suh
      × IsTable params experts shard_id (codes "svh") g.svh
      × ((e : ℕ) (t : Sub A)
          → get_elem? g.trellis e ≡ some t
          → bits_from_trellis_shape (shape_of t) (some mul1) ≡ ok g.bits)

  -- Two tensors of a table have one shape.
  IsTable-alike :
      (shard_id : Projection) (name : Text) (tensors : List (Sub A))
      → IsTable params experts shard_id name tensors
      → (e e' : ℕ) (t t' : Sub A) → get_elem? tensors e ≡ some t
      → get_elem? tensors e' ≡ some t'
      → shape_of t ≡ shape_of t'
  unfolding IsTable
  IsTable-alike shard_id name tensors (shards, shape, q, len, at) e e' t t' h h' =
      let (x, a, b, c) = at e (subst (λ n. e < n) len (get_elem-lt tensors e t h)) in
      let (x', a', b', c') = at e' (subst (λ n. e' < n) len (get_elem-lt tensors e' t' h')) in
      let one : t ≡ x = some-injective (sym h ∙ b) in
      let two : x' ≡ t' = some-injective (sym b' ∙ h') in
      ap shape_of one ∙ c ∙ sym c' ∙ ap shape_of two

  -- The width read from the first expert's trellis is that of each.
  IsTable-bits :
      (mul1 : Bool) (shard_id : Projection) (tensors : List (Sub A)) (bits : Width)
      → IsTable params experts shard_id (codes "trellis") tensors
      → first_bits tensors mul1 ≡ ok bits
      → (e : ℕ) (t : Sub A) → get_elem? tensors e ≡ some t
      → bits_from_trellis_shape (shape_of t) (some mul1) ≡ ok bits
  IsTable-bits mul1 shard_id [] bits table h e t q = absurd (ground arith)
  IsTable-bits mul1 shard_id (x ∷ ts) bits table h e t q =
      ap (λ s. bits_from_trellis_shape s (some mul1))
        (IsTable-alike shard_id (codes "trellis") (x ∷ ts) table e 0 t x q refl)
      ∙ h

  group-IsGroup :
      (mul1 : Bool) (shard_id : Projection) (g : Group A)
      → group params experts mul1 shard_id ≡ ok g
      → IsGroup mul1 shard_id g
  unfolding group IsGroup
  group-IsGroup mul1 shard_id g h =
      let (trellis, e1, h1) = bind-ok (uniform params experts shard_id (codes "trellis")) _ g h in
      let (suh, e2, h2) = bind-ok (uniform params experts shard_id (codes "suh")) _ g h1 in
      let (svh, e3, h3) = bind-ok (uniform params experts shard_id (codes "svh")) _ g h2 in
      let (bits, e4, h4) = bind-ok (lift (first_bits trellis mul1)) _ g h3 in
      subst (IsGroup mul1 shard_id) (ok-injective h4) (
        uniform-IsTable shard_id (codes "trellis") trellis e1,
        uniform-IsTable shard_id (codes "suh") suh e2,
        uniform-IsTable shard_id (codes "svh") svh e3,
        IsTable-bits mul1 shard_id trellis bits
            (uniform-IsTable shard_id (codes "trellis") trellis e1)
            (lift-ok (first_bits trellis mul1) bits e4),
      )

width_eq-eq : (a b : Width) → width_eq a b ≡ true → a ≡ b
width_eq-eq (Width.whole a) (Width.whole b) h = ground arith
width_eq-eq (Width.half a) (Width.half b) h = ground arith
width_eq-eq Width.other b h = absurd (ground arith)
width_eq-eq (Width.whole a) Width.other h = absurd (ground arith)
width_eq-eq (Width.half a) Width.other h = absurd (ground arith)
width_eq-eq (Width.whole a) (Width.half b) h = absurd (ground arith)
width_eq-eq (Width.half a) (Width.whole b) h = absurd (ground arith)

made_of : {A : Type 0} → Group A → Group A → Group A → Tables A
made_of gates ups downs = record {
  gates = gates;
  ups = ups;
  downs = downs;
  stored_intermediate = first_width gates.trellis * tile;
}

finished-eq :
    {A : Type 0} (gates ups downs : Group A) (tables : Tables A)
    → (if not (width_eq gates.bits ups.bits)
        then raise gate_and_up_differ
        else ok (made_of gates ups downs))
      ≡ ok tables
    → (gates.bits ≡ ups.bits) × (made_of gates ups downs ≡ tables)
unfolding made_of
finished-eq gates ups downs tables h = elim (Bool-cases (width_eq gates.bits ups.bits)) [
  | inl same ↦ (width_eq-eq gates.bits ups.bits same, ok-injective (rw same at h))
  | inr other ↦ absurd (ground (arith, rw other at h))
]

first_width-alike :
    {A : Type 0} (params : MoeParams A) (experts : ℕ) (shard_id : Projection)
    (tensors : List (Sub A))
    → IsTable params experts shard_id (codes "trellis") tensors
    → (e : ℕ) (t : Sub A) → get_elem? tensors e ≡ some t
    → width t.cells ≡ first_width tensors
first_width-alike params experts shard_id [] table e t q = absurd (ground arith)
first_width-alike params experts shard_id (x ∷ ts) table e t q =
    let alike =
      IsTable-alike params experts shard_id (codes "trellis") (x ∷ ts) table e 0 t x q refl in
    second-injective alike

-- Where a layer of routed experts finishes loading, each of its tables has one tensor for every
-- expert, the expert's own, all of one shape; each projection's width is the one that every expert's
-- trellis has, and the gate's is the up projection's; the stored intermediate size is 16 times the
-- width of every gate's trellis. So a layer that misses one expert's tensor, or has one of another
-- shape, raises.
pub process-IsGroup :
    {A : Type 0} (params : MoeParams A) (experts : ℕ) (mul1 : Bool) (tables : Tables A)
    → process params experts mul1 ≡ ok tables
    → IsGroup params experts mul1 gate tables.gates
      × IsGroup params experts mul1 up tables.ups
      × IsGroup params experts mul1 down tables.downs
      × ((tables.gates).bits ≡ (tables.ups).bits)
      × ((e : ℕ) (t : Sub A)
          → get_elem? (tables.gates).trellis e ≡ some t
          → width t.cells * 16 ≡ tables.stored_intermediate)
unfolding process made_of IsGroup
process-IsGroup params experts mul1 tables h =
    let (gates, e1, h1) = bind-ok (group params experts mul1 gate) _ tables h in
    let (ups, e2, h2) = bind-ok (group params experts mul1 up) _ tables h1 in
    let (downs, e3, h3) = bind-ok (group params experts mul1 down) _ tables h2 in
    let group_of_gates = group-IsGroup params experts mul1 gate gates e1 in
    let (same, made) = finished-eq gates ups downs tables h3 in
    subst
      (λ z.
        IsGroup params experts mul1 gate z.gates
        × IsGroup params experts mul1 up z.ups
        × IsGroup params experts mul1 down z.downs
        × ((z.gates).bits ≡ (z.ups).bits)
        × ((e : ℕ) (t : Sub _)
            → get_elem? (z.gates).trellis e ≡ some t
            → width t.cells * 16 ≡ z.stored_intermediate))
      made
      (
        group_of_gates,
        group-IsGroup params experts mul1 up ups e2,
        group-IsGroup params experts mul1 down downs e3,
        same,
        λ e t q.
            ap (λ n. n * 16)
              (first_width-alike params experts gate gates.trellis (group_of_gates.0) e t q),
      )
