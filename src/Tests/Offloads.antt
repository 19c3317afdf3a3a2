-- ===== src/Tests/Offloads.antt =====
-- A layer of three experts with the cache off, and a batch over the staging threshold.
use mathlib.Core.Path.{subst}
use vllm_exl3_plugin.Base.{
  ℕ, ◌+◌, ◌-◌, ◌≤◌, ◌<◌, ◌≡◌, inr, refl, max, leb, some-eq, ℕ_discrete, ℕ_discrete, true, false,
  none, some, List, [], ◌∷◌, map, ◌==◌, if◌then◌else◌, arith, All, ok,
}
use vllm_exl3_plugin.Base.Text.{codes}
use vllm_exl3_plugin.Offload.State.{Offload, uva, usable}
use vllm_exl3_plugin.Offload.Experts.{Host, Tensor, Collector, row_of, row_from}
use vllm_exl3_plugin.Offload.Rows.{reads}
use vllm_exl3_plugin.Offload.Deliver.{Delivery, Sent, Once, deliver_each, deliver_each-reads}
use vllm_exl3_plugin.Offload.Load.{
  Arrival, dense, finished, expert, NoLarger, after, load, load-within_budget, load-other_bytes,
}
use vllm_exl3_plugin.Offload.Report.{other_bytes}
use vllm_exl3_plugin.Offload.Staging.{HostRows, HostedLayer, Memory, block_of, expert_tables}
use vllm_exl3_plugin.Offload.Window.{AtRows, expert_tables-Reads}

-- A host of one rank with 64 GiB, whose experts are numbered below 10.
abbrev machine : Host
machine = record {
  available = 68719476736;
  in_total = 68719476736;
  ranks = 1;
  decimal = λ e. (48 + e) ∷ [];
  search = λ pattern text. false;
  ceil_share = λ free want experts. experts;
}

-- 100 bytes of budget, 20 of them spent on other weights.
abbrev loader : Offload
loader = record {
  backend = uva true;
  params = codes "experts" ∷ [];
  limit = 100;
  spent = 20;
  requested = false;
  selective = false;
  total_bytes = 0;
  tensors = 0;
  layers = [];
  expert_bytes = 0;
  moe_layers = [];
  quota = none;
}

abbrev collector : Collector
collector = record {
  prefix = codes "model.layers.3.mlp.experts";
  name = codes "trellis";
  num_experts = 3;
  blocks = λ label. none;
}

abbrev tensor : ℕ → Tensor
tensor v = record { shape = 8 ∷ 4 ∷ 48 ∷ []; nbytes = 60; value = v }

-- The experts out of their order: the budget takes the first two.
abbrev deliveries : List Delivery
deliveries =
    record { label = 0; expert = 2; tensor = tensor 12 }
    ∷ record { label = 0; expert = 0; tensor = tensor 10 }
    ∷ record { label = 0; expert = 1; tensor = tensor 11 }
    ∷ []

deliver_each-reads_example :
    (sent : List Sent) × (c' : Collector) × (o' : Offload) × (deliver_each machine false collector
        loader deliveries
      ≡ ok (sent, c', o'))
    × (map (λ s. s.delivery) sent ≡ deliveries)
    × All (λ s. reads c' s.home ≡ some (s.delivery.tensor.value)) sent
unfolding Once
deliver_each-reads_example =
    deliver_each-reads machine false (λ label. 8 ∷ 4 ∷ 48 ∷ []) collector loader deliveries
      (λ label. refl) (refl, (refl, (refl, tt)))
      ((inr (omega arith), (inr (omega arith), tt)), ((inr (omega arith), tt), (tt, tt)))

-- A dense tensor that no selector takes, the experts' first, and a finished weight.
abbrev arrivals : List Arrival
arrivals =
    dense
      (record { prefix = codes "model.layers.3.mlp"; name = codes "trellis"; offloadable = true })
      40
    ∷ expert 0 0 2 (tensor 12)
    ∷ finished (codes "lm_head") (some 30) false
    ∷ []

abbrev layers : ℕ → Collector
layers i = collector

arrivals-fit : All (NoLarger 60) arrivals
unfolding NoLarger
arrivals-fit = (omega arith, (omega arith, (λ n e. omega (arith, some-eq 30 n e), tt)))

load-within_budget_example :
    (after (load machine false layers loader arrivals)).spent ≤ max 20 (100 + 60)
load-within_budget_example = load-within_budget machine false 60 layers loader arrivals arrivals-fit

load-other_bytes_example : other_bytes (after (load machine false layers loader arrivals)) ≡ 20
unfolding usable
load-other_bytes_example =
    load-other_bytes machine false 60 layers loader arrivals arrivals-fit refl refl

-- A layer with its gate's two experts hosted, rows of 4 bytes, whose own tables lead to them.
abbrev rows : HostRows
rows = record { experts = 5 ∷ 1 ∷ []; row_bytes = 4; byte = λ r k. r + k }

abbrev hosted : HostedLayer
hosted = record { blocks = (0, rows) ∷ []; tables = λ j e. if e == 5 then 1000 else 2000 }

abbrev memory : Memory
memory a = if leb 2000 a then 1 + (a - 2000) else a - 1000

some-injective {ℓ} : {A : Type ℓ} {a b : A} → some a ≡ some b → a ≡ b
some-injective h = ground arith

rows-AtRows :
    (e row k : ℕ)
    → row_of rows.experts e ≡ some row
    → k < 4
    → memory ((if e == 5 then 1000 else 2000) + k) ≡ row + k
unfolding row_from
rows-AtRows e row k seat low = elim (ℕ_discrete e 5) [
  | yes five ↦
      let row_is : row ≡ 0 = ground arith in
      let at : (e == 5) ≡ true = ground arith in rw (at, row_is) (ground arith)
  | no other ↦
      let row_is : row ≡ 1 = ground arith in
      let at : (e == 5) ≡ false = ground arith in rw (at, row_is) (ground arith)
]

hosted-AtRows : AtRows hosted memory
unfolding AtRows block_of
hosted-AtRows j e row k b block seat low =
    let same : rows ≡ b = some-injective (ground arith) in
    subst
      (λ c.
        row_of c.experts e ≡ some row
        → k < c.row_bytes
        → memory (hosted.tables j e + k) ≡ c.byte row k)
      same (rows-AtRows e row k) seat low

-- A batch of 40 tokens, staged at 5000: the second row of the gate.
expert_tables-Reads_example :
    let result = expert_tables 32 5000 true hosted 40 memory in result.1 (result.0 0 1 + 2) ≡ 3
unfolding row_from block_of
expert_tables-Reads_example =
    expert_tables-Reads 32 5000 40 true hosted memory hosted-AtRows 0 1 1 2 rows (omega arith) refl
      refl (omega arith)
