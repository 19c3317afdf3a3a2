-- ===== src/Tests/Composed.antt =====
-- A head taken from a donor, a shard of two pieces, and the rules that name them.
use mathlib.Core.Path.{subst}
use mathlib.Core.List.{append_assoc}
use vllm_exl3_plugin.Base.{
  All, ℕ, zero, suc, if◌then◌else◌, ◌*◌, ◌^◌, ◌+◌, ◌-◌, ◌<◌, ◌≡◌, ◌↔◌, inl, inr, refl, ap, sym, ◌∙◌,
  false, Option, none, some, List, [], ◌∷◌, ◌++◌, map, length, take, drop, replicate, arith, In,
  Result, ok, raise,
}
use vllm_exl3_plugin.Base.Text.{Text, codes, text_eq, strip_suffix}
use vllm_exl3_plugin.Format.Widths.{dims_from_trellis_shape}
use vllm_exl3_plugin.Compose.Compare.{one_side_only, check_module, check_restore_module}
use vllm_exl3_plugin.Compose.Sides.{Begins, Has}
use vllm_exl3_plugin.Compose.Checks.{padded, Agrees, check_module-nil, check_restore_module-nil}
use vllm_exl3_plugin.Compose.Modules.{module_key}
use vllm_exl3_plugin.Compose.Write.{
  Shards, Move, Origin, from_base, from_donor, Entries, carried, home, write,
}
use vllm_exl3_plugin.Compose.Whole.{Together, Wanted, write-Wanted}
use vllm_exl3_plugin.Compose.Bytes.{
  Bytes, Record, Header, Json, Piece, write_shard, raw_header, bytes_of, blob_of,
}
use vllm_exl3_plugin.Compose.Ranges.{take-append, drop-append}
use vllm_exl3_plugin.Compose.Copied.{Loads, InSource, write_shard-raw_header}
use vllm_exl3_plugin.Compose.Rules.{
  RuleError, Patterns, Rule, from_dir, keep, take as take_modules, Rules, Checkpoint, run, no_rules,
  resolve,
}
use vllm_exl3_plugin.Compose.Given.{Resolved}
use vllm_exl3_plugin.Compose.Resolved.{resolve-Resolved}

-- A base of a body in shard 0 and a head in shard 1, and a donor whose head has a scale more.
abbrev base : Shards
base = (codes "body.weight", 0) ∷ (codes "lm_head.trellis", 1) ∷ []

abbrev donors : ℕ → List Text
donors d = codes "lm_head.trellis" ∷ codes "lm_head.suh" ∷ []

abbrev head_move : Move
head_move = record { key = codes "lm_head"; donor = 7; dense = false }

-- What the run writes: the body's shard as it was, the head's with the donor's tensors.
written :
    write base donors (head_move ∷ []) (0 ∷ 1 ∷ [])
    ≡ ok (
        (0, (codes "body.weight", from_base) ∷ [])
        ∷ (1, (codes "lm_head.suh", from_donor 7) ∷ (codes "lm_head.trellis", from_donor 7) ∷ [])
        ∷ [])
unfolding write strip_suffix
written = refl

body_key : module_key (codes "body.weight") ≡ codes "body"
unfolding module_key strip_suffix
body_key = refl

head_key : module_key (codes "lm_head.trellis") ≡ codes "lm_head"
unfolding module_key strip_suffix
head_key = refl

keys_differ : codes "body" ≡ codes "lm_head" → ⊥
keys_differ h = absurd (ground (arith, ap (text_eq (codes "body")) h))

base-Together : Together base
unfolding Together
base-Together n n' s s' (inl e) (inl f) k = ap (λ z. z.1) e ∙ sym (ap (λ z. z.1) f)
base-Together n n' s s' (inl e) (inr (inl f)) k = absurd (
    keys_differ
      (sym body_key ∙ sym (ap (λ z. module_key z.0) e) ∙ k ∙ ap (λ z. module_key z.0) f ∙ head_key))
base-Together n n' s s' (inl e) (inr (inr l)) k = absurd l
base-Together n n' s s' (inr (inl e)) (inl f) k = absurd (
    keys_differ (
      sym (
        sym head_key
        ∙ sym (ap (λ z. module_key z.0) e)
        ∙ k
        ∙ ap (λ z. module_key z.0) f
        ∙ body_key)))
base-Together n n' s s' (inr (inl e)) (inr (inl f)) k = ap (λ z. z.1) e ∙ sym (ap (λ z. z.1) f)
base-Together n n' s s' (inr (inl e)) (inr (inr l)) k = absurd l
base-Together n n' s s' (inr (inr l)) m k = absurd l

head_home : home base (codes "lm_head") ≡ some 1
unfolding home strip_suffix
head_home = refl

head_carried : carried donors head_move ≡ codes "lm_head.suh" ∷ codes "lm_head.trellis" ∷ []
unfolding carried strip_suffix
head_carried = refl

move_known : (mv : Move) → In mv (head_move ∷ []) → (s : ℕ) × (home base mv.key ≡ some s)
move_known mv (inl e) = (1, ap (λ m. home base m.key) e ∙ head_home)
move_known mv (inr l) = absurd l

move_full : (mv : Move) → In mv (head_move ∷ []) → (x : Text) × In x (carried donors mv)
move_full mv (inl e) = (
  codes "lm_head.suh",
  subst (In (codes "lm_head.suh")) (sym (ap (carried donors) e ∙ head_carried)) (inl refl),
)
move_full mv (inr l) = absurd l

write-Wanted_example :
    (out : List (ℕ × Entries)) × (write base donors (head_move ∷ []) (0 ∷ 1 ∷ []) ≡ ok out)
    × (map (λ z. z.0) out ≡ 0 ∷ 1 ∷ [])
    × ((s : ℕ) (entries : Entries)
        → In (s, entries) out
        → (n : Text) (o : Origin) → In (n, o) entries ↔ Wanted base donors (head_move ∷ []) s n o)
write-Wanted_example =
    write-Wanted base donors (head_move ∷ []) (0 ∷ 1 ∷ []) base-Together move_known move_full

-- A way to write headers down: the numbers of each record and how long its lists are, then the lists.
abbrev body : Header → Bytes → Bytes
body [] rest = rest
body ((n, r) ∷ header) rest =
    r.dtype ∷ r.first ∷ r.last ∷ length n ∷ length r.shape ∷ (n ++ (r.shape ++ body header rest))

abbrev parse : ℕ → Bytes → Option Header
parse zero bs = some []
parse (suc c) (d ∷ a ∷ b ∷ k ∷ j ∷ bs) = elim (parse c (drop j (drop k bs))) [
  | none ↦ none
  | some header ↦
      some (
        (take k bs, record { dtype = d; shape = take j (drop k bs); first = a; last = b }) ∷ header)
]
parse (suc c) _ = none

abbrev parse_all : Bytes → Option Header
parse_all [] = none
parse_all (c ∷ bs) = parse c bs

abbrev plain : Json
plain = record { dumps = λ header. length header ∷ body header []; loads = parse_all }

drop_all_of : (xs ys : Bytes) → drop (length xs) (xs ++ ys) ≡ ys
drop_all_of xs ys =
    let z : length xs ≡ length xs + 0 = omega arith in
    ap (λ k. drop k (xs ++ ys)) z ∙ drop-append xs ys 0

body-append : (header : Header) (rest : Bytes) → body header [] ++ rest ≡ body header rest
body-append [] rest = refl
body-append ((n, r) ∷ header) rest =
    ap (λ bs. r.dtype ∷ r.first ∷ r.last ∷ length n ∷ length r.shape ∷ bs)
      (append_assoc n (r.shape ++ body header []) rest
        ∙ ap (λ bs. n ++ bs)
            (append_assoc r.shape (body header []) rest
              ∙ ap (λ bs. r.shape ++ bs) (body-append header rest)))

parse-body :
    (header : Header) (rest : Bytes) → parse (length header) (body header rest) ≡ some header
parse-body [] rest = refl
parse-body ((n, r) ∷ header) rest =
    let tail = body header rest in
    let after_name = drop_all_of n (r.shape ++ tail) in
    let parsed : parse (length header)
          (drop (length r.shape) (drop (length n) (n ++ (r.shape ++ tail))))
        ≡ some header =
      ap (λ bs. parse (length header) (drop (length r.shape) bs)) after_name
      ∙ ap (parse (length header)) (drop_all_of r.shape tail)
      ∙ parse-body header rest in
    rw (parsed, parse)
      (rw (after_name, take-append n (r.shape ++ tail), take-append r.shape tail) refl)

plain-Loads : Loads plain
unfolding Loads
plain-Loads header k = rw (body-append header (replicate k 32)) (parse-body header (replicate k 32))

-- Two pieces of one source.
abbrev pieces : List Piece
pieces =
    record { name = codes "a"; dtype = 1; shape = 2 ∷ []; source = 0; first = 1; last = 3 }
    ∷ record { name = codes "b"; dtype = 1; shape = 1 ∷ []; source = 0; first = 0; last = 1 }
    ∷ []

abbrev sources : ℕ → Bytes
sources i = 7 ∷ 8 ∷ 9 ∷ []

blob_small : length (blob_of plain sources pieces) < 256 ^ 8
unfolding blob_of
blob_small = omega arith

a_new : In (codes "a") (codes "b" ∷ []) → ⊥
a_new (inl e) = absurd (ground (arith, ap (text_eq (codes "a")) e))
a_new (inr l) = l

write_shard-raw_header_example :
    (file : Bytes) × (header : Header) × (write_shard plain sources pieces ≡ ok file)
    × (raw_header plain file ≡ ok header)
    × ((p : Piece)
        → In p pieces
        → (r : Record) × In (p.name, r) header
          × (r.dtype ≡ p.dtype)
          × (r.shape ≡ p.shape)
          × (bytes_of file r ≡ take (p.last - p.first) (drop p.first (sources p.source))))
unfolding InSource
write_shard-raw_header_example =
    write_shard-raw_header plain sources pieces plain-Loads (a_new, ((λ m. m), tt))
      ((omega arith, omega arith), ((omega arith, omega arith), tt)) blob_small

-- The rules that take a donor's head and give the body back to the base.
abbrev patterns : Patterns
patterns = record { search = λ pattern text. false; glob = λ pattern text. false }

abbrev base_side : Checkpoint
base_side = record {
  names = codes "body.weight" ∷ codes "lm_head.trellis" ∷ [];
  bits = λ m. some 5;
}

abbrev donor_side : ℕ → Checkpoint
donor_side d = record {
  names = codes "lm_head.trellis" ∷ codes "body.weight" ∷ [];
  bits = λ m. some 6;
}

abbrev rules : List Rule
rules = from_dir 7 ∷ take_modules (codes "all") ∷ keep (codes "body") ∷ []

abbrev after_rules : Result RuleError Rules → Rules
after_rules (ok r) = r
after_rules (raise e) = no_rules

abbrev last : Rules
last = after_rules (run patterns base_side donor_side no_rules rules)

resolved : resolve patterns base_side donor_side rules ≡ ok last
unfolding resolve strip_suffix
resolved = refl

resolve-Resolved_example : Resolved patterns base_side donor_side last
resolve-Resolved_example = resolve-Resolved patterns base_side donor_side rules last resolved

-- A module of 128 by 128 at 3 and at 5 bits, and its dense original, of 100 columns.
abbrev at_bits : ℕ → Text → Option (List ℕ)
at_bits bits suffix =
    if text_eq suffix (codes ".trellis")
    then some (8 ∷ 8 ∷ 16 * bits ∷ [])
    else if text_eq suffix (codes ".suh")
    then some (128 ∷ [])
    else none

abbrev dense_side : Text → Option (List ℕ)
dense_side suffix = if text_eq suffix (codes ".weight") then some (128 ∷ 100 ∷ []) else none

-- The same as tensors of a module, of which the donor also has a codebook's.
abbrev shape_at : ℕ → Text → List ℕ
shape_at bits name = if text_eq name (codes "m.trellis") then 8 ∷ 8 ∷ 16 * bits ∷ [] else 128 ∷ []

abbrev base_group : List Text
base_group = codes "m.trellis" ∷ codes "m.suh" ∷ []

abbrev donor_group : List Text
donor_group = codes "m.suh" ∷ codes "m.mul1" ∷ codes "m.trellis" ∷ []

quiet : check_module (codes "m") base_group donor_group (shape_at 3) (shape_at 5) ≡ ok []
unfolding check_module
quiet = refl

-- A bias that only the donor has is noticed.
noticed :
    check_module (codes "m") base_group (codes "m.bias" ∷ donor_group) (shape_at 3) (shape_at 5)
    ≡ ok (one_side_only (codes ".bias") ∷ [])
unfolding check_module
noticed = refl

restorable : check_restore_module (at_bits 3) dense_side ≡ ok []
unfolding check_restore_module
restorable = refl

base_Begins : All (Begins (codes "m")) base_group
base_Begins = ((codes ".trellis", refl), ((codes ".suh", refl), tt))

donor_Begins : All (Begins (codes "m")) donor_group
donor_Begins = ((codes ".suh", refl), ((codes ".mul1", refl), ((codes ".trellis", refl), tt)))

check_module-nil_example :
    (b : Option (List ℕ)) × (d : Option (List ℕ)) × Has
      (codes "m")
      base_group
      (shape_at 3)
      (codes ".suh")
      b
    × Has (codes "m") donor_group (shape_at 5) (codes ".suh") d
    × Agrees (codes ".suh") b d
check_module-nil_example =
    check_module-nil (codes "m") base_group donor_group (shape_at 3) (shape_at 5) base_Begins
      donor_Begins quiet (codes ".suh")

check_restore_module-nil_example :
    (t : List ℕ) × (w_out w_in : ℕ) × (at_bits 3 (codes ".trellis") ≡ some t)
    × (dense_side (codes ".weight") ≡ some (w_out ∷ w_in ∷ []))
    × (dims_from_trellis_shape t ≡ ok (padded w_in, padded w_out))
    × ((x : List ℕ)
        → at_bits 3 (codes ".bias") ≡ some x
        → (y : List ℕ) × (dense_side (codes ".bias") ≡ some y))
check_restore_module-nil_example = check_restore_module-nil (at_bits 3) dense_side restorable
