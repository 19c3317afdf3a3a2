-- ===== src/Compose/Whole.antt =====
-- Modules move whole: what every shard of the output holds, tensor by tensor.
use mathlib.Core.Path.{subst}
use vllm_exl3_plugin.Base.{
  ℕ, ◌≡◌, ◌⊎◌, ◌↔◌, inl, inr, refl, sym, ap, ◌∙◌, some, List, [], ◌∷◌, ◌++◌, map, In,
  In-append_left, In-append_right, In-append_cases, List-cases, ok,
}
use vllm_exl3_plugin.Base.Text.{Text}
use vllm_exl3_plugin.Compose.Modules.{module_key, modules_of_iff}
use vllm_exl3_plugin.Compose.Write.{
  Shards, names_of, Move, Origin, from_base, from_donor, carried, home, Ledger, at_shard, Entries,
  kept, arrived, write_shard_of, write_shards, write,
}
use vllm_exl3_plugin.Compose.Lookups.{In-kept, In-arrived, In-names_of, home-In}
use vllm_exl3_plugin.Compose.Ledger.{In-at_shard, Drops, Brings, IsLedger, move_all-IsLedger}

-- The tensors of each of the base's modules are in one shard.
unfoldable pub Together : Shards → Type 0
Together base =
    (n n' : Text) (s s' : ℕ)
    → In (n, s) base
    → In (n', s') base
    → module_key n ≡ module_key n'
    → s ≡ s'

-- What a shard of the output should have: a tensor of the base's shard where no move names its module,
-- and where one does, what the move brings, in the shard of the module.
unfoldable pub Wanted : Shards → (ℕ → List Text) → List Move → ℕ → Text → Origin → Type 0
Wanted base donors moves s n o =
    ((o ≡ from_base) × In (n, s) base × ((mv : Move) → In mv moves → mv.key ≡ module_key n → ⊥))
    ⊎ ((mv : Move) × In mv moves
        × (o ≡ from_donor mv.donor)
        × In n (carried donors mv)
        × (home base mv.key ≡ some s))

module _ (base : Shards) (donors : ℕ → List Text) (moves : List Move) where
  -- A tensor goes away from its shard exactly where a move names its module.
  drops_iff :
      (ledger : Ledger) (s : ℕ) (n : Text)
      → Together base
      → ((mv : Move) → In mv moves → (s : ℕ) × (home base mv.key ≡ some s))
      → IsLedger base donors moves ledger
      → In (n, s) base
      → In n (at_shard s ledger.0) ↔ ((mv : Move) × In mv moves × (mv.key ≡ module_key n))
  unfolding Together IsLedger Drops
  drops_iff ledger s n together known puts n_in =
      let (drops, brings) = puts in
      let (f, g) = In-at_shard s n (ledger.0) in
      let (f', g') = drops s n in
      (
        λ m.
            (let (mv, i, dropped) = f' (f m) in
              let (at, q) = dropped in
              (mv, i, sym (((modules_of_iff (names_of base) mv.key n).0 q).1))),
        λ m.
            (let (mv, i, same) = m in
              let (h, at) = known mv i in
              let (n0, q0, n0_in) = home-In base mv.key h at in
              let key0 = ((modules_of_iff (names_of base) mv.key n0).0 q0).1 in
              let shard : h ≡ s = together n0 n h s n0_in n_in (key0 ∙ same) in
              g (
                g' (
                  mv,
                  i,
                  (
                    at ∙ ap some shard,
                    (modules_of_iff (names_of base) mv.key n).1
                        (In-names_of n s base n_in, sym same),
                  ),
                ))),
      )

  arrivals_iff :
      (ledger : Ledger) (s : ℕ) (n : Text) (o : Origin)
      → IsLedger base donors moves ledger
      → In (n, o) (arrived (at_shard s ledger.1)) ↔ (
          (mv : Move) × In mv moves
          × (o ≡ from_donor mv.donor)
          × In n (carried donors mv)
          × (home base mv.key ≡ some s))
  unfolding IsLedger Brings
  arrivals_iff ledger s n o puts =
      let (drops, brings) = puts in
      let (f, g) = In-arrived n o (at_shard s ledger.1) in
      (
        λ m.
            (let (d, a, b) = f m in
              let (mv, i, brought) = (brings s n d).0 ((In-at_shard s (n, d) (ledger.1)).0 b) in
              let (at, e, c) = brought in (mv, i, a ∙ ap from_donor e, c, at)),
        λ m.
            (let (mv, i, a, c, at) = m in
              g (
                mv.donor,
                a,
                (In-at_shard s (n, mv.donor) (ledger.1)).1
                    ((brings s n mv.donor).1 (mv, i, (at, refl, c))),
              )),
      )

  entries_iff :
      (ledger : Ledger) (s : ℕ) (n : Text) (o : Origin)
      → Together base
      → ((mv : Move) → In mv moves → (s : ℕ) × (home base mv.key ≡ some s))
      → IsLedger base donors moves ledger
      → In (n, o) (kept base (at_shard s ledger.0) s ++ arrived (at_shard s ledger.1))
        ↔ Wanted base donors moves s n o
  unfolding Wanted
  entries_iff ledger s n o together known puts =
      let (f, g) = In-kept base (at_shard s ledger.0) s n o in
      let (f', g') = arrivals_iff ledger s n o puts in
      (
        λ m.
            elim (In-append_cases (n, o) (kept base (at_shard s ledger.0) s)
              (arrived (at_shard s ledger.1)) m) [
                | inl p ↦
                    (let (a, b, c) = f p in
                      inl (
                        a,
                        b,
                        λ mv i same.
                            c ((drops_iff ledger s n together known puts b).1 (mv, i, same)),
                      ))
                | inr q ↦ inr (f' q)
              ],
        λ m. elim m [
          | inl p ↦
              (let (a, b, c) = p in
                In-append_left (n, o) _ _
                  (g (
                    a,
                    b,
                    λ i.
                        (let (mv, j, same) = (drops_iff ledger s n together known puts b).0 i in
                          c mv j same),
                  )))
          | inr q ↦ In-append_right (n, o) (kept base (at_shard s ledger.0) s) _ (g' q)
        ],
      )

  -- A shard that something arrives in loses something.
  drop_of_arrival :
      (ledger : Ledger) (s : ℕ) (n : Text) (d : ℕ)
      → IsLedger base donors moves ledger
      → In (n, d) (at_shard s ledger.1)
      → (x : Text) × In x (at_shard s ledger.0)
  unfolding IsLedger Drops Brings
  drop_of_arrival ledger s n d puts m =
      let (drops, brings) = puts in
      let (mv, i, brought) = (brings s n d).0 ((In-at_shard s (n, d) (ledger.1)).0 m) in
      let (at, e, c) = brought in
      let (x, q, x_in) = home-In base mv.key s at in
      (x, (In-at_shard s x (ledger.0)).1 ((drops s x).1 (mv, i, (at, q))))

  -- And one that loses something, where every move brings something, has arrivals.
  arrival_of_drop :
      (ledger : Ledger) (s : ℕ) (n : Text)
      → ((mv : Move) → In mv moves → (x : Text) × In x (carried donors mv))
      → IsLedger base donors moves ledger
      → In n (at_shard s ledger.0)
      → (x : Text × ℕ) × In x (at_shard s ledger.1)
  unfolding IsLedger Drops Brings
  arrival_of_drop ledger s n full puts m =
      let (drops, brings) = puts in
      let (mv, i, dropped) = (drops s n).0 ((In-at_shard s n (ledger.0)).0 m) in
      let (at, q) = dropped in
      let (x, c) = full mv i in
      (
        (x, mv.donor),
        (In-at_shard s (x, mv.donor) (ledger.1)).1 ((brings s x mv.donor).1 (mv, i, (at, refl, c))),
      )

  write_shard_of-Wanted :
      (ledger : Ledger) (s : ℕ)
      → Together base
      → ((mv : Move) → In mv moves → (s : ℕ) × (home base mv.key ≡ some s))
      → ((mv : Move) → In mv moves → (x : Text) × In x (carried donors mv))
      → IsLedger base donors moves ledger
      → (entries : Entries) × (write_shard_of base ledger s ≡ ok entries)
        × ((n : Text) (o : Origin) → In (n, o) entries ↔ Wanted base donors moves s n o)
  unfolding write_shard_of
  write_shard_of-Wanted ledger s together known full puts =
      elim (List-cases (at_shard s ledger.0)) [
        | inl e ↦ (
          kept base [] s,
          rw (e, write_shard_of) refl,
          λ n o.
              let (f, g) = entries_iff ledger s n o together known puts in
              (
                λ m.
                    f (
                      In-append_left (n, o) _ _ (subst (λ l. In (n, o) (kept base l s)) (sym e) m)),
                λ w.
                    elim (In-append_cases (n, o) (kept base (at_shard s ledger.0) s)
                      (arrived (at_shard s ledger.1)) (g w)) [
                        | inl p ↦ subst (λ l. In (n, o) (kept base l s)) e p
                        | inr q ↦
                            let (d, _, b) = (In-arrived n o (at_shard s ledger.1)).0 q in
                            let (x, lost) = drop_of_arrival ledger s n d puts b in
                            absurd (subst (In x) e lost)
                      ],
              ),
        )
        | inr (x, drop, e) ↦ elim (List-cases (at_shard s ledger.1)) [
          | inl e' ↦
              let (y, y_in) =
                arrival_of_drop ledger s x full puts (subst (In x) (sym e) (inl refl)) in
              absurd (subst (In y) e' y_in)
          | inr (i, incoming, e') ↦ (
            kept base (x ∷ drop) s ++ arrived (i ∷ incoming),
            rw (e, e', write_shard_of) refl,
            λ n o.
                subst
                  (λ l.
                    In (n, o) (kept base l s ++ arrived (i ∷ incoming))
                    ↔ Wanted base donors moves s n o)
                  e
                  (subst
                    (λ l.
                      In (n, o) (kept base (at_shard s ledger.0) s ++ arrived l)
                      ↔ Wanted base donors moves s n o)
                    e' (entries_iff ledger s n o together known puts)),
          )
        ]
      ]

  write_shards-Wanted :
      (ledger : Ledger) (shards : List ℕ)
      → Together base
      → ((mv : Move) → In mv moves → (s : ℕ) × (home base mv.key ≡ some s))
      → ((mv : Move) → In mv moves → (x : Text) × In x (carried donors mv))
      → IsLedger base donors moves ledger
      → (out : List (ℕ × Entries)) × (write_shards base ledger shards ≡ ok out)
        × (map (λ z. z.0) out ≡ shards)
        × ((s : ℕ) (entries : Entries)
            → In (s, entries) out
            → (n : Text) (o : Origin) → In (n, o) entries ↔ Wanted base donors moves s n o)
  unfolding write_shards
  write_shards-Wanted ledger [] together known full puts = ([], refl, refl, λ s entries m. absurd m)
  write_shards-Wanted ledger (s ∷ shards) together known full puts =
      let (entries, run, here) = write_shard_of-Wanted ledger s together known full puts in
      let (rest, run', same, later) = write_shards-Wanted ledger shards together known full puts in
      (
        (s, entries) ∷ rest,
        rw (run, run') refl,
        ap (◌∷◌ s) same,
        λ s' es m. elim m [
          | inl e ↦
              subst
                (λ z.
                  (n : Text) (o : Origin) → In (n, o) (z.1) ↔ Wanted base donors moves (z.0) n o)
                (sym e) here
          | inr l ↦ later s' es l
        ],
      )

-- Where the tensors of each of the base's modules are in one shard, every module that is moved is the
-- base's and every move brings a tensor, the output is written, a shard for each of the base's, and
-- modules move whole: a tensor of the base stands in its shard of the output exactly where no move
-- names its module, and a donor's tensor stands in a shard exactly where a move that brings it from
-- that donor names a module of that shard. Of a module that is moved no tensor of the base is left.
pub write-Wanted :
    (base : Shards) (donors : ℕ → List Text) (moves : List Move) (shards : List ℕ)
    → Together base
    → ((mv : Move) → In mv moves → (s : ℕ) × (home base mv.key ≡ some s))
    → ((mv : Move) → In mv moves → (x : Text) × In x (carried donors mv))
    → (out : List (ℕ × Entries)) × (write base donors moves shards ≡ ok out)
      × (map (λ z. z.0) out ≡ shards)
      × ((s : ℕ) (entries : Entries)
          → In (s, entries) out
          → (n : Text) (o : Origin) → In (n, o) entries ↔ Wanted base donors moves s n o)
unfolding write
write-Wanted base donors moves shards together known full =
    let (ledger, run, puts) = move_all-IsLedger base donors moves known in
    let (out, run', same, each) =
      write_shards-Wanted base donors moves ledger shards together known full puts in
    (out, rw run run', same, each)
