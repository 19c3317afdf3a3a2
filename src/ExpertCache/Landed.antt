-- ===== src/ExpertCache/Landed.antt =====
-- The promotions on their way: what holds of the queue, and that landing and flipping keep it.
use mathlib.Core.List.{append_assoc}
use mathlib.Core.Path.{subst}
use vllm_exl3_plugin.Base.{
  ℕ, ◌≡◌, inl, inr, refl, sym, ap, ◌∙◌, Bool, true, false, Option, some, List, [], ◌∷◌, ◌++◌, arith,
  In, All, Distinct, Bool-cases, Distinct-disjoint, Distinct-right, In-append_left, In-append_right,
  In-append_cases,
}
use vllm_exl3_plugin.ExpertCache.State.{
  Layout, Cache, Batch, Ref, Content, bytes_of, update2, write, slot_addr,
}
use vllm_exl3_plugin.ExpertCache.Writes.{entries, to_slot, write_slots}
use vllm_exl3_plugin.ExpertCache.Landing.{pop_landed, flips, mark_live}
use vllm_exl3_plugin.ExpertCache.Steps.{land_next}
use vllm_exl3_plugin.ExpertCache.Tables.{
  IsWellFormed, write-append, write_slots_ne, write_slots_self,
}
use vllm_exl3_plugin.ExpertCache.Coherence.{Table, IsCoherent, flip-IsCoherent}

abbrev pub refs_of : List Batch → List Ref
refs_of [] = []
refs_of (b ∷ bs) = b.moved ++ refs_of bs

module _ (K : Layout) where
  -- The copies of a batch go to the slots that its experts hold, and once its event has completed
  -- the bytes are there.
  pub record BatchOk (slot_of : ℕ → ℕ → Option ℕ) (contents : ℕ → ℕ → ℕ → Content) (b : Batch)
      : Type 0 where
    pub targets : (l e : ℕ) → In (l, e) b.moved → b.target l e ≡ slot_of l e
    pub arrived :
        b.landed ≡ true
        → (l e s j a : ℕ) → In (l, e) b.moved
        → slot_of l e ≡ some s
        → In (j, a) (K.host l e)
        → contents l j s ≡ bytes_of e

  -- It also holds of other seats and bytes that agree for the experts in the queue.
  pub All-move :
      (slot_of slot_of' : ℕ → ℕ → Option ℕ) (m m' : ℕ → ℕ → ℕ → Content) (bs : List Batch)
      → All (BatchOk slot_of m) bs
      → ((l e : ℕ) → In (l, e) (refs_of bs) → slot_of' l e ≡ slot_of l e)
      → ((l e s j : ℕ) → In (l, e) (refs_of bs) → slot_of' l e ≡ some s → m' l j s ≡ m l j s)
      → All (BatchOk slot_of' m') bs
  All-move slot_of slot_of' m m' [] ok seats same = tt
  All-move slot_of slot_of' m m' (b ∷ bs) (ok, oks) seats same =
      let left =
        λ (l e : ℕ) (i : In (l, e) b.moved). In-append_left (l, e) b.moved (refs_of bs) i in
      (
        record {
          targets = λ l e i. ok.targets l e i ∙ sym (seats l e (left l e i));
          arrived = λ h l e s j a i q n.
              same l e s j (left l e i) q
              ∙ ok.arrived h l e s j a i (sym (seats l e (left l e i)) ∙ q) n;
        },
        All-move slot_of slot_of' m m' bs oks
            (λ l e i. seats l e (In-append_right (l, e) b.moved (refs_of bs) i))
            (λ l e s j i. same l e s j (In-append_right (l, e) b.moved (refs_of bs) i)),
      )

  module _ (slot_of : ℕ → ℕ → Option ℕ) where
    BatchOk-keep :
        (m m' : ℕ → ℕ → ℕ → Content) (b : Batch)
        → BatchOk slot_of m b
        → ((l e s j : ℕ) → In (l, e) b.moved → slot_of l e ≡ some s → m' l j s ≡ m l j s)
        → BatchOk slot_of m' b
    BatchOk-keep m m' b ok same = record {
      targets = ok.targets;
      arrived = λ h l e s j a i q n. same l e s j i q ∙ ok.arrived h l e s j a i q n;
    }

    All-keep :
        (m m' : ℕ → ℕ → ℕ → Content) (bs : List Batch)
        → All (BatchOk slot_of m) bs
        → ((l e s j : ℕ) → In (l, e) (refs_of bs) → slot_of l e ≡ some s → m' l j s ≡ m l j s)
        → All (BatchOk slot_of m') bs
    All-keep m m' [] ok same = tt
    All-keep m m' (b ∷ bs) (ok, oks) same = (
      BatchOk-keep m m' b ok
          (λ l e s j i. same l e s j (In-append_left (l, e) b.moved (refs_of bs) i)),
      All-keep m m' bs oks
          (λ l e s j i. same l e s j (In-append_right (l, e) b.moved (refs_of bs) i)),
    )

    land_next_landed :
        (b : Batch) (bs : List Batch) (m : ℕ → ℕ → ℕ → Content)
        → b.landed ≡ true
        → land_next K (b ∷ bs) m ≡ (b ∷ (land_next K bs m).0, (land_next K bs m).1)
    unfolding land_next
    land_next_landed b bs m h = ground arith

    land_next_waiting :
        (b : Batch) (bs : List Batch) (m : ℕ → ℕ → ℕ → Content)
        → b.landed ≡ false
        → land_next K (b ∷ bs) m
          ≡ (record b { landed = true } ∷ bs, write_slots K bytes_of b.moved b.target m)
    unfolding land_next
    land_next_waiting b bs m h = ground arith

    landed_ok :
        (b : Batch) (m : ℕ → ℕ → ℕ → Content)
        → ((l e e' s : ℕ) → slot_of l e ≡ some s → slot_of l e' ≡ some s → e' ≡ e)
        → BatchOk slot_of m b
        → BatchOk slot_of (write_slots K bytes_of b.moved b.target m) (record b { landed = true })
    landed_ok b m one ok = record {
      targets = ok.targets;
      arrived = λ h l e s j a i q n.
          write_slots_self K bytes_of b.target b.moved m l e j a s i (ok.targets l e i ∙ q) n
            (λ e' i' t. one l e e' s q (sym (ok.targets l e' i') ∙ t));
    }

    -- The queue and the bytes after the completion of the oldest copies under way.
    abbrev pub Lands :
        List Batch → (ℕ → ℕ → ℕ → Content) → List Batch × (ℕ → ℕ → ℕ → Content) → Type 0
    Lands bs m out =
        (refs_of out.0 ≡ refs_of bs)
        × All (BatchOk slot_of out.1) out.0
        × ((l e s j : ℕ) → slot_of l e ≡ some s → ¬ In (l, e) (refs_of bs) → out.1 l j s ≡ m l j s)

    pub land_next_lem :
        (bs : List Batch) (m : ℕ → ℕ → ℕ → Content)
        → ((l e e' s : ℕ) → slot_of l e ≡ some s → slot_of l e' ≡ some s → e' ≡ e)
        → All (BatchOk slot_of m) bs
        → Distinct (refs_of bs)
        → Lands bs m (land_next K bs m)
    unfolding land_next
    land_next_lem [] m one ok d = (refl, tt, λ l e s j q n. refl)
    land_next_lem (b ∷ bs) m one (ok, oks) d = elim (Bool-cases b.landed) [
      | inl h ↦
          let (same_refs, all_ok, other) =
            land_next_lem bs m one oks (Distinct-right b.moved (refs_of bs) d) in
          subst (Lands (b ∷ bs) m) (sym (land_next_landed b bs m h)) (
            ap (λ t. b.moved ++ t) same_refs,
            (
              BatchOk-keep m (land_next K bs m).1 b ok (λ l e s j i q.
                  other l e s j q (Distinct-disjoint (l, e) b.moved (refs_of bs) d i)),
              all_ok,
            ),
            λ l e s j q n. other l e s j q (λ i. n (In-append_right (l, e) b.moved (refs_of bs) i)),
          )
      | inr h ↦
          let m' = write_slots K bytes_of b.moved b.target m in
          let moved_only = λ (l e s j : ℕ) (q : slot_of l e ≡ some s) (n : ¬ In (l, e) b.moved).
            write_slots_ne K bytes_of b.target b.moved m l j s (λ e' i t.
              n (
                subst (λ x. In (l, x) b.moved) (one l e e' s q (sym (ok.targets l e' i) ∙ t)) i)) in
          subst (Lands (b ∷ bs) m) (sym (land_next_waiting b bs m h)) (
            refl,
            (
              landed_ok b m one ok,
              All-keep m m' bs oks (λ l e s j i q.
                  moved_only l e s j q
                    (λ i'. Distinct-disjoint (l, e) b.moved (refs_of bs) d i' i)),
            ),
            λ l e s j q n.
                moved_only l e s j q (λ i. n (In-append_left (l, e) b.moved (refs_of bs) i)),
          )
    ]

  -- `to_slot` of an expert that holds a slot.
  to_slot_seated :
      (c : Cache) (l e s : ℕ)
      → c.slot_of l e ≡ some s
      → to_slot K c (l, e) ≡ entries K l e (λ j a. slot_addr K l j s) (K.host l e)
  unfolding to_slot
  to_slot_seated c l e s h = rw (h, to_slot)

  -- The loop over the landed promotions.
  pub flips-IsCoherent :
      (wf : IsWellFormed K) (c : Cache) (done rest : List Ref) (live : ℕ → ℕ → Bool) (table : Table)
      → IsCoherent K c.slot_of c.owner live c.contents table (done ++ rest)
      → ((l e s j a : ℕ)
          → In (l, e) done
          → c.slot_of l e ≡ some s
          → In (j, a) (K.host l e)
          → c.contents l j s ≡ bytes_of e)
      → IsCoherent K c.slot_of c.owner
          (mark_live K done live)
          c.contents
          (write table (flips K c done))
          rest
  unfolding flips mark_live write
  flips-IsCoherent wf c [] rest live table h bytes = h
  flips-IsCoherent wf c ((l, e) ∷ done) rest live table h bytes =
      let (dead, (s, seat)) = h.waits l e (inl refl) in
      let one =
        flip-IsCoherent K wf l e s (done ++ rest) h seat
          (λ j a n. bytes l e s j a (inl refl) seat n) in
      rw (write-append (to_slot K c (l, e)) (flips K c done) table, to_slot_seated c l e s seat)
        (flips-IsCoherent wf c done rest (update2 live l e true) _ one
          (λ l' e' s' j a i. bytes l' e' s' j a (inr i)))

  pop_landed_yes :
      (b : Batch) (bs : List Batch)
      → b.landed ≡ true
      → pop_landed K (b ∷ bs) ≡ (b.moved ++ (pop_landed K bs).0, (pop_landed K bs).1)
  unfolding pop_landed
  pop_landed_yes b bs h = ground arith

  pop_landed_no :
      (b : Batch) (bs : List Batch) → b.landed ≡ false → pop_landed K (b ∷ bs) ≡ ([], b ∷ bs)
  unfolding pop_landed
  pop_landed_no b bs h = ground arith

  -- What leaves the queue has its bytes in place, and what stays is as it was.
  pub pop_landed_lem :
      (slot_of : ℕ → ℕ → Option ℕ) (m : ℕ → ℕ → ℕ → Content) (bs : List Batch)
      → All (BatchOk slot_of m) bs
      → (refs_of bs ≡ (pop_landed K bs).0 ++ refs_of (pop_landed K bs).1)
        × All (BatchOk slot_of m) (pop_landed K bs).1
        × ((l e s j a : ℕ)
            → In (l, e) (pop_landed K bs).0
            → slot_of l e ≡ some s
            → In (j, a) (K.host l e)
            → m l j s ≡ bytes_of e)
  unfolding pop_landed
  pop_landed_lem slot_of m [] ok = (refl, tt, λ l e s j a i q n. absurd i)
  pop_landed_lem slot_of m (b ∷ bs) (ok, oks) = elim (Bool-cases b.landed) [
    | inl h ↦
        let (refs, keeps, bytes) = pop_landed_lem slot_of m bs oks in
        rw (pop_landed_yes b bs h) (
          ap (λ t. b.moved ++ t) refs
              ∙ sym (append_assoc b.moved (pop_landed K bs).0 (refs_of (pop_landed K bs).1)),
          keeps,
          λ l e s j a i q n. elim (In-append_cases (l, e) b.moved (pop_landed K bs).0 i) [
            | inl i' ↦ ok.arrived h l e s j a i' q n
            | inr i' ↦ bytes l e s j a i' q n
          ],
        )
    | inr h ↦ rw (pop_landed_no b bs h) (refl, (ok, oks), λ l e s j a i q n. absurd i)
  ]
