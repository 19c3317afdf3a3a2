-- ===== src/BlockqCache/Evict.antt =====
-- What `evict` guarantees of the pile.
use mathlib.Core.Path.{subst}
use vllm_exl3_plugin.Base.{
  ℕ, ◌+◌, ◌-◌, ◌≤◌, ◌≡◌, ◌⊎◌, inl, inr, refl, sym, ap, ◌∙◌, true, false, List, [], ◌∷◌, leb, arith,
  In, All, In-cons, Bool-cases, Option, some,
}
use vllm_exl3_plugin.Base.Text.{Text, text_eq, text_eq-eq}
use vllm_exl3_plugin.BlockqCache.Pile.{
  File, file_le, insert, sort, total, evict_loop, listed, evict,
}

-- Sorted by the time of last use.
ByUse : List File → Type 0
ByUse [] = Unit
ByUse (f ∷ fs) = ((g : File) → In g fs → f.mtime ≤ g.mtime) × ByUse fs

In-insert : (f g : File) (fs : List File) → In g (insert f fs) → (g ≡ f) ⊎ In g fs
unfolding insert
In-insert f g [] m = m
In-insert f g (h ∷ fs) m = elim (Bool-cases (file_le f h)) [
  | inl e ↦ rw (e, insert, In) at m
  | inr e ↦ elim (In-cons g h (insert f fs) (rw (e, insert, In) at m)) [
    | inl same ↦ inr (inl same)
    | inr m' ↦ elim (In-insert f g fs m') [ inl s ↦ inl s | inr t ↦ inr (inr t) ]
  ]
]

le_mtime : (f g : File) → file_le f g ≡ true → f.mtime ≤ g.mtime
le_mtime f g h = ground arith

gt_mtime : (f g : File) → file_le f g ≡ false → g.mtime ≤ f.mtime
gt_mtime f g h = ground arith

insert-ByUse : (f : File) (fs : List File) → ByUse fs → ByUse (insert f fs)
unfolding insert ByUse
insert-ByUse f [] h = (λ g m. absurd m, tt)
insert-ByUse f (h ∷ fs) (low, rest) = elim (Bool-cases (file_le f h)) [
  | inl e ↦ simp e (
    λ g m. elim m [
      | inl s ↦ let a = le_mtime f h e in rw s a
      | inr m' ↦ let a = le_mtime f h e in let b = low g m' in omega arith
    ],
    (low, rest),
  )
  | inr e ↦ simp e (
    λ g m. elim (In-insert f g fs m) [
      | inl s ↦ let a = gt_mtime f h e in rw s a
      | inr m' ↦ low g m'
    ],
    insert-ByUse f fs rest,
  )
]

sort-ByUse : (fs : List File) → ByUse (sort fs)
unfolding sort ByUse
sort-ByUse [] = tt
sort-ByUse (f ∷ fs) = insert-ByUse f (sort fs) (sort-ByUse fs)

total-insert : (f : File) (fs : List File) → total (insert f fs) ≡ f.size + total fs
unfolding total insert
total-insert f [] = refl
total-insert f (g ∷ gs) = elim (Bool-cases (file_le f g)) [
  | inl e ↦ simp e refl
  | inr e ↦ simp e (let r = total-insert f gs in omega arith)
]

total-sort : (fs : List File) → total (sort fs) ≡ total fs
unfolding total sort
total-sort [] = refl
total-sort (f ∷ fs) = total-insert f (sort fs) ∙ ap (λ n. f.size + n) (total-sort fs)

abbrev gone : ℕ → Text → ℕ → List File → List File
gone limit keep left fs = (evict_loop limit keep left fs).0

abbrev stays : ℕ → Text → ℕ → List File → List File
stays limit keep left fs = (evict_loop limit keep left fs).1

-- How the loop goes on after a file.
loop_step :
    (limit : ℕ) (keep : Text) (left : ℕ) (f : File) (fs : List File)
    → ((leb left limit ≡ true) × (evict_loop limit keep left (f ∷ fs) ≡ ([], f ∷ fs)))
      ⊎ ((text_eq f.path keep ≡ true)
          × (evict_loop limit keep left (f ∷ fs)
              ≡ (gone limit keep left fs, f ∷ stays limit keep left fs)))
      ⊎ ((text_eq f.path keep ≡ false)
          × (evict_loop limit keep left (f ∷ fs)
              ≡ (f ∷ gone limit keep (left - f.size) fs, stays limit keep (left - f.size) fs)))
unfolding evict_loop
loop_step limit keep left f fs = elim (Bool-cases (leb left limit)) [
  | inl a ↦ inl (a, ground arith)
  | inr a ↦ elim (Bool-cases (text_eq f.path keep)) [
    | inl b ↦ inr (inl (b, ground arith))
    | inr b ↦ inr (inr (b, ground arith))
  ]
]

abbrev Fits : ℕ → Text → ℕ → List File × List File → Type 0
Fits limit keep x r = (total r.1 + x ≤ limit) ⊎ All (λ f. f.path ≡ keep) r.1

loop-Fits :
    (limit : ℕ) (keep : Text) (x left : ℕ) (fs : List File)
    → left ≡ total fs + x
    → Fits limit keep x (evict_loop limit keep left fs)
unfolding total evict_loop
loop-Fits limit keep x left [] h = inr tt
loop-Fits limit keep x left (f ∷ fs) h = elim (loop_step limit keep left f fs) [
  | inl (a, e) ↦ subst (Fits limit keep x) (sym e) (inl (ground arith))
  | inr r ↦ elim r [
    | inl (a, e) ↦
        subst (Fits limit keep x) (sym e)
          (elim (loop-Fits limit keep (x + f.size) left fs (omega arith)) [
            | inl fits ↦ inl (omega arith)
            | inr only ↦ inr (text_eq-eq f.path keep a, only)
          ])
    | inr (a, e) ↦
        subst (Fits limit keep x) (sym e) (loop-Fits limit keep x (left - f.size) fs (omega arith))
  ]
]

stays-In :
    (limit : ℕ) (keep : Text) (left : ℕ) (fs : List File) (g : File)
    → In g (stays limit keep left fs)
    → In g fs
unfolding evict_loop
stays-In limit keep left [] g m = m
stays-In limit keep left (f ∷ fs) g m = elim (loop_step limit keep left f fs) [
  | inl (a, e) ↦ rw (e, In) at m
  | inr r ↦ elim r [
    | inl (a, e) ↦ elim (In-cons g f (stays limit keep left fs) (rw (e, In) at m)) [
      | inl s ↦ inl s
      | inr m' ↦ inr (stays-In limit keep left fs g m')
    ]
    | inr (a, e) ↦ inr (stays-In limit keep (left - f.size) fs g (rw (e, In) at m))
  ]
]

-- An unlinked file is not the kept one, is of the list, and was used no later than any that stays.
abbrev Oldest : Text → List File → List File × List File → File → Type 0
Oldest keep fs r g =
    In g fs
    × (text_eq g.path keep ≡ false)
    × ((h : File) → In h r.1 → text_eq h.path keep ≡ false → g.mtime ≤ h.mtime)

loop-Oldest :
    (limit : ℕ) (keep : Text) (left : ℕ) (fs : List File) (g : File)
    → ByUse fs
    → In g (gone limit keep left fs)
    → Oldest keep fs (evict_loop limit keep left fs) g
unfolding evict_loop ByUse
loop-Oldest limit keep left [] g s m = absurd m
loop-Oldest limit keep left (f ∷ fs) g (low, s) m = elim (loop_step limit keep left f fs) [
  | inl (a, e) ↦ absurd (rw (e, In) at m)
  | inr r ↦ elim r [
    | inl (a, e) ↦
        let (i, other, old) = loop-Oldest limit keep left fs g s (rw (e, In) at m) in
        subst (λ r. Oldest keep (f ∷ fs) r g) (sym e)
          (
            inr i,
            other,
            λ h k not_kept. elim (In-cons h f (stays limit keep left fs) k) [
              | inl same ↦ absurd (let b = rw same at not_kept in ground arith)
              | inr k' ↦ old h k' not_kept
            ],
          )
    | inr (a, e) ↦
        subst (λ r. Oldest keep (f ∷ fs) r g) (sym e)
          (elim (In-cons g f (gone limit keep (left - f.size) fs) (rw (e, In) at m)) [
            | inl same ↦
                subst
                  (Oldest keep (f ∷ fs)
                    (f ∷ gone limit keep (left - f.size) fs, stays limit keep (left - f.size) fs))
                  (sym same)
                  (inl refl, a, λ h k not_kept. low h (stays-In limit keep (left - f.size) fs h k))
            | inr m' ↦
                let (i, other, old) = loop-Oldest limit keep (left - f.size) fs g s m' in
                (inr i, other, old)
          ])
  ]
]

-- With a limit, the files that stay of those that the directory shows fit it, unless the entry just
-- written is all that stays.
pub evict-fits :
    (limit : ℕ) (keep : Text) (names : List (Text × Option File))
    → (total (evict (some limit) keep (some names)).1 ≤ limit)
      ⊎ All (λ f. f.path ≡ keep) (evict (some limit) keep (some names)).1
unfolding evict
evict-fits limit keep names =
    let found = listed names in
    elim (loop-Fits limit keep 0 (total found) (sort found)
      (let t = total-sort found in omega arith)) [
        | inl fits ↦ inl (omega arith)
        | inr only ↦ inr only
      ]

-- A file that is unlinked is one that the directory shows, not the entry just written, and was last
-- used no later than any other file that stays.
pub evict-oldest_first :
    (limit : ℕ) (keep : Text) (names : List (Text × Option File)) (g : File)
    → In g (evict (some limit) keep (some names)).0
    → In g (sort (listed names))
      × (text_eq g.path keep ≡ false)
      × ((h : File)
          → In h (evict (some limit) keep (some names)).1
          → text_eq h.path keep ≡ false
          → g.mtime ≤ h.mtime)
unfolding evict
evict-oldest_first limit keep names g m =
    loop-Oldest limit keep (total (listed names)) (sort (listed names)) g
      (sort-ByUse (listed names)) m
