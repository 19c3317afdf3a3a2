-- ===== src/BlockqCache/Whole.antt =====
-- What readers and writers of entries see.
use vllm_exl3_plugin.Base.{
  ℕ, ◌+◌, ◌-◌, ◌≤◌, ◌≡◌, ◌⊎◌, inl, inr, refl, sym, ap, ◌∙◌, Bool, true, false, Option, none, some,
  List, [], ◌∷◌, ◌++◌, take, drop, take-add, drop-drop, arith, Result, ok, raise, In, Bool-cases,
  Option-cases,
}
use vllm_exl3_plugin.Base.Text.{Text, codes, text_eq, text_eq_refl, text_eq-eq}
use vllm_exl3_plugin.Format.Consts.{Checked, blockq_block}
use vllm_exl3_plugin.Format.Blockq.{Shapes, blockq_shapes}
use vllm_exl3_plugin.BlockqCache.Pile.{File, evict}
use vllm_exl3_plugin.BlockqCache.Evict.{evict-oldest_first}
use vllm_exl3_plugin.BlockqCache.Entries.{
  CeilingError, overflow, Tensor, read_tensor, read, Disk, put, Answers, remove_all, write,
}

-- No file of a list is at a path.
abbrev Apart : Text → List File → Type 0
Apart path fs = (f : File) → In f fs → text_eq f.path path ≡ false

text_eq_sym : (a b : Text) → text_eq a b ≡ false → text_eq b a ≡ false
text_eq_sym a b h = elim (Bool-cases (text_eq b a)) [
  | inr e ↦ e
  | inl e ↦ absurd (
      let same = text_eq-eq b a e in
      let t = text_eq_refl a in let u : text_eq a a ≡ false = rw same at h in ground arith)
]

remove_all-Apart :
    (refused : Text → Bool) (fs : List File) (disk : Disk) (path : Text)
    → Apart path fs
    → remove_all refused fs disk path ≡ disk path
unfolding remove_all
remove_all-Apart refused [] disk path h = refl
remove_all-Apart refused (f ∷ fs) disk path h =
    remove_all-Apart refused fs _ path (λ g m. h g (inr m))
    ∙ (let e = text_eq_sym f.path path (h f (inl refl)) in ground arith)

evict-Apart :
    (limit : Option ℕ) (directory : Option (List (Text × Option File))) (path : Text)
    → Apart path (evict limit path directory).0
unfolding evict
evict-Apart none directory path = λ f m. absurd m
evict-Apart (some limit) none path = λ f m. absurd m
evict-Apart (some limit) (some names) path = λ f m. (evict-oldest_first limit path names f m).1

limit_cases :
    (limit : Result CeilingError (Option ℕ))
    → ((ceiling : Option ℕ) × (limit ≡ ok ceiling)) ⊎ (limit ≡ raise overflow)
limit_cases (ok ceiling) = inl (ceiling, refl)
limit_cases (raise overflow) = inr refl

-- Whatever the file system answers, a write leaves at the entry's path what stood there, and returns
-- False, or leaves the whole encoding there, which its own eviction does not delete; then it returns
-- True, but for a limit that is infinite, for which it returns False with the encoding in place.
pub write-whole :
    (a : Answers) (refused : Text → Bool) (limit : Result CeilingError (Option ℕ))
    (directory : Option (List (Text × Option File))) (path tmp : Text) (bytes : List ℕ)
    (disk : Disk)
    → text_eq path tmp ≡ false
    → let result = write a refused limit directory path tmp bytes disk in
      ((result.1 ≡ false) × (result.0 path ≡ disk path))
      ⊎ ((result.1 ≡ true)
          × (result.0 path ≡ some bytes)
          × (ceiling : Option ℕ) × (limit ≡ ok ceiling))
      ⊎ ((result.1 ≡ false) × (result.0 path ≡ some bytes) × (limit ≡ raise overflow))
unfolding write
write-whole a refused limit directory path tmp bytes disk other = elim (Bool-cases a.made) [
  | inr m ↦ inl (ground arith)
  | inl m ↦ elim (Bool-cases a.saved) [
    | inr s ↦ inl (ground arith)
    | inl s ↦ elim (Bool-cases a.replaced) [
      | inr r ↦ inl (ground arith)
      | inl r ↦
          let self = text_eq_refl path in
          elim (limit_cases limit) [
            | inr e ↦ inr (inr (ground arith, ground arith, e))
            | inl (ceiling, e) ↦
                let kept =
                  remove_all-Apart refused (evict ceiling path directory).0
                    (put (put disk path (some bytes)) tmp none) path
                    (evict-Apart ceiling directory path) in
                inr (inl (ground arith, ground arith, ceiling, e))
          ]
    ]
  ]
]

slice-append :
    {A : Type 0} (a b c : ℕ) (xs : List A)
    → a ≤ b
    → b ≤ c
    → take (b - a) (drop a xs) ++ take (c - b) (drop b xs) ≡ take (c - a) (drop a xs)
slice-append a b c xs p q =
    let back : (b - a) + a ≡ b = omega arith in
    let whole : (c - b) + (b - a) ≡ c - a = omega arith in
    ap (λ n. take (b - a) (drop a xs) ++ take (c - b) (drop n xs)) (sym back)
    ∙ ap (λ t. take (b - a) (drop a xs) ++ take (c - b) t) (sym (drop-drop a (b - a) xs))
    ∙ take-add (b - a) (c - b) (drop a xs)
    ∙ ap (λ n. take n (drop a xs)) whole

read_tensor-append :
    (file : Text → Option Tensor) (name : Text) (shape : List ℕ) (a b c : ℕ) (p q : List (List ℕ))
    → a ≤ b
    → b ≤ c
    → read_tensor file name shape a b ≡ some p
    → read_tensor file name shape b c ≡ some q
    → read_tensor file name shape a c ≡ some (p ++ q)
unfolding read_tensor
read_tensor-append file name shape a b c p q h k m n = elim (Option-cases (file name)) [
  | inl e ↦ absurd (ground arith)
  | inr (t, e) ↦ let joined = slice-append a b c t.rows h k in ground arith
]

module _ (file : Text → Option Tensor) (rows hidden : ℕ) where
  read-parts :
      (a b : ℕ) (q s r : List (List ℕ))
      → read (some file) rows hidden a b ≡ some (q, s, r)
      → (want : Shapes) × (blockq_shapes rows hidden blockq_block ≡ ok want)
        × (read_tensor file (codes "bq_q") want.bq_q a b ≡ some q)
        × (read_tensor file (codes "bq_s") want.bq_s a b ≡ some s)
        × (read_tensor file (codes "bq_r") want.bq_r a b ≡ some r)
  unfolding read
  read-parts a b q s r h = by_shapes (blockq_shapes rows hidden blockq_block) refl
    where
      by_shapes :
          (w : Checked Shapes)
          → blockq_shapes rows hidden blockq_block ≡ w
          → (want : Shapes) × (blockq_shapes rows hidden blockq_block ≡ ok want)
            × (read_tensor file (codes "bq_q") want.bq_q a b ≡ some q)
            × (read_tensor file (codes "bq_s") want.bq_s a b ≡ some s)
            × (read_tensor file (codes "bq_r") want.bq_r a b ≡ some r)
      by_shapes (raise e) w = absurd (ground arith)
      by_shapes (ok want) w = (want, w, ground arith, ground arith, ground arith)

  -- Two reads of adjoining ranges of an entry that both hit make, one after the other, the read of the
  -- whole range, which hits too.
  pub read-append :
      (a b c : ℕ) (q s r q' s' r' : List (List ℕ))
      → a ≤ b
      → b ≤ c
      → read (some file) rows hidden a b ≡ some (q, s, r)
      → read (some file) rows hidden b c ≡ some (q', s', r')
      → read (some file) rows hidden a c ≡ some (q ++ q', s ++ s', r ++ r')
  unfolding read
  read-append a b c q s r q' s' r' h k m n =
      let (w, given, q1, s1, r1) = read-parts a b q s r m in
      let (w', given', q2, s2, r2) = read-parts b c q' s' r' n in
      let same : w' ≡ w = ground arith in
      let eq = read_tensor-append file (codes "bq_q") w.bq_q a b c q q' h k q1 (rw same at q2) in
      let es = read_tensor-append file (codes "bq_s") w.bq_s a b c s s' h k s1 (rw same at s2) in
      let er = read_tensor-append file (codes "bq_r") w.bq_r a b c r r' h k r1 (rw same at r2) in
      ground arith
