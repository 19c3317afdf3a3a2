-- ===== src/BlockqCache/Pile.antt =====
-- `evict`: the pile's files, their order, and the loop that deletes them.
use vllm_exl3_plugin.Base.{
  ℕ, ◌+◌, ◌-◌, Bool, true, false, ◌&&◌, ◌||◌, not, Option, none, some, List, [], ◌∷◌, ltb, leb,
  ◌==◌, if◌then◌else◌,
}
use vllm_exl3_plugin.Base.Text.{Text, codes, text_eq, ends_with}

-- An entry as the directory shows it: `st_mtime_ns`, `st_size` and the path.
pub record File : Type 0 where
  pub mtime : ℕ
  pub size : ℕ
  pub path : Text

-- Python's order of strings.
abbrev pub text_le : Text → Text → Bool
text_le [] t = true
text_le (c ∷ s) [] = false
text_le (c ∷ s) (d ∷ t) = let rest = text_le s t in ltb c d || (c == d && rest)

-- The order of the tuples (mtime, size, path).
abbrev pub file_le : File → File → Bool
file_le f g =
    ltb f.mtime g.mtime
    || (f.mtime == g.mtime && (ltb f.size g.size || (f.size == g.size && text_le f.path g.path)))

unfoldable pub insert : File → List File → List File
insert f [] = f ∷ []
insert f (g ∷ gs) = let rest = insert f gs in if file_le f g then f ∷ g ∷ gs else g ∷ rest

-- `sorted(found)`
unfoldable pub sort : List File → List File
unfolding insert
sort [] = []
sort (f ∷ fs) = insert f (sort fs)

-- `sum(size for _, size, _ in found)`
unfoldable pub total : List File → ℕ
total [] = 0
total (f ∷ fs) = f.size + total fs

-- The loop: the files that it unlinks, and those that it leaves. An unlink that fails counts as done.
unfoldable pub evict_loop : ℕ → Text → ℕ → List File → List File × List File
evict_loop limit keep left [] = ([], [])
evict_loop limit keep left (f ∷ fs) =
    let passed = evict_loop limit keep left fs in
    let deleted = evict_loop limit keep (left - f.size) fs in
    if leb left limit
    then ([], f ∷ fs)
    else if text_eq f.path keep
    then (passed.0, f ∷ passed.1)
    else (f ∷ deleted.0, deleted.1)

-- The directory's entries that count: a file whose name ends so and whose `os.stat` succeeds.
unfoldable pub listed : List (Text × Option File) → List File
listed [] = []
listed ((name, stat) ∷ names) =
    let rest = listed names in
    if not (ends_with name (codes ".safetensors"))
    then rest
    else elim stat [ none ↦ rest | some f ↦ f ∷ rest ]

-- What is unlinked and what is left of a directory's listing, which fails as `none`. Without a limit
-- nothing is looked at.
unfoldable pub evict : Option ℕ → Text → Option (List (Text × Option File)) → List File × List File
unfolding listed sort total evict_loop
evict none keep directory = ([], [])
evict (some limit) keep none = ([], [])
evict (some limit) keep (some names) =
    let found = listed names in evict_loop limit keep (total found) (sort found)
