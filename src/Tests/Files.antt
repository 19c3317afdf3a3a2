-- ===== src/Tests/Files.antt =====
-- A pile of three entries over its limit.
use vllm_exl3_plugin.Base.{
  none, true, Bool, if◌then◌else◌, ◌≡◌, ◌≤◌, ◌⊎◌, inl, refl, false, Option, some, List, [], ◌∷◌, In,
  All, ℕ, Result, ok, raise,
}
use vllm_exl3_plugin.Base.Text.{Text, codes, text_eq, strip_suffix}
use vllm_exl3_plugin.BlockqCache.Pile.{File, total, sort, listed, evict}
use vllm_exl3_plugin.Format.Blockq.{blockq_shapes}
use vllm_exl3_plugin.BlockqCache.Entries.{
  CeilingError, overflow, max_bytes, Tensor, read, Disk, Answers, write,
}
use vllm_exl3_plugin.BlockqCache.Whole.{write-whole}
use vllm_exl3_plugin.BlockqCache.Evict.{evict-fits, evict-oldest_first}

abbrev old : File
old = record { mtime = 3; size = 40; path = codes "p/old.safetensors" }

abbrev recent : File
recent = record { mtime = 8; size = 30; path = codes "p/recent.safetensors" }

abbrev written : File
written = record { mtime = 2; size = 50; path = codes "p/written.safetensors" }

abbrev pile : List (Text × Option File)
pile =
    (codes "recent.safetensors", some recent)
    ∷ (codes "written.safetensors", some written)
    ∷ (codes "old.safetensors", some old)
    ∷ (codes "other.tmp", some old)
    ∷ []

-- The oldest entry is the one just written, so the next oldest goes.
evicted : evict (some 90) written.path (some pile) ≡ (old ∷ [], written ∷ recent ∷ [])
unfolding evict strip_suffix
evicted = refl

evict-fits_example :
    (total (evict (some 90) written.path (some pile)).1 ≤ 90)
    ⊎ All (λ f. f.path ≡ written.path) (evict (some 90) written.path (some pile)).1
evict-fits_example = evict-fits 90 written.path pile

old_gone : In old (evict (some 90) written.path (some pile)).0
old_gone = rw evicted (inl refl)

evict-oldest_first_example :
    In old (sort (listed pile))
    × (text_eq old.path written.path ≡ false)
    × ((h : File)
        → In h (evict (some 90) written.path (some pile)).1
        → text_eq h.path written.path ≡ false
        → 3 ≤ h.mtime)
evict-oldest_first_example = evict-oldest_first 90 written.path pile old old_gone

-- `16` is 16 * 10 ** 9 bytes, `inf` no number of them.
abbrev parsed : Text → Option (Bool × Option ℕ)
parsed value =
    if text_eq value (codes "inf")
    then some (true, none)
    else if text_eq value (codes "16")
    then some (true, some 16000000000)
    else none

unlimited : max_bytes parsed (codes "inf") ≡ raise overflow
unfolding max_bytes
unlimited = refl

mistyped : max_bytes parsed (codes "lots") ≡ ok (some 16000000000)
unfolding max_bytes
mistyped = refl

abbrev limit : Result CeilingError (Option ℕ)
limit = ok (some 90)

-- A write that lands over an old encoding, with the pile over its limit.
abbrev before : Disk
before path = if text_eq path old.path then some (4 ∷ []) else none

abbrev landed : Answers
landed = record { made = true; saved = true; part = none; replaced = true; unlinked = true }

abbrev written_disk : Disk × Bool
written_disk =
    write landed (λ p. false) limit (some pile) written.path (codes "p/written.tmp") (1 ∷ 2 ∷ [])
      before

write-whole_example :
    ((written_disk.1 ≡ false) × (written_disk.0 written.path ≡ before written.path))
    ⊎ ((written_disk.1 ≡ true)
        × (written_disk.0 written.path ≡ some (1 ∷ 2 ∷ []))
        × (ceiling : Option ℕ) × (limit ≡ ok ceiling))
    ⊎ ((written_disk.1 ≡ false)
        × (written_disk.0 written.path ≡ some (1 ∷ 2 ∷ []))
        × (limit ≡ raise overflow))
write-whole_example =
    write-whole landed (λ p. false) limit (some pile) written.path (codes "p/written.tmp")
      (1 ∷ 2 ∷ []) before refl

-- With no finite limit the write lands too, and is reported as failed.
lands_unreported :
    (write landed
      (λ p. false)
      (raise overflow)
      (some pile)
      written.path
      (codes "p/written.tmp")
      (1 ∷ 2 ∷ [])
      before).1
    ≡ false
unfolding write
lands_unreported = refl

-- An entry of two rows of 32 values.
abbrev stored : Text → Option Tensor
stored name =
    if text_eq name (codes "bq_q")
    then some (record { shape = 2 ∷ 16 ∷ []; rows = (1 ∷ []) ∷ (2 ∷ []) ∷ [] })
    else if text_eq name (codes "bq_s")
    then some (record { shape = 2 ∷ 2 ∷ 1 ∷ []; rows = (3 ∷ []) ∷ (4 ∷ []) ∷ [] })
    else some (record { shape = 2 ∷ 4 ∷ []; rows = (5 ∷ []) ∷ (6 ∷ []) ∷ [] })

first_row : read (some stored) 2 32 0 1 ≡ some ((1 ∷ []) ∷ [], (3 ∷ []) ∷ [], (5 ∷ []) ∷ [])
unfolding read blockq_shapes
first_row = refl

second_row : read (some stored) 2 32 1 2 ≡ some ((2 ∷ []) ∷ [], (4 ∷ []) ∷ [], (6 ∷ []) ∷ [])
unfolding read blockq_shapes
second_row = refl
