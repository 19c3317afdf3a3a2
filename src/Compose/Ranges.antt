-- ===== src/Compose/Ranges.antt =====
-- Ranges of bytes, the copy's loop and the length field.
use native.Mathlib.Nat.{pow-suc}
use mathlib.Core.Path.{ap₂}
use vllm_exl3_plugin.Base.{
  ℕ, zero, suc, ◌+◌, ◌-◌, ◌*◌, ◌/◌, ◌^◌, ◌≤◌, ◌<◌, ◌≡◌, refl, sym, ap, ◌∙◌, min, List, [], ◌∷◌,
  ◌++◌, length, take, drop, take-add, drop-drop, arith, Result, ok, raise, ◌>>=◌,
}
use vllm_exl3_plugin.Base.Text.{Text}
use vllm_exl3_plugin.Compose.Bytes.{
  Bytes, ShardError, short_read, copy_chunk, to_bytes, from_bytes, copy,
}

length-take : {A : Type 0} (n : ℕ) (xs : List A) → n ≤ length xs → length (take n xs) ≡ n
length-take zero xs h = refl
length-take (suc n) [] h = absurd (omega arith)
length-take (suc n) (x ∷ xs) h = ap suc (length-take n xs (omega arith))

length-drop : {A : Type 0} (n : ℕ) (xs : List A) → length (drop n xs) ≡ length xs - n
length-drop zero xs = omega arith
length-drop (suc n) [] = omega arith
length-drop (suc n) (x ∷ xs) = let rest = length-drop n xs in omega arith

pub drop-append :
    {A : Type 0} (xs ys : List A) (k : ℕ) → drop (length xs + k) (xs ++ ys) ≡ drop k ys
drop-append [] ys k = ap (λ n. drop n ys) (omega arith)
drop-append (x ∷ xs) ys k =
    ap (λ n. drop n (x ∷ xs ++ ys)) (the_suc (length xs) k) ∙ drop-append xs ys k
  where
    the_suc : (a k : ℕ) → suc a + k ≡ suc (a + k)
    the_suc a k = omega arith

pub take-append : {A : Type 0} (xs ys : List A) → take (length xs) (xs ++ ys) ≡ xs
take-append [] ys = refl
take-append (x ∷ xs) ys = ap (◌∷◌ x) (take-append xs ys)

-- The bytes of a range of a source.
abbrev pub range_of : Bytes → ℕ → ℕ → Bytes
range_of src at n = take n (drop at src)

pub length-range_of :
    (src : Bytes) (at n : ℕ) → at + n ≤ length src → length (range_of src at n) ≡ n
length-range_of src at n h =
    let left = length-drop at src in length-take n (drop at src) (omega arith)

step-ok :
    (name : Text) (chunk : Bytes) (next : Result ShardError Bytes) (r : Bytes)
    → 0 < length chunk
    → next ≡ ok r
    → (elim chunk [
      | [] ↦ raise (short_read name)
      | b ∷ bs ↦ (next >>= λ more. ok (b ∷ bs ++ more))
    ])
      ≡ ok (chunk ++ r)
step-ok name [] next r pos e = absurd (omega arith)
step-ok name (b ∷ bs) next r pos e = rw e refl

range_of-add :
    (src : Bytes) (at m n : ℕ)
    → m ≤ n
    → range_of src at m ++ range_of src (at + m) (n - m) ≡ range_of src at n
range_of-add src at m n h =
    let sum : m + at ≡ at + m = omega arith in
    let whole : n - m + m ≡ n = omega arith in
    ap (λ d. range_of src at m ++ take (n - m) d)
      (sym (drop-drop at m src ∙ ap (λ k. drop k src) sum))
    ∙ take-add m (n - m) (drop at src)
    ∙ ap (λ k. range_of src at k) whole

-- Fuel for every byte that is left is enough, and a range that the source has is copied.
pub copy-range_of :
    (fuel : ℕ) (name : Text) (src : Bytes) (at left : ℕ)
    → at + left ≤ length src
    → left ≤ fuel
    → copy fuel name src at left ≡ ok (range_of src at left)
unfolding copy
copy-range_of fuel name src at zero fits enough = refl
copy-range_of zero name src at (suc left) fits enough = absurd (omega arith)
copy-range_of (suc fuel) name src at (suc left) fits enough =
    let m = min (suc left) copy_chunk in
    let len : length (range_of src at m) ≡ m = length-range_of src at m (omega arith) in
    let rest : copy fuel name src (at + m) (suc left - m)
        ≡ ok (range_of src (at + m) (suc left - m)) =
      copy-range_of fuel name src (at + m) (suc left - m) (omega arith) (omega arith) in
    step-ok name (range_of src at m) _ (range_of src (at + m) (suc left - m)) (omega arith)
      (ap₂ (copy fuel name src) (ap (λ n. at + n) len) (ap (λ n. suc left - n) len) ∙ rest)
    ∙ ap ok (range_of-add src at m (suc left) (omega arith))

pub to_bytes-roundtrip : (k n : ℕ) → n < 256 ^ k → from_bytes (to_bytes k n) ≡ n
unfolding to_bytes from_bytes
to_bytes-roundtrip zero n h = omega arith
to_bytes-roundtrip (suc k) n h =
    let small : n / 256 < 256 ^ k =
      (let power : 256 ^ suc k ≡ 256 ^ k * 256 = pow-suc 256 k in omega arith) in
    let rest = to_bytes-roundtrip k (n / 256) small in omega arith

pub length-to_bytes : (k n : ℕ) → length (to_bytes k n) ≡ k
unfolding to_bytes
length-to_bytes zero n = refl
length-to_bytes (suc k) n = ap suc (length-to_bytes k (n / 256))
