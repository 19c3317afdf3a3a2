-- ===== src/Compose/Copied.antt =====
-- The bytes of every tensor come through a rewritten shard.
use mathlib.Core.Path.{subst, ap₂}
use mathlib.Core.List.{append_assoc, append-nil}
use vllm_exl3_plugin.Base.{
  ℕ, ◌+◌, ◌-◌, ◌^◌, ◌≤◌, ◌<◌, ◌≡◌, ◌⊎◌, inl, inr, refl, sym, ap, ◌∙◌, some, List, [], ◌∷◌, ◌++◌,
  map, length, take, drop, replicate, arith, In, All, Distinct, length-append, Bool-cases, ok,
}
use vllm_exl3_plugin.Base.Text.{Text, text_eq, text_eq-eq}
use vllm_exl3_plugin.Compose.Ranges.{
  take-append, drop-append, range_of, length-range_of, copy-range_of, to_bytes-roundtrip,
  length-to_bytes,
}
use vllm_exl3_plugin.Compose.Bytes.{
  Bytes, Record, Header, Json, Piece, to_bytes, from_bytes, set_record, build_header, copy_pieces,
  blob_of, write_shard, shifted, read_header, raw_header, bytes_of,
}

-- Where the pieces come to stand, in their order, from an offset on.
unfoldable pub laid : ℕ → List Piece → Header
laid off [] = []
laid off (p ∷ pieces) =
    (
      p.name,
      record { dtype = p.dtype; shape = p.shape; first = off; last = off + (p.last - p.first) },
    )
    ∷ laid (off + (p.last - p.first)) pieces

abbrev pub names : Header → List Text
names [] = []
names ((n, r) ∷ header) = n ∷ names header

set_record_new :
    (n : Text) (r : Record) (header : Header)
    → (In n (names header) → ⊥)
    → set_record n r header ≡ header ++ (n, r) ∷ []
unfolding set_record
set_record_new n r [] fresh = refl
set_record_new n r ((m, q) ∷ header) fresh = elim (Bool-cases (text_eq n m)) [
  | inl e ↦ absurd (fresh (inl (text_eq-eq n m e)))
  | inr e ↦ rw e (ap (◌∷◌ (m, q)) (set_record_new n r header (λ i. fresh (inr i))))
]

names-append : (n : Text) (h k : Header) → In n (names (h ++ k)) → In n (names h) ⊎ In n (names k)
names-append n [] k i = inr i
names-append n ((m, q) ∷ h) k (inl e) = inl (inl e)
names-append n ((m, q) ∷ h) k (inr l) = elim (names-append n h k l) [
  | inl p ↦ inl (inr p)
  | inr p ↦ inr p
]

build_header-laid :
    (off : ℕ) (pieces : List Piece) (header : Header)
    → Distinct (map (λ p. p.name) pieces)
    → ((n : Text) → In n (map (λ p. p.name) pieces) → In n (names header) → ⊥)
    → build_header off pieces header ≡ header ++ laid off pieces
unfolding build_header laid
build_header-laid off [] header d fresh = sym (append-nil header)
build_header-laid off (p ∷ pieces) header (new, d) fresh =
    let r : Record = record {
      dtype = p.dtype;
      shape = p.shape;
      first = off;
      last = off + (p.last - p.first);
    } in
    let put = set_record_new p.name r header (fresh p.name (inl refl)) in
    build_header-laid (off + (p.last - p.first)) pieces (set_record p.name r header) d (λ m i j.
      elim (names-append m header ((p.name, r) ∷ []) (subst (λ h. In m (names h)) put j)) [
        | inl old ↦ fresh m (inr i) old
        | inr one ↦ elim one [
          | inl e ↦ new (subst (λ x. In x (map (λ p. p.name) pieces)) e i)
          | inr none_more ↦ none_more
        ]
      ])
    ∙ ap (λ h. h ++ laid (off + (p.last - p.first)) pieces) put
    ∙ append_assoc header ((p.name, r) ∷ []) (laid (off + (p.last - p.first)) pieces)

-- The pieces' ranges lie in their sources.
unfoldable pub InSource : (ℕ → Bytes) → Piece → Type 0
InSource files p = (p.first ≤ p.last) × (p.last ≤ length (files p.source))

module _ (json : Json) (files : ℕ → Bytes) where
  abbrev piece_bytes : Piece → Bytes
  piece_bytes p = range_of (files p.source) p.first (p.last - p.first)

  abbrev payload : List Piece → Bytes
  payload [] = []
  payload (p ∷ pieces) = piece_bytes p ++ payload pieces

  copy_pieces-payload :
      (pieces : List Piece)
      → All (InSource files) pieces
      → copy_pieces json files pieces ≡ ok (payload pieces)
  unfolding copy_pieces InSource
  copy_pieces-payload [] h = refl
  copy_pieces-payload (p ∷ pieces) (now, later) =
      let n = p.last - p.first in
      let here =
        copy-range_of n p.name (files p.source) p.first n (omega (arith, now.0, now.1))
          (omega arith) in
      rw (here, copy_pieces-payload pieces later) refl

  -- A record of a piece, whose range of a file has the piece's bytes.
  Carries : Header → Bytes → Piece → Type 0
  Carries header file p =
      (r : Record) × In (p.name, r) header
      × (r.dtype ≡ p.dtype)
      × (r.shape ≡ p.shape)
      × (bytes_of file r ≡ piece_bytes p)

  -- The first piece after what stands before it.
  placed :
      (pre after : Bytes) (q : Piece)
      → InSource files q
      → take
          (length pre + (q.last - q.first) - length pre)
          (drop (length pre) (pre ++ (piece_bytes q ++ after)))
        ≡ piece_bytes q
  unfolding InSource
  placed pre after q (low, high) =
      let n = q.last - q.first in
      let w : length pre + n - length pre ≡ n = omega arith in
      let z : length pre ≡ length pre + 0 = omega arith in
      let len = length-range_of (files q.source) q.first n (omega (arith, low, high)) in
      ap₂ take w (
        ap (λ k. drop k (pre ++ (piece_bytes q ++ after))) z
        ∙ drop-append pre (piece_bytes q ++ after) 0)
      ∙ ap (λ k. take k (piece_bytes q ++ after)) (sym len)
      ∙ take-append (piece_bytes q) after

  laid-Carries :
      (pre : Bytes) (pieces : List Piece) (p : Piece)
      → All (InSource files) pieces
      → In p pieces
      → Carries (laid (length pre) pieces) (pre ++ payload pieces) p
  unfolding laid InSource Carries
  laid-Carries pre [] p h m = absurd m
  laid-Carries pre (q ∷ pieces) p (now, later) (inl e) =
      subst (Carries (laid (length pre) (q ∷ pieces)) (pre ++ payload (q ∷ pieces))) (sym e) (
        record {
          dtype = q.dtype;
          shape = q.shape;
          first = length pre;
          last = length pre + (q.last - q.first);
        },
        inl refl,
        refl,
        refl,
        placed pre (payload pieces) q now,
      )
  laid-Carries pre (q ∷ pieces) p (now, later) (inr l) =
      let len : length (pre ++ piece_bytes q) ≡ length pre + (q.last - q.first) =
        length-append pre (piece_bytes q)
        ∙ ap (λ n. length pre + n)
            (length-range_of (files q.source) q.first (q.last - q.first)
              (omega (arith, now.0, now.1))) in
      let (r, i, a, b, c) =
        subst (λ h. Carries (laid h pieces) (pre ++ (piece_bytes q ++ payload pieces)) p) len
          (subst (λ f. Carries (laid (length (pre ++ piece_bytes q)) pieces) f p)
            (append_assoc pre (piece_bytes q) (payload pieces))
            (laid-Carries (pre ++ piece_bytes q) pieces p later l)) in
      (r, inr i, a, b, c)

  -- The same range of a file that begins with something else, by its shifted record.
  bytes_of-append :
      (pre body : Bytes) (r : Record)
      → bytes_of
          (pre ++ body)
          (record r { first = length pre + r.first; last = length pre + r.last })
        ≡ bytes_of body r
  bytes_of-append pre body r =
      let w : length pre + r.last - (length pre + r.first) ≡ r.last - r.first = omega arith in
      ap₂ take w (drop-append pre body r.first)

  In-shifted :
      (base : ℕ) (n : Text) (r : Record) (header : Header)
      → In (n, r) header
      → In (n, record r { first = base + r.first; last = base + r.last }) (shifted base header)
  In-shifted base n r [] m = absurd m
  In-shifted base n r ((x, q) ∷ header) (inl e) =
      inl (ap (λ z. (z.0, record z.1 { first = base + z.1.first; last = base + z.1.last })) e)
  In-shifted base n r ((x, q) ∷ header) (inr l) = inr (In-shifted base n r header l)

-- JSON as the shards need it: what was dumped, with spaces after it, loads as it was.
unfoldable pub Loads : Json → Type 0
Loads json =
    (header : Header) (k : ℕ) → json.loads (json.dumps header ++ replicate k 32) ≡ some header

raw_header-of :
    (json : Json) (head blob body : Bytes) (header : Header)
    → length head ≡ 8
    → from_bytes head ≡ length blob
    → json.loads blob ≡ some header
    → raw_header json (head ++ blob ++ body) ≡ ok (shifted (8 + length blob) header)
unfolding raw_header
raw_header-of json head blob body header eight n loaded =
    let front : take 8 (head ++ blob ++ body) ≡ head =
      ap (take 8) (append_assoc head blob body)
      ∙ ap (λ k. take k (head ++ (blob ++ body))) (sym eight)
      ∙ take-append head (blob ++ body) in
    let zero_more : 8 ≡ length head + 0 = omega arith in
    let back : drop 8 (head ++ blob ++ body) ≡ blob ++ body =
      ap (drop 8) (append_assoc head blob body)
      ∙ ap (λ k. drop k (head ++ (blob ++ body))) zero_more
      ∙ drop-append head (blob ++ body) 0 in
    let loads_blob : read_header json (length blob) (blob ++ body)
        ≡ ok (shifted (8 + length blob) header) =
      (let e : json.loads (take (length blob) (blob ++ body)) ≡ some header =
          ap (json.loads) (take-append blob body) ∙ loaded in
        rw (e, read_header) refl) in
    ap₂ (read_header json) (ap from_bytes front ∙ n) back ∙ loads_blob

-- A shard written from pieces of distinct names, each a range that its source has, is written, and its
-- header read back has for every piece a record of its dtype and shape, at whose offsets the file has
-- the very bytes of the piece's range; that is, where JSON loads what it dumped and the header is
-- below the 2^64 bytes that its length field can say.
pub write_shard-raw_header :
    (json : Json) (files : ℕ → Bytes) (pieces : List Piece)
    → Loads json
    → Distinct (map (λ p. p.name) pieces)
    → All (InSource files) pieces
    → length (blob_of json files pieces) < 256 ^ 8
    → (file : Bytes) × (header : Header) × (write_shard json files pieces ≡ ok file)
      × (raw_header json file ≡ ok header)
      × ((p : Piece)
          → In p pieces
          → (r : Record) × In (p.name, r) header
            × (r.dtype ≡ p.dtype)
            × (r.shape ≡ p.shape)
            × (bytes_of file r ≡ take (p.last - p.first) (drop p.first (files p.source))))
unfolding write_shard Loads blob_of Carries
write_shard-raw_header json files pieces loads distinct inside small =
    let blob = blob_of json files pieces in
    let head = to_bytes 8 (length blob) in
    let body = payload json files pieces in
    let at : length (head ++ blob) ≡ 8 + length blob =
      length-append head blob ∙ ap (λ n. n + length blob) (length-to_bytes 8 (length blob)) in
    let written : write_shard json files pieces ≡ ok (head ++ blob ++ body) =
      rw (copy_pieces-payload json files pieces inside) refl in
    let loaded : json.loads blob ≡ some (laid 0 pieces) =
      loads (build_header 0 pieces []) _
      ∙ ap some (build_header-laid 0 pieces [] distinct (λ n i j. j)) in
    (
      head ++ blob ++ body,
      shifted (8 + length blob) (laid 0 pieces),
      written,
      raw_header-of json head blob body (laid 0 pieces) (length-to_bytes 8 (length blob))
          (to_bytes-roundtrip 8 (length blob) small) loaded,
      λ p m.
          let (r, i, a, b, c) = laid-Carries json files [] pieces p inside m in
          (
            record r { first = 8 + length blob + r.first; last = 8 + length blob + r.last },
            In-shifted json files (8 + length blob) p.name r (laid 0 pieces) i,
            a,
            b,
            subst
                (λ n.
                  bytes_of (head ++ blob ++ body)
                    (record r { first = n + r.first; last = n + r.last })
                  ≡ take (p.last - p.first) (drop p.first (files p.source)))
                at (bytes_of-append json files (head ++ blob) body r ∙ c),
          ),
    )
