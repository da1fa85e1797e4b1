-- ===== src/Knowledge/Chunking/Recursive.antt =====
-- The windows of `RecursiveChunker._chunk_recursive`: the loop ends, and what its chunks are.
use vox_forge.Common.{
  ℕ, zero, suc, ◌+◌, ◌-◌, ◌/◌, ◌≤◌, ◌<◌, min, max, ◌≡◌, refl, ap, Text, false, Option, some, List,
  [], ◌∷◌, ltb, leb, if◌then◌else◌, drop, length, length-take, strip, is_empty, length-strip, arith,
  inl, inr, Option-cases, Bool-cases,
}
use vox_forge.Knowledge.Chunking.{
  ChunkingConfig, RawChunk, ParsedDocument, slice, last_space, window_end, raw_chunk, prepend,
  chunk_from, chunk_recursive,
}

-- Chunks that are numbered from `index` on, each of them not empty and at most `size` long, with a
-- token for every four characters and at least one.
abbrev pub IsNumbered : ℕ → ℕ → List RawChunk → Type 0
IsNumbered size index [] = Unit
IsNumbered size index (c ∷ cs) =
    (c.chunk_index ≡ index)
    × (c.metadata.chunk_index ≡ index)
    × (0 < length c.content)
    × (length c.content ≤ size)
    × (c.token_count ≡ max (length c.content / 4) 1)
    × IsNumbered size (index + 1) cs

last_space-bound : (s : Text) (i : ℕ) → last_space s ≡ some i → i < length s
unfolding last_space
last_space-bound [] i h = ground (arith, h)
last_space-bound (c ∷ s) i h = elim (Option-cases (last_space s)) [
  | inl none_ ↦ ground (arith, h, none_)
  | inr (j, found) ↦ ground (arith, h, found, last_space-bound s j found)
]

length-slice : (text : Text) (a b : ℕ) → length (slice text a b) ≤ b - a
length-slice text a b = omega (arith, length-take (b - a) (drop a text))

-- A window is at most `size` long.
window_end-bound : (text : Text) (size start : ℕ) → window_end text size start ≤ start + size
unfolding window_end
window_end-bound text size start =
    elim (Option-cases (last_space (slice text start (min (start + size) (length text))))) [
      | inl none_ ↦ ground (arith, none_)
      | inr (i, found) ↦ ground (
        arith,
        found,
        last_space-bound (slice text start (min (start + size) (length text))) i found,
        length-slice text start (min (start + size) (length text)),
      )
    ]

-- Only a window that starts inside the text ends before the text does.
window_end-inside :
    (text : Text) (size start : ℕ)
    → start ≤ length text
    → window_end text size start < length text
    → start < length text
unfolding window_end
window_end-inside text size start le h =
    elim (Bool-cases (ltb (min (start + size) (length text)) (length text))) [
      | inl inside ↦ ground (arith, inside)
      | inr past ↦ ground (arith, le, past, h)
    ]

-- What one window leaves after stripping.
content-bound :
    (text : Text) (size start : ℕ)
    → length (strip (slice text start (window_end text size start))) ≤ size
content-bound text size start = omega (
  arith,
  window_end-bound text size start,
  length-slice text start (window_end text size start),
  length-strip (slice text start (window_end text size start)),
)

length-positive : (s : Text) → is_empty s ≡ false → 0 < length s
length-positive [] h = ground (arith, h)
length-positive (c ∷ s) h = omega arith

abbrev Numbered : Option (List RawChunk) → ℕ → ℕ → Type 0
Numbered run size index =
    (chunks : List RawChunk) × (run ≡ some chunks) × IsNumbered size index chunks

-- One turn of the loop, by what the rest of the loop returns.
turn-Numbered :
    (document : ParsedDocument) (text content : Text) (size start index : ℕ)
    (rest : Option (List RawChunk))
    → length content ≤ size
    → Numbered rest size (if is_empty content then index else index + 1)
    → Numbered
        (if ltb start (length text)
          then if is_empty content then rest else prepend (raw_chunk document content index) rest
          else some [])
        size
        index
turn-Numbered document text content size start index rest bound (cs, eq, nums) =
    elim (Bool-cases (ltb start (length text))) [
      | inr past ↦ rw past ([], refl, tt)
      | inl inside ↦ rw inside (elim (Bool-cases (is_empty content)) [
        | inl empty ↦ rw empty (cs, eq, rw (← ap (λ b. if b then index else index + 1) empty) nums)
        | inr full ↦
            rw (full, eq)
              (
                raw_chunk document content index ∷ cs,
                refl,
                (
                  refl,
                  refl,
                  length-positive content full,
                  bound,
                  refl,
                  rw (← ap (λ b. if b then index else index + 1) full) nums,
                ),
              )
      ])
    ]

chunk_from-Numbered :
    (fuel : ℕ) (document : ParsedDocument) (text : Text) (size overlap start index : ℕ)
    → start ≤ length text
    → length text < fuel + start
    → Numbered (chunk_from fuel document text size overlap start index) size index
unfolding chunk_from
chunk_from-Numbered zero document text size overlap start index inside enough =
    ground (arith, inside, enough)
chunk_from-Numbered (suc fuel) document text size overlap start index inside enough =
    turn-Numbered document text (strip (slice text start (window_end text size start))) size start
      index
      (if leb (length text) (window_end text size start)
        then some []
        else chunk_from fuel document text size overlap
            (max (window_end text size start - overlap) (start + 1))
            (if is_empty (strip (slice text start (window_end text size start)))
              then index
              else index + 1))
      (content-bound text size start)
      (elim (Bool-cases (leb (length text) (window_end text size start))) [
        | inl last ↦ rw last ([], refl, tt)
        | inr more ↦ rw more (
            chunk_from-Numbered fuel document text size overlap
              (max (window_end text size start - overlap) (start + 1))
              (if is_empty (strip (slice text start (window_end text size start)))
                then index
                else index + 1)
              (ground (
                arith,
                inside,
                more,
                window_end-inside text size start inside (ground (arith, more)),
              ))
              (omega (arith, enough)))
      ])

-- The chunker always returns for a text that is cut into windows, and its chunks are numbered from
-- 0, not empty, at most `max chunk_size 64` long, and have the token count that is a quarter of their
-- length or 1.
pub chunk_recursive-IsNumbered :
    (text : Text) (document : ParsedDocument) (config : ChunkingConfig)
    → (chunks : List RawChunk) × (chunk_recursive text document config ≡ some chunks)
      × IsNumbered (max config.chunk_size 64) 0 chunks
unfolding chunk_recursive
chunk_recursive-IsNumbered [] document config = ([], refl, tt)
chunk_recursive-IsNumbered (c ∷ s) document config =
    chunk_from-Numbered (suc (length (c ∷ s))) document (c ∷ s) (max config.chunk_size 64)
      (min config.chunk_overlap (max config.chunk_size 64 / 2)) 0 0 (omega arith) (omega arith)
