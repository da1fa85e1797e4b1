-- ===== src/Knowledge/Chunking/Csv.antt =====
-- The row blocks of `RecursiveChunker._chunk_csv`.
use vox_forge.Common.{
  ℕ, zero, suc, ◌+◌, ◌-◌, ◌≤◌, ◌<◌, min, max, ◌≡◌, refl, ap, Text, codes, Option, some, List, [],
  ◌∷◌, ◌++◌, ltb, take, drop, length, length-take, length-drop, length-append, join, strip,
  if◌then◌else◌, arith, inl, inr, Bool-cases,
}
use mathlib.Core.Path.{subst}
use vox_forge.Knowledge.Chunking.{
  ChunkingConfig, RawChunk, ParsedDocument, csv_chunk, csv_from, chunk_csv, chunk_lines,
  split_lines,
}

-- Chunks that cut the rows, of which the first has the number `i + 1`, into consecutive blocks of at
-- most `rows_per` rows, none of them empty, numbered from `index` on. A chunk holds the rows of its
-- block, under the header if the configuration wants it.
abbrev pub Tiles : ChunkingConfig → Text → ℕ → ℕ → ℕ → List Text → List RawChunk → Type 0
Tiles config header rows_per i index rows [] = rows ≡ []
Tiles config header rows_per i index rows (c ∷ cs) =
    (block rest : List Text) × (rows ≡ block ++ rest)
    × (0 < length block)
    × (length block ≤ rows_per)
    × (c.content
        ≡ strip (
            if config.include_header
            then header ++ codes "\n" ++ join (codes "\n") block
            else join (codes "\n") block))
    × (c.metadata.row_start ≡ some (i + 1))
    × (c.metadata.row_end ≡ some (i + length block))
    × (c.chunk_index ≡ index)
    × Tiles config header rows_per (i + length block) (index + 1) rest cs

abbrev Tiled : Option (List RawChunk) → ChunkingConfig → Text → ℕ → ℕ → ℕ → List Text → Type 0
Tiled run config header rows_per i index rows =
    (chunks : List RawChunk) × (run ≡ some chunks)
    × Tiles config header rows_per i index rows chunks

take-drop : {A : Type 0} (n : ℕ) (xs : List A) → xs ≡ take n xs ++ drop n xs
take-drop zero xs = refl
take-drop (suc n) [] = refl
take-drop (suc n) (x ∷ xs) = ap (λ t. x ∷ t) (take-drop n xs)

empty_of_length : (xs : List Text) → length xs ≡ 0 → xs ≡ []
empty_of_length [] h = refl
empty_of_length (x ∷ xs) h = ground (arith, h)

-- Without rows, where the tiling starts does not matter.
Tiles-end :
    (config : ChunkingConfig) (header : Text) (rows_per i j index : ℕ) (rows : List Text)
    (cs : List RawChunk)
    → length rows ≡ 0
    → Tiles config header rows_per i index rows cs
    → Tiles config header rows_per j index rows cs
Tiles-end config header rows_per i j index rows [] none_left t = t
Tiles-end config header rows_per i j index rows (c ∷ cs) none_left
      (block, rest, cut, some_rows, a, b, d, e, f, g) =
    ground (arith, length-append block rest, ap length cut, some_rows, none_left)

-- The blocks after a first one, seen from where that one ends.
Tiles-next :
    (config : ChunkingConfig) (header : Text) (rows_per i index : ℕ) (rows : List Text)
    (cs : List RawChunk)
    → Tiles config header rows_per (i + rows_per) index (drop rows_per rows) cs
    → Tiles config header rows_per (i + length (take rows_per rows)) index (drop rows_per rows) cs
Tiles-next config header rows_per i index rows cs t =
    elim (Bool-cases (ltb (length rows) rows_per)) [
      | inl short ↦
          Tiles-end config header rows_per (i + rows_per) (i + length (take rows_per rows)) index
            (drop rows_per rows) cs (ground (arith, length-drop rows_per rows, short)) t
      | inr full ↦
          subst (λ j. Tiles config header rows_per j index (drop rows_per rows) cs)
            (ground (arith, length-take rows_per rows, full)) t
    ]

csv_from-Tiles :
    (fuel : ℕ) (config : ChunkingConfig) (header : Text) (rows_per total : ℕ) (rows : List Text)
    (i index : ℕ)
    → 0 < rows_per
    → length rows ≡ total - i
    → total - i < fuel
    → Tiled
        (csv_from fuel config header rows_per total rows i index)
        config
        header
        rows_per
        i
        index
        rows
unfolding csv_from
csv_from-Tiles zero config header rows_per total rows i index positive left enough =
    ground (arith, enough)
csv_from-Tiles (suc fuel) config header rows_per total rows i index positive left enough =
    elim (Bool-cases (ltb i total)) [
      | inr past ↦ rw past ([], refl, empty_of_length rows (ground (arith, left, past)))
      | inl inside ↦
          let (cs, eq, tiles) =
            csv_from-Tiles fuel config header rows_per total (drop rows_per rows) (i + rows_per)
              (index + 1) positive (omega (arith, length-drop rows_per rows, left))
              (ground (arith, positive, enough, inside)) in
          let taken : length (take rows_per rows) ≡ min rows_per (length rows) =
            length-take rows_per rows in
          let inner : i < total = ground (arith, inside) in
          rw (inside, eq)
            (
              csv_chunk config header (take rows_per rows) index (i + 1) (min (i + rows_per) total)
                  ∷ cs,
              refl,
              (
                take rows_per rows,
                drop rows_per rows,
                take-drop rows_per rows,
                omega (arith, taken, inner, left, positive),
                omega (arith, taken),
                refl,
                refl,
                ap some (omega (arith, taken, inner, left)),
                refl,
                Tiles-next config header rows_per i (index + 1) rows cs tiles,
              ),
            )
    ]

-- The header and the rows under it.
abbrev pub header_of : List Text → Text
header_of [] = []
header_of (header ∷ rows) = header

-- The chunker always returns for CSV text. Its chunks, numbered from 0, cut the rows under the header
-- into consecutive blocks of at most `max rows_per_chunk 1` rows, without a gap or an overlap; each
-- chunk holds the rows of its block, under the header if the configuration wants it, and names the
-- numbers of its first and last row.
pub chunk_csv-Tiles :
    (document : ParsedDocument) (config : ChunkingConfig)
    → (chunks : List RawChunk) × (chunk_csv document config ≡ some chunks)
      × Tiles config
          (header_of (split_lines document.text))
          (max config.rows_per_chunk 1)
          0
          0
          (drop 1 (split_lines document.text))
          chunks
unfolding chunk_csv
chunk_csv-Tiles document config = go (split_lines document.text)
  where
    go :
        (lines : List Text)
        → Tiled
            (chunk_lines config lines)
            config
            (header_of lines)
            (max config.rows_per_chunk 1)
            0
            0
            (drop 1 lines)
    go [] = ([], refl, refl)
    go (header ∷ rows) =
        csv_from-Tiles (suc (length rows)) config header (max config.rows_per_chunk 1) (length rows)
          rows 0 0 (omega arith) (omega arith) (omega arith)
