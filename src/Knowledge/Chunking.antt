-- ===== src/Knowledge/Chunking.antt =====
-- infrastructure/knowledge/chunking.py: RecursiveChunker. Sizes are numbers that are not negative.
pub mod Recursive
pub mod Csv
use vox_forge.Common.{
  ℕ, zero, suc, ◌+◌, ◌-◌, ◌*◌, ◌/◌, min, max, String, str_eq, Text, codes, Bool, true, false,
  Option, none, some, List, [], ◌∷◌, ◌++◌, ◌&&◌, ◌||◌, not, ◌==◌, ltb, leb, if◌then◌else◌, take,
  drop, length, strip, is_empty, join, starts_with, show_nat,
}

pub data SourceType : Type 0 where
  pdf markdown html txt csv : SourceType

pub record ChunkingConfig : Type 0 where
  pub strategy : String
  pub chunk_size : ℕ
  pub chunk_overlap : ℕ
  pub rows_per_chunk : ℕ
  pub include_header : Bool

-- The fields that the chunker sets; the ingestion fills in the document and the version.
pub record ChunkMetadata : Type 0 where
  pub chunk_index : ℕ
  pub page : Option ℕ
  pub heading : Option Text
  pub row_start : Option ℕ
  pub row_end : Option ℕ
  pub source_type : SourceType

pub record RawChunk : Type 0 where
  pub content : Text
  pub chunk_index : ℕ
  pub metadata : ChunkMetadata
  pub token_count : ℕ

pub record ParsedDocument : Type 0 where
  pub text : Text
  pub source_type : SourceType
  pub pages : List Text
  pub headings : List Text

-- `text[a:b]`
abbrev pub slice : Text → ℕ → ℕ → Text
slice text a b = take (b - a) (drop a text)

-- `text.rfind(" ")`
unfoldable pub last_space : Text → Option ℕ
last_space [] = none
last_space (c ∷ s) = elim (last_space s) [
  | some i ↦ some (i + 1)
  | none ↦ if c == 32 then some 0 else none
]

-- Where the window that starts at `start` ends: at the last space of its second half, if it does not
-- reach the end of the text.
unfoldable pub window_end : Text → ℕ → ℕ → ℕ
window_end text size start =
    let end = min (start + size) (length text) in
    if ltb end (length text)
    then elim (last_space (slice text start end)) [
      | none ↦ end
      | some i ↦ if ltb (start + size / 2) (start + i) then start + i else end
    ]
    else end

abbrev pub first_heading : List Text → Option Text
first_heading [] = none
first_heading (h ∷ hs) = some h

abbrev pub raw_chunk : ParsedDocument → Text → ℕ → RawChunk
raw_chunk document content index = record {
  content = content;
  chunk_index = index;
  metadata = record {
    chunk_index = index;
    page = none;
    heading = first_heading document.headings;
    row_start = none;
    row_end = none;
    source_type = document.source_type;
  };
  token_count = max (length content / 4) 1;
}

-- A chunk in front of those that follow, if they are known.
abbrev pub prepend : RawChunk → Option (List RawChunk) → Option (List RawChunk)
prepend c none = none
prepend c (some cs) = some (c ∷ cs)

-- The `while` loop; `none` when the fuel is used up.
unfoldable pub chunk_from : ℕ → ParsedDocument → Text → ℕ → ℕ → ℕ → ℕ → Option (List RawChunk)
chunk_from zero document text size overlap start index = none
chunk_from (suc fuel) document text size overlap start index =
    let end = window_end text size start in
    let content = strip (slice text start end) in
    let next = if is_empty content then index else index + 1 in
    let later = chunk_from fuel document text size overlap (max (end - overlap) (start + 1)) next in
    let rest = if leb (length text) end then some [] else later in
    if ltb start (length text)
    then if is_empty content then rest else prepend (raw_chunk document content index) rest
    else some []

unfoldable pub chunk_recursive : Text → ParsedDocument → ChunkingConfig → Option (List RawChunk)
chunk_recursive text document config =
    if is_empty text
    then some []
    else (let size = max config.chunk_size 64 in
        chunk_from (suc (length text)) document text size (min config.chunk_overlap (size / 2)) 0 0)

abbrev pub page_chunk : Text → ℕ → ℕ → RawChunk
page_chunk page_text index page = record {
  content = page_text;
  chunk_index = index;
  metadata = record {
    chunk_index = index;
    page = some page;
    heading = none;
    row_start = none;
    row_end = none;
    source_type = SourceType.pdf;
  };
  token_count = max (length page_text / 4) 1;
}

-- The pages from the one numbered `page` on, with `index` chunks made so far.
unfoldable pub pages_from : ℕ → ℕ → List Text → List RawChunk
pages_from page index [] = []
pages_from page index (page_text ∷ pages) =
    let skipped = pages_from (page + 1) index pages in
    let rest = pages_from (page + 1) (index + 1) pages in
    if is_empty (strip page_text) then skipped else page_chunk page_text index page ∷ rest

unfoldable pub chunk_pages : ParsedDocument → List RawChunk
chunk_pages document = pages_from 1 0 document.pages

abbrev pub is_line_break : ℕ → Bool
is_line_break c =
    (leb 10 c && leb c 13) || (leb 28 c && leb c 30) || c == 133 || c == 8232 || c == 8233

abbrev pub add_to_line : ℕ → List Text → List Text
add_to_line c [] = (c ∷ []) ∷ []
add_to_line c (line ∷ lines) = (c ∷ line) ∷ lines

-- `str.splitlines`, where a carriage return and a newline are one break.
unfoldable pub split_lines : Text → List Text
split_lines [] = []
split_lines (c ∷ s) =
    let rest = split_lines s in
    if is_line_break c
    then if c == 13 && starts_with (10 ∷ []) s then rest else [] ∷ rest
    else add_to_line c rest

abbrev pub csv_content : ChunkingConfig → Text → List Text → Text
csv_content config header block =
    if config.include_header
    then header ++ codes "\n" ++ join (codes "\n") block
    else join (codes "\n") block

abbrev pub csv_chunk : ChunkingConfig → Text → List Text → ℕ → ℕ → ℕ → RawChunk
csv_chunk config header block index row_start row_end = record {
  content = strip (csv_content config header block);
  chunk_index = index;
  metadata = record {
    chunk_index = index;
    page = none;
    heading = some (codes "rows " ++ show_nat row_start ++ codes "-" ++ show_nat row_end);
    row_start = some row_start;
    row_end = some row_end;
    source_type = SourceType.csv;
  };
  token_count = max (length (csv_content config header block) / 4) 1;
}

-- The blocks from row `i` on, where `data_lines` are the rows left and `total` is the number of all;
-- `none` when the fuel is used up.
unfoldable pub csv_from :
    ℕ → ChunkingConfig → Text → ℕ → ℕ → List Text → ℕ → ℕ → Option (List RawChunk)
csv_from zero config header rows_per total data_lines i index = none
csv_from (suc fuel) config header rows_per total data_lines i index =
    let later =
      csv_from fuel config header rows_per total (drop rows_per data_lines) (i + rows_per)
        (index + 1) in
    if ltb i total
    then prepend
        (csv_chunk config header (take rows_per data_lines) index (i + 1)
          (min (i + rows_per) total))
        later
    else some []

abbrev pub chunk_lines : ChunkingConfig → List Text → Option (List RawChunk)
chunk_lines config [] = some []
chunk_lines config (header ∷ data_lines) =
    csv_from (suc (length data_lines)) config header (max config.rows_per_chunk 1)
      (length data_lines) data_lines 0 0

unfoldable pub chunk_csv : ParsedDocument → ChunkingConfig → Option (List RawChunk)
chunk_csv document config = chunk_lines config (split_lines document.text)

unfoldable pub chunk : ParsedDocument → ChunkingConfig → Option (List RawChunk)
chunk document config = elim document.source_type [
  | SourceType.csv ↦ chunk_csv document config
  | SourceType.pdf ↦
      if str_eq config.strategy "page"
      then some (chunk_pages document)
      else chunk_recursive document.text document config
  | _ ↦ chunk_recursive document.text document config
]
