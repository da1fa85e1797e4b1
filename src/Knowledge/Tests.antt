-- ===== src/Knowledge/Tests.antt =====
-- The chunker on a short text and a short table.
use vox_forge.Common.{drop, ◌≡◌, Text, codes, true, some, List, []}
use vox_forge.Knowledge.Chunking.{
  split_lines, SourceType, ChunkingConfig, ParsedDocument, RawChunk, chunk_recursive, chunk_csv,
}
use vox_forge.Knowledge.Chunking.Recursive.{IsNumbered, chunk_recursive-IsNumbered}
use vox_forge.Knowledge.Chunking.Csv.{Tiles, header_of, chunk_csv-Tiles}

abbrev config : ChunkingConfig
config = record {
  strategy = "recursive";
  chunk_size = 64;
  chunk_overlap = 16;
  rows_per_chunk = 2;
  include_header = true;
}

abbrev table : ParsedDocument
table = record {
  text = codes "name,age\nann,31\nbob,28\r\ncid,45\n";
  source_type = SourceType.csv;
  pages = [];
  headings = [];
}

-- Longer than one window.
abbrev prose : Text
prose =
    codes
      "The first window ends at the last space of its second half, and the next one starts a little before."

chunk_recursive-IsNumbered_example :
    (chunks : List RawChunk) × (chunk_recursive prose table config ≡ some chunks)
    × IsNumbered 64 0 chunks
chunk_recursive-IsNumbered_example = chunk_recursive-IsNumbered prose table config

chunk_csv-Tiles_example :
    (chunks : List RawChunk) × (chunk_csv table config ≡ some chunks)
    × Tiles config
        (header_of (split_lines table.text))
        2
        0
        0
        (drop 1 (split_lines table.text))
        chunks
chunk_csv-Tiles_example = chunk_csv-Tiles table config
