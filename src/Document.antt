-- ===== src/Document.antt =====
-- The value classes of tradegraph/src/rag/ingestion/parser.py that pass from the parsers to the
-- chunker.
use juris_mind_ai.Base.{Option, List}
use juris_mind_ai.Base.Text.{Str}

pub record ExtractedTable : Type 0 where
  pub title : Option Str
  pub headers : List Str
  pub rows : List (List Str)
  pub section : Option Str

pub record DocumentSection : Type 0 where
  pub name : Str
  pub text : Str

pub record ParsedDocument : Type 0 where
  pub sections : List DocumentSection
  pub tables : List ExtractedTable
