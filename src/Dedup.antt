-- ===== src/Dedup.antt =====
-- Duplicates and versions of ingested documents, tradegraph/src/rag/ingestion/dedup.py. The hash is
-- a library's.
pub mod Versions
use juris_mind_ai.Base.Dict.{Dict}
use juris_mind_ai.Rows.{Uuid}
use juris_mind_ai.Base.Text.{Str}
use juris_mind_ai.Base.Dict
use juris_mind_ai.Base.{
  ltb, ◌+◌, Bool, true, false, ℕ, Option, none, some, List, [], ◌∷◌, list_eq, nat_eq, if◌then◌else◌,
}

pub record DedupDecision : Type 0 where
  pub is_duplicate : Bool
  pub matched_document_id : Option Uuid

decision_for : Option Uuid → DedupDecision
decision_for none = record { is_duplicate = false; matched_document_id = none }
decision_for (some id) = record { is_duplicate = true; matched_document_id = some id }

unfoldable pub check_duplicate : Str → Dict Str Uuid → DedupDecision
unfolding decision_for
check_duplicate content_hash existing_hash_to_id =
    decision_for (Dict.lookup content_hash existing_hash_to_id)

pub record ExistingVersion : Type 0 where
  pub document_id : Uuid
  pub version : ℕ
  pub content_hash : Str

pub record VersionDecision : Type 0 where
  pub version : ℕ
  pub supersedes_id : Option Uuid

-- `max(vs, key=lambda v: v.version)`: the first of the greatest, `best` being the one so far.
unfoldable pub latest : ExistingVersion → List ExistingVersion → ExistingVersion
latest best [] = best
latest best (v ∷ rest) = latest (if ltb best.version v.version then v else best) rest

unfoldable pub determine_version : List ExistingVersion → VersionDecision
unfolding latest
determine_version [] = record { version = 1; supersedes_id = none }
determine_version (v ∷ rest) =
    let newest = latest v rest in
    record { version = newest.version + 1; supersedes_id = some newest.document_id }
