-- ===== src/Contacts/Types.antt =====
-- src/db/schema.ts, tables `contact_merge_decisions` and `contact_memories`, and the arguments and
-- answers of the merge methods of src/db/database.ts.
use cued.Base.{ℕ, String, List, Option, ◌⊎◌, inl, inr}

pub record ContactMergeDecision : Type 0 where
  pub id : String
  pub decision_type : String
  pub primary_contact_id : String
  pub secondary_contact_id : String
  pub canonical_contact_id : String
  pub reason : Option String
  pub created_by : Option String
  pub created_at : ℕ

pub record ContactMemory : Type 0 where
  pub id : String
  pub contact_id : String
  pub body : String
  pub source_kind : String
  pub evidence_json : Option String
  pub confidence : Option ℕ
  pub supersedes_memory_id : Option String
  pub stale_at : Option ℕ
  pub created_by : Option String
  pub created_at : ℕ
  pub updated_at : ℕ

-- Of `contacts` only the identifiers are read.
pub record ContactTables : Type 0 where
  pub contacts : List String
  pub contact_merge_decisions : List ContactMergeDecision
  pub contact_memories : List ContactMemory

pub record MergeInput : Type 0 where
  pub primary_contact_id : String
  pub secondary_contact_id : String
  pub reason : Option String

pub record PlannedMerge : Type 0 where
  pub decision_id : String
  pub primary_contact_id : String
  pub secondary_contact_id : String
  pub canonical_contact_id : String
  pub reason : Option String

-- How the loop of `resolveCanonicalContactIdFromAliases` ends: with an identifier, with its
-- exception, or because the model's bound on the rounds was met.
pub data Resolution : Type 0 where
  canonical : String → Resolution
  alias_cycle : String → Resolution
  out_of_rounds : Resolution

pub data ContactLabel : Type 0 where
  primary : ContactLabel
  secondary : ContactLabel

-- The exceptions of `planContactMergeDecisions`.
pub data MergeError : Type 0 where
  no_merges : MergeError
  missing_id : MergeError
  merge_into_itself : MergeError
  contact_not_found : ContactLabel → String → MergeError
  already_merged : String → MergeError
  not_resolved : Resolution → MergeError

-- The rest of a method runs unless an exception has been thrown.
abbrev pub and_then {ℓ} : {A B : Type ℓ} → MergeError ⊎ A → (A → MergeError ⊎ B) → MergeError ⊎ B
and_then (inl e) f = inl e
and_then (inr a) f = f a
