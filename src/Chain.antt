-- ===== src/Chain.antt =====
-- app/chain/models.py: the steps of a chain job; the children model app/chain/executor.py.
pub mod Renumber
pub mod Expand
pub mod Run
use ai_job_server.Prelude.{ℕ, String, Bool, Option, List}

pub data StepType : Type 0 where
  llm voice write_context sequence image_prompt save_wildcard create_ticket goto : StepType

-- `C` stands for the fields that only the runners of the steps read.
pub record Alternative (C : Type 0) : Type 0 where
  pub weight : ℕ
  pub sequence_id : Option String
  pub target_step : Option ℕ
  pub fall_through : Bool
  pub content : C

-- The field `type` is `kind`, and the number 0 stands for each that is not positive.
pub record ChainStep (C : Type 0) : Type 0 where
  pub number : ℕ
  pub id : Option String
  pub name : String
  pub kind : StepType
  pub visit_cap : ℕ
  pub alternatives : List (Alternative C)
