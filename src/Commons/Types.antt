-- ===== src/Commons/Types.antt =====
-- internal/commons/commons.go: the rows of the board's tables, and errors as values.
use wasteland.Base.{ℤ, String, Bool, List}

pub record WantedItem : Type 0 where
  pub id : String
  pub title : String
  pub description : String
  pub project : String
  pub type : String
  pub priority : ℤ
  pub tags : List String
  pub posted_by : String
  pub claimed_by : String
  pub status : String
  pub effort_level : String
  pub sandbox_required : Bool
  pub created_at : String
  pub updated_at : String

pub record CompletionRecord : Type 0 where
  pub id : String
  pub wanted_id : String
  pub completed_by : String
  pub evidence : String
  pub stamp_id : String
  pub validated_by : String

pub record Stamp : Type 0 where
  pub id : String
  pub author : String
  pub subject : String
  pub quality : ℤ
  pub reliability : ℤ
  pub severity : String
  pub context_id : String
  pub context_type : String
  pub skill_tags : List String
  pub message : String

-- A priority below 0 means that it is not set.
pub record WantedUpdate : Type 0 where
  pub title : String
  pub description : String
  pub project : String
  pub type : String
  pub priority : ℤ
  pub effort_level : String
  pub tags : List String
  pub tags_set : Bool

-- A message of `fmt.Sprintf`: `quoted` is a `%q`.
pub data Part : Type 0 where
  lit : String → Part
  quoted : String → Part

-- `external` is an error of the database or of a callback, by its text; `wrapped` is a `%w`, and
-- `wrapped_in` one after a message with parts.
pub data Error : Type 0 where
  conflict : List Part → Error
  failed : List Part → Error
  wrapped : String → Error → Error
  wrapped_in : List Part → Error → Error
  external : String → Error

pub data Result (A : Type 0) : Type 0 where
  ok : A → Result A
  err : Error → Result A

infixl 5 ◌>>=◌
abbrev pub ◌>>=◌ : {A B : Type 0} → Result A → (A → Result B) → Result B
ok a >>= f = f a
err e >>= f = err e
