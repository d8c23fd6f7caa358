-- ===== src/Executor/Types.antt =====
-- pkg/executor/crossformObject.go and pkg/executor/execute.go: the data that the executor takes and
-- returns. Of the types of the Crossplane SDK the fields that the program uses are kept.
use crossform.Common.{String, Bool, Option, none, List, []}
use crossform.Common.Dict.{Dict}
use crossform.Common.Json.{Value, Fields}

pub record Metadata : Type 0 where
  pub id : String
  pub type : String

pub record Request : Type 0 where
  pub api_version : String
  pub kind : String
  pub name : String
  pub labels : Option (Dict String)

pub record Crossform : Type 0 where
  pub metadata : Metadata
  pub ready : Option Bool
  pub request : Option Request
  pub output : Value
  pub schema : Option Fields
  pub deferred : Bool

-- resource.Ready
pub data Ready : Type 0 where
  ready_unspecified ready_true ready_false : Ready

pub record ObservedComposed : Type 0 where
  pub resource : Fields
  pub connection_details : Dict String

pub record DesiredComposed : Type 0 where
  pub resource : Fields
  pub ready : Ready

pub data Match : Type 0 where
  match_name : String → Match
  match_labels : Dict String → Match

pub record ResourceSelector : Type 0 where
  pub api_version : String
  pub kind : String
  pub match : Match

pub record ExecCommand : Type 0 where
  pub repository_url : String
  pub repository_revision : String
  pub path : String
  pub observed : Dict ObservedComposed
  pub requested : Dict (List Fields)
  pub module_name : String
  pub xr : Fields
  pub context : String

pub record ExecResult : Type 0 where
  pub desired : Dict DesiredComposed
  pub desired_errors : Dict String
  pub deferred : List String
  pub request : Dict ResourceSelector
  pub request_errors : Dict String
  pub outputs : Dict Value
  pub outputs_errors : Dict String
  pub inputs : Dict String
  pub inputs_errors : Dict String
  pub inputs_validation_error : Option String

abbrev pub new_exec_result : ExecResult
new_exec_result = record {
  desired = [];
  desired_errors = [];
  deferred = [];
  request = [];
  request_errors = [];
  outputs = [];
  outputs_errors = [];
  inputs = [];
  inputs_errors = [];
  inputs_validation_error = none;
}
