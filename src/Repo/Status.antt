-- ===== src/Repo/Status.antt =====
-- pkg/repo/status.go
use crossform.Common.{String, Bool, false}

pub record Status : Type 0 where
  pub is_initialized : Bool
  pub message : String
  pub is_update_success : Bool
  pub commit_sha : String
  pub revision : String

abbrev pub new_status : Status
new_status = record {
  is_initialized = false;
  message = "UnInitialized";
  is_update_success = false;
  commit_sha = "UnInitialized";
  revision = "UnInitialized";
}
