-- ===== src/Validate/Errors.antt =====
-- internal/workflow/validate.go: `ValidationError`. A message is the format string that builds it
-- with the texts that go in; what `%T` and `%v` print of a value is left out.
use fleetlift.Prelude.{String}

pub data Message : Type 0 where
  empty_id : Message
  malformed_id duplicate_id : (id : String) → Message
  unknown_dependency : (dep : String) → Message
  cycle : Message
  both_kinds no_kind : Message
  missing_parameter : (name : String) → Message
  not_string not_bool not_integer fractional not_json : (name : String) → Message
  unknown_action : (type known : String) → Message
  unregistered : (type : String) → Message
  unknown_agent : (agent : String) → Message
  image_in_group : Message
  malformed_credential reserved_credential : (name : String) → Message
  unknown_config_key : (key known : String) → Message
  missing_config_key : (key : String) → Message
  config_type : (key : String) → Message
  unknown_parameter : (name : String) → Message
  unknown_step : (id : String) → Message
  not_upstream : (id : String) → Message
  not_in_schema : (key id : String) → Message
  not_in_contract : (id key action : String) → Message
  needs_to_json : (name : String) → Message

pub record ValidationError : Type 0 where
  pub step_id : String
  pub field : String
  pub message : Message

abbrev pub invalid : String → String → Message → ValidationError
invalid id field message = record { step_id = id; field = field; message = message }
