-- ===== src/Audit/Event.antt =====
-- internal/audit/event.go: the events and their validation.
use kordn.Base.{ℕ, List, [], Bool, true, false, Option, none, Bytes, codes}
use kordn.AwsRequest.Protocol.{AwsProtocol}
use kordn.AwsRequest.Mapping.{ScopeKind, MappingConfidence}

-- `EventType`.
pub data EventType : Type 0 where
  run_started run_ended request_decision forward_error authentication_failed : EventType
  unsupported_request writer_failed cleanup_failed : EventType
  other_event : Bytes → EventType

pub record RootProcess : Type 0 where
  pub pid : ℕ
  pub argv0 : Bytes
  pub command_hash : Bytes

-- `payload_negative` is the sign of the count of bytes.
pub record RequestInfo : Type 0 where
  pub host : Bytes
  pub partition : Bytes
  pub service : Bytes
  pub operation : Bytes
  pub region : Bytes
  pub protocol : AwsProtocol
  pub method : Bytes
  pub payload_negative : Bool

pub record Requirement : Type 0 where
  pub action : Bytes
  pub resources : List Bytes
  pub scope_kind : ScopeKind
  pub dependent : Bool

pub record MappingInfo : Type 0 where
  pub confidence : MappingConfidence
  pub mapper_version : Bytes
  pub iam_live_version : Bytes
  pub authorization_data_version : Bytes

pub record DecisionInfo : Type 0 where
  pub result : Bytes
  pub reason_code : Bytes
  pub matched_rule_ids : List Bytes
  pub policy_hash : Bytes

-- `Event`. Of the upstream there is the profile, and of the timing, the duration and the metrics
-- whether they are set; `utc_time` is a timestamp in UTC that is not zero. A code out of the range of a process is `some none`.
pub record Event : Type 0 where
  pub schema_version : Bytes
  pub event_id : Bytes
  pub run_id : Bytes
  pub utc_time : Bool
  pub event_type : EventType
  pub root_process : Option RootProcess
  pub connection_id : Bytes
  pub request : Option RequestInfo
  pub iam_requirements : Option (List Requirement)
  pub mapping : Option MappingInfo
  pub decision : Option DecisionInfo
  pub upstream : Option Bytes
  pub timing : Bool
  pub status : Bytes
  pub error_code : Bytes
  pub exit_code : Option (Option ℕ)
  pub duration : Bool
  pub metrics : Bool

-- One constructor per message.
pub data EventError : Type 0 where
  bad_identity other_fields incomplete bad_requirement empty_resource bad_request : EventError
  bad_result bad_policy_hash bad_mapping bad_root bad_exit_code no_profile : EventError
  unsupported_type : EventError

abbrev pub schema : Bytes
schema = codes "kordn.audit/v1"

-- `NewEvent`, with the identifier that `NewID` has made.
unfoldable pub new_event : Bytes → Bytes → EventType → Event
new_event run_id event_id event_type = record {
  schema_version = schema;
  event_id = event_id;
  run_id = run_id;
  utc_time = true;
  event_type = event_type;
  root_process = none;
  connection_id = [];
  request = none;
  iam_requirements = none;
  mapping = none;
  decision = none;
  upstream = none;
  timing = false;
  status = [];
  error_code = [];
  exit_code = none;
  duration = false;
  metrics = false;
}
