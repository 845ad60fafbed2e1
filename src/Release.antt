-- ===== src/Release.antt =====
-- The release record of pkg/proto/hapi/release: release.pb.go, info.pb.go, status.pb.go, hook.pb.go.
-- The bookkeeping fields XXX_* of the generated structs are left out. A pointer that the code tests
-- for nil is an `Option`; `Info`, `Info.Status` and the first two times are never nil in a release
-- that Tiller builds.
use helm.Common.{ℕ, Bytes, codes, Bool, ◌==◌, Option, List}
use helm.Common.Decimal.{Int32, Int64}

-- seconds of a protobuf timestamp
abbrev pub Timestamp : Type 0
Timestamp = ℕ

pub data Status : Type 0 where
  unknown deployed deleted superseded failed deleting : Status
  pending_install pending_upgrade pending_rollback : Status

abbrev pub status_code : Status → ℕ
status_code unknown = 0
status_code deployed = 1
status_code deleted = 2
status_code superseded = 3
status_code failed = 4
status_code deleting = 5
status_code pending_install = 6
status_code pending_upgrade = 7
status_code pending_rollback = 8

abbrev pub status_eq : Status → Status → Bool
status_eq s t = status_code s == status_code t

-- Status_Code_name
abbrev pub status_name : Status → Bytes
status_name unknown = codes "UNKNOWN"
status_name deployed = codes "DEPLOYED"
status_name deleted = codes "DELETED"
status_name superseded = codes "SUPERSEDED"
status_name failed = codes "FAILED"
status_name deleting = codes "DELETING"
status_name pending_install = codes "PENDING_INSTALL"
status_name pending_upgrade = codes "PENDING_UPGRADE"
status_name pending_rollback = codes "PENDING_ROLLBACK"

-- Hook_Event
pub data HookEvent : Type 0 where
  unknown_event pre_install post_install pre_delete post_delete pre_upgrade : HookEvent
  post_upgrade pre_rollback post_rollback : HookEvent
  release_test_success release_test_failure crd_install : HookEvent

abbrev pub event_code : HookEvent → ℕ
event_code unknown_event = 0
event_code pre_install = 1
event_code post_install = 2
event_code pre_delete = 3
event_code post_delete = 4
event_code pre_upgrade = 5
event_code post_upgrade = 6
event_code pre_rollback = 7
event_code post_rollback = 8
event_code release_test_success = 9
event_code release_test_failure = 10
event_code crd_install = 11

abbrev pub event_eq : HookEvent → HookEvent → Bool
event_eq e f = event_code e == event_code f

-- Hook_DeletePolicy
pub data DeletePolicy : Type 0 where
  on_succeeded on_failed before_creation : DeletePolicy

abbrev pub policy_code : DeletePolicy → ℕ
policy_code on_succeeded = 0
policy_code on_failed = 1
policy_code before_creation = 2

abbrev pub policy_eq : DeletePolicy → DeletePolicy → Bool
policy_eq p q = policy_code p == policy_code q

pub record Hook : Type 0 where
  pub name : Bytes
  pub kind : Bytes
  pub path : Bytes
  pub manifest : Bytes
  pub events : List HookEvent
  pub last_run : Option Timestamp
  pub weight : Int32
  pub delete_policies : List DeletePolicy
  pub delete_timeout : Int64

pub record Info : Type 0 where
  pub code : Status
  pub notes : Bytes
  pub first_deployed : Timestamp
  pub last_deployed : Timestamp
  pub deleted_at : Option Timestamp
  pub description : Bytes

-- What the code here reads of a chart, and the rest as one value.
pub record Chart : Type 0 where
  -- `Metadata.Name`, none where `Metadata` is nil
  pub chart_name : Option Bytes
  pub values : Option Bytes
  pub content : Bytes

pub record Release : Type 0 where
  pub name : Bytes
  pub info : Info
  pub chart : Option Chart
  pub config : Option Bytes
  pub manifest : Bytes
  pub hooks : List Hook
  pub version : Int32
  pub namespace : Bytes

abbrev pub set_status : Status → Release → Release
set_status s r = record r { info = record r.info { code = s } }

abbrev pub set_description : Bytes → Release → Release
set_description d r = record r { info = record r.info { description = d } }
