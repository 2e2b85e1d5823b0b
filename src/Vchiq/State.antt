-- ===== src/Vchiq/State.antt =====
-- The data of interface/vchiq_arm/vchiq_core.h: the state of one VCHIQ link as this side sees it.
-- Locks other than the two that messages hand over, wait queues, threads and the debug array hold
-- no data of the protocol and are left out; a completion is the number of its pending signals.
-- Pointers to services are port numbers, pointers into slots are slot indexes with byte positions.
use dkms_rpi_codec.Base.{update, ◌==◌, ℕ, ◌-◌, ◌/◌, ◌%◌, Bool, Option, List}
use dkms_rpi_codec.Vchiq.Suspend.{ArmState}

-- VCHIQ_STATUS_T
pub data Status : Type 0 where
  error success retry : Status

-- VCHIQ_CONNSTATE_T
pub data ConnState : Type 0 where
  disconnected connecting connected pausing pause_sent paused resuming pause_timeout : ConnState
  resume_timeout : ConnState

-- VCHIQ_SRVSTATE_
pub data SrvState : Type 0 where
  free hidden listening opening open_ opensync closesent closerecvd closewait closed : SrvState

pub SrvState-discrete : Discrete SrvState
SrvState-discrete = hlevel

-- VCHIQ_BULK_MODE_T, VCHIQ_BULK_DIR_T
pub data BulkMode : Type 0 where
  callback blocking nocallback waiting : BulkMode

pub data BulkDir : Type 0 where
  transmit receive : BulkDir

-- VCHIQ_REASON_T
pub data Reason : Type 0 where
  service_opened service_closed message_available bulk_transmit_done bulk_receive_done : Reason
  bulk_transmit_aborted bulk_receive_aborted : Reason

-- VCHIQ_PORT_FREE, VCHIQ_PORT_MAX, VCHIQ_MAX_SERVICES, VCHIQ_FOURCC_INVALID.
abbrev pub port_free : ℕ
port_free = 0x1000

abbrev pub max_services : ℕ
max_services = 4096

abbrev pub port_max : ℕ
port_max = max_services - 1

abbrev pub fourcc_invalid : ℕ
fourcc_invalid = 0

-- VCHIQ_NUM_SERVICE_BULKS; VCHIQ_BULK_ACTUAL_ABORTED is -1 as a word.
abbrev pub num_service_bulks : ℕ
num_service_bulks = 4

abbrev pub actual_aborted : ℕ
actual_aborted = 0xffff_ffff

-- VCHIQ_MAX_SLOTS, VCHIQ_MAX_SLOTS_PER_SIDE.
abbrev pub max_slots : ℕ
max_slots = 128

abbrev pub max_slots_per_side : ℕ
max_slots_per_side = 64

-- struct vchiq_bulk; a NULL pointer is 0.
pub record Bulk : Type 0 where
  pub mode : BulkMode
  pub dir : BulkDir
  pub userdata : ℕ
  pub payload : ℕ
  pub size : ℕ
  pub remote_data : ℕ
  pub remote_size : ℕ
  pub actual : ℕ

-- struct vchiq_bulk_queue: the five counters are `int`s that wrap.
pub record BulkQueue : Type 0 where
  pub local_insert : ℕ
  pub remote_insert : ℕ
  pub process : ℕ
  pub remote_notify : ℕ
  pub remove : ℕ
  pub bulks : ℕ → Bulk

-- struct service_stats_struct
pub record ServiceStats : Type 0 where
  pub quota_stalls : ℕ
  pub slot_stalls : ℕ
  pub bulk_stalls : ℕ
  pub error_count : ℕ
  pub ctrl_tx_count : ℕ
  pub ctrl_rx_count : ℕ
  pub bulk_tx_count : ℕ
  pub bulk_rx_count : ℕ
  pub bulk_aborted_count : ℕ
  pub ctrl_tx_bytes : ℕ
  pub ctrl_rx_bytes : ℕ
  pub bulk_tx_bytes : ℕ
  pub bulk_rx_bytes : ℕ

-- struct vchiq_service, with the fields of its struct vchiq_service_base. An instance, a callback
-- and a userdata pointer are numbers; no instance is 0.
pub record Service : Type 0 where
  pub fourcc : ℕ
  pub callback : ℕ
  pub userdata : ℕ
  pub handle : ℕ
  pub ref_count : ℕ
  pub srvstate : SrvState
  pub localport : ℕ
  pub remoteport : ℕ
  pub public_fourcc : ℕ
  pub client_id : ℕ
  pub auto_close : Bool
  pub sync : Bool
  pub closing : Bool
  pub trace : Bool
  pub poll_flags : ℕ
  pub version : ℕ
  pub version_min : ℕ
  pub peer_version : ℕ
  pub inst : ℕ
  pub service_use_count : ℕ
  pub bulk_tx : BulkQueue
  pub bulk_rx : BulkQueue
  pub remove_event : ℕ
  pub bulk_remove_event : ℕ
  pub stats : ServiceStats

-- struct vchiq_service_quota: four `unsigned short`s, a completion and an `int`.
pub record Quota : Type 0 where
  pub slot_quota : ℕ
  pub slot_use_count : ℕ
  pub message_quota : ℕ
  pub message_use_count : ℕ
  pub quota_event : ℕ
  pub previous_tx_index : ℕ

-- struct remote_event
pub record RemoteEvent : Type 0 where
  pub armed : Bool
  pub fired : Bool

-- struct vchiq_shared_state, without its debug array.
pub record Shared : Type 0 where
  pub initialised : Bool
  pub slot_first : ℕ
  pub slot_last : ℕ
  pub slot_sync : ℕ
  pub trigger : RemoteEvent
  pub tx_pos : ℕ
  pub recycle : RemoteEvent
  pub slot_queue_recycle : ℕ
  pub sync_trigger : RemoteEvent
  pub sync_release : RemoteEvent
  pub slot_queue : ℕ → ℕ

-- struct vchiq_slot_info: two `short`s.
pub record SlotInfo : Type 0 where
  pub use_count : ℕ
  pub release_count : ℕ

-- struct vchiq_header with its payload.
pub record Header : Type 0 where
  pub msgid : ℕ
  pub size : ℕ
  pub bytes : List ℕ

-- struct state_stats_struct
pub record StateStats : Type 0 where
  pub slot_stalls : ℕ
  pub data_stalls : ℕ
  pub ctrl_tx_count : ℕ
  pub ctrl_rx_count : ℕ
  pub error_count : ℕ

-- struct vchiq_state, with the counter `handle_seq` that vchiq_core.c keeps beside it. `slots` is the shared memory: the header that starts at a byte of a slot. It
-- is read only where a header was written, so a payload's bytes need no place of their own in it.
pub record State : Type 0 where
  pub conn_state : ConnState
  pub version_common : ℕ
  pub here : Shared
  pub remote : Shared
  pub slots : ℕ → ℕ → Header
  pub default_slot_quota : ℕ
  pub default_message_quota : ℕ
  pub connect : ℕ
  pub tx_data : Option ℕ
  pub rx_data : Option ℕ
  pub slot_mutex : Bool
  pub sync_mutex : Bool
  pub rx_pos : ℕ
  pub local_tx_pos : ℕ
  pub slot_queue_available : ℕ
  pub poll_needed : Bool
  pub previous_data_index : ℕ
  pub data_use_count : ℕ
  pub data_quota : ℕ
  pub poll_services : ℕ → ℕ
  pub unused_service : ℕ
  pub handle_seq : ℕ
  pub slot_available_event : ℕ
  pub data_quota_event : ℕ
  pub stats : StateStats
  pub services : ℕ → Option Service
  pub service_quotas : ℕ → Quota
  pub slot_info : ℕ → SlotInfo
  pub platform_state : ArmState

-- SLOT_QUEUE_INDEX_FROM_POS, and the index into the circular `slot_queue`.
abbrev pub slot_queue_index : ℕ → ℕ
slot_queue_index pos = pos / 4096

abbrev pub slot_offset : ℕ → ℕ
slot_offset pos = pos % 4096

-- The numbers of the enumeration, by which states are compared.
abbrev pub srvstate_code : SrvState → ℕ
srvstate_code free = 0
srvstate_code hidden = 1
srvstate_code listening = 2
srvstate_code opening = 3
srvstate_code open_ = 4
srvstate_code opensync = 5
srvstate_code closesent = 6
srvstate_code closerecvd = 7
srvstate_code closewait = 8
srvstate_code closed = 9

abbrev pub in_state : SrvState → SrvState → Bool
in_state a b = srvstate_code a == srvstate_code b

abbrev pub put_service : State → ℕ → Option Service → State
put_service s port svc = record s { services = update s.services port svc }

abbrev pub put_quota : State → ℕ → Quota → State
put_quota s port q = record s { service_quotas = update s.service_quotas port q }
