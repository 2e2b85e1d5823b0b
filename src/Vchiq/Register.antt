-- ===== src/Vchiq/Register.antt =====
-- Creating a service: `vchiq_add_service_internal` (interface/vchiq_arm/vchiq_core.c).
pub mod Place
pub mod Add
mod Tests
use dkms_rpi_codec.Base.{
  ℕ, zero, suc, ◌+◌, bit_or, Bool, true, false, not, ◌&&◌, ◌||◌, Option, none, some, ltb, ◌==◌,
  if◌then◌else◌, option_case, update, add32, sub32,
}
use dkms_rpi_codec.Vchiq.State.{
  State, Service, ServiceStats, SrvState, opening, Quota, Bulk, in_state, port_free, max_services,
  fourcc_invalid, slot_queue_index,
}
use dkms_rpi_codec.Vchiq.Bulk.{init_bulk_queue}

-- struct vchiq_service_params
pub record Params : Type 0 where
  pub fourcc : ℕ
  pub callback : ℕ
  pub userdata : ℕ
  pub version : ℕ
  pub version_min : ℕ

-- The place for a client: the first empty one, else the first unused one.
unfoldable pub client_place : (ℕ → Option Service) → ℕ → ℕ → Option ℕ → Option ℕ
client_place services zero i place = place
client_place services (suc left) i place =
    let rest = client_place services left (i + 1) place in
    option_case (services i) (some i) (λ svc. rest)

-- Another server with the same fourcc.
abbrev pub is_rival : Params → ℕ → Service → Bool
is_rival params inst svc =
    (svc.public_fourcc == params.fourcc)
    && (not (svc.inst == inst) || not (svc.callback == params.callback))

-- The place for a server, going down from index `n - 1`: none where another server has its fourcc.
unfoldable pub server_place : Params → ℕ → (ℕ → Option Service) → ℕ → Option ℕ → Option ℕ
server_place params inst services zero place = place
server_place params inst services (suc n) place =
    let place' = option_case (services n) (some n) (λ svc. place) in
    let rest = server_place params inst services n place' in
    option_case (services n) rest (λ svc. if is_rival params inst svc then none else rest)

unfoldable pub place_for : State → Params → SrvState → ℕ → Option ℕ
place_for s params srvstate inst =
    let unused = if ltb s.unused_service max_services then some s.unused_service else none in
    if in_state srvstate opening
    then client_place s.services s.unused_service 0 unused
    else server_place params inst s.services s.unused_service unused

abbrev no_stats : ServiceStats
no_stats = record {
  quota_stalls = 0;
  slot_stalls = 0;
  bulk_stalls = 0;
  error_count = 0;
  ctrl_tx_count = 0;
  ctrl_rx_count = 0;
  bulk_tx_count = 0;
  bulk_rx_count = 0;
  bulk_aborted_count = 0;
  ctrl_tx_bytes = 0;
  ctrl_rx_bytes = 0;
  bulk_tx_bytes = 0;
  bulk_rx_bytes = 0;
}

-- What the fresh memory of a service holds where the code leaves it: the bulks and `peer_version`.
pub record Fresh : Type 0 where
  pub tx_bulks : ℕ → Bulk
  pub rx_bulks : ℕ → Bulk
  pub old_peer_version : ℕ

-- The service as it enters the table at a port, with its handle, in its first state.
unfoldable pub new_service : Params → SrvState → ℕ → Fresh → ℕ → ℕ → Service
unfolding init_bulk_queue
new_service params srvstate inst fresh port handle = record {
  fourcc = params.fourcc;
  callback = params.callback;
  userdata = params.userdata;
  handle = handle;
  ref_count = 1;
  srvstate = srvstate;
  localport = port;
  remoteport = port_free;
  public_fourcc = if in_state srvstate opening then fourcc_invalid else params.fourcc;
  client_id = 0;
  auto_close = true;
  sync = false;
  closing = false;
  trace = false;
  poll_flags = 0;
  version = params.version;
  version_min = params.version_min;
  peer_version = fresh.old_peer_version;
  inst = inst;
  service_use_count = 0;
  bulk_tx = init_bulk_queue fresh.tx_bulks;
  bulk_rx = init_bulk_queue fresh.rx_bulks;
  remove_event = 0;
  bulk_remove_event = 0;
  stats = no_stats;
}

-- The handle number that is used next: it skips zero.
unfoldable pub live_seq : ℕ → ℕ
live_seq seq = if seq == 0 then max_services else seq

-- The quota of a port that gets a new service.
unfoldable pub start_quota : State → Quota → Quota
start_quota s q =
    let q' = record q {
      slot_quota = s.default_slot_quota;
      message_quota = s.default_message_quota;
    } in
    if q.slot_use_count == 0
    then record q' { previous_tx_index = sub32 (slot_queue_index s.local_tx_pos) 1 }
    else q'

-- `vchiq_add_service_internal`; there is one state, whose id is 0. `memory` is `kmalloc`'s result.
unfoldable pub add_service_internal :
    State → Params → SrvState → ℕ → Option Fresh → Option ℕ × State
add_service_internal s params srvstate inst none = (none, s)
add_service_internal s params srvstate inst (some fresh) =
    option_case (place_for s params srvstate inst) (none, s)
      λ port.
        let seq = live_seq s.handle_seq in
        let svc = new_service params srvstate inst fresh port (bit_or seq port) in
        (
          some port,
          record s {
            services = update s.services port (some svc);
            handle_seq = add32 seq max_services;
            unused_service =
                if port == s.unused_service then s.unused_service + 1 else s.unused_service;
            service_quotas = update s.service_quotas port (start_quota s (s.service_quotas port));
          },
        )
