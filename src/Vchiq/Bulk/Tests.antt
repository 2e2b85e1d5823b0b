-- ===== src/Vchiq/Bulk/Tests.antt =====
-- A queue whose counters are about to wrap.
use dkms_rpi_codec.Base.{ℕ, ◌+◌, ◌≡◌, refl, ◌⊎◌, true, false, List, [], ◌∷◌, ◌++◌, arith}
use dkms_rpi_codec.Vchiq.State.{
  Bulk, BulkQueue, Service, ServiceStats, callback, transmit, success, open_, actual_aborted,
  Status, bulk_transmit_done,
}
use dkms_rpi_codec.Vchiq.Bulk.{
  bulk_index, bulk_done, unexpected, accepted, complete_bulk, notify_bulks, notify_loop, notify_one,
  count_bulk, bulk_reason, callback_status, abort_outstanding_bulks, abort_loop, abort_one, called,
}
use dkms_rpi_codec.Vchiq.Bulk.Invariant.{IsQueue}
use dkms_rpi_codec.Vchiq.Bulk.Order.{view, finished, unfinished, view-bulk_done}
use dkms_rpi_codec.Vchiq.Bulk.Notify.{notify_bulks_lem, delivered, IsNotified}
use dkms_rpi_codec.Vchiq.Bulk.Abort.{abort_outstanding_bulks_lem, IsAborted}

abbrev pub cell : Bulk
cell = record {
  mode = callback;
  dir = transmit;
  userdata = 77;
  payload = 0xc000;
  size = 64;
  remote_data = 0x9000;
  remote_size = 64;
  actual = actual_aborted;
}

-- One finished transfer, at counter 2 ^ 32 - 1, and one unfinished, at counter 0.
abbrev pub wrapping : BulkQueue
wrapping = record {
  local_insert = 1;
  remote_insert = 0;
  process = 0;
  remote_notify = 0xffff_ffff;
  remove = 0xffff_ffff;
  bulks = λ i. record cell { actual = 64 };
}

wrapping-IsQueue : IsQueue wrapping
wrapping-IsQueue = omega arith

abbrev pub counts : ServiceStats
counts = record {
  quota_stalls = 0;
  slot_stalls = 0;
  bulk_stalls = 0;
  error_count = 0;
  ctrl_tx_count = 0;
  ctrl_rx_count = 0;
  bulk_tx_count = 0;
  bulk_rx_count = 0;
  bulk_aborted_count = 0;
  ctrl_tx_bytes = 0;
  ctrl_rx_bytes = 0;
  bulk_tx_bytes = 0;
  bulk_rx_bytes = 0;
}

abbrev pub busy : Service
busy = record {
  fourcc = 0x4543_484f;
  callback = 1;
  userdata = 2;
  handle = 4096 + 5;
  ref_count = 1;
  srvstate = open_;
  localport = 5;
  remoteport = 9;
  public_fourcc = 0;
  client_id = 0;
  auto_close = true;
  sync = false;
  closing = false;
  trace = false;
  poll_flags = 0;
  version = 8;
  version_min = 3;
  peer_version = 8;
  inst = 3;
  service_use_count = 1;
  bulk_tx = wrapping;
  bulk_rx = wrapping;
  remove_event = 0;
  bulk_remove_event = 0;
  stats = counts;
}

abbrev agree : ℕ → Status
agree c = success

view-bulk_done_example :
    (unfinished wrapping ≡ []) × (bulk_done wrapping 12 ≡ unexpected)
    ⊎ ((b : Bulk) × (rest : List Bulk) × (q' : BulkQueue) × (unfinished wrapping ≡ b ∷ rest)
        × (bulk_done wrapping 12 ≡ accepted q' (complete_bulk (record b { actual = 12 })))
        × (view q' ≡ (finished wrapping ++ record b { actual = 12 } ∷ [], rest)))
view-bulk_done_example = view-bulk_done wrapping 12 wrapping-IsQueue

notify_bulks_lem_example :
    let (s', notices, st) = notify_bulks transmit true agree busy in
    IsNotified transmit busy s' (delivered transmit agree busy) notices st
notify_bulks_lem_example = notify_bulks_lem transmit agree busy wrapping-IsQueue

tells_once : (notify_bulks transmit true agree busy).1 ≡ called bulk_transmit_done 77 ∷ []
unfolding notify_bulks notify_loop notify_one count_bulk bulk_reason callback_status bulk_index
tells_once = refl

abort_outstanding_bulks_lem_example :
    let (q', freed) = abort_outstanding_bulks transmit wrapping in IsAborted wrapping q' freed
abort_outstanding_bulks_lem_example = abort_outstanding_bulks_lem transmit wrapping wrapping-IsQueue

abort_frees_nothing :
    (abort_outstanding_bulks transmit (record wrapping { bulks = λ i. cell })).1 ≡ []
unfolding abort_outstanding_bulks abort_loop abort_one complete_bulk bulk_index
abort_frees_nothing = refl
