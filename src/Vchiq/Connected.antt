-- ===== src/Vchiq/Connected.antt =====
-- Callbacks that wait for the link: `vchiq_add_connected_callback` and
-- `vchiq_call_connected_callbacks` (interface/vchiq_arm/vchiq_connected.c).
pub mod Once
use dkms_rpi_codec.Base.{ℕ, ◌+◌, Bool, true, not, List, [], ◌∷◌, ◌++◌, leb, if◌then◌else◌, length}

-- MAX_CALLBACKS
abbrev pub max_callbacks : ℕ
max_callbacks = 10

-- `g_connected` and the callbacks of `g_deferred_callback` that count.
pub record Deferred : Type 0 where
  pub connected : Bool
  pub callbacks : List ℕ

-- `vchiq_add_connected_callback`, and the callbacks that it calls. `locked` says whether the mutex was
-- got.
unfoldable pub add_callback : Deferred → ℕ → Bool → Deferred × List ℕ
add_callback d callback locked =
    if not locked
    then (d, [])
    else if d.connected
    then (d, callback ∷ [])
    else if leb max_callbacks (length d.callbacks)
    then (d, [])
    else (record d { callbacks = d.callbacks ++ callback ∷ [] }, [])

-- `vchiq_call_connected_callbacks`
unfoldable pub call_callbacks : Deferred → Bool → Deferred × List ℕ
call_callbacks d locked =
    if not locked then (d, []) else (record { connected = true; callbacks = [] }, d.callbacks)
