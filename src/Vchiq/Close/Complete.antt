-- ===== src/Vchiq/Close/Complete.antt =====
-- How the closing of a service ends: `close_service_complete`.
use dkms_rpi_codec.Base.{
  ℕ, ◌+◌, ◌-◌, ◌^◌, ◌<◌, ◌≡◌, refl, ap, ap₂, Bool, true, false, some, arith, ◌==◌, ==_refl, sub32,
}
use dkms_rpi_codec.Vchiq.State.{
  State, Service, SrvState, free, listening, open_, closesent, closerecvd, closewait, closed,
  Status, success, error, retry, port_free,
}
use dkms_rpi_codec.Vchiq.Bulk.{callback_status}
use dkms_rpi_codec.Vchiq.Service.{set_service_state, free_service_internal, unlock_service}
use dkms_rpi_codec.Vchiq.Open.{on_service}
use dkms_rpi_codec.Vchiq.Close.{
  retire_as, is_server, retire, uses_left, release_uses, tell_closed, settle,
  close_service_complete,
}
use dkms_rpi_codec.Vchiq.Close.Uses.{standing, Standing, release_uses-at}

-- The states of a service that is being closed.
pub data IsClosing : SrvState → Type 0 where
  from_open : IsClosing open_
  from_closesent : IsClosing closesent
  from_closerecvd : IsClosing closerecvd

-- What a closed service is left as, by whether it is a server and closes by itself.
abbrev pub ended_as : Bool → Bool → Service → Service
ended_as true true svc = record svc {
  service_use_count = 0;
  client_id = 0;
  remoteport = port_free;
  srvstate = listening;
  closing = false;
  remove_event = svc.remove_event + 1;
}
ended_as true false svc = record svc {
  service_use_count = 0;
  client_id = 0;
  remoteport = port_free;
  srvstate = closewait;
}
ended_as false auto_close svc = record svc {
  service_use_count = 0;
  client_id = 0;
  remoteport = port_free;
  srvstate = free;
  remove_event = svc.remove_event + 1;
  ref_count = svc.ref_count - 1;
}

abbrev pub closed_as : Service → Service
closed_as svc = ended_as (is_server svc) svc.auto_close svc

-- The end by the callback's answer.
abbrev pub AfterClose : ℕ → Service → ℕ → SrvState → Status → Status × State → Type 0
AfterClose port svc v failstate retry (st, s') =
    (st ≡ retry)
    × (standing s' port
        ≡ (some (record (retire svc) { srvstate = failstate }), svc.service_use_count + v))
AfterClose port svc v failstate answer (st, s') =
    (st ≡ success) × (standing s' port ≡ (some (closed_as svc), v))

on_service-standing :
    (s : State) (port : ℕ) (svc : Service) (v : ℕ) (f : Service → Service)
    → standing s port ≡ (some svc, v)
    → standing (on_service s port f) port ≡ (some (f svc), v)
on_service-standing s port svc v f e =
    rw (ap (λ (t : Standing). t.0) e, ==_refl port) (ap (λ (t : Standing). (some (f svc), t.1)) e)

free-standing :
    (s : State) (port : ℕ) (svc : Service) (v : ℕ)
    → standing s port ≡ (some svc, v)
    → svc.srvstate ≡ closed
    → 1 < svc.ref_count
    → svc.ref_count < 2 ^ 32
    → standing (free_service_internal s port) port ≡ (
      some (record svc {
        srvstate = free;
        remove_event = svc.remove_event + 1;
        ref_count = svc.ref_count - 1;
      }),
      v,
    )
unfolding free_service_internal unlock_service
free-standing s port svc v e state more word =
    rw (there, state, ==_refl port, some_left, more_left, ==_refl port)
      (ap₂
        (λ (n m : ℕ). (
          some (record svc { srvstate = free; remove_event = svc.remove_event + 1; ref_count = n }),
          m,
        ))
        (omega arith) (ap (λ (t : Standing). t.1) e))
  where
    there : s.services port ≡ some svc
    there = ap (λ (t : Standing). t.0) e

    some_left : (svc.ref_count == 0) ≡ false
    some_left = ground arith

    more_left : (sub32 svc.ref_count 1 == 0) ≡ false
    more_left = ground arith

settle-standing :
    (server auto : Bool) (s : State) (port : ℕ) (svc : Service) (v : ℕ)
    → standing s port ≡ (
      some (record (retire_as server auto svc) {
        service_use_count = 0;
        client_id = 0;
        remoteport = port_free;
      }),
      v,
    )
    → 1 < svc.ref_count
    → svc.ref_count < 2 ^ 32
    → standing (settle s port server) port ≡ (some (ended_as server auto svc), v)
unfolding retire_as
settle-standing false auto s port svc v e more word =
    rw (ap (λ (t : Standing). t.0) e) (free-standing s port _ v e refl more word)
settle-standing true true s port svc v e more word =
    rw (ap (λ (t : Standing). t.0) e, ==_refl port)
      (ap (λ (t : Standing). (some (ended_as true true svc), t.1)) e)
settle-standing true false s port svc v e more word = rw (ap (λ (t : Standing). t.0) e) e

retire-uses :
    (server auto : Bool) (svc : Service)
    → (retire_as server auto svc).service_use_count ≡ svc.service_use_count
unfolding retire_as
retire-uses true true svc = refl
retire-uses true false svc = refl
retire-uses false auto svc = refl

uses_left-eq :
    (svc : Service) → svc.service_use_count < 2 ^ 31 → uses_left svc ≡ svc.service_use_count
uses_left-eq svc h = ground arith

module _ (s : State) (port : ℕ) (svc : Service) (v : ℕ) (few : svc.service_use_count < 2 ^ 31)
    (word : svc.service_use_count + v < 2 ^ 32) (more : 1 < svc.ref_count)
    (users : svc.ref_count < 2 ^ 32) where
  -- What follows a callback that does not ask for a retry.
  finish-standing :
      standing s port ≡ (some (retire svc), svc.service_use_count + v)
      → let s' = release_uses (uses_left svc) s port in
        let s'' = on_service s' port (λ o. record o { client_id = 0; remoteport = port_free }) in
        standing (settle s'' port (is_server svc)) port ≡ (some (closed_as svc), v)
  unfolding retire
  finish-standing e = rw (uses_left-eq svc few) (
      settle-standing (is_server svc) svc.auto_close
        (on_service (release_uses svc.service_use_count s port) port
          (λ o. record o { client_id = 0; remoteport = port_free }))
        port svc v
        (on_service-standing (release_uses svc.service_use_count s port) port
          (record (retire svc) { service_use_count = 0 }) v
          (λ o. record o { client_id = 0; remoteport = port_free })
          (release_uses-at svc.service_use_count v s port
            (retire_as (is_server svc) svc.auto_close svc) e
            (retire-uses (is_server svc) svc.auto_close svc) word))
        more users)

  tell_closed-AfterClose :
      (failstate : SrvState) (answer : Status)
      → standing s port ≡ (some (retire svc), svc.service_use_count + v)
      → AfterClose port svc v failstate answer (tell_closed s port svc failstate answer)
  unfolding tell_closed callback_status set_service_state
  tell_closed-AfterClose failstate retry e = (
    refl,
    on_service-standing s port (retire svc) (svc.service_use_count + v)
        (λ o. record o { srvstate = failstate }) e,
  )
  tell_closed-AfterClose failstate success e = (refl, finish-standing e)
  tell_closed-AfterClose failstate error e = (refl, finish-standing e)

-- A service that is being closed, with uses that are part of the total and a reference of the caller,
-- is closed unless its callback asks for a retry: a client is freed, a server that closes by itself
-- listens again, any other server waits for its owner; it is connected to nobody, and all its uses
-- are taken from the total and no others. After a retry it is in the state to go on from, with its
-- uses.
pub close_service_complete_lem :
    (s : State) (port : ℕ) (svc : Service) (v : ℕ) (failstate : SrvState) (answer : Status)
    → IsClosing svc.srvstate
    → standing s port ≡ (some svc, svc.service_use_count + v)
    → svc.service_use_count < 2 ^ 31
    → svc.service_use_count + v < 2 ^ 32
    → 1 < svc.ref_count
    → svc.ref_count < 2 ^ 32
    → AfterClose port svc v failstate answer (close_service_complete s port failstate answer)
unfolding close_service_complete
close_service_complete_lem s port svc v failstate answer closing e few word more users =
    rw (ap (λ (t : Standing). t.0) e) (finish closing)
  where
    told :
        AfterClose port svc v failstate answer
          (tell_closed (on_service s port retire) port svc failstate answer)
    told =
        tell_closed-AfterClose (on_service s port retire) port svc v few word more users failstate
          answer (on_service-standing s port svc (svc.service_use_count + v) retire e)

    finish :
        {st : SrvState}
        → IsClosing st
        → let retired = tell_closed (on_service s port retire) port svc failstate answer in
          let r : Status × State = elim st [
            | open_ ↦ retired
            | closesent ↦ retired
            | closerecvd ↦ retired
            | listening ↦ tell_closed s port svc failstate answer
            | _ ↦ (error, s)
          ] in
          AfterClose port svc v failstate answer r
    finish from_open = told
    finish from_closesent = told
    finish from_closerecvd = told
