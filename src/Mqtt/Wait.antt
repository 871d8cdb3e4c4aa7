-- ===== src/Mqtt/Wait.antt =====
-- The loops around `MQTT_ProcessLoop`: `waitForPacketAck` and `ProcessLoopWithTimeout`.
pub mod Laws
pub mod Terminates
use embedded_provisioning_sd.Prelude.{
  ℕ, zero, suc, Bool, true, false, not, ◌&&◌, ◌||◌, List, ltb, ◌==◌, if◌then◌else◌, add_u32,
}
use embedded_provisioning_sd.Platform.Clock.{Timespec, get_time_ms}
use embedded_provisioning_sd.Mqtt.Library.{
  MqttStatus, success, may_go_on, PublishInfo, Library, State, Run, done, aborted, unfinished,
}
use embedded_provisioning_sd.Mqtt.Callback.{deliver}

-- MQTT_PROCESS_LOOP_TIMEOUT_MS
abbrev pub process_loop_timeout_ms : ℕ
process_loop_timeout_ms = 1000

module _ {W B A : Type 0} (lib : Library W B) (callback : A → PublishInfo → ℕ → A) where
  -- `pMqttContext->getTime()`, which is `Clock_GetTimeMs`.
  unfoldable pub get_time : State W A → ℕ × State W A
  get_time s = let (t, w) = lib.read_clock s.world in (get_time_ms t, record s { world = w })

  -- A round of either loop: `MQTT_ProcessLoop` with the callbacks that it makes, and the time behind it.
  unfoldable pub turn : State W A → Run (State W A) (MqttStatus × ℕ)
  unfolding get_time
  turn s =
      let (status, packets, w) = lib.process_loop s.world in
      elim (deliver callback packets (record s { world = w })) [
        | done u s' ↦ done (status, (get_time s').0) (get_time s').1
        | aborted ↦ aborted
        | unfinished ↦ unfinished
      ]

  -- `while( ... ) { MQTT_ProcessLoop(); getTime(); }`, where `stop` is the part of the test that looks
  -- at the globals; the result is `eMqttStatus`.
  unfoldable pub process_until :
      (State W A → Bool) → ℕ → ℕ → ℕ → MqttStatus → State W A → Run (State W A) MqttStatus
  process_until stop deadline zero now status s = unfinished
  process_until stop deadline (suc fuel) now status s =
      elim (not (stop s) && (ltb now deadline && may_go_on status)) [
        | false ↦ done status s
        | true ↦ elim (turn s) [
          | done r s' ↦ process_until stop deadline fuel r.1 r.0 s'
          | aborted ↦ aborted
          | unfinished ↦ unfinished
        ]
      ]

  abbrev pub has_ack : ℕ → State W A → Bool
  has_ack id s = s.ack_packet_id == id

  -- `waitForPacketAck`
  unfoldable pub wait_for_packet_ack : ℕ → ℕ → ℕ → State W A → Run (State W A) Bool
  unfolding get_time
  wait_for_packet_ack fuel id timeout s =
      let (now, s₀) = get_time (record s { ack_packet_id = 0 }) in
      elim (process_until (has_ack id) (add_u32 now timeout) fuel now success s₀) [
        | done status s' ↦
            done (if not (may_go_on status) || not (has_ack id s') then false else true) s'
        | aborted ↦ aborted
        | unfinished ↦ unfinished
      ]

  -- `ProcessLoopWithTimeout`
  unfoldable pub process_loop_with_timeout : ℕ → State W A → Run (State W A) Bool
  unfolding get_time
  process_loop_with_timeout fuel s =
      let (now, s₀) = get_time s in
      elim (process_until (λ _. false) (add_u32 now process_loop_timeout_ms) fuel now success s₀) [
        | done status s' ↦ done (may_go_on status) s'
        | aborted ↦ aborted
        | unfinished ↦ unfinished
      ]
