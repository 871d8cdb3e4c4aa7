-- ===== src/Mqtt/Wait/Laws.antt =====
-- What the answers of `waitForPacketAck` and `ProcessLoopWithTimeout` mean, and what a wrap of the
-- 32-bit clock does to them.
use embedded_provisioning_sd.Prelude.{
  ℕ, zero, suc, ◌+◌, ◌^◌, ◌≤◌, ◌<◌, ◌≡◌, ◌≢◌, refl, inl, inr, Bool, true, false, not, ◌&&◌, List,
  [], ◌∷◌, arith, ltb, ◌==◌, if◌then◌else◌, Bool-cases, add_u32, All,
}
use embedded_provisioning_sd.Platform.Clock.{get_time_ms, get_time_ms-lt}
use embedded_provisioning_sd.Mqtt.Library.{
  MqttStatus, success, may_go_on, PublishInfo, Packet, Library, State, done, Ends, Ends-elim,
}
use embedded_provisioning_sd.Mqtt.Callback.{mqtt_callback, deliver, is_publish, is_ack}
use embedded_provisioning_sd.Mqtt.Callback.Cases.{mqtt_callback_cases}
use embedded_provisioning_sd.Mqtt.Wait.{
  get_time, turn, process_until, has_ack, wait_for_packet_ack, process_loop_with_timeout,
  process_loop_timeout_ms,
}

module _ {W B A : Type 0} (lib : Library W B) (callback : A → PublishInfo → ℕ → A) where
  -- The time in milliseconds that the next reading of the clock gives.
  abbrev pub now_of : W → ℕ
  now_of w = get_time_ms (lib.read_clock w).0

  -- The state behind that reading.
  abbrev pub after_reading : State W A → State W A
  after_reading s = record s { world = (lib.read_clock s.world).1 }

  process_until_late :
      (stop : State W A → Bool) (deadline fuel now : ℕ) (status : MqttStatus) (s : State W A)
      → deadline ≤ now
      → process_until lib callback stop deadline (suc fuel) now status s ≡ done status s
  unfolding process_until
  process_until_late stop deadline fuel now status s late =
      rw (not_before now deadline late, and_false (not (stop s)), process_until)
    where
      not_before : (a b : ℕ) → b ≤ a → ltb a b ≡ false
      not_before a b h = ground arith

      and_false : (b : Bool) → (b && false) ≡ false
      and_false true = refl
      and_false false = refl

  -- If the 32-bit clock would pass 2 ^ 32 milliseconds within the timeout, the deadline wraps:
  -- `waitForPacketAck` for an id that is not 0 returns false after a single reading of the clock,
  -- without a call of `MQTT_ProcessLoop`.
  pub wait_wraps :
      (fuel id timeout : ℕ) (s : State W A)
      → id ≢ 0
      → timeout < 2 ^ 32
      → 2 ^ 32 ≤ now_of s.world + timeout
      → wait_for_packet_ack lib callback (suc fuel) id timeout s
        ≡ done false (record (after_reading s) { ack_packet_id = 0 })
  unfolding wait_for_packet_ack get_time
  wait_wraps fuel id timeout s ne small wraps =
      rw
        (
          process_until_late (has_ack lib callback id) (add_u32 (now_of s.world) timeout) fuel
              (now_of s.world) success (record (after_reading s) { ack_packet_id = 0 })
              (omega (arith, get_time_ms-lt (lib.read_clock s.world).0)),
          wait_for_packet_ack,
        )
        (ground arith)

  -- `ProcessLoopWithTimeout` in the same situation returns true without a call of `MQTT_ProcessLoop`.
  pub loop_wraps :
      (fuel : ℕ) (s : State W A)
      → 2 ^ 32 ≤ now_of s.world + process_loop_timeout_ms
      → process_loop_with_timeout lib callback (suc fuel) s ≡ done true (after_reading s)
  unfolding process_loop_with_timeout get_time
  loop_wraps fuel s wraps = rw (
    process_until_late (λ _. false) (add_u32 (now_of s.world) process_loop_timeout_ms) fuel
        (now_of s.world) success (after_reading s)
        (omega (arith, get_time_ms-lt (lib.read_clock s.world).0)),
    process_loop_with_timeout,
  )

  -- The packet acknowledges the id.
  abbrev pub acks : ℕ → Packet → Bool
  acks id p = if is_publish p.type then false else is_ack p.type && p.packet_id == id

  abbrev Waits : {R : Type 0} → ℕ → R → State W A → Type 0
  Waits id r s = has_ack lib callback id s ≡ false

  callback-Waits :
      (id : ℕ) (p : Packet) (s : State W A)
      → has_ack lib callback id s ≡ false
      → acks id p ≡ false
      → Ends (Waits id) (mqtt_callback callback p s)
  callback-Waits id p s h no_ack =
      mqtt_callback_cases callback (Ends (Waits id)) p s tt (λ info there e. ground arith)
        (λ e a. ground arith) (λ e a n. ground arith) h

  deliver-Waits :
      (id : ℕ) (ps : List Packet) (s : State W A)
      → has_ack lib callback id s ≡ false
      → All (λ p. acks id p ≡ false) ps
      → Ends (Waits id) (deliver callback ps s)
  unfolding deliver
  deliver-Waits id [] s h none_acks = h
  deliver-Waits id (p ∷ ps) s h none_acks =
      Ends-elim (Waits id) (Waits id) (mqtt_callback callback p s) (λ _. deliver callback ps)
        (callback-Waits id p s h none_acks.0) (λ u s' h'. deliver-Waits id ps s' h' none_acks.1)

  -- No round of `MQTT_ProcessLoop` brings an acknowledgement of the id.
  abbrev pub NeverAcks : ℕ → Type 0
  NeverAcks id = (w : W) → All (λ p. acks id p ≡ false) (lib.process_loop w).1

  turn-Waits :
      (id : ℕ) (s : State W A)
      → NeverAcks id
      → has_ack lib callback id s ≡ false
      → Ends (Waits id) (turn lib callback s)
  unfolding turn
  turn-Waits id s never h =
      let r = lib.process_loop s.world in
      Ends-elim (Waits id) (Waits id) (deliver callback r.1 (record s { world = r.2 }))
        (λ u s'. done (r.0, (get_time lib callback s').0) (get_time lib callback s').1)
        (deliver-Waits id r.1 (record s { world = r.2 }) h (never s.world)) (λ u s' h'. h')

  process_until-Waits :
      (id deadline fuel now : ℕ) (status : MqttStatus) (s : State W A)
      → NeverAcks id
      → has_ack lib callback id s ≡ false
      → Ends
          (Waits id)
          (process_until lib callback (has_ack lib callback id) deadline fuel now status s)
  unfolding process_until
  process_until-Waits id deadline zero now status s never h = tt
  process_until-Waits id deadline (suc fuel) now status s never h =
      elim (Bool-cases
        (not (has_ack lib callback id s) && (ltb now deadline && may_go_on status))) [
          | inr stop ↦ rw (stop, process_until) h
          | inl more ↦
              rw (more, process_until)
                (Ends-elim (Waits id) (Waits id) (turn lib callback s)
                  (λ r s'.
                    process_until lib callback (has_ack lib callback id) deadline fuel r.1 r.0 s')
                  (turn-Waits id s never h)
                  (λ r s' h'. process_until-Waits id deadline fuel r.1 r.0 s' never h'))
        ]

  -- When no round of `MQTT_ProcessLoop` brings an acknowledgement of the id, `waitForPacketAck` does not
  -- return true, whatever other packets come, for every id but the invalid 0.
  pub wait_needs_ack :
      (fuel id timeout : ℕ) (s : State W A)
      → id ≢ 0
      → NeverAcks id
      → Ends (λ b _. b ≡ false) (wait_for_packet_ack lib callback fuel id timeout s)
  unfolding wait_for_packet_ack
  wait_needs_ack fuel id timeout s ne never =
      Ends-elim (Waits id) (λ b _. b ≡ false)
        (process_until lib callback (has_ack lib callback id) (add_u32 (now_of s.world) timeout)
          fuel (now_of s.world) success (record (after_reading s) { ack_packet_id = 0 }))
        _
        (process_until-Waits id (add_u32 (now_of s.world) timeout) fuel (now_of s.world) success
          (record (after_reading s) { ack_packet_id = 0 }) never (ground arith))
        (λ status s' h. ground arith)
