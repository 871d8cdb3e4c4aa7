-- ===== src/Mqtt/Wait/Terminates.antt =====
-- The loops around `MQTT_ProcessLoop` end, and with how much fuel.
use embedded_provisioning_sd.Prelude.{
  ℕ, zero, suc, ◌+◌, ◌-◌, ◌^◌, ◌≤◌, ◌<◌, ◌≡◌, refl, sym, ap, inl, inr, Bool, true, false, not, ◌&&◌,
  arith, ltb, Bool-cases, add_u32,
}
use embedded_provisioning_sd.Mqtt.Library.{
  MqttStatus, success, may_go_on, PublishInfo, Library, State, done, Settles, Settles-elim,
}
use embedded_provisioning_sd.Mqtt.Callback.{deliver}
use embedded_provisioning_sd.Mqtt.Callback.Cases.{Kept, deliver-Kept}
use embedded_provisioning_sd.Mqtt.Wait.{
  get_time, turn, process_until, has_ack, wait_for_packet_ack, process_loop_with_timeout,
  process_loop_timeout_ms,
}
use embedded_provisioning_sd.Mqtt.Wait.Laws.{now_of, after_reading}

module _ {W B A : Type 0} (lib : Library W B) (callback : A → PublishInfo → ℕ → A) where
  -- From one reading of the clock to the next, a round of the loop takes at least one and at most
  -- `longest` milliseconds, away from the wrap of the 32-bit clock.
  abbrev pub RoundsTake : ℕ → Type 0
  RoundsTake longest =
      (w : W)
      → now_of lib callback w + longest < 2 ^ 32
      → (now_of lib callback w < now_of lib callback (lib.process_loop (lib.read_clock w).1).2)
        × (now_of lib callback (lib.process_loop (lib.read_clock w).1).2
            ≤ now_of lib callback w + longest)

  -- The state stands right behind the reading `now`.
  abbrev ReadAt : ℕ → State W A → Type 0
  ReadAt now s = (w : W) × (now ≡ now_of lib callback w) × (s.world ≡ (lib.read_clock w).1)

  abbrev Later : ℕ → ℕ → MqttStatus × ℕ → State W A → Type 0
  Later now longest r s = (now < r.1) × (r.1 ≤ now + longest) × ReadAt r.1 s

  turn-Later :
      (longest now : ℕ) (s : State W A)
      → RoundsTake longest
      → now + longest < 2 ^ 32
      → ReadAt now s
      → Settles (Later now longest) (turn lib callback s)
  unfolding turn get_time
  turn-Later longest now s rounds early (w, at, there) =
      let r = lib.process_loop s.world in
      let took = rounds w (omega arith) in
      let same : (lib.process_loop (lib.read_clock w).1).2 ≡ r.2 =
        ap (λ v. (lib.process_loop v).2) (sym there) in
      let took' = rw (same, sym at) at took in
      Settles-elim (λ _ s'. Kept callback (record s { world = r.2 }) s') (Later now longest)
        (deliver callback r.1 (record s { world = r.2 }))
        (λ u s'. done (r.0, (get_time lib callback s').0) (get_time lib callback s').1)
        (deliver-Kept callback r.1 (record s { world = r.2 }))
        (λ u s' k.
          let q = ap (λ v. now_of lib callback v) k.same_world in
          (omega (arith, q, took'), omega (arith, q, took'), (s'.world, refl, refl)))

  process_until-Settles :
      (longest : ℕ) (stop : State W A → Bool) (deadline fuel now : ℕ) (status : MqttStatus)
      (s : State W A)
      → RoundsTake longest
      → deadline + longest ≤ 2 ^ 32
      → deadline - now < fuel
      → ReadAt now s
      → Settles (λ _ _. Unit {0}) (process_until lib callback stop deadline fuel now status s)
  unfolding process_until
  process_until-Settles longest stop deadline zero now status s rounds early enough at =
      absurd (omega arith)
  process_until-Settles longest stop deadline (suc fuel) now status s rounds early enough at =
      elim (Bool-cases (not (stop s) && (ltb now deadline && may_go_on status))) [
        | inr finish ↦ rw (finish, process_until) tt
        | inl more ↦
            let before : now < deadline =
              before_deadline (stop s) (may_go_on status) now deadline more in
            rw (more, process_until)
              (Settles-elim (Later now longest) (λ _ _. Unit {0}) (turn lib callback s)
                (λ r s'. process_until lib callback stop deadline fuel r.1 r.0 s')
                (turn-Later longest now s rounds (omega arith) at)
                (λ r s' l.
                  process_until-Settles longest stop deadline fuel r.1 r.0 s' rounds early
                    (omega (arith, l.0)) l.2))
      ]
    where
      before_deadline : (b c : Bool) (m d : ℕ) → (not b && (ltb m d && c)) ≡ true → m < d
      before_deadline b c m d h = ground arith

  -- `waitForPacketAck` ends (or stops at a failed `assert`) within `timeout + 1` tests of its loop, when
  -- a round takes at least one and at most `longest` milliseconds and the clock does not wrap within
  -- the timeout and one such round.
  pub wait_for_packet_ack-Settles :
      (longest fuel id timeout : ℕ) (s : State W A)
      → RoundsTake longest
      → now_of lib callback s.world + timeout + longest < 2 ^ 32
      → timeout < fuel
      → Settles (λ _ _. Unit {0}) (wait_for_packet_ack lib callback fuel id timeout s)
  unfolding wait_for_packet_ack
  wait_for_packet_ack-Settles longest fuel id timeout s rounds early enough =
      Settles-elim (λ _ _. Unit {0}) (λ _ _. Unit {0})
        (process_until lib callback (has_ack lib callback id)
          (add_u32 (now_of lib callback s.world) timeout) fuel (now_of lib callback s.world) success
          (record (after_reading lib callback s) { ack_packet_id = 0 }))
        _
        (process_until-Settles longest (has_ack lib callback id)
          (add_u32 (now_of lib callback s.world) timeout) fuel (now_of lib callback s.world) success
          (record (after_reading lib callback s) { ack_packet_id = 0 }) rounds (omega arith)
          (omega arith) (s.world, refl, refl))
        (λ status s' u. tt)

  -- `ProcessLoopWithTimeout` ends (or stops at a failed `assert`) within 1001 tests of its loop, when
  -- a round takes at least one and at most `longest` milliseconds and the clock does not wrap within
  -- the timeout and one such round.
  pub process_loop_with_timeout-Settles :
      (longest fuel : ℕ) (s : State W A)
      → RoundsTake longest
      → now_of lib callback s.world + process_loop_timeout_ms + longest < 2 ^ 32
      → process_loop_timeout_ms < fuel
      → Settles (λ _ _. Unit {0}) (process_loop_with_timeout lib callback fuel s)
  unfolding process_loop_with_timeout
  process_loop_with_timeout-Settles longest fuel s rounds early enough =
      Settles-elim (λ _ _. Unit {0}) (λ _ _. Unit {0})
        (process_until lib callback (λ _. false)
          (add_u32 (now_of lib callback s.world) process_loop_timeout_ms) fuel
          (now_of lib callback s.world) success (after_reading lib callback s))
        _
        (process_until-Settles longest (λ _. false)
          (add_u32 (now_of lib callback s.world) process_loop_timeout_ms) fuel
          (now_of lib callback s.world) success (after_reading lib callback s) rounds (omega arith)
          (omega arith) (s.world, refl, refl))
        (λ status s' u. tt)
