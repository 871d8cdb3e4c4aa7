-- ===== src/Mqtt/Session/Laws.antt =====
-- When a session is established, and what that leaves of the publishes that were not acknowledged.
use embedded_provisioning_sd.Prelude.{
  ℕ, zero, suc, ◌+◌, ◌%◌, ◌^◌, ◌<◌, ◌≡◌, refl, ap, ◌⊎◌, inl, inr, Bool, true, false, some, map,
  arith, Bool-cases,
}
use embedded_provisioning_sd.Mqtt.Library.{
  is_success, BackoffStatus, backoff_success, retries_exhausted, Credentials, Library, State,
}
use embedded_provisioning_sd.Mqtt.Outgoing.{free_packet}
use embedded_provisioning_sd.Mqtt.Outgoing.Laws.{resent, count_id}
use embedded_provisioning_sd.Mqtt.Session.{
  retry_backoff_base_ms, retry_max_backoff_delay_ms, retry_max_attempts, connect_loop,
  connect_with_retries, disconnect_mqtt_session,
}

pub BackoffStatus-cases : (s : BackoffStatus) → (s ≡ backoff_success) ⊎ (s ≡ retries_exhausted)
BackoffStatus-cases backoff_success = inl refl
BackoffStatus-cases retries_exhausted = inr refl

module _ {W B : Type 0} (lib : Library W B) where
  -- The documented behaviour of the backoff library: `left` attempts remain in a context, a fresh one
  -- has those asked for, and each success uses one up.
  pub record CountsAttempts (left : B → ℕ) : Type 0 where
    pub fresh : (base max attempts : ℕ) → left (lib.init_backoff base max attempts) ≡ attempts
    pub uses :
        (random : ℕ) (b : B)
        → (lib.next_backoff random b).0 ≡ backoff_success
        → left (lib.next_backoff random b).2 < left b

  -- The loop of the retries ends, with the last connection if that succeeded.
  pub connect_loop_ends :
      (left : B → ℕ) (credentials : Credentials) (fuel : ℕ) (b : B) (w : W)
      → CountsAttempts left
      → left b < fuel
      → (r : Bool × W) × (connect_loop lib credentials fuel b w ≡ some r)
        × ((r.0 ≡ false) ⊎ ((r.0 ≡ true) × ((v : W) × (lib.tls_connect credentials v ≡ r))))
  unfolding connect_loop
  connect_loop_ends left credentials zero b w counts enough = absurd (omega arith)
  connect_loop_ends left credentials (suc fuel) b w counts enough =
      let (connected, w₁) = lib.tls_connect credentials w in
      let (random, w₂) = lib.random w₁ in
      let (status, delay, b') = lib.next_backoff (random % 2 ^ 32) b in
      elim (Bool-cases connected) [
        | inl there ↦
            let same : lib.tls_connect credentials w ≡ (true, w₁) = ap (λ t. (t, w₁)) there in
            rw (there, connect_loop) ((true, w₁), refl, inr (refl, (w, same)))
        | inr failed ↦ elim (BackoffStatus-cases status) [
          | inl again ↦
              rw (failed, again, connect_loop)
                (connect_loop_ends left credentials fuel b' (lib.sleep delay w₂) counts
                  (omega (arith, counts.uses (random % 2 ^ 32) b again)))
          | inr over ↦ rw (failed, over, connect_loop) ((false, w₂), refl, inl refl)
        ]
      ]

  -- `connectToBrokerWithBackoffRetries` ends within six attempts at a connection, one and one behind
  -- each of five backoffs, where the backoff library counts its attempts. What succeeded is the last.
  pub connect_with_retries_ends :
      (left : B → ℕ) (credentials : Credentials) (w : W)
      → CountsAttempts left
      → (r : Bool × W) × (connect_with_retries lib credentials (retry_max_attempts + 1) w ≡ some r)
        × ((r.0 ≡ false) ⊎ ((r.0 ≡ true) × ((v : W) × (lib.tls_connect credentials v ≡ r))))
  unfolding connect_with_retries
  connect_with_retries_ends left credentials w counts =
      connect_loop_ends left credentials (retry_max_attempts + 1) _ w counts (
        omega
          (arith, counts.fresh retry_backoff_base_ms retry_max_backoff_delay_ms retry_max_attempts))

  module _ {A : Type 0} where
    -- What `EstablishMqttSession` leaves: with a session, the table is cleared, or each publish in it is
    -- marked as a duplicate, and no packet id has entered it; without one, table and flag are as before.
    abbrev pub Established : State W A → Bool → State W A → Type 0
    Established s true s' =
        (s'.session_established ≡ true)
        × (s'.has_callback ≡ true)
        × ((s'.outgoing ≡ map (λ _. free_packet) s.outgoing)
            ⊎ (s'.outgoing ≡ map (resent lib) s.outgoing))
    Established s false s' =
        ((s'.session_established ≡ s.session_established) × (s'.outgoing ≡ s.outgoing))
        ⊎ ((s'.session_established ≡ true)
            × ((a : ℕ) → count_id a s'.outgoing ≡ count_id a s.outgoing))

    -- With the flag of the session set, `DisconnectMqttSession` returns whether DISCONNECT was sent,
    -- closes the TLS connection and touches no other global: the flag stays set, so a further call
    -- sends DISCONNECT again.
    pub disconnect_mqtt_session_lem :
        (s : State W A)
        → s.session_established ≡ true
        → let (ok, s') = disconnect_mqtt_session lib s in
          (ok ≡ is_success (lib.mqtt_disconnect s.world).0)
          × (s' ≡ record s { world = lib.tls_disconnect (lib.mqtt_disconnect s.world).1 })
          × ((disconnect_mqtt_session lib s').0 ≡ is_success (lib.mqtt_disconnect s'.world).0)
    unfolding disconnect_mqtt_session
    disconnect_mqtt_session_lem s e = simp e (refl, refl, refl)
