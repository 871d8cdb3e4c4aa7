-- ===== src/Agent/Thread/Laws.antt =====
-- When the thread of the agent ends, and what it leaves.
use embedded_provisioning_sd.Prelude.{
  ℕ, zero, suc, ◌+◌, ◌%◌, ◌^◌, ◌<◌, ◌≤◌, ◌≡◌, refl, inl, inr, Bool, true, false, not, ◌&&◌, some,
  arith, Bool-cases,
}
use embedded_provisioning_sd.Mqtt.Library.{success, is_success, Credentials, Library}
use embedded_provisioning_sd.Mqtt.Session.{
  retry_backoff_base_ms, retry_max_backoff_delay_ms, retry_max_attempts, connect_loop,
  connect_with_retries,
}
use embedded_provisioning_sd.Mqtt.Session.Laws.{CountsAttempts, BackoffStatus-cases}
use embedded_provisioning_sd.Agent.Thread.{
  AgentLibrary, Round, stops, goes_on, prv_mqtt_connect, connect_to_broker, connect_again,
  loop_round, run_rounds, thread_loop,
}

module _ {W B : Type 0} (lib : Library W B) (agent : AgentLibrary W)
    (credentials : Credentials) where
  -- A connection to the broker was tried, and behind it the MQTT session, from which the thread goes on.
  abbrev Reconnects : Bool → W → W → Type 0
  Reconnects clean w w' =
      (r : Bool × W) × (connect_to_broker lib agent credentials w ≡ some r)
      × (w' ≡ (prv_mqtt_connect lib agent clean (agent.set_not_connected r.1)).1)

  -- From one command loop to the next. Behind an error the transport is disconnected, and transport and
  -- session are connected again; behind a termination the disconnection of MQTT had failed.
  pub data Step (w : W) (w' : W) : Type 0 where
    reconnects :
        is_success (agent.command_loop w).0 ≡ false
        → Reconnects false (lib.tls_disconnect (agent.command_loop w).1) w'
        → Step w w'
    stays :
        is_success (agent.command_loop w).0 ≡ true
        → agent.is_not_connected (agent.command_loop w).1 ≡ false
        → is_success (agent.mqtt_disconnect (agent.command_loop w).1).0 ≡ false
        → w' ≡ lib.tls_disconnect (agent.mqtt_disconnect (agent.command_loop w).1).1
        → Step w w'

  -- From the last command loop to the end: it gave MQTTSuccess behind a disconnection, or behind a
  -- termination whose disconnection of MQTT succeeded. The transport is disconnected last.
  pub data Last (w : W) (w' : W) : Type 0 where
    disconnected :
        is_success (agent.command_loop w).0 ≡ true
        → agent.is_not_connected (agent.command_loop w).1 ≡ true
        → w' ≡ lib.tls_disconnect (agent.command_loop w).1
        → Last w w'
    terminated :
        is_success (agent.command_loop w).0 ≡ true
        → agent.is_not_connected (agent.command_loop w).1 ≡ false
        → is_success (agent.mqtt_disconnect (agent.command_loop w).1).0 ≡ true
        → w' ≡ lib.tls_disconnect (agent.mqtt_disconnect (agent.command_loop w).1).1
        → Last w w'

  -- So many steps, and then the end.
  abbrev pub Steps : ℕ → W → W → Type 0
  Steps zero w w' = Last w w'
  Steps (suc n) w w' = (v : W) × Step w v × Steps n v w'

  -- The thread connected, made at most so many steps, and came to the end.
  abbrev pub Stopped : ℕ → W → W → Type 0
  Stopped most w w' = (v : W) × Reconnects true w v × ((n : ℕ) × (n ≤ most) × Steps n v w')

  -- The errors that are still to come in a state: a command loop that does not give MQTTSuccess, and a
  -- disconnection that fails, is one of them, and the other calls that the thread makes add none.
  pub record CountsErrors (errors : W → ℕ) : Type 0 where
    pub command_loop_keeps : (w : W) → errors (agent.command_loop w).1 ≤ errors w
    pub command_loop_fails :
        (w : W)
        → is_success (agent.command_loop w).0 ≡ false
        → errors (agent.command_loop w).1 < errors w
    pub mqtt_disconnect_keeps : (w : W) → errors (agent.mqtt_disconnect w).1 ≤ errors w
    pub mqtt_disconnect_fails :
        (w : W)
        → is_success (agent.mqtt_disconnect w).0 ≡ false
        → errors (agent.mqtt_disconnect w).1 < errors w
    pub tls_disconnect_keeps : (w : W) → errors (lib.tls_disconnect w) ≤ errors w
    pub tls_connect_keeps : (c : Credentials) (w : W) → errors (lib.tls_connect c w).1 ≤ errors w
    pub random_keeps : (w : W) → errors (lib.random w).1 ≤ errors w
    pub sleep_keeps : (ms : ℕ) (w : W) → errors (lib.sleep ms w) ≤ errors w
    pub set_not_connected_keeps : (w : W) → errors (agent.set_not_connected w) ≤ errors w
    pub mqtt_connect_keeps :
        (clean : Bool) (w : W) → errors (agent.mqtt_connect clean w).2 ≤ errors w
    pub resume_session_keeps :
        (present : Bool) (w : W) → errors (agent.resume_session present w).1 ≤ errors w

  module _ (errors : W → ℕ) (laws : CountsErrors errors) (left : B → ℕ)
      (counts : CountsAttempts lib left) where
    -- A retried connection ends, and adds no error.
    connect_loop_keeps :
        (fuel : ℕ) (b : B) (w : W)
        → left b < fuel
        → (r : Bool × W) × (connect_loop lib credentials fuel b w ≡ some r)
          × (errors r.1 ≤ errors w)
    unfolding connect_loop
    connect_loop_keeps zero b w enough = absurd (omega arith)
    connect_loop_keeps (suc fuel) b w enough =
        let (connected, w₁) = lib.tls_connect credentials w in
        let (random, w₂) = lib.random w₁ in
        let (status, delay, b') = lib.next_backoff (random % 2 ^ 32) b in
        let l₁ = laws.tls_connect_keeps credentials w in
        let l₂ = laws.random_keeps w₁ in
        elim (Bool-cases connected) [
          | inl there ↦ rw (there, connect_loop) ((true, w₁), refl, l₁)
          | inr failed ↦ elim (BackoffStatus-cases status) [
            | inl again ↦
                let (r, e, l) =
                  connect_loop_keeps fuel b' (lib.sleep delay w₂)
                    (omega (arith, counts.uses (random % 2 ^ 32) b again)) in
                rw (failed, again, connect_loop) (r, e, omega (arith, laws.sleep_keeps delay w₂))
            | inr over ↦ rw (failed, over, connect_loop) ((false, w₂), refl, omega arith)
          ]
        ]

    prv_mqtt_connect_keeps :
        (clean : Bool) (w : W) → errors (prv_mqtt_connect lib agent clean w).1 ≤ errors w
    unfolding prv_mqtt_connect
    prv_mqtt_connect_keeps clean w =
        let (status, present, w₁) = agent.mqtt_connect clean w in
        elim (Bool-cases (is_success status && not clean)) [
          | inl resumes ↦
              rw (prv_mqtt_connect, resumes)
                (omega
                  (arith, laws.mqtt_connect_keeps clean w, laws.resume_session_keeps present w₁))
          | inr done ↦ rw (prv_mqtt_connect, done) (laws.mqtt_connect_keeps clean w)
        ]

    connect_again_keeps :
        (clean : Bool) (w : W)
        → (w' : W) × (connect_again lib agent credentials clean w ≡ some w')
          × (errors w' ≤ errors w)
          × Reconnects clean w w'
    unfolding connect_again connect_with_retries
    connect_again_keeps clean w =
        let (r, e, l) =
          connect_loop_keeps (retry_max_attempts + 1)
            (lib.init_backoff retry_backoff_base_ms retry_max_backoff_delay_ms retry_max_attempts) w
            (omega (
              arith,
              counts.fresh retry_backoff_base_ms retry_max_backoff_delay_ms retry_max_attempts,
            )) in
        rw (connect_again, connect_with_retries, e)
          (
            (prv_mqtt_connect lib agent clean (agent.set_not_connected r.1)).1,
            refl,
            omega (
              arith,
              prv_mqtt_connect_keeps clean (agent.set_not_connected r.1),
              laws.set_not_connected_keeps r.1,
            ),
            (r, refl, refl),
          )

    -- A round that goes on leaves fewer errors.
    abbrev Ends : W → Round W → Type 0
    Ends w (stops w') = Last w w'
    Ends w (goes_on w') = Step w w' × (errors w' < errors w)

    loop_round-Ends :
        (w : W) → (o : Round W) × (loop_round lib agent credentials w ≡ some o) × Ends w o
    unfolding loop_round
    loop_round-Ends w =
        let (status, w₁) = agent.command_loop w in
        let (status', w₂) = agent.mqtt_disconnect w₁ in
        let l₁ = laws.command_loop_keeps w in
        elim (Bool-cases (is_success status)) [
          | inr failed ↦
              let (w', e, l, how) = connect_again_keeps false (lib.tls_disconnect w₁) in
              (
                goes_on w',
                simp (loop_round, failed, e),
                (
                  reconnects failed how,
                  omega (arith, laws.command_loop_fails w failed, laws.tls_disconnect_keeps w₁),
                ),
              )
          | inl ended ↦ elim (Bool-cases (agent.is_not_connected w₁)) [
            | inl gone ↦ (
              stops (lib.tls_disconnect w₁),
              simp (loop_round, ended, gone),
              disconnected ended gone refl,
            )
            | inr there ↦ elim (Bool-cases (is_success status')) [
              | inl left_broker ↦ (
                stops (lib.tls_disconnect w₂),
                simp (loop_round, ended, there, left_broker),
                terminated ended there left_broker refl,
              )
              | inr stuck ↦ (
                goes_on (lib.tls_disconnect w₂),
                simp (loop_round, ended, there, stuck),
                (
                  stays ended there stuck refl,
                  omega (arith, laws.mqtt_disconnect_fails w₁ stuck, laws.tls_disconnect_keeps w₂),
                ),
              )
            ]
          ]
        ]

    -- The rounds end in a state that steps lead to, each for an error.
    abbrev RoundsEnd : ℕ → W → Type 0
    RoundsEnd fuel w =
        (w' : W) × (run_rounds lib agent credentials fuel w ≡ some w')
        × ((n : ℕ) × (n ≤ errors w) × Steps n w w')

    -- A round before the others.
    run_rounds-round :
        (fuel : ℕ) (w : W) (o : Round W)
        → loop_round lib agent credentials w ≡ some o
        → Ends w o
        → ((w₁ : W) → errors w₁ < errors w → RoundsEnd fuel w₁)
        → RoundsEnd (suc fuel) w
    unfolding run_rounds
    run_rounds-round fuel w (stops w') e last rest =
        rw (run_rounds, e) (w', refl, (0, omega arith, last))
    run_rounds-round fuel w (goes_on w₁) e (step, fewer) rest =
        let (w', e', (n, few, steps)) = rest w₁ fewer in
        rw (run_rounds, e) (w', e', (suc n, omega arith, (w₁, step, steps)))

    run_rounds-RoundsEnd : (fuel : ℕ) (w : W) → errors w < fuel → RoundsEnd fuel w
    run_rounds-RoundsEnd zero w enough = absurd (omega arith)
    run_rounds-RoundsEnd (suc fuel) w enough =
        let (o, e, h) = loop_round-Ends w in
        run_rounds-round fuel w o e h (λ w₁ fewer. run_rounds-RoundsEnd fuel w₁ (omega arith))

    -- Where the backoff library counts its attempts and the errors still to come are counted, each error
    -- of the command loop or of a disconnection being one and no other call adding any,
    -- `iotshdDev_MQTTAgentThreadLoop` ends within one more round than the errors, and gives MQTTSuccess.
    -- First it tries a connection and a clean session. Behind each command loop that gave an error it
    -- disconnects the transport and tries a connection and a session that is not clean; behind each
    -- termination whose disconnection of MQTT failed it disconnects the transport; then the next command
    -- loop runs. These are at most as many as the errors. The last command loop gave MQTTSuccess, and was
    -- either disconnected or terminated with a disconnection of MQTT that succeeded; the transport is
    -- disconnected behind it, and that is the end.
    pub thread_loop-Stopped :
        (fuel : ℕ) (w : W)
        → errors w < fuel
        → (w' : W) × (thread_loop lib agent credentials fuel w ≡ some (success, w'))
          × Stopped (errors w) w w'
    unfolding thread_loop
    thread_loop-Stopped fuel w enough =
        let (w₁, e, l, how) = connect_again_keeps true w in
        let (w₂, e', (n, few, steps)) = run_rounds-RoundsEnd fuel w₁ (omega arith) in
        rw (thread_loop, e, e') (w₂, refl, (w₁, how, (n, omega arith, steps)))
