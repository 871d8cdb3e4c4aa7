-- ===== src/Provisioning/Flow/Laws.antt =====
-- fleet_provisioning_keys_cert_demo.c: what a failed part does to the rest of `ProvisionDevicePKCS11WithFP`.
use embedded_provisioning_sd.Prelude.{
  ◌≡◌, refl, ◌∙◌, ℕ, suc, ◌+◌, Bool, true, false, List, [], ◌∷◌, ltb, if◌then◌else◌, take, All,
}
use embedded_provisioning_sd.Mqtt.Library.{Credentials, Library, State, Run, done}
use embedded_provisioning_sd.Mqtt.Session.{disconnect_mqtt_session}
use embedded_provisioning_sd.Provisioning.Serializer.{KeyCert, CborParser, CborEncoder}
use embedded_provisioning_sd.Provisioning.Response.{App, MatchFleetTopic}
use embedded_provisioning_sd.Provisioning.Stage.{
  Config, KeyStore, max_loop_count, retry_delay_ms, Local, reset_lengths, Stage, run_stages,
}
use embedded_provisioning_sd.Provisioning.Flow.{
  connect, parse_response, save_private_key, save_certificate, make_request, parse_thing_name,
  leave_register_topics, disconnect, claim_stages, iteration, provision_loop, provision_device,
}
use embedded_provisioning_sd.Provisioning.Stage.Guarded.{
  IsGuarded, guarded-IsGuarded, run_stages-step, run_stages-fails,
}

module _ {W B V E : Type 0} (lib : Library W B) (parser : CborParser V) (encoder : CborEncoder E)
    (store : KeyStore W) (match_topic : MatchFleetTopic) (config : Config) (fuel : ℕ) where
  abbrev S : Type 0
  S = State W App

  abbrev parts : List (Stage S)
  parts = claim_stages lib parser encoder store match_topic config fuel

  abbrev body : Stage S
  body = iteration lib parser encoder store match_topic config fuel

  abbrev close : Stage S
  close = disconnect lib parser encoder store match_topic config fuel

  abbrev provision : KeyCert → S → Run S Bool
  provision = provision_device lib parser encoder store match_topic config fuel

  connect-IsGuarded :
      (c : Credentials) → IsGuarded (connect lib parser encoder store match_topic config fuel c)
  unfolding connect
  connect-IsGuarded c l s failed = simp failed

  claim_stages-IsGuarded : All (IsGuarded {S = S}) parts
  unfolding claim_stages parse_response save_private_key save_certificate make_request
      parse_thing_name leave_register_topics
  claim_stages-IsGuarded = (
    connect-IsGuarded config.claim_credentials,
    (
      guarded-IsGuarded _,
      (
        guarded-IsGuarded _,
        (
          guarded-IsGuarded _,
          (
            (λ l s e. simp e),
            (
              (λ l s e. simp e),
              (
                (λ l s e. simp e),
                (
                  guarded-IsGuarded _,
                  (
                    (λ l s e. simp e),
                    (
                      guarded-IsGuarded _,
                      (
                        guarded-IsGuarded _,
                        (guarded-IsGuarded _, ((λ l s e. simp e), ((λ l s e. simp e), tt))),
                      ),
                    ),
                  ),
                ),
              ),
            ),
          ),
        ),
      ),
    ),
  )

  abbrev closed : Local → S → S
  closed l s = if l.connection_established then (disconnect_mqtt_session lib s).1 else s

  closed_cases :
      (at : Bool → Local) (there : Bool) (s t : S)
      → (if there then done (at false) t else done (at there) s)
        ≡ done (at false) (if there then t else s)
  closed_cases at true s t = refl
  closed_cases at false s t = refl

  -- `disconnect` closes the connection, if there is one, and leaves `status`.
  disconnect_lem :
      (l : Local) (s : S)
      → close l s ≡ done (record l { connection_established = false }) (closed l s)
  unfolding disconnect
  disconnect_lem l s =
      closed_cases (λ b. record l { connection_established = b }) l.connection_established s
        (disconnect_mqtt_session lib s).1

  tail_skipped :
      (l : Local) (s : S)
      → l.status ≡ false
      → run_stages
          (close
            ∷ connect lib parser encoder store match_topic config fuel config.device_credentials
            ∷ close
            ∷ [])
          l
          s
        ≡ done (record l { connection_established = false }) (closed l s)
  unfolding run_stages
  tail_skipped l s failed =
      let l' = record l { connection_established = false } in
      let again =
        connect lib parser encoder store match_topic config fuel config.device_credentials in
      run_stages-step close (again ∷ close ∷ []) l l' s (closed l s) (disconnect_lem l s)
      ∙ run_stages-step again (close ∷ []) l' l' (closed l s) (closed l s)
          (connect-IsGuarded config.device_credentials l' (closed l s) failed)
      ∙ run_stages-step close [] l' l' (closed l s) (closed l s) (disconnect_lem l' (closed l s))

  -- Once a step of the claim part of an iteration has failed, no later step is attempted: the iteration
  -- ends with `status` false, and at most closes the connection that was made.
  pub iteration_failed :
      (n : ℕ) (l l' : Local) (s s' : S)
      → run_stages (take n parts) (reset_lengths l) s ≡ done l' s'
      → l'.status ≡ false
      → body l s
        ≡ done
            (record l' { connection_established = false })
            (if l'.connection_established then (disconnect_mqtt_session lib s').1 else s')
  unfolding iteration run_stages
  iteration_failed n l l' s s' ends failed =
      run_stages-fails parts
        (close
          ∷ connect lib parser encoder store match_topic config fuel config.device_credentials
          ∷ close
          ∷ [])
        n (reset_lengths l) l' s s' claim_stages-IsGuarded ends failed
      ∙ tail_skipped l' s' failed

  abbrev again : S → S
  again s = record s { world = lib.sleep retry_delay_ms s.world }

  idle_cases :
      (at : Bool → Local) (there : Bool) (s t : S)
      → there ≡ false
      → ◌≡◌ {A = Run S Local} (done (at false) (if there then t else s)) (done (at there) s)
  idle_cases at true s t e = cc
  idle_cases at false s t e = refl

  start :
      (l : Local) (s : S) → run_stages (take 0 parts) (reset_lengths l) s ≡ done (reset_lengths l) s
  unfolding run_stages
  start l s = refl

  -- Behind a failure with no connection left an iteration does nothing.
  iteration_idle :
      (l : Local) (s : S)
      → l.status ≡ false
      → l.connection_established ≡ false
      → body l s ≡ done (reset_lengths l) s
  iteration_idle l s failed none_left =
      iteration_failed 0 l (reset_lengths l) s s (start l s) failed
      ∙ idle_cases (λ b. record (reset_lengths l) { connection_established = b })
          l.connection_established s (disconnect_mqtt_session lib s).1 none_left

  abbrev loop : ℕ → ℕ → Stage S
  loop = provision_loop lib parser encoder store match_topic config fuel

  -- A failed iteration: the loop goes on behind a delay, or ends.
  loop-again :
      (rounds count : ℕ) (l l' : Local) (s s' : S)
      → body l s ≡ done l' s'
      → l'.status ≡ false
      → ltb (count + 1) max_loop_count ≡ true
      → loop (suc rounds) count l s ≡ loop rounds (count + 1) l' (again s')
  unfolding provision_loop
  loop-again rounds count l l' s s' ends failed more = simp (ends, provision_loop, failed, more)

  loop_last :
      (rounds count : ℕ) (l l' : Local) (s s' : S)
      → body l s ≡ done l' s'
      → l'.status ≡ false
      → ltb (count + 1) max_loop_count ≡ false
      → loop (suc rounds) count l s ≡ done l' s'
  unfolding provision_loop
  loop_last rounds count l l' s s' ends failed more = simp (ends, provision_loop, failed, more)

  abbrev begin : KeyCert → Local
  begin k = record { status = true; connection_established = false; key_cert = k }

  provision_idle :
      (k : KeyCert) (l : Local) (s s' : S)
      → body (begin k) s ≡ done l s'
      → l.status ≡ false
      → l.connection_established ≡ false
      → provision k s ≡ done false (again (again s'))
  unfolding provision_device
  provision_idle k l s s' ends failed none_left =
      let e =
        loop-again 2 0 (begin k) l s s' ends failed refl
        ∙ loop-again 1 1 l (reset_lengths l) (again s') (again s')
            (iteration_idle l (again s') failed none_left) failed refl
        ∙ loop_last 0 2 (reset_lengths l) (reset_lengths (reset_lengths l)) (again (again s'))
            (again (again s'))
            (iteration_idle (reset_lengths l) (again (again s')) failed none_left) failed refl in
      simp (e, provision_device, failed)

  -- If the claim part of the first iteration fails, at whichever of its steps, the two retries attempt
  -- nothing: the call closes the connection that is open, sleeps twice, and returns -1.
  pub provision_device_failed :
      (n : ℕ) (k : KeyCert) (l' : Local) (s s' : S)
      → run_stages (take n parts) (reset_lengths (begin k)) s ≡ done l' s'
      → l'.status ≡ false
      → provision k s
        ≡ done false (
            again (
              again (if l'.connection_established then (disconnect_mqtt_session lib s').1 else s')))
  provision_device_failed n k l' s s' ends failed =
      provision_idle k (record l' { connection_established = false }) s (closed l' s')
        (iteration_failed n (begin k) l' s s' ends failed) failed refl
