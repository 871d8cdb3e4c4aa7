-- ===== src/Provisioning/Response/Laws.antt =====
-- fleet_provisioning_keys_cert_demo.c: what the answers of `waitForResponse` mean.
use embedded_provisioning_sd.Prelude.{
  ℕ, zero, suc, ◌+◌, ◌^◌, ◌≤◌, ◌≡◌, refl, subst, Bool, true, false, not, ◌&&◌, Option, none, some,
  List, [], ◌∷◌, ltb, inl, inr, Bool-cases, All, add_u32,
}
use embedded_provisioning_sd.Mqtt.Library.{
  PublishInfo, Packet, MqttStatus, success, may_go_on, Library, State, done, Ends, Ends-elim,
}
use embedded_provisioning_sd.Mqtt.Callback.{call_app, mqtt_callback, deliver}
use embedded_provisioning_sd.Mqtt.Callback.Cases.{mqtt_callback_cases}
use embedded_provisioning_sd.Mqtt.Wait.{
  get_time, turn, process_until, process_loop_with_timeout, process_loop_timeout_ms,
}
use embedded_provisioning_sd.Mqtt.Wait.Laws.{now_of, after_reading, loop_wraps}
use embedded_provisioning_sd.Provisioning.Response.{
  response_not_received, FleetTopic, create_keys_and_cert_accepted, create_keys_and_cert_rejected,
  register_thing_accepted, register_thing_rejected, other_topic, App, MatchFleetTopic, on_topic,
  provisioning_publish_callback, is_accepted, wait_for_response,
}

-- The topic is one of the two on which a request is accepted.
abbrev pub is_accepted_topic : Option FleetTopic → Bool
is_accepted_topic none = false
is_accepted_topic (some create_keys_and_cert_accepted) = true
is_accepted_topic (some create_keys_and_cert_rejected) = false
is_accepted_topic (some register_thing_accepted) = true
is_accepted_topic (some register_thing_rejected) = false
is_accepted_topic (some other_topic) = false

module _ {W B : Type 0} (lib : Library W B) (match_topic : MatchFleetTopic) where
  abbrev callback : App → PublishInfo → ℕ → App
  callback = provisioning_publish_callback match_topic

  abbrev pub accepts : Option PublishInfo → Bool
  accepts none = false
  accepts (some info) = is_accepted_topic (match_topic info.topic_name info.topic_name_length)

  -- No round of `MQTT_ProcessLoop` brings a publish on an accepted topic.
  abbrev pub NeverAccepts : Type 0
  NeverAccepts = (w : W) → All (λ p. accepts p.publish ≡ false) (lib.process_loop w).1

  abbrev Refused : {R : Type 0} → R → State W App → Type 0
  Refused r s = is_accepted s.app.response_status ≡ false

  on_topic_refused :
      (o : Option FleetTopic) (info : PublishInfo) (app : App)
      → is_accepted app.response_status ≡ false
      → is_accepted_topic o ≡ false
      → is_accepted (on_topic o info app).response_status ≡ false
  on_topic_refused none info app h n = h
  on_topic_refused (some create_keys_and_cert_accepted) info app h n = cc
  on_topic_refused (some create_keys_and_cert_rejected) info app h n = refl
  on_topic_refused (some register_thing_accepted) info app h n = cc
  on_topic_refused (some register_thing_rejected) info app h n = refl
  on_topic_refused (some other_topic) info app h n = h

  call_app-Refused :
      (info : PublishInfo) (id : ℕ) (s : State W App)
      → Refused tt s
      → accepts (some info) ≡ false
      → Refused tt (call_app callback info id s)
  unfolding provisioning_publish_callback
  call_app-Refused info id s h n = elim (Bool-cases s.has_callback) [
    | inl there ↦
        simp there
          (on_topic_refused (match_topic info.topic_name info.topic_name_length) info s.app h n)
    | inr absent ↦ simp absent h
  ]

  deliver-Refused :
      (ps : List Packet) (s : State W App)
      → Refused tt s
      → All (λ p. accepts p.publish ≡ false) ps
      → Ends Refused (deliver callback ps s)
  unfolding deliver
  deliver-Refused [] s h none_accept = h
  deliver-Refused (p ∷ ps) s h none_accept =
      Ends-elim Refused Refused (mqtt_callback callback p s) (λ _. deliver callback ps)
        (mqtt_callback_cases callback (Ends Refused) p s tt
          (λ info there e.
            call_app-Refused info p.packet_id s h
              (subst (λ o. accepts o ≡ false) there none_accept.0))
          (λ e a. h) (λ e a n. h) h)
        (λ u s' h'. deliver-Refused ps s' h' none_accept.1)

  turn-Refused :
      (s : State W App) → NeverAccepts → Refused tt s → Ends Refused (turn lib callback s)
  unfolding turn get_time
  turn-Refused s never h =
      let r = lib.process_loop s.world in
      Ends-elim Refused Refused (deliver callback r.1 (record s { world = r.2 }))
        (λ u s'. done (r.0, (get_time lib callback s').0) (get_time lib callback s').1)
        (deliver-Refused r.1 (record s { world = r.2 }) h (never s.world)) (λ u s' h'. h')

  process_until-Refused :
      (deadline fuel now : ℕ) (status : MqttStatus) (s : State W App)
      → NeverAccepts
      → Refused tt s
      → Ends Refused (process_until lib callback (λ _. false) deadline fuel now status s)
  unfolding process_until
  process_until-Refused deadline zero now status s never h = tt
  process_until-Refused deadline (suc fuel) now status s never h =
      elim (Bool-cases (not false && (ltb now deadline && may_go_on status))) [
        | inr stop ↦ rw (stop, process_until) h
        | inl more ↦
            rw (more, process_until)
              (Ends-elim Refused Refused (turn lib callback s)
                (λ r s'. process_until lib callback (λ _. false) deadline fuel r.1 r.0 s')
                (turn-Refused s never h)
                (λ r s' h'. process_until-Refused deadline fuel r.1 r.0 s' never h'))
      ]

  loop-Refused :
      (fuel : ℕ) (s : State W App)
      → NeverAccepts
      → Refused tt s
      → Ends Refused (process_loop_with_timeout lib callback fuel s)
  unfolding process_loop_with_timeout
  loop-Refused fuel s never h =
      Ends-elim Refused Refused
        (process_until lib callback (λ _. false)
          (add_u32 (now_of lib callback s.world) process_loop_timeout_ms) fuel
          (now_of lib callback s.world) success (after_reading lib callback s))
        _
        (process_until-Refused (add_u32 (now_of lib callback s.world) process_loop_timeout_ms) fuel
          (now_of lib callback s.world) success (after_reading lib callback s) never h)
        (λ status s' h'. h')

  abbrev pub waiting : State W App → State W App
  waiting s =
      let app = s.app in record s { app = record app { response_status = response_not_received } }

  -- When no round of `MQTT_ProcessLoop` brings a publish on an accepted topic, `waitForResponse` does
  -- not return true, whatever the status was before.
  pub wait_for_response_needs_accept :
      (fuel : ℕ) (s : State W App)
      → NeverAccepts
      → Ends (λ b _. b ≡ false) (wait_for_response lib match_topic fuel s)
  unfolding wait_for_response
  wait_for_response_needs_accept fuel s never =
      Ends-elim Refused (λ b _. b ≡ false) (process_loop_with_timeout lib callback fuel (waiting s))
        _ (loop-Refused fuel (waiting s) never refl) (λ ok s' h. h)

  -- If the 32-bit clock would pass 2 ^ 32 milliseconds within the second that `waitForResponse` waits,
  -- it returns false after a single reading of the clock, without a call of `MQTT_ProcessLoop`.
  pub wait_for_response_wraps :
      (fuel : ℕ) (s : State W App)
      → 2 ^ 32 ≤ now_of lib callback s.world + process_loop_timeout_ms
      → wait_for_response lib match_topic (suc fuel) s
        ≡ done false (after_reading lib callback (waiting s))
  unfolding wait_for_response
  wait_for_response_wraps fuel s wraps =
      rw (loop_wraps lib callback fuel (waiting s) wraps, wait_for_response) refl
