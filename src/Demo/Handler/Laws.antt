-- ===== src/Demo/Handler/Laws.antt =====
-- What `prvDataModelHandlerThread` prints behind a subscription and behind the end of one.
use embedded_provisioning_sd.Prelude.{
  ℕ, ◌≡◌, ◌≢◌, ap, ◌∙◌, inl, inr, Bool, true, false, some, List, [], ◌∷◌, ◌++◌, arith, Bool-cases,
  ◌==◌, if◌then◌else◌, All,
}
use embedded_provisioning_sd.Mqtt.Library.{MqttStatus, success, PublishInfo}
use embedded_provisioning_sd.Agent.Subscriptions.{
  SubscriptionElement, is_free, has_filter, add_subscription,
}
use embedded_provisioning_sd.Agent.Subscriptions.Dispatch.{
  calls_where, has_call, wants, handle-remove, ReadsPrefix, handle-add,
}
use embedded_provisioning_sd.Agent.Thread.{incoming_publish_callback}
use embedded_provisioning_sd.Agent.Calls.{
  complete, run_callback, unsubscribe_command_callback, add_subscription_sync,
  remove_subscription_sync,
}
use embedded_provisioning_sd.Agent.Calls.Laws.{
  add_subscription_sync_lem, remove_subscription_sync_lem,
}
use embedded_provisioning_sd.Demo.Handler.{
  test_topic, publish_info, expected_received, expected_not_received, not_expected_received,
  not_expected_not_received, Turn, Handler, goes, Setting, deliver, take_turn, subscribe,
  unsubscribe, publish_and_report, ◌>>◌,
}
use embedded_provisioning_sd.Demo.Handler.Delivery.{deliver-Kept, NoCall, calls_for}
use embedded_provisioning_sd.Demo.Handler.Publish.{
  publishing, sleeping, completing, report_lem, called-some, back_lem, none_lem,
}

module _ {W : Type 0} (e : Setting W) (matches : List ℕ → ℕ → List ℕ → ℕ → Bool)
    (matched : e.match_topic ≡ (λ t n f m. some (matches t n f m))) where
  -- The agent takes the subscription and the publish, and completes both, the subscription with
  -- MQTTSuccess; `addSubscription` succeeds; and the publish comes back while the thread sleeps, the first
  -- of what does. Then the expected message is reported, whatever else comes in. The event is clear at the
  -- start, the topic matches itself, and `MQTT_MatchTopic` reads no more of a filter than its length.
  pub subscribe-publish :
      (h : Handler W) (ret n m : ℕ) (status : MqttStatus) (infos₁ infos₂ infos₃ : List PublishInfo)
      (ts : List Turn)
      → h.turns
        ≡ completing ret n success infos₁
          ∷ publishing m status infos₂
          ∷ sleeping (publish_info ∷ infos₃)
          ∷ ts
      → h.shared.sync_event.event_status ≡ false
      → ret ≢ 0
      → e.incoming_publish ≢ 0
      → ((w : W) → (e.agent.subscribe test_topic 4 5000 w).0 ≡ success)
      → ((w : W) → (e.agent.publish publish_info 100 w).0 ≡ success)
      → (add_subscription h.shared.subscriptions (some test_topic) 4 e.incoming_publish 0).0 ≡ true
      → matches test_topic 4 test_topic 4 ≡ true
      → ReadsPrefix matches test_topic 4
      → (h' : Handler W) × ((subscribe e
              >> publish_and_report e expected_received expected_not_received)
            h
          ≡ goes tt h')
        × (h'.reports ≡ h.reports ++ expected_received ∷ [])
  unfolding subscribe take_turn incoming_publish_callback
  subscribe-publish h ret n m status infos₁ infos₂ infos₃ ts turns clear failed there sub publ added
        own_topic reads =
      let infos = publish_info ∷ infos₃ in
      let rest = publishing m status infos₂ ∷ sleeping infos ∷ ts in
      let t = completing ret n success infos₁ in
      let r =
        add_subscription_sync e.agent test_topic e.incoming_publish 0 5000 h.world h.shared
          t.old_event t.rounds in
      let (ends, clear', subs) =
        add_subscription_sync_lem e.agent test_topic e.incoming_publish 0 5000 h.world h.shared n
          ret success (sub h.world) clear failed in
      let joined : Handler W = record h { turns = rest; shared = r.1; world = r.2 } in
      let h₁ = deliver e joined infos₁ in
      let first : subscribe e h ≡ goes tt h₁ =
        rw turns (called-some e t (record h { turns = rest }) r success ends) in
      let (shared₁, reports₁, turns₁) = deliver-Kept e infos₁ joined in
      let subs₁ = ap (λ x. x.subscriptions) shared₁ ∙ subs in
      let called_back : has_call (calls_for e h₁ publish_info) e.incoming_publish 0 ≡ true =
        rw (subs₁, matched)
          (handle-add matches test_topic 4 h.shared.subscriptions test_topic 4 e.incoming_publish 0
            reads own_topic (λ z. absurd (omega arith)) there added) in
      let (h', second, reports₂) =
        report_lem e expected_received expected_not_received h₁ m status infos₂ infos ts true turns₁
          (publ h₁.world) (ap (λ x. x.sync_event.event_status) shared₁ ∙ clear')
          (back_lem e h₁ 0 status infos₂ infos₃ ts called_back) in
      (h', rw first second, reports₂ ∙ ap (λ l. l ++ expected_received ∷ []) reports₁)

  -- Each element with the thread's callback has its topic as the filter.
  abbrev pub OnlyTest : List SubscriptionElement → Type 0
  OnlyTest = All (λ s. (s.callback == e.incoming_publish) ≡ true → has_filter s test_topic 4 ≡ true)

  calls_where-NoCall :
      (topic : List ℕ) (len : ℕ) (es : List SubscriptionElement)
      → OnlyTest es
      → NoCall e (
          calls_where
            (λ s. if has_filter s test_topic 4 then false else wants matches topic len s)
            es)
  calls_where-NoCall topic len [] only = tt
  calls_where-NoCall topic len (s ∷ es) (one, only) =
      let rest = calls_where-NoCall topic len es only in
      elim (Bool-cases (has_filter s test_topic 4)) [
        | inl same ↦ elim (Bool-cases (is_free s)) [
          | inl free ↦ rw free rest
          | inr used ↦ rw (used, same) rest
        ]
        | inr other ↦
            let not_own : (s.callback == e.incoming_publish) ≡ false =
              elim (Bool-cases (s.callback == e.incoming_publish)) [
                | inl own_call ↦ absurd (ground (arith, one own_call, other))
                | inr not_own ↦ not_own
              ] in
            elim (Bool-cases (is_free s)) [
              | inl free ↦ rw free rest
              | inr used ↦ elim (Bool-cases (wants matches topic len s)) [
                | inl hit ↦ rw (used, other, hit) (not_own, rest)
                | inr miss ↦ rw (used, other, miss) rest
              ]
            ]
      ]

  -- The agent takes the end of the subscription and the publish, and completes both, the first with
  -- MQTTSuccess; and the thread's callback has no other topic. Then no message is reported, whatever
  -- comes in behind.
  pub unsubscribe-publish :
      (h : Handler W) (ret n m : ℕ) (status : MqttStatus) (infos₁ infos₂ infos₃ : List PublishInfo)
      (ts : List Turn)
      → h.turns
        ≡ completing ret n success infos₁ ∷ publishing m status infos₂ ∷ sleeping infos₃ ∷ ts
      → h.shared.sync_event.event_status ≡ false
      → ret ≢ 0
      → ((w : W) → (e.agent.unsubscribe test_topic 4 5000 w).0 ≡ success)
      → ((w : W) → (e.agent.publish publish_info 100 w).0 ≡ success)
      → OnlyTest h.shared.subscriptions
      → (h' : Handler W) × ((unsubscribe e
              >> publish_and_report e not_expected_received not_expected_not_received)
            h
          ≡ goes tt h')
        × (h'.reports ≡ h.reports ++ not_expected_not_received ∷ [])
  unfolding unsubscribe take_turn incoming_publish_callback complete run_callback
      unsubscribe_command_callback
  unsubscribe-publish h ret n m status infos₁ infos₂ infos₃ ts turns clear failed unsub publ only =
      let rest = publishing m status infos₂ ∷ sleeping infos₃ ∷ ts in
      let t = completing ret n success infos₁ in
      let r =
        remove_subscription_sync e.agent test_topic 5000 h.world h.shared t.old_event t.rounds in
      let ended =
        remove_subscription_sync_lem e.agent test_topic 5000 h.world h.shared n ret success
          (unsub h.world) clear failed in
      let joined : Handler W = record h { turns = rest; shared = r.1; world = r.2 } in
      let h₁ = deliver e joined infos₁ in
      let first : unsubscribe e h ≡ goes tt h₁ =
        rw turns (called-some e t (record h { turns = rest }) r success (ap (λ x. x.0) ended)) in
      let (shared₁, reports₁, turns₁) = deliver-Kept e infos₁ joined in
      let shared₂ = shared₁ ∙ ap (λ x. x.1) ended in
      let none_there : (info : PublishInfo) → NoCall e (calls_for e h₁ info) = λ info.
        rw
          (
            ap (λ x. x.subscriptions) shared₂,
            matched,
            handle-remove matches info.topic_name info.topic_name_length h.shared.subscriptions
                test_topic 4 (λ z. absurd (omega arith)),
          )
          (calls_where-NoCall info.topic_name info.topic_name_length h.shared.subscriptions only) in
      let (h', second, reports₂) =
        report_lem e not_expected_received not_expected_not_received h₁ m status infos₂ infos₃ ts
          false turns₁ (publ h₁.world) (ap (λ x. x.sync_event.event_status) shared₂)
          (none_lem e h₁ status infos₂ infos₃ ts none_there) in
      (h', rw first second, reports₂ ∙ ap (λ l. l ++ not_expected_not_received ∷ []) reports₁)
