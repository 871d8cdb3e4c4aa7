-- ===== src/Demo/Handler/Publish.antt =====
-- A publish of `prvDataModelHandlerThread` and the sleep behind it: what is printed, by the publishes that
-- come in meanwhile.
use embedded_provisioning_sd.Prelude.{
  ℕ, ◌≡◌, refl, sym, ap, subst, ◌∙◌, Bool, true, false, Option, none, some, List, [], ◌∷◌, ◌++◌,
  arith, if◌then◌else◌, replicate,
}
use embedded_provisioning_sd.Mqtt.Library.{MqttStatus, success, PublishInfo}
use embedded_provisioning_sd.Agent.Subscriptions.Dispatch.{has_call}
use embedded_provisioning_sd.Agent.Thread.{incoming_publish_callback}
use embedded_provisioning_sd.Agent.Calls.{
  Shared, own, publishes, complete, run_callback, publish_command_callback,
}
use embedded_provisioning_sd.Agent.Calls.Laws.{quiet, timeout, completes, completed, publish_lem}
use embedded_provisioning_sd.Demo.Handler.{
  publish_info, Report, Turn, Handler, goes, Setting, deliver, take_turn, called, run_calls,
  publish_message, sleep_seconds, publish_and_report,
}
use embedded_provisioning_sd.Demo.Handler.Delivery.{
  run_calls-has_call, calls_for, deliver-Kept, deliver-set, NoCall, deliver-NoCall,
}

-- A turn in which the agent completes the publish with a status, and one of a sleep; and the publishes
-- that come in behind them.
abbrev pub publishing : ℕ → MqttStatus → List PublishInfo → Turn
publishing n status infos = record {
  old_event = [];
  rounds = replicate n quiet ++ completes (own status) ∷ [];
  wakes = [];
  arrivals = infos;
}

abbrev pub sleeping : List PublishInfo → Turn
sleeping infos = record { old_event = []; rounds = []; wakes = []; arrivals = infos }

-- A turn in which an old event is waited for in vain, and the agent then completes the command.
abbrev pub completing : ℕ → ℕ → MqttStatus → List PublishInfo → Turn
completing ret n status infos = record {
  old_event = timeout ret ∷ [];
  rounds = replicate n quiet ++ completes (own status) ∷ [];
  wakes = [];
  arrivals = infos;
}

module _ {W : Type 0} (e : Setting W) where
  -- The thread behind the publish, and behind the sleep.
  abbrev pub published : Handler W → MqttStatus → List PublishInfo → List Turn → Handler W
  published h status infos ts =
      deliver e
        (record h {
          message_receive_flag = false;
          shared = completed publishes h.shared (own status);
          world = (e.agent.publish publish_info 100 h.world).1;
          turns = ts;
        })
        infos

  abbrev pub slept : Handler W → List PublishInfo → List Turn → Handler W
  slept h infos ts = deliver e (record h { world = e.sleep 3 h.world; turns = ts }) infos

  publish_and_report_lem :
      (r₁ r₂ : Report) (h : Handler W) (n : ℕ) (status : MqttStatus)
      (infos infos' : List PublishInfo) (ts : List Turn)
      → h.turns ≡ publishing n status infos ∷ sleeping infos' ∷ ts
      → (e.agent.publish publish_info 100 h.world).0 ≡ success
      → h.shared.sync_event.event_status ≡ false
      → let h' = slept (published h status infos (sleeping infos' ∷ ts)) infos' ts in
        publish_and_report e r₁ r₂ h
        ≡ goes tt (record h' {
          reports = h'.reports ++ (if h'.message_receive_flag then r₁ else r₂) ∷ [];
        })
  unfolding publish_and_report publish_message sleep_seconds take_turn
  publish_and_report_lem r₁ r₂ h n status infos infos' ts turns taken clear =
      let cleared : Handler W = record h { message_receive_flag = false } in
      let (there, out_of_time) =
        publish_lem e.agent publish_info 100 h.world h.shared n 1 status taken clear
          (λ z. absurd (omega arith)) in
      let behind : Handler W = record h {
        message_receive_flag = false;
        shared = completed publishes h.shared (own status);
        world = (e.agent.publish publish_info 100 h.world).1;
        turns = sleeping infos' ∷ ts;
      } in
      let (shared, reports, left) = deliver-Kept e infos behind in
      simp (publish_and_report, publish_message, sleep_seconds, take_turn, turns, there, left)

  -- The subscriptions behind the publish are those before it.
  published_subscriptions :
      (h : Handler W) (status : MqttStatus) (infos : List PublishInfo) (ts : List Turn)
      → (published h status infos ts).shared.subscriptions ≡ h.shared.subscriptions
  unfolding complete run_callback publish_command_callback
  published_subscriptions h status infos ts = ap (λ s. s.subscriptions) (deliver-Kept e infos _).0

  -- What is printed, where the turns are a publish that the agent takes and completes, and a sleep.
  pub report_lem :
      (r₁ r₂ : Report) (h : Handler W) (n : ℕ) (status : MqttStatus)
      (infos infos' : List PublishInfo) (ts : List Turn) (flag : Bool)
      → h.turns ≡ publishing n status infos ∷ sleeping infos' ∷ ts
      → (e.agent.publish publish_info 100 h.world).0 ≡ success
      → h.shared.sync_event.event_status ≡ false
      → (slept (published h status infos (sleeping infos' ∷ ts)) infos' ts).message_receive_flag
        ≡ flag
      → (h' : Handler W) × (publish_and_report e r₁ r₂ h ≡ goes tt h')
        × (h'.reports ≡ h.reports ++ (if flag then r₁ else r₂) ∷ [])
  report_lem r₁ r₂ h n status infos infos' ts flag turns taken clear same =
      let h₁ = published h status infos (sleeping infos' ∷ ts) in
      let kept₁ = deliver-Kept e infos _ in
      let kept₂ = deliver-Kept e infos' (record h₁ { world = e.sleep 3 h₁.world; turns = ts }) in
      (
        _,
        publish_and_report_lem r₁ r₂ h n status infos infos' ts turns taken clear,
        rw (same, kept₂.1 ∙ kept₁.1) refl,
      )

  pub called-some :
      (t : Turn) (h : Handler W) (r : Option MqttStatus × Shared × W) (status : MqttStatus)
      → r.0 ≡ some status
      → called e t h r ≡ goes tt (deliver e (record h { shared = r.1; world = r.2 }) t.arrivals)
  called-some t h (none, s, w) status there = absurd (ground arith)
  called-some t h (some status', s, w) status there = refl

  -- A publish that comes back in the sleep, for which the thread's callback is called, is reported.
  pub back_lem :
      (h : Handler W) (context : ℕ) (status : MqttStatus) (infos infos' : List PublishInfo)
      (ts : List Turn)
      → has_call (calls_for e h publish_info) e.incoming_publish context ≡ true
      → (slept
          (published h status infos (sleeping (publish_info ∷ infos') ∷ ts))
          (publish_info ∷ infos')
          ts).message_receive_flag
        ≡ true
  unfolding deliver
  back_lem h context status infos infos' ts there =
      let p = published h status infos (sleeping (publish_info ∷ infos') ∷ ts) in
      let s : Handler W = record p { world = e.sleep 3 p.world; turns = ts } in
      let there' : has_call (calls_for e s publish_info) e.incoming_publish context ≡ true =
        rw (published_subscriptions h status infos (sleeping (publish_info ∷ infos') ∷ ts)) there in
      deliver-set e infos' (run_calls e publish_info s (calls_for e s publish_info))
        (run_calls-has_call e publish_info (calls_for e s publish_info) context s there')

  -- Where no publish calls the thread's callback, none is reported.
  pub none_lem :
      (h : Handler W) (status : MqttStatus) (infos infos' : List PublishInfo) (ts : List Turn)
      → ((info : PublishInfo) → NoCall e (calls_for e h info))
      → (slept (published h status infos (sleeping infos' ∷ ts)) infos' ts).message_receive_flag
        ≡ false
  unfolding complete run_callback publish_command_callback
  none_lem h status infos infos' ts none_there =
      let p = published h status infos (sleeping infos' ∷ ts) in
      deliver-NoCall e infos' (record p { world = e.sleep 3 p.world; turns = ts })
        (λ i.
          subst (λ l. NoCall e (incoming_publish_callback e.match_topic l i))
            (sym (published_subscriptions h status infos (sleeping infos' ∷ ts))) (none_there i))
      ∙ deliver-NoCall e infos _ none_there
