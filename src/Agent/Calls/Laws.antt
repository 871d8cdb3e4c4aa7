-- ===== src/Agent/Calls/Laws.antt =====
-- What the calls return that wait for the agent, by when the agent completes them.
use embedded_provisioning_sd.Prelude.{
  ℕ, zero, suc, ◌%◌, ◌^◌, ◌≡◌, ◌≢◌, refl, ◌∙◌, ap, true, false, some, List, [], ◌∷◌, ◌++◌, ==_of_ne,
  if◌then◌else◌, length, replicate,
}
use embedded_provisioning_sd.Platform.Event.{set_event, consume}
use embedded_provisioning_sd.Mqtt.Library.{MqttStatus, success, is_success, PublishInfo}
use embedded_provisioning_sd.Agent.Subscriptions.{add_subscription}
use embedded_provisioning_sd.Agent.Calls.{
  Shared, Command, publishes, subscribes, unsubscribes, Completion, own, earlier,
  publish_command_callback, subscribe_command_callback, unsubscribe_command_callback, run_callback,
  complete, complete_all, Round, wait_event, Commands, publish, wait_completed,
  add_subscription_sync, remove_subscription_sync,
}

-- A round in which the agent completes nothing, and one that runs out of time.
abbrev pub quiet : Round
quiet = record { completions = []; ret = 0 }

abbrev pub timeout : ℕ → Round
timeout ret = record { completions = []; ret = ret }

-- A round in which it completes one command.
abbrev pub completes : Completion → Round
completes c = record { completions = c ∷ []; ret = 0 }

-- Every completion sets the event.
run_callback-sets :
    (command : Command) (s : Shared) (status : MqttStatus)
    → (run_callback command s status).sync_event.event_status ≡ true
unfolding run_callback publish_command_callback subscribe_command_callback
    unsubscribe_command_callback set_event
run_callback-sets publishes s status = refl
run_callback-sets (subscribes filter len callback context) s status = refl
run_callback-sets (unsubscribes filter len) s status = refl

complete-sets :
    (command : Command) (s : Shared) (c : Completion)
    → (complete command s c).sync_event.event_status ≡ true
unfolding complete
complete-sets command s (own status) = run_callback-sets command s status
complete-sets command s (earlier command' status) = run_callback-sets command' s status

wait_event-quiet :
    (command : Command) (n : ℕ) (rest : List Round) (s : Shared)
    → s.sync_event.event_status ≡ false
    → wait_event command s (replicate n quiet ++ rest) ≡ wait_event command s rest
unfolding wait_event complete_all
wait_event-quiet command zero rest s clear = refl
wait_event-quiet command (suc n) rest s clear = step ∙ wait_event-quiet command n rest s clear
  where
    step :
        wait_event command s (quiet ∷ replicate n quiet ++ rest)
        ≡ wait_event command s (replicate n quiet ++ rest)
    step = simp (wait_event, complete_all, clear)

pub wait_event-timeout :
    (command : Command) (n ret : ℕ) (s : Shared)
    → s.sync_event.event_status ≡ false
    → ret ≢ 0
    → wait_event command s (replicate n quiet ++ timeout ret ∷ []) ≡ (some false, s)
unfolding wait_event complete_all
wait_event-timeout command n ret s clear failed =
    wait_event-quiet command n (timeout ret ∷ []) s clear ∙ simp (clear, ==_of_ne ret 0 failed)

-- The state behind a completion whose event was taken away.
abbrev pub completed : Command → Shared → Completion → Shared
completed command s c = record (complete command s c) {
  sync_event = record { event_status = false };
}

pub wait_event-completes :
    (command : Command) (n : ℕ) (s : Shared) (c : Completion)
    → s.sync_event.event_status ≡ false
    → wait_event command s (replicate n quiet ++ completes c ∷ [])
      ≡ (some true, completed command s c)
unfolding wait_event complete_all consume
wait_event-completes command n s c clear =
    wait_event-quiet command n (completes c ∷ []) s clear ∙ simp (clear, complete-sets command s c)

module _ {W : Type 0} (agent : Commands W) where
  -- For a command that the agent takes while the event is clear, `iotshdDev_MQTTAgentPublish` gives the
  -- status with which the agent completes the publish, when that is the next that it completes, and takes
  -- the event away. When the wait runs out of time instead, it gives MQTTSuccess.
  pub publish_lem :
      (info : PublishInfo) (block : ℕ) (w : W) (s : Shared) (n ret : ℕ) (status : MqttStatus)
      → (agent.publish info block w).0 ≡ success
      → s.sync_event.event_status ≡ false
      → ret ≢ 0
      → (publish agent info block w s (replicate n quiet ++ completes (own status) ∷ [])
          ≡ (some status, completed publishes s (own status), (agent.publish info block w).1))
        × (publish agent info block w s (replicate n quiet ++ timeout ret ∷ [])
            ≡ (some success, s, (agent.publish info block w).1))
  unfolding publish complete run_callback publish_command_callback
  publish_lem info block w s n ret status taken clear failed =
      let e = wait_event-completes publishes n s (own status) clear in
      let e' = wait_event-timeout publishes n ret s clear failed in
      (simp (publish, taken, e), simp (publish, taken, e'))

  -- The two waits behind a command, when the first finds nothing and the command is completed next.
  wait_completed_lem :
      (command : Command) (added : MqttStatus) (s : Shared) (n ret : ℕ) (c : Completion)
      → s.sync_event.event_status ≡ false
      → ret ≢ 0
      → wait_completed agent command added s
          (timeout ret ∷ [])
          (replicate n quiet ++ completes c ∷ [])
        ≡ (some added, completed command s c)
  unfolding wait_completed
  wait_completed_lem command added s n ret c clear failed =
      let e = wait_event-timeout command 0 ret s clear failed in
      let e' = wait_event-completes command n s c clear in simp (wait_completed, e, e')

  -- For a command that the agent takes while the event is clear, `iotshdDev_MQTTAgentAddSubscription` gives
  -- MQTTSuccess whatever status the agent completes the subscription with; the subscription is added to
  -- the list only where that status is MQTTSuccess. The wait of no time finds nothing, and the completion
  -- is the next one in the other wait.
  pub add_subscription_sync_lem :
      (filter : List ℕ) (callback context block : ℕ) (w : W) (s : Shared) (n ret : ℕ)
      (status : MqttStatus)
      → (agent.subscribe filter (length filter % 2 ^ 16) block w).0 ≡ success
      → s.sync_event.event_status ≡ false
      → ret ≢ 0
      → let r =
          add_subscription_sync agent filter callback context block w s
            (timeout ret ∷ [])
            (replicate n quiet ++ completes (own status) ∷ []) in
        (r.0 ≡ some success)
        × (r.1.sync_event.event_status ≡ false)
        × (r.1.subscriptions ≡ (
            if is_success status
            then (add_subscription s.subscriptions
                (some filter)
                (length filter % 2 ^ 16)
                callback
                context).1
            else s.subscriptions))
  unfolding add_subscription_sync complete run_callback subscribe_command_callback
  add_subscription_sync_lem filter callback context block w s n ret status taken clear failed =
      let command = subscribes filter (length filter % 2 ^ 16) callback context in
      let e = wait_completed_lem command success s n ret (own status) clear failed in
      let same : add_subscription_sync agent filter callback context block w s (timeout ret ∷ [])
            (replicate n quiet ++ completes (own status) ∷ [])
          ≡ (
            some success,
            completed command s (own status),
            (agent.subscribe filter (length filter % 2 ^ 16) block w).1,
          ) =
        simp (add_subscription_sync, taken, e) in
      (
        ap (λ t. t.0) same,
        ap (λ t. t.1.sync_event.event_status) same,
        ap (λ t. t.1.subscriptions) same,
      )

  -- Likewise for `iotshdDev_MQTTAgentRemoveSubscription`.
  pub remove_subscription_sync_lem :
      (filter : List ℕ) (block : ℕ) (w : W) (s : Shared) (n ret : ℕ) (status : MqttStatus)
      → (agent.unsubscribe filter (length filter % 2 ^ 16) block w).0 ≡ success
      → s.sync_event.event_status ≡ false
      → ret ≢ 0
      → remove_subscription_sync agent filter block w s
          (timeout ret ∷ [])
          (replicate n quiet ++ completes (own status) ∷ [])
        ≡ (
          some success,
          completed (unsubscribes filter (length filter % 2 ^ 16)) s (own status),
          (agent.unsubscribe filter (length filter % 2 ^ 16) block w).1,
        )
  unfolding remove_subscription_sync
  remove_subscription_sync_lem filter block w s n ret status taken clear failed =
      let e =
        wait_completed_lem (unsubscribes filter (length filter % 2 ^ 16)) success s n ret
          (own status) clear failed in
      simp (remove_subscription_sync, taken, e)
