-- ===== src/Agent/Calls/Refine.antt =====
-- The wait of a call on its event is `iotshdPal_syncEventWait` of pal_event.c, in which the agent's thread
-- sets the event once for each command that it completes.
use embedded_provisioning_sd.Prelude.{
  ℕ, ◌≡◌, refl, ap, subst, ◌∙◌, inl, inr, Bool, true, false, Option, none, some, List, [], ◌∷◌, map,
  Bool-cases, ◌==◌, if◌then◌else◌,
}
use embedded_provisioning_sd.Platform.Clock.{Timeval, deadline}
use embedded_provisioning_sd.Platform.Event.{
  SyncEvent, set_event, consume, Section, sets, run_section, run_sections, Wake, Waited, wait_set,
  wait,
}
use embedded_provisioning_sd.Mqtt.Library.{MqttStatus}
use embedded_provisioning_sd.Agent.Calls.{
  Shared, Command, publishes, subscribes, unsubscribes, Completion, own, earlier,
  publish_command_callback, subscribe_command_callback, unsubscribe_command_callback, run_callback,
  complete, complete_all, Round, wait_event,
}

run_callback-event :
    (command : Command) (s : Shared) (status : MqttStatus)
    → (run_callback command s status).sync_event ≡ set_event s.sync_event
unfolding run_callback publish_command_callback subscribe_command_callback
    unsubscribe_command_callback
run_callback-event publishes s status = refl
run_callback-event (subscribes filter len callback context) s status = refl
run_callback-event (unsubscribes filter len) s status = refl

complete-event :
    (command : Command) (s : Shared) (c : Completion)
    → (complete command s c).sync_event ≡ set_event s.sync_event
unfolding complete
complete-event command s (own status) = run_callback-event command s status
complete-event command s (earlier command' status) = run_callback-event command' s status

-- What the agent's thread does to the event.
abbrev pub sections : List Completion → List Section
sections = map (λ c. sets)

complete_all-event :
    (command : Command) (cs : List Completion) (s : Shared)
    → (complete_all command s cs).sync_event ≡ run_sections s.sync_event (sections cs)
unfolding complete_all run_sections run_section
complete_all-event command [] s = refl
complete_all-event command (c ∷ cs) s =
    complete_all-event command cs (complete command s c)
    ∙ ap (λ e. run_sections e (sections cs)) (complete-event command s c)

-- A round at a time of day, as `iotshdPal_syncEventWait` sees it.
abbrev pub wake : Timeval → Round → Wake
wake now r = record { now = now; others = sections r.completions; ret = r.ret }

-- The end of `iotshdPal_syncEventWait` behind its loop.
abbrev ended : Waited → Option Bool × SyncEvent
ended w = elim w.ret [
  | none ↦ (none, w.event)
  | some ret ↦ if ret == 0 then (some true, consume w.event) else (some false, w.event)
]

-- A round of `iotshdPal_syncEventWait` on an event that is not set: the wait goes on, or gives up.
wait_round :
    (block : ℕ) (e : SyncEvent) (w : Wake) (ws : List Wake)
    → e.event_status ≡ false
    → ((w.ret == 0) ≡ true → wait e block (w ∷ ws) ≡ wait (run_sections e w.others) block ws)
      × ((w.ret == 0) ≡ false → wait e block (w ∷ ws) ≡ (some false, run_sections e w.others))
unfolding wait wait_set
wait_round block e w ws clear = (
  λ woken.
      let one : wait_set block e (w ∷ ws) ≡ record (wait_set block (run_sections e w.others) ws) {
        deadlines = deadline w.now block ∷ (wait_set block (run_sections e w.others) ws).deadlines;
      } =
        simp (wait_set, clear, woken) in
      ap ended one,
  λ over.
      let one : wait_set block e (w ∷ ws) ≡ record {
        ret = some w.ret;
        event = run_sections e w.others;
        deadlines = deadline w.now block ∷ [];
      } =
        simp (wait_set, clear, over) in
      ap ended one ∙ simp over,
)

-- The wait of a call returns what `iotshdPal_syncEventWait` returns, or still waits as it does, and leaves
-- the event as it does, whatever the time of day and the block time, which only make deadlines.
pub wait_event-refines :
    (command : Command) (now : Timeval) (block : ℕ) (rounds : List Round) (s : Shared)
    → let r = wait_event command s rounds in
      let w = wait s.sync_event block (map (wake now) rounds) in
      (r.0 ≡ w.0) × (r.1.sync_event ≡ w.1)
unfolding wait_event wait wait_set
wait_event-refines command now block [] s = elim (Bool-cases s.sync_event.event_status) [
  | inl set ↦ rw set (refl, refl)
  | inr clear ↦ rw clear (refl, refl)
]
wait_event-refines command now block (r ∷ rs) s =
    let s' = complete_all command s r.completions in
    let same = complete_all-event command r.completions s in
    let rest = wait_event-refines command now block rs s' in
    let rest' =
      subst
        (λ e.
          ((wait_event command s' rs).0 ≡ (wait e block (map (wake now) rs)).0)
          × ((wait_event command s' rs).1.sync_event ≡ (wait e block (map (wake now) rs)).1))
        same rest in
    elim (Bool-cases s.sync_event.event_status) [
      | inl set ↦ rw set (refl, refl)
      | inr clear ↦ elim (Bool-cases (r.ret == 0)) [
        | inl woken ↦
            let one : wait_event command s (r ∷ rs) ≡ wait_event command s' rs =
              simp (wait_event, clear, woken) in
            rw (one, (wait_round block s.sync_event (wake now r) (map (wake now) rs) clear).0 woken)
              rest'
        | inr over ↦
            let one : wait_event command s (r ∷ rs) ≡ (some false, s') =
              simp (wait_event, clear, over) in
            rw (one, (wait_round block s.sync_event (wake now r) (map (wake now) rs) clear).1 over)
              (refl, same)
      ]
    ]
