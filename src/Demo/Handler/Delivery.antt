-- ===== src/Demo/Handler/Delivery.antt =====
-- What publishes that come in do to `messageReceiveFlag`, and that they change nothing else that the
-- thread of the demo looks at but its queues.
use embedded_provisioning_sd.Prelude.{
  ℕ, ◌≡◌, refl, sym, subst, ◌∙◌, inl, inr, true, false, List, [], ◌∷◌, arith, Bool-cases, ◌==◌, All,
}
use embedded_provisioning_sd.Mqtt.Library.{PublishInfo}
use embedded_provisioning_sd.Agent.Subscriptions.{Call}
use embedded_provisioning_sd.Agent.Subscriptions.Dispatch.{has_call}
use embedded_provisioning_sd.Agent.Thread.{incoming_publish_callback}
use embedded_provisioning_sd.Demo.Handler.{Handler, Setting, run_call, run_calls, deliver}

module _ {W : Type 0} (e : Setting W) where
  -- The flag, once set, stays set while publishes come in.
  run_call-set :
      (info : PublishInfo) (h : Handler W) (c : Call)
      → h.message_receive_flag ≡ true
      → (run_call e info h c).message_receive_flag ≡ true
  unfolding run_call
  run_call-set info h c set = elim (Bool-cases (c.callback == e.incoming_publish)) [
    | inl own_call ↦ rw own_call refl
    | inr other ↦ elim (Bool-cases (c.callback == e.enqueue_callback)) [
      | inl queued ↦ rw (other, queued) set
      | inr neither ↦ rw (other, neither) set
    ]
  ]

  run_calls-set :
      (info : PublishInfo) (cs : List Call) (h : Handler W)
      → h.message_receive_flag ≡ true
      → (run_calls e info h cs).message_receive_flag ≡ true
  unfolding run_calls
  run_calls-set info [] h set = set
  run_calls-set info (c ∷ cs) h set =
      run_calls-set info cs (run_call e info h c) (run_call-set info h c set)

  -- It is set by a call of the thread's callback, and by no other.
  pub run_calls-has_call :
      (info : PublishInfo) (cs : List Call) (context : ℕ) (h : Handler W)
      → has_call cs e.incoming_publish context ≡ true
      → (run_calls e info h cs).message_receive_flag ≡ true
  unfolding run_calls run_call
  run_calls-has_call info [] context h there = cc
  run_calls-has_call info (c ∷ cs) context h there =
      elim (Bool-cases (c.callback == e.incoming_publish)) [
        | inl own_call ↦ run_calls-set info cs _ (rw own_call refl)
        | inr other ↦
            run_calls-has_call info cs context (run_call e info h c) (ground (arith, other))
      ]

  -- Whatever comes in, the subscriptions, the reports and the turns stay.
  abbrev pub Kept : Handler W → Handler W → Type 0
  Kept h h' = (h'.shared ≡ h.shared) × (h'.reports ≡ h.reports) × (h'.turns ≡ h.turns)

  run_call-Kept : (info : PublishInfo) (h : Handler W) (c : Call) → Kept h (run_call e info h c)
  unfolding run_call
  run_call-Kept info h c = elim (Bool-cases (c.callback == e.incoming_publish)) [
    | inl own_call ↦ rw own_call (refl, refl, refl)
    | inr other ↦ elim (Bool-cases (c.callback == e.enqueue_callback)) [
      | inl queued ↦ rw (other, queued) (refl, refl, refl)
      | inr neither ↦ rw (other, neither) (refl, refl, refl)
    ]
  ]

  Kept-Kept : (h h₁ h₂ : Handler W) → Kept h h₁ → Kept h₁ h₂ → Kept h h₂
  Kept-Kept h h₁ h₂ (a, b, c) (a', b', c') = (a' ∙ a, b' ∙ b, c' ∙ c)

  run_calls-Kept :
      (info : PublishInfo) (cs : List Call) (h : Handler W) → Kept h (run_calls e info h cs)
  unfolding run_calls
  run_calls-Kept info [] h = (refl, refl, refl)
  run_calls-Kept info (c ∷ cs) h =
      let h₁ = run_call e info h c in
      Kept-Kept h h₁ (run_calls e info h₁ cs) (run_call-Kept info h c) (run_calls-Kept info cs h₁)

  -- The calls for a publish.
  abbrev pub calls_for : Handler W → PublishInfo → List Call
  calls_for h info = incoming_publish_callback e.match_topic h.shared.subscriptions info

  pub deliver-Kept : (infos : List PublishInfo) (h : Handler W) → Kept h (deliver e h infos)
  unfolding deliver
  deliver-Kept [] h = (refl, refl, refl)
  deliver-Kept (info ∷ infos) h =
      let h₁ = run_calls e info h (calls_for h info) in
      Kept-Kept h h₁ (deliver e h₁ infos) (run_calls-Kept info (calls_for h info) h)
        (deliver-Kept infos h₁)

  pub deliver-set :
      (infos : List PublishInfo) (h : Handler W)
      → h.message_receive_flag ≡ true
      → (deliver e h infos).message_receive_flag ≡ true
  unfolding deliver
  deliver-set [] h set = set
  deliver-set (info ∷ infos) h set =
      deliver-set infos (run_calls e info h (calls_for h info))
        (run_calls-set info (calls_for h info) h set)

  -- No call of the thread's callback is among the calls.
  abbrev pub NoCall : List Call → Type 0
  NoCall = All (λ c. (c.callback == e.incoming_publish) ≡ false)

  run_calls-NoCall :
      (info : PublishInfo) (cs : List Call) (h : Handler W)
      → NoCall cs
      → (run_calls e info h cs).message_receive_flag ≡ h.message_receive_flag
  unfolding run_calls run_call
  run_calls-NoCall info [] h none_there = refl
  run_calls-NoCall info (c ∷ cs) h (other, rest) =
      run_calls-NoCall info cs (run_call e info h c) rest ∙ one
    where
      one : (run_call e info h c).message_receive_flag ≡ h.message_receive_flag
      one = elim (Bool-cases (c.callback == e.enqueue_callback)) [
        | inl queued ↦ rw (other, queued) refl
        | inr neither ↦ rw (other, neither) refl
      ]

  pub deliver-NoCall :
      (infos : List PublishInfo) (h : Handler W)
      → ((info : PublishInfo)
          → NoCall (incoming_publish_callback e.match_topic h.shared.subscriptions info))
      → (deliver e h infos).message_receive_flag ≡ h.message_receive_flag
  unfolding deliver
  deliver-NoCall [] h none_there = refl
  deliver-NoCall (info ∷ infos) h none_there =
      let h₁ = run_calls e info h (calls_for h info) in
      let (same, reports, turns) = run_calls-Kept info (calls_for h info) h in
      deliver-NoCall infos h₁ (λ i.
        subst (λ s. NoCall (incoming_publish_callback e.match_topic s.subscriptions i)) (sym same)
          (none_there i))
      ∙ run_calls-NoCall info (calls_for h info) h (none_there info)
