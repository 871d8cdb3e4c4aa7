-- ===== src/Demo/Main/Laws.antt =====
-- The rounds of the demo end, and what they leave.
use embedded_provisioning_sd.Prelude.{
  ℕ, ◌<◌, ◌≡◌, refl, sym, ap, subst, append-nil, ◌∙◌, ◌⊎◌, ◌++◌, inl, inr, Bool, some, List, [],
  ◌∷◌,
}
use embedded_provisioning_sd.Platform.Queue.{Section, create}
use embedded_provisioning_sd.Mqtt.Library.{
  Credentials, Library, State, Run, done, aborted, unfinished, Run-cases,
}
use embedded_provisioning_sd.Mqtt.Session.Laws.{CountsAttempts}
use embedded_provisioning_sd.Agent.Pool.{pointer_size, CommandPool, initialize_pool}
use embedded_provisioning_sd.Agent.Thread.{AgentLibrary, command_queue_length, Globals, init}
use embedded_provisioning_sd.Agent.Thread.Laws.{CountsErrors, Stopped, thread_loop-Stopped}
use embedded_provisioning_sd.Provisioning.Serializer.{KeyCert, CborParser, CborEncoder}
use embedded_provisioning_sd.Provisioning.Response.{App, MatchFleetTopic}
use embedded_provisioning_sd.Provisioning.Stage.{Config, KeyStore}
use embedded_provisioning_sd.Demo.Main.{
  Threads, thread_create, Device, AgentSetting, application_loop, provision, Traffic, on_queue,
  run_traffic, main_round, main_rounds,
}
use embedded_provisioning_sd.Demo.Main.Pool.{
  initialize_pool_again, initialize_pool_there, on_queue-append, pool_history, last_commands,
}

module _ {W B : Type 0} (lib : Library W B) (agent : AgentLibrary W) (credentials : Credentials)
    (a : AgentSetting W) (threads : Threads W) (rounds : W → ℕ) (errors : W → ℕ) where
  -- The pool that the first round sets up, or that was there.
  abbrev pub pool_of : Device W → CommandPool
  pool_of d = initialize_pool a.base a.command_size a.malloc d.globals.pool

  -- What rounds leave of the agent's globals: the pool of the first with all that ran on it, and a command
  -- queue with only what ran on it since the last initialisation.
  abbrev pub Rounded : List Section → List Section → Device W → Device W → Type 0
  Rounded pool commands d d' =
      (d'.globals.pool ≡ record (pool_of d) { queue = on_queue pool (pool_of d).queue })
      × (d'.globals.command_queue
          ≡ on_queue commands (create a.malloc command_queue_length pointer_size))

  -- The world in which the agent's thread starts, behind its initialisation and the creation of the thread
  -- of the data model.
  abbrev pub agent_starts : W → W
  agent_starts w = (thread_create threads (a.agent_init w).1).1

  module _ {V E : Type 0} (parser : CborParser V) (encoder : CborEncoder E) (store : KeyStore W)
      (match_topic : MatchFleetTopic) (config : Config) (fuel : ℕ) where
    abbrev provisioned : KeyCert → Device W → Run (State W App) Bool
    provisioned =
        provision lib agent credentials a threads rounds parser encoder store match_topic config
          fuel

    abbrev round : KeyCert × Traffic → Device W → Run (Device W) Bool
    round =
        main_round lib agent credentials a threads rounds parser encoder store match_topic config
          fuel

    abbrev run_rounds : List (KeyCert × Traffic) → Device W → Run (Device W) (List Bool)
    run_rounds =
        main_rounds lib agent credentials a threads rounds parser encoder store match_topic config
          fuel

    -- The provisioning of one of the rounds has this outcome, behind rounds that were done.
    abbrev pub ProvisioningIs :
        Run (State W App) Bool → List (KeyCert × Traffic) → Device W → Type 0
    ProvisioningIs outcome [] d = ⊥
    ProvisioningIs outcome (r ∷ rs) d =
        (provisioned r.0 d ≡ outcome)
        ⊎ ((ok : Bool) × (d' : Device W) × (round r d ≡ done ok d') × ProvisioningIs outcome rs d')

    -- A round: the provisioning ended, the agent's thread started in the world that this left and stopped,
    -- and the demo slept.
    abbrev pub Round : KeyCert × Traffic → Device W → Bool → Device W → Type 0
    Round r d ok d' =
        (s : State W App) × (w : W) × (provisioned r.0 d ≡ done ok s)
        × Stopped lib agent credentials (errors (agent_starts s.world)) (agent_starts s.world) w
        × (d'.state ≡ record s { world = threads.sleep 5 w })

    -- Rounds one behind the other.
    abbrev pub Chain : List (KeyCert × Traffic) → Device W → List Bool → Device W → Type 0
    Chain [] d [] d' = d ≡ d'
    Chain [] d (ok ∷ oks) d' = ⊥
    Chain (r ∷ rs) d [] d' = ⊥
    Chain (r ∷ rs) d (ok ∷ oks) d' = (d₁ : Device W) × Round r d ok d₁ × Chain rs d₁ oks d'

    abbrev RoundEnds : KeyCert × Traffic → Device W → Run (Device W) Bool → Type 0
    RoundEnds r d (done ok d') = Rounded r.1.pool r.1.commands d d' × Round r d ok d'
    RoundEnds r d aborted = provisioned r.0 d ≡ aborted
    RoundEnds r d unfinished = provisioned r.0 d ≡ unfinished

    -- How a round and others end: done, or because of a provisioning.
    abbrev pub RoundsEnd :
        KeyCert × Traffic
        → List (KeyCert × Traffic)
        → Device W
        → Run (Device W) (List Bool)
        → Type 0
    RoundsEnd r rs d (done oks d') =
        Rounded (pool_history (r ∷ rs)) (last_commands r.1 rs) d d' × Chain (r ∷ rs) d oks d'
    RoundsEnd r rs d aborted = ProvisioningIs aborted (r ∷ rs) d
    RoundsEnd r rs d unfinished = ProvisioningIs unfinished (r ∷ rs) d

    module _ (laws : CountsErrors lib agent credentials errors) (left : B → ℕ)
        (counts : CountsAttempts lib left) (few : (w : W) → errors w < rounds w) where
      application_loop_lem :
          (t : Traffic) (d : Device W) (w : W)
          → (g : Globals) × (w' : W) × (application_loop lib agent credentials a threads rounds t
                d.globals w
              ≡ some (0, g, w'))
            × (g.pool ≡ record (pool_of d) { queue = on_queue t.pool (pool_of d).queue })
            × (g.command_queue
                ≡ on_queue t.commands (create a.malloc command_queue_length pointer_size))
            × Stopped lib agent credentials (errors (agent_starts w)) (agent_starts w) w'
      unfolding application_loop init run_traffic
      application_loop_lem t d w =
          let (status, globals, w₁) =
            init a.base a.command_size a.malloc a.agent_init d.globals w in
          let w₂ = (thread_create threads w₁).1 in
          let (w', e, stopped) =
            thread_loop-Stopped lib agent credentials errors laws left counts (rounds w₂) w₂
              (few w₂) in
          (run_traffic t globals, w', simp (application_loop, init, e), refl, refl, stopped)

      round-RoundEnds : (r : KeyCert × Traffic) (d : Device W) → RoundEnds r d (round r d)
      unfolding main_round
      round-RoundEnds (k, t) d = elim (Run-cases (provisioned k d)) [
        | inl (inl (ok, s, e)) ↦
            let (g, w, e', pool, commands, stopped) = application_loop_lem t d s.world in
            rw (main_round, e, e') ((pool, commands), (s, w, e, stopped, refl))
        | inl (inr e) ↦ rw (main_round, e) e
        | inr e ↦ rw (main_round, e) e
      ]

      Rounded-Rounded :
          (p₁ p₂ c₁ c₂ : List Section) (d d₁ d₂ : Device W)
          → Rounded p₁ c₁ d d₁
          → Rounded p₂ c₂ d₁ d₂
          → Rounded (p₁ ++ p₂) c₂ d d₂
      Rounded-Rounded p₁ p₂ c₁ c₂ d d₁ d₂ (pool₁, q₁) (pool₂, q₂) =
          let there =
            ap (λ p. p.initialized) pool₁
            ∙ initialize_pool_there a.base a.command_size a.malloc d.globals.pool in
          let same =
            initialize_pool_again a.base a.command_size a.malloc d₁.globals.pool there ∙ pool₁ in
          (
            pool₂
                ∙ ap (λ (p : CommandPool). record p { queue = on_queue p₂ p.queue }) same
                ∙ ap (λ q. record (pool_of d) { queue = q })
                    (on_queue-append p₁ p₂ (pool_of d).queue),
            q₂,
          )

      -- The last round, and a round before others.
      last_round : (r : KeyCert × Traffic) (d : Device W) → RoundsEnd r [] d (run_rounds (r ∷ []) d)
      unfolding main_rounds
      last_round r d =
          let h = round-RoundEnds r d in
          elim (Run-cases (round r d)) [
            | inl (inl (ok, d₁, e)) ↦
                let (left_behind, one) = subst (RoundEnds r d) e h in
                rw (main_rounds, e)
                  (
                    subst (λ p. Rounded p r.1.commands d d₁) (sym (append-nil r.1.pool))
                        left_behind,
                    (d₁, one, refl),
                  )
            | inl (inr e) ↦ rw (main_rounds, e) (inl (subst (RoundEnds r d) e h))
            | inr e ↦ rw (main_rounds, e) (inl (subst (RoundEnds r d) e h))
          ]

      earlier_round :
          (r r' : KeyCert × Traffic) (rs : List (KeyCert × Traffic)) (d : Device W)
          → ((d₁ : Device W) → RoundsEnd r' rs d₁ (run_rounds (r' ∷ rs) d₁))
          → RoundsEnd r (r' ∷ rs) d (run_rounds (r ∷ r' ∷ rs) d)
      unfolding main_rounds
      earlier_round r r' rs d rest =
          let h = round-RoundEnds r d in
          elim (Run-cases (round r d)) [
            | inl (inr e) ↦ rw (main_rounds, e) (inl (subst (RoundEnds r d) e h))
            | inr e ↦ rw (main_rounds, e) (inl (subst (RoundEnds r d) e h))
            | inl (inl (ok, d₁, e)) ↦
                let h₁ = subst (RoundEnds r d) e h in
                let more = rest d₁ in
                elim (Run-cases (run_rounds (r' ∷ rs) d₁)) [
                  | inl (inr e') ↦
                      rw (main_rounds, e, e') (inr (ok, d₁, e, subst (RoundsEnd r' rs d₁) e' more))
                  | inr e' ↦
                      rw (main_rounds, e, e') (inr (ok, d₁, e, subst (RoundsEnd r' rs d₁) e' more))
                  | inl (inl (oks, d₂, e')) ↦
                      let (rounded, chain) = subst (RoundsEnd r' rs d₁) e' more in
                      rw (main_rounds, e, e')
                        (
                          Rounded-Rounded r.1.pool (pool_history (r' ∷ rs)) r.1.commands
                              (last_commands r'.1 rs) d d₁ d₂ h₁.0 rounded,
                          (d₁, h₁.1, chain),
                        )
                ]
          ]

      -- Where the backoff library counts its attempts and the errors of the agent are counted and fewer than
      -- the fuel of its loop in every world, any number of rounds of the demo's loop that is not 0 is done,
      -- unless `ProvisionDevicePKCS11WithFP` in one of them stops at a failed `assert` or is itself not done:
      -- the agent's part of a round always ends, whether or not the device was provisioned. Behind the rounds
      -- the pool of commands is that which the first round set up, with all the sections of all the rounds
      -- run on it in their order; the command queue is a new one with only the sections of the last round,
      -- so that what was in it before is not. In each of the rounds the provisioning ended first, the
      -- agent's thread started in the world that this and the initialisation left and stopped as
      -- `iotshdDev_MQTTAgentThreadLoop` does, and the demo slept.
      pub main_rounds-RoundsEnd :
          (r : KeyCert × Traffic) (rs : List (KeyCert × Traffic)) (d : Device W)
          → RoundsEnd r rs d (run_rounds (r ∷ rs) d)
      main_rounds-RoundsEnd r [] d = last_round r d
      main_rounds-RoundsEnd r (r' ∷ rs) d =
          earlier_round r r' rs d (λ d₁. main_rounds-RoundsEnd r' rs d₁)
