-- ===== src/Demo/Main/Terminates.antt =====
-- The rounds of the demo where the provisioning is known to end.
use embedded_provisioning_sd.Prelude.{ℕ, ◌<◌, subst, inl, inr, Bool, List, [], ◌∷◌}
use embedded_provisioning_sd.Mqtt.Library.{Credentials, Library, Run, done, aborted, unfinished}
use embedded_provisioning_sd.Mqtt.Session.Laws.{CountsAttempts}
use embedded_provisioning_sd.Agent.Thread.{AgentLibrary}
use embedded_provisioning_sd.Agent.Thread.Laws.{CountsErrors}
use embedded_provisioning_sd.Provisioning.Serializer.{KeyCert, CborParser, CborEncoder}
use embedded_provisioning_sd.Provisioning.Response.{MatchFleetTopic}
use embedded_provisioning_sd.Provisioning.Stage.{Config, KeyStore}
use embedded_provisioning_sd.Demo.Main.{
  Threads, Device, AgentSetting, provision, Traffic, main_rounds,
}
use embedded_provisioning_sd.Mqtt.Library.{Settles}
use embedded_provisioning_sd.Demo.Main.Laws.{
  ProvisioningIs, Chain, RoundsEnd, main_rounds-RoundsEnd,
}

module _ {W B : Type 0} (lib : Library W B) (agent : AgentLibrary W) (credentials : Credentials)
    (a : AgentSetting W) (threads : Threads W) (rounds : W → ℕ) (errors : W → ℕ) {V E : Type 0}
    (parser : CborParser V) (encoder : CborEncoder E) (store : KeyStore W)
    (match_topic : MatchFleetTopic) (config : Config) (fuel : ℕ)
    (ends : (k : KeyCert) (d : Device W)
      → Settles
          (λ _ _. Unit {0})
          (provision lib agent credentials a threads rounds parser encoder store match_topic config
            fuel k d)) where
  none_unfinished :
      (rs : List (KeyCert × Traffic)) (d : Device W)
      → ProvisioningIs lib agent credentials a threads rounds errors parser encoder store
          match_topic config fuel unfinished rs d
      → ⊥
  none_unfinished [] d h = h
  none_unfinished (r ∷ rs) d (inl e) = subst (Settles (λ _ _. Unit {0})) e (ends r.0 d)
  none_unfinished (r ∷ rs) d (inr (ok, d', e, h)) = none_unfinished rs d' h

  abbrev Chained :
      KeyCert × Traffic → List (KeyCert × Traffic) → Device W → List Bool → Device W → Type 0
  Chained r rs d =
      Chain lib agent credentials a threads rounds errors parser encoder store match_topic config
        fuel (r ∷ rs) d

  abbrev Ended :
      KeyCert × Traffic → List (KeyCert × Traffic) → Device W → Run (Device W) (List Bool) → Type 0
  Ended r rs d =
      RoundsEnd lib agent credentials a threads rounds errors parser encoder store match_topic
        config fuel r rs d

  settled :
      (r : KeyCert × Traffic) (rs : List (KeyCert × Traffic)) (d : Device W)
      (run : Run (Device W) (List Bool))
      → Ended r rs d run
      → Settles (Chained r rs d) run
  settled r rs d (done oks d') h = h.1
  settled r rs d aborted h = tt
  settled r rs d unfinished h = none_unfinished (r ∷ rs) d h

  -- Where every provisioning ends, so do the rounds, one behind the other.
  pub main_rounds-Settles :
      (laws : CountsErrors lib agent credentials errors) (left : B → ℕ)
      (counts : CountsAttempts lib left) (few : (w : W) → errors w < rounds w)
      (r : KeyCert × Traffic) (rs : List (KeyCert × Traffic)) (d : Device W)
      → Settles (Chained r rs d) (
          main_rounds lib agent credentials a threads rounds parser encoder store match_topic config
            fuel
            (r ∷ rs)
            d)
  main_rounds-Settles laws left counts few r rs d = settled r rs d _ (
      main_rounds-RoundsEnd lib agent credentials a threads rounds errors parser encoder store
        match_topic config fuel laws left counts few r rs d)
