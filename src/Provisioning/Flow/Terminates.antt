-- ===== src/Provisioning/Flow/Terminates.antt =====
-- fleet_provisioning_keys_cert_demo.c: the loop of `ProvisionDevicePKCS11WithFP` ends.
use embedded_provisioning_sd.Prelude.{
  ℕ, zero, suc, ◌+◌, ◌<◌, ◌≤◌, ◌≡◌, Bool, true, false, inl, inr, arith, ltb, Bool-cases,
}
use embedded_provisioning_sd.Mqtt.Library.{Library, State, Run, done, Settles, Settles-elim}
use embedded_provisioning_sd.Provisioning.Serializer.{KeyCert, CborParser, CborEncoder}
use embedded_provisioning_sd.Provisioning.Response.{App, MatchFleetTopic}
use embedded_provisioning_sd.Provisioning.Stage.{
  Config, KeyStore, max_loop_count, retry_delay_ms, Local, Stage,
}
use embedded_provisioning_sd.Provisioning.Flow.{iteration, provision_loop, provision_device}

module _ {W B V E : Type 0} (lib : Library W B) (parser : CborParser V) (encoder : CborEncoder E)
    (store : KeyStore W) (match_topic : MatchFleetTopic) (config : Config) (fuel : ℕ) where
  abbrev S : Type 0
  S = State W App

  abbrev body : Stage S
  body = iteration lib parser encoder store match_topic config fuel

  abbrev loop : ℕ → ℕ → Stage S
  loop = provision_loop lib parser encoder store match_topic config fuel

  abbrev provision : KeyCert → S → Run S Bool
  provision = provision_device lib parser encoder store match_topic config fuel

  abbrev Over : {A : Type 0} → Run S A → Type 0
  Over = Settles (λ _ _. Unit {0})

  after-Over :
      (rounds count : ℕ) (l : Local) (s : S)
      → ((l' : Local) (s' : S)
          → ltb (count + 1) max_loop_count ≡ true
          → Over (loop rounds (count + 1) l' s'))
      → Over (elim l.status [
        | true ↦ done l s
        | false ↦ elim (ltb (count + 1) max_loop_count) [
          | true ↦ loop rounds (count + 1) l (record s { world = lib.sleep retry_delay_ms s.world })
          | false ↦ done l s
        ]
      ])
  after-Over rounds count l s rest = elim (Bool-cases l.status) [
    | inl ok ↦ simp ok tt
    | inr failed ↦ elim (Bool-cases (ltb (count + 1) max_loop_count)) [
      | inl more ↦
          simp (failed, more) (rest l (record s { world = lib.sleep retry_delay_ms s.world }) more)
      | inr over ↦ simp (failed, over) tt
    ]
  ]

  loop-Over :
      (rounds count : ℕ) (l : Local) (s : S)
      → ((l' : Local) (s' : S) → Over (body l' s'))
      → count < max_loop_count
      → max_loop_count ≤ count + rounds
      → Over (loop rounds count l s)
  unfolding provision_loop
  loop-Over zero count l s ends low enough = absurd (omega arith)
  loop-Over (suc rounds) count l s ends low enough =
      Settles-elim (λ _ _. Unit {0}) (λ _ _. Unit {0}) (body l s) _ (ends l s)
        (λ l' s' u.
          after-Over rounds count l' s'
            (λ l₁ s₁ more. loop-Over rounds (count + 1) l₁ s₁ ends (ground arith) (omega arith)))

  -- `ProvisionDevicePKCS11WithFP` ends (or stops at a failed `assert`) within its three iterations, when
  -- each iteration does.
  pub provision_device-Settles :
      (k : KeyCert) (s : S)
      → ((l : Local) (s' : S) → Settles (λ _ _. Unit {0}) (body l s'))
      → Settles (λ _ _. Unit {0}) (provision k s)
  unfolding provision_device
  provision_device-Settles k s ends =
      Settles-elim (λ _ _. Unit {0}) (λ _ _. Unit {0})
        (loop max_loop_count 0
          (record { status = true; connection_established = false; key_cert = k }) s)
        _
        (loop-Over max_loop_count 0
          (record { status = true; connection_established = false; key_cert = k }) s ends
          (omega arith) (omega arith))
        (λ l s' u. tt)
