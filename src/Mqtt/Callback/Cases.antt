-- ===== src/Mqtt/Callback/Cases.antt =====
-- The cases of `mqttCallback`, for proofs about it, and what it leaves alone.
use embedded_provisioning_sd.Prelude.{
  ℕ, ◌≡◌, ◌≢◌, refl, ◌∙◌, inl, inr, true, false, Option, none, some, List, [], ◌∷◌, arith, ◌==◌,
  Bool-cases,
}
use embedded_provisioning_sd.Mqtt.Library.{
  PublishInfo, Packet, State, Run, done, aborted, Settles, Settles-elim, Settles-mono,
}
use embedded_provisioning_sd.Mqtt.Outgoing.{cleanup_with_packet_id}
use embedded_provisioning_sd.Mqtt.Outgoing.Laws.{IsTable, cleanup_with_packet_id_lem}
use embedded_provisioning_sd.Mqtt.Callback.{
  type_suback, type_unsuback, type_puback, is_ack, is_publish, call_app, handle_publish,
  mqtt_callback, deliver,
}

module _ {W A : Type 0} (callback : A → PublishInfo → ℕ → A) where
  pub mqtt_callback_cases :
      (P : Run (State W A) (Unit {0}) → Type 0) (p : Packet) (s : State W A)
      → P aborted
      → ((info : PublishInfo)
          → p.publish ≡ some info
          → is_publish p.type ≡ true
          → P (done tt (call_app callback info p.packet_id s)))
      → (is_publish p.type ≡ false
          → is_ack p.type ≡ true
          → P (done tt (record s { ack_packet_id = p.packet_id })))
      → (is_publish p.type ≡ false
          → is_ack p.type ≡ true
          → p.packet_id ≢ 0
          → P (
              done tt (record s {
                ack_packet_id = p.packet_id;
                outgoing = cleanup_with_packet_id s.outgoing p.packet_id;
              })))
      → P (done tt s)
      → P (mqtt_callback callback p s)
  unfolding mqtt_callback
  mqtt_callback_cases P p s stop app sub pub_ack other = elim (Bool-cases (is_publish p.type)) [
    | inl publish ↦ rw publish (published p.publish refl publish)
    | inr no_publish ↦ elim (Bool-cases (p.type == type_suback)) [
      | inl suback ↦ elim (Bool-cases (s.subscribe_packet_id == p.packet_id)) [
        | inl same ↦ rw (no_publish, suback, same) (sub no_publish (ground arith))
        | inr differ ↦ rw (no_publish, suback, differ) stop
      ]
      | inr no_suback ↦ elim (Bool-cases (p.type == type_unsuback)) [
        | inl unsuback ↦ elim (Bool-cases (s.unsubscribe_packet_id == p.packet_id)) [
          | inl same ↦ rw (no_publish, no_suback, unsuback, same) (sub no_publish (ground arith))
          | inr differ ↦ rw (no_publish, no_suback, unsuback, differ) stop
        ]
        | inr no_unsuback ↦ elim (Bool-cases (p.type == type_puback)) [
          | inl puback ↦ elim (Bool-cases (p.packet_id == 0)) [
            | inl invalid ↦ rw (no_publish, no_suback, no_unsuback, puback, invalid) stop
            | inr valid ↦
                rw (no_publish, no_suback, no_unsuback, puback, valid)
                  (pub_ack no_publish (ground arith) (ground arith))
          ]
          | inr no_puback ↦ rw (no_publish, no_suback, no_unsuback, no_puback) other
        ]
      ]
    ]
  ]
    where
      published :
          (o : Option PublishInfo)
          → p.publish ≡ o
          → is_publish p.type ≡ true
          → P (handle_publish callback o p.packet_id s)
      published none there e = stop
      published (some info) there e = app info there e

  -- What every callback keeps: the world, the flag of the session, and a valid table.
  pub record Kept (s s' : State W A) : Type 0 where
    pub same_world : s'.world ≡ s.world
    pub same_session : s'.session_established ≡ s.session_established
    pub table : IsTable s.outgoing → IsTable s'.outgoing

  Kept-refl : (s : State W A) → Kept s s
  Kept-refl s = record { same_world = refl; same_session = refl; table = λ t. t }

  call_app-Kept :
      (info : PublishInfo) (id : ℕ) (s : State W A) → Kept s (call_app callback info id s)
  call_app-Kept info id s = elim (Bool-cases s.has_callback) [
    | inl there ↦ simp there (record { same_world = refl; same_session = refl; table = λ t. t })
    | inr absent ↦ simp absent (Kept-refl s)
  ]

  pub mqtt_callback-Kept :
      (p : Packet) (s : State W A) → Settles (λ _ s'. Kept s s') (mqtt_callback callback p s)
  mqtt_callback-Kept p s =
      mqtt_callback_cases (Settles (λ _ s'. Kept s s')) p s tt
        (λ info there e. call_app-Kept info p.packet_id s)
        (λ e a. record { same_world = refl; same_session = refl; table = λ t. t })
        (λ e a n. record {
          same_world = refl;
          same_session = refl;
          table = λ t. (cleanup_with_packet_id_lem s.outgoing p.packet_id t n).0;
        })
        (Kept-refl s)

  Kept-trans : (s t u : State W A) → Kept s t → Kept t u → Kept s u
  Kept-trans s t u a b = record {
    same_world = b.same_world ∙ a.same_world;
    same_session = b.same_session ∙ a.same_session;
    table = λ h. b.table (a.table h);
  }

  -- The event callbacks of a round of `MQTT_ProcessLoop`, for any packets in any number, stop at a
  -- failed `assert` or end with the world and the flag of the session as they were, and with a valid
  -- table if it was valid.
  pub deliver-Kept :
      (ps : List Packet) (s : State W A) → Settles (λ _ s'. Kept s s') (deliver callback ps s)
  unfolding deliver
  deliver-Kept [] s = Kept-refl s
  deliver-Kept (p ∷ ps) s =
      Settles-elim (λ _ t. Kept s t) (λ _ u. Kept s u) (mqtt_callback callback p s)
        (λ _. deliver callback ps) (mqtt_callback-Kept p s)
        (λ a t k.
          Settles-mono (λ _ u. Kept t u) (λ _ u. Kept s u) (deliver callback ps t)
            (deliver-Kept ps t) (λ b u k'. Kept-trans s t u k k'))
