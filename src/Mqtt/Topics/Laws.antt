-- ===== src/Mqtt/Topics/Laws.antt =====
-- What a publish leaves in the table of unacknowledged publishes, and what a full table does.
use embedded_provisioning_sd.Prelude.{
  ℕ, ◌+◌, ◌<◌, ◌≡◌, ◌≢◌, refl, inl, inr, Bool, true, false, some, List, arith, length, ◌==◌,
  if◌then◌else◌, Bool-cases, Option-cases, ==_of_ne,
}
use embedded_provisioning_sd.Mqtt.Library.{
  is_success, PublishInfo, PublishPacket, Library, State, Settles,
}
use embedded_provisioning_sd.Mqtt.Outgoing.{is_free, get_next_free_index}
use embedded_provisioning_sd.Mqtt.Outgoing.Laws.{
  IsTable, entry, count_id, count_id-set, set-IsClean, cleanup_at-set, next_free_entry,
}
use embedded_provisioning_sd.Mqtt.Topics.{filled, publish_at, publish_to_topic}

module _ {W B A : Type 0} (lib : Library W B) (callback : A → PublishInfo → ℕ → A) where
  -- What `PublishToTopic` promises of its result: true, and the publish is in the table under the new id;
  -- or false, and the table is as it was.
  abbrev pub Published : ℕ → State W A → Bool → State W A → Type 0
  Published id s true s' =
      IsTable s'.outgoing
      × ((a : ℕ)
          → a ≢ 0
          → count_id a s'.outgoing ≡ count_id a s.outgoing + (if id == a then 1 else 0))
  Published id s false s' = s'.outgoing ≡ s.outgoing

  publish_at_lem :
      (i : ℕ) (topic : List ℕ) (len : ℕ) (payload : List ℕ) (plen : ℕ) (s : State W A)
      → IsTable s.outgoing
      → (lib.get_packet_id s.world).0 ≢ 0
      → count_id (lib.get_packet_id s.world).0 s.outgoing ≡ 0
      → get_next_free_index s.outgoing 0 ≡ some i
      → Settles
          (Published (lib.get_packet_id s.world).0 s)
          (publish_at lib callback i topic len payload plen s)
  unfolding publish_at
  publish_at_lem i topic len payload plen s table valid fresh found =
      let (k, at, b, f) = next_free_entry s.outgoing 0 i found in
      let same : k ≡ i = omega arith in
      let inside : i < length s.outgoing = rw same at b in
      let free : is_free (entry s.outgoing i) ≡ true = rw same at f in
      let (id, w) = lib.get_packet_id s.world in
      let packet : PublishPacket = filled (entry s.outgoing i) topic len payload plen id in
      let counts = λ (a : ℕ). count_id-set a s.outgoing i packet inside in
      elim (Bool-cases (is_success (lib.publish packet.pub_info id w).0)) [
        | inl sent ↦ rw sent (
          record {
            clean = set-IsClean s.outgoing i packet table.clean (λ e. absurd (ground arith));
            distinct = λ a n. ground (arith, counts a, table.distinct a n);
          },
          λ a n. ground (arith, counts a),
        )
        | inr failed ↦ rw failed (cleanup_at-set s.outgoing i packet table.clean free)
      ]

  -- `PublishToTopic` on a valid table, with a topic that is not empty and a packet id from coreMQTT that
  -- is not 0 and not in the table: it ends; if it returns true the table is valid, holds the new id once
  -- and every other id as often as before; if it returns false the table is unchanged.
  pub publish_to_topic_lem :
      (topic : List ℕ) (len : ℕ) (payload : List ℕ) (plen : ℕ) (s : State W A)
      → len ≢ 0
      → IsTable s.outgoing
      → (lib.get_packet_id s.world).0 ≢ 0
      → count_id (lib.get_packet_id s.world).0 s.outgoing ≡ 0
      → Settles
          (Published (lib.get_packet_id s.world).0 s)
          (publish_to_topic lib callback topic len payload plen s)
  unfolding publish_to_topic
  publish_to_topic_lem topic len payload plen s ne table valid fresh =
      elim (Option-cases (get_next_free_index s.outgoing 0)) [
        | inl full ↦ rw (==_of_ne len 0 ne, full, publish_to_topic) refl
        | inr (i, found) ↦
            rw (==_of_ne len 0 ne, found, publish_to_topic)
              (publish_at_lem i topic len payload plen s table valid fresh found)
      ]
