-- ===== src/Mqtt/Tests.antt =====
-- The theorems on mqtt_operations.c at a concrete library: the world is a clock in milliseconds.
use embedded_provisioning_sd.Prelude.{
  ℕ, zero, suc, ◌+◌, ◌*◌, ◌/◌, ◌%◌, ◌<◌, ◌≡◌, refl, Bool, true, false, none, List, [], ◌∷◌, arith,
  map,
}
use embedded_provisioning_sd.Platform.Clock.{get_time_ms}
use embedded_provisioning_sd.Mqtt.Library.{
  success, PublishInfo, Packet, BackoffStatus, backoff_success, retries_exhausted, Credentials,
  Library, PublishPacket, State, done, Settles, Ends,
}
use embedded_provisioning_sd.Mqtt.Outgoing.{free_packet, handle_publish_resend}
use embedded_provisioning_sd.Mqtt.Outgoing.Laws.{IsTable, resent}
use embedded_provisioning_sd.Mqtt.Callback.{deliver, type_puback}
use embedded_provisioning_sd.Mqtt.Callback.Cases.{Kept, deliver-Kept}
use embedded_provisioning_sd.Mqtt.Wait.{wait_for_packet_ack}
use embedded_provisioning_sd.Mqtt.Wait.Laws.{wait_wraps, wait_needs_ack, after_reading}
use embedded_provisioning_sd.Mqtt.Wait.Terminates.{RoundsTake, wait_for_packet_ack-Settles}
use embedded_provisioning_sd.Mqtt.Topics.{publish_to_topic}
use embedded_provisioning_sd.Mqtt.Topics.Laws.{Published, publish_to_topic_lem}
use embedded_provisioning_sd.Mqtt.Session
use embedded_provisioning_sd.Mqtt.Session.{
  connect_loop, connect_with_retries, establish_mqtt_session, disconnect_mqtt_session,
}
use embedded_provisioning_sd.Mqtt.Session.Laws.{CountsAttempts}

abbrev pub backoff : ℕ → ℕ → BackoffStatus × ℕ × ℕ
backoff random zero = (retries_exhausted, 0, 0)
backoff random (suc n) = (backoff_success, 1, n)

-- Each round takes ten milliseconds and brings the packets; a connection is made if `reachable`.
abbrev pub library : Bool → List Packet → Library ℕ ℕ
library reachable packets = record {
  read_clock = λ w. (record { sec = w / 1000; nsec = (w % 1000) * 1000000 }, w);
  sleep = λ ms w. w + ms;
  random = λ w. (4, w);
  get_packet_id = λ w. (7, w);
  publish = λ info id w. (success, w);
  subscribe = λ topic len id w. (success, w);
  unsubscribe = λ topic len id w. (success, w);
  process_loop = λ w. (success, packets, w + 10);
  mqtt_init = λ w. (success, w);
  init_stateful_qos = λ w. (success, w);
  mqtt_connect = λ clean w. (success, true, w);
  mqtt_disconnect = λ w. (success, w);
  tls_connect = λ credentials w. (reachable, w);
  tls_disconnect = λ w. w;
  init_backoff = λ base max attempts. attempts;
  next_backoff = backoff;
}

abbrev pub puback : ℕ → Packet
puback id = record { type = type_puback; packet_id = id; publish = none }

-- The application counts the publishes.
abbrev count_publish : ℕ → PublishInfo → ℕ → ℕ
count_publish n info id = n + 1

abbrev used : ℕ → PublishPacket
used id = record free_packet { packet_id = id }

abbrev table : List PublishPacket
table = used 3 ∷ free_packet ∷ used 4 ∷ free_packet ∷ free_packet ∷ []

abbrev state : ℕ → List PublishPacket → State ℕ ℕ
state now outgoing = record {
  world = now;
  app = 0;
  has_callback = true;
  ack_packet_id = 0;
  subscribe_packet_id = 0;
  unsubscribe_packet_id = 0;
  outgoing = outgoing;
  session_established = true;
}

table-IsTable : IsTable table
table-IsTable = record {
  clean = (
    (λ e. absurd (ground arith)),
    ((λ e. refl), ((λ e. absurd (ground arith)), ((λ e. refl), ((λ e. refl), tt)))),
  );
  distinct = λ a h. ground arith;
}

library-RoundsTake : (packets : List Packet) → RoundsTake (library true packets) count_publish 10
unfolding get_time_ms
library-RoundsTake packets w early = (omega arith, omega arith)

pub library-CountsAttempts :
    {reachable : Bool} {packets : List Packet} → CountsAttempts (library reachable packets) (λ b. b)
library-CountsAttempts = record { fresh = λ base max attempts. refl; uses = uses }
  where
    uses : (random b : ℕ) → (backoff random b).0 ≡ backoff_success → (backoff random b).2 < b
    uses random zero e = cc
    uses random (suc n) e = omega arith

deliver-Kept_example :
    Settles
      (λ _ s'. Kept count_publish (state 0 table) s')
      (deliver count_publish (puback 3 ∷ puback 4 ∷ []) (state 0 table))
deliver-Kept_example = deliver-Kept count_publish (puback 3 ∷ puback 4 ∷ []) (state 0 table)

-- 4294967000 is within the last 296 milliseconds before the wrap.
wait_wraps_example :
    wait_for_packet_ack
      (library true (puback 7 ∷ []))
      count_publish
      5
      7
      1000
      (state 4294967000 table)
    ≡ done false
        (record (after_reading
          (library true (puback 7 ∷ []))
          count_publish
          (state 4294967000 table)) { ack_packet_id = 0 })
unfolding get_time_ms
wait_wraps_example =
    wait_wraps (library true (puback 7 ∷ [])) count_publish 4 7 1000 (state 4294967000 table)
      (λ e. omega arith) (omega arith) (omega arith)

wait_needs_ack_example :
    Ends
      (λ b _. b ≡ false)
      (wait_for_packet_ack (library true (puback 8 ∷ [])) count_publish 50 7 100 (state 0 table))
wait_needs_ack_example =
    wait_needs_ack (library true (puback 8 ∷ [])) count_publish 50 7 100 (state 0 table)
      (λ e. omega arith) (λ w. (refl, tt))

wait_for_packet_ack-Settles_example :
    Settles
      (λ _ _. Unit {0})
      (wait_for_packet_ack (library true (puback 8 ∷ [])) count_publish 101 7 100 (state 0 table))
unfolding get_time_ms
wait_for_packet_ack-Settles_example =
    wait_for_packet_ack-Settles (library true (puback 8 ∷ [])) count_publish 10 101 7 100
      (state 0 table) (library-RoundsTake (puback 8 ∷ [])) (omega arith) (omega arith)

publish_to_topic_lem_example :
    Settles
      (Published (library true []) count_publish 7 (state 0 table))
      (publish_to_topic (library true []) count_publish (97 ∷ []) 1 [] 0 (state 0 table))
publish_to_topic_lem_example =
    publish_to_topic_lem (library true []) count_publish (97 ∷ []) 1 [] 0 (state 0 table)
      (λ e. omega arith) table-IsTable (λ e. omega arith) refl

abbrev pub labels : Credentials
labels = record { cert_label = 1 ∷ []; key_label = 2 ∷ [] }

-- The table is resent: both publishes are marked, and the flag is set.
established :
    establish_mqtt_session (library true []) labels 6 (state 0 table)
    ≡ done true (state 0 (map (resent (library true [])) table))
unfolding establish_mqtt_session connect_with_retries connect_loop Session.start_session
    Session.resume handle_publish_resend
established = refl
