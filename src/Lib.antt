-- ===== src/Lib.antt =====
-- Verification of the embedded provisioning SDK: how a device gets its own certificate from AWS IoT
-- Fleet Provisioning over MQTT, and the parts below that for threads and time.
--
-- The program's parts, from the bottom up, and the files that model them:
--
-- Platform: platform/posix. `Platform/Clock` has the arithmetic of clock_posix.c (Clock_GetTimeMs is
-- `get_time_ms`, Clock_SleepMs is `sleep_time`) and of the deadlines of timed waits. `Platform/Queue`
-- has pal_queue/pal_queue.c: `create`, `send` and `receive` are iotshdPal_syncQueueCreate, ...Send and
-- ...Receive over a buffer of bytes, and `Platform/Queue/Abstract` the queues up to what they hold.
-- `Platform/Event` has pal_event/pal_event.c: `create`, `set_event`
-- and `wait`. `Platform/Memory` has the deletion of both, over the blocks that `malloc` gave.
--
-- Agent: libraries/mqtt_agent/source. `Agent/Subscriptions` has subscription_manager.c:
-- `add_subscription`, `remove_subscription` and `handle_incoming_publishes`. `Agent/Pool` has
-- freertos_agent_message.c (`message_send`, `message_receive`) and freertos_command_pool.c
-- (`initialize_pool`, `get_command`, `release_command`), which keep pointers in a queue of the
-- platform. `Agent/Thread`, `Agent/Incoming` and `Agent/Calls` have mqtt_agent.c: the thread of the
-- agent (`init`, `thread_loop`), user contexts with their queues of publishes (`create_user_context`,
-- `enqueue_publish`, `dequeue_incoming_publish`, `free_incoming_publish`), and the calls that wait for
-- the agent with the callbacks that complete them (`publish`, `add_subscription_sync`,
-- `remove_subscription_sync`); `Agent/Calls/Refine` relates their wait to that of `Platform/Event`.
-- `Agent/Delete` has iotshdDev_MQTTAgentDeleteUserContext.
--
-- Mqtt: demos/fleet_provisioning/fleet_provisioning_keys_cert/mqtt_operations.c. `Mqtt/Library` has
-- the interface to coreMQTT, the backoff library, the TLS transport and the clock, and the file's
-- globals as `State`; `Mqtt/Outgoing` the table of unacknowledged publishes; `Mqtt/Callback`
-- mqttCallback; `Mqtt/Wait` waitForPacketAck and ProcessLoopWithTimeout; `Mqtt/Topics`
-- SubscribeToTopic, UnsubscribeFromTopic and PublishToTopic; `Mqtt/Session` EstablishMqttSession and
-- DisconnectMqttSession.
--
-- Provisioning: in the same directory. `Provisioning/Serializer` has fleet_provisioning_serializer.c
-- over TinyCBOR as an interface, and `Provisioning/Print` its getStringFromCbor;
-- `Provisioning/Response`, `Provisioning/Stage` and `Provisioning/Flow` have
-- fleet_provisioning_keys_cert_demo.c: the publish callback, waitForResponse and
-- ProvisionDevicePKCS11WithFP. `Provisioning/Token` puts the PKCS #11 part under its two calls of it.
--
-- Pkcs11: pkcs11_operations.c in the same directory. `Pkcs11/Module` has the interface to PKCS #11;
-- `Pkcs11/Files` readFile; `Pkcs11/Objects` destroyProvidedObjects and pkcs11CloseSession;
-- `Pkcs11/Keys` provisionPrivateKey and its two kinds of keys; `Pkcs11/Certificates`
-- provisionCertificate; `Pkcs11/Credentials` loadClaimCredentials, loadCertificate and loadPrivateKey,
-- which the provisioning flow calls.
--
-- Transport: platform/posix/transport/src/mbedtls_pkcs11_posix.c. `Transport/Library` has the
-- interface to mbedTLS, and the context as `Context`; `Transport/Keys` the client's key and
-- certificate and the callbacks for random bytes and signatures; `Transport/Configure` contextInit,
-- contextFree and configureMbedtls; `Transport/Connect` Mbedtls_Pkcs11_Connect; `Transport/Io`
-- Mbedtls_Pkcs11_Disconnect, ...Recv and ...Send. The MQTT part and the agent take the transport as
-- calls of their `Library`: `Transport/Broker` has the credentials that each makes, and puts the
-- transport under that interface.
--
-- Demo: main.c in the directory of Mqtt. `Demo/Main` has the start, `applicationLoop` and the rounds
-- of main's loop; `Demo/Handler` prvDataModelHandlerThread with its callback, over the agent's calls,
-- its subscriptions and its queues.
--
-- A function of the source that changes state takes the state and gives the new one. A call of the
-- MQTT part gives a `Run`: a result, a stop at a failed `assert`, or `unfinished` where the fuel is
-- used up. What third-party code does is a function of a record (`Library`, `CborParser`,
-- `CborEncoder`, `KeyStore`, `MatchTopic`, `AgentLibrary`, `Commands`, `Module`, `KeyParser`, `Stdio`,
-- `Tls`, `Stdlib`, `PrettyPrinter`, `Threads`), on a state of the world of any type; what a theorem
-- needs of it is a hypothesis. For threads, a critical section under a mutex runs whole, and the
-- rounds of a timed wait are given by a list that says what other threads do meanwhile and how each
-- wait ends.
--
-- Integers of 32 bits wrap where the source computes with them: the indices and offsets of the queue,
-- the clock and its deadlines. Fuel: the loops of `Mqtt/Wait` need one more than the timeout in
-- milliseconds, the connection needs one more than its five retries, and the three iterations of the
-- provisioning flow are given. The loop that destroys objects needs more fuel than the token has
-- objects, and the handshake more than a measure that each call lowers that asks for more.
--
-- Not modelled: one interleaving of the agent's thread and the thread of the demo: for the latter a
-- list of turns says what the agent completes and which publishes come in at each of its calls, and in
-- the rounds of main a `Traffic` says which critical sections all threads run on the agent's two
-- queues. The
-- device functions of main.c that are empty, and logging, have no definition. In `Platform/Memory` a
-- block is there or not, and what it holds beside a queue is not kept. Pointers to buffers are the
-- bytes that they lead to when they are passed: the table of publishes keeps the payload as it was,
-- while the source keeps a pointer. The asserts on pointers that are not NULL, and that on the length
-- of the certificate id buffer, hold at the calls modelled.
--
-- A module is checked with `antt check`; each property below has, where it has hypotheses, a use at a
-- concrete input in one of the Tests modules of its part.
pub mod Prelude
pub mod Platform
pub mod Agent
pub mod Mqtt
pub mod Pkcs11
pub mod Transport
pub mod Provisioning
pub mod Demo
