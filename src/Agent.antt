-- ===== src/Agent.antt =====
-- The MQTT agent support under libraries/mqtt_agent/source: subscriptions, the command pool, the thread
-- of the agent, and the queue of incoming publishes.
pub mod Subscriptions
pub mod Pool
pub mod Thread
pub mod Incoming
pub mod Calls
pub mod Delete
pub mod Tests
pub mod ContextTests
mod DeleteTests
