-- ===== src/Client.antt =====
-- client: the cache of callbacks, the pool of servers, what the client does with responses, how it
-- sends, and its methods.
pub mod Cache
pub mod Pool
pub mod Responses
pub mod State
pub mod Udp
pub mod Tcp
pub mod Sending
pub mod Requests
pub mod Config
pub mod Runs
pub mod Health
pub mod Examples
