-- ===== src/Ws.antt =====
-- internal/ws: messages, connections and the hub.
pub mod Message
pub mod Hub
