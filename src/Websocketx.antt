-- ===== src/Websocketx.antt =====
-- websocketx: the hub, the clients, and the goroutines around them as steps on one world.
pub mod Hub
