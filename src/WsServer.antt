-- ===== src/WsServer.antt =====
-- components/ws_server/ws_server.cpp: the WebSocket clients, their sign-in state and every frame that
-- is sent to them.
pub mod Clients
pub mod Send
pub mod Handshake
