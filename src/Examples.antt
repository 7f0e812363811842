-- ===== src/Examples.antt =====
-- Runs of the models at concrete inputs, and instances of the theorems.
mod Auth
mod Cloud
mod Life
mod Dgm
mod Groups
mod Handshake
mod Improv
mod Json
mod LogRing
mod Remote
mod Rmk
mod Stored
mod Wifi
mod WsBridge
mod WsServer
