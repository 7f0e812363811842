-- ===== src/Rmk.antt =====
-- components/rainmaker_gw: the type map and the set of exposed devices.
pub mod TypeMap
pub mod Store
