-- ===== src/Wire.antt =====
-- What travels between the programs: the messages of observer_common/src/gen, the helpers of
-- observer_common/src/util.rs and the conversions of observer_common/src/types.rs.
pub mod Common
pub mod Rpc
pub mod Util
pub mod Convert
