-- ===== src/Indication.antt =====
-- translation/OAI_L1_OCUDU/L1_to_L2: nFAPI uplink indications of an OAI L1, translated to OCUDU FAPI
-- messages for the L2. One child for each indication, and one for what they share.
pub mod Relay
pub mod Sinr
pub mod Crc
pub mod RxData
pub mod Rach
pub mod Uci
pub mod Slot
pub mod Xsm
pub mod Dispatch
pub mod Response
mod Tests
