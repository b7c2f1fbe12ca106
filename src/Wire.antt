-- ===== src/Wire.antt =====
-- translation/OAI_L1_OCUDU/ocudu_fapi_wire.h: bytes, the cursor that reads a FAPI body, the writer
-- that builds one, and the xSM message header. Both bridges have a copy of this file.
pub mod Bytes
pub mod Cursor
pub mod Writer
pub mod Header
