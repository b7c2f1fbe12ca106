-- ===== src/Endpoint.antt =====
-- core/OAI_OCUDU/oai_p7.c: the UDP endpoint towards the L1. Receive buffers, the reassembly of segmented
-- messages, and the segmentation of what is sent.
pub mod Segments
pub mod RxPool
pub mod Listener
pub mod Send
mod Tests
