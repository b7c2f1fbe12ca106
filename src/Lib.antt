-- ===== src/Lib.antt =====
-- xFAPI sits between a 5G layer 1 and a layer 2 that speak different dialects of the FAPI interface,
-- and translates between them. This library models the pairing of an OpenAirInterface L1 (nFAPI,
-- big-endian) with an OCUDU L2 (OCUDU-FAPI, little-endian), in C.
--
-- The parts and the files that model them:
--
-- - Prelude: the lists, Boolean tests and integers that all parts share.
-- - Wire (src/translation/OAI_L1_OCUDU/ocudu_fapi_wire.h): the bytes of both dialects. Wire.Bytes
--   reads and writes integers; Wire.Header is `ocudu_xsm_hdr_parse` and `ocudu_xsm_hdr_build`;
--   Wire.Cursor is the reader `ocudu_rd_t` and the `be_rd_t` of the indications, each read a function
--   from a cursor to a value and a cursor; Wire.Writer is `ocudu_wr_t`. Wire.Cursor.Parser has pure
--   parsers, and Wire.Cursor.Faithful relates a read to one: where the parser succeeds the read has
--   its value and its rest, where it fails the read latches the error, and it never leaves the body.
--   Wire.Writer.Emits does the same for writes and the bytes they emit.
-- - Indication (src/translation/OAI_L1_OCUDU/L1_to_L2): from the L1 to the L2.
--   `ocudu_l1l2_crc_indication` and the like are Indication.Crc, RxData, Rach, Uci and Slot, which
--   share the frame of Indication.Relay; `cqi_to_ul_sinr_metric` is Indication.Sinr,
--   `ocudu_p7_translate_to_l2` is Indication.Dispatch, and `ocudu_l2_xsm_put`, to which each of them
--   hands its body, is Indication.Xsm. `ocudu_p5_send_response_to_l2` is Indication.Response. A
--   translator is a function to a Delivery: what it drops, or the type and bytes that it hands on. The
--   Spec modules say what a message should become, by a parser and the bytes of each PDU.
-- - Request (src/translation/OAI_L1_OCUDU/L2_to_L1/P7): from the L2 to the L1. Request.Tx is
--   `ocudu_l2l1_tx_data_request`; Request.Dl is `ocudu_l2l1_dl_tti_request`, in the same way, and
--   Request.Dl.Dci `ocudu_l2l1_ul_dci_request` of the same file; Request.Ul is
--   `ocudu_l2l1_ul_tti_request`, with a module for each kind of uplink PDU (its capture structure and
--   walker, the nFAPI PDU and its mapper) and Request.Ul.Mapping for `derive_bg` and `ul_bf_none`.
--   Request.Gather is the PDU loop and Request.Start the checks before it; Request.Dispatch is
--   `ocudu_p7_translate_and_send`, and Request.P5 `ocudu_p5_translate_and_send`, to which
--   Request.Forward (src/core/OAI_OCUDU/forwarder_l2_to_oai.c) routes the messages of the L2.
--   Request.Config is `ocudu_l2l1_config_request`
--   (src/translation/OAI_L1_OCUDU/L2_to_L1/P5/config_request.c), which is given whether each
--   allocation succeeds: Cell has the reads, Values and Message what is sent, and Request.Config
--   itself the calls of the allocator. A translator ends in an Outcome: a return code, a message sent
--   with the code that follows, or undefined behaviour, which a numerology of 31 or more leads to.
-- - Queue (src/utils/task_mngr/itc_queue.c): the bounded queue between tasks, as steps in any order of
--   the sections that its mutex guards and of the end of the mutex, behind which a lock is undefined
--   behaviour; Queue.Laws has the list that it stands for.
-- - Endpoint (src/core/OAI_OCUDU/oai_p7.c): the UDP endpoint towards the L1. Endpoint.RxPool is the
--   pool of receive buffers, Endpoint.Listener has the two threads of the receive side as steps in any
--   order, with the queue between them and their stop (Stop and Returns have when it returns),
--   Endpoint.Segments the reassembly of `oai_p7_handle_segmented` with the dispatch and the receive
--   task around it, and Endpoint.Send `oai_vnf_send_p7`. Endpoint.Segments.Entries says what an entry
--   holds on the way, Endpoint.Segments.AnyOrder takes a message through the table, and
--   Endpoint.Send.RoundTrip from the sender to the receiver.
-- - Vnf (src/core/OAI_OCUDU/oai_vnf.c): the control plane towards the L1. Vnf has the state, the
--   requests of the handshake, `oai_vnf_enter_running` and `oai_vnf_close_pnf_session`; Vnf.Message is
--   `oai_vnf_handle_p5_message`, Vnf.Listener a round of `oai_vnf_p5_listener_thread`, Vnf.Lifecycle
--   `oai_vnf_start` and `oai_vnf_stop`, and Vnf.Requests the translators of the cell requests without
--   a body. What the system and the codec answer is an argument, and what is done to them is a log; a
--   call of `oai_p7_threads_stop`, and of `oai_p7_threads_start` where it fails, is taken to return
--   there, and Endpoint.Listener says when it does. Vnf.Session has the invariant of a session,
--   Vnf.Life what holds from the start to the stop.
-- - Pool (src/core/OCUDU_OCUDU/pair0_master_pool.c): the pool of shared-memory blocks, as steps in any
--   order of the sections that its mutex guards; Pool.View has the free stack and the blocks that each
--   of the sixteen slots holds, Pool.Laws and Pool.Recycle what an acquire and a slot indication do to
--   them, and Pool.Age how a block moves through the slots. A block stands for its index.
--
-- Memory is a list of bytes (numbers below 256), an integer of w bits a natural number whose
-- wrap-around is written out, and a null pointer none. The loops run over a count that the message
-- holds, so that they are structural recursion and need no fuel. Two have fuel: the loop over the SSB
-- bitmap of a CONFIG.request, whose counter wraps, 2^26 + 1 rounds, which it uses up only if it never
-- ends, and the wait of the forwarder for the PNF, 501 polls, which are enough. A loop of a thread is
-- a list of its rounds. The contents of an uninitialised buffer are an argument.
--
-- Not modelled: logging and the statistics strings of the dashboard, which no result depends on; the
-- libraries for the nFAPI codec, the xSM shared memory, SCTP and DPDK, and the operating system, whose
-- answers and constants are arguments; the AERIAL and OCUDU-only pairings, the configuration files,
-- and the dashboard.
pub mod Prelude
pub mod Wire
pub mod Indication
pub mod Endpoint
pub mod Pool
pub mod Queue
pub mod Request
pub mod Vnf
