-- ===== src/Lib.antt =====
-- Two protocols of DCP. The variable dissemination protocol Vardis: how nodes of a swarm keep copies
-- of each other's variables, by instruction records that travel in the payloads of beacons. The
-- beaconing protocol BP: how the payloads of several client protocols, of which Vardis is one, get
-- into beacons and out of them. The code is under dcp-vardis-project/dcpimplementation/src/dcp, below
-- written dcp/.
--
-- Parts of the program, and the files that model them:
-- - Common/Area, Common/TimeStamp: dcp/common/area.h (memory areas into which records are
--   serialized and from which they are read) and TimeStampT of
--   dcp/common/global_types_constants.h. What was written and what is still to be read are lists of
--   bytes; the counters `used` and `available` are kept beside them, as in the code.
-- - Vardis/Types, Vardis/Types/Codec: the records of dcp/vardis/vardis_transmissible_types.h with
--   `serialize` and `deserialize`. Vardis/Seqno: the circular order of sequence numbers.
-- - Vardis/Queue: VarIdQueue of dcp/vardis/vardis_protocol_data.h.
-- - Vardis/Store: the variable store of dcp/vardis/vardis_store_interface.h and
--   dcp/vardis/vardis_store_array.h, one slot for each identifier.
-- - Vardis/ArrayStore: the same store as dcp/vardis/vardis_store_array.h lays it out in one piece of
--   memory, with a free list of buffers at offsets in two byte arrays. Common/Memory: byte arrays.
-- - Common/RingBuffer: dcp/common/fixedmem_ring_buffer.h. Common/FiniteQueue: the queue in shared
--   memory of dcp/common/sharedmem_finite_queue.h, two ring buffers of descriptors and a byte array.
--   Its calls get as arguments whether the lock was obtained and how a wait ended.
-- - Bp/Types: dcp/bp/bp_transmissible_types.h. Bp/Segment: dcp/bp/bp_shm_control_segment.cc, what a
--   client protocol does to hand over a payload. Bp/Command: dcp/bp/bp_management_command.cc, the
--   registration of client protocols. Bp/Receive: dcp/bp/bp_receiver.cc, from a received beacon to
--   the queues of the clients.
-- - Vardis/Data: the state of VardisProtocolData, the store and six queues.
-- - Vardis/Receive: `process_var_*` of dcp/vardis/vardis_protocol_data.cc, what a node does with each
--   received record. Vardis/Service: `handle_rtdb_*_request`, the service for applications.
-- - Vardis/Transmit: `numberFittingRecords`, the six `makeICType*` functions, and `construct_payload`
--   of dcp/vardis/vardis_transmitter.cc. The six functions have the same shape; `make_container` is
--   this shape, a value of type Kind what is special to each.
-- - Vardis/Receiver: `process_received_payload` of dcp/vardis/vardis_receiver.cc.
-- - Vardis/Scrub: the batches of dcp/vardis/vardis_scrubber.cc and a pass of them. Vardis/Scrub/Order:
--   the order of the set of active variables, through which a pass goes with an iterator.
-- - Vardis/Invariant: the invariant of the protocol data, `Good`, with the lemmas that each operation
--   keeps it. Vardis/History: the whole node as a sequence of these operations.
-- - Prelude: lists and tests over native numbers; Prelude/Effect: code that changes a state and may
--   throw. An exception keeps the state that it was thrown in. Common/Tests, Vardis/Tests, Bp/Tests:
--   small queues, nodes and segments on which the theorems are tried.
--
-- Numbers: a field of one byte or of 16, 32 or 64 bits is a natural number, and an operation that
-- wraps is written with its modulus; `count--` on a byte is `(n + 255) % 256`. Time points are counts
-- of nanoseconds. Each reading of the system clock is an argument.
--
-- Fuel: the loop over the containers of a payload (`extract_loop`) runs on as much fuel as the payload
-- has bytes. Each round takes at least the two bytes of a header, so that it is enough. The loop of
-- the popall calls (`drain`) runs on as much fuel as the queue has entries, and takes one in each round.
-- The batches of a scrubbing pass (`scrub_batches`) run on as much fuel as there are active variables,
-- and each looks at one at least.
--
-- Parameters: the bytes in which the host stores a time stamp (HostClock in Common/TimeStamp), and those
-- in which it stores a BPReceivePayload_Indication; what shared memory holds before it is set up.
--
-- Locks: Vardis/History takes as one step what runs under one lock of the variable store: a payload
-- that is received, a request, a payload that is built, and one batch of a scrubbing pass, between
-- two of which the thread gives up the lock. The option lockingForIndividualContainers, which gives
-- up the lock between two containers, is taken to be off. A scrubbing pass reads the beginning and
-- the size of the set of active variables without the lock; a step of scrubbing is there for any
-- number and any iterator. `scrub` is a pass during which no other thread gets the lock.
--
-- Memory: the two byte arrays of Vardis/ArrayStore are functions on all offsets, so that an access
-- beyond the arrays of the code is not an error there.
--
-- Not modelled: threads, sockets, logging and configuration files (input and output); the transmitter
-- of BP and its client library; the averages that the BP receiver keeps (floating point); the AVL tree
-- in fixed memory and SRP; the simulation models, which are another program.
pub mod Prelude
pub mod Common
pub mod Vardis
pub mod Bp
