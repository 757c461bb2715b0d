-- ===== src/Lib.antt =====
-- rt_core, firmware for units on a CAN bus: the logic of its SMP transport over CAN and of its
-- device management protocol, CDMP.
--
-- The parts and their files. Paths are from the repository's root.
--
-- Smp: the SMP transport over CAN, src/subsys/smp. Smp/Header models SmpHeader (smp_header.h):
-- `parse` and `encode` are Parse() and Encode(). Smp/Can/FrameFormat, IdLayout, Framer,
-- Reassembler and Pacer model the classes of those names in src/subsys/smp/can. A packet is given
-- to a Framer, whose Encode() and Advance() make one frame after the other; the identifier of a
-- frame comes from IdLayout::MakeId(); the Pacer says when a frame may go; the receiver gives the
-- frames of one source to a Reassembler, whose Accept() is `accept`. Smp/Can/Receiver is the
-- receiving side of SmpCanTransport (smp_can_transport.cpp): OnFrame(), its slots, one for each
-- source in progress, and Deliver(). Smp/Can/Sender is its sending side: Enqueue() is `enqueue`,
-- ProcessTx() is `process_tx`, whose loop is `send_loop` with a round `tx_round`, and DropTx() is
-- `drop_tx`. Smp/Can/Transport joins both sides with Configure(), Bind() and Unbind(). Times are
-- the milliseconds or microseconds that the caller passes in.
--
-- Canbus: CanId and CanFilter (src/subsys/canbus/can_id.h, can_filter.h) in Canbus/Filter.
-- Canbus/Signal models CanSignalCodec (src/domain/canbus_domain/utilities/can_signal_codec.h,
-- .cpp): `encode_raw` and `decode_raw` are Encode() and Decode() between the data and the raw
-- number of a signal.
--
-- Cdmp: src/subsys/cdmp. Cdmp/CanIds models CdmpCanIdManager, Cdmp/Status the CdmpStatusMachine,
-- and Cdmp/Messages the messages of models/messages with their encoders and decoders. Cdmp/State
-- models CdmpStateService (services/cdmp_state_service.h, .cpp): Cdmp/State/Local the records of
-- the unit, Cdmp/State/Remote its copies of other units' records, Cdmp/State/Service the service
-- with its events and transmissions, Changes the calls that change a record and the digests,
-- Receive the frames that come in, Handlers the callbacks; Prelude/Tables has the array operations
-- of the standard library. SetLocalState() is `set_local_state`, ApplyRecord() is `apply_record`,
-- OnHeartbeat() is `on_heartbeat`, Transmit() is `transmit`. Zephyr's crc8_ccitt and the sizes of
-- the tables are parameters; the service holds for at most 33 slots, which is what its
-- static_assert allows.
--
-- Cdmp/Transactions models CdmpTransactionService (services/command_service): StartTransaction()
-- is `start_transaction`, CompleteTransaction() `complete_transaction`, a round of the loop of
-- CleanupExpiredTransactions() `expire_next`, which other operations may precede and follow.
-- Cdmp/Network models CdmpNetworkService (services/cdmp_network_service.h, .cpp): Devices the
-- table and the pending claims, Service the unit's status and the changes of the table with their
-- events, Claim the steps RunDiscoveryAttempt() and RunIdClaimAttempt(), Frames the management
-- frames. Cdmp/Heartbeat models CdmpHeartbeatService (services/cdmp_heartbeat_service.h, .cpp):
-- ProcessPeriodicHeartbeat() is `process_periodic_heartbeat`, ProcessFrame()
-- `process_heartbeat_frame`. Cdmp/Commands models CdmpCommandService
-- (services/cdmp_command_service.h, .cpp): SendCommand() is `send_command`, ProcessRequestFrame()
-- `process_request_frame`.
--
-- Dfu: src/subsys/dfu. Dfu/Confirmation models ImageConfirmation (image_confirmation.h, .cpp):
-- Tick() is `tick`, whose parts are `judge_probes`, `feed_and_decide` and `decide_confirmation`; a
-- `Round` is what one tick meets, and a report of the main thread that comes while a tick runs is
-- part of it. Dfu/Identity models ImageIdentity and ParseTlvs() of ImageIdentityCollector
-- (image_identity.h, .cpp).
--
-- Sensor: Sensor/Order models SensorsOrderResolver
-- (src/domain/sensor_domain/utilities/sensors_order_resolver.h, .cpp): GetProcessingOrder() is
-- `get_processing_order`, HasCyclicDependency() `has_cyclic_dependency` and ResolveDependencies()
-- `resolve_dependencies`.
--
-- EventBus: AcceptanceCache (src/subsys/event_bus/acceptance_cache.h) and the InlinePayload of
-- event.h.
--
-- How code becomes definitions. A class is a record and a member function takes and returns it; a
-- function that throws returns `none` or a result type of its own. Bytes and words are natural
-- numbers; where the source narrows a value, `u8`, `u16`, `u32` and `u64` reduce it. A span is a
-- list of bytes; the frame that an encoder writes into an array is the list of the bytes it
-- reports as written. A C++ enumeration on the wire is its underlying byte. `out_of_bounds` is a
-- read past the end of a span, which is undefined behaviour in C++.
--
-- Fuel: `frames` in Smp/Can/Framer takes the number of rounds; the length of the packet is enough,
-- since every round sends at least one byte. `send_loop` in Smp/Can/Sender takes the number of
-- rounds; `work`, the bytes and packets that wait, is enough. `next_free_id` in Cdmp/Transactions
-- has 255 rounds, after which the loop is back where it began; `cleanup_expired` has one for each
-- pending transaction; `lowest_available_from` in Cdmp/Network/Devices has one for each identifier
-- below 255. The search of Sensor/Order has one round more than there are sensors; a path of the
-- search holds each sensor once. The loop of ParseTlvs() in Dfu/Identity has as many rounds as
-- bytes. No other definition takes fuel.
--
-- The answers of Zephyr and of the CAN driver are arguments: the memory that an allocation gives,
-- the result of each SendFrame(), the handler ID of a registration.
--
-- Not modelled: locks, tasks and timers of Zephyr, logging calls, the CAN driver, and the parts of
-- the repository that no file above is about.
pub mod Prelude
pub mod Smp
pub mod Cdmp
pub mod Canbus
pub mod Dfu
pub mod Sensor
pub mod EventBus
pub mod Examples
