-- ===== src/Lib.antt =====
-- sip-relay, a relay between SIP telephone calls and voice agents.
--
-- A call comes in as a SIP INVITE (internal/sip), which carries an SDP offer (internal/sdp). The server
-- picks the backend of the extension from the configuration (internal/config), opens an RTP port
-- (internal/rtp) and creates a call (internal/call), which starts when the ACK comes. A running call
-- has a goroutine that sends the caller's audio to the backend, one that takes the backend's events, and
-- one that plays the backend's audio to the caller at the pace of a clock, out of a ring of bytes. At the
-- end the call is closed with a reason, from which the server decides whether it sends a BYE.
--
-- Which file models what:
--   Prelude: lists, maps with text keys, integers and tests, which all parts share.
--   Backend: internal/backend/backend.go, the types EventType, Event and the errors of a stream.
--   Ring: internal/call/ring.go, byteRing. `write`, `read` and `reset` return the new ring; a slice that
--     Read fills is the result.
--   Rtp: internal/rtp/port.go. Rtp.antt has the Port, Listen, SetRemote, FrameBytes and WriteFrame;
--     Rtp/Bind listenUDPRange; Rtp/Receive readLoop in between the receives from its channel;
--     Rtp/Timeout the loop of Run; Rtp/Shutdown the interleaving of Run's goroutine and readLoop's at the end of a port, as a step relation.
--   Playout: internal/call/call.go, outboundRTPWriter: handleCommand, emitFrame, emitDue and run over the
--     sequence of commands and ticks that its select meets.
--   Call: internal/call/call.go, Start, Close, CloseWithReason, setEndReason, finishDone and what run
--     does to the call; shouldSendBYE of internal/sip/server.go. Call/Dial has dialBackend as a step
--     relation of its two goroutines.
--   CallLog: internal/calllog/calllog.go, the Recorder, NewClients, Publish and Close, and `finish` of
--     internal/call/call.go, which uploads the recording, deletes it and publishes the entry of the call.
--   Relay: internal/call/call.go, conversationHistory, receiveBackend and sendRTPToBackend.
--   Config: internal/config/config.go, Default, Load, the defaults of profiles, Validate, Route and the CES
--     resource names.
--   Sdp: internal/sdp/sdp.go, parseOffer, findPCMU, connectionAddress and the answer.
--   Audio: internal/audio/pcm.go and internal/audio/mulaw.go. Audio/Float has the operations of float64,
--     Audio/Lowpass lowpass.go, Audio/Resample resample.go and Audio/Transcode transcoder.go.
--   Websocket: internal/websocket/stream.go, recvLoop, sendLoop, handleEvent, emit and finish;
--     Websocket/Connect Dial, createSession, connect and endpointURL; Websocket/Connect/Playback recvLoop
--     with its output transcoder.
--   Ces: internal/ces/stream.go, dialGRPC and emitServerMessage; Ces/Stream the interleaving of recvLoop,
--     sendLoop, the reader and the owner of a stream, as a step relation.
--   Sip: internal/sip/server.go: Sip.antt has the registry (store, remove, lookup), onAck, onBye,
--     onNoRoute, awaitACK, the wait for a call's end, Close and backendForRoute; Sip/Invite onInvite and
--     the server over a sequence of events; Sip/Bye newServerBYE, sendBYE and headers; Sip/Startup what
--     Start opens and Close closes.
--   Names: sessionID of internal/sip/server.go, RecordingObjectName of internal/calllog/calllog.go.
-- In each directory the other files hold proofs, named for what they prove; Tests has examples.
--
-- State and effects. A method that changes its receiver takes the state and returns the new one. A lock
-- makes each locked section one step, with the calls that follow it in the same method. What a clock, a socket, a random source or a channel delivers is an
-- argument, most often a list of what a select meets, and a proof is for all such lists.
-- Machine integers keep their wrap-around (`% 2 ^ 16` for a sequence number, `% 2 ^ 32` for a timestamp,
-- `% 2 ^ 64` for counters); a Go int that may be negative is an integer. A time is a number of
-- nanoseconds, with 0 for the zero time; two instants are less than 292 years apart, so that the
-- difference fits a duration. Audio and transcripts are lists of bytes, a text of SDP a list of code points.
-- A float64 is a value of any type with the operations of `Float`, of which no law is assumed; what needs
-- positions in the input to be computed exactly has this as a hypothesis, `IsExact`: the position is a
-- fraction with a fixed denominator.
-- Loops are structural recursion on what the environment delivers; the search of listenUDPRange recurs on
-- the number of tries, which is the loop's own bound. The loop of Process in resample.go recurs on fuel: a
-- fuel of the samples in the window times the denominator is enough, since each round moves the position
-- by at least one part of it.
--
-- Not modelled: logging; pointers that are nil, beyond those named in the files; a change of the port's peer
-- while a writer runs; the libraries for SIP, SDP, RTP, WebSocket, gRPC, YAML, JSON and the cloud services,
-- whose answers are arguments; the rounding of floating-point numbers. contactHeader, onOptions and
-- randomTag of the SIP server and the accessors of the RTP port have no model. main and the tools under
-- test/ are glue.
pub mod Prelude
pub mod Backend
pub mod Ring
pub mod Rtp
pub mod Playout
pub mod Call
pub mod Relay
pub mod Config
pub mod Names
pub mod Sdp
pub mod Audio
pub mod Websocket
pub mod Sip
pub mod Ces
pub mod CallLog
