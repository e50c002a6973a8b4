-- ===== src/Lib.antt =====
-- The SignalWire client for JavaScript: the services, the Relay calling client, and the WebRTC calls
-- with the browser session and the Verto messages that drive them, of packages/common/src.
--
-- A session (BaseSession.ts) holds a connection (services/Connection.ts) on which it sends
-- requests and receives answers and notifications. Callbacks live in one registry
-- (services/Handler.ts), by event name and unique id: the answers of requests, the events of the
-- socket, and the subscriptions. Notifications of the Relay calling service go to the registry of
-- calls (relay/calling/Calling.ts), from there to one call (relay/calling/Call.ts), and from there
-- to those components (relay/calling/components) of it that they are about. In the browser a session
-- (BrowserSession.ts) has WebRTC calls (webrtc/BaseCall.ts) instead; a Verto message goes to
-- webrtc/VertoHandler.ts, which hands it to a call of the session's table, makes a call, or triggers
-- an event of a subscription.
--
-- Files:
--   Common         numbers, tests, lists, objects used as maps, the values of requests, texts and
--                  their lines
--   Handler        services/Handler.ts: `queue` is `Queue`; register, register_once, de_register,
--                  de_register_all, trigger. Loop: the backward loop of deRegister. Contents: the
--                  registry as a table. Tidy: histories of operations. Dispatch: trigger's walk,
--                  with the rounds of it in Walk.
--   Connection     services/Connection.ts: states of the socket, send, answers and timeouts of
--                  requests. Settling: a request and its replies.
--   Session        BaseSession.ts: execute, the queue, open, close, disconnect, keep alive.
--                  Sending: the queue. Subscriptions: subscriptions, with Links for their
--                  callbacks. Token: refreshToken and the checks of the expiry, with Warnings.
--                  Setup: services/Setup.ts.
--   Relay          Constants: util/constants/relay.ts. Devices: relay/helpers.ts, the devices of
--                  a dial or a connect, with Described and Shape for what they are and Connecting for the
--                  arguments of a connect. Media: relay/helpers.ts, the params of records, plays,
--                  prompts and taps, with Forms and Prompts. Contexts: Relay.ts,
--                  services/Receive.ts, and the dispatch of relay/messaging and relay/tasking,
--                  with Delivery for what reaches a callback and Registering. Broadcasts:
--                  services/BroadcastHandler.ts. Messaging: relay/messaging and
--                  relay/tasking/Task.ts, with Sending. Consumer: RelayConsumer.ts of
--                  packages/node/src/relay, with Ids and Listening.
--   Relay/Calling  Params: the notifications. Component: the components, with Handlers and
--                  Progress for their notification handlers, Waits for the events that are waited for, and Cover,
--                  Released, Settled and Told for who waits for them. Call: Call.ts, with Payloads,
--                  Operations, Changes, Waiting, Starting, Ending and Routing. Shorthands: the
--                  shorthands of operations and the connect, with Same and Connects. Control:
--                  Controllable.ts, actions and results, with Answers. Registry: Calling.ts, with
--                  Objects, Kept and Invariant.
--   Webrtc         webrtc/BaseCall.ts: the life of a WebRTC call, with Exchange for its SDP
--                  exchange and its ICE restarts. Life: its end. Recovery: restarts and failures. Sdp:
--                  webrtc/helpers.ts, the rewriting of session descriptions, with Payload,
--                  Digits, Order and Stereo. Devices: webrtc/helpers.ts, devices, constraints,
--                  tracks and ICE servers, with Listing and Media. Negotiation: webrtc/Peer.ts,
--                  with Offers and Shared. Requests: what a call sends. Streams:
--                  BaseCall.ts, muting and changes of devices, with Muting. Options: BaseCall.ts,
--                  the options of a new call, with Chosen.
--   Browser        BrowserSession.ts: `calls`, vertoSubscribe, vertoUnsubscribe, disconnect, with
--                  Subscribing, RoundTrip and Calls. Settings: media settings and the
--                  speed test, with SpeedTest.
--   Verto          webrtc/VertoHandler.ts: handleMessage. Table: the calls that are listed, with
--                  the steps of a call in Open. Answered: messages for a known call. LiveArray:
--                  the private events of conferences, with Packets and Parting. Conference:
--                  BaseCall.ts, the updates of a conference, with Commands, Overriding and
--                  Moderating.
--   Messages       messages/*.ts, and the Execute of packages/js/src/SignalWire.ts, with Dialog
--                  and Renaming.
--   Util           util/helpers.ts: destructResponse, with Unwrapping.
--   Examples       runs at concrete inputs.
--
-- Functions of the source that change an object return the changed object. A promise is a field
-- of the object that waits (`blocker`), or a registered callback. Identities of functions, calls
-- and messages are numbers, uuids are arguments. What goes out on the socket, and the user's
-- callbacks that are called, are recorded in order; what a callback does to the registry of
-- callbacks is the argument `body`, and other effects of a callback are further steps. The clock
-- is an argument. The loops are structural recursions; only the checks of
-- the token, which are a chain of timers, and the loop of the speed test are counted: one check for
-- each 30 seconds up to the expiry, and one more, is enough (Session/Token/Warnings), and so is one
-- round for each byte, and three more (Browser/Settings/SpeedTest).
--
-- Bounds: identities, durations and the clock are natural numbers; volumes are integers.
-- Notifications have the documented shapes (Relay/Calling/Params). The operations of Call take what
-- the user passes as Shorthands prepares it, with Relay/Media and Relay/Devices.
--
-- A message with the private events of a conference (channelPvtData) goes to Verto/LiveArray and does
-- not come to `handle_message`; a calling.call.receive goes to `on_receive`, not to `notification`.
--
-- What the browser answers (devices, permissions, descriptions) is an argument; the rounds of
-- getDevices are a list, one for each enumeration. Regular expressions are tests on characters.
--
-- Not modelled: the screen share of a call (webrtc/Call.ts), so that a hangup ends one call only;
-- the peer connection of the browser, the media elements, the content of chat messages and of the
-- members of a conference, the canvas of a conference, and the entry points of the platform packages.
-- The WebSocket, the storage, HTTP and the logger are code of others or pure input and output.
pub mod Common
pub mod Handler
pub mod Connection
pub mod Session
pub mod Relay
pub mod Webrtc
pub mod Browser
pub mod Verto
pub mod Messages
pub mod Util
pub mod Examples
