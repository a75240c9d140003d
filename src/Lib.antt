-- ===== src/Lib.antt =====
-- The core of the Calvin runtime: how tokens flow between actors, when actors fire, what is logged
-- of it, and who may run what. An actor has ports; a port has a ring of tokens and endpoints; an
-- endpoint reads the ring of a port on the same runtime, or exchanges messages with its other end
-- through a tunnel. The scheduler lets the endpoints communicate and fires the enabled actors, whose
-- actions consume and produce tokens under the conditions of their contracts and while their
-- authorization holds; the metering counts the firings. The decision point answers requests by
-- policies. The port manager connects and disconnects the ports of actors, across runtimes by asking
-- the other one through a tunnel, which the two set up by messages. The storage keeps what a runtime tells others, until a plugin has it.
--
-- Which file models what (a directory beside a file has its lemmas):
--   Prelude         numbers, lists, Python's exceptions as the values of `Result`, dicts as
--                   association lists, sets as lists, integers
--   Token           calvin/runtime/north/calvin_token.py: Token, encode, decode
--   Fifo            calvin/runtime/north/fifo.py: class FIFO, one function per method; Fifo/Serial has
--                   _state and _set_state
--   Endpoint        calvin/runtime/south/endpoint.py: Local (LocalInEndpoint), TunnelIn and TunnelOut
--                   (the two tunnel endpoints), Messages (TOKEN and TOKEN_REPLY); Protocol has both
--                   tunnel ends and a channel as a step relation
--   Port            calvin/actor/actorport.py: InPort and OutPort; Port/Serial has their states
--   Actor           calvin/actor/actor.py: Fsm (Actor.FSM, verify_status), Connection (did_connect,
--                   did_disconnect and the ports' calls of them), Action (condition, guard,
--                   ActionResult), Firing (fire and the authorization check), Members (components,
--                   requirements, connections), Managed (state and _set_state)
--   Storage         calvin/runtime/north/storage.py: the local store and its flush; Sets (append,
--                   remove), Calls (any sequence of calls), Index, Objects (nodes, applications,
--                   actors, ports), Proxy (the proxy server)
--   PortManager     calvin/runtime/north/portmanager.py, with the codes of
--                   calvin/requests/calvinresponse.py: Connecting, Disconnecting
--   Tunnels         calvin/runtime/north/calvin_proto.py: class CalvinTunnel; Requests (what CalvinProto
--                   asks and answers about tunnels), Order (the order of the ids)
--   Scheduler       calvin/runtime/north/scheduler.py: class Scheduler
--   Monitor         calvin/runtime/south/monitor.py: class Event_Monitor
--   Metering        calvin/runtime/north/metering.py: class Metering
--   Dynops          calvin/utilities/dynops.py: iterables that fill over time; Growing (the class
--                   List), Union
--   Callback        calvin/utilities/calvin_callback.py: CalvinCB, CalvinCBGroup, CalvinCBClass
--   Policy          calvin/utilities/authorization/policy_decision_point.py: Matching (targets, with
--                   policy_information_point.py), Condition (evaluate_function), Decision (rules,
--                   policies and authorize)
--   Examples        concrete states on which the theorems are applied
--
-- Objects are records, a method is a function from the state to the new one, and an exception is a
-- value: the state that an exception leaves behind is not modelled. Numbers are natural numbers, as
-- Python's do not overflow; where a difference may be negative (available_tokens) it is an integer.
-- Times of tunnels, of the metering and of the storage are whole tenths of a second. What a component
-- asks of others (requests to a plugin or a peer, calls of callbacks, delayed calls) is a list of
-- events in its state; what the others do meanwhile are further calls of the component.
--
-- Loops. The loops of the endpoints take fuel that is computed from the state: the write position for
-- the repair of a mismatch, the tokens that can be read for sending, the tentative position for a NACK,
-- the length of the list for an ACK, what an iterable can give for a union; the theorems about them
-- state that they return. The loop of
-- `fire` has no bound in the source, as an actor may fire for ever: its fuel is an argument.
--
-- Parameters: an actor's own actions, guards and exception handlers, its ports as the interface
-- `Ports`, the authorization plugins, the body of a callback, the coder of a token, the policies that
-- are read from files, regular expressions and Python's order on values, the storage plugin, the
-- protocol that makes a tunnel (of the port manager), and the handlers of tunnels. The channel of a tunnel may
-- do anything but invent messages to the receiver.
--
-- Not modelled: logging, identifiers made by uuid, the event loop beyond its list of delayed calls,
-- the credentials and calvinsys objects of an actor, the managers of actors and applications, the
-- ports of shadow actors, the messages about actors and applications, the iterables that the storage fills, the other set operations, transports,
-- the control interface, the script compiler, and the single actors.
pub mod Prelude
pub mod Token
pub mod Fifo
pub mod Endpoint
pub mod Port
pub mod Actor
pub mod Storage
pub mod PortManager
pub mod Tunnels
pub mod Scheduler
pub mod Monitor
pub mod Metering
pub mod Dynops
pub mod Callback
pub mod Policy
pub mod Examples
