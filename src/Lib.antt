-- ===== src/Lib.antt =====
-- A model of parts of PrivateOnyxApp and the theorems about it: the final-hop egress proxy,
-- egress/final_hop_proxy.py, through which every restricted component reaches the network, the
-- proxy embedserv/idle_embedding_proxy.py, which runs an embedding server only while it is used,
-- the paid search engine, searxng/engines/x402exa.py with _x402_admission.py and _x402_payment.py,
-- and the round robin of search providers, searxng/patches/sitecustomize.py.
--
-- The egress proxy takes a request from a client, parses its head and the framing of its body, validates
-- the destination (which may ask a resolver), opens a connection, directly or through an upstream
-- proxy, and sends head and body on. Its parts, and the files that model them:
--   Egress/Platform: the settings of the module as the record `Settings`, `_normalize_host` and
--     `_parse_ip_literal`.
--   Egress/Hosts: the classes of addresses and host names, from `_ip_block_reason` to
--     `_plain_http_allowed`. Egress/Ports: `_parse_allowed_host_ports` and its printer.
--   Egress/Dns: the DNS wire format. Egress/Network: the resolvers, over the record `World`.
--   Egress/Validate: the resolvers of configured endpoints and `_validate_destination`, one function
--     for each stage, in the order of the code.
--   Egress/Framing: header lines and `_parse_request_framing`. Egress/Head: the head that
--     `_handle_forward_http` sends on. Egress/Body: `_forward_request_body`.
--   Egress/Socks: `_socks5_connect`. Egress/Connect: the configuration of the upstream proxy, the
--     connections to validated addresses, to a proxy and, by SOCKS5 or HTTP CONNECT, through it.
--   Egress/Handlers: `_reject_blocked_destination` and `_handle_connect`. Egress/Forward:
--     `_handle_forward_http`. Egress/Server: `_allowed_client_reason` and `handle_request`, which
--     reads a request and calls the handlers.
--   Egress/Address: the part of Python's `ipaddress` that the code asks: networks of IPv4 and IPv6
--     addresses, dotted decimal notation. Common: shared types, Boolean tests, lists, sums of
--     weights, texts, decimal numbers, JSON, results that may raise, actions on a state, and
--     assertions about these.
--
-- The embedding proxy starts its bundled server with the first request and stops it when it was idle.
--   Embedding/Lifecycle: the class `Lifecycle`, one function for each section under its condition
--     variable. Embedding/Lifecycle/Startup: the launch of the server and `_child_healthy`.
--     Embedding/Lifecycle/Threads: the threads that call it, and their interleavings as schedules.
--   Embedding/Handler: `ProxyHandler`, as the list of its effects. Embedding/Slots: the semaphore of
--     `ProxyServer`.
--
-- The paid engine makes one attempt at a time, and pays for a request with a signature.
--   Searxng/Admission: the operations of _x402_admission.py on its state, with the rounds of `wait`.
--     Searxng/Admission/Threads: the threads of `process` that call them, and their interleavings.
--   Searxng/Payment: `exchange` with the outcome that it fills in, and, in
--     Searxng/Payment/Policy, the terms of `PaymentClient`. Searxng/Payment/Results: `parse_results`.
--   Searxng/RoundRobin: the choice of a provider for a search, from searxng/patches/sitecustomize.py.
--     Searxng/RoundRobin/Search: the waits between rounds of it, and the attempts of a search.
--
-- A text is the list of its code points, a byte is a number below 256, and a Python exception is a
-- value of `Raised` with its kind and message. The messages of library exceptions are not modelled.
-- The effects of the egress proxy on the network are events, and an action carries their history; the
-- bytes written to the client are the result of a handler, a `Reply`.
-- What Python leaves to other code is a parameter: the record `Python` (IDNA, case of characters
-- outside ASCII, urlparse, IPv6 literals, inet_aton, UTF-8 decoding, base64), the outcome of a TLS
-- handshake, what a peer sends and does on a connection that opens, and the record `World` (the
-- answers of resolvers and of connections, which may depend on the whole history of events). What the
-- theorems rely on of resolvers and `inet_aton` is the record `Answers` of Egress/Network/Answers. For
-- the embedding proxy the parameters are `int`, `json.dumps` and the server's answers; for the paid engine the x402
-- SDK (the record `Sdk`), the answers of the provider, the checks of the clock, and the tokens, which are
-- distinct and numbered as they are drawn.
--
-- Threads run by turns: `step` and `run` of the two Threads modules let the thread at a position of a
-- schedule do one section under the lock, in any order. They stand for Python's scheduler.
--
-- Loops: the bytes of a body are sent on with as much fuel as bytes remain, since every read takes
-- one at least, and `send_exactly` comes to its end with it. Chunks and trailers have one more than
-- the bytes of the stream, since every line that is accepted has bytes, and so have header lines.
-- A DNS name has at most 127 labels, the limit of the code. Decimal numbers have at most 4300
-- digits, the limit of Python's `int`. The loop of a startup runs on the list of what its rounds see,
-- and has no outcome where they do not end it. A selection runs on the list of what its rounds
-- find, the requests of an attempt on the list of the selections for it, and a search on the list of
-- its attempts: one more than there are providers is enough.
--
-- Not modelled: the lengths of timeouts (a SOCKS5 read and the reading of a request may time out,
-- and an error of a connection may be a timeout), the reset of a connection behind the exchange that
-- opens it, the event loop, the pipes between two connections, TLS, logging, the sockets of a DNS
-- query, the text of resolver errors, the signals that stop a child, the command line of the
-- embedding proxy, a read of an embedding request that times out, the body of a paid request, the
-- errors handed to SearXNG, the parameters of a search's requests, and the other components.
pub mod Common
pub mod Egress
pub mod Embedding
pub mod Searxng
