-- ===== src/Lib.antt =====
-- Aegon, a C++23 web and data framework: a verification library for the parts of it that carry
-- their own logic on bytes and tables.
-- The program's parts follow the folders of src/. Bytes enter through src/net and the engines of
-- src/core, which are not modelled: they move buffers and own no format. The protocol code of
-- src/http turns a buffer into a request or a frame and back, a router picks the handler, and
-- src/data holds the stores that handlers use.
-- A byte is a number below 256 and a string_view or buffer is a list of them. A size_t or wider
-- word is a number, with its wrap-around written out where the code can reach it.
-- The files:
--   * Base and below: Boolean tests, lists, laws of the bit operations (Base/Bits), words in
--     memory (Base/Bytes), and decimal text as the C++ library prints and reads it (Base/Decimal).
--   * Simd: src/core/simd/SimdString.h. Find has the three searches and Check the comparison and the
--     checks, for each instruction set the file is compiled for; a register is the list of its lanes.
--   * WebSocket: src/http/websocket/WebSocketFrame.h. Frame has the header's parser and serializer,
--     cut at the length and at the mask as the source's comments cut it; Mask has the unmasking
--     tiers, for a target with or without AVX2 and SSE2. UTF-8 validation is a call of the glaze
--     library and is not modelled.
--     Session is WebSocketSession.cpp of the same folder, the dispatcher: its writes and handler
--     calls are a list of effects, and its loop has the length of the input as fuel.
--   * Http2: Frame is src/http/v2/Http2Frame.h, the frame header codec and the two prebuilt frames.
--     Connection is src/http/v2/Http2Connection.h and Http2Connection.cpp, around the nghttp2
--     library, which is not modelled: what it is told is a list of calls, and its callbacks may come
--     in any order. Connection/Callbacks has the callbacks, Dispatch the round that runs handlers
--     (what a handler does is a parameter, and so is the router's answer whether one is streamed),
--     Events the runs of both, Source the reads of a response, Response its field lists, and Scan
--     the look that feed_data takes at a read first. The streams and the closed numbers are an
--     association list and a list, with the element that `begin` of an unordered set gives as a
--     parameter. The mapping of a file, the frames that a stream pushes, the upgrade from HTTP/1.1,
--     the rest of feed_data and the flushing are not modelled; of a stream for gRPC the inbound
--     channel is the bytes pushed into it.
--   * Protocol: src/http/Protocol.h, the checks that HTTP/2 and HTTP/3 share; of the status codes it
--     has those that a connection sets itself.
--   * HeaderMap: src/http/HeaderMap.h. The root has the array and the vector as two lists, the flag
--     bits as fields, and the operations; iequals is the scalar loop of src/core/simd/SimdString.h.
--     The iterator is left out.
--   * Http1: src/http/v1/Http1Parser.h, the request parser, and the readers of src/http/Protocol.h
--     that it calls. Text has those readers, Line the request line, Fields the switch on a header's
--     name, Headers and Chunks the two loops, and Parse puts them together. A step ends with a
--     value, with a ParseStatus, or with a crash: a read outside the buffer or an exception that
--     leaves the noexcept function. What an incomplete parse leaves in the request is not modelled,
--     nor is the parser of responses. std::string_view::find is the plain search of Simd/Search.
--   * Jwt: src/http/jwt/JwtAlgorithm.h and JwtVerifier.h. Base64 is base64url_decode and Verify the
--     method verify, cut at its numbered comments, for JwtResult<void>. OpenSSL, the functions
--     verify_hmac and verify_asymmetric around it, the loading of keys and the JSON reader are
--     parameters, and so are the clock's reading and the denylist.
--   * Router: src/http/RadixTree.h and RadixTree.cpp. The root has the tree and the insertion, which
--     goes down and builds the tree again on its way back, where the source follows a pointer. Match
--     is the search: it returns the parameters as it leaves them, also where it fails. A handler is
--     a value of any type, and simd_common_prefix its scalar loop. The fuel of an insertion is one
--     more than the pattern's length, since each turn drops a character.
--   * MemStore: src/data/memory/MemStore.h and MemStore.cpp. The root has the state and the
--     operations do_get, do_set, do_del, do_incr, sweep_expired and process; each takes the clock
--     readings that it makes. The worker thread around them is not modelled.
--   * Redis: Crc16 is src/data/redis/Crc16.h, with its table and the slot of a key. Resp3 is
--     src/data/redis/Resp3.h and Resp3.cpp: the parser's buffer comes back beside the status,
--     std::stod and the largest vector that can be reserved are parameters, and an exception of
--     reserve is a result. The client around it is not modelled.
-- Loops over a buffer are recursions on the list of bytes that is left. `print` takes 20 rounds,
-- enough for the digits of any 64-bit number. The fuel of the RESP3 parser bounds how deep arrays
-- nest, and that of the session's loop its rounds; the length of the buffer is given for both. The
-- loops over HTTP/1 headers and chunks have the length of the buffer as fuel, the second with one
-- more, and those over codings and chunk extensions the length of the text. The scan of a read has
-- one turn more than the read has bytes. The reads of a response have as fuel the number of reads,
-- and the theorem says how many are enough.
pub mod Base
pub mod WebSocket
pub mod Http2
pub mod MemStore
pub mod HeaderMap
pub mod Redis
pub mod Simd
pub mod Http1
pub mod Jwt
pub mod Router
pub mod Protocol
