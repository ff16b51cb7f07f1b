-- ===== src/Lib.antt =====
-- jrpxy, a toolkit for HTTP/1.1 reverse proxies: bytes come in through a read buffer (util), are
-- parsed into messages whose header fields decide how the body is framed (http-message), bodies
-- are read and written by a reader and a writer for the framing (body), the frontend and the backend
-- read and write whole messages on a connection (frontend, backend), and the proxy rewrites a request
-- for the backend (proxy).
--
--   Prelude      names of the libraries and shared lemmas: lists over the native numbers, ASCII,
--                decimal and hexadecimal, results, searches and filters
--   Util         util/src: Parse (parse.rs: byte classes, OWS, origin-form), IoBuffer
--                (io_buffer.rs), Async (the interfaces of a source and a sink of bytes), Sends
--                (what a chain of awaited writes puts on a sink)
--   HttpMessage  http-message/src: Version, Framing, Header (header.rs: Headers and framing),
--                Connection (the Connection field of header.rs), Message, Builder and Parse
--                (message.rs: the records, the builders, ParseSlots). Parse/Head is the loop of
--                FrontendReader::head and BackendReader::head, and Heads the writes of fields that
--                frontend/src/writer.rs and backend/src/writer.rs share; Heads/Reads reads a head back
--   Body         body/src: Error, Reader (reader.rs), Reader/ContentLength, Reader/Eof,
--                Reader/Bodyless and Reader/Chunked (the files of reader/), Writer (writer.rs),
--                Writer/ContentLength, Writer/Eof, Writer/Bodyless and Writer/Chunked (the files of
--                writer/), Writer/Loop (the loop of the polls of writer/chunked.rs), Writer/All (write_all)
--   Frontend     frontend/src: Error, Reader (reader.rs), Writer (writer.rs)
--   Backend      backend/src: Error, Reader (reader.rs), Writer (writer.rs)
--   Proxy        proxy/src: Error, Target (request_target.rs), Options (options.rs), Fields, Request
--                and Response (the parts of lib.rs on header fields, FrontendProxyRequest, and the head
--                of a final response)
--   Tests        runs at concrete inputs
--
-- A byte is a number, a byte string a list of bytes, and `codes` a literal of it. A method on
-- `&mut self` maps the state to its result and the new state; a future is its `poll`, and theorems
-- speak of any sequence of polls. The writers of heads, which only await writes one after another, are
-- chains of them. A panic is `none`. The names of functions, variants and fields are the source's.
--
-- A source of bytes is a parameter (Util.Async.AsyncRead), with two laws of tokio's poll_read: it
-- delivers no more than the room it is given, and what it delivers is what it has handed out. A
-- sink is another (AsyncWrite): it takes no more than the buffer, what it has taken is the front of
-- the buffer that it reports, and a flush takes nothing; and for write_all (AsyncWriteExt) that it sends
-- all of the buffer or fails with a front part of it sent. httparse is a parameter
-- (HttpMessage.Parse.HttpParse), with the law that a complete parse takes no more than the buffer, and
-- that the slices it returns lie in the part it takes, but for the reason of a response, which may lie
-- elsewhere: Span::from_subslice then panics, and so does the model. That write_request_to panics on a
-- framing that is to be preserved is its debug assertion. The text of the present time from httpdate is
-- an argument. Buffers are taken to stay within the address space (Util.IoBuffer.Fills.IsValid), which
-- saturating additions in the code keep.
--
-- Loops over lists are structural recursion. These have fuel: the token iterator, where the length
-- of the value and one is enough, since each turn takes a byte or ends; the drain of a body of known
-- length, where more than the number of bytes that remain is enough, since each poll takes one or ends; a
-- send of the chunked writer and write_all, where the number of bytes and one is enough, for the same
-- reason; the loop of a head and that of the head of a chunk, where more than the greatest lengths is
-- enough, since each turn reads a byte or ends; digits, where the number itself and one is enough; and the loop over the chunks of a
-- body, which gives `none` when it runs out, and of which no theorem says that it ends.
--
-- Not modelled: httparse, the newtypes of body writers that the frontend and the backend put round those of
-- body, the reading of responses and the forwarding of bodies and of informational responses in the proxy, and the debug formatting of
-- bytes.
mod Prelude
pub mod Util
pub mod HttpMessage
pub mod Body
pub mod Backend
pub mod Frontend
pub mod Proxy
mod Tests
