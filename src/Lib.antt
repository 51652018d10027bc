-- ===== src/Lib.antt =====
-- A simple HTTP server in C++: src/ is the server, libhttp-cpp/ what it knows of HTTP, librest/
-- a router for services that are loaded as libraries, example/ such a service.
--
-- How the parts work together. A client's message reaches the server's stream socket; the
-- polling loop of the server relays it, with the identity of the connection, to a worker thread.
-- The worker parses it with the handler of its protocol version, finds the website by the host
-- that the request names, and lets the website's service execute it: the service asks its
-- resource factory for a resource, which is a file or a directory listing, or a function that an
-- external service registered with its router. The answer is written as text and goes back by
-- the polling loop, which closes the connection.
--
-- Which file models what:
-- - HttpConstants (HttpDate, MethodOrder): libhttp-cpp/include/http_constants.h and
--   libhttp-cpp/src/http_constants.cpp: methods, statuses, header tables, reason_phrase,
--   get_status_class, httptime.
-- - GenericStructure, HttpStructure: libhttp-cpp/include/interface/generic_structure.h,
--   libhttp-cpp/include/http_structure.h and .hpp, libhttp-cpp/src/http_structure.cpp: requests
--   and responses, to_generic, the writing of a response.
-- - HttpProtocolOneOne: libhttp-cpp/src/http_protocol_one_one.cpp: parse_request, cut into the
--   request line (parse_parts, parse_rest), the header loop (parse_headers, parse_header_line,
--   store_header) and the body (with_body); make_response.
-- - HttpProtocolHandler: libhttp-cpp/src/http_protocol_handler.h, .hpp, .cpp,
--   http_protocol_handler_cache.h, .cpp and http_protocol_one_zero.h, .cpp:
--   extract_http_version, get_handler and the cache it fills.
-- - HttpService (Host, ExtractHost, Hash): libhttp-cpp/src/http_service.cpp and
--   http_service.hpp: parse_request, both execute, extract_host, the comparisons of hosts,
--   hash_combine over words of 64 bits, whose bits are taken one by one.
-- - HttpResource, HttpFilesystemResource (Listing), HttpResourceFactory:
--   libhttp-cpp/include/interface/ and libhttp-cpp/src/http_filesystem_resource.cpp,
--   http_directory_listing.cpp, http_resource_factory.cpp: resources and who creates them.
-- - Router: librest/include/router.h and router.hpp: add_route (add_at, add_function) and
--   get_dispatch (get_at). A node is a constructor with its static routes, the identifier and
--   the node of its dynamic route, and its functions. A Registration is the arguments of one
--   add_route. Of its modules, Names, Laws and Dispatch are about one registration, Frame and
--   Unchanged about what it leaves alone, Plain, Paths and StaticTable about routes without
--   identifiers; Reference is dispatch over the list of registrations, which Holds and Refines
--   compare with the tree, and Consistent, Entries and AnyOrder are about the order of
--   registrations.
-- - LibRest (MyService): librest/include/rest_request.h, rest_resource.h, rest_service.h and
--   example/rest_webservice/.
-- - HttpServer (HttpWebsite, Connect, Forward, Run): src/http_website.cpp and
--   src/http_server.cpp: the set of websites, connect, forward_as_req, forward_as_stream, the
--   loop of run.
-- - HttpServer.Server (Laws, Loop, Serves): the constructor of the server, connect with its
--   logger, the launch of the workers, the end of run, run as a whole (Loop), and src/main.cpp.
-- - HttpWorker (Run, Thread, Logged, Uncached, RoundTrip, ServeFile, ServeSite, ServeMessage):
--   src/http_worker.cpp: find_website, handle_request (process, answer), handle_status, run and
--   its loop, what is logged of a response.
-- - Cluster (Owed, Weights, Conserves, Termination, Drains, Clients): the loops of
--   src/http_server.cpp and src/http_worker.cpp together: a server with several workers as
--   interleaved steps.
-- - Runnable: src/runnable.h.
-- - ZmqIdentity: src/zmq_utility.hpp: the printing of an identity.
-- - CustomResource: example/custom_webservice/src/custom_resource.cpp.
-- - Base: what the language and its libraries give: std::string as a list of bytes, std::map as
--   a list of pairs in order, std::regex_match as a backtracking matcher, exceptions. An outcome
--   is a value, an exception that is thrown, the end of the process (an exception that leaves a
--   noexcept function or a thread, a failed assertion), or undefined behaviour. A call that
--   writes state is a function from the state to an outcome and the new state, which is kept
--   when the call throws.
-- - Build: what a build decides: NDEBUG, and whether two arrays are adjacent in memory.
-- - Examples: the theorems at concrete inputs.
--
-- Bounds and fuel. A port is a number below 65536 where the code reads one; a larger one fails
-- as in the code. to_string and the header loop run on fuel: a number has at most one digit more
-- than its value, and a round of the header loop reads a byte at least, so the fuel that the
-- model gives, one more than the value or the length of the request, is enough. Everything else
-- is structural.
--
-- What is not modelled, and why: logging, which changes nothing, but for the logger that a
-- server asks for; the upper half of the number that zmq_getsockopt fills in handle_request,
-- which has no value before; the errors of ZeroMQ in sending and receiving, whose messages are
-- whole rows of frames; two calls of handle_request at once, which race on the cache of
-- handlers; the loading of libraries by Boost.DLL, the file system and libmagic, which are
-- functions given to the model and do not throw; the clock, whose date is a text given to the
-- model, so that the flaw of httptime does not reach the responses; allocation failures;
-- std::hash of websites, which names members that do not exist, and type_dispatch, which is
-- never defined; the tests and the build files; the libraries under ext/. Members that the code
-- reads before they have a value are values given to the model (Memory).
mod Base
pub mod HttpConstants
pub mod GenericStructure
pub mod HttpStructure
pub mod Build
pub mod HttpProtocolOneOne
pub mod HttpProtocolHandler
pub mod HttpResource
pub mod HttpService
pub mod HttpFilesystemResource
pub mod HttpResourceFactory
pub mod Router
pub mod LibRest
pub mod HttpServer
pub mod HttpWorker
pub mod Cluster
pub mod CustomResource
pub mod ZmqIdentity
pub mod Examples
pub mod Runnable
