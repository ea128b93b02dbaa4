-- ===== src/Lib.antt =====
-- A model of cntlm 0.92.3, the NTLM authenticating proxy of this repository (cntlm-0.92.3), which
-- stands between HTTP clients and a parent proxy and adds the NTLM handshake to their requests.
--
-- The parts and their files. A file named after a part holds its definitions; its children hold
-- the proofs.
--
-- Common, CString: numbers, lists, options; C strings as lists of bytes without the terminator,
--   and the functions of the C library that the program calls, in the "C" locale (toupper,
--   isspace, strcasecmp, strstr, strchr, strcspn, strtol, atoll).
-- Plist: the linked lists of keys and pointers (plist_t, cntlm-0.92.3/utils.c), which hold access
--   rules and cached connections; Socket: so_closed, which plist_pop asks, and so_recvln, which
--   reads the lines of messages (cntlm-0.92.3/socket.c).
-- Hlist: the lists of headers (hlist_t, cntlm-0.92.3/utils.c), used by the HTTP layer and by the
--   configuration.
-- Strings: strlcpy, strlcat, substr, trimr, lowercase, uppercase, unicode, urlencode
--   (cntlm-0.92.3/utils.c). A buffer is the list of all its bytes.
-- Hex, Base64: printmem and scanmem, to_base64 and from_base64 (cntlm-0.92.3/utils.c), which carry
--   hashes in configuration files and NTLM messages in headers.
-- Swap, Acl: swap32 (cntlm-0.92.3/swap.h) on a machine with the low byte first; acl_add and
--   acl_check (cntlm-0.92.3/acl.c), which decide over the clients.
-- RrData: requests and responses (rr_data_t, cntlm-0.92.3/utils.c).
-- Http: the HTTP layer (cntlm-0.92.3/http.c). Http.Body says which messages have a body and how it
--   is forwarded, Http.Receive is headers_recv over the lines that so_recvln gives, Http.Header
--   the lines of headers and headers_send. Http.Transfer is data_send and Http.Chunked
--   chunked_data_send, over a stream of outcomes of read. Http.Basic is http_parse_basic, which
--   takes the credentials of a client.
-- Auth: credentials (cntlm-0.92.3/auth.c).
-- Ntlm: messages of NTLM (cntlm-0.92.3/ntlm.c). Ntlm.Buffer is writes into a zeroed buffer,
--   Ntlm.Request the first message (ntlm_request), Ntlm.Target the loop over the target
--   information of a challenge (the first part of ntlm_response), Ntlm.Keys the keys of DES, the
--   responses and the hashes of passwords, Ntlm.Response the third message (ntlm_response).
-- Config: config_open, a parser of lines over its line buffer, and the operations on the options
--   (cntlm-0.92.3/config.c).
-- Parents: the parent proxies, parent_add (cntlm-0.92.3/main.c) and proxy_connect
--   (cntlm-0.92.3/forward.c), which fills the caller's credentials from the global ones.
-- Direct: www_authenticate (cntlm-0.92.3/direct.c), the handshake with a server that is reached
--   directly.
-- Listeners: listen_add and tunnel_add (cntlm-0.92.3/main.c), the ports of the services.
-- NoProxy: noproxy_add and noproxy_match (cntlm-0.92.3/main.c), the hosts that are reached
--   directly.
-- Forward: the handshake with a parent proxy (proxy_authenticate, cntlm-0.92.3/forward.c),
--   composed of the parts above: dup_rr_data, ntlm_request, to_base64, headers_send, headers_recv,
--   http_body_drop, from_base64, so_closed and proxy_connect. Forward.Parts holds the records and
--   the parts that need no parameter, Forward.Probing is the first message, Forward.Answers and
--   Forward.Authenticate what a handshake leaves, Forward.Challenge one with a challenge.
--   Forward.Tunnel is prepare_http_connect, which asks for a connection through the proxy.
--   Forward.Relay is forward_request, which serves the requests of a client in turns:
--   Forward.Relay.Headers is what it does to headers, Forward.Relay.Asking and
--   Forward.Relay.Answering are the two halves of a turn.
-- Socks: the SOCKS5 service (socks5_thread, cntlm-0.92.3/main.c). Socks.Session is a monad for
--   what a thread reads and writes, Socks.Dialogue the parts of the dialogue, Socks.Service the
--   whole thread, which asks noproxy_match and then calls host_connect (cntlm-0.92.3/direct.c) or
--   proxy_connect.
-- Tests: runs at concrete inputs.
--
-- How state and operations correspond. A pointer to a list or a structure is the value it points
-- to; an operation that changes a structure returns the new one. NULL is the empty list or `none`.
-- An access outside of a buffer is `none`, so that a theorem with `some` on its right says that
-- the code stays inside. Numbers are natural; where C computes in a type of fixed width the wrap
-- is written out. A descriptor is the bit pattern of a 32-bit int. The kernel and the resolver of
-- names are parameters: what recv finds for plist_pop, what read gives for so_recvln, whether the
-- connection is closed and what write returns for headers_send, the addresses of names for
-- acl_add, and the addresses and connections, which may differ from one attempt to the next, for
-- proxy_connect and host_connect. The ciphers and digests, the clock and the random number are
-- parameters of the messages of NTLM. For data_send a read may take any part of what is there, and
-- the destination may be closed or refuse a write at any point. What the proxy does in a handshake
-- is a parameter as well, and the final message, for which Ntlm.Response is the code. so_listen,
-- fnmatch of the C library and, for the SOCKS5 service, prepare_http_connect are parameters too.
-- proxy_connect and socks5_thread are modelled as the calls of one thread.
--
-- Bounds and fuel. The loop over target information is given as many rounds as the challenge has
-- bytes; a round takes four bytes at least. The loops of data_send and chunked_data_send are given
-- one round more than the source has outcomes, and each round takes one at least. The loop of
-- config_open has two rounds more than the file has bytes; a round takes a byte at least. The loop
-- that takes out headers has as many rounds as there are headers. forward_request serves as long
-- as its peers go on; its model takes a list of turns and has no result when they are used up. The
-- loop of proxy_connect counts its rounds itself: it makes as many as there are parents. The other
-- loops are recursions on their lists.
--
-- Not modelled. Output for debugging and to the system log, allocation that fails, locks, and the
-- ownership of memory: which of two structures frees a string. xcrypt.c is a copy of gnulib's
-- ciphers and digests. The rest of main.c, of forward.c and of direct.c, scanner.c and pages.c are
-- threads, sockets and options around the parts above, and so is tunnel of http.c. forward_request
-- is modelled with the scanner plugin off.
pub mod Acl
pub mod Auth
pub mod Base64
pub mod CString
pub mod Common
pub mod Config
pub mod Direct
pub mod Forward
pub mod Hex
pub mod Hlist
pub mod Http
pub mod Listeners
pub mod NoProxy
pub mod Ntlm
pub mod Parents
pub mod Plist
pub mod RrData
pub mod Socket
pub mod Socks
pub mod Strings
pub mod Swap
pub mod Tests
