-- ===== src/Lib.antt =====
-- The client library of the Tool Access Socket (TAS), Infineon's access to the debug interface
-- of microcontrollers over a server.
--
-- A client connects to the server, lists its targets and starts a session with one of them, by
-- which they agree on the sizes of packets. It then builds a request of PL2 packets, each of
-- which frames PL0 packets that read, write or fill memory of the target, or the packets of a
-- channel; a mailbox sends the request over a socket and receives the response; and the client
-- parses it. This development models the clients, the packet handlers that build and parse, the
-- mailbox and the sending and receiving of sockets.
--
-- Prelude: shared names, Boolean tests, lists, words and bytes, and the copying of memory. Pkt:
-- src/tas_client/tas_pkt.h and tas_am15_am14.h, the constants. ErrorInfo: tas_client.h and
-- tas_client_impl.h, the error codes and the error record that all objects of a client share.
-- ConInfo: the connection information of tas_pkt.h. Utils: of tas_utils.h and tas_utils.cpp the
-- hash functions (Hash, HashText) and CTasutilDeviceFrequ (Frequ has the class; Sampled and
-- Measured prove). Device: tas_device_family.h and tas_utils_ifx.cpp, with the identifiers in
-- Types and the functions in Family, of which Cases, Classified and Named prove; and, in
-- Connection, the functions of tas_utils.h and tas_utils.cpp on the physical connection of a
-- device and the text of its features.
--
-- Base: src/tas_client/tas_pkt_handler_base.cpp, with get_pkt_rq_ping and set_pkt_rsp_ping. A
-- received packet is its words in memory, and a field is a byte or a half of a word.
--
-- Rw: src/tas_client/tas_pkt_handler_rw.cpp and .h, CTasPktHandlerRw. Its fields are the record
-- Rw (Rw/State), an array being a function from the index, whose bounds are stated in the
-- theorems. Rw/Limits has the size checks, Rw/Add the functions mPktAdd_Rd, mPktAdd_Wr and
-- mPktAdd_Fill, Rw/Split the cutting of an access, which rw_add_rd and rw_add_wr share,
-- Rw/Request the operations rw_add_rd, rw_add_wr, rw_add_fill, rw_set_trans and rw_get_rq,
-- Rw/Report and Rw/Response rw_set_rsp, and Rw/Results rw_get_num_pl2_pkt, rw_get_trans_rsp and
-- rw_get_pl0_trans. The other modules of Rw prove: Frame, Laws, Tiling, StepsIf (what the
-- cutting needs of the packets), Cut, Steps, AddAccess, Access and AddFill what an access adds,
-- Decoded and Written what its packets say; Start and Session what a session begins with;
-- Chain, Open, Selecting, Opening, Adding, Opened, Packets and Sized that the PL2 packets keep
-- within their size; AllOrNothing what a refusal leaves; Moves, Parsing, Answers, Reach,
-- Advance, Taken and Counting what a response does.
--
-- Chl: src/tas_client/tas_pkt_handler_chl.cpp, CTasPktHandlerChl: its operations in
-- Chl/Handler, the way of a message in Chl/Message, and subscriptions in Chl/Subscription.
--
-- Trc: src/tas_client/tas_pkt_handler_trc.cpp, CTasPktHandlerTrc: its operations in
-- Trc/Handler, of which Subscription and Tracing prove.
--
-- ServerCon: src/tas_client/tas_pkt_handler_server_con.cpp, CTasPktHandlerServerCon. Handler
-- has its fields, Connecting the server connection and the session start, Targets and Clients
-- the two lists, Device the key, the connection and the resets of a device. An array of
-- structures is its words in memory, and qsort is a parameter. Listed, Attached, Connected and
-- Requests prove.
--
-- Net: Net/Os has the calls of the operating system that the sockets make, as a record that the
-- other modules take as a parameter; Net/Socket send, recv, sendAll and recvAll of
-- src/tas_socket/tas_conn_socket.cpp; Net/Resolver its connect, over the calls of the operating
-- system that it makes, which stands in Net/Os as one call, and Net/Reaching puts the two
-- together; Net/Mailbox src/tas_client/tas_pkt_mailbox_socket.cpp, CTasPktMailboxSocket.
-- Established, Connecting, Accepting, Reaching, Bounded, Sending, Receipt, Received, Request
-- and Whole prove.
--
-- Client: Client/MailboxIf is the interface of src/tas_client/tas_pkt_mailbox_if.h, which the
-- clients take as a parameter and the socket mailbox fills. Con, Lists and Session are
-- src/tas_client/tas_client_server_con.cpp, CTasClientServerCon; Chl, Messages, Calls and
-- Channel src/tas_client/tas_client_chl.cpp, CTasClientChl; Rw, Access, Fill and Resets
-- src/tas_client/tas_client_rw_base.cpp and tas_client_rw.h. A client and its handlers share
-- one error record, and a field that a client and its handler both keep stands once. Spec has
-- the states that a subscription goes through, Subscribing and Refine relate the channel client
-- to them, and Keeps, Listing, Filled, Filling and Reported prove.
--
-- Jtag: src/tas_client/tas_utils_jtag.cpp, tasutil_jtag_scan. Scan has the function, which has
-- no result when it writes behind its array; Plan says what its transactions are meant to be;
-- Shifting, Building and Planned prove.
--
-- Numbers are natural numbers, and a field of w bits is reduced modulo 2^w where the source
-- computes it. Assertions are compiled out, as in a release build. The text that snprintf
-- writes stays a format with its arguments. The caller's memory is a function from an address
-- to a byte. The floating-point numbers of CTasutilDeviceFrequ are a parameter. The clients are
-- those that are built for systems other than Windows.
--
-- Loops take fuel, and none means that it ran out: for the splitting of an access two more than
-- its bytes, since a round that finds no room for a block only opens the next packet, where
-- there is room; for a fill one more than its bytes; one for each word of the response, since
-- every round that goes on has read one; one for each packet that is counted; for the sending
-- of bytes one more than their number, since the system takes at least one each time; for the
-- list of targets 65, since each round but the last brings a new one of at most 64; for the
-- list of clients a bound that the caller gives, for the end of a subscription one for each
-- packet that may still come, and for the bits of a JTAG scan a round for each block.
--
-- Not modelled: the trace client, which the source calls unfinished, and which uses pointers
-- that it never sets; the other texts for the user; of the sockets the options, the addresses
-- and the server side, which are calls of the operating system in a row; the connection to a
-- local server that only Windows has; the functions for server_unlock and for the challenge of
-- a device, which are stubs in the source; the Python binding and the demonstrations.
mod Prelude
pub mod Pkt
pub mod ErrorInfo
pub mod ConInfo
pub mod Utils
pub mod Device
pub mod Base
pub mod Rw
pub mod Chl
pub mod Trc
pub mod Net
pub mod ServerCon
pub mod Client
pub mod Jtag
