-- ===== src/Lib.antt =====
-- Ambrosia, an XMPP server on the Iris library. This development models the server of src/main.cpp
-- and src/router.cpp with the addresses of iris/xmpp-core/jid.cpp and the counters of sent bytes in
-- iris/xmpp-core/securestream.cpp and xmlprotocol.cpp, and the DNS library jdns, which resolves the
-- host names that a server is to connect to: the packets of iris/irisnet/jdns/jdns_packet.c and the
-- objects of iris/irisnet/jdns/jdns_util.c, and the unicast sessions of iris/irisnet/jdns/jdns.c.
--
-- The parts of the server. The router keeps the sessions with clients and with other servers, and
-- routes a stanza to one of them; sessions with servers wait for the dialback. What it reads goes to the
-- application, which gives presence to the presence manager, and the end of a session as an unavailable
-- presence. The manager keeps the last presence of each user and the directed ones, changes contact
-- lists in the files of users, and writes stanzas through the router, or to itself where they stay on
-- this host.
--
-- The parts of jdns. A datagram is read by `jdns_packet_import` into questions and resources; the
-- names in it are compressed and read by `readlabel`. `jdns_rr_from_resource` decodes the data of a
-- resource, and looks names up in the packet again. `jdns_packet_export` writes a packet;
-- `writelabel` compresses its names against those written before, which `matchlabel` compares.
-- Records are kept in responses. A session has name servers, queries, a cache, datagrams to send and events
-- for its user. `jdns_query` gives a request to a query; `jdns_step` sends the queries that are due to one
-- name server after the other, or answers them from the cache, reads the datagrams that wait, caches what
-- they say and reports it to the requests of the query. A lone CNAME makes a new query for its target, the
-- child of the first; what the child gets goes to the requests of the parent.
--
-- The files. Dns/Memory.antt has C buffers: a pointer is an index into a list of bytes, and a result is
-- a value, the function's own failure (`return 0`), a fault (a read outside a buffer, or of what was
-- never written, or a write outside one) or stuck (the fuel of a loop ran out). The last two stand for
-- what is undefined in C and for a loop without an end; `Ensures` says of a result that it is neither.
--   Dns/Label.antt           getoffset, readlabel; Dns/Label/Spells.antt says what a name is
--   Dns/Name.antt            jdns_packet_name_isvalid, name_to_label
--   Dns/Compress.antt        matchlabel, writelabel, jdns_packet_label_t
--   Dns/Wire.antt            net2short, net2long, short2net, long2net
--   Dns/Packet.antt          jdns_packet_t and its items, process_qsection, process_rrsection,
--                            jdns_packet_import
--   Dns/Packet/Export.antt   append_qsection, append_rrsection, jdns_packet_export; Query, Header and
--                            RoundTrip beside it have what is read back
--   Dns/Util/Items.antt      jdns_list_t
--   Dns/Util/Text.antt       jdns_string_t, jdns_stringlist_t, jdns_domain_cmp
--   Dns/Util/Address.antt    jdns_address_t; its child Parse has jdns_address_set_cstr
--   Dns/Util/Params.antt     jdns_server_t, jdns_nameserver_t, jdns_dnshost_t, jdns_dnsparams_t
--   Dns/Util/Record.antt     jdns_rr_t; its child Decode has jdns_rr_from_resource
--   Dns/Util/Response.antt   jdns_response_t
--   Dns/Session.antt         the objects of a session (name_server_t, query_t, datagram_t, cache_item_t,
--                            struct jdns_session); Pointers and Queries beside it have the lists of
--                            queries, Kept what every operation keeps
--   Dns/Session/Text.antt    _make_printable, _fix_input
--   Dns/Session/Ids.antt     the get_next functions and the arrays of ids
--   Dns/Session/Servers.antt jdns_set_nameservers; its children Added and Exact have what it leaves
--   Dns/Session/Cache.antt   _cache_get_response, _cache_add, _cache_remove_all_of_kind
--   Dns/Session/Requests.antt
--                            _get_query, _unicast_query, _unicast_cancel, jdns_cancel_query,
--                            jdns_next_event, jdns_shutdown; its child Cancel has what cancelling does
--   Dns/Session/Responses.antt
--                            _process_response; its children Ends and Kept have the queries that it
--                            leaves, Answers, Still, Told, Copies and Returns the requests
--                            that are told
--   Dns/Session/Writes.antt  _unicast_do_writes, _queue_packet; its children Transmits, Kept, Rounds,
--                            Halts, Looks and Ends have the loop over the queries, Sent,
--                            Picked and Turns the datagrams
--   Dns/Session/Messages.antt
--                            _packet2response, _process_message, _unicast_do_reads
--   Dns/Session/Step.antt    jdns_step; its children Timer, Kept and Reachable have the next timer and
--                            the sessions that the calls make
--   Dns/Session/Waiting.antt how often a request waits or was told; its children Responses, Writes,
--                            Steps, Servers, Requests, Found, Asked, Cancels and Fewer have each
--                            call, History all of them
--   Xmpp/Jid.antt            Jid; its children have what is kept, and comparison as an equivalence
--   Xmpp/Layer.antt          LayerTracker and the counters of SecureLayer and SecureStream
--   Xmpp/Sent.antt           trackQueue of XmlProtocol
--   Server/Stanza.antt       Stanza, as a record of its attributes and children
--   Server/Roster.antt       RosterItem, RosterChange, Roster::applyChanges
--   Server/Files.antt        User, normalize, loadUser, saveUser
--   Server/Router.antt       Router, Session; Invariant, Routes, Sound, Delivery, Dialback and Ending
--                            beside it have what is proved
--   Server/Presence.antt     PresenceManager: what comes from outside; its child Client has what a
--                            client sends, Kept, Lists, Answers, Sound and Served what both keep,
--                            Privacy, Departure and Broadcast who is told
--   Server/App.antt          App: presence, messages and the end of a session
-- Prelude.antt has the names that the modules share; Dns/Runs.antt, Dns/Util/Runs.antt,
-- Dns/Session/Runs.antt, Xmpp/Runs.antt and Server/Runs.antt have runs on concrete input.
--
-- Numbers, bounds and fuel. Numbers are natural, and the casts to a byte are written out. The loop of
-- readlabel takes 129 rounds of fuel: a name has 255 bytes at most, and each label takes two. A call of
-- matchlabel takes fuel for sixteen hops, eight on each side, with a pass over the label between
-- them. The loops of writelabel take the length of their label, jdns_string_split the length of its
-- text, and the texts of a TXT record the length of the data: each round goes on by a byte at least.
-- The offset of a pointer has 14 bits, so that the theorems on writelabel take blocks of 16384 bytes.
-- incomingFromOutside and writeFromHost call each other: two levels are enough, since what an approval
-- sends on asks for no subscription.
-- In a session a pointer to a query is a number that no other query of the session has had, and reading
-- through it after the query was removed is a fault; so is what `_intarray_remove` does with more than one
-- item. The clock counts up within the range of an int. A time to live, which comes off the wire, is the 32
-- bits of an int in two's complement, as is every time computed from it, and that arithmetic wraps
-- around, though in C its overflow is undefined. The counters of ids wrap as `_int_wrap` has it, in twice as many rounds as ids are in use. The callbacks are parameters: the n-th
-- reading of the clock, whether the n-th datagram is taken, and the list of datagrams that wait. The loop
-- over the queries takes a round for each query and, for each that may use the cache, two for every CNAME
-- that may follow. `Gives` says of what an outcome gives, if it gives a value, that it has a property.
--
-- Not modelled: allocation, which is taken to succeed, and freeing (objects are values, and a copy is
-- made where the source makes one, when it changes something); strtol, which is a parameter; tolower
-- is that of the C locale. stringprep of libidn and the conversions of Qt to and from UTF-8, of which
-- nothing is assumed, the tests of a character of Qt and whether a file
-- can be written are parameters of the server. Its stanzas are values: copies share an element in the
-- source, so the presences that are kept leave out `to` and `from`, which are those of whatever copy was
-- sent last and are set before each use. Its files hold the user that
-- was saved, read back item by item, since the DOM of Qt and its text form are outside of it. A stream is
-- its address, its id and what was given to it. Left out are the queries that App answers, the sockets
-- and the streams and the protocol of iris, the multicast mode of the sessions of jdns.c with
-- jdns_mdnsd.c, which is adapted from the mdnsd library, their lines of debug
-- output, the system's parameters in jdns_sys.c and the Qt wrappers;
-- libidn is another project's library.
pub mod Prelude
pub mod Dns
pub mod Xmpp
pub mod Server
