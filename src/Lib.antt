-- ===== src/Lib.antt =====
-- Poplar, an HTTP proxy in C: its byte streams, its containers and its protocol code.
--
-- Prelude shares the library names, the Boolean tests, lists indexed by native numbers, bit
-- operations as arithmetic and the signed integers. Run.antt is C code that may stop: at a
-- failed assertion, in abort(), or at an access outside an object or the overflow of an int,
-- which are undefined behaviour.
--
-- Stream.antt and its children are apps/pop_stream.c with the macros and the struct of
-- apps/pop_stream.h: a stream is its two marks, its size and its bytes. Stream.Buffer has the
-- macros, creation, the marks and the access to one byte; Stream.Get and Stream.Put the
-- functions that read and write words and blocks; Stream.Io those that work on a file
-- descriptor, where what the system call delivers is an argument. What XMALLOC and XREALLOC
-- return is an argument too. A size_t is a number below 2 ^ 64 with its wrap-around written out.
-- The other children prove.
--
-- Fifo.antt is the queue of streams of the same file: streams are addresses, and their `next`
-- pointers are one function. The loop of stream_fifo_clean runs on fuel; as much as the queue
-- has streams is enough.
--
-- Hash.antt is common/hash.c and common/hash.h: the array of chains is a list of lists of
-- backets, the function pointers of the struct are fields, alloc_func and func are arguments.
-- Hash.Valid has the invariant and what hash_cmp owes, Hash.Lookup and Hash.Release say what a
-- table holds after hash_get and hash_release, Hash.Whole is about hash_create, hash_iterate and
-- hash_clean.
--
-- Util.antt is common/util.c: lwr, lwrcmp, i2h and b64cpy, with the chars as bytes. Util.Base64
-- and Util.Characters are about b64cpy, whose number of chars is an int. HashKey.antt is
-- apps/hash_key.c, the eight hash functions of strings.
--
-- Peer.antt has the peers of apps/pop_paired_peer.h, their pairing (apps/pop_paired_peer.c) and
-- the queuing of information (apps/pop_transaction.c); Peer.Machine is apps/pop_tcp_fsm.c: its
-- handlers, its two tables and its event functions. A heap maps addresses to peers; a timer is
-- whether it is set, and the event of a peer NULL or a node; the calls of close() are a list.
-- What socket(), connect() and, for EVENT_SET of apps/popd.h, event_epoll_add or event_epoll_mod
-- answer is an argument; what becomes of the event loop there is the matter of Event.antt.
-- Peer.Teardown is about mutual pairings, Peer.WellFormed and Peer.Handlers about the invariant
-- and what tearing down leaves, Peer.Setting about EVENT_SET, Peer.Events, Peer.Ends and
-- Peer.Starting about the event functions. A handler uses Stream.Buffer to reset the buffer of a
-- peer.
--
-- Links.antt has doubly linked lists in a heap of nodes: Links.Segment, Links.Relink and
-- Links.Unlink are about a list that a node goes into or out of, Links.Apart about the lists
-- beside it, and Links.Walk about the loop along `next` and sorted insertion. LinkedList.antt is
-- common/list.c on top of it (LinkedList.Added, LinkedList.Sorting, LinkedList.Removed,
-- LinkedList.Joined). Event.antt is eventsCtl/event_ctl.c: Event.Timespec its instants,
-- Event.Lists its lists, Event.Master struct event_master and the timers, Event.Loop
-- cancellation and event_waiting_process. Event.Relinked and Event.Detached apply the lemmas of
-- Links to the lists; Event.WellFormed is the invariant that the type of a node says which list
-- it is on; Event.Cancel, Event.Expiry, Event.Placing, Event.Insertion and Event.Waking are
-- about the operations. The clock, timerfd_settime and epoll_wait are arguments: the loop runs
-- over a list of the answers that epoll_wait gives, and what epoll_ctl answers matters where a
-- descriptor is added. Event.Epoll watches descriptors, makes and destroys a master;
-- Event.Destroy is about its end. Fuel for as many nodes as the list has is enough for a walk,
-- and for timespec_adjust as many seconds as the nanoseconds make.
--
-- Dns.antt is the form of names in packets, of apps/pop_domain_parse.c: Dns.Names is about its
-- making, Dns.Checking about its check, Dns.Parsing about a name parsed back. As much fuel as a
-- name has labels is enough.
--
-- HttpCache.antt and its children are apps/pop_httpcache.c: HttpCache has the names of
-- directories and files, HttpCache.Create createFile, HttpCache.Disk the calls that store, look
-- for and get a reply. What a system call answers is an argument, and the digest of common/md5.c
-- is one. HttpCache.Step, HttpCache.Host, HttpCache.Closing and HttpCache.Directory are about
-- urlDirname, HttpCache.Encoding and HttpCache.Hosts about the names of hosts,
-- HttpCache.Filename about urlFilename, HttpCache.Overflow about a root that fills the buffer,
-- HttpCache.Writing and HttpCache.Reading about the calls. The loops go over the chars that are
-- left, or over 1024 places.
--
-- DnsCache.antt and its children are apps/pop_domain_cache.c, on the table of Hash.antt, the
-- list of LinkedList.antt and the hash of HashKey.antt: DnsCache.Agreement says what the table
-- and the queue have to do with each other, DnsCache.Keyed that the table holds the keys of the
-- names, and DnsCache.Created, DnsCache.Added, DnsCache.Removed, DnsCache.Freshness,
-- DnsCache.Lookup and DnsCache.Oldest are about the operations. As much fuel as the queue has
-- nodes is enough.
--
-- Dns.Packets is the rest of the parsing of a reply, over the streams of Stream.antt: a name
-- that may be an offset, a question, an answer, the loop over the answers; Dns.Reply is
-- DomainNameIpv4Addr and pop_udp_recv_dns_query_ack behind it, with the queue of Dns.Wait and
-- the cache of DnsCache.antt. Dns.Answers is about the answer that is chosen, Dns.Cached about
-- what is left in the cache. Dns.Query is the query for a name, and Dns.Sending says which
-- packet is sent. Dns.Receive is pop_udp_read, and Dns.Connecting is about the peer that waits
-- for a reply: its timer is cancelled and Peer.Machine starts its connection.
--
-- Not modelled: common/md5.c is third-party code; common/memory.c counts allocations;
-- apps/pop_main.c, apps/pop_daemon.c and apps/popd.c start the program; apps/pop_socket.c and
-- apps/pop_network.c are system calls, except for pop_tcp_connect_unblock and the retry test of
-- apps/pop_network.h; accepting connections, the setting of the timers and the socket of DNS
-- messages, and the parsers of HTTP are outside this library so far.
pub mod Prelude
pub mod Run
pub mod Stream
pub mod Fifo
pub mod Dns
pub mod DnsCache
pub mod Event
pub mod Hash
pub mod HashKey
pub mod HttpCache
pub mod LinkedList
pub mod Links
pub mod Peer
pub mod Util
