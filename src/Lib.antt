-- ===== src/Lib.antt =====
-- natto64: a stateful NAT64 for Linux traffic control.
--
-- Parts, and the files that model them:
--   * natto64-abi/src/lib.rs, the types and helpers that userspace and the dataplane share: Abi, with
--     the counters in Abi/ProdCounters and Abi/DebugCounters.
--   * natto64-xlat/src/checksum.rs, headers.rs and wire.rs: Xlat/Checksum, Xlat/Headers, Xlat/Wire. The
--     fold loop is recursion on the accessibility of the sum, so it needs no fuel.
--   * natto64-ebpf/src/lib.rs: Ebpf/World is the maps (CONFIG, NAT, FWD_NAT, PORT_CURSOR, PORT_COOLDOWN
--     and the counters), Ebpf/Pool is select_v4_from_pool_ebpf and v4_in_pool, Ebpf/Cooldown the cooldown
--     ring, Ebpf/Ports alloc_port, Ebpf/Sessions lookup_or_create_mapping and arm_session_timer, and
--     Ebpf/Sessions/Expiry session_timer_callback; Ebpf/Packet the helpers that read and write a packet,
--     Ebpf/Forward and Ebpf/Reverse the classifiers try_nat64_forward and try_nat64_reverse, and
--     Ebpf/Sampling the diagnostics; Ebpf/Ipv6 is natto64-ebpf/src/ipv6.rs. The
--     allocator's loop has the 16 probes of the code as its fuel.
--     Ebpf/Consistent joins the classifiers and the timers into one machine: what its two maps hold in
--     every state that it reaches, and what that means for a flow and its replies. Ebpf/Update is about
--     the bytes of the TCP packets that are sent, with the checksums that are updated in place.
--   * natto64/src/lib.rs: Userspace/Config is the policy, its validation and its conversion,
--     Userspace/Interfaces is interface_index, and Userspace/Dataplane is Nat64 with load, configure,
--     attach and read_metrics, as methods over the machine and the value of self that keep what they
--     changed where they fail. Userspace/Builder is builder.rs, Userspace/Error and
--     Userspace/Messages are error.rs, and Userspace/Metrics is metrics.rs.
--
-- The forward path selects an external address (Ebpf/Pool), looks its flow up in FWD_NAT or allocates a
-- port for it (Ebpf/Sessions over Ebpf/Ports), and writes NAT for the replies; timers remove idle
-- sessions from both maps. Userspace loads the object, validates a policy, writes it to CONFIG with the
-- indices of both interfaces and attaches the classifiers, the forward one to the bridge and the
-- reverse one to the uplink.
--
-- The kernel is a parameter: Ebpf/Kernel is the interface of its timers, LRU maps and packet helpers,
-- each of which may fail, and IsLruMap states what is documented of the maps, evictions included;
-- Ebpf/Update states the same of the packet helpers, as sums modulo 65535, for packets whose checksum
-- is not left to a device. A
-- map with one entry for each processor is the current processor's entry. Interference of other
-- processors with the timer callback is an arbitrary function of the state.
--
-- The machine of userspace is one, too: Userspace/System is what the code uses of files, of traffic
-- control and of aya's objects, and IsSystem states what is documented of an object: an insertion
-- stores its entry, a program is loaded only once, and no call takes anything of that back, although
-- other programs on the machine may take a classifier off its interface. The parts
-- of the standard library that interface_index uses are definitions.
--
-- Not modelled: the examples and build scripts, Nat64Prefix and FwdNatVal of natto64-abi, which
-- nothing uses, and its Pod markers.
--
-- Numbers are natural numbers, with the wrap-around and saturation of the machine types written out
-- (Common/Word), on a little-endian machine; byte arrays and slices are lists. A
-- counter structure is a function from its fields.
mod Common
pub mod Abi
pub mod Xlat
pub mod Ebpf
pub mod Userspace
mod Tests
