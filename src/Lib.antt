-- ===== src/Lib.antt =====
-- zns-emulation-bench: benchmarks and experiments on emulated and real zoned namespaces over SPDK, with
-- two small ZooKeeper clients.
--
-- The repository is a set of programs under examples/. The core is examples/arbitration/arbitration.cc:
-- it finds controllers and namespaces, shares the namespaces out to one worker thread for each core, and
-- lets every worker keep a number of commands in flight on its namespaces until its time or its number
-- of I/Os is over. The other benchmarks of examples/arbitration and examples/multipath are copies of it
-- with another command or more targets; examples/multipath/verification.cc reads back what it appends.
--
-- Files and code:
--   * Prelude (Tests, Lists, Words): Boolean tests, lists by native numbers, integers of 8 to 64 bits.
--     The counters wrap as uint64_t does (`u64`, `dec64`); an int is a ℤ (`int32`).
--   * Exec: how a call ends: with a result, in `exit`, or still polling (`waiting`).
--   * Text: texts as lists of bytes, std::to_string, and sscanf's %d into an int, which is kept as its
--     distance from INT_MIN; Text/Decimal.
--   * Arbitration: the structs and globals of examples/arbitration/arbitration.cc, and `Spdk`, the
--     answers of the library and the device (which allocation and which command succeeds, by its number).
--       - Arbitration/Loop: submit_single_io, task_complete, check_io, submit_io and drain_io on the
--         state of one context and the task pool. The command is a parameter (`Build`), so that the
--         copies that write or append are instances. Loop/Invariant, Loop/Drain, Loop/Submit and
--         Loop/Range hold what is shown of it.
--       - Arbitration/Worker: work_fn over the contexts of a worker; Worker/Invariant, Worker/Phases and
--         Worker/Total follow it to its end.
--       - Arbitration/Setup: register_ns, register_workers, associate_workers_with_ns and the size of the
--         task pool in main; Setup/Namespaces and Setup/Association. Arbitration/Pool puts Setup and
--         Worker together.
--       - Arbitration/Features: get_arb_feature, set_arb_feature, set_latency_tracking_feature, their
--         callbacks and the loops that wait for them; Features/Waiting.
--       - Arbitration/Args: parse_args; Args/Accepted.
--       - Arbitration/Main: register_ctrlr, zns_dev_init, unregister_controllers, cleanup and main, with
--         the workers' runs as an argument; Main/Registration, Main/Ending.
--   * Bench: the worker thread again, as examples/multipath/mp_one_drive_read.cc has it, over a record
--     `Program` of the functions in which the copies differ, on contexts of any type. Bench/Keeps and
--     Bench/Contexts carry what each call keeps of its context to the whole of work_fn, by rely and
--     guarantee: the other contexts may change what the contexts share.
--   * Variants: the programs over Bench. Variants/Sampling is examples/arbitration/arbitration_read.cc (with
--     arbitration_rdma_read.cc, arbitration_append.cc and arbitration_rdma_append.cc), which samples
--     latencies; Variants/Writing is examples/arbitration/arbitration_write.cc, which asks for the zones'
--     write pointers; Variants/Counting is examples/multipath/mp_one_drive_read.cc (with
--     two_targets_read.cc, three_target_reads.cc and three_target_writes.cc), which counts its commands;
--     Variants/Marking is examples/multipath/mp_one_drive_append.cc, which writes its count into the blocks.
--     Variants/Targets is zns_dev_init of the multipath programs. Variants/Measuring is
--     examples/measurement.cc, which samples latencies too, in a polling loop of its own; its
--     `append_times` and init_ns_worker_ctx are parameters.
--   * BdevTest: examples/rw_test.cc, the callbacks of a test of zones over a block device, as steps on
--     events; BdevTest/Phases is about one phase, BdevTest/Passes and BdevTest/Whole about them all.
--   * SimpleAppend: examples/simple_append.cc, which appends the same blocks to two devices and compares
--     them; what the devices queue, what their zones hold and when a read ends is given.
--   * Verify: submit_single_io, task_complete, io_complete and submit_io of
--     examples/multipath/verification.cc. Verify/Steps lifts an invariant of the steps to a run;
--     Verify/Sound and Verify/Balance use it, Verify/Distinct tells the texts of the writes apart. Verify/Worker is the program over Bench, Verify/Worker/Life its life.
--   * Lock: the callbacks of examples/zookeeper/zklock.cc. Lock/Choice is about the loop over the
--     children; Lock/Protocol is a step relation of any number of clients and a server, session
--     events and several requests at once included, Lock/Orderly and Lock/Exclusion its invariant.
--   * Leader: check_leadership and its callers in examples/zookeeper/zkleader.cc; Leader/Order is the
--     order of std::string and std::sort, Leader/Choice the decision.
--   * Zones: reset_zone, write_zone, read_zone and their callbacks in examples/zns_nvme_test.cc. The
--     context's type is in a header that is not in the repository, and is known by its uses; Zones/Ends
--     and Zones/Reset are about the polling loops.
--
-- State: a loop that polls takes the list of what the coming polls report, and is structural on it; when
-- the list is over and the loop is not, the call is `waiting`. So no fuel is chosen, and a theorem that a
-- loop ends says how much the device has to report. Commands in flight are a list, and a completion
-- names its place in it, so that completions come in any order. A worker runs without the others.
--
-- Not modelled: what is printed; the calls of SPDK, DPDK, verbs and ZooKeeper themselves; the programs
-- that are only set-up around libraries (examples/rdma, examples/boost, examples/seastar, nvmf.cc, the
-- hello-world programs); the tests on block devices (zns_bdev_test.cc, spdk_append.cc); the
-- mains of the copies of arbitration.cc. A ZooKeeper session that ends is only the going of its node; a
-- list that a client has been answered before its node is created is left out.
pub mod Prelude
pub mod Exec
pub mod Arbitration
pub mod Verify
pub mod BdevTest
pub mod Bench
pub mod Leader
pub mod Lock
pub mod SimpleAppend
pub mod Text
pub mod Variants
pub mod Zones
