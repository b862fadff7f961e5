-- ===== src/Lib.antt =====
-- Ascend HAL sharing probes: programs that reserve, share and transfer host memory through the HAL
-- driver of an Ascend machine.
--
-- The parts and their files:
--   ucm_data_strategy/status/status.h        Status: codes, messages, Expected
--   ucm_data_strategy/trans/ascend/hal/      HalMemory: one wrapper per HAL call
--   ucm_data_strategy/trans/device.cc        Device: the ACL runtime's calls
--   ucm_data_strategy/ctrl_layout.h          CtrlLayout: DESC lines, printed and read back
--   ucm_data_strategy/data_strategy.{h,cc}   DataStrategy: Setup, Reset and the slot lookups
--   ucm_data_strategy/main.cpp               Demo: options and a whole run
--   cache2_hal_aio.cc                        Aio: host memory, the synchronous transfer
--                                            (Psync), the AIO phase (Phase), Options
--   common.hpp                               Common: checked calls, allocations and their
--                                            destructor, patterns; Retry: interrupted calls
--   cli.hpp                                  Cli: words over a stream socket
--   hal_map_probe.cpp                        HalMapProbe: a process of either role
--   hal_host_io.cpp                          HalHostIo: arguments, the file test, the whole run
--   device_share.cpp                         DeviceShare: a process of either role
--   host_share.cpp                           HostShare: a process of either role and its I/O cases
--   multi_share.cpp                          MultiShare: options, address ranges, barriers,
--                                            the binding to CPUs and a whole worker
--   host_uva_share.cpp, common.h             HostUva: test data, the writer and the reader
-- A function of the source keeps its name in snake case: `LocalSetup` is `local_setup`, `DataAt` is
-- `data_at`. A large function is cut where its statements allow: `CrossRankSetup` is
-- `cross_rank_setup`, which announces the handle (`publish_local`) and goes through the peers
-- (`setup_peers`); `Setup` is `setup` over `setup_body`, `caught` and `conclude`.
--
-- The world. Effects has the calls of the driver, the runtime, the clock, the vector's allocation and
-- standard output, and a driver, which answers each call from the whole history of calls. No theorem
-- assumes anything of the driver unless it says so. An operation is a function of the object, the
-- history and the lines that standard input still holds; it returns, throws, or ends in a fault, which
-- stands for undefined behaviour or for a wait that used up its rounds. Effects.Ledger counts what a
-- history has obtained (addresses, memory handles, mappings) and given back.
--
-- The books of the probe programs. A program's object holds allocations (an address, a handle, whether
-- they are mapped); Common.Books says that what the history has obtained is what the driver has taken
-- back and what the allocations hold, Common.Rules and Common.Places have the rules for the
-- statements, and Common.Teardown follows the destructors until nothing is left. A destructor's
-- call may be refused, which the ledger counts apart. Memory is shared between processes and devices,
-- so its words are read from the world, after the calls so far, and a store is a call. The calls that
-- the source repeats while a signal interrupts them take a bound on the interruptions in a row.
--
-- Effects.Tally counts what a history has opened and closed besides: streams, events, memory of the
-- device, AIO contexts, descriptors and buffers. Common.Items has both books at once, and Effects.Meets
-- the rules for conditions before a part, after it and where it throws, with those for a try block and
-- for the end of a scope.
--
-- multi_share's barriers are a step relation over the coordinator and all workers; a worker that fails
-- leaves. Meeting has the abstract view of them, without the coordinator. MultiShare.Worker is the whole of one worker, to
-- which the coordinator's words are replies of the driver.
--
-- Numbers are the native naturals; size_t arithmetic that can wrap is written with `% size_mod`, which
-- is 2^64. Times are milliseconds on one clock, and a deadline is a plain sum, since main.cpp bounds
-- the time-out by INT_MAX. A message keeps its template and arguments instead of its formatted text.
--
-- Rounds. The wait for a peer takes a bound on its rounds, and DataStrategy.Wait says how many are
-- enough. For a rank of the layout no round is taken at all.
--
-- The synchronous transfer of cache2_hal_aio counts its addresses from the start of the buffer; its
-- rounds per shard are the slot's bytes, and the theorem on it shows that they are enough. The AIO phase
-- is a step relation over both threads; which completions the kernel delivers is a parameter.
--
-- Not modelled: the texts of log lines and of paths; what std::stoi makes of a CPU list with other
-- characters than digits, commas and dashes, which the kernel does not write; of cache2_hal_aio the
-- set-up and closing of the AIO context and its descriptors, the text records, the verification and
-- the body of main; of cli.hpp the options and the two processes of launch; of multi_share how the
-- workers are started and waited for; the main functions of hal_map_probe, device_share and
-- host_uva_share; the lines of /proc/self/smaps that host_share prints; the copy of fmt under
-- third_party, the build files and run_tests.py.
mod Prelude
pub mod Status
pub mod Effects
pub mod HalMemory
pub mod Device
pub mod Text
pub mod CtrlLayout
pub mod DataStrategy
pub mod Demo
pub mod Aio
pub mod Common
pub mod Cli
pub mod HalMapProbe
pub mod MultiShare
pub mod HostUva
pub mod DeviceShare
pub mod HalHostIo
pub mod HostShare
pub mod Tests
