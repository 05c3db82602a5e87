-- ===== src/Lib.antt =====
-- heim: a library that reports the state of a host (processes, memory, disks, processors,
-- virtualization) from what the system says. On Linux that is text and bytes below /proc and /sys; on
-- Windows and macOS it is memory that calls of the system fill. This development models the parts that
-- read these and decide what they mean, and the handles of a process with what is done to it.
--
-- The parts and their files. Each operation has the name that it has in the source; the loop of a
-- function, or a match in it, that has no name of its own stands beside it under a name for what it
-- does.
--   Prelude, Text, Outcome,
--   LastValue                shared notation; texts as lists of code points and bytes as lists of
--                            numbers, with the methods of `str` that the sources call; the result
--                            of fallible code, in which a panic is a value of its own.
--   Common/Errors            heim-common/src/errors.rs
--   Common/Iter              heim-common/src/utils/iter.rs
--   Common/Memory            numbers and texts in memory, as the back ends copy them.
--   Common/ChooseChain       heim-common/src/utils/stream/choose_chain.rs: the state of the
--                            combined stream, over the poll functions of its two streams; Drain
--                            is a consumer of it.
--   Runtime/Fs, Roots        heim-runtime/src/fs.rs and src/linux.rs. The roots of procfs and sysfs
--                            are cells written once; the functions on them pass the state on.
--   Runtime/Task             futures of functions that ask the system more than once, as functions
--                            of its state.
--   Host/BootTime            heim-host/src/sys/linux/boot_time.rs and uptime.rs
--   Host/Users, Platform     heim-host/src/sys/unix/users.rs and platform.rs, and
--                            src/sys/linux/users/other.rs: an entry of utmp is the memory of its
--                            fields, in their order.
--   Host/Windows             heim-host/src/sys/windows/platform.rs
--   Memchr                   what heim-process uses of the crate memchr, as a record of laws.
--   Process/Env              heim-process/src/sys/unix/env.rs
--   Process/Command          heim-process/src/sys/linux/process/procfs/command.rs
--   Process/Stat             heim-process/src/sys/linux/process/procfs/stat.rs; Layout writes a line
--                            as the kernel does.
--   Process/Statm            heim-process/src/sys/linux/process/procfs/statm.rs
--   Process/IoCounters       heim-process/src/sys/linux/process/procfs/io.rs
--   Process/Errors, Signal   heim-process/src/errors.rs and src/os/unix/signal.rs
--   Process/System           what heim-process asks of the system: files, calls of libc, the clock.
--   Process/Unix             heim-process/src/sys/unix/process.rs; Wait is about its polling loop.
--   Process/Procfs           the functions below heim-process/src/sys/linux/process/procfs that read
--                            the files of a process.
--   Process/Handle           heim-process/src/sys/linux/process/mod.rs, sys/common.rs and
--                            sys/linux/pids.rs (All), with the name and the paths (Paths) and the
--                            network counters (NetCounters); Usage is src/process/cpu_usage.rs and
--                            what src/process/mod.rs adds. Slot is the history of one process
--                            number, as a step relation, and Signals relates the handle to it.
--   Process/ProcArgs         heim-process/src/sys/macos/wrappers/proc_args.rs; Block writes a block of
--                            memory as the kernel of macOS does.
--   Process/Windows          heim-process/src/sys/windows: the calls of the system (the record Kernel);
--                            handles and their rights (Open), all process numbers (Pids), the memory
--                            of a process (Memory, Retries), the table of processes (Table, Search)
--                            and their snapshot (Snapshot, Errors), the priority (Priority), and
--                            process/mod.rs with what is asked of a process (Handle, Methods,
--                            Reuse).
--   Process/Mac              heim-process/src/sys/macos: the requests of the system (the record Darwin)
--                            and the blame of a failed one, the list of processes (Listed), the
--                            block of arguments (Args), and a process with what is asked of it
--                            (Handle, Reuse, Zombies).
--   Virt                     heim-virt/src/lib.rs (Kinds) and src/sys/linux (Containers, Machines,
--                            Detect); Names and InitEnv hold lemmas on what the files say.
--   Disk/FileSystem          heim-disk/src/filesystem.rs
--   Disk/Partitions          heim-disk/src/sys/linux/partitions.rs; Named is what a line of
--                            /proc/filesystems names, apart from how the code reads it.
--   Disk/Counters, Usage     heim-disk/src/sys/linux/counters.rs and src/sys/unix/usage.rs
--   Disk/Drives, Volumes     heim-disk/src/sys/windows: the drives and partitions, and the volumes and
--                            their counters.
--   Memory/Value, Meminfo    heim-memory/src/sys/linux/memory.rs; Layout writes a text as the kernel
--                            does, and Parsed says what is read from it.
--   Memory/Swap              heim-memory/src/sys/linux/swap.rs
--   Memory/Status, Pages     heim-memory/src/sys/windows/mod.rs and src/sys/macos
--   Cpu/Count                heim-cpu/src/sys/linux/count/logical.rs and physical.rs
--   Cpu/Stats                heim-cpu/src/sys/linux/stats.rs
--   Cpu/Times, Freq          heim-cpu/src/sys/linux/times.rs and freq.rs
--   Cpu/Processors           heim-cpu/src/sys/windows/count.rs and wrappers/count.rs: the buffer of
--                            records (Growth) and what is in it (Records).
--   Cpu/Usage                heim-cpu/src/usage.rs
--   Net/Counters, Nic        heim-net/src/sys/linux/counters.rs and src/sys/unix/nic.rs
--   Net/Routes               heim-net/src/sys/macos/bindings.rs and counters.rs: the messages of the
--                            kernel, one behind the other.
--   Net/Adapters             heim-net/src/sys/windows/nic.rs: the addresses of the adapters and their
--                            masks.
--   Sensors                  heim-sensors/src/sys/linux/temperatures.rs: the files of one sensor
--                            (Files, Trips) and the streams of them (Temperatures).
--   Tests                    the theorems at concrete inputs.
--
-- How the parts interact: a reader takes the roots that Runtime/Roots decides as parameters, and asks
-- Runtime/Fs for a file; the file system is the record `Files`, one answer for each path. What a handle
-- of a process does spans several requests, between which other processes go on: there a request is a
-- function of the system's state that returns the next one (Runtime/Task, Process/System). The handle
-- reads the line of its process and the boot time (Process/Procfs, Host/BootTime), compares the start
-- with its own, and then calls `kill` (Process/Unix): the theorems on signals say this for one state of
-- the system, so a number that is given away between the comparison and the call is not covered.
-- Parsers return the errors of Common/Errors; a stream is the list of its items.
--
-- Numbers. A parsed u64 is a natural number that the parser has checked against the maximum. Counters
-- that only count lines or entries are natural numbers without a bound, since no input is long enough
-- for a u64 to wrap. Quantities of the crate uom are a parameter type with the conversions that the
-- code calls. Loops over bytes run on fuel: `from_bytes` has a round for each byte and one more, and
-- every round that goes on consumes a byte; `collect` of the command line and `drain` of a stream are
-- consumers with the fuel that their theorems state; the decimal print of a number n has n + 1 rounds.
-- The other loops on lists recurse on them.
--
-- The polling loop of `pid_wait` runs on fuel, one unit for each poll; its theorem states how many it
-- takes. Sums and products of disk sizes and of frequencies wrap at 64 bits, as in a release build.
--
-- The loops that ask the system until it is content run on fuel, one unit for each round, and `none`
-- means that it ran out: the growing buffers of Windows and macOS, the searches in the table and in the
-- snapshot of processes of Windows, and the iterator over the messages of macOS. Where such a loop never ends, the theorem
-- says so for every amount of fuel; where it ends, the theorem states how many rounds it takes. What
-- is undefined behaviour in the source (a read behind the end of a buffer, a null pointer that is
-- followed, a call that is told of more room than there is) stands as a panic.
--
-- Times and temperatures are floating-point numbers in the source: they are a parameter type here, with
-- the operations that the code calls. That the start times of two processes are told apart if their
-- clock ticks differ is a hypothesis, up to a limit on the ticks.
--
-- Not modelled: the back ends for Windows and macOS beyond the files above, most of which are bindings
-- of C calls; the executors of futures; the wrappers of each crate's public types, which pass the calls
-- on; the flags of a mount; the backtrace of an error; the release of handles and debug assertions.
mod Prelude
mod LastValue
pub mod Outcome
pub mod Text
pub mod Common
pub mod Runtime
mod Memchr
pub mod Host
pub mod Process
pub mod Virt
pub mod Disk
pub mod Memory
pub mod Cpu
pub mod Net
pub mod Sensors
mod Tests
