-- ===== src/Lib.antt =====
-- process-bridge: the state of a native Linux process is captured in a snapshot file and restored
-- in an emulator.
--
-- The snapshotter (snapshotter/) runs a process under ptrace to a breakpoint and writes its
-- registers and its mappings to a file; the loader (loader/) reads the file and restores both in
-- a Unicorn engine. The two share the structs of the file (common/include/linux/) and the log
-- (utilities/log/).
--
-- Base holds what the parts share: tests, lists, bit fields, little-endian words, and the runs of
-- C code over a world, which return, exit, or leave what the C standard defines. Common is the
-- snapshot file: Common/MapsEntry is `maps_entry_t`, Common/X8664 and Common/I386 with
-- Common/I386State are the process states, and Common/Snapshot is the file behind the state, a
-- sequence of sections, each the header and the bytes of a mapping. Loader/Gdt is
-- loader/include/gdt_utils.h, with the processor's view of a descriptor in Loader/Gdt/Fields.
-- Loader/X8664 and Loader/I386 are the two files cpu_state_dump.c below loader/src/x86_64 and
-- loader/src/i386, Loader/Cpu is loader/src/cpu_state_dump.c, Loader/Dump is loader/src/dump.c
-- and Loader/Create is loader/src/loader.c; each function keeps its name. In Loader/Dump the body
-- of `dump_snapshot` is cut into `read_state`, `load_mappings`, `load_mapping` and
-- `restore_from`, in the order of the source. Snapshotter/Maps is
-- snapshotter/src/linux/maps_parser.c, and Snapshotter/Mappings is mappings_reader.c and
-- snapshot_dump.c beside it: `write_snapshot` is the body of `dump_snapshot`, which the x86_64
-- build calls on its registers. In the i386 build, which is in Snapshotter/Mappings/I386,
-- `size_t` and `uintptr_t` have 32 bits, and the same functions end in 32. The body of
-- `dump_mappings_content` is cut into `dump_entries`, `dump_entry`, `dump_chunks` and
-- `chunk_bytes`, from the outer loop to the inner. What a mapping and a listing of mappings are
-- to add to the file is specified in Snapshotter/Mappings/Memory and Listing beside it.
-- Snapshotter/Breakpoint is breakpoint.c, Snapshotter/ProcessInfo is process_info.c, and
-- Snapshotter/Capture is x86_64/snapshot.c, with i386/snapshot.c in Snapshotter/Capture/I386 and
-- the assertions of snapshotter/include/linux/arch.h in Layout64 and Layout32 beside it.
-- Snapshotter/Main is snapshotter/src/main.c: `run_to_snapshot` is its end, from the breakpoint
-- on, and `snapshot_child` all that follows the reading of the offset, with the file that a run
-- leaves in Snapshotter/Main/Written and Memory. Log is utilities/log/src/log.c with the macros
-- of log.h, as a state of its own with what was written to `stderr`. Pipeline joins the two
-- programs, in each build: Pipeline/Sections has the sections of a process, Copied and Copied32
-- its memory, Resumed its registers on i386, Live its restore to the end on x86_64, and Started a
-- whole run of `main`. Loader/Dump/Guarded, Bounds and Defined have the loader with a test of
-- each of its accesses to the file, and Loader/Dump/Logged with the log line of each mapping too,
-- which reads its path.
--
-- Unicorn and the system calls of the loader are the record `Host` of Loader/Host, a parameter of
-- everything that calls them. What is relied on in Unicorn is stated in Loader/Engine (memory),
-- Loader/Registers (registers) and Loader/Engine/Ring3 (the `iret` of the i386 trampoline);
-- Tests/Machine, with Tests/Ring3, is a concrete engine that has these laws. The layout of
-- `struct user_desc` in memory is the parameter `DescLayout`, with the law that a value is copied
-- by its bytes. The C library and the system calls of the snapshotter are the record `Kernel` of
-- Snapshotter/Kernel, with the laws of streams and of the lines of /proc/<pid>/maps;
-- Tests/Process is a concrete one. `ptrace`, `fork`, `execve` and `waitpid` are the record
-- `Tracer`, with a concrete child in Tests/Tracee; the requests of the i386 capture are the
-- record `Tracer32`. The law of a kernel that gives 32-bit addresses is
-- Snapshotter/Mappings/I386/Narrow. The constants and layouts of <elf.h>, with the calls that
-- read an ELF file, are the record `Elf` of Snapshotter/Elf, with a small file in Tests/ElfFile.
-- `strtoull`, `kill` and what the memory of `malloc` held are the record `Shell` of
-- Snapshotter/Main; Tests/Shell is a whole run. When the calls of Unicorn succeed is stated in
-- Loader/Engine/Progress. `LOG_FATAL` and `LOG_FATAL_ERRNO` exit, as `exited 1`; all other log
-- lines but that of Loader/Dump/Logged are left out, and so are the statements behind a
-- `LOG_FATAL`, which are not reached.
--
-- The loop over the mappings of a file runs on fuel, one more than the size of the file: each
-- round takes a header, so this is always enough. The loop over the chunks of a mapping runs on
-- one more than the size of the mapping, for each round writes a byte at least. The loop over the
-- lines of /proc/<pid>/maps, in the dump and in the search for the image base, runs on fuel that
-- the caller gives; more than the lines that are left is enough. The loops over the program
-- headers, the descriptors of thread-local storage and the arguments run on the rounds that are
-- left of their bounds.
--
-- Not modelled: the environment that is passed on to the child, what the child does between the
-- calls of the snapshotter, the counters that are only logged, the log lines of all parts but for
-- the exits and the path of a mapping (the log itself is modelled apart from them), the Python
-- bindings, the tests, the examples and the build files, which hold no logic of the program.
-- Where the two builds of the snapshotter differ, the breakpoint and `main` are those of x86_64.
pub mod Base
pub mod Common
pub mod Loader
pub mod Snapshotter
pub mod Pipeline
pub mod Log
pub mod Tests
