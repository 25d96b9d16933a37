-- ===== src/Lib.antt =====
-- The C core of the NVIDIA driver for R4OS: the adapters under src/rm through which NVIDIA's own
-- resource manager (RM) and modeset (NVKMS) code reaches the operating system, the diagnostics that
-- run them, the boundary of display stream compression, src/dsc/pps.c, and the host tools under Tools
-- that compare the driver's bytes with NVIDIA's structures and decode NVIDIA's data.
--
-- Parts and how they interact. RM and NVKMS declare two families of calls, os_* and nvkms_*. Both
-- stand on the same private routines: src/rm/memory.h copies, fills and compares memory,
-- src/rm/format.h is the formatter behind every log line, and the bridges of src/rm/semaphore.h,
-- wait.h, clock.h and log.h and the heap of memory.h are implemented elsewhere in the driver. A void
-- call that cannot do what it stands for ends the callback through r4nv_native_fault
-- (src/rm/native_fault.h). The tools are programs of the build host: the Zig side hands its packets to
-- the checks of Tools/Bootstrap/GspMessageAbi.c, of which those on messages, events, the sequence and
-- the unloading remember what they compared, and Tools/Bootstrap/FwsecAbi.c reports only when all of
-- that, the initial memory and the rings were compared.
--
-- Files:
--   Base, Base/*            shared names: Boolean tests, byte lists, machine words, ints
--   Memory                  src/rm/memory.h; Memory/Copy, Fill, Compare, Strings prove its routines
--   NvkmsMemory, OsMemory   src/rm/nvkms_memory.c and src/rm/os_memory.c
--   Format/Outcome          how a step of the formatter ends, and va_arg
--   Format/Output           struct r4nv_fmt_output, r4nv_fmt_repeat, r4nv_fmt_bytes
--   Format/Parse            flags, width, precision and length of a directive; r4nv_fmt_decimal
--   Format/Parse/Widths     the numerals that r4nv_fmt_decimal reads
--   Format/Text             the conversions s and c
--   Format/Number           the conversions d i u o x X p; r4nv_fmt_unsigned, r4nv_fmt_signed
--   Format/Number/*         the digits, and the values that they stand for
--   Format/Vformat          r4nv_vformat, and os_format.c and nvkms_format.c which call it
--   Format/Expansion        a description of the text of a format that knows no buffer
--   Format/Output/Document, Appends    a buffer against the whole text emitted so far
--   Format/Vformat/*        r4nv_vformat against the expansion, its termination, what a caller gets
--   Heap, Heap/Blocks       the heap calls of os_memory.c and nvkms_memory.c, and the blocks in use
--   Log, Log/Records        src/rm/log.h, os_log.c, nvkms_log.c, and what a record holds
--   Dsc, Dsc/Slices         src/dsc/pps.c with r4os_dsc.h, and the slice counts
--   Native                  src/rm/native_fault.h and the status codes
--   Semaphore, Semaphore/Ledger   src/rm/os_semaphore.c and src/rm/nvkms_semaphore.c
--   Wait, Wait/Elapsed      src/rm/os_wait.c, nvkms_wait.c, os_clock.c, nvkms_clock.c
--   Probe                   how a diagnostic ends; CHECK
--   Probe/Semaphores, Probe/Semaphores/*   src/rm/semaphore_probe.c: its passing, faults, the pattern
--   Probe/Waits, Probe/Waits/Passes        src/rm/wait_probe.c
--   Abi                     structures in memory, memcmp, memcpy
--   Abi/BitFields, Abi/Channel, Abi/Channel/ReadBack   the channel flags of GspMessageAbi.c
--   Abi/Requests, Abi/Requests/Exact       its checks of single requests
--   Abi/Mmu, Abi/Mmu/Binding               its check of the page directory's binding
--   Abi/Pages, Abi/Pages/*                 its page words, and their fields
--   Abi/Registry, Abi/Registry/Canonical   its check of the packed registry
--   Abi/Registers           its tables of registers
--   Abi/Progress            masks of compared fixtures
--   Abi/Messages, Abi/Messages/*           its framed messages and the unloading
--   Abi/Events, Abi/Events/*               its event fixtures
--   Abi/Sequence, Abi/Sequence/Extent      its sequencer fixture
--   Abi/Rings, Abi/Rings/Linked            the rings of Tools/Bootstrap/FwsecAbi.c
--   Abi/Boot                the initial memory of Tools/Bootstrap/FwsecAbi.c
--   Abi/Fwsec, Abi/Fwsec/Evidence          its report, and what the report stands for
--   HostTools               blocks and files that a tool holds
--   HostTools/Shader, HostTools/Shader/Releases     Tools/Rm/VerifyShader.c
--   HostTools/Archive, HostTools/Archive/Complete   Tools/Bootstrap/Export.c
--   MemoryTests, FormatTests, BridgeTests, AdapterTests, ProbeTests, AbiTests, FieldTests, PageTests,
--   ReportTests             runs on concrete inputs
--
-- Each operation has the name of its C function; a part of a long function has a name of its own and
-- a comment with the C text. Memory is a function from addresses to bytes and is passed on
-- explicitly; a pointer is an address, NULL is 0 or an Option. A 64-bit or 32-bit value is its bit
-- pattern, cut where the C type cuts it. The bridges are records of functions on an abstract state,
-- and what their headers document is a hypothesis where a theorem needs it. src/dsc/pps.c
-- calls NVIDIA's DSC_GeneratePPS, which is a parameter. In the tools a structure of NVIDIA's is a record
-- with a layout (its size, the bytes of a value, the value of bytes), and the macros that place bit
-- fields, the checksum, the queue, the decoders, malloc and the C library's files are parameters too.
-- The static words of the checks are passed on explicitly. The theorems say how they use what the
-- headers give: sizes that the static assertions fix, fields that read back what is put in them.
--
-- Bounds and fuel. The formatter takes fuel one above the length of the format, since each round reads
-- a character; it is enough for every format. The walks over C strings take fuel, and one above the
-- length of the string is enough. All other loops are structural. Undefined behaviour of C
-- that the formatter could meet (an argument that is not there, a write past its array of digits) is
-- an outcome of its own, and so is the release of a pointer that VerifyShader.c never assigned.
--
-- Not modelled: overlap of the formatter's buffer with its text arguments, and concurrency inside the
-- bridges, whose calls are taken in the order in which they take effect; the text of the tools'
-- reports, of which only whether it is printed is kept. src/rm/cpu_probe.c, the C tests, NVIDIA's own
-- code under ThirdParty and src/dsc/Original, and the Zig part of the driver are outside the model.
pub mod Base
pub mod Memory
pub mod NvkmsMemory
pub mod OsMemory
pub mod Format
pub mod Native
pub mod Abi
pub mod HostTools
pub mod Probe
pub mod Log
pub mod Dsc
pub mod Heap
pub mod Semaphore
pub mod Wait
mod MemoryTests
mod BridgeTests
mod AdapterTests
mod FormatTests
mod AbiTests
mod FieldTests
mod PageTests
mod ReportTests
mod ProbeTests
