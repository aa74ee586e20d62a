-- ===== src/Lib.antt =====
-- Verification of the Yerp kernel (kernel/Source).
--
-- Parts and files:
--   Prelude      shared names, Boolean tests, lists and integers over the native numbers.
--   Memory       byte memory as a partial function from addresses to bytes. `Outcome` has `fault`
--                for undefined behaviour (an access to an unmapped address) and `out_of_fuel`.
--                Region: blocks after a copy and a fill. Text: `IsCStr`, a zero-terminated string
--                in memory. Order, Search: what comparisons and searches are to return.
--   Util         kernel/Source/util/string.c. Block: memcpy, memmove, memset, memcmp, memchr. Str:
--                strlen, strnlen, strcmp, strncmp, strchr, strrchr, strspn, strcspn, strpbrk.
--                Write: strcpy, strcat, strncpy, strncat. Ctype: the character tests, tolower,
--                toupper. Strtol: strtol, strtoll. Number: atoi, atol, atoll, itoa, ltoa, lltoa and
--                reverse (reverse_text). Substring: strstr. Token: strtok. Each C function is the
--                function of that name; each of its loops is a function of its own.
--   Pmm          PhysicalMemoryManager of kernel/Source/core/pmm.hh: allocate, tryAllocate
--                (try_allocate), free, addRegion (add_region), alignUp and alignDown, with HHDM of
--                kernel/Source/core/limine.hh. `IsPmm` is the invariant of the free list. Reserve:
--                reserveRegion (reserve_region). Client: sequences of calls against a stack.
--                Cycle: a double free that is not seen. Init: init over Limine::MemoryMap, whose
--                entries are a function from indices.
--   Ktl          SpinLock (with AutoLock) of kernel/Source/ktl/atomic and call_once of
--                kernel/Source/ktl/call_once: a relation `Step` with one step of one thread for
--                each atomic access, any number of threads, and `Reach` for the states reached.
--                Atomic: atomic<T> of kernel/Source/ktl/atomic for the unsigned types of 32 and 64
--                bits. StringView: string_view of kernel/Source/ktl/string_view; a character is the
--                byte at its place, compared as a signed `char`. Slice: slice of
--                kernel/Source/ktl/slice, with indices for pointers. Pair: pair of
--                kernel/Source/ktl/pair and its order.
--   Limine       kernel/Source/core/limine.hh: a request is the pointer to its response, null until
--                the bootloader answers. Loader: BootloaderInfo, ExecutableCmdline, FirmwareType,
--                ExecutableAddressInfo. Files: ModuleList, ExecutableFileInfo. Framebuffer:
--                Framebuffer with FB. Tables: EFISupport, RSDPInfo, SMBIOSInfo, BootTime. Texts,
--                Guards and Pixels prove what the members return. MemoryMap stands in Pmm/Init,
--                HHDM in Pmm.
--   Format       FmtBase of kernel/Source/core/format.hh: the digit strings (make_dec_string in
--                Format, make_hex_string and make_bin_string in Radix), puts and print (Print),
--                parse_spec (Spec), route and printf (Printf). A function that puts characters
--                returns the list of what Serial::put is called with.
--   Arch         kernel/Source/arch. Idt: InterruptDescriptorTable of idt.hh (init as init_idt,
--                setGate, registerHandler); Idt/Panic: kpanic and defaultInterruptHandler, as the
--                characters that they put on the two ports. Gdt: the tables and load of gdt.hh.
--                Efi: MemoryMap and RuntimeIterator of efi.hh; Efi/Services: initializeSystemTable
--                and the wrappers, the firmware's functions being parameters. Serial: Serial of
--                serial.hh, over the values that its registers are read with. Io: in, out and msr
--                of io.hh, the instructions being parameters.
--   Boot         _start of kernel/Source/core/_start.cc, with the formatter over a serial port
--                (Send).
--   Examples     the theorems at concrete inputs, and runs of the functions.
--
-- Memory is passed explicitly: a function that writes returns the memory after it. Addresses are
-- numbers, and no object reaches the end of the address space, so pointers do not wrap. A byte is
-- the `unsigned char` of the source; comparisons with an `int` convert it to a signed `char` where
-- the source does.
--
-- A counted loop recurs on its count. A loop that runs to a terminator, or along the free list,
-- takes fuel, one unit for each round; each theorem says how much is enough, which is more than the
-- length of the string or of the list. A wait for the serial port takes a unit for each read of the
-- line status.
--
-- The state of the page allocator has, for every address, the memory that it leads to, so a page
-- that is mapped at its physical address and in the higher half is one page, and a write at either
-- address is read at both. The regions that are added are mapped at their physical addresses.
--
-- The page allocator is modelled with the branches that kernel/Source/constants.h turns on; the text
-- printed by the kernel is not part of its state. The class stands under `#if 0` in the source.
--
-- Not modelled: the interrupt stubs of kernel/Source/arch/idt.S, the bootloader's and the firmware's
-- own code, the text that other functions print in debug mode, compile-time type traits; and so far
-- optional, tuple, algorythm and initializer_list of kernel/Source/ktl.
pub mod Arch
pub mod Boot
pub mod Examples
pub mod Format
pub mod Ktl
pub mod Limine
pub mod Memory
pub mod Pmm
pub mod Prelude
pub mod Util
