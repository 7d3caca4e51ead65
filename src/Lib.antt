-- ===== src/Lib.antt =====
-- Verification library of AeroOS, a kernel with a window manager in Rust.
--
-- The program. The kernel (kernel/src) keeps a table of processes, each with a table of file
-- descriptors; a round-robin scheduler runs them from the timer interrupt, signals and the
-- out-of-memory handler end them, and a permission check says what a process may use. Interrupt
-- handlers of the keyboard, the PS/2 mouse and the USB devices feed a ring of scancodes and a mouse
-- state, from which a system call makes structured events. System calls reach files through a virtual
-- file system, which gives every path to the file system mounted closest to it. The window manager (wm/src) polls these
-- events and routes them to the cursor and to its list of windows.
--
-- The files.
--   Prelude          Boolean tests, lists and integers over the native numbers; Prelude/Slots is the
--                    theory of a fixed array of slots told apart by a key, 0 for an empty one, which
--                    the process table and the window list share; Prelude/Dict is that of a map in
--                    the order of its keys, for the BTreeMaps of the file systems; Prelude/Loops
--                    has counted loops, Prelude/Raster pixels as places of a buffer.
--   Kernel/Process   kernel/src/process.rs: ProcessTable with alloc, free (free_process), get,
--                    get_mut (modify), send_signal, mark_exit and reap_zombies.
--   Kernel/Fd        kernel/src/syscalls/fd.rs: FdTable with alloc, get, close, open_count, clear
--                    and update_vfs_offset.
--   Kernel/Signal    kernel/src/signal.rs: send_signal, deliver_pending_into and sys_kill.
--   Kernel/Oom       kernel/src/oom.rs: handle_oom.
--   Kernel/Perm      kernel/src/perm.rs: check_permission and get_privilege_level.
--   Kernel/Scheduler kernel/src/scheduler.rs: on_timer_tick, schedule, switch_to_next, yield_now,
--                    restart_current, find_next_ready (its loop is scan) and do_context_switch
--                    (whose parts are switch_states and enter).
--   Kernel/Frames    kernel/src/memory/frame_allocator.rs: BootInfoFrameAllocator.
--   Kernel/Paging    kernel/src/memory/page_table.rs: AddressSpace with new_user, clone_user_space,
--                    map_user_page, translate and dealloc_user.
--   Kernel/Ata       kernel/src/ata.rs: read_sectors and write_sectors over transfers of 256 sectors.
--   Kernel/Mem       kernel/src/mem.rs: memcpy, memmove, memset, memcmp and strlen.
--   Kernel/Elf       kernel/src/exec.rs: validate_header_raw, parse_phdr and load_elf.
--   Kernel/Aero      kernel/src/aero_format.rs: parse_header, extract_name and load_aero.
--   Kernel/Syscall   kernel/src/syscalls/mod.rs and syscalls/time.rs: Number the table of the calls,
--                    World the state that they share, Files, Names, Processes and Screen the calls,
--                    Dispatch the dispatch with its permission checks.
--   Fs/Result        what kernel/src/fs shares: results and the trait FileOps as a record.
--   Fs/Tmpfs         kernel/src/fs/tmpfs.rs: the file system in memory.
--   Fs/Initramfs     kernel/src/fs/initramfs.rs and the helpers of tmpfs.rs that fill the root.
--   Fs/Fat           kernel/src/fs/fat32.rs: the table of clusters, entries and inodes; Fs/Fat/Disk
--                    has what reads and writes the disk, which is a parameter, Fs/Fat/Names
--                    the short names, Fs/Fat/Slots and Fs/Fat/Directory the directories, Fs/Fat/Files
--                    write and truncate, Fs/Fat/Sizes the sizes in the entries, Fs/Fat/Start the
--                    partition and the boot sector.
--   Fs/Dev           kernel/src/fs/devfs.rs: the device files.
--   Fs/Path, Fs/Vfs  kernel/src/fs/mod.rs: paths, and Vfs with mount, find_mount, resolve, open
--                    (open_file, its creating half open_new), read, write, read_all and readdir.
--   Input/Ring       ScancodeBuffer of kernel/src/interrupts/mod.rs.
--   Input/Mouse      kernel/src/interrupts/mouse.rs: MouseState with on_byte and drain.
--   Input/Hid        kernel/src/usb/hid.rs: the key tables and the report handlers.
--   Input/Event, Input/Poll  kernel/src/syscalls/input.rs: InputEvent and poll_next.
--   Wm/Window        wm/src/window.rs: Window and WindowList; Wm/Window/ZOrder its iter_z_order.
--   Wm/Cursor        wm/src/cursor.rs: Cursor; Wm/Cursor/Draw its bitmap and drawing.
--   Wm/Router        wm/src/input_router.rs: DragState and process_event.
--   Wm/Compositor    wm/src/compositor.rs: the screen off-screen, put_pixel, fill_rect and the
--                    drawing of the windows from the lowest z value to the highest (composite).
--   Wm/Surface       wm/src/flutter_api.rs: FlutterSurface and fill_test_content.
--   Wm/Loop          wm/src/lib.rs: init and run, its loop taken for any number of turns.
--   Flutter/Input    flutter_adapter/src/input.rs: scancodes as events for the embedder.
-- The theorems of a component stand in the modules below it (Laws, Close, Reap, Scan, Lone, Idle,
-- Hit, Focus; Tree, Names, Unlink and Reach of Fs/Tmpfs; Parent of Fs/Path; Mounts, Walk, Create and
-- ReadAll of Fs/Vfs; Chain, Table, Offsets, Entries and Files/Truncate of Fs/Fat; Keyboard of Fs/Dev; Pixels, Windows, Content
-- and Screen of Wm/Compositor; Space and Dealloc of Kernel/Paging; Compare of Kernel/Mem; Memory, Gate, Top, Clock, Listing,
-- Cwd, Wait, Fds and Append of Kernel/Syscall),
-- and the runs at concrete inputs in the modules named Tests.
--
-- The model. State is passed explicitly: an operation that takes `&mut self` or a global lock
-- returns the new state behind its result. Machine words are natural numbers with the wrap-around of
-- a release build written out (ids and counters modulo 2 ^ 32, the window count and file offsets
-- modulo 2 ^ 64, i32 coordinates by wrap32, the mouse's i16 counters saturating). The scheduler's
-- `try_lock` calls read the flags of Busy, since the code that a handler interrupted does not run
-- meanwhile. A context switch ends in an Outcome that holds what the assembly is called with.
-- Physical memory is a function from addresses to bytes; for the page tables it is a function from
-- frames to their entries and another to their bytes, a page table entry and the mapper of the
-- crate x86_64 being parameters. The frames that clone_user_space copies into are new ones, so
-- that no table is read in them. A file of the file system in memory that would grow to 2 ^ 63 bytes
-- is a panic, as it is for a Vec. The screen is a function from offsets to bytes. A slice that would panic is the result
-- panicked of load_elf, of the file systems' Result and of the calls' Reply. Paths are byte lists, a
-- slash is 47. The virtual file system is stated for the state F of a file system of any kind and its
-- methods, as the trait object hides them. User memory is a function from addresses to bytes, and the
-- test of core::str::from_utf8 is a parameter. A call that hands the processor over ends in the Reply
-- waits or exits, with what the scheduler does.
--
-- Bounds and fuel. Descriptors are searched for in 125 rounds, slots in 32; poll_next has fuel for
-- 256 bytes, and the ring holds 255 at most, so that it always answers. The loop over the frames of
-- a region makes at most as many rounds as the stack has places. read_all makes as many rounds as the
-- file has bytes, and so does read of FAT32; a chain has at most a million clusters, as the source
-- says; a path is at most 255 bytes long. The recursion over directories that looks for the entry of
-- a file has a depth as its fuel, and a deeper tree is a panic. A read of the disk file makes as many
-- rounds as bytes.
--
-- Not modelled. Port I/O, start-up and the drivers are hardware access or calls of other packages;
-- freeing an address space is represented in the process table by the CR3 value that it is called
-- with, and the page tables are a component of their own.
-- The calls mmap, exec, fork and poll_input are a parameter of the dispatch. The drawing of
-- the kernel, the rest of the adapter to the embedder and the user programs have no model here. Log lines are left out.
pub mod Prelude
pub mod Kernel
pub mod Input
pub mod Fs
pub mod Wm
pub mod Flutter
