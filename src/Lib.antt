-- ===== src/Lib.antt =====
-- GoUblksrv: a userspace block device server, its C side and the Go target behind it.
--
-- A ublk server answers the block requests of the Linux driver `ublk_drv`. Each hardware queue of a
-- device has a thread with an io_uring: it sends one command per slot (a tag) to the driver, the driver
-- completes the command when there is a request, the thread hands the request to the target (Go code,
-- through `onRequestAsync`), and a thread of the target sends the answer with the next command of the
-- slot. The device itself is made, asked and deleted with control commands. This library models these
-- two parts of ublkhelper.c and ublkhelper.h, and the daemon that puts them together: it asks for the
-- CPUs, opens the device, makes a thread for each queue, and starts the device. Of the Go code it
-- models what becomes of a request, and how a device starts, ends and is described.
--
-- Base            names of the libraries passed on, Boolean tests (Base/Tests), lists over native
--                 numbers (Base/Lists)
-- Bits            bits of a word: tests and masks (`has x mask` is the C test `x & mask`)
-- Word            machine integers: an `int` is its 32-bit pattern; unsigned sums wrap as written
-- UserData        `build_user_data` and its readers (ublkhelper.c); UserData/Laws
-- Ioctl, Uring,   what the code calls and does not define, as records of operations and of the laws
--   Host          that are relied on: <linux/ioctl.h>, liburing, <endian.h> (ublksrv_tgt_endian.h)
-- Dev             `struct _ublksrv_dev` and what it holds; Dev/Depths `ublksrv_calculate_depths`;
--                 Dev/Buffers `round_up`, the mapping of descriptors, `ublksrv_get_iod`
-- Queue/Types     `struct _ublksrv_queue`, its slots, and the outcome of a call
-- Queue/IoCmd     `ublksrv_queue_io_cmd`, `ublksrv_mark_io_done`, `ublksrv_complete_io`; its children
--                 are the cases of a call, the mutex, and what a commit carries
-- Queue/Request   `demo_handle_io_async`, `__longhorn_build_req`; Queue/Request/Handover
-- Queue/Cqe       `ublksrv_handle_cqe`, `ublksrv_reap_events_uring`; Queue/Cqe/Returns (they end)
-- Queue/Process   `ublksrv_process_io` and the idle state; Wait, Idle, Ending, Returns
-- Queue/Init      `ublksrv_queue_init`, `ublksrv_submit_fetch_commands`; Init/Fetch, Init/Ready
-- Queue/Invariant the invariant `IsQueue` and what each operation leaves (`Evolves`)
-- Queue/Protocol  the protocol of a queue, as the owners of its slots and the events that pass them on:
--                 what the handlers refine (Owners, Steps, Refines), and what follows (Balance)
-- Queue/Workers   `ublksrv_queue_adjust_uring_io_wq_workers`
-- Queue/Private   the blocks behind `private_data`; Private/Overruns
-- Queue/Thread    `demo_null_io_handler_fn`: a whole thread; Thread/Runs, Thread/Stops (it ends)
-- Ctrl/Types      `struct ublk_params`, and the memory that a command points to
-- Ctrl/Ops        the numbers of the control commands, `legacy_op_to_ioctl`
-- Ctrl/Cmd        `ublksrv_ctrl_init_cmd`
-- Ctrl/Send       `__ublksrv_ctrl_cmd`; Ctrl/Send/Ends
-- Ctrl/Info       `ublksrv_ctrl_get_info` and its fallbacks; Info/Queries, Info/Fallback
-- Ctrl/Add        `ublksrv_ctrl_add_dev`
-- Ctrl/Delete     `ublksrv_ctrl_init`, start, stop and delete, `cmd_dev_del`; Order, Descriptors,
--                 Whole
-- Ctrl/Start      what a start sends
-- Ctrl/Params     `ublksrv_ctrl_set_params`, `ublksrv_ctrl_get_params`, `init_params`; Sets, Fits,
--                 Driver (what ublkhelper.h says of one), Store
-- Ctrl/Affinity   `ublksrv_ctrl_get_affinity`, `ublksrv_get_queue_affinity`; Layout, Asks
-- Daemon/PidFile  `create_pid_file`, `ublksrv_create_pid_file`; PidFile/Outcomes
-- Daemon/Setup    `ublksrv_dev_init`; Setup/Leaks
-- Daemon/Start    `demo_null_io_handler`, `ublksrv_start_daemon`; Start/Order, Start/Ends
-- Target/Types    `Request` (types.go), and the messages that `Start` makes (api.go)
-- Target/Handler  the handlers of a request and their choice (ublk.go)
-- Target/Bridge   `onRequestAsync` (c_bridge.go): the call, and the goroutine that answers; Answers (all
--                 branches), Stale (a message that keeps a failure), Stores (a disk)
-- Target/Session  the goroutines of a queue's slots, as events of Queue/Protocol; Busy (what serves),
--                 Begins (a target just started), Serves (it keeps to the protocol)
-- Target/Shutdown `notifyShutdown`, `deleteC` and the joins of the daemon; Shutdown/Meets
-- Target/Startup  `startupC`; Startup/Outcome
-- Target/Device   `getDeviceInfo`; Device/Paths
-- Tests           concrete machines and queues, and the theorems at them
--
-- How it corresponds. A function on a queue is a function of the model's `Queue R`, with R the state
-- of the io_uring, into `Run`: a value and the queue after it, `blocked` for a wait that nobody ends,
-- `fault` for a read outside the slots or through NULL, `abort` for a failed assertion. A slot is named
-- by its index, so that `&q->ios[tag]` is `tag`. What a call does outside the structure is kept in
-- lists of the queue: the submission entries, the calls of `onRequestAsync`, the writes to the eventfd,
-- the buffers given to `madvise`. The mutex `lock` is one bit. The completions that the target's
-- threads make while the queue's thread waits are an argument of `ublksrv_process_io`.
--
-- The loops of a queue recurse on the list of completions or on the number of slots left. The wait of a
-- control command repeats while signals interrupt it: it is on fuel, and any fuel above the number of
-- interruptions is enough.
--
-- The control commands run on an abstract ring with the driver behind it (`CtrlRing`). The memory that
-- a command points to is a value of `Memory`: what the driver leaves in it comes with the completion.
--
-- The protocol is a specification: it is not translated from the code. An event of it stands for one
-- call (a completion handed over, a request answered, a submission), and a history is a list of events.
--
-- The daemon's effects are a list of steps; a thread that it creates runs on its own, and is the model
-- of Queue/Thread. What the system answers (`calloc`, `open`, `write`, ...) is an argument, and a local
-- variable that the code does not initialise is an argument too (`left_over`).
--
-- The handlers of the user (`IOHandler`) are a parameter, over whatever they store; a call of one is a
-- single step, so that two handlers that run at once are the same as one after the other. A channel is
-- what it holds: `msgChan` a list, `Complete` a count, `initDone` the number of sends that it still
-- takes, `Done` the meeting of a send and a receive. Go slices are an array and a length. A Go `int` of
-- -1 is its 64-bit pattern.
--
-- Not modelled: the release of memory, the fields of `struct io_uring_params`, `ListDevices`
-- (api.go), the command line tool and the example (cmd/, examples/), and the directory and the pid
-- file that `startupC` makes and `deleteC` removes. Of `ublksrv_queue_init` the call that sets the
-- io-wq limits (which Queue/Workers models by itself), the priority and the array `__queues` are
-- left out, of the daemon the answer of `pthread_create`, which the code does not test. Printing is
-- left out everywhere, so that `ublksrv_handle_tgt_cqe`, which only prints, is a step that changes
-- nothing.
pub mod Base
pub mod Bits
pub mod Word
pub mod UserData
pub mod Ioctl
pub mod Uring
pub mod Host
pub mod Dev
pub mod Queue
pub mod Ctrl
pub mod Daemon
pub mod Target
pub mod Tests
