-- ===== src/Lib.antt =====
-- ringbahn: asynchronous IO on io-uring. What is proved of its core.
--
-- The program. An event (src/event/) is put on the submission queue of an io-uring instance by a
-- driver (src/drive/mod.rs), and shares a heap object with the kernel until it completes, the
-- completion (src/ring/completion.rs). A ring (src/ring/mod.rs) is a state machine that cycles through
-- events one at a time. The future of one event (src/submission.rs), files (src/fs.rs) and streams
-- (src/net/stream.rs) hold a ring, and files and streams a buffer (src/buf.rs). Whoever loses interest
-- in an event leaves a callback with the completion (src/ring/cancellation.rs), which owns what the
-- kernel may still use and is run when the kernel is done.
--
-- The files, and what they model:
--   Cancellation           src/ring/cancellation.rs: `Cancel` for each type, `Cancellation`
--   Completion             src/ring/completion.rs: `Completion` and its `new`, `check`, `cancel`, and
--                          `complete`, which the code that processes completions calls
--   Completion/Ledger      who refers to each completion, in whatever order the two sides act
--   Drive                  src/drive/mod.rs: the trait `Drive`, `Completion::new`
--   Drive/Conforms         what the documentation of the trait asks of a driver for entries, completions
--                          and memory; Drive/Spares: memory is given back only by callbacks that run
--   Ring                   src/ring/mod.rs: `Ring` and `State`, with `poll`, `cancel`, `clone`
--   Ring/Spec              the contract of a ring, as a relation of states and memories
--   Ring/Reuse             what happens when the address of a cancelled completion is used again
--   Ring/System            several rings over one memory, polled, cancelled and completed in any order
--   Demo                   src/drive/demo.rs: `DemoDriver` as an implementation of `Drive`;
--                          Demo/Thread: the completion thread and `registrar`;
--                          Demo/Defaults: the functions that use this driver by default
--   Event, Operation       src/event/*.rs: the events, their `prepare` (Event/Prepared) and `cancel`
--                          (Event/Cancelled), and the operations that they put on the queue;
--                          Event/Constructors: the functions that make an event with its memory
--   Submission             src/submission.rs: `Submission`, with `poll`, `replace_event` and `Drop`
--   Submission/System      several submissions over one memory, whose tasks and the kernel act in any
--                          order
--   Buf                    src/buf.rs: `Buffer`
--   Sockets                src/net/mod.rs and src/unix/mod.rs: `socket`, `socketpair`
--   Stream                 src/net/stream.rs: `TcpStream`; Stream/System: a stream and the kernel, whose
--                          actions come in any order
--   Connect                src/net/stream.rs and src/unix/stream.rs: `Connect`, `connect_on_driver`
--   Listener               src/net/listener.rs: `TcpListener`, its `poll_accept`, `poll_accept_no_addr`
--                          and the future `Close`; Listener/Bind: `bind_on_driver`;
--                          Listener/System: a listener and the kernel, in any order;
--                          Listener/Futures and Listener/Incoming: the futures that borrow a listener,
--                          and the streams of connections
--   Unix                   src/unix/stream.rs (Stream) and src/unix/listener.rs (Listener, Futures)
--   Io                     src/io.rs: the future `Print` and its loop (Print), `Stdout` (Stdout), and
--                          the macros that print (Macros)
--   File                   src/fs.rs: `File` (Handle: the guard, `Drop`; Transfer: reading, writing,
--                          closing; Position: `poll_file_size`, `poll_seek`; Opening: `Open`, `Create`
--                          and what makes them); File/System: a file and the kernel, whose actions
--                          come in any order (but for `poll_file_size` and `poll_seek`)
--   Machine                the memory that these share, and the commands over it
--   Base, Tests            shared helpers; tests and examples
--
-- The model. A call is a function from the memory (`Machine.World`) to a run: it returns a value and a
-- new memory, it panics, or it faults, which is the use of a dangling pointer. An object that the
-- source changes in place is taken and returned. Memory is a map from addresses. Where a type or a length
-- decides how memory is given back, that is part of the allocation. `World.inside` is what a stored
-- value owns in turn, which the model does not look into. The addresses of new boxes are given with the
-- call (`Context.fresh`, `fresh_box`) and are not assumed to be new unless a theorem says so. Numbers
-- that the source stores as `u32` or `u64` wrap around, as in a release build, and debug assertions are
-- not checked, but for that of the completion thread. `check`, `cancel` and `complete` hold the lock of
-- the completion while they use it, so that each is one step of the sequences of steps that are
-- considered. A poll is one step too, but for the driver's part in it, during which the kernel may
-- complete events. The drops that the compiler inserts are followed only for events, callbacks and
-- completions.
--
-- Loops. The loop of `net::socket` is a structural recursion on the list of addresses. The loop of
-- `Print::poll` and that of `DemoDriver::poll_prepare` have fuel, and say when it runs out. Two rounds
-- are enough for either where the kernel and the queue behave as they should (`Io.Print.Rounds`,
-- `Demo.Contract`); where they do not, no fuel is enough for the second (`Demo.Spins`). The two loops of
-- the completion thread have fuel too, which is enough if it is more than the entries that the queue
-- delivers (`Demo.Thread.Notifies`).
--
-- Parameters. The driver is an argument (`Drive.Drive`), with the iterator over queue entries of the
-- crate iou; theorems that need a driver that keeps its contract say so (`Drive.Conforms.Conforms`).
-- Of the C library, the value of a zeroed `statx`, its size field and the flags of a call of it are
-- arguments (`File.Position.Statx`, `StatxArguments`), and so are the flags and layouts with which an
-- event is made (`Event.Constructors.Libc`, `File.Opening.OpenFlags`). Of the crates iou and nix it is how
-- an address is read from memory (`Listener.SockAddrs`), and the calls that make, bind and listen on
-- sockets (`Sockets.Nix`). The demo driver takes the submission queue of the crate iou and the
-- listeners of event_listener (`Demo.Iou`), and its thread the completion queue
-- (`Demo.Thread.Queue`).
--
-- Not modelled: `init` of src/drive/demo.rs, which sets up the queues, and when its completion thread is
-- started; how the macros of src/io.rs format a text; threads that hold the lock of a completion at once.
-- What `split` and its like give of an object is read from its fields.
mod Base
pub mod Cancellation
pub mod Operation
pub mod Completion
pub mod Machine
pub mod Drive
pub mod Ring
pub mod Demo
pub mod Event
pub mod Submission
pub mod Buf
pub mod Sockets
pub mod Stream
pub mod Connect
pub mod Listener
pub mod Unix
pub mod Io
pub mod File
mod Tests
