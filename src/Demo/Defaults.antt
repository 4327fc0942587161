-- ===== src/Demo/Defaults.antt =====
-- src/fs.rs, src/net/, src/unix/ and src/io.rs: the functions that use a new handle of the demo driver,
-- each by its twin for any driver.
use ringbahn.Base.{ℕ, List}
use ringbahn.Machine.{Cmd}
use ringbahn.Completion.Types.{IoResult}
use ringbahn.Event.Constructors.{Libc}
use ringbahn.Submission.{Submission}
use ringbahn.Sockets.{Nix}
use ringbahn.Connect.{Connect, connect_on_driver, connect_unix_on_driver}
use ringbahn.Listener.{TcpListener}
use ringbahn.Listener.Bind as Tcp
use ringbahn.Unix.Stream.{UnixStream, pair_on_driver}
use ringbahn.Unix.Listener as Unix
use ringbahn.Unix.Listener.{UnixListener}
use ringbahn.File.Handle.{File, from_fd}
use ringbahn.File.Opening.{OpenFlags, open_on_driver, create_on_driver}
use ringbahn.Io.Stdout.{Stdout, stdout_on_driver}
use ringbahn.Demo.{Iou, DemoDriver, driver, drive}

module _ (I : Iou) where
  module _ (libc : Libc) (flags : OpenFlags) where
    -- `File::open`
    unfoldable pub open_file : (fresh : ℕ) (path : List ℕ) → Cmd (Submission (DemoDriver I))
    open_file fresh path = open_on_driver libc flags fresh path (driver I)

    -- `File::create`
    unfoldable pub create_file : (fresh : ℕ) (path : List ℕ) → Cmd (Submission (DemoDriver I))
    create_file fresh path = create_on_driver libc flags fresh path (driver I)

  -- `From` of a `std::fs::File`, which is its descriptor
  unfoldable pub from_std_file : (fd : ℕ) → File (DemoDriver I)
  from_std_file fd = from_fd fd (driver I)

  -- `io::stdout`
  unfoldable pub stdout : Stdout (DemoDriver I)
  stdout = stdout_on_driver (driver I)

  module _ (N : Nix) where
    open N use {SocketAddr, FilePath}

    -- `TcpStream::connect`
    unfoldable pub connect : (fresh : ℕ) → IoResult (List SocketAddr) → Cmd (Connect (DemoDriver I))
    connect fresh addrs = connect_on_driver N fresh addrs (driver I)

    -- `TcpListener::bind`
    unfoldable pub bind : IoResult (List SocketAddr) → Cmd (IoResult (TcpListener (DemoDriver I)))
    bind addrs = Tcp.bind_on_driver N addrs (driver I)

    -- `UnixStream::connect`
    unfoldable pub connect_unix : (fresh : ℕ) → FilePath → Cmd (Connect (DemoDriver I))
    connect_unix fresh path = connect_unix_on_driver N fresh path (driver I)

    -- `UnixStream::pair`
    unfoldable pub pair :
        (fuel : ℕ) → Cmd (IoResult (UnixStream (DemoDriver I) × UnixStream (DemoDriver I)))
    pair fuel = pair_on_driver (drive I fuel) N (driver I)

    -- `UnixListener::bind`
    unfoldable pub bind_unix : FilePath → Cmd (IoResult (UnixListener (DemoDriver I)))
    bind_unix path = Unix.bind_on_driver N path (driver I)
