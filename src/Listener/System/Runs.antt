-- ===== src/Listener/System/Runs.antt =====
-- Schedules of a listener's task and the kernel.
use ringbahn.Drive.{Drive}
use ringbahn.Drive.Conforms.{Conforms}
use ringbahn.Listener as Listener
use ringbahn.Listener.System as System
use ringbahn.Listener.System.Custody.{Custody}
