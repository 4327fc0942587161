-- ===== src/Stream/System/Runs.antt =====
-- Schedules of a stream's task and the kernel.
use ringbahn.Base.{ℕ, none, List, [], ◌∷◌, subst}
use ringbahn.Machine.{World, ◌>>=◌}
use ringbahn.Machine.Returns.{Returns, returned, Returns-and_then, Returns-map, outcome}
use ringbahn.Drive.{Drive}
use ringbahn.Drive.Conforms.{Conforms}
use ringbahn.Ring.System.{Next}
use ringbahn.Ring.System.Boxes.{InCustody}
use ringbahn.Ring.System.Boxes.Safe.{Custody-InCustody}
use ringbahn.Stream
use ringbahn.Stream.{TcpStream}
use ringbahn.Stream.System as System
use ringbahn.Stream.System.{
  Action, fills, consumes, writes, flushes, closes, Permitted, perform, run, Schedule,
}
use ringbahn.Stream.System.Custody.{Custody}
use ringbahn.Stream.System.Actions.{
  fills-Custody, consumes-Custody, writes-Custody, flushes-Custody, closes-Custody,
  completes-Custody, drop-Custody,
}

module _ (D : Drive) (conforms : Conforms D) where
  perform-Custody :
      (x : Action) (s : TcpStream D.Driver) (w : World)
      → Custody s w
      → Permitted D x s w
      → Returns (λ s' v. Custody s' v) (perform D x s w)
  unfolding perform
  perform-Custody (fills ctx) s w custody permitted =
      fills-Custody D conforms ctx s w custody permitted
  perform-Custody (consumes amt) s w custody permitted =
      returned (consumes-Custody custody amt permitted)
  perform-Custody (writes ctx bytes) s w custody permitted =
      writes-Custody D conforms ctx s w custody bytes permitted
  perform-Custody (flushes ctx) s w custody permitted =
      flushes-Custody D conforms ctx s w custody permitted
  perform-Custody (closes ctx) s w custody permitted =
      closes-Custody D conforms ctx s w custody permitted
  perform-Custody (System.completes result a) s w custody permitted =
      completes-Custody custody result a permitted

  run-Custody :
      (xs : List Action) (s : TcpStream D.Driver) (w : World)
      → Custody s w
      → Schedule D xs s w
      → Returns (λ s' v. Custody s' v) (run D xs s w)
  unfolding run
  run-Custody [] s w custody schedule = returned custody
  run-Custody (x ∷ xs) s w custody (permitted, rest) =
      let (s', v, e, custody') = outcome (perform-Custody x s w custody permitted) in
      rw e (run-Custody xs s' v custody' (subst (Next (Schedule D xs)) e rest))

  -- In any permitted schedule of reads, bytes consumed, writes, flushes, polls that close a stream, and
  -- completions by the kernel, on a conforming driver, nothing panics and nothing goes through a dangling
  -- pointer. The schedule runs to its end, and there, at each address of a completion, all memory that
  -- the kernel works on for the entry which was queued last under it (none for a write of no bytes) is
  -- in the box of the stream's buffer, or is given back by the callback that the completion holds; in either
  -- case it has not been given back. If the stream is dropped then, the drop returns as well, and the same
  -- holds without the box of the buffer.
  pub drop-run :
      (xs : List Action) (s : TcpStream D.Driver) (w : World)
      → Custody s w
      → Schedule D xs s w
      → Returns
          (λ s' v. Custody s' v × ((a : ℕ) → InCustody a s'.ring.state s'.buf.contents v))
          (run D xs s w)
        × Returns
            (λ s' v. (a : ℕ) → InCustody a s'.ring.state none v)
            ((run D xs s >>= Stream.drop) w)
  drop-run xs s w custody schedule =
      let ends = run-Custody xs s w custody schedule in
      (
        Returns-map ends
            λ s' v custody'. (custody', Custody-InCustody custody'.ring custody'.memory),
        Returns-and_then ends λ s' v custody'.
            Returns-map (drop-Custody custody') λ t x (ring, memory). Custody-InCustody ring memory,
      )
