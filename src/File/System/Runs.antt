-- ===== src/File/System/Runs.antt =====
-- Schedules of a file's task and the kernel.
use ringbahn.Base.{ℕ, sym, none, List, [], ◌∷◌, subst}
use ringbahn.Machine.{World, ◌>>=◌}
use ringbahn.Machine.Returns.{Returns, returned, Returns-and_then, Returns-map, outcome}
use ringbahn.Drive.{Drive}
use ringbahn.Drive.Conforms.{Conforms}
use ringbahn.Ring.System.{Next}
use ringbahn.Ring.System.Boxes.{InCustody}
use ringbahn.Ring.System.Boxes.Safe.{Custody-InCustody}
use ringbahn.File.Handle as Handle
use ringbahn.File.Handle.{
  left, Op, read, write, close, nothing, closed, statx, same_op, File, unwrap_left,
  into_cancellation, cancel_ring, drop_active,
}
use ringbahn.File.System as System
use ringbahn.File.System.{
  Action, fills, consumes, writes, closes, Consumable, Permitted, perform, run, Schedule,
}
use ringbahn.File.System.Custody.{Custody, contents_of}
use ringbahn.File.System.Actions.{
  fills-Custody, consumes-Custody, writes-Custody, closes-Custody, completes-Custody, drop-Custody,
}

module _ (D : Drive) (conforms : Conforms D) where
  perform-Custody :
      (x : Action) (f : File D.Driver) (w : World)
      → Custody f w
      → Permitted D x f w
      → Returns (λ f' v. Custody f' v) (perform D x f w)
  unfolding perform
  perform-Custody (fills ctx) f w custody permitted =
      fills-Custody D conforms ctx f w custody permitted
  perform-Custody (consumes amt) f w custody permitted =
      consumes-Custody D conforms amt f w custody permitted
  perform-Custody (writes ctx bytes) f w custody permitted =
      writes-Custody D conforms ctx bytes f w custody permitted
  perform-Custody (closes ctx) f w custody permitted =
      closes-Custody D conforms ctx f w custody permitted
  perform-Custody (System.completes result a) f w custody permitted =
      completes-Custody custody result a permitted

  run-Custody :
      (xs : List Action) (f : File D.Driver) (w : World)
      → Custody f w
      → Schedule D xs f w
      → Returns (λ f' v. Custody f' v) (run D xs f w)
  unfolding run
  run-Custody [] f w custody schedule = returned custody
  run-Custody (x ∷ xs) f w custody (permitted, rest) =
      let (f', v, e, custody') = outcome (perform-Custody x f w custody permitted) in
      rw e (run-Custody xs f' v custody' (subst (Next (Schedule D xs)) e rest))

  -- In any permitted schedule of reads, bytes consumed, writes, polls that close a file, and completions
  -- by the kernel, on a conforming driver, nothing panics and nothing goes through a dangling pointer.
  -- The schedule runs to its end, and there, at each address of a completion, all memory that the kernel
  -- works on for the entry which was queued last under it (none for a write of no bytes) is in the box
  -- of the file's buffer, or is given back by the callback that the completion holds; in either case it has
  -- not been given back. If the file is dropped then, the drop returns as well, and the same holds
  -- without the box of the buffer.
  pub run-drop :
      (xs : List Action) (f : File D.Driver) (w : World)
      → Custody f w
      → Schedule D xs f w
      → Returns
          (λ f' v. Custody f' v × ((a : ℕ) → InCustody a f'.ring.state (contents_of f'.buf) v))
          (run D xs f w)
        × Returns
            (λ f' v. (a : ℕ) → InCustody a f'.ring.state none v)
            ((run D xs f >>= Handle.drop) w)
  run-drop xs f w custody schedule =
      let ends = run-Custody xs f w custody schedule in
      (
        Returns-map ends λ f' v custody'. (
          custody',
          λ a.
              subst (λ b. InCustody a f'.ring.state (contents_of b) v) (sym custody'.has)
                (Custody-InCustody custody'.ring custody'.memory a),
        ),
        Returns-and_then ends λ f' v custody'.
            Returns-map (drop-Custody custody') λ t x (ring, memory). Custody-InCustody ring memory,
      )
