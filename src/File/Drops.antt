-- ===== src/File/Drops.antt =====
-- What dropping a file closes.
use ringbahn.Base.{◌≡◌, refl, ◌∷◌, if◌then◌else◌}
use ringbahn.Cancellation.{Cancellation}
use ringbahn.Machine.{World, close_fd}
use ringbahn.Machine.Returns.{Returns, returned, Returns-and_then}
use ringbahn.Ring.{State}
use ringbahn.Ring.Spec.{Owns}
use ringbahn.Ring.Cancels.{
  Cancels, nothing_under_way, left_to_kernel, completed_before, cancel-Cancels,
}
use ringbahn.File.Handle.{
  Op, read, write, close, nothing, statx, closed, same_op, File, cancel_ring, cancel, drop_active,
  drop,
}

Cancels-closed :
    {callback : Cancellation} {w : World} {s t : State} {v : World}
    → Cancels callback w s t v
    → v.closed ≡ w.closed
Cancels-closed (nothing_under_way idle) = refl
Cancels-closed (left_to_kernel b h) = refl
Cancels-closed (completed_before b h) = refl

module _ {Driver : Type 0} (f : File Driver) (w : World) where
  cancel-closed : Owns f.ring.state w → Returns (λ f' v. v.closed ≡ w.closed) (cancel f w)
  unfolding cancel cancel_ring
  cancel-closed o =
      Returns-and_then (cancel-Cancels _ w f.ring o) λ ring' v c. returned (Cancels-closed c)

  drop_active-closed :
      (op : Op)
      → Owns f.ring.state w
      → Returns
          (λ f' v. v.closed ≡ (if same_op op nothing then f.fd ∷ w.closed else w.closed))
          (drop_active op f w)
  unfolding drop_active same_op close_fd
  drop_active-closed closed o = returned refl
  drop_active-closed nothing o = returned refl
  drop_active-closed read o = cancel-closed o
  drop_active-closed write o = cancel-closed o
  drop_active-closed close o = cancel-closed o
  drop_active-closed statx o = cancel-closed o

  -- Dropping a file whose ring is sound returns, and closes the descriptor exactly if no operation
  -- has begun since the file was made or cancelled: after any read, write, seek from the end or
  -- failed close, also one that is over, the descriptor stays open.
  pub drop-closed :
      Owns f.ring.state w
      → Returns
          (λ f' v. v.closed ≡ (if same_op f.active nothing then f.fd ∷ w.closed else w.closed))
          (drop f w)
  unfolding drop
  drop-closed o = drop_active-closed f.active o
