-- ===== src/Io/Macros.antt =====
-- src/io.rs: the macros that print, and the functions that they call. How a text is formatted is not
-- looked into: a macro is given the bytes of the formatted text.
use ringbahn.Base.{ℕ, List, [], ◌∷◌, ◌++◌, length, Option, none, some}
use ringbahn.Operation.{BoxedSlice}
use ringbahn.Machine.{
  Cmd, pure, panic, returns, printing_failed, ◌>>=◌, Poll, pending, ready, update,
}
use ringbahn.Completion.Types.{IoResult, ok, err}
use ringbahn.Drive.{Context, Drive}
use ringbahn.Io.Print as Print
use ringbahn.Io.Print.{Print, print, eprint}

-- `s.into_bytes()`, of a text for which the allocator has answered with `fresh`
unfoldable pub into_bytes : (fresh : ℕ) → List ℕ → Cmd BoxedSlice
into_bytes fresh text w =
    returns (record { address = fresh; len = length text })
      (record w { boxes = update w.boxes fresh (some text) })

module _ {Driver : Type 0} where
  -- `print!`
  unfoldable pub print_text : (fresh : ℕ) → Driver → List ℕ → Cmd (Print Driver)
  unfolding into_bytes
  print_text fresh driver text = do bytes ← into_bytes fresh text; pure (print driver bytes)

  -- `println!`: the newline is pushed to the text; without a text it is a constant of the program.
  unfoldable pub println_text : (fresh : ℕ) → Driver → List ℕ → Cmd (Print Driver)
  unfolding into_bytes
  println_text fresh driver text = do
    bytes ← into_bytes fresh (text ++ 10 ∷ [])
    pure (print driver bytes)

  unfoldable pub println_only : (newline : BoxedSlice) → Driver → Print Driver
  println_only newline driver = print driver newline

  -- `eprint!`
  unfoldable pub eprint_text : (fresh : ℕ) → Driver → List ℕ → Cmd (Print Driver)
  unfolding into_bytes
  eprint_text fresh driver text = do bytes ← into_bytes fresh text; pure (eprint driver bytes)

  -- `eprintln!`
  unfoldable pub eprintln_text : (fresh : ℕ) → Driver → List ℕ → Cmd (Print Driver)
  unfolding into_bytes
  eprintln_text fresh driver text = do
    bytes ← into_bytes fresh (text ++ 10 ∷ [])
    pure (eprint driver bytes)

  unfoldable pub eprintln_only : (newline : BoxedSlice) → Driver → Print Driver
  eprintln_only newline driver = eprint driver newline

-- `.await.expect(..)`, of what a poll of the future `Print` answers
unfoldable pub expect :
    {Driver : Type 0}
    → Option (Print Driver × Poll (IoResult (Unit {0})))
    → Cmd (Option (Print Driver × Poll (Unit {0})))
expect none = pure none
expect (some (p, pending)) = pure (some (p, pending))
expect (some (p, ready (err e))) = panic printing_failed
expect (some (p, ready (ok _))) = pure (some (p, ready tt))

-- a poll of the future of `__print` or `__eprint`
unfoldable pub poll_printing :
    (D : Drive) (fuel : ℕ)
    → Context
    → Print D.Driver
    → Cmd (Option (Print D.Driver × Poll (Unit {0})))
unfolding expect
poll_printing D fuel ctx p = do answer ← Print.poll D fuel ctx p; expect answer
