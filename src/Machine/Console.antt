-- ===== src/Machine/Console.antt =====
-- machine/console.h and machine/console.cc: a keyboard that is polled, and a display. The UNIX files are fields: `typed`
-- is what the keyboard has to give, `display` what was shown. A `char` is signed on the hosts of the kernel, so
-- that EOF is the byte 255. `none` is an ASSERT that fails.
use so.Prelude.{
  ℕ, ◌+◌, ◌==◌, if◌then◌else◌, Bool, true, false, not, List, [], ◌∷◌, ◌++◌, Option, some, ◌>>=◌,
  ◌>>◌, assert,
}
use so.Machine.Interrupt.{Kernel, schedule, console_read_int, console_write_int}

-- `ConsoleTime` of machine/stats.h.
abbrev pub console_time : ℕ
console_time = 100

abbrev pub eof : ℕ
eof = 255

-- `write_handler`, `read_handler` and `handler_arg` stand for the function pointers and their argument, the counters
-- are those of `stats`.
pub record Console : Type 0 where
  pub write_handler : ℕ
  pub read_handler : ℕ
  pub handler_arg : ℕ
  pub put_busy : Bool
  pub incoming : ℕ
  pub typed : List ℕ
  pub display : List ℕ
  pub num_console_chars_read : ℕ
  pub num_console_chars_written : ℕ

module _ {ℓ} {W : Type ℓ} where
  -- `Console::Console`: `poll` and `this` are the addresses of `ConsoleReadPoll` and of the console.
  unfoldable pub console : ℕ → ℕ → List ℕ → ℕ → ℕ → ℕ → Kernel W → Option (Console × Kernel W)
  console poll this typed read_avail write_done call_arg k = do
    k' ← schedule k poll this console_time console_read_int
    some (
      record {
        write_handler = write_done;
        read_handler = read_avail;
        handler_arg = call_arg;
        put_busy = false;
        incoming = eof;
        typed = typed;
        display = [];
        num_console_chars_read = 0;
        num_console_chars_written = 0;
      },
      k',
    )

  -- `PutChar`: `done` is the address of `ConsoleWriteDone`.
  unfoldable pub put_char : ℕ → ℕ → Console → Kernel W → ℕ → Option (Console × Kernel W)
  put_char done this c k ch = do
    assert (not c.put_busy)
    k' ← schedule k done this console_time console_write_int
    some (record c { put_busy = true; display = c.display ++ (ch ∷ []) }, k')

-- What the handlers do reaches into the rest of the kernel, but not into the console.
module _ {ℓ} {W : Type ℓ} (call : ℕ → ℕ → Kernel W → Option (Kernel W)) where
  -- The end of `CheckCharAvail`, where no character is buffered: `PollFile`, `Read` and the handler.
  unfoldable pub poll_file : List ℕ → Console → Kernel W → Option (Console × Kernel W)
  poll_file [] c k = some (c, k)
  poll_file (ch ∷ rest) c k = do
    k' ← call c.read_handler c.handler_arg k
    some (
      record c {
        incoming = ch;
        typed = rest;
        num_console_chars_read = c.num_console_chars_read + 1;
      },
      k',
    )

  unfoldable pub check_char_avail : ℕ → ℕ → Console → Kernel W → Option (Console × Kernel W)
  check_char_avail poll this c k = do
    k' ← schedule k poll this console_time console_read_int
    if c.incoming == eof then poll_file c.typed c k' else some (c, k')

  unfoldable pub write_done : Console → Kernel W → Option (Console × Kernel W)
  write_done c k = do
    k' ← call c.write_handler c.handler_arg k
    some (
      record c { put_busy = false; num_console_chars_written = c.num_console_chars_written + 1 },
      k',
    )

unfoldable pub get_char : Console → ℕ × Console
get_char c = (c.incoming, record c { incoming = eof })
