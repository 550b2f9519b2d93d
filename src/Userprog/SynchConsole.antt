-- ===== src/Userprog/SynchConsole.antt =====
-- userprog/SynchConsole.h and userprog/SynchConsole.cc: characters between threads and the console. Readers share one
-- lock, writers another. The semaphores are what the kernel keeps in `rest`; a thread that `V` wakes is made ready
-- by a step at the scheduler.
pub mod Reading
pub mod Writing
use so.Prelude.{
  ℕ, ◌==◌, if◌then◌else◌, List, [], ◌∷◌, ◌++◌, Bool, true, false, Option, none, some, ◌>>=◌, ◌≡◌,
  ◌⊎◌,
}
use so.Machine.Interrupt.{Kernel}
use so.Machine.Console
use so.Machine.Console.{Console, get_char, put_char, check_char_avail, write_done}
use so.Threads.Synch.{Semaphore, semaphore, p_round, v_take}

-- `cread` and `cwrite`.
pub record ConsoleSemaphores : Type 0 where
  pub cread : Semaphore
  pub cwrite : Semaphore

-- `consola` and the kernel, with all that was typed so far, all that `readConsole` has returned, and all that
-- `writeConsole` was given.
pub record SynchConsole : Type 0 where
  pub consola : Console
  pub kernel : Kernel ConsoleSemaphores
  pub all_typed : List ℕ
  pub returned : List ℕ
  pub given : List ℕ

-- What stands for the addresses of `SynchConsoleRead` and `SynchConsoleWrite`.
abbrev pub console_read : ℕ
console_read = 0

abbrev pub console_write : ℕ
console_write = 1

-- `SynchConsole::SynchConsole`; `poll` and `device` are the addresses of `ConsoleReadPoll` and of the console.
unfoldable pub synch_console : ℕ → ℕ → ℕ → List ℕ → Kernel ConsoleSemaphores → Option SynchConsole
synch_console poll device this typed k =
    let k₀ : Kernel ConsoleSemaphores = record k {
      rest = record { cread = semaphore 0; cwrite = semaphore 0 };
    } in
    do
      (c, k') ← Console.console poll device typed console_read console_write this k₀
      some (record { consola = c; kernel = k'; all_typed = typed; returned = []; given = [] })

unfoldable pub request_read : Kernel ConsoleSemaphores → Kernel ConsoleSemaphores
request_read k = record k { rest = record k.rest { cread = (v_take k.rest.cread).1 } }

unfoldable pub request_write : Kernel ConsoleSemaphores → Kernel ConsoleSemaphores
request_write k = record k { rest = record k.rest { cwrite = (v_take k.rest.cwrite).1 } }

-- The handlers, as the console calls them.
unfoldable pub call_console : ℕ → ℕ → Kernel ConsoleSemaphores → Option (Kernel ConsoleSemaphores)
call_console handler arg k =
    if handler == console_read
    then some (request_read k)
    else (if handler == console_write then some (request_write k) else none)

-- A thread in `readConsole` that has the lock: before its `P`, and before `GetChar`.
pub data ReaderPlace : Type 0 where
  waiting getting : ReaderPlace

unfoldable pub reader_step : ℕ → ReaderPlace → SynchConsole → Option ReaderPlace × SynchConsole
reader_step t waiting d =
    let (passed, s) = p_round d.kernel.rest.cread t in
    (
      some (if passed then getting else waiting),
      record d { kernel = record d.kernel { rest = record d.kernel.rest { cread = s } } },
    )
reader_step t getting d =
    let (ch, c) = get_char d.consola in
    (none, record d { consola = c; returned = d.returned ++ (ch ∷ []) })

unfoldable pub ReaderBody :
    ℕ → Option ReaderPlace → SynchConsole → Option ReaderPlace → SynchConsole → Type 0
ReaderBody t none d o' d' = (o' ≡ some waiting) × (d' ≡ d)
ReaderBody t (some l) d o' d' = (o' ≡ (reader_step t l d).0) × (d' ≡ (reader_step t l d).1)

-- What happens to a reader: the console polls the keyboard, someone types, or something else happens that leaves what
-- readers use.
pub record LeavesReaders (d d' : SynchConsole) : Type 0 where
  pub same_incoming : d'.consola.incoming ≡ d.consola.incoming
  pub same_typed : d'.consola.typed ≡ d.consola.typed
  pub same_handler : d'.consola.read_handler ≡ d.consola.read_handler
  pub same_cread : d'.kernel.rest.cread ≡ d.kernel.rest.cread
  pub same_all : d'.all_typed ≡ d.all_typed
  pub same_returned : d'.returned ≡ d.returned

abbrev pub type_char : ℕ → SynchConsole → SynchConsole
type_char ch d = record d {
  consola = record d.consola { typed = d.consola.typed ++ (ch ∷ []) };
  all_typed = d.all_typed ++ (ch ∷ []);
}

-- `poll` and `device` are the addresses of `ConsoleReadPoll` and of the console.
unfoldable pub ReaderInterrupt : ℕ → ℕ → SynchConsole → SynchConsole → Type 0
ReaderInterrupt poll device d d' =
    ((c : Console) × (k : Kernel ConsoleSemaphores) × (check_char_avail call_console poll device
          d.consola d.kernel
        ≡ some (c, k))
      × (d' ≡ record d { consola = c; kernel = k }))
    ⊎ (((ch : ℕ) × (d' ≡ type_char ch d)) ⊎ LeavesReaders d d')

-- A thread in `writeConsole` after `PutChar`, before it is through its `P`.
pub data WriterPlace : Type 0 where
  shown : WriterPlace

-- One round of the `P` of `writeConsole`.
unfoldable pub writer_step : ℕ → SynchConsole → Option WriterPlace × SynchConsole
writer_step t d =
    let (passed, s) = p_round d.kernel.rest.cwrite t in
    (
      (if passed then none else some shown),
      record d { kernel = record d.kernel { rest = record d.kernel.rest { cwrite = s } } },
    )

-- What `writeConsole` does first under the lock: `done` and `device` are the addresses of `ConsoleWriteDone` and of
-- the console.
unfoldable pub show_char : ℕ → ℕ → ℕ → SynchConsole → Option SynchConsole
show_char done device ch d = do
  (c, k) ← put_char done device d.consola d.kernel ch
  some (record d { consola = c; kernel = k; given = d.given ++ (ch ∷ []) })

unfoldable pub WriterBody :
    ℕ → ℕ → ℕ → Option WriterPlace → SynchConsole → Option WriterPlace → SynchConsole → Type 0
WriterBody done device t none d o' d' =
    (ch : ℕ) × (show_char done device ch d ≡ some d') × (o' ≡ some shown)
WriterBody done device t (some l) d o' d' = (o' ≡ (writer_step t d).0) × (d' ≡ (writer_step t d).1)

pub record LeavesWriters (d d' : SynchConsole) : Type 0 where
  pub same_busy : d'.consola.put_busy ≡ d.consola.put_busy
  pub same_display : d'.consola.display ≡ d.consola.display
  pub same_handler : d'.consola.write_handler ≡ d.consola.write_handler
  pub same_cwrite : d'.kernel.rest.cwrite ≡ d.kernel.rest.cwrite
  pub same_given : d'.given ≡ d.given

-- What happens to a writer: the interrupt of a character that is under way, or something that leaves what writers use.
unfoldable pub WriterInterrupt : SynchConsole → SynchConsole → Type 0
WriterInterrupt d d' =
    ((d.consola.put_busy ≡ true)
      × (c : Console) × (k : Kernel ConsoleSemaphores) × (write_done call_console d.consola d.kernel
          ≡ some (c, k))
      × (d' ≡ record d { consola = c; kernel = k }))
    ⊎ LeavesWriters d d'
