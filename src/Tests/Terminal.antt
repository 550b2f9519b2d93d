-- ===== src/Tests/Terminal.antt =====
-- Thread 9 reads a character of a new console, and shows one.
use so.Prelude.{ℕ, false, [], ◌∷◌, ◌++◌, Option, none, some, ◌≡◌, refl, arith, inl}
use so.Machine.Interrupt.{Kernel, init, schedule}
use so.Machine.Console.{
  Console, console, check_char_avail, poll_file, get_char, put_char, write_done,
}
use so.Threads.KeyedList
use so.Threads.Synch.{semaphore, p_round, v_take}
use so.Threads.Synch.Exclusion.{inside}
use so.Threads.Monitor
use so.Threads.Monitor.{Monitor, open_with, put_place}
use so.Userprog.SynchConsole.{
  SynchConsole, ConsoleSemaphores, synch_console, ReaderPlace, waiting, getting, reader_step,
  ReaderBody, ReaderInterrupt, call_console, request_read, request_write, WriterPlace, shown,
  writer_step, show_char, WriterBody, WriterInterrupt,
}
use so.Userprog.SynchConsole.Reading.{NoEof, held, read_console_in_order}
use so.Userprog.SynchConsole.Writing.{write_console_in_order}
use so.Tests.Turns.{no_semaphores, s₅}
use so.Tests.Monitors.{at, acquired}

abbrev idle_kernel : Kernel ConsoleSemaphores
unfolding init semaphore
idle_kernel = init (record { cread = semaphore 0; cwrite = semaphore 0 })

abbrev made : Option SynchConsole → SynchConsole
made (some d) = d
made none = record {
  consola = record {
    write_handler = 0;
    read_handler = 0;
    handler_arg = 0;
    put_busy = false;
    incoming = 0;
    typed = [];
    display = [];
    num_console_chars_read = 0;
    num_console_chars_written = 0;
  };
  kernel = idle_kernel;
  all_typed = [];
  returned = [];
  given = [];
}

-- Two characters are typed.
abbrev console₀ : SynchConsole
console₀ = made (synch_console 1 2 3 (65 ∷ 66 ∷ []) idle_kernel)

abbrev after_interrupt : SynchConsole → Option (Console × Kernel ConsoleSemaphores) → SynchConsole
after_interrupt d none = d
after_interrupt d (some r) = record d { consola = r.0; kernel = r.1 }

abbrev read₁ : Monitor SynchConsole ReaderPlace
read₁ = put_place (at console₀ s₅) 9 (some waiting) console₀

abbrev polled : SynchConsole
polled =
    after_interrupt console₀ (check_char_avail call_console 1 2 console₀.consola console₀.kernel)

abbrev read₂ : Monitor SynchConsole ReaderPlace
read₂ = record read₁ { guarded = polled }

abbrev woken : SynchConsole
woken = (reader_step 9 waiting polled).1

abbrev read₃ : Monitor SynchConsole ReaderPlace
read₃ = put_place read₂ 9 (some getting) woken

abbrev got : SynchConsole
got = (reader_step 9 getting woken).1

abbrev read₄ : Monitor SynchConsole ReaderPlace
read₄ = put_place read₃ 9 none got

console₀_made : synch_console 1 2 3 (65 ∷ 66 ∷ []) idle_kernel ≡ some console₀
unfolding synch_console console schedule semaphore idle_kernel
console₀_made = refl

one_char : Monitor.Reach ReaderBody (ReaderInterrupt 1 2) 0 (open_with no_semaphores console₀) read₄
unfolding ReaderBody ReaderInterrupt reader_step synch_console console schedule semaphore
    idle_kernel check_char_avail poll_file call_console request_read v_take p_round get_char
    KeyedList.remove KeyedList.sorted_insert
one_char =
    Monitor.next
      (Monitor.next
        (Monitor.next
          (Monitor.next (acquired ReaderBody (ReaderInterrupt 1 2) console₀)
            (Monitor.body (at console₀ s₅) 9 (some waiting) console₀ refl (refl, refl)))
          (Monitor.interrupt read₁ polled (inl (polled.consola, polled.kernel, refl, refl))))
        (Monitor.body read₂ 9 (some getting) woken refl (refl, refl)))
      (Monitor.body read₃ 9 none got refl (refl, refl))

got-NoEof : NoEof got.all_typed
unfolding synch_console console schedule semaphore idle_kernel check_char_avail poll_file
    call_console request_read v_take p_round get_char reader_step KeyedList.remove
    KeyedList.sorted_insert
got-NoEof = (λ e. omega arith, (λ e. omega arith, tt))

read_console_in_order_example :
    got.all_typed ≡ got.returned ++ (held got.consola.incoming ++ got.consola.typed)
read_console_in_order_example =
    read_console_in_order 0 1 2 3 (65 ∷ 66 ∷ []) idle_kernel console₀ no_semaphores read₄
      console₀_made one_char got-NoEof

abbrev showing : SynchConsole
showing = made (show_char 4 2 67 console₀)

abbrev write₁ : Monitor SynchConsole WriterPlace
write₁ = put_place (at console₀ s₅) 9 (some shown) showing

abbrev written : SynchConsole
written = after_interrupt showing (write_done call_console showing.consola showing.kernel)

abbrev write₂ : Monitor SynchConsole WriterPlace
write₂ = record write₁ { guarded = written }

abbrev through : SynchConsole
through = (writer_step 9 written).1

abbrev write₃ : Monitor SynchConsole WriterPlace
write₃ = put_place write₂ 9 none through

one_char_shown :
    Monitor.Reach (WriterBody 4 2) WriterInterrupt 0 (open_with no_semaphores console₀) write₃
unfolding WriterBody WriterInterrupt writer_step show_char put_char synch_console console schedule
    semaphore idle_kernel write_done call_console request_write v_take p_round KeyedList.remove
    KeyedList.sorted_insert
one_char_shown =
    Monitor.next
      (Monitor.next
        (Monitor.next (acquired (WriterBody 4 2) WriterInterrupt console₀)
          (Monitor.body (at console₀ s₅) 9 (some shown) showing refl (67, refl, refl)))
        (Monitor.interrupt write₁ written
          (inl (refl, written.consola, written.kernel, refl, refl))))
      (Monitor.body write₂ 9 none through refl (refl, refl))

write_console_in_order_example :
    (through.consola.display ≡ through.given)
    × ((t ch : ℕ)
        → write₃.system.phase t ≡ inside
        → write₃.place t ≡ none
        → (d' : SynchConsole) × (show_char 4 2 ch through ≡ some d'))
write_console_in_order_example =
    write_console_in_order 0 1 4 2 3 (65 ∷ 66 ∷ []) idle_kernel console₀ no_semaphores write₃
      console₀_made one_char_shown
