-- ===== src/Userprog/Processes/Join.antt =====
-- Thread::Join of threads/thread.cc, and Thread::Finish of the thread that is waited for.
use so.Prelude.{ℕ, false}
use so.Threads.Monitor.Port.{Port}
use so.Userprog.Processes.{Processes}

full : ℕ → Port
full msg = record { access = false; buffer = msg }
