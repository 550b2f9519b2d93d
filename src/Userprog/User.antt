-- ===== src/Userprog/User.antt =====
-- userprog/user.h and userprog/user.cc: strings and buffers between the kernel and the memory of a user program. A
-- byte that cannot be translated raises an exception in the kernel, whose handler aborts: that is `none`, as is a
-- byte stored past the end of the caller's array.
use so.Prelude.{
  ℕ, zero, suc, ◌+◌, ◌%◌, ◌==◌, ◌||◌, if◌then◌else◌, List, [], ◌∷◌, Option, none, some, ◌>>=◌,
}
use so.Machine.Memory.{Machine, ok, trap, read_mem, write_mem}

-- `machine->ReadMem(addr, 1, &value)`, as a `char`.
unfoldable pub user_byte : Machine → ℕ → Option (ℕ × Machine)
user_byte m addr = do
  o ← read_mem m addr 1
  elim o [ ok v m' ↦ some (v % 256, m') | trap x m' ↦ none ]

unfoldable pub put_user_byte : Machine → ℕ → ℕ → Option Machine
put_user_byte m addr v = do
  o ← write_mem m addr 1 v
  elim o [ ok u m' ↦ some m' | trap x m' ↦ none ]

-- `readStrFromUsr` into an array with room for `room` bytes.
unfoldable pub read_str_from_usr : ℕ → Machine → ℕ → Option (List ℕ × Machine)
read_str_from_usr zero m addr = none
read_str_from_usr (suc room) m addr = do
  (c, m') ← user_byte m addr
  let rest = (do (s, m'') ← read_str_from_usr room m' (addr + 1); some (c ∷ s, m''))
  if c == 0 then some ([], m') else rest

unfoldable pub read_buff_from_usr : Machine → ℕ → ℕ → Option (List ℕ × Machine)
read_buff_from_usr m addr zero = some ([], m)
read_buff_from_usr m addr (suc n) = do
  (c, m') ← user_byte m addr
  (s, m'') ← read_buff_from_usr m' (addr + 1) n
  some (c ∷ s, m'')

-- `writeBuffToUsr` of the first `n` bytes.
unfoldable pub write_buff_to_usr : Machine → ℕ → List ℕ → Option Machine
write_buff_to_usr m addr [] = some m
write_buff_to_usr m addr (c ∷ s) = do m' ← put_user_byte m addr c; write_buff_to_usr m' (addr + 1) s

-- The blanks that `readStrFromUsrSpecial` skips: the byte that was read last and the address of the next come back.
-- `fuel` bounds their number.
unfoldable pub skip_blanks : ℕ → Machine → ℕ → ℕ → ℕ → Option (ℕ × ℕ × Machine)
skip_blanks zero m value next divide = none
skip_blanks (suc fuel) m value next divide =
    let rest = (do (c, m') ← user_byte m next; skip_blanks fuel m' c (next + 1) divide) in
    if value == divide then rest else some (value, next, m)

-- Its second loop, into an array with room for `room` bytes.
unfoldable pub read_word : ℕ → Machine → ℕ → ℕ → ℕ → Option (List ℕ × ℕ × Machine)
read_word zero m value next divide = none
read_word (suc room) m value next divide =
    let rest = (do
      (c, m') ← user_byte m next
      (s, next', m'') ← read_word room m' c (next + 1) divide
      some (value ∷ s, next', m'')) in
    if value == 0 || value == divide then some ([], next, m) else rest

-- `readStrFromUsrSpecial`: the word, and the address after what was read.
unfoldable pub read_str_from_usr_special : ℕ → ℕ → Machine → ℕ → ℕ → Option (List ℕ × ℕ × Machine)
read_str_from_usr_special fuel room m addr divide = do
  (c, m₁) ← user_byte m addr
  (c', next, m₂) ← skip_blanks fuel m₁ c (addr + 1) divide
  read_word room m₂ c' next divide
