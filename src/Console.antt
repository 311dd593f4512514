-- ===== src/Console.antt =====
-- kernel/console.c: the line discipline of the console. `cons.lock` is held through `consoleintr`, which is one step; a
-- `consoleread` that sleeps is entered again when it is woken. `Sent` is what is sent to the terminal.
pub mod Editing
pub mod Typing
pub mod Reading
use osn.Base.{
  ℕ, zero, suc, ◌+◌, ◌-◌, ◌%◌, ◌≡◌, List, [], ◌∷◌, ◌++◌, Option, none, some, Bool, true, false, not,
  ◌==◌, ◌&&◌, ◌||◌, ltb, if◌then◌else◌, update,
}
use osn.Base.Word.{add32, sub32}
use osn.Proc.{Kernel, Chan}
use osn.Proc.Wakeup.{wakeup}

abbrev pub input_buf : ℕ
input_buf = 128

abbrev pub newline : ℕ
newline = 10

-- `C('D')`
abbrev pub ctrl_d : ℕ
ctrl_d = 4

-- `cons`
pub record Cons : Type 0 where
  pub buf : ℕ → ℕ
  pub r : ℕ
  pub w : ℕ
  pub e : ℕ

-- What `consputc` sends, and the list of `procdump`.
pub data Sent : Type 0 where
  char : ℕ → Sent
  backspace : Sent
  process_list : Sent

-- The loop of the kill character, with fuel.
pub kill_from : ℕ → Cons → Cons × List Sent
kill_from zero c = (c, [])
kill_from (suc fuel) c =
    let rest = kill_from fuel (record c { e = sub32 c.e 1 }) in
    if not (c.e == c.w) && not (c.buf (sub32 c.e 1 % input_buf) == newline)
    then (rest.0, backspace ∷ rest.1)
    else (c, [])

-- As many turns as there are characters to edit are enough.
pub kill_line : Cons → Cons × List Sent
unfolding kill_from
kill_line c = kill_from (sub32 c.e c.w) c

pub erase : Cons → Cons × List Sent
erase c = if c.e == c.w then (c, []) else (record c { e = sub32 c.e 1 }, backspace ∷ [])

-- `cons.buf[cons.e++ % INPUT_BUF] = c`
pub store_char : ℕ → Cons → Cons
store_char ch c = record c { buf = update c.buf (c.e % input_buf) ch; e = add32 c.e 1 }

-- `(c == '\r') ? '\n' : c`
abbrev pub as_newline : ℕ → ℕ
as_newline ch = if ch == 13 then newline else ch

-- The line is handed to `consoleread`.
abbrev pub ends_line : ℕ → Cons → Bool
ends_line ch c = ch == newline || (ch == ctrl_d || c.e == add32 c.r input_buf)

-- The default case, and whether it wakes the readers up.
pub insert_char : ℕ → Cons → Cons × List Sent × Bool
unfolding store_char
insert_char ch c =
    if not (ch == 0) && ltb (sub32 c.e c.r) input_buf
    then (let c' = store_char (as_newline ch) c in
        if ends_line (as_newline ch) c'
        then (record c' { w = c'.e }, char (as_newline ch) ∷ [], true)
        else (c', char (as_newline ch) ∷ [], false))
    else (c, [], false)

-- The switch of `consoleintr`.
pub input_char : ℕ → Cons → Cons × List Sent × Bool
unfolding kill_line erase insert_char
input_char ch c =
    if ch == 16
    then (c, process_list ∷ [], false)
    else if ch == 21
    then ((kill_line c).0, (kill_line c).1, false)
    else if ch == 8 || ch == 127
    then ((erase c).0, (erase c).1, false)
    else insert_char ch c

-- `consoleintr`, in the process that is interrupted; `chan` is `&cons.r`.
pub consoleintr : Option ℕ → Chan → ℕ → Kernel → Cons → Kernel × Cons × List Sent
unfolding input_char
consoleintr me chan ch k c =
    let r = input_char ch c in (if r.2 then wakeup me chan k else k, r.0, r.1)

-- How the loop of `consoleread` ends, with what it has copied: with a result, or asleep until there is input.
pub data ReadEnd : Type 0 where
  finished : List ℕ → ReadEnd
  was_killed : List ℕ → ReadEnd
  waits : List ℕ → ReadEnd

abbrev pub and_copied : ℕ → ReadEnd → ReadEnd
and_copied ch (finished xs) = finished (ch ∷ xs)
and_copied ch (was_killed xs) = was_killed (ch ∷ xs)
and_copied ch (waits xs) = waits (ch ∷ xs)

-- The loop of `consoleread` with `n` bytes to go, `first` saying whether none has been copied; `copyout` says whether
-- `either_copyout` of the byte at `i` succeeds.
pub consoleread_from : (ℕ → Bool) → Bool → ℕ → ℕ → Bool → Cons → Cons × ReadEnd
consoleread_from copyout killed i zero first c = (c, finished [])
consoleread_from copyout killed i (suc n) first c =
    let ch = c.buf (c.r % input_buf) in
    let c' = record c { r = add32 c.r 1 } in
    let rest = consoleread_from copyout killed (suc i) n false c' in
    if c.r == c.w
    then (c, if killed then was_killed [] else waits [])
    else if ch == ctrl_d
    then (if first then c' else c, finished [])
    else if not (copyout i)
    then (c', finished [])
    else if ch == newline
    then (c', finished (ch ∷ []))
    else (rest.0, and_copied ch rest.1)

pub consoleread : (ℕ → Bool) → Bool → ℕ → Cons → Cons × ReadEnd
unfolding consoleread_from
consoleread copyout killed n c = consoleread_from copyout killed 0 n true c
