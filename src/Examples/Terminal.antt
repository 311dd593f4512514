-- ===== src/Examples/Terminal.antt =====
-- The console, and copies from user memory.
use osn.Base.{ℕ, zero, suc, ◌+◌, ◌%◌, ◌<◌, ◌≡◌, ◌≢◌, refl, true, false, ◌==◌, if◌then◌else◌, arith}
use osn.File.{done}
use osn.Console.{Cons, input_char, consoleread}
use osn.Console.Editing.{Holds, ready_text, edited_text, edit}
use osn.Console.Typing.{Typed, input_char-Typed}
use osn.Console.Reading.{LineTaken, take_line, consoleread-LineTaken}
use osn.Vm.{copyin, copyinstr}
use osn.Vm.Copyin.{user_bytes, copyin-user_bytes}
use osn.Vm.Copyinstr.{user_string, copyinstr-user_string}

-- The line "a" is ready and "b" is edited; the counters are about to wrap.
abbrev some_input : Cons
some_input = record {
  buf = λ i. if i == 127 then 97 else if i == 0 then 10 else 98;
  r = 4294967295;
  w = 1;
  e = 2;
}

some_input-Holds : Holds some_input 2 1
some_input-Holds = record {
  small = omega arith;
  ready = refl;
  edited = refl;
  fits = omega arith;
  one_line = λ i lt. one i lt;
}
  where
    one : (i : ℕ) → i < 1 → some_input.buf ((4294967295 + 2 + i) % 128) ≢ 10
    one zero lt e = omega arith
    one (suc i) lt e = omega arith

input_char_example :
    Typed some_input 2 1 some_input-Holds
      (input_char 13 some_input)
      (edit 13 (ready_text some_input 2) (edited_text some_input 2 1))
input_char_example = input_char-Typed some_input 2 1 some_input-Holds 13

consoleread_example :
    LineTaken
      (λ i. true)
      false
      1
      some_input
      (edited_text some_input 2 1)
      (consoleread (λ i. true) false 5 some_input)
      (take_line (λ i. true) false 0 5 true (ready_text some_input 2))
consoleread_example = consoleread-LineTaken (λ i. true) false 5 some_input 2 1 some_input-Holds

-- A memory whose page table at 8192 maps the first page of a user to the page at 20480.
abbrev user_memory : ℕ → ℕ
user_memory a =
    if a == 8192
    then 1
    else if a == 8193
    then 12
    else if a == 12288
    then 1
    else if a == 12289
    then 16
    else if a == 16384
    then 31
    else if a == 16385
    then 20
    else if a == 20481
    then 104
    else 0

copyin_example : copyin user_memory 8192 1 3 ≡ done (user_bytes user_memory 8192 1 3)
copyin_example = copyin-user_bytes user_memory 8192 1 3

copyinstr_example : copyinstr user_memory 8192 1 3 ≡ done (user_string user_memory 8192 1 3)
copyinstr_example = copyinstr-user_string user_memory 8192 1 3
