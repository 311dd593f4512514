-- ===== src/Examples/Strings.antt =====
-- Texts and copies of kernel/string.c, and the numbers that user programs print and read. The memory of the examples holds the text "ab" at address 0.
use osn.Base.{ℕ, List, ◌∷◌, true, arith, ◌≡◌, if◌then◌else◌, ◌==◌}
use osn.Base.Int.{pos}
use osn.Kstring.{Memory, memmove}
use osn.Kstring.Move.{memmove_lem}
use osn.User.{printint, atoi}
use osn.User.Decimal.{atoi-printint}

abbrev text : Memory
text a = if a == 0 then 97 else if a == 1 then 98 else 0

memmove_example : memmove text 1 0 2 2 ≡ 98
memmove_example = memmove_lem text 1 0 2 2

-- The `int` -12.
printint_example :
    (digits : List ℕ) × (printint 4294967284 10 true ≡ 45 ∷ digits) × (atoi digits ≡ pos 12)
printint_example = atoi-printint 4294967284 true (omega arith) (omega arith)
