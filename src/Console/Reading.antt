-- ===== src/Console/Reading.antt =====
-- What `consoleread` of kernel/console.c takes of the text that is ready.
use osn.Base.{
  ℕ, zero, suc, ◌+◌, ◌%◌, ◌≡◌, ◌≢◌, inl, inr, refl, ap, ap₂, sym, ◌∙◌, subst, List, [], ◌∷◌, ◌++◌,
  Bool, true, false, not, ◌==◌, if◌then◌else◌, arith, Bool-cases, ==_ne, ==_refl,
}
use osn.Base.Word.{add32, uint_mod}
use osn.Console.{
  Cons, input_buf, ReadEnd, finished, was_killed, waits, and_copied, consoleread_from, consoleread,
  newline, ctrl_d,
}
use osn.Console.Editing.{text, Holds, ready_text, edited_text, text-append}

-- What a read of `n` characters leaves of the text, and how it ends: after a line, at the mark of the end of the input,
-- which is left for the next read if anything was copied, at a character that cannot be copied, or at the end of the
-- text.
pub take_line : (ℕ → Bool) → Bool → ℕ → ℕ → Bool → List ℕ → List ℕ × ReadEnd
take_line copyout killed i zero first ready = (ready, finished [])
take_line copyout killed i (suc n) first [] = ([], if killed then was_killed [] else waits [])
take_line copyout killed i (suc n) first (x ∷ xs) =
    let rest = take_line copyout killed (suc i) n false xs in
    if x == ctrl_d
    then (if first then xs else x ∷ xs, finished [])
    else if not (copyout i)
    then (xs, finished [])
    else if x == newline
    then (xs, finished (x ∷ []))
    else (rest.0, and_copied x rest.1)

text-cons : (buf : ℕ → ℕ) (r n : ℕ) → text buf r (suc n) ≡ buf (r % input_buf) ∷ text buf (r + 1) n
unfolding text
text-cons buf r n =
    let e : suc n ≡ 1 + n = omega arith in
    let f : r + 0 ≡ r = omega arith in
    ap (text buf r) e
    ∙ (text-append buf r 1 n ∙ ap (λ x. buf (x % input_buf) ∷ text buf (r + 1) n) f)

text-wrap : (buf : ℕ → ℕ) (r n : ℕ) → text buf (r % uint_mod) n ≡ text buf r n
unfolding text
text-wrap buf r zero = refl
text-wrap buf r (suc n) =
    let e : (r % uint_mod + n) % input_buf ≡ (r + n) % input_buf = omega arith in
    ap₂ (λ l i. l ++ (buf i ∷ [])) (text-wrap buf r n) e

-- The ring without the first character that is ready.
next_char : Cons → Cons
next_char c = record c { r = add32 c.r 1 }

next_char-Holds : (c : Cons) (a b : ℕ) → Holds c (suc a) b → Holds (next_char c) a b
unfolding next_char
next_char-Holds c a b h = record {
  small = omega arith;
  ready = omega (arith, h.ready);
  edited = omega (arith, h.edited);
  fits = omega (arith, h.fits);
  one_line = λ i lt.
      let e : ((c.r + 1) % uint_mod + a + i) % input_buf ≡ (c.r + suc a + i) % input_buf =
        omega arith in
      λ z. h.one_line i lt (sym (ap c.buf e) ∙ z);
}

ready-next_char :
    (c : Cons) (a : ℕ) → ready_text c (suc a) ≡ c.buf (c.r % input_buf) ∷ ready_text (next_char c) a
unfolding next_char
ready-next_char c a =
    text-cons c.buf c.r a
    ∙ ap (λ l. c.buf (c.r % input_buf) ∷ l) (sym (text-wrap c.buf (c.r + 1) a))

edited-next_char : (c : Cons) (a b : ℕ) → edited_text (next_char c) a b ≡ edited_text c (suc a) b
unfolding next_char
edited-next_char c a b =
    let e : (add32 c.r 1 + a) % uint_mod ≡ (c.r + suc a) % uint_mod = omega arith in
    sym (text-wrap c.buf (add32 c.r 1 + a) b)
    ∙ (ap (λ x. text c.buf x b) e ∙ text-wrap c.buf (c.r + suc a) b)

module _ (copyout : ℕ → Bool) (killed : Bool) where
  -- A read ends as `take_line` says, leaves that text, and does not touch the line that is edited.
  pub record LineTaken (b : ℕ) (c : Cons) (line : List ℕ) (r : Cons × ReadEnd)
      (spec : List ℕ × ReadEnd) : Type 0 where
    pub count : ℕ
    pub holds : Holds r.0 count b
    pub left : ready_text r.0 count ≡ spec.0
    pub result : r.1 ≡ spec.1
    pub same_line : edited_text r.0 count b ≡ line

  read-turn :
      (i n : ℕ) (first : Bool) (c : Cons) (a b : ℕ)
      → Holds c (suc a) b
      → LineTaken b c
          (edited_text c (suc a) b)
          (consoleread_from copyout killed (suc i) n false (next_char c))
          (take_line copyout killed (suc i) n false (ready_text (next_char c) a))
      → LineTaken b c
          (edited_text c (suc a) b)
          (consoleread_from copyout killed i (suc n) first c)
          (take_line copyout killed i
            (suc n)
            first
            (c.buf (c.r % input_buf) ∷ ready_text (next_char c) a))
  unfolding consoleread_from take_line next_char
  read-turn i n first c a b h rest =
      let h' = next_char-Holds c a b h in
      let some_left : c.r ≢ c.w = λ e. omega (arith, h.ready, h.fits, h.small) in
      let ch = c.buf (c.r % input_buf) in
      rw (==_ne c.r c.w some_left) (elim (Bool-cases (ch == ctrl_d)) [
        | inl end ↦ rw end (at_mark first)
        | inr n1 ↦ elim (Bool-cases (not (copyout i))) [
          | inl fails ↦ rw n1 (rw fails (passed (finished []) h'))
          | inr n2 ↦ elim (Bool-cases (ch == newline)) [
            | inl line ↦ rw n1 (rw n2 (rw line (passed (finished (ch ∷ [])) h')))
            | inr n3 ↦ rw n1 (
                rw n2 (
                  rw n3 (record {
                    count = rest.count;
                    holds = rest.holds;
                    left = rest.left;
                    result = ap (and_copied ch) rest.result;
                    same_line = rest.same_line;
                  })))
          ]
        ]
      ])
    where
      passed :
          (e : ReadEnd)
          → Holds (next_char c) a b
          → LineTaken b c (edited_text c (suc a) b) (next_char c, e) (ready_text (next_char c) a, e)
      passed e h' = record {
        count = a;
        holds = h';
        left = refl;
        result = refl;
        same_line = edited-next_char c a b;
      }

      at_mark :
          (first : Bool)
          → LineTaken b c
              (edited_text c (suc a) b)
              (if first then next_char c else c, finished [])
              (
                if first
                    then ready_text (next_char c) a
                    else c.buf (c.r % input_buf) ∷ ready_text (next_char c) a,
                finished [],
              )
      at_mark true = passed (finished []) (next_char-Holds c a b h)
      at_mark false = record {
        count = suc a;
        holds = h;
        left = ready-next_char c a;
        result = refl;
        same_line = refl;
      }

  read-LineTaken :
      (i n : ℕ) (first : Bool) (c : Cons) (a b : ℕ)
      → Holds c a b
      → LineTaken b c
          (edited_text c a b)
          (consoleread_from copyout killed i n first c)
          (take_line copyout killed i n first (ready_text c a))
  unfolding consoleread_from take_line text
  read-LineTaken i zero first c a b h = record {
    count = a;
    holds = h;
    left = refl;
    result = refl;
    same_line = refl;
  }
  read-LineTaken i (suc n) first c zero b h =
      let none_left : c.r ≡ c.w = omega (arith, h.ready, h.small) in
      let e : (c.r == c.w) ≡ true = ap (λ x. x == c.w) none_left ∙ ==_refl c.w in
      rw e (record { count = 0; holds = h; left = refl; result = refl; same_line = refl })
  read-LineTaken i (suc n) first c (suc a) b h =
      let ih = read-LineTaken (suc i) n false (next_char c) a b (next_char-Holds c a b h) in
      subst
        (λ l.
          LineTaken b c (edited_text c (suc a) b)
            (consoleread_from copyout killed i (suc n) first c)
            (take_line copyout killed i (suc n) first l))
        (sym (ready-next_char c a))
        (read-turn i n first c a b h (record {
          count = ih.count;
          holds = ih.holds;
          left = ih.left;
          result = ih.result;
          same_line = ih.same_line ∙ edited-next_char c a b;
        }))

  -- `consoleread` takes from the text that is ready what `take_line` says, a line at most, and does not touch the line
  -- that is edited.
  pub consoleread-LineTaken :
      (n : ℕ) (c : Cons) (a b : ℕ)
      → Holds c a b
      → LineTaken b c
          (edited_text c a b)
          (consoleread copyout killed n c)
          (take_line copyout killed 0 n true (ready_text c a))
  unfolding consoleread
  consoleread-LineTaken n c a b h = read-LineTaken 0 n true c a b h
