-- ===== src/Console/Editing.antt =====
-- The input of kernel/console.c as lists: the text that is ready to be read, and the line that is edited.
use osn.Base.{
  ℕ, zero, suc, ◌+◌, ◌%◌, ◌≤◌, ◌<◌, ◌≡◌, ◌≢◌, refl, ap, ap₂, sym, ◌∙◌, List, [], ◌∷◌, ◌++◌, Bool,
  true, not, ◌==◌, ◌&&◌, ◌||◌, ltb, if◌then◌else◌, update, update_ne, arith, append_assoc,
  append-nil, length, length-append, ==_ne,
}
use osn.Base.Word.{sub32, uint_mod}
use osn.Console.{Cons, kill_from, kill_line, as_newline, input_buf, newline, ctrl_d}

-- The `n` characters of the ring from counter `r` on.
unfoldable pub text : (ℕ → ℕ) → ℕ → ℕ → List ℕ
text buf r zero = []
text buf r (suc n) = text buf r n ++ (buf ((r + n) % input_buf) ∷ [])

-- The `a` characters from `r` on are ready to be read, and the `b` after them are edited: they have no newline.
pub record Holds (c : Cons) (a b : ℕ) : Type 0 where
  pub small : c.r < uint_mod
  pub ready : c.w ≡ (c.r + a) % uint_mod
  pub edited : c.e ≡ (c.r + a + b) % uint_mod
  pub fits : a + b ≤ input_buf
  pub one_line : (i : ℕ) → i < b → c.buf ((c.r + a + i) % input_buf) ≢ newline

abbrev pub ready_text : Cons → ℕ → List ℕ
ready_text c a = text c.buf c.r a

abbrev pub edited_text : Cons → ℕ → ℕ → List ℕ
edited_text c a b = text c.buf (c.r + a) b

abbrev pub without_last : List ℕ → List ℕ
without_last [] = []
without_last (x ∷ []) = []
without_last (x ∷ y ∷ ys) = x ∷ without_last (y ∷ ys)

-- The line is handed over with its last character: at the end of a line or of the input, or where there is no more
-- room.
abbrev pub hands_over : ℕ → List ℕ → List ℕ → Bool
hands_over ch ready line =
    ch == newline || (ch == ctrl_d || length ready + length line + 1 == input_buf)

abbrev pub typed : ℕ → List ℕ → List ℕ → List ℕ × List ℕ
typed ch ready line =
    if not (ch == 0) && ltb (length ready + length line) input_buf
    then (if hands_over (as_newline ch) ready line
        then (ready ++ (line ++ (as_newline ch ∷ [])), [])
        else (ready, line ++ (as_newline ch ∷ [])))
    else (ready, line)

-- What a character does to the text that is ready and the line that is edited.
unfoldable pub edit : ℕ → List ℕ → List ℕ → List ℕ × List ℕ
edit ch ready line =
    if ch == 16
    then (ready, line)
    else if ch == 21
    then (ready, [])
    else if ch == 8 || ch == 127
    then (ready, without_last line)
    else typed ch ready line

pub without_last-snoc : (xs : List ℕ) (x : ℕ) → without_last (xs ++ (x ∷ [])) ≡ xs
without_last-snoc [] x = refl
without_last-snoc (y ∷ []) x = refl
without_last-snoc (y ∷ z ∷ ys) x = ap (λ l. y ∷ l) (without_last-snoc (z ∷ ys) x)

pub length-text : (buf : ℕ → ℕ) (r n : ℕ) → length (text buf r n) ≡ n
unfolding text
length-text buf r zero = refl
length-text buf r (suc n) =
    length-append (text buf r n) (buf ((r + n) % input_buf) ∷ [])
    ∙ omega (arith, length-text buf r n)

pub text-update :
    (buf : ℕ → ℕ) (r n i ch : ℕ)
    → ((j : ℕ) → j < n → i ≢ (r + j) % input_buf)
    → text (update buf i ch) r n ≡ text buf r n
unfolding text
text-update buf r zero i ch h = refl
text-update buf r (suc n) i ch h =
    ap₂ (λ l x. l ++ (x ∷ [])) (text-update buf r n i ch (λ j lt. h j (omega arith)))
      (update_ne buf i ((r + n) % input_buf) ch (h n (omega arith)))

-- The characters of two ranges, one after the other.
pub text-append :
    (buf : ℕ → ℕ) (r a b : ℕ) → text buf r (a + b) ≡ text buf r a ++ text buf (r + a) b
unfolding text
text-append buf r a zero =
    let e : a + 0 ≡ a = omega arith in ap (text buf r) e ∙ sym (append-nil (text buf r a))
text-append buf r a (suc b) =
    let e : a + suc b ≡ suc (a + b) = omega arith in
    let f : r + (a + b) ≡ r + a + b = omega arith in
    ap (text buf r) e
    ∙ (ap₂ (λ l i. l ++ (buf (i % input_buf) ∷ [])) (text-append buf r a b) f
        ∙ append_assoc (text buf r a) (text buf (r + a) b) (buf ((r + a + b) % input_buf) ∷ []))

-- The kill character takes back the whole line.
kill_from-Holds :
    (b : ℕ) (c : Cons) (a : ℕ) → Holds c a b → (kill_from b c).0 ≡ record c { e = c.w }
unfolding kill_from
kill_from-Holds zero c a h =
    let e : c.e ≡ c.w = omega (arith, h.edited, h.ready) in
    ap {A = ℕ} {B = Cons} (λ x. record c { e = x }) e
kill_from-Holds (suc b) c a h =
    let prev : sub32 c.e 1 ≡ (c.r + a + b) % uint_mod = omega (arith, h.edited, h.small, h.fits) in
    let index : sub32 c.e 1 % input_buf ≡ (c.r + a + b) % input_buf = omega (arith, prev) in
    let differ : c.e ≢ c.w = λ z. omega (arith, h.edited, h.ready, h.fits) in
    let char : c.buf (sub32 c.e 1 % input_buf) ≢ newline =
      λ z. h.one_line b (omega arith) (ap c.buf (sym index) ∙ z) in
    let more : (not (c.e == c.w) && not (c.buf (sub32 c.e 1 % input_buf) == newline)) ≡ true =
      ap₂ (λ x y. not x && not y) (==_ne c.e c.w differ)
        (==_ne (c.buf (sub32 c.e 1 % input_buf)) newline char) in
    let h' : Holds (record c { e = sub32 c.e 1 }) a b = record {
      small = h.small;
      ready = h.ready;
      edited = prev;
      fits = omega (arith, h.fits);
      one_line = λ i lt. h.one_line i (omega arith);
    } in
    rw more (kill_from-Holds b (record c { e = sub32 c.e 1 }) a h')

-- What an operation leaves: the ring holds this text and this line.
pub record Shows (c : Cons) (lists : List ℕ × List ℕ) : Type 0 where
  pub count : ℕ
  pub line : ℕ
  pub holds : Holds c count line
  pub same : lists ≡ (ready_text c count, edited_text c count line)

module _ (c : Cons) (a b : ℕ) (h : Holds c a b) where
  pub unchanged : Shows c (ready_text c a, edited_text c a b)
  unchanged = record { count = a; line = b; holds = h; same = refl }

  pub kill_line-Shows : Shows (kill_line c).0 (ready_text c a, [])
  unfolding kill_line text
  kill_line-Shows =
      let fuel : sub32 c.e c.w ≡ b = omega (arith, h.edited, h.ready, h.fits, h.small) in
      rw fuel (
        rw (kill_from-Holds b c a h) (record {
          count = a;
          line = 0;
          holds = record {
            small = h.small;
            ready = h.ready;
            edited = h.ready ∙ omega arith;
            fits = omega (arith, h.fits);
            one_line = λ i lt. absurd (omega arith);
          };
          same = refl;
        }))
