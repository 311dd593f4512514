-- ===== src/Console/Typing.antt =====
-- What each character typed does to the input of kernel/console.c.
use osn.Base.{
  ℕ, zero, suc, ◌+◌, ◌%◌, ◌<◌, ◌≡◌, ◌≢◌, inl, inr, refl, ap, ap₂, sym, ◌∙◌, List, [], ◌∷◌, ◌++◌,
  Bool, true, false, not, ◌==◌, ◌&&◌, ◌||◌, ltb, update, update_self, update_ne, arith, Bool-cases,
  length, ==_ne, ==_refl, ℕ_discrete,
}
use osn.Base.Word.{add32, sub32, uint_mod}
use osn.Console.{
  Cons, Sent, erase, store_char, as_newline, ends_line, insert_char, input_char, input_buf, newline,
  ctrl_d,
}
use osn.Console.Editing.{
  text, Holds, ready_text, edited_text, without_last, hands_over, typed, edit, without_last-snoc,
  length-text, text-update, text-append, Shows, unchanged, kill_line-Shows,
}

differs : (ch : ℕ) → (ch == newline) ≡ false → ch ≢ newline
differs ch other e = ground arith

module _ (c : Cons) (a b : ℕ) (h : Holds c a b) where
  erase-Shows : Shows (erase c).0 (ready_text c a, without_last (edited_text c a b))
  unfolding erase text
  erase-Shows = by_length b h
    where
      by_length :
          (b : ℕ)
          → Holds c a b
          → Shows (erase c).0 (ready_text c a, without_last (edited_text c a b))
      by_length zero h =
          let z : c.e ≡ c.w = omega (arith, h.edited, h.ready) in
          let e : (c.e == c.w) ≡ true = ap (λ x. x == c.w) z ∙ ==_refl c.w in
          rw e (record { count = a; line = 0; holds = h; same = refl })
      by_length (suc b) h =
          let differ : c.e ≢ c.w = λ z. omega (arith, h.edited, h.ready, h.fits) in
          let prev : sub32 c.e 1 ≡ (c.r + a + b) % uint_mod =
            omega (arith, h.edited, h.small, h.fits) in
          rw (==_ne c.e c.w differ) (record {
            count = a;
            line = b;
            holds = record {
              small = h.small;
              ready = h.ready;
              edited = prev;
              fits = omega (arith, h.fits);
              one_line = λ i lt. h.one_line i (omega arith);
            };
            same =
                ap (λ l. (ready_text c a, l))
                  (without_last-snoc (text c.buf (c.r + a) b) (c.buf ((c.r + a + b) % input_buf)));
          })

  module _ (ch : ℕ) (room : a + b < input_buf) where
    stored : Cons
    stored = store_char ch c

    at_end : c.e % input_buf ≡ (c.r + a + b) % input_buf
    at_end = omega (arith, h.edited)

    stored-ready : ready_text stored a ≡ ready_text c a
    unfolding stored store_char
    stored-ready = text-update c.buf c.r a (c.e % input_buf) ch (λ j lt e. omega (arith, at_end))

    stored-edited : edited_text stored a (suc b) ≡ edited_text c a b ++ (ch ∷ [])
    unfolding stored store_char text
    stored-edited =
        ap₂ (λ l x. l ++ (x ∷ []))
          (text-update c.buf (c.r + a) b (c.e % input_buf) ch (λ j lt e. omega (arith, at_end)))
          (ap (update c.buf (c.e % input_buf) ch) (sym at_end)
            ∙ update_self c.buf (c.e % input_buf) ch)

    stored-e : stored.e ≡ (c.r + a + suc b) % uint_mod
    unfolding stored store_char
    stored-e = omega (arith, h.edited)

    stored-full : (stored.e == add32 stored.r input_buf) ≡ (a + b + 1 == input_buf)
    unfolding stored store_char
    stored-full = ground (arith, h.edited, h.small)

    -- The line goes on.
    goes_on-Shows :
        (ch == newline) ≡ false → Shows stored (ready_text c a, edited_text c a b ++ (ch ∷ []))
    unfolding stored store_char
    goes_on-Shows other = record {
      count = a;
      line = suc b;
      holds = record {
        small = h.small;
        ready = h.ready;
        edited = stored-e;
        fits = omega arith;
        one_line = λ i lt. one_line i lt other;
      };
      same = ap₂ (λ x y. (x, y)) (sym stored-ready) (sym stored-edited);
    }
      where
        one_line :
            (i : ℕ)
            → i < suc b
            → (ch == newline) ≡ false
            → update c.buf (c.e % input_buf) ch ((c.r + a + i) % input_buf) ≢ newline
        one_line i lt other = elim (ℕ_discrete i b) [
          | yes e ↦
              let at : (c.r + a + i) % input_buf ≡ c.e % input_buf =
                ap (λ x. (c.r + a + x) % input_buf) e ∙ sym at_end in
              λ z. differs ch other (
                sym (
                  ap (update c.buf (c.e % input_buf) ch) at
                  ∙ update_self c.buf (c.e % input_buf) ch)
                ∙ z)
          | no ne ↦
              let apart : c.e % input_buf ≢ (c.r + a + i) % input_buf =
                λ e. omega (arith, at_end) in
              λ z.
                h.one_line i (omega arith)
                  (sym (update_ne c.buf (c.e % input_buf) ((c.r + a + i) % input_buf) ch apart) ∙ z)
        ]

    -- The line is handed over.
    handed-Shows :
        Shows
          (record stored { w = stored.e })
          (ready_text c a ++ (edited_text c a b ++ (ch ∷ [])), [])
    unfolding stored store_char text
    handed-Shows = record {
      count = a + suc b;
      line = 0;
      holds = record {
        small = h.small;
        ready = stored-e ∙ omega arith;
        edited = stored-e ∙ omega arith;
        fits = omega arith;
        one_line = λ i lt. absurd (omega arith);
      };
      same =
          ap (λ l. (l, []))
            (ap₂ (λ x y. x ++ y) (sym stored-ready) (sym stored-edited)
              ∙ sym (text-append stored.buf c.r a (suc b)));
    }

  -- What is shown, and that the readers are woken up where more is ready.
  pub Typed : Cons × List Sent × Bool → List ℕ × List ℕ → Type 0
  Typed r lists = Shows r.0 lists × (r.2 ≡ false → lists.0 ≡ ready_text c a)

  lengths : length (ready_text c a) + length (edited_text c a b) ≡ a + b
  lengths = ap₂ (λ x y. x + y) (length-text c.buf c.r a) (length-text c.buf (c.r + a) b)

  room-eq :
      ltb (sub32 c.e c.r) input_buf
      ≡ ltb (length (ready_text c a) + length (edited_text c a b)) input_buf
  room-eq =
      let gap : sub32 c.e c.r ≡ a + b = omega (arith, h.edited, h.small, h.fits) in
      ap (λ x. ltb x input_buf) (gap ∙ sym lengths)

  ends-eq :
      (ch : ℕ) (room : a + b < input_buf)
      → ends_line ch (store_char ch c) ≡ hands_over ch (ready_text c a) (edited_text c a b)
  unfolding stored
  ends-eq ch room =
      ap (λ t. ch == newline || (ch == ctrl_d || t))
        (stored-full ch room ∙ ap (λ x. x + 1 == input_buf) (sym lengths))

  insert_char-Typed :
      (ch : ℕ) → Typed (insert_char ch c) (typed ch (ready_text c a) (edited_text c a b))
  unfolding insert_char Typed stored
  insert_char-Typed ch =
      elim (Bool-cases
        (not (ch == 0) && ltb (length (ready_text c a) + length (edited_text c a b)) input_buf)) [
          | inr refused ↦ rw room-eq (rw refused (unchanged c a b h, λ e. refl))
          | inl fit ↦
              let room : a + b < input_buf = ground (arith, lengths) in
              rw room-eq (
                rw fit (
                  rw (ends-eq (as_newline ch) room)
                    (elim (Bool-cases
                      (hands_over (as_newline ch) (ready_text c a) (edited_text c a b))) [
                        | inl over ↦
                            rw over (handed-Shows (as_newline ch) room, λ e. absurd (ground arith))
                        | inr on ↦
                            let other : (as_newline ch == newline) ≡ false = ground arith in
                            rw on (goes_on-Shows (as_newline ch) room other, λ e. refl)
                      ])))
        ]

  -- A character that is typed does to the input what `edit` says: it is put at the end of the line, takes its last
  -- character or the whole line back, or hands the line over to the readers, who are woken up whenever more is ready.
  -- At most 128 characters are kept, and a character for which there is no room is lost.
  pub input_char-Typed :
      (ch : ℕ) → Typed (input_char ch c) (edit ch (ready_text c a) (edited_text c a b))
  unfolding input_char Typed edit
  input_char-Typed ch = elim (Bool-cases (ch == 16)) [
    | inl list ↦ rw list (unchanged c a b h, λ e. refl)
    | inr n1 ↦ elim (Bool-cases (ch == 21)) [
      | inl kill ↦ rw n1 (rw kill (kill_line-Shows c a b h, λ e. refl))
      | inr n2 ↦ elim (Bool-cases (ch == 8 || ch == 127)) [
        | inl back ↦ rw n1 (rw n2 (rw back (erase-Shows, λ e. refl)))
        | inr n3 ↦ rw n1 (rw n2 (rw n3 (insert_char-Typed ch)))
      ]
    ]
  ]
