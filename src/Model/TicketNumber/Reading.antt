-- ===== src/Model/TicketNumber/Reading.antt =====
-- A reader of ticket numbers, which the program does not have: the sequence number behind the
-- second dash.
use peak_pass.Prelude.{
  ℕ, zero, suc, ◌+◌, ◌-◌, ◌*◌, ◌/◌, ◌%◌, ◌<◌, ◌≤◌, le→leb, ◌≡◌, refl, ap, ◌∙◌, Bool-cases, inl, inr,
  [], ◌∷◌, ◌++◌, Text, length, ltb, ◌==◌, if◌then◌else◌, arith,
}
use peak_pass.Model.TicketNumber.{
  exact_max, digits, decimal, zeros, pad_start, pass_prefix, generate_ticket_number,
}

-- The number that a text of digits denotes, behind the digits of `n`.
unfoldable pub read_digits : ℕ → Text → ℕ
read_digits n [] = n
read_digits n (c ∷ s) = read_digits (10 * n + (c - 48)) s

unfoldable pub after_dash : Text → Text
after_dash [] = []
after_dash (c ∷ s) = if c == 45 then s else after_dash s

unfoldable pub read_sequence : Text → ℕ
read_sequence s = read_digits 0 (after_dash (after_dash s))

read_digits-digits :
    (fuel n : ℕ) (rest : Text) → n < fuel → read_digits 0 (digits fuel n rest) ≡ read_digits n rest
unfolding read_digits digits
read_digits-digits zero n rest h = absurd (omega arith)
read_digits-digits (suc fuel) n rest h = elim (Bool-cases (ltb n 10)) [
  | inl y ↦ rw (y) (ap (λ x. read_digits x rest) (ground arith))
  | inr ne ↦ rw (ne) (
      read_digits-digits fuel (n / 10) ((48 + n % 10) ∷ rest) (ground arith)
      ∙ ap (λ x. read_digits x rest) (ground arith))
]

read_digits-zeros : (k : ℕ) (s : Text) → read_digits 0 (zeros k ++ s) ≡ read_digits 0 s
unfolding read_digits zeros
read_digits-zeros zero s = refl
read_digits-zeros (suc k) s = read_digits-zeros k s

after_dash-digits :
    (fuel n : ℕ) (rest s : Text)
    → n < fuel
    → after_dash (digits fuel n rest ++ s) ≡ after_dash (rest ++ s)
unfolding after_dash digits
after_dash-digits zero n rest s h = absurd (omega arith)
after_dash-digits (suc fuel) n rest s h = elim (Bool-cases (ltb n 10)) [
  | inl y ↦ rw (y) (ground arith)
  | inr ne ↦
      rw (ne)
        (after_dash-digits fuel (n / 10) ((48 + n % 10) ∷ rest) s (ground arith) ∙ ground arith)
]

dash_first : (s : Text) → after_dash (45 ∷ s) ≡ s
unfolding after_dash
dash_first s = refl

read_digits-end : (n : ℕ) → read_digits n [] ≡ n
unfolding read_digits
read_digits-end n = refl

after_dash-pass_prefix : (s : Text) → after_dash (pass_prefix ++ s) ≡ s
unfolding after_dash
after_dash-pass_prefix s = refl

decimal-exact :
    (rounded : ℕ → Text) (n : ℕ) → n ≤ exact_max → decimal rounded n ≡ digits (suc n) n []
unfolding decimal
decimal-exact rounded n h = rw (le→leb n exact_max h) refl

after_dash-decimal :
    (rounded : ℕ → Text) (n : ℕ) (s : Text)
    → n ≤ exact_max
    → after_dash (decimal rounded n ++ (45 ∷ s)) ≡ s
after_dash-decimal rounded n s h =
    ap (λ t. after_dash (t ++ (45 ∷ s))) (decimal-exact rounded n h)
    ∙ after_dash-digits (suc n) n [] (45 ∷ s) (omega arith)
    ∙ dash_first s

read_digits-decimal :
    (rounded : ℕ → Text) (n : ℕ)
    → n ≤ exact_max
    → read_digits 0 (pad_start 6 (decimal rounded n)) ≡ n
unfolding pad_start
read_digits-decimal rounded n h =
    read_digits-zeros (6 - length (decimal rounded n)) (decimal rounded n)
    ∙ ap (read_digits 0) (decimal-exact rounded n h)
    ∙ read_digits-digits (suc n) n [] (omega arith)
    ∙ read_digits-end n

-- The sequence number of a ticket is read back from its ticket number, where the year and the sequence
-- number are at most 2^53, so that JavaScript numbers hold them; it may have more digits than six.
pub read_sequence-generate_ticket_number :
    (rounded : ℕ → Text) (year sequence : ℕ)
    → year ≤ exact_max
    → sequence ≤ exact_max
    → read_sequence (generate_ticket_number rounded year sequence) ≡ sequence
unfolding read_sequence generate_ticket_number
read_sequence-generate_ticket_number rounded year sequence y h =
    ap (λ s. read_digits 0 (after_dash s))
      (after_dash-pass_prefix
        (decimal rounded year ++ (45 ∷ pad_start 6 (decimal rounded sequence))))
    ∙ ap (read_digits 0)
        (after_dash-decimal rounded year (pad_start 6 (decimal rounded sequence)) y)
    ∙ read_digits-decimal rounded sequence h
