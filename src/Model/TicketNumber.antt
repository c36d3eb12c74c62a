-- ===== src/Model/TicketNumber.antt =====
-- `generateTicketNumber` of src/core/models/ticket.ts: `PASS-<year>-<sequence>`, the sequence in
-- decimal and padded on the left to six digits.
pub mod Reading
use peak_pass.Prelude.{
  ℕ, zero, suc, ◌+◌, ◌-◌, ◌/◌, ◌%◌, [], ◌∷◌, ◌++◌, Text, length, leb, ltb, if◌then◌else◌,
}

-- The decimal digits of `n` in front of `rest`; `fuel` above `n` is enough.
unfoldable pub digits : ℕ → ℕ → Text → Text
digits zero n rest = rest
digits (suc fuel) n rest =
    let longer = digits fuel (n / 10) ((48 + n % 10) ∷ rest) in
    if ltb n 10 then (48 + n) ∷ rest else longer

-- The integers that a JavaScript number holds exactly: those up to this one.
abbrev pub exact_max : ℕ
exact_max = 9007199254740992

-- `String(Number(n))` of an integer. `rounded` has the text above `exact_max`, where a number is
-- rounded to a double.
unfoldable pub decimal : (ℕ → Text) → ℕ → Text
unfolding digits
decimal rounded n = if leb n exact_max then digits (suc n) n [] else rounded n

unfoldable pub zeros : ℕ → Text
zeros zero = []
zeros (suc n) = 48 ∷ zeros n

-- `padStart(width, '0')`
unfoldable pub pad_start : ℕ → Text → Text
unfolding zeros
pad_start width s = zeros (width - length s) ++ s

abbrev pub pass_prefix : Text
pass_prefix = b'P' ∷ b'A' ∷ b'S' ∷ b'S' ∷ b'-' ∷ []

unfoldable pub generate_ticket_number : (ℕ → Text) → ℕ → ℕ → Text
unfolding decimal pad_start
generate_ticket_number rounded year sequence =
    pass_prefix ++ (decimal rounded year ++ (b'-' ∷ pad_start 6 (decimal rounded sequence)))
