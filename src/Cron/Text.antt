-- ===== src/Cron/Text.antt =====
-- The operations of JavaScript's strings and numbers that the parser uses, on lists of UTF-16 code
-- units.
use task_orchestrator_engine.Prelude.{
  ℕ, ◌+◌, ◌-◌, ◌*◌, Bool, true, false, ◌&&◌, ◌||◌, Option, none, some, List, [], ◌∷◌, ◌++◌, reverse,
  every, leb, ◌==◌, if◌then◌else◌,
}

abbrev pub Text : Type 0
Text = List ℕ

-- `\s`, which `trim` and `parseInt` skip too.
abbrev pub is_space : ℕ → Bool
is_space c =
    (leb 9 c && leb c 13)
    || (c == 32
        || (c == 160
            || (c == 0x1680
                || ((leb 0x2000 c && leb c 0x200a)
                    || (c == 0x2028
                        || (c == 0x2029
                            || (c == 0x202f || (c == 0x205f || (c == 0x3000 || c == 0xfeff)))))))))

unfoldable pub skip_spaces : Text → Text
skip_spaces [] = []
skip_spaces (c ∷ cs) = if is_space c then skip_spaces cs else c ∷ cs

unfoldable pub trim : Text → Text
unfolding skip_spaces
trim cs = reverse (skip_spaces (reverse (skip_spaces cs)))

-- `split(/\s+/)`: the piece so far, and whether a run of spaces has just closed one.
unfoldable pub split_from : Bool → Text → Text → List Text
split_from in_run piece [] = piece ∷ []
split_from true piece (c ∷ cs) = split_from (is_space c) (if is_space c then [] else c ∷ []) cs
split_from false piece (c ∷ cs) =
    let closed = piece ∷ split_from true [] cs in
    let longer = split_from false (piece ++ c ∷ []) cs in if is_space c then closed else longer

unfoldable pub split_spaces : Text → List Text
unfolding split_from
split_spaces cs = split_from false [] cs

-- `includes` and `split` for a single character.
unfoldable pub includes : ℕ → Text → Bool
includes d [] = false
includes d (c ∷ cs) = c == d || includes d cs

unfoldable pub split_at : ℕ → Text → Text → List Text
split_at d piece [] = piece ∷ []
split_at d piece (c ∷ cs) =
    let closed = piece ∷ split_at d [] cs in
    let longer = split_at d (piece ++ c ∷ []) cs in if c == d then closed else longer

unfoldable pub split : ℕ → Text → List Text
unfolding split_at
split d cs = split_at d [] cs

-- `const [a, b] = pieces`, for at least two pieces.
abbrev pub first_two : List Text → Text × Text
first_two (a ∷ b ∷ _) = (a, b)
first_two (a ∷ []) = (a, [])
first_two [] = ([], [])

abbrev pub is_digit : ℕ → Bool
is_digit c = leb b'0' c && leb c b'9'

-- The value of the digits in front, behind those that make `n`.
unfoldable pub digits_from : ℕ → Text → ℕ
digits_from n [] = n
digits_from n (c ∷ cs) = if is_digit c then digits_from (n * 10 + (c - b'0')) cs else n

unfoldable pub leading_number : Text → Option ℕ
unfolding digits_from
leading_number [] = none
leading_number (c ∷ cs) = if is_digit c then some (digits_from (c - b'0') cs) else none

abbrev pub skip_plus : Text → Text
skip_plus [] = []
skip_plus (c ∷ cs) = if c == b'+' then cs else c ∷ cs

-- `parseInt(text, 10)` for a text without a minus sign; `none` is `NaN`. Of a text with one it is
-- `none` too, where `parseInt` has a number below 1.
unfoldable pub parse_int : Text → Option ℕ
unfolding skip_spaces leading_number
parse_int cs = leading_number (skip_plus (skip_spaces cs))

-- `Number(text)`: 0 for the empty text, and the value of a text of digits. Of any other text the
-- value is an argument, which stands for a whole number or `NaN`: texts such as `1.5` are left out.
unfoldable pub to_number : (Text → Option ℕ) → Text → Option ℕ
unfolding digits_from
to_number unusual cs = if every is_digit cs then some (digits_from 0 cs) else unusual cs
