-- ===== src/Bank/CoreBanking/Cents.antt =====
-- Amounts as text: `ParseCents` and `String` of
-- templates/bank/internal/corebanking/domain/money.go, with what they use of Go's `strings`,
-- `strconv.ParseInt` and `fmt`. A text is the list of its code points; an error has no content here.
use jiade.Prelude.{
  ℕ, zero, suc, ◌+◌, ◌-◌, ◌*◌, ◌/◌, ◌%◌, Bool, true, false, ◌&&◌, ◌||◌, ◌==◌, Option, none, some,
  List, [], ◌∷◌, ◌++◌, ltb, leb, length, if◌then◌else◌,
}
use jiade.Prelude.Int.{ℤ, pos, negsuc, ltb_ℤ}
use jiade.Prelude.Int64.{sub64, div64, rem64}

abbrev pub minus_sign : ℕ
minus_sign = 45

abbrev pub plus_sign : ℕ
plus_sign = 43

abbrev pub dot : ℕ
dot = 46

-- `unicode.IsSpace`
abbrev pub is_space : ℕ → Bool
is_space c =
    (leb 9 c && leb c 13)
    || ((c == 32)
        || ((c == 133)
            || ((c == 160)
                || ((c == 5760)
                    || ((leb 8192 c && leb c 8202)
                        || ((c == 8232)
                            || ((c == 8233) || ((c == 8239) || ((c == 8287) || (c == 12288))))))))))

unfoldable pub trim_left : List ℕ → List ℕ
trim_left [] = []
trim_left (c ∷ cs) = let rest = trim_left cs in if is_space c then rest else c ∷ cs

abbrev pub none_left : List ℕ → Bool
none_left [] = true
none_left (_ ∷ _) = false

unfoldable pub trim_right : List ℕ → List ℕ
trim_right [] = []
trim_right (c ∷ cs) =
    let rest = trim_right cs in if none_left rest && is_space c then [] else c ∷ rest

-- The digits of a number, from the front. Twenty are enough for 64 bits.
unfoldable pub digits : ℕ → ℕ → List ℕ
digits zero n = []
digits (suc fuel) n =
    let front = digits fuel (n / 10) in
    if ltb n 10 then (48 + n) ∷ [] else front ++ ((48 + n % 10) ∷ [])

-- `%d`
unfoldable pub print : ℤ → List ℕ
print (pos n) = digits 20 n
print (negsuc n) = minus_sign ∷ digits 20 (n + 1)

-- `%02d` of a text that `%d` gives; the sign counts as a place.
abbrev pub two_places : List ℕ → List ℕ
two_places cs = if ltb (length cs) 2 then 48 ∷ cs else cs

-- The last lines of `String`, for an amount that is no longer negative, but for the least one.
unfoldable pub yuan_text : ℤ → List ℕ
yuan_text n = print (div64 n (pos 100)) ++ dot ∷ two_places (print (rem64 n (pos 100)))

unfoldable pub money_text : ℤ → List ℕ
money_text m = if ltb_ℤ m (pos 0) then minus_sign ∷ yuan_text (sub64 (pos 0) m) else yuan_text m

-- The digits of `ParseInt` in base 10.
unfoldable pub value : ℕ → List ℕ → Option ℕ
value acc [] = some acc
value acc (c ∷ cs) =
    let later = value (acc * 10 + (c - 48)) cs in if leb 48 c && leb c 57 then later else none

unfoldable pub unsigned : List ℕ → Option ℕ
unsigned [] = none
unsigned (c ∷ cs) = value 0 (c ∷ cs)

-- The range of an int64.
abbrev pub in_range_pos : Option ℕ → Option ℤ
in_range_pos none = none
in_range_pos (some n) = if ltb n 9223372036854775808 then some (pos n) else none

abbrev pub in_range_neg : Option ℕ → Option ℤ
in_range_neg none = none
in_range_neg (some zero) = some (pos 0)
in_range_neg (some (suc n)) = if ltb n 9223372036854775808 then some (negsuc n) else none

unfoldable pub parse_int : List ℕ → Option ℤ
parse_int [] = none
parse_int (c ∷ cs) =
    if c == minus_sign
    then in_range_neg (unsigned cs)
    else if c == plus_sign
    then in_range_pos (unsigned cs)
    else in_range_pos (unsigned (c ∷ cs))

-- `s[:i]` and `s[i+1:]` at the first dot.
unfoldable pub before_dot : List ℕ → List ℕ
before_dot [] = []
before_dot (c ∷ cs) = let rest = before_dot cs in if c == dot then [] else c ∷ rest

unfoldable pub after_dot : List ℕ → List ℕ
after_dot [] = []
after_dot (c ∷ cs) = let rest = after_dot cs in if c == dot then cs else rest

abbrev pub zero_if_empty : List ℕ → List ℕ
zero_if_empty [] = 48 ∷ []
zero_if_empty (c ∷ cs) = c ∷ cs

-- The loop that fills up to two places.
abbrev pub filled : List ℕ → List ℕ
filled [] = 48 ∷ 48 ∷ []
filled (a ∷ []) = a ∷ 48 ∷ []
filled (a ∷ b ∷ cs) = a ∷ b ∷ cs

abbrev pub signed : Bool → Option ℤ → Option ℤ
signed neg none = none
signed neg (some n) = some (if neg then sub64 (pos 0) n else n)

unfoldable pub parse_amount : Bool → List ℕ → Option ℤ
parse_amount neg s =
    if ltb 2 (length (after_dot s))
    then none
    else signed neg (parse_int (zero_if_empty (before_dot s) ++ filled (after_dot s)))

abbrev pub parse_signed : List ℕ → Option ℤ
parse_signed [] = parse_amount false []
parse_signed (c ∷ cs) =
    if c == minus_sign then parse_amount true cs else parse_amount false (c ∷ cs)

unfoldable pub parse_cents : List ℕ → Option ℤ
parse_cents s = parse_signed (trim_right (trim_left s))
