-- ===== src/Base/Text.antt =====
-- Go's `strings` functions over texts that are lists of Unicode scalar values. Texts that come out
-- of a JSON or YAML decoder are such lists: the decoders replace or refuse invalid UTF-8.
use Prim.Native.Nat.{ℕ, zero, suc, ◌+◌, ◌-◌, ◌*◌, ◌/◌, ◌%◌}
use mathlib.Core.Option.{Option, none, some}
use cpa_plugins.Base.Int.{ℤ, pos, negsuc}
use Prim.Native.Char.{Char, code}
use Prim.Native.String
use Prim.Native.String.{String}
use mathlib.Core.Bool.{Bool, true, false, ◌&&◌, ◌||◌}
use mathlib.Core.List.{List, [], ◌∷◌}
use text.Mathlib.Text.{◌==◌ as ◌=ₛ◌}
use cpa_plugins.Base.Tests.{ltb, leb, ◌==◌, if◌then◌else◌}

infixr 65 ◌++ₛ◌
abbrev pub ◌++ₛ◌ : String → String → String
s ++ₛ t = String.◌++◌ s t

-- unicode.IsSpace
unfoldable pub is_space : ℕ → Bool
is_space c =
    (leb 9 c && leb c 13)
    || c == 32
    || c == 0x85
    || c == 0xA0
    || c == 0x1680
    || (leb 0x2000 c && leb c 0x200A)
    || c == 0x2028
    || c == 0x2029
    || c == 0x202F
    || c == 0x205F
    || c == 0x3000

trim_left : String → String
unfolding is_space
trim_left String.[] = ""
trim_left (String.◌∷◌ c s) = if is_space (code c) then trim_left s else String.◌∷◌ c s

trim_right : String → String
unfolding is_space
trim_right String.[] = ""
trim_right (String.◌∷◌ c s) =
    let rest = trim_right s in if is_space (code c) && rest =ₛ "" then "" else String.◌∷◌ c rest

-- strings.TrimSpace
unfoldable pub trim_space : String → String
unfolding trim_left trim_right
trim_space s = trim_right (trim_left s)

-- unicode.ToLower, as far as an ASCII result goes: the Kelvin sign and the dotted capital I are the
-- only letters beyond ASCII with an ASCII lower case; other letters stay letters beyond ASCII.
abbrev lower_code : ℕ → ℕ
lower_code c =
    if leb 65 c && leb c 90
    then c + 32
    else if c == 0x212A
    then 107
    else if c == 0x130
    then 105
    else c

-- strings.ToLower(s) == t, for an ASCII text t.
unfoldable pub lower_is : String → String → Bool
lower_is String.[] String.[] = true
lower_is String.[] (String.◌∷◌ d t) = false
lower_is (String.◌∷◌ c s) String.[] = false
lower_is (String.◌∷◌ c s) (String.◌∷◌ d t) = lower_code (code c) == code d && lower_is s t

-- strings.HasPrefix(strings.ToLower(s), t), for an ASCII text t.
unfoldable pub lower_starts : String → String → Bool
lower_starts s String.[] = true
lower_starts String.[] (String.◌∷◌ d t) = false
lower_starts (String.◌∷◌ c s) (String.◌∷◌ d t) = lower_code (code c) == code d && lower_starts s t

-- strings.Join
unfoldable pub join : String → List String → String
join sep [] = ""
join sep (s ∷ []) = s
join sep (s ∷ t ∷ ts) = s ++ₛ sep ++ₛ join sep (t ∷ ts)

-- The ASCII letter that a character folds to: the Kelvin sign folds to k and the long s to s.
abbrev fold_code : ℕ → ℕ
fold_code c =
    if leb 65 c && leb c 90
    then c + 32
    else if c == 0x212A
    then 107
    else if c == 0x17F
    then 115
    else c

-- strings.EqualFold(s, t), for an ASCII text t.
unfoldable pub equal_fold : String → String → Bool
equal_fold String.[] String.[] = true
equal_fold String.[] (String.◌∷◌ d t) = false
equal_fold (String.◌∷◌ c s) String.[] = false
equal_fold (String.◌∷◌ c s) (String.◌∷◌ d t) =
    fold_code (code c) == fold_code (code d) && equal_fold s t

digit : ℕ → Char
digit zero = "0"
digit (suc zero) = "1"
digit (suc (suc zero)) = "2"
digit (suc (suc (suc zero))) = "3"
digit (suc (suc (suc (suc zero)))) = "4"
digit (suc (suc (suc (suc (suc zero))))) = "5"
digit (suc (suc (suc (suc (suc (suc zero)))))) = "6"
digit (suc (suc (suc (suc (suc (suc (suc zero))))))) = "7"
digit (suc (suc (suc (suc (suc (suc (suc (suc zero)))))))) = "8"
digit _ = "9"

-- The digits of n in front of a text. A number has at most as many digits as its value plus one.
decimal_from : ℕ → ℕ → String → String
decimal_from zero n acc = acc
decimal_from (suc fuel) n acc =
    let more = decimal_from fuel (n / 10) (String.◌∷◌ (digit (n % 10)) acc) in
    if ltb n 10 then String.◌∷◌ (digit n) acc else more

-- fmt's %d.
unfoldable pub decimal : ℕ → String
unfolding decimal_from digit
decimal n = decimal_from (suc n) n ""

-- fmt's %d of a signed number.
unfoldable pub decimal_ℤ : ℤ → String
unfolding decimal
decimal_ℤ (pos n) = decimal n
decimal_ℤ (negsuc n) = "-" ++ₛ decimal (n + 1)

-- strings.HasPrefix, by the characters.
unfoldable pub has_prefix : String → String → Bool
has_prefix s String.[] = true
has_prefix String.[] (String.◌∷◌ d t) = false
has_prefix (String.◌∷◌ c s) (String.◌∷◌ d t) = code c == code d && has_prefix s t

-- strings.HasSuffix
unfoldable pub has_suffix : String → String → Bool
has_suffix String.[] t = t =ₛ ""
has_suffix (String.◌∷◌ c s) t = String.◌∷◌ c s =ₛ t || has_suffix s t

-- strings.TrimRight(s, "/")
unfoldable pub trim_slashes : String → String
trim_slashes String.[] = ""
trim_slashes (String.◌∷◌ c s) =
    let rest = trim_slashes s in if code c == 47 && rest =ₛ "" then "" else String.◌∷◌ c rest

-- A Go map with string keys, read with its zero value for a missing key.
abbrev pub update {ℓ} : {V : Type ℓ} → (String → V) → String → V → String → V
update m k v j = if k =ₛ j then v else m j

-- Headers: a map from names to value lists, as the pairs that it holds, one for each name.
abbrev pub Headers : Type 0
Headers = List (String × List String)

unfoldable pub put_header : String → List String → Headers → Headers
put_header k v [] = (k, v) ∷ []
put_header k v ((j, w) ∷ m) = if j =ₛ k then (k, v) ∷ m else (j, w) ∷ put_header k v m

-- The value of a run of decimal digits behind an accumulator.
digits_value : ℕ → String → Option ℕ
digits_value acc String.[] = some acc
digits_value acc (String.◌∷◌ c s) =
    let rest = digits_value (acc * 10 + (code c - 48)) s in
    if leb 48 (code c) && leb (code c) 57 then rest else none

digits_number : String → Option ℕ
unfolding digits_value
digits_number s = if s =ₛ "" then none else digits_value 0 s

abbrev in_range_pos : Option ℕ → Option ℤ
in_range_pos none = none
in_range_pos (some n) = if ltb n 9223372036854775808 then some (pos n) else none

abbrev in_range_neg : Option ℕ → Option ℤ
in_range_neg none = none
in_range_neg (some zero) = some (pos 0)
in_range_neg (some (suc n)) = if ltb n 9223372036854775808 then some (negsuc n) else none

-- strconv.Atoi on a 64-bit platform: `none` for its errors, a syntax error or a value out of range.
unfoldable pub atoi : String → Option ℤ
unfolding digits_number
atoi String.[] = none
atoi (String.◌∷◌ c s) =
    if code c == 45
    then in_range_neg (digits_number s)
    else if code c == 43
    then in_range_pos (digits_number s)
    else in_range_pos (digits_number (String.◌∷◌ c s))

-- The text without its first n characters.
unfoldable pub drop_chars : ℕ → String → String
drop_chars zero s = s
drop_chars (suc n) String.[] = ""
drop_chars (suc n) (String.◌∷◌ c s) = drop_chars n s

-- The text before and from the first character with this code, if there is one (strings.IndexByte at
-- an ASCII character).
unfoldable pub split_at_code : ℕ → String → Option (String × String)
split_at_code k String.[] = none
split_at_code k (String.◌∷◌ c s) =
    let rest = split_at_code k s in
    if code c == k
    then some ("", String.◌∷◌ c s)
    else elim rest [ none ↦ none | some (before, after) ↦ some (String.◌∷◌ c before, after) ]

abbrev clamp_pos : Option ℕ → ℤ
clamp_pos none = pos 0
clamp_pos (some n) = if ltb n 9223372036854775808 then pos n else pos 9223372036854775807

abbrev clamp_neg : Option ℕ → ℤ
clamp_neg none = pos 0
clamp_neg (some zero) = pos 0
clamp_neg (some (suc n)) =
    if ltb n 9223372036854775808 then negsuc n else negsuc 9223372036854775807

-- The value that strconv.Atoi gives beside its error: 0 for a syntax error, the nearest int64 for a
-- value out of range.
unfoldable pub atoi_value : String → ℤ
unfolding digits_number
atoi_value String.[] = pos 0
atoi_value (String.◌∷◌ c s) =
    if code c == 45
    then clamp_neg (digits_number s)
    else if code c == 43
    then clamp_pos (digits_number s)
    else clamp_pos (digits_number (String.◌∷◌ c s))

-- Membership in a set of texts, kept as a list.
unfoldable pub is_in : String → List String → Bool
is_in name [] = false
is_in name (n ∷ names) = n =ₛ name || is_in name names
