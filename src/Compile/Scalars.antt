-- ===== src/Compile/Scalars.antt =====
-- The scalars of src/compile/lower.rs: durations and times of day. A text is the bytes of its UTF-8.
use domiform.Base.{
  ℕ, zero, suc, ◌*◌, ◌^◌, Bool, true, not, ◌&&◌, ◌||◌, Option, none, some, [], ◌∷◌, ◌>>=◌,
  if◌then◌else◌, ◌<◌, ◌≡◌, arith, >>=-eq-some, nat_beq, leb, ltb, ◌==◌,
}
use domiform.Base.Text.{Text, bytes, value, text_eq}
use domiform.Model.Capability.{Millis}

-- How many bytes the white space at the front of a text has, less one.
abbrev pub white_space : Text → Option ℕ
white_space [] = none
white_space (a ∷ []) = if nat_beq a 32 || leb 9 a && leb a 13 then some 0 else none
white_space (a ∷ b ∷ []) =
    if nat_beq a 32 || leb 9 a && leb a 13
    then some 0
    else if nat_beq a 194 && (nat_beq b 133 || nat_beq b 160)
    then some 1
    else none
white_space (a ∷ b ∷ c ∷ s) =
    if nat_beq a 32 || leb 9 a && leb a 13
    then some 0
    else if nat_beq a 194 && (nat_beq b 133 || nat_beq b 160)
    then some 1
    else if nat_beq a 225 && nat_beq b 154 && nat_beq c 128
        || nat_beq a 226
          && nat_beq b 128
          && (leb 128 c && leb c 138 || nat_beq c 168 || nat_beq c 169 || nat_beq c 175)
        || nat_beq a 226 && nat_beq b 129 && nat_beq c 159
        || nat_beq a 227 && nat_beq b 128 && nat_beq c 128
    then some 2
    else none

-- `str::trim_start`, after the given bytes of the character at hand.
unfoldable pub trim_start : ℕ → Text → Text
trim_start k [] = []
trim_start (suc k) (c ∷ s) = trim_start k s
trim_start zero (c ∷ s) = elim (white_space (c ∷ s)) [ none ↦ c ∷ s | some k ↦ trim_start k s ]

-- `str::trim_end`: no character's later bytes start white space.
unfoldable pub trim_end : Text → Text
trim_end [] = []
trim_end (c ∷ s) =
    let rest = trim_end s in elim (trim_start 0 (c ∷ s)) [ [] ↦ [] | d ∷ t ↦ c ∷ rest ]

abbrev pub trim : Text → Text
trim s = trim_end (trim_start 0 s)

-- `str::split_once` at a character of one byte.
unfoldable pub split_once : ℕ → Text → Option (Text × Text)
split_once sep [] = none
split_once sep (c ∷ s) =
    let rest = split_once sep s in
    if nat_beq c sep then some ([], s) else rest >>= λ (before, after). some (c ∷ before, after)

abbrev pub is_ascii_alphabetic : ℕ → Bool
is_ascii_alphabetic c = leb 65 c && leb c 90 || leb 97 c && leb c 122

-- `find` of the first letter with `split_at`.
unfoldable pub split_letters : Text → Option (Text × Text)
split_letters [] = none
split_letters (c ∷ s) =
    let rest = split_letters s in
    if is_ascii_alphabetic c
    then some ([], c ∷ s)
    else rest >>= λ (before, after). some (c ∷ before, after)

abbrev pub is_digits : Text → Bool
is_digits [] = true
is_digits (c ∷ s) = leb 48 c && leb c 57 && is_digits s

abbrev pub strip_plus : Text → Text
strip_plus [] = []
strip_plus (c ∷ s) = if nat_beq c 43 then s else c ∷ s

-- `str::parse` of an unsigned integer with `bound` values: digits after an optional plus sign.
unfoldable pub parse_unsigned : ℕ → Text → Option ℕ
unfolding value
parse_unsigned bound s =
    let ds = strip_plus s in
    if not (ds == []) && is_digits ds && ltb (value ds) bound then some (value ds) else none

abbrev pub checked_mul : ℕ → ℕ → Option ℕ
checked_mul m n = if ltb (n * m) (2 ^ 64) then some (n * m) else none

abbrev pub unit_of : Text → Option ℕ
unit_of unit =
    if unit == bytes "ms"
    then some 1
    else if unit == bytes "s"
    then some 1000
    else if unit == bytes "m"
    then some 60000
    else if unit == bytes "h"
    then some 3600000
    else none

-- What `parse_duration` accepts.
unfoldable pub duration_of : Text → Option Millis
duration_of s = split_letters (trim s) >>= λ (num, unit).
    parse_unsigned (2 ^ 64) (trim num) >>= λ n. unit_of unit >>= λ mult. checked_mul mult n

-- What `parse_time` and `desugar_time` accept: the hour and the minute.
unfoldable pub hour_minute : Text → Option (ℕ × ℕ)
hour_minute s = split_once 58 (trim s) >>= λ (h, m). parse_unsigned (2 ^ 16) (trim h) >>= λ h'.
    parse_unsigned (2 ^ 16) (trim m) >>= λ m'.
    if ltb h' 24 && ltb m' 60 then some (h', m') else none

-- A duration fits the type `Millis`.
pub duration_of-lt : (s : Text) (ms : Millis) → duration_of s ≡ some ms → ms < 2 ^ 64
unfolding duration_of
duration_of-lt s ms h =
    let ((num, unit), found, h1) = >>=-eq-some (split_letters (trim s)) _ h in
    let (n, parsed, h2) = >>=-eq-some (parse_unsigned (2 ^ 64) (trim num)) _ h1 in
    let (mult, known, h3) = >>=-eq-some (unit_of unit) _ h2 in ground (arith, h3)

-- A time of day is one of the 1440 minutes.
pub hour_minute-lt : (s : Text) (h m : ℕ) → hour_minute s ≡ some (h, m) → (h < 24) × (m < 60)
unfolding hour_minute
hour_minute-lt s h m eq =
    let ((before, after), found, h1) = >>=-eq-some (split_once 58 (trim s)) _ eq in
    let (x, hx, h2) = >>=-eq-some (parse_unsigned (2 ^ 16) (trim before)) _ h1 in
    let (z, hz, h3) = >>=-eq-some (parse_unsigned (2 ^ 16) (trim after)) _ h2 in ground (arith, h3)
