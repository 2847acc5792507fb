-- ===== src/Message/Date.antt =====
-- Dates of messages: `ftn_datetime_to_string` and `ftn_datetime_from_string` of src/packet.c.
-- `localtime` and `mktime`, which know the time zone, are parameters. A number of type `int` that
-- `sscanf` reads is a word of 32 bits, one of type `time_t` a word of 64 bits.
pub mod RoundTrip
use lib_ftn.Common.{
  ℕ, zero, suc, ◌+◌, ◌-◌, ◌%◌, ◌^◌, Bool, true, false, Option, none, some, List, [], ◌∷◌, ◌++◌,
}
use lib_ftn.Common.{if◌then◌else◌, ltb, ◌==◌, str_eq, codes}
use lib_ftn.Common.Text.{is_digit, is_space, skip_space, read_digits, decimal}
use lib_ftn.Error.{FtnError, ok, invalid_format}

-- The fields of `struct tm` that are read or set; `tm_isdst` is -1 where `mktime` is called.
pub record Tm : Type 0 where
  pub mday : ℕ
  pub mon : ℕ
  pub year : ℕ
  pub hour : ℕ
  pub min : ℕ
  pub sec : ℕ

abbrev pub months : List (List ℕ)
months =
    codes "Jan"
    ∷ (codes "Feb"
        ∷ (codes "Mar"
            ∷ (codes "Apr"
                ∷ (codes "May"
                    ∷ (codes "Jun"
                        ∷ (codes "Jul"
                            ∷ (codes "Aug"
                                ∷ (codes "Sep"
                                    ∷ (codes "Oct" ∷ (codes "Nov" ∷ (codes "Dec" ∷ [])))))))))))

-- `months[i]`, for a month of the year.
abbrev pub month_name : List (List ℕ) → ℕ → List ℕ
month_name [] i = []
month_name (name ∷ names) zero = name
month_name (name ∷ names) (suc i) = month_name names i

-- `%02d`, of what is not negative.
abbrev pub two_digits : ℕ → List ℕ
two_digits n = if ltb n 10 then b'0' ∷ decimal n else decimal n

-- `ftn_datetime_to_string` into a buffer of 21 bytes.
unfoldable pub datetime_to_string : (ℕ → Tm) → ℕ → List ℕ
datetime_to_string localtime timestamp =
    let tm = localtime timestamp in
    two_digits tm.mday
    ++ (b' '
        ∷ (month_name months tm.mon
            ++ (b' '
                ∷ (two_digits (tm.year % 100)
                    ++ (b' '
                        ∷ (b' '
                            ∷ (two_digits tm.hour
                                ++ (b':' ∷ (two_digits tm.min ++ (b':' ∷ two_digits tm.sec))))))))))

-- The digits of a number, with a sign or without, as a word of 32 bits.
scan_digits : Bool → List ℕ → Option (ℕ × List ℕ)
scan_digits negative [] = none
scan_digits negative (c ∷ s) =
    let number = read_digits 0 (c ∷ s) in
    if is_digit c
    then some
        (if negative then (2 ^ 32 - number.0 % 2 ^ 32) % 2 ^ 32 else number.0 % 2 ^ 32, number.1)
    else none

scan_signed : List ℕ → Option (ℕ × List ℕ)
unfolding scan_digits
scan_signed [] = none
scan_signed (c ∷ s) =
    if c == b'-'
    then scan_digits true s
    else if c == b'+'
    then scan_digits false s
    else scan_digits false (c ∷ s)

-- `%d` of `sscanf`, with white space in front.
unfoldable pub scan_int : List ℕ → Option (ℕ × List ℕ)
unfolding scan_signed
scan_int s = scan_signed (skip_space s)

-- The characters of a word, at most so many.
scan_chars : ℕ → List ℕ → List ℕ × List ℕ
scan_chars zero s = ([], s)
scan_chars (suc room) [] = ([], [])
scan_chars (suc room) (c ∷ s) =
    let more = scan_chars room s in if is_space c then ([], c ∷ s) else (c ∷ more.0, more.1)

some_word : List ℕ × List ℕ → Option (List ℕ × List ℕ)
some_word ([], s) = none
some_word (c ∷ word, s) = some (c ∷ word, s)

-- `%3s` of `sscanf`.
unfoldable pub scan_word : List ℕ → Option (List ℕ × List ℕ)
unfolding scan_chars some_word
scan_word s = some_word (scan_chars 3 (skip_space s))

-- `:` in the format of `sscanf`, and a number behind it.
unfoldable pub scan_colon : List ℕ → Option (ℕ × List ℕ)
scan_colon [] = none
scan_colon (c ∷ s) = if c == b':' then scan_int s else none

-- The index of the month, 12 when it has no such name.
unfoldable pub find_month : List (List ℕ) → List ℕ → ℕ
find_month [] name = 0
find_month (m ∷ names) name =
    let later = find_month names name in if str_eq name m then 0 else suc later

-- `(year < 80) ? year + 100 : year`
abbrev pub full_year : ℕ → ℕ
full_year y = if ltb ((y + 2 ^ 31) % 2 ^ 32) (2 ^ 31 + 80) then (y + 100) % 2 ^ 32 else y

made_time : (Tm → ℕ) → Tm → FtnError × Option ℕ
made_time mktime tm =
    let time = mktime tm in (if time == 2 ^ 64 - 1 then invalid_format else ok, some time)

-- The six conversions of `sscanf` one after the other; each step has the numbers before it.
scan_sec : (Tm → ℕ) → ℕ → ℕ → ℕ → ℕ → ℕ → Option (ℕ × List ℕ) → FtnError × Option ℕ
unfolding made_time
scan_sec mktime day month year hour min none = (invalid_format, none)
scan_sec mktime day month year hour min (some (sec, s)) =
    if ltb month 12
    then made_time mktime (record {
      mday = day;
      mon = month;
      year = full_year year;
      hour = hour;
      min = min;
      sec = sec;
    })
    else (invalid_format, none)

scan_min : (Tm → ℕ) → ℕ → ℕ → ℕ → ℕ → Option (ℕ × List ℕ) → FtnError × Option ℕ
unfolding scan_sec
scan_min mktime day month year hour none = (invalid_format, none)
scan_min mktime day month year hour (some (min, s)) =
    scan_sec mktime day month year hour min (scan_colon s)

scan_hour : (Tm → ℕ) → ℕ → ℕ → ℕ → Option (ℕ × List ℕ) → FtnError × Option ℕ
unfolding scan_min
scan_hour mktime day month year none = (invalid_format, none)
scan_hour mktime day month year (some (hour, s)) =
    scan_min mktime day month year hour (scan_colon s)

scan_year : (Tm → ℕ) → ℕ → ℕ → Option (ℕ × List ℕ) → FtnError × Option ℕ
unfolding scan_hour
scan_year mktime day month none = (invalid_format, none)
scan_year mktime day month (some (year, s)) = scan_hour mktime day month year (scan_int s)

scan_month : (Tm → ℕ) → ℕ → Option (List ℕ × List ℕ) → FtnError × Option ℕ
unfolding scan_year find_month
scan_month mktime day none = (invalid_format, none)
scan_month mktime day (some (name, s)) = scan_year mktime day (find_month months name) (scan_int s)

scan_day : (Tm → ℕ) → Option (ℕ × List ℕ) → FtnError × Option ℕ
unfolding scan_month
scan_day mktime none = (invalid_format, none)
scan_day mktime (some (day, s)) = scan_month mktime day (scan_word s)

-- `ftn_datetime_from_string`: the code, and what it stores in `timestamp`, if it does.
unfoldable pub datetime_from_string : (Tm → ℕ) → List ℕ → FtnError × Option ℕ
unfolding scan_day
datetime_from_string mktime s = scan_day mktime (scan_int s)
