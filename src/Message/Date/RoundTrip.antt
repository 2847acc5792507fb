-- ===== src/Message/Date/RoundTrip.antt =====
-- A date that `ftn_datetime_to_string` of src/packet.c prints, read by `ftn_datetime_from_string`.
use lib_ftn.Common.{
  ℕ, zero, suc, ◌+◌, ◌-◌, ◌*◌, ◌/◌, ◌%◌, ◌^◌, ◌<◌, ◌≤◌, true, false, some, List, [], ◌∷◌, ◌++◌,
}
use lib_ftn.Common.{ltb, ◌==◌, str_eq, ◌≡◌, refl, sym, ap, ◌∙◌, arith, ◌⊎◌, inl, inr}
use lib_ftn.Common.Text.{
  is_digit, is_space, skip_space, read_digits, decimal, decimal_loop, c_string,
}
use lib_ftn.Common.Text.Words.{IsText, IsText-append}
use lib_ftn.Error.{ok}
use mathlib.Core.List.{append-nil}
use lib_ftn.Message.Date.{
  Tm, months, month_name, two_digits, datetime_to_string, scan_digits, scan_signed, scan_int,
  scan_chars, some_word, scan_word, scan_colon, find_month, full_year, made_time, scan_sec,
  scan_min, scan_hour, scan_year, scan_month, scan_day, datetime_from_string,
}

-- The time of a broken-down date of two-digit numbers, in a year from 1980 to 2079.
pub record IsDate (tm : Tm) : Type 0 where
  pub mday_fits : tm.mday < 100
  pub mon_fits : tm.mon < 12
  pub year_late : 80 ≤ tm.year
  pub year_fits : tm.year < 180
  pub hour_fits : tm.hour < 100
  pub min_fits : tm.min < 100
  pub sec_fits : tm.sec < 100

abbrev digits_of : ℕ → List ℕ
digits_of n = (48 + n / 10) ∷ ((48 + n % 10) ∷ [])

small_or_not : (n : ℕ) → (n < 10) ⊎ (10 ≤ n)
small_or_not n = omega arith

two_digits_lem : (n : ℕ) → n < 100 → two_digits n ≡ digits_of n
unfolding decimal decimal_loop
two_digits_lem zero h = refl
two_digits_lem (suc n) h = elim (small_or_not (suc n)) [
  | inl small ↦
      let one : ltb (suc n) 10 ≡ true = ground arith in
      let tens : suc n / 10 ≡ 0 = omega arith in
      let ones : suc n % 10 ≡ suc n = omega arith in rw (one, tens, ones) refl
  | inr large ↦
      let two : ltb (suc n) 10 ≡ false = ground arith in
      let last : ltb (suc n / 10) 10 ≡ true = ground arith in rw (two, last) refl
]

-- What stands behind a number does not start with a digit.
abbrev Stops : List ℕ → Type 0
Stops [] = Unit
Stops (c ∷ s) = is_digit c ≡ false

read_rest : (v : ℕ) (s : List ℕ) → Stops s → read_digits v s ≡ (v, s)
unfolding read_digits
read_rest v [] h = refl
read_rest v (c ∷ s) h = rw h refl

module _ (a b : ℕ) (ha : a < 10) (hb : b < 10) (s : List ℕ) (k : Stops s) where
  read_digits-two : read_digits 0 ((48 + a) ∷ ((48 + b) ∷ s)) ≡ (a * 10 + b, s)
  unfolding read_digits
  read_digits-two =
      let first : is_digit (48 + a) ≡ true = ground arith in
      let second : is_digit (48 + b) ≡ true = ground arith in
      let value : (0 * 10 + (48 + a - 48)) * 10 + (48 + b - 48) ≡ a * 10 + b = omega arith in
      rw (first, second, value) (read_rest (a * 10 + b) s k)

  scan_digits-two : scan_digits false ((48 + a) ∷ ((48 + b) ∷ s)) ≡ some (a * 10 + b, s)
  unfolding scan_digits
  scan_digits-two =
      let first : is_digit (48 + a) ≡ true = ground arith in
      let fits : (a * 10 + b) % 2 ^ 32 ≡ a * 10 + b = omega arith in
      rw (first, read_digits-two, fits) refl

  scan_int-two : scan_int ((48 + a) ∷ ((48 + b) ∷ s)) ≡ some (a * 10 + b, s)
  unfolding scan_int scan_signed skip_space
  scan_int-two =
      let solid : is_space (48 + a) ≡ false = ground arith in
      let minus : ((48 + a) == b'-') ≡ false = ground arith in
      let plus : ((48 + a) == b'+') ≡ false = ground arith in
      rw (solid, minus, plus) scan_digits-two

scan_int-two_digits :
    (n : ℕ) (s : List ℕ) → n < 100 → Stops s → scan_int (two_digits n ++ s) ≡ some (n, s)
scan_int-two_digits n s h k =
    let value : n / 10 * 10 + n % 10 ≡ n = omega arith in
    rw (two_digits_lem n h)
      (scan_int-two (n / 10) (n % 10) (omega arith) (omega arith) s k ∙ ap (λ v. some (v, s)) value)

month_lem :
    (mon : ℕ) (s : List ℕ)
    → mon < 12
    → (scan_word (32 ∷ (month_name months mon ++ (32 ∷ s))) ≡ some (month_name months mon, 32 ∷ s))
      × (find_month months (month_name months mon) ≡ mon)
unfolding scan_word scan_chars some_word skip_space find_month str_eq
month_lem zero s h = (refl, refl)
month_lem (suc zero) s h = (refl, refl)
month_lem (suc (suc zero)) s h = (refl, refl)
month_lem (suc (suc (suc zero))) s h = (refl, refl)
month_lem (suc (suc (suc (suc zero)))) s h = (refl, refl)
month_lem (suc (suc (suc (suc (suc zero))))) s h = (refl, refl)
month_lem (suc (suc (suc (suc (suc (suc zero)))))) s h = (refl, refl)
month_lem (suc (suc (suc (suc (suc (suc (suc zero))))))) s h = (refl, refl)
month_lem (suc (suc (suc (suc (suc (suc (suc (suc zero)))))))) s h = (refl, refl)
month_lem (suc (suc (suc (suc (suc (suc (suc (suc (suc zero))))))))) s h = (refl, refl)
month_lem (suc (suc (suc (suc (suc (suc (suc (suc (suc (suc zero)))))))))) s h = (refl, refl)
month_lem (suc (suc (suc (suc (suc (suc (suc (suc (suc (suc (suc zero))))))))))) s h = (refl, refl)
month_lem (suc (suc (suc (suc (suc (suc (suc (suc (suc (suc (suc (suc n)))))))))))) s h =
    absurd (omega arith)

full_year_lem : (y : ℕ) → 80 ≤ y → y < 180 → full_year (y % 100) ≡ y
full_year_lem y h k = ground arith

scan_int-blank : (s : List ℕ) → scan_int (32 ∷ s) ≡ scan_int s
unfolding scan_int skip_space
scan_int-blank s = refl

scan_colon-two_digits :
    (n : ℕ) (s : List ℕ) → n < 100 → Stops s → scan_colon (b':' ∷ (two_digits n ++ s)) ≡ some (n, s)
unfolding scan_colon
scan_colon-two_digits n s h k = scan_int-two_digits n s h k

-- A date of two-digit numbers, in a year from 1980 to 2079, is read back as the time it was printed
-- for, when `mktime` inverts `localtime` there and the time is not the one that stands for an error.
pub datetime_from_string-datetime_to_string :
    (localtime : ℕ → Tm) (mktime : Tm → ℕ) (t : ℕ)
    → IsDate (localtime t)
    → mktime (localtime t) ≡ t
    → t < 2 ^ 64 - 1
    → datetime_from_string mktime (datetime_to_string localtime t) ≡ (ok, some t)
unfolding datetime_from_string datetime_to_string scan_day scan_month scan_year scan_hour scan_min
    scan_sec made_time
datetime_from_string-datetime_to_string localtime mktime t d inverse fits =
    let tm = localtime t in
    let secs = b':' ∷ (two_digits tm.sec ++ []) in
    let mins = b':' ∷ (two_digits tm.min ++ secs) in
    let hours = 32 ∷ (32 ∷ (two_digits tm.hour ++ mins)) in
    let years = 32 ∷ (two_digits (tm.year % 100) ++ hours) in
    let (name, month) = month_lem tm.mon (two_digits (tm.year % 100) ++ hours) d.mon_fits in
    let small : ltb tm.mon 12 ≡ true = let fits = d.mon_fits in ground arith in
    let valid : (t == 2 ^ 64 - 1) ≡ false = ground arith in
    rw
      (
        sym (append-nil (two_digits tm.sec)),
        scan_int-two_digits tm.mday (32 ∷ (month_name months tm.mon ++ years)) d.mday_fits refl,
        name,
        month,
        scan_int-blank (two_digits (tm.year % 100) ++ hours),
        scan_int-two_digits (tm.year % 100) hours (omega arith) refl,
        scan_int-blank (32 ∷ (two_digits tm.hour ++ mins)),
        scan_int-blank (two_digits tm.hour ++ mins),
        scan_int-two_digits tm.hour mins d.hour_fits refl,
        scan_colon-two_digits tm.min secs d.min_fits refl,
        scan_colon-two_digits tm.sec [] d.sec_fits tt,
        small,
        full_year_lem tm.year d.year_late d.year_fits,
        inverse,
        valid,
      )
      refl

two_digits-IsText : (n : ℕ) → n < 100 → IsText (two_digits n)
two_digits-IsText n h = rw (two_digits_lem n h) (omega arith, (omega arith, tt))

month_name-IsText : (mon : ℕ) → mon < 12 → IsText (month_name months mon)
month_name-IsText zero h = ground arith
month_name-IsText (suc zero) h = ground arith
month_name-IsText (suc (suc zero)) h = ground arith
month_name-IsText (suc (suc (suc zero))) h = ground arith
month_name-IsText (suc (suc (suc (suc zero)))) h = ground arith
month_name-IsText (suc (suc (suc (suc (suc zero))))) h = ground arith
month_name-IsText (suc (suc (suc (suc (suc (suc zero)))))) h = ground arith
month_name-IsText (suc (suc (suc (suc (suc (suc (suc zero))))))) h = ground arith
month_name-IsText (suc (suc (suc (suc (suc (suc (suc (suc zero)))))))) h = ground arith
month_name-IsText (suc (suc (suc (suc (suc (suc (suc (suc (suc zero))))))))) h = ground arith
month_name-IsText (suc (suc (suc (suc (suc (suc (suc (suc (suc (suc zero)))))))))) h = ground arith
month_name-IsText (suc (suc (suc (suc (suc (suc (suc (suc (suc (suc (suc zero))))))))))) h =
    ground arith
month_name-IsText (suc (suc (suc (suc (suc (suc (suc (suc (suc (suc (suc (suc n)))))))))))) h =
    absurd (omega arith)

datetime_to_string-IsText :
    (localtime : ℕ → Tm) (t : ℕ) → IsDate (localtime t) → IsText (datetime_to_string localtime t)
unfolding datetime_to_string
datetime_to_string-IsText localtime t d =
    let tm = localtime t in
    let sec = two_digits-IsText tm.sec d.sec_fits in
    let min =
      IsText-append (two_digits tm.min) (b':' ∷ two_digits tm.sec)
        (two_digits-IsText tm.min d.min_fits) (omega arith, sec) in
    let hour =
      IsText-append (two_digits tm.hour) (b':' ∷ (two_digits tm.min ++ (b':' ∷ two_digits tm.sec)))
        (two_digits-IsText tm.hour d.hour_fits) (omega arith, min) in
    let rest =
      b' '
      ∷ (b' '
          ∷ (two_digits tm.hour ++ (b':' ∷ (two_digits tm.min ++ (b':' ∷ two_digits tm.sec))))) in
    let year =
      IsText-append (two_digits (tm.year % 100)) rest
        (two_digits-IsText (tm.year % 100) (omega arith)) (omega arith, (omega arith, hour)) in
    let month =
      IsText-append (month_name months tm.mon) (b' ' ∷ (two_digits (tm.year % 100) ++ rest))
        (month_name-IsText tm.mon d.mon_fits) (omega arith, year) in
    IsText-append (two_digits tm.mday)
      (b' ' ∷ (month_name months tm.mon ++ (b' ' ∷ (two_digits (tm.year % 100) ++ rest))))
      (two_digits-IsText tm.mday d.mday_fits) (omega arith, month)

c_string-zero : (s : List ℕ) → IsText s → c_string (s ++ (0 ∷ [])) ≡ s
unfolding c_string
c_string-zero [] h = refl
c_string-zero (c ∷ s) (p, h) =
    let solid : (c == 0) ≡ false = ground arith in rw (solid, c_string-zero s h) refl

-- The same for a date with the 0 behind it, as it stands in a packet.
pub datetime_from_string-c_string :
    (localtime : ℕ → Tm) (mktime : Tm → ℕ) (t : ℕ)
    → IsDate (localtime t)
    → mktime (localtime t) ≡ t
    → t < 2 ^ 64 - 1
    → datetime_from_string mktime (c_string (datetime_to_string localtime t ++ (0 ∷ [])))
      ≡ (ok, some t)
datetime_from_string-c_string localtime mktime t d inverse fits =
    rw (c_string-zero (datetime_to_string localtime t) (datetime_to_string-IsText localtime t d))
      (datetime_from_string-datetime_to_string localtime mktime t d inverse fits)
