-- ===== src/Common/Text/Trimming.antt =====
-- Texts in which no character passes a test, and what trimming leaves of them.
use dappy_core.Common.{ℕ, ◌≡◌, refl, Bool, true, false, [], ◌∷◌, ◌++◌, arith, nat_eq, string_eq}
use dappy_core.Common.Text.{Text, trim_end_by, trim, is_whitespace}
use dappy_core.Common.Text.Decimal.{is_digit, AllDigits, DigitFirst}
use dappy_core.Common.Text.Utf8.{AllAscii}

-- No character passes the test.
abbrev pub Fails : (ℕ → Bool) → Text → Type 0
Fails p [] = Unit
Fails p (c ∷ s) = (p c ≡ false) × Fails p s

pub Fails-append : (p : ℕ → Bool) (s t : Text) → Fails p s → Fails p t → Fails p (s ++ t)
Fails-append p [] t hs ht = ht
Fails-append p (c ∷ s) t hs ht = (hs.0, Fails-append p s t hs.1 ht)

pub AllAscii-append : (s t : Text) → AllAscii s → AllAscii t → AllAscii (s ++ t)
AllAscii-append [] t hs ht = ht
AllAscii-append (c ∷ s) t hs ht = (hs.0, AllAscii-append s t hs.1 ht)

pub AllDigits-Fails :
    (p : ℕ → Bool) (s : Text)
    → ((c : ℕ) → is_digit c ≡ true → p c ≡ false)
    → AllDigits s
    → Fails p s
AllDigits-Fails p [] h d = tt
AllDigits-Fails p (c ∷ s) h d = (h c d.0, AllDigits-Fails p s h d.1)

pub AllDigits-AllAscii : (s : Text) → AllDigits s → AllAscii s
AllDigits-AllAscii [] d = tt
AllDigits-AllAscii (c ∷ s) d = (ground arith, AllDigits-AllAscii s d.1)

pub trim_end_by-Fails : (p : ℕ → Bool) (s : Text) → Fails p s → trim_end_by p s ≡ s
trim_end_by-Fails p [] h = refl
trim_end_by-Fails p (c ∷ []) h = rw h.0 refl
trim_end_by-Fails p (c ∷ d ∷ s) h = rw (trim_end_by-Fails p (d ∷ s) h.1) refl

trim_end_by-both :
    (p : ℕ → Bool) (a b : ℕ) → p a ≡ true → p b ≡ true → trim_end_by p (a ∷ b ∷ []) ≡ []
trim_end_by-both p a b ha hb = ground arith

-- A character that fails the test stops the cut.
trim_end_by-keep :
    (p : ℕ → Bool) (c : ℕ) (s t : Text)
    → p c ≡ false
    → trim_end_by p s ≡ t
    → trim_end_by p (c ∷ s) ≡ c ∷ t
trim_end_by-keep p c s [] h e = rw (e, trim_end_by) (rw h refl)
trim_end_by-keep p c s (d ∷ t) h e = rw (e, trim_end_by) refl

-- Two characters at the end that pass the test are cut off.
pub trim_end_by-two :
    (p : ℕ → Bool) (s : Text) (a b : ℕ)
    → Fails p s
    → p a ≡ true
    → p b ≡ true
    → trim_end_by p (s ++ a ∷ b ∷ []) ≡ s
trim_end_by-two p [] a b h ha hb = trim_end_by-both p a b ha hb
trim_end_by-two p (c ∷ s) a b h ha hb =
    trim_end_by-keep p c (s ++ a ∷ b ∷ []) s h.0 (trim_end_by-two p s a b h.1 ha hb)

-- A space in front of digits goes.
pub trim-digits : (s : Text) → DigitFirst s → AllDigits s → trim (32 ∷ s) ≡ s
trim-digits [] h d = refl
trim-digits (c ∷ s) h d =
    let keep : is_whitespace c ≡ false = ground arith in
    ground (
      arith,
      trim_end_by-Fails is_whitespace (c ∷ s)
          (AllDigits-Fails is_whitespace (c ∷ s) (λ x e. ground arith) d),
    )
