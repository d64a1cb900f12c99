-- ===== src/Updater/Parse.antt =====
-- Which numbers are read out of a text.
use appcenter_agent.Common.{
  ℕ, suc, ◌≡◌, refl, ap, true, false, List, [], ◌∷◌, ◌++◌, nat_eq, int_eq, string_eq, All,
}
use appcenter_agent.Updater.Version.{
  is_digit, digits, after_digits, from_digit, starts_with_digit, more_parts, semver_parts, atoi,
  semver_of, extract_semver3,
}

abbrev pub AllDigits : List ℕ → Type 0
AllDigits s = All (λ c. is_digit c ≡ true) s

abbrev pub NoDigit : List ℕ → Type 0
NoDigit s = All (λ c. is_digit c ≡ false) s

digits-append :
    (ds rest : List ℕ) → AllDigits ds → starts_with_digit rest ≡ false → digits (ds ++ rest) ≡ ds
digits-append [] [] h stop = refl
digits-append [] (c ∷ rest) h stop = simp stop
digits-append (d ∷ ds) rest h stop = rw h.0 (ap (λ t. d ∷ t) (digits-append ds rest h.1 stop))

after_digits-append :
    (ds rest : List ℕ)
    → AllDigits ds
    → starts_with_digit rest ≡ false
    → after_digits (ds ++ rest) ≡ rest
after_digits-append [] [] h stop = refl
after_digits-append [] (c ∷ rest) h stop = simp stop
after_digits-append (d ∷ ds) rest h stop = rw h.0 (after_digits-append ds rest h.1 stop)

from_digit-append :
    (junk s : List ℕ) → NoDigit junk → starts_with_digit s ≡ true → from_digit (junk ++ s) ≡ s
from_digit-append [] [] h go = refl
from_digit-append [] (c ∷ s) h go = simp go
from_digit-append (j ∷ junk) s h go = rw h.0 (from_digit-append junk s h.1 go)

digits-start :
    (d : ℕ) (ds rest : List ℕ) → AllDigits (d ∷ ds) → starts_with_digit ((d ∷ ds) ++ rest) ≡ true
digits-start d ds rest h = h.0

-- a run of digits behind a dot
more_step :
    (n : ℕ) (b : ℕ) (bs rest : List ℕ)
    → AllDigits (b ∷ bs)
    → starts_with_digit rest ≡ false
    → more_parts (suc n) (46 ∷ ((b ∷ bs) ++ rest)) ≡ (b ∷ bs) ∷ more_parts n rest
more_step n b bs rest h stop =
    rw (h.0, digits-append bs rest h.1 stop, after_digits-append bs rest h.1 stop) refl

first_step :
    (junk : List ℕ) (a : ℕ) (ms rest : List ℕ)
    → NoDigit junk
    → AllDigits (a ∷ ms)
    → starts_with_digit rest ≡ false
    → semver_parts (junk ++ ((a ∷ ms) ++ rest)) ≡ (a ∷ ms) ∷ more_parts 2 rest
first_step junk a ms rest nojunk h stop =
    rw
      (
        from_digit-append junk ((a ∷ ms) ++ rest) nojunk h.0,
        h.0,
        digits-append ms rest h.1 stop,
        after_digits-append ms rest h.1 stop,
      )
      refl

-- Three runs of digits parted by dots, behind no digits and before nothing or no digit, are read
-- as these three numbers, if each is below 2^63, and as no version otherwise.
pub extract_lem :
    (junk : List ℕ) (a : ℕ) (as_ : List ℕ) (b : ℕ) (bs : List ℕ) (c : ℕ) (cs rest : List ℕ)
    → NoDigit junk
    → AllDigits (a ∷ as_)
    → AllDigits (b ∷ bs)
    → AllDigits (c ∷ cs)
    → starts_with_digit rest ≡ false
    → extract_semver3 (junk ++ ((a ∷ as_) ++ (46 ∷ ((b ∷ bs) ++ (46 ∷ ((c ∷ cs) ++ rest))))))
      ≡ semver_of (atoi (a ∷ as_)) (atoi (b ∷ bs)) (atoi (c ∷ cs))
unfolding extract_semver3
extract_lem junk a as_ b bs c cs rest nojunk ha hb hc stop =
    rw
      (
        first_step junk a as_ (46 ∷ ((b ∷ bs) ++ (46 ∷ ((c ∷ cs) ++ rest)))) nojunk ha refl,
        more_step 1 b bs (46 ∷ ((c ∷ cs) ++ rest)) hb refl,
        more_step 0 c cs rest hc stop,
      )
      refl
