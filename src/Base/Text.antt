-- ===== src/Base/Text.antt =====
-- Python's text operations that the code uses: `str(n)`, `t in s`, `s < t` and `sorted(set(xs))`.
use Prim.Native.Nat.{Ordering}
use Prim.Native.String.{◌++◌, slice, find, len, compare}
use text.Mathlib.TextPositions.{compare_refl, slice-append_left}
use contract_evidence_os.Prelude.{
  ℕ, zero, suc, ◌+◌, ◌/◌, ◌%◌, String, ◌≡◌, refl, sym, ap, ◌∙◌, ◌==◌, eq_iff, Bool-cases, inl, inr,
  Bool, true, false, ltb, leb, if◌then◌else◌, List, [], ◌∷◌, contains, sort_by,
}

abbrev digit : ℕ → String
digit d = slice "0123456789" d (d + 1)

-- The digits of a number, most significant first; the fuel bounds their count.
decimal_digits : ℕ → ℕ → String
decimal_digits zero n = ""
decimal_digits (suc fuel) n =
    let rest = decimal_digits fuel (n / 10) in if ltb n 10 then digit n else rest ++ digit (n % 10)

unfoldable pub decimal : ℕ → String
unfolding decimal_digits
decimal n = decimal_digits (suc n) n

decimal_runs : decimal 1204 ≡ "1204"
unfolding decimal decimal_digits
decimal_runs = refl

unfoldable pub occurs_in : String → String → Bool
occurs_in token s = leb (find s token) (len s)

occurs_in_runs : occurs_in "external" "publish externally" ≡ true
unfolding occurs_in
occurs_in_runs = refl

occurs_in_misses : occurs_in "delete" "publish" ≡ false
unfolding occurs_in
occurs_in_misses = refl

unfoldable pub text_lt : String → String → Bool
text_lt s t = elim (compare s t) [ Ordering.lt ↦ true | _ ↦ false ]

text_lt_irrefl : (s : String) → text_lt s s ≡ false
unfolding text_lt
text_lt_irrefl s = rw (compare_refl s, text_lt) refl

pub text_lt-ne : (s t : String) → text_lt s t ≡ true → (s == t) ≡ false
text_lt-ne s t h = elim (Bool-cases (s == t)) [
  | inl e ↦
      absurd (
        let same = (eq_iff s t).0 e in let irrefl = text_lt_irrefl t in let h' = rw same at h in cc)
  | inr f ↦ f
]

-- `sorted(set(xs))`
unfoldable pub sorted_set : List String → List String
sorted_set [] = []
sorted_set (x ∷ xs) =
    let rest = sorted_set xs in if contains x rest then rest else sort_by text_lt (x ∷ rest)

-- A text whose beginning another text does not have differs from it.
pub prefix_ne :
    (start rest word : String)
    → (slice word 0 (len start) == start) ≡ false
    → (start ++ rest == word) ≡ false
prefix_ne start rest word h = elim (Bool-cases (start ++ rest == word)) [
  | inl t ↦ absurd (
      let same = (eq_iff (start ++ rest) word).0 t in
      let begins = ap (λ z. slice z 0 (len start)) (sym same) ∙ slice-append_left start rest in
      let t' = (eq_iff (slice word 0 (len start)) start).1 begins in cc)
  | inr f ↦ f
]
