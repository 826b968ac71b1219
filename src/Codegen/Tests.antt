-- ===== src/Codegen/Tests.antt =====
-- Names of methods and classes, in ASCII.
use gemstone_py.Prelude.{
  ℕ, ◌+◌, ◌-◌, ◌≡◌, refl, Bool, false, ◌&&◌, [], ◌∷◌, nat_eq, ◌==◌, arith, leb, length, All,
  if◌then◌else◌,
}
use gemstone_py.Prelude.Exec.{ok, err}
use gemstone_py.Prelude.Texts.{Text, codes, split, join}
use gemstone_py.Prelude.Texts.Splits.{Lacks}
use gemstone_py.Prelude.Texts.Equality.{text_eq}
use gemstone_py.Codegen.{
  Letters, underscore, colon, marked, unmarked, wrong_arity, selector_for_callable, to_snake,
  wrapper_class_name,
}
use gemstone_py.Codegen.Arity.{Fits, selector_for_callable-Fits}
use gemstone_py.Codegen.Apart.{FirstWord, LaterWord, selectors_apart}

abbrev small : ℕ → Bool
small c = leb b'a' c && leb c b'z'

abbrev capital : ℕ → Bool
capital c = leb b'A' c && leb c b'Z'

abbrev ascii : Letters
ascii = record {
  upper = λ c. (if small c then c - 32 else c) ∷ [];
  lower = λ c. (if capital c then c + 32 else c) ∷ [];
  is_upper = capital;
  is_lower = small;
  is_digit = λ c. leb b'0' c && leb c b'9';
}

transfer_to :
    selector_for_callable ascii
      (codes "transfer_to")
      (codes "user_id" ∷ codes "by_user_id" ∷ [])
      unmarked
    ≡ ok (codes "transferTo:byUserId:")
unfolding selector_for_callable split nat_eq
transfer_to = refl

wrong_mark :
    selector_for_callable ascii (codes "at") (codes "key" ∷ []) (marked (codes "at"))
    ≡ err (wrong_arity 0 1)
unfolding selector_for_callable nat_eq
wrong_mark = refl

class_name : wrapper_class_name (codes "AccountProto") ≡ codes "Account"
unfolding wrapper_class_name text_eq
class_name = refl

module_name : to_snake ascii (codes "BankAccount") ≡ codes "bank_account"
unfolding to_snake
module_name = refl

-- Two classes with one module.
one_module : to_snake ascii (codes "URLMap") ≡ to_snake ascii (codes "Urlmap")
unfolding to_snake
one_module = refl

upper-Lacks : (c : ℕ) → (c == colon) ≡ false → Lacks colon (ascii.upper c)
upper-Lacks c h = (ground arith, tt)

selector_for_callable-Fits_example :
    Fits
      (codes "key" ∷ [])
      unmarked
      (selector_for_callable ascii (codes "at") (codes "key" ∷ []) unmarked)
unfolding nat_eq
selector_for_callable-Fits_example =
    selector_for_callable-Fits ascii upper-Lacks (codes "at") (codes "key" ∷ []) unmarked
      (refl, (refl, tt)) ((refl, (refl, (refl, tt))), tt)

abbrev put_at : Text
put_at = join underscore (codes "put" ∷ codes "at" ∷ [])

put : FirstWord ascii (codes "put")
unfolding nat_eq
put = ((refl, refl, refl), ((refl, refl, refl), ((refl, refl, refl), tt)))

at : All (LaterWord ascii) (codes "at" ∷ [])
unfolding nat_eq
at = (((b'A', refl, refl, refl), ((refl, refl, refl), ((refl, refl, refl), tt))), tt)

selectors_apart_example : (put_at ≡ put_at) × (length (codes "key" ∷ []) ≡ length (codes "n" ∷ []))
unfolding nat_eq selector_for_callable split
selectors_apart_example =
    selectors_apart ascii upper-Lacks (codes "put") (codes "put") (codes "at" ∷ [])
      (codes "at" ∷ []) (codes "key" ∷ []) (codes "n" ∷ []) put at put at
      ((refl, (refl, (refl, tt))), tt) ((refl, tt), tt) refl
