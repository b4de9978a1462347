-- ===== src/Log/Types/Parameters.antt =====
-- The parameters of a modelled message.
use adaptive_pi.Prelude.{
  ℕ, zero, suc, ◌≡◌, ◌↔◌, refl, sym, ◌∙◌, true, ◌&&◌, List, [], ◌∷◌, ◌==◌, if◌then◌else◌, arith,
}
use mathlib.Core.Path.{subst, ap₂}
use adaptive_pi.Log.Types.{
  TypeName, Qualified, normalize_tuple, same_types, parameter_match, is_same, type_kind, type_index,
  char_array, other_scalar, other_type, bool_type, char_type, signed_char, unsigned_char,
  short_type, unsigned_short, int_type, unsigned_int, long_type, unsigned_long, long_long,
  unsigned_long_long, wchar_type, char16_type, char32_type, float_type, double_type, long_double,
  string_type, string_view_type, char_pointer, const_char_pointer,
}

-- The type of a kind and an index.
abbrev kinds : List TypeName
kinds =
    bool_type ∷ char_type ∷ signed_char ∷ unsigned_char ∷ short_type ∷ unsigned_short ∷ int_type
    ∷ unsigned_int ∷ long_type ∷ unsigned_long ∷ long_long ∷ unsigned_long_long ∷ wchar_type
    ∷ char16_type ∷ char32_type ∷ float_type ∷ double_type ∷ long_double ∷ string_type
    ∷ string_view_type ∷ char_pointer ∷ const_char_pointer ∷ []

nth : List TypeName → ℕ → TypeName
nth [] k = bool_type
nth (t ∷ ts) zero = t
nth (t ∷ ts) (suc k) = nth ts k

type_of : ℕ → ℕ → TypeName
unfolding nth
type_of k n =
    if k == 22
    then char_array n
    else if k == 23
    then other_scalar n
    else if k == 24
    then other_type n
    else nth kinds k

type_of-type_kind : (t : TypeName) → type_of (type_kind t) (type_index t) ≡ t
unfolding type_of
type_of-type_kind (char_array n) = refl
type_of-type_kind (other_scalar n) = refl
type_of-type_kind (other_type n) = refl
type_of-type_kind bool_type = refl
type_of-type_kind char_type = refl
type_of-type_kind signed_char = refl
type_of-type_kind unsigned_char = refl
type_of-type_kind short_type = refl
type_of-type_kind unsigned_short = refl
type_of-type_kind int_type = refl
type_of-type_kind unsigned_int = refl
type_of-type_kind long_type = refl
type_of-type_kind unsigned_long = refl
type_of-type_kind long_long = refl
type_of-type_kind unsigned_long_long = refl
type_of-type_kind wchar_type = refl
type_of-type_kind char16_type = refl
type_of-type_kind char32_type = refl
type_of-type_kind float_type = refl
type_of-type_kind double_type = refl
type_of-type_kind long_double = refl
type_of-type_kind string_type = refl
type_of-type_kind string_view_type = refl
type_of-type_kind char_pointer = refl
type_of-type_kind const_char_pointer = refl

same_self : (k n : ℕ) → (k == k && n == n) ≡ true
same_self k n = ground arith

pub is_same_iff : (a b : TypeName) → (is_same a b ≡ true) ↔ (a ≡ b)
is_same_iff a b = (
  λ h.
      let k : type_kind a ≡ type_kind b = ground arith in
      let n : type_index a ≡ type_index b = ground arith in
      sym (type_of-type_kind a) ∙ ap₂ type_of k n ∙ type_of-type_kind b,
  λ e. subst (λ c. is_same a c ≡ true) e (same_self (type_kind a) (type_index a)),
)

-- The names of types, in order.
abbrev pub type_names : List Qualified → List TypeName
type_names [] = []
type_names (q ∷ qs) = q.name ∷ type_names qs

same_types_iff :
    (declared params : List Qualified)
    → (same_types (normalize_tuple declared) (normalize_tuple params) ≡ true)
      ↔ (type_names declared ≡ type_names params)
same_types_iff [] [] = (λ h. refl, λ h. refl)
same_types_iff [] (p ∷ ps) = (λ h. cc h, λ h. cc h)
same_types_iff (d ∷ ds) [] = (λ h. cc h, λ h. cc h)
same_types_iff (d ∷ ds) (p ∷ ps) =
    let (to, from) = same_types_iff ds ps in
    let (eq, same) = is_same_iff d.name p.name in
    (
      λ h. ap₂ (λ t ts. t ∷ ts) (eq (ground arith)) (to (ground arith)),
      λ h. rw (same (cc), from (cc)),
    )

-- The parameters of a message are accepted exactly if they have the declared types, in order and number, up
-- to references and qualifiers.
pub parameter_match_iff :
    (declared params : List Qualified)
    → (parameter_match declared params ≡ true) ↔ (type_names declared ≡ type_names params)
unfolding parameter_match
parameter_match_iff declared params = same_types_iff declared params
