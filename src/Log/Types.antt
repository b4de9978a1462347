-- ===== src/Log/Types.antt =====
-- What the templates of platform/ara-log/include/ara/log ask of types: the overloads of log_stream.h, and
-- NormalizedType, kParameterMatch and RenderParameter of modelled_message.h.
pub mod Overloads
pub mod Parameters
use adaptive_pi.Prelude.{
  ℕ, ◌+◌, Bool, true, false, not, ◌&&◌, ◌||◌, List, [], ◌∷◌, ◌==◌, if◌then◌else◌,
}

-- A type without references and qualifiers. An array of `char` has a size; of the scalars that are not named (enumerations,
-- pointers) the numbers 0 and 1 are the pointers to `volatile char` and to `const volatile char`, and 2
-- is the enumeration LogLevel; of the other types 0 is `void`.
pub data TypeName : Type 0 where
  bool_type char_type signed_char unsigned_char : TypeName
  short_type unsigned_short int_type unsigned_int : TypeName
  long_type unsigned_long long_long unsigned_long_long : TypeName
  wchar_type char16_type char32_type : TypeName
  float_type double_type long_double : TypeName
  string_type string_view_type : TypeName
  char_pointer const_char_pointer : TypeName
  char_array other_scalar other_type : ℕ → TypeName

pub data Reference : Type 0 where
  no_reference lvalue_reference rvalue_reference : Reference

pub record Qualified : Type 0 where
  pub name : TypeName
  pub is_const : Bool
  pub is_volatile : Bool
  pub reference : Reference

-- A number for each kind of type, and the index in the kinds that have many.
abbrev pub type_kind : TypeName → ℕ
type_kind bool_type = 0
type_kind char_type = 1
type_kind signed_char = 2
type_kind unsigned_char = 3
type_kind short_type = 4
type_kind unsigned_short = 5
type_kind int_type = 6
type_kind unsigned_int = 7
type_kind long_type = 8
type_kind unsigned_long = 9
type_kind long_long = 10
type_kind unsigned_long_long = 11
type_kind wchar_type = 12
type_kind char16_type = 13
type_kind char32_type = 14
type_kind float_type = 15
type_kind double_type = 16
type_kind long_double = 17
type_kind string_type = 18
type_kind string_view_type = 19
type_kind char_pointer = 20
type_kind const_char_pointer = 21
type_kind (char_array n) = 22
type_kind (other_scalar n) = 23
type_kind (other_type n) = 24

abbrev pub type_index : TypeName → ℕ
type_index (char_array n) = n
type_index (other_scalar n) = n
type_index (other_type n) = n
type_index name = 0

-- `std::is_same_v` of types without references and qualifiers.
abbrev pub is_same : TypeName → TypeName → Bool
is_same a b = type_kind a == type_kind b && type_index a == type_index b

-- The qualifiers of an array are those of its elements.
abbrev pub char_array_pointer : (is_const is_volatile : Bool) → TypeName
char_array_pointer false false = char_pointer
char_array_pointer true false = const_char_pointer
char_array_pointer false true = other_scalar 0
char_array_pointer true true = other_scalar 1

-- `std::decay_t`.
abbrev pub decay : Qualified → TypeName
decay q = elim q.name [ char_array n ↦ char_array_pointer q.is_const q.is_volatile | name ↦ name ]

abbrev pub is_integral : TypeName → Bool
is_integral bool_type = true
is_integral char_type = true
is_integral signed_char = true
is_integral unsigned_char = true
is_integral short_type = true
is_integral unsigned_short = true
is_integral int_type = true
is_integral unsigned_int = true
is_integral long_type = true
is_integral unsigned_long = true
is_integral long_long = true
is_integral unsigned_long_long = true
is_integral wchar_type = true
is_integral char16_type = true
is_integral char32_type = true
is_integral name = false

abbrev pub is_scalar : TypeName → Bool
is_scalar string_type = false
is_scalar string_view_type = false
is_scalar (char_array n) = false
is_scalar (other_type n) = false
is_scalar name = true

-- The parameter types of the overloads that are no templates, without the reference of `const std::string&`. An
-- argument of type `char*` is converted to `const char*` by a qualification.
abbrev pub has_overload : TypeName → Bool
has_overload string_view_type = true
has_overload string_type = true
has_overload const_char_pointer = true
has_overload char_pointer = true
has_overload char_type = true
has_overload bool_type = true
has_overload float_type = true
has_overload double_type = true
has_overload name = false

-- The condition of the template for integers, which is deduced from an argument by value.
unfoldable pub integer_enabled : TypeName → Bool
integer_enabled t =
    is_integral t
    && (not (is_same t bool_type)
        && (not (is_same t char_type)
            && (not (is_same t wchar_type)
                && (not (is_same t char16_type) && not (is_same t char32_type)))))

-- The condition of the deleted template, on the decayed type.
unfoldable pub is_refused : TypeName → Bool
is_refused t = not (
    (is_integral t
      && (not (is_same t wchar_type)
          && (not (is_same t char16_type) && not (is_same t char32_type))))
    || (is_same t float_type
        || (is_same t double_type
            || (is_same t string_type
                || (is_same t string_view_type
                    || (is_same t char_pointer || is_same t const_char_pointer))))))

unfoldable pub deleted_enabled : Qualified → Bool
unfolding is_refused
deleted_enabled q = is_refused (decay q)

-- `NormalizedType`.
abbrev pub normalized : Qualified → Qualified
normalized q = record q { is_const = false; is_volatile = false; reference = no_reference }

-- The `Type` of `NormalizeParameterTuple`.
abbrev pub normalize_tuple : List Qualified → List Qualified
normalize_tuple [] = []
normalize_tuple (q ∷ qs) = normalized q ∷ normalize_tuple qs

-- `std::is_same_v` of two tuples of normalized types.
abbrev pub same_types : List Qualified → List Qualified → Bool
same_types [] [] = true
same_types (a ∷ as') (b ∷ bs) = is_same a.name b.name && same_types as' bs
same_types as' bs = false

-- `kParameterMatch`.
unfoldable pub parameter_match : (declared params : List Qualified) → Bool
parameter_match declared params = same_types (normalize_tuple declared) (normalize_tuple params)

-- The type of what `RenderParameter` returns for a parameter `const T&`: a copy of a volatile scalar, and else
-- the reference.
unfoldable pub render_parameter : Qualified → Qualified
render_parameter t =
    if t.is_volatile && is_scalar t.name
    then normalized t
    else record t { is_const = true; reference = lvalue_reference }
