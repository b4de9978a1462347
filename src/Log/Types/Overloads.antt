-- ===== src/Log/Types/Overloads.antt =====
-- The overloads of `operator<<` for every type of argument.
use adaptive_pi.Prelude.{◌≡◌, refl, Bool, true, false, not, ◌&&◌, ◌||◌, arith, inl, inr, Bool-cases}
use adaptive_pi.Log.Types.{
  TypeName, Qualified, Reference, no_reference, lvalue_reference, decay, is_scalar, has_overload,
  integer_enabled, deleted_enabled, render_parameter, is_refused, char_array, other_scalar,
  other_type, bool_type, char_type, signed_char, unsigned_char, short_type, unsigned_short,
  int_type, unsigned_int, long_type, unsigned_long, long_long, unsigned_long_long, wchar_type,
  char16_type, char32_type, float_type, double_type, long_double, string_type, string_view_type,
  char_pointer, const_char_pointer,
}

-- The overloads of one decayed type.
abbrev Split : TypeName → Type 0
Split t =
    (is_refused t ≡ not (has_overload t || integer_enabled t))
    × ((has_overload t && integer_enabled t) ≡ false)

split : (t : TypeName) → Split t
unfolding is_refused integer_enabled
split (char_array n) = (ground arith, refl)
split (other_scalar n) = (ground arith, refl)
split (other_type n) = (ground arith, refl)
split bool_type = (refl, refl)
split char_type = (refl, refl)
split signed_char = (refl, refl)
split unsigned_char = (refl, refl)
split short_type = (refl, refl)
split unsigned_short = (refl, refl)
split int_type = (refl, refl)
split unsigned_int = (refl, refl)
split long_type = (refl, refl)
split unsigned_long = (refl, refl)
split long_long = (refl, refl)
split unsigned_long_long = (refl, refl)
split wchar_type = (refl, refl)
split char16_type = (refl, refl)
split char32_type = (refl, refl)
split float_type = (refl, refl)
split double_type = (refl, refl)
split long_double = (refl, refl)
split string_type = (refl, refl)
split string_view_type = (refl, refl)
split char_pointer = (refl, refl)
split const_char_pointer = (refl, refl)

-- A reference to a constant of the type is refused as the type is.
refused_const :
    (t : TypeName) (c v : Bool) (r s : Reference)
    → is_refused (decay (record { name = t; is_const = true; is_volatile = v; reference = r }))
      ≡ is_refused (decay (record { name = t; is_const = c; is_volatile = v; reference = s }))
unfolding is_refused
refused_const (char_array n) true v r s = refl
refused_const (char_array n) false true r s = refl
refused_const (char_array n) false false r s = refl
refused_const bool_type c v r s = refl
refused_const char_type c v r s = refl
refused_const signed_char c v r s = refl
refused_const unsigned_char c v r s = refl
refused_const short_type c v r s = refl
refused_const unsigned_short c v r s = refl
refused_const int_type c v r s = refl
refused_const unsigned_int c v r s = refl
refused_const long_type c v r s = refl
refused_const unsigned_long c v r s = refl
refused_const long_long c v r s = refl
refused_const unsigned_long_long c v r s = refl
refused_const wchar_type c v r s = refl
refused_const char16_type c v r s = refl
refused_const char32_type c v r s = refl
refused_const float_type c v r s = refl
refused_const double_type c v r s = refl
refused_const long_double c v r s = refl
refused_const string_type c v r s = refl
refused_const string_view_type c v r s = refl
refused_const char_pointer c v r s = refl
refused_const const_char_pointer c v r s = refl
refused_const (other_scalar n) c v r s = refl
refused_const (other_type n) c v r s = refl

-- The copy of a scalar is refused as the scalar is.
refused_copy :
    (t : TypeName) (c v : Bool) (r s : Reference)
    → is_scalar t ≡ true
    → is_refused (decay (record { name = t; is_const = false; is_volatile = false; reference = r }))
      ≡ is_refused (decay (record { name = t; is_const = c; is_volatile = v; reference = s }))
unfolding is_refused
refused_copy (char_array n) c v r s h = absurd (cc h)
refused_copy string_type c v r s h = absurd (cc h)
refused_copy string_view_type c v r s h = absurd (cc h)
refused_copy (other_type n) c v r s h = absurd (cc h)
refused_copy bool_type c v r s h = refl
refused_copy char_type c v r s h = refl
refused_copy signed_char c v r s h = refl
refused_copy unsigned_char c v r s h = refl
refused_copy short_type c v r s h = refl
refused_copy unsigned_short c v r s h = refl
refused_copy int_type c v r s h = refl
refused_copy unsigned_int c v r s h = refl
refused_copy long_type c v r s h = refl
refused_copy unsigned_long c v r s h = refl
refused_copy long_long c v r s h = refl
refused_copy unsigned_long_long c v r s h = refl
refused_copy wchar_type c v r s h = refl
refused_copy char16_type c v r s h = refl
refused_copy char32_type c v r s h = refl
refused_copy float_type c v r s h = refl
refused_copy double_type c v r s h = refl
refused_copy long_double c v r s h = refl
refused_copy char_pointer c v r s h = refl
refused_copy const_char_pointer c v r s h = refl
refused_copy (other_scalar n) c v r s h = refl

render_parameter-refused :
    (q : Qualified) → deleted_enabled (render_parameter q) ≡ deleted_enabled q
unfolding render_parameter deleted_enabled
render_parameter-refused q = elim (Bool-cases (q.is_volatile && is_scalar q.name)) [
  | inl e ↦
      rw e (refused_copy q.name q.is_const q.is_volatile no_reference q.reference (ground arith))
  | inr e ↦ rw e (refused_const q.name q.is_const q.is_volatile lvalue_reference q.reference)
]

-- Of the decayed type of an argument exactly one holds: it is the parameter type of an overload that is no
-- template, or `char*`; the template for integers takes it; the deleted template does. What RenderParameter
-- makes of a parameter is taken or refused by the deleted template as the parameter is.
pub deleted_enabled_iff :
    (q : Qualified)
    → (deleted_enabled q ≡ not (has_overload (decay q) || integer_enabled (decay q)))
      × ((has_overload (decay q) && integer_enabled (decay q)) ≡ false)
      × (deleted_enabled (render_parameter q) ≡ deleted_enabled q)
unfolding deleted_enabled
deleted_enabled_iff q =
    let (one, other) = split (decay q) in (one, other, render_parameter-refused q)
