-- ===== src/Examples/Compiling.antt =====
-- What compiles: an argument, and a call of LogWith.
use adaptive_pi.Prelude.{◌≡◌, ◌↔◌, ◌≢◌, true, false, not, ◌&&◌, ◌||◌, [], ◌∷◌, codes, refl}
use adaptive_pi.Log.Types.{
  Qualified, char_array, int_type, lvalue_reference, no_reference, decay, has_overload,
  integer_enabled, deleted_enabled, render_parameter,
}
use adaptive_pi.Log.Types.Overloads.{deleted_enabled_iff}
use adaptive_pi.Log.Types.Parameters.{type_names}
use adaptive_pi.Log.Modelled.{tag_type, location_type}
use adaptive_pi.Log.Modelled.Checks.{Selection}
use adaptive_pi.Log.Modelled.Compiling.{
  log_level_type, void_type, MessageType, compiles, AllAllowed, compiles_iff,
}

-- The type of a string literal as an argument, and two types of parameters.
abbrev literal : Qualified
literal = record {
  name = char_array 6;
  is_const = true;
  is_volatile = false;
  reference = lvalue_reference;
}

abbrev number : Qualified
number = record { name = int_type; is_const = false; is_volatile = false; reference = no_reference }

abbrev register_number : Qualified
register_number = record {
  name = int_type;
  is_const = true;
  is_volatile = true;
  reference = lvalue_reference;
}

deleted_enabled_iff_example :
    (deleted_enabled literal
      ≡ not (has_overload (decay literal) || integer_enabled (decay literal)))
    × ((has_overload (decay literal) && integer_enabled (decay literal)) ≡ false)
    × (deleted_enabled (render_parameter literal) ≡ deleted_enabled literal)
deleted_enabled_iff_example = deleted_enabled_iff literal

-- A message with one number; its level is declared `constexpr`.
abbrev can_message : MessageType
can_message = record {
  parameters = number ∷ [];
  id = codes "CAN_1";
  level = record {
    name = log_level_type;
    is_const = true;
    is_volatile = false;
    reference = no_reference;
  };
  render_returns = void_type;
  render_noexcept = true;
}

compiles_iff_example :
    (compiles can_message (register_number ∷ []) (tag_type ∷ location_type ∷ []) ≡ true) ↔ (
      (type_names (number ∷ []) ≡ type_names (register_number ∷ []))
      × Selection (tag_type ∷ location_type ∷ [])
      × (codes "CAN_1" ≢ [])
      × AllAllowed (codes "CAN_1")
      × (log_level_type ≡ log_level_type)
      × (void_type ≡ void_type)
      × (true ≡ true))
compiles_iff_example =
    compiles_iff can_message (register_number ∷ []) (tag_type ∷ location_type ∷ [])

-- A Render that may throw is refused.
refuses_throwing :
    compiles (record can_message { render_noexcept = false }) (number ∷ []) [] ≡ false
unfolding compiles adaptive_pi.Log.Types.parameter_match adaptive_pi.Log.Modelled.valid_attributes
    adaptive_pi.Log.Modelled.is_valid_message_id
refuses_throwing = refl
