-- ===== src/Log/Modelled/Compiling.antt =====
-- The static assertions of LogWith in platform/ara-log/include/ara/log/logger.h.
use adaptive_pi.Prelude.{
  ℕ, ◌≤◌, ◌≡◌, ◌≢◌, ◌⊎◌, ◌↔◌, refl, Bool, true, ◌&&◌, List, [], ◌∷◌, Bytes, arith, if◌then◌else◌,
  not, false, ap,
}
use adaptive_pi.Log.Types.{
  TypeName, other_scalar, other_type, Reference, no_reference, lvalue_reference, rvalue_reference,
  Qualified, normalized, is_same, parameter_match,
}
use adaptive_pi.Log.Types.Parameters.{type_names, is_same_iff, parameter_match_iff}
use adaptive_pi.Log.Modelled.{
  AttributeType, valid_attributes, is_allowed, all_allowed, is_valid_message_id,
}
use adaptive_pi.Log.Modelled.Checks.{Selection, valid_attributes_iff}

-- The type LogLevel, an enumeration.
abbrev pub log_level_type : TypeName
log_level_type = other_scalar 2

abbrev pub void_type : Qualified
void_type = record {
  name = other_type 0;
  is_const = false;
  is_volatile = false;
  reference = no_reference;
}

-- What the assertions ask of the type of a message: its ParameterTypes, `kId`, the type of `kLevel`, what a call
-- of its Render returns and whether that is `noexcept`.
pub record MessageType : Type 0 where
  pub parameters : List Qualified
  pub id : Bytes
  pub level : Qualified
  pub render_returns : Qualified
  pub render_noexcept : Bool

abbrev is_unqualified : Reference → Bool
is_unqualified no_reference = true
is_unqualified lvalue_reference = false
is_unqualified rvalue_reference = false

-- `std::is_same_v` with `void`, without normalization.
abbrev is_void : Qualified → Bool
is_void q =
    is_same q.name void_type.name
    && (not q.is_const && (not q.is_volatile && is_unqualified q.reference))

-- The assertions on a call, on the types of its parameters and of its attributes. Those on Render are
-- instantiated only for parameters that match and attributes that are valid.
unfoldable pub compiles : MessageType → (params : List Qualified) → List AttributeType → Bool
compiles message params attributes =
    let c_parameters_match = parameter_match message.parameters params in
    let c_attributes_valid = valid_attributes attributes in
    c_parameters_match
    && (c_attributes_valid
        && (is_valid_message_id message.id
            && (is_same (normalized message.level).name log_level_type
                && (if c_parameters_match && c_attributes_valid
                    then is_void message.render_returns && message.render_noexcept
                    else true))))

-- ASCII letters, digits and underscores.
abbrev pub Allowed : ℕ → Type 0
Allowed c =
    ((b'A' ≤ c) × (c ≤ b'Z')) ⊎ ((b'a' ≤ c) × (c ≤ b'z')) ⊎ ((b'0' ≤ c) × (c ≤ b'9')) ⊎ (c ≡ b'_')

abbrev pub AllAllowed : Bytes → Type 0
AllAllowed [] = Unit
AllAllowed (c ∷ s) = Allowed c × AllAllowed s

is_allowed_iff : (c : ℕ) → (is_allowed c ≡ true) ↔ Allowed c
unfolding is_allowed
is_allowed_iff c = (λ h. ground arith, λ h. ground arith)

all_allowed_iff : (s : Bytes) → (all_allowed s ≡ true) ↔ AllAllowed s
unfolding all_allowed
all_allowed_iff [] = (λ h. tt, λ h. refl)
all_allowed_iff (c ∷ s) = (
  λ h. ((is_allowed_iff c).0 (ground arith), (all_allowed_iff s).0 (ground arith)),
  λ (a, r). rw ((is_allowed_iff c).1 a, (all_allowed_iff s).1 r),
)

is_valid_message_id_iff :
    (id : Bytes) → (is_valid_message_id id ≡ true) ↔ ((id ≢ []) × AllAllowed id)
unfolding is_valid_message_id
is_valid_message_id_iff [] = (λ h. cc h, λ (n, a). absurd (n refl))
is_valid_message_id_iff (c ∷ s) =
    (λ h. (λ e. cc e, (all_allowed_iff (c ∷ s)).0 h), λ (n, a). (all_allowed_iff (c ∷ s)).1 a)

qualified_eq :
    (q r : Qualified)
    → q.name ≡ r.name
    → q.is_const ≡ r.is_const
    → q.is_volatile ≡ r.is_volatile
    → q.reference ≡ r.reference
    → q ≡ r
qualified_eq q r a b c d = cc

is_unqualified_iff : (r : Reference) → is_unqualified r ≡ true → r ≡ no_reference
is_unqualified_iff no_reference h = refl
is_unqualified_iff lvalue_reference h = absurd (cc h)
is_unqualified_iff rvalue_reference h = absurd (cc h)

is_void_iff : (q : Qualified) → (is_void q ≡ true) ↔ (q ≡ void_type)
is_void_iff q = (
  λ h.
      qualified_eq q void_type ((is_same_iff q.name void_type.name).0 (ground arith)) (ground arith)
        (ground arith) (is_unqualified_iff q.reference (ground arith)),
  λ e. ap is_void e,
)

-- A call of LogWith passes the static assertions of the template exactly if the parameters have the declared
-- types, in order and number, up to references and qualifiers; the attributes are none, a location, a tag,
-- or one of each in either order; the identifier is not empty and has only ASCII letters, digits and
-- underscores; the level is a LogLevel, up to references and qualifiers; and Render returns `void` itself
-- and is `noexcept`.
pub compiles_iff :
    (message : MessageType) (params : List Qualified) (attributes : List AttributeType)
    → (compiles message params attributes ≡ true) ↔ (
        (type_names message.parameters ≡ type_names params)
        × Selection attributes
        × (message.id ≢ [])
        × AllAllowed message.id
        × (message.level.name ≡ log_level_type)
        × (message.render_returns ≡ void_type)
        × (message.render_noexcept ≡ true))
unfolding compiles
compiles_iff message params attributes =
    let p = parameter_match_iff message.parameters params in
    let a = valid_attributes_iff attributes in
    let i = is_valid_message_id_iff message.id in
    let l = is_same_iff message.level.name log_level_type in
    let v = is_void_iff message.render_returns in
    (
      λ h.
          let (n, c) = i.0 (ground arith) in
          (
            p.0 (ground arith),
            a.0 (ground arith),
            n,
            c,
            l.0 (ground arith),
            v.0 (ground arith),
            ground arith,
          ),
      λ (same, s, n, c, level, void, noexcept).
          rw (p.1 same, a.1 s, i.1 (n, c), l.1 level, v.1 void, noexcept) refl,
    )
