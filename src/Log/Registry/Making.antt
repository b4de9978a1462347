-- ===== src/Log/Registry/Making.antt =====
-- The logger objects that Register makes.
use mathlib.Core.Path.{subst}
use adaptive_pi.Prelude.{
  ◌≡◌, ◌≤◌, refl, sym, ◌∙◌, Option, none, [], ◌∷◌, Bytes, Run, done, length, take, take-memcpy,
  le→ltb_false, arith,
}
use adaptive_pi.Log.Level.{LogLevel, k_verbose}
use adaptive_pi.Log.Logger.{
  Pointer, Logger, make_logger, context_id, context_description, default_threshold,
}
use adaptive_pi.Log.Registry.{Registry, array_size, filled}
use adaptive_pi.Log.Registry.Outcome.{Made}

take-filled :
    (array text : Bytes)
    → length array ≡ array_size text
    → take (length text) (filled array text) ≡ text
take-filled array [] h = refl
take-filled array (c ∷ text) h =
    take-memcpy array 0 (length (c ∷ text)) (c ∷ text) (omega arith) (omega (arith, h))

done_injective : {A : Type 0} {a b : A} → Path (Run ⊥ A) (done a) (done b) → a ≡ b
done_injective h = cc

module _ {W : Type 0} (id description : Bytes) (threshold : LogLevel) (r : Registry W) where
  pub linked-Made :
      (logger : Logger W) (next : Option Pointer)
      → Made id description threshold r logger
      → Made id description threshold r (record logger { next = next })
  unfolding context_id context_description default_threshold
  linked-Made logger next m = record {
    identifier = m.identifier;
    says = m.says;
    level = m.level;
    writes = m.writes;
    reads = m.reads;
  }

  -- The object that the constructor makes of the two arrays.
  abbrev pub constructed : Bytes → Bytes → Logger W
  constructed id_buffer description_buffer = record {
    context_id_bytes = filled id_buffer id;
    context_id_size = length id;
    description_bytes = filled description_buffer description;
    description_size = length description;
    threshold = threshold;
    sink = r.selected_sink;
    metadata_provider = r.selected_metadata_provider;
    next = none;
  }

  pub make_logger-constructed :
      (id_buffer description_buffer : Bytes)
      → threshold ≤ k_verbose
      → make_logger
          (filled id_buffer id)
          (length id)
          (filled description_buffer description)
          (length description)
          threshold
          r.selected_sink
          r.selected_metadata_provider
        ≡ done (constructed id_buffer description_buffer)
  unfolding make_logger
  make_logger-constructed id_buffer description_buffer t = rw (le→ltb_false k_verbose threshold t)

  pub constructed-Made :
      (id_buffer description_buffer : Bytes)
      → length id_buffer ≡ array_size id
      → length description_buffer ≡ array_size description
      → Made id description threshold r (constructed id_buffer description_buffer)
  unfolding context_id context_description default_threshold
  constructed-Made id_buffer description_buffer n k = record {
    identifier = take-filled id_buffer id n;
    says = take-filled description_buffer description k;
    level = refl;
    writes = refl;
    reads = refl;
  }

  -- The object that was made of the two arrays answers for the arguments.
  pub make_logger-Made :
      (id_buffer description_buffer : Bytes) {logger : Logger W}
      → threshold ≤ k_verbose
      → length id_buffer ≡ array_size id
      → length description_buffer ≡ array_size description
      → make_logger
          (filled id_buffer id)
          (length id)
          (filled description_buffer description)
          (length description)
          threshold
          r.selected_sink
          r.selected_metadata_provider
        ≡ done logger
      → Made id description threshold r logger
  make_logger-Made id_buffer description_buffer t n k e =
      let same = sym (make_logger-constructed id_buffer description_buffer t) ∙ e in
      subst (Made id description threshold r) (done_injective same)
        (constructed-Made id_buffer description_buffer n k)
