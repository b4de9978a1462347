-- ===== src/Service.antt =====
-- apps/platform-test-service: src/build_info.cpp and src/main.cpp.
use adaptive_pi.Prelude.{ℕ, Bytes, codes, [], ◌∷◌}

-- `ApplicationName` and `Version`.
abbrev pub application_name : Bytes
application_name = codes "platform-test-service"

abbrev pub version : Bytes
version = codes "0.2.0"

module _ {W : Type 0} (out : Bytes → W → W) where
  -- `main`: its exit status and the world behind it; `out` inserts a text into `std::cout`.
  unfoldable pub service_main : W → ℕ × W
  service_main w = (0, out (b'\n' ∷ []) (out version (out (codes " v") (out application_name w))))
