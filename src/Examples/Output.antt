-- ===== src/Examples/Output.antt =====
-- The standard output: a message of a registered logger, and the platform test service.
use adaptive_pi.Service.{service_main}
use adaptive_pi.Prelude.{◌++◌, ℕ, ◌≡◌, refl, some, [], ◌∷◌, Bytes, codes, done, length, arith}
use adaptive_pi.Log.Level.{k_info, k_warn}
use adaptive_pi.Log.Metadata.{Clock, zero_metadata, linux_read}
use adaptive_pi.Log.Logger.{Logger}
use adaptive_pi.Log.Stream.{destroy}
use adaptive_pi.Log.Stream.Inserting.{insert_all}
use adaptive_pi.Log.Registry.{Registry, make_registry}
use adaptive_pi.Log.Facade.{with_level, make_default_registry, try_create_logger}
use adaptive_pi.Log.Facade.Output.{Answered, print}
use adaptive_pi.Log.Facade.Whole.{try_create_logger-print}
use adaptive_pi.Examples.Records.{stopped_clock, World, answers}
use adaptive_pi.Examples.Streams.{tiny, row, row_text}
use adaptive_pi.Examples.Registries.{nothing, roomy, roomy-Provides, created, created_value}

-- An `fwrite` that writes everything, and a kernel whose clock stands.
abbrev keep : Bytes → World → ℕ × World
keep record_bytes w = (length record_bytes, record_bytes ∷ w)

abbrev ask : World → Clock × World
ask w = (answers, w)

abbrev owning : Registry World
owning =
    (try_create_logger roomy (codes "NET") (codes "Network") k_info
      (make_default_registry keep ask nothing)).0

created_there :
    try_create_logger roomy
      (codes "NET")
      (codes "Network")
      k_info
      (make_default_registry keep ask nothing)
    ≡ (owning, done created)
unfolding try_create_logger adaptive_pi.Log.Registry.register adaptive_pi.Core.Storage.make_storage
created_there = refl

answers-Answered : Answered answers
answers-Answered = record {
  timespec = record { above = omega arith; below = omega arith };
  process = omega arith;
  thread = omega arith;
}

try_create_logger-print_example :
    (logger : Logger World) × (owning.heap 100 ≡ some logger)
    × (destroy stopped_clock (insert_all tiny row (with_level logger k_warn)) []
        ≡ print stopped_clock keep k_warn
            (codes "NET")
            (codes "n=-128true-inf!end")
            (linux_read answers zero_metadata)
            [])
try_create_logger-print_example =
    try_create_logger-print stopped_clock keep ask tiny nothing roomy (codes "NET")
      (codes "Network") k_info k_warn owning created 100 row (codes "n=-128true-inf!end") []
      roomy-Provides created_there created_value
      (record { above = omega arith; below = omega arith }) (omega arith) answers-Answered
      (omega arith) row_text (λ h. cc h) (omega arith)

-- What the platform test service prints.
service_output : service_main (λ text w. w ++ text) [] ≡ (0, codes "platform-test-service v0.2.0\n")
unfolding service_main
service_output = refl
