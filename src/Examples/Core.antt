-- ===== src/Examples/Core.antt =====
-- Results and error codes at concrete values.
use adaptive_pi.Prelude.{
  ℕ, ◌≡◌, refl, true, none, some, codes, Run, done, throws, terminates, ◌>>=◌, noexcept, List, ◌∷◌,
  ◌+◌, arith, Bytes, [],
}
use adaptive_pi.Prelude.Int.{pos}
use adaptive_pi.Core.ErrorDomain.{throw_adaptive_pi_exception, ErrorCode, code_eq}
use adaptive_pi.Core.AdaptivePi.{Exception, adaptive_pi_exception, call_converter}
use adaptive_pi.Core.Storage.{
  Variant, ResultStorage, result, error, emplace, get_result, Holds, Emplaced, emplace-Emplaced,
}
use adaptive_pi.Core.Result.Lifetime.{
  Change, to_error, moving, changes, payload_changes, payload_change, changes-payload_changes,
}
use adaptive_pi.Core.Moving.{move_variant, move_storage, move_void_result}
use adaptive_pi.Core.Transfer.{transfer_storage, Transferred, transfer_storage-Transferred}
use adaptive_pi.Core.Result.{Result, value, emplace_value, value_or_throw}
use adaptive_pi.Core.Result.Access.{Answers, Holds-Answers, value_or_throw-or_throw}
use adaptive_pi.Core.VoidResult.{VoidResult, VoidAnswers, Holds-VoidAnswers}

-- The code of the third enumerator, and the same code in a domain with another name.
abbrev failure : ErrorCode
failure = record {
  value = pos 3;
  domain = record {
    address = 1;
    id = 0x4150490000000001;
    name = codes "AdaptivePi";
    converter = some throw_adaptive_pi_exception;
  };
}

abbrev renamed : ErrorCode
renamed = record {
  value = pos 3;
  domain = record { address = 2; id = 0x4150490000000001; name = codes "Copy"; converter = none };
}

-- A result that holds 7 in its second slot.
abbrev seven : Result ℕ ErrorCode
seven = record { first = none; second = some (result 7); active = 1 }

abbrev seven-Holds : Holds seven (result 7)
seven-Holds = record { in_array = omega arith; held = refl; spare = refl }

abbrev failed : Result ℕ ErrorCode
failed = record { first = some (error failure); second = none; active = 0 }

abbrev failed-Holds : Holds failed (error failure)
failed-Holds = record { in_array = omega arith; held = refl; spare = refl }

-- A program with no domains of its own.
abbrev no_others : ℕ → ErrorCode → Run Exception (Unit {0})
no_others n e = terminates

-- Emplacing the successor of the value that the result holds.
abbrev next_value : Result ℕ ErrorCode → Result ℕ ErrorCode × Run Exception ℕ
next_value r = (r, do n ← noexcept (value r); done (1 + n))

-- A construction that counts the value that the result holds down, and throws.
abbrev count_down :
    ResultStorage ℕ ErrorCode → ResultStorage ℕ ErrorCode × Run Exception (Variant ℕ ErrorCode)
count_down s = (record s { second = some (result 6) }, throws (adaptive_pi_exception failure))

emplaced :
    emplace_value next_value seven
    ≡ (record { first = some (result 8); second = none; active = 0 }, done tt)
unfolding emplace_value value emplace get_result
emplaced = refl

emplace-Emplaced_example :
    Emplaced
      (record { first = none; second = some (result 6); active = 1 })
      (result 6)
      (throws (adaptive_pi_exception failure))
      (emplace count_down seven)
emplace-Emplaced_example =
    emplace-Emplaced count_down seven (result 7) (result 6) seven-Holds
      (record { in_array = omega arith; held = refl; spare = refl }) refl

Holds-Answers_example : Answers failed (error failure)
Holds-Answers_example = Holds-Answers failed (error failure) failed-Holds

value_or_throw-or_throw_example :
    value_or_throw (call_converter no_others) failed ≡ throws (adaptive_pi_exception failure)
unfolding call_converter
value_or_throw-or_throw_example =
    value_or_throw-or_throw (call_converter no_others) failed (error failure) failed-Holds

abbrev refused : VoidResult ErrorCode
refused = record { first = some (error failure); second = none; active = 0 }

Holds-VoidAnswers_example : VoidAnswers (call_converter no_others) refused (error failure)
Holds-VoidAnswers_example =
    Holds-VoidAnswers (call_converter no_others) refused (error failure)
      (record { in_array = omega arith; held = refl; spare = refl })

same_code :
    (a : ErrorCode) (b : ErrorCode)
    → a.value ≡ b.value
    → a.domain.id ≡ b.domain.id
    → code_eq a b ≡ true
unfolding code_eq
same_code a b h k = ground arith

transfer_storage-Transferred_example :
    Transferred {X = Exception}
      (throws (adaptive_pi_exception failure))
      (transfer_storage (λ n. done n) (λ e. throws (adaptive_pi_exception e)) failed)
transfer_storage-Transferred_example =
    transfer_storage-Transferred (λ n. done n) (λ e. throws (adaptive_pi_exception e)) failed
      (error failure) failed-Holds

-- A vector that is moved is left empty.
abbrev move_bytes : Bytes → Bytes × Run Exception Bytes
move_bytes bytes = ([], done bytes)

abbrev move_code : ErrorCode → ErrorCode × Run Exception ErrorCode
move_code e = (e, done e)

abbrev up_message : ResultStorage Bytes ErrorCode
up_message = record { first = none; second = some (result (codes "up")); active = 1 }

-- A success that was moved from is still a success.
moved_success :
    (move_void_result move_code (record { first = some (result tt); second = none; active = 0 })).0
    ≡ record { first = some (result tt); second = none; active = 0 }
unfolding move_void_result move_variant move_storage
moved_success = refl

-- A result that holds "up" is moved from; then an error is refused by its constructor, which changes
-- what is held, and one that is made of nothing is emplaced.
abbrev life : List (Change Bytes ErrorCode Exception)
life =
    moving move_bytes move_code
    ∷ to_error (λ v. (result (codes "down"), throws (adaptive_pi_exception failure)))
    ∷ to_error (λ v. (v, done failure))
    ∷ []

changes-payload_changes_example :
    Holds (changes life up_message).0 (error failure)
    × ((changes life up_message).1
        ≡ done tt ∷ throws (adaptive_pi_exception failure) ∷ done tt ∷ [])
unfolding payload_changes move_variant payload_change
changes-payload_changes_example =
    changes-payload_changes life up_message (result (codes "up"))
      (record { in_array = omega arith; held = refl; spare = refl })
