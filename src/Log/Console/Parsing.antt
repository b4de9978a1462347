-- ===== src/Log/Console/Parsing.antt =====
-- A reader of the documented format of records, independent of the code that writes them.
use adaptive_pi.Prelude.{
  ℕ, ◌≡◌, refl, false, Option, none, some, ◌∷◌, ◌++◌, Bytes, codes, bind, bytes_eq, is_empty,
  if◌then◌else◌, arith, zero, suc,
}
use adaptive_pi.Prelude.Decimal.{expect, read_field}
use adaptive_pi.Log.Level.{
  LogLevel, IsSeverity, level_name, k_fatal, k_error, k_warn, k_info, k_debug, k_verbose,
}
use adaptive_pi.Log.Timestamp.Fields.{Date, read_date}
use adaptive_pi.Log.Console.Escaping.{read_escaped}

-- What a record says.
pub record Entry : Type 0 where
  pub date : Date
  pub process_id : ℕ
  pub thread_id : ℕ
  pub level : LogLevel
  pub context : Bytes
  pub message : Bytes

infixl 5 ◌>>=◌
abbrev ◌>>=◌ : {A B : Type 0} → Option A → (A → Option B) → Option B
m >>= f = bind m f

unfoldable pub level_of : Bytes → Option LogLevel
unfolding bytes_eq
level_of name =
    if bytes_eq name (codes "FATAL")
    then some k_fatal
    else if bytes_eq name (codes "ERROR")
    then some k_error
    else if bytes_eq name (codes "WARN")
    then some k_warn
    else if bytes_eq name (codes "INFO")
    then some k_info
    else if bytes_eq name (codes "DEBUG")
    then some k_debug
    else if bytes_eq name (codes "VERBOSE")
    then some k_verbose
    else none

unfoldable pub read_record : Bytes → Option Entry
read_record s = do
  s ← expect b'[' s
  (date, s) ← read_date s
  s ← expect b']' s
  s ← expect b'[' s
  (pid, s) ← read_field b']' s
  s ← expect b'[' s
  (tid, s) ← read_field b']' s
  s ← expect b'[' s
  (name, s) ← read_escaped b']' false s
  level ← level_of name
  s ← expect b'[' s
  (context, s) ← read_escaped b']' false s
  s ← expect b' ' s
  (message, s) ← read_escaped b'\n' false s
  if is_empty s
      then some (record {
        date = date;
        process_id = pid;
        thread_id = tid;
        level = level;
        context = context;
        message = message;
      })
      else none

pub level_of-level_name :
    (level : LogLevel) → IsSeverity level → level_of (level_name level) ≡ some level
unfolding level_of level_name
level_of-level_name zero s = absurd (omega (arith, s.above))
level_of-level_name (suc zero) s = refl
level_of-level_name (suc (suc zero)) s = refl
level_of-level_name (suc (suc (suc zero))) s = refl
level_of-level_name (suc (suc (suc (suc zero)))) s = refl
level_of-level_name (suc (suc (suc (suc (suc zero))))) s = refl
level_of-level_name (suc (suc (suc (suc (suc (suc zero)))))) s = refl
level_of-level_name (suc (suc (suc (suc (suc (suc (suc n))))))) s = absurd (omega (arith, s.below))

pub read_escaped-level_name :
    (level : LogLevel) (rest : Bytes)
    → IsSeverity level
    → read_escaped b']' false (level_name level ++ b']' ∷ rest) ≡ some (level_name level, rest)
unfolding read_escaped level_name
read_escaped-level_name zero rest s = absurd (omega (arith, s.above))
read_escaped-level_name (suc zero) rest s = refl
read_escaped-level_name (suc (suc zero)) rest s = refl
read_escaped-level_name (suc (suc (suc zero))) rest s = refl
read_escaped-level_name (suc (suc (suc (suc zero)))) rest s = refl
read_escaped-level_name (suc (suc (suc (suc (suc zero))))) rest s = refl
read_escaped-level_name (suc (suc (suc (suc (suc (suc zero)))))) rest s = refl
read_escaped-level_name (suc (suc (suc (suc (suc (suc (suc n))))))) rest s =
    absurd (omega (arith, s.below))
