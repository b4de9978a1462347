-- ===== src/Log/Metadata.antt =====
-- platform/ara-log/src/metadata_provider.h and linux_metadata_provider.cpp: the time, process and
-- thread of a record. `W` is the state of the world that a provider reads.
use adaptive_pi.Prelude.{◌⊎◌, ◌≡◌, Bool, true, false, ◌&&◌, if◌then◌else◌, arith}
use adaptive_pi.Prelude.Int.{ℤ, pos, negsuc, ◌+ℤ◌, ◌-ℤ◌, ◌*ℤ◌, ◌/ℤ◌, ◌≤ℤ◌, leb_ℤ, ltb_ℤ}

pub record RuntimeMetadata : Type 0 where
  pub unix_milliseconds : ℤ
  pub process_id : ℤ
  pub thread_id : ℤ

-- What `bool Read(RuntimeMetadata&)` does: it returns a Bool, having written the metadata, or
-- throws (the interface is not `noexcept`).
pub data Reading : Type 0 where
  returns : Bool → RuntimeMetadata → Reading
  throws : Reading

-- An implementation of the interface, over the metadata that the caller passes in.
pub record MetadataProvider (W : Type 0) : Type 0 where
  pub read : RuntimeMetadata → W → Reading × W

-- `RuntimeMetadata metadata{}`.
abbrev pub zero_metadata : RuntimeMetadata
zero_metadata = record { unix_milliseconds = pos 0; process_id = pos 0; thread_id = pos 0 }

abbrev pub int64_max : ℤ
int64_max = pos 0x7fff_ffff_ffff_ffff

abbrev pub int64_min : ℤ
int64_min = negsuc 0x7fff_ffff_ffff_ffff

abbrev pub IsInt64 : ℤ → Type 0
IsInt64 a = (int64_min ≤ℤ a) × (a ≤ℤ int64_max)

-- What the kernel answers: the return value of `clock_gettime`, its `timespec`, the two ids.
pub record Clock : Type 0 where
  pub status : ℤ
  pub tv_sec : ℤ
  pub tv_nsec : ℤ
  pub pid : ℤ
  pub tid : ℤ

abbrev is_zero : ℤ → Bool
is_zero a = leb_ℤ a (pos 0) && leb_ℤ (pos 0) a

-- `LinuxMetadataProvider::Read`, given what the kernel answers.
unfoldable pub linux_read : Clock → RuntimeMetadata → Bool × RuntimeMetadata
linux_read c metadata =
    if is_zero c.status
    then (let milliseconds = c.tv_nsec /ℤ 1000000 in
        if ltb_ℤ (pos 0) c.pid
          && (ltb_ℤ (pos 0) c.tid
              && (leb_ℤ (int64_min /ℤ 1000) c.tv_sec
                  && leb_ℤ c.tv_sec ((int64_max -ℤ milliseconds) /ℤ 1000)))
        then (
          true,
          record {
            unix_milliseconds = c.tv_sec *ℤ pos 1000 +ℤ milliseconds;
            process_id = c.pid;
            thread_id = c.tid;
          },
        )
        else (false, metadata))
    else (false, metadata)

-- `clock_gettime` gives nanoseconds of one second.
pub record IsTimespec (c : Clock) : Type 0 where
  pub above : pos 0 ≤ℤ c.tv_nsec
  pub below : c.tv_nsec ≤ℤ pos 999999999

-- The published metadata: the time in milliseconds, computed in 64 bits, and the two ids.
pub record Published (c : Clock) (m : RuntimeMetadata) : Type 0 where
  pub time : m.unix_milliseconds ≡ c.tv_sec *ℤ pos 1000 +ℤ c.tv_nsec /ℤ 1000000
  pub product_fits : IsInt64 (c.tv_sec *ℤ pos 1000)
  pub sum_fits : IsInt64 (m.unix_milliseconds)
  pub process : (m.process_id ≡ c.pid) × (pos 1 ≤ℤ c.pid)
  pub thread : (m.thread_id ≡ c.tid) × (pos 1 ≤ℤ c.tid)

-- A reading that succeeds with a valid timespec gives the time in milliseconds, with no overflow of 64 bits on the
-- way, and the two ids, which are positive.
pub linux_read-Published :
    (c : Clock) (m m' : RuntimeMetadata)
    → IsTimespec c
    → linux_read c m ≡ (true, m')
    → Published c m'
unfolding linux_read ◌*ℤ◌ ◌+ℤ◌ ◌-ℤ◌ ◌/ℤ◌
linux_read-Published c m m' t h = record {
  time = ground arith;
  product_fits = ground arith;
  sum_fits = ground arith;
  process = ground arith;
  thread = ground arith;
}

-- Why a reading can fail: the clock, an id, or a time that 64 bits do not hold.
abbrev pub Refusal : Clock → Type 0
Refusal c =
    (is_zero c.status ≡ false)
    ⊎ (c.pid ≤ℤ pos 0)
    ⊎ (c.tid ≤ℤ pos 0)
    ⊎ ((c.tv_sec *ℤ pos 1000 +ℤ pos 1) ≤ℤ int64_min)
    ⊎ ((int64_max +ℤ pos 1) ≤ℤ (c.tv_sec *ℤ pos 1000 +ℤ c.tv_nsec /ℤ 1000000))

-- A reading with a valid timespec that fails leaves the metadata as it was, and fails for a reason: the
-- clock gave none, an id is not positive, or the seconds in milliseconds or the time overflow 64 bits.
pub linux_read-Refusal :
    (c : Clock) (m m' : RuntimeMetadata)
    → IsTimespec c
    → linux_read c m ≡ (false, m')
    → (m' ≡ m) × Refusal c
unfolding linux_read ◌*ℤ◌ ◌+ℤ◌ ◌-ℤ◌ ◌/ℤ◌
linux_read-Refusal c m m' t h = (ground arith, ground arith)
